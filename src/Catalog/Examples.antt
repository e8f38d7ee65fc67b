-- ===== src/Catalog/Examples.antt =====
-- The theorems on catalog sets at a set of two tables.
use duckdb_postgres.Common.{
  ℕ, ◌+◌, true, false, [], ◌∷◌, none, some, Bytes, codes, map, ok, ◌≡◌, ◌≢◌, ◌↔◌, refl, ap,
  if◌then◌else◌, leb, ◌&&◌, List, equal,
}
use duckdb_postgres.Transaction.{Transaction, transaction_not_yet_started, repeatable_read}
use duckdb_postgres.Catalog.{
  CatalogSet, insert_key, rows_signature, compute_staleness_signature, create_entry, find_entry,
  find_key, StalenessRow, drop_entry, erase_key, refresh_staleness_signature,
}
use duckdb_postgres.Catalog.Signature.{signed_cells, compute_staleness_signature_iff}
use duckdb_postgres.Catalog.Recreated.{find_entry-recreated}
use duckdb_postgres.Catalog.Lookup.{find_entry-create_entry, find_entry-create_entry-other}

-- The rows of the tables t and u; u is altered between them.
abbrev before_alter : List StalenessRow
before_alter =
    (codes "1", (codes "t", (codes "7", []))) ∷ (codes "2", (codes "u", (codes "8", []))) ∷ []

abbrev behind_alter : List StalenessRow
behind_alter =
    (codes "1", (codes "t", (codes "7", []))) ∷ (codes "2", (codes "u", (codes "9", []))) ∷ []

abbrev lower : ℕ → ℕ
lower c = if leb 65 c && leb c 90 then c + 32 else c

abbrev fold : Bytes → Bytes
fold s = map lower s

abbrev tables : CatalogSet ℕ
tables = record {
  identity = 0;
  entries = (codes "t", 1) ∷ (codes "u", 2) ∷ [];
  entry_map = (codes "t", codes "t") ∷ (codes "u", codes "u") ∷ [];
  is_loaded = true;
  staleness_signature = rows_signature before_alter;
}

abbrev idle : Transaction
idle = record {
  transaction_state = transaction_not_yet_started;
  isolation_level = repeatable_read;
  read_only = false;
  sent = [];
  pending_signatures = [];
  promoted = [];
}

-- The third cell of the second row.
abbrev last_cell : List (Bytes × (Bytes × Bytes)) → Bytes
last_cell (a ∷ b ∷ r) = b.1.1
last_cell _ = []

false-true : false ≡ true → ⊥
false-true h = cc

abbrev cleared : CatalogSet ℕ
cleared = record {
  identity = 0;
  entries = [];
  entry_map = [];
  is_loaded = false;
  staleness_signature = rows_signature before_alter;
}

compute_staleness_signature_iff_example :
    (compute_staleness_signature (record { column_count = 3 + 0; rows = behind_alter })
      ≡ compute_staleness_signature (record { column_count = 3 + 0; rows = before_alter }))
    ↔ (map signed_cells behind_alter ≡ map signed_cells before_alter)
compute_staleness_signature_iff_example =
    compute_staleness_signature_iff 0 0 behind_alter before_alter
      (
        (((refl, refl), tt), (((refl, refl), tt), ((refl, refl), tt))),
        ((((refl, refl), tt), (((refl, refl), tt), ((refl, refl), tt))), tt),
      )
      (
        (((refl, refl), tt), (((refl, refl), tt), ((refl, refl), tt))),
        ((((refl, refl), tt), (((refl, refl), tt), ((refl, refl), tt))), tt),
      )

abbrev with_v : CatalogSet ℕ
with_v = record tables {
  entries = (codes "t", 1) ∷ (codes "u", 2) ∷ (codes "V", 3) ∷ [];
  entry_map = (codes "t", codes "t") ∷ (codes "u", codes "u") ∷ (codes "v", codes "V") ∷ [];
}

created_v : create_entry fold (codes "V") 3 tables ≡ ok with_v
unfolding create_entry insert_key
created_v = refl

find_entry-create_entry_example : find_entry fold (codes "v") with_v ≡ some 3
unfolding find_key
find_entry-create_entry_example =
    find_entry-create_entry fold (codes "V") 3 tables with_v created_v (codes "v") refl refl refl
      refl

t_not_v : fold (codes "T") ≢ fold (codes "V")
t_not_v h = false-true (ap (λ s. equal s (fold (codes "V"))) h)

find_entry-create_entry-other_example :
    find_entry fold (codes "T") with_v ≡ find_entry fold (codes "T") tables
find_entry-create_entry-other_example =
    find_entry-create_entry-other fold (codes "V") 3 tables with_v created_v (codes "T")
      (refl, (refl, tt)) t_not_v

-- The table ab is dropped, and Ab is created.
abbrev with_old : CatalogSet ℕ
with_old = record tables {
  entries = (codes "ab", 4) ∷ [];
  entry_map = (codes "ab", codes "ab") ∷ [];
}

abbrev without_ab : CatalogSet ℕ
without_ab = record with_old { entries = [] }

abbrev with_new : CatalogSet ℕ
with_new = record without_ab { entries = (codes "Ab", 5) ∷ [] }

dropped_ab : drop_entry (ok []) none (codes "ab") with_old idle ≡ ok (without_ab, idle)
unfolding drop_entry erase_key refresh_staleness_signature
dropped_ab = refl

created_ab : create_entry fold (codes "Ab") 5 without_ab ≡ ok with_new
unfolding create_entry insert_key
created_ab = refl

renamed : codes "ab" ≢ codes "Ab"
renamed h = false-true (ap (λ s. equal s (codes "Ab")) h)

third : codes "AB" ≢ codes "Ab"
third h = false-true (ap (λ s. equal s (codes "Ab")) h)

find_entry-recreated_example : find_entry fold (codes "AB") with_new ≡ none
unfolding find_key
find_entry-recreated_example =
    find_entry-recreated fold (codes "ab") (codes "Ab") (codes "AB") 5 (ok []) none with_old
      without_ab with_new idle idle refl dropped_ab created_ab renamed refl third refl
