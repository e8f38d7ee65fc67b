-- ===== src/Catalog.antt =====
-- src/storage/postgres_catalog_set.cpp: a set of catalog entries that is loaded once, and again when the answer
-- to the staleness query has changed. The entries are DuckDB's (`E`); the query's answer, the loading of a
-- subclass and the case-insensitive key of a name (`fold`) are parameters.
pub mod Signature
pub mod Lookup
pub mod Recreated
mod Examples
use duckdb_postgres.Common.{
  ℕ, suc, Bool, true, false, not, ◌&&◌, ◌||◌, List, [], ◌∷◌, ◌++◌, Option, none, some, ltb,
  if◌then◌else◌, equal, Bytes, codes, Result, ok, err, ◌>>=◌, invalid_input, internal,
}
use duckdb_postgres.Transaction.{Transaction, is_started, stage_staleness_signature}

-- The number stands for the set's identity.
pub record CatalogSet (E : Type 0) : Type 0 where
  pub identity : ℕ
  pub entries : List (Bytes × E)
  pub entry_map : List (Bytes × Bytes)
  pub is_loaded : Bool
  pub staleness_signature : Bytes

-- A row of the answer to the staleness query, of three columns or more.
abbrev pub StalenessRow : Type 0
StalenessRow = Bytes × (Bytes × (Bytes × List Bytes))

-- An answer to the staleness query: how many columns it has, and its rows. Of fewer columns than three no cell
-- is read.
pub record StalenessResult : Type 0 where
  pub column_count : ℕ
  pub rows : List StalenessRow

-- `find` and `insert` of a map, which keeps what is there.
unfoldable pub find_key {ℓ} : {A : Type ℓ} → Bytes → List (Bytes × A) → Option A
find_key key [] = none
find_key key (x ∷ xs) = if equal key x.0 then some x.1 else find_key key xs

unfoldable pub insert_key {ℓ} : {A : Type ℓ} → Bytes → A → List (Bytes × A) → List (Bytes × A)
insert_key key new [] = (key, new) ∷ []
insert_key key new (x ∷ xs) =
    let rest = insert_key key new xs in if equal key x.0 then x ∷ xs else x ∷ rest

unfoldable pub erase_key {ℓ} : {A : Type ℓ} → Bytes → List (Bytes × A) → List (Bytes × A)
erase_key key [] = []
erase_key key (x ∷ xs) = let rest = erase_key key xs in if equal key x.0 then rest else x ∷ rest

-- One row of the signature.
unfoldable pub row_signature : StalenessRow → Bytes
row_signature row = row.0 ++ (0 ∷ []) ++ row.1.0 ++ (0 ∷ []) ++ row.1.1.0 ++ (1 ∷ [])

unfoldable pub rows_signature : List StalenessRow → Bytes
rows_signature [] = []
rows_signature (row ∷ rows) = row_signature row ++ rows_signature rows

-- `ComputeStalenessSignature`.
unfoldable pub compute_staleness_signature : StalenessResult → Result Bytes
compute_staleness_signature result =
    if ltb result.column_count 3 then err invalid_input else ok (rows_signature result.rows)

-- `DropEntry`: the statement.
unfoldable pub drop_query : (Bytes → Bytes) → Bytes → Bool → Bool → Bool → Bytes → Bytes → Bytes
drop_query write_identifier type_name if_exists is_schema cascade schema name =
    codes "DROP "
    ++ type_name
    ++ codes " "
    ++ (if if_exists then codes " IF EXISTS " else [])
    ++ (if is_schema || equal schema [] then [] else write_identifier schema ++ codes ".")
    ++ write_identifier name
    ++ (if cascade then codes " CASCADE" else [])

-- What `TryLoadEntries` goes on to do under the lock: nothing, to compare with a signature, or to load.
pub data Plan : Type 0 where
  keep_entries load_entries : Plan
  compare_signature : Bytes → Plan

-- A search, and the one behind it that is made where the first finds nothing.
abbrev pub or_else {ℓ} : {A : Type ℓ} → Option A → Option A → Option A
or_else none second = second
or_else (some a) second = some a

module _ {E : Type 0} where
  -- `ClearEntries`.
  unfoldable pub clear_entries : CatalogSet E → CatalogSet E
  clear_entries s = record s { entries = []; entry_map = []; is_loaded = false }

  -- `PromoteStalenessSignature`.
  unfoldable pub promote_staleness_signature : Bytes → CatalogSet E → CatalogSet E
  promote_staleness_signature signature s = record s { staleness_signature = signature }

  -- `RefreshStalenessSignature`: `answer` is none where the set has no staleness query.
  unfoldable pub refresh_staleness_signature :
      Option (Result StalenessResult)
      → CatalogSet E
      → Transaction
      → Result (CatalogSet E × Transaction)
  refresh_staleness_signature none s t = ok (s, t)
  refresh_staleness_signature (some answer) s t = answer >>= λ result.
      compute_staleness_signature result >>= λ signature. ok (
        if is_started t.transaction_state
        then (s, stage_staleness_signature s.identity signature t)
        else (record s { staleness_signature = signature }, t))

  -- `CreateEntry`.
  unfoldable pub create_entry : (Bytes → Bytes) → Bytes → E → CatalogSet E → Result (CatalogSet E)
  create_entry fold [] e s = err internal
  create_entry fold (c ∷ r) e s = ok (record s {
    entries = insert_key (c ∷ r) e s.entries;
    entry_map = insert_key (fold (c ∷ r)) (c ∷ r) s.entry_map;
  })

  -- The two searches of `GetEntry`.
  unfoldable pub find_mapped : Option Bytes → CatalogSet E → Option E
  find_mapped none s = none
  find_mapped (some name) s = find_key name s.entries

  unfoldable pub find_entry : (Bytes → Bytes) → Bytes → CatalogSet E → Option E
  find_entry fold name s =
      or_else (find_key name s.entries) (find_mapped (find_key (fold name) s.entry_map) s)

  -- `LoadEntriesLocked`: `load` is the subclass's `LoadEntries`.
  unfoldable pub load_entries_locked :
      (CatalogSet E → Result (CatalogSet E))
      → Option (Result StalenessResult)
      → CatalogSet E
      → Transaction
      → Result (CatalogSet E × Transaction)
  load_entries_locked load answer s t = load s >>= λ loaded.
      refresh_staleness_signature answer loaded t >>= λ p. ok (record p.0 { is_loaded = true }, p.1)

  -- `TryLoadEntries` up to the lock. `internal` is `HasInternalDependencies`, and `loading_here` holds on the
  -- thread that loads the set.
  unfoldable pub plan_load :
      Bool → Bool → Option (Result StalenessResult) → CatalogSet E → Result Plan
  plan_load has_internal_dependencies loading_here answer s =
      if has_internal_dependencies && (s.is_loaded || loading_here)
      then ok keep_entries
      else if s.is_loaded
      then (elim answer [
        | none ↦ ok keep_entries
        | some result ↦ result >>= λ r.
            compute_staleness_signature r >>= λ signature. ok (compare_signature signature)
      ])
      else ok load_entries

  -- The rest of it, under the lock: `s` is the set as other threads left it.
  unfoldable pub finish_load :
      (CatalogSet E → Result (CatalogSet E))
      → Option (Result StalenessResult)
      → Plan
      → CatalogSet E
      → Transaction
      → Result (CatalogSet E × Transaction)
  finish_load load answer keep_entries s t = ok (s, t)
  finish_load load answer load_entries s t =
      let loaded = load_entries_locked load answer s t in if s.is_loaded then ok (s, t) else loaded
  finish_load load answer (compare_signature signature) s t =
      let again = load_entries_locked load answer (clear_entries s) t in
      let first = load_entries_locked load answer s t in
      if s.is_loaded
      then if equal signature s.staleness_signature then ok (s, t) else again
      else first

  -- `DropEntry`: the set behind the statement, `sent` being what the server answered to it.
  unfoldable pub drop_entry :
      Result Bytes
      → Option (Result StalenessResult)
      → Bytes
      → CatalogSet E
      → Transaction
      → Result (CatalogSet E × Transaction)
  drop_entry sent answer name s t = sent >>= λ done.
      refresh_staleness_signature answer (record s { entries = erase_key name s.entries }) t

  -- `TryLoadEntries`: `other_threads` is what they made of the set while this one asked the server.
  unfoldable pub try_load_entries :
      Bool
      → Bool
      → (CatalogSet E → Result (CatalogSet E))
      → Option (Result StalenessResult)
      → (CatalogSet E → CatalogSet E)
      → CatalogSet E
      → Transaction
      → Result (CatalogSet E × Transaction)
  try_load_entries has_internal_dependencies loading_here load answer other_threads s t =
      plan_load has_internal_dependencies loading_here answer s >>= λ p.
      finish_load load answer p (other_threads s) t
