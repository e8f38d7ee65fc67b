-- ===== src/Delete/Examples.antt =====
-- A DELETE of three rows in two chunks from a table whose name needs quotes.
use duckdb_postgres.Common.{
  ℕ, arith, map, Bool, List, [], ◌∷◌, ◌++◌, Bytes, codes, equal, Result, ok, ◌≡◌, refl, ◌%◌, ◌^◌,
}
use duckdb_postgres.Delete.{DeleteState, new_delete_state, TableEntry, delete_chunks}
use duckdb_postgres.Delete.Tids.{Tid, row_id, all_tids, DeletesTids, delete_chunks-DeletesTids}

abbrev in_quotes : Bytes → Bytes
in_quotes text = codes "\"" ++ (text ++ codes "\"")

abbrev is_upper_t : Bytes → Bool
is_upper_t text = equal text (codes "T")

abbrev accept_all : List Bytes → Bytes → Result (Unit {0})
accept_all sent sql = ok tt

abbrev table_t : TableEntry
table_t = record { schema_name = codes "s"; name = codes "T" }

abbrev tid : ℕ → ℕ → Tid
tid page offset = record { page = page; offset = offset }

abbrev three_rows : List (List Tid)
three_rows = (tid 0 1 ∷ tid 1 2 ∷ []) ∷ (tid 0 3 ∷ []) ∷ []

delete_chunks-DeletesTids_example :
    (t : DeleteState) × (delete_chunks in_quotes is_upper_t accept_all table_t new_delete_state
        (map (λ c. map row_id c) three_rows)
      ≡ ok t)
    × DeletesTids in_quotes is_upper_t accept_all table_t t.sent (all_tids three_rows)
    × (t.ctid_list ≡ [])
    × (t.delete_count ≡ 3 % 2 ^ 64)
delete_chunks-DeletesTids_example =
    delete_chunks-DeletesTids in_quotes is_upper_t accept_all table_t (λ sent sql. refl) three_rows
      (omega arith, (omega arith, (omega arith, tt)))
