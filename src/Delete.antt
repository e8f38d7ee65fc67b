-- ===== src/Delete.antt =====
-- src/storage/postgres_delete.cpp: the rows of a DELETE are sent as lists of ctids. The row ids are those of a
-- scan, so they are not negative. A statement that throws ends the operator.
use duckdb_postgres.Common.{
  ℕ, Bool, not, ◌+◌, ◌/◌, ◌%◌, ◌^◌, List, [], ◌∷◌, ◌++◌, ltb, if◌then◌else◌, Bytes, codes, length,
  decimal_text, Result, ok, ◌>>=◌,
}
mod Ctids
mod Rows
mod Tids
mod Examples

-- `PostgresDeleteGlobalState`, with what the transaction was asked to send.
pub record DeleteState : Type 0 where
  pub ctid_list : Bytes
  pub delete_count : ℕ
  pub sent : List Bytes

unfoldable pub new_delete_state : DeleteState
new_delete_state = record { ctid_list = []; delete_count = 0; sent = [] }

-- The ctid of a row id: the page, and the row on it.
unfoldable pub ctid_text : ℕ → Bytes
ctid_text row =
    codes "'("
    ++ (decimal_text (row / 2 ^ 16) ++ (codes "," ++ (decimal_text (row % 2 ^ 16) ++ codes ")'")))

-- The list in front of one more ctid.
unfoldable pub separated : Bytes → Bytes
separated [] = []
separated (c ∷ r) = (c ∷ r) ++ codes ","

pub record TableEntry : Type 0 where
  pub schema_name : Bytes
  pub name : Bytes

-- `write_identifier` and `requires_quotes` are the writer of identifiers and the keyword helper;
-- `answer` is what `PostgresTransaction::Query` returns behind the statements that were sent.
module _ (write_identifier : Bytes → Bytes) (requires_quotes : Bytes → Bool)
    (answer : List Bytes → Bytes → Result (Unit {0})) (table : TableEntry) where
  unfoldable pub quote_postgres_identifier : Bytes → Bytes
  quote_postgres_identifier text =
      if not (requires_quotes text) then text else write_identifier text

  unfoldable pub get_delete_sql : Bytes → Bytes
  get_delete_sql ctid_list =
      let table_name = quote_postgres_identifier table.name in
      codes "DELETE FROM "
      ++ (write_identifier table.schema_name
          ++ (codes "." ++ (table_name ++ (codes " WHERE ctid IN (" ++ (ctid_list ++ codes ")")))))

  unfoldable pub flush_list : DeleteState → Bytes → Result DeleteState
  flush_list s [] = ok s
  flush_list s (c ∷ r) =
      let sql = get_delete_sql (c ∷ r) in
      answer s.sent sql >>= λ done. ok (record s { ctid_list = []; sent = s.sent ++ sql ∷ [] })

  unfoldable pub flush : DeleteState → Result DeleteState
  flush s = flush_list s s.ctid_list

  -- The body of the loop in `Sink`.
  unfoldable pub add_row : DeleteState → ℕ → Result DeleteState
  add_row s row =
      let t = record s { ctid_list = separated s.ctid_list ++ ctid_text row } in
      if ltb 3000 (length t.ctid_list) then flush t else ok t

  unfoldable pub add_rows : DeleteState → List ℕ → Result DeleteState
  add_rows s [] = ok s
  add_rows s (row ∷ rows) = add_row s row >>= λ t. add_rows t rows

  unfoldable pub sink : DeleteState → List ℕ → Result DeleteState
  sink s chunk = add_rows s chunk >>= λ t.
      ok (record t { delete_count = (t.delete_count + length chunk) % 2 ^ 64 })

  -- A call of `Sink` for each chunk, and `Finalize`.
  unfoldable pub delete_chunks : DeleteState → List (List ℕ) → Result DeleteState
  delete_chunks s [] = flush s
  delete_chunks s (chunk ∷ chunks) = sink s chunk >>= λ t. delete_chunks t chunks
