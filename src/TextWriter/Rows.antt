-- ===== src/TextWriter/Rows.antt =====
-- What the server reads of the rows that src/include/postgres_text_writer.hpp writes.
use duckdb_postgres.Common.{
  ℕ, zero, suc, true, false, List, [], ◌∷◌, ◌++◌, Option, none, some, ◌==◌, if◌then◌else◌, Bytes,
  ok, err, internal, ◌≡◌, refl, ap, ◌∙◌, inl, inr, ◌⊎◌, Bool-cases, append_assoc, map, All, length,
}
use duckdb_postgres.TextWriter.{has_null_byte, initialize, write_value, write_columns, write_row}
use duckdb_postgres.TextWriter.Columns.{
  is_end, raw_column, column_value, replaced, escaped_text, CanWrite, write_each-replaced,
  raw_column-escaped_text, column_value-escaped_text,
}

-- The text of one column, and what the server reads for it.
abbrev value_text : Option Bytes → Option Bytes → Bytes
value_text state none = 8 ∷ []
value_text state (some s) = escaped_text (replaced state s)

abbrev pub stored : Option Bytes → Option Bytes → Option Bytes
stored state none = none
stored state (some s) = some (replaced state s)

abbrev pub CanWriteValue : Option Bytes → Option Bytes → Type 0
CanWriteValue state none = Unit
CanWriteValue state (some s) = CanWrite state s

write_value-text :
    (state v : Option Bytes) → CanWriteValue state v → write_value state v ≡ ok (value_text state v)
unfolding write_value
write_value-text state none h = refl
write_value-text state (some s) h = write_each-replaced state s h

raw_column-value_text :
    (state v : Option Bytes) (e : ℕ) (r : Bytes)
    → is_end e ≡ true
    → raw_column false (value_text state v ++ e ∷ r) ≡ (value_text state v, e ∷ r)
raw_column-value_text state none e r h = rw h refl
raw_column-value_text state (some s) e r h = raw_column-escaped_text (replaced state s) e r h

column_value-value_text :
    (state v : Option Bytes) → column_value (value_text state v) ≡ stored state v
column_value-value_text state none = refl
column_value-value_text state (some s) = column_value-escaped_text (replaced state s)

-- The server reads a row for a table with some number of columns; what follows the row is left.
abbrev pub cons_column :
    Bytes → Option (List (Option Bytes) × Bytes) → Option (List (Option Bytes) × Bytes)
cons_column raw none = none
cons_column raw (some (vs, r)) = some (column_value raw ∷ vs, r)

abbrev pub read_columns : ℕ → Bytes → Option (List (Option Bytes) × Bytes)
read_columns n [] = none
read_columns zero (c ∷ r) = if c == 10 then some ([], r) else none
read_columns (suc n) (c ∷ r) =
    let p = raw_column false r in
    let rest = cons_column p.0 (read_columns n p.1) in if c == 9 then rest else none

abbrev pub read_row : ℕ → Bytes → Option (List (Option Bytes) × Bytes)
read_row zero s = read_columns zero s
read_row (suc n) s = let p = raw_column false s in cons_column p.0 (read_columns n p.1)

abbrev columns_text : Option Bytes → List (Option Bytes) → Bytes
columns_text state [] = []
columns_text state (v ∷ vs) = 9 ∷ (value_text state v ++ columns_text state vs)

write_columns-text :
    (state : Option Bytes) (vs : List (Option Bytes))
    → All (CanWriteValue state) vs
    → write_columns state vs ≡ ok (columns_text state vs)
unfolding write_columns
write_columns-text state [] h = refl
write_columns-text state (v ∷ vs) h =
    rw (write_value-text state v h.0) (rw (write_columns-text state vs h.1) refl)

-- A column in front of columns: the raw text ends where the next begins.
raw_column-columns :
    (state v : Option Bytes) (vs : List (Option Bytes)) (more : Bytes)
    → raw_column false (value_text state v ++ (columns_text state vs ++ 10 ∷ more))
      ≡ (value_text state v, columns_text state vs ++ 10 ∷ more)
raw_column-columns state v [] more = raw_column-value_text state v 10 more refl
raw_column-columns state v (w ∷ vs) more =
    raw_column-value_text state v 9 ((value_text state w ++ columns_text state vs) ++ 10 ∷ more)
      refl

read_columns-text :
    (state : Option Bytes) (vs : List (Option Bytes)) (more : Bytes)
    → read_columns (length vs) (columns_text state vs ++ 10 ∷ more)
      ≡ some (map (stored state) vs, more)
read_columns-text state [] more = refl
read_columns-text state (v ∷ vs) more =
    rw (append_assoc (value_text state v) (columns_text state vs) (10 ∷ more)) (
      rw (raw_column-columns state v vs more)
        (rw (read_columns-text state vs more) (rw (column_value-value_text state v) refl)))

-- A row of any number of columns that has no NUL byte, or any row once a replacement without NUL bytes is
-- set, is written without an exception, and a server that reads one row from the text gets each column's
-- value, its NUL bytes replaced, and the NULLs where they were, and is left with what follows the row.
pub write_row-round_trip :
    (state : Option Bytes) (vs : List (Option Bytes)) (more : Bytes)
    → All (CanWriteValue state) vs
    → (text : Bytes) × (write_row state vs ≡ ok text)
      × (read_row (length vs) (text ++ more) ≡ some (map (stored state) vs, more))
unfolding write_row
write_row-round_trip state [] more h = (10 ∷ [], refl, refl)
write_row-round_trip state (v ∷ vs) more h = (
  value_text state v ++ (columns_text state vs ++ 10 ∷ []),
  rw (write_value-text state v h.0) (rw (write_columns-text state vs h.1) refl),
  rw
      (append_assoc (value_text state v) (columns_text state vs ++ 10 ∷ []) more
        ∙ ap (λ x. value_text state v ++ x) (append_assoc (columns_text state vs) (10 ∷ []) more))
      (rw (raw_column-columns state v vs more)
        (rw (read_columns-text state vs more) (rw (column_value-value_text state v) refl))),
)

-- `Initialize` accepts a setting and then every text can be written, or it refuses it for a NUL
-- byte.
pub initialize-CanWrite :
    (new s : Bytes)
    → ((initialize (some new) ≡ ok (some new)) × CanWrite (some new) s)
      ⊎ ((initialize (some new) ≡ err internal) × (has_null_byte new ≡ true))
unfolding initialize
initialize-CanWrite new s = elim (Bool-cases (has_null_byte new)) [
  | inl e ↦ inr (rw e refl, e)
  | inr e ↦ inl (rw e refl, e)
]
