-- ===== src/TextWriter.antt =====
-- src/include/postgres_text_writer.hpp: rows in the text format of COPY; and `Initialize` of
-- src/postgres_copy_to.cpp, which reads the setting for NUL bytes.
pub mod Columns
pub mod Rows
mod Examples
use duckdb_postgres.Common.{
  ℕ, zero, suc, ◌+◌, Bool, true, false, not, ◌&&◌, ◌||◌, List, [], ◌∷◌, ◌++◌, Option, none, some,
  ◌==◌, if◌then◌else◌, Bytes, codes, Result, ok, err, ◌>>=◌, invalid_input, internal, out_of_fuel,
}

abbrev pub has_null_byte : Bytes → Bool
has_null_byte [] = false
has_null_byte (c ∷ r) = c == 0 || has_null_byte r

-- `PostgresCopyState::Initialize`: the replacement, if there is one. The setting is none where it is not
-- there or NULL.
unfoldable pub initialize : Option Bytes → Result (Option Bytes)
initialize none = ok none
initialize (some replacement) =
    if has_null_byte replacement then err internal else ok (some replacement)

-- The letter behind the backslash, for the cases of `WriteChar` that write two characters.
unfoldable pub escape_letter : ℕ → Option ℕ
escape_letter c =
    if c == 10
    then some b'n'
    else if c == 13
    then some b'r'
    else if c == 8
    then some b'b'
    else if c == 12
    then some b'f'
    else if c == 9
    then some b't'
    else if c == 11
    then some b'v'
    else if c == b'\\'
    then some b'\\'
    else if c == b'"'
    then some b'"'
    else none

abbrev pub written : ℕ → Option ℕ → Bytes
written c none = c ∷ []
written c (some letter) = b'\\' ∷ letter ∷ []

-- A loop that writes characters one after the other.
unfoldable pub write_each : (ℕ → Result Bytes) → Bytes → Result Bytes
write_each write [] = ok []
write_each write (c ∷ r) = write c >>= λ first. write_each write r >>= λ rest. ok (first ++ rest)

-- `WriteChar`, on fuel: it calls itself for the characters of the replacement of a NUL.
unfoldable pub write_char : ℕ → Option Bytes → ℕ → Result Bytes
write_char zero state c = err out_of_fuel
write_char (suc fuel) none c =
    if c == 0 then err invalid_input else ok (written c (escape_letter c))
write_char (suc fuel) (some replacement) c =
    let replaced = write_each (write_char fuel (some replacement)) replacement in
    if c == 0 then replaced else ok (written c (escape_letter c))

-- How often `WriteChar` is open at once: a replacement has no NUL.
abbrev pub depth : ℕ
depth = 2

-- `WriteValue` of a VARCHAR: `WriteNull`, or `WriteVarchar`.
unfoldable pub write_value : Option Bytes → Option Bytes → Result Bytes
write_value state none = ok (8 ∷ [])
write_value state (some value) = write_each (write_char depth state) value

-- The columns behind the first, with a separator in front of each.
unfoldable pub write_columns : Option Bytes → List (Option Bytes) → Result Bytes
write_columns state [] = ok []
write_columns state (v ∷ vs) =
    write_value state v >>= λ first. write_columns state vs >>= λ rest. ok (9 ∷ (first ++ rest))

-- One round of the loop over the rows in `CopyChunk`.
unfoldable pub write_row : Option Bytes → List (Option Bytes) → Result Bytes
write_row state [] = ok (10 ∷ [])
write_row state (v ∷ vs) = write_value state v >>= λ first.
    write_columns state vs >>= λ rest. ok (first ++ (rest ++ 10 ∷ []))
