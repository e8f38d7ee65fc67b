-- ===== src/CopyTo/Quoting.antt =====
-- src/postgres_copy_to.cpp: the texts of list and struct values.
use duckdb_postgres.Common.{
  ℕ, Bool, true, false, ◌&&◌, ◌||◌, List, [], ◌∷◌, ◌++◌, Option, none, some, ◌==◌, ◌+◌, ◌-◌, ◌/◌,
  ◌%◌, leb, ltb, if◌then◌else◌, Bytes, codes,
}
use duckdb_postgres.TextReader.Nested.{last_or}

-- `isspace` in the C locale.
abbrev pub is_space : ℕ → Bool
is_space c = c == 32 || (leb 9 c && leb c 13)

-- The cases of the switch in `NeedsQuotes`.
abbrev pub is_special : ℕ → Bool
is_special c =
    c == b'"' || c == b'\\' || c == b'{' || c == b'}' || c == b'(' || c == b')' || c == b','

abbrev pub has_special : Bytes → Bool
has_special [] = false
has_special (c ∷ r) = if is_special c then true else has_special r

unfoldable pub needs_quotes : Bytes → Bool
needs_quotes [] = true
needs_quotes (c ∷ r) =
    if is_space c then true else if is_space (last_or c r) then true else has_special (c ∷ r)

abbrev pub escape_quotes : Bytes → Bytes
escape_quotes [] = []
escape_quotes (c ∷ r) =
    if c == b'"' || c == b'\\' then b'\\' ∷ c ∷ escape_quotes r else c ∷ escape_quotes r

unfoldable pub quote_and_escape_if_needed : Bytes → Bytes
quote_and_escape_if_needed str =
    if needs_quotes str then b'"' ∷ (escape_quotes str ++ b'"' ∷ []) else str

-- One element of a list: `NULL`, a nested list as it is, or a text in quotes where it needs them.
-- `skip_quoting` holds for lists of lists.
abbrev pub list_element : Bool → Option Bytes → Bytes
list_element skip_quoting none = codes "NULL"
list_element skip_quoting (some str) = if skip_quoting then str else quote_and_escape_if_needed str

-- The elements from the second on, each behind a comma.
unfoldable pub list_tail : Bool → List (Option Bytes) → Bytes
list_tail skip_quoting [] = []
list_tail skip_quoting (x ∷ xs) = b',' ∷ (list_element skip_quoting x ++ list_tail skip_quoting xs)

unfoldable pub list_elements : Bool → List (Option Bytes) → Bytes
list_elements skip_quoting [] = []
list_elements skip_quoting (x ∷ xs) = list_element skip_quoting x ++ list_tail skip_quoting xs

-- `CastListToPostgresArray` at one row: the list's elements are cast to texts before.
unfoldable pub cast_list : Bool → List (Option Bytes) → Bytes
cast_list skip_quoting xs = b'{' ∷ (list_elements skip_quoting xs ++ b'}' ∷ [])

-- A NULL field is left out.
abbrev pub struct_field : Option Bytes → Bytes
struct_field none = []
struct_field (some str) = quote_and_escape_if_needed str

unfoldable pub struct_tail : List (Option Bytes) → Bytes
struct_tail [] = []
struct_tail (x ∷ xs) = b',' ∷ (struct_field x ++ struct_tail xs)

unfoldable pub struct_fields : List (Option Bytes) → Bytes
struct_fields [] = []
struct_fields (x ∷ xs) = struct_field x ++ struct_tail xs

-- `CastStructToPostgres` at one row.
unfoldable pub cast_struct : List (Option Bytes) → Bytes
cast_struct xs = b'(' ∷ (struct_fields xs ++ b')' ∷ [])

-- `CastBlobToPostgres` at one row: `\x` and two digits of `HEX_STRING` for each byte.
abbrev pub hex_digit : ℕ → ℕ
hex_digit d = if ltb d 10 then b'0' + d else b'A' + (d - 10)

unfoldable pub hex_bytes : Bytes → Bytes
hex_bytes [] = []
hex_bytes (c ∷ r) = hex_digit (c / 16) ∷ hex_digit (c % 16) ∷ hex_bytes r

unfoldable pub cast_blob : Bytes → Bytes
cast_blob blob = b'\\' ∷ b'x' ∷ hex_bytes blob
