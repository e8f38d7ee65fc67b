-- ===== src/Hstore/Json.antt =====
-- The JSON texts that `JsonEscapeString` writes, read by an independent reader of JSON strings.
use duckdb_postgres.Common.{
  ℕ, zero, suc, ◌+◌, ◌-◌, ◌*◌, Bool, true, false, ◌&&◌, ◌||◌, [], ◌∷◌, ◌++◌, Option, none, some,
  ◌==◌, leb, ltb, if◌then◌else◌, Bytes, ◌≡◌, refl, ◌∙◌, arith, append_assoc,
}
use duckdb_postgres.Hstore.{json_escape_byte, json_escape_bytes, json_escape_string}

-- Where the reader stands inside a string: between characters, behind a backslash, or with so many
-- digits of `\u` to come.
data Mode : Type 0 where
  between escaped : Mode
  digits : ℕ → ℕ → Mode

-- The byte that a short escape stands for.
short_escape : ℕ → Option ℕ
short_escape e =
    if e == b'"' || e == b'\\' || e == b'/'
    then some e
    else if e == b'b'
    then some 8
    else if e == b'f'
    then some 12
    else if e == b'n'
    then some 10
    else if e == b'r'
    then some 13
    else if e == b't'
    then some 9
    else none

hex_digit : ℕ → Option ℕ
hex_digit d =
    if leb b'0' d && leb d b'9'
    then some (d - b'0')
    else if leb b'a' d && leb d b'f'
    then some (d - b'a' + 10)
    else if leb b'A' d && leb d b'F'
    then some (d - b'A' + 10)
    else none

-- One byte of the text: the next mode, and what is appended to the value. A code point of `\u` below
-- 0x80 is one byte.
abbrev one_digit : ℕ → ℕ → Option ℕ → Option (Mode × Bytes)
one_digit k acc none = none
one_digit zero acc (some d) =
    if ltb (acc * 16 + d) 0x80 then some (between, (acc * 16 + d) ∷ []) else none
one_digit (suc k) acc (some d) = some (digits k (acc * 16 + d), [])

abbrev one_escape : Option ℕ → Option (Mode × Bytes)
one_escape none = none
one_escape (some c) = some (between, c ∷ [])

next : Mode → ℕ → Option (Mode × Bytes)
next between c =
    if c == b'\\' then some (escaped, []) else if ltb c 0x20 then none else some (between, c ∷ [])
next escaped c = if c == b'u' then some (digits 3 0, []) else one_escape (short_escape c)
next (digits k acc) c = one_digit k acc (hex_digit c)

abbrev prepend : Bytes → Option (Bytes × Bytes) → Option (Bytes × Bytes)
prepend out none = none
prepend out (some (v, rest)) = some (out ++ v, rest)

abbrev is_end : Mode → ℕ → Bool
is_end between c = c == b'"'
is_end _ c = false

-- Behind the opening quote: the value of the string, and what follows its closing quote.
json_string : Mode → Bytes → Option (Bytes × Bytes)
json_string m [] = none
json_string m (c ∷ r) = elim (is_end m c) [
  | true ↦ some ([], r)
  | false ↦ elim (next m c) [ none ↦ none | some (m', out) ↦ prepend out (json_string m' r) ]
]

json_string-escape_byte :
    (c : ℕ) (rest : Bytes)
    → json_string between (json_escape_byte c ++ rest) ≡ prepend (c ∷ []) (json_string between rest)
unfolding json_string json_escape_byte next short_escape hex_digit
json_string-escape_byte c rest = ground arith

json_string-json_escape_bytes :
    (s rest : Bytes) → json_string between (json_escape_bytes s ++ b'"' ∷ rest) ≡ some (s, rest)
unfolding json_escape_bytes
json_string-json_escape_bytes [] rest = unfold json_string in refl
json_string-json_escape_bytes (c ∷ s) rest =
    rw (append_assoc (json_escape_byte c) (json_escape_bytes s) (b'"' ∷ rest)) (
      json_string-escape_byte c (json_escape_bytes s ++ b'"' ∷ rest)
      ∙ rw (json_string-json_escape_bytes s rest))

-- A whole JSON string, quotes included: its value, and what follows it.
pub json_text : Bytes → Option (Bytes × Bytes)
json_text [] = none
json_text (c ∷ r) = elim (c == b'"') [ true ↦ json_string between r | false ↦ none ]

-- What JsonEscapeString writes for any text, its quotes included, is a JSON string that a reader
-- takes for that text, and no byte behind it.
pub json_text-json_escape_string :
    (s rest : Bytes) → json_text (json_escape_string s ++ rest) ≡ some (s, rest)
unfolding json_text json_escape_string
json_text-json_escape_string s rest =
    rw (append_assoc (json_escape_bytes s) (b'"' ∷ []) rest) (json_string-json_escape_bytes s rest)
