-- ===== src/Hstore.antt =====
-- src/postgres_hstore.cpp: the parser of the text form of an hstore, and the two SQL functions over it.
-- A position in the input is the rest of the input from there.
pub mod Grammar
pub mod Total
pub mod Json
mod Examples
use duckdb_postgres.Common.{
  ℕ, zero, suc, ◌+◌, ◌-◌, ◌/◌, ◌%◌, Bool, true, false, not, ◌&&◌, ◌||◌, List, [], ◌∷◌, ◌++◌, Option,
  none, some, ◌==◌, leb, ltb, if◌then◌else◌, Bytes, codes, equal, length, Result, ok, err, ◌>>=◌,
  invalid_input, internal, out_of_fuel,
}

-- `HstorePair`: no value is a NULL value.
pub record HstorePair : Type 0 where
  pub key : Bytes
  pub value : Option Bytes

-- `std::isspace` in the C locale.
abbrev pub is_space : ℕ → Bool
is_space c = c == 32 || (leb 9 c && leb c 13)

unfoldable pub skip_whitespace : Bytes → Bytes
skip_whitespace [] = []
skip_whitespace (c ∷ r) = if is_space c then skip_whitespace r else c ∷ r

-- `std::tolower` in the C locale.
abbrev pub to_lower : ℕ → ℕ
to_lower c = if leb b'A' c && leb c b'Z' then c + 32 else c

unfoldable pub is_null_literal : Bytes → Bool
is_null_literal (n ∷ u ∷ l ∷ k ∷ []) =
    to_lower n == b'n' && to_lower u == b'u' && to_lower l == b'l' && to_lower k == b'l'
is_null_literal _ = false

-- The loop behind an opening quote: the token, and what follows the closing quote.
unfoldable pub read_quoted : Bytes → Bytes → Result (Bytes × Bytes)
read_quoted result [] = err invalid_input
read_quoted result (c ∷ []) = if c == b'"' then ok (result, []) else err invalid_input
read_quoted result (c ∷ d ∷ r) = if c == b'"' then ok (result, d ∷ r) else elim (c == b'\\') [
  | true ↦ read_quoted (result ++ d ∷ []) r
  | false ↦ read_quoted (result ++ c ∷ []) (d ∷ r)
]

-- The loop of an unquoted token, up to white space or the terminator.
unfoldable pub read_unquoted : ℕ → Bytes → Bytes → Result (Bytes × Bytes)
read_unquoted terminator result [] = ok (result, [])
read_unquoted terminator result (c ∷ []) =
    if is_space c || c == terminator
    then ok (result, c ∷ [])
    else if c == b'\\'
    then err invalid_input
    else ok (result ++ c ∷ [], [])
read_unquoted terminator result (c ∷ d ∷ r) =
    if is_space c || c == terminator then ok (result, c ∷ d ∷ r) else elim (c == b'\\') [
      | true ↦ read_unquoted terminator (result ++ d ∷ []) r
      | false ↦ read_unquoted terminator (result ++ c ∷ []) (d ∷ r)
    ]

abbrev pub is_empty : Bytes → Bool
is_empty [] = true
is_empty (_ ∷ _) = false

-- What `ReadToken` makes of an unquoted token.
abbrev pub unquoted_token : Bool → Bytes × Bytes → Result (Option Bytes × Bytes)
unquoted_token is_key (result, rest) =
    if is_key && is_empty result
    then err invalid_input
    else if not is_key && is_null_literal result
    then ok (none, rest)
    else ok (some result, rest)

-- `ReadToken` behind the white space.
unfoldable pub read_token_at : Bool → Bytes → Result (Option Bytes × Bytes)
read_token_at is_key [] = ok (none, [])
read_token_at is_key (c ∷ r) =
    if c == b'"'
    then (read_quoted [] r >>= λ t. ok (some t.0, t.1))
    else (read_unquoted (if is_key then b'=' else b',') [] (c ∷ r) >>= unquoted_token is_key)

unfoldable pub read_token : Bool → Bytes → Result (Option Bytes × Bytes)
read_token is_key input = read_token_at is_key (skip_whitespace input)

abbrev pub arrow_at : Bytes → Result Bytes
arrow_at (c ∷ d ∷ r) = if c == b'=' && d == b'>' then ok r else err invalid_input
arrow_at _ = err invalid_input

unfoldable pub expect_arrow : Bytes → Result Bytes
expect_arrow input = arrow_at (skip_whitespace input)

-- `D_ASSERT(key)`.
abbrev pub assert_key : Option Bytes → Result Bytes
assert_key none = err internal
assert_key (some key) = ok key

-- One round of the loop of `ParseHstore`, up to the white space behind the value.
unfoldable pub read_pair : Bytes → Result (HstorePair × Bytes)
read_pair input = do
  (k, r) ← read_token true input
  key ← assert_key k
  r' ← expect_arrow r
  (value, r'') ← read_token false r'
  ok (record { key = key; value = value }, skip_whitespace r'')

-- Behind a pair: the end, or a comma and the next round.
unfoldable pub next_round :
    (List HstorePair → Bytes → Result (List HstorePair))
    → List HstorePair
    → Bytes
    → Result (List HstorePair)
next_round again pairs [] = ok pairs
next_round again pairs (d ∷ r) = elim (d == b',') [
  | true ↦ again pairs (skip_whitespace r)
  | false ↦ err invalid_input
]

-- The loop, on fuel: each round reads at least one byte.
unfoldable pub parse_pairs : ℕ → List HstorePair → Bytes → Result (List HstorePair)
parse_pairs zero pairs input = err out_of_fuel
parse_pairs (suc fuel) pairs [] = ok pairs
parse_pairs (suc fuel) pairs (c ∷ r) =
    read_pair (c ∷ r) >>= λ t. next_round (parse_pairs fuel) (pairs ++ t.0 ∷ []) t.1

unfoldable pub parse_hstore : Bytes → Result (List HstorePair)
parse_hstore input = parse_pairs (suc (length input)) [] (skip_whitespace input)

-- `JsonEscapeString`, one byte; "%04x" of a byte below 0x20 starts with two zeros.
abbrev pub hex_lower : ℕ → ℕ
hex_lower d = if ltb d 10 then b'0' + d else b'a' + (d - 10)

unfoldable pub json_escape_byte : ℕ → Bytes
json_escape_byte c =
    if c == b'"'
    then b'\\' ∷ b'"' ∷ []
    else if c == b'\\'
    then b'\\' ∷ b'\\' ∷ []
    else if c == 8
    then b'\\' ∷ b'b' ∷ []
    else if c == 12
    then b'\\' ∷ b'f' ∷ []
    else if c == 10
    then b'\\' ∷ b'n' ∷ []
    else if c == 13
    then b'\\' ∷ b'r' ∷ []
    else if c == 9
    then b'\\' ∷ b't' ∷ []
    else if ltb c 0x20
    then b'\\' ∷ b'u' ∷ b'0' ∷ b'0' ∷ hex_lower (c / 16) ∷ hex_lower (c % 16) ∷ []
    else c ∷ []

unfoldable pub json_escape_bytes : Bytes → Bytes
json_escape_bytes [] = []
json_escape_bytes (c ∷ r) = json_escape_byte c ++ json_escape_bytes r

unfoldable pub json_escape_string : Bytes → Bytes
json_escape_string s = b'"' ∷ (json_escape_bytes s ++ b'"' ∷ [])

-- The loop of `postgres_hstore_get`, from the last pair to the first.
unfoldable pub find_key : Bytes → List HstorePair → Option HstorePair
find_key key [] = none
find_key key (p ∷ ps) = elim (find_key key ps) [
  | some q ↦ some q
  | none ↦ if equal p.key key then some p else none
]

abbrev pub found_value : Option HstorePair → Option Bytes
found_value none = none
found_value (some p) = p.value

-- `PostgresHstoreGetFun` at one row; NULL is `none`.
unfoldable pub hstore_get : Bytes → Bytes → Result (Option Bytes)
hstore_get hstore key = parse_hstore hstore >>= λ pairs. ok (found_value (find_key key pairs))

abbrev pub json_value : Option Bytes → Bytes
json_value none = codes "null"
json_value (some v) = json_escape_string v

unfoldable pub json_pairs : Bool → List HstorePair → Bytes
json_pairs first [] = []
json_pairs first (p ∷ ps) =
    (if first then [] else codes ", ")
    ++ (json_escape_string p.key ++ (codes ": " ++ (json_value p.value ++ json_pairs false ps)))

-- `PostgresHstoreToJsonFun` at one row.
unfoldable pub hstore_to_json : Bytes → Result Bytes
hstore_to_json hstore =
    parse_hstore hstore >>= λ pairs. ok (b'{' ∷ (json_pairs true pairs ++ b'}' ∷ []))
