-- ===== src/TextReader/Nested.antt =====
-- src/postgres_text_reader.cpp, `ParsePostgresNested`: the scanner of `{...}` and `(...)`.
use duckdb_postgres.Common.{
  ℕ, Bool, true, false, not, ◌&&◌, ◌||◌, [], ◌∷◌, ◌++◌, ◌==◌, if◌then◌else◌, Bytes, Result, ok, err,
  ◌>>=◌, invalid_input,
}

-- What the template's parameter `T` offers. `add_string` gets `current_string` and `was_quoted`, and
-- returns the new value of `was_quoted`, which it takes by reference.
pub record NestedParser (P : Type 0) : Type 0 where
  pub initialize : P → P
  pub add_string : P → Bytes → Bool → Result (P × Bool)
  pub finish : P → Result P

-- The local variables of the loop. The back of `delims` is the head of the list.
pub record Scan (P : Type 0) : Type 0 where
  pub parser : P
  pub quoted : Bool
  pub was_quoted : Bool
  pub delims : Bytes
  pub current : Bytes

abbrev pub is_empty : Bytes → Bool
is_empty [] = true
is_empty (_ ∷ _) = false

-- str[size - 1], for a text that starts with `c`.
abbrev pub last_or : ℕ → Bytes → ℕ
last_or c [] = c
last_or c (d ∷ r) = last_or d r

abbrev pub drop_last : Bytes → Bytes
drop_last [] = []
drop_last (c ∷ []) = []
drop_last (c ∷ d ∷ r) = c ∷ drop_last (d ∷ r)

module _ {P : Type 0} (ops : NestedParser P) where
  abbrev pub append : Scan P → ℕ → Scan P
  append s c = record s { current = s.current ++ c ∷ [] }

  -- `if (!current_string.empty() || was_quoted) parser.AddString(current_string, was_quoted);`
  unfoldable pub flush : Scan P → Result (Scan P)
  flush s =
      if not (is_empty s.current) || s.was_quoted
      then (do
        (p, q) ← ops.add_string s.parser s.current s.was_quoted
        ok (record s { parser = p; was_quoted = q }))
      else ok s

  -- `case '}': case ')':`, on the open brackets.
  unfoldable pub close_delim : Scan P → ℕ → Bytes → Result (Scan P)
  close_delim s c [] = err invalid_input
  close_delim s c (d ∷ ds) =
      if d == c then ok (append (record s { delims = ds }) c) else err invalid_input

  -- `case ',':`
  unfoldable pub comma : Scan P → Result (Scan P)
  comma s =
      if is_empty s.delims
      then (do t ← flush s; ok (record t { current = [] }))
      else ok (append s b',')

  unfoldable pub plain_byte : Scan P → ℕ → Result (Scan P)
  unfolding close_delim comma flush
  plain_byte s c =
      if c == b'{'
      then ok (append (record s { delims = b'}' ∷ s.delims }) c)
      else if c == b'('
      then ok (append (record s { delims = b')' ∷ s.delims }) c)
      else if c == b'}' || c == b')'
      then close_delim s c s.delims
      else if c == b'"'
      then ok (record s { quoted = true; was_quoted = true })
      else if c == b','
      then comma s
      else ok (append s c)

  -- Inside quotes; the escape is taken by `scan`.
  unfoldable pub quoted_byte : Scan P → ℕ → Scan P
  quoted_byte s c = if c == b'"' then record s { quoted = false } else append s c

  unfoldable pub byte : Scan P → ℕ → Result (Scan P)
  unfolding plain_byte quoted_byte
  byte s c = if s.quoted then ok (quoted_byte s c) else plain_byte s c

  abbrev pub is_escape : Scan P → ℕ → Bool
  is_escape s c = s.quoted && c == b'\\'

  -- The loop over str[1 .. size - 1). After an escape it takes the next byte, which is str[size - 1]
  -- where the backslash is the last byte of the range.
  unfoldable pub scan : ℕ → Scan P → Bytes → Result (Scan P)
  scan last s [] = ok s
  scan last s (c ∷ []) = if is_escape s c then ok (append s last) else byte s c
  scan last s (c ∷ d ∷ r) = elim (is_escape s c) [
    | true ↦ scan last (append s d) r
    | false ↦ byte s c >>= λ t. scan last t (d ∷ r)
  ]

  abbrev pub start_scan : P → Scan P
  start_scan p = record {
    parser = ops.initialize p;
    quoted = false;
    was_quoted = false;
    delims = [];
    current = [];
  }

  -- `ParsePostgresNested(parser, list, start, end)`.
  unfoldable pub parse_nested : P → ℕ → ℕ → Bytes → Result P
  parse_nested p start end [] = err invalid_input
  parse_nested p start end (c ∷ rest) =
      if c == start && last_or c rest == end
      then (do s ← scan end (start_scan p) (drop_last rest); t ← flush s; ops.finish t.parser)
      else err invalid_input
