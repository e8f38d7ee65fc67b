-- ===== src/TextFormat/Scanning.antt =====
-- The scanner over one written element, for every parser behind it.
use duckdb_postgres.Common.{
  ◌≢◌, ℕ, Bool, true, false, not, ◌||◌, [], ◌∷◌, ◌++◌, Bytes, codes, Result, ok, err, ◌≡◌, refl,
  sym, ap, ◌>>=◌, >>=-assoc, Option, none, some, arith, append-nil, append_assoc, ◌∙◌, Bool-cases,
  inl, inr,
}
use duckdb_postgres.TextReader.Nested.{
  NestedParser, Scan, append, byte, is_escape, scan, is_empty, flush, last_or, drop_last,
  parse_nested,
}
use duckdb_postgres.CopyTo.Quoting.{
  has_special, needs_quotes, escape_quotes, quote_and_escape_if_needed,
}

-- A text that is not the four letters `NULL`.
abbrev pub IsNotNull : Option Bytes → Type 0
IsNotNull none = Unit
IsNotNull (some str) = str ≢ codes "NULL"

>>=-ok : {A : Type 0} (m : Result A) → (m >>= λ a. ok a) ≡ m
>>=-ok (ok a) = refl
>>=-ok (err e) = refl

-- Outside quotes and brackets, with `current_string` read so far.
abbrev pub plain : {P : Type 0} → P → Bool → Bytes → Scan P
plain p w cur = record { parser = p; quoted = false; was_quoted = w; delims = []; current = cur }

-- Inside quotes.
abbrev pub quoting : {P : Type 0} → P → Bytes → Scan P
quoting p cur = record { parser = p; quoted = true; was_quoted = true; delims = []; current = cur }

last_or-concat : (c : ℕ) (inner : Bytes) (end : ℕ) → last_or c (inner ++ end ∷ []) ≡ end
last_or-concat c [] end = refl
last_or-concat c (d ∷ r) end = last_or-concat d r end

drop_last-concat : (c : ℕ) (inner : Bytes) (end : ℕ) → drop_last (inner ++ end ∷ []) ≡ inner
drop_last-concat c [] end = refl
drop_last-concat c (d ∷ []) end = refl
drop_last-concat c (d ∷ e ∷ r) end = ap (◌∷◌ d) (drop_last-concat c (e ∷ r) end)

-- An empty text is quoted, so what was written is never taken for an omitted element.
pub needs_quotes-empty :
    (str : Bytes) (w : Bool) → (not (is_empty str) || (needs_quotes str || w)) ≡ true
unfolding needs_quotes
needs_quotes-empty [] w = refl
needs_quotes-empty (c ∷ r) w = refl

module _ {P : Type 0} (ops : NestedParser P) where
  pub scan-byte :
      (last : ℕ) (s : Scan P) (c : ℕ) (rest : Bytes)
      → is_escape ops s c ≡ false
      → scan ops last s (c ∷ rest) ≡ (byte ops s c >>= λ t. scan ops last t rest)
  unfolding scan
  scan-byte last s c [] h = rw h (sym (>>=-ok (byte ops s c)))
  scan-byte last s c (d ∷ r) h = rw (h, scan)

  scan-escape :
      (last : ℕ) (s : Scan P) (d : ℕ) (rest : Bytes)
      → s.quoted ≡ true
      → scan ops last s (b'\\' ∷ d ∷ rest) ≡ scan ops last (append ops s d) rest
  unfolding scan
  scan-escape last s d rest h = ground arith

  -- A text with none of the bytes that the writer quotes for is taken as it is.
  scan-plain :
      (last : ℕ) (p : P) (w : Bool) (cur str rest : Bytes)
      → has_special str ≡ false
      → scan ops last (plain p w cur) (str ++ rest) ≡ scan ops last (plain p w (cur ++ str)) rest
  unfolding byte
  scan-plain last p w cur [] rest h = rw append-nil
  scan-plain last p w cur (c ∷ str) rest h =
      scan-byte last (plain p w cur) c (str ++ rest) refl
      ∙ ground (arith, scan-plain last p w (cur ++ c ∷ []) str rest, append_assoc cur (c ∷ []) str)

  -- An escaped text and its closing quote are taken as the text.
  scan_quoted :
      (last : ℕ) (p : P) (cur str rest : Bytes)
      → scan ops last (quoting p cur) (escape_quotes str ++ b'"' ∷ rest)
        ≡ scan ops last (plain p true (cur ++ str)) rest
  unfolding byte
  scan_quoted last p cur [] rest = scan-byte last (quoting p cur) b'"' rest refl ∙ rw append-nil
  scan_quoted last p cur (c ∷ str) rest = ground (
    arith,
    scan-escape last (quoting p cur) c (escape_quotes str ++ b'"' ∷ rest) refl,
    scan-byte last (quoting p cur) c (escape_quotes str ++ b'"' ∷ rest),
    scan_quoted last p (cur ++ c ∷ []) str rest,
    append_assoc cur (c ∷ []) str,
  )

  needs_quotes-has_special : (str : Bytes) → needs_quotes str ≡ false → has_special str ≡ false
  unfolding needs_quotes
  needs_quotes-has_special [] h = cc
  needs_quotes-has_special (c ∷ r) h = ground arith

  -- A written text at the start of an element leaves the text in `current_string`, and remembers
  -- whether it was quoted.
  pub scan_text :
      (last : ℕ) (p : P) (w : Bool) (str rest : Bytes)
      → scan ops last (plain p w []) (quote_and_escape_if_needed str ++ rest)
        ≡ scan ops last (plain p (needs_quotes str || w) str) rest
  unfolding quote_and_escape_if_needed byte
  scan_text last p w str rest = elim (Bool-cases (needs_quotes str)) [
    | inl quote ↦ rw quote (
        scan-byte last (plain p w []) b'"' ((escape_quotes str ++ b'"' ∷ []) ++ rest) refl
        ∙ rw append_assoc (scan_quoted last p [] str rest))
    | inr bare ↦ rw bare (scan-plain last p w [] str rest (needs_quotes-has_special str bare))
  ]

  -- The text `NULL` without quotes.
  pub scan_null :
      (last : ℕ) (p : P) (w : Bool) (rest : Bytes)
      → scan ops last (plain p w []) (codes "NULL" ++ rest)
        ≡ scan ops last (plain p w (codes "NULL")) rest
  scan_null last p w rest = scan-plain last p w [] (codes "NULL") rest refl

  -- A comma outside brackets ends the element.
  pub scan-comma :
      (last : ℕ) (p : P) (w : Bool) (cur rest : Bytes)
      → scan ops last (plain p w cur) (b',' ∷ rest)
        ≡ (flush ops (plain p w cur) >>= λ t. scan ops last (record t { current = [] }) rest)
  unfolding byte
  scan-comma last p w cur rest =
      scan-byte last (plain p w cur) b',' rest refl ∙ >>=-assoc (flush ops (plain p w cur)) _ _

  -- The bracketed text is opened: what is left is the scan between the brackets.
  pub parse_nested-brackets :
      (p : P) (start end : ℕ) (inner : Bytes)
      → parse_nested ops p start end (start ∷ (inner ++ end ∷ [])) ≡ (
          scan ops end (plain (ops.initialize p) false []) inner >>= λ s.
          flush ops s >>= λ t. ops.finish t.parser)
  unfolding parse_nested
  parse_nested-brackets p start end inner =
      rw (drop_last-concat start inner end) (ground (arith, last_or-concat start inner end))
