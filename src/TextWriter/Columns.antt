-- ===== src/TextWriter/Columns.antt =====
-- One column in the text format of src/include/postgres_text_writer.hpp, and what the server reads of it.
use duckdb_postgres.Common.{
  ℕ, suc, Bool, true, false, ◌||◌, [], ◌∷◌, ◌++◌, Option, none, some, ◌==◌, if◌then◌else◌, Bytes,
  ok, ◌≡◌, refl, ap, sym, ◌∙◌, arith, inl, inr, Bool-cases, append_assoc, Option-cases,
}
use duckdb_postgres.TextWriter.{
  has_null_byte, escape_letter, written, write_char, write_each, depth,
}

-- The server's side: a column's bytes up to a tab or a newline that no backslash stands before.
abbrev pub push : ℕ → Bytes × Bytes → Bytes × Bytes
push c p = (c ∷ p.0, p.1)

abbrev pub is_end : ℕ → Bool
is_end c = c == 9 || c == 10

abbrev pub raw_column : Bool → Bytes → Bytes × Bytes
raw_column escaped [] = ([], [])
raw_column true (c ∷ r) = push c (raw_column false r)
raw_column false (c ∷ r) = if is_end c then ([], c ∷ r) else push c (raw_column (c == b'\\') r)

-- The character that a backslash and a letter stand for.
abbrev pub unletter : ℕ → ℕ
unletter l =
    if l == b'n'
    then 10
    else if l == b'r'
    then 13
    else if l == b'b'
    then 8
    else if l == b'f'
    then 12
    else if l == b't'
    then 9
    else if l == b'v'
    then 11
    else l

abbrev pub unescape : Bool → Bytes → Bytes
unescape escaped [] = []
unescape true (l ∷ r) = unletter l ∷ unescape false r
unescape false (c ∷ r) =
    let plain = c ∷ unescape false r in
    let skipped = unescape true r in if c == b'\\' then skipped else plain

-- A column's value: the server is told that a backspace alone is the NULL.
abbrev pub column_value : Bytes → Option Bytes
column_value [] = some []
column_value (c ∷ []) = if c == 8 then none else some (unescape false (c ∷ []))
column_value (c ∷ d ∷ r) = some (unescape false (c ∷ d ∷ r))

-- What a NUL is replaced by.
abbrev pub replaced : Option Bytes → Bytes → Bytes
replaced state [] = []
replaced none (c ∷ r) = c ∷ replaced none r
replaced (some new) (c ∷ r) =
    if c == 0 then new ++ replaced (some new) r else c ∷ replaced (some new) r

escaped_byte : (c l : ℕ) → escape_letter c ≡ some l → unletter l ≡ c
unfolding escape_letter
escaped_byte c l h = ground arith

plain_byte :
    (c : ℕ)
    → escape_letter c ≡ none
    → (is_end c ≡ false) × ((c == b'\\') ≡ false) × ((c == 8) ≡ false)
unfolding escape_letter
plain_byte c h = (ground arith, ground arith, ground arith)

-- The written form of a text without NULs.
abbrev pub escaped_text : Bytes → Bytes
escaped_text [] = []
escaped_text (c ∷ r) = written c (escape_letter c) ++ escaped_text r

-- No NUL, or a replacement that was accepted.
abbrev pub CanWrite : Option Bytes → Bytes → Type 0
CanWrite none s = has_null_byte s ≡ false
CanWrite (some new) s = has_null_byte new ≡ false

write_char-byte :
    (fuel : ℕ) (state : Option Bytes) (c : ℕ)
    → (c == 0) ≡ false
    → write_char (suc fuel) state c ≡ ok (written c (escape_letter c))
unfolding write_char
write_char-byte fuel none c h = rw h refl
write_char-byte fuel (some new) c h = rw h refl

write_each-NoNull :
    (fuel : ℕ) (state : Option Bytes) (s : Bytes)
    → has_null_byte s ≡ false
    → write_each (write_char (suc fuel) state) s ≡ ok (escaped_text s)
unfolding write_each
write_each-NoNull fuel state [] h = refl
write_each-NoNull fuel state (c ∷ r) h =
    let here : (c == 0) ≡ false = ground (arith, h) in
    let rest : has_null_byte r ≡ false = ground (arith, h) in
    rw (write_char-byte fuel state c here) (rw (write_each-NoNull fuel state r rest) refl)

write_char-null :
    (new : Bytes) (c : ℕ)
    → has_null_byte new ≡ false
    → (c == 0) ≡ true
    → write_char 2 (some new) c ≡ ok (escaped_text new)
unfolding write_char
write_char-null new c h e = rw e (write_each-NoNull 0 (some new) new h)

escaped_text-append : (a b : Bytes) → escaped_text (a ++ b) ≡ escaped_text a ++ escaped_text b
escaped_text-append [] b = refl
escaped_text-append (c ∷ a) b =
    ap (λ x. written c (escape_letter c) ++ x) (escaped_text-append a b)
    ∙ sym (append_assoc (written c (escape_letter c)) (escaped_text a) (escaped_text b))

pub write_each-replaced :
    (state : Option Bytes) (s : Bytes)
    → CanWrite state s
    → write_each (write_char depth state) s ≡ ok (escaped_text (replaced state s))
unfolding write_each
write_each-replaced none s h = write_each-NoNull 1 none s h ∙ ap (λ x. ok (escaped_text x)) (same s)
  where
    same : (s : Bytes) → s ≡ replaced none s
    same [] = refl
    same (c ∷ r) = ap (λ x. c ∷ x) (same r)
write_each-replaced (some new) [] h = refl
write_each-replaced (some new) (c ∷ r) h = elim (Bool-cases (c == 0)) [
  | inl e ↦ rw (write_char-null new c h e) (
      rw (write_each-replaced (some new) r h)
        (rw e (ap (λ x. ok x) (sym (escaped_text-append new (replaced (some new) r))))))
  | inr e ↦
      rw (write_char-byte 1 (some new) c e) (rw (write_each-replaced (some new) r h) (rw e refl))
]

pub raw_column-escaped_text :
    (s : Bytes) (e : ℕ) (r : Bytes)
    → is_end e ≡ true
    → raw_column false (escaped_text s ++ e ∷ r) ≡ (escaped_text s, e ∷ r)
raw_column-escaped_text [] e r h = rw h refl
raw_column-escaped_text (c ∷ s) e r h = elim (Option-cases (escape_letter c)) [
  | inl n ↦
      let (no_end, no_escape, _) = plain_byte c n in
      rw n (rw no_end (rw no_escape (rw (raw_column-escaped_text s e r h) refl)))
  | inr (l, n) ↦ rw n (rw (raw_column-escaped_text s e r h) refl)
]

unescape-escaped_text : (s : Bytes) → unescape false (escaped_text s) ≡ s
unescape-escaped_text [] = refl
unescape-escaped_text (c ∷ s) = elim (Option-cases (escape_letter c)) [
  | inl n ↦ rw n (rw (plain_byte c n).1 (ap (λ x. c ∷ x) (unescape-escaped_text s)))
  | inr (l, n) ↦ rw n (rw (escaped_byte c l n) (ap (λ x. c ∷ x) (unescape-escaped_text s)))
]

column_value-cons :
    (c : ℕ) (t : Bytes) → (c == 8) ≡ false → column_value (c ∷ t) ≡ some (unescape false (c ∷ t))
column_value-cons c [] h = rw h refl
column_value-cons c (d ∷ t) h = refl

pub column_value-escaped_text : (s : Bytes) → column_value (escaped_text s) ≡ some s
column_value-escaped_text [] = refl
column_value-escaped_text (c ∷ s) =
    let (d, t, e, no_null) = first_byte c s in
    ap column_value e
    ∙ column_value-cons d t no_null
    ∙ ap (λ x. some x) (ap (unescape false) (sym e) ∙ unescape-escaped_text (c ∷ s))
  where
    first_byte :
        (c : ℕ) (s : Bytes)
        → (d : ℕ) × (t : Bytes) × (escaped_text (c ∷ s) ≡ d ∷ t) × ((d == 8) ≡ false)
    first_byte c s = elim (Option-cases (escape_letter c)) [
      | inl n ↦ (c, escaped_text s, rw n refl, (plain_byte c n).2)
      | inr (l, n) ↦ (b'\\', l ∷ escaped_text s, rw n refl, refl)
    ]
