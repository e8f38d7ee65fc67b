-- ===== src/Hstore/Total.antt =====
-- `ParseHstore` on every input: it ends, and its assertion on the key holds.
use duckdb_postgres.Common.{
  ℕ, zero, suc, ◌+◌, ◌≤◌, ◌<◌, Bool, true, false, List, [], ◌∷◌, ◌++◌, Option, none, some, ◌==◌,
  if◌then◌else◌, Bytes, Result, ok, err, ◌>>=◌, invalid_input, ◌≡◌, refl, arith, Bool-cases, inl,
  inr, length, ◌⊎◌,
}
use duckdb_postgres.Hstore.{
  HstorePair, skip_whitespace, read_quoted, read_unquoted, unquoted_token, read_token_at,
  read_token, arrow_at, expect_arrow, assert_key, read_pair, parse_pairs, parse_hstore, next_round,
}

-- A value with a property, or the exception of a syntax error.
abbrev pub Fine : {A : Type 0} → (A → Type 0) → Result A → Type 0
Fine Q (ok a) = Q a
Fine Q (err invalid_input) = Unit
Fine Q (err _) = ⊥

Fine-bind :
    {A B : Type 0} (Q : A → Type 0) (R : B → Type 0) (m : Result A) (f : A → Result B)
    → Fine Q m
    → ((a : A) → Q a → Fine R (f a))
    → Fine R (m >>= f)
Fine-bind Q R (ok a) f h k = k a h
Fine-bind Q R (err invalid_input) f h k = tt
Fine-bind Q R (err _) f h k = absurd h

Fine-mono :
    {A : Type 0} (Q R : A → Type 0) (m : Result A) → ((a : A) → Q a → R a) → Fine Q m → Fine R m
Fine-mono Q R (ok a) k h = k a h
Fine-mono Q R (err invalid_input) k h = tt
Fine-mono Q R (err _) k h = h

skip_whitespace-le : (input : Bytes) → length (skip_whitespace input) ≤ length input
unfolding skip_whitespace
skip_whitespace-le [] = omega arith
skip_whitespace-le (c ∷ r) = ground (arith, skip_whitespace-le r)

skip_whitespace_idem :
    (input : Bytes) → skip_whitespace (skip_whitespace input) ≡ skip_whitespace input
unfolding skip_whitespace
skip_whitespace_idem [] = refl
skip_whitespace_idem (c ∷ r) = ground (arith, skip_whitespace_idem r)

abbrev Within : {A : Type 0} → ℕ → A × Bytes → Type 0
Within n t = length t.1 ≤ n

read_quoted-Fine :
    (n : ℕ) (result input : Bytes) → length input ≤ n → Fine (Within n) (read_quoted result input)
unfolding read_quoted
read_quoted-Fine n result [] h = tt
read_quoted-Fine n result (c ∷ []) h = ground arith
read_quoted-Fine n result (c ∷ d ∷ r) h = ground (
  arith,
  read_quoted-Fine n (result ++ d ∷ []) r (omega arith),
  read_quoted-Fine n (result ++ c ∷ []) (d ∷ r) (omega arith),
)

read_unquoted-Fine :
    (n terminator : ℕ) (result input : Bytes)
    → length input ≤ n
    → Fine (Within n) (read_unquoted terminator result input)
unfolding read_unquoted
read_unquoted-Fine n terminator result [] h = h
read_unquoted-Fine n terminator result (c ∷ []) h = ground arith
read_unquoted-Fine n terminator result (c ∷ d ∷ r) h = ground (
  arith,
  read_unquoted-Fine n terminator (result ++ d ∷ []) r (omega arith),
  read_unquoted-Fine n terminator (result ++ c ∷ []) (d ∷ r) (omega arith),
)

-- A key is a token.
abbrev HasKey : Bool → Option Bytes → Type 0
HasKey true none = ⊥
HasKey true (some key) = Unit
HasKey false k = Unit

HasKey-some : (is_key : Bool) (key : Bytes) → HasKey is_key (some key)
HasKey-some true key = tt
HasKey-some false key = tt

unquoted_token-Fine :
    (n : ℕ) (is_key : Bool) (t : Bytes × Bytes)
    → Within n t
    → Fine (λ (u : Option Bytes × Bytes). HasKey is_key u.0 × Within n u) (unquoted_token is_key t)
unquoted_token-Fine n true t h = ground arith
unquoted_token-Fine n false t h = ground arith

read_token_at-Fine :
    (n : ℕ) (is_key : Bool) (c : ℕ) (r : Bytes)
    → length (c ∷ r) ≤ n
    → Fine
        (λ (u : Option Bytes × Bytes). HasKey is_key u.0 × Within n u)
        (read_token_at is_key (c ∷ r))
unfolding read_token_at
read_token_at-Fine n is_key c r h = elim (Bool-cases (c == b'"')) [
  | inl e ↦ rw e (
      Fine-bind (Within n) _ (read_quoted [] r) _ (read_quoted-Fine n [] r (omega arith))
        (λ t k. (HasKey-some is_key t.0, k)))
  | inr e ↦ rw e (
      Fine-bind (Within n) _ (read_unquoted (if is_key then b'=' else b',') [] (c ∷ r)) _
        (read_unquoted-Fine n (if is_key then b'=' else b',') [] (c ∷ r) h)
        (λ t k. unquoted_token-Fine n is_key t k))
]

arrow_at-Fine : (n : ℕ) (r : Bytes) → length r ≤ n → Fine (λ s. length s + 2 ≤ n) (arrow_at r)
arrow_at-Fine n [] h = tt
arrow_at-Fine n (c ∷ []) h = tt
arrow_at-Fine n (c ∷ d ∷ r) h = ground arith

expect_arrow-Fine :
    (n : ℕ) (input : Bytes) → length input ≤ n → Fine (λ s. length s + 2 ≤ n) (expect_arrow input)
unfolding expect_arrow
expect_arrow-Fine n input h =
    arrow_at-Fine n (skip_whitespace input) (omega (arith, skip_whitespace-le input))

assert_key-Fine : (k : Option Bytes) → HasKey true k → Fine (λ key. Unit) (assert_key k)
assert_key-Fine none h = h
assert_key-Fine (some key) h = tt

read_value-Fine : (n : ℕ) (s : Bytes) → length s ≤ n → Fine (Within n) (read_token_at false s)
unfolding read_token_at
read_value-Fine n [] h = h
read_value-Fine n (c ∷ r) h =
    Fine-mono (λ (u : Option Bytes × Bytes). HasKey false u.0 × Within n u) (Within n)
      (read_token_at false (c ∷ r)) (λ u k. k.1) (read_token_at-Fine n false c r h)

-- A pair read from a place that is no white space leaves less than it found, white space skipped.
abbrev Shrinks : ℕ → HstorePair × Bytes → Type 0
Shrinks n t = (length t.1 < n) × (skip_whitespace t.1 ≡ t.1)

read_pair-Fine :
    (c : ℕ) (r : Bytes)
    → skip_whitespace (c ∷ r) ≡ c ∷ r
    → Fine (Shrinks (length (c ∷ r))) (read_pair (c ∷ r))
unfolding read_pair read_token
read_pair-Fine c r skipped = rw skipped (
    Fine-bind (λ (u : Option Bytes × Bytes). HasKey true u.0 × Within (length (c ∷ r)) u)
      (Shrinks (length (c ∷ r))) (read_token_at true (c ∷ r)) _
      (read_token_at-Fine (length (c ∷ r)) true c r (omega arith))
      λ t k.
        Fine-bind (λ key. Unit) (Shrinks (length (c ∷ r))) (assert_key t.0) _
          (assert_key-Fine t.0 k.0)
          λ key _.
            Fine-bind (λ s. length s + 2 ≤ length (c ∷ r)) (Shrinks (length (c ∷ r)))
              (expect_arrow t.1) _ (expect_arrow-Fine (length (c ∷ r)) t.1 k.1)
              λ s shorter.
                Fine-bind (Within (length s)) (Shrinks (length (c ∷ r)))
                  (read_token_at false (skip_whitespace s)) _
                  (read_value-Fine (length s) (skip_whitespace s) (skip_whitespace-le s))
                  λ v w. (omega (arith, skip_whitespace-le v.1), skip_whitespace_idem v.1))

next_round-Fine :
    (n : ℕ) (again : List HstorePair → Bytes → Result (List HstorePair)) (pairs : List HstorePair)
    (rest : Bytes)
    → ((input : Bytes)
        → length input < n
        → skip_whitespace input ≡ input
        → Fine (λ (ps : List HstorePair). Unit) (again pairs input))
    → length rest ≤ n
    → Fine (λ (ps : List HstorePair). Unit) (next_round again pairs rest)
unfolding next_round
next_round-Fine n again pairs [] k h = tt
next_round-Fine n again pairs (d ∷ r) k h =
    ground
      (arith, k (skip_whitespace r) (omega (arith, skip_whitespace-le r)) (skip_whitespace_idem r))

parse_pairs-Fine :
    (fuel : ℕ) (pairs : List HstorePair) (input : Bytes)
    → length input < fuel
    → skip_whitespace input ≡ input
    → Fine (λ (ps : List HstorePair). Unit) (parse_pairs fuel pairs input)
unfolding parse_pairs
parse_pairs-Fine zero pairs input h skipped = absurd (omega arith)
parse_pairs-Fine (suc fuel) pairs [] h skipped = tt
parse_pairs-Fine (suc fuel) pairs (c ∷ r) h skipped =
    Fine-bind (Shrinks (length (c ∷ r))) (λ (ps : List HstorePair). Unit) (read_pair (c ∷ r)) _
      (read_pair-Fine c r skipped)
      λ t k.
        next_round-Fine fuel (parse_pairs fuel) (pairs ++ t.0 ∷ []) t.1
          (λ input less s. parse_pairs-Fine fuel (pairs ++ t.0 ∷ []) input less s)
          (omega (arith, k.0))

-- `ParseHstore` ends on every text, with the pairs or the exception of a syntax error: it never runs
-- out of rounds, and its assertion that a key was read holds.
pub parse_hstore-Fine :
    (input : Bytes)
    → ((pairs : List HstorePair) × (parse_hstore input ≡ ok pairs))
      ⊎ (parse_hstore input ≡ err invalid_input)
unfolding parse_hstore
parse_hstore-Fine input = outcome (parse_pairs (suc (length input)) [] (skip_whitespace input)) (
    parse_pairs-Fine (suc (length input)) [] (skip_whitespace input)
      (omega (arith, skip_whitespace-le input)) (skip_whitespace_idem input))
  where
    outcome :
        (r : Result (List HstorePair))
        → Fine (λ (ps : List HstorePair). Unit) r
        → ((pairs : List HstorePair) × (r ≡ ok pairs)) ⊎ (r ≡ err invalid_input)
    outcome (ok ps) h = inl (ps, refl)
    outcome (err invalid_input) h = inr refl
    outcome (err _) h = absurd h
