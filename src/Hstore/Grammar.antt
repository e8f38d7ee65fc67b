-- ===== src/Hstore/Grammar.antt =====
-- The text that Postgres prints for an hstore, and what the two functions make of it.
use duckdb_postgres.Common.{
  ℕ, zero, suc, ◌≤◌, ◌<◌, Bool, true, false, ◌||◌, List, [], ◌∷◌, ◌++◌, Option, none, some, ◌==◌,
  if◌then◌else◌, Bytes, codes, ok, ◌≡◌, ◌≢◌, refl, ◌∙◌, arith, append-nil, append_assoc,
  length-append, length, equal_iff, equal_refl, All,
}
use duckdb_postgres.Hstore.{
  HstorePair, skip_whitespace, read_quoted, read_unquoted, is_null_literal, read_token_at,
  read_token, expect_arrow, read_pair, parse_pairs, next_round, parse_hstore, find_key, hstore_get,
}

-- Postgres escapes a quote and a backslash, and puts every key and value in quotes.
abbrev pub out_escaped : Bytes → Bytes
out_escaped [] = []
out_escaped (c ∷ r) =
    if c == b'"' || c == b'\\' then b'\\' ∷ c ∷ out_escaped r else c ∷ out_escaped r

abbrev pub out_value : Option Bytes → Bytes → Bytes
out_value none rest = codes "NULL" ++ rest
out_value (some v) rest = b'"' ∷ (out_escaped v ++ b'"' ∷ rest)

abbrev pub out_pair : HstorePair → Bytes → Bytes
out_pair p rest = b'"' ∷ (out_escaped p.key ++ b'"' ∷ b'=' ∷ b'>' ∷ out_value p.value rest)

abbrev pub out_more : List HstorePair → Bytes
out_more [] = []
out_more (p ∷ ps) = b',' ∷ b' ' ∷ out_pair p (out_more ps)

-- `hstore_out`.
abbrev pub hstore_out : List HstorePair → Bytes
hstore_out [] = []
hstore_out (p ∷ ps) = out_pair p (out_more ps)

read_quoted-close : (result rest : Bytes) → read_quoted result (b'"' ∷ rest) ≡ ok (result, rest)
unfolding read_quoted
read_quoted-close result [] = refl
read_quoted-close result (d ∷ r) = refl

read_quoted-byte :
    (result : Bytes) (c : ℕ) (rest : Bytes)
    → (c == b'"') ≡ false
    → (c == b'\\') ≡ false
    → read_quoted result (c ∷ rest) ≡ read_quoted (result ++ c ∷ []) rest
unfolding read_quoted
read_quoted-byte result c [] p q = rw p
read_quoted-byte result c (d ∷ r) p q = ground arith

read_quoted-escaped :
    (result s rest : Bytes)
    → read_quoted result (out_escaped s ++ b'"' ∷ rest) ≡ ok (result ++ s, rest)
unfolding read_quoted
read_quoted-escaped result [] rest = read_quoted-close result rest ∙ rw append-nil
read_quoted-escaped result (c ∷ s) rest = ground (
  arith,
  read_quoted-byte result c (out_escaped s ++ b'"' ∷ rest),
  read_quoted-escaped (result ++ c ∷ []) s rest,
  append_assoc result (c ∷ []) s,
)

read_token_at-quoted :
    (is_key : Bool) (s rest : Bytes)
    → read_token is_key (b'"' ∷ (out_escaped s ++ b'"' ∷ rest)) ≡ ok (some s, rest)
unfolding read_token read_token_at skip_whitespace
read_token_at-quoted is_key s rest = rw (read_quoted-escaped [] s rest)

read_value :
    (v : Option Bytes) (ps : List HstorePair)
    → read_token false (out_value v (out_more ps)) ≡ ok (v, out_more ps)
unfolding read_token read_token_at skip_whitespace read_unquoted is_null_literal
read_value (some s) ps = read_token_at-quoted false s (out_more ps)
read_value none [] = refl
read_value none (p ∷ ps) = refl

skip_whitespace-out_more : (ps : List HstorePair) → skip_whitespace (out_more ps) ≡ out_more ps
unfolding skip_whitespace
skip_whitespace-out_more [] = refl
skip_whitespace-out_more (p ∷ ps) = refl

read_pair-out_pair :
    (p : HstorePair) (ps : List HstorePair)
    → read_pair (out_pair p (out_more ps)) ≡ ok (p, out_more ps)
unfolding read_pair expect_arrow skip_whitespace
read_pair-out_pair p ps =
    rw (read_token_at-quoted true p.key (b'=' ∷ b'>' ∷ out_value p.value (out_more ps)))
      (rw (read_value p.value ps) (rw (skip_whitespace-out_more ps)))

parse_pairs-out :
    (fuel : ℕ) (pairs : List HstorePair) (p : HstorePair) (ps : List HstorePair)
    → length ps < fuel
    → parse_pairs fuel pairs (out_pair p (out_more ps)) ≡ ok (pairs ++ p ∷ ps)
unfolding parse_pairs next_round skip_whitespace
parse_pairs-out zero pairs p ps h = absurd (omega arith)
parse_pairs-out (suc fuel) pairs p [] h = rw (read_pair-out_pair p [])
parse_pairs-out (suc fuel) pairs p (q ∷ ps) h =
    rw (read_pair-out_pair p (q ∷ ps))
      (parse_pairs-out fuel (pairs ++ p ∷ []) q ps (omega arith) ∙ rw append_assoc)

length-out_value : (v : Option Bytes) (rest : Bytes) → length rest ≤ length (out_value v rest)
length-out_value none rest = omega (arith, length-append (codes "NULL") rest)
length-out_value (some s) rest = omega (arith, length-append (out_escaped s) (b'"' ∷ rest))

length-out_pair : (p : HstorePair) (rest : Bytes) → length rest ≤ length (out_pair p rest)
length-out_pair p rest = omega (
  arith,
  length-append (out_escaped p.key) (b'"' ∷ b'=' ∷ b'>' ∷ out_value p.value rest),
  length-out_value p.value rest,
)

length-out_more : (ps : List HstorePair) → length ps ≤ length (out_more ps)
length-out_more [] = omega arith
length-out_more (p ∷ ps) = omega (arith, length-out_pair p (out_more ps), length-out_more ps)

-- `ParseHstore` reads back what Postgres prints for any pairs: every key, and every value or NULL,
-- whatever bytes they hold, in order.
pub parse_hstore-hstore_out : (ps : List HstorePair) → parse_hstore (hstore_out ps) ≡ ok ps
unfolding parse_hstore skip_whitespace
parse_hstore-hstore_out [] = unfold parse_pairs in refl
parse_hstore-hstore_out (p ∷ ps) =
    parse_pairs-out (suc (length (out_pair p (out_more ps)))) [] p ps
      (omega (arith, length-out_more ps, length-out_pair p (out_more ps)))

-- No pair has this key.
abbrev pub Lacks : Bytes → HstorePair → Type 0
Lacks key p = p.key ≢ key

find_key-Lacks : (key : Bytes) (ps : List HstorePair) → All (Lacks key) ps → find_key key ps ≡ none
unfolding find_key
find_key-Lacks key [] h = refl
find_key-Lacks key (p ∷ ps) h =
    rw (find_key-Lacks key ps h.1) (ground (arith, equal_iff p.key key, h.0))

find_key-last :
    (before : List HstorePair) (p : HstorePair) (after : List HstorePair)
    → All (Lacks p.key) after
    → find_key p.key (before ++ p ∷ after) ≡ some p
unfolding find_key
find_key-last [] p after h = rw (find_key-Lacks p.key after h) (ground (arith, equal_refl p.key))
find_key-last (q ∷ before) p after h = rw (find_key-last before p after h)

-- `postgres_hstore_get` on a printed hstore gives the value of the last pair with the key, NULL where
-- that is the value.
pub hstore_get-last :
    (before : List HstorePair) (p : HstorePair) (after : List HstorePair)
    → All (Lacks p.key) after
    → hstore_get (hstore_out (before ++ p ∷ after)) p.key ≡ ok p.value
unfolding hstore_get
hstore_get-last before p after h =
    rw (parse_hstore-hstore_out (before ++ p ∷ after)) (rw (find_key-last before p after h))

-- `postgres_hstore_get` on a printed hstore gives NULL where no pair has the key.
pub hstore_get-missing :
    (key : Bytes) (ps : List HstorePair)
    → All (Lacks key) ps
    → hstore_get (hstore_out ps) key ≡ ok none
unfolding hstore_get
hstore_get-missing key ps h = rw (parse_hstore-hstore_out ps) (rw (find_key-Lacks key ps h))
