-- ===== src/Version/Parse.antt =====
-- `ExtractPostgresVersion` reads what the server prints.
use mathlib.Core.Path.{subst}
use duckdb_postgres.Common.{
  ℕ, suc, ◌^◌, ◌<◌, true, false, [], ◌∷◌, ◌++◌, ◌≡◌, refl, sym, ap, ◌∙◌, arith, ◌==◌, Bytes, codes,
  All, is_digit, decimal_text, decimal_text-AllDigits, decimal_text-cons, digits_value-decimal_text,
}
use duckdb_postgres.Version.{
  PostgresVersion, postgres, skip_to_digit, span_digits, strtoll, set_part, version_parts,
  extract_postgres_version,
}

-- What stands behind the run of digits.
abbrev pub NoDigitFirst : Bytes → Type 0
NoDigitFirst [] = Unit
NoDigitFirst (c ∷ r) = is_digit c ≡ false

span_digits-stop : (s : Bytes) → NoDigitFirst s → span_digits s ≡ ([], s)
unfolding span_digits
span_digits-stop [] h = refl
span_digits-stop (c ∷ r) h = rw h refl

span_digits-digits :
    (ds s : Bytes)
    → All (λ d. is_digit d ≡ true) ds
    → NoDigitFirst s
    → span_digits (ds ++ s) ≡ (ds, s)
unfolding span_digits
span_digits-digits [] s h k = span_digits-stop s k
span_digits-digits (d ∷ ds) s h k = rw h.0 (rw (span_digits-digits ds s h.1 k) refl)

skip_to_digit-text :
    (text s : Bytes)
    → All (λ c. is_digit c ≡ false) text
    → skip_to_digit (text ++ s) ≡ skip_to_digit s
unfolding skip_to_digit
skip_to_digit-text [] s h = refl
skip_to_digit-text (c ∷ text) s h = rw h.0 (skip_to_digit-text text s h.1)

strtoll-decimal_text : (n : ℕ) → n < 2 ^ 63 → strtoll (decimal_text n) ≡ n
strtoll-decimal_text n h = rw (digits_value-decimal_text n (omega arith)) (ground arith)

-- Behind the number stands the end, or a character that is neither a digit nor a dot.
abbrev pub VersionEnd : Bytes → Type 0
VersionEnd [] = Unit
VersionEnd (c ∷ r) = (is_digit c ≡ false) × ((c == b'.') ≡ false)

VersionEnd-NoDigitFirst : (s : Bytes) → VersionEnd s → NoDigitFirst s
VersionEnd-NoDigitFirst [] h = tt
VersionEnd-NoDigitFirst (c ∷ r) h = h.0

-- One round, on the number's text opened into its first digit and the rest.
parts_dot :
    (rounds version_idx d : ℕ) (ds r : Bytes) (v : PostgresVersion)
    → All (λ c. is_digit c ≡ true) (d ∷ ds)
    → version_parts (suc rounds) version_idx ((d ∷ ds) ++ b'.' ∷ r) v
      ≡ version_parts rounds (suc version_idx) r (set_part version_idx (strtoll (d ∷ ds)) v)
unfolding version_parts
parts_dot rounds version_idx d ds r v h =
    rw (span_digits-digits (d ∷ ds) (b'.' ∷ r) h refl, version_parts)
      (rw (span_digits-digits (d ∷ ds) (b'.' ∷ r) h refl) refl)

parts_end :
    (rounds version_idx d : ℕ) (ds s : Bytes) (v : PostgresVersion)
    → All (λ c. is_digit c ≡ true) (d ∷ ds)
    → VersionEnd s
    → version_parts (suc rounds) version_idx ((d ∷ ds) ++ s) v
      ≡ set_part version_idx (strtoll (d ∷ ds)) v
unfolding version_parts
parts_end rounds version_idx d ds [] v h k =
    rw (span_digits-digits (d ∷ ds) [] h tt, version_parts)
      (rw (span_digits-digits (d ∷ ds) [] h tt) refl)
parts_end rounds version_idx d ds (c ∷ s) v h k =
    rw (span_digits-digits (d ∷ ds) (c ∷ s) h k.0, version_parts)
      (rw (span_digits-digits (d ∷ ds) (c ∷ s) h k.0) (rw k.1 refl))

number_dot :
    (rounds version_idx n : ℕ) (r : Bytes) (v : PostgresVersion)
    → n < 2 ^ 63
    → version_parts (suc rounds) version_idx (decimal_text n ++ b'.' ∷ r) v
      ≡ version_parts rounds (suc version_idx) r (set_part version_idx n v)
number_dot rounds version_idx n r v h =
    let (d, ds, e) = decimal_text-cons n in
    ap (λ x. version_parts (suc rounds) version_idx (x ++ b'.' ∷ r) v) e
    ∙ parts_dot rounds version_idx d ds r v
        (subst (λ x. All (λ c. is_digit c ≡ true) x) e (decimal_text-AllDigits n))
    ∙ ap (λ x. version_parts rounds (suc version_idx) r (set_part version_idx x v))
        (ap (λ x. strtoll x) (sym e) ∙ strtoll-decimal_text n h)

number_end :
    (rounds version_idx n : ℕ) (s : Bytes) (v : PostgresVersion)
    → n < 2 ^ 63
    → VersionEnd s
    → version_parts (suc rounds) version_idx (decimal_text n ++ s) v ≡ set_part version_idx n v
number_end rounds version_idx n s v h k =
    let (d, ds, e) = decimal_text-cons n in
    ap (λ x. version_parts (suc rounds) version_idx (x ++ s) v) e
    ∙ parts_end rounds version_idx d ds s v
        (subst (λ x. All (λ c. is_digit c ≡ true) x) e (decimal_text-AllDigits n)) k
    ∙ ap (λ x. set_part version_idx x v) (ap (λ x. strtoll x) (sym e) ∙ strtoll-decimal_text n h)

skip_to_digit-digit : (d : ℕ) (r : Bytes) → is_digit d ≡ true → skip_to_digit (d ∷ r) ≡ d ∷ r
unfolding skip_to_digit
skip_to_digit-digit d r h = rw h refl

skip_to_digit-number :
    (n : ℕ) (s : Bytes) → skip_to_digit (decimal_text n ++ s) ≡ decimal_text n ++ s
skip_to_digit-number n s =
    let (d, ds, e) = decimal_text-cons n in
    let every : All (λ c. is_digit c ≡ true) (d ∷ ds) =
      subst (λ x. All (λ c. is_digit c ≡ true) x) e (decimal_text-AllDigits n) in
    rw e (skip_to_digit-digit d (ds ++ s) every.0)

-- From `PostgreSQL `, a version of three numbers below 2 ^ 63 with dots between them and a text that does
-- not begin with a digit or a dot, the parser takes the three numbers and the instance type `POSTGRES`.
pub extract_postgres_version-three :
    (major minor patch : ℕ) (tail : Bytes)
    → major < 2 ^ 63
    → minor < 2 ^ 63
    → patch < 2 ^ 63
    → VersionEnd tail
    → extract_postgres_version (
        codes "PostgreSQL "
        ++ (decimal_text major
            ++ b'.' ∷ (decimal_text minor ++ b'.' ∷ (decimal_text patch ++ tail))))
      ≡ record { major_v = major; minor_v = minor; patch_v = patch; type_v = postgres }
unfolding extract_postgres_version
extract_postgres_version-three major minor patch tail h k l e =
    rw
      (skip_to_digit-text (codes "PostgreSQL ")
        (decimal_text major ++ b'.' ∷ (decimal_text minor ++ b'.' ∷ (decimal_text patch ++ tail)))
        (refl, (refl, (refl, (refl, (refl, (refl, (refl, (refl, (refl, (refl, (refl, tt))))))))))))
      (rw
        (skip_to_digit-number major
          (b'.' ∷ (decimal_text minor ++ b'.' ∷ (decimal_text patch ++ tail))))
        (number_dot 2 0 major (decimal_text minor ++ b'.' ∷ (decimal_text patch ++ tail)) _ h
          ∙ number_dot 1 1 minor (decimal_text patch ++ tail) _ k
          ∙ number_end 0 2 patch tail _ l e))
