-- ===== src/Types/Modifiers.antt =====
-- What the type modifiers of `numeric` and `geometry` columns say.
use duckdb_postgres.Common.{
  ℕ, ◌+◌, ◌-◌, ◌*◌, ◌/◌, ◌%◌, ◌^◌, ◌<◌, ◌≤◌, true, false, [], ◌∷◌, ◌++◌, some, Bytes, codes, ok,
  ◌≡◌, refl, ap, sym, ◌∙◌, arith, if◌then◌else◌, ltb, ◌==◌, decimal_text, decimal_text-AllDigits,
  decimal_text-cons, digits_value, digits_value-decimal_text, is_digit, All,
}
use mathlib.Core.Path.{subst}
use duckdb_postgres.Common.Int.{pos}
use duckdb_postgres.Types.Data.{
  LogicalType, geometry, decimal, varchar, double, PostgresType, PostgresTypeConfig, standard,
  cast_to_varchar, numeric_as_double,
}
use duckdb_postgres.Types.Logical.{
  plain, annotated, numeric_type, numeric_width, numeric_scale, geometry_type, type_to_string,
  geometry_srid, stoi_positive, leading_digits, positive_number, typmod_bits, is_space,
}

typmod_bits-lem :
    (p s : ℕ) → p ≤ 38 → s ≤ p → typmod_bits (pos (p * 2 ^ 16 + s + 4)) ≡ p * 2 ^ 16 + s
typmod_bits-lem p s most scale = omega arith

numeric_width-lem : (p s : ℕ) → p ≤ 38 → s ≤ p → numeric_width (pos (p * 2 ^ 16 + s + 4)) ≡ p
numeric_width-lem p s most scale =
    ap (λ b. b / 2 ^ 16 % 2 ^ 16) (typmod_bits-lem p s most scale) ∙ omega arith

numeric_scale-lem : (p s : ℕ) → p ≤ 38 → s ≤ p → numeric_scale (pos (p * 2 ^ 16 + s + 4)) ≡ s
numeric_scale-lem p s most scale =
    ap
      (λ b.
        if ltb (b % 2 ^ 11) 1024
        then b % 2 ^ 11
        else (b % 2 ^ 11 - 1024 + (2 ^ 64 - 1024)) % 2 ^ 64)
      (typmod_bits-lem p s most scale)
    ∙ ground arith

-- What is left once the two parts are read.
read_modifier :
    (config : PostgresTypeConfig) (p s : ℕ)
    → p ≤ 38
    → s ≤ p
    → ◌≡◌ {A = LogicalType × PostgresType}
        (if ltb 38 p
          then (if config.numeric_as_varchar
              then (plain varchar, annotated cast_to_varchar)
              else (plain double, annotated numeric_as_double))
          else (plain (decimal p (s % 2 ^ 8)), annotated standard))
        (plain (decimal p s), annotated standard)
read_modifier config p s most scale = ground arith

-- For a precision of 1 to 38 and a scale that is not larger, the type modifier that the server stores for
-- `numeric(p, s)`, `((p << 16) | s) + 4`, is read as DECIMAL(p, s), whatever the settings are.
pub numeric_type-typmod :
    (config : PostgresTypeConfig) (p s : ℕ)
    → 0 < p
    → p ≤ 38
    → s ≤ p
    → numeric_type config (pos (p * 2 ^ 16 + s + 4)) ≡ (plain (decimal p s), annotated standard)
unfolding numeric_type
numeric_type-typmod config p s some_digit most scale =
    rw (numeric_width-lem p s most scale)
      (rw (numeric_scale-lem p s most scale) (read_modifier config p s most scale))

leading_digits-AllDigits : (ds : Bytes) → All (λ c. is_digit c ≡ true) ds → leading_digits ds ≡ ds
leading_digits-AllDigits [] h = refl
leading_digits-AllDigits (d ∷ ds) h = rw h.0 (ap (◌∷◌ d) (leading_digits-AllDigits ds h.1))

-- `std::stoi` of a run of digits.
stoi_positive-digits :
    (d : ℕ) (ds : Bytes)
    → All (λ c. is_digit c ≡ true) (d ∷ ds)
    → stoi_positive (d ∷ ds) ≡ positive_number (d ∷ ds)
unfolding stoi_positive
stoi_positive-digits d ds h =
    let no_space : is_space d ≡ false = ground (arith, h.0) in
    let no_sign : (d == b'+') ≡ false = ground (arith, h.0) in
    rw no_space (rw no_sign (ap positive_number (leading_digits-AllDigits (d ∷ ds) h)))

stoi_positive-decimal_text : (n : ℕ) → 0 < n → n < 2 ^ 31 → stoi_positive (decimal_text n) ≡ some n
stoi_positive-decimal_text n some_bit bound =
    let (d, ds, e) = decimal_text-cons n in
    let every : All (λ c. is_digit c ≡ true) (d ∷ ds) =
      subst (λ x. All (λ c. is_digit c ≡ true) x) e (decimal_text-AllDigits n) in
    let value : digits_value 0 (d ∷ ds) ≡ n =
      ap (λ x. digits_value 0 x) (sym e) ∙ digits_value-decimal_text n (omega arith) in
    ap (λ x. stoi_positive x) e ∙ stoi_positive-digits d ds every ∙ rw value (ground arith)

geometry_type-lem :
    (srid low : ℕ)
    → 0 < srid
    → srid < 2 ^ 20
    → low < 2 ^ 8
    → geometry_type (pos (srid * 2 ^ 8 + low))
      ≡ plain (geometry (some (codes "EPSG:" ++ decimal_text srid)))
unfolding geometry_type
geometry_type-lem srid low some_srid bound bits =
    let part : (srid * 2 ^ 8 + low) % 2 ^ 32 / 2 ^ 8 % 2 ^ 20 ≡ srid = omega arith in
    rw part (ground arith)

type_to_string-srid :
    (to_string : LogicalType → Bytes) (srid : ℕ)
    → 0 < srid
    → srid < 2 ^ 20
    → type_to_string to_string (plain (geometry (some (codes "EPSG:" ++ decimal_text srid))))
      ≡ ok (codes "geometry(Geometry, " ++ decimal_text srid ++ codes ")")
unfolding type_to_string geometry_srid
type_to_string-srid to_string srid some_srid bound =
    rw (stoi_positive-decimal_text srid some_srid (omega arith), type_to_string, geometry_srid) refl

-- An SRID below 2 ^ 20 that is not 0, in the type modifier of a `geometry` column whose other bits, the
-- eight lowest, are free, comes back in the column type that a CREATE TABLE is sent.
pub geometry_type-srid :
    (to_string : LogicalType → Bytes) (srid low : ℕ)
    → 0 < srid
    → srid < 2 ^ 20
    → low < 2 ^ 8
    → type_to_string to_string (geometry_type (pos (srid * 2 ^ 8 + low)))
      ≡ ok (codes "geometry(Geometry, " ++ decimal_text srid ++ codes ")")
geometry_type-srid to_string srid low some_srid bound bits =
    ap (type_to_string to_string) (geometry_type-lem srid low some_srid bound bits)
    ∙ type_to_string-srid to_string srid some_srid bound
