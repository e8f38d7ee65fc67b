-- ===== src/Binary/Numeric.antt =====
-- NUMERIC values: `WriteDecimal` of src/include/postgres_binary_writer.hpp, and `ReadDecimalConfig`,
-- `ReadDecimal` and the kinds of a decimal of src/include/postgres_binary_parser.hpp and
-- src/postgres_binary_parser.cpp. What a machine makes of a product or a sum that the type T of the template
-- does not hold is left open: it is the parameter `overflowed`.
pub mod Arithmetic
pub mod Groups
pub mod RoundTrip
use duckdb_postgres.Common.{
  ℕ, zero, suc, ◌+◌, ◌-◌, ◌*◌, ◌/◌, ◌%◌, ◌^◌, Bool, true, false, ◌||◌, List, [], ◌∷◌, ◌++◌, length,
  leb, ltb, ◌==◌, if◌then◌else◌, Bytes, Result, ok, err, ◌>>=◌, internal, not_implemented,
  invalid_input, out_of_fuel,
}
use duckdb_postgres.Common.Int.{ℤ, pos, negsuc, to_unsigned, to_signed, sub_ℕ}
use duckdb_postgres.Binary.Integers.{write_raw_integer, read_integer}

abbrev pub nbase : ℕ
nbase = 10000

abbrev pub dec_digits : ℕ
dec_digits = 4

abbrev pub numeric_pos : ℕ
numeric_pos = 0

abbrev pub numeric_neg : ℕ
numeric_neg = 16384

abbrev pub numeric_nan : ℕ
numeric_nan = 49152

abbrev pub numeric_pinf : ℕ
numeric_pinf = 53248

abbrev pub numeric_ninf : ℕ
numeric_ninf = 61440

-- The types T of the template, which are those of DuckDB's decimals.
pub data Storage : Type 0 where
  int16 int32 int64 int128 : Storage

-- 2 ^ (bits - 1).
unfoldable pub half : Storage → ℕ
half int16 = 2 ^ 15
half int32 = 2 ^ 31
half int64 = 2 ^ 63
half int128 = 2 ^ 127

abbrev pub size_of : Storage → ℕ
size_of int16 = 2
size_of int32 = 4
size_of int64 = 8
size_of int128 = 16

-- The entries of the tables of `DecimalConversionInteger` and `DecimalConversionHugeint`.
abbrev pub powers : Storage → ℕ
powers int128 = 39
powers T = 19

-- `OP::GetPowerOfTen`.
unfoldable pub power_of_ten : Storage → ℕ → Result ℕ
power_of_ten T index = if leb (powers T) index then err internal else ok (10 ^ index)

-- `PostgresDecimalConfig`.
pub record PostgresDecimalConfig : Type 0 where
  pub scale : ℕ
  pub ndigits : ℕ
  pub weight : ℤ
  pub is_negative : Bool
  pub sign : ℕ

pub data PostgresDecimalKind : Type 0 where
  ordinary not_a_number positive_infinity negative_infinity : PostgresDecimalKind

-- `PostgresDecimal`: the value and its kind.
pub record PostgresDecimal : Type 0 where
  pub value : ℤ
  pub kind : PostgresDecimalKind

abbrev pub magnitude : ℤ → ℕ
magnitude (pos n) = n
magnitude (negsuc n) = suc n

abbrev pub sign_of : ℤ → ℕ
sign_of (pos n) = numeric_pos
sign_of (negsuc n) = numeric_neg

abbrev pub negated : ℕ → ℤ
negated zero = pos 0
negated (suc n) = negsuc n

-- The groups of four digits of the integral part, the last that the loop finds first. The array has room
-- for `rounds` of them.
unfoldable pub integral_digits : ℕ → ℕ → List ℕ → Result (List ℕ)
integral_digits zero n found = if n == 0 then ok found else err out_of_fuel
integral_digits (suc rounds) n found =
    let more = integral_digits rounds (n / nbase) (n % nbase ∷ found) in
    if n == 0 then ok found else more

unfoldable pub fractional_digits : ℕ → ℕ → List ℕ → List ℕ
fractional_digits zero n found = found
fractional_digits (suc k) n found = fractional_digits k (n / nbase) (n % nbase ∷ found)

unfoldable pub write_groups : List ℕ → Bytes
write_groups [] = []
write_groups (d ∷ ds) = write_raw_integer 2 d ++ write_groups ds

-- The size, the header, and the groups.
unfoldable pub write_numeric : ℕ → ℕ → List ℕ → List ℕ → Bytes
write_numeric sign scale integral fractional =
    write_raw_integer 4 (2 * (4 + (length integral + length fractional)))
    ++ (write_raw_integer 2 (length integral + length fractional)
        ++ (write_raw_integer 2 (to_unsigned (2 ^ 16) (sub_ℕ (length integral) 1))
            ++ (write_raw_integer 2 sign
                ++ (write_raw_integer 2 scale
                    ++ (write_groups integral ++ write_groups fractional)))))

unfoldable pub fractional_ndigits : ℕ → ℕ
fractional_ndigits scale = (scale + dec_digits - 1) / dec_digits

unfoldable pub correction : ℕ → ℕ
correction scale = fractional_ndigits scale * dec_digits - scale

-- `NonFiniteDecimalKindFromSign`.
unfoldable pub non_finite_decimal_kind_from_sign : ℕ → Result PostgresDecimalKind
non_finite_decimal_kind_from_sign sign =
    if sign == numeric_nan
    then ok not_a_number
    else if sign == numeric_pinf
    then ok positive_infinity
    else if sign == numeric_ninf
    then ok negative_infinity
    else err invalid_input

-- `NonFiniteDecimalKindToString`.
unfoldable pub non_finite_decimal_kind_to_string : PostgresDecimalKind → Result Bytes
non_finite_decimal_kind_to_string not_a_number = ok (b'N' ∷ b'a' ∷ b'N' ∷ [])
non_finite_decimal_kind_to_string positive_infinity =
    ok (b'I' ∷ b'n' ∷ b'f' ∷ b'i' ∷ b'n' ∷ b'i' ∷ b't' ∷ b'y' ∷ [])
non_finite_decimal_kind_to_string negative_infinity =
    ok (b'-' ∷ b'I' ∷ b'n' ∷ b'f' ∷ b'i' ∷ b'n' ∷ b'i' ∷ b't' ∷ b'y' ∷ [])
non_finite_decimal_kind_to_string ordinary = err invalid_input

abbrev pub is_sign : ℕ → Bool
is_sign sign =
    sign == numeric_pos
    || (sign == numeric_nan
        || (sign == numeric_pinf || (sign == numeric_ninf || sign == numeric_neg)))

-- `ReadDecimalConfig`.
unfoldable pub read_decimal_config : Bytes → Result (PostgresDecimalConfig × Bytes)
read_decimal_config buffer = read_integer 2 buffer >>= λ n. read_integer 2 n.1 >>= λ w.
    read_integer 2 w.1 >>= λ s.
    if is_sign s.0
    then (read_integer 2 s.1 >>= λ c. ok (
      record {
        scale = c.0;
        ndigits = n.0;
        weight = to_signed (2 ^ 15) w.0;
        is_negative = s.0 == numeric_neg;
        sign = s.0;
      },
      c.1,
    ))
    else err not_implemented

-- Where the fractional part starts among the groups: `MaxValue(0, weight + 1)`.
abbrev pub fraction_start : ℤ → ℕ
fraction_start (pos w) = suc w
fraction_start (negsuc m) = 0

-- `ndigits - weight - 1`, where that is positive.
abbrev pub fraction_groups : ℕ → ℤ → ℕ
fraction_groups ndigits (pos w) = ndigits - suc w
fraction_groups ndigits (negsuc m) = ndigits + m

module _ (overflowed : ℕ → Result ℕ) where
  -- A result of an operation on T.
  unfoldable pub held : Storage → ℕ → Result ℕ
  held T n = if ltb n (half T) then ok n else overflowed n

  -- `WriteDecimal`.
  unfoldable pub write_decimal : Storage → ℕ → ℤ → Result Bytes
  write_decimal T scale number = held T (magnitude number) >>= λ n.
      power_of_ten T scale >>= λ power.
      integral_digits (4 * size_of T) (n / power) [] >>= λ integral.
      power_of_ten T (correction scale) >>= λ factor. held T (n % power * factor) >>= λ fraction.
      ok (
        write_numeric (sign_of number) scale integral
          (fractional_digits (fractional_ndigits scale) fraction []))

  -- Another group, if there is one.
  unfoldable pub next_group : Storage → Bool → ℕ → Bytes → Result (ℕ × Bytes)
  next_group T some_left so_far buffer =
      if some_left
      then (read_integer 2 buffer >>= λ p. held T (so_far + p.0) >>= λ n. ok (n, p.1))
      else ok (so_far, buffer)

  -- The loop over the integral part, from its second group on: `left` rounds from i on.
  unfoldable pub read_integral : Storage → ℕ → ℕ → ℕ → ℕ → Bytes → Result (ℕ × Bytes)
  read_integral T zero i ndigits so_far buffer = ok (so_far, buffer)
  read_integral T (suc left) i ndigits so_far buffer = held T (so_far * nbase) >>= λ n.
      next_group T (ltb i ndigits) n buffer >>= λ p. read_integral T left (suc i) ndigits p.0 p.1

  -- The factor and the digit of the last group: `pos c` is a correction by 10 ^ c to be divided away.
  unfoldable pub compensated : Storage → ℤ → ℕ → Result (ℕ × ℕ)
  compensated T (pos c) digit = power_of_ten T c >>= λ power.
      held T power >>= λ compensation. ok (nbase / compensation, digit / compensation)
  compensated T (negsuc c) digit = power_of_ten T (suc c) >>= λ power.
      held T power >>= λ compensation. held T (nbase * compensation) >>= λ base.
      held T (digit * compensation) >>= λ last. ok (base, last)

  -- The loop over the fractional part.
  unfoldable pub read_fraction : Storage → ℤ → ℕ → ℕ → Bytes → Result (ℕ × Bytes)
  read_fraction T c zero so_far buffer = ok (so_far, buffer)
  read_fraction T c (suc zero) so_far buffer = read_integer 2 buffer >>= λ p.
      held T p.0 >>= λ digit. compensated T c digit >>= λ q.
      held T (so_far * q.0) >>= λ n. held T (n + q.1) >>= λ total. ok (total, p.1)
  read_fraction T c (suc (suc left)) so_far buffer = held T (so_far * nbase) >>= λ n.
      next_group T true n buffer >>= λ p. read_fraction T c (suc left) p.0 p.1

  unfoldable pub integral_part : Storage → ℤ → ℕ → ℕ → Bytes → Result (ℕ × Bytes)
  integral_part T (negsuc m) ndigits power buffer = ok (0, buffer)
  integral_part T (pos w) ndigits power buffer = next_group T true 0 buffer >>= λ first.
      read_integral T w 1 ndigits first.0 first.1 >>= λ p. held T (p.0 * power) >>= λ n. ok (n, p.1)

  unfoldable pub fractional_part : Storage → ℤ → ℕ → ℕ → Bytes → Result (ℕ × Bytes)
  fractional_part T weight ndigits scale buffer =
      let some_groups =
        read_fraction T (sub_ℕ (fraction_groups ndigits weight * dec_digits) scale)
          (ndigits - fraction_start weight) 0 buffer in
      if ltb 0 (fraction_groups ndigits weight) then some_groups else ok (0, buffer)

  -- `ReadDecimal` behind the config.
  unfoldable pub read_finite :
      Storage → PostgresDecimalConfig → Bytes → Result (PostgresDecimal × Bytes)
  read_finite T config buffer = power_of_ten T config.scale >>= λ power.
      if config.ndigits == 0
      then ok (record { value = pos 0; kind = ordinary }, buffer)
      else (integral_part T config.weight config.ndigits power buffer >>= λ i.
          fractional_part T config.weight config.ndigits config.scale i.1 >>= λ f.
          held T (i.0 + f.0) >>= λ n. ok (
            record { value = if config.is_negative then negated n else pos n; kind = ordinary },
            f.1,
          ))

  unfoldable pub read_decimal : Storage → Bytes → Result (PostgresDecimal × Bytes)
  read_decimal T buffer = read_decimal_config buffer >>= λ p.
      if p.0.sign == numeric_nan || (p.0.sign == numeric_pinf || p.0.sign == numeric_ninf)
      then (non_finite_decimal_kind_from_sign p.0.sign >>= λ kind.
          ok (record { value = pos 0; kind = kind }, p.1))
      else read_finite T p.0 p.1
