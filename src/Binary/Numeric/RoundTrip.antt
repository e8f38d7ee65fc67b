-- ===== src/Binary/Numeric/RoundTrip.antt =====
-- What `ReadDecimal` of src/include/postgres_binary_parser.hpp makes of the value that `WriteDecimal` of
-- src/include/postgres_binary_writer.hpp writes.
use native.Mathlib.Nat.{mod-lt, div-le_self}
use duckdb_postgres.Common.{
  ℕ, suc, ◌+◌, ◌-◌, ◌*◌, ◌/◌, ◌%◌, ◌^◌, ◌≤◌, ◌<◌, true, false, ◌||◌, List, [], ◌∷◌, ◌++◌, length,
  ltb, ◌==◌, if◌then◌else◌, Bytes, Result, ok, ◌≡◌, refl, ap, sym, ◌∙◌, arith, inl, inr, Bool-cases,
  append_assoc, All,
}
use duckdb_postgres.Common.Int.{ℤ, pos, negsuc, to_unsigned, sub_ℕ}
use duckdb_postgres.Binary.Integers.{write_raw_integer, read_integer-write_raw_integer}
use duckdb_postgres.Binary.Dates.{behind_length}
use duckdb_postgres.Binary.Numeric.{
  Storage, half, powers, size_of, magnitude, sign_of, negated, fractional_digits, write_groups,
  write_numeric, fractional_ndigits, correction, read_decimal_config, write_decimal,
  PostgresDecimalConfig, numeric_neg, is_sign, numeric_nan, numeric_pinf, numeric_ninf,
  integral_part, fractional_part, read_finite, read_decimal, PostgresDecimal, ordinary,
  fraction_groups, fraction_start,
}
use duckdb_postgres.Binary.Numeric.Arithmetic.{
  storage_rounds, power_of_ten-small, weight_bound, correction_lem, weight_lem, le_mul, sub_one,
  correction-pos, mul-div_power, power_of_ten-known, parts_sum, power_pos, zero_scale, few_powers,
  few_groups, fraction_bound,
}
use duckdb_postgres.Binary.Numeric.Groups.{
  groups_value, IsGroup, groups_value-le, groups_value-fractional_digits,
  fractional_digits-AllGroups, length-fractional_digits, integral_digits_lem, held_lem,
  next_group-write_raw_integer, read_integral-write_groups, read_fraction-write_groups,
}

fraction_lem :
    (is fs : List ℕ)
    → (fraction_groups (length is + length fs) (sub_ℕ (length is) 1) ≡ length fs)
      × ((length is + length fs) - fraction_start (sub_ℕ (length is) 1) ≡ length fs)
fraction_lem [] fs = (ground arith, ground arith)
fraction_lem (d ∷ is) fs = (ground arith, ground arith)

module _ (overflowed : ℕ → Result ℕ) (T : Storage) where
  integral_part-write_groups :
      (is : List ℕ) (ndigits power : ℕ) (rest : Bytes)
      → All IsGroup is
      → length is ≤ ndigits
      → 0 < power
      → groups_value 0 is * power < half T
      → integral_part overflowed T (sub_ℕ (length is) 1) ndigits power (write_groups is ++ rest)
        ≡ ok (groups_value 0 is * power, rest)
  unfolding integral_part write_groups
  integral_part-write_groups [] ndigits power rest every room some_power bound =
      ap (λ x. ok (x, rest)) (omega arith)
  integral_part-write_groups (d ∷ ds) ndigits power rest every room some_power bound =
      let value : groups_value (0 + d) ds ≡ groups_value 0 (d ∷ ds) =
        ap (λ x. groups_value x ds) (omega arith) in
      let less = le_mul (groups_value 0 (d ∷ ds)) power some_power in
      let grows = groups_value-le (0 + d) ds in
      rw (sub_one (length ds)) (
        rw (append_assoc (write_raw_integer 2 d) (write_groups ds) rest) (
          rw
            (next_group-write_raw_integer overflowed T 0 d (write_groups ds ++ rest) every.0
              (omega arith))
            (rw
              (read_integral-write_groups overflowed T ds 1 ndigits (0 + d) rest every.1
                (omega arith) (omega arith))
              (rw value
                (rw (held_lem overflowed T (groups_value 0 (d ∷ ds) * power) bound) refl)))))

  fractional_part-write_groups :
      (is fs : List ℕ) (scale f : ℕ) (rest : Bytes)
      → All IsGroup fs
      → length fs ≡ fractional_ndigits scale
      → groups_value 0 fs ≡ f * 10 ^ correction scale
      → f < 10 ^ scale
      → f * 10 ^ correction scale < half T
      → fractional_part overflowed T
          (sub_ℕ (length is) 1)
          (length is + length fs)
          scale
          (write_groups fs ++ rest)
        ≡ ok (f, rest)
  unfolding fractional_part write_groups
  fractional_part-write_groups is [] scale f rest every count value small bound =
      let none_left = zero_scale scale f count small in
      let (g, s) = fraction_lem is [] in rw g (rw none_left refl)
  fractional_part-write_groups is (d ∷ fs) scale f rest every count value small bound =
      let (g, s) = fraction_lem is (d ∷ fs) in
      let positive : ltb 0 (suc (length fs)) ≡ true = ground arith in
      rw g (
        rw s (
          rw count (
            rw (correction-pos scale) (
              rw (sym count) (
                let exact = mul-div_power f (correction scale) (correction_lem scale).0 in
                rw
                  (read_fraction-write_groups overflowed T (correction scale) d fs 0 rest
                    (correction_lem scale).0 every (omega (arith, value, bound)))
                  (rw value (rw exact (rw positive refl))))))))

write_numeric-append :
    (sign scale : ℕ) (is fs : List ℕ) (rest : Bytes)
    → write_numeric sign scale is fs ++ rest
      ≡ write_raw_integer 4 (2 * (4 + (length is + length fs)))
        ++ (write_raw_integer 2 (length is + length fs)
            ++ (write_raw_integer 2 (to_unsigned (2 ^ 16) (sub_ℕ (length is) 1))
                ++ (write_raw_integer 2 sign
                    ++ (write_raw_integer 2 scale
                        ++ (write_groups is ++ (write_groups fs ++ rest))))))
unfolding write_numeric
write_numeric-append sign scale is fs rest = simp append_assoc refl

unfoldable pub config_of : ℕ → ℕ → ℕ → ℕ → PostgresDecimalConfig
config_of sign scale i f = record {
  scale = scale;
  ndigits = i + f;
  weight = sub_ℕ i 1;
  is_negative = sign == numeric_neg;
  sign = sign;
}

read_decimal_config_lem :
    (sign scale i f : ℕ) (rest : Bytes)
    → is_sign sign ≡ true
    → sign < 2 ^ 16
    → scale < 2 ^ 16
    → i + f < 2 ^ 15
    → read_decimal_config (
        write_raw_integer 2 (i + f)
        ++ (write_raw_integer 2 (to_unsigned (2 ^ 16) (sub_ℕ i 1))
            ++ (write_raw_integer 2 sign ++ (write_raw_integer 2 scale ++ rest))))
      ≡ ok (config_of sign scale i f, rest)
unfolding read_decimal_config config_of
read_decimal_config_lem sign scale i f rest h bound small few =
    let w = to_unsigned (2 ^ 16) (sub_ℕ i 1) in
    let tail = write_raw_integer 2 sign ++ (write_raw_integer 2 scale ++ rest) in
    rw (read_integer-write_raw_integer 2 (i + f) (write_raw_integer 2 w ++ tail) (omega arith)) (
      rw (read_integer-write_raw_integer 2 w tail (weight_bound i (omega arith))) (
        rw (read_integer-write_raw_integer 2 sign (write_raw_integer 2 scale ++ rest) bound) (
          rw h (
            rw (read_integer-write_raw_integer 2 scale rest small)
              (rw (weight_lem i (omega arith)) refl)))))

abbrev pub finite : ℕ → ℕ → PostgresDecimal
finite sign n = record { value = if sign == numeric_neg then negated n else pos n; kind = ordinary }

finite_zero : (sign : ℕ) → finite sign 0 ≡ record { value = pos 0; kind = ordinary }
finite_zero sign = elim (Bool-cases (sign == numeric_neg)) [ inl e ↦ rw e refl | inr e ↦ rw e refl ]

module _ (overflowed : ℕ → Result ℕ) (T : Storage) (sign scale n : ℕ) (rest : Bytes)
    (known : scale < powers T) (bound : n < half T)
    (fits : n % 10 ^ scale * 10 ^ correction scale < half T) where
  read_some :
      (is fs : List ℕ)
      → (length is + length fs == 0) ≡ false
      → All IsGroup is
      → All IsGroup fs
      → length fs ≡ fractional_ndigits scale
      → groups_value 0 is ≡ n / 10 ^ scale
      → groups_value 0 fs ≡ n % 10 ^ scale * 10 ^ correction scale
      → read_finite overflowed T
          (config_of sign scale (length is) (length fs))
          (write_groups is ++ (write_groups fs ++ rest))
        ≡ ok (finite sign n, rest)
  unfolding read_finite config_of
  read_some is fs some_digit gi gf count vi vf =
      let sum = parts_sum n (10 ^ scale) in
      rw (power_of_ten-known T scale known) (
        rw some_digit (
          rw
            (integral_part-write_groups overflowed T is (length is + length fs) (10 ^ scale)
              (write_groups fs ++ rest) gi (omega arith) (power_pos scale)
              (rw vi (omega (arith, sum, bound))))
            (rw
              (fractional_part-write_groups overflowed T is fs scale (n % 10 ^ scale) rest gf count
                vf (mod-lt n (power_pos scale)) fits)
              (rw vi (rw sum (rw (held_lem overflowed T n bound) refl))))))

  read_finite_lem :
      (is fs : List ℕ)
      → All IsGroup is
      → All IsGroup fs
      → length fs ≡ fractional_ndigits scale
      → groups_value 0 is ≡ n / 10 ^ scale
      → groups_value 0 fs ≡ n % 10 ^ scale * 10 ^ correction scale
      → read_finite overflowed T
          (config_of sign scale (length is) (length fs))
          (write_groups is ++ (write_groups fs ++ rest))
        ≡ ok (finite sign n, rest)
  unfolding read_finite config_of write_groups
  read_finite_lem [] [] gi gf count vi vf =
      let zero_part = zero_scale scale (n % 10 ^ scale) count (mod-lt n (power_pos scale)) in
      let sum = parts_sum n (10 ^ scale) in
      let zero_number : n ≡ 0 = sym sum ∙ rw (← vi) (rw zero_part (omega arith)) in
      rw (power_of_ten-known T scale known)
        (rw zero_number (ap (λ d. ok (d, rest)) (sym (finite_zero sign))))
  read_finite_lem (d ∷ is) fs gi gf count vi vf =
      read_some (d ∷ is) fs (ground arith) gi gf count vi vf
  read_finite_lem [] (d ∷ fs) gi gf count vi vf =
      read_some [] (d ∷ fs) (ground arith) gi gf count vi vf

finite_number :
    (number : ℤ)
    → finite (sign_of number) (magnitude number) ≡ record { value = number; kind = ordinary }
finite_number (pos n) = refl
finite_number (negsuc n) = refl

sign_lem :
    (number : ℤ)
    → (is_sign (sign_of number) ≡ true)
      × (sign_of number < 2 ^ 16)
      × ((sign_of number == numeric_nan
            || (sign_of number == numeric_pinf || sign_of number == numeric_ninf))
          ≡ false)
sign_lem (pos n) = (refl, omega arith, refl)
sign_lem (negsuc n) = (refl, omega arith, refl)

-- A decimal of a scale that the table of powers has, whose value T holds, and whose fractional part T still
-- holds when it is padded with zeros to whole groups of four digits, is written without an exception, and the
-- reader gets it back with what follows it: it finds a length of 8 bytes or more that an int32_t holds, and
-- then the same value.
pub read_decimal-write_decimal :
    (overflowed : ℕ → Result ℕ) (T : Storage) (scale : ℕ) (number : ℤ) (rest : Bytes)
    → scale < powers T
    → magnitude number < half T
    → magnitude number % 10 ^ scale * 10 ^ correction scale < half T
    → (text : Bytes) × (size : ℕ) × (write_decimal overflowed T scale number ≡ ok text)
      × (8 ≤ size)
      × (size < 2 ^ 31)
      × (behind_length (read_decimal overflowed T) (text ++ rest)
          ≡ ok (size, (record { value = number; kind = ordinary }, rest)))
unfolding write_decimal read_decimal config_of
read_decimal-write_decimal overflowed T scale number rest known bound fits =
    let n = magnitude number in
    let few = few_powers T in
    let (is, found, vi, gi, li) =
      integral_digits_lem (4 * size_of T) (n / 10 ^ scale) []
        (omega (arith, (storage_rounds T).0, div-le_self n (10 ^ scale), bound)) tt in
    let f = n % 10 ^ scale * 10 ^ correction scale in
    let fs = fractional_digits (fractional_ndigits scale) f [] in
    let lf = length-fractional_digits (fractional_ndigits scale) f [] in
    let vf =
      groups_value-fractional_digits (fractional_ndigits scale) f []
        (fraction_bound scale (n % 10 ^ scale) (mod-lt n (power_pos scale))) in
    let gf = fractional_digits-AllGroups (fractional_ndigits scale) f [] tt in
    let room = few_groups scale (omega arith) in
    let (s1, s2, s3) = sign_lem number in
    let size = 2 * (4 + (length is + length fs)) in
    (
      write_numeric (sign_of number) scale is fs,
      size,
      rw (held_lem overflowed T n bound) (
          rw (power_of_ten-known T scale known) (
            rw found (
              rw (power_of_ten-small T (correction scale) (omega (arith, (correction_lem scale).0)))
                (rw (held_lem overflowed T f fits) refl)))),
      omega arith,
      omega (arith, li, lf, room, few),
      rw (write_numeric-append (sign_of number) scale is fs rest) (
          rw
            (read_integer-write_raw_integer 4 size
              (write_raw_integer 2 (length is + length fs)
                ++ (write_raw_integer 2 (to_unsigned (2 ^ 16) (sub_ℕ (length is) 1))
                    ++ (write_raw_integer 2 (sign_of number)
                        ++ (write_raw_integer 2 scale
                            ++ (write_groups is ++ (write_groups fs ++ rest))))))
              (omega (arith, li, lf, room, few)))
            (rw
              (read_decimal_config_lem (sign_of number) scale (length is) (length fs)
                (write_groups is ++ (write_groups fs ++ rest)) s1 s2 (omega (arith, room, few))
                (omega (arith, li, lf, room, few)))
              (rw s3 (
                rw
                  (read_finite_lem overflowed T (sign_of number) scale n rest known bound fits is fs
                    gi gf (omega (arith, lf)) vi vf)
                  (rw (finite_number number) refl))))),
    )
