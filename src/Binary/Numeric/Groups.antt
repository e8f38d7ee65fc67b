-- ===== src/Binary/Numeric/Groups.antt =====
-- The groups of four digits of a decimal, which `WriteDecimal` writes and `ReadDecimal` reads:
-- src/include/postgres_binary_writer.hpp and src/include/postgres_binary_parser.hpp.
use native.Mathlib.Nat.{pow-suc}
use duckdb_postgres.Common.{
  ℕ, zero, suc, ◌+◌, ◌*◌, ◌/◌, ◌%◌, ◌^◌, ◌≤◌, ◌<◌, true, List, [], ◌∷◌, ◌++◌, length, ltb, ◌==◌,
  Bytes, Result, ok, ◌≡◌, refl, ap, ◌∙◌, arith, inl, inr, Bool-cases, append_assoc, All,
}
use duckdb_postgres.Common.Int.{pos}
use duckdb_postgres.Binary.Integers.{
  write_raw_integer, read_integer, read_integer-write_raw_integer,
}
use duckdb_postgres.Binary.Numeric.{
  Storage, half, integral_digits, fractional_digits, write_groups, held, next_group, read_integral,
  compensated, read_fraction,
}
use duckdb_postgres.Binary.Numeric.Arithmetic.{
  storage_rounds, power_of_ten-small, last_group, div_le,
}

-- The number that groups of four digits stand for behind `so_far`.
abbrev pub groups_value : ℕ → List ℕ → ℕ
groups_value so_far [] = so_far
groups_value so_far (d ∷ ds) = groups_value (so_far * 10000 + d) ds

abbrev pub IsGroup : ℕ → Type 0
IsGroup d = d < 10000

pub groups_value-le : (so_far : ℕ) (ds : List ℕ) → so_far ≤ groups_value so_far ds
groups_value-le so_far [] = omega arith
groups_value-le so_far (d ∷ ds) = omega (arith, groups_value-le (so_far * 10000 + d) ds)

pub groups_value-fractional_digits :
    (k n : ℕ) (found : List ℕ)
    → n < 10000 ^ k
    → groups_value 0 (fractional_digits k n found) ≡ groups_value n found
unfolding fractional_digits
groups_value-fractional_digits zero n found h = ap (λ x. groups_value x found) (omega arith)
groups_value-fractional_digits (suc k) n found h =
    groups_value-fractional_digits k (n / 10000) (n % 10000 ∷ found)
      (omega (arith, pow-suc 10000 k))
    ∙ ap (λ x. groups_value x found) (omega arith)

pub fractional_digits-AllGroups :
    (k n : ℕ) (found : List ℕ) → All IsGroup found → All IsGroup (fractional_digits k n found)
unfolding fractional_digits
fractional_digits-AllGroups zero n found h = h
fractional_digits-AllGroups (suc k) n found h =
    fractional_digits-AllGroups k (n / 10000) (n % 10000 ∷ found) (omega arith, h)

pub length-fractional_digits :
    (k n : ℕ) (found : List ℕ) → length (fractional_digits k n found) ≡ k + length found
unfolding fractional_digits
length-fractional_digits zero n found = omega arith
length-fractional_digits (suc k) n found =
    omega (arith, length-fractional_digits k (n / 10000) (n % 10000 ∷ found))

-- The array of the groups is large enough, and the groups stand for the number.
pub integral_digits_lem :
    (rounds n : ℕ) (found : List ℕ)
    → n < 10000 ^ rounds
    → All IsGroup found
    → (ds : List ℕ) × (integral_digits rounds n found ≡ ok ds)
      × (groups_value 0 ds ≡ groups_value n found)
      × (All IsGroup ds)
      × (length ds ≤ rounds + length found)
unfolding integral_digits
integral_digits_lem zero n found h every =
    (found, ground arith, ap (λ x. groups_value x found) (omega arith), every, omega arith)
integral_digits_lem (suc rounds) n found h every = elim (Bool-cases (n == 0)) [
  | inl e ↦ (found, rw e refl, ap (λ x. groups_value x found) (ground arith), every, omega arith)
  | inr e ↦
      let (ds, found_eq, value_eq, groups, bound) =
        integral_digits_lem rounds (n / 10000) (n % 10000 ∷ found)
          (omega (arith, pow-suc 10000 rounds)) (omega arith, every) in
      (
        ds,
        rw e found_eq,
        value_eq ∙ ap (λ x. groups_value x found) (omega arith),
        groups,
        omega arith,
      )
]

pub read-write_group :
    (d : ℕ) (rest : Bytes)
    → d < 10000
    → read_integer 2 (write_raw_integer 2 d ++ rest) ≡ ok (d, rest)
read-write_group d rest h = read_integer-write_raw_integer 2 d rest (omega arith)

module _ (overflowed : ℕ → Result ℕ) (T : Storage) where
  pub held_lem : (n : ℕ) → n < half T → held overflowed T n ≡ ok n
  unfolding held
  held_lem n h = ground arith

  pub next_group-write_raw_integer :
      (so_far d : ℕ) (rest : Bytes)
      → d < 10000
      → so_far + d < half T
      → next_group overflowed T true so_far (write_raw_integer 2 d ++ rest) ≡ ok (so_far + d, rest)
  unfolding next_group
  next_group-write_raw_integer so_far d rest h bound =
      rw (read-write_group d rest h) (rw (held_lem (so_far + d) bound) refl)

  pub read_integral-write_groups :
      (ds : List ℕ) (i ndigits so_far : ℕ) (rest : Bytes)
      → All IsGroup ds
      → i + length ds ≤ ndigits
      → groups_value so_far ds < half T
      → read_integral overflowed T (length ds) i ndigits so_far (write_groups ds ++ rest)
        ≡ ok (groups_value so_far ds, rest)
  unfolding read_integral write_groups
  read_integral-write_groups [] i ndigits so_far rest every room bound = refl
  read_integral-write_groups (d ∷ ds) i ndigits so_far rest every room bound =
      let grows = groups_value-le (so_far * 10000 + d) ds in
      let some_left : ltb i ndigits ≡ true = ground arith in
      rw (held_lem (so_far * 10000) (omega arith)) (
        rw some_left (
          rw (append_assoc (write_raw_integer 2 d) (write_groups ds) rest) (
            rw
              (next_group-write_raw_integer (so_far * 10000) d (write_groups ds ++ rest) every.0
                (omega arith))
              (read_integral-write_groups ds (suc i) ndigits (so_far * 10000 + d) rest every.1
                (omega arith) bound))))

  pub compensation_lem :
      (c d : ℕ) → c ≤ 3 → compensated overflowed T (pos c) d ≡ ok (10000 / 10 ^ c, d / 10 ^ c)
  unfolding compensated
  compensation_lem c d h =
      let (split, small) = last_group c 0 0 h in
      rw (power_of_ten-small T c (omega arith))
        (rw (held_lem (10 ^ c) (omega (arith, small, (storage_rounds T).1))) refl)

  pub read_fraction-write_groups :
      (c : ℕ) (d : ℕ) (ds : List ℕ) (so_far : ℕ) (rest : Bytes)
      → c ≤ 3
      → All IsGroup (d ∷ ds)
      → groups_value so_far (d ∷ ds) < half T
      → read_fraction overflowed T (pos c) (suc (length ds)) so_far (write_groups (d ∷ ds) ++ rest)
        ≡ ok (groups_value so_far (d ∷ ds) / 10 ^ c, rest)
  unfolding read_fraction write_groups
  read_fraction-write_groups c d [] so_far rest h every bound =
      let (split, small) = last_group c so_far d h in
      let less = div_le (so_far * 10000 + d) c h in
      rw (append_assoc (write_raw_integer 2 d) [] rest) (
        rw (read-write_group d rest every.0) (
          rw (held_lem d (omega arith)) (
            rw (compensation_lem c d h) (
              rw (held_lem (so_far * (10000 / 10 ^ c)) (omega (arith, split, less))) (
                rw (held_lem (so_far * (10000 / 10 ^ c) + d / 10 ^ c) (omega (arith, split, less)))
                  (rw split refl))))))
  read_fraction-write_groups c d (e ∷ ds) so_far rest h every bound =
      let grows = groups_value-le ((so_far * 10000 + d) * 10000 + e) ds in
      rw (held_lem (so_far * 10000) (omega arith)) (
        rw (append_assoc (write_raw_integer 2 d) (write_raw_integer 2 e ++ write_groups ds) rest) (
          rw
            (next_group-write_raw_integer (so_far * 10000) d
              ((write_raw_integer 2 e ++ write_groups ds) ++ rest) every.0 (omega arith))
            (read_fraction-write_groups c e ds (so_far * 10000 + d) rest h every.1 bound)))
