-- ===== src/Binary/Numeric/Arithmetic.antt =====
-- The powers of ten of src/include/postgres_conversion.hpp, and the numbers of groups of a decimal.
use native.Mathlib.Nat.{
  pow-suc, pow-zero, div-add-mod, mul-lt-mul_of_pos_right, mul_assoc, mul_comm,
}
use duckdb_postgres.Common.{
  ℕ, zero, suc, ◌+◌, ◌*◌, ◌/◌, ◌%◌, ◌^◌, ◌≤◌, ◌<◌, ok, ◌≡◌, refl, ap, sym, ◌∙◌, arith,
}
use duckdb_postgres.Common.Int.{pos, to_unsigned, to_signed, sub_ℕ}
use duckdb_postgres.Binary.Numeric.{
  Storage, int16, int32, int64, int128, half, powers, power_of_ten, size_of, fractional_ndigits,
  correction,
}

pub storage_rounds : (T : Storage) → (half T ≤ 10000 ^ (4 * size_of T)) × (1000 < half T)
unfolding half
storage_rounds int16 = (omega arith, omega arith)
storage_rounds int32 = (omega arith, omega arith)
storage_rounds int64 = (omega arith, omega arith)
storage_rounds int128 = (omega arith, omega arith)

pub power_of_ten-small : (T : Storage) (c : ℕ) → c < 19 → power_of_ten T c ≡ ok (10 ^ c)
unfolding power_of_ten
power_of_ten-small int16 c h = ground arith
power_of_ten-small int32 c h = ground arith
power_of_ten-small int64 c h = ground arith
power_of_ten-small int128 c h = ground arith

-- A last group of which `c` digits are cut off.
pub last_group :
    (c n d : ℕ)
    → c ≤ 3
    → (n * (10000 / 10 ^ c) + d / 10 ^ c ≡ (n * 10000 + d) / 10 ^ c) × (10 ^ c ≤ 1000)
last_group zero n d h = (omega arith, omega arith)
last_group (suc zero) n d h = (omega arith, omega arith)
last_group (suc (suc zero)) n d h = (omega arith, omega arith)
last_group (suc (suc (suc zero))) n d h = (omega arith, omega arith)
last_group (suc (suc (suc (suc c)))) n d h = absurd (omega arith)

pub div_le : (n c : ℕ) → c ≤ 3 → n / 10 ^ c ≤ n
div_le n zero h = omega arith
div_le n (suc zero) h = omega arith
div_le n (suc (suc zero)) h = omega arith
div_le n (suc (suc (suc zero))) h = omega arith
div_le n (suc (suc (suc (suc c)))) h = absurd (omega arith)

pub swap_last : (x y z : ℕ) → x * y * z ≡ x * z * y
swap_last x y z = mul_assoc x y z ∙ ap (λ w. x * w) (mul_comm y z) ∙ sym (mul_assoc x z y)

pub pow-add_exponent : (b m n : ℕ) → b ^ (m + n) ≡ b ^ m * b ^ n
pow-add_exponent b zero n = ap (λ x. b ^ x) e ∙ sym (ap (λ x. x * b ^ n) (pow-zero b) ∙ omega arith)
  where
    e : zero + n ≡ n
    e = omega arith
pow-add_exponent b (suc m) n =
    ap (λ x. b ^ x) e
    ∙ pow-suc b (m + n)
    ∙ ap (λ x. x * b) (pow-add_exponent b m n)
    ∙ swap_last (b ^ m) (b ^ n) b
    ∙ ap (λ x. x * b ^ n) (sym (pow-suc b m))
  where
    e : suc m + n ≡ suc (m + n)
    e = omega arith

pub weight_bound : (n : ℕ) → n < 2 ^ 15 → to_unsigned (2 ^ 16) (sub_ℕ n 1) < 256 ^ 2
weight_bound zero h = ground arith
weight_bound (suc n) h = ground arith

pub groups_power : (k : ℕ) → 10000 ^ k ≡ 10 ^ (k * 4)
groups_power zero = refl
groups_power (suc k) =
    pow-suc 10000 k
    ∙ ap (λ x. x * 10000) (groups_power k)
    ∙ sym (pow-add_exponent 10 (k * 4) 4)
    ∙ ap (λ x. 10 ^ x) (omega arith)

pub correction_lem :
    (scale : ℕ) → (correction scale ≤ 3) × (fractional_ndigits scale * 4 ≡ scale + correction scale)
unfolding correction fractional_ndigits
correction_lem scale = (omega arith, omega arith)

pub weight_lem :
    (n : ℕ) → n < 2 ^ 15 → to_signed (2 ^ 15) (to_unsigned (2 ^ 16) (sub_ℕ n 1)) ≡ sub_ℕ n 1
weight_lem zero h = ground arith
weight_lem (suc n) h = ground arith

pub le_mul : (n p : ℕ) → 0 < p → n ≤ n * p
le_mul n zero h = absurd (omega arith)
le_mul n (suc p) h = grind arith

pub sub_one : (n : ℕ) → sub_ℕ (suc n) 1 ≡ pos n
sub_one n = ground arith

pub zero_scale : (scale f : ℕ) → 0 ≡ fractional_ndigits scale → f < 10 ^ scale → f ≡ 0
unfolding fractional_ndigits
zero_scale zero f h k = omega arith
zero_scale (suc n) f h k = omega arith

pub correction-pos :
    (scale : ℕ) → sub_ℕ (fractional_ndigits scale * 4) scale ≡ pos (correction scale)
correction-pos scale = let (small, sum) = correction_lem scale in ground (arith, sum)

pub mul-div_power : (f c : ℕ) → c ≤ 3 → f * 10 ^ c / 10 ^ c ≡ f
mul-div_power f zero h = omega arith
mul-div_power f (suc zero) h = omega arith
mul-div_power f (suc (suc zero)) h = omega arith
mul-div_power f (suc (suc (suc zero))) h = omega arith
mul-div_power f (suc (suc (suc (suc c)))) h = absurd (omega arith)

pub power_of_ten-known : (T : Storage) (c : ℕ) → c < powers T → power_of_ten T c ≡ ok (10 ^ c)
unfolding power_of_ten
power_of_ten-known T c h = ground arith

pub parts_sum : (n p : ℕ) → n / p * p + n % p ≡ n
parts_sum n p = ap (λ x. x + n % p) (mul_comm (n / p) p) ∙ div-add-mod n p

pub power_pos : (n : ℕ) → 0 < 10 ^ n
power_pos zero = omega arith
power_pos (suc n) = omega (arith, pow-suc 10 n, power_pos n)

pub few_powers : (T : Storage) → (powers T ≤ 39) × (4 * size_of T ≤ 64)
few_powers int16 = (omega arith, omega arith)
few_powers int32 = (omega arith, omega arith)
few_powers int64 = (omega arith, omega arith)
few_powers int128 = (omega arith, omega arith)

pub few_groups : (scale : ℕ) → scale < 39 → fractional_ndigits scale ≤ 10
unfolding fractional_ndigits
few_groups scale h = omega arith

pub fraction_bound :
    (scale f : ℕ) → f < 10 ^ scale → f * 10 ^ correction scale < 10000 ^ fractional_ndigits scale
fraction_bound scale f h =
    let (small, sum) = correction_lem scale in
    rw (groups_power (fractional_ndigits scale)) (
      rw sum (
        rw (pow-add_exponent 10 scale (correction scale))
          (mul-lt-mul_of_pos_right h (power_pos (correction scale)))))
