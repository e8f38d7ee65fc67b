-- ===== src/Common/Decimal.antt =====
-- `std::to_string` of a number that is not negative, and the reading of a run of digits.
use duckdb_postgres.Common.Tests.{ltb, leb, Bytes, Bool-cases}
use duckdb_postgres.Common.Lists.{All}
use Prim.Native.Nat.{ℕ, zero, suc, ◌+◌, ◌-◌, ◌*◌, ◌/◌, ◌%◌, ◌^◌, ◌<◌}
use mathlib.Core.Path.{◌≡◌, refl, ap, ◌∙◌}
use mathlib.Core.Logic.{inl, inr}
use mathlib.Core.Bool.{Bool, true, false, ◌&&◌}
use mathlib.Core.List.{[], ◌∷◌, ◌++◌}
use native.Mathlib.Omega.{arith}

-- The last `fuel` digits; a 64-bit number has no more than 20.
unfoldable pub digits : ℕ → ℕ → Bytes
digits zero n = []
digits (suc fuel) n = elim (ltb n 10) [
  | true ↦ (48 + n) ∷ []
  | false ↦ digits fuel (n / 10) ++ (48 + n % 10) ∷ []
]

unfoldable pub decimal_text : ℕ → Bytes
decimal_text n = digits 20 n

abbrev pub is_digit : ℕ → Bool
is_digit c = leb 48 c && leb c 57

unfoldable pub digits_value : ℕ → Bytes → ℕ
digits_value acc [] = acc
digits_value acc (c ∷ r) = digits_value (acc * 10 + (c - 48)) r

digits_value-append :
    (acc : ℕ) (xs : Bytes) (c : ℕ)
    → digits_value acc (xs ++ c ∷ []) ≡ digits_value acc xs * 10 + (c - 48)
unfolding digits_value
digits_value-append acc [] c = refl
digits_value-append acc (x ∷ xs) c = digits_value-append (acc * 10 + (x - 48)) xs c

digits-small : (fuel n : ℕ) → ltb n 10 ≡ true → digits (suc fuel) n ≡ (48 + n) ∷ []
unfolding digits
digits-small fuel n e = rw (e, digits) refl

digits-large :
    (fuel n : ℕ)
    → ltb n 10 ≡ false
    → digits (suc fuel) n ≡ digits fuel (n / 10) ++ (48 + n % 10) ∷ []
unfolding digits
digits-large fuel n e = rw (e, digits) refl

digits_value-digits : (fuel n : ℕ) → n < 10 ^ fuel → digits_value 0 (digits fuel n) ≡ n
unfolding digits_value digits
digits_value-digits zero n h = omega arith
digits_value-digits (suc fuel) n h = elim (Bool-cases (ltb n 10)) [
  | inl e ↦ ap (λ x. digits_value 0 x) (digits-small fuel n e) ∙ omega arith
  | inr e ↦
      ap (λ x. digits_value 0 x) (digits-large fuel n e)
      ∙ (digits_value-append 0 (digits fuel (n / 10)) (48 + n % 10)
          ∙ rw (digits_value-digits fuel (n / 10) (ground arith)) (omega arith))
]

pub digits_value-decimal_text : (n : ℕ) → n < 10 ^ 20 → digits_value 0 (decimal_text n) ≡ n
unfolding decimal_text
digits_value-decimal_text n h = digits_value-digits 20 n h

All-snoc :
    (xs : Bytes) (c : ℕ)
    → All (λ d. is_digit d ≡ true) xs
    → is_digit c ≡ true
    → All (λ d. is_digit d ≡ true) (xs ++ c ∷ [])
All-snoc [] c h k = (k, tt)
All-snoc (x ∷ xs) c h k = (h.0, All-snoc xs c h.1 k)

digits-AllDigits : (fuel n : ℕ) → All (λ d. is_digit d ≡ true) (digits fuel n)
unfolding digits
digits-AllDigits zero n = tt
digits-AllDigits (suc fuel) n = elim (Bool-cases (ltb n 10)) [
  | inl e ↦ rw (digits-small fuel n e) (ground arith, tt)
  | inr e ↦ rw (digits-large fuel n e) (
      All-snoc (digits fuel (n / 10)) (48 + n % 10) (digits-AllDigits fuel (n / 10)) (ground arith))
]

pub decimal_text-AllDigits : (n : ℕ) → All (λ d. is_digit d ≡ true) (decimal_text n)
unfolding decimal_text
decimal_text-AllDigits n = digits-AllDigits 20 n

-- A number has a first digit.
pub decimal_text-cons : (n : ℕ) → (c : ℕ) × (r : Bytes) × (decimal_text n ≡ c ∷ r)
unfolding decimal_text
decimal_text-cons n = elim (Bool-cases (ltb n 10)) [
  | inl e ↦ (48 + n, [], digits-small 19 n e)
  | inr e ↦ rw (digits-large 19 n e) (snoc-cons (digits 19 (n / 10)) (48 + n % 10))
]
  where
    snoc-cons : (xs : Bytes) (c : ℕ) → (d : ℕ) × (r : Bytes) × (xs ++ c ∷ [] ≡ d ∷ r)
    snoc-cons [] c = (c, [], refl)
    snoc-cons (x ∷ xs) c = (x, xs ++ c ∷ [], refl)
