-- ===== src/FileReader/Bounds.antt =====
-- `FindLastCompleteRow` of src/postgres_binary_file_reader.cpp ends, within its buffer.
use duckdb_postgres.Common.{
  ℕ, zero, suc, ◌+◌, ◌-◌, ◌≤◌, ◌<◌, leb, Option, some, Bytes, ok, length, take, drop, ◌≡◌, refl,
  ◌∙◌, arith, length-drop, Bool-cases, Option-cases, inl, inr,
}
use duckdb_postgres.Binary.Integers.{big_endian}
use duckdb_postgres.FileReader.{is_positive16, find_last_complete_row}
use duckdb_postgres.FileReader.Suffixes.{
  value_rest, row_rest, find_rest, find_last_rest, find_last_complete_row-rest,
}

value_rest-le :
    (next : Bytes → Option Bytes) (n len : ℕ) (ptr : Bytes) (behind : Bytes)
    → ((p b : Bytes) → next p ≡ some b → length b ≤ length p)
    → value_rest next len ptr ≡ some behind
    → length behind ≤ length ptr
unfolding value_rest
value_rest-le next n len ptr behind h e =
    ground (arith, h (drop len ptr) behind, h ptr behind, length-drop len ptr)

row_rest-le :
    (columns : ℕ) (ptr behind : Bytes)
    → row_rest columns ptr ≡ some behind
    → length behind ≤ length ptr
unfolding row_rest
row_rest-le zero ptr behind e = ground arith
row_rest-le (suc columns) ptr behind e = ground (
  arith,
  value_rest-le (row_rest columns) 0 (big_endian 0 (take 4 ptr)) (drop 4 ptr) behind
      (row_rest-le columns),
  length-drop 4 ptr,
)

-- The number found is at most the size of the buffer, and is found in as many rounds.
find_rest-bounds :
    (fuel last_safe : ℕ) (ptr : Bytes)
    → length ptr < fuel
    → (n : ℕ) × (find_rest fuel last_safe ptr ≡ ok n)
      × (last_safe ≤ n)
      × (n ≤ last_safe + length ptr)
unfolding find_rest
find_rest-bounds zero last_safe ptr h = absurd (omega arith)
find_rest-bounds (suc fuel) last_safe ptr h = elim (Bool-cases (leb 2 (length ptr))) [
  | inr short ↦ (last_safe, rw short refl, omega arith, omega arith)
  | inl long ↦ elim (Bool-cases (is_positive16 (big_endian 0 (take 2 ptr)))) [
    | inr trailer ↦ (last_safe + 2, rw long (rw trailer refl), omega arith, ground arith)
    | inl counted ↦ elim (Option-cases (row_rest (big_endian 0 (take 2 ptr)) (drop 2 ptr))) [
      | inl cut ↦ (last_safe, rw long (rw counted (rw cut refl)), omega arith, omega arith)
      | inr (behind, whole) ↦
          let shorter = row_rest-le (big_endian 0 (take 2 ptr)) (drop 2 ptr) behind whole in
          let less : length behind + 2 ≤ length ptr = ground (arith, length-drop 2 ptr) in
          let (n, e, lo, hi) =
            find_rest-bounds fuel (last_safe + (length ptr - length behind)) behind (omega arith) in
          (n, rw long (rw counted (rw whole e)), omega arith, omega arith)
    ]
  ]
]

-- FindLastCompleteRow ends on every buffer, with a number of bytes that the buffer has.
pub find_last_complete_row-le :
    (buf : Bytes) → (n : ℕ) × (find_last_complete_row buf ≡ ok n) × (n ≤ length buf)
unfolding find_last_rest
find_last_complete_row-le buf =
    let (n, e, lo, hi) = find_rest-bounds (suc (length buf)) 0 buf (omega arith) in
    (n, find_last_complete_row-rest buf ∙ e, omega arith)
