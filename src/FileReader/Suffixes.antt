-- ===== src/FileReader/Suffixes.antt =====
-- `FindLastCompleteRow` of src/postgres_binary_file_reader.cpp by what is left of the buffer: as long as the search
-- stays within the buffer, a position is the rest from there.
use duckdb_postgres.Common.{
  ℕ, zero, suc, ◌+◌, ◌-◌, ◌≤◌, leb, ltb, true, false, Option, none, some, if◌then◌else◌, Bytes,
  Result, ok, err, out_of_fuel, length, take, drop, ◌≡◌, refl, ap, ◌∙◌, arith, length-drop,
  drop-drop, Bool-cases, inl, inr,
}
use duckdb_postgres.Binary.Integers.{big_endian}
use duckdb_postgres.FileReader.{
  is_positive32, is_positive16, skip_value, row_end, find_rows, find_last_complete_row,
}

-- One value behind its length, and the columns after it.
unfoldable pub value_rest : (Bytes → Option Bytes) → ℕ → Bytes → Option Bytes
value_rest next_column value_len ptr =
    if is_positive32 value_len
    then (if leb value_len (length ptr) then next_column (drop value_len ptr) else none)
    else next_column ptr

-- The loop over the columns of one row: what stands behind the row, `none` if it is cut off.
unfoldable pub row_rest : ℕ → Bytes → Option Bytes
row_rest zero ptr = some ptr
row_rest (suc columns) ptr =
    let value = value_rest (row_rest columns) (big_endian 0 (take 4 ptr)) (drop 4 ptr) in
    if leb 4 (length ptr) then value else none

-- The loop over the rows, on fuel: each round takes two bytes at least. At the head of the
-- loop `ptr` stands `last_safe` bytes behind the start of the buffer.
unfoldable pub find_rest : ℕ → ℕ → Bytes → Result ℕ
find_rest zero last_safe ptr = err out_of_fuel
find_rest (suc fuel) last_safe ptr =
    let tuple_count = big_endian 0 (take 2 ptr) in
    let rest = drop 2 ptr in
    let row = elim (row_rest tuple_count rest) as (λ o. Result ℕ) [
      | none ↦ ok last_safe
      | some behind ↦ find_rest fuel (last_safe + (length ptr - length behind)) behind
    ] in
    if leb 2 (length ptr)
    then (if is_positive16 tuple_count then row else ok (last_safe + 2))
    else ok last_safe

unfoldable pub find_last_rest : Bytes → Result ℕ
find_last_rest buf = find_rest (suc (length buf)) 0 buf

-- A position behind `low` in the buffer, and the rest from there.
abbrev Same : Bytes → ℕ → Option ℕ → Option Bytes → Type 0
Same buf low none none = Unit
Same buf low (some e) (some rest) = (low ≤ e) × (e ≤ length buf) × (rest ≡ drop e buf)
Same buf low p r = ⊥

Same-lower :
    (buf : Bytes) (low lower : ℕ) (p : Option ℕ) (r : Option Bytes)
    → lower ≤ low
    → Same buf low p r
    → Same buf lower p r
Same-lower buf low lower none none h s = tt
Same-lower buf low lower (some e) (some rest) h s = (omega (arith, s.0), s.1, s.2)
Same-lower buf low lower none (some rest) h s = s
Same-lower buf low lower (some e) none h s = s

value_rest-Same :
    (buf : Bytes) (next : ℕ → Option ℕ) (next_rest : Bytes → Option Bytes) (v ptr : ℕ)
    → ((p : ℕ) → p ≤ length buf → Same buf p (next p) (next_rest (drop p buf)))
    → ptr ≤ length buf
    → Same buf ptr (skip_value next v (length buf) ptr) (value_rest next_rest v (drop ptr buf))
unfolding skip_value value_rest
value_rest-Same buf next next_rest v ptr same within = elim (Bool-cases (is_positive32 v)) [
  | inr e ↦ rw e (same ptr within)
  | inl e ↦ rw e (elim (Bool-cases (ltb (length buf) (ptr + v))) [
    | inl f ↦
        let short : leb v (length (drop ptr buf)) ≡ false = ground (arith, length-drop ptr buf) in
        rw f (rw short tt)
    | inr f ↦
        let long : leb v (length (drop ptr buf)) ≡ true = ground (arith, length-drop ptr buf) in
        rw f (
          rw long (
            rw (drop-drop ptr v buf)
              (Same-lower buf (ptr + v) ptr _ _ (omega arith) (same (ptr + v) (ground arith)))))
  ])
]

row_rest-Same :
    (buf : Bytes) (columns ptr : ℕ)
    → ptr ≤ length buf
    → Same buf ptr (row_end buf columns ptr) (row_rest columns (drop ptr buf))
unfolding row_end row_rest
row_rest-Same buf zero ptr within = (omega arith, within, refl)
row_rest-Same buf (suc columns) ptr within = elim (Bool-cases (ltb (length buf) (ptr + 4))) [
  | inl f ↦
      let short : leb 4 (length (drop ptr buf)) ≡ false = ground (arith, length-drop ptr buf) in
      rw f (rw short tt)
  | inr f ↦
      let long : leb 4 (length (drop ptr buf)) ≡ true = ground (arith, length-drop ptr buf) in
      rw f (
        rw long (
          rw (drop-drop ptr 4 buf) (
            Same-lower buf (ptr + 4) ptr _ _ (omega arith) (
              value_rest-Same buf (row_end buf columns) (row_rest columns)
                (big_endian 0 (take 4 (drop ptr buf))) (ptr + 4)
                (λ p h. row_rest-Same buf columns p h) (ground arith)))))
]

-- What the two loops do behind a row.
abbrev behind_row : ℕ → Bytes → ℕ → Option ℕ → Result ℕ
behind_row fuel buf last_safe none = ok last_safe
behind_row fuel buf last_safe (some behind) = find_rows fuel buf behind behind

abbrev behind_rest : ℕ → ℕ → Bytes → Option Bytes → Result ℕ
behind_rest fuel last_safe ptr none = ok last_safe
behind_rest fuel last_safe ptr (some behind) =
    find_rest fuel (last_safe + (length ptr - length behind)) behind

behind-agree :
    (fuel : ℕ) (buf : Bytes) (ptr : ℕ)
    → ((e : ℕ) → e ≤ length buf → find_rows fuel buf e e ≡ find_rest fuel e (drop e buf))
    → ptr ≤ length buf
    → (p : Option ℕ) (r : Option Bytes) → Same buf (ptr + 2) p r
    → behind_row fuel buf ptr p ≡ behind_rest fuel ptr (drop ptr buf) r
behind-agree fuel buf ptr ih within none none s = refl
behind-agree fuel buf ptr ih within none (some rest) s = absurd s
behind-agree fuel buf ptr ih within (some e) none s = absurd s
behind-agree fuel buf ptr ih within (some e) (some rest) (low, inside, same) = rw same (
    ih e inside
    ∙ ap (λ n. find_rest fuel n (drop e buf))
        (omega (arith, length-drop ptr buf, length-drop e buf)))

find_rest-rows :
    (fuel : ℕ) (buf : Bytes) (ptr : ℕ)
    → ptr ≤ length buf
    → find_rows fuel buf ptr ptr ≡ find_rest fuel ptr (drop ptr buf)
unfolding find_rows find_rest
find_rest-rows zero buf ptr within = refl
find_rest-rows (suc fuel) buf ptr within = elim (Bool-cases (leb (ptr + 2) (length buf))) [
  | inr f ↦
      let short : leb 2 (length (drop ptr buf)) ≡ false = ground (arith, length-drop ptr buf) in
      rw f (rw short refl)
  | inl f ↦
      let long : leb 2 (length (drop ptr buf)) ≡ true = ground (arith, length-drop ptr buf) in
      rw f (
        rw long (elim (Bool-cases (is_positive16 (big_endian 0 (take 2 (drop ptr buf))))) [
          | inr g ↦ rw g refl
          | inl g ↦ rw g (
              rw (drop-drop ptr 2 buf) (
                behind-agree fuel buf ptr (λ e h. find_rest-rows fuel buf e h) within _ _
                  (row_rest-Same buf (big_endian 0 (take 2 (drop ptr buf))) (ptr + 2)
                    (ground arith))))
        ]))
]

-- The search by positions is the search by rests.
pub find_last_complete_row-rest : (buf : Bytes) → find_last_complete_row buf ≡ find_last_rest buf
unfolding find_last_complete_row find_last_rest
find_last_complete_row-rest buf = find_rest-rows (suc (length buf)) buf 0 (omega arith)
