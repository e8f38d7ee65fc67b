-- ===== src/FileReader/Rows.antt =====
-- `FindLastCompleteRow` of src/postgres_binary_file_reader.cpp on what the binary writer writes.
use native.Mathlib.Decide.{dec_lt}
use duckdb_postgres.Common.{
  ℕ, zero, suc, ◌+◌, ◌-◌, ◌≤◌, ◌<◌, ◌^◌, true, List, [], ◌∷◌, ◌++◌, Option, none, some, Bytes, ok,
  length, take, drop, ◌≡◌, refl, ap, ◌∙◌, arith, All, length-append, length-take, append_assoc,
  take_exact, drop_exact, take-append_ge,
}
use duckdb_postgres.Binary.Integers.{
  big_endian, write_raw_integer, length-write_raw_integer, big_endian-write_raw_integer,
}
use duckdb_postgres.FileReader.{is_positive16, find_last_complete_row}
use duckdb_postgres.FileReader.Suffixes.{
  value_rest, row_rest, find_rest, find_last_rest, find_last_complete_row-rest,
}

-- A row as the binary writer lays it out: the number of fields, and each field behind its length; a
-- NULL has the length -1 and no bytes.
abbrev pub field_bytes : Option Bytes → Bytes
field_bytes none = write_raw_integer 4 (2 ^ 32 - 1)
field_bytes (some v) = write_raw_integer 4 (length v) ++ v

abbrev pub fields_bytes : List (Option Bytes) → Bytes
fields_bytes [] = []
fields_bytes (f ∷ fs) = field_bytes f ++ fields_bytes fs

abbrev pub row_bytes : List (Option Bytes) → Bytes
row_bytes fs = write_raw_integer 2 (length fs) ++ fields_bytes fs

abbrev pub rows_bytes : List (List (Option Bytes)) → Bytes
rows_bytes [] = []
rows_bytes (r ∷ rs) = row_bytes r ++ rows_bytes rs

-- The lengths fit their fields.
abbrev pub IsField : Option Bytes → Type 0
IsField none = Unit
IsField (some v) = length v < 2 ^ 31

abbrev pub IsRow : List (Option Bytes) → Type 0
IsRow fs = All IsField fs × (0 < length fs) × (length fs < 2 ^ 15)

row_rest-value :
    (columns v : ℕ) (rest : Bytes)
    → v < 2 ^ 32
    → row_rest (suc columns) (write_raw_integer 4 v ++ rest) ≡ value_rest (row_rest columns) v rest
unfolding row_rest
row_rest-value columns v rest h =
    let n = length-write_raw_integer 4 v in
    rw (take_exact 4 (write_raw_integer 4 v) rest n) (
      rw (drop_exact 4 (write_raw_integer 4 v) rest n) (
        rw (big_endian-write_raw_integer 4 v (omega arith))
          (ground (arith, length-append (write_raw_integer 4 v) rest))))

value_rest-append :
    (next : Bytes → Option Bytes) (v rest : Bytes)
    → length v < 2 ^ 31
    → value_rest next (length v) (v ++ rest) ≡ next rest
unfolding value_rest
value_rest-append next [] rest h = refl
value_rest-append next (c ∷ w) rest h =
    rw (drop_exact (length (c ∷ w)) (c ∷ w) rest refl) (ground (arith, length-append w rest))

value_rest-cut :
    (next : Bytes → Option Bytes) (v : ℕ) (ptr : Bytes)
    → v < 2 ^ 31
    → length ptr < v
    → value_rest next v ptr ≡ none
unfolding value_rest
value_rest-cut next v ptr h short = ground arith

row_rest-short : (columns : ℕ) (ptr : Bytes) → length ptr < 4 → row_rest (suc columns) ptr ≡ none
unfolding row_rest
row_rest-short columns ptr h = ground arith

row_rest-field :
    (columns : ℕ) (f : Option Bytes) (rest : Bytes)
    → IsField f
    → row_rest (suc columns) (field_bytes f ++ rest) ≡ row_rest columns rest
row_rest-field columns none rest h =
    row_rest-value columns (2 ^ 32 - 1) rest (omega arith) ∙ (unfold value_rest in refl)
row_rest-field columns (some v) rest h = rw (append_assoc (write_raw_integer 4 (length v)) v rest) (
    row_rest-value columns (length v) (v ++ rest) (omega arith)
    ∙ value_rest-append (row_rest columns) v rest h)

row_rest-fields :
    (fs : List (Option Bytes)) (rest : Bytes)
    → All IsField fs
    → row_rest (length fs) (fields_bytes fs ++ rest) ≡ some rest
row_rest-fields [] rest h = unfold row_rest in refl
row_rest-fields (f ∷ fs) rest h =
    rw (append_assoc (field_bytes f) (fields_bytes fs) rest)
      (row_rest-field (length fs) f (fields_bytes fs ++ rest) h.0 ∙ row_rest-fields fs rest h.1)

-- A field that is cut off.
row_rest-cut_field :
    (columns : ℕ) (f : Option Bytes) (rest : Bytes) (k : ℕ)
    → IsField f
    → k < length (field_bytes f)
    → row_rest (suc columns) (take k (field_bytes f ++ rest)) ≡ none
row_rest-cut_field columns none rest k h short =
    row_rest-short columns (take k (field_bytes none ++ rest)) (
      omega
        (arith, length-take k (field_bytes none ++ rest), length-write_raw_integer 4 (2 ^ 32 - 1)))
row_rest-cut_field columns (some v) rest k h short = elim (dec_lt k 4) [
  | yes inside ↦
      row_rest-short columns (take k (field_bytes (some v) ++ rest))
        (omega (arith, length-take k (field_bytes (some v) ++ rest)))
  | no beyond ↦
      let w = write_raw_integer 4 (length v) in
      let n = length-write_raw_integer 4 (length v) in
      rw (append_assoc w v rest) (
        rw (take-append_ge w (v ++ rest) k (omega arith)) (
          row_rest-value columns (length v) (take (k - length w) (v ++ rest)) (omega arith)
          ∙ value_rest-cut (row_rest columns) (length v) (take (k - length w) (v ++ rest)) h
              (omega (arith, length-take (k - length w) (v ++ rest), length-append w v))))
]

-- A proper beginning of the fields is cut off.
row_rest-cut :
    (fs : List (Option Bytes)) (k : ℕ)
    → All IsField fs
    → k < length (fields_bytes fs)
    → row_rest (length fs) (take k (fields_bytes fs)) ≡ none
row_rest-cut [] k h short = absurd (omega arith)
row_rest-cut (f ∷ fs) k h short = elim (dec_lt k (length (field_bytes f))) [
  | yes inside ↦ row_rest-cut_field (length fs) f (fields_bytes fs) k h.0 inside
  | no beyond ↦
      let more = k - length (field_bytes f) in
      rw (take-append_ge (field_bytes f) (fields_bytes fs) k (omega arith)) (
        row_rest-field (length fs) f (take more (fields_bytes fs)) h.0
        ∙ row_rest-cut fs more h.1 (omega (arith, length-append (field_bytes f) (fields_bytes fs))))
]

module _ (fuel last_safe tuple_count : ℕ) (ptr : Bytes) (long : 2 ≤ length ptr)
    (counted : big_endian 0 (take 2 ptr) ≡ tuple_count)
    (positive : is_positive16 tuple_count ≡ true) where
  step_over :
      (behind : Bytes)
      → row_rest tuple_count (drop 2 ptr) ≡ some behind
      → find_rest (suc fuel) last_safe ptr
        ≡ find_rest fuel (last_safe + (length ptr - length behind)) behind
  unfolding find_rest
  step_over behind whole = rw counted (rw positive (rw whole (ground arith)))

  stop_at :
      row_rest tuple_count (drop 2 ptr) ≡ none → find_rest (suc fuel) last_safe ptr ≡ ok last_safe
  unfolding find_rest
  stop_at cut = rw counted (rw positive (rw cut (ground arith)))

-- The count in front of a row, and what follows it.
module _ (r : List (Option Bytes)) (rest : Bytes) (few : length r < 2 ^ 15) where
  count_read : big_endian 0 (take 2 (write_raw_integer 2 (length r) ++ rest)) ≡ length r
  count_read =
      rw
        (take_exact 2 (write_raw_integer 2 (length r)) rest (length-write_raw_integer 2 (length r)))
        (big_endian-write_raw_integer 2 (length r) (omega arith))

  count_dropped : drop 2 (write_raw_integer 2 (length r) ++ rest) ≡ rest
  count_dropped =
      drop_exact 2 (write_raw_integer 2 (length r)) rest (length-write_raw_integer 2 (length r))

-- A row of the writer is stepped over.
find_rest-row :
    (fuel last_safe : ℕ) (r : List (Option Bytes)) (rest : Bytes)
    → IsRow r
    → find_rest (suc fuel) last_safe (row_bytes r ++ rest)
      ≡ find_rest fuel (last_safe + length (row_bytes r)) rest
find_rest-row fuel last_safe r rest (fields, some_field, few) =
    let w = write_raw_integer 2 (length r) in
    let n = length-write_raw_integer 2 (length r) in
    let whole = fields_bytes r ++ rest in
    rw (append_assoc w (fields_bytes r) rest) (
      step_over fuel last_safe (length r) (w ++ whole) (omega (arith, length-append w whole))
        (count_read r whole few) (ground arith) rest
        (rw (count_dropped r whole few) (row_rest-fields r rest fields))
      ∙ ap (λ m. find_rest fuel (last_safe + m) rest)
          (omega (
            arith,
            length-append w whole,
            length-append w (fields_bytes r),
            length-append (fields_bytes r) rest,
          )))

-- A proper beginning of a row.
abbrev pub IsCut : Bytes → Type 0
IsCut p =
    (r : List (Option Bytes)) × (k : ℕ) × IsRow r
    × (k < length (row_bytes r))
    × (p ≡ take k (row_bytes r))

find_rest-short :
    (fuel last_safe : ℕ) (p : Bytes)
    → length p < 2
    → find_rest (suc fuel) last_safe p ≡ ok last_safe
unfolding find_rest
find_rest-short fuel last_safe p h = ground arith

find_rest-cut :
    (fuel last_safe : ℕ) (p : Bytes) → IsCut p → find_rest (suc fuel) last_safe p ≡ ok last_safe
find_rest-cut fuel last_safe p (r, k, (fields, some_field, few), short, e) =
    rw e (elim (dec_lt k 2) [
      | yes inside ↦
          find_rest-short fuel last_safe (take k (row_bytes r))
            (omega (arith, length-take k (row_bytes r)))
      | no beyond ↦
          let w = write_raw_integer 2 (length r) in
          let n = length-write_raw_integer 2 (length r) in
          let more = take (k - length w) (fields_bytes r) in
          rw (take-append_ge w (fields_bytes r) k (omega arith)) (
            stop_at fuel last_safe (length r) (w ++ more) (omega (arith, length-append w more))
              (count_read r more few) (ground arith)
              (rw (count_dropped r more few) (
                row_rest-cut r (k - length w) fields
                  (omega (arith, length-append w (fields_bytes r))))))
    ])

find_rest-rows :
    (rs : List (List (Option Bytes))) (p : Bytes) (fuel last_safe : ℕ)
    → All IsRow rs
    → IsCut p
    → length rs < fuel
    → find_rest fuel last_safe (rows_bytes rs ++ p) ≡ ok (last_safe + length (rows_bytes rs))
find_rest-rows rs p zero last_safe h cut few = absurd (omega arith)
find_rest-rows [] p (suc fuel) last_safe h cut few =
    find_rest-cut fuel last_safe p cut ∙ ap ok (omega arith)
find_rest-rows (r ∷ rs) p (suc fuel) last_safe h cut few =
    rw (append_assoc (row_bytes r) (rows_bytes rs) p) (
      find_rest-row fuel last_safe r (rows_bytes rs ++ p) h.0
      ∙ find_rest-rows rs p fuel (last_safe + length (row_bytes r)) h.1 cut (omega arith)
      ∙ ap ok (omega (arith, length-append (row_bytes r) (rows_bytes rs))))

length-rows_bytes : (rs : List (List (Option Bytes))) → length rs ≤ length (rows_bytes rs)
length-rows_bytes [] = omega arith
length-rows_bytes (r ∷ rs) = omega (
  arith,
  length-rows_bytes rs,
  length-append (row_bytes r) (rows_bytes rs),
  length-append (write_raw_integer 2 (length r)) (fields_bytes r),
  length-write_raw_integer 2 (length r),
)

-- In a buffer of whole rows of the writer, with a proper beginning of one more row behind them,
-- `FindLastCompleteRow` finds the end of the whole rows, no byte less and no byte more.
pub find_last_complete_row-rows :
    (rs : List (List (Option Bytes))) (p : Bytes)
    → All IsRow rs
    → IsCut p
    → find_last_complete_row (rows_bytes rs ++ p) ≡ ok (length (rows_bytes rs))
unfolding find_last_rest
find_last_complete_row-rows rs p h cut =
    find_last_complete_row-rest (rows_bytes rs ++ p)
    ∙ (find_rest-rows rs p (suc (length (rows_bytes rs ++ p))) 0 h cut
          (omega (arith, length-rows_bytes rs, length-append (rows_bytes rs) p))
        ∙ ap ok (omega arith))
