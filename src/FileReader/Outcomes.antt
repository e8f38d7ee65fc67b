-- ===== src/FileReader/Outcomes.antt =====
-- What a step of the file reader ends with, and what makes it throw.
use duckdb_postgres.Common.{
  ℕ, ◌+◌, ◌≤◌, ◌<◌, Bool, true, false, ◌++◌, Bytes, Result, ok, err, ◌>>=◌, io_error, out_of_fuel,
  length, take, ◌≡◌, sym, ap, ◌∙◌, arith, append_assoc,
}
use duckdb_postgres.Common.{
  invalid_input, not_implemented, internal, conversion, binder, runtime_error,
}
use duckdb_postgres.FileReader.{find_last_complete_row, choose_valid}

-- A value with a property, or the exception of the reader, where it has a reason.
abbrev pub OrThrows {ℓ} : {A : Type ℓ} → Type 0 → (A → Type 0) → Result A → Type 0
OrThrows E Q (ok a) = Q a
OrThrows E Q (err io_error) = E
OrThrows E Q (err _) = ⊥

pub OrThrows-bind {ℓ κ} :
    {A : Type ℓ} {B : Type κ} (D E : Type 0) (Q : A → Type 0) (P : B → Type 0) (m : Result A)
    (f : A → Result B)
    → OrThrows D Q m
    → (D → E)
    → ((a : A) → Q a → OrThrows E P (f a))
    → OrThrows E P (m >>= f)
OrThrows-bind D E Q P (ok a) f h d k = k a h
OrThrows-bind D E Q P (err io_error) f h d k = d h
OrThrows-bind D E Q P (err invalid_input) f h d k = h
OrThrows-bind D E Q P (err not_implemented) f h d k = h
OrThrows-bind D E Q P (err internal) f h d k = h
OrThrows-bind D E Q P (err conversion) f h d k = h
OrThrows-bind D E Q P (err binder) f h d k = h
OrThrows-bind D E Q P (err runtime_error) f h d k = h
OrThrows-bind D E Q P (err out_of_fuel) f h d k = h

pub OrThrows-weaken {ℓ} :
    {A : Type ℓ} (D E : Type 0) (Q P : A → Type 0) (m : Result A)
    → OrThrows D Q m
    → (D → E)
    → ((a : A) → Q a → P a)
    → OrThrows E P m
OrThrows-weaken D E Q P (ok a) h d k = k a h
OrThrows-weaken D E Q P (err io_error) h d k = d h
OrThrows-weaken D E Q P (err invalid_input) h d k = h
OrThrows-weaken D E Q P (err not_implemented) h d k = h
OrThrows-weaken D E Q P (err internal) h d k = h
OrThrows-weaken D E Q P (err conversion) h d k = h
OrThrows-weaken D E Q P (err binder) h d k = h
OrThrows-weaken D E Q P (err runtime_error) h d k = h
OrThrows-weaken D E Q P (err out_of_fuel) h d k = h

-- Somewhere in these bytes more than a buffer's worth is left, and as much as the buffer holds has no whole row.
abbrev pub LargeRow : ℕ → Bytes → Type 0
LargeRow buffer_size bytes =
    (part : Bytes) × (rest : Bytes) × (bytes ≡ part ++ rest)
    × (buffer_size < length rest)
    × (find_last_complete_row (take buffer_size rest) ≡ ok 0)

pub LargeRow-append :
    (buffer_size : ℕ) (front bytes all : Bytes)
    → all ≡ front ++ bytes
    → LargeRow buffer_size bytes
    → LargeRow buffer_size all
LargeRow-append buffer_size front bytes all e (part, rest, parts, large, none_whole) = (
  front ++ part,
  rest,
  e ∙ (ap (λ x. front ++ x) parts ∙ sym (append_assoc front part rest)),
  large,
  none_whole,
)

pub choose_valid-bounds :
    (found scan_offset total : ℕ) (at_end : Bool)
    → found + scan_offset ≤ total
    → 0 < total
    → OrThrows
        ((found ≡ 0) × (scan_offset ≡ 0) × (at_end ≡ false))
        (λ valid. (0 < valid) × (valid ≤ total) × (scan_offset ≤ valid))
        (choose_valid found scan_offset total at_end)
unfolding choose_valid
choose_valid-bounds found scan_offset total true h some_byte = ground arith
choose_valid-bounds found scan_offset total false h some_byte = ground arith
