-- ===== src/Binary/Values/Arrays.antt =====
-- The cells below the entries of an array: `WriteArray` of src/include/postgres_binary_writer.hpp visits them
-- entry by entry, `ReadArray` of src/postgres_binary_parser.cpp reads them in one run.
use duckdb_postgres.Common.{
  ℕ, zero, suc, ◌+◌, ◌*◌, ◌^◌, ◌<◌, ◌==◌, [], ◌++◌, length, if◌then◌else◌, Bytes, Result, ok, err,
  ◌>>=◌, ◌≡◌, refl, ap, sym, ◌∙◌, arith, inl, inr, Bool-cases, append_assoc, length-append,
  invalid_input, ok-injective,
}
use duckdb_postgres.Binary.Parser.{entries}
use duckdb_postgres.Binary.Cells.{
  Cell, present, list_value, Cells, no_cells, cell, Library, entry, count, ◌+++◌, first_cells,
  behind_cells, write_each, read_each,
}
use duckdb_postgres.Binary.Values.{AllCells, IsList}

-- The cells that all the entries select, one after the other.
abbrev pub concat : Library → Cells → Cells
concat lib no_cells = no_cells
concat lib (cell c cs) = entry lib c +++ concat lib cs

abbrev pub EntriesOf : Library → ℕ → Cells → Type 0
EntriesOf lib d = λ cs. AllCells (λ c. count (entry lib c) ≡ d) cs

pub count-concat_cells : (a b : Cells) → count (a +++ b) ≡ count a + count b
count-concat_cells no_cells b = omega arith
count-concat_cells (cell c a) b = omega (arith, count-concat_cells a b)

pub count-concat :
    (lib : Library) (d : ℕ) (cs : Cells) → EntriesOf lib d cs → count (concat lib cs) ≡ count cs * d
count-concat lib d no_cells h = omega arith
count-concat lib d (cell c cs) h =
    count-concat_cells (entry lib c) (concat lib cs) ∙ grind (arith, h.0, count-concat lib d cs h.1)

first_cells-append : (a b : Cells) → first_cells (count a) (a +++ b) ≡ a
first_cells-append no_cells b = refl
first_cells-append (cell c a) b = ap (λ x. cell c x) (first_cells-append a b)

behind_cells-append : (a b : Cells) → behind_cells (count a) (a +++ b) ≡ b
behind_cells-append no_cells b = refl
behind_cells-append (cell c a) b = behind_cells-append a b

-- The entries select what they stood for.
pub entries-concat :
    (lib : Library) (P : Cells → Type 0) (d : ℕ) (cs : Cells)
    → AllCells (IsList P) cs
    → EntriesOf lib d cs
    → entries (count cs) d (concat lib cs) ≡ cs
unfolding entries
entries-concat lib P d no_cells h k = refl
entries-concat lib P d (cell (present (list_value es)) cs) h k = rw (← k.0) (
    rw (first_cells-append es (concat lib cs)) (
      rw (behind_cells-append es (concat lib cs)) (
        ap (λ x. cell (present (list_value es)) x)
          (ap (λ n. entries (count cs) n (concat lib cs)) k.0
            ∙ entries-concat lib P d cs h.1 k.1))))
entries-concat lib P d (cell c cs) h k = absurd h.0

pub first_cells_all : (d : ℕ) (es : Cells) → count es ≡ d → first_cells d es ≡ es
first_cells_all zero no_cells h = refl
first_cells_all zero (cell c es) h = absurd (omega arith)
first_cells_all (suc d) no_cells h = refl
first_cells_all (suc d) (cell c es) h = ap (λ x. cell c x) (first_cells_all d es (omega arith))

AllCells-append :
    (P : Cell → Type 0) (a b : Cells) → AllCells P a → AllCells P b → AllCells P (a +++ b)
AllCells-append P no_cells b h k = k
AllCells-append P (cell c a) b h k = (h.0, AllCells-append P a b h.1 k)

pub AllCells-concat :
    (lib : Library) (P : Cell → Type 0) (cs : Cells)
    → AllCells (IsList (λ es. AllCells P es)) cs
    → AllCells P (concat lib cs)
AllCells-concat lib P no_cells h = tt
AllCells-concat lib P (cell (present (list_value es)) cs) h =
    AllCells-append P es (concat lib cs) h.0 (AllCells-concat lib P cs h.1)
AllCells-concat lib P (cell c cs) h = absurd h.0

-- What two calls write, one after the other.
abbrev pub joined : Result Bytes → Result Bytes → Result Bytes
joined m n = m >>= λ a. n >>= λ b. ok (a ++ b)

joined_assoc : (m n k : Result Bytes) → joined m (joined n k) ≡ joined (joined m n) k
joined_assoc (ok a) (ok b) (ok c) = ap (λ x. ok x) (sym (append_assoc a b c))
joined_assoc (ok a) (ok b) (err e) = refl
joined_assoc (ok a) (err e) k = refl
joined_assoc (err e) n k = refl

joined-nil : (m : Result Bytes) → joined (ok []) m ≡ m
joined-nil (ok a) = refl
joined-nil (err e) = refl

pub joined-ok :
    (m n : Result Bytes) (body : Bytes)
    → joined m n ≡ ok body
    → (a : Bytes) × (b : Bytes) × (m ≡ ok a) × (n ≡ ok b) × (a ++ b ≡ body)
joined-ok (ok a) (ok b) body h = (a, b, refl, refl, ok-injective h)
joined-ok (ok a) (err e) body h = absurd cc
joined-ok (err e) n body h = absurd cc

pub write_each-append :
    (write : Cell → Result Bytes) (a b : Cells)
    → write_each write (a +++ b) ≡ joined (write_each write a) (write_each write b)
unfolding write_each
write_each-append write no_cells b = sym (joined-nil (write_each write b))
write_each-append write (cell c a) b =
    ap (λ x. joined (write c) x) (write_each-append write a b)
    ∙ joined_assoc (write c) (write_each write a) (write_each write b)

not_ok : (x : Bytes) → ◌≡◌ {A = Result Bytes} (err invalid_input) (ok x) → ⊥
not_ok x h = cc

pub right_count :
    (n d : ℕ) (m : Result Bytes) (x : Bytes)
    → (if n == d then m else err invalid_input) ≡ ok x
    → (n ≡ d) × (m ≡ ok x)
right_count n d m x h = elim (Bool-cases (n == d)) [
  | inl e ↦ (ground arith, sym (rw e refl) ∙ h)
  | inr e ↦ absurd (not_ok x (sym (rw e refl) ∙ h))
]

-- What is written entry by entry, each of them of `d` cells, is what is written cell by cell.
pub write_each-concat :
    (lib : Library) (write : Cell → Result Bytes) (d : ℕ) (cs : Cells) (body : Bytes)
    → write_each
        (λ c.
          if count (entry lib c) == d then write_each write (entry lib c) else err invalid_input)
        cs
      ≡ ok body
    → (write_each write (concat lib cs) ≡ ok body) × EntriesOf lib d cs
unfolding write_each
write_each-concat lib write d no_cells body h = (h, tt)
write_each-concat lib write d (cell c cs) body h =
    let (x, y, first, others, whole) =
      joined-ok
        (if count (entry lib c) == d then write_each write (entry lib c) else err invalid_input)
        (write_each
          (λ c.
            if count (entry lib c) == d then write_each write (entry lib c) else err invalid_input)
          cs)
        body h in
    let (rest, sizes) = write_each-concat lib write d cs y others in
    let (size, written) =
      right_count (count (entry lib c)) d (write_each write (entry lib c)) x first in
    (
      write_each-append write (entry lib c) (concat lib cs)
          ∙ rw written (rw rest (ap (λ b. ok b) whole)),
      (size, sizes),
    )

-- A reader that returns every cell that was written returns all of them.
pub read_each-write_each :
    (write : Cell → Result Bytes) (read : Bytes → Result (Cell × Bytes)) (P : Cell → Type 0)
    (cs : Cells) (body rest : Bytes)
    → ((c : Cell) (written more : Bytes)
        → P c
        → write c ≡ ok written
        → length written < 2 ^ 31
        → read (written ++ more) ≡ ok (c, more))
    → AllCells P cs
    → write_each write cs ≡ ok body
    → length body < 2 ^ 31
    → read_each read (count cs) (body ++ rest) ≡ ok (cs, rest)
unfolding write_each read_each
read_each-write_each write read P no_cells body rest one every h small =
    ap (λ b. ok (no_cells, b)) (ap (λ b. b ++ rest) (sym (ok-injective h)))
read_each-write_each write read P (cell c cs) body rest one every h small =
    let (a, b, first, others, whole) = joined-ok (write c) (write_each write cs) body h in
    let sizes = length-append a b in
    rw (← whole) (
      rw (append_assoc a b rest) (
        rw (one c a (b ++ rest) every.0 first (omega (arith, sizes, ap length whole, small))) (
          rw
            (read_each-write_each write read P cs b rest one every.1 others
              (omega (arith, sizes, ap length whole, small)))
            refl)))
