-- ===== src/Binary/Values/Frames.antt =====
-- The headers of lists and structs: what src/include/postgres_binary_writer.hpp writes in front of the cells,
-- and src/postgres_binary_parser.cpp reads.
use duckdb_postgres.Common.{
  ℕ, suc, ◌%◌, ◌^◌, ◌<◌, ◌≤◌, ◌==◌, true, false, List, [], ◌∷◌, ◌++◌, length, Bytes, Option, none,
  some, Result, ok, ◌≡◌, refl, ap, ◌∙◌, arith, append_assoc, length-append, All,
}
use duckdb_postgres.Types.Data.{LogicalType, type_of, list_of}
use duckdb_postgres.Binary.Integers.{
  write_raw_integer, read_integer, read_integer-write_raw_integer, read_integer-skips,
  length-write_raw_integer,
}
use duckdb_postgres.Binary.Writer.{first_entry, dimensions_below, write_dimensions, sized}
use duckdb_postgres.Binary.Parser.{read_dimensions, expected_dimensions, read_list, first_of}
use duckdb_postgres.Binary.Cells.{present, list_value, Cells, no_cells, Library}

abbrev pub IsUint32 : ℕ → Type 0
IsUint32 d = d < 2 ^ 32

pub sized_lem :
    (body rest : Bytes)
    → length (sized body) < 2 ^ 31
    → (read_integer 4 (sized body ++ rest) ≡ ok (length body, body ++ rest))
      × (length body < 2 ^ 31)
sized_lem body rest h =
    let whole = length-append (write_raw_integer 4 (length body % 2 ^ 32)) body in
    let four = length-write_raw_integer 4 (length body % 2 ^ 32) in
    let small : length body < 2 ^ 31 = omega (arith, h, whole, four) in
    (
      rw (append_assoc (write_raw_integer 4 (length body % 2 ^ 32)) body rest) (
          read_integer-write_raw_integer 4 (length body % 2 ^ 32) (body ++ rest) (omega arith)
          ∙ ap (λ n. ok (n, body ++ rest)) (omega (arith, small))),
      small,
    )

pub read_dimensions-write_dimensions :
    (ds : List ℕ) (rest : Bytes)
    → All IsUint32 ds
    → read_dimensions (length ds) (write_dimensions ds ++ rest) ≡ ok (ds, rest)
unfolding read_dimensions write_dimensions
read_dimensions-write_dimensions [] rest h = refl
read_dimensions-write_dimensions (d ∷ ds) rest h = simp append_assoc (
    rw
      (read_integer-write_raw_integer 4 d (write_raw_integer 4 1 ++ (write_dimensions ds ++ rest))
        (omega arith))
      (rw (read_integer-write_raw_integer 4 1 (write_dimensions ds ++ rest) (omega arith))
        (rw (read_dimensions-write_dimensions ds rest h.1) refl)))

length-write_dimensions : (ds : List ℕ) → length ds ≤ length (write_dimensions ds)
unfolding write_dimensions
length-write_dimensions [] = omega arith
length-write_dimensions (d ∷ ds) =
    let a = length-append (write_raw_integer 4 d) (write_raw_integer 4 1 ++ write_dimensions ds) in
    let b = length-append (write_raw_integer 4 1) (write_dimensions ds) in
    omega (arith, a, b, length-write_raw_integer 4 d, length-write_dimensions ds)

pub dimensions_below-IsUint32 :
    (lib : Library) (t : LogicalType) (es : Option Cells) → All IsUint32 (dimensions_below lib t es)
unfolding dimensions_below
dimensions_below-IsUint32 lib (type_of a (list_of t)) none =
    (omega arith, dimensions_below-IsUint32 lib t none)
dimensions_below-IsUint32 lib (type_of a (list_of t)) (some es) =
    (omega arith, dimensions_below-IsUint32 lib t (first_entry lib es))
dimensions_below-IsUint32 lib t es = tt

pub length-dimensions_below :
    (lib : Library) (t : LogicalType) (es : Option Cells)
    → length (dimensions_below lib t es) ≡ expected_dimensions t
unfolding dimensions_below expected_dimensions
length-dimensions_below lib (type_of a (list_of t)) none =
    ap (λ n. suc n) (length-dimensions_below lib t none)
length-dimensions_below lib (type_of a (list_of t)) (some es) =
    ap (λ n. suc n) (length-dimensions_below lib t (first_entry lib es))
length-dimensions_below lib t es = refl

unfoldable pub list_body : ℕ → List ℕ → Bytes → Bytes
list_body oid dims content =
    write_raw_integer 4 (length dims)
    ++ (write_raw_integer 4 1 ++ (write_raw_integer 4 oid ++ (write_dimensions dims ++ content)))

pub read_list_lem :
    (expected oid d : ℕ) (ds : List ℕ) (array : List ℕ → Bytes → Result (Cells × Bytes))
    (content rest : Bytes) (cells : Cells)
    → suc (length ds) ≡ expected
    → All IsUint32 (d ∷ ds)
    → length (list_body oid (d ∷ ds) content) < 2 ^ 31
    → array (d ∷ ds) (content ++ rest) ≡ ok (cells, rest)
    → read_list expected array (list_body oid (d ∷ ds) content ++ rest) ≡ ok (first_of cells, rest)
unfolding read_list list_body
read_list_lem expected oid d ds array content rest cells known small short h =
    let dims = d ∷ ds in
    let tail = write_dimensions dims ++ (content ++ rest) in
    let (skipped, oid_read) = read_integer-skips 4 oid tail in
    let a =
      length-append (write_raw_integer 4 (length dims)) (
        write_raw_integer 4 1 ++ (write_raw_integer 4 oid ++ (write_dimensions dims ++ content))) in
    let b =
      length-append (write_raw_integer 4 1)
        (write_raw_integer 4 oid ++ (write_dimensions dims ++ content)) in
    let c = length-append (write_raw_integer 4 oid) (write_dimensions dims ++ content) in
    let e = length-append (write_dimensions dims) content in
    let few : length dims < 2 ^ 32 =
      omega (arith, a, b, c, e, short, length-write_dimensions dims) in
    let some_dimension : (length dims == 0) ≡ false = ground arith in
    let same : (expected == length dims) ≡ true = ground arith in
    simp append_assoc (
      rw
        (read_integer-write_raw_integer 4 (length dims)
          (write_raw_integer 4 1 ++ (write_raw_integer 4 oid ++ tail)) few)
        (rw (read_integer-write_raw_integer 4 1 (write_raw_integer 4 oid ++ tail) (omega arith)) (
          rw oid_read (
            rw some_dimension (
              rw same (
                rw (read_dimensions-write_dimensions dims (content ++ rest) small) (rw h refl)))))))

pub empty_list_lem :
    (expected oid : ℕ) (array : List ℕ → Bytes → Result (Cells × Bytes)) (rest : Bytes)
    → read_list expected array
        ((write_raw_integer 4 0 ++ (write_raw_integer 4 0 ++ write_raw_integer 4 oid)) ++ rest)
      ≡ ok (present (list_value no_cells), rest)
unfolding read_list
empty_list_lem expected oid array rest =
    let (skipped, oid_read) = read_integer-skips 4 oid rest in
    simp append_assoc (
      rw
        (read_integer-write_raw_integer 4 0
          (write_raw_integer 4 0 ++ (write_raw_integer 4 oid ++ rest)) (omega arith))
        (rw (read_integer-write_raw_integer 4 0 (write_raw_integer 4 oid ++ rest) (omega arith))
          (rw oid_read refl)))

pub list_body-long :
    (oid : ℕ) (ds : List ℕ) (content : Bytes) → 1 ≤ length (list_body oid ds content)
unfolding list_body
list_body-long oid ds content =
    let tail =
      write_raw_integer 4 1 ++ (write_raw_integer 4 oid ++ (write_dimensions ds ++ content)) in
    omega (
      arith,
      length-append (write_raw_integer 4 (length ds)) tail,
      length-write_raw_integer 4 (length ds),
    )

pub list_body-content :
    (oid : ℕ) (ds : List ℕ) (content : Bytes) → length content ≤ length (list_body oid ds content)
unfolding list_body
list_body-content oid ds content =
    let inner = write_raw_integer 4 oid ++ (write_dimensions ds ++ content) in
    omega (
      arith,
      length-append (write_raw_integer 4 (length ds)) (write_raw_integer 4 1 ++ inner),
      length-append (write_raw_integer 4 1) inner,
      length-append (write_raw_integer 4 oid) (write_dimensions ds ++ content),
      length-append (write_dimensions ds) content,
    )
