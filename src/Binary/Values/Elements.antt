-- ===== src/Binary/Values/Elements.antt =====
-- The cells of lists and the fields of structs, as `WriteValue` of src/include/postgres_binary_writer.hpp writes them.
use duckdb_postgres.Common.{
  ℕ, ◌*◌, ◌^◌, ◌<◌, ◌≤◌, List, ◌∷◌, ◌++◌, length, if◌then◌else◌, Bytes, Option, Result, ok, ◌>>=◌,
  ◌≡◌, ap, arith, length-append, bind-ok, ok-injective,
}
use duckdb_postgres.Types.Data.{LogicalType, Fields, type_of, list_of, no_fields, field}
use duckdb_postgres.Types.Oids.{to_postgres_oid}
use duckdb_postgres.Binary.Integers.{write_raw_integer, length-write_raw_integer}
use duckdb_postgres.Binary.Writer.{
  write_entry, is_list_type, field_count, write_value, write_array, write_fields,
}
use duckdb_postgres.Binary.Parser.{entries, read_dimension}
use duckdb_postgres.Binary.Cells.{Cell, Cells, no_cells, cell, Library, entry, write_each}
use duckdb_postgres.Binary.Values.{OrNull, AllCells, IsList, HasValue, HasElements}
use duckdb_postgres.Binary.Values.Arrays.{concat, EntriesOf, AllCells-concat, write_each-concat}

pub write_fields-split :
    (lib : Library) (replacement : Option Bytes) (n : Bytes) (t : LogicalType) (fs : Fields)
    (c : Cell) (cs : Cells) (body : Bytes)
    → write_fields lib replacement (field n t fs) (cell c cs) ≡ ok body
    → (oid : ℕ) × (a : Bytes) × (b : Bytes) × (write_value lib replacement t c ≡ ok a)
      × (write_fields lib replacement fs cs ≡ ok b)
      × (write_raw_integer 4 oid ++ (a ++ b) ≡ body)
unfolding write_value
write_fields-split lib replacement n t fs c cs body h =
    let (oid, found, h1) =
      bind-ok (to_postgres_oid t)
        (λ oid. write_value lib replacement t c >>= λ a.
          write_fields lib replacement fs cs >>= λ b. ok (write_raw_integer 4 oid ++ (a ++ b)))
        body h in
    let (a, first, h2) =
      bind-ok (write_value lib replacement t c)
        (λ a. write_fields lib replacement fs cs >>= λ b. ok (write_raw_integer 4 oid ++ (a ++ b)))
        body h1 in
    let (b, others, h3) =
      bind-ok (write_fields lib replacement fs cs) (λ b. ok (write_raw_integer 4 oid ++ (a ++ b)))
        body h2 in
    (oid, a, b, first, others, ok-injective h3)

-- What is written behind the length of a struct is no shorter than its fields are many.
pub field_count-write_fields :
    (lib : Library) (replacement : Option Bytes) (fs : Fields) (cs : Cells) (body : Bytes)
    → write_fields lib replacement fs cs ≡ ok body
    → field_count fs ≤ length body
unfolding write_value
field_count-write_fields lib replacement no_fields cs body h = omega arith
field_count-write_fields lib replacement (field n t fs) no_cells body h = absurd cc
field_count-write_fields lib replacement (field n t fs) (cell c cs) body h =
    let (oid, a, b, first, others, whole) = write_fields-split lib replacement n t fs c cs body h in
    let tail = field_count-write_fields lib replacement fs cs b others in
    let outer = length-append (write_raw_integer 4 oid) (a ++ b) in
    let inner = length-append a b in
    let four = length-write_raw_integer 4 oid in
    rw (← whole) (omega (arith, tail, outer, inner, four))

pub HasElements-concat :
    (lib : Library) (t : LogicalType) (cs : Cells)
    → AllCells (IsList (λ es. HasElements lib t es)) cs
    → HasElements lib t (concat lib cs)
HasElements-concat lib (type_of b (list_of u)) cs h =
    AllCells-concat lib (IsList (λ es. HasElements lib u es)) cs h
HasElements-concat lib (type_of b i) cs h =
    AllCells-concat lib (OrNull (λ v. HasValue lib i v)) cs h

abbrev pub with_entries : ℕ → ℕ → Result (Cells × Bytes) → Result (Cells × Bytes)
with_entries n d m = m >>= λ p. ok (entries n d p.0, p.1)

pub read_dimension-nested :
    (read : Bytes → Result (Cell × Bytes)) (lists : ℕ → List ℕ → Bytes → Result (Cells × Bytes))
    (n d e : ℕ) (ds : List ℕ) (buffer : Bytes)
    → n * d < 2 ^ 32
    → read_dimension read lists n (d ∷ e ∷ ds) buffer
      ≡ with_entries n d (lists (n * d) (e ∷ ds) buffer)
unfolding read_dimension
read_dimension-nested read lists n d e ds buffer h =
    ap (λ k. with_entries n d (lists k (e ∷ ds) buffer)) (omega arith)

-- What `WriteArray` writes for the cells of a type.
abbrev pub write_cells : Library → Option Bytes → LogicalType → List ℕ → Cells → Result Bytes
write_cells lib replacement t ds flat =
    if is_list_type t
    then write_array lib replacement t ds flat
    else write_each (λ c. write_value lib replacement t c) flat

pub write_cells-concat :
    (lib : Library) (replacement : Option Bytes) (t : LogicalType) (e : ℕ) (ds : List ℕ)
    (cs : Cells) (body : Bytes)
    → write_each
        (λ c.
          write_entry
            (λ x. write_value lib replacement t x)
            (λ ks es. write_array lib replacement t ks es)
            (is_list_type t)
            (e ∷ ds)
            (entry lib c))
        cs
      ≡ ok body
    → (write_cells lib replacement t ds (concat lib cs) ≡ ok body) × EntriesOf lib e cs
unfolding write_value write_entry
write_cells-concat lib replacement (type_of b (list_of u)) e ds cs body h =
    write_each-concat lib
      (λ c.
        write_entry (λ x. write_value lib replacement u x)
          (λ ks es. write_array lib replacement u ks es) (is_list_type u) ds (entry lib c))
      e cs body h
write_cells-concat lib replacement (type_of b i) e ds cs body h =
    write_each-concat lib (λ c. write_value lib replacement (type_of b i) c) e cs body h
