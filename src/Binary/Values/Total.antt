-- ===== src/Binary/Values/Total.antt =====
-- When `WriteValue` of src/include/postgres_binary_writer.hpp throws nothing.
use duckdb_postgres.Common.{
  ℕ, length, ◌%◌, ◌^◌, ◌==◌, true, List, [], ◌∷◌, ◌++◌, Bytes, Option, Result, ok, ◌≡◌, refl, arith,
}
use duckdb_postgres.Types.Data.{
  LogicalType, TypeInfo, Fields, type_of, list_of, struct_of, no_fields, field,
}
use duckdb_postgres.Types.Oids.{to_postgres_oid}
use duckdb_postgres.Binary.Integers.{write_raw_integer}
use duckdb_postgres.Binary.Writer.{
  write_null, write_entry, is_list_type, first_entry, dimensions_below, sized, write_dimensions,
  write_list, field_count, write_value, write_present, write_array, write_fields,
}
use duckdb_postgres.Binary.Cells.{
  Cell, null, present, Value, list_value, struct_value, Cells, no_cells, cell, Library, entry,
  count, write_each,
}
use duckdb_postgres.Binary.Values.{
  OrNull, AllCells, IsList, ListOf, StructOf, HasType, HasValue, HasElements, HasFields,
}
use duckdb_postgres.Binary.Values.Scalars.{Laws, scalar_lem}
use duckdb_postgres.Binary.Values.Elements.{write_cells}

-- A type of elements for which the array header has an oid.
abbrev pub HasOid : LogicalType → Type 0
HasOid t = (oid : ℕ) × (to_postgres_oid t ≡ ok oid)

-- An entry of as many cells as its dimension says.
abbrev pub EntryShape : (List ℕ → Cells → Type 0) → List ℕ → Cells → Type 0
EntryShape S [] es = ⊥
EntryShape S (d ∷ ds) es = (count es ≡ d) × S ds es

module _ (lib : Library) where
  abbrev mutual
    -- The arrays in a cell are rectangular, and their elements' types have oids, as have those of the
    -- fields of its structs.
    pub Writable : LogicalType → Cell → Type 0
    Writable (type_of a i) c = OrNull (λ v. WritableValue i v) c

    pub WritableValue : TypeInfo → Value → Type 0
    WritableValue (list_of t) v =
        HasOid t
        × ListOf
            (λ es.
              EntryShape (λ ds cs. Rectangular t ds cs)
                (count es % 2 ^ 32 ∷ dimensions_below lib t (first_entry lib es)) es)
            v
    WritableValue (struct_of fs) v = StructOf (λ cs. WritableFields fs cs) v
    WritableValue i v = Unit

    pub Rectangular : LogicalType → List ℕ → Cells → Type 0
    Rectangular (type_of a (list_of t)) ds es =
        AllCells (λ c. EntryShape (λ ks cs. Rectangular t ks cs) ds (entry lib c)) es
    Rectangular (type_of a i) ds es = AllCells (OrNull (λ v. WritableValue i v)) es

    pub WritableFields : Fields → Cells → Type 0
    WritableFields no_fields cs = Unit
    WritableFields (field n t fs) no_cells = ⊥
    WritableFields (field n t fs) (cell c cs) = HasOid t × (Writable t c × WritableFields fs cs)

abbrev pub Returned : Result Bytes → Type 0
Returned m = (written : Bytes) × (m ≡ ok written)

write_each-total :
    (write : Cell → Result Bytes) (P Q : Cell → Type 0) (cs : Cells)
    → ((c : Cell) → P c → Q c → Returned (write c))
    → AllCells P cs
    → AllCells Q cs
    → Returned (write_each write cs)
unfolding write_each
write_each-total write P Q no_cells one h k = ([], refl)
write_each-total write P Q (cell c cs) one h k =
    let (a, first) = one c h.0 k.0 in
    let (b, others) = write_each-total write P Q cs one h.1 k.1 in
    (a ++ b, rw first (rw others refl))

entry_total :
    (lib : Library) (replacement : Option Bytes) (t : LogicalType) (S : List ℕ → Cells → Type 0)
    (ds : List ℕ) (es : Cells)
    → EntryShape S ds es
    → ((ks : List ℕ) → S ks es → Returned (write_cells lib replacement t ks es))
    → Returned (
        write_entry
          (λ x. write_value lib replacement t x)
          (λ ks xs. write_array lib replacement t ks xs)
          (is_list_type t)
          ds
          es)
unfolding write_entry
entry_total lib replacement t S [] es h cells = absurd h
entry_total lib replacement t S (d ∷ ds) es h cells =
    let same : (count es == d) ≡ true = ground (arith, h.0) in rw same (cells ds h.1)

write_list-total :
    (oid : ℕ) (ds : List ℕ) (es : Cells) (call : Result Bytes)
    → Returned call
    → Returned (write_list oid ds es call)
unfolding write_list
write_list-total oid ds no_cells call h = (_, refl)
write_list-total oid ds (cell c cs) call (content, e) = (
  sized (
      write_raw_integer 4 (length ds)
      ++ (write_raw_integer 4 1 ++ (write_raw_integer 4 oid ++ (write_dimensions ds ++ content)))),
  rw e refl,
)

list_entry : (lib : Library) (P : Cells → Type 0) (c : Cell) → IsList P c → P (entry lib c)
list_entry lib P (present (list_value es)) h = h
list_entry lib P c h = absurd h

null_or :
    (lib : Library) (replacement : Option Bytes) (a : Option Bytes) (i : TypeInfo) (c : Cell)
    → ((v : Value)
        → HasValue lib i v
        → WritableValue lib i v
        → Returned (write_present lib replacement i v))
    → OrNull (λ v. HasValue lib i v) c
    → OrNull (λ v. WritableValue lib i v) c
    → Returned (write_value lib replacement (type_of a i) c)
unfolding write_value
null_or lib replacement a i null values h w = (write_null, refl)
null_or lib replacement a i (present v) values h w = values v h w

module _ (lib : Library) (replacement : Option Bytes) (laws : Laws lib) where
  mutual
    unfolding write_value

    value_total :
        (t : LogicalType) (c : Cell)
        → HasType lib t c
        → Writable lib t c
        → Returned (write_value lib replacement t c)
    value_total (type_of a i) null h w = (write_null, refl)
    value_total (type_of a i) (present v) h w = present_total i v h w

    present_total :
        (i : TypeInfo) (v : Value)
        → HasValue lib i v
        → WritableValue lib i v
        → Returned (write_present lib replacement i v)
    present_total (list_of t) (list_value es) h ((oid, known), shape) =
        let call =
          entry_total lib replacement t (λ ds cs. Rectangular lib t ds cs)
            (count es % 2 ^ 32 ∷ dimensions_below lib t (first_entry lib es)) es shape
            (λ ks w. cells_total t ks es h.0 w) in
        rw known (
          write_list-total oid (count es % 2 ^ 32 ∷ dimensions_below lib t (first_entry lib es)) es
            (write_entry (λ x. write_value lib replacement t x)
              (λ ks xs. write_array lib replacement t ks xs) (is_list_type t)
              (count es % 2 ^ 32 ∷ dimensions_below lib t (first_entry lib es)) es)
            call)
    present_total (list_of t) v h w = absurd h
    present_total (struct_of fs) (struct_value cs) h w =
        let (body, e) = fields_total fs cs h w in
        (sized (write_raw_integer 4 (field_count fs) ++ body), rw e refl)
    present_total (struct_of fs) v h w = absurd h
    present_total i v h w =
        let (written, e, framed) = scalar_lem lib replacement true i v [] laws h in (written, e)

    cells_total :
        (t : LogicalType) (ds : List ℕ) (es : Cells)
        → HasElements lib t es
        → Rectangular lib t ds es
        → Returned (write_cells lib replacement t ds es)
    cells_total (type_of a (list_of t)) ds es h w =
        write_each-total
          (λ c.
            write_entry (λ x. write_value lib replacement t x)
              (λ ks xs. write_array lib replacement t ks xs) (is_list_type t) ds (entry lib c))
          (IsList (λ cs. HasElements lib t cs))
          (λ c. EntryShape (λ ks cs. Rectangular lib t ks cs) ds (entry lib c)) es
          (λ c hc wc.
            entry_total lib replacement t (λ ks cs. Rectangular lib t ks cs) ds (entry lib c) wc
              (λ ks x.
                cells_total t ks (entry lib c) (list_entry lib (λ cs. HasElements lib t cs) c hc)
                  x))
          h w
    cells_total (type_of a i) ds es h w =
        write_each-total (λ c. write_value lib replacement (type_of a i) c)
          (OrNull (λ v. HasValue lib i v)) (OrNull (λ v. WritableValue lib i v)) es
          (λ c hc wc. null_or lib replacement a i c (λ v hv wv. present_total i v hv wv) hc wc) h w

    fields_total :
        (fs : Fields) (cs : Cells)
        → HasFields lib fs cs
        → WritableFields lib fs cs
        → Returned (write_fields lib replacement fs cs)
    fields_total no_fields cs h w = ([], refl)
    fields_total (field n t fs) no_cells h w = absurd h
    fields_total (field n t fs) (cell c cs) h ((oid, known), (w, ws)) =
        let (a, first) = value_total t c h.0 w in
        let (b, others) = fields_total fs cs h.1 ws in
        (write_raw_integer 4 oid ++ (a ++ b), rw known (rw first (rw others refl)))
