-- ===== src/Binary/Values/RoundTrip.antt =====
-- What `ReadValue` of src/postgres_binary_parser.cpp makes of the value that `WriteValue` of
-- src/include/postgres_binary_writer.hpp writes, for every type.
use duckdb_postgres.Common.{
  ℕ, ◌*◌, ◌%◌, ◌^◌, ◌<◌, Bool, List, [], ◌∷◌, ◌++◌, length, Bytes, Option, ok, ◌≡◌, refl, ap, sym,
  ◌∙◌, arith, ok-injective,
}
use duckdb_postgres.Types.Data.{
  LogicalType, TypeInfo, Fields, type_of, list_of, struct_of, no_fields, field, PostgresType,
  postgres_type, Children, no_children, child, standard,
}
use duckdb_postgres.Binary.Writer.{
  first_entry, dimensions_below, write_value, write_present, write_fields,
}
use duckdb_postgres.Binary.Parser.{
  expected_dimensions, entries, read_dimension, read_value, read_array, read_fields,
}
use duckdb_postgres.Binary.Cells.{
  Cell, Value, list_value, struct_value, Cells, no_cells, cell, Library, count,
}
use duckdb_postgres.Binary.Values.{
  OrNull, FewCells, HasType, HasValue, HasElements, HasFields, Matches, MatchesInfo, MatchesFields,
}
use duckdb_postgres.Binary.Values.Scalars.{Laws}
use duckdb_postgres.Binary.Values.Arrays.{concat, count-concat, entries-concat}
use duckdb_postgres.Binary.Values.Frames.{length-dimensions_below}
use duckdb_postgres.Binary.Values.Elements.{
  HasElements-concat, with_entries, read_dimension-nested, write_cells, write_cells-concat,
}
use duckdb_postgres.Binary.Values.Nested.{empty_round, list_round, struct_round, field_round}
use duckdb_postgres.Binary.Values.Present.{Behind, cell_round, scalar_round, leaf_round}

module _ (lib : Library) (replacement : Option Bytes) (nan_as_null : Bool) (laws : Laws lib) where
  mutual
    unfolding write_value read_value expected_dimensions

    value_round :
        (t : LogicalType) (p : PostgresType) (c : Cell) (written rest : Bytes)
        → HasType lib t c
        → Matches t p
        → write_value lib replacement t c ≡ ok written
        → length written < 2 ^ 31
        → read_value lib nan_as_null t p (written ++ rest) ≡ ok (c, rest)
    value_round (type_of a i) (postgres_type oid standard ps) c written rest h m e small =
        cell_round lib replacement nan_as_null laws a i (postgres_type oid standard ps) c written
          rest (λ v b more hv f s. present_round i oid ps v b more hv m f s) h e small
    value_round (type_of a i) p c written rest h m e small = absurd m

    present_round :
        (i : TypeInfo) (oid : ℕ) (ps : Children) (v : Value) (written rest : Bytes)
        → HasValue lib i v
        → MatchesInfo i ps
        → write_present lib replacement i v ≡ ok written
        → length written < 2 ^ 31
        → Behind lib replacement nan_as_null laws i (postgres_type oid standard ps) v written rest
    present_round (list_of t) oid (child q qs) (list_value no_cells) written rest h m e small =
        empty_round lib replacement nan_as_null laws t oid q qs written rest e
    present_round (list_of t) oid (child q qs) (list_value (cell c cs)) written rest h m e small =
        list_round lib replacement nan_as_null laws t oid q qs c cs written rest
          (λ content size f s.
            core t q 1 (count (cell c cs) % 2 ^ 32)
              (dimensions_below lib t (first_entry lib (cell c cs))) (cell c cs) content rest h.0 m
              size h.1 (length-dimensions_below lib t (first_entry lib (cell c cs))) f s)
          e small
    present_round (list_of t) oid no_children v written rest h m e small = absurd m
    present_round (list_of t) oid ps v written rest h m e small = absurd h
    present_round (struct_of fs) oid ps (struct_value cs) written rest h m e small =
        struct_round lib replacement nan_as_null laws fs oid ps cs written rest
          (λ body f s. fields_round fs ps cs body rest h m f s) e small
    present_round (struct_of fs) oid ps v written rest h m e small = absurd h
    present_round i oid ps v written rest h m e small =
        scalar_round lib replacement nan_as_null laws i (postgres_type oid standard ps) v written
          rest (λ len b. refl) h e

    core :
        (t : LogicalType) (p : PostgresType) (n d : ℕ) (ds : List ℕ) (flat : Cells)
        (body rest : Bytes)
        → HasElements lib t flat
        → Matches t p
        → count flat ≡ n * d
        → FewCells n (d ∷ ds)
        → length ds ≡ expected_dimensions t
        → write_cells lib replacement t ds flat ≡ ok body
        → length body < 2 ^ 31
        → read_dimension
            (λ r. read_value lib nan_as_null t p r)
            (λ k es r. read_array lib nan_as_null t p k es r)
            n
            (d ∷ ds)
            (body ++ rest)
          ≡ ok (entries n d flat, rest)
    core (type_of a (list_of t)) (postgres_type oid standard (child q qs)) n d (e ∷ ds) flat body
          rest h m size few levels f small =
        let (flattened, sizes) = write_cells-concat lib replacement t e ds flat body f in
        let inner : count (concat lib flat) ≡ n * d * e =
          count-concat lib e flat sizes ∙ ap (λ k. k * e) size in
        let read =
          core t q (n * d) e ds (concat lib flat) body rest (HasElements-concat lib t flat h) m
            inner few.1 (omega (arith, levels)) flattened small in
        let back : entries (n * d) e (concat lib flat) ≡ flat =
          ap (λ k. entries k e (concat lib flat)) (sym size)
          ∙ entries-concat lib (λ es. HasElements lib t es) e flat h sizes in
        read_dimension-nested
          (λ r.
            read_value lib nan_as_null (type_of a (list_of t))
              (postgres_type oid standard (child q qs)) r)
          (λ k es r.
            read_array lib nan_as_null (type_of a (list_of t))
              (postgres_type oid standard (child q qs)) k es r)
          n d e ds (body ++ rest) few.0
        ∙ (ap (λ m. with_entries n d m) read ∙ ap (λ x. ok (entries n d x, rest)) back)
    core (type_of a (list_of t)) p n d [] flat body rest h m size few levels f small =
        absurd (omega arith)
    core (type_of a (list_of t)) p n d ds flat body rest h m size few levels f small = absurd m
    core (type_of a i) (postgres_type oid standard ps) n d [] flat body rest h m size few levels f
          small =
        leaf_round lib replacement nan_as_null laws
          (λ c. write_value lib replacement (type_of a i) c)
          (λ r. read_value lib nan_as_null (type_of a i) (postgres_type oid standard ps) r)
          (λ k es r.
            read_array lib nan_as_null (type_of a i) (postgres_type oid standard ps) k es r)
          (OrNull (λ v. HasValue lib i v)) n d flat body rest
          (λ c w more hc ew s.
            cell_round lib replacement nan_as_null laws a i (postgres_type oid standard ps) c w more
              (λ v b r hv g s. present_round i oid ps v b r hv m g s) hc ew s)
          h size few.0 f small
    core (type_of a i) (postgres_type oid standard ps) n d (k ∷ ds) flat body rest h m size few
          levels f small =
        absurd (omega arith)
    core (type_of a i) p n d ds flat body rest h m size few levels f small = absurd m

    fields_round :
        (fs : Fields) (ps : Children) (cs : Cells) (body rest : Bytes)
        → HasFields lib fs cs
        → MatchesFields fs ps
        → write_fields lib replacement fs cs ≡ ok body
        → length body < 2 ^ 31
        → read_fields lib nan_as_null fs ps (body ++ rest) ≡ ok (cs, rest)
    fields_round no_fields ps no_cells body rest h m e small =
        ap (λ b. ok (no_cells, b)) (ap (λ b. b ++ rest) (sym (ok-injective e)))
    fields_round no_fields ps (cell c cs) body rest h m e small = absurd h
    fields_round (field n t fs) ps no_cells body rest h m e small = absurd h
    fields_round (field n t fs) no_children (cell c cs) body rest h m e small = absurd m
    fields_round (field n t fs) (child p ps) (cell c cs) body rest h m e small =
        field_round lib replacement nan_as_null laws n t fs p ps c cs body rest
          (λ a more f s. value_round t p c a more h.0 m.0 f s)
          (λ b f s. fields_round fs ps cs b rest h.1 m.1 f s) e small

-- Where the library keeps its laws and the server's type is that of the cell's type, with no
-- annotation: what WriteValue writes for a cell, in fewer than 2^31 bytes, ReadValue reads as
-- that cell, and what follows it is left; arrays of any dimensions, structs and NULLs included.
-- The cell is one of its type as follows: numbers, times, intervals and uuids have the bits of
-- their fields; a decimal has a scale that the table of powers has, its value is one that its
-- storage type holds, and so is its fraction padded with zeros to whole groups of four digits; a
-- date is one that the server has, an infinity included; a timestamp is finite and in the range
-- of the server's; a text, or the label of an enumeration, has no NUL byte, and it and a blob
-- and a geometry have fewer than 2^31 bytes; a label is found again at its position; the type of
-- a geometry names no SRID, and the library reads its bytes as they are; a list within a list is
-- not NULL, and the levels of an array have fewer than 2^32 cells by their dimensions.
pub read_value-write_value :
    (lib : Library) (replacement : Option Bytes) (nan_as_null : Bool) (laws : Laws lib)
    (t : LogicalType) (p : PostgresType) (c : Cell) (written rest : Bytes)
    → HasType lib t c
    → Matches t p
    → write_value lib replacement t c ≡ ok written
    → length written < 2 ^ 31
    → read_value lib nan_as_null t p (written ++ rest) ≡ ok (c, rest)
read_value-write_value lib replacement nan_as_null laws t p c written rest h m e small =
    value_round lib replacement nan_as_null laws t p c written rest h m e small
