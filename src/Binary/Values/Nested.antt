-- ===== src/Binary/Values/Nested.antt =====
-- Lists and structs behind their lengths: what `WriteValue` of src/include/postgres_binary_writer.hpp writes,
-- `ReadValue` of src/postgres_binary_parser.cpp returns, once the cells within them are.
use duckdb_postgres.Common.{
  ℕ, suc, ◌*◌, ◌%◌, ◌^◌, ◌<◌, ◌≤◌, ◌==◌, Bool, true, false, List, ◌∷◌, ◌++◌, length, Bytes, Option,
  ok, ◌≡◌, refl, ap, sym, ◌∙◌, arith, append_assoc, length-append, bind-ok, ok-injective,
}
use duckdb_postgres.Common.Int.{pos, ltbℤ}
use duckdb_postgres.Types.Data.{
  LogicalType, Fields, list_of, struct_of, field, PostgresType, postgres_type, Children, child,
  standard,
}
use duckdb_postgres.Types.Oids.{to_postgres_oid}
use duckdb_postgres.Binary.Integers.{
  write_raw_integer, read_integer, read_integer-write_raw_integer, read_integer-skips,
}
use duckdb_postgres.Binary.Writer.{
  write_entry, is_list_type, first_entry, dimensions_below, sized, write_list, field_count,
  write_value, write_present, write_array, write_fields,
}
use duckdb_postgres.Binary.Parser.{
  as_cell, expected_dimensions, entries, read_dimension, read_list, first_of, read_value,
  read_present, read_array, read_fields,
}
use duckdb_postgres.Binary.Cells.{
  Cell, present, list_value, struct_value, Cells, no_cells, cell, Library, count,
}
use duckdb_postgres.Binary.Values.Scalars.{Laws}
use duckdb_postgres.Binary.Values.Arrays.{right_count, first_cells_all}
use duckdb_postgres.Binary.Values.Frames.{
  sized_lem, empty_list_lem, list_body-long, list_body-content, dimensions_below-IsUint32,
  length-dimensions_below, list_body, read_list_lem,
}
use duckdb_postgres.Binary.Values.Elements.{
  write_fields-split, field_count-write_fields, write_cells,
}
use duckdb_postgres.Binary.Values.Present.{Behind}

module _ (lib : Library) (replacement : Option Bytes) (nan_as_null : Bool) (laws : Laws lib) where
  pub read_present-list :
      (t : LogicalType) (oid size : ℕ) (q : PostgresType) (qs : Children) (buffer : Bytes)
      → 1 ≤ size
      → read_present lib nan_as_null
          (list_of t)
          (postgres_type oid standard (child q qs))
          (pos size)
          buffer
        ≡ read_list
            (suc (expected_dimensions t))
            (λ ds more.
              read_dimension
                (λ r. read_value lib nan_as_null t q r)
                (λ k es r. read_array lib nan_as_null t q k es r)
                1
                ds
                more)
            buffer
  unfolding read_value
  read_present-list t oid size q qs buffer h =
      let some_byte : ltbℤ (pos size) (pos 1) ≡ false = ground arith in rw some_byte refl

  pub empty_round :
      (t : LogicalType) (oid : ℕ) (q : PostgresType) (qs : Children) (written rest : Bytes)
      → write_present lib replacement (list_of t) (list_value no_cells) ≡ ok written
      → Behind lib replacement nan_as_null laws
          (list_of t)
          (postgres_type oid standard (child q qs))
          (list_value no_cells)
          written
          rest
  unfolding write_value write_list
  empty_round t oid q qs written rest e =
      let (value_oid, found, h) =
        bind-ok (to_postgres_oid t)
          (λ o. ok (
            write_raw_integer 4 12
            ++ (write_raw_integer 4 0 ++ (write_raw_integer 4 0 ++ write_raw_integer 4 o))))
          written e in
      let header =
        write_raw_integer 4 0 ++ (write_raw_integer 4 0 ++ write_raw_integer 4 value_oid) in
      (
        12,
        header ++ rest,
        rw (← ok-injective h) (
            rw (append_assoc (write_raw_integer 4 12) header rest)
              (read_integer-write_raw_integer 4 12 (header ++ rest) (omega arith))),
        omega arith,
        read_present-list t oid 12 q qs (header ++ rest) (omega arith)
            ∙ empty_list_lem (suc (expected_dimensions t)) value_oid
                (λ ds more.
                  read_dimension (λ r. read_value lib nan_as_null t q r)
                    (λ k es r. read_array lib nan_as_null t q k es r) 1 ds more)
                rest,
      )

  -- The dimensions that are written for the cells of a list.
  abbrev pub dimensions_of : LogicalType → Cells → List ℕ
  dimensions_of t es = count es % 2 ^ 32 ∷ dimensions_below lib t (first_entry lib es)

  pub list_split :
      (t : LogicalType) (c : Cell) (cs : Cells) (written : Bytes)
      → write_present lib replacement (list_of t) (list_value (cell c cs)) ≡ ok written
      → (value_oid : ℕ) × (content : Bytes) × (count (cell c cs) ≡ count (cell c cs) % 2 ^ 32)
        × (write_cells lib replacement t
              (dimensions_below lib t (first_entry lib (cell c cs)))
              (cell c cs)
            ≡ ok content)
        × (sized (list_body value_oid (dimensions_of t (cell c cs)) content) ≡ written)
  unfolding write_value write_list write_entry list_body
  list_split t c cs written e =
      let es = cell c cs in
      let d = count es % 2 ^ 32 in
      let ds = dimensions_below lib t (first_entry lib es) in
      let call =
        write_entry (λ x. write_value lib replacement t x)
          (λ ks xs. write_array lib replacement t ks xs) (is_list_type t) (d ∷ ds) es in
      let (value_oid, found, h) =
        bind-ok (to_postgres_oid t) (λ o. write_list o (d ∷ ds) es call) written e in
      let (content, contents, whole) =
        bind-ok call (λ x. ok (sized (list_body value_oid (d ∷ ds) x))) written h in
      let (size, written_cells) =
        right_count (count es) d (write_cells lib replacement t ds es) content contents in
      (value_oid, content, size, written_cells, ok-injective whole)

  pub first_entry_lem :
      (d : ℕ) (es : Cells) → count es ≡ d → first_of (entries 1 d es) ≡ present (list_value es)
  unfolding entries
  first_entry_lem d es h = ap (λ x. present (list_value x)) (first_cells_all d es h)

  pub list_round :
      (t : LogicalType) (oid : ℕ) (q : PostgresType) (qs : Children) (c : Cell) (cs : Cells)
      (written rest : Bytes)
      → ((content : Bytes)
          → count (cell c cs) ≡ 1 * (count (cell c cs) % 2 ^ 32)
          → write_cells lib replacement t
              (dimensions_below lib t (first_entry lib (cell c cs)))
              (cell c cs)
            ≡ ok content
          → length content < 2 ^ 31
          → read_dimension
              (λ r. read_value lib nan_as_null t q r)
              (λ k es r. read_array lib nan_as_null t q k es r)
              1
              (dimensions_of t (cell c cs))
              (content ++ rest)
            ≡ ok (entries 1 (count (cell c cs) % 2 ^ 32) (cell c cs), rest))
      → write_present lib replacement (list_of t) (list_value (cell c cs)) ≡ ok written
      → length written < 2 ^ 31
      → Behind lib replacement nan_as_null laws
          (list_of t)
          (postgres_type oid standard (child q qs))
          (list_value (cell c cs))
          written
          rest
  list_round t oid q qs c cs written rest cells e small =
      let es = cell c cs in
      let d = count es % 2 ^ 32 in
      let ds = dimensions_below lib t (first_entry lib es) in
      let (value_oid, content, size, contents, whole) = list_split t c cs written e in
      let body = list_body value_oid (d ∷ ds) content in
      let (len, short) = sized_lem body rest (rw whole small) in
      let inner = list_body-content value_oid (d ∷ ds) content in
      let array = cells content (omega (arith, size)) contents (omega (arith, inner, short)) in
      let long = list_body-long value_oid (d ∷ ds) content in
      (
        length body,
        body ++ rest,
        ap (λ b. read_integer 4 (b ++ rest)) (sym whole) ∙ len,
        short,
        read_present-list t oid (length body) q qs (body ++ rest) long
            ∙ (read_list_lem (suc (expected_dimensions t)) value_oid d ds
                  (λ ks more.
                    read_dimension (λ r. read_value lib nan_as_null t q r)
                      (λ k xs r. read_array lib nan_as_null t q k xs r) 1 ks more)
                  content rest (entries 1 d es)
                  (ap (λ n. suc n) (length-dimensions_below lib t (first_entry lib es)))
                  (omega arith, dimensions_below-IsUint32 lib t (first_entry lib es)) short array
                ∙ ap (λ x. ok (x, rest)) (first_entry_lem d es size)),
      )

  pub read_present-struct :
      (fs : Fields) (oid size : ℕ) (ps : Children) (buffer behind : Bytes)
      → read_integer 4 buffer ≡ ok (field_count fs, behind)
      → read_present lib nan_as_null
          (struct_of fs)
          (postgres_type oid standard ps)
          (pos size)
          buffer
        ≡ as_cell struct_value (read_fields lib nan_as_null fs ps behind)
  unfolding read_value
  read_present-struct fs oid size ps buffer behind h =
      let same : (field_count fs == field_count fs) ≡ true = ground arith in rw h (rw same refl)

  pub struct_round :
      (fs : Fields) (oid : ℕ) (ps : Children) (cs : Cells) (written rest : Bytes)
      → ((body : Bytes)
          → write_fields lib replacement fs cs ≡ ok body
          → length body < 2 ^ 31
          → read_fields lib nan_as_null fs ps (body ++ rest) ≡ ok (cs, rest))
      → write_present lib replacement (struct_of fs) (struct_value cs) ≡ ok written
      → length written < 2 ^ 31
      → Behind lib replacement nan_as_null laws
          (struct_of fs)
          (postgres_type oid standard ps)
          (struct_value cs)
          written
          rest
  unfolding write_value
  struct_round fs oid ps cs written rest values e small =
      let n = field_count fs in
      let (body, contents, h) =
        bind-ok (write_fields lib replacement fs cs) (λ x. ok (sized (write_raw_integer 4 n ++ x)))
          written e in
      let whole = ok-injective h in
      let full = write_raw_integer 4 n ++ body in
      let (len, short) = sized_lem full rest (rw whole small) in
      let parts = length-append (write_raw_integer 4 n) body in
      let few = field_count-write_fields lib replacement fs cs body contents in
      let fields_read = values body contents (omega (arith, parts, short)) in
      (
        length full,
        full ++ rest,
        ap (λ b. read_integer 4 (b ++ rest)) (sym whole) ∙ len,
        short,
        read_present-struct fs oid (length full) ps (full ++ rest) (body ++ rest) (
              rw (append_assoc (write_raw_integer 4 n) body rest) (
                read_integer-write_raw_integer 4 n (body ++ rest)
                  (omega (arith, few, parts, short))))
            ∙ ap (λ m. as_cell struct_value m) fields_read,
      )

  pub read_fields-field :
      (n : Bytes) (t : LogicalType) (fs : Fields) (p : PostgresType) (ps : Children) (c : Cell)
      (cs : Cells) (u : ℕ) (b0 b1 b2 b3 : Bytes)
      → read_integer 4 b0 ≡ ok (u, b1)
      → read_value lib nan_as_null t p b1 ≡ ok (c, b2)
      → read_fields lib nan_as_null fs ps b2 ≡ ok (cs, b3)
      → read_fields lib nan_as_null (field n t fs) (child p ps) b0 ≡ ok (cell c cs, b3)
  unfolding read_value
  read_fields-field n t fs p ps c cs u b0 b1 b2 b3 h k l = rw h (rw k (rw l refl))

  pub field_round :
      (n : Bytes) (t : LogicalType) (fs : Fields) (p : PostgresType) (ps : Children) (c : Cell)
      (cs : Cells) (body rest : Bytes)
      → ((a more : Bytes)
          → write_value lib replacement t c ≡ ok a
          → length a < 2 ^ 31
          → read_value lib nan_as_null t p (a ++ more) ≡ ok (c, more))
      → ((b : Bytes)
          → write_fields lib replacement fs cs ≡ ok b
          → length b < 2 ^ 31
          → read_fields lib nan_as_null fs ps (b ++ rest) ≡ ok (cs, rest))
      → write_fields lib replacement (field n t fs) (cell c cs) ≡ ok body
      → length body < 2 ^ 31
      → read_fields lib nan_as_null (field n t fs) (child p ps) (body ++ rest)
        ≡ ok (cell c cs, rest)
  field_round n t fs p ps c cs body rest one others e small =
      let (oid, a, b, first, tail, whole) = write_fields-split lib replacement n t fs c cs body e in
      let outer = length-append (write_raw_integer 4 oid) (a ++ b) in
      let inner = length-append a b in
      let size = ap length whole in
      let (u, oid_read) = read_integer-skips 4 oid (a ++ (b ++ rest)) in
      ap (λ x. read_fields lib nan_as_null (field n t fs) (child p ps) (x ++ rest)) (sym whole)
      ∙ ap (λ x. read_fields lib nan_as_null (field n t fs) (child p ps) x) (simp append_assoc refl)
      ∙ read_fields-field n t fs p ps c cs u (write_raw_integer 4 oid ++ (a ++ (b ++ rest)))
          (a ++ (b ++ rest)) (b ++ rest) rest oid_read
          (one a (b ++ rest) first (omega (arith, outer, inner, size, small)))
          (others b tail (omega (arith, outer, inner, size, small)))
