-- ===== src/Binary/Parser.antt =====
-- `PostgresBinaryParser` of src/postgres_binary_parser.cpp and src/include/postgres_binary_parser.hpp: the
-- values of a row. Each reader returns the rest of the buffer.
use duckdb_postgres.Common.{
  ℕ, zero, suc, ◌+◌, ◌-◌, ◌*◌, ◌%◌, ◌^◌, Bool, true, false, not, List, [], ◌∷◌, length, take, drop,
  leb, ltb, ◌&&◌, ◌==◌, if◌then◌else◌, Bytes, Option, none, some, Result, ok, err, ◌>>=◌, internal,
  not_implemented, invalid_input, io_error,
}
use duckdb_postgres.Common.Int.{ℤ, pos, negsuc, ◌+ℤ◌, ltbℤ, to_unsigned, to_signed}
use duckdb_postgres.Types.Data.{
  LogicalType, TypeInfo, Fields, type_of, boolean, smallint, integer, uinteger, bigint, float,
  double, varchar, blob, date, time, time_tz, timestamp, timestamp_tz, interval, uuid, decimal,
  enum, geometry, list_of, struct_of, no_fields, field, PostgresType, postgres_type, Children,
  no_children, child, PostgresTypeAnnotation, ctid, numeric_as_double, jsonb, fixed_length_char,
  geom_point, geom_line, geom_line_segment, geom_box, geom_path, geom_polygon, geom_circle,
}
use duckdb_postgres.Binary.Integers.{read_integer}
use duckdb_postgres.Binary.Numeric.{
  PostgresDecimal, ordinary, non_finite_decimal_kind_to_string, read_decimal,
}
use duckdb_postgres.Binary.Dates.{read_date, read_time_tz}
use duckdb_postgres.Binary.Timestamps.{read_timestamp}
use duckdb_postgres.Binary.Writer.{flip_top, field_count}
use duckdb_postgres.Binary.Cells.{
  Cell, null, present, Value, bits, day, instant, time_offset, interval_of, halves, number, text,
  position, list_value, struct_value, Cells, no_cells, cell, Library, first_cells, behind_cells,
  read_each,
}

-- A value that a reader gives, as a cell.
abbrev pub as_cell {ℓ} : {A : Type ℓ} → (A → Value) → Result (A × Bytes) → Result (Cell × Bytes)
as_cell make read = read >>= λ p. ok (present (make p.0), p.1)

-- `ReadBoolean`.
unfoldable pub read_boolean : Bytes → Result (ℕ × Bytes)
read_boolean buffer = read_integer 1 buffer >>= λ p. ok (if ltb 0 p.0 then 1 else 0, p.1)

-- `ReadInterval`.
unfoldable pub read_interval : Bytes → Result ((ℕ × (ℕ × ℕ)) × Bytes)
read_interval buffer = read_integer 8 buffer >>= λ micros. read_integer 4 micros.1 >>= λ days.
    read_integer 4 days.1 >>= λ months. ok ((micros.0, (days.0, months.0)), months.1)

-- `ReadUUID`.
unfoldable pub read_uuid : Bytes → Result ((ℕ × ℕ) × Bytes)
read_uuid buffer = read_integer 8 buffer >>= λ upper.
    read_integer 8 upper.1 >>= λ lower. ok ((flip_top upper.0, lower.0), lower.1)

-- `page_index << 16`.
abbrev pub shift_page : ℤ → ℤ
shift_page (pos n) = pos (n * 65536)
shift_page (negsuc n) = negsuc (n * 65536 + 65535)

-- The page and the row of a CTID, as one BIGINT.
unfoldable pub read_ctid : Bytes → Result (ℕ × Bytes)
read_ctid buffer = read_integer 4 buffer >>= λ page. read_integer 2 page.1 >>= λ row. ok (
  to_unsigned (2 ^ 64) (shift_page (to_signed (2 ^ 31) page.0) +ℤ to_signed (2 ^ 15) row.0),
  row.1,
)

-- The loop that cuts blanks off the end of a CHAR.
unfoldable pub trim_blanks : Bytes → Bytes
trim_blanks [] = []
trim_blanks (c ∷ r) = elim (trim_blanks r) [
  | [] ↦ if c == 32 then [] else c ∷ []
  | d ∷ s ↦ c ∷ d ∷ s
]

abbrev pub is_jsonb : PostgresTypeAnnotation → Bool
is_jsonb jsonb = true
is_jsonb a = false

abbrev pub trimmed : PostgresTypeAnnotation → Bytes → Bytes
trimmed fixed_length_char s = trim_blanks s
trimmed a s = s

-- A geometric value that is read as a list of numbers.
abbrev pub is_geometric : PostgresTypeAnnotation → Bool
is_geometric geom_line = true
is_geometric geom_line_segment = true
is_geometric geom_box = true
is_geometric geom_path = true
is_geometric geom_polygon = true
is_geometric geom_circle = true
is_geometric a = false

-- How many numbers `ReadGeometry` reads.
unfoldable pub element_count : PostgresTypeAnnotation → Bytes → Result (ℕ × Bytes)
element_count geom_line buffer = ok (3, buffer)
element_count geom_circle buffer = ok (3, buffer)
element_count geom_line_segment buffer = ok (4, buffer)
element_count geom_box buffer = ok (4, buffer)
element_count geom_path buffer =
    read_boolean buffer >>= λ closed. read_integer 4 closed.1 >>= λ n. ok (2 * n.0 % 2 ^ 32, n.1)
element_count geom_polygon buffer = read_integer 4 buffer >>= λ n. ok (2 * n.0 % 2 ^ 32, n.1)
element_count a buffer = err internal

-- `ReadDouble`.
unfoldable pub read_double : Bytes → Result (Cell × Bytes)
read_double buffer = as_cell bits (read_integer 8 buffer)

-- `ReadGeometry`.
unfoldable pub read_geometry : PostgresTypeAnnotation → Bytes → Result (Cell × Bytes)
read_geometry a buffer =
    element_count a buffer >>= λ n. as_cell list_value (read_each read_double n.0 n.1)

-- The dimensions of an array, behind its header, each with a lower bound that is skipped.
unfoldable pub read_dimensions : ℕ → Bytes → Result (List ℕ × Bytes)
read_dimensions zero buffer = ok ([], buffer)
read_dimensions (suc n) buffer = read_integer 4 buffer >>= λ d.
    read_integer 4 d.1 >>= λ lower_bound.
    read_dimensions n lower_bound.1 >>= λ ds. ok (d.0 ∷ ds.0, ds.1)

-- The lists within lists of a type.
unfoldable pub expected_dimensions : LogicalType → ℕ
expected_dimensions (type_of a (list_of t)) = suc (expected_dimensions t)
expected_dimensions t = 0

-- The entries of `current_count` lists of `d` cells each.
unfoldable pub entries : ℕ → ℕ → Cells → Cells
entries zero d cs = no_cells
entries (suc n) d cs =
    cell (present (list_value (first_cells d cs))) (entries n d (behind_cells d cs))

-- `ReadArray`: the cells below `current_count` entries are read as values, or as lists, and the entries
-- select them. The sizes are of 32 bits.
unfoldable pub read_dimension :
    (Bytes → Result (Cell × Bytes))
    → (ℕ → List ℕ → Bytes → Result (Cells × Bytes))
    → ℕ
    → List ℕ
    → Bytes
    → Result (Cells × Bytes)
read_dimension cells lists current_count [] buffer = err internal
read_dimension cells lists current_count (d ∷ []) buffer =
    read_each cells (current_count * d % 2 ^ 32) buffer >>= λ p.
    ok (entries current_count d p.0, p.1)
read_dimension cells lists current_count (d ∷ e ∷ ds) buffer =
    lists (current_count * d % 2 ^ 32) (e ∷ ds) buffer >>= λ p.
    ok (entries current_count d p.0, p.1)

-- `postgres_type.children[0]`, which is checked.
abbrev pub with_first {ℓ} : {A : Type ℓ} → Children → (PostgresType → Result A) → Result A
with_first no_children use_child = err internal
with_first (child p ps) use_child = use_child p

abbrev pub first_of : Cells → Cell
first_of no_cells = null
first_of (cell c cs) = c

-- The case of a list in `ReadValue`, behind the length.
unfoldable pub read_list :
    ℕ → (List ℕ → Bytes → Result (Cells × Bytes)) → Bytes → Result (Cell × Bytes)
read_list expected array buffer = read_integer 4 buffer >>= λ dim.
    read_integer 4 dim.1 >>= λ has_null. read_integer 4 has_null.1 >>= λ value_oid.
    if dim.0 == 0
    then ok (present (list_value no_cells), value_oid.1)
    else if expected == dim.0
    then (read_dimensions dim.0 value_oid.1 >>= λ ds.
        array ds.0 ds.1 >>= λ p. ok (first_of p.0, p.1))
    else err invalid_input

module _ (lib : Library) (numeric_nan_as_null : Bool) where
  -- `ReadString` of a length that may be below zero.
  unfoldable pub read_string : ℤ → Bytes → Result (Bytes × Bytes)
  read_string (pos n) buffer =
      if leb n (length buffer) then ok (take n buffer, drop n buffer) else err io_error
  read_string (negsuc n) buffer = lib.negative_length (negsuc n) buffer

  -- The case of VARCHAR and BLOB.
  unfoldable pub read_text : PostgresTypeAnnotation → ℤ → Bytes → Result (Bytes × Bytes)
  read_text a len buffer =
      let plain = read_string len buffer >>= λ p. ok (trimmed a p.0, p.1) in
      let versioned = read_integer 1 buffer >>= λ version.
      if version.0 == 1 then read_string (len +ℤ negsuc 0) version.1 else err not_implemented in
      if is_jsonb a then versioned else plain

  -- `CheckDecimalKindSetNull`, and the cell of a decimal.
  unfoldable pub decimal_cell : PostgresDecimal → Result Cell
  decimal_cell dec = elim dec.kind [
    | ordinary ↦ ok (present (number dec.value))
    | other ↦
        if numeric_nan_as_null
        then ok null
        else (non_finite_decimal_kind_to_string dec.kind >>= λ kind. err invalid_input)
  ]

  unfoldable pub read_decimal_cell : ℕ → ℕ → ℤ → Bytes → Result (Cell × Bytes)
  read_decimal_cell w s len buffer =
      if ltbℤ len (pos 8) && not (ltbℤ len (pos 0))
      then err invalid_input
      else (read_decimal lib.overflowed (lib.internal_type w s) buffer >>= λ p.
          decimal_cell p.0 >>= λ c. ok (c, p.1))

  unfoldable pub read_geometry_text : Option Bytes → Bytes → Result (Cell × Bytes)
  read_geometry_text none buffer = err invalid_input
  read_geometry_text (some wkb) buffer = ok (present (text wkb), buffer)

  unfoldable pub enum_cell : Option ℕ → Bytes → Result (Cell × Bytes)
  enum_cell none buffer = err io_error
  enum_cell (some k) buffer = ok (present (position k), buffer)

  -- The cases of `ReadValue` that are no list and no struct, behind the length.
  unfoldable pub read_scalar : TypeInfo → PostgresTypeAnnotation → ℤ → Bytes → Result (Cell × Bytes)
  read_scalar smallint a len buffer = as_cell bits (read_integer 2 buffer)
  read_scalar integer a len buffer = as_cell bits (read_integer 4 buffer)
  read_scalar uinteger a len buffer = as_cell bits (read_integer 4 buffer)
  read_scalar bigint ctid len buffer = as_cell bits (read_ctid buffer)
  read_scalar bigint a len buffer = as_cell bits (read_integer 8 buffer)
  read_scalar float a len buffer = as_cell bits (read_integer 4 buffer)
  read_scalar double numeric_as_double len buffer = as_cell bits (lib.read_decimal_double buffer)
  read_scalar double a len buffer = as_cell bits (read_integer 8 buffer)
  read_scalar blob a len buffer = as_cell text (read_text a len buffer)
  read_scalar varchar a len buffer = as_cell text (read_text a len buffer)
  read_scalar (geometry crs) a len buffer =
      read_string len buffer >>= λ p. read_geometry_text (lib.from_binary p.0) p.1
  read_scalar boolean a len buffer = as_cell bits (read_boolean buffer)
  read_scalar (decimal w s) a len buffer = read_decimal_cell w s len buffer
  read_scalar date a len buffer =
      as_cell day (read_date lib.date_infinity lib.date_ninfinity buffer)
  read_scalar time a len buffer = as_cell bits (read_integer 8 buffer)
  read_scalar time_tz a len buffer = as_cell (λ t. time_offset t.0 t.1) (read_time_tz buffer)
  read_scalar timestamp_tz a len buffer = as_cell instant (
      read_timestamp lib.timestamp_infinity lib.timestamp_ninfinity lib.try_subtract lib.try_add
        lib.is_finite buffer)
  read_scalar timestamp a len buffer = as_cell instant (
      read_timestamp lib.timestamp_infinity lib.timestamp_ninfinity lib.try_subtract lib.try_add
        lib.is_finite buffer)
  read_scalar (enum names) a len buffer =
      read_string len buffer >>= λ p. enum_cell (lib.get_pos names p.0) p.1
  read_scalar interval a len buffer =
      as_cell (λ t. interval_of t.0 t.1.0 t.1.1) (read_interval buffer)
  read_scalar uuid a len buffer = as_cell (λ t. halves t.0 t.1) (read_uuid buffer)
  read_scalar i a len buffer = err internal

  unfoldable mutual
    -- `ReadValue`.
    pub read_value : LogicalType → PostgresType → Bytes → Result (Cell × Bytes)
    read_value (type_of a i) p buffer = read_integer 4 buffer >>= λ value_len.
        if value_len.0 == 2 ^ 32 - 1
        then ok (null, value_len.1)
        else read_present i p (to_signed (2 ^ 31) value_len.0) value_len.1

    pub read_present : TypeInfo → PostgresType → ℤ → Bytes → Result (Cell × Bytes)
    read_present (list_of t) (postgres_type oid a below) len buffer =
        if ltbℤ len (pos 1)
        then ok (present (list_value no_cells), buffer)
        else if is_geometric a
        then read_geometry a buffer
        else read_list (suc (expected_dimensions t))
            (λ ds rest. with_first below (λ p.
              read_dimension (λ r. read_value t p r) (λ n es r. read_array t p n es r) 1 ds rest))
            buffer
    read_present (struct_of fs) (postgres_type oid geom_point below) len buffer =
        read_double buffer >>= λ x.
        read_double x.1 >>= λ y. ok (present (struct_value (cell x.0 (cell y.0 no_cells))), y.1)
    read_present (struct_of fs) (postgres_type oid a below) len buffer =
        read_integer 4 buffer >>= λ entry_count.
        if entry_count.0 == field_count fs
        then as_cell struct_value (read_fields fs below entry_count.1)
        else err internal
    read_present i (postgres_type oid a below) len buffer = read_scalar i a len buffer

    -- `ReadArray`.
    pub read_array : LogicalType → PostgresType → ℕ → List ℕ → Bytes → Result (Cells × Bytes)
    read_array (type_of a (list_of t)) (postgres_type oid b below) current_count ds buffer =
        with_first below (λ p.
          read_dimension (λ r. read_value t p r) (λ n es r. read_array t p n es r) current_count ds
            buffer)
    read_array t p current_count ds buffer = err internal

    -- The children of a struct.
    pub read_fields : Fields → Children → Bytes → Result (Cells × Bytes)
    read_fields no_fields ps buffer = ok (no_cells, buffer)
    read_fields (field n t fs) no_children buffer =
        read_integer 4 buffer >>= λ value_oid. err internal
    read_fields (field n t fs) (child p ps) buffer = read_integer 4 buffer >>= λ value_oid.
        read_value t p value_oid.1 >>= λ c. read_fields fs ps c.1 >>= λ cs. ok (cell c.0 cs.0, cs.1)
