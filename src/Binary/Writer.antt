-- ===== src/Binary/Writer.antt =====
-- `PostgresBinaryWriter` of src/include/postgres_binary_writer.hpp: the values of a vector.
use duckdb_postgres.Common.{
  ℕ, suc, ◌+◌, ◌-◌, ◌/◌, ◌%◌, ◌^◌, Bool, true, false, List, [], ◌∷◌, ◌++◌, length, ltb, ◌==◌,
  if◌then◌else◌, Bytes, Option, none, some, Result, ok, err, ◌>>=◌, internal, not_implemented,
  invalid_input,
}
use duckdb_postgres.Common.Int.{ℤ, to_unsigned}
use duckdb_postgres.Types.Data.{
  LogicalType, TypeInfo, Fields, type_of, boolean, smallint, integer, bigint, float, double,
  varchar, blob, date, time, time_tz, timestamp, timestamp_tz, interval, uuid, decimal, enum,
  geometry, list_of, struct_of, no_fields, field,
}
use duckdb_postgres.Types.Logical.{behind_colon}
use duckdb_postgres.Types.Oids.{to_postgres_oid}
use duckdb_postgres.TextWriter.{has_null_byte}
use duckdb_postgres.TextWriter.Columns.{replaced}
use duckdb_postgres.Binary.Integers.{write_raw_integer}
use duckdb_postgres.Binary.Numeric.{write_decimal}
use duckdb_postgres.Binary.Dates.{write_date, write_time_tz}
use duckdb_postgres.Binary.Timestamps.{write_timestamp}
use duckdb_postgres.Binary.Cells.{
  Cell, null, present, Value, Cells, no_cells, cell, Library, bits_of, day_of, instant_of, time_of,
  interval_parts, halves_of, number_of, text_of, position_of, selected, entry, children_of, count,
  write_each,
}

-- `WriteNull`.
unfoldable pub write_null : Bytes
write_null = write_raw_integer 4 (2 ^ 32 - 1)

-- `WriteInteger<T>` with sizeof(T) = w.
unfoldable pub write_integer : ℕ → ℕ → Bytes
write_integer w v = write_raw_integer 4 w ++ write_raw_integer w v

-- `WriteInterval`.
unfoldable pub write_interval : ℕ × (ℕ × ℕ) → Bytes
write_interval value =
    write_raw_integer 4 16
    ++ (write_raw_integer 8 value.0
        ++ (write_raw_integer 4 value.1.0 ++ write_raw_integer 4 value.1.1))

-- An exclusive or with `uint64_t(1) << 63`.
abbrev pub flip_top : ℕ → ℕ
flip_top n = if ltb n (2 ^ 63) then n + 2 ^ 63 else n - 2 ^ 63

-- `WriteUUID`.
unfoldable pub write_uuid : ℕ × ℕ → Bytes
write_uuid value =
    write_raw_integer 4 16
    ++ (write_raw_integer 8 (flip_top value.0) ++ write_raw_integer 8 value.1)

-- `NumericCast<int32_t>` of a size.
abbrev pub numeric_cast : ℕ → Result ℕ
numeric_cast n = if ltb n (2 ^ 31) then ok n else err internal

-- `WriteRawBlob`.
unfoldable pub write_raw_blob : Bytes → Result Bytes
write_raw_blob value = numeric_cast (length value) >>= λ n. ok (write_raw_integer 4 n ++ value)

-- `WriteVarchar`: `replacement` is the state's replacement of NUL bytes, if it has one.
unfoldable pub write_varchar : Option Bytes → Bytes → Result Bytes
write_varchar none value = if has_null_byte value then err invalid_input else write_raw_blob value
write_varchar (some new) value =
    if has_null_byte value then write_raw_blob (replaced (some new) value) else write_raw_blob value

-- A 32-bit number as the machine keeps it, the least significant byte first.
abbrev pub little_endian : ℕ → Bytes
little_endian v = v % 256 ∷ v / 256 % 256 ∷ v / 256 ^ 2 % 256 ∷ v / 256 ^ 3 % 256 ∷ []

-- An or with 0x20, the highest byte of 0x20000000.
abbrev pub with_flag : ℕ → ℕ
with_flag b = if b / 32 % 2 == 1 then b else b + 32

-- The number behind the colon of the identifier of a coordinate reference system.
abbrev pub srid_of : Library → Option Bytes → Option ℤ
srid_of lib none = none
srid_of lib (some digits) = lib.stoi digits

abbrev pub geometry_srid : Library → Option Bytes → Option ℤ
geometry_srid lib none = none
geometry_srid lib (some id) = srid_of lib (behind_colon id)

-- `WriteGeometry`.
unfoldable pub write_ewkb : Library → ℤ → Bytes → Result Bytes
write_ewkb lib srid (order ∷ a ∷ b ∷ c ∷ d ∷ rest) =
    numeric_cast (length (order ∷ a ∷ b ∷ c ∷ d ∷ rest) + 4) >>= λ n. ok (
      write_raw_integer 4 n
      ++ (order ∷ a ∷ b ∷ c ∷ with_flag d ∷ little_endian (to_unsigned (2 ^ 32) srid) ++ rest))
write_ewkb lib srid value = lib.short_geometry value

unfoldable pub write_with_srid : Library → Option ℤ → Bytes → Result Bytes
write_with_srid lib none value = write_raw_blob value
write_with_srid lib (some srid) value = write_ewkb lib srid value

unfoldable pub write_geometry : Library → Option Bytes → Bytes → Result Bytes
write_geometry lib crs value = write_with_srid lib (geometry_srid lib crs) value

-- `WriteArray` for one entry of a list: `cells` writes the cells of its child vector, `lists` the entries of
-- the child vector where that is one of lists.
unfoldable pub write_entry :
    (Cell → Result Bytes) → (List ℕ → Cells → Result Bytes) → Bool → List ℕ → Cells → Result Bytes
write_entry cells lists is_list [] es = err internal
write_entry cells lists is_list (d ∷ dimensions) es =
    if count es == d
    then if is_list then lists dimensions es else write_each cells es
    else err invalid_input

abbrev pub is_list_type : LogicalType → Bool
is_list_type (type_of a (list_of t)) = true
is_list_type t = false

abbrev pub first_entry : Library → Cells → Option Cells
first_entry lib no_cells = none
first_entry lib (cell c cs) = some (entry lib c)

-- The dimensions below a list, from its first elements; `position` is the entry of the vector that the walk
-- stands at, if it is one.
unfoldable pub dimensions_below : Library → LogicalType → Option Cells → List ℕ
dimensions_below lib (type_of a (list_of t)) none =
    lib.unread (type_of a (list_of t)) % 2 ^ 32 ∷ dimensions_below lib t none
dimensions_below lib (type_of a (list_of t)) (some es) =
    count es % 2 ^ 32 ∷ dimensions_below lib t (first_entry lib es)
dimensions_below lib t es = []

unfoldable pub write_dimensions : List ℕ → Bytes
write_dimensions [] = []
write_dimensions (d ∷ ds) = write_raw_integer 4 d ++ (write_raw_integer 4 1 ++ write_dimensions ds)

-- The size, which the source fills in at the end, and what it is the size of.
abbrev pub sized : Bytes → Bytes
sized body = write_raw_integer 4 (length body % 2 ^ 32) ++ body

-- The case of a list in `WriteValue`.
unfoldable pub write_list : ℕ → List ℕ → Cells → Result Bytes → Result Bytes
write_list oid dimensions no_cells data_bytes = ok (
    write_raw_integer 4 12
    ++ (write_raw_integer 4 0 ++ (write_raw_integer 4 0 ++ write_raw_integer 4 oid)))
write_list oid dimensions (cell c cs) data_bytes = data_bytes >>= λ content. ok (
    sized (
      write_raw_integer 4 (length dimensions)
      ++ (write_raw_integer 4 1
          ++ (write_raw_integer 4 oid ++ (write_dimensions dimensions ++ content)))))

abbrev pub field_count : Fields → ℕ
field_count no_fields = 0
field_count (field n t fs) = suc (field_count fs)

module _ (lib : Library) (replacement : Option Bytes) where
  -- The cases of `WriteValue` that are no list and no struct.
  unfoldable pub write_scalar : TypeInfo → Value → Result Bytes
  write_scalar boolean v = ok (write_integer 1 (bits_of v))
  write_scalar smallint v = ok (write_integer 2 (bits_of v))
  write_scalar integer v = ok (write_integer 4 (bits_of v))
  write_scalar bigint v = ok (write_integer 8 (bits_of v))
  write_scalar float v = ok (write_integer 4 (bits_of v))
  write_scalar double v = ok (write_integer 8 (bits_of v))
  write_scalar (decimal w s) v =
      write_decimal lib.overflowed (lib.internal_type w s) s (number_of v)
  write_scalar date v = write_date lib.date_infinity lib.date_ninfinity (day_of v)
  write_scalar time v = ok (write_integer 8 (bits_of v))
  write_scalar time_tz v = ok (write_time_tz (time_of v).0 (time_of v).1)
  write_scalar timestamp v =
      write_timestamp lib.timestamp_infinity lib.timestamp_ninfinity lib.try_subtract lib.try_add
        lib.is_finite (instant_of v)
  write_scalar timestamp_tz v =
      write_timestamp lib.timestamp_infinity lib.timestamp_ninfinity lib.try_subtract lib.try_add
        lib.is_finite (instant_of v)
  write_scalar interval v = ok (write_interval (interval_parts v))
  write_scalar uuid v = ok (write_uuid (halves_of v))
  write_scalar varchar v = write_varchar replacement (text_of v)
  write_scalar blob v = write_raw_blob (text_of v)
  write_scalar (geometry crs) v = write_geometry lib crs (text_of v)
  write_scalar (enum names) v = write_varchar replacement (lib.get_string names (position_of v))
  write_scalar i v = err not_implemented

  unfoldable mutual
    -- `WriteValue`.
    pub write_value : LogicalType → Cell → Result Bytes
    write_value (type_of a i) null = ok write_null
    write_value (type_of a i) (present v) = write_present i v

    pub write_present : TypeInfo → Value → Result Bytes
    write_present (list_of t) v = to_postgres_oid t >>= λ oid.
        write_list oid
          (count (selected lib v) % 2 ^ 32
            ∷ dimensions_below lib t (first_entry lib (selected lib v)))
          (selected lib v)
          (write_entry (λ c. write_value t c) (λ ds es. write_array t ds es) (is_list_type t)
            (count (selected lib v) % 2 ^ 32
              ∷ dimensions_below lib t (first_entry lib (selected lib v)))
            (selected lib v))
    write_present (struct_of fs) v = write_fields fs (children_of v) >>= λ body.
        ok (sized (write_raw_integer 4 (field_count fs) ++ body))
    write_present i v = write_scalar i v

    -- `WriteArray`, for the entries of a vector of lists.
    pub write_array : LogicalType → List ℕ → Cells → Result Bytes
    write_array (type_of a (list_of t)) dimensions es =
        write_each
          (λ c.
            write_entry (λ c. write_value t c) (λ ds es. write_array t ds es) (is_list_type t)
              dimensions (entry lib c))
          es
    write_array t dimensions es = err internal

    -- The children of a struct.
    pub write_fields : Fields → Cells → Result Bytes
    write_fields no_fields vs = ok []
    write_fields (field n t fs) no_cells = err internal
    write_fields (field n t fs) (cell c cs) = to_postgres_oid t >>= λ oid.
        write_value t c >>= λ written.
        write_fields fs cs >>= λ rest. ok (write_raw_integer 4 oid ++ (written ++ rest))
