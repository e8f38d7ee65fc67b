-- ===== src/Binary/Examples.antt =====
-- The theorems on binary values at written values.
use duckdb_postgres.Binary.Timestamps.{
  is_int64, write_timestamp, read_timestamp, read_timestamp-write_timestamp,
}
use duckdb_postgres.Binary.Dates.{eqℤ}
use duckdb_postgres.Common.Int.{◌+ℤ◌, ◌-ℤ◌}
use duckdb_postgres.Types.Data.{
  LogicalType, type_of, integer, list_of, PostgresType, postgres_type, standard, child, no_children,
}
use duckdb_postgres.Binary.Numeric.{
  int16, int32, int64, half, correction, fractional_ndigits, write_decimal, read_decimal, ordinary,
}
use duckdb_postgres.Binary.Numeric.RoundTrip.{read_decimal-write_decimal}
use duckdb_postgres.Binary.Cells.{
  write_each, Cell, null, present, bits, list_value, no_cells, cell, Library,
}
use duckdb_postgres.Binary.Writer.{
  write_value, write_scalar, write_entry, write_list, write_dimensions, write_integer, write_null,
  dimensions_below,
}
use duckdb_postgres.Binary.Parser.{read_value}
use duckdb_postgres.Binary.Values.Scalars.{Laws}
use duckdb_postgres.Binary.Values.RoundTrip.{read_value-write_value}
use duckdb_postgres.Binary.Chunks.{
  write_row, write_columns, begin_row, write_rows, write_footer, read_chunk,
}
use duckdb_postgres.Binary.Chunks.RoundTrip.{types_of, read_chunk-write_rows}
use duckdb_postgres.Types.Oids.{to_postgres_oid, scalar_oid}
use duckdb_postgres.Binary.Values.{HasType}
use duckdb_postgres.Common.{ℕ, suc, ◌+◌, ltb, ◌≤◌, ◌<◌, ◌^◌, length, List, internal, io_error}
use duckdb_postgres.Common.{Option, some, none, Bool, true, false, not, ◌&&◌, if◌then◌else◌}
use duckdb_postgres.Common.{[], ◌∷◌, ◌++◌, Bytes, ok, err, ◌≡◌, refl, arith}
use duckdb_postgres.Common.Int.{ℤ, pos, negsuc}
use duckdb_postgres.Binary.Integers.{write_raw_integer}
use duckdb_postgres.Binary.Dates.{behind_length, write_date, read_date, read_date-write_date}

-- The days that DuckDB takes for the two infinities.
abbrev date_infinity : ℤ
date_infinity = pos 2147483647

abbrev date_ninfinity : ℤ
date_ninfinity = negsuc 2147483646

read_date-write_date_example :
    (text : Bytes) × (write_date date_infinity date_ninfinity (negsuc 0) ≡ ok text)
    × (behind_length (read_date date_infinity date_ninfinity) (text ++ []) ≡ ok (4, (negsuc 0, [])))
read_date-write_date_example = read_date-write_date date_infinity date_ninfinity (negsuc 0) [] refl

-- The infinities of DuckDB, and its arithmetic on 64 bits that notes an overflow.
abbrev timestamp_infinity : ℤ
timestamp_infinity = pos 9223372036854775807

abbrev timestamp_ninfinity : ℤ
timestamp_ninfinity = negsuc 9223372036854775806

abbrev checked_subtract : ℤ → ℤ → Option ℤ
checked_subtract a b = if is_int64 (a -ℤ b) then some (a -ℤ b) else none

abbrev checked_add : ℤ → ℤ → Option ℤ
checked_add a b = if is_int64 (a +ℤ b) then some (a +ℤ b) else none

abbrev is_finite : ℤ → Bool
is_finite v = not (eqℤ v timestamp_infinity) && not (eqℤ v timestamp_ninfinity)

checked_subtract-value : (a b : ℤ) → is_int64 (a -ℤ b) ≡ true → checked_subtract a b ≡ some (a -ℤ b)
checked_subtract-value a b h = rw h refl

checked_add-value : (a b : ℤ) → is_int64 (a +ℤ b) ≡ true → checked_add a b ≡ some (a +ℤ b)
checked_add-value a b h = rw h refl

finite_values :
    (v : ℤ)
    → eqℤ v timestamp_infinity ≡ false
    → eqℤ v timestamp_ninfinity ≡ false
    → is_finite v ≡ true
finite_values v h k = rw h (rw k refl)

read_timestamp-write_timestamp_example :
    (text : Bytes) × (write_timestamp timestamp_infinity timestamp_ninfinity checked_subtract
        checked_add is_finite
        (negsuc 0)
      ≡ ok text)
    × (behind_length
          (read_timestamp timestamp_infinity timestamp_ninfinity checked_subtract checked_add
            is_finite)
          (text ++ [])
        ≡ ok (8, (negsuc 0, [])))
read_timestamp-write_timestamp_example =
    read_timestamp-write_timestamp timestamp_infinity timestamp_ninfinity checked_subtract
      checked_add is_finite checked_subtract-value checked_add-value finite_values (negsuc 0) []
      refl

-- DuckDB's functions, as far as the examples go.
abbrev library : Library
library = record {
  date_infinity = date_infinity;
  date_ninfinity = date_ninfinity;
  timestamp_infinity = timestamp_infinity;
  timestamp_ninfinity = timestamp_ninfinity;
  try_subtract = checked_subtract;
  try_add = checked_add;
  is_finite = is_finite;
  from_binary = λ s. some s;
  get_pos = λ names s. some 0;
  get_string = λ names k. [];
  internal_type = λ w s. if ltb w 5 then int16 else if ltb w 10 then int32 else int64;
  stoi = λ s. none;
  overflowed = λ n. err internal;
  negative_length = λ n s. err io_error;
  short_geometry = λ s. err internal;
  null_entry = no_cells;
  unread = λ t. 0;
  read_decimal_double = λ s. err internal;
}

library-Laws : Laws library
library-Laws = record {
  subtracts = checked_subtract-value;
  adds = checked_add-value;
  finite = finite_values;
}

-- 12.3456 as a DECIMAL(18, 4), behind it -7 as a DECIMAL(9, 2).
read_decimal-write_decimal_example :
    (text : Bytes) × (size : ℕ) × (write_decimal (λ n. err internal) int64 4 (pos 123456) ≡ ok text)
    × (8 ≤ size)
    × (size < 2 ^ 31)
    × (behind_length (read_decimal (λ n. err internal) int64) (text ++ [])
        ≡ ok (size, (record { value = pos 123456; kind = ordinary }, [])))
unfolding half correction fractional_ndigits
read_decimal-write_decimal_example =
    read_decimal-write_decimal (λ n. err internal) int64 4 (pos 123456) [] (omega arith)
      (omega arith) (omega arith)

-- The array {{1,NULL},{2,3}}.
abbrev nested_type : LogicalType
nested_type = type_of none (list_of (type_of none (list_of (type_of none integer))))

abbrev server_type : PostgresType
server_type = postgres_type 1007 standard (
    child (postgres_type 1007 standard (child (postgres_type 23 standard no_children) no_children))
      no_children)

abbrev pair_of : Cell → Cell → Cell
pair_of a b = present (list_value (cell a (cell b no_cells)))

abbrev matrix : Cell
matrix = pair_of (pair_of (present (bits 1)) null) (pair_of (present (bits 2)) (present (bits 3)))

matrix-HasType : HasType library nested_type matrix
unfolding dimensions_below
matrix-HasType = (
  ((omega arith, (tt, tt)), ((omega arith, (omega arith, tt)), tt)),
  (omega arith, (omega arith, tt)),
)

-- Its length, the header of two dimensions of two, and the elements behind their lengths.
abbrev matrix_bytes : Bytes
matrix_bytes =
    0 ∷ 0 ∷ 0 ∷ 56 ∷ 0 ∷ 0 ∷ 0 ∷ 2 ∷ 0 ∷ 0 ∷ 0 ∷ 1 ∷ 0 ∷ 0 ∷ 0 ∷ 23 ∷ 0 ∷ 0 ∷ 0 ∷ 2 ∷ 0 ∷ 0 ∷ 0 ∷ 1
    ∷ 0 ∷ 0 ∷ 0 ∷ 2 ∷ 0 ∷ 0 ∷ 0 ∷ 1 ∷ 0 ∷ 0 ∷ 0 ∷ 4 ∷ 0 ∷ 0 ∷ 0 ∷ 1 ∷ 255 ∷ 255 ∷ 255 ∷ 255 ∷ 0 ∷ 0
    ∷ 0 ∷ 4 ∷ 0 ∷ 0 ∷ 0 ∷ 2 ∷ 0 ∷ 0 ∷ 0 ∷ 4 ∷ 0 ∷ 0 ∷ 0 ∷ 3 ∷ []

matrix_written : write_value library none nested_type matrix ≡ ok matrix_bytes
unfolding write_value write_entry write_list write_dimensions dimensions_below to_postgres_oid
    scalar_oid write_scalar write_each write_integer write_null write_raw_integer
matrix_written = refl

read_value-write_value_example :
    read_value library false nested_type server_type (matrix_bytes ++ 9 ∷ []) ≡ ok (matrix, 9 ∷ [])
read_value-write_value_example =
    read_value-write_value library none false library-Laws nested_type server_type matrix
      matrix_bytes (9 ∷ []) matrix-HasType tt matrix_written (omega arith)

-- Two rows of one column, 7 and NULL.
abbrev columns : List (LogicalType × PostgresType)
columns = (type_of none integer, postgres_type 23 standard no_children) ∷ []

abbrev rows : List (List Cell)
rows = (present (bits 7) ∷ []) ∷ (null ∷ []) ∷ []

abbrev row_bytes : Bytes
row_bytes = 0 ∷ 1 ∷ 0 ∷ 0 ∷ 0 ∷ 4 ∷ 0 ∷ 0 ∷ 0 ∷ 7 ∷ 0 ∷ 1 ∷ 255 ∷ 255 ∷ 255 ∷ 255 ∷ []

rows_written : write_rows library none false (types_of columns) rows ≡ ok row_bytes
unfolding write_rows write_row write_columns begin_row write_value write_scalar write_integer
    write_null write_raw_integer
rows_written = refl

read_chunk-write_rows_example :
    read_chunk library none false (length rows + suc 0) columns (some (row_bytes ++ write_footer))
    ≡ ok (false, (rows, none))
read_chunk-write_rows_example =
    read_chunk-write_rows library none false library-Laws 0 columns rows row_bytes (omega arith)
      (omega arith) ((omega arith, (tt, tt)), ((tt, (tt, tt)), tt)) rows_written (omega arith)
