-- ===== src/Binary/Chunks.antt =====
-- A stream of binary COPY: the header, the rows and the footer that src/include/postgres_binary_writer.hpp and
-- src/postgres_binary_copy.cpp write, and `CheckHeader` and `ReadChunk` of src/postgres_binary_parser.cpp.
pub mod RoundTrip
use duckdb_postgres.Common.{
  ℕ, zero, suc, ◌+◌, ◌-◌, ◌%◌, ◌^◌, ◌<◌, ◌≤◌, ◌==◌, Bool, true, false, List, [], ◌∷◌, ◌++◌, length,
  take, drop, leb, get_elem?, if◌then◌else◌, Bytes, Option, none, some, Result, ok, err, ◌>>=◌,
  io_error, internal, ◌≡◌, refl, ap, sym, ◌∙◌, arith, append_assoc, length-append, bind-ok,
  ok-injective, take_exact, drop_exact, equal,
}
use duckdb_postgres.Common.Int.{lebℤ, pos, to_signed}
use duckdb_postgres.Types.Data.{
  LogicalType, type_of, bigint, PostgresType, postgres_type, no_children, ctid,
}
use duckdb_postgres.Binary.Integers.{
  write_raw_integer, read_integer, read_integer-write_raw_integer, length-write_raw_integer,
}
use duckdb_postgres.Binary.Cells.{Cell, Library}
use duckdb_postgres.Binary.Writer.{write_value}
use duckdb_postgres.Binary.Parser.{read_value}
use duckdb_postgres.Binary.Values.{HasType, Matches}
use duckdb_postgres.Binary.Values.Scalars.{Laws}
use duckdb_postgres.Binary.Values.RoundTrip.{read_value-write_value}

-- `COPY_HEADER`: "PGCOPY", a newline, 0xFF, a carriage return, a newline and a NUL.
abbrev pub copy_header : Bytes
copy_header = b'P' ∷ b'G' ∷ b'C' ∷ b'O' ∷ b'P' ∷ b'Y' ∷ 10 ∷ 255 ∷ 13 ∷ 10 ∷ 0 ∷ []

-- `WriteHeader`.
unfoldable pub write_header : Bytes
write_header = copy_header ++ (write_raw_integer 4 0 ++ write_raw_integer 4 0)

-- `WriteFooter`.
unfoldable pub write_footer : Bytes
write_footer = write_raw_integer 2 (2 ^ 16 - 1)

-- `BeginRow`.
unfoldable pub begin_row : ℕ → Bytes
begin_row column_count = write_raw_integer 2 (column_count % 2 ^ 16)

-- `CheckHeader`: the buffer behind the header.
unfoldable pub check_header : Option Bytes → Result Bytes
check_header none = err io_error
check_header (some buffer) =
    if leb 19 (length buffer)
    then if equal (take 11 buffer) copy_header then ok (drop 19 buffer) else err io_error
    else err io_error

-- `Ready`.
abbrev pub ready : Option Bytes → Bool
ready none = false
ready (some []) = false
ready (some (b ∷ r)) = true

-- A column of a scan: its types, or those of a row's id.
unfoldable pub column_types :
    List LogicalType → List PostgresType → Option ℕ → Result (LogicalType × PostgresType)
column_types types postgres_types none = ok (type_of none bigint, postgres_type 0 ctid no_children)
column_types types postgres_types (some k) = elim (get_elem? types k) [
  | none ↦ err internal
  | some t ↦ elim (get_elem? postgres_types k) [ none ↦ err internal | some p ↦ ok (t, p) ]
]

abbrev pub Chunk : Type 0
Chunk = Bool × (List (List Cell) × Option Bytes)

abbrev pub with_row : List Cell → Result Chunk → Result Chunk
with_row row m = m >>= λ p. ok (p.0, (row ∷ p.1.0, p.1.1))

module _ (lib : Library) (replacement : Option Bytes) (nan_as_null : Bool) where
  -- The loop over the columns of a row, and the one over the rows of a chunk.
  unfoldable pub write_columns : List LogicalType → List Cell → Result Bytes
  write_columns [] cs = ok []
  write_columns (t ∷ ts) [] = err internal
  write_columns (t ∷ ts) (c ∷ cs) =
      write_value lib replacement t c >>= λ a. write_columns ts cs >>= λ b. ok (a ++ b)

  unfoldable pub write_row : List LogicalType → List Cell → Result Bytes
  write_row ts cs = write_columns ts cs >>= λ b. ok (begin_row (length ts) ++ b)

  unfoldable pub write_rows : List LogicalType → List (List Cell) → Result Bytes
  write_rows ts [] = ok []
  write_rows ts (row ∷ rows) = write_row ts row >>= λ a. write_rows ts rows >>= λ b. ok (a ++ b)

  unfoldable pub read_columns :
      List (LogicalType × PostgresType) → Bytes → Result (List Cell × Bytes)
  read_columns [] buffer = ok ([], buffer)
  read_columns (t ∷ ts) buffer = read_value lib nan_as_null t.0 t.1 buffer >>= λ c.
      read_columns ts c.1 >>= λ cs. ok (c.0 ∷ cs.0, cs.1)

  -- `ReadChunk`, with room for `room` rows: whether the chunk is full, the rows, and the buffer, which the
  -- trailer clears. Behind the trailer the loop finds nothing ready.
  unfoldable pub read_chunk : ℕ → List (LogicalType × PostgresType) → Option Bytes → Result Chunk
  read_chunk zero cols buffer = ok (true, ([], buffer))
  read_chunk (suc room) cols none = ok (false, ([], none))
  read_chunk (suc room) cols (some []) = ok (false, ([], some []))
  read_chunk (suc room) cols (some (b ∷ r)) = read_integer 2 (b ∷ r) >>= λ tuple_count.
      if lebℤ (to_signed (2 ^ 15) tuple_count.0) (pos 0)
      then ok (false, ([], none))
      else (read_columns cols tuple_count.1 >>= λ row.
          with_row row.0 (read_chunk room cols (some row.1)))
