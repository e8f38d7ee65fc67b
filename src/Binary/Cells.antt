-- ===== src/Binary/Cells.antt =====
-- The cells of a column, as src/include/postgres_binary_writer.hpp and src/postgres_binary_parser.cpp reach them
-- through DuckDB's vectors: a list's entry is the list of the cells that it selects. `Library` is what the
-- code takes from DuckDB and from the C++ library.
use duckdb_postgres.Common.{ℕ, zero, suc, Bool, [], Bytes, List, Option, Result, ok, ◌>>=◌, ◌++◌}
use duckdb_postgres.Common.Int.{ℤ, pos}
use duckdb_postgres.Types.Data.{LogicalType}
use duckdb_postgres.Binary.Numeric.{Storage}

-- A value of a vector. `bits` is the pattern of a Boolean, an integer, a floating-point number or a time;
-- an UUID is the patterns of its halves, an enumeration's value its position.
mutual
  pub data Cell : Type 0 where
    null : Cell
    present : Value → Cell

  pub data Value : Type 0 where
    bits : ℕ → Value
    day : ℤ → Value
    instant : ℤ → Value
    time_offset : ℕ → ℤ → Value
    interval_of : ℕ → ℕ → ℕ → Value
    halves : ℕ → ℕ → Value
    number : ℤ → Value
    text : Bytes → Value
    position : ℕ → Value
    list_value : Cells → Value
    struct_value : Cells → Value

  pub data Cells : Type 0 where
    no_cells : Cells
    cell : Cell → Cells → Cells

pub record Library : Type 0 where
  pub date_infinity : ℤ
  pub date_ninfinity : ℤ
  pub timestamp_infinity : ℤ
  pub timestamp_ninfinity : ℤ
  pub try_subtract : ℤ → ℤ → Option ℤ
  pub try_add : ℤ → ℤ → Option ℤ
  pub is_finite : ℤ → Bool
  -- `Geometry::FromBinary`.
  pub from_binary : Bytes → Option Bytes
  -- `EnumType::GetPos` and `EnumType::GetString`.
  pub get_pos : List Bytes → Bytes → Option ℕ
  pub get_string : List Bytes → ℕ → Bytes
  -- `LogicalType::InternalType` of a DECIMAL of a width and a scale.
  pub internal_type : ℕ → ℕ → Storage
  pub stoi : Bytes → Option ℤ
  -- What the code leaves undefined: an operation that overflows, a length below zero, a geometry of fewer
  -- than five bytes, the entry that a vector keeps under a NULL, and the length that it keeps behind its
  -- last entry.
  pub overflowed : ℕ → Result ℕ
  pub negative_length : ℤ → Bytes → Result (Bytes × Bytes)
  pub short_geometry : Bytes → Result Bytes
  pub null_entry : Cells
  pub unread : LogicalType → ℕ
  -- `ReadDecimal<double>`, whose arithmetic is that of floating-point numbers.
  pub read_decimal_double : Bytes → Result (ℕ × Bytes)

-- What `FlatVector::GetData` gives at a cell that is not NULL.
abbrev pub bits_of : Value → ℕ
bits_of (bits n) = n
bits_of v = 0

abbrev pub day_of : Value → ℤ
day_of (day d) = d
day_of v = pos 0

abbrev pub instant_of : Value → ℤ
instant_of (instant t) = t
instant_of v = pos 0

abbrev pub time_of : Value → ℕ × ℤ
time_of (time_offset micros offset) = (micros, offset)
time_of v = (0, pos 0)

abbrev pub interval_parts : Value → ℕ × (ℕ × ℕ)
interval_parts (interval_of micros days months) = (micros, (days, months))
interval_parts v = (0, (0, 0))

abbrev pub halves_of : Value → ℕ × ℕ
halves_of (halves upper lower) = (upper, lower)
halves_of v = (0, 0)

abbrev pub number_of : Value → ℤ
number_of (number n) = n
number_of v = pos 0

abbrev pub text_of : Value → Bytes
text_of (text s) = s
text_of v = []

abbrev pub position_of : Value → ℕ
position_of (position k) = k
position_of v = 0

-- The cells that the entry of a list selects.
abbrev pub selected : Library → Value → Cells
selected lib (list_value es) = es
selected lib v = lib.null_entry

abbrev pub entry : Library → Cell → Cells
entry lib null = lib.null_entry
entry lib (present v) = selected lib v

abbrev pub children_of : Value → Cells
children_of (struct_value vs) = vs
children_of v = no_cells

abbrev pub count : Cells → ℕ
count no_cells = 0
count (cell c cs) = suc (count cs)

infixr 60 ◌+++◌
abbrev pub ◌+++◌ : Cells → Cells → Cells
no_cells +++ ds = ds
cell c cs +++ ds = cell c (cs +++ ds)

abbrev pub first_cells : ℕ → Cells → Cells
first_cells zero cs = no_cells
first_cells (suc n) no_cells = no_cells
first_cells (suc n) (cell c cs) = cell c (first_cells n cs)

abbrev pub behind_cells : ℕ → Cells → Cells
behind_cells zero cs = cs
behind_cells (suc n) no_cells = no_cells
behind_cells (suc n) (cell c cs) = behind_cells n cs

-- A loop over the cells of a vector, or as long as a count.
unfoldable pub write_each : (Cell → Result Bytes) → Cells → Result Bytes
write_each write no_cells = ok []
write_each write (cell c cs) = write c >>= λ a. write_each write cs >>= λ b. ok (a ++ b)

unfoldable pub read_each : (Bytes → Result (Cell × Bytes)) → ℕ → Bytes → Result (Cells × Bytes)
read_each read zero buffer = ok (no_cells, buffer)
read_each read (suc n) buffer =
    read buffer >>= λ p. read_each read n p.1 >>= λ q. ok (cell p.0 q.0, q.1)
