-- ===== src/Binary/Chunks/RoundTrip.antt =====
-- What `CheckHeader` and `ReadChunk` of src/postgres_binary_parser.cpp make of the header, the rows and the footer
-- that src/include/postgres_binary_writer.hpp writes.
use duckdb_postgres.Common.{
  ℕ, suc, ◌+◌, ◌-◌, ◌%◌, ◌^◌, ◌<◌, ◌≤◌, Bool, true, false, List, [], ◌∷◌, ◌++◌, length, leb, Bytes,
  Option, none, some, Result, ok, ◌≡◌, refl, ap, sym, ◌∙◌, arith, append_assoc, length-append,
  bind-ok, ok-injective,
}
use duckdb_postgres.Common.Int.{lebℤ, pos, to_signed}
use duckdb_postgres.Types.Data.{LogicalType, PostgresType}
use duckdb_postgres.Binary.Integers.{
  big_endian, write_raw_integer, read_integer, read_integer-write_raw_integer,
  length-write_raw_integer,
}
use duckdb_postgres.Binary.Cells.{Cell, Library}
use duckdb_postgres.Binary.Writer.{write_value}
use duckdb_postgres.Binary.Values.{HasType, Matches}
use duckdb_postgres.Binary.Values.Scalars.{Laws}
use duckdb_postgres.Binary.Values.RoundTrip.{read_value-write_value}
use duckdb_postgres.Binary.Values.Arrays.{joined-ok}
use duckdb_postgres.Binary.Chunks.{
  write_header, write_footer, begin_row, check_header, Chunk, with_row, write_columns, write_row,
  write_rows, read_columns, read_chunk,
}

-- The header of a stream is accepted, and what follows it is left.
pub check_header-write_header :
    (rest : Bytes) → check_header (some (write_header ++ rest)) ≡ ok rest
unfolding check_header write_header write_raw_integer
check_header-write_header rest =
    let long : leb 19 (length (write_header ++ rest)) ≡ true = ground arith in rw long refl

abbrev pub Columns : Type 0
Columns = List (LogicalType × PostgresType)

abbrev pub types_of : Columns → List LogicalType
types_of [] = []
types_of (c ∷ cols) = c.0 ∷ types_of cols

-- A row of cells of the columns' types.
abbrev pub HasRow : Library → Columns → List Cell → Type 0
HasRow lib [] [] = Unit
HasRow lib (c ∷ cols) (x ∷ xs) = HasType lib c.0 x × (Matches c.0 c.1 × HasRow lib cols xs)
HasRow lib cols xs = ⊥

abbrev pub HasRows : Library → Columns → List (List Cell) → Type 0
HasRows lib cols [] = Unit
HasRows lib cols (row ∷ rows) = HasRow lib cols row × HasRows lib cols rows

abbrev pub with_rows : List (List Cell) → Result Chunk → Result Chunk
with_rows [] m = m
with_rows (row ∷ rows) m = with_row row (with_rows rows m)

with_rows-ok :
    (rows : List (List Cell)) (full : Bool) (buffer : Option Bytes)
    → with_rows rows (ok (full, ([], buffer))) ≡ ok (full, (rows, buffer))
with_rows-ok [] full buffer = refl
with_rows-ok (row ∷ rows) full buffer = ap (λ m. with_row row m) (with_rows-ok rows full buffer)

length-types_of : (cols : Columns) → length (types_of cols) ≡ length cols
length-types_of [] = refl
length-types_of (c ∷ cols) = ap (λ n. suc n) (length-types_of cols)

plus_zero : (n : ℕ) → 0 + n ≡ n
plus_zero n = omega arith

plus_suc : (m n : ℕ) → suc m + n ≡ suc (m + n)
plus_suc m n = omega arith

trailer : read_integer 2 (write_raw_integer 2 (2 ^ 16 - 1)) ≡ ok (2 ^ 16 - 1, [])
unfolding read_integer write_raw_integer big_endian
trailer = refl

module _ (lib : Library) (replacement : Option Bytes) (nan_as_null : Bool) (laws : Laws lib) where
  read_columns-write_columns :
      (cols : Columns) (cs : List Cell) (body rest : Bytes)
      → HasRow lib cols cs
      → write_columns lib replacement nan_as_null (types_of cols) cs ≡ ok body
      → length body < 2 ^ 31
      → read_columns lib replacement nan_as_null cols (body ++ rest) ≡ ok (cs, rest)
  unfolding write_columns read_columns
  read_columns-write_columns [] [] body rest h e small =
      ap (λ b. ok ([], b ++ rest)) (sym (ok-injective e))
  read_columns-write_columns [] (x ∷ xs) body rest h e small = absurd h
  read_columns-write_columns (c ∷ cols) [] body rest h e small = absurd h
  read_columns-write_columns (c ∷ cols) (x ∷ xs) body rest h e small =
      let (a, b, first, others, whole) =
        joined-ok (write_value lib replacement c.0 x)
          (write_columns lib replacement nan_as_null (types_of cols) xs) body e in
      let parts = length-append a b in
      let size = ap length whole in
      rw (← whole) (
        rw (append_assoc a b rest) (
          rw
            (read_value-write_value lib replacement nan_as_null laws c.0 c.1 x a (b ++ rest) h.0
              h.1.0 first (omega (arith, parts, size, small)))
            (rw
              (read_columns-write_columns cols xs b rest h.1.1 others
                (omega (arith, parts, size, small)))
              refl)))

  read_chunk-row :
      (room n : ℕ) (cols : Columns) (buffer behind rest : Bytes) (row : List Cell)
      → 0 < n
      → n < 2 ^ 15
      → 1 ≤ length buffer
      → read_integer 2 buffer ≡ ok (n, behind)
      → read_columns lib replacement nan_as_null cols behind ≡ ok (row, rest)
      → read_chunk lib replacement nan_as_null (suc room) cols (some buffer)
        ≡ with_row row (read_chunk lib replacement nan_as_null room cols (some rest))
  unfolding read_chunk
  read_chunk-row room n cols [] behind rest row some_column few long h k = absurd (omega arith)
  read_chunk-row room n cols (b ∷ r) behind rest row some_column few long h k =
      let positive : lebℤ (to_signed (2 ^ 15) n) (pos 0) ≡ false = ground arith in
      rw h (rw positive (rw k refl))

  read_chunk-trailer :
      (room : ℕ) (cols : Columns) (buffer behind : Bytes)
      → 1 ≤ length buffer
      → read_integer 2 buffer ≡ ok (2 ^ 16 - 1, behind)
      → read_chunk lib replacement nan_as_null (suc room) cols (some buffer)
        ≡ ok (false, ([], none))
  unfolding read_chunk
  read_chunk-trailer room cols [] behind long h = absurd (omega arith)
  read_chunk-trailer room cols (b ∷ r) behind long h = rw h refl

  read_chunk-write_row :
      (room : ℕ) (cols : Columns) (cs : List Cell) (written rest : Bytes)
      → 0 < length cols
      → length cols < 2 ^ 15
      → HasRow lib cols cs
      → write_row lib replacement nan_as_null (types_of cols) cs ≡ ok written
      → length written < 2 ^ 31
      → read_chunk lib replacement nan_as_null (suc room) cols (some (written ++ rest))
        ≡ with_row cs (read_chunk lib replacement nan_as_null room cols (some rest))
  unfolding write_row begin_row
  read_chunk-write_row room cols cs written rest some_column few h e small =
      let n = length (types_of cols) in
      let (body, contents, whole) =
        bind-ok (write_columns lib replacement nan_as_null (types_of cols) cs)
          (λ b. ok (write_raw_integer 2 (n % 2 ^ 16) ++ b)) written e in
      let whole_bytes = ok-injective whole in
      let same = length-types_of cols in
      let two = length-write_raw_integer 2 (n % 2 ^ 16) in
      let parts = length-append (write_raw_integer 2 (n % 2 ^ 16)) body in
      let all = length-append (write_raw_integer 2 (n % 2 ^ 16)) (body ++ rest) in
      let size = ap length whole_bytes in
      rw (← whole_bytes) (
        rw (append_assoc (write_raw_integer 2 (n % 2 ^ 16)) body rest) (
          read_chunk-row room (n % 2 ^ 16) cols (write_raw_integer 2 (n % 2 ^ 16) ++ (body ++ rest))
            (body ++ rest) rest cs (omega (arith, same, some_column, few))
            (omega (arith, same, few)) (omega (arith, all, two))
            (read_integer-write_raw_integer 2 (n % 2 ^ 16) (body ++ rest) (omega arith))
            (read_columns-write_columns cols cs body rest h contents
              (omega (arith, parts, size, small)))))

  rows_lem :
      (room : ℕ) (cols : Columns) (rows : List (List Cell)) (written rest : Bytes)
      → 0 < length cols
      → length cols < 2 ^ 15
      → HasRows lib cols rows
      → write_rows lib replacement nan_as_null (types_of cols) rows ≡ ok written
      → length written < 2 ^ 31
      → read_chunk lib replacement nan_as_null (length rows + room) cols (some (written ++ rest))
        ≡ with_rows rows (read_chunk lib replacement nan_as_null room cols (some rest))
  unfolding write_rows
  rows_lem room cols [] written rest some_column few h e small =
      ap (λ k. read_chunk lib replacement nan_as_null k cols (some (written ++ rest)))
        (plus_zero room)
      ∙ ap (λ w. read_chunk lib replacement nan_as_null room cols (some (w ++ rest)))
          (sym (ok-injective e))
  rows_lem room cols (row ∷ rows) written rest some_column few h e small =
      let (a, b, first, others, whole) =
        joined-ok (write_row lib replacement nan_as_null (types_of cols) row)
          (write_rows lib replacement nan_as_null (types_of cols) rows) written e in
      let parts = length-append a b in
      let size = ap length whole in
      ap (λ k. read_chunk lib replacement nan_as_null k cols (some (written ++ rest)))
        (plus_suc (length rows) room)
      ∙ (ap (λ w. read_chunk lib replacement nan_as_null (suc (length rows + room)) cols (some w))
            (ap (λ x. x ++ rest) (sym whole) ∙ append_assoc a b rest)
          ∙ (read_chunk-write_row (length rows + room) cols row a (b ++ rest) some_column few h.0
                first (omega (arith, parts, size, small))
              ∙ ap (λ m. with_row row m)
                  (rows_lem room cols rows b rest some_column few h.1 others
                    (omega (arith, parts, size, small)))))

-- Where the library keeps its laws and the server's types are those of the columns' types, with
-- no annotation: the rows that are written, each with a cell for each of 1 to 2^15 - 1 columns,
-- in fewer than 2^31 bytes, and the footer behind them are read by ReadChunk as these rows into
-- a chunk that has room for one more, which is then not full, and the buffer is cleared. Each
-- cell is one of its column's type as follows: numbers, times, intervals and uuids have the bits
-- of their fields; a decimal has a scale that the table of powers has, its value is one that its
-- storage type holds, and so is its fraction padded with zeros to whole groups of four digits; a
-- date is one that the server has, an infinity included; a timestamp is finite and in the range
-- of the server's; a text, or the label of an enumeration, has no NUL byte, and it and a blob
-- and a geometry have fewer than 2^31 bytes; a label is found again at its position; the type of
-- a geometry names no SRID, and the library reads its bytes as they are; a list within a list is
-- not NULL, and the levels of an array have fewer than 2^32 cells by their dimensions.
pub read_chunk-write_rows :
    (lib : Library) (replacement : Option Bytes) (nan_as_null : Bool) (laws : Laws lib) (room : ℕ)
    (cols : Columns) (rows : List (List Cell)) (written : Bytes)
    → 0 < length cols
    → length cols < 2 ^ 15
    → HasRows lib cols rows
    → write_rows lib replacement nan_as_null (types_of cols) rows ≡ ok written
    → length written < 2 ^ 31
    → read_chunk lib replacement nan_as_null
        (length rows + suc room)
        cols
        (some (written ++ write_footer))
      ≡ ok (false, (rows, none))
unfolding write_footer
read_chunk-write_rows lib replacement nan_as_null laws room cols rows written some_column few h e
      small =
    rows_lem lib replacement nan_as_null laws (suc room) cols rows written
      (write_raw_integer 2 (2 ^ 16 - 1)) some_column few h e small
    ∙ (ap (λ m. with_rows rows m)
          (read_chunk-trailer lib replacement nan_as_null laws room cols
            (write_raw_integer 2 (2 ^ 16 - 1)) []
            (omega (arith, length-write_raw_integer 2 (2 ^ 16 - 1))) trailer)
        ∙ with_rows-ok rows false none)
