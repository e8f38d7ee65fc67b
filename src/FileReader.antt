-- ===== src/FileReader.antt =====
-- src/postgres_binary_file_reader.cpp: a binary COPY file read in buffers that end between rows.
pub mod Suffixes
pub mod Bounds
pub mod Rows
pub mod Outcomes
pub mod Delivery
pub mod WholeFile
mod Examples
use Prim.Native.Nat.{min}
use duckdb_postgres.Common.{
  ℕ, zero, suc, ◌+◌, ◌-◌, ◌^◌, leb, ltb, ◌==◌, Bool, true, false, not, ◌&&◌, ◌||◌, List, [], ◌∷◌,
  ◌++◌, Option, none, some, if◌then◌else◌, Bytes, Result, ok, err, ◌>>=◌, io_error, out_of_fuel,
  length, take, drop,
}
use duckdb_postgres.Binary.Integers.{big_endian}
use duckdb_postgres.Binary.Chunks.{check_header}

-- `value_len > 0` and `tuple_count <= 0`, on the patterns of an int32_t and an int16_t.
abbrev pub is_positive32 : ℕ → Bool
is_positive32 v = not (v == 0) && ltb v (2 ^ 31)

abbrev pub is_positive16 : ℕ → Bool
is_positive16 v = not (v == 0) && ltb v (2 ^ 15)

-- One value behind its length: `ptr` and `end` are positions in the buffer, as `ptr - buf` and `end - buf`.
unfoldable pub skip_value : (ℕ → Option ℕ) → ℕ → ℕ → ℕ → Option ℕ
skip_value next_column value_len end ptr =
    if is_positive32 value_len
    then (if ltb end (ptr + value_len) then none else next_column (ptr + value_len))
    else next_column ptr

-- The loop over the columns of one row: the position behind the row, `none` if it is cut off.
unfoldable pub row_end : Bytes → ℕ → ℕ → Option ℕ
row_end buf zero ptr = some ptr
row_end buf (suc columns) ptr =
    let value_len = big_endian 0 (take 4 (drop ptr buf)) in
    let value = skip_value (row_end buf columns) value_len (length buf) (ptr + 4) in
    if ltb (length buf) (ptr + 4) then none else value

-- The loop of `FindLastCompleteRow`, on fuel: each round takes two bytes at least.
unfoldable pub find_rows : ℕ → Bytes → ℕ → ℕ → Result ℕ
find_rows zero buf last_safe ptr = err out_of_fuel
find_rows (suc fuel) buf last_safe ptr =
    let tuple_count = big_endian 0 (take 2 (drop ptr buf)) in
    let row = elim (row_end buf tuple_count (ptr + 2)) as (λ o. Result ℕ) [
      | none ↦ ok last_safe
      | some behind ↦ find_rows fuel buf behind behind
    ] in
    if leb (ptr + 2) (length buf)
    then (if is_positive16 tuple_count then row else ok (ptr + 2))
    else ok last_safe

unfoldable pub find_last_complete_row : Bytes → Result ℕ
find_last_complete_row buf = find_rows (suc (length buf)) buf 0 0

-- `COPY_FILE_HEADER_SIZE`: the signature of 11 bytes and 8 bytes more.
abbrev pub copy_file_header_size : ℕ
copy_file_header_size = 11 + 8

-- The fields of `PostgresBinaryFileReader` that `FillBuffer` uses. `read_buffer` is the part of the
-- array that the last fill wrote, and `parser_buffer` what the parser was handed last.
pub record Reader : Type 0 where
  pub file : Bytes
  pub buffer_size : ℕ
  pub read_buffer : Bytes
  pub file_offset : ℕ
  pub leftover : ℕ
  pub leftover_offset : ℕ
  pub finished : Bool
  pub header_scanned : Bool
  pub parser_buffer : Bytes

-- How many bytes the parser is handed: `total` bytes are in the buffer, `valid` is what
-- `FindLastCompleteRow` gave behind the header.
unfoldable pub choose_valid : ℕ → ℕ → ℕ → Bool → Result ℕ
choose_valid valid scan_offset total at_end =
    if ltb 0 valid
    then ok (valid + scan_offset)
    else if at_end
    then ok total
    else if ltb 0 scan_offset
    then ok scan_offset
    else err io_error

-- `FillBuffer` from the `memmove` on.
unfoldable pub refill : Reader → Result (Reader × Bool)
refill r =
    let to_read = min (r.buffer_size - r.leftover) (length r.file - r.file_offset) in
    let moved = take r.leftover (drop r.leftover_offset r.read_buffer) in
    let buffer = moved ++ take to_read (drop r.file_offset r.file) in
    let file_offset = r.file_offset + to_read in
    let total = r.leftover + to_read in
    let scan_offset = if r.header_scanned then 0 else min copy_file_header_size total in
    if total == 0 then ok (record r { file_offset = file_offset; finished = true }, false) else (do
      found ← find_last_complete_row (drop scan_offset buffer)
      valid ← choose_valid found scan_offset total (leb (length r.file) file_offset)
      ok (
        record r {
          read_buffer = buffer;
          file_offset = file_offset;
          leftover = total - valid;
          leftover_offset = valid;
          header_scanned = true;
          parser_buffer = take valid buffer;
        },
        true,
      ))

unfoldable pub fill_buffer : Reader → Result (Reader × Bool)
fill_buffer r =
    if leb (length r.file) r.file_offset && r.leftover == 0
    then ok (record r { finished = true }, false)
    else refill r

-- The members that the constructor initializes, in front of its body.
abbrev pub new_reader : Bytes → ℕ → Reader
new_reader file buffer_size = record {
  file = file;
  buffer_size = buffer_size;
  read_buffer = [];
  file_offset = 0;
  leftover = 0;
  leftover_offset = 0;
  finished = false;
  header_scanned = false;
  parser_buffer = [];
}

-- `CheckHeader` on what the first fill handed over; `parser_buffer` is then what the parser has still to read.
unfoldable pub read_header : Reader × Bool → Result Reader
read_header (r, false) = err io_error
read_header (r, true) =
    check_header (some r.parser_buffer) >>= λ rows. ok (record r { parser_buffer = rows })

-- The constructor.
unfoldable pub open_reader : Bytes → ℕ → Result Reader
open_reader file buffer_size =
    let opened = fill_buffer (new_reader file buffer_size) >>= λ t. read_header t in
    if length file == 0 then err io_error else opened

-- The buffers that `FillBuffer` hands over, call by call until it returns false, one behind the other.
unfoldable pub deliver : ℕ → Reader → Result Bytes
deliver zero r = err out_of_fuel
deliver (suc fuel) r = fill_buffer r >>= λ t. elim t.1 [
  | false ↦ ok []
  | true ↦ deliver fuel t.0 >>= λ more. ok (t.0.parser_buffer ++ more)
]

-- What the constructor leaves to the parser, and the buffers of all the fills behind it.
unfoldable pub deliver_file : ℕ → Bytes → ℕ → Result Bytes
deliver_file fuel file buffer_size =
    open_reader file buffer_size >>= λ r. deliver fuel r >>= λ more. ok (r.parser_buffer ++ more)
