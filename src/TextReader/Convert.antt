-- ===== src/TextReader/Convert.antt =====
-- src/postgres_text_reader.cpp: `ConvertList`, `ConvertStruct`, `ConvertCTID`, `ConvertBlob` and
-- `ConvertGeometry`, over the rows of a text column. A row that is no valid row is `none`.
use duckdb_postgres.Common.{
  ℕ, suc, ◌+◌, ◌-◌, ◌*◌, ◌%◌, ◌^◌, Bool, true, false, ◌&&◌, List, [], ◌∷◌, Option, none, some, ◌==◌,
  ltb, if◌then◌else◌, Bytes, length, Result, ok, err, ◌>>=◌, invalid_input, conversion,
}
use duckdb_postgres.TextReader.Parsers.{
  ListParser, parse_list, store_cell, StructParser, parse_struct, parse_ctid,
}

-- A `list_entry_t`.
pub record ListEntry : Type 0 where
  pub offset : ℕ
  pub size : ℕ

-- The loop of `ConvertList`: the entries, NULL for a NULL row, and the parser, whose vector holds the
-- elements of all rows.
unfoldable pub convert_list_rows :
    ListParser → List (Option Bytes) → Result (List (Option ListEntry) × ListParser)
convert_list_rows p [] = ok ([], p)
convert_list_rows p (none ∷ rows) = do (es, q) ← convert_list_rows p rows; ok (none ∷ es, q)
convert_list_rows p (some str ∷ rows) = do
  q ← parse_list p str
  (es, r) ← convert_list_rows q rows
  ok (some (record { offset = p.size; size = q.size - p.size }) ∷ es, r)

-- `FlatVector::SetNull(struct_parser.data.data[c], i, true)` for every column.
unfoldable pub set_null_row : StructParser → ℕ → StructParser
set_null_row p i = record p {
  cells =
      λ c r. if ltb c p.column_count && r == i then store_cell (p.cells c r) none else p.cells c r;
}

-- The loop of `ConvertStruct` from row i on: the validity of the target's rows, and the parser.
unfoldable pub convert_struct_rows :
    StructParser → ℕ → List (Option Bytes) → Result (List Bool × StructParser)
convert_struct_rows p i [] = ok ([], p)
convert_struct_rows p i (none ∷ rows) = do
  (vs, q) ← convert_struct_rows (set_null_row p i) (suc i) rows
  ok (false ∷ vs, q)
convert_struct_rows p i (some str ∷ rows) = do
  q ← parse_struct p str
  (vs, r) ← convert_struct_rows q (suc i) rows
  ok (true ∷ vs, r)

-- `NumericCast<int64_t>((page_index << 16LL) + row_in_page)` of two `idx_t`, which wrap.
unfoldable pub ctid_row_id : ℕ → ℕ → Result ℕ
ctid_row_id page_index row_in_page =
    let sum = (page_index * 2 ^ 16 % 2 ^ 64 + row_in_page) % 2 ^ 64 in
    if ltb sum (2 ^ 63) then ok sum else err conversion

-- One row of `ConvertCTID`; `Finish` has made sure of the two values.
unfoldable pub convert_ctid : (Bytes → Result ℕ) → Bytes → Result ℕ
convert_ctid to_unsigned str = parse_ctid to_unsigned str >>= elim [
  | page_index ∷ row_in_page ∷ rest ↦ ctid_row_id page_index row_in_page
  | _ ↦ err invalid_input
]

-- A digit as an `int` modulo 256.
abbrev pub hex_value : Option ℕ → ℕ
hex_value none = 255
hex_value (some d) = d

-- The two digits of one byte, over DuckDB's table `Blob::HEX_MAP`, where `none` is -1. The shift and
-- the sum are those of `int`, and the cast to `data_t` keeps eight bits.
unfoldable pub hex_byte : (ℕ → Option ℕ) → ℕ → ℕ → ℕ
hex_byte hex_map a b = (hex_value (hex_map a) * 16 + hex_value (hex_map b)) % 256

-- The loop of `ConvertBlob` behind `\x`: `str[i + 1]` is read without a test, and the size is even.
unfoldable pub blob_bytes : (ℕ → Option ℕ) → Bytes → Bytes
blob_bytes hex_map [] = []
blob_bytes hex_map (a ∷ []) = []
blob_bytes hex_map (a ∷ b ∷ rest) = hex_byte hex_map a b ∷ blob_bytes hex_map rest

unfoldable pub convert_blob : (ℕ → Option ℕ) → Bytes → Result Bytes
convert_blob hex_map (a ∷ b ∷ rest) =
    if a == b'\\' && b == b'x'
    then (if length rest % 2 == 0 then ok (blob_bytes hex_map rest) else err invalid_input)
    else err invalid_input
convert_blob hex_map str = err invalid_input

-- The loop of `ConvertGeometry`, which refuses what is no digit.
unfoldable pub wkb_bytes : (ℕ → Option ℕ) → Bytes → Result Bytes
wkb_bytes hex_map [] = ok []
wkb_bytes hex_map (a ∷ []) = ok []
wkb_bytes hex_map (a ∷ b ∷ rest) = elim (hex_map a) [
  | none ↦ err invalid_input
  | some x ↦ elim (hex_map b) [
    | none ↦ err invalid_input
    | some y ↦ wkb_bytes hex_map rest >>= λ bytes. ok ((x * 16 + y) % 256 ∷ bytes)
  ]
]

-- `ConvertGeometry` at one row, over DuckDB's `Geometry::FromBinary`.
unfoldable pub convert_geometry : (ℕ → Option ℕ) → (Bytes → Option Bytes) → Bytes → Result Bytes
convert_geometry hex_map from_binary str =
    if length str % 2 == 0
    then (wkb_bytes hex_map str >>= λ wkb. elim (from_binary wkb) [
      | none ↦ err invalid_input
      | some geometry ↦ ok geometry
    ])
    else err invalid_input
