-- ===== src/TextReader/Parsers.antt =====
-- src/postgres_text_reader.cpp: `PostgresListParser`, `PostgresStructParser`, `PostgresCTIDParser`, and
-- the three instances of the scanner.
use duckdb_postgres.Common.{
  ℕ, ◌+◌, ◌*◌, Bool, true, false, not, ◌&&◌, List, [], ◌∷◌, ◌++◌, Option, none, some, ◌==◌, leb,
  if◌then◌else◌, Bytes, codes, equal, length, Result, ok, err, ◌>>=◌, invalid_input,
}
use duckdb_postgres.TextReader.Nested.{NestedParser, parse_nested}

-- `!quoted && str == "NULL"` is the NULL value, any other text is itself.
abbrev pub cell_of : Bytes → Bool → Option Bytes
cell_of str quoted = if not quoted && equal str (codes "NULL") then none else some str

-- `PostgresListParser`. The vector is the list of its first `size` entries.
pub record ListParser : Type 0 where
  pub capacity : ℕ
  pub size : ℕ
  pub vector : List (Option Bytes)

-- The constructor; `capacity` is DuckDB's STANDARD_VECTOR_SIZE.
abbrev pub new_list_parser : ℕ → ListParser
new_list_parser capacity = record { capacity = capacity; size = 0; vector = [] }

unfoldable pub list_add_string : ListParser → Bytes → Bool → Result (ListParser × Bool)
list_add_string p str quoted = ok (
  record {
    capacity = if leb p.capacity p.size then p.capacity * 2 else p.capacity;
    size = p.size + 1;
    vector = p.vector ++ cell_of str quoted ∷ [];
  },
  false,
)

abbrev pub list_ops : NestedParser ListParser
list_ops = record { initialize = λ p. p; add_string = list_add_string; finish = λ p. ok p }

unfoldable pub parse_list : ListParser → Bytes → Result ListParser
parse_list p = parse_nested list_ops p b'{' b'}'

-- A cell of a string vector: the validity bit, and the text if one was written.
pub record Cell : Type 0 where
  pub valid : Bool
  pub text : Option Bytes

abbrev pub new_cell : Cell
new_cell = record { valid = true; text = none }

-- `PostgresStructParser`. `cells c r` is row r of column c of the chunk `data`.
pub record StructParser : Type 0 where
  pub column_count : ℕ
  pub column_offset : ℕ
  pub row_offset : ℕ
  pub cells : ℕ → ℕ → Cell

abbrev pub new_struct_parser : ℕ → StructParser
new_struct_parser child_count = record {
  column_count = child_count;
  column_offset = 0;
  row_offset = 0;
  cells = λ c r. new_cell;
}

-- A write of one cell.
abbrev pub set_cell : (ℕ → ℕ → Cell) → ℕ → ℕ → Cell → ℕ → ℕ → Cell
set_cell cells c r x c' r' = if c == c' && r == r' then x else cells c' r'

-- `SetNull` clears the validity bit and keeps the data; the other branch writes the data and keeps
-- the validity bit.
abbrev pub store_cell : Cell → Option Bytes → Cell
store_cell x none = record x { valid = false }
store_cell x (some str) = record x { text = some str }

unfoldable pub struct_add_string : StructParser → Bytes → Bool → Result (StructParser × Bool)
struct_add_string p str quoted =
    if leb p.column_count p.column_offset
    then err invalid_input
    else ok (
      record p {
        cells =
            set_cell p.cells p.column_offset p.row_offset
              (store_cell (p.cells p.column_offset p.row_offset) (cell_of str quoted));
        column_offset = p.column_offset + 1;
      },
      quoted,
    )

unfoldable pub struct_finish : StructParser → Result StructParser
struct_finish p =
    if p.column_offset == p.column_count
    then ok (record p { row_offset = p.row_offset + 1 })
    else err invalid_input

abbrev pub struct_ops : NestedParser StructParser
struct_ops = record {
  initialize = λ p. record p { column_offset = 0 };
  add_string = struct_add_string;
  finish = struct_finish;
}

unfoldable pub parse_struct : StructParser → Bytes → Result StructParser
parse_struct p = parse_nested struct_ops p b'(' b')'

-- `PostgresCTIDParser`, over DuckDB's `StringUtil::ToUnsigned`.
module _ (to_unsigned : Bytes → Result ℕ) where
  unfoldable pub ctid_add_string : List ℕ → Bytes → Bool → Result (List ℕ × Bool)
  ctid_add_string values str quoted = do v ← to_unsigned str; ok (values ++ v ∷ [], quoted)

  unfoldable pub ctid_finish : List ℕ → Result (List ℕ)
  ctid_finish values = if length values == 2 then ok values else err invalid_input

  abbrev pub ctid_ops : NestedParser (List ℕ)
  ctid_ops = record {
    initialize = λ values. values;
    add_string = ctid_add_string;
    finish = ctid_finish;
  }

  unfoldable pub parse_ctid : Bytes → Result (List ℕ)
  parse_ctid = parse_nested ctid_ops [] b'(' b')'
