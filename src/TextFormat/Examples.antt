-- ===== src/TextFormat/Examples.antt =====
-- The theorems on the text form of lists, structs and blobs, at written values.
use duckdb_postgres.Common.{
  ℕ, ◌+◌, ◌-◌, ◌<◌, Bool, true, false, List, [], ◌∷◌, ◌++◌, Option, none, some, Bytes, codes, ok,
  err, invalid_input, ◌≡◌, refl, arith, leb, ◌&&◌, if◌then◌else◌, get_elem?, equal, equal_iff, ◌≢◌,
  length, ◌==◌,
}
use duckdb_postgres.TextReader.Nested.{parse_nested, scan, byte}
use duckdb_postgres.TextReader.Parsers.{
  struct_add_string, ListParser, StructParser, new_list_parser, new_struct_parser, parse_list,
  parse_struct, struct_finish,
}
use duckdb_postgres.TextReader.Convert.{
  ListEntry, convert_list_rows, convert_struct_rows, convert_blob, set_null_row,
}
use duckdb_postgres.CopyTo.Quoting.{needs_quotes, cast_list, cast_struct, cast_blob, hex_digit}
use duckdb_postgres.TextFormat.ListRoundTrip.{push_all, parse_list-cast_list}
use duckdb_postgres.TextFormat.StructRoundTrip.{put_all, seen, parse_struct-cast_struct}
use duckdb_postgres.TextFormat.Columns.{
  texts_of, Selects, convert_list_rows-Selects, convert_blob-cast_blob,
}
use duckdb_postgres.TextFormat.StructRows.{
  present, parse_struct-cast_struct-present, parse_struct-null_refused,
  convert_struct_rows-unwritten_last,
}

-- A text that the comparison tells from another is another.
differ : (a b : Bytes) → equal a b ≡ false → a ≢ b
differ a b h e = cc (h, (equal_iff a b).1 e)

abbrev two_elements : List (Option Bytes)
two_elements = some (codes "a,\"b") ∷ none ∷ []

parse_list-cast_list_example :
    parse_list (new_list_parser 4) (cast_list false two_elements)
    ≡ ok (push_all (new_list_parser 4) two_elements)
parse_list-cast_list_example =
    parse_list-cast_list (new_list_parser 4) two_elements
      (differ (codes "a,\"b") (codes "NULL") refl, (tt, tt))

abbrev two_rows : List (Option (List (Option Bytes)))
two_rows = none ∷ some two_elements ∷ []

convert_list_rows-Selects_example :
    (es : List (Option ListEntry)) × (q : ListParser) × (convert_list_rows
        (new_list_parser 4)
        (texts_of two_rows)
      ≡ ok (es, q))
    × Selects q.vector es two_rows
    × ((later : List (Option Bytes)) × (q.vector ≡ [] ++ later))
convert_list_rows-Selects_example =
    convert_list_rows-Selects two_rows (new_list_parser 4)
      ((differ (codes "a,\"b") (codes "NULL") refl, (tt, tt)), tt) refl

-- `Blob::HEX_MAP` on the digits that a blob is written with.
abbrev hex_map : ℕ → Option ℕ
hex_map c =
    if leb 48 c && leb c 57
    then some (c - 48)
    else if leb 65 c && leb c 70
    then some (c - 55)
    else if leb 97 c && leb c 102
    then some (c - 87)
    else none

hex_map-hex_digit : (d : ℕ) → d < 16 → hex_map (hex_digit d) ≡ some d
hex_map-hex_digit d h = ground arith

convert_blob-cast_blob_example : convert_blob hex_map (cast_blob (0 ∷ 255 ∷ [])) ≡ ok (0 ∷ 255 ∷ [])
convert_blob-cast_blob_example =
    convert_blob-cast_blob hex_map hex_map-hex_digit (0 ∷ 255 ∷ []) (omega arith, (omega arith, tt))

abbrev two_texts : List Bytes
two_texts = codes "x" ∷ codes "y z" ∷ []

parse_struct-cast_struct-present_example :
    (q : StructParser) × (parse_struct (new_struct_parser 2) (cast_struct (present two_texts))
      ≡ ok q)
    × (q.row_offset ≡ 0 + 1)
    × (q.cells 1 0 ≡ record { valid = true; text = some (codes "y z") })
parse_struct-cast_struct-present_example =
    parse_struct-cast_struct-present (new_struct_parser 2) two_texts 1 (codes "y z")
      (differ (codes "x") (codes "NULL") refl, (differ (codes "y z") (codes "NULL") refl, tt)) refl
      refl

parse_struct-cast_struct_example :
    parse_struct (new_struct_parser 2) (cast_struct (some (codes "x") ∷ none ∷ [])) ≡ (
      if length (seen false (some (codes "x") ∷ none ∷ [])) == 2
      then ok (record (put_all (new_struct_parser 2) (seen false (some (codes "x") ∷ none ∷ []))) {
        row_offset = 0 + 1;
      })
      else err invalid_input)
parse_struct-cast_struct_example =
    parse_struct-cast_struct (new_struct_parser 2) (some (codes "x") ∷ none ∷ [])
      (differ (codes "x") (codes "NULL") refl, (tt, tt)) (unfold needs_quotes in omega arith)

parse_struct-null_refused_example :
    parse_struct (new_struct_parser 2) (cast_struct (some (codes "x") ∷ none ∷ []))
    ≡ err invalid_input
parse_struct-null_refused_example =
    parse_struct-null_refused (new_struct_parser 2) (some (codes "x") ∷ none ∷ [])
      (differ (codes "x") (codes "NULL") refl, (tt, tt)) (unfold needs_quotes in refl, (tt, tt))
      (omega arith)

abbrev written_rows : List (Option Bytes)
written_rows = none ∷ some (codes "(x)") ∷ []

abbrev first_row : StructParser
first_row = new_struct_parser 1

rows_read :
    (vs : List Bool) × (q : StructParser) × (convert_struct_rows first_row 0 written_rows
      ≡ ok (vs, q))
unfolding parse_nested scan byte struct_add_string
rows_read = unfold convert_struct_rows set_null_row parse_struct struct_finish in (_, _, refl)

convert_struct_rows-unwritten_last_example :
    (get_elem? rows_read.0 1 ≡ some true) × ((c : ℕ) → (rows_read.1.cells c 1).text ≡ none)
convert_struct_rows-unwritten_last_example =
    convert_struct_rows-unwritten_last 1 (none ∷ []) (codes "(x)") rows_read.0 rows_read.1
      (omega arith) rows_read.2
