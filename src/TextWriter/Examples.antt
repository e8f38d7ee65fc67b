-- ===== src/TextWriter/Examples.antt =====
-- The theorems on the text writer at a row with a NUL byte, a NULL and bytes that are escaped.
use duckdb_postgres.Common.{
  List, [], ◌∷◌, ◌++◌, Option, none, some, Bytes, codes, ok, ◌≡◌, refl, map, length,
}
use duckdb_postgres.TextWriter.{write_row}
use duckdb_postgres.TextWriter.Rows.{read_row, stored, write_row-round_trip}

abbrev three_columns : List (Option Bytes)
three_columns = some (97 ∷ 0 ∷ 9 ∷ []) ∷ none ∷ some (8 ∷ []) ∷ []

write_row-round_trip_example :
    (text : Bytes) × (write_row (some (codes "?")) three_columns ≡ ok text)
    × (read_row (length three_columns) (text ++ codes "b")
        ≡ some (map (stored (some (codes "?"))) three_columns, codes "b"))
write_row-round_trip_example =
    write_row-round_trip (some (codes "?")) three_columns (codes "b") (refl, (tt, (refl, tt)))
