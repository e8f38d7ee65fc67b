-- ===== src/FileReader/Examples.antt =====
-- The theorems on the file reader at a row of two columns, and a file that is read in several buffers.
use duckdb_postgres.Common.{
  ℕ, ◌≤◌, List, [], ◌∷◌, ◌++◌, Option, none, some, Bytes, ok, ◌≡◌, refl, arith, length,
}
use duckdb_postgres.Binary.Integers.{write_raw_integer}
use duckdb_postgres.FileReader.{find_last_complete_row}
use duckdb_postgres.FileReader.Bounds.{find_last_complete_row-le}
use duckdb_postgres.FileReader.Rows.{rows_bytes, find_last_complete_row-rows}
use duckdb_postgres.Binary.Chunks.{copy_header}

abbrev one_row : List (Option Bytes)
one_row = some (7 ∷ 8 ∷ []) ∷ none ∷ []

find_last_complete_row-le_example :
    (n : ℕ) × (find_last_complete_row (0 ∷ 1 ∷ 0 ∷ 0 ∷ 0 ∷ 9 ∷ 7 ∷ []) ≡ ok n) × (n ≤ 7)
find_last_complete_row-le_example = find_last_complete_row-le (0 ∷ 1 ∷ 0 ∷ 0 ∷ 0 ∷ 9 ∷ 7 ∷ [])

find_last_complete_row-rows_example :
    find_last_complete_row (rows_bytes (one_row ∷ []) ++ [])
    ≡ ok (length (rows_bytes (one_row ∷ [])))
find_last_complete_row-rows_example =
    find_last_complete_row-rows (one_row ∷ []) []
      (((omega arith, (tt, tt)), omega arith, omega arith), tt)
      (
        one_row,
        0,
        ((omega arith, (tt, tt)), omega arith, omega arith),
        (unfold write_raw_integer in omega arith),
        refl,
      )

abbrev file_header : Bytes
file_header = copy_header ++ (0 ∷ 0 ∷ 0 ∷ 0 ∷ 0 ∷ 0 ∷ 0 ∷ 0 ∷ [])

-- A row of one byte, and the footer.
abbrev small_body : Bytes
small_body = 0 ∷ 1 ∷ 0 ∷ 0 ∷ 0 ∷ 1 ∷ 7 ∷ 255 ∷ 255 ∷ []
