-- ===== src/FileReader/WholeFile.antt =====
-- `PostgresBinaryFileReader` from its constructor on hands the parser every byte behind the header.
use duckdb_postgres.Common.{ℕ, ◌≤◌, ◌<◌, Bool, ◌++◌, Bytes, length, take, ◌≡◌, refl, arith}
use duckdb_postgres.Binary.Chunks.{copy_header}
use duckdb_postgres.FileReader.{Reader, new_reader, copy_file_header_size}
use duckdb_postgres.FileReader.Delivery.{IsReader, pending, FillsPast}

-- The header of a file and what is behind it: the signature, and 8 bytes more.
abbrev pub IsHeader : Bytes → Type 0
IsHeader head = (take 11 head ≡ copy_header) × (length head ≡ copy_file_header_size)

module _ (head body : Bytes) (buffer_size : ℕ) (header : IsHeader head)
    (room : copy_file_header_size ≤ buffer_size) where
  abbrev start : Reader
  start = new_reader (head ++ body) buffer_size

  start-IsReader : IsReader start
  start-IsReader = record { covered = refl; bounded = omega arith; started = omega arith }

  some_room : 0 < buffer_size
  some_room = omega (arith, room)

  abbrev Opens : Reader × Bool → Type 0
  Opens t = FillsPast start start-IsReader some_room copy_file_header_size t

  -- What the constructor gives.
  abbrev Opened : Reader → Type 0
  Opened r = IsReader r × (r.buffer_size ≡ buffer_size) × (body ≡ r.parser_buffer ++ pending r)
