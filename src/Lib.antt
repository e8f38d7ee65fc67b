-- ===== src/Lib.antt =====
-- Verification library of the Postgres extension for DuckDB.
--
-- The extension lets DuckDB read and write tables of a Postgres server. A scan asks the server for
-- rows, in the binary COPY format or as a text result, and turns them into vectors; an insert or a
-- COPY turns vectors into rows of one of the two formats. A transaction of DuckDB owns one
-- connection and opens a transaction of the server on it when the first statement needs one. The
-- types of columns are translated both ways.
--
-- The parts, and the files that model them:
--   TextReader        src/postgres_text_reader.cpp: `ParsePostgresNested` (Nested), the list, struct and ctid
--                     parsers that it drives (Parsers), and the conversions of whole columns (Convert).
--   CopyTo            src/postgres_copy_to.cpp: the quoting and the text of lists, structs and blobs.
--   TextFormat        the two above against each other: what is written is read back.
--   TextWriter        src/include/postgres_text_writer.hpp: rows in the text format of COPY, and the reading of
--                     the setting `pg_null_byte_replacement` in src/postgres_copy_to.cpp. The server's side of
--                     the format is written in Columns and Rows, after the server's manual; of its escapes it has those
--                     that are sent.
--   Hstore            src/postgres_hstore.cpp: the parser, the lookup and the text in JSON. Grammar has the
--                     server's printer of hstores, Json a reader of JSON strings.
--   Binary            src/include/postgres_binary_writer.hpp, src/include/postgres_binary_parser.hpp and
--                     src/postgres_binary_parser.cpp: integers in network byte order (Integers), dates and times with
--                     an offset (Dates), timestamps (Timestamps), decimals (Numeric), the cells of a vector (Cells), the
--                     writer and the parser of a value of any type (Writer, Parser), the two against each other
--                     (Values), and the header, the rows and the footer of a stream (Chunks), whose writer is that of
--                     src/postgres_binary_copy.cpp.
--   Catalog           src/storage/postgres_catalog_set.cpp: the entries of a set by name (Lookup, Recreated), and the signature
--                     that tells when they are loaded again (Signature).
--   Delete            src/storage/postgres_delete.cpp: the rows of a DELETE and the statements that are sent for
--                     them (Rows, Tids), with the text of a list of ctids (Ctids).
--   FileReader        src/postgres_binary_file_reader.cpp: the end of the last whole row in a buffer (Suffixes, Bounds, Rows), and
--                     the buffers that the parser is handed (Outcomes, Delivery, WholeFile).
--   Version           src/include/postgres_version.hpp and `ExtractPostgresVersion` of src/postgres_utils.cpp.
--   Types             src/postgres_utils.cpp: types and their names, oids and modifiers.
--   Scan              src/postgres_scanner.cpp: the decisions of a bind (Bind), the tasks of a parallel scan (Tasks),
--                     the query of a task (Query), and the connections of the threads (Connections).
--   Transaction       src/storage/postgres_transaction.cpp: the state of a transaction, what it sends, and the
--                     signatures of catalog sets that wait for its commit (Session).
--   Common            numbers, lists, results and decimal texts that the others share.
--
-- How code becomes definitions: a function of the source is a function of the same name; a position
-- in a text or a buffer is the rest from there, but in the search for the last row, where it is a
-- number; an object that is changed is a record that is passed on; an exception is `err`, with its
-- class and without its message. A `std::string` is the list of its bytes. Numbers of the machine
-- are natural numbers with the wrap-around written out; a signed number is an integer, or the
-- pattern of its two's complement where it is a field of a message. The lock of the global state of
-- a scan makes each call for a task one step, so the calls of several threads are one list of calls
-- in some order. The server is a parameter of the transaction: its answers, exceptions included, may
-- depend on all that it was sent. A cell of a vector is its value, and an entry of a list is the
-- list of the cells that it selects; the parser, which reads the cells of an array in one run, cuts
-- them into entries behind it. A double and a float are their patterns of bits. What `Values` relies
-- on of DuckDB are the laws of the record `Laws` in Values/Scalars.antt. `TryLoadEntries` asks the
-- server before it takes the lock, so the model has the set as other threads leave it in between as
-- an argument. The threads of a scan ask for a connection one after the other, under the lock.
--
-- Bounds and fuel: the parser of hstores has one round more than the text has bytes, as each round
-- takes a byte; the groups of a decimal have the room of the source's array, four times the size of
-- the type in bytes; the search for the last row has one round more than the buffer has bytes, as
-- each row has two bytes or more; the file reader has one fill more than the file has bytes, as each
-- fill hands over a byte or more; a decimal text has 20 digits, as many as a number of 64 bits;
-- `WriteChar` calls itself once, as a replacement has no NUL byte. The theorems show that this is
-- enough where the source can loop. Where the read from the file is given fewer bytes than it asks
-- for, the source throws; the model's file has the size that it says.
--
-- Parameters stand for code of other libraries: the table of hexadecimal digits,
-- `LogicalType::ToString`, the infinite dates and timestamps and the arithmetic that notes an
-- overflow, the positions of enumerations, the parser of geometries, the type that stores a decimal,
-- the writer of identifiers, the text of the pushed-down filters, the test whether an identifier
-- needs quotes, the connection pool, and the entries of the catalog for types of the server. A
-- parameter is also what C++ leaves undefined, so that nothing is said of it: an operation of a
-- decimal's type that overflows, a length below zero in a message, the entry of a NULL list. The
-- reading of a NUMERIC as a DOUBLE is arithmetic of floating-point numbers, and is a parameter too.
--
-- Not modelled: connections, secrets, tokens and the registration of functions, which call other
-- libraries; the operators for insert, update and merge; the queries that load schemas, tables,
-- types and indexes, and the statements that alter them; the loop of a scan over its chunks, that of
-- the file reader's `ReadChunk`, and `ReloadEntry` behind the search of an entry.
pub mod Common
pub mod TextReader
pub mod CopyTo
pub mod Hstore
pub mod Binary
pub mod Catalog
pub mod Delete
pub mod FileReader
pub mod TextFormat
pub mod Version
pub mod Types
pub mod Scan
pub mod Transaction
pub mod TextWriter
