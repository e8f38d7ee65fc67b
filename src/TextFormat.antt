-- ===== src/TextFormat.antt =====
-- The text format of lists and structs: what src/postgres_copy_to.cpp writes and what
-- src/postgres_text_reader.cpp reads back.
pub mod Scanning
pub mod Preserved
pub mod ListRoundTrip
pub mod StructRoundTrip
pub mod Columns
pub mod StructRows
mod Examples
