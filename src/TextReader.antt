-- ===== src/TextReader.antt =====
-- src/postgres_text_reader.cpp: the reader of the text protocol.
pub mod Nested
pub mod Parsers
pub mod Convert
