-- ===== src/Binary.antt =====
-- The binary COPY protocol: src/include/postgres_binary_writer.hpp,
-- src/include/postgres_binary_parser.hpp and src/postgres_binary_parser.cpp.
pub mod Integers
pub mod Numeric
pub mod Cells
pub mod Writer
pub mod Parser
pub mod Values
pub mod Chunks
pub mod Dates
pub mod Timestamps
mod Examples
