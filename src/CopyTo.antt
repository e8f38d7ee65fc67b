-- ===== src/CopyTo.antt =====
-- src/postgres_copy_to.cpp: rows written to Postgres.
pub mod Quoting
