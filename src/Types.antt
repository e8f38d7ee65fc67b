-- ===== src/Types.antt =====
-- src/postgres_utils.cpp: the types of the two systems and the maps between them.
pub mod Data
pub mod Names
pub mod Logical
pub mod Oids
pub mod Facts
pub mod Modifiers
mod Examples
