-- ===== src/Types/Data.antt =====
-- The types of DuckDB that src/postgres_utils.cpp tells apart, and the records of its header.
use duckdb_postgres.Common.{ℕ, Bool, List, Option, Bytes}
use duckdb_postgres.Common.Int.{ℤ}

mutual
  -- A `LogicalType`: its alias, if it has one, and what the type is.
  pub data LogicalType : Type 0 where
    type_of : Option Bytes → TypeInfo → LogicalType

  -- `other` is an id that src/postgres_utils.cpp does not name.
  pub data TypeInfo : Type 0 where
    boolean tinyint smallint integer bigint utinyint usmallint uinteger ubigint : TypeInfo
    hugeint float double varchar blob date time time_tz timestamp timestamp_sec : TypeInfo
    timestamp_ms timestamp_ns timestamp_tz interval uuid bit map_type union_type : TypeInfo
    decimal : ℕ → ℕ → TypeInfo
    enum : List Bytes → TypeInfo
    geometry : Option Bytes → TypeInfo
    list_of : LogicalType → TypeInfo
    struct_of : Fields → TypeInfo
    other : ℕ → TypeInfo

  pub data Fields : Type 0 where
    no_fields : Fields
    field : Bytes → LogicalType → Fields → Fields

-- `PostgresTypeAnnotation`.
pub data PostgresTypeAnnotation : Type 0 where
  standard cast_to_varchar numeric_as_double ctid jsonb fixed_length_char : PostgresTypeAnnotation
  geom_point geom_line geom_line_segment geom_box geom_path geom_polygon : PostgresTypeAnnotation
  geom_circle : PostgresTypeAnnotation

-- `PostgresType`, with the vector of its children as a type of its own.
mutual
  pub data PostgresType : Type 0 where
    postgres_type : ℕ → PostgresTypeAnnotation → Children → PostgresType

  pub data Children : Type 0 where
    no_children : Children
    child : PostgresType → Children → Children

-- `PostgresTypeData`.
pub record PostgresTypeData : Type 0 where
  pub type_modifier : ℤ
  pub type_name : Bytes
  pub type_schema : Bytes
  pub array_dimensions : ℕ

-- `PostgresTypeConfig`.
pub record PostgresTypeConfig : Type 0 where
  pub array_as_varchar : Bool
  pub numeric_as_varchar : Bool
  pub numeric_nan_as_null : Bool
