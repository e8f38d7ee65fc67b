-- ===== src/Types/Examples.antt =====
-- The theorems on types at written types.
use duckdb_postgres.Common.{
  ℕ, ◌+◌, ◌*◌, ◌^◌, true, false, [], ◌++◌, none, codes, ok, ◌≡◌, refl, arith, decimal_text,
}
use duckdb_postgres.Common.Int.{pos, negsuc}
use duckdb_postgres.Types.Data.{
  LogicalType, list_of, struct_of, field, no_fields, tinyint, uuid, decimal, map_type, standard,
  PostgresType, PostgresTypeConfig,
}
use duckdb_postgres.Types.Names.{postgres_oid_to_name}
use duckdb_postgres.Types.Oids.{to_postgres_oid, supported_postgres_oid, create_empty_postgres_type}
use duckdb_postgres.Types.Logical.{
  plain, annotated, numeric_type, geometry_type, type_to_logical_type, type_to_string,
}
use duckdb_postgres.Types.Facts.{
  supported_postgres_oid-round_trip, create_empty_postgres_type_total,
}
use duckdb_postgres.Types.Modifiers.{numeric_type-typmod, geometry_type-srid}

abbrev default_config : PostgresTypeConfig
default_config = record {
  array_as_varchar = false;
  numeric_as_varchar = false;
  numeric_nan_as_null = true;
}

abbrev nested : LogicalType
nested = plain (
    struct_of (
      field (codes "a") (plain (list_of (plain map_type)))
        (field (codes "b") (plain tinyint) no_fields)))

create_empty_postgres_type_total_example :
    (p : PostgresType) × (create_empty_postgres_type nested ≡ ok p)
create_empty_postgres_type_total_example = create_empty_postgres_type_total nested

supported_postgres_oid-round_trip_example :
    (oid : ℕ) × (to_postgres_oid (plain uuid) ≡ ok oid)
    × (type_to_logical_type none default_config (record {
      type_modifier = negsuc 0;
      type_name = postgres_oid_to_name oid;
      type_schema = codes "pg_catalog";
      array_dimensions = 0;
    })
        ≡ ok (plain uuid, annotated standard))
supported_postgres_oid-round_trip_example =
    supported_postgres_oid-round_trip none default_config (negsuc 0) (codes "pg_catalog") uuid
      (unfold supported_postgres_oid in refl) (λ e. cc)

numeric_type-typmod_example :
    numeric_type default_config (pos (18 * 2 ^ 16 + 3 + 4))
    ≡ (plain (decimal 18 3), annotated standard)
numeric_type-typmod_example =
    numeric_type-typmod default_config 18 3 (omega arith) (omega arith) (omega arith)

geometry_type-srid_example :
    type_to_string (λ t. []) (geometry_type (pos (4326 * 2 ^ 8 + 4)))
    ≡ ok (codes "geometry(Geometry, " ++ decimal_text 4326 ++ codes ")")
geometry_type-srid_example =
    geometry_type-srid (λ t. []) 4326 4 (omega arith) (omega arith) (omega arith)
