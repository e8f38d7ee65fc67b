-- ===== src/Types/Oids.antt =====
-- src/postgres_utils.cpp: the oid that the array writer gives the elements of a type.
use duckdb_postgres.Common.{
  ℕ, Bool, true, false, not, ◌&&◌, Option, none, some, Result, ok, err, ◌>>=◌, not_implemented,
  if◌then◌else◌,
}
use duckdb_postgres.Types.Data.{
  LogicalType, TypeInfo, Fields, type_of, boolean, smallint, integer, bigint, float, double,
  varchar, blob, date, time, time_tz, timestamp, timestamp_tz, interval, uuid, bit, list_of,
  struct_of, no_fields, field, PostgresType, Children, postgres_type, no_children, child, standard,
}
use duckdb_postgres.Types.Names.{
  bool_oid, int2_oid, int4_oid, int8_oid, float4_oid, float8_oid, varchar_oid, bytea_oid, date_oid,
  time_oid, timestamp_oid, interval_oid, timetz_oid, timestamptz_oid, bit_oid, uuid_oid,
}

-- The cases of the `switch` of `ToPostgresOid` that return a constant.
unfoldable pub scalar_oid : TypeInfo → Option ℕ
scalar_oid boolean = some bool_oid
scalar_oid smallint = some int2_oid
scalar_oid integer = some int4_oid
scalar_oid bigint = some int8_oid
scalar_oid float = some float4_oid
scalar_oid double = some float8_oid
scalar_oid varchar = some varchar_oid
scalar_oid blob = some bytea_oid
scalar_oid date = some date_oid
scalar_oid time = some time_oid
scalar_oid timestamp = some timestamp_oid
scalar_oid interval = some interval_oid
scalar_oid time_tz = some timetz_oid
scalar_oid timestamp_tz = some timestamptz_oid
scalar_oid bit = some bit_oid
scalar_oid uuid = some uuid_oid
scalar_oid _ = none

abbrev pub or_not_implemented : Option ℕ → Result ℕ
or_not_implemented (some oid) = ok oid
or_not_implemented none = err not_implemented

unfoldable pub to_postgres_oid : LogicalType → Result ℕ
to_postgres_oid (type_of a (list_of t)) = to_postgres_oid t
to_postgres_oid (type_of a i) = or_not_implemented (scalar_oid i)

unfoldable pub supported_postgres_oid : LogicalType → Bool
supported_postgres_oid (type_of a boolean) = true
supported_postgres_oid (type_of a smallint) = true
supported_postgres_oid (type_of a integer) = true
supported_postgres_oid (type_of a bigint) = true
supported_postgres_oid (type_of a float) = true
supported_postgres_oid (type_of a double) = true
supported_postgres_oid (type_of a varchar) = true
supported_postgres_oid (type_of a blob) = true
supported_postgres_oid (type_of a date) = true
supported_postgres_oid (type_of a time) = true
supported_postgres_oid (type_of a timestamp) = true
supported_postgres_oid (type_of a interval) = true
supported_postgres_oid (type_of a time_tz) = true
supported_postgres_oid (type_of a timestamp_tz) = true
supported_postgres_oid (type_of a bit) = true
supported_postgres_oid (type_of a uuid) = true
supported_postgres_oid _ = false

abbrev pub is_list : LogicalType → Bool
is_list (type_of a (list_of t)) = true
is_list _ = false

abbrev pub set_oid : ℕ → PostgresType → PostgresType
set_oid oid (postgres_type _ info children) = postgres_type oid info children

-- The oid of a list's elements, where they have one.
unfoldable pub element_oid : LogicalType → PostgresType → Result PostgresType
element_oid t child_pg_type =
    let with_oid = to_postgres_oid t >>= λ oid. ok (set_oid oid child_pg_type) in
    if not (is_list t) && supported_postgres_oid t then with_oid else ok child_pg_type

unfoldable mutual
  pub create_empty_postgres_type : LogicalType → Result PostgresType
  create_empty_postgres_type (type_of a (struct_of fields)) =
      create_empty_children fields >>= λ children. ok (postgres_type 0 standard children)
  create_empty_postgres_type (type_of a (list_of t)) =
      create_empty_postgres_type t >>= λ child_pg_type. element_oid t child_pg_type >>= λ with_oid.
      ok (postgres_type 0 standard (child with_oid no_children))
  create_empty_postgres_type (type_of a i) = ok (postgres_type 0 standard no_children)

  pub create_empty_children : Fields → Result Children
  create_empty_children no_fields = ok no_children
  create_empty_children (field name t fields) = create_empty_postgres_type t >>= λ c.
      create_empty_children fields >>= λ children. ok (child c children)
