-- ===== src/Types/Logical.antt =====
-- src/postgres_utils.cpp: from a column's type in the server's catalog to the type in DuckDB, and back to
-- the text that a CREATE TABLE sends.
use duckdb_postgres.Common.{
  ℕ, zero, suc, ◌+◌, ◌-◌, ◌/◌, ◌%◌, ◌^◌, Bool, true, false, ◌&&◌, ◌||◌, List, [], ◌∷◌, ◌++◌, Option,
  none, some, ◌==◌, leb, ltb, Bytes, codes, equal, Result, ok, err, ◌>>=◌, not_implemented,
  internal, if◌then◌else◌, is_digit, digits_value, decimal_text,
}
use duckdb_postgres.Common.Int.{ℤ, pos, negsuc, to_unsigned}
use duckdb_postgres.Types.Data.{
  LogicalType, TypeInfo, Fields, type_of, boolean, tinyint, smallint, integer, bigint, utinyint,
  usmallint, uinteger, ubigint, hugeint, float, double, varchar, blob, date, time, time_tz,
  timestamp, timestamp_sec, timestamp_ms, timestamp_ns, timestamp_tz, interval, uuid, bit, map_type,
  union_type, decimal, enum, geometry, list_of, struct_of, other, no_fields, field, PostgresType,
  postgres_type, no_children, child, PostgresTypeAnnotation, standard, cast_to_varchar,
  numeric_as_double, jsonb, fixed_length_char, geom_point, geom_line, geom_line_segment, geom_box,
  geom_path, geom_polygon, geom_circle, PostgresTypeData, PostgresTypeConfig,
}
use duckdb_postgres.Types.Names.{type_name_to_postgres_oid, lower, find_name}

abbrev pub plain : TypeInfo → LogicalType
plain i = type_of none i

abbrev pub annotated : PostgresTypeAnnotation → PostgresType
annotated info = postgres_type 0 info no_children

-- `(type_modifier - sizeof(int32_t))`: `sizeof` makes the difference an unsigned number of 64 bits.
abbrev pub typmod_bits : ℤ → ℕ
typmod_bits type_modifier = (to_unsigned (2 ^ 64) type_modifier + (2 ^ 64 - 4)) % 2 ^ 64

-- `(bits >> 16) & 0xffff`.
abbrev pub numeric_width : ℤ → ℕ
numeric_width type_modifier = typmod_bits type_modifier / 2 ^ 16 % 2 ^ 16

-- `((bits & 0x7ff) ^ 1024) - 1024`, unsigned too: below 1024 the `^` adds what the `-` takes away.
abbrev pub numeric_scale : ℤ → ℕ
numeric_scale type_modifier =
    let low = typmod_bits type_modifier % 2 ^ 11 in
    if ltb low 1024 then low else (low - 1024 + (2 ^ 64 - 1024)) % 2 ^ 64

abbrev pub is_minus_one : ℤ → Bool
is_minus_one (negsuc zero) = true
is_minus_one _ = false

-- The branch for `numeric`. The tests `width < 0` and `scale < 0` are false of unsigned numbers, and the
-- constructor of the type takes the scale as an 8-bit number.
unfoldable pub numeric_type : PostgresTypeConfig → ℤ → LogicalType × PostgresType
numeric_type config type_modifier =
    if is_minus_one type_modifier || ltb 38 (numeric_width type_modifier)
    then (if config.numeric_as_varchar
        then (plain varchar, annotated cast_to_varchar)
        else (plain double, annotated numeric_as_double))
    else (
      plain (decimal (numeric_width type_modifier) (numeric_scale type_modifier % 2 ^ 8)),
      annotated standard,
    )

-- The branch for `geometry`: the SRID of a positive type modifier is in the bits of 0x0FFFFF00.
unfoldable pub geometry_type : ℤ → LogicalType
geometry_type (negsuc n) = plain (geometry none)
geometry_type (pos n) =
    let srid = n % 2 ^ 32 / 2 ^ 8 % 2 ^ 20 in
    if ltb 0 n && ltb 0 srid
    then plain (geometry (some (codes "EPSG:" ++ decimal_text srid)))
    else plain (geometry none)

abbrev pub double_list : LogicalType
double_list = plain (list_of (plain double))

abbrev pub point_struct : LogicalType
point_struct =
    plain
      (struct_of (field (codes "x") (plain double) (field (codes "y") (plain double) no_fields)))

-- The chain of tests on the name, less the two branches that read the type modifier.
abbrev pub named_rows : List (Bytes × Option (LogicalType × PostgresType))
named_rows =
    (codes "bool", some (plain boolean, annotated standard))
    ∷ (codes "int2", some (plain smallint, annotated standard))
    ∷ (codes "int4", some (plain integer, annotated standard))
    ∷ (codes "int8", some (plain bigint, annotated standard))
    ∷ (codes "oid", some (plain uinteger, annotated standard))
    ∷ (codes "float4", some (plain float, annotated standard))
    ∷ (codes "float8", some (plain double, annotated standard))
    ∷ (codes "char", some (plain varchar, annotated fixed_length_char))
    ∷ (codes "bpchar", some (plain varchar, annotated fixed_length_char))
    ∷ (codes "varchar", some (plain varchar, annotated standard))
    ∷ (codes "text", some (plain varchar, annotated standard))
    ∷ (codes "json", some (plain varchar, annotated standard))
    ∷ (codes "jsonb", some (plain varchar, annotated jsonb))
    ∷ (codes "date", some (plain date, annotated standard))
    ∷ (codes "bytea", some (plain blob, annotated standard))
    ∷ (codes "time", some (plain time, annotated standard))
    ∷ (codes "timetz", some (plain time_tz, annotated standard))
    ∷ (codes "timestamp", some (plain timestamp, annotated standard))
    ∷ (codes "timestamptz", some (plain timestamp_tz, annotated standard))
    ∷ (codes "interval", some (plain interval, annotated standard))
    ∷ (codes "uuid", some (plain uuid, annotated standard))
    ∷ (codes "point", some (point_struct, annotated geom_point))
    ∷ (codes "line", some (double_list, annotated geom_line))
    ∷ (codes "lseg", some (double_list, annotated geom_line_segment))
    ∷ (codes "box", some (double_list, annotated geom_box))
    ∷ (codes "path", some (double_list, annotated geom_path))
    ∷ (codes "polygon", some (double_list, annotated geom_polygon))
    ∷ (codes "circle", some (double_list, annotated geom_circle))
    ∷ []

-- `RemoveAlias`: an alias that is not `json` is taken off a STRUCT and an ENUM.
unfoldable pub remove_alias : LogicalType → Result LogicalType
remove_alias (type_of none i) = ok (type_of none i)
remove_alias (type_of (some a) (struct_of fields)) =
    if equal (lower a) (codes "json")
    then ok (type_of (some a) (struct_of fields))
    else ok (plain (struct_of fields))
remove_alias (type_of (some a) (enum values)) =
    if equal (lower a) (codes "json")
    then ok (type_of (some a) (enum values))
    else ok (plain (enum values))
remove_alias (type_of (some a) i) =
    if equal (lower a) (codes "json") then ok (type_of (some a) i) else err internal

-- What the transaction and the schema are used for: none if one of the two is not given; an entry of
-- the catalog for a type, or none, by the schema's name and the type's.
abbrev pub CustomTypes : Type 0
CustomTypes = Option (Bytes → Bytes → Option (LogicalType × PostgresType))

abbrev pub is_empty : Bytes → Bool
is_empty [] = true
is_empty (c ∷ r) = false

abbrev pub entry_type : Option (LogicalType × PostgresType) → Result (LogicalType × PostgresType)
entry_type none = ok (plain varchar, annotated cast_to_varchar)
entry_type (some (user_type, pg_type)) = remove_alias user_type >>= λ t. ok (t, pg_type)

unfoldable pub custom_type : CustomTypes → Bytes → Bytes → Result (LogicalType × PostgresType)
custom_type none type_schema type_name = ok (plain varchar, annotated cast_to_varchar)
custom_type (some entries) type_schema type_name =
    if is_empty type_schema
    then ok (plain varchar, annotated cast_to_varchar)
    else entry_type (entries type_schema type_name)

unfoldable pub named_type :
    CustomTypes → PostgresTypeConfig → ℤ → Bytes → Bytes → Result (LogicalType × PostgresType)
named_type customs config type_modifier type_schema type_name =
    if equal type_name (codes "numeric")
    then ok (numeric_type config type_modifier)
    else if equal type_name (codes "geometry")
    then ok (geometry_type type_modifier, annotated standard)
    else elim (find_name type_name none named_rows) [
      | some found ↦ ok found
      | none ↦ custom_type customs type_schema type_name
    ]

-- The loop over the dimensions behind the first.
unfoldable pub nest : ℕ → LogicalType × PostgresType → LogicalType × PostgresType
nest zero t = t
nest (suc n) (child_type, child_pg_type) =
    nest n (plain (list_of child_type), postgres_type 0 standard (child child_pg_type no_children))

-- `child_pg_type.oid` from the element's name, if it has none.
abbrev pub fill_oid : Bytes → PostgresType → PostgresType
fill_oid type_name (postgres_type oid info children) =
    postgres_type (if oid == 0 then type_name_to_postgres_oid type_name else oid) info children

-- `TypeToLogicalType`; the arguments are those of the record `PostgresTypeData`. A name that starts with
-- `_` is an array's; its elements have the rest of the name, and no dimensions of their own.
unfoldable pub logical_type :
    CustomTypes → PostgresTypeConfig → ℤ → Bytes → ℕ → Bytes → Result (LogicalType × PostgresType)
logical_type customs config type_modifier type_schema dimensions [] =
    named_type customs config type_modifier type_schema []
logical_type customs config type_modifier type_schema dimensions (c ∷ rest) =
    let element = logical_type customs config type_modifier type_schema 0 rest in
    let array = element >>= λ t. ok (nest (dimensions - 1) (t.0, fill_oid rest t.1)) >>= λ n.
    ok (plain (list_of n.0), postgres_type 0 standard (child n.1 no_children)) in
    if c == b'_'
    then (if config.array_as_varchar then ok (plain varchar, annotated cast_to_varchar) else array)
    else named_type customs config type_modifier type_schema (c ∷ rest)

unfoldable pub type_to_logical_type :
    CustomTypes → PostgresTypeConfig → PostgresTypeData → Result (LogicalType × PostgresType)
type_to_logical_type customs config d =
    logical_type customs config d.type_modifier d.type_schema d.array_dimensions d.type_name

-- `id.find(':')` and what stands behind it.
abbrev pub behind_colon : Bytes → Option Bytes
behind_colon [] = none
behind_colon (c ∷ r) = if c == b':' then some r else behind_colon r

abbrev pub is_space : ℕ → Bool
is_space c = c == 32 || (leb 9 c && leb c 13)

abbrev pub leading_digits : Bytes → Bytes
leading_digits [] = []
leading_digits (c ∷ r) = let rest = leading_digits r in if is_digit c then c ∷ rest else []

-- `std::stoi` where its value is positive: none for an exception, and for a value that is not positive.
abbrev pub positive_number : Bytes → Option ℕ
positive_number [] = none
positive_number (d ∷ ds) =
    let n = digits_value 0 (d ∷ ds) in if ltb 0 n && ltb n (2 ^ 31) then some n else none

unfoldable pub stoi_positive : Bytes → Option ℕ
stoi_positive [] = none
stoi_positive (c ∷ r) =
    let skipped = stoi_positive r in
    if is_space c
    then skipped
    else if c == b'+'
    then positive_number (leading_digits r)
    else positive_number (leading_digits (c ∷ r))

abbrev pub srid_of : Option Bytes → Option ℕ
srid_of none = none
srid_of (some text) = stoi_positive text

-- The SRID of a GEOMETRY with a CRS of the form `...:number`.
unfoldable pub geometry_srid : LogicalType → Option ℕ
geometry_srid (type_of a (geometry (some id))) = srid_of (behind_colon id)
geometry_srid _ = none

-- `TypeToString`; `to_string` is `LogicalType::ToString`.
unfoldable pub type_to_string : (LogicalType → Bytes) → LogicalType → Result Bytes
type_to_string to_string (type_of (some a) i) = elim (geometry_srid (type_of (some a) i)) [
  | some srid ↦ ok (codes "geometry(Geometry, " ++ decimal_text srid ++ codes ")")
  | none ↦ ok a
]
type_to_string to_string (type_of none (geometry crs)) =
    elim (geometry_srid (plain (geometry crs))) [
      | some srid ↦ ok (codes "geometry(Geometry, " ++ decimal_text srid ++ codes ")")
      | none ↦ ok (codes "GEOMETRY")
    ]
type_to_string to_string (type_of none float) = ok (codes "REAL")
type_to_string to_string (type_of none double) = ok (codes "FLOAT")
type_to_string to_string (type_of none blob) = ok (codes "BYTEA")
type_to_string to_string (type_of none (list_of t)) =
    type_to_string to_string t >>= λ s. ok (s ++ codes "[]")
type_to_string to_string (type_of none (enum values)) = err not_implemented
type_to_string to_string (type_of none (struct_of _)) = err not_implemented
type_to_string to_string (type_of none map_type) = err not_implemented
type_to_string to_string (type_of none union_type) = err not_implemented
type_to_string to_string (type_of none i) = ok (to_string (plain i))

-- `ToPostgresType`.
unfoldable mutual
  pub to_postgres_type : LogicalType → LogicalType
  to_postgres_type (type_of a (list_of t)) = plain (list_of (to_postgres_type t))
  to_postgres_type (type_of a (struct_of fields)) =
      type_of a (struct_of (to_postgres_fields fields))
  to_postgres_type (type_of a timestamp_sec) = plain timestamp
  to_postgres_type (type_of a timestamp_ms) = plain timestamp
  to_postgres_type (type_of a timestamp_ns) = plain timestamp
  to_postgres_type (type_of a tinyint) = plain smallint
  to_postgres_type (type_of a utinyint) = plain bigint
  to_postgres_type (type_of a usmallint) = plain bigint
  to_postgres_type (type_of a uinteger) = plain bigint
  to_postgres_type (type_of a ubigint) = plain (decimal 20 0)
  to_postgres_type (type_of a hugeint) = plain double
  to_postgres_type (type_of a bit) = plain varchar
  to_postgres_type (type_of a map_type) = plain varchar
  to_postgres_type (type_of a union_type) = plain varchar
  to_postgres_type (type_of a (other n)) = plain varchar
  to_postgres_type (type_of a i) = type_of a i

  pub to_postgres_fields : Fields → Fields
  to_postgres_fields no_fields = no_fields
  to_postgres_fields (field name t fields) =
      field name (to_postgres_type t) (to_postgres_fields fields)
