-- ===== src/Types/Names.antt =====
-- src/postgres_utils.cpp: the maps between the names of types and their oids. A chain of tests, and a
-- `switch`, is a table in the source's order.
use duckdb_postgres.Common.{
  ℕ, List, [], ◌∷◌, map, ◌==◌, ◌&&◌, leb, ◌+◌, if◌then◌else◌, Bytes, codes, equal,
}

-- src/include/postgres_type_oids.hpp.
abbrev pub bool_oid : ℕ
bool_oid = 16

abbrev pub bytea_oid : ℕ
bytea_oid = 17

abbrev pub char_oid : ℕ
char_oid = 18

abbrev pub int8_oid : ℕ
int8_oid = 20

abbrev pub int2_oid : ℕ
int2_oid = 21

abbrev pub int4_oid : ℕ
int4_oid = 23

abbrev pub text_oid : ℕ
text_oid = 25

abbrev pub json_oid : ℕ
json_oid = 114

abbrev pub jsonarray_oid : ℕ
jsonarray_oid = 199

abbrev pub float4_oid : ℕ
float4_oid = 700

abbrev pub float8_oid : ℕ
float8_oid = 701

abbrev pub boolarray_oid : ℕ
boolarray_oid = 1000

abbrev pub chararray_oid : ℕ
chararray_oid = 1002

abbrev pub int2array_oid : ℕ
int2array_oid = 1005

abbrev pub int4array_oid : ℕ
int4array_oid = 1007

abbrev pub textarray_oid : ℕ
textarray_oid = 1009

abbrev pub bpchararray_oid : ℕ
bpchararray_oid = 1014

abbrev pub varchararray_oid : ℕ
varchararray_oid = 1015

abbrev pub int8array_oid : ℕ
int8array_oid = 1016

abbrev pub float4array_oid : ℕ
float4array_oid = 1021

abbrev pub float8array_oid : ℕ
float8array_oid = 1022

abbrev pub bpchar_oid : ℕ
bpchar_oid = 1042

abbrev pub varchar_oid : ℕ
varchar_oid = 1043

abbrev pub date_oid : ℕ
date_oid = 1082

abbrev pub time_oid : ℕ
time_oid = 1083

abbrev pub timestamp_oid : ℕ
timestamp_oid = 1114

abbrev pub timestamparray_oid : ℕ
timestamparray_oid = 1115

abbrev pub datearray_oid : ℕ
datearray_oid = 1182

abbrev pub timearray_oid : ℕ
timearray_oid = 1183

abbrev pub timestamptz_oid : ℕ
timestamptz_oid = 1184

abbrev pub timestamptzarray_oid : ℕ
timestamptzarray_oid = 1185

abbrev pub interval_oid : ℕ
interval_oid = 1186

abbrev pub intervalarray_oid : ℕ
intervalarray_oid = 1187

abbrev pub numericarray_oid : ℕ
numericarray_oid = 1231

abbrev pub timetz_oid : ℕ
timetz_oid = 1266

abbrev pub timetzarray_oid : ℕ
timetzarray_oid = 1270

abbrev pub bit_oid : ℕ
bit_oid = 1560

abbrev pub bitarray_oid : ℕ
bitarray_oid = 1561

abbrev pub numeric_oid : ℕ
numeric_oid = 1700

abbrev pub uuid_oid : ℕ
uuid_oid = 2950

abbrev pub uuidarray_oid : ℕ
uuidarray_oid = 2951

abbrev pub jsonb_oid : ℕ
jsonb_oid = 3802

abbrev pub jsonbarray_oid : ℕ
jsonbarray_oid = 3807

-- The row of a table that a name, or an oid, is the key of.
abbrev pub find_name {ℓ} : {A : Type ℓ} → Bytes → A → List (Bytes × A) → A
find_name key missing [] = missing
find_name key missing ((k, a) ∷ rows) = if equal key k then a else find_name key missing rows

abbrev pub find_oid {ℓ} : {A : Type ℓ} → ℕ → A → List (ℕ × A) → A
find_oid key missing [] = missing
find_oid key missing ((k, a) ∷ rows) = if key == k then a else find_oid key missing rows

-- `StringUtil::Lower`.
abbrev pub lower : Bytes → Bytes
lower s = map (λ c. if leb b'A' c && leb c b'Z' then c + 32 else c) s

abbrev pub data_type_rows : List (Bytes × Bytes)
data_type_rows =
    (codes "boolean", codes "bool")
    ∷ (codes "smallint", codes "int2")
    ∷ (codes "integer", codes "int4")
    ∷ (codes "bigint", codes "int8")
    ∷ (codes "real", codes "float4")
    ∷ (codes "double precision", codes "float8")
    ∷ (codes "character varying", codes "varchar")
    ∷ (codes "character", codes "bpchar")
    ∷ (codes "\"char\"", codes "char")
    ∷ (codes "time without time zone", codes "time")
    ∷ (codes "time with time zone", codes "timetz")
    ∷ (codes "timestamp without time zone", codes "timestamp")
    ∷ (codes "timestamp with time zone", codes "timestamptz")
    ∷ (codes "bit varying", codes "varbit")
    ∷ []

unfoldable pub data_type_to_type_name : Bytes → Bytes
data_type_to_type_name data_type = find_name (lower data_type) data_type data_type_rows

abbrev pub type_name_rows : List (Bytes × ℕ)
type_name_rows =
    (codes "bool", bool_oid)
    ∷ (codes "int2", int2_oid)
    ∷ (codes "int4", int4_oid)
    ∷ (codes "int8", int8_oid)
    ∷ (codes "float4", float4_oid)
    ∷ (codes "float8", float8_oid)
    ∷ (codes "varchar", varchar_oid)
    ∷ (codes "text", text_oid)
    ∷ (codes "bytea", bytea_oid)
    ∷ (codes "date", date_oid)
    ∷ (codes "time", time_oid)
    ∷ (codes "timestamp", timestamp_oid)
    ∷ (codes "timestamptz", timestamptz_oid)
    ∷ (codes "interval", interval_oid)
    ∷ (codes "timetz", timetz_oid)
    ∷ (codes "bit", bit_oid)
    ∷ (codes "uuid", uuid_oid)
    ∷ []

unfoldable pub type_name_to_postgres_oid : Bytes → ℕ
type_name_to_postgres_oid type_name = find_name type_name 0 type_name_rows

abbrev pub oid_rows : List (ℕ × Bytes)
oid_rows =
    (bool_oid, codes "bool")
    ∷ (int2_oid, codes "int2")
    ∷ (int4_oid, codes "int4")
    ∷ (int8_oid, codes "int8")
    ∷ (float4_oid, codes "float4")
    ∷ (float8_oid, codes "float8")
    ∷ (char_oid, codes "char")
    ∷ (bpchar_oid, codes "char")
    ∷ (text_oid, codes "varchar")
    ∷ (varchar_oid, codes "varchar")
    ∷ (json_oid, codes "json")
    ∷ (bytea_oid, codes "bytea")
    ∷ (date_oid, codes "date")
    ∷ (time_oid, codes "time")
    ∷ (timestamp_oid, codes "timestamp")
    ∷ (interval_oid, codes "interval")
    ∷ (timetz_oid, codes "timetz")
    ∷ (timestamptz_oid, codes "timestamptz")
    ∷ (bit_oid, codes "bit")
    ∷ (uuid_oid, codes "uuid")
    ∷ (numeric_oid, codes "numeric")
    ∷ (jsonb_oid, codes "jsonb")
    ∷ (boolarray_oid, codes "_bool")
    ∷ (chararray_oid, codes "_char")
    ∷ (bpchararray_oid, codes "_char")
    ∷ (int8array_oid, codes "_int8")
    ∷ (int2array_oid, codes "_int2")
    ∷ (int4array_oid, codes "_int4")
    ∷ (float4array_oid, codes "_float4")
    ∷ (float8array_oid, codes "_float8")
    ∷ (textarray_oid, codes "_varchar")
    ∷ (varchararray_oid, codes "_varchar")
    ∷ (jsonarray_oid, codes "_json")
    ∷ (jsonbarray_oid, codes "_jsonb")
    ∷ (numericarray_oid, codes "_numeric")
    ∷ (uuidarray_oid, codes "_uuid")
    ∷ (datearray_oid, codes "_date")
    ∷ (timearray_oid, codes "_time")
    ∷ (timestamparray_oid, codes "_timestamp")
    ∷ (timestamptzarray_oid, codes "_timestamptz")
    ∷ (intervalarray_oid, codes "_interval")
    ∷ (timetzarray_oid, codes "_timetz")
    ∷ (bitarray_oid, codes "_bit")
    ∷ []

unfoldable pub postgres_oid_to_name : ℕ → Bytes
postgres_oid_to_name oid = find_oid oid (codes "unsupported_type") oid_rows
