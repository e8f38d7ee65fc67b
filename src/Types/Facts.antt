-- ===== src/Types/Facts.antt =====
-- What the maps between the types keep.
use duckdb_postgres.Common.{
  ℕ, true, not, ◌&&◌, Bytes, ok, ◌≡◌, refl, ap, arith, Bool-cases, inl, inr,
}
use duckdb_postgres.Common.Int.{ℤ}
use duckdb_postgres.Types.Data.{
  LogicalType, TypeInfo, Fields, type_of, boolean, smallint, integer, bigint, float, double,
  varchar, blob, date, time, time_tz, timestamp, timestamp_tz, interval, uuid, bit, list_of,
  struct_of, no_fields, field, PostgresType, Children, postgres_type, no_children, child, standard,
  PostgresTypeConfig,
}
use duckdb_postgres.Types.Names.{postgres_oid_to_name}
use duckdb_postgres.Types.Oids.{
  to_postgres_oid, scalar_oid, supported_postgres_oid, create_empty_postgres_type,
  create_empty_children, element_oid, is_list, set_oid,
}
use duckdb_postgres.Types.Logical.{
  plain, annotated, type_to_logical_type, logical_type, named_type, CustomTypes, to_postgres_type,
  to_postgres_fields,
}

mutual
  unfolding to_postgres_type to_postgres_fields

  type_idempotent : (t : LogicalType) → to_postgres_type (to_postgres_type t) ≡ to_postgres_type t
  type_idempotent (type_of a (list_of t)) = ap (λ x. plain (list_of x)) (type_idempotent t)
  type_idempotent (type_of a (struct_of fields)) =
      ap (λ x. type_of a (struct_of x)) (fields_idempotent fields)
  type_idempotent (type_of a i) = refl

  fields_idempotent :
      (fs : Fields) → to_postgres_fields (to_postgres_fields fs) ≡ to_postgres_fields fs
  fields_idempotent no_fields = refl
  fields_idempotent (field name t fs) = cc (type_idempotent t, fields_idempotent fs)

-- Every type that `SupportedPostgresOid` accepts has an oid.
supported-oid :
    (t : LogicalType) → supported_postgres_oid t ≡ true → (oid : ℕ) × (to_postgres_oid t ≡ ok oid)
unfolding supported_postgres_oid to_postgres_oid scalar_oid
supported-oid (type_of a boolean) h = (16, refl)
supported-oid (type_of a smallint) h = (21, refl)
supported-oid (type_of a integer) h = (23, refl)
supported-oid (type_of a bigint) h = (20, refl)
supported-oid (type_of a float) h = (700, refl)
supported-oid (type_of a double) h = (701, refl)
supported-oid (type_of a varchar) h = (1043, refl)
supported-oid (type_of a blob) h = (17, refl)
supported-oid (type_of a date) h = (1082, refl)
supported-oid (type_of a time) h = (1083, refl)
supported-oid (type_of a timestamp) h = (1114, refl)
supported-oid (type_of a interval) h = (1186, refl)
supported-oid (type_of a time_tz) h = (1266, refl)
supported-oid (type_of a timestamp_tz) h = (1184, refl)
supported-oid (type_of a uuid) h = (2950, refl)
supported-oid (type_of a bit) h = (1560, refl)
supported-oid (type_of a i) h = cc

-- Every type that `SupportedPostgresOid` accepts, but BIT, comes back from its oid: the name of the oid is
-- the name of a type of the server, which the extension reads as the same type, less the alias.
pub supported_postgres_oid-round_trip :
    (customs : CustomTypes) (config : PostgresTypeConfig) (type_modifier : ℤ) (schema : Bytes)
    (i : TypeInfo)
    → supported_postgres_oid (plain i) ≡ true
    → (i ≡ bit → ⊥)
    → (oid : ℕ) × (to_postgres_oid (plain i) ≡ ok oid)
      × (type_to_logical_type customs config (record {
        type_modifier = type_modifier;
        type_name = postgres_oid_to_name oid;
        type_schema = schema;
        array_dimensions = 0;
      })
          ≡ ok (plain i, annotated standard))
unfolding supported_postgres_oid to_postgres_oid scalar_oid postgres_oid_to_name
    type_to_logical_type logical_type named_type
supported_postgres_oid-round_trip customs config type_modifier schema boolean h k = (16, refl, refl)
supported_postgres_oid-round_trip customs config type_modifier schema smallint h k =
    (21, refl, refl)
supported_postgres_oid-round_trip customs config type_modifier schema integer h k = (23, refl, refl)
supported_postgres_oid-round_trip customs config type_modifier schema bigint h k = (20, refl, refl)
supported_postgres_oid-round_trip customs config type_modifier schema float h k = (700, refl, refl)
supported_postgres_oid-round_trip customs config type_modifier schema double h k = (701, refl, refl)
supported_postgres_oid-round_trip customs config type_modifier schema varchar h k =
    (1043, refl, refl)
supported_postgres_oid-round_trip customs config type_modifier schema blob h k = (17, refl, refl)
supported_postgres_oid-round_trip customs config type_modifier schema date h k = (1082, refl, refl)
supported_postgres_oid-round_trip customs config type_modifier schema time h k = (1083, refl, refl)
supported_postgres_oid-round_trip customs config type_modifier schema timestamp h k =
    (1114, refl, refl)
supported_postgres_oid-round_trip customs config type_modifier schema interval h k =
    (1186, refl, refl)
supported_postgres_oid-round_trip customs config type_modifier schema time_tz h k =
    (1266, refl, refl)
supported_postgres_oid-round_trip customs config type_modifier schema timestamp_tz h k =
    (1184, refl, refl)
supported_postgres_oid-round_trip customs config type_modifier schema uuid h k = (2950, refl, refl)
supported_postgres_oid-round_trip customs config type_modifier schema bit h k = absurd (k refl)
supported_postgres_oid-round_trip customs config type_modifier schema i h k = cc

element_oid-total :
    (t : LogicalType) (c : PostgresType) → (p : PostgresType) × (element_oid t c ≡ ok p)
unfolding element_oid
element_oid-total t c = elim (Bool-cases (not (is_list t) && supported_postgres_oid t)) [
  | inl e ↦
      let (oid, found) = supported-oid t (ground (arith, e)) in
      (set_oid oid c, rw e (rw found refl))
  | inr e ↦ (c, rw e refl)
]

mutual
  unfolding create_empty_postgres_type create_empty_children

  type_total : (t : LogicalType) → (p : PostgresType) × (create_empty_postgres_type t ≡ ok p)
  type_total (type_of a (struct_of fields)) =
      let (children, e) = children_total fields in (postgres_type 0 standard children, rw e refl)
  type_total (type_of a (list_of t)) =
      let (c, e) = type_total t in
      let (p, f) = element_oid-total t c in
      (postgres_type 0 standard (child p no_children), rw e (rw f refl))
  type_total (type_of a i) = (postgres_type 0 standard no_children, refl)

  children_total : (fs : Fields) → (c : Children) × (create_empty_children fs ≡ ok c)
  children_total no_fields = (no_children, refl)
  children_total (field name t fs) =
      let (c, e) = type_total t in
      let (children, f) = children_total fs in (child c children, rw e (rw f refl))

-- `ToPostgresType` gives a type that it leaves as it is, for every type.
pub to_postgres_type_idempotent :
    (t : LogicalType) → to_postgres_type (to_postgres_type t) ≡ to_postgres_type t
to_postgres_type_idempotent t = type_idempotent t

-- `CreateEmptyPostgresType` returns for every type, however deep: it asks `ToPostgresOid` for the oid of no
-- type that has none.
pub create_empty_postgres_type_total :
    (t : LogicalType) → (p : PostgresType) × (create_empty_postgres_type t ≡ ok p)
create_empty_postgres_type_total t = type_total t
