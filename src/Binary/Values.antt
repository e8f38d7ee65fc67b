-- ===== src/Binary/Values.antt =====
-- The values that src/include/postgres_binary_writer.hpp writes and src/postgres_binary_parser.cpp gets back: what
-- a cell of a type is, and the values that are no list and no struct.
pub mod Scalars
pub mod Arrays
pub mod Frames
pub mod Elements
pub mod Present
pub mod Nested
pub mod RoundTrip
pub mod Total
use duckdb_postgres.Common.{
  ℕ, ◌+◌, ◌-◌, ◌*◌, ◌%◌, ◌^◌, ◌<◌, Bool, true, false, ◌&&◌, List, [], ◌∷◌, length, Bytes, Option,
  none, some, ◌≡◌,
}
use duckdb_postgres.Common.Int.{ℤ, pos, negsuc, ltbℤ}
use duckdb_postgres.Types.Data.{
  LogicalType, TypeInfo, Fields, type_of, boolean, smallint, integer, bigint, float, double,
  varchar, blob, date, time, time_tz, timestamp, timestamp_tz, interval, uuid, decimal, enum,
  geometry, list_of, struct_of, no_fields, field, PostgresType, postgres_type, Children,
  no_children, child, standard,
}
use duckdb_postgres.TextWriter.{has_null_byte}
use duckdb_postgres.Binary.Numeric.{half, powers, magnitude, correction}
use duckdb_postgres.Binary.Dates.{is_date}
use duckdb_postgres.Binary.Timestamps.{is_timestamp}
use duckdb_postgres.Binary.Writer.{geometry_srid, dimensions_below, first_entry}
use duckdb_postgres.Binary.Cells.{
  Cell, null, present, Value, bits, day, instant, time_offset, interval_of, halves, number, text,
  position, list_value, struct_value, Cells, no_cells, cell, Library, count,
}

abbrev pub OrNull : (Value → Type 0) → Cell → Type 0
OrNull P null = Unit
OrNull P (present v) = P v

abbrev pub AllCells : (Cell → Type 0) → Cells → Type 0
AllCells P no_cells = Unit
AllCells P (cell c cs) = P c × AllCells P cs

abbrev pub IsList : (Cells → Type 0) → Cell → Type 0
IsList P (present (list_value es)) = P es
IsList P c = ⊥

abbrev pub ListOf : (Cells → Type 0) → Value → Type 0
ListOf P (list_value es) = P es
ListOf P v = ⊥

abbrev pub StructOf : (Cells → Type 0) → Value → Type 0
StructOf P (struct_value cs) = P cs
StructOf P v = ⊥

-- The cells of the levels of an array, counted in 32 bits.
abbrev pub FewCells : ℕ → List ℕ → Type 0
FewCells n [] = Unit
FewCells n (d ∷ ds) = (n * d < 2 ^ 32) × FewCells (n * d) ds

module _ (lib : Library) where
  -- A value of a type that is no list and no struct, in the range of the server's type.
  abbrev pub HasScalar : TypeInfo → Value → Type 0
  HasScalar boolean (bits n) = n < 2
  HasScalar smallint (bits n) = n < 2 ^ 16
  HasScalar integer (bits n) = n < 2 ^ 32
  HasScalar bigint (bits n) = n < 2 ^ 64
  HasScalar float (bits n) = n < 2 ^ 32
  HasScalar double (bits n) = n < 2 ^ 64
  HasScalar time (bits n) = n < 2 ^ 64
  HasScalar (decimal w s) (number n) =
      (s < powers (lib.internal_type w s))
      × (magnitude n < half (lib.internal_type w s))
      × (magnitude n % 10 ^ s * 10 ^ correction s < half (lib.internal_type w s))
  HasScalar date (day d) = is_date lib.date_infinity lib.date_ninfinity d ≡ true
  HasScalar time_tz (time_offset micros offset) =
      (micros < 2 ^ 64) × ((ltbℤ (negsuc (2 ^ 31 - 1)) offset && ltbℤ offset (pos (2 ^ 31))) ≡ true)
  HasScalar timestamp (instant t) =
      is_timestamp lib.timestamp_infinity lib.timestamp_ninfinity lib.try_subtract lib.try_add
        lib.is_finite t
      ≡ true
  HasScalar timestamp_tz (instant t) =
      is_timestamp lib.timestamp_infinity lib.timestamp_ninfinity lib.try_subtract lib.try_add
        lib.is_finite t
      ≡ true
  HasScalar interval (interval_of micros days months) =
      (micros < 2 ^ 64) × (days < 2 ^ 32) × (months < 2 ^ 32)
  HasScalar uuid (halves upper lower) = (upper < 2 ^ 64) × (lower < 2 ^ 64)
  HasScalar varchar (text s) = (has_null_byte s ≡ false) × (length s < 2 ^ 31)
  HasScalar blob (text s) = length s < 2 ^ 31
  HasScalar (geometry crs) (text s) =
      (geometry_srid lib crs ≡ none) × (lib.from_binary s ≡ some s) × (length s < 2 ^ 31)
  HasScalar (enum names) (position k) =
      (has_null_byte (lib.get_string names k) ≡ false)
      × (length (lib.get_string names k) < 2 ^ 31)
      × (lib.get_pos names (lib.get_string names k) ≡ some k)
  HasScalar i v = ⊥

  abbrev mutual
    -- A cell of a type. The lists within a list are not NULL, and the cells of an array are fewer
    -- than 2 ^ 32.
    pub HasType : LogicalType → Cell → Type 0
    HasType (type_of a i) c = OrNull (λ v. HasValue i v) c

    pub HasValue : TypeInfo → Value → Type 0
    HasValue (list_of t) v =
        ListOf
          (λ es.
            HasElements t es
            × FewCells 1 (count es % 2 ^ 32 ∷ dimensions_below lib t (first_entry lib es)))
          v
    HasValue (struct_of fs) v = StructOf (λ cs. HasFields fs cs) v
    HasValue i v = HasScalar i v

    pub HasElements : LogicalType → Cells → Type 0
    HasElements (type_of a (list_of t)) es = AllCells (IsList (λ cs. HasElements t cs)) es
    HasElements (type_of a i) es = AllCells (OrNull (λ v. HasValue i v)) es

    pub HasFields : Fields → Cells → Type 0
    HasFields no_fields no_cells = Unit
    HasFields (field n t fs) (cell c cs) = HasType t c × HasFields fs cs
    HasFields fs cs = ⊥

-- The server's type of a type, with no annotation anywhere.
abbrev mutual
  pub Matches : LogicalType → PostgresType → Type 0
  Matches (type_of a i) (postgres_type oid standard ps) = MatchesInfo i ps
  Matches t p = ⊥

  pub MatchesInfo : TypeInfo → Children → Type 0
  MatchesInfo (list_of t) (child p ps) = Matches t p
  MatchesInfo (list_of t) no_children = ⊥
  MatchesInfo (struct_of fs) ps = MatchesFields fs ps
  MatchesInfo i ps = Unit

  pub MatchesFields : Fields → Children → Type 0
  MatchesFields no_fields ps = Unit
  MatchesFields (field n t fs) (child p ps) = Matches t p × MatchesFields fs ps
  MatchesFields (field n t fs) no_children = ⊥
