-- ===== src/Binary/Values/Present.antt =====
-- A value behind its length, for each kind of type: what `WriteValue` of
-- src/include/postgres_binary_writer.hpp writes, `ReadValue` of src/postgres_binary_parser.cpp returns, once the cells within
-- it are.
use duckdb_postgres.Common.{
  ℕ, ◌-◌, ◌*◌, ◌%◌, ◌^◌, ◌<◌, ◌==◌, Bool, false, List, [], ◌∷◌, ◌++◌, length, Bytes, Option, Result,
  ok, ◌≡◌, refl, ap, sym, ◌∙◌, arith, ok-injective,
}
use duckdb_postgres.Common.Int.{pos, to_signed}
use duckdb_postgres.Types.Data.{TypeInfo, type_of, PostgresType, standard}
use duckdb_postgres.Binary.Integers.{read_integer, read_integer-write_raw_integer}
use duckdb_postgres.Binary.Writer.{write_null, write_scalar, write_value, write_present}
use duckdb_postgres.Binary.Parser.{entries, read_dimension, read_scalar, read_value, read_present}
use duckdb_postgres.Binary.Cells.{Cell, null, present, Value, Cells, Library, count, write_each}
use duckdb_postgres.Binary.Values.{OrNull, AllCells, HasScalar, HasValue}
use duckdb_postgres.Binary.Values.Scalars.{Laws, scalar_lem}
use duckdb_postgres.Binary.Values.Arrays.{read_each-write_each}

module _ (lib : Library) (replacement : Option Bytes) (nan_as_null : Bool) (laws : Laws lib) where
  -- The length of a written value, and what the reader makes of the bytes behind it.
  abbrev pub Behind : TypeInfo → PostgresType → Value → Bytes → Bytes → Type 0
  Behind i p v written rest =
      (size : ℕ) × (behind : Bytes) × (read_integer 4 (written ++ rest) ≡ ok (size, behind))
      × (size < 2 ^ 31)
      × (read_present lib nan_as_null i p (pos size) behind ≡ ok (present v, rest))

  pub value-Behind :
      (a : Option Bytes) (i : TypeInfo) (p : PostgresType) (v : Value) (written rest : Bytes)
      → Behind i p v written rest
      → read_value lib nan_as_null (type_of a i) p (written ++ rest) ≡ ok (present v, rest)
  unfolding read_value
  value-Behind a i p v written rest (size, behind, len, small, back) =
      let not_null : (size == 2 ^ 32 - 1) ≡ false = ground arith in
      let signed : to_signed (2 ^ 31) size ≡ pos size = ground arith in
      rw len (rw not_null (rw signed back))

  pub null_round :
      (a : Option Bytes) (i : TypeInfo) (p : PostgresType) (written rest : Bytes)
      → write_value lib replacement (type_of a i) null ≡ ok written
      → read_value lib nan_as_null (type_of a i) p (written ++ rest) ≡ ok (null, rest)
  unfolding read_value write_value write_null
  null_round a i p written rest h =
      rw (← ok-injective h)
        (rw (read_integer-write_raw_integer 4 (2 ^ 32 - 1) rest (omega arith)) refl)

  -- From the values of a type to its cells.
  pub cell_round :
      (a : Option Bytes) (i : TypeInfo) (p : PostgresType) (c : Cell) (written rest : Bytes)
      → ((v : Value) (body more : Bytes)
          → HasValue lib i v
          → write_present lib replacement i v ≡ ok body
          → length body < 2 ^ 31
          → Behind i p v body more)
      → OrNull (λ v. HasValue lib i v) c
      → write_value lib replacement (type_of a i) c ≡ ok written
      → length written < 2 ^ 31
      → read_value lib nan_as_null (type_of a i) p (written ++ rest) ≡ ok (c, rest)
  unfolding write_value
  cell_round a i p null written rest values h e small = null_round a i p written rest e
  cell_round a i p (present v) written rest values h e small =
      value-Behind a i p v written rest (values v written rest h e small)

  pub scalar_round :
      (i : TypeInfo) (p : PostgresType) (v : Value) (written rest : Bytes)
      → ((len : ℕ) (buffer : Bytes)
          → read_present lib nan_as_null i p (pos len) buffer
            ≡ read_scalar lib nan_as_null i standard (pos len) buffer)
      → HasScalar lib i v
      → write_scalar lib replacement i v ≡ ok written
      → Behind i p v written rest
  scalar_round i p v written rest same h e =
      let (body, writes, (size, behind, len, small, back)) =
        scalar_lem lib replacement nan_as_null i v rest laws h in
      let whole : body ≡ written = ok-injective (sym writes ∙ e) in
      (
        size,
        behind,
        ap (λ b. read_integer 4 (b ++ rest)) (sym whole) ∙ len,
        small,
        same size behind ∙ back,
      )

  -- The innermost cells of an array.
  pub leaf_round :
      (write : Cell → Result Bytes) (read : Bytes → Result (Cell × Bytes))
      (lists : ℕ → List ℕ → Bytes → Result (Cells × Bytes)) (P : Cell → Type 0) (n d : ℕ)
      (flat : Cells) (body rest : Bytes)
      → ((c : Cell) (written more : Bytes)
          → P c
          → write c ≡ ok written
          → length written < 2 ^ 31
          → read (written ++ more) ≡ ok (c, more))
      → AllCells P flat
      → count flat ≡ n * d
      → n * d < 2 ^ 32
      → write_each write flat ≡ ok body
      → length body < 2 ^ 31
      → read_dimension read lists n (d ∷ []) (body ++ rest) ≡ ok (entries n d flat, rest)
  unfolding read_dimension
  leaf_round write read lists P n d flat body rest one every size few h small =
      let exact : n * d % 2 ^ 32 ≡ count flat = omega (arith, size, few) in
      rw exact (rw (read_each-write_each write read P flat body rest one every h small) refl)
