-- ===== src/Binary/Values/Scalars.antt =====
-- The values that are no list and no struct: what `WriteValue` of src/include/postgres_binary_writer.hpp writes
-- for one, `ReadValue` of src/postgres_binary_parser.cpp reads.
use duckdb_postgres.Common.{
  ℕ, ◌^◌, ◌<◌, ◌≤◌, Bool, true, false, not, ◌&&◌, ◌++◌, length, leb, ltb, Bytes, Option, none, some,
  Result, ok, err, ◌>>=◌, ◌≡◌, refl, ap, ◌∙◌, arith, append_assoc, length-append, take-append,
  drop-append,
}
use duckdb_postgres.Common.Int.{ℤ, pos, ◌+ℤ◌, ◌-ℤ◌, ltbℤ}
use duckdb_postgres.Types.Data.{
  TypeInfo, boolean, smallint, integer, bigint, float, double, varchar, blob, date, time, time_tz,
  timestamp, timestamp_tz, interval, uuid, decimal, enum, geometry, standard,
}
use duckdb_postgres.Binary.Integers.{
  write_raw_integer, read_integer, read_integer-write_raw_integer,
}
use duckdb_postgres.Binary.Numeric.{ordinary, read_decimal}
use duckdb_postgres.Binary.Numeric.RoundTrip.{read_decimal-write_decimal}
use duckdb_postgres.Binary.Dates.{
  behind_length, read_date, write_time_tz, read_time_tz, read_date-write_date,
  read_time_tz-write_time_tz, eqℤ,
}
use duckdb_postgres.Binary.Timestamps.{
  is_timestamp, write_timestamp, read_timestamp, is_int64, read_timestamp-write_timestamp,
}
use duckdb_postgres.Binary.Writer.{
  write_integer, write_interval, write_uuid, flip_top, write_raw_blob, write_varchar,
  write_geometry, write_with_srid, write_scalar,
}
use duckdb_postgres.Binary.Parser.{
  as_cell, read_boolean, read_interval, read_uuid, read_string, read_text, decimal_cell,
  read_decimal_cell, read_geometry_text, enum_cell, read_scalar,
}
use duckdb_postgres.Binary.Cells.{
  present, Value, bits, day, instant, time_offset, interval_of, halves, number, text, position,
  Library,
}
use duckdb_postgres.Binary.Values.{HasScalar}
use duckdb_postgres.TextWriter.{has_null_byte}

-- What the library is relied on for: subtraction and addition that give every result of 64 bits, and an
-- `IsFinite` that holds of what is not one of the two infinities.
pub record Laws (lib : Library) : Type 0 where
  pub subtracts : (a b : ℤ) → is_int64 (a -ℤ b) ≡ true → lib.try_subtract a b ≡ some (a -ℤ b)
  pub adds : (a b : ℤ) → is_int64 (a +ℤ b) ≡ true → lib.try_add a b ≡ some (a +ℤ b)
  pub finite :
      (v : ℤ)
      → eqℤ v lib.timestamp_infinity ≡ false
      → eqℤ v lib.timestamp_ninfinity ≡ false
      → lib.is_finite v ≡ true

second-split {ℓ} :
    {A : Type ℓ} (r : Result (A × Bytes)) (k n : ℕ) (x : A) (rest : Bytes)
    → ◌>>=◌ {Y = ℕ × (A × Bytes)} r (λ q. ok (k, q)) ≡ ok (n, (x, rest))
    → (k ≡ n) × (r ≡ ok (x, rest))
second-split (ok (y, more)) k n x rest h =
    (ap (λ m. elim m [ ok a ↦ a.0 | err e ↦ k ]) h, ap (λ m. m >>= λ a. ok a.1) h)
second-split (err e) k n x rest h = absurd cc

first-split {ℓ} :
    {A : Type ℓ} (read : Bytes → Result (A × Bytes)) (m : Result (ℕ × Bytes)) (n : ℕ) (x : A)
    (rest : Bytes)
    → ◌>>=◌ {Y = ℕ × (A × Bytes)} m (λ p. ◌>>=◌ {Y = ℕ × (A × Bytes)} (read p.1) (λ q. ok (p.0, q)))
      ≡ ok (n, (x, rest))
    → (behind : Bytes) × (m ≡ ok (n, behind)) × (read behind ≡ ok (x, rest))
first-split read (ok (k, behind)) n x rest h =
    let (same, found) = second-split (read behind) k n x rest h in
    (behind, ap (λ j. ok (j, behind)) same, found)
first-split read (err e) n x rest h = absurd cc

behind_length-split {ℓ} :
    {A : Type ℓ} (read : Bytes → Result (A × Bytes)) (buffer : Bytes) (n : ℕ) (x : A) (rest : Bytes)
    → behind_length read buffer ≡ ok (n, (x, rest))
    → (behind : Bytes) × (read_integer 4 buffer ≡ ok (n, behind)) × (read behind ≡ ok (x, rest))
behind_length-split read buffer n x rest h = first-split read (read_integer 4 buffer) n x rest h

module _ (lib : Library) (replacement : Option Bytes) (nan_as_null : Bool) where
  -- A length, and what the reader makes of the bytes behind it.
  abbrev pub Framed : TypeInfo → Value → Bytes → Bytes → Type 0
  Framed i v written rest =
      (size : ℕ) × (behind : Bytes) × (read_integer 4 (written ++ rest) ≡ ok (size, behind))
      × (size < 2 ^ 31)
      × (read_scalar lib nan_as_null i standard (pos size) behind ≡ ok (present v, rest))

  framed_integer :
      (w n : ℕ) (rest : Bytes)
      → w < 16
      → n < 256 ^ w
      → (read_integer 4 (write_integer w n ++ rest) ≡ ok (w, write_raw_integer w n ++ rest))
        × (as_cell bits (read_integer w (write_raw_integer w n ++ rest))
            ≡ ok (present (bits n), rest))
  unfolding write_integer
  framed_integer w n rest small h = (
    rw (append_assoc (write_raw_integer 4 w) (write_raw_integer w n) rest)
        (read_integer-write_raw_integer 4 w (write_raw_integer w n ++ rest) (omega arith)),
    rw (read_integer-write_raw_integer w n rest h) refl,
  )

  framed_blob :
      (s rest : Bytes)
      → length s < 2 ^ 31
      → (written : Bytes) × (write_raw_blob s ≡ ok written)
        × (read_integer 4 (written ++ rest) ≡ ok (length s, s ++ rest))
        × (read_string lib nan_as_null (pos (length s)) (s ++ rest) ≡ ok (s, rest))
  unfolding write_raw_blob read_string
  framed_blob s rest h =
      let long : leb (length s) (length (s ++ rest)) ≡ true =
        ground (arith, length-append s rest) in
      let small : ltb (length s) (2 ^ 31) ≡ true = ground arith in
      (
        write_raw_integer 4 (length s) ++ s,
        rw small refl,
        rw (append_assoc (write_raw_integer 4 (length s)) s rest)
            (read_integer-write_raw_integer 4 (length s) (s ++ rest) (omega arith)),
        rw long (rw (take-append s rest) (rw (drop-append s rest) refl)),
      )

  -- The value is written, and read behind its length.
  abbrev pub Returns : TypeInfo → Value → Bytes → Type 0
  Returns i v rest =
      (written : Bytes) × (write_scalar lib replacement i v ≡ ok written) × Framed i v written rest

  -- A value of 1, 2, 4 or 8 bytes, whose length comes first.
  scalar_integer :
      (i : TypeInfo) (w n : ℕ) (rest : Bytes)
      → w < 16
      → n < 256 ^ w
      → write_scalar lib replacement i (bits n) ≡ ok (write_integer w n)
      → ((buffer : Bytes)
          → read_scalar lib nan_as_null i standard (pos w) buffer
            ≡ as_cell bits (read_integer w buffer))
      → Returns i (bits n) rest
  scalar_integer i w n rest small h writes reads =
      let (len, back) = framed_integer w n rest small h in
      (
        write_integer w n,
        writes,
        (
          w,
          write_raw_integer w n ++ rest,
          len,
          omega arith,
          reads (write_raw_integer w n ++ rest) ∙ back,
        ),
      )

  -- A text, for the types whose values are written as one.
  scalar_text :
      (i : TypeInfo) (v : Value) (s rest : Bytes)
      → length s < 2 ^ 31
      → write_scalar lib replacement i v ≡ write_raw_blob s
      → ((buffer : Bytes)
          → read_string lib nan_as_null (pos (length s)) buffer ≡ ok (s, rest)
          → read_scalar lib nan_as_null i standard (pos (length s)) buffer ≡ ok (present v, rest))
      → Returns i v rest
  scalar_text i v s rest small writes reads =
      let (written, e, len, back) = framed_blob s rest small in
      (written, writes ∙ e, (length s, s ++ rest, len, small, reads (s ++ rest) back))

  -- A value of another size, whose reader was proved to return it behind its length.
  scalar_behind :
      {A : Type 0} (i : TypeInfo) (v : Value) (read : Bytes → Result (A × Bytes)) (size : ℕ) (x : A)
      (written rest : Bytes)
      → size < 2 ^ 31
      → write_scalar lib replacement i v ≡ ok written
      → behind_length read (written ++ rest) ≡ ok (size, (x, rest))
      → ((buffer : Bytes)
          → read buffer ≡ ok (x, rest)
          → read_scalar lib nan_as_null i standard (pos size) buffer ≡ ok (present v, rest))
      → Returns i v rest
  scalar_behind i v read size x written rest small writes back reads =
      let (behind, len, found) = behind_length-split read (written ++ rest) size x rest back in
      (written, writes, (size, behind, len, small, reads behind found))

  boolean_lem :
      (n : ℕ) (rest : Bytes) → n < 2 → read_boolean (write_raw_integer 1 n ++ rest) ≡ ok (n, rest)
  unfolding read_boolean
  boolean_lem n rest h =
      rw (read_integer-write_raw_integer 1 n rest (omega arith))
        (ap (λ m. ok (m, rest)) (ground arith))

  varchar_lem :
      (s : Bytes) → has_null_byte s ≡ false → write_varchar replacement s ≡ write_raw_blob s
  unfolding write_varchar
  varchar_lem s h = elim replacement as (λ r. write_varchar r s ≡ write_raw_blob s) [
    | none ↦ rw h refl
    | some new ↦ rw h refl
  ]

  -- Both types of timestamps.
  scalar_timestamp :
      (i : TypeInfo) (t : ℤ) (rest : Bytes)
      → Laws lib
      → is_timestamp lib.timestamp_infinity lib.timestamp_ninfinity lib.try_subtract lib.try_add
          lib.is_finite t
        ≡ true
      → write_scalar lib replacement i (instant t)
        ≡ write_timestamp lib.timestamp_infinity lib.timestamp_ninfinity lib.try_subtract
            lib.try_add lib.is_finite t
      → ((buffer : Bytes)
          → read_timestamp lib.timestamp_infinity lib.timestamp_ninfinity lib.try_subtract
              lib.try_add lib.is_finite buffer
            ≡ ok (t, rest)
          → read_scalar lib nan_as_null i standard (pos 8) buffer ≡ ok (present (instant t), rest))
      → Returns i (instant t) rest
  scalar_timestamp i t rest laws h writes reads =
      let (written, e, back) =
        read_timestamp-write_timestamp lib.timestamp_infinity lib.timestamp_ninfinity
          lib.try_subtract lib.try_add lib.is_finite laws.subtracts laws.adds laws.finite t rest
          h in
      scalar_behind i (instant t)
        (read_timestamp lib.timestamp_infinity lib.timestamp_ninfinity lib.try_subtract lib.try_add
          lib.is_finite)
        8 t written rest (omega arith) (writes ∙ e) back reads

  decimal_size : (n : ℕ) → 8 ≤ n → (ltbℤ (pos n) (pos 8) && not (ltbℤ (pos n) (pos 0))) ≡ false
  decimal_size n h = ground arith

  interval_lem :
      (micros days months : ℕ) (rest : Bytes)
      → micros < 2 ^ 64
      → days < 2 ^ 32
      → months < 2 ^ 32
      → behind_length read_interval (write_interval (micros, (days, months)) ++ rest)
        ≡ ok (16, ((micros, (days, months)), rest))
  unfolding write_interval read_interval
  interval_lem micros days months rest a b c =
      let tail = write_raw_integer 4 days ++ (write_raw_integer 4 months ++ rest) in
      simp append_assoc (
        rw (read_integer-write_raw_integer 4 16 (write_raw_integer 8 micros ++ tail) (omega arith))
          (rw (read_integer-write_raw_integer 8 micros tail (omega arith)) (
            rw
              (read_integer-write_raw_integer 4 days (write_raw_integer 4 months ++ rest)
                (omega arith))
              (rw (read_integer-write_raw_integer 4 months rest (omega arith)) refl))))

  flip_top-flip_top : (n : ℕ) → n < 2 ^ 64 → (flip_top (flip_top n) ≡ n) × (flip_top n < 2 ^ 64)
  flip_top-flip_top n h = (ground arith, ground arith)

  uuid_lem :
      (upper lower : ℕ) (rest : Bytes)
      → upper < 2 ^ 64
      → lower < 2 ^ 64
      → behind_length read_uuid (write_uuid (upper, lower) ++ rest)
        ≡ ok (16, ((upper, lower), rest))
  unfolding write_uuid read_uuid
  uuid_lem upper lower rest a b =
      let (back, bound) = flip_top-flip_top upper a in
      let tail = write_raw_integer 8 lower ++ rest in
      simp append_assoc (
        rw
          (read_integer-write_raw_integer 4 16 (write_raw_integer 8 (flip_top upper) ++ tail)
            (omega arith))
          (rw (read_integer-write_raw_integer 8 (flip_top upper) tail (omega arith))
            (rw (read_integer-write_raw_integer 8 lower rest (omega arith)) (rw back refl))))

  pub scalar_lem :
      (i : TypeInfo) (v : Value) (rest : Bytes) → Laws lib → HasScalar lib i v → Returns i v rest
  unfolding write_scalar read_scalar read_text write_geometry write_with_srid read_geometry_text
      enum_cell read_decimal_cell decimal_cell
  scalar_lem boolean (bits n) rest laws h =
      let (len, back) = framed_integer 1 n rest (omega arith) (omega arith) in
      (
        write_integer 1 n,
        refl,
        (1, write_raw_integer 1 n ++ rest, len, omega arith, rw (boolean_lem n rest h) refl),
      )
  scalar_lem smallint (bits n) rest laws h =
      scalar_integer smallint 2 n rest (omega arith) (omega arith) refl (λ b. refl)
  scalar_lem integer (bits n) rest laws h =
      scalar_integer integer 4 n rest (omega arith) (omega arith) refl (λ b. refl)
  scalar_lem bigint (bits n) rest laws h =
      scalar_integer bigint 8 n rest (omega arith) (omega arith) refl (λ b. refl)
  scalar_lem float (bits n) rest laws h =
      scalar_integer float 4 n rest (omega arith) (omega arith) refl (λ b. refl)
  scalar_lem double (bits n) rest laws h =
      scalar_integer double 8 n rest (omega arith) (omega arith) refl (λ b. refl)
  scalar_lem time (bits n) rest laws h =
      scalar_integer time 8 n rest (omega arith) (omega arith) refl (λ b. refl)
  scalar_lem varchar (text s) rest laws h =
      scalar_text varchar (text s) s rest h.1 (varchar_lem s h.0) (λ b e. rw e refl)
  scalar_lem blob (text s) rest laws h = scalar_text blob (text s) s rest h refl (λ b e. rw e refl)
  scalar_lem (geometry crs) (text s) rest laws h =
      let (plain, parse, small) = h in
      scalar_text (geometry crs) (text s) s rest small (rw plain refl) (λ b e. rw e (rw parse refl))
  scalar_lem (enum names) (position k) rest laws h =
      let (plain, small, found) = h in
      scalar_text (enum names) (position k) (lib.get_string names k) rest small
        (varchar_lem (lib.get_string names k) plain) (λ b e. rw e (rw found refl))
  scalar_lem date (day d) rest laws h =
      let (written, e, back) = read_date-write_date lib.date_infinity lib.date_ninfinity d rest h in
      scalar_behind date (day d) (read_date lib.date_infinity lib.date_ninfinity) 4 d written rest
        (omega arith) e back (λ b f. rw f refl)
  scalar_lem time_tz (time_offset micros offset) rest laws h =
      scalar_behind time_tz (time_offset micros offset) read_time_tz 12 (micros, offset)
        (write_time_tz micros offset) rest (omega arith) refl
        (read_time_tz-write_time_tz micros offset rest h.0 h.1) (λ b f. rw f refl)
  scalar_lem timestamp (instant t) rest laws h =
      scalar_timestamp timestamp t rest laws h refl (λ b f. rw f refl)
  scalar_lem timestamp_tz (instant t) rest laws h =
      scalar_timestamp timestamp_tz t rest laws h refl (λ b f. rw f refl)
  scalar_lem (decimal w s) (number n) rest laws h =
      let (known, small, fits) = h in
      let (written, size, e, long, short, back) =
        read_decimal-write_decimal lib.overflowed (lib.internal_type w s) s n rest known small
          fits in
      scalar_behind (decimal w s) (number n) (read_decimal lib.overflowed (lib.internal_type w s))
        size (record { value = n; kind = ordinary }) written rest short e back
        (λ b f. rw (decimal_size size long) (rw f refl))
  scalar_lem interval (interval_of micros days months) rest laws h =
      let (a, b, c) = h in
      scalar_behind interval (interval_of micros days months) read_interval 16
        (micros, (days, months)) (write_interval (micros, (days, months))) rest (omega arith) refl
        (interval_lem micros days months rest a b c) (λ b f. rw f refl)
  scalar_lem uuid (halves upper lower) rest laws h =
      scalar_behind uuid (halves upper lower) read_uuid 16 (upper, lower)
        (write_uuid (upper, lower)) rest (omega arith) refl (uuid_lem upper lower rest h.0 h.1)
        (λ b f. rw f refl)
  scalar_lem i v rest laws h = absurd h
