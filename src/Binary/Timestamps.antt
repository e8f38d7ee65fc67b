-- ===== src/Binary/Timestamps.antt =====
-- TIMESTAMP values: `DuckDBTimestampToPostgres` and `WriteTimestamp` of src/include/postgres_binary_writer.hpp, and
-- `ReadTimestamp` of src/include/postgres_binary_parser.hpp.
use duckdb_postgres.Common.{
  ℕ, ◌-◌, ◌^◌, ◌<◌, Bool, true, false, not, ◌&&◌, ◌||◌, ◌++◌, ◌==◌, if◌then◌else◌, Bytes, Option,
  some, none, Result, ok, err, ◌>>=◌, invalid_input, conversion, ◌≡◌, refl, ap, ◌∙◌, arith,
  append_assoc,
}
use duckdb_postgres.Common.Int.{ℤ, pos, negsuc, ◌+ℤ◌, ◌-ℤ◌, lebℤ, ltbℤ, to_unsigned, to_signed}
use duckdb_postgres.Binary.Integers.{
  write_raw_integer, read_integer, read_integer-write_raw_integer,
}
use duckdb_postgres.Binary.Dates.{eqℤ, behind_length}

-- `POSTGRES_EPOCH_TS - DUCKDB_EPOCH_TS`.
abbrev pub epoch_difference : ℤ
epoch_difference = pos (211813488000000000 - 210866803200000000)

abbrev pub postgres_min_timestamp : ℤ
postgres_min_timestamp = negsuc 211813487999999999

abbrev pub postgres_end_timestamp : ℤ
postgres_end_timestamp = pos 9223371331200000000

abbrev pub postgres_infinity : ℕ
postgres_infinity = 9223372036854775807

abbrev pub postgres_ninfinity : ℕ
postgres_ninfinity = 9223372036854775808

-- An int64_t.
abbrev pub is_int64 : ℤ → Bool
is_int64 v = lebℤ (negsuc (2 ^ 63 - 1)) v && ltbℤ v (pos (2 ^ 63))

-- What the server has, of an int64_t in its own epoch.
abbrev pub in_range : ℤ → Bool
in_range u = lebℤ postgres_min_timestamp u && ltbℤ u postgres_end_timestamp

in_range-is_int64 : (u : ℤ) → in_range u ≡ true → is_int64 u ≡ true
in_range-is_int64 (pos n) h = ground arith
in_range-is_int64 (negsuc n) h = ground arith

in_range-tests :
    (u : ℤ)
    → in_range u ≡ true
    → (ltbℤ u postgres_min_timestamp || lebℤ postgres_end_timestamp u) ≡ false
in_range-tests (pos n) h = ground arith
in_range-tests (negsuc n) h = ground arith

in_range-pattern :
    (u : ℤ)
    → in_range u ≡ true
    → ((to_unsigned (2 ^ 64) u == postgres_infinity) ≡ false)
      × ((to_unsigned (2 ^ 64) u == postgres_ninfinity) ≡ false)
      × (to_signed (2 ^ 63) (to_unsigned (2 ^ 64) u) ≡ u)
in_range-pattern (pos n) h = (ground arith, ground arith, ground arith)
in_range-pattern (negsuc n) h = (ground arith, ground arith, ground arith)

shifted_back : (v : ℤ) → (v -ℤ epoch_difference) +ℤ epoch_difference ≡ v
shifted_back (pos n) = ground arith
shifted_back (negsuc n) = ground arith

to_unsigned-bound64 : (v : ℤ) → to_unsigned (2 ^ 64) v < 2 ^ 64
to_unsigned-bound64 (pos n) = omega arith
to_unsigned-bound64 (negsuc n) = omega arith

-- The library's: the two infinities, the arithmetic that notes an overflow, and `IsFinite`.
module _ (infinity ninfinity : ℤ) (try_subtract try_add : ℤ → ℤ → Option ℤ)
    (is_finite : ℤ → Bool) where
  unfoldable pub shift_out : Option ℤ → Result ℕ
  shift_out none = err invalid_input
  shift_out (some postgres_usec) =
      if ltbℤ postgres_usec postgres_min_timestamp || lebℤ postgres_end_timestamp postgres_usec
      then err invalid_input
      else ok (to_unsigned (2 ^ 64) postgres_usec)

  unfoldable pub duckdb_timestamp_to_postgres : ℤ → Result ℕ
  duckdb_timestamp_to_postgres value =
      if eqℤ value infinity
      then ok postgres_infinity
      else if eqℤ value ninfinity
      then ok postgres_ninfinity
      else shift_out (try_subtract value epoch_difference)

  -- `WriteTimestamp`: the length of the value, and the value.
  unfoldable pub write_timestamp : ℤ → Result Bytes
  write_timestamp value = duckdb_timestamp_to_postgres value >>= λ v.
      ok (write_raw_integer 4 8 ++ write_raw_integer 8 v)

  unfoldable pub shift_in : Option ℤ → Result ℤ
  shift_in none = err conversion
  shift_in (some timestamp) = if is_finite timestamp then ok timestamp else err conversion

  unfoldable pub postgres_timestamp_to_duckdb : ℕ → Result ℤ
  postgres_timestamp_to_duckdb usec =
      if usec == postgres_infinity
      then ok infinity
      else if usec == postgres_ninfinity
      then ok ninfinity
      else shift_in (try_add (to_signed (2 ^ 63) usec) epoch_difference)

  -- `ReadTimestamp`.
  unfoldable pub read_timestamp : Bytes → Result (ℤ × Bytes)
  read_timestamp buffer =
      read_integer 8 buffer >>= λ p. postgres_timestamp_to_duckdb p.0 >>= λ v. ok (v, p.1)

  -- A timestamp that the server has and that is not infinite.
  abbrev pub is_timestamp : ℤ → Bool
  is_timestamp value =
      is_int64 value
      && not (eqℤ value infinity)
      && not (eqℤ value ninfinity)
      && in_range (value -ℤ epoch_difference)

  module _ (subtracts : (a b : ℤ) → is_int64 (a -ℤ b) ≡ true → try_subtract a b ≡ some (a -ℤ b))
      (adds : (a b : ℤ) → is_int64 (a +ℤ b) ≡ true → try_add a b ≡ some (a +ℤ b))
      (finite : (v : ℤ)
        → eqℤ v infinity ≡ false
        → eqℤ v ninfinity ≡ false
        → is_finite v ≡ true) where
    encoded_timestamp :
        (value : ℤ)
        → is_timestamp value ≡ true
        → duckdb_timestamp_to_postgres value ≡ ok (to_unsigned (2 ^ 64) (value -ℤ epoch_difference))
    unfolding duckdb_timestamp_to_postgres shift_out
    encoded_timestamp value h =
        let a : eqℤ value infinity ≡ false = ground (arith, h) in
        let b : eqℤ value ninfinity ≡ false = ground (arith, h) in
        let c : in_range (value -ℤ epoch_difference) ≡ true = ground (arith, h) in
        rw a (
          rw b (
            rw (subtracts value epoch_difference (in_range-is_int64 (value -ℤ epoch_difference) c))
              (rw (in_range-tests (value -ℤ epoch_difference) c) refl)))

    decoded_timestamp :
        (value : ℤ)
        → is_timestamp value ≡ true
        → postgres_timestamp_to_duckdb (to_unsigned (2 ^ 64) (value -ℤ epoch_difference)) ≡ ok value
    unfolding postgres_timestamp_to_duckdb shift_in
    decoded_timestamp value h =
        let a : eqℤ value infinity ≡ false = ground (arith, h) in
        let b : eqℤ value ninfinity ≡ false = ground (arith, h) in
        let whole : is_int64 value ≡ true = ground (arith, h) in
        let c : in_range (value -ℤ epoch_difference) ≡ true = ground (arith, h) in
        let (x, y, z) = in_range-pattern (value -ℤ epoch_difference) c in
        let back = shifted_back value in
        let sum : try_add (value -ℤ epoch_difference) epoch_difference ≡ some value =
          adds (value -ℤ epoch_difference) epoch_difference (ap is_int64 back ∙ whole)
          ∙ ap (λ v. some v) back in
        rw x (rw y (rw z (rw sum (rw (finite value a b) refl))))

    -- Where the library's subtraction and addition give every result that has 64 bits, and a value that is
    -- not one of the two infinities is finite: every finite timestamp that the server has is written
    -- without an exception, and the reader gets it back: it finds the length 8, then the timestamp, and
    -- what follows the value is left.
    pub read_timestamp-write_timestamp :
        (value : ℤ) (rest : Bytes)
        → is_timestamp value ≡ true
        → (text : Bytes) × (write_timestamp value ≡ ok text)
          × (behind_length read_timestamp (text ++ rest) ≡ ok (8, (value, rest)))
    unfolding write_timestamp read_timestamp
    read_timestamp-write_timestamp value rest h =
        let v = to_unsigned (2 ^ 64) (value -ℤ epoch_difference) in
        (
          write_raw_integer 4 8 ++ write_raw_integer 8 v,
          rw (encoded_timestamp value h) refl,
          rw (append_assoc (write_raw_integer 4 8) (write_raw_integer 8 v) rest) (
              rw (read_integer-write_raw_integer 4 8 (write_raw_integer 8 v ++ rest) (omega arith))
                (rw
                  (read_integer-write_raw_integer 8 v rest
                    (omega (arith, to_unsigned-bound64 (value -ℤ epoch_difference))))
                  (rw (decoded_timestamp value h) refl))),
        )
