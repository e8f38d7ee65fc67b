-- ===== src/Binary/Dates.antt =====
-- DATE and TIME values: `DuckDBDateToPostgres`, `WriteDate`, `WriteTimeTZ`, `WriteInterval` and the readers
-- of the same values. A pattern of a signed integer is its two's complement.
use duckdb_postgres.Common.{
  ℕ, ◌+◌, ◌-◌, ◌%◌, ◌^◌, ◌<◌, Bool, true, false, ◌&&◌, ◌||◌, ◌++◌, ◌==◌, if◌then◌else◌, Bytes,
  Result, ok, err, ◌>>=◌, invalid_input, ◌≡◌, refl, ap, sym, ◌∙◌, arith, inl, inr, Bool-cases,
  append_assoc,
}
use duckdb_postgres.Common.Int.{ℤ, pos, negsuc, ◌+ℤ◌, ◌-ℤ◌, lebℤ, ltbℤ, to_unsigned, to_signed}
use duckdb_postgres.Binary.Integers.{
  write_raw_integer, read_integer, read_integer-write_raw_integer,
}

abbrev pub postgres_epoch_jdate : ℕ
postgres_epoch_jdate = 2451545

abbrev pub duckdb_epoch_date : ℕ
duckdb_epoch_date = 2440588

abbrev pub postgres_min_date : ℤ
postgres_min_date = negsuc 2440588

abbrev pub postgres_max_date : ℤ
postgres_max_date = pos 2145042906

abbrev pub postgres_date_inf : ℕ
postgres_date_inf = 2147483647

abbrev pub postgres_date_ninf : ℕ
postgres_date_ninf = 2147483648

abbrev pub eqℤ : ℤ → ℤ → Bool
eqℤ a b = lebℤ a b && lebℤ b a

eqℤ-eq : (a b : ℤ) → eqℤ a b ≡ true → a ≡ b
eqℤ-eq (pos m) (pos n) h = ground arith
eqℤ-eq (pos m) (negsuc n) h = ground arith
eqℤ-eq (negsuc m) (pos n) h = ground arith
eqℤ-eq (negsuc m) (negsuc n) h = ground arith

to_unsigned-bound : (v : ℤ) → to_unsigned (2 ^ 32) v < 2 ^ 32
to_unsigned-bound (pos n) = omega arith
to_unsigned-bound (negsuc n) = omega arith

-- `ReadValue`: the length of a value, and the value behind it.
abbrev pub behind_length {ℓ} :
    {A : Type ℓ} → (Bytes → Result (A × Bytes)) → Bytes → Result (ℕ × (A × Bytes))
behind_length read buffer = read_integer 4 buffer >>= λ p. read p.1 >>= λ q. ok (p.0, q)

-- `date_t::infinity()` and `date_t::ninfinity()` are the library's, as numbers of days.
module _ (infinity ninfinity : ℤ) where
  unfoldable pub duckdb_date_to_postgres : ℤ → Result ℕ
  duckdb_date_to_postgres days =
      if eqℤ days infinity
      then ok postgres_date_inf
      else if eqℤ days ninfinity
      then ok postgres_date_ninf
      else if lebℤ days postgres_min_date || lebℤ postgres_max_date days
      then err invalid_input
      else ok (to_unsigned (2 ^ 32) ((days +ℤ pos duckdb_epoch_date) -ℤ pos postgres_epoch_jdate))

  -- `WriteDate`: the length of the value, and the value.
  unfoldable pub write_date : ℤ → Result Bytes
  write_date days =
      duckdb_date_to_postgres days >>= λ v. ok (write_raw_integer 4 4 ++ write_raw_integer 4 v)

  -- `ReadDate`; the sum is one of 32 bits without a sign.
  unfoldable pub postgres_date_to_duckdb : ℕ → ℤ
  postgres_date_to_duckdb jd =
      if jd == postgres_date_inf
      then infinity
      else if jd == postgres_date_ninf
      then ninfinity
      else to_signed (2 ^ 31) ((jd + postgres_epoch_jdate + (2 ^ 32 - duckdb_epoch_date)) % 2 ^ 32)

  unfoldable pub read_date : Bytes → Result (ℤ × Bytes)
  read_date buffer = read_integer 4 buffer >>= λ p. ok (postgres_date_to_duckdb p.0, p.1)

  -- A date that the server has: infinite, or between the two bounds.
  abbrev pub is_date : ℤ → Bool
  is_date days =
      eqℤ days infinity
      || eqℤ days ninfinity
      || (ltbℤ postgres_min_date days && ltbℤ days postgres_max_date)

  finite-round_trip :
      (days : ℤ)
      → (lebℤ days postgres_min_date || lebℤ postgres_max_date days) ≡ false
      → postgres_date_to_duckdb
          (to_unsigned (2 ^ 32) ((days +ℤ pos duckdb_epoch_date) -ℤ pos postgres_epoch_jdate))
        ≡ days
  unfolding postgres_date_to_duckdb
  finite-round_trip (pos n) h = ground arith
  finite-round_trip (negsuc n) h = ground arith

  encoded :
      (days : ℤ)
      → is_date days ≡ true
      → (v : ℕ) × (duckdb_date_to_postgres days ≡ ok v)
        × (v < 256 ^ 4)
        × (postgres_date_to_duckdb v ≡ days)
  unfolding duckdb_date_to_postgres postgres_date_to_duckdb
  encoded days h = elim (Bool-cases (eqℤ days infinity)) [
    | inl e ↦ (postgres_date_inf, rw e refl, omega arith, sym (eqℤ-eq days infinity e))
    | inr e ↦ elim (Bool-cases (eqℤ days ninfinity)) [
      | inl f ↦ (postgres_date_ninf, rw e (rw f refl), omega arith, sym (eqℤ-eq days ninfinity f))
      | inr f ↦
          let within : (lebℤ days postgres_min_date || lebℤ postgres_max_date days) ≡ false =
            ground (arith, h, e, f) in
          (
            to_unsigned (2 ^ 32) ((days +ℤ pos duckdb_epoch_date) -ℤ pos postgres_epoch_jdate),
            rw e (rw f (rw within refl)),
            omega (
              arith,
              to_unsigned-bound ((days +ℤ pos duckdb_epoch_date) -ℤ pos postgres_epoch_jdate),
            ),
            finite-round_trip days within,
          )
    ]
  ]

  -- Every date that the server has is written without an exception, and the reader gets it back: it finds
  -- the length 4, then the date, and what follows the value is left.
  pub read_date-write_date :
      (days : ℤ) (rest : Bytes)
      → is_date days ≡ true
      → (text : Bytes) × (write_date days ≡ ok text)
        × (behind_length read_date (text ++ rest) ≡ ok (4, (days, rest)))
  unfolding write_date read_date
  read_date-write_date days rest h =
      let (v, e, bound, back) = encoded days h in
      (
        write_raw_integer 4 4 ++ write_raw_integer 4 v,
        rw e refl,
        rw (append_assoc (write_raw_integer 4 4) (write_raw_integer 4 v) rest) (
            rw (read_integer-write_raw_integer 4 4 (write_raw_integer 4 v ++ rest) (omega arith))
              (rw (read_integer-write_raw_integer 4 v rest bound) (rw back refl))),
      )

  -- A date that the server does not have is refused.
  pub write_date-refused : (days : ℤ) → is_date days ≡ false → write_date days ≡ err invalid_input
  unfolding write_date duckdb_date_to_postgres
  write_date-refused days h =
      let a : eqℤ days infinity ≡ false = ground (arith, h) in
      let b : eqℤ days ninfinity ≡ false = ground (arith, h) in
      let c : (lebℤ days postgres_min_date || lebℤ postgres_max_date days) ≡ true =
        ground (arith, h) in
      rw a (rw b (rw c refl))

-- `WriteTimeTZ`: the length, the microseconds, and the offset with its sign turned round.
unfoldable pub write_time_tz : ℕ → ℤ → Bytes
write_time_tz micros offset =
    write_raw_integer 4 12
    ++ (write_raw_integer 8 micros ++ write_raw_integer 4 (to_unsigned (2 ^ 32) (pos 0 -ℤ offset)))

-- `ReadTimeTZ`.
unfoldable pub read_time_tz : Bytes → Result ((ℕ × ℤ) × Bytes)
read_time_tz buffer = read_integer 8 buffer >>= λ p.
    read_integer 4 p.1 >>= λ q. ok ((p.0, pos 0 -ℤ to_signed (2 ^ 31) q.0), q.1)

offset-round_trip :
    (offset : ℤ)
    → (ltbℤ (negsuc (2 ^ 31 - 1)) offset && ltbℤ offset (pos (2 ^ 31))) ≡ true
    → pos 0 -ℤ to_signed (2 ^ 31) (to_unsigned (2 ^ 32) (pos 0 -ℤ offset)) ≡ offset
offset-round_trip (pos n) h = ground arith
offset-round_trip (negsuc n) h = ground arith

-- A time of 64 bits with an offset between -2 ^ 31 and 2 ^ 31, both excluded, is read back behind its length
-- as it was written.
pub read_time_tz-write_time_tz :
    (micros : ℕ) (offset : ℤ) (rest : Bytes)
    → micros < 2 ^ 64
    → (ltbℤ (negsuc (2 ^ 31 - 1)) offset && ltbℤ offset (pos (2 ^ 31))) ≡ true
    → behind_length read_time_tz (write_time_tz micros offset ++ rest)
      ≡ ok (12, ((micros, offset), rest))
unfolding write_time_tz read_time_tz
read_time_tz-write_time_tz micros offset rest bound h =
    rw
      (append_assoc (write_raw_integer 4 12)
          (write_raw_integer 8 micros
            ++ write_raw_integer 4 (to_unsigned (2 ^ 32) (pos 0 -ℤ offset)))
          rest
        ∙ ap (λ x. write_raw_integer 4 12 ++ x)
            (append_assoc (write_raw_integer 8 micros)
              (write_raw_integer 4 (to_unsigned (2 ^ 32) (pos 0 -ℤ offset))) rest))
      (rw
        (read_integer-write_raw_integer 4 12
          (write_raw_integer 8 micros
            ++ (write_raw_integer 4 (to_unsigned (2 ^ 32) (pos 0 -ℤ offset)) ++ rest))
          (omega arith))
        (rw
          (read_integer-write_raw_integer 8 micros
            (write_raw_integer 4 (to_unsigned (2 ^ 32) (pos 0 -ℤ offset)) ++ rest) (omega arith))
          (rw
            (read_integer-write_raw_integer 4 (to_unsigned (2 ^ 32) (pos 0 -ℤ offset)) rest
              (omega (arith, to_unsigned-bound (pos 0 -ℤ offset))))
            (rw (offset-round_trip offset h) refl))))
