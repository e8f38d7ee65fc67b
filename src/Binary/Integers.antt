-- ===== src/Binary/Integers.antt =====
-- Integers in network byte order: `WriteRawInteger` and `ReadInteger`. A value of w bytes is a number
-- below 256 ^ w; a signed one is its two's complement pattern.
use native.Mathlib.Nat.{pow-suc}
use duckdb_postgres.Common.{
  ℕ, zero, suc, ◌+◌, ◌*◌, ◌/◌, ◌%◌, ◌^◌, ◌<◌, leb, [], ◌∷◌, ◌++◌, if◌then◌else◌, Bytes, Result, ok,
  err, io_error, ◌≡◌, refl, ◌∙◌, arith, length, take, drop, length-append, take_exact, drop_exact,
}

-- `WriteRawInteger<T>` with sizeof(T) = w: the most significant byte comes first.
unfoldable pub write_raw_integer : ℕ → ℕ → Bytes
write_raw_integer zero v = []
write_raw_integer (suc w) v = write_raw_integer w (v / 256) ++ (v % 256) ∷ []

unfoldable pub big_endian : ℕ → Bytes → ℕ
big_endian acc [] = acc
big_endian acc (b ∷ r) = big_endian (acc * 256 + b) r

-- `ReadInteger<T>`: the value, and the rest of the buffer.
unfoldable pub read_integer : ℕ → Bytes → Result (ℕ × Bytes)
read_integer w buffer =
    if leb w (length buffer) then ok (big_endian 0 (take w buffer), drop w buffer) else err io_error

big_endian-concat :
    (acc : ℕ) (bs : Bytes) (b : ℕ) → big_endian acc (bs ++ b ∷ []) ≡ big_endian acc bs * 256 + b
unfolding big_endian
big_endian-concat acc [] b = refl
big_endian-concat acc (c ∷ r) b = big_endian-concat (acc * 256 + c) r b

pub length-write_raw_integer : (w v : ℕ) → length (write_raw_integer w v) ≡ w
unfolding write_raw_integer
length-write_raw_integer zero v = refl
length-write_raw_integer (suc w) v = omega (
  arith,
  length-append (write_raw_integer w (v / 256)) ((v % 256) ∷ []),
  length-write_raw_integer w (v / 256),
)

pub big_endian-write_raw_integer :
    (w v : ℕ) → v < 256 ^ w → big_endian 0 (write_raw_integer w v) ≡ v
unfolding write_raw_integer big_endian
big_endian-write_raw_integer zero v h = omega arith
big_endian-write_raw_integer (suc w) v h =
    big_endian-concat 0 (write_raw_integer w (v / 256)) (v % 256)
    ∙ rw (big_endian-write_raw_integer w (v / 256) (omega (arith, h, pow-suc 256 w))) (omega arith)

-- What `WriteRawInteger` writes, `ReadInteger` of the same width reads, and no byte more.
pub read_integer-write_raw_integer :
    (w v : ℕ) (rest : Bytes)
    → v < 256 ^ w
    → read_integer w (write_raw_integer w v ++ rest) ≡ ok (v, rest)
unfolding read_integer
read_integer-write_raw_integer w v rest h =
    let n = length-write_raw_integer w v in
    rw (take_exact w (write_raw_integer w v) rest n) (
      rw (drop_exact w (write_raw_integer w v) rest n) (
        rw (big_endian-write_raw_integer w v h)
          (ground (arith, n, length-append (write_raw_integer w v) rest))))

-- A reader that drops the value.
pub read_integer-skips :
    (w v : ℕ) (rest : Bytes)
    → (u : ℕ) × (read_integer w (write_raw_integer w v ++ rest) ≡ ok (u, rest))
unfolding read_integer
read_integer-skips w v rest =
    let n = length-write_raw_integer w v in
    (
      big_endian 0 (write_raw_integer w v),
      rw (take_exact w (write_raw_integer w v) rest n) (
          rw (drop_exact w (write_raw_integer w v) rest n)
            (ground (arith, n, length-append (write_raw_integer w v) rest))),
    )
