-- ===== src/Version.antt =====
-- src/include/postgres_version.hpp and `ExtractPostgresVersion` of src/postgres_utils.cpp: server versions.
pub mod Order
pub mod Parse
mod Examples
use duckdb_postgres.Common.{
  ℕ, zero, suc, ◌+◌, ◌-◌, ◌*◌, ◌^◌, Bool, true, false, not, ◌&&◌, ◌||◌, List, [], ◌∷◌, ◌++◌, Option,
  none, some, ◌==◌, leb, ltb, if◌then◌else◌, Bytes, codes, equal, length, is_digit, digits_value,
}

pub data PostgresInstanceType : Type 0 where
  unknown postgres aurora redshift : PostgresInstanceType

pub record PostgresVersion : Type 0 where
  pub major_v : ℕ
  pub minor_v : ℕ
  pub patch_v : ℕ
  pub type_v : PostgresInstanceType

-- `operator<`, and the three operators that are defined by it.
unfoldable pub less : PostgresVersion → PostgresVersion → Bool
less a b =
    if ltb a.major_v b.major_v
    then true
    else if ltb b.major_v a.major_v
    then false
    else if ltb a.minor_v b.minor_v
    then true
    else if ltb b.minor_v a.minor_v
    then false
    else ltb a.patch_v b.patch_v

unfoldable pub less_equal : PostgresVersion → PostgresVersion → Bool
less_equal a b = not (less b a)

unfoldable pub greater : PostgresVersion → PostgresVersion → Bool
greater a b = less b a

unfoldable pub greater_equal : PostgresVersion → PostgresVersion → Bool
greater_equal a b = not (less a b)

-- `StringUtil::Contains`.
abbrev pub is_prefix : Bytes → Bytes → Bool
is_prefix [] _ = true
is_prefix (p ∷ ps) [] = false
is_prefix (p ∷ ps) (c ∷ r) = p == c && is_prefix ps r

abbrev pub contains : Bytes → Bytes → Bool
contains [] word = is_prefix word []
contains (c ∷ r) word = is_prefix word (c ∷ r) || contains r word

unfoldable pub skip_to_digit : Bytes → Bytes
skip_to_digit [] = []
skip_to_digit (c ∷ r) = if is_digit c then c ∷ r else skip_to_digit r

-- The loop over the digits: those from `pos` on, and what stands behind them.
unfoldable pub span_digits : Bytes → Bytes × Bytes
span_digits [] = ([], [])
span_digits (c ∷ r) =
    let rest = span_digits r in if is_digit c then (c ∷ rest.0, rest.1) else ([], c ∷ r)

-- `std::strtoll` on digits: it stops at the largest number.
abbrev pub strtoll : Bytes → ℕ
strtoll ds = let n = digits_value 0 ds in if ltb n (2 ^ 63) then n else 2 ^ 63 - 1

abbrev pub set_part : ℕ → ℕ → PostgresVersion → PostgresVersion
set_part zero n v = record v { major_v = n }
set_part (suc zero) n v = record v { minor_v = n }
set_part (suc (suc _)) n v = record v { patch_v = n }

-- The loop over the three numbers: `rounds` are left, `version_idx` is the number of the round.
unfoldable pub version_parts : ℕ → ℕ → Bytes → PostgresVersion → PostgresVersion
version_parts zero version_idx s v = v
version_parts (suc rounds) version_idx s v = elim (span_digits s).0 [
  | [] ↦ v
  | d ∷ ds ↦
      let next = set_part version_idx (strtoll (d ∷ ds)) v in
      elim (span_digits s).1 [
        | [] ↦ next
        | c ∷ r ↦ if c == b'.' then version_parts rounds (suc version_idx) r next else next
      ]
]

unfoldable pub extract_postgres_version : Bytes → PostgresVersion
extract_postgres_version version_str = version_parts 3 0 (skip_to_digit version_str) (record {
  major_v = 0;
  minor_v = 0;
  patch_v = 0;
  type_v = if contains version_str (codes "PostgreSQL") then postgres else unknown;
})
