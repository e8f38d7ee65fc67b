-- ===== src/Version/Examples.antt =====
-- The theorems on versions at written versions.
use duckdb_postgres.Common.{ℕ, true, ◌∷◌, ◌++◌, codes, ◌≡◌, refl, arith, ◌⊎◌, ◌↔◌, decimal_text}
use duckdb_postgres.Version.{
  PostgresVersion, postgres, less, less_equal, greater, greater_equal, extract_postgres_version,
}
use duckdb_postgres.Version.Order.{Before, SameNumbers, less-lexicographic}
use duckdb_postgres.Version.Parse.{extract_postgres_version-three}

abbrev version_of : ℕ → ℕ → ℕ → PostgresVersion
version_of major minor patch = record {
  major_v = major;
  minor_v = minor;
  patch_v = patch;
  type_v = postgres;
}

less-lexicographic_example :
    ((less (version_of 9 6 24) (version_of 14 2 0) ≡ true)
      ↔ Before (version_of 9 6 24) (version_of 14 2 0))
    × ((greater (version_of 9 6 24) (version_of 14 2 0) ≡ true)
        ↔ Before (version_of 14 2 0) (version_of 9 6 24))
    × ((less_equal (version_of 9 6 24) (version_of 14 2 0) ≡ true) ↔ (
        Before (version_of 9 6 24) (version_of 14 2 0)
        ⊎ SameNumbers (version_of 9 6 24) (version_of 14 2 0)))
    × ((greater_equal (version_of 9 6 24) (version_of 14 2 0) ≡ true) ↔ (
        Before (version_of 14 2 0) (version_of 9 6 24)
        ⊎ SameNumbers (version_of 9 6 24) (version_of 14 2 0)))
less-lexicographic_example = less-lexicographic (version_of 9 6 24) (version_of 14 2 0)

extract_postgres_version-three_example :
    extract_postgres_version (
      codes "PostgreSQL "
      ++ (decimal_text 9
          ++ b'.' ∷ (decimal_text 6 ++ b'.' ∷ (decimal_text 24 ++ codes " on x86_64"))))
    ≡ version_of 9 6 24
extract_postgres_version-three_example =
    extract_postgres_version-three 9 6 24 (codes " on x86_64") (omega arith) (omega arith)
      (omega arith) (refl, refl)
