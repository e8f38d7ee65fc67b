-- ===== src/Version/Order.antt =====
-- The order of the versions.
use duckdb_postgres.Common.{◌<◌, true, ◌≡◌, ◌⊎◌, ◌↔◌, arith}
use duckdb_postgres.Version.{PostgresVersion, less, less_equal, greater, greater_equal}

-- The order of the three numbers, the first that differs deciding.
abbrev pub Before : PostgresVersion → PostgresVersion → Type 0
Before a b =
    (a.major_v < b.major_v)
    ⊎ ((a.major_v ≡ b.major_v)
        × ((a.minor_v < b.minor_v) ⊎ ((a.minor_v ≡ b.minor_v) × (a.patch_v < b.patch_v))))

abbrev pub SameNumbers : PostgresVersion → PostgresVersion → Type 0
SameNumbers a b = (a.major_v ≡ b.major_v) × (a.minor_v ≡ b.minor_v) × (a.patch_v ≡ b.patch_v)

-- The four comparison operators decide one total order on versions: `<` holds exactly when the first of
-- the major, minor and patch numbers that differs is smaller, `>` is its converse, and `<=` and `>=` hold
-- exactly when the numbers are the same or the strict order holds.
pub less-lexicographic :
    (a b : PostgresVersion)
    → ((less a b ≡ true) ↔ Before a b)
      × ((greater a b ≡ true) ↔ Before b a)
      × ((less_equal a b ≡ true) ↔ (Before a b ⊎ SameNumbers a b))
      × ((greater_equal a b ≡ true) ↔ (Before b a ⊎ SameNumbers a b))
unfolding less_equal greater greater_equal less
less-lexicographic a b = (ground arith, ground arith, ground arith, ground arith)
