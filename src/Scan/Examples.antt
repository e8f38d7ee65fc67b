-- ===== src/Scan/Examples.antt =====
-- The theorems on scans at a table of 2500 pages.
use duckdb_postgres.Transaction.{repeatable_read}
use duckdb_postgres.Scan.Connections.{
  Answers, Catalog, Timeouts, get_snapshot, connections, OneMain, try_open_new_connection-OneMain,
}
use duckdb_postgres.Common.{
  ap, sym, length, leb, List, Option, err, io_error, ◌≢◌, ◌<◌, true, false, not, ◌||◌, [], ◌∷◌,
  ◌++◌, none, some, Bytes, codes, ok, ◌≡◌, refl, arith, ◌⊎◌, ltb,
}
use duckdb_postgres.Common.Int.{pos}
use duckdb_postgres.Version.{PostgresVersion, postgres}
use duckdb_postgres.Types.Data.{type_of, integer, postgres_type, standard, no_children}
use duckdb_postgres.Scan.{BindData, ScanSettings, draw, prepare_bind, postgres_max_threads}
use duckdb_postgres.Scan.Bind.{prepare_bind-threads}
use duckdb_postgres.Scan.Tasks.{readers, draw-each_row_once}
use duckdb_postgres.Scan.Query.{
  QueryData, column, row_id, column_text, column_cast, contains_cast_to_varchar,
  any_contains_cast_to_varchar, select_list, join, select_list-join,
}

abbrev table : BindData
table = record {
  pages_approx = 2500;
  pages_per_task = 1000;
  max_threads = 2;
  read_only = true;
  use_text_protocol = false;
  requires_materialization = false;
  can_use_main_thread = true;
}

draw-each_row_once_example :
    readers 1999 1 (draw table 2500 (record { page_idx = 0; batch_idx = 0 })).1 ≡ 1
draw-each_row_once_example =
    draw-each_row_once table 2500 1999 1 (omega arith) (omega arith) (omega arith) (omega arith)
      (omega arith) (omega arith) (omega arith)

abbrev server_version : PostgresVersion
server_version = record { major_v = 16; minor_v = 2; patch_v = 0; type_v = postgres }

abbrev no_settings : ScanSettings
no_settings = record { pg_pages_per_task = some 0; pg_use_ctid_scan = none }

prepare_bind-threads_example :
    (0 < (prepare_bind server_version no_settings none (pos 2500) table).pages_per_task)
    × (0 < postgres_max_threads (prepare_bind server_version no_settings none (pos 2500) table))
    × ((((prepare_bind server_version no_settings none (pos 2500) table).use_text_protocol
            || not (prepare_bind server_version no_settings none (pos 2500) table).read_only)
          ≡ false)
        ⊎ (postgres_max_threads (prepare_bind server_version no_settings none (pos 2500) table)
            ≡ 1))
    × ((((prepare_bind server_version no_settings none (pos 2500) table).use_text_protocol
            || ltb 16 14)
          ≡ false)
        ⊎ ((prepare_bind server_version no_settings none (pos 2500) table).pages_approx ≡ 0))
prepare_bind-threads_example =
    prepare_bind-threads server_version no_settings none (pos 2500) table (omega arith)

abbrev quote : Bytes → Bytes
quote s = b'"' ∷ (s ++ b'"' ∷ [])

abbrev query_data : QueryData
query_data = record {
  schema_name = codes "public";
  table_name = codes "t";
  sql = [];
  columns =
      record {
        name = codes "a";
        pg_type = postgres_type 0 standard no_children;
        type = type_of none integer;
      }
      ∷ [];
  pages_approx = 2500;
  emit_ctid = true;
  use_text_protocol = false;
  order_by_clause = [];
  limit_clause = [];
}

select_list-join_example :
    select_list quote [] query_data [] (column 0 ∷ row_id ∷ [])
    ≡ ok (join quote [] (codes "\"a\"") (codes "ctid" ∷ []))
select_list-join_example =
    select_list-join quote [] query_data (column 0) (row_id ∷ []) (codes "\"a\"")
      (codes "ctid" ∷ [])
      (
        (unfold column_text column_cast contains_cast_to_varchar any_contains_cast_to_varchar in
            refl),
        refl,
        ((unfold column_text in refl), refl, tt),
      )

false-true : false ≡ true → ⊥
false-true h = cc

abbrev asked : List Answers
asked =
    record { force_acquire = err io_error; try_get_connection = ok none; open_connection = ok 0 }
    ∷ record { force_acquire = ok 1; try_get_connection = ok (some 1); open_connection = ok 1 }
    ∷ record { force_acquire = ok 2; try_get_connection = ok (some 2); open_connection = ok 2 }
    ∷ []

abbrev attached : Option Catalog
attached = some (record { read_only = true; isolation_level = repeatable_read })

abbrev no_timeouts : Timeouts
no_timeouts = record { statement_timeout = none; idle_timeout = some 5 }

exported_snapshot : get_snapshot 4 attached (some (codes "0-1")) ≢ []
unfolding get_snapshot
exported_snapshot h = false-true (ap (λ s. leb 1 (length s)) (sym h))

try_open_new_connection-OneMain_example :
    OneMain no_timeouts (get_snapshot 4 attached (some (codes "0-1"))) false attached (
      connections no_timeouts
        (get_snapshot 4 attached (some (codes "0-1")))
        false
        attached
        false
        asked)
try_open_new_connection-OneMain_example =
    try_open_new_connection-OneMain no_timeouts false 4 attached (some (codes "0-1")) asked
      exported_snapshot
