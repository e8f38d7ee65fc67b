-- ===== src/Scan/Bind.antt =====
-- `PrepareBind` of src/postgres_scanner.cpp: pages, tasks and threads.
use duckdb_postgres.Common.{
  ℕ, ◌<◌, Bool, false, not, ◌||◌, Option, none, some, ltb, if◌then◌else◌, ◌≡◌, refl, arith,
  Bool-cases, inl, inr, ◌⊎◌,
}
use duckdb_postgres.Common.Int.{ℤ}
use duckdb_postgres.Version.{PostgresVersion}
use duckdb_postgres.Scan.{
  page_count, BindData, ScanSettings, prepare_bind, set_table_pages, resolve_protocol,
  resolve_pages_per_task, postgres_max_threads, use_ctid_scan,
}

resolve_pages_per_task-positive :
    (setting : Option ℕ) (pages_per_task : ℕ)
    → 0 < pages_per_task
    → 0 < resolve_pages_per_task setting pages_per_task
unfolding resolve_pages_per_task
resolve_pages_per_task-positive none pages_per_task h = h
resolve_pages_per_task-positive (some n) pages_per_task h = ground arith

set_table_pages-threads :
    (n : ℕ) (b : BindData)
    → (0 < postgres_max_threads (set_table_pages n b))
      × (((b.use_text_protocol || not b.read_only) ≡ false)
          ⊎ (postgres_max_threads (set_table_pages n b) ≡ 1))
unfolding set_table_pages postgres_max_threads
set_table_pages-threads n b = elim (Bool-cases b.requires_materialization) [
  | inl e ↦ rw e (ground arith, inr refl)
  | inr e ↦ rw e (elim (Bool-cases b.use_text_protocol) [
    | inl t ↦ rw t (elim (Bool-cases b.read_only) [
      | inl r ↦ rw r (ground arith, inr refl)
      | inr r ↦ rw r (ground arith, inr refl)
    ])
    | inr t ↦ rw t (elim (Bool-cases b.read_only) [
      | inl r ↦ rw r (ground arith, inl refl)
      | inr r ↦ rw r (ground arith, inr refl)
    ])
  ])
]

use_ctid_scan-old :
    (version : PostgresVersion) (settings : ScanSettings) (text : Bool) (approx_num_pages : ℤ)
    → ((text || ltb version.major_v 14) ≡ false)
      ⊎ (use_ctid_scan version settings text approx_num_pages ≡ false)
unfolding use_ctid_scan
use_ctid_scan-old version settings text approx_num_pages = ground arith

-- After a bind, whatever the settings are: no task is empty, if the task size of the bind data was not 0;
-- there is one thread at least; and over the text protocol or for a scan that is not read-only there is
-- no more than one. Over the text protocol, or on a server older than version 14, there are no tasks.
pub prepare_bind-threads :
    (version : PostgresVersion) (settings : ScanSettings) (catalog : Option (Bool → Bool))
    (approx_num_pages : ℤ) (b : BindData)
    → 0 < b.pages_per_task
    → let bound = prepare_bind version settings catalog approx_num_pages b in
      (0 < bound.pages_per_task)
      × (0 < postgres_max_threads bound)
      × (((bound.use_text_protocol || not bound.read_only) ≡ false)
          ⊎ (postgres_max_threads bound ≡ 1))
      × (((bound.use_text_protocol || ltb version.major_v 14) ≡ false) ⊎ (bound.pages_approx ≡ 0))
unfolding prepare_bind set_table_pages
prepare_bind-threads version settings catalog approx_num_pages b some_page =
    let text = resolve_protocol version catalog b.use_text_protocol in
    let threads =
      set_table_pages-threads
        (if use_ctid_scan version settings text approx_num_pages
          then page_count approx_num_pages
          else 0)
        (record b {
          use_text_protocol = text;
          pages_per_task = resolve_pages_per_task settings.pg_pages_per_task b.pages_per_task;
        }) in
    (
      resolve_pages_per_task-positive settings.pg_pages_per_task b.pages_per_task some_page,
      threads.0,
      threads.1,
      elim (use_ctid_scan-old version settings text approx_num_pages) [
        | inl e ↦ inl e
        | inr e ↦ inr (rw e refl)
      ],
    )
