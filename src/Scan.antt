-- ===== src/Scan.antt =====
-- src/postgres_scanner.cpp: a scan of a table, which several threads read in tasks of some pages each.
pub mod Bind
pub mod Tasks
pub mod Query
pub mod Connections
mod Examples
use duckdb_postgres.Common.{
  ℕ, zero, suc, ◌+◌, ◌-◌, ◌*◌, ◌/◌, ◌%◌, ◌^◌, Bool, true, false, not, ◌&&◌, ◌||◌, List, [], ◌∷◌,
  Option, none, some, ◌==◌, leb, ltb, if◌then◌else◌, Bytes, map,
}
use duckdb_postgres.Common.Int.{ℤ, pos, negsuc}
use duckdb_postgres.Version.{PostgresVersion, PostgresInstanceType, redshift}

-- `POSTGRES_TID_MAX` and `DEFAULT_PAGES_PER_TASK`.
abbrev pub postgres_tid_max : ℕ
postgres_tid_max = 4294967295

abbrev pub default_pages_per_task : ℕ
default_pages_per_task = 1000

-- The fields of `PostgresBindData` that decide on threads and tasks.
pub record BindData : Type 0 where
  pub pages_approx : ℕ
  pub pages_per_task : ℕ
  pub max_threads : ℕ
  pub read_only : Bool
  pub use_text_protocol : Bool
  pub requires_materialization : Bool
  pub can_use_main_thread : Bool

abbrev pub max : ℕ → ℕ → ℕ
max a b = if ltb a b then b else a

unfoldable pub set_table_pages : ℕ → BindData → BindData
set_table_pages approx_num_pages b = record b {
  pages_approx = approx_num_pages;
  max_threads =
      if not b.read_only || b.use_text_protocol
      then 1
      else max (approx_num_pages / b.pages_per_task) 1;
}

-- The settings that a bind reads; none is a setting that is not there.
pub record ScanSettings : Type 0 where
  pub pg_pages_per_task : Option ℕ
  pub pg_use_ctid_scan : Option Bool

abbrev pub is_redshift : PostgresInstanceType → Bool
is_redshift redshift = true
is_redshift _ = false

-- The protocol; `catalog` is what `UseTextProtocol` of the attached catalog, if there is one, says on the
-- setting.
unfoldable pub resolve_protocol : PostgresVersion → Option (Bool → Bool) → Bool → Bool
resolve_protocol version (some use_text) setting = use_text setting
resolve_protocol version none setting = if is_redshift version.type_v then true else setting

unfoldable pub resolve_pages_per_task : Option ℕ → ℕ → ℕ
resolve_pages_per_task none pages_per_task = pages_per_task
resolve_pages_per_task (some n) pages_per_task = if n == 0 then default_pages_per_task else n

abbrev pub or_true : Option Bool → Bool
or_true none = true
or_true (some b) = b

abbrev pub is_negative : ℤ → Bool
is_negative (pos n) = false
is_negative (negsuc n) = true

unfoldable pub use_ctid_scan : PostgresVersion → ScanSettings → Bool → ℤ → Bool
use_ctid_scan version settings text approx_num_pages =
    or_true settings.pg_use_ctid_scan
    && not text
    && not (ltb version.major_v 14)
    && not (is_negative approx_num_pages)

abbrev pub page_count : ℤ → ℕ
page_count (pos n) = n
page_count (negsuc n) = 0

-- `PrepareBind`.
unfoldable pub prepare_bind :
    PostgresVersion → ScanSettings → Option (Bool → Bool) → ℤ → BindData → BindData
prepare_bind version settings catalog approx_num_pages b =
    let text = resolve_protocol version catalog b.use_text_protocol in
    set_table_pages
      (if use_ctid_scan version settings text approx_num_pages
        then page_count approx_num_pages
        else 0)
      (record b {
        use_text_protocol = text;
        pages_per_task = resolve_pages_per_task settings.pg_pages_per_task b.pages_per_task;
      })

unfoldable pub postgres_max_threads : BindData → ℕ
postgres_max_threads b = if b.requires_materialization then 1 else b.max_threads

-- The counters of `PostgresGlobalState`, which its lock guards.
pub record GlobalState : Type 0 where
  pub page_idx : ℕ
  pub batch_idx : ℕ

-- What a local state is given: the number of the batch, and the pages of its query.
pub record Task : Type 0 where
  pub batch : ℕ
  pub task_min : ℕ
  pub task_max : ℕ

-- The end of a task that begins at `page_idx`; `idx_t` has 64 bits. `relpages` is not the number of pages,
-- so the last task has no end.
unfoldable pub task_end : BindData → ℕ → ℕ
task_end b page_idx =
    let page_max = (page_idx + b.pages_per_task) % 2 ^ 64 in
    if leb b.pages_approx page_max || ltb postgres_tid_max page_max
    then postgres_tid_max
    else page_max

-- `PostgresParallelStateNext`, under the lock. Without a task the local state is done.
unfoldable pub parallel_state_next : BindData → GlobalState → GlobalState × Option Task
parallel_state_next b g =
    let page_max = task_end b g.page_idx in
    if ltb g.page_idx b.pages_approx
    then (
      record { page_idx = page_max; batch_idx = g.batch_idx + 1 },
      some (record { batch = g.batch_idx; task_min = g.page_idx; task_max = page_max }),
    )
    else (record g { batch_idx = g.batch_idx + 1 }, none)

-- The first task of a local state, in `GetLocalState`.
unfoldable pub first_task : BindData → GlobalState → GlobalState × Option Task
first_task b g =
    if b.pages_approx == 0 || b.requires_materialization
    then (
      record g { page_idx = postgres_tid_max },
      some (record { batch = 0; task_min = 0; task_max = postgres_tid_max }),
    )
    else parallel_state_next b g

abbrev pub put : Option Task → List Task → List Task
put none ts = ts
put (some t) ts = t ∷ ts

-- The tasks that the threads draw from a state, in the order in which they get the lock: each call
-- comes from whichever thread finished its task.
unfoldable pub draw : BindData → ℕ → GlobalState → GlobalState × List Task
draw b zero g = (g, [])
draw b (suc calls) g =
    let step = parallel_state_next b g in
    let rest = draw b calls step.0 in (rest.0, put step.1 rest.1)
