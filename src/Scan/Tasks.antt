-- ===== src/Scan/Tasks.antt =====
-- The tasks of a parallel scan in src/postgres_scanner.cpp cut the pages of the table into parts.
use duckdb_postgres.Common.{
  ℕ, zero, suc, ◌+◌, ◌^◌, ◌<◌, ◌≤◌, Bool, ◌&&◌, ◌||◌, List, [], ◌∷◌, none, some, ◌==◌, ltb,
  if◌then◌else◌, ◌≡◌, refl, ap, ◌∙◌, arith, Bool-cases, inl, inr, ◌⊎◌,
}
use duckdb_postgres.Common.{lt→ltb}
use duckdb_postgres.Scan.{
  task_end, put, BindData, GlobalState, Task, postgres_tid_max, parallel_state_next, draw,
}

-- The tasks begin at `low`, each where the one before it ended, none empty, and end at `high`.
abbrev pub Covers : ℕ → ℕ → List Task → Type 0
Covers low high [] = low ≡ high
Covers low high (t ∷ ts) =
    (t.task_min ≡ low) × (t.task_min < t.task_max) × Covers t.task_max high ts

-- The batches of the tasks count up from `n`.
abbrev pub Batches : ℕ → List Task → Type 0
Batches n [] = Unit
Batches n (t ∷ ts) = (t.batch ≡ n) × Batches (n + 1) ts

next-end :
    (b : BindData) (g : GlobalState)
    → b.pages_approx ≤ g.page_idx
    → parallel_state_next b g ≡ (record g { batch_idx = g.batch_idx + 1 }, none)
unfolding parallel_state_next
next-end b g h = ground arith

-- Where a task can begin: at 0, or behind another; then a sum does not wrap.
abbrev IsStart : BindData → ℕ → Type 0
IsStart b page_idx = (page_idx ≡ 0) ⊎ (b.pages_per_task ≤ page_idx)

-- A task is not empty, and ends at the last page or at a page that the next task can begin at.
task_end-lem :
    (b : BindData) (page_idx : ℕ)
    → 0 < b.pages_per_task
    → b.pages_per_task < 2 ^ 64
    → b.pages_approx ≤ postgres_tid_max
    → page_idx < b.pages_approx
    → IsStart b page_idx
    → (page_idx < task_end b page_idx)
      × ((task_end b page_idx ≡ postgres_tid_max)
          ⊎ ((task_end b page_idx < b.pages_approx) × (b.pages_per_task ≤ task_end b page_idx)))
unfolding task_end
task_end-lem b page_idx some_page bound pages left start = ground arith

next-task :
    (b : BindData) (g : GlobalState)
    → g.page_idx < b.pages_approx
    → parallel_state_next b g ≡ (
      record { page_idx = task_end b g.page_idx; batch_idx = g.batch_idx + 1 },
      some
          (record { batch = g.batch_idx; task_min = g.page_idx; task_max = task_end b g.page_idx }),
    )
unfolding parallel_state_next
next-task b g left = rw (lt→ltb g.page_idx b.pages_approx left) refl

draw-step :
    (b : BindData) (calls : ℕ) (g : GlobalState)
    → draw b (suc calls) g ≡ (
      (draw b calls (parallel_state_next b g).0).0,
      put (parallel_state_next b g).1 (draw b calls (parallel_state_next b g).0).1,
    )
unfolding draw
draw-step b calls g = refl

module _ (b : BindData) (some_page : 0 < b.pages_per_task) (bound : b.pages_per_task < 2 ^ 64)
    (pages : b.pages_approx ≤ postgres_tid_max) where
  draw-end : (calls : ℕ) (g : GlobalState) → b.pages_approx ≤ g.page_idx → (draw b calls g).1 ≡ []
  unfolding draw
  draw-end zero g h = refl
  draw-end (suc calls) g h =
      ap (λ x. x.1) (draw-step b calls g)
      ∙ rw (next-end b g h) (draw-end calls (record g { batch_idx = g.batch_idx + 1 }) h)

  draw-Covers :
      (calls : ℕ) (g : GlobalState)
      → (g.page_idx ≡ postgres_tid_max) ⊎ ((g.page_idx < b.pages_approx) × IsStart b g.page_idx)
      → b.pages_approx ≤ g.page_idx + calls
      → Covers g.page_idx postgres_tid_max (draw b calls g).1
        × Batches g.batch_idx (draw b calls g).1
  draw-Covers calls g (inl e) h = rw (draw-end calls g (omega arith)) (e, tt)
  draw-Covers zero g (inr (l, start)) h = absurd (omega arith)
  draw-Covers (suc calls) g (inr (l, start)) h =
      let (lt, left) = task_end-lem b g.page_idx some_page bound pages l start in
      let (covers, batches) =
        draw-Covers calls (record { page_idx = task_end b g.page_idx; batch_idx = g.batch_idx + 1 })
          (next_start left) (omega arith) in
      rw (draw-step b calls g) (rw (next-task b g l) ((refl, lt, covers), (refl, batches)))
    where
      next_start :
          (task_end b g.page_idx ≡ postgres_tid_max)
            ⊎ ((task_end b g.page_idx < b.pages_approx)
                × (b.pages_per_task ≤ task_end b g.page_idx))
          → (task_end b g.page_idx ≡ postgres_tid_max)
            ⊎ ((task_end b g.page_idx < b.pages_approx) × IsStart b (task_end b g.page_idx))
      next_start (inl e) = inl e
      next_start (inr (l, p)) = inr (l, inr p)

-- For a table of 1 to `POSTGRES_TID_MAX` pages and a task size that is not 0 and has 64 bits:
-- once as many calls were made as the table has pages, from whichever threads, the tasks are the pages
-- from 0 to `POSTGRES_TID_MAX` cut into parts that are not empty, each page in one, and their batch
-- numbers count up from 0.
pub draw-partition :
    (b : BindData) (calls : ℕ)
    → 0 < b.pages_per_task
    → b.pages_per_task < 2 ^ 64
    → 0 < b.pages_approx
    → b.pages_approx ≤ postgres_tid_max
    → b.pages_approx ≤ calls
    → Covers 0 postgres_tid_max (draw b calls (record { page_idx = 0; batch_idx = 0 })).1
      × Batches 0 (draw b calls (record { page_idx = 0; batch_idx = 0 })).1
draw-partition b calls some_page bound some_pages pages enough =
    draw-Covers b some_page bound pages calls (record { page_idx = 0; batch_idx = 0 })
      (inr (some_pages, inl refl)) (omega arith)

-- `ctid BETWEEN '(task_min,0)' AND '(task_max,0)'` for the row with the number `offset` on a page.
abbrev pub in_range : ℕ → ℕ → Task → Bool
in_range page offset t =
    (ltb t.task_min page || t.task_min == page)
    && (ltb page t.task_max || (page == t.task_max && offset == 0))

-- How many of the tasks read the row.
abbrev pub readers : ℕ → ℕ → List Task → ℕ
readers page offset [] = 0
readers page offset (t ∷ ts) = (if in_range page offset t then 1 else 0) + readers page offset ts

readers-before :
    (page offset low high : ℕ) (ts : List Task)
    → Covers low high ts
    → page < low
    → readers page offset ts ≡ 0
readers-before page offset low high [] h l = refl
readers-before page offset low high (t ∷ ts) (start, some_page, h) l =
    ground (arith, readers-before page offset t.task_max high ts h (omega arith))

readers-Covers :
    (page offset low high : ℕ) (ts : List Task)
    → Covers low high ts
    → low ≤ page
    → page < high
    → 0 < offset
    → readers page offset ts ≡ 1
readers-Covers page offset low high [] h l u o = absurd (omega arith)
readers-Covers page offset low high (t ∷ ts) (start, some_page, h) l u o =
    elim (Bool-cases (ltb page t.task_max)) [
      | inl e ↦ ground (arith, readers-before page offset t.task_max high ts h (ground arith))
      | inr e ↦ ground (arith, readers-Covers page offset t.task_max high ts h (ground arith) u o)
    ]

-- Under the conditions of a partition, every row below the last page, whose number on its page is 1 or
-- larger as the server counts, is within the `ctid` range of one task and no more.
pub draw-each_row_once :
    (b : BindData) (calls page offset : ℕ)
    → 0 < b.pages_per_task
    → b.pages_per_task < 2 ^ 64
    → 0 < b.pages_approx
    → b.pages_approx ≤ postgres_tid_max
    → b.pages_approx ≤ calls
    → page < postgres_tid_max
    → 0 < offset
    → readers page offset (draw b calls (record { page_idx = 0; batch_idx = 0 })).1 ≡ 1
draw-each_row_once b calls page offset some_page bound some_pages pages enough below row =
    readers-Covers page offset 0 postgres_tid_max
      (draw b calls (record { page_idx = 0; batch_idx = 0 })).1
      (draw-partition b calls some_page bound some_pages pages enough).0 (omega arith) below row
