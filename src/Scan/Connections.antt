-- ===== src/Scan/Connections.antt =====
-- The connections of the threads of a scan: `PostgresGetSnapshot`, `PostgresScanConnect` and
-- `TryOpenNewConnection` of src/postgres_scanner.cpp. The server's answer to the export of a snapshot, and those
-- of the connection pool and of the opening of a connection, are parameters.
use duckdb_postgres.Common.{
  ℕ, Bool, true, false, List, [], ◌∷◌, ◌++◌, Option, none, some, leb, if◌then◌else◌, Bytes, codes,
  decimal_text, Result, ok, err, ◌>>=◌, internal, ◌≡◌, ◌≢◌, refl, ap, inl, inr, ◌⊎◌, Bool-cases,
  All,
}
use mathlib.Core.Option as Option
use duckdb_postgres.Transaction.{
  PostgresIsolationLevel, read_committed, repeatable_read, get_begin_transaction_query,
}

-- What the scan reads of an attached catalog.
pub record Catalog : Type 0 where
  pub read_only : Bool
  pub isolation_level : PostgresIsolationLevel

pub record Timeouts : Type 0 where
  pub statement_timeout : Option ℕ
  pub idle_timeout : Option ℕ

pub data Source : Type 0 where
  main_connection : Source
  pool_connection own_connection : ℕ → Source

-- A connection that a thread is given, and what `PostgresScanConnect` sent on it.
pub record Handed : Type 0 where
  pub source : Source
  pub sent : List Bytes

abbrev pub is_read_committed : PostgresIsolationLevel → Bool
is_read_committed read_committed = true
is_read_committed level = false

abbrev pub reads_committed : Option Catalog → Bool
reads_committed none = false
reads_committed (some c) = is_read_committed c.isolation_level

abbrev pub or_empty : Option Bytes → Bytes
or_empty none = []
or_empty (some s) = s

-- `PostgresGetSnapshot`: `exported` is the answer to the export, if there is one.
unfoldable pub get_snapshot : ℕ → Option Catalog → Option Bytes → Bytes
get_snapshot max_threads catalog exported =
    if leb max_threads 1 then [] else if reads_committed catalog then [] else or_empty exported

unfoldable pub set_snapshot : Bytes → Bytes
set_snapshot snapshot = codes "SET TRANSACTION SNAPSHOT '" ++ snapshot ++ codes "'"

unfoldable pub snapshot_statements : Bytes → List Bytes
snapshot_statements [] = []
snapshot_statements (c ∷ r) = set_snapshot (c ∷ r) ∷ []

unfoldable pub timeout_statements : Bytes → Option ℕ → List Bytes
timeout_statements setting none = []
timeout_statements setting (some n) = (setting ++ decimal_text n) ∷ []

-- `PostgresScanConnect`: the statements that it sends.
unfoldable pub scan_connect : Timeouts → Bytes → Bool → PostgresIsolationLevel → List Bytes
scan_connect timeouts snapshot read_only isolation_level =
    get_begin_transaction_query isolation_level read_only ∷ snapshot_statements snapshot
    ++ timeout_statements (codes "SET statement_timeout=") timeouts.statement_timeout
    ++ timeout_statements (codes "SET idle_in_transaction_session_timeout=") timeouts.idle_timeout

-- What the pool, or the opening of a connection, makes of one request: the connection's number.
pub record Answers : Type 0 where
  pub force_acquire : Result ℕ
  pub try_get_connection : Result (Option ℕ)
  pub open_connection : Result ℕ

abbrev pub from_pool : Timeouts → Bytes → Catalog → ℕ → Handed
from_pool timeouts snapshot c n = record {
  source = pool_connection n;
  sent = scan_connect timeouts snapshot c.read_only c.isolation_level;
}

-- `TryOpenNewConnection` while no thread was given a connection, under the lock.
unfoldable pub first_connection : Timeouts → Bytes → Bool → Option Catalog → Answers → Result Handed
first_connection timeouts snapshot true catalog answers =
    ok (record { source = main_connection; sent = [] })
first_connection timeouts snapshot false none answers = err internal
first_connection timeouts snapshot false (some c) answers =
    answers.force_acquire >>= λ n. ok (from_pool timeouts snapshot c n)

-- The same when one was: none where the pool is exhausted.
unfoldable pub further_connection :
    Timeouts → Bytes → Option Catalog → Answers → Result (Option Handed)
further_connection timeouts snapshot none answers = answers.open_connection >>= λ n. ok (
    some (record {
      source = own_connection n;
      sent = scan_connect timeouts snapshot true repeatable_read;
    }))
further_connection timeouts snapshot (some c) answers =
    answers.try_get_connection >>= λ got. ok (Option.map (from_pool timeouts snapshot c) got)

-- `TryOpenNewConnection`: `used_main_thread` behind the call, and the connection.
unfoldable pub try_open_new_connection :
    Timeouts → Bytes → Bool → Option Catalog → Bool → Answers → Result (Bool × Option Handed)
try_open_new_connection timeouts snapshot can_use_main_thread catalog used_main_thread answers =
    let first = first_connection timeouts snapshot can_use_main_thread catalog answers >>= λ h.
    ok (true, some h) in
    let further = further_connection timeouts snapshot catalog answers >>= λ h. ok (true, h) in
    if used_main_thread then further else first

abbrev pub used_behind : Bool → Result (Bool × Option Handed) → Bool
used_behind used (ok p) = p.0
used_behind used (err e) = used

abbrev pub given : Result (Bool × Option Handed) → Option Handed
given (ok p) = p.1
given (err e) = none

abbrev pub add_given : Option Handed → List Handed → List Handed
add_given none hs = hs
add_given (some h) hs = h ∷ hs

snapshot_statements-some :
    (snapshot : Bytes) → snapshot ≢ [] → snapshot_statements snapshot ≡ set_snapshot snapshot ∷ []
unfolding snapshot_statements
snapshot_statements-some [] h = absurd (h refl)
snapshot_statements-some (c ∷ r) h = refl

module _ (timeouts : Timeouts) (snapshot : Bytes) (can_use_main_thread : Bool)
    (catalog : Option Catalog) where
  -- The threads of a scan, each of which asks once, in the order in which they get the lock.
  unfoldable pub connections : Bool → List Answers → List Handed
  connections used [] = []
  connections used (a ∷ more) =
      let call = try_open_new_connection timeouts snapshot can_use_main_thread catalog used a in
      add_given (given call) (connections (used_behind used call) more)

  abbrev pub is_main : Source → Bool
  is_main main_connection = true
  is_main source = false

  -- A connection other than the main one, which began a transaction of a level that may take a snapshot, and
  -- took the scan's.
  abbrev pub IsPinned : Handed → Type 0
  IsPinned h =
      (level : PostgresIsolationLevel) × (read_only : Bool) × (rest : List Bytes) × (is_main
          h.source
        ≡ false)
      × (is_read_committed level ≡ false)
      × (h.sent ≡ get_begin_transaction_query level read_only ∷ set_snapshot snapshot ∷ rest)

  -- Only the first connection may be the main one, and all the others are pinned.
  abbrev pub OneMain : List Handed → Type 0
  OneMain [] = Unit
  OneMain (h ∷ hs) = ((is_main h.source ≡ true) ⊎ IsPinned h) × All IsPinned hs

  module _ (some_snapshot : snapshot ≢ []) (repeatable : reads_committed catalog ≡ false) where
    scan_connect-pins :
        (source : Source) (read_only : Bool) (level : PostgresIsolationLevel)
        → is_main source ≡ false
        → is_read_committed level ≡ false
        → IsPinned
            (record { source = source; sent = scan_connect timeouts snapshot read_only level })
    unfolding scan_connect
    scan_connect-pins source read_only level other above = (
      level,
      read_only,
      timeout_statements (codes "SET statement_timeout=") timeouts.statement_timeout
          ++ timeout_statements (codes "SET idle_in_transaction_session_timeout=")
              timeouts.idle_timeout,
      other,
      above,
      ap
          (λ x.
            get_begin_transaction_query level read_only ∷ x
            ++ timeout_statements (codes "SET statement_timeout=") timeouts.statement_timeout
            ++ timeout_statements (codes "SET idle_in_transaction_session_timeout=")
                timeouts.idle_timeout)
          (snapshot_statements-some snapshot some_snapshot),
    )

    -- A connection that is none, or is pinned.
    abbrev pub PinnedIfGiven : Option Handed → Type 0
    PinnedIfGiven none = Unit
    PinnedIfGiven (some h) = IsPinned h

    -- A call behind the first one.
    abbrev Further : Result (Bool × Option Handed) → Type 0
    Further r = (used_behind true r ≡ true) × PinnedIfGiven (given r)

    own_Further :
        (m : Result ℕ)
        → Further (
            m
            >>= (λ n. ok (
                some (record {
                  source = own_connection n;
                  sent = scan_connect timeouts snapshot true repeatable_read;
                })))
            >>= λ h. ok (true, h))
    own_Further (err e) = (refl, tt)
    own_Further (ok n) = (refl, scan_connect-pins (own_connection n) true repeatable_read refl refl)

    pool_Further :
        (c : Catalog) (m : Result (Option ℕ))
        → is_read_committed c.isolation_level ≡ false
        → Further (
            m >>= (λ got. ok (Option.map (from_pool timeouts snapshot c) got)) >>= λ h.
            ok (true, h))
    pool_Further c (err e) above = (refl, tt)
    pool_Further c (ok none) above = (refl, tt)
    pool_Further c (ok (some n)) above =
        (refl, scan_connect-pins (pool_connection n) c.read_only c.isolation_level refl above)

    further_connection-Further :
        (c : Option Catalog) (a : Answers)
        → reads_committed c ≡ false
        → Further (further_connection timeouts snapshot c a >>= λ h. ok (true, h))
    unfolding further_connection
    further_connection-Further none a above = own_Further a.open_connection
    further_connection-Further (some c) a above = pool_Further c a.try_get_connection above

    add_given-IsPinned :
        (h : Option Handed) (hs : List Handed)
        → PinnedIfGiven h
        → All IsPinned hs
        → All IsPinned (add_given h hs)
    add_given-IsPinned none hs p ps = ps
    add_given-IsPinned (some h) hs p ps = (p, ps)

    connections-IsPinned : (asked : List Answers) → All IsPinned (connections true asked)
    unfolding connections try_open_new_connection
    connections-IsPinned [] = tt
    connections-IsPinned (a ∷ more) =
        let call = further_connection timeouts snapshot catalog a >>= λ h. ok (true, h) in
        let (used, pinned) = further_connection-Further catalog a repeatable in
        rw used (
          add_given-IsPinned (given call) (connections true more) pinned
            (connections-IsPinned more))

    -- The first call: one that throws is as if it had not been made.
    abbrev First : Result (Bool × Option Handed) → Type 0
    First (err e) = Unit
    First (ok p) =
        (p.0 ≡ true) × ((h : Handed) × (p.1 ≡ some h) × ((is_main h.source ≡ true) ⊎ IsPinned h))

    acquired_First :
        (c : Catalog) (m : Result ℕ)
        → is_read_committed c.isolation_level ≡ false
        → First (m >>= (λ n. ok (from_pool timeouts snapshot c n)) >>= λ h. ok (true, some h))
    acquired_First c (err e) above = tt
    acquired_First c (ok n) above = (
      refl,
      (
        from_pool timeouts snapshot c n,
        refl,
        inr (scan_connect-pins (pool_connection n) c.read_only c.isolation_level refl above),
      ),
    )

    first_connection-First :
        (can_use : Bool) (c : Option Catalog) (a : Answers)
        → reads_committed c ≡ false
        → First (first_connection timeouts snapshot can_use c a >>= λ h. ok (true, some h))
    unfolding first_connection
    first_connection-First true c a above =
        (refl, (record { source = main_connection; sent = [] }, refl, inl refl))
    first_connection-First false none a above = tt
    first_connection-First false (some c) a above = acquired_First c a.force_acquire above

    First-step :
        (r : Result (Bool × Option Handed)) (more : List Answers)
        → First r
        → OneMain (connections false more)
        → All IsPinned (connections true more)
        → OneMain (add_given (given r) (connections (used_behind false r) more))
    First-step (err e) more h first others = first
    First-step (ok (used, handed)) more (behind, (h, e, p)) first others =
        rw behind (rw e (p, others))

    connections-OneMain : (asked : List Answers) → OneMain (connections false asked)
    unfolding connections try_open_new_connection
    connections-OneMain [] = tt
    connections-OneMain (a ∷ more) =
        First-step
          (first_connection timeouts snapshot can_use_main_thread catalog a >>= λ h.
            ok (true, some h))
          more (first_connection-First can_use_main_thread catalog a repeatable)
          (connections-OneMain more) (connections-IsPinned more)

get_snapshot-repeatable :
    (max_threads : ℕ) (catalog : Option Catalog) (exported : Option Bytes)
    → get_snapshot max_threads catalog exported ≢ []
    → reads_committed catalog ≡ false
unfolding get_snapshot
get_snapshot-repeatable max_threads catalog exported h =
    elim (Bool-cases (reads_committed catalog)) [
      | inl e ↦ absurd (
          h (elim (Bool-cases (leb max_threads 1)) [
            | inl f ↦ rw (f, get_snapshot) refl
            | inr f ↦ rw (f, get_snapshot) (rw e refl)
          ]))
      | inr e ↦ e
    ]

-- Where a snapshot was exported for a scan: of the connections that its threads are given, in whatever order they
-- ask and whatever fails, only the first may be the main one, and each of the others began a transaction of a
-- level above READ COMMITTED and then took the snapshot.
pub try_open_new_connection-OneMain :
    (timeouts : Timeouts) (can_use_main_thread : Bool) (max_threads : ℕ) (catalog : Option Catalog)
    (exported : Option Bytes) (asked : List Answers)
    → get_snapshot max_threads catalog exported ≢ []
    → OneMain timeouts (get_snapshot max_threads catalog exported) can_use_main_thread catalog (
        connections timeouts
          (get_snapshot max_threads catalog exported)
          can_use_main_thread
          catalog
          false
          asked)
try_open_new_connection-OneMain timeouts can_use_main_thread max_threads catalog exported asked h =
    connections-OneMain timeouts (get_snapshot max_threads catalog exported) can_use_main_thread
      catalog h (get_snapshot-repeatable max_threads catalog exported h) asked
