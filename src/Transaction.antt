-- ===== src/Transaction.antt =====
-- src/storage/postgres_transaction.cpp: a transaction of DuckDB, and the statements that it sends on its
-- connection. The server is a parameter: its answer to a statement, which may be an exception, may
-- depend on all that was sent before.
pub mod Session
mod Examples
use duckdb_postgres.Common.{
  ℕ, zero, suc, ◌+◌, Bool, true, false, not, ◌&&◌, ◌||◌, List, [], ◌∷◌, ◌++◌, Option, none, some,
  if◌then◌else◌, Bytes, codes, Result, ok, err, ◌>>=◌, runtime_error, Error,
}

pub data PostgresTransactionState : Type 0 where
  transaction_not_yet_started transaction_started transaction_finished : PostgresTransactionState

pub data PostgresIsolationLevel : Type 0 where
  read_committed repeatable_read serializable : PostgresIsolationLevel

-- The transaction; `sent` is what its connection was sent, `promoted` the signatures that catalog sets,
-- by their numbers, were given, both in order.
pub record Transaction : Type 0 where
  pub transaction_state : PostgresTransactionState
  pub isolation_level : PostgresIsolationLevel
  pub read_only : Bool
  pub sent : List Bytes
  pub pending_signatures : List (ℕ × Bytes)
  pub promoted : List (ℕ × Bytes)

abbrev pub is_started : PostgresTransactionState → Bool
is_started transaction_started = true
is_started _ = false

abbrev pub is_not_yet_started : PostgresTransactionState → Bool
is_not_yet_started transaction_not_yet_started = true
is_not_yet_started _ = false

unfoldable pub start : Transaction → Transaction
start t = record t { transaction_state = transaction_not_yet_started }

unfoldable pub isolation_text : PostgresIsolationLevel → Bytes
isolation_text read_committed = codes "READ COMMITTED"
isolation_text repeatable_read = codes "REPEATABLE READ"
isolation_text serializable = codes "SERIALIZABLE"

unfoldable pub get_begin_transaction_query : PostgresIsolationLevel → Bool → Bytes
get_begin_transaction_query isolation_level read_only =
    codes "BEGIN TRANSACTION ISOLATION LEVEL "
    ++ (isolation_text isolation_level ++ (if read_only then codes " READ ONLY" else []))

-- The server's answer to the last of the statements.
abbrev pub Server : Type 0
Server = List Bytes → Bytes → Result Bytes

-- One round trip of the connection.
unfoldable pub send : Server → Transaction → Bytes → Transaction × Result Bytes
send server t text = (record t { sent = t.sent ++ text ∷ [] }, server t.sent text)

unfoldable pub stage_staleness_signature : ℕ → Bytes → Transaction → Transaction
stage_staleness_signature set signature t = record t {
  pending_signatures = t.pending_signatures ++ (set, signature) ∷ [];
}

-- The loop of `Commit` over the staged signatures.
unfoldable pub promote : Transaction → Transaction
promote t = record t { promoted = t.promoted ++ t.pending_signatures; pending_signatures = [] }

abbrev pub promote_if_ok : Transaction × Result Bytes → Transaction × Result (Unit {0})
promote_if_ok (t, ok _) = (promote t, ok tt)
promote_if_ok (t, err e) = (t, err e)

unfoldable pub commit : Server → Transaction → Transaction × Result (Unit {0})
commit server t =
    if is_started t.transaction_state
    then promote_if_ok
        (send server (record t { transaction_state = transaction_finished }) (codes "COMMIT"))
    else (promote t, ok tt)

abbrev pub clear_if_ok : Transaction × Result Bytes → Transaction × Result (Unit {0})
clear_if_ok (t, ok _) = (record t { pending_signatures = [] }, ok tt)
clear_if_ok (t, err e) = (t, err e)

unfoldable pub rollback : Server → Transaction → Transaction × Result (Unit {0})
rollback server t =
    if is_started t.transaction_state
    then clear_if_ok
        (send server (record t { transaction_state = transaction_finished }) (codes "ROLLBACK"))
    else (record t { pending_signatures = [] }, ok tt)

-- `GetConnection`: the connection, in a transaction.
unfoldable pub get_connection : Server → Transaction → Transaction × Result Bytes
get_connection server t =
    if is_not_yet_started t.transaction_state
    then send server (record t { transaction_state = transaction_started })
        (get_begin_transaction_query t.isolation_level t.read_only)
    else (t, ok [])

-- `Query`, and `ExecuteQueries`: the two differ in the call of the connection.
unfoldable pub query : Server → Bytes → Transaction → Transaction × Result Bytes
query server text t =
    if is_not_yet_started t.transaction_state
    then send server (record t { transaction_state = transaction_started })
        ((get_begin_transaction_query t.isolation_level t.read_only ++ codes ";\n") ++ text)
    else send server t text

unfoldable pub query_without_transaction : Server → Bytes → Transaction → Transaction × Result Bytes
query_without_transaction server text t =
    if is_started t.transaction_state
    then (t, err runtime_error)
    else if t.read_only
    then (t, err runtime_error)
    else send server t text

-- `GetConnectionWithoutTransaction`: whether the connection is handed out.
unfoldable pub get_connection_without_transaction : Transaction → Result (Unit {0})
get_connection_without_transaction t =
    if is_started t.transaction_state
    then err runtime_error
    else if t.read_only
    then err runtime_error
    else ok tt

-- What the extension asks a transaction for between its start and its end.
pub data Request : Type 0 where
  ask_connection : Request
  ask_query ask_without_transaction : Bytes → Request

unfoldable pub serve : Server → Request → Transaction → Transaction
serve server ask_connection t = (get_connection server t).0
serve server (ask_query text) t = (query server text t).0
serve server (ask_without_transaction text) t = (query_without_transaction server text t).0

-- The requests of one transaction, in order; an exception does not end it.
unfoldable pub serve_all : Server → List Request → Transaction → Transaction
serve_all server [] t = t
serve_all server (r ∷ rs) t = serve_all server rs (serve server r t)
