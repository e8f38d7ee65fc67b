-- ===== src/Transaction/Session.antt =====
-- What a transaction sends, from its start to its end.
use duckdb_postgres.Common.{
  Bool, true, false, List, [], ◌∷◌, ◌++◌, if◌then◌else◌, Bytes, codes, Result, ok, err, ◌≡◌, refl,
  ap, sym, ◌∙◌, append_assoc, append-nil, Bool-cases, inl, inr, ◌⊎◌,
}
use duckdb_postgres.Common.{Error}
use duckdb_postgres.Transaction.{
  promote_if_ok, clear_if_ok, Transaction, PostgresTransactionState, transaction_not_yet_started,
  transaction_started, transaction_finished, Server, send, start, commit, rollback, get_connection,
  query, query_without_transaction, Request, ask_connection, ask_query, ask_without_transaction,
  serve, serve_all, get_begin_transaction_query, promote, is_started, PostgresIsolationLevel,
  read_committed, repeatable_read, serializable, isolation_text,
}

-- What is sent inside of a transaction that is open.
abbrev pub inside : List Request → List Bytes
inside [] = []
inside (ask_connection ∷ rs) = inside rs
inside (ask_query text ∷ rs) = text ∷ inside rs
inside (ask_without_transaction text ∷ rs) = inside rs

-- What a whole session sends, by its requests: what does not want a transaction is sent while none is
-- open, unless the session is read-only; the first request that wants one opens it, in the same round
-- trip where it is a query; `last` ends a transaction that was opened.
abbrev pub script : Bytes → Bool → Bytes → List Request → List Bytes
script begin read_only last [] = []
script begin read_only last (ask_connection ∷ rs) = begin ∷ (inside rs ++ last ∷ [])
script begin read_only last (ask_query text ∷ rs) =
    ((begin ++ codes ";\n") ++ text) ∷ (inside rs ++ last ∷ [])
script begin read_only last (ask_without_transaction text ∷ rs) =
    if read_only then script begin read_only last rs else text ∷ script begin read_only last rs

-- A transaction that has sent nothing.
abbrev pub new_transaction : PostgresIsolationLevel → Bool → Transaction
new_transaction isolation_level read_only = record {
  transaction_state = transaction_not_yet_started;
  isolation_level = isolation_level;
  read_only = read_only;
  sent = [];
  pending_signatures = [];
  promoted = [];
}

abbrev in_state : PostgresTransactionState → List Bytes → Transaction → Transaction
in_state state sent t = record t { transaction_state = state; sent = sent }

-- In an open transaction.
serve_all-started :
    (server : Server) (rs : List Request) (sent : List Bytes) (t : Transaction)
    → serve_all server rs (in_state transaction_started sent t)
      ≡ in_state transaction_started (sent ++ inside rs) t
unfolding serve_all serve get_connection query query_without_transaction send
serve_all-started server [] sent t =
    ap (λ s. in_state transaction_started s t) (sym (append-nil sent))
serve_all-started server (ask_connection ∷ rs) sent t = serve_all-started server rs sent t
serve_all-started server (ask_query text ∷ rs) sent t =
    serve_all-started server rs (sent ++ text ∷ []) t
    ∙ ap (λ s. in_state transaction_started s t) (append_assoc sent (text ∷ []) (inside rs))
serve_all-started server (ask_without_transaction text ∷ rs) sent t =
    serve_all-started server rs sent t

promote_if_ok-sent : (t : Transaction) (r : Result Bytes) → (promote_if_ok (t, r)).0.sent ≡ t.sent
unfolding promote
promote_if_ok-sent t (ok a) = refl
promote_if_ok-sent t (err e) = refl

clear_if_ok-sent : (t : Transaction) (r : Result Bytes) → (clear_if_ok (t, r)).0.sent ≡ t.sent
clear_if_ok-sent t (ok a) = refl
clear_if_ok-sent t (err e) = refl

clear_if_ok-promoted :
    (t : Transaction) (r : Result Bytes) → (clear_if_ok (t, r)).0.promoted ≡ t.promoted
clear_if_ok-promoted t (ok a) = refl
clear_if_ok-promoted t (err e) = refl

-- A way to end a transaction, with what it sends if one is open.
abbrev Ends : Bytes → (Transaction → Transaction) → Type 0
Ends last finish =
    (sent : List Bytes) (t : Transaction)
    → ((finish (in_state transaction_started sent t)).sent ≡ sent ++ last ∷ [])
      × ((finish (in_state transaction_not_yet_started sent t)).sent ≡ sent)

commit-Ends : (server : Server) → Ends (codes "COMMIT") (λ t. (commit server t).0)
unfolding commit send promote
commit-Ends server sent t = (
  promote_if_ok-sent (in_state transaction_finished (sent ++ codes "COMMIT" ∷ []) t)
      (server sent (codes "COMMIT")),
  refl,
)

rollback-Ends : (server : Server) → Ends (codes "ROLLBACK") (λ t. (rollback server t).0)
unfolding rollback send
rollback-Ends server sent t = (
  clear_if_ok-sent (in_state transaction_finished (sent ++ codes "ROLLBACK" ∷ []) t)
      (server sent (codes "ROLLBACK")),
  refl,
)

module _ (server : Server) (last : Bytes) (finish : Transaction → Transaction)
    (ends : Ends last finish) where
  end-inside :
      (rs : List Request) (sent : List Bytes) (text : Bytes) (t : Transaction)
      → (finish (serve_all server rs (in_state transaction_started (sent ++ text ∷ []) t))).sent
        ≡ sent ++ text ∷ (inside rs ++ last ∷ [])
  end-inside rs sent text t =
      ap (λ x. (finish x).sent) (serve_all-started server rs (sent ++ text ∷ []) t)
      ∙ (ends ((sent ++ text ∷ []) ++ inside rs) t).0
      ∙ append_assoc (sent ++ text ∷ []) (inside rs) (last ∷ [])
      ∙ append_assoc sent (text ∷ []) (inside rs ++ last ∷ [])

  session :
      (rs : List Request) (read_only : Bool) (sent : List Bytes) (t : Transaction)
      → (finish (
          serve_all server rs
            (in_state transaction_not_yet_started sent (record t { read_only = read_only })))).sent
        ≡ sent ++ script (get_begin_transaction_query t.isolation_level read_only) read_only last rs
  unfolding serve_all serve get_connection query query_without_transaction send
  session [] read_only sent t =
      (ends sent (record t { read_only = read_only })).1 ∙ sym (append-nil sent)
  session (ask_connection ∷ rs) read_only sent t =
      end-inside rs sent (get_begin_transaction_query t.isolation_level read_only)
        (record t { read_only = read_only })
  session (ask_query text ∷ rs) read_only sent t =
      end-inside rs sent
        ((get_begin_transaction_query t.isolation_level read_only ++ codes ";\n") ++ text)
        (record t { read_only = read_only })
  session (ask_without_transaction text ∷ rs) true sent t = session rs true sent t
  session (ask_without_transaction text ∷ rs) false sent t =
      session rs false (sent ++ text ∷ []) t
      ∙ append_assoc sent (text ∷ [])
          (script (get_begin_transaction_query t.isolation_level false) false last rs)

-- The statement that opens a transaction of a level and an access mode.
abbrev pub begin_statement : PostgresIsolationLevel → Bool → Bytes
begin_statement read_committed false = codes "BEGIN TRANSACTION ISOLATION LEVEL READ COMMITTED"
begin_statement read_committed true =
    codes "BEGIN TRANSACTION ISOLATION LEVEL READ COMMITTED READ ONLY"
begin_statement repeatable_read false = codes "BEGIN TRANSACTION ISOLATION LEVEL REPEATABLE READ"
begin_statement repeatable_read true =
    codes "BEGIN TRANSACTION ISOLATION LEVEL REPEATABLE READ READ ONLY"
begin_statement serializable false = codes "BEGIN TRANSACTION ISOLATION LEVEL SERIALIZABLE"
begin_statement serializable true = codes "BEGIN TRANSACTION ISOLATION LEVEL SERIALIZABLE READ ONLY"

get_begin_transaction_query-lem :
    (level : PostgresIsolationLevel) (read_only : Bool)
    → get_begin_transaction_query level read_only ≡ begin_statement level read_only
unfolding get_begin_transaction_query isolation_text
get_begin_transaction_query-lem read_committed false = refl
get_begin_transaction_query-lem read_committed true = refl
get_begin_transaction_query-lem repeatable_read false = refl
get_begin_transaction_query-lem repeatable_read true = refl
get_begin_transaction_query-lem serializable false = refl
get_begin_transaction_query-lem serializable true = refl

-- Whatever the server answers and whatever is asked of the transaction, what it sends until its
-- commit returns is the script of the requests: one BEGIN, with the isolation level and, where
-- the transaction is read-only, READ ONLY, in front of the first statement that wants a
-- transaction, and one COMMIT at the end if there was a BEGIN.
pub commit-script :
    (server : Server) (rs : List Request) (isolation_level : PostgresIsolationLevel)
    (read_only : Bool)
    → (commit server
        (serve_all server rs (start (new_transaction isolation_level read_only)))).0.sent
      ≡ script (begin_statement isolation_level read_only) read_only (codes "COMMIT") rs
unfolding start
commit-script server rs isolation_level read_only =
    session server (codes "COMMIT") (λ t. (commit server t).0) (commit-Ends server) rs read_only []
      (new_transaction isolation_level read_only)
    ∙ ap (λ begin. script begin read_only (codes "COMMIT") rs)
        (get_begin_transaction_query-lem isolation_level read_only)

-- The same of a transaction that is rolled back, with ROLLBACK at its end.
pub rollback-script :
    (server : Server) (rs : List Request) (isolation_level : PostgresIsolationLevel)
    (read_only : Bool)
    → (rollback server
        (serve_all server rs (start (new_transaction isolation_level read_only)))).0.sent
      ≡ script
          (get_begin_transaction_query isolation_level read_only)
          read_only
          (codes "ROLLBACK")
          rs
unfolding start
rollback-script server rs isolation_level read_only =
    session server (codes "ROLLBACK") (λ t. (rollback server t).0) (rollback-Ends server) rs
      read_only [] (new_transaction isolation_level read_only)

promote_if_ok-cases :
    (t : Transaction) (r : Result Bytes)
    → (((promote_if_ok (t, r)).1 ≡ ok tt)
        × ((promote_if_ok (t, r)).0.promoted ≡ t.promoted ++ t.pending_signatures)
        × ((promote_if_ok (t, r)).0.pending_signatures ≡ []))
      ⊎ ((e : Error) × ((promote_if_ok (t, r)).1 ≡ err e)
          × ((promote_if_ok (t, r)).0.promoted ≡ t.promoted))
unfolding promote
promote_if_ok-cases t (ok a) = inl (refl, refl, refl)
promote_if_ok-cases t (err e) = inr (e, refl, refl)

-- A commit that returns gives the catalog sets every signature that was staged, in order, and leaves none
-- staged; a commit that throws gives them nothing. A rollback gives them nothing, whatever the server
-- answers.
pub commit-signatures :
    (server : Server) (t : Transaction)
    → ((((commit server t).1 ≡ ok tt)
          × ((commit server t).0.promoted ≡ t.promoted ++ t.pending_signatures)
          × ((commit server t).0.pending_signatures ≡ []))
        ⊎ ((e : Error) × ((commit server t).1 ≡ err e)
            × ((commit server t).0.promoted ≡ t.promoted)))
      × ((rollback server t).0.promoted ≡ t.promoted)
unfolding commit rollback send promote
commit-signatures server t = elim (Bool-cases (is_started t.transaction_state)) [
  | inl e ↦ rw e (
    promote_if_ok-cases (in_state transaction_finished (t.sent ++ codes "COMMIT" ∷ []) t)
        (server t.sent (codes "COMMIT")),
    clear_if_ok-promoted (in_state transaction_finished (t.sent ++ codes "ROLLBACK" ∷ []) t)
        (server t.sent (codes "ROLLBACK")),
  )
  | inr e ↦ rw e (inl (refl, refl, refl), refl)
]
