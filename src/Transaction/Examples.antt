-- ===== src/Transaction/Examples.antt =====
-- The theorems on transactions at a server that accepts everything, and at one that refuses everything.
use duckdb_postgres.Common.{
  true, false, List, [], ◌∷◌, ◌++◌, codes, ok, err, Error, runtime_error, ◌≡◌, ◌⊎◌,
}
use duckdb_postgres.Transaction.{
  Transaction, transaction_started, read_committed, repeatable_read, Server, Request, ask_query,
  ask_without_transaction, ask_connection, start, serve_all, commit, rollback,
  get_begin_transaction_query,
}
use duckdb_postgres.Transaction.Session.{
  new_transaction, script, begin_statement, commit-script, rollback-script, commit-signatures,
}

abbrev accepts : Server
accepts sent text = ok []

abbrev refuses : Server
refuses sent text = err runtime_error

abbrev requests : List Request
requests =
    ask_without_transaction (codes "VACUUM")
    ∷ ask_query (codes "SELECT 1")
    ∷ ask_connection
    ∷ ask_query (codes "SELECT 2")
    ∷ []

commit-script_example :
    (commit accepts
      (serve_all accepts requests (start (new_transaction repeatable_read false)))).0.sent
    ≡ script (begin_statement repeatable_read false) false (codes "COMMIT") requests
commit-script_example = commit-script accepts requests repeatable_read false

rollback-script_example :
    (rollback refuses
      (serve_all refuses requests (start (new_transaction read_committed true)))).0.sent
    ≡ script (get_begin_transaction_query read_committed true) true (codes "ROLLBACK") requests
rollback-script_example = rollback-script refuses requests read_committed true

abbrev staged : Transaction
staged = record {
  transaction_state = transaction_started;
  isolation_level = repeatable_read;
  read_only = false;
  sent = [];
  pending_signatures = (0, codes "s") ∷ [];
  promoted = [];
}

commit-signatures_example :
    ((((commit refuses staged).1 ≡ ok tt)
        × ((commit refuses staged).0.promoted ≡ staged.promoted ++ staged.pending_signatures)
        × ((commit refuses staged).0.pending_signatures ≡ []))
      ⊎ ((e : Error) × ((commit refuses staged).1 ≡ err e)
          × ((commit refuses staged).0.promoted ≡ staged.promoted)))
    × ((rollback refuses staged).0.promoted ≡ staged.promoted)
commit-signatures_example = commit-signatures refuses staged
