-- ===== src/Tasks/Refused.antt =====
-- A task of back/components/task_manager/source/tasks whose commit fails to serialize.
use mathlib.Core.Option
use warehouse_accounting_sys.Base.{ℕ, suc, ◌≡◌, refl, ap, none, some}
use warehouse_accounting_sys.Result.{Result, error}
use warehouse_accounting_sys.Exec.{Outcome, ok, throws, serialization_failure, other_exception}
use warehouse_accounting_sys.Transaction.{Entry, Local, run_chain}
use warehouse_accounting_sys.Transaction.Steps.{attempt_commits, execute_refused}
use warehouse_accounting_sys.Tasks.{
  Server, persistence, begin_session, finished, run_transaction, base_execute,
}
use warehouse_accounting_sys.Tasks.Listing.Pages.{all_there}

module _ (server : Server) {M A : Type 0} where
  -- Whatever the configured attempts are, a task whose entries succeed and whose first commit fails to
  -- serialize is not tried again: it ends in the exception of the new transaction, and its callback is
  -- called with ERROR and no answer.
  pub run_transaction-refused :
      (fuel : ℕ) (e : Entry (Local (persistence server) M)) (m n : M)
      (after : M → Result → Outcome (Result × A)) (w w' : server.World) (v : server.database.State)
      → run_chain e (server.begin w, m) ≡ (ok tt, (v, n))
      → server.commit v w ≡ (throws serialization_failure, w')
      → (run_transaction server all_there (suc fuel) e m after w
          ≡ (some (throws other_exception), w'))
        × (Option.map base_execute (run_transaction server all_there (suc fuel) e m after w).0
            ≡ some (none, error))
  unfolding run_transaction base_execute
  run_transaction-refused fuel e m n after w w' v run commit =
      let p = persistence server in
      let first =
        attempt_commits p M e (begin_session server M m w) v n (throws serialization_failure) w' run
          commit in
      let whole =
        ap (finished server after)
          (execute_refused p M server.commit_attempts fuel e _ _ other_exception first refl) in
      (whole, ap (λ r. Option.map base_execute r.0) whole)
