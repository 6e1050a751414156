-- ===== src/Tasks/Listing/Failing.antt =====
-- A list task of back/components/task_manager/source/tasks/protocol whose statement fails.
use warehouse_accounting_sys.Base.{ℕ, suc, ◌≡◌, refl, ap, some, []}
use warehouse_accounting_sys.Result.{Result, not_found}
use warehouse_accounting_sys.Exec.{try_bind, ok, throws, Exception}
use warehouse_accounting_sys.Query.Build.{select_request}
use warehouse_accounting_sys.Database.{Rows, run_query}
use warehouse_accounting_sys.Transaction.{execute}
use warehouse_accounting_sys.Transaction.Loop.{verdict}
use warehouse_accounting_sys.Transaction.Steps.{attempt_throws, execute_decided}
use warehouse_accounting_sys.Tasks.{
  Server, DateProvider, persistence, begin_session, finished, run_transaction,
}
use warehouse_accounting_sys.Tasks.Listing.{ListRequest, select_entry, list_result, list_answer}
use warehouse_accounting_sys.Tasks.Listing.Pages.{all_there}
use warehouse_accounting_sys.Tasks.Products.{
  get_product_list, product_list_options, read_product, write_listed_product, extend_warehouse,
}

-- When the statement of the list of products throws what the transaction answers with some code of
-- failure, the task answers NOT_FOUND in place of that code.
pub get_product_list-hides :
    (server : Server) (dates : DateProvider) (fuel : ℕ) (request : ListRequest) (w : server.World)
    (v : server.database.State) (x : Exception) (result : Result)
    → run_query server.database (select_request (product_list_options request)) (server.begin w)
      ≡ (throws x, v)
    → verdict (throws x) ≡ some result
    → ((execute
          (persistence server)
          Rows
          (suc fuel)
          server.commit_attempts
          (some (select_entry server (product_list_options request)))
          (begin_session server Rows [] w)).0
        ≡ some (ok result))
      × (get_product_list server all_there dates (suc fuel) request w
          ≡ (some (ok (not_found, [])), w))
unfolding get_product_list run_transaction list_result
get_product_list-hides server dates fuel request w v x result run decided =
    let p = persistence server in
    let e = select_entry server (product_list_options request) in
    let first = attempt_throws p Rows e (begin_session server Rows [] w) v [] x (rw run refl) in
    let whole =
      execute_decided p Rows server.commit_attempts fuel e _ _ (throws x) result first decided in
    (
      ap (λ r. r.0) whole,
      ap
          (finished server λ rows r.
            try_bind (list_result (read_product (extend_warehouse request.filter)) rows r)
              (list_answer (write_listed_product dates)))
          whole,
    )
