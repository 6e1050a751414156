-- ===== src/Tasks/Reports/Current/Failing.antt =====
-- The task of back/components/task_manager/source/tasks/protocol/reports_current, when its report is not inserted.
use warehouse_accounting_sys.Base.{ℕ, suc, ◌≡◌, refl, ap, ◌∙◌, none, some, [], String}
use warehouse_accounting_sys.Base.Int.{ℤ, pos}
use warehouse_accounting_sys.Result.{Result, success, not_found}
use warehouse_accounting_sys.Exec.{ok, throws, not_found_exception, other_exception}
use warehouse_accounting_sys.Query.Schema.{warehouse, warehouse_id}
use warehouse_accounting_sys.Query.Build.{select_request}
use warehouse_accounting_sys.Database.{run_query}
use warehouse_accounting_sys.Transaction.{execute}
use warehouse_accounting_sys.Transaction.Steps.{attempt_throws, execute_decided}
use warehouse_accounting_sys.Documents.{FileSystem}
use warehouse_accounting_sys.Documents.Paths.{Bytes, FilePath}
use warehouse_accounting_sys.Tasks.{
  Server, DateProvider, persistence, begin_session, finished, run_transaction,
}
use warehouse_accounting_sys.Tasks.Listing.{id_options}
use warehouse_accounting_sys.Tasks.Listing.Pages.{all_there}
use warehouse_accounting_sys.Tasks.Warehouses.{warehouse_columns}
use warehouse_accounting_sys.Tasks.Reports.Current.{ReportMemory}
use warehouse_accounting_sys.Tasks.Reports.Current.Printing.{print_header, write_report_file}
use warehouse_accounting_sys.Tasks.Reports.Current.Collecting.{
  current_entry, convert_selected, reported, collect, run_reports_current,
}

module _ (server : Server) (fs : FileSystem) (random : ℕ → ℕ → Bytes) (root : FilePath)
    (text_of : Bytes → String) (dates : DateProvider) (readable : ℤ → String) where
  -- A report without an id cannot be printed.
  reported-unfinished :
      (m : ReportMemory fs) (result : Result)
      → m.report.report_id ≡ none
      → reported server fs random root text_of dates readable m result ≡ throws other_exception
  unfolding reported write_report_file print_header
  reported-unfinished m result h = rw h refl

  -- What the task begins with.
  abbrev dated : ℕ → ReportMemory fs → ReportMemory fs
  dated now m = record m { report = record m.report { created_date = some (pos now) } }

  -- When there is no warehouse with the id, the transaction answers NOT_FOUND, but the task ends in the exception of
  -- the report that is printed without an id.
  pub run_reports_current-hides :
      (fuel now : ℕ) (m : ReportMemory fs) (id : ℤ) (w : server.World) (v : server.database.State)
      → m.warehouse.warehouse_id ≡ some id
      → m.report.report_id ≡ none
      → run_query server.database
          (select_request (id_options warehouse warehouse_columns warehouse_id id))
          (server.begin w)
        ≡ (ok [], v)
      → ((execute
            (persistence server)
            (ReportMemory fs)
            (suc fuel)
            server.commit_attempts
            (some (current_entry server fs random root text_of dates id))
            (begin_session server (ReportMemory fs) (dated now m) w)).0
          ≡ some (ok not_found))
        × (run_reports_current server fs random root text_of dates readable all_there success
              (suc fuel)
              now
              m
              w
            ≡ (some (throws other_exception), w))
  unfolding run_reports_current run_transaction convert_selected
  run_reports_current-hides fuel now m id w v known unset run =
      let p = persistence server in
      let M = ReportMemory fs in
      let e = current_entry server fs random root text_of dates id in
      let begun = dated now m in
      let first =
        attempt_throws p M e (begin_session server M begun w) v
          (record begun { warehouse_results = [] }) not_found_exception (rw run refl) in
      let whole =
        execute_decided p M server.commit_attempts fuel e _ _ (throws not_found_exception) not_found
          first refl in
      (
        ap (λ r. r.0) whole,
        ap
              (λ o.
                collect server fs random root text_of dates readable all_there success (suc fuel) m
                  now o w)
              known
            ∙ ap (finished server (reported server fs random root text_of dates readable)) whole
            ∙ ap (λ r. (some r, w))
                (reported-unfinished (record begun { warehouse_results = [] }) not_found unset),
      )
