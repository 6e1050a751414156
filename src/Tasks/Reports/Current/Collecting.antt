-- ===== src/Tasks/Reports/Current/Collecting.antt =====
-- `CollectData` and `ExecuteInternal` of back/components/task_manager/source/tasks/protocol/reports_current.
use warehouse_accounting_sys.Base.{
  ℕ, suc, ◌==◌, length, Option, none, some, List, [], ◌∷◌, map, String,
}
use warehouse_accounting_sys.Base.Int.{ℤ, pos}
use warehouse_accounting_sys.Result.{Result, success}
use warehouse_accounting_sys.Exec.{
  Outcome, ok, throws, runtime_error, not_found_exception, Exec, check_true, check_success,
  try_bind,
}
use warehouse_accounting_sys.Exec.Try.{◌>>=◌}
use warehouse_accounting_sys.Query.Schema.{
  warehouse, warehouse_item, warehouse_id, product_id, count,
}
use warehouse_accounting_sys.Query.Build.{Request, select_request}
use warehouse_accounting_sys.Database.{Row, Rows, front}
use warehouse_accounting_sys.Transaction.{Entry, Local, function, grouped, cons, nil, stop, next}
use warehouse_accounting_sys.Documents.{FileSystem, create_file}
use warehouse_accounting_sys.Documents.Paths.{Bytes, FilePath}
use warehouse_accounting_sys.Tasks.{
  Server, Interfaces, DateProvider, Running, persistence, query_entry, run_transaction, checked,
  with_interfaces,
}
use warehouse_accounting_sys.Tasks.Reading.{int_value_at, each}
use warehouse_accounting_sys.Tasks.Listing.{id_options}
use warehouse_accounting_sys.Tasks.Warehouses.{warehouse_columns, read_warehouse_by_id}
use warehouse_accounting_sys.Tasks.Reports.Current.{
  edit_all, read_held, read_selected, ReportMemory, products_options, insert_report, report_path,
}
use warehouse_accounting_sys.Tasks.Reports.Current.Printing.{
  write_report_file, Reported, current_answer,
}

-- `random c n` is what the n-th call of `GenerateRandomString` answers within the c-th of `CreateFile`, and
-- `text_of` the path as a text.
module _ (server : Server) (fs : FileSystem) (random : ℕ → ℕ → Bytes) (root : FilePath)
    (text_of : Bytes → String) (dates : DateProvider) where
  abbrev pub Memory : Type 0
  Memory = ReportMemory fs

  abbrev pub ReportExec : Type 0
  ReportExec = Exec (server.database.State × Memory) (Unit {0})

  -- A function of an entry that reads what another one stored.
  abbrev pub changed :
      {A : Type 0} → (A → Memory → Memory) → Outcome A → Memory → Outcome (Unit {0}) × Memory
  changed set (ok a) m = (ok tt, set a m)
  changed set (throws e) m = (throws e, m)

  abbrev pub set_memory : {A : Type 0} → (Memory → Outcome A) → (A → Memory → Memory) → ReportExec
  set_memory read set (v, m) = let (r, n) = changed set (read m) m in (r, (v, n))

  abbrev pub first_row : {A : Type 0} → (Row → Outcome A) → Rows → Outcome A
  first_row read [] = throws not_found_exception
  first_row read (row ∷ rows) = read row

  -- The second function of `Warehouse::SelectEntry`.
  unfoldable pub convert_selected : ℤ → ReportExec
  convert_selected w =
      set_memory (λ m. first_row (read_warehouse_by_id w) m.warehouse_results)
        (λ found m. record m { warehouse = found })

  -- The second function of `SelectByWarehouse`.
  unfoldable pub convert_held : ReportExec
  convert_held =
      set_memory (λ m. each read_held m.item_results)
        (λ edits m. record m { products = edit_all edits m.products })

  -- The first function of `Product::SelectEntry`.
  abbrev pub select_products : List ℤ → ReportExec
  select_products [] s = (throws not_found_exception, s)
  select_products (id ∷ ids) s =
      query_entry server (select_request (products_options (id ∷ ids)))
        (λ rows m. record m { product_results = rows }) s

  unfoldable pub select_all : ReportExec
  select_all (v, m) = select_products (map (λ p. p.0) m.products) (v, m)

  -- Its second function.
  unfoldable pub convert_products : ReportExec
  convert_products =
      set_memory
        (λ m.
          try_bind (check_true (length m.product_results == length m.products))
            λ u. each read_selected m.product_results)
        (λ edits m. record m { products = edit_all edits m.products })

  abbrev pub created_file : (Result × Bytes) × fs.World → Memory → Outcome (Unit {0}) × Memory
  created_file ((success, path), files) m = (
    ok tt,
    record m {
      report = record m.report { filepath = some (text_of path) };
      files = files;
      opened = suc m.opened;
    },
  )
  created_file ((_, path), files) m =
      (throws runtime_error, record m { files = files; opened = suc m.opened })

  abbrev pub create_at : Outcome Bytes → Memory → Outcome (Unit {0}) × Memory
  create_at (throws e) m = (throws e, m)
  create_at (ok path) m = created_file (create_file fs (random m.opened) root path m.files) m

  -- `CreateReportFile`
  unfoldable pub create_report_file : ReportExec
  create_report_file (v, m) = let (r, n) = create_at (report_path dates m.report) m in (r, (v, n))

  abbrev pub insert_with : Outcome Request → ReportExec
  insert_with (throws e) s = (throws e, s)
  insert_with (ok request) s =
      query_entry server request (λ rows m. record m { report_results = rows }) s

  -- The functions of `Report::InsertEntry`.
  unfoldable pub insert_reported : ReportExec
  insert_reported (v, m) = insert_with (insert_report m.report) (v, m)

  unfoldable pub convert_inserted : ReportExec
  convert_inserted =
      set_memory (λ m. try_bind (front m.report_results) (int_value_at 0))
        (λ id m. record m { report = record m.report { report_id = some id } })

  -- The chain of `CollectData`.
  abbrev pub current_entry : ℤ → Entry (Local (persistence server) Memory)
  current_entry w =
      grouped
        (cons
          (function
            (query_entry server
              (select_request (id_options warehouse warehouse_columns warehouse_id w))
              (λ rows m. record m { warehouse_results = rows }))
            stop)
          (cons (function (convert_selected w) stop) nil))
        (next (
          grouped
            (cons
              (function
                (query_entry server
                  (select_request
                    (id_options warehouse_item (product_id ∷ count ∷ []) warehouse_id w))
                  (λ rows m. record m { item_results = rows }))
                stop)
              (cons (function convert_held stop) nil))
            (next (
              grouped (cons (function select_all stop) (cons (function convert_products stop) nil))
                (next (
                  function create_report_file (
                    next (
                      grouped
                        (cons (function insert_reported stop)
                          (cons (function convert_inserted stop) nil))
                        stop))))))))

  module _ (readable : ℤ → String) where
    -- What follows `Execute`: the file is written whatever the result is.
    unfoldable pub reported : Memory → Result → Outcome Reported
    reported m result = do
      file ← write_report_file readable m.report m.warehouse m.products
      current_answer dates m.report m.products file result

    module _ (interfaces : Interfaces) (document_manager : Result) (fuel : ℕ) where
      abbrev pub collect : Memory → ℕ → Option ℤ → Running server Reported
      collect m now none =
          checked server (check_success interfaces.create_transaction)
            λ w. (some (throws runtime_error), w)
      collect m now (some id) =
          run_transaction server interfaces fuel (current_entry id)
            (record m { report = record m.report { created_date = some (pos now) } }) reported

      -- `ReportsCurrent::ExecuteInternal`, with `now` what `GetTimestamp` answers.
      unfoldable pub run_reports_current : ℕ → Memory → Running server Reported
      run_reports_current now m =
          with_interfaces server interfaces (
            checked server (check_success document_manager)
              (collect m now m.warehouse.warehouse_id))
