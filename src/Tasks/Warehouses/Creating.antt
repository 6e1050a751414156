-- ===== src/Tasks/Warehouses/Creating.antt =====
-- back/components/task_manager/source/tasks/protocol/create_warehouse, and `Warehouse::InsertEntry` of
-- tasks/common/warehouse.h.
use warehouse_accounting_sys.Base.{ℕ, Option, none, some, List, [], ◌∷◌, ◌++◌, String}
use warehouse_accounting_sys.Base.Int.{ℤ, pos}
use warehouse_accounting_sys.Result.{Result, success}
use warehouse_accounting_sys.Exec.{Outcome, ok, throws, check_true, check_success, value, try_bind}
use warehouse_accounting_sys.Exec.Try.{◌>>=◌, ◌>>◌}
use warehouse_accounting_sys.Query.Schema.{
  Column, warehouse, warehouse_id, pretty_name, description, location, created_date, created_by,
}
use warehouse_accounting_sys.Query.Values.{int, text, ValueCollector}
use warehouse_accounting_sys.Query.Options.{is_set}
use warehouse_accounting_sys.Query.Build.{Request, insert_request}
use warehouse_accounting_sys.Database.{Rows, front}
use warehouse_accounting_sys.Transaction.{function, stop}
use warehouse_accounting_sys.Json.{
  Json, Document, number, words, put, put_optional, plain, get_key, get_optional,
}
use warehouse_accounting_sys.Tasks.{
  Server, Interfaces, DateProvider, Running, query_entry, run_transaction, checked, with_interfaces,
}
use warehouse_accounting_sys.Tasks.Reading.{int_at, text_at}
use warehouse_accounting_sys.Tasks.Warehouses.{Warehouse}

-- `CreateWarehouse::ParseInternal`
unfoldable pub parse_create_warehouse : (j : Json) → ℕ → j.Value → Outcome Warehouse
parse_create_warehouse j user body = do
  name ← get_key j j.as_string body "name"
  about ← get_optional j j.as_string body "description"
  place ← get_optional j j.as_string body "location"
  ok (record {
    name = some name;
    pretty_name = none;
    description = about;
    location = place;
    warehouse_id = none;
    created_date = none;
    created_by = some (pos user);
  })

-- The columns of an insertion with the value for each.
abbrev pub Inserted : Type 0
Inserted = List Column × ValueCollector

-- `AppendToQueryOptional`
abbrev pub append_optional : Option String → Column → Inserted → Inserted
append_optional none column (columns, params) = (columns, params)
append_optional (some s) column (columns, params) = (columns ++ column ∷ [], params ++ text s ∷ [])

abbrev pub inserted : Warehouse → String → ℤ → ℕ → Inserted
inserted w name by now = append_optional w.location location (
    append_optional w.description description
      (Column.name ∷ created_by ∷ created_date ∷ [], text name ∷ int by ∷ int (pos now) ∷ []))

abbrev pub insertion : Inserted → Request
insertion (columns, params) =
    insert_request
      (record {
        table = warehouse;
        columns = columns;
        returning = warehouse_id ∷ pretty_name ∷ [];
        values_count = 0;
      })
      (params ∷ [])

-- `Warehouse::InsertEntry`: the warehouse with its date, and the query of the entry.
unfoldable pub insert_warehouse : ℕ → Warehouse → Outcome (Warehouse × Request)
insert_warehouse now w = do
  check_true (is_set w.name)
  check_true (is_set w.created_by)
  name ← value w.name
  by ← value w.created_by
  ok (record w { created_date = some (pos now) }, insertion (inserted w name by now))

-- What the task sets from the row that the insertion returns.
unfoldable pub created_warehouse : Warehouse → Rows → Result → Outcome (Result × Warehouse)
created_warehouse w rows success = do
  row ← front rows
  id ← int_at 0 row
  pretty ← text_at 1 row
  ok (success, record w { warehouse_id = id; pretty_name = pretty })
created_warehouse w rows result = ok (result, w)

unfoldable pub created_warehouse_answer :
    DateProvider → Result × Warehouse → Outcome (Result × Option Document)
created_warehouse_answer dates (success, w) = do
  name ← value w.name
  id ← value w.warehouse_id
  date ← value w.created_date
  by ← value w.created_by
  pretty ← value w.pretty_name
  ok (
    success,
    some (
        plain (
          put words "name" name
          ++ put_optional words "description" w.description
          ++ put_optional words "location" w.location
          ++ put number "warehouse_id" id
          ++ put words "created_date" (dates.to_iso_time_string date)
          ++ put number "created_by" by
          ++ put words "pretty_name" pretty)),
  )
created_warehouse_answer dates (result, w) = ok (result, none)

module _ (server : Server) (interfaces : Interfaces) (dates : DateProvider) (fuel : ℕ) where
  -- The transaction is made before the entry is.
  abbrev pub run_insertion :
      Outcome (Warehouse × Request) → Running server (Result × Option Document)
  run_insertion (throws e) =
      checked server (check_success interfaces.create_transaction) (λ w. (some (throws e), w))
  run_insertion (ok (made, request)) =
      run_transaction server interfaces fuel
        (function (query_entry server request (λ rows m. rows)) stop) []
        λ rows result.
          try_bind (created_warehouse made rows result) (created_warehouse_answer dates)

  -- `CreateWarehouse::ExecuteInternal`
  unfoldable pub run_create_warehouse : ℕ → Warehouse → Running server (Result × Option Document)
  run_create_warehouse now w =
      with_interfaces server interfaces (run_insertion (insert_warehouse now w))
