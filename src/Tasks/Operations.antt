-- ===== src/Tasks/Operations.antt =====
-- back/components/task_manager/source/tasks/protocol/get_operation_list: the operations.
use warehouse_accounting_sys.Base.{ℕ, Option, some, List, [], ◌∷◌, ◌++◌, String}
use warehouse_accounting_sys.Base.Int.{ℤ}
use warehouse_accounting_sys.Exec.{Outcome, ok, value}
use warehouse_accounting_sys.Exec.Try.{◌>>=◌}
use warehouse_accounting_sys.Result.{Result}
use warehouse_accounting_sys.Query.Schema.{
  Column, operation, operation_id, invoice_id, invoice_pretty_name, product_id, warehouse_id, count,
  created_date, created_by,
}
use warehouse_accounting_sys.Database.{Row}
use warehouse_accounting_sys.Json.{Document, number, words, put, put_optional, plain}
use warehouse_accounting_sys.Tasks.{Server, Interfaces, DateProvider, Running}
use warehouse_accounting_sys.Tasks.Reading.{int_at, int_value_at, text_value_at}
use warehouse_accounting_sys.Tasks.Listing.{ListRequest, list_options, run_list}

-- operation.h
pub record Operation : Type 0 where
  pub operation_id : Option ℤ
  pub invoice_id : Option ℤ
  pub invoice_pretty_name : Option String
  pub product_id : Option ℤ
  pub warehouse_id : Option ℤ
  pub count : Option ℤ
  pub created_date : Option ℤ
  pub created_by : Option ℤ

abbrev pub operation_list_columns : List Column
operation_list_columns =
    operation_id ∷ invoice_id ∷ invoice_pretty_name ∷ product_id ∷ warehouse_id ∷ count
    ∷ created_date ∷ created_by ∷ []

unfoldable pub read_operation : Row → Outcome Operation
read_operation row = do
  id ← int_value_at 0 row
  invoice ← int_value_at 1 row
  pretty ← text_value_at 2 row
  product ← int_value_at 3 row
  warehouse ← int_at 4 row
  held ← int_value_at 5 row
  date ← int_value_at 6 row
  by ← int_value_at 7 row
  ok (record {
    operation_id = some id;
    invoice_id = some invoice;
    invoice_pretty_name = some pretty;
    product_id = some product;
    warehouse_id = warehouse;
    count = some held;
    created_date = some date;
    created_by = some by;
  })

unfoldable pub write_operation : DateProvider → Operation → Outcome Document
write_operation dates o = do
  id ← value o.operation_id
  invoice ← value o.invoice_id
  pretty ← value o.invoice_pretty_name
  product ← value o.product_id
  held ← value o.count
  date ← value o.created_date
  by ← value o.created_by
  ok (
      plain (
        put number "operation_id" id
        ++ put number "invoice_id" invoice
        ++ put words "invoice_pretty_name" pretty
        ++ put number "product_id" product
        ++ put_optional number "warehouse_id" o.warehouse_id
        ++ put number "count" held
        ++ put words "created_date" (dates.to_iso_time_string date)
        ++ put number "created_by" by))

-- `GetOperationList::ExecuteInternal`
unfoldable pub get_operation_list :
    (server : Server)
    → Interfaces
    → DateProvider
    → ℕ
    → ListRequest
    → Running server (Result × List Document)
get_operation_list server interfaces dates fuel request =
    run_list server interfaces fuel
      (list_options operation operation_list_columns operation_id request) read_operation
      (write_operation dates)
