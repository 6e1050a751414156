-- ===== src/Tasks/Invoices.antt =====
-- back/components/task_manager/source/tasks/protocol/get_invoice, get_invoice_list: the invoices with
-- their items.
pub mod Inserting
use warehouse_accounting_sys.Base.{ℕ, Option, none, some, List, [], ◌∷◌, ◌++◌, String}
use warehouse_accounting_sys.Base.Int.{ℤ}
use warehouse_accounting_sys.Exec.{Outcome, ok, value, try_bind}
use warehouse_accounting_sys.Exec.Try.{◌>>=◌}
use warehouse_accounting_sys.Result.{Result, success, not_found}
use warehouse_accounting_sys.Query.Schema.{
  Column, invoice, invoice_item, invoice_id, warehouse_to_id, warehouse_from_id, pretty_name,
  description, created_date, created_by, product_id, count,
}
use warehouse_accounting_sys.Query.Build.{select_request}
use warehouse_accounting_sys.Database.{Row}
use warehouse_accounting_sys.Transaction.{Entry, Local, function, stop, next}
use warehouse_accounting_sys.Json.{Puts, Document, number, words, put, put_optional}
use warehouse_accounting_sys.Tasks.{
  Server, Interfaces, DateProvider, Running, persistence, query_entry, run_transaction,
  with_interfaces,
}
use warehouse_accounting_sys.Tasks.Reading.{int_at, text_at, int_value_at, text_value_at, each}
use warehouse_accounting_sys.Tasks.Listing.{ListRequest, list_options, id_options}
use warehouse_accounting_sys.Tasks.Items.{
  Item, GetMemory, convert, run_item_list, item_list_answer, read_item_of, write_item,
}

-- invoice.h
pub record Invoice : Type 0 where
  pub invoice_id : Option ℤ
  pub warehouse_to_id : Option ℤ
  pub warehouse_from_id : Option ℤ
  pub name : Option String
  pub pretty_name : Option String
  pub description : Option String
  pub created_date : Option ℤ
  pub created_by : Option ℤ

abbrev pub invoice_columns : List Column
invoice_columns =
    invoice_id ∷ warehouse_to_id ∷ warehouse_from_id ∷ Column.name ∷ pretty_name ∷ description
    ∷ created_date ∷ created_by ∷ []

-- A row of `GetInvoiceList`.
unfoldable pub read_listed_invoice : Row → Outcome Invoice
read_listed_invoice row = do
  id ← int_value_at 0 row
  to ← int_at 1 row
  from ← int_at 2 row
  name ← text_value_at 3 row
  pretty ← text_value_at 4 row
  text ← text_at 5 row
  date ← int_value_at 6 row
  by ← int_value_at 7 row
  ok (record {
    invoice_id = some id;
    warehouse_to_id = to;
    warehouse_from_id = from;
    name = some name;
    pretty_name = some pretty;
    description = text;
    created_date = some date;
    created_by = some by;
  })

-- The row of `GetInvoice`.
unfoldable pub read_invoice : Row → Outcome Invoice
read_invoice row = do
  id ← int_at 0 row
  to ← int_at 1 row
  from ← int_at 2 row
  name ← text_at 3 row
  pretty ← text_at 4 row
  text ← text_at 5 row
  date ← int_at 6 row
  by ← int_at 7 row
  ok (record {
    invoice_id = id;
    warehouse_to_id = to;
    warehouse_from_id = from;
    name = name;
    pretty_name = pretty;
    description = text;
    created_date = date;
    created_by = by;
  })

-- The keys of an invoice, which both tasks put alike.
unfoldable pub write_invoice : DateProvider → Invoice → Outcome Puts
write_invoice dates i = do
  id ← value i.invoice_id
  name ← value i.name
  pretty ← value i.pretty_name
  date ← value i.created_date
  by ← value i.created_by
  ok (
      put number "invoice_id" id
      ++ put_optional number "warehouse_to" i.warehouse_to_id
      ++ put_optional number "warehouse_from" i.warehouse_from_id
      ++ put words "name" name
      ++ put words "pretty_name" pretty
      ++ put_optional words "description" i.description
      ++ put words "created_date" (dates.to_iso_time_string date)
      ++ put number "created_by" by)

abbrev pub invoice_of : Invoice → Option ℤ
invoice_of i = i.invoice_id

-- `GetInvoice`: what is read when the transaction is over; the items come first.
unfoldable pub invoice_result :
    ℤ → GetMemory → Result → Outcome (Result × Option (Invoice × List Item))
invoice_result id m result = elim m.results [
  | [] ↦ ok (not_found, none)
  | row ∷ rows ↦ elim result [
    | success ↦ do
      items ← each (read_item_of id) m.item_results
      i ← read_invoice row
      ok (success, some (i, items))
    | other ↦ ok (other, none)
  ]
]

unfoldable pub invoice_answer :
    DateProvider → Result × Option (Invoice × List Item) → Outcome (Result × Option Document)
invoice_answer dates (success, some (i, items)) = do
  puts ← write_invoice dates i
  written ← each (write_item "invoice_id") items
  ok (success, some (record { puts = puts; items = some written }))
invoice_answer dates (result, x) = ok (result, none)

module _ (server : Server) (interfaces : Interfaces) (dates : DateProvider) (fuel : ℕ) where
  -- `GetInvoiceList::ExecuteInternal`
  unfoldable pub get_invoice_list : ListRequest → Running server (Result × List Document)
  get_invoice_list request =
      run_item_list server interfaces fuel (list_options invoice invoice_columns invoice_id request)
        (convert server invoice_item invoice_id read_listed_invoice invoice_of)
        (item_list_answer "invoice_id" invoice_of (write_invoice dates))

  -- The entries of `GetInvoice`: the items, then the invoice.
  abbrev pub invoice_entry : ℤ → Entry (Local (persistence server) GetMemory)
  invoice_entry id =
      function
        (query_entry server
          (select_request (id_options invoice_item (product_id ∷ count ∷ []) invoice_id id))
          (λ rows m. record m { item_results = rows }))
        (next (
          function
            (query_entry server (select_request (id_options invoice invoice_columns invoice_id id))
              (λ rows m. record m { results = rows }))
            stop))

  -- `GetInvoice::ExecuteInternal`
  unfoldable pub get_invoice : ℤ → Running server (Result × Option Document)
  get_invoice id = with_interfaces server interfaces (
      run_transaction server interfaces fuel (invoice_entry id)
        (record { item_results = []; results = [] })
        λ m result. try_bind (invoice_result id m result) (invoice_answer dates))
