-- ===== src/Tasks/Invoices/Inserting.antt =====
-- `Invoice::FullInsertEntry` of back/components/task_manager/source/tasks/include/tasks/common/invoice.h: the
-- invoice, its id, and its items.
use warehouse_accounting_sys.Base.{ℕ, ◌||◌, Option, none, some, List, [], ◌∷◌, ◌++◌, String}
use warehouse_accounting_sys.Base.Int.{ℤ, pos}
use warehouse_accounting_sys.Exec.{
  Outcome, ok, throws, Exec, lift, check_true, value, try_bind, ◌>>=◌, ◌>>◌,
}
use warehouse_accounting_sys.Query.Schema.{
  Column, invoice, invoice_item, invoice_id, warehouse_to_id, warehouse_from_id, pretty_name,
  description, created_date, created_by, product_id, count,
}
use warehouse_accounting_sys.Query.Values.{int, text, ValueCollector}
use warehouse_accounting_sys.Query.Options.{is_set}
use warehouse_accounting_sys.Query.Build.{Request, insert_request}
use warehouse_accounting_sys.Database.{Rows, front, run_query}
use warehouse_accounting_sys.Stock.{Product}
use warehouse_accounting_sys.Transaction.{Entry, Link, Local, function, grouped, cons, nil, stop}
use warehouse_accounting_sys.Tasks.{Server, persistence, query_entry}
use warehouse_accounting_sys.Tasks.Reading.{int_value_at, text_value_at, each}
use warehouse_accounting_sys.Tasks.Invoices.{Invoice}
use warehouse_accounting_sys.Tasks.Warehouses.Creating.{Inserted, append_optional}

-- What the entries of a task on products share with it.
pub record Goods : Type 0 where
  pub invoice : Invoice
  pub products : List Product
  pub products_new : List Product
  pub invoice_results : Rows
  pub product_results : Rows

-- `if (invoice.warehouse_from_id.has_value())` and the like.
abbrev pub append_number : Option ℤ → Column → Inserted → Inserted
append_number none column (columns, params) = (columns, params)
append_number (some n) column (columns, params) = (columns ++ column ∷ [], params ++ int n ∷ [])

abbrev pub invoice_values : Invoice → String → ℤ → ℕ → Inserted
invoice_values i name by now = append_optional i.description description (
    append_number i.warehouse_to_id warehouse_to_id (
      append_number i.warehouse_from_id warehouse_from_id
        (Column.name ∷ created_by ∷ created_date ∷ [], text name ∷ int by ∷ int (pos now) ∷ [])))

abbrev pub invoice_insertion : Inserted → Request
invoice_insertion (columns, params) =
    insert_request
      (record {
        table = invoice;
        columns = columns;
        returning = invoice_id ∷ pretty_name ∷ [];
        values_count = 0;
      })
      (params ∷ [])

-- `InsertInvoice`: the invoice with its date, and the query of the entry.
unfoldable pub insert_invoice : ℕ → Invoice → Outcome (Invoice × Request)
insert_invoice now i =
    try_bind (check_true (is_set i.warehouse_from_id || is_set i.warehouse_to_id)) λ _.
      try_bind (value i.name) λ name. try_bind (value i.created_by) λ by. ok (
        record i { created_date = some (pos now) },
        invoice_insertion (invoice_values i name by now),
      )

-- The columns of Invoice_Item for a product.
abbrev pub item_values : ℤ → Product → Outcome ValueCollector
item_values n product =
    try_bind (value product.id)
      λ p. try_bind (value product.count) λ c. ok (int n ∷ int p ∷ int c ∷ [])

abbrev pub items_insertion : List ValueCollector → Request
items_insertion rows =
    insert_request
      (record {
        table = invoice_item;
        columns = invoice_id ∷ product_id ∷ count ∷ [];
        returning = [];
        values_count = 0;
      })
      rows

module _ (server : Server) where
  abbrev pub GoodsExec : Type 0
  GoodsExec = Exec (server.database.State × Goods) (Unit {0})

  -- A statement in an entry's function, on the variables as they are then.
  abbrev pub on_view : (Goods → Exec server.database.State (Unit {0})) → GoodsExec
  on_view f (v, m) = let (r, v') = f m v in (r, (v', m))

  -- An assignment to the invoice, where what is read may throw.
  abbrev pub set_invoice : {A : Type 0} → (Goods → Outcome A) → (A → Invoice → Invoice) → GoodsExec
  set_invoice read set (v, m) = elim (read m) [
    | ok a ↦ (ok tt, (v, record m { invoice = set a m.invoice }))
    | throws e ↦ (throws e, (v, m))
  ]

  -- `invoiceIdGetter`
  unfoldable pub invoice_id_getter : GoodsExec
  invoice_id_getter =
      set_invoice (λ m. try_bind (front m.invoice_results) (int_value_at 0))
        (λ n i. record i { invoice_id = some n })
      >> set_invoice (λ m. try_bind (front m.invoice_results) (text_value_at 1))
          (λ s i. record i { pretty_name = some s })

  -- The function of `InsertInvoiceItems`.
  unfoldable pub insert_invoice_items : Goods → Exec server.database.State (Unit {0})
  insert_invoice_items m = do
    lift (check_true (is_set m.invoice.invoice_id))
    id ← lift (value m.invoice.invoice_id)
    rows ← lift (each (item_values id) m.products)
    run_query server.database (items_insertion rows)
    lift (ok tt)

  -- `FullInsertEntry`, whose first query was made before.
  unfoldable pub full_insert_entry :
      Request → Link (Local (persistence server) Goods) → Entry (Local (persistence server) Goods)
  full_insert_entry request link =
      grouped
        (cons
          (function (query_entry server request (λ rows m. record m { invoice_results = rows }))
            stop)
          (cons (function invoice_id_getter stop)
            (cons (function (on_view insert_invoice_items) stop) nil)))
        link
