-- ===== src/Tasks/Goods.antt =====
-- back/components/task_manager/source/tasks/protocol/products_move, products_remove: the tasks that move products
-- between two warehouses and remove them from one, with an invoice for each.
pub mod Creating
pub mod Invoiced
pub mod Moving
pub mod Removing
use warehouse_accounting_sys.Base.{ℕ, Option, none, some, List, [], ◌∷◌, ◌++◌, String, true, false}
use warehouse_accounting_sys.Base.Int.{ℤ, pos}
use warehouse_accounting_sys.Result.{Result, success}
use warehouse_accounting_sys.Exec.{Outcome, ok, throws, check_true, check_success, value, try_bind}
use warehouse_accounting_sys.Exec.Try.{◌>>=◌, ◌>>◌}
use warehouse_accounting_sys.Query.Build.{Request}
use warehouse_accounting_sys.Database.{front}
use warehouse_accounting_sys.Stock.{Product, change_count}
use warehouse_accounting_sys.Transaction.{Entry, Local, function, stop, next}
use warehouse_accounting_sys.Json.{
  Json, Puts, Document, number, words, put, put_optional, get_key, get_optional,
}
use warehouse_accounting_sys.Tasks.{
  Server, Interfaces, DateProvider, Running, persistence, run_transaction, checked, with_interfaces,
}
use warehouse_accounting_sys.Tasks.Reading.{int_at, each}
use warehouse_accounting_sys.Tasks.Invoices.{Invoice}
use warehouse_accounting_sys.Tasks.Invoices.Inserting.{
  Goods, insert_invoice, on_view, full_insert_entry,
}

-- A product that only its id and its count are known of.
abbrev pub product_asked : ℤ → ℤ → Product
product_asked id count = record {
  name = none;
  pretty_name = none;
  description = none;
  main_color = none;
  main_color_name = none;
  count = some count;
  id = some id;
  created_date = none;
  created_by = none;
  warehouse_id = none;
}

-- The invoice and the products that are parsed, before anything is executed.
abbrev pub goods_of : Invoice → List Product → Goods
goods_of i products = record {
  invoice = i;
  products = products;
  products_new = [];
  invoice_results = [];
  product_results = [];
}

module _ (j : Json) (user : ℕ) (body : j.Value) where
  -- The keys of the invoice; the warehouses are given.
  abbrev pub parse_invoice : Outcome (Option ℤ) → Outcome (Option ℤ) → Outcome Invoice
  parse_invoice read_to read_from = do
    name ← get_key j j.as_string body "invoice_name"
    about ← get_optional j j.as_string body "invoice_description"
    to ← read_to
    from ← read_from
    ok (record {
      invoice_id = none;
      warehouse_to_id = to;
      warehouse_from_id = from;
      name = some name;
      pretty_name = none;
      description = about;
      created_date = none;
      created_by = some (pos user);
    })

  abbrev pub warehouse_at : String → Outcome (Option ℤ)
  warehouse_at key = try_bind (get_key j j.as_int64 body key) λ n. ok (some n)

  -- `CHECK_TRUE(json.at(PRODUCTS_KEY).is_array())`, and the elements.
  abbrev pub product_elements : Outcome (List j.Value)
  product_elements = do
    products ← j.at body "products"
    check_true (j.is_array products)
    ok (j.elements products)

  abbrev pub parse_asked : j.Value → Outcome Product
  parse_asked v = do
    id ← get_key j j.as_int64 v "id"
    count ← get_key j j.as_int64 v "count"
    ok (product_asked id count)

  -- `ProductsMove::ParseInternal`
  unfoldable pub parse_move : Outcome Goods
  parse_move = do
    i ← parse_invoice (warehouse_at "warehouse_to") (warehouse_at "warehouse_from")
    elements ← product_elements
    products ← each parse_asked elements
    ok (goods_of i products)

  -- `ProductsRemove::ParseInternal`
  unfoldable pub parse_remove : Outcome Goods
  parse_remove = do
    i ← parse_invoice (ok none) (warehouse_at "warehouse_from")
    elements ← product_elements
    products ← each parse_asked elements
    ok (goods_of i products)

-- One object of the array "products".
abbrev pub write_asked : Product → Outcome Puts
write_asked p = do
  id ← value p.id
  count ← value p.count
  ok (put number "id" id ++ put number "count" count)

abbrev pub write_warehouse_to : Invoice → Outcome Puts
write_warehouse_to i = do to ← value i.warehouse_to_id; ok (put number "warehouse_to" to)

abbrev pub write_warehouse_from : Invoice → Outcome Puts
write_warehouse_from i = do from ← value i.warehouse_from_id; ok (put number "warehouse_from" from)

-- The keys of the invoice that was inserted.
abbrev pub write_inserted : DateProvider → Invoice → Outcome Puts
write_inserted dates i = do
  id ← value i.invoice_id
  date ← value i.created_date
  by ← value i.created_by
  name ← value i.name
  pretty ← value i.pretty_name
  ok (
      put number "invoice_id" id
      ++ put words "invoice_created_date" (dates.to_iso_time_string date)
      ++ put number "invoice_created_by" by
      ++ put words "invoice_name" name
      ++ put words "invoice_pretty_name" pretty
      ++ put_optional words "invoice_description" i.description)

unfoldable pub write_moved : DateProvider → Invoice → List Product → Outcome Document
write_moved dates i products = do
  head ← write_inserted dates i
  to ← write_warehouse_to i
  from ← write_warehouse_from i
  written ← each write_asked products
  ok (record { puts = head ++ to ++ from; items = some written })

unfoldable pub write_removed : DateProvider → Invoice → List Product → Outcome Document
write_removed dates i products = do
  head ← write_inserted dates i
  from ← write_warehouse_from i
  written ← each write_asked products
  ok (record { puts = head ++ from; items = some written })

-- What follows the transaction: the id is set once more, and the answer written.
unfoldable pub moved_answer :
    (Invoice → List Product → Outcome Document)
    → Goods
    → Result
    → Outcome (Result × Option Document)
moved_answer write m success = do
  row ← front m.invoice_results
  id ← int_at 0 row
  document ← write (record m.invoice { invoice_id = id }) m.products
  ok (success, some document)
moved_answer write m result = ok (result, none)

module _ (server : Server) where
  -- The entries of a move: the invoice, then `warehouseItemFromEntry` and `warehouseItemToEntry`.
  abbrev pub move_entry : ℤ → ℤ → Request → Entry (Local (persistence server) Goods)
  move_entry from to request = full_insert_entry server request (
      next (
        function (on_view server λ m. change_count server.database from true m.products) (
          next (
            function (on_view server λ m. change_count server.database to false m.products) stop))))

  abbrev pub remove_entry : ℤ → Request → Entry (Local (persistence server) Goods)
  remove_entry from request =
      full_insert_entry server request (
        next
          (function (on_view server λ m. change_count server.database from true m.products) stop))

  unfoldable pub move_entries :
      ℕ → Goods → Outcome (Goods × Entry (Local (persistence server) Goods))
  move_entries now m = do
    inserted ← insert_invoice now m.invoice
    from ← value inserted.0.warehouse_from_id
    to ← value inserted.0.warehouse_to_id
    ok (record m { invoice = inserted.0 }, move_entry from to inserted.1)

  unfoldable pub remove_entries :
      ℕ → Goods → Outcome (Goods × Entry (Local (persistence server) Goods))
  remove_entries now m = do
    inserted ← insert_invoice now m.invoice
    from ← value inserted.0.warehouse_from_id
    ok (record m { invoice = inserted.0 }, remove_entry from inserted.1)

module _ (server : Server) (interfaces : Interfaces) (dates : DateProvider) (fuel : ℕ) where
  -- The entries of the task with the variables, made after the transaction is.
  abbrev pub run_goods :
      (Invoice → List Product → Outcome Document)
      → Outcome (Goods × Entry (Local (persistence server) Goods))
      → Running server (Result × Option Document)
  run_goods write (throws e) =
      checked server (check_success interfaces.create_transaction) (λ w. (some (throws e), w))
  run_goods write (ok (m, entry)) =
      run_transaction server interfaces fuel entry m (moved_answer write)

  -- `ProductsMove::ExecuteInternal` and `ProductsRemove::ExecuteInternal`
  unfoldable pub run_products_move : ℕ → Goods → Running server (Result × Option Document)
  run_products_move now m =
      with_interfaces server interfaces (run_goods (write_moved dates) (move_entries server now m))

  unfoldable pub run_products_remove : ℕ → Goods → Running server (Result × Option Document)
  run_products_remove now m =
      with_interfaces server interfaces
        (run_goods (write_removed dates) (remove_entries server now m))
