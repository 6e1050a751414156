-- ===== src/Tasks/Goods/Creating.antt =====
-- back/components/task_manager/source/tasks/protocol/products_create: products that come into a warehouse, new ones
-- and ones that are known by their id; with `Product::InsertsEntry` and `WarehouseItem::InsertsEntry`.

pub mod Known
use mathlib.Core.Option
use warehouse_accounting_sys.Base.{
  ℕ, zero, suc, ◌+◌, Bool, true, false, ◌&&◌, ◌==◌, if◌then◌else◌, length, Option, none, some, List,
  [], ◌∷◌, ◌++◌, String, str_eq,
}
use warehouse_accounting_sys.Base.Int.{ℤ, pos}
use warehouse_accounting_sys.Result.{Result, success}
use warehouse_accounting_sys.Exec.{
  Outcome, ok, throws, runtime_error, Exec, check_true, check_success, value, try_bind,
}
use warehouse_accounting_sys.Exec.Try.{◌>>=◌, ◌>>◌}
use warehouse_accounting_sys.Query.Schema.{
  Column, product, warehouse_item, warehouse_id, product_id, pretty_name, description, main_color,
  created_date, created_by, count,
}
use warehouse_accounting_sys.Query.Values.{Value, int, text, ValueCollector}
use warehouse_accounting_sys.Query.Build.{Request, insert_request, create}
use warehouse_accounting_sys.Database.{Row, Rows, run_query}
use warehouse_accounting_sys.Stock.{Product, change_count}
use warehouse_accounting_sys.Transaction.{Entry, Local, function, stop, next}
use warehouse_accounting_sys.Json.{
  Json, Puts, Document, number, words, put, put_optional, get_key, get_optional,
}
use warehouse_accounting_sys.Tasks.{
  Server, Interfaces, DateProvider, Running, persistence, query_entry, run_transaction, checked,
  with_interfaces,
}
use warehouse_accounting_sys.Tasks.Reading.{int_value_at, text_value_at, each}
use warehouse_accounting_sys.Tasks.Invoices.{Invoice}
use warehouse_accounting_sys.Tasks.Invoices.Inserting.{
  Goods, GoodsExec, insert_invoice, on_view, full_insert_entry,
}
use warehouse_accounting_sys.Tasks.Goods.{
  goods_of, product_asked, parse_invoice, warehouse_at, product_elements, parse_asked,
  write_inserted, write_warehouse_to,
}

-- Whether a product goes to `m_productsNew` or to `m_products`.
pub data Parsed : Type 0 where
  is_new is_known : Product → Parsed

module _ (j : Json) (user : ℕ) where
  -- `*typeIt == "…"`
  abbrev pub says : j.Value → String → Bool
  says v s = elim (j.as_string v) [ ok t ↦ j.is_string v && str_eq t s | throws e ↦ false ]

  abbrev pub parse_new : j.Value → Outcome Product
  parse_new v = do
    name ← get_key j j.as_string v "name"
    about ← get_optional j j.as_string v "description"
    color ← get_optional j j.as_int64 v "main_color"
    color_name ← get_optional j j.as_string v "main_color_name"
    held ← get_key j j.as_int64 v "count"
    ok (record {
      name = some name;
      pretty_name = none;
      description = about;
      main_color = color;
      main_color_name = color_name;
      count = some held;
      id = none;
      created_date = none;
      created_by = some (pos user);
      warehouse_id = none;
    })

  abbrev pub parse_typed : Option j.Value → j.Value → Outcome Parsed
  parse_typed none v = do p ← parse_new v; ok (is_new p)
  parse_typed (some t) v =
      if says t "new"
      then try_bind (parse_new v) (λ p. ok (is_new p))
      else if says t "byid"
      then try_bind (parse_asked j user v v) (λ p. ok (is_known p))
      else throws runtime_error

  abbrev pub parse_element : j.Value → Outcome Parsed
  parse_element v = parse_typed (j.find v "type") v

  abbrev pub add_parsed : Parsed → Goods → Goods
  add_parsed (is_new p) m = record m { products_new = p ∷ m.products_new }
  add_parsed (is_known p) m = record m { products = p ∷ m.products }

  abbrev pub add_all : Invoice → List Parsed → Goods
  add_all i [] = goods_of i []
  add_all i (p ∷ ps) = add_parsed p (add_all i ps)

  -- `ProductsCreate::ParseInternal`
  unfoldable pub parse_create : j.Value → Outcome Goods
  parse_create body = do
    i ← parse_invoice j user body (warehouse_at j user body "warehouse_to") (ok none)
    elements ← product_elements j user body
    parsed ← each parse_element elements
    ok (add_all i parsed)

-- `AppendToQueryNullable`
abbrev pub append_nullable : {A : Type 0} → (A → Value) → Option A → ValueCollector → ValueCollector
append_nullable content none params = params ++ text "NULL" ∷ []
append_nullable content (some a) params = params ++ content a ∷ []

-- One round of the loop of `Product::InsertsEntry`.
abbrev pub product_values : ℕ → Product → Outcome ValueCollector
product_values now p = do
  name ← value p.name
  by ← value p.created_by
  ok (
      append_nullable int p.main_color
        (append_nullable text p.description (text name ∷ int by ∷ int (pos now) ∷ [])))

abbrev pub stamped : ℕ → Product → Product
stamped now p = record p { created_date = some (pos now) }

abbrev pub products_insertion : List ValueCollector → Request
products_insertion rows =
    insert_request
      (record {
        table = product;
        columns = Column.name ∷ created_by ∷ created_date ∷ description ∷ main_color ∷ [];
        returning = product_id ∷ pretty_name ∷ [];
        values_count = 0;
      })
      rows

-- `clock n` is what the n-th call of `GetTimestamp` answers.
module _ (clock : ℕ → ℕ) where
  abbrev pub product_rows : ℕ → List Product → Outcome (List ValueCollector)
  product_rows n [] = ok []
  product_rows n (p ∷ ps) = do
    row ← product_values (clock n) p
    rows ← product_rows (suc n) ps
    ok (row ∷ rows)

  abbrev pub stamped_all : ℕ → List Product → List Product
  stamped_all n [] = []
  stamped_all n (p ∷ ps) = stamped (clock n) p ∷ stamped_all (suc n) ps

  -- `Product::InsertsEntry`, whose query is made at once: without products it throws.
  unfoldable pub insert_products : List Product → Outcome (List Product × Request)
  insert_products ps = do
    rows ← product_rows 0 ps
    create (products_insertion rows)
    ok (stamped_all 0 ps, products_insertion rows)

-- The columns of Warehouse_Item for a new product.
abbrev pub new_item_values : ℤ → Product → Outcome ValueCollector
new_item_values w p = do c ← value p.count; id ← value p.id; ok (int w ∷ int c ∷ int id ∷ [])

abbrev pub new_items_insertion : List ValueCollector → Request
new_items_insertion rows =
    insert_request
      (record {
        table = warehouse_item;
        columns = warehouse_id ∷ count ∷ product_id ∷ [];
        returning = product_id ∷ [];
        values_count = 0;
      })
      rows

abbrev pub done : {S A : Type 0} → Outcome A × S → Outcome (Unit {0}) × S
done (ok a, s) = (ok tt, s)
done (throws e, s) = (throws e, s)

-- `leaves` is what is left of a text that was moved out of.
module _ (leaves : String → String) where
  abbrev pub moved_from : Product → Product
  moved_from p = record p {
    name = Option.map leaves p.name;
    pretty_name = Option.map leaves p.pretty_name;
    description = Option.map leaves p.description;
    main_color_name = Option.map leaves p.main_color_name;
  }

  -- One round of `idsConverter`: what is left of the new product, and the product that is added.
  unfoldable pub adopt : Row → Product → Outcome (Unit {0}) × (Product × Product)
  adopt row p = elim (int_value_at 0 row) [
    | throws e ↦ (throws e, (moved_from p, p))
    | ok id ↦ elim (text_value_at 1 row) [
      | throws e ↦ (throws e, (moved_from p, record p { id = some id }))
      | ok pretty ↦ (
        ok tt,
        (
          record (moved_from p) { id = some id; count = p.count },
          record p { id = some id; pretty_name = some pretty },
        ),
      )
    ]
  ]

  -- The loop, which stops at the first round that throws.
  unfoldable pub adopt_all :
      Rows → List Product → List Product → Outcome (Unit {0}) × (List Product × List Product)
  adopt_all (row ∷ rows) (p ∷ ps) products =
      let (r, n) = adopt row p in
      let later = adopt_all rows ps (products ++ n.1 ∷ []) in
      elim r [
        | ok u ↦ (later.0, (n.0 ∷ later.1.0, later.1.1))
        | throws e ↦ (throws e, (n.0 ∷ ps, products ++ n.1 ∷ []))
      ]
  adopt_all rows ps products = (ok tt, (ps, products))

  abbrev pub adopted :
      Goods → Outcome (Unit {0}) × (List Product × List Product) → Outcome (Unit {0}) × Goods
  adopted m (r, (left, products)) = (r, record m { products_new = left; products = products })

  module _ (server : Server) where
    -- `idsConverter`
    unfoldable pub ids_converter : GoodsExec server
    ids_converter (v, m) =
        if length m.product_results == length m.products_new
        then (let (r, n) = adopted m (adopt_all m.product_results m.products_new m.products) in
            (r, (v, n)))
        else (throws runtime_error, (v, m))

    -- `WarehouseItem::InsertsEntry`, the function of its entry.
    unfoldable pub insert_new_items : ℤ → Goods → Exec server.database.State (Unit {0})
    insert_new_items w m s = elim (each (new_item_values w) m.products_new) [
      | ok rows ↦ done (run_query server.database (new_items_insertion rows) s)
      | throws e ↦ (throws e, s)
    ]

    -- The entries of `CreateInvoiceProducts`, each in front of the next.
    abbrev pub create_entry : ℤ → Request → Request → Entry (Local (persistence server) Goods)
    create_entry to products invoice_request =
        function (on_view server λ m. change_count server.database to false m.products) (
          next (
            function (query_entry server products (λ rows m. record m { product_results = rows })) (
              next (
                function ids_converter (
                  next (
                    full_insert_entry server invoice_request
                      (next (function (on_view server (insert_new_items to)) stop))))))))

    unfoldable pub create_entries :
        (ℕ → ℕ) → Goods → Outcome (Goods × Entry (Local (persistence server) Goods))
    create_entries clock m = do
      to ← value m.invoice.warehouse_to_id
      products ← insert_products clock m.products_new
      inserted ← insert_invoice (clock (length m.products_new)) m.invoice
      ok (
        record m { products_new = products.0; invoice = inserted.0 },
        create_entry to products.1 inserted.1,
      )

-- One object of the array "products".
abbrev pub write_created_product : DateProvider → Product → Outcome Puts
write_created_product dates p = do
  c ← value p.count
  id ← value p.id
  ok (
      put_optional words "name" p.name
      ++ put_optional words "description" p.description
      ++ put_optional number "main_color" p.main_color
      ++ put_optional words "main_color_name" p.main_color_name
      ++ put number "count" c
      ++ put number "id" id
      ++ put_optional number "created_by" p.created_by
      ++ put_optional words "pretty_name" p.pretty_name
      ++ put_optional words "created_date" (Option.map dates.to_iso_time_string p.created_date))

unfoldable pub created_answer : DateProvider → Goods → Result → Outcome (Result × Option Document)
created_answer dates m success = do
  head ← write_inserted dates m.invoice
  to ← write_warehouse_to m.invoice
  written ← each (write_created_product dates) m.products
  ok (success, some (record { puts = head ++ to; items = some written }))
created_answer dates m result = ok (result, none)

module _ (server : Server) (interfaces : Interfaces) (dates : DateProvider)
    (leaves : String → String) (fuel : ℕ) where
  -- `CreateInvoiceProducts`, and the answer.
  abbrev pub run_creation :
      Outcome (Goods × Entry (Local (persistence server) Goods))
      → Running server (Result × Option Document)
  run_creation (throws e) =
      checked server (check_success interfaces.create_transaction) (λ w. (some (throws e), w))
  run_creation (ok (m, entry)) =
      run_transaction server interfaces fuel entry m (created_answer dates)

  -- `ProductsCreate::ExecuteInternal`
  unfoldable pub run_products_create : (ℕ → ℕ) → Goods → Running server (Result × Option Document)
  run_products_create clock m =
      with_interfaces server interfaces (run_creation (create_entries leaves server clock m))
