-- ===== src/Tasks/Warehouses.antt =====
-- back/components/task_manager/source/tasks/protocol/get_warehouse, get_warehouse_list, and
-- `Warehouse::SelectEntry` of tasks/common/warehouse.h: the warehouses with their items.
pub mod Creating
use warehouse_accounting_sys.Base.{ℕ, Option, none, some, List, [], ◌∷◌, ◌++◌, String}
use warehouse_accounting_sys.Base.Int.{ℤ}
use warehouse_accounting_sys.Exec.{Outcome, ok, throws, not_found_exception, Exec, value, try_bind}
use warehouse_accounting_sys.Exec.Try.{◌>>=◌}
use warehouse_accounting_sys.Result.{Result, success}
use warehouse_accounting_sys.Query.Schema.{
  Column, warehouse, warehouse_item, warehouse_id, pretty_name, description, location, created_date,
  created_by, product_id, count,
}
use warehouse_accounting_sys.Query.Build.{select_request}
use warehouse_accounting_sys.Database.{Row, Rows}
use warehouse_accounting_sys.Transaction.{Entry, Local, function, grouped, cons, nil, stop, next}
use warehouse_accounting_sys.Json.{Puts, Document, number, words, put, put_optional}
use warehouse_accounting_sys.Tasks.{
  Server, Interfaces, DateProvider, Running, persistence, query_entry, run_transaction,
  with_interfaces,
}
use warehouse_accounting_sys.Tasks.Reading.{text_at, int_value_at, text_value_at, each}
use warehouse_accounting_sys.Tasks.Listing.{ListRequest, list_options, id_options}
use warehouse_accounting_sys.Tasks.Items.{
  Item, convert, run_item_list, item_list_answer, read_item_of, write_item,
}

-- warehouse.h
pub record Warehouse : Type 0 where
  pub name : Option String
  pub pretty_name : Option String
  pub description : Option String
  pub location : Option String
  pub warehouse_id : Option ℤ
  pub created_date : Option ℤ
  pub created_by : Option ℤ

abbrev pub warehouse_list_columns : List Column
warehouse_list_columns =
    warehouse_id ∷ Column.name ∷ pretty_name ∷ description ∷ created_date ∷ created_by ∷ location
    ∷ []

-- A row of `GetWarehouseList`.
unfoldable pub read_listed_warehouse : Row → Outcome Warehouse
read_listed_warehouse row = do
  id ← int_value_at 0 row
  name ← text_value_at 1 row
  pretty ← text_value_at 2 row
  text ← text_at 3 row
  date ← int_value_at 4 row
  by ← int_value_at 5 row
  place ← text_at 6 row
  ok (record {
    name = some name;
    pretty_name = some pretty;
    description = text;
    location = place;
    warehouse_id = some id;
    created_date = some date;
    created_by = some by;
  })

abbrev pub warehouse_columns : List Column
warehouse_columns =
    Column.name ∷ pretty_name ∷ description ∷ created_date ∷ created_by ∷ location ∷ []

-- The row of `Warehouse::SelectEntry`; the location is read from the place of the description.
unfoldable pub read_warehouse_by_id : ℤ → Row → Outcome Warehouse
read_warehouse_by_id id row = do
  name ← text_value_at 0 row
  pretty ← text_value_at 1 row
  text ← text_at 2 row
  date ← int_value_at 3 row
  by ← int_value_at 4 row
  place ← text_at 2 row
  ok (record {
    name = some name;
    pretty_name = some pretty;
    description = text;
    location = place;
    warehouse_id = some id;
    created_date = some date;
    created_by = some by;
  })

-- The keys of a warehouse, which both tasks put alike.
unfoldable pub write_warehouse : DateProvider → Warehouse → Outcome Puts
write_warehouse dates w = do
  id ← value w.warehouse_id
  name ← value w.name
  pretty ← value w.pretty_name
  date ← value w.created_date
  by ← value w.created_by
  ok (
      put number "warehouse_id" id
      ++ put words "name" name
      ++ put words "pretty_name" pretty
      ++ put_optional words "description" w.description
      ++ put words "created_date" (dates.to_iso_time_string date)
      ++ put number "created_by" by
      ++ put_optional words "location" w.location)

abbrev pub warehouse_of : Warehouse → Option ℤ
warehouse_of w = w.warehouse_id

-- What the entries of `GetWarehouse` share with it.
pub record WarehouseMemory : Type 0 where
  pub item_results : Rows
  pub results : Rows
  pub warehouse : Option Warehouse

-- The second function of `Warehouse::SelectEntry`.
abbrev pub found : Outcome Warehouse → WarehouseMemory → Outcome (Unit {0}) × WarehouseMemory
found (ok w) m = (ok tt, record m { warehouse = some w })
found (throws e) m = (throws e, m)

abbrev pub convert_warehouse : ℤ → Rows → WarehouseMemory → Outcome (Unit {0}) × WarehouseMemory
convert_warehouse id [] m = (throws not_found_exception, m)
convert_warehouse id (row ∷ rows) m = found (read_warehouse_by_id id row) m

-- What `GetWarehouse` reads when the transaction is over; on success the entries filled the
-- warehouse.
unfoldable pub warehouse_result :
    ℤ → WarehouseMemory → Result → Outcome (Result × Option (Warehouse × List Item))
warehouse_result id m success = do
  items ← each (read_item_of id) m.item_results
  w ← value m.warehouse
  ok (success, some (w, items))
warehouse_result id m other = ok (other, none)

unfoldable pub warehouse_answer :
    DateProvider → Result × Option (Warehouse × List Item) → Outcome (Result × Option Document)
warehouse_answer dates (success, some (w, items)) = do
  puts ← write_warehouse dates w
  written ← each (write_item "warehouse_id") items
  ok (success, some (record { puts = puts; items = some written }))
warehouse_answer dates (result, x) = ok (result, none)

module _ (server : Server) (interfaces : Interfaces) (dates : DateProvider) (fuel : ℕ) where
  -- `GetWarehouseList::ExecuteInternal`
  unfoldable pub get_warehouse_list : ListRequest → Running server (Result × List Document)
  get_warehouse_list request =
      run_item_list server interfaces fuel
        (list_options warehouse warehouse_list_columns warehouse_id request)
        (convert server warehouse_item warehouse_id read_listed_warehouse warehouse_of)
        (item_list_answer "warehouse_id" warehouse_of (write_warehouse dates))

  abbrev pub convert_entry : ℤ → Exec (server.database.State × WarehouseMemory) (Unit {0})
  convert_entry id (v, m) = let (r, n) = convert_warehouse id m.results m in (r, (v, n))

  -- The entries of `GetWarehouse`: the items, then the group of `Warehouse::SelectEntry`.
  abbrev pub warehouse_entry : ℤ → Entry (Local (persistence server) WarehouseMemory)
  warehouse_entry id =
      function
        (query_entry server
          (select_request (id_options warehouse_item (product_id ∷ count ∷ []) warehouse_id id))
          (λ rows m. record m { item_results = rows }))
        (next (
          grouped
            (cons
              (function
                (query_entry server
                  (select_request (id_options warehouse warehouse_columns warehouse_id id))
                  (λ rows m. record m { results = rows }))
                stop)
              (cons (function (convert_entry id) stop) nil))
            stop))

  -- `GetWarehouse::ExecuteInternal`
  unfoldable pub get_warehouse : ℤ → Running server (Result × Option Document)
  get_warehouse id = with_interfaces server interfaces (
      run_transaction server interfaces fuel (warehouse_entry id)
        (record { item_results = []; results = []; warehouse = none })
        λ m result. try_bind (warehouse_result id m result) (warehouse_answer dates))
