-- ===== src/Tasks/Reports/Current.antt =====
-- back/components/task_manager/source/tasks/protocol/reports_current: the report on what a warehouse holds now, with
-- its file; and of tasks/common `Report::InsertEntry`, `WarehouseItem::SelectByWarehouse`,
-- `Product::SelectEntry`.
pub mod Printing
pub mod Agreeing
pub mod Collecting
pub mod Failing
use warehouse_accounting_sys.Base.{
  ℕ, suc, Bool, true, false, ◌==◌, if◌then◌else◌, length, Option, none, some, List, [], ◌∷◌, ◌++◌,
  map, String,
}
use warehouse_accounting_sys.Base.Int.{ℤ, pos, ◌==ℤ◌, leb_ℤ}
use warehouse_accounting_sys.Result.{Result, success}
use warehouse_accounting_sys.Exec.{
  Outcome, ok, throws, runtime_error, not_found_exception, Exec, lift, check_true, check_success,
  value, try_bind,
}
use warehouse_accounting_sys.Exec.Try.{◌>>=◌, ◌>>◌}
use warehouse_accounting_sys.Query.Schema.{
  Column, product, warehouse, warehouse_item, report, report_id, report_type, filepath,
  warehouse_id, product_id, pretty_name, description, main_color, created_date, created_by, count,
}
use warehouse_accounting_sys.Query.Values.{int, text}
use warehouse_accounting_sys.Query.Condition.{in_list}
use warehouse_accounting_sys.Query.Options.{SelectOptions, OrderType}
use warehouse_accounting_sys.Query.Build.{Request, select_request, insert_request}
use warehouse_accounting_sys.Database.{Row, Rows, front, run_query}
use warehouse_accounting_sys.Stock.{Product}
use warehouse_accounting_sys.Transaction.{
  Entry, Link, Local, function, grouped, cons, nil, stop, next,
}
use warehouse_accounting_sys.Documents.{FileSystem, escape_path, create_file}
use warehouse_accounting_sys.Documents.Paths.{Bytes, FilePath, codes}
use warehouse_accounting_sys.Json.{Json, get_key, get_optional}
use warehouse_accounting_sys.Tasks.{Server, DateProvider, persistence, query_entry, stored}
use warehouse_accounting_sys.Tasks.Reading.{int_at, text_at, int_value_at, text_value_at, each}
use warehouse_accounting_sys.Tasks.Listing.{id_options}
use warehouse_accounting_sys.Tasks.Warehouses.{Warehouse, warehouse_columns, read_warehouse_by_id}
use warehouse_accounting_sys.Tasks.Warehouses.Creating.{Inserted, append_optional}
use warehouse_accounting_sys.Tasks.Reports.{Report, report_type_to_string}

-- `std::map<int64_t, Product>`, in the order of the keys.
abbrev pub Products : Type 0
Products = List (ℤ × Product)

abbrev pub empty_product : Product
empty_product = record {
  name = none;
  pretty_name = none;
  description = none;
  main_color = none;
  main_color_name = none;
  count = none;
  id = none;
  created_date = none;
  created_by = none;
  warehouse_id = none;
}

-- `products[id]`, edited in place.
abbrev pub edit : ℤ → (Product → Product) → Products → Products
edit id change [] = (id, change empty_product) ∷ []
edit id change ((k, p) ∷ products) =
    let rest = edit id change products in
    if k ==ℤ id
    then (k, change p) ∷ products
    else if leb_ℤ k id
    then (k, p) ∷ rest
    else (id, change empty_product) ∷ (k, p) ∷ products

-- What a row says of a product.
abbrev pub Edit : Type 0
Edit = ℤ × (Product → Product)

abbrev pub edit_all : List Edit → Products → Products
edit_all [] products = products
edit_all ((id, change) ∷ edits) products = edit_all edits (edit id change products)

-- The row of `SelectByWarehouse`.
unfoldable pub read_held : Row → Outcome Edit
read_held row = do
  id ← int_value_at 0 row
  held ← int_value_at 1 row
  ok (id, λ p. record p { id = some id; count = some held })

-- The row of `Product::SelectEntry`.
unfoldable pub read_selected : Row → Outcome Edit
read_selected row = do
  id ← int_value_at 0 row
  name ← text_value_at 1 row
  pretty ← text_value_at 2 row
  about ← text_at 3 row
  color ← int_at 4 row
  date ← int_value_at 5 row
  by ← int_value_at 6 row
  ok (
    id,
    λ p. record p {
      id = some id;
      name = some name;
      pretty_name = some pretty;
      description = about;
      main_color = color;
      created_date = some date;
      created_by = some by;
    },
  )

-- What the entries of the task share with it. `files` is the file system, which no rollback changes, and
-- `opened` how many files were asked for.
pub record ReportMemory (fs : FileSystem) : Type 0 where
  pub report : Report
  pub warehouse : Warehouse
  pub products : Products
  pub warehouse_results : Rows
  pub item_results : Rows
  pub product_results : Rows
  pub report_results : Rows
  pub files : fs.World
  pub opened : ℕ

-- `ReportsCurrent::ParseInternal`: the report and the warehouse.
unfoldable pub parse_reports_current :
    (j : Json) → ℕ → Result → j.Value → Outcome (Report × Warehouse)
parse_reports_current j user date_provider body = do
  check_success date_provider
  name ← get_key j j.as_string body "name"
  about ← get_optional j j.as_string body "description"
  w ← get_key j j.as_int64 body "warehouse_id"
  ok (
    record {
      report_id = none;
      name = some name;
      description = about;
      period_from = none;
      period_to = none;
      warehouse_id = some w;
      created_by = some (pos user);
      created_date = none;
      filepath = none;
      report_type = some (pos 1);
    },
    record {
      name = none;
      pretty_name = none;
      description = none;
      location = none;
      warehouse_id = some w;
      created_date = none;
      created_by = none;
    },
  )

-- SELECT … FROM Product WHERE product_id IN (…)
abbrev pub products_options : List ℤ → SelectOptions
products_options ids = record {
  table = product;
  columns =
      product_id ∷ Column.name ∷ pretty_name ∷ description ∷ main_color ∷ created_date ∷ created_by
      ∷ [];
  joins = [];
  condition = some (in_list product_id (map int ids));
  order_by = none;
  order_type = OrderType.asc;
  limit = none;
  offset = none;
}

abbrev pub report_insertion : Inserted → Request
report_insertion (columns, params) =
    insert_request
      (record { table = report; columns = columns; returning = report_id ∷ []; values_count = 0 })
      (params ∷ [])

-- The statement of `Report::InsertEntry`.
unfoldable pub insert_report : Report → Outcome Request
insert_report r = do
  name ← value r.name
  type ← value r.report_type
  path ← value r.filepath
  date ← value r.created_date
  by ← value r.created_by
  w ← value r.warehouse_id
  ok (
      report_insertion (
        append_optional r.description description (
          Column.name ∷ report_type ∷ filepath ∷ created_date ∷ created_by ∷ warehouse_id ∷ [],
          text name ∷ int type ∷ text path ∷ int date ∷ int by ∷ int w ∷ [],
        )))

-- Where `CreateReportFile` asks for the file: the folder, the type and the date, escaped.
abbrev pub report_path : DateProvider → Report → Outcome Bytes
report_path dates r = do
  type ← value r.report_type
  folder ← report_type_to_string type
  date ← value r.created_date
  ok (
      escape_path (
        codes "reports"
        ++ b'/' ∷ codes folder
        ++ b'/' ∷ codes (dates.to_iso_time_string date)
        ++ codes ".html"))
