-- ===== src/Tasks/Products.antt =====
-- back/components/task_manager/source/tasks/protocol/get_product, get_product_list: the products.
use warehouse_accounting_sys.Base.{
  ℕ, Bool, true, false, ◌||◌, Option, none, some, List, [], ◌∷◌, ◌++◌, if◌then◌else◌,
}
use warehouse_accounting_sys.Base.Int.{ℤ}
use warehouse_accounting_sys.Exec.{Outcome, ok, value}
use warehouse_accounting_sys.Exec.Try.{◌>>=◌}
use warehouse_accounting_sys.Result.{Result}
use warehouse_accounting_sys.Query.Schema.{
  Column, eq_column, product, warehouse_item, product_id, pretty_name, description, created_date,
  created_by, main_color, warehouse_id, count,
}
use warehouse_accounting_sys.Query.Condition.{
  Condition, Conditions, group, real, in_list, negation, is_null, nil, cons,
}
use warehouse_accounting_sys.Query.Options.{SelectOptions, JoinType, Join}
use warehouse_accounting_sys.Database.{Row}
use warehouse_accounting_sys.Json.{Document, number, words, put, put_optional, plain}
use warehouse_accounting_sys.Stock.{Product}
use warehouse_accounting_sys.Tasks.{Server, Interfaces, DateProvider, Running}
use warehouse_accounting_sys.Tasks.Reading.{int_at, text_at}
use warehouse_accounting_sys.Tasks.Listing.{
  ListRequest, list_options, id_options, run_list, run_get,
}

-- `ConditionHasWarehouseId`
unfoldable mutual
  pub condition_has_warehouse_id : Condition → Bool
  condition_has_warehouse_id (group type cs) = any_has_warehouse_id cs
  condition_has_warehouse_id (in_list column values) = eq_column column warehouse_id
  condition_has_warehouse_id (real type column v) = eq_column column warehouse_id
  condition_has_warehouse_id (negation c) = condition_has_warehouse_id c
  condition_has_warehouse_id (is_null column) = eq_column column warehouse_id

  pub any_has_warehouse_id : Conditions → Bool
  any_has_warehouse_id nil = false
  any_has_warehouse_id (cons c cs) = condition_has_warehouse_id c || any_has_warehouse_id cs

-- `m_extendWarehouse`
abbrev pub extend_warehouse : Option Condition → Bool
extend_warehouse none = false
extend_warehouse (some c) = condition_has_warehouse_id c

abbrev pub product_list_columns : List Column
product_list_columns =
    product_id ∷ Column.name ∷ pretty_name ∷ description ∷ created_date ∷ created_by ∷ main_color
    ∷ []

abbrev pub item_join : Join
item_join = record {
  type = JoinType.left;
  left_table = none;
  left_column = product_id;
  joining_table = warehouse_item;
  joining_column = product_id;
}

-- The options of the list; a filter on the warehouse joins the table of its items.
unfoldable pub product_list_options : ListRequest → SelectOptions
product_list_options request =
    let o = list_options product product_list_columns product_id request in
    if extend_warehouse request.filter
    then record o {
      joins = item_join ∷ [];
      columns = product_list_columns ++ warehouse_id ∷ count ∷ [];
    }
    else o

abbrev pub read_warehouse : Bool → Row → Product → Outcome Product
read_warehouse false row p = ok p
read_warehouse true row p = do
  warehouse ← int_at 7 row
  held ← int_at 8 row
  ok (record p { warehouse_id = warehouse; count = held })

unfoldable pub read_product : Bool → Row → Outcome Product
read_product extended row = do
  id ← int_at 0 row
  name ← text_at 1 row
  pretty ← text_at 2 row
  text ← text_at 3 row
  date ← int_at 4 row
  by ← int_at 5 row
  color ← int_at 6 row
  read_warehouse extended row (record {
    name = name;
    pretty_name = pretty;
    description = text;
    main_color = color;
    main_color_name = none;
    count = none;
    id = id;
    created_date = date;
    created_by = by;
    warehouse_id = none;
  })

-- A row of `GetProduct`, whose id is the one that was asked for.
unfoldable pub read_product_by_id : ℤ → Row → Outcome Product
read_product_by_id id row = do
  name ← text_at 0 row
  pretty ← text_at 1 row
  text ← text_at 2 row
  date ← int_at 3 row
  by ← int_at 4 row
  color ← int_at 5 row
  ok (record {
    name = name;
    pretty_name = pretty;
    description = text;
    main_color = color;
    main_color_name = none;
    count = none;
    id = some id;
    created_date = date;
    created_by = by;
    warehouse_id = none;
  })

module _ (dates : DateProvider) where
  unfoldable pub write_listed_product : Product → Outcome Document
  write_listed_product p = do
    id ← value p.id
    name ← value p.name
    pretty ← value p.pretty_name
    date ← value p.created_date
    by ← value p.created_by
    ok (
        plain (
          put number "product_id" id
          ++ put words "name" name
          ++ put words "pretty_name" pretty
          ++ put_optional words "description" p.description
          ++ put words "created_date" (dates.to_iso_time_string date)
          ++ put number "created_by" by
          ++ put_optional number "main_color" p.main_color
          ++ put_optional number "warehouse_id" p.warehouse_id
          ++ put_optional number "count" p.count))

  unfoldable pub write_product : Product → Outcome Document
  write_product p = do
    id ← value p.id
    name ← value p.name
    pretty ← value p.pretty_name
    date ← value p.created_date
    by ← value p.created_by
    ok (
        plain (
          put number "product_id" id
          ++ put words "name" name
          ++ put words "pretty_name" pretty
          ++ put_optional words "description" p.description
          ++ put words "created_date" (dates.to_iso_time_string date)
          ++ put number "created_by" by
          ++ put_optional number "main_color" p.main_color))

abbrev pub product_columns : List Column
product_columns =
    Column.name ∷ pretty_name ∷ description ∷ created_date ∷ created_by ∷ main_color ∷ []

module _ (server : Server) (interfaces : Interfaces) (dates : DateProvider) (fuel : ℕ) where
  -- `GetProductList::ExecuteInternal`
  unfoldable pub get_product_list : ListRequest → Running server (Result × List Document)
  get_product_list request =
      run_list server interfaces fuel (product_list_options request)
        (read_product (extend_warehouse request.filter)) (write_listed_product dates)

  -- `GetProduct::ExecuteInternal`
  unfoldable pub get_product : ℤ → Running server (Result × Option Document)
  get_product id =
      run_get server interfaces fuel (id_options product product_columns product_id id)
        (read_product_by_id id) (write_product dates)
