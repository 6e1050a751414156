-- ===== src/Tasks/Typed.antt =====
-- The positions at which back/components/task_manager/source/tasks/protocol reads a row, against the
-- columns that it selects and their types in initialize_tables.h.
pub mod Rows
use warehouse_accounting_sys.Base.{
  Bool, true, false, ◌≡◌, refl, Option, none, some, List, [], ◌∷◌, ◌++◌, String,
}
use warehouse_accounting_sys.Base.Int.{ℤ}
use warehouse_accounting_sys.Exec.{Outcome, ok, value, try_bind}
use warehouse_accounting_sys.Query.Schema.{
  Column, Table, user, product, report, operation, invoice, warehouse, user_id, login, name,
  created_date, created_by, product_id, pretty_name, description, main_color, report_id,
  report_type, filepath, warehouse_id, operation_id, invoice_id, invoice_pretty_name, count,
  warehouse_to_id, warehouse_from_id, location,
}
use warehouse_accounting_sys.Query.Values.{int, text, Param, null, bound}
use warehouse_accounting_sys.Database.Tables.{
  Tuple, Conforms, Holds, ColumnType, bigint, integer, characters, project, initialize_tables,
}
use warehouse_accounting_sys.Stock.{Product}
use warehouse_accounting_sys.Tasks.Reading.{get_int, get_text}
use warehouse_accounting_sys.Tasks.Users.{
  User, read_user, user_list_columns, read_user_by_id, user_columns,
}
use warehouse_accounting_sys.Tasks.Products.{
  read_product, product_list_columns, read_product_by_id, product_columns,
}
use warehouse_accounting_sys.Tasks.Reports.{
  Report, read_report, report_list_columns, read_report_by_id, report_columns,
}
use warehouse_accounting_sys.Tasks.Operations.{Operation, read_operation, operation_list_columns}
use warehouse_accounting_sys.Tasks.Invoices.{
  Invoice, read_listed_invoice, read_invoice, invoice_columns,
}
use warehouse_accounting_sys.Tasks.Warehouses.{
  Warehouse, read_listed_warehouse, read_warehouse_by_id, warehouse_list_columns, warehouse_columns,
}

-- What a column holds, by its name.
abbrev pub int_of : Param → Option ℤ
int_of null = none
int_of (bound (int n)) = some n
int_of (bound (text s)) = none

abbrev pub text_of : Param → Option String
text_of null = none
text_of (bound (int n)) = none
text_of (bound (text s)) = some s

pub bigint_read : (b : Bool) (p : Param) → Holds bigint b p → get_int p ≡ ok (int_of p)
bigint_read b null h = refl
bigint_read b (bound (int n)) h = refl
bigint_read b (bound (text s)) h = absurd h

pub integer_read : (b : Bool) (p : Param) → Holds integer b p → get_int p ≡ ok (int_of p)
integer_read b null h = refl
integer_read b (bound (int n)) h = refl
integer_read b (bound (text s)) h = absurd h

pub text_read : (b : Bool) (p : Param) → Holds characters b p → get_text p ≡ ok (text_of p)
text_read b null h = refl
text_read b (bound (text s)) h = refl
text_read b (bound (int n)) h = absurd h

-- A column that is NOT NULL has a value.
pub bigint_there : (p : Param) → Holds bigint true p → (n : ℤ) × (p ≡ bound (int n))
bigint_there null h = absurd h
bigint_there (bound (int n)) h = (n, refl)
bigint_there (bound (text s)) h = absurd h

pub integer_there : (p : Param) → Holds integer true p → (n : ℤ) × (p ≡ bound (int n))
integer_there null h = absurd h
integer_there (bound (int n)) h = (n, refl)
integer_there (bound (text s)) h = absurd h

pub text_there : (p : Param) → Holds characters true p → (s : String) × (p ≡ bound (text s))
text_there null h = absurd h
text_there (bound (text s)) h = (s, refl)
text_there (bound (int n)) h = absurd h

-- The objects that the rows stand for, by the columns' names.
abbrev pub user_of : Tuple → User
user_of t = record {
  user_id = int_of (t user_id);
  login = text_of (t login);
  password = none;
  name = text_of (t name);
  created_by = int_of (t created_by);
  created_date = int_of (t created_date);
}

abbrev pub product_of : Tuple → Product
product_of t = record {
  name = text_of (t name);
  pretty_name = text_of (t pretty_name);
  description = text_of (t description);
  main_color = int_of (t main_color);
  main_color_name = none;
  count = none;
  id = int_of (t product_id);
  created_date = int_of (t created_date);
  created_by = int_of (t created_by);
  warehouse_id = none;
}

abbrev pub operation_of : Tuple → Operation
operation_of t = record {
  operation_id = int_of (t operation_id);
  invoice_id = int_of (t invoice_id);
  invoice_pretty_name = text_of (t invoice_pretty_name);
  product_id = int_of (t product_id);
  warehouse_id = int_of (t warehouse_id);
  count = int_of (t count);
  created_date = int_of (t created_date);
  created_by = int_of (t created_by);
}

abbrev pub report_of : Tuple → Report
report_of t = record {
  report_id = int_of (t report_id);
  name = text_of (t name);
  description = text_of (t description);
  period_from = none;
  period_to = none;
  warehouse_id = int_of (t warehouse_id);
  created_by = int_of (t created_by);
  created_date = int_of (t created_date);
  filepath = text_of (t filepath);
  report_type = int_of (t report_type);
}

abbrev pub invoice_of : Tuple → Invoice
invoice_of t = record {
  invoice_id = int_of (t invoice_id);
  warehouse_to_id = int_of (t warehouse_to_id);
  warehouse_from_id = int_of (t warehouse_from_id);
  name = text_of (t name);
  pretty_name = text_of (t pretty_name);
  description = text_of (t description);
  created_date = int_of (t created_date);
  created_by = int_of (t created_by);
}

abbrev pub warehouse_of : Tuple → Warehouse
warehouse_of t = record {
  name = text_of (t name);
  pretty_name = text_of (t pretty_name);
  description = text_of (t description);
  location = text_of (t location);
  warehouse_id = int_of (t warehouse_id);
  created_date = int_of (t created_date);
  created_by = int_of (t created_by);
}

-- The places where a task reads a row.
pub data RowReader : Type 0 where
  listed_user listed_product listed_report listed_operation listed_invoice : RowReader
  listed_warehouse one_user one_product one_report one_invoice one_warehouse : RowReader

abbrev pub table_of : RowReader → Table
table_of listed_user = user
table_of listed_product = product
table_of listed_report = report
table_of listed_operation = operation
table_of listed_invoice = invoice
table_of listed_warehouse = warehouse
table_of one_user = user
table_of one_product = product
table_of one_report = report
table_of one_invoice = invoice
table_of one_warehouse = warehouse

-- The row that the statement selects is read as the object with the columns' names, whose id a get
-- task takes from the request. A warehouse that is read by its id gets its description as location.
abbrev pub ReadsByName : RowReader → Tuple → Type 0
ReadsByName listed_user t = read_user (project user_list_columns t) ≡ ok (user_of t)
ReadsByName listed_product t =
    read_product false (project product_list_columns t) ≡ ok (product_of t)
ReadsByName listed_report t = read_report (project report_list_columns t) ≡ ok (report_of t)
ReadsByName listed_operation t =
    read_operation (project operation_list_columns t) ≡ ok (operation_of t)
ReadsByName listed_invoice t = read_listed_invoice (project invoice_columns t) ≡ ok (invoice_of t)
ReadsByName listed_warehouse t =
    read_listed_warehouse (project warehouse_list_columns t) ≡ ok (warehouse_of t)
ReadsByName one_user t =
    (id : ℤ)
    → read_user_by_id id (project user_columns t) ≡ ok (record (user_of t) { user_id = some id })
ReadsByName one_product t =
    (id : ℤ)
    → read_product_by_id id (project product_columns t)
      ≡ ok (record (product_of t) { id = some id })
ReadsByName one_report t =
    (id : ℤ)
    → read_report_by_id id (project report_columns t)
      ≡ ok (record (report_of t) { report_id = some id })
ReadsByName one_invoice t = read_invoice (project invoice_columns t) ≡ ok (invoice_of t)
ReadsByName one_warehouse t =
    (id : ℤ)
    → read_warehouse_by_id id (project warehouse_columns t)
      ≡ ok (record (warehouse_of t) { warehouse_id = some id; location = text_of (t description) })
