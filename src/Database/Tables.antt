-- ===== src/Database/Tables.antt =====
-- back/services/db_connector/source/db_manager/source/scripts/initialize_tables.h: the columns of each
-- table, with their types.
use warehouse_accounting_sys.Base.{Bool, true, false, List, [], ◌∷◌, map, All}
use warehouse_accounting_sys.Query.Schema.{
  Column, Table, color, invoice_item, invoice, operation, product, report, user, warehouse,
  warehouse_item, report_id, name, report_type, filepath, created_date, created_by, warehouse_id,
  pretty_name, description, location, user_id, login, password_hashed, count, main_color,
  color_value, invoice_id, warehouse_to_id, warehouse_from_id, company_name, operation_id,
  product_id, invoice_pretty_name,
}
use warehouse_accounting_sys.Query.Values.{int, text, Param, null, bound}
use warehouse_accounting_sys.Database.{Row}

pub data ColumnType : Type 0 where
  bigint integer characters : ColumnType

pub record ColumnDefinition : Type 0 where
  pub column : Column
  pub type : ColumnType
  pub not_null : Bool

abbrev required : Column → ColumnType → ColumnDefinition
required c t = record { column = c; type = t; not_null = true }

abbrev nullable : Column → ColumnType → ColumnDefinition
nullable c t = record { column = c; type = t; not_null = false }

-- `CREATE TABLE`
unfoldable pub initialize_tables : Table → List ColumnDefinition
initialize_tables Table.invalid = []
initialize_tables color = required color_value integer ∷ nullable name characters ∷ []
initialize_tables invoice =
    required invoice_id bigint
    ∷ required name characters
    ∷ required pretty_name characters
    ∷ nullable description characters
    ∷ required created_date bigint
    ∷ required created_by bigint
    ∷ nullable company_name characters
    ∷ nullable warehouse_to_id bigint
    ∷ nullable warehouse_from_id bigint
    ∷ []
initialize_tables invoice_item =
    required invoice_id bigint ∷ required product_id bigint ∷ required count integer ∷ []
initialize_tables operation =
    required operation_id bigint
    ∷ required invoice_id bigint
    ∷ required invoice_pretty_name characters
    ∷ required product_id bigint
    ∷ nullable warehouse_id bigint
    ∷ required count integer
    ∷ required created_date bigint
    ∷ required created_by bigint
    ∷ []
initialize_tables product =
    required product_id bigint
    ∷ required name characters
    ∷ required pretty_name characters
    ∷ nullable description characters
    ∷ required created_date bigint
    ∷ required created_by bigint
    ∷ nullable main_color integer
    ∷ []
initialize_tables report =
    required report_id bigint
    ∷ required name characters
    ∷ nullable description characters
    ∷ required report_type integer
    ∷ required filepath characters
    ∷ required created_date bigint
    ∷ required warehouse_id bigint
    ∷ nullable created_by bigint
    ∷ []
initialize_tables user =
    required user_id bigint
    ∷ required login characters
    ∷ required password_hashed characters
    ∷ nullable name characters
    ∷ required created_date bigint
    ∷ nullable created_by bigint
    ∷ []
initialize_tables warehouse =
    required warehouse_id bigint
    ∷ required name characters
    ∷ required pretty_name characters
    ∷ nullable description characters
    ∷ nullable location characters
    ∷ required created_date bigint
    ∷ required created_by bigint
    ∷ []
initialize_tables warehouse_item =
    required warehouse_id bigint ∷ required product_id bigint ∷ required count integer ∷ []

-- A stored row: what it has in each column.
abbrev pub Tuple : Type 0
Tuple = Column → Param

-- A value that a column of the type may hold.
abbrev pub Holds : ColumnType → Bool → Param → Type 0
Holds characters b (bound (text s)) = Unit
Holds characters b (bound (int n)) = ⊥
Holds bigint b (bound (int n)) = Unit
Holds bigint b (bound (text s)) = ⊥
Holds integer b (bound (int n)) = Unit
Holds integer b (bound (text s)) = ⊥
Holds t true null = ⊥
Holds t false null = Unit

-- A row that the table may hold.
abbrev pub Conforms : Table → Tuple → Type 0
Conforms table t = All (λ d. Holds d.type d.not_null (t d.column)) (initialize_tables table)

-- The columns that a statement selects.
abbrev pub project : List Column → Tuple → Row
project columns t = map t columns
