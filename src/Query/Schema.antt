-- ===== src/Query/Schema.antt =====
-- back/services/db_connector/include/db_connector/product_definitions: the columns and tables that
-- a query may name, with the text that each stands for in SQL.
use warehouse_accounting_sys.Base.{String, Bool, true, false, ◌≡◌, refl}

-- columns.h; the constructor `invalid` is `Column::Invalid`.
pub data Column : Type 0 where
  invalid report_id name report_type filepath created_date created_by warehouse_id : Column
  pretty_name description location user_id login password_hashed count main_color : Column
  color_value invoice_id warehouse_to_id warehouse_from_id company_name operation_id : Column
  product_id invoice_pretty_name : Column

-- tables.h
pub data Table : Type 0 where
  invalid color invoice_item invoice operation product report user warehouse : Table
  warehouse_item : Table

unfoldable pub Column-discrete : Discrete Column
Column-discrete = hlevel

unfoldable pub Table-discrete : Discrete Table
Table-discrete = hlevel

abbrev pub is_yes {ℓ} : {P : Type ℓ} → Dec P → Bool
is_yes (yes p) = true
is_yes (no n) = false

pub yes_of {ℓ} : {P : Type ℓ} (d : Dec P) → is_yes d ≡ true → P
yes_of (yes p) h = p
yes_of (no n) h = cc

pub is_yes-false {ℓ} : {P : Type ℓ} (d : Dec P) → (P → ⊥) → is_yes d ≡ false
is_yes-false (yes p) h = absurd (h p)
is_yes-false (no n) h = refl

pub yes_refl {ℓ} : {A : Type ℓ} {a : A} (d : Dec (a ≡ a)) → is_yes d ≡ true
yes_refl (yes p) = refl
yes_refl (no n) = absurd (n refl)

-- `==` on the enumerations.
abbrev pub eq_column : Column → Column → Bool
eq_column a b = is_yes (Column-discrete a b)

abbrev pub eq_table : Table → Table → Bool
eq_table a b = is_yes (Table-discrete a b)

-- The string converter that DEFINE_ENUM_WITH_SERIALIZATION makes: each enumerator's own spelling.
unfoldable pub column_to_string : Column → String
column_to_string Column.invalid = "Invalid"
column_to_string report_id = "report_id"
column_to_string name = "name"
column_to_string report_type = "report_type"
column_to_string filepath = "filepath"
column_to_string created_date = "created_date"
column_to_string created_by = "created_by"
column_to_string warehouse_id = "warehouse_id"
column_to_string pretty_name = "pretty_name"
column_to_string description = "description"
column_to_string location = "location"
column_to_string user_id = "user_id"
column_to_string login = "login"
column_to_string password_hashed = "password_hashed"
column_to_string count = "count"
column_to_string main_color = "main_color"
column_to_string color_value = "color_value"
column_to_string invoice_id = "invoice_id"
column_to_string warehouse_to_id = "warehouse_to_id"
column_to_string warehouse_from_id = "warehouse_from_id"
column_to_string company_name = "company_name"
column_to_string operation_id = "operation_id"
column_to_string product_id = "product_id"
column_to_string invoice_pretty_name = "invoice_pretty_name"

pub table_to_string : Table → String
table_to_string Table.invalid = "Invalid"
table_to_string color = "Color"
table_to_string invoice_item = "Invoice_Item"
table_to_string invoice = "Invoice"
table_to_string operation = "Operation"
table_to_string product = "Product"
table_to_string report = "Report"
table_to_string user = "User"
table_to_string warehouse = "Warehouse"
table_to_string warehouse_item = "Warehouse_Item"
