-- ===== src/Query/Options.antt =====
-- back/services/db_connector/include/db_connector/query: the options of the four statements
-- (select_query_params.h, insert_query_params.h, update_query_params.h, delete_query_params.h), their
-- SQL text and their comparison. Raw queries (raw_query.cpp) are not among them.
pub mod Equality
pub mod Numbering
use warehouse_accounting_sys.Base.{
  ℕ, zero, suc, not, Bool, true, false, Option, none, some, List, [], ◌∷◌, ◌++◌, map, length, any,
  if◌then◌else◌, String,
}
use warehouse_accounting_sys.Base.Int.{ℤ}
use warehouse_accounting_sys.Exec.{Exec, runtime_error, pure, raise, lift, check_true, ◌>>=◌, ◌>>◌}
use warehouse_accounting_sys.Query.Schema.{
  Column, Table, eq_column, eq_table, column_to_string, table_to_string,
}
use warehouse_accounting_sys.Query.Values.{ValueCollector}
use warehouse_accounting_sys.Query.Text.{
  Text, Printer, words, number, next_placeholder, placeholder_vector, joined,
}
use warehouse_accounting_sys.Query.Condition
use warehouse_accounting_sys.Query.Condition.{Condition}

-- query_identificator.h
pub data QueryIdentificator : Type 0 where
  raw select insert delete update : QueryIdentificator

pub data OrderType : Type 0 where
  asc desc : OrderType

-- join.h
pub data JoinType : Type 0 where
  left right inner : JoinType

pub record Join : Type 0 where
  pub type : JoinType
  pub left_table : Option Table
  pub left_column : Column
  pub joining_table : Table
  pub joining_column : Column

pub record SelectOptions : Type 0 where
  pub table : Table
  pub columns : List Column
  pub joins : List Join
  pub condition : Option Condition
  pub order_by : Option Column
  pub order_type : OrderType
  pub limit : Option ℤ
  pub offset : Option ℤ

pub record InsertOptions : Type 0 where
  pub table : Table
  pub columns : List Column
  pub returning : List Column
  pub values_count : ℕ

pub record UpdateOptions : Type 0 where
  pub table : Table
  pub columns : List Column
  pub condition : Option Condition

pub record DeleteOptions : Type 0 where
  pub table : Table
  pub condition : Option Condition

-- The classes that implement `IQueryOptions`.
pub data QueryOptions : Type 0 where
  select_options : SelectOptions → QueryOptions
  insert_options : InsertOptions → QueryOptions
  update_options : UpdateOptions → QueryOptions
  delete_options : DeleteOptions → QueryOptions

unfoldable pub identificator : QueryOptions → QueryIdentificator
identificator (select_options o) = select
identificator (insert_options o) = insert
identificator (update_options o) = update
identificator (delete_options o) = delete

abbrev pub column_text : Column → Text
column_text c = words (column_to_string c) ∷ []

abbrev pub column_texts : List Column → Text
column_texts cs = joined (map column_text cs)

-- public."Table"
abbrev pub public_table : Table → Text
public_table t = words "public.\"" ∷ words (table_to_string t) ∷ words "\"" ∷ []

abbrev pub is_set {ℓ} : {A : Type ℓ} → Option A → Bool
is_set none = false
is_set (some a) = true

abbrev pub check_table : Table → Exec ℕ (Unit {0})
check_table t = lift (check_true (not (eq_table t Table.invalid)))

join_type_to_string : JoinType → String
join_type_to_string left = "LEFT"
join_type_to_string right = "RIGHT"
join_type_to_string inner = "INNER"

order_type_to_string : OrderType → String
order_type_to_string asc = "ASC"
order_type_to_string desc = "DESC"

abbrev table_or : Option Table → Table → Table
table_or none t = t
table_or (some u) t = u

-- A selected column is written with its table where a join matches on it.
pub selected_column : Table → List Join → Column → Text
selected_column table joins c =
    if any (λ j. eq_column j.left_column c) joins
    then public_table table ++ words "." ∷ column_text c
    else column_text c

pub select_head : Table → List Join → List Column → Text
unfolding selected_column
select_head table joins [] = words "SELECT * FROM " ∷ public_table table
select_head table joins (c ∷ cs) =
    words "SELECT " ∷ joined (map (selected_column table joins) (c ∷ cs))
    ++ words " FROM " ∷ public_table table

join_text : Table → Join → Text
unfolding join_type_to_string
join_text table j =
    words " " ∷ words (join_type_to_string j.type) ∷ words " JOIN " ∷ public_table j.joining_table
    ++ words " ON " ∷ public_table (table_or j.left_table table)
    ++ words "." ∷ words (column_to_string j.left_column) ∷ words "=" ∷ public_table j.joining_table
    ++ words "." ∷ column_text j.joining_column

pub join_texts : Table → List Join → Text
unfolding join_text
join_texts table [] = []
join_texts table (j ∷ js) = join_text table j ++ join_texts table js

-- `if (condition != nullptr)` " WHERE {}"
pub where_text : Option Condition → Printer
where_text none = pure []
where_text (some c) = do t ← Condition.to_string c; pure (words " WHERE " ∷ t)

pub order_text : Option Column → OrderType → Text
unfolding order_type_to_string
order_text none type = []
order_text (some c) type =
    words " ORDER BY "
    ∷ words (column_to_string c)
    ∷ words " "
    ∷ words (order_type_to_string type)
    ∷ []

abbrev pub number_text : String → Option ℤ → Text
number_text keyword none = []
number_text keyword (some n) = words keyword ∷ number n ∷ []

-- `SelectOptions::SerializeParametrized(placeholders)`
pub serialize_select : SelectOptions → Printer
unfolding select_head join_texts where_text order_text
serialize_select o = do
  check_table o.table
  condition ← where_text o.condition
  pure (
      select_head o.table o.joins o.columns
      ++ join_texts o.table o.joins
      ++ condition
      ++ order_text o.order_by o.order_type
      ++ number_text " LIMIT " o.limit
      ++ number_text " OFFSET " o.offset
      ++ words ";" ∷ [])

-- One "(…)" for each inserted row, each with a placeholder for each column.
pub row_texts : ℕ → ℕ → Exec ℕ (List Text)
row_texts columns zero = pure []
row_texts columns (suc rows) = do
  ps ← placeholder_vector columns
  rest ← row_texts columns rows
  pure ((words "(" ∷ joined ps ++ words ")" ∷ []) ∷ rest)

pub columns_text : List Column → Text
columns_text [] = []
columns_text (c ∷ cs) = words "(" ∷ column_texts (c ∷ cs) ++ words ") " ∷ []

pub returning_text : List Column → Text
returning_text [] = []
returning_text (c ∷ cs) = words " RETURNING " ∷ column_texts (c ∷ cs)

-- `InsertOptions::SerializeParametrized(placeholders)`
pub serialize_insert : InsertOptions → Printer
unfolding row_texts columns_text returning_text
serialize_insert o = do
  check_table o.table
  rows ← row_texts (length o.columns) o.values_count
  pure (
      words "INSERT INTO " ∷ public_table o.table
      ++ words " " ∷ columns_text o.columns
      ++ words "VALUES " ∷ joined rows
      ++ returning_text o.returning
      ++ words ";" ∷ [])

-- "column = $n" for each column.
pub modification_texts : List Column → Exec ℕ (List Text)
modification_texts [] = pure []
modification_texts (c ∷ cs) = do
  p ← next_placeholder
  rest ← modification_texts cs
  pure ((words (column_to_string c) ∷ words " = " ∷ p) ∷ rest)

abbrev pub required_condition : Option Condition → Printer
required_condition none = raise runtime_error
required_condition (some c) = Condition.to_string c

-- The values that a condition collects, if there is one: `ExtractParamsFromCondition()`.
abbrev pub condition_params : Option Condition → ValueCollector
condition_params none = []
condition_params (some c) = Condition.collect_params c

abbrev pub not_empty : List Column → Bool
not_empty [] = false
not_empty (c ∷ cs) = true

-- `UpdateOptions::SerializeParametrized(placeholders)`: the checks come before any text.
pub serialize_update : UpdateOptions → Printer
unfolding modification_texts
serialize_update o = do
  check_table o.table
  lift (check_true (not_empty o.columns))
  lift (check_true (is_set o.condition))
  modifications ← modification_texts o.columns
  condition ← required_condition o.condition
  pure (
      words "UPDATE " ∷ public_table o.table
      ++ words " SET " ∷ joined modifications
      ++ words " WHERE " ∷ condition
      ++ words ";" ∷ [])

-- `DeleteOptions::SerializeParametrized(placeholders)`
unfoldable pub serialize_delete : DeleteOptions → Printer
serialize_delete o = do
  check_table o.table
  lift (check_true (is_set o.condition))
  condition ← required_condition o.condition
  pure
      (words "DELETE FROM " ∷ public_table o.table ++ words " WHERE " ∷ condition ++ words ";" ∷ [])

unfoldable pub serialize_parametrized : QueryOptions → Printer
serialize_parametrized (select_options o) = serialize_select o
serialize_parametrized (insert_options o) = serialize_insert o
serialize_parametrized (update_options o) = serialize_update o
serialize_parametrized (delete_options o) = serialize_delete o
