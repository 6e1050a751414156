-- ===== src/Tasks/Filter.antt =====
-- back/components/task_manager/source/tasks/include/tasks/common/filter.h: the filters of a request as
-- a condition.
pub mod Shape
use warehouse_accounting_sys.Base.{
  Bool, true, false, ◌&&◌, if◌then◌else◌, Option, none, some, List, [], ◌∷◌, String, str_eq,
}
use warehouse_accounting_sys.Base.Int.{ℤ}
use warehouse_accounting_sys.Exec.{Outcome, ok, throws, runtime_error}
use warehouse_accounting_sys.Exec.Try.{◌>>=◌}
use warehouse_accounting_sys.Query.Schema.{
  Column, column_to_string, report_id, name, report_type, filepath, created_date, created_by,
  warehouse_id, pretty_name, description, location, user_id, login, password_hashed, count,
  main_color, color_value, invoice_id, warehouse_to_id, warehouse_from_id, company_name,
  operation_id, product_id, invoice_pretty_name,
}
use warehouse_accounting_sys.Query.Values.{int}
use warehouse_accounting_sys.Query.Condition.{
  Condition, Conditions, group, and, real, is_null, nil, cons, RealConditionType, equal,
  eq_real_type, real_type_from_string,
}
use warehouse_accounting_sys.Json.{Json, get_key}
use warehouse_accounting_sys.Tasks.{DateProvider}

-- The enumerators in the order of their declaration, which is that of the comparisons.
abbrev pub all_columns : List Column
all_columns =
    Column.invalid ∷ report_id ∷ name ∷ report_type ∷ filepath ∷ created_date ∷ created_by
    ∷ warehouse_id ∷ pretty_name ∷ description ∷ location ∷ user_id ∷ login ∷ password_hashed
    ∷ count ∷ main_color ∷ color_value ∷ invoice_id ∷ warehouse_to_id ∷ warehouse_from_id
    ∷ company_name ∷ operation_id ∷ product_id ∷ invoice_pretty_name ∷ []

unfoldable pub first_named : String → List Column → Outcome Column
first_named s [] = throws runtime_error
first_named s (c ∷ cs) = if str_eq s (column_to_string c) then ok c else first_named s cs

-- `FromString<Column>`
abbrev pub column_from_string : String → Outcome Column
column_from_string s = first_named s all_columns

module _ (j : Json) (dates : DateProvider) where
  abbrev timestamp_condition : RealConditionType → Column → Option ℤ → Option Condition
  timestamp_condition type column none = none
  timestamp_condition type column (some t) = some (real type column (int t))

  -- The branches for a value that is a string; one that is neither "NULL" nor a date is left out.
  abbrev pub string_condition : RealConditionType → Column → String → Option Condition
  string_condition type column s =
      if eq_real_type type equal && str_eq s "NULL"
      then some (is_null column)
      else timestamp_condition type column (dates.from_iso_time_string s)

  abbrev pub value_condition : RealConditionType → Column → j.Value → Outcome (Option Condition)
  value_condition type column v =
      if j.is_string v
      then (do s ← j.as_string v; ok (string_condition type column s))
      else do n ← j.as_int64 v; ok (some (real type column (int n)))

  -- One round of the loop.
  unfoldable pub parse_filter : j.Value → Outcome (Option Condition)
  parse_filter filter = do
    key ← get_key j j.as_string filter "key"
    column ← column_from_string key
    type_text ← get_key j j.as_string filter "type"
    type ← real_type_from_string type_text
    v ← j.at filter "value"
    value_condition type column v

  abbrev add_filter : Option Condition → Conditions → Conditions
  add_filter none cs = cs
  add_filter (some c) cs = cons c cs

  unfoldable pub parse_all : List j.Value → Outcome Conditions
  unfolding parse_filter
  parse_all [] = ok nil
  parse_all (v ∷ vs) = do c ← parse_filter v; cs ← parse_all vs; ok (add_filter c cs)

  abbrev caught : Outcome Conditions → Option Condition
  caught (ok cs) = some (group and cs)
  caught (throws e) = none

  -- `ParseFilters`: none is the null pointer.
  unfoldable pub parse_filters : j.Value → Option Condition
  unfolding parse_all
  parse_filters filters = caught (parse_all (j.elements filters))
