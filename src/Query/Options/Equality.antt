-- ===== src/Query/Options/Equality.antt =====
-- `Equals` on query options: what the query manager takes for one prepared statement.
pub mod SameStatement
use native.Mathlib.Decide.{ℕ_discrete}
use warehouse_accounting_sys.Base.{Bool, true, false, ◌&&◌, ◌==◌, Option, none, some, List}
use warehouse_accounting_sys.Base.Int.{ℤ}
use warehouse_accounting_sys.Query.Schema.{Column, eq_table, is_yes}
use warehouse_accounting_sys.Query.Condition
use warehouse_accounting_sys.Query.Condition.{Condition}
use warehouse_accounting_sys.Query.Options.{
  Join, SelectOptions, InsertOptions, UpdateOptions, DeleteOptions, QueryOptions, select_options,
  insert_options, update_options, delete_options,
}

unfoldable pub Columns-discrete : Discrete (List Column)
Columns-discrete = hlevel

unfoldable pub Joins-discrete : Discrete (List Join)
Joins-discrete = hlevel

unfoldable pub OptionColumn-discrete : Discrete (Option Column)
OptionColumn-discrete = hlevel

unfoldable pub OptionInt-discrete : Discrete (Option ℤ)
OptionInt-discrete = hlevel ℕ_discrete

-- Both null, or neither and equal.
abbrev pub equals_condition : Option Condition → Option Condition → Bool
equals_condition none none = true
equals_condition (some c) (some d) = Condition.equals c d
equals_condition none (some d) = false
equals_condition (some c) none = false

-- `SelectOptions::Equals`: the order type is not compared.
unfoldable pub equals_select : SelectOptions → SelectOptions → Bool
equals_select a b =
    eq_table a.table b.table
    && is_yes (Columns-discrete a.columns b.columns)
    && is_yes (Joins-discrete a.joins b.joins)
    && is_yes (OptionColumn-discrete a.order_by b.order_by)
    && is_yes (OptionInt-discrete a.limit b.limit)
    && is_yes (OptionInt-discrete a.offset b.offset)
    && equals_condition a.condition b.condition

pub equals_insert : InsertOptions → InsertOptions → Bool
equals_insert a b =
    eq_table a.table b.table
    && is_yes (Columns-discrete a.columns b.columns)
    && (a.values_count == b.values_count)
    && is_yes (Columns-discrete a.returning b.returning)

pub equals_update : UpdateOptions → UpdateOptions → Bool
equals_update a b =
    eq_table a.table b.table
    && is_yes (Columns-discrete a.columns b.columns)
    && equals_condition a.condition b.condition

unfoldable pub equals_delete : DeleteOptions → DeleteOptions → Bool
equals_delete a b = eq_table a.table b.table && equals_condition a.condition b.condition

-- Options of different statements are never equal: the identificators differ.
unfoldable pub equals_options : QueryOptions → QueryOptions → Bool
unfolding equals_select equals_insert equals_update equals_delete
equals_options (select_options a) (select_options b) = equals_select a b
equals_options (insert_options a) (insert_options b) = equals_insert a b
equals_options (update_options a) (update_options b) = equals_update a b
equals_options (delete_options a) (delete_options b) = equals_delete a b
equals_options _ _ = false
