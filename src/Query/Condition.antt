-- ===== src/Query/Condition.antt =====
-- back/services/db_connector/include/db_connector/query/condition.h: WHERE conditions.
pub mod Placeholders
pub mod SameText
use warehouse_accounting_sys.Base.{
  String, str_eq, not, if◌then◌else◌, Bool, true, false, ◌&&◌, ◌==◌, List, [], ◌∷◌, ◌++◌, length,
}
use warehouse_accounting_sys.Exec.{
  Outcome, ok, throws, runtime_error, pure, raise, lift, check_true, ◌>>=◌, ◌>>◌,
}
use warehouse_accounting_sys.Query.Schema.{Column, eq_column, column_to_string, is_yes}
use warehouse_accounting_sys.Query.Values.{Value, ValueCollector}
use warehouse_accounting_sys.Query.Text.{
  Printer, words, next_placeholder, placeholder_vector, joined,
}

pub data GroupConditionType : Type 0 where
  and or : GroupConditionType

pub data RealConditionType : Type 0 where
  equal less greater not_equal not_less not_greater : RealConditionType

unfoldable pub RealConditionType-discrete : Discrete RealConditionType
RealConditionType-discrete = hlevel

abbrev pub eq_real_type : RealConditionType → RealConditionType → Bool
eq_real_type a b = is_yes (RealConditionType-discrete a b)

pub group_type_to_string : GroupConditionType → String
group_type_to_string and = "AND"
group_type_to_string or = "OR"

pub real_type_to_string : RealConditionType → String
real_type_to_string equal = "="
real_type_to_string less = "<"
real_type_to_string greater = ">"
real_type_to_string not_equal = "!="
real_type_to_string not_less = ">="
real_type_to_string not_greater = "<="

-- `FromString<RealConditionType>`: there is no comparison with "!=".
unfoldable pub real_type_from_string : String → Outcome RealConditionType
real_type_from_string s =
    if str_eq s "="
    then ok equal
    else if str_eq s "<"
    then ok less
    else if str_eq s ">"
    then ok greater
    else if str_eq s ">="
    then ok not_less
    else if str_eq s "<="
    then ok not_greater
    else throws runtime_error

-- The classes that implement `ICondition`; the pointers inside them are never null.
mutual
  pub data Condition : Type 0 where
    group : GroupConditionType → Conditions → Condition
    real : RealConditionType → Column → Value → Condition
    in_list : Column → List Value → Condition
    negation : Condition → Condition
    is_null : Column → Condition

  pub data Conditions : Type 0 where
    nil : Conditions
    cons : Condition → Conditions → Conditions

unfoldable mutual
  -- `ToString(placeholders)`
  pub to_string : Condition → Printer
  to_string (group type nil) = raise runtime_error
  to_string (group type (cons c cs)) = do
    t ← to_string c
    rest ← group_rest type cs
    pure (words "(" ∷ t ++ rest)
  to_string (real type column value) = do
    p ← next_placeholder
    pure (
        words "("
          ∷ words (column_to_string column)
          ∷ words " "
          ∷ words (real_type_to_string type)
          ∷ words " "
          ∷ p
        ++ words ")" ∷ [])
  to_string (in_list column []) = raise runtime_error
  to_string (in_list column (v ∷ vs)) = do
    ps ← placeholder_vector (length (v ∷ vs))
    pure
        (words "(" ∷ words (column_to_string column) ∷ words " IN (" ∷ joined ps ++ words "))" ∷ [])
  to_string (negation c) = do t ← to_string c; pure (words "(NOT " ∷ t ++ words ")" ∷ [])
  to_string (is_null column) = do
    lift (check_true (not (eq_column column Column.invalid)))
    pure (words "(" ∷ words (column_to_string column) ∷ words " IS NULL)" ∷ [])

  -- What the group prints behind its first condition.
  pub group_rest : GroupConditionType → Conditions → Printer
  group_rest type nil = pure (words ")" ∷ [])
  group_rest type (cons c cs) = do
    t ← to_string c
    rest ← group_rest type cs
    pure (words " " ∷ words (group_type_to_string type) ∷ words " " ∷ t ++ rest)

unfoldable mutual
  -- `CollectParams(params)`: what it appends.
  pub collect_params : Condition → ValueCollector
  collect_params (group type cs) = collect_all cs
  collect_params (real type column value) = value ∷ []
  collect_params (in_list column values) = values
  collect_params (negation c) = collect_params c
  collect_params (is_null column) = []

  pub collect_all : Conditions → ValueCollector
  collect_all nil = []
  collect_all (cons c cs) = collect_params c ++ collect_all cs

unfoldable mutual
  -- `c.Equals(d)`. In `NotCondition::Equals` the parameter hides the member of that name, so that
  -- the argument is compared with its own inner condition.
  pub equals : Condition → Condition → Bool
  equals (group t cs) (group u ds) = equals_all cs ds
  equals (real t column v) (real u column' w) = eq_real_type t u && eq_column column column'
  equals (in_list column vs) (in_list column' ws) =
      eq_column column column' && (length vs == length ws)
  equals (negation c) (negation d) = equals (negation d) d
  equals (is_null column) (is_null column') = eq_column column column'
  equals _ _ = false

  -- Equal sizes, and equal conditions at each index.
  pub equals_all : Conditions → Conditions → Bool
  equals_all nil nil = true
  equals_all (cons c cs) (cons d ds) = equals c d && equals_all cs ds
  equals_all _ _ = false
