-- ===== src/Query/Values.antt =====
-- back/services/db_connector/include/db_connector/value_collector.h: the values that a query
-- carries beside its text. A value keeps the type that it was appended at; the collector's decimal
-- text of a number is never "NULL", so `to_pqxx` has to look at texts only.
use warehouse_accounting_sys.Base.{
  suc, length, ◌≡◌, refl, ap, String, str_eq, if◌then◌else◌, List, [], ◌∷◌, ◌++◌,
}
use warehouse_accounting_sys.Base.Int.{ℤ}

pub data Value : Type 0 where
  int : ℤ → Value
  text : String → Value

-- What `pqxx::params` is given: a value, or SQL's null.
pub data Param : Type 0 where
  null : Param
  bound : Value → Param

abbrev pub ValueCollector : Type 0
ValueCollector = List Value

-- `Append(value)`
abbrev pub append : ValueCollector → Value → ValueCollector
append values v = values ++ v ∷ []

-- `ExtractTo(to)`, seen from the collector that receives.
abbrev pub extract_to : ValueCollector → ValueCollector → ValueCollector
extract_to values to = to ++ values

unfoldable pub to_param : Value → Param
to_param (int n) = bound (int n)
to_param (text s) = if str_eq s "NULL" then null else bound (text s)

-- `ToPqxx()` takes the values off the front one by one, and leaves what is left in the collector.
unfoldable pub to_pqxx : ValueCollector → List Param × ValueCollector
unfolding to_param
to_pqxx [] = ([], [])
to_pqxx (v ∷ vs) = let (params, left) = to_pqxx vs in (to_param v ∷ params, left)

-- So the collector is empty, and a second call gives no parameters.
pub to_pqxx-empty : (values : ValueCollector) → (to_pqxx values).1 ≡ []
unfolding to_pqxx
to_pqxx-empty [] = refl
to_pqxx-empty (v ∷ vs) = to_pqxx-empty vs

pub length-to_pqxx : (values : ValueCollector) → length (to_pqxx values).0 ≡ length values
unfolding to_pqxx
length-to_pqxx [] = refl
length-to_pqxx (v ∷ vs) = ap suc (length-to_pqxx vs)
