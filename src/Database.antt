-- ===== src/Database.antt =====
-- The database server behind libpqxx, which is not part of the repository: a parameter of the model.
-- A statement is executed within the current transaction, on the transaction's view of the tables.
pub mod Tables
pub mod Select
use warehouse_accounting_sys.Base.{List, [], ◌∷◌}
use warehouse_accounting_sys.Base.Int.{ℤ}
use warehouse_accounting_sys.Exec.{Outcome, ok, throws, other_exception, Exec, lift, ◌>>=◌}
use warehouse_accounting_sys.Query.Values.{int, text, Param, null, bound, to_pqxx}
use warehouse_accounting_sys.Query.Options.{QueryOptions}
use warehouse_accounting_sys.Query.Build.{Request, create}

-- `pqxx::result`: rows of fields.
abbrev pub Row : Type 0
Row = List Param

abbrev pub Rows : Type 0
Rows = List Row

-- `exec_params` and `exec_prepared` on the statement that the options stand for.
pub record Database : Type 1 where
  pub State : Type 0
  pub exec : QueryOptions → List Param → State → Outcome Rows × State

-- `row.at(0)`, and `result.at(0)` on rows: out of range they throw.
abbrev pub front {ℓ} : {A : Type ℓ} → List A → Outcome A
front [] = throws other_exception
front (x ∷ xs) = ok x

-- `as<int64_t>()`: null and other texts do not convert.
abbrev pub as_int : Param → Outcome ℤ
as_int (bound (int n)) = ok n
as_int (bound (text s)) = throws other_exception
as_int null = throws other_exception

module _ (d : Database) where
  -- `QueryFactory::Create`, `CreateQueryTransactionEntry` and the entry's `Execute`, which leaves its
  -- query without parameters: this is the first one.
  unfoldable pub run_query : Request → Exec d.State Rows
  run_query request = do
    query ← lift (create request)
    d.exec query.options (to_pqxx query.params).0
