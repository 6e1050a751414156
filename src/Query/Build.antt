-- ===== src/Query/Build.antt =====
-- back/services/db_connector/source/query/source/query: `QueryFactory::Create` for the four
-- statements, and the queries that it returns.
pub mod Binding
use warehouse_accounting_sys.Base.{ℕ, ◌==◌, not, is_empty, List, [], ◌∷◌, ◌++◌, length}
use warehouse_accounting_sys.Exec.{Outcome, ok, try_bind, check_true}
use warehouse_accounting_sys.Query.Values.{ValueCollector, extract_to}
use warehouse_accounting_sys.Query.Options.{
  SelectOptions, InsertOptions, UpdateOptions, DeleteOptions, QueryOptions, select_options,
  insert_options, update_options, delete_options, is_set, condition_params,
}

-- `IQuery`: its options and the values that it holds.
pub record Query : Type 0 where
  pub options : QueryOptions
  pub params : ValueCollector

-- The arguments of `QueryFactory::Create`; `SelectValues` and `DeleteValues` are empty.
pub data Request : Type 0 where
  select_request : SelectOptions → Request
  insert_request : InsertOptions → List ValueCollector → Request
  update_request : UpdateOptions → ValueCollector → Request
  delete_request : DeleteOptions → Request

unfoldable pub check_sizes : ℕ → List ValueCollector → Outcome (Unit {0})
check_sizes expected [] = ok tt
check_sizes expected (values ∷ rest) =
    try_bind (check_true (length values == expected)) λ _. check_sizes expected rest

unfoldable pub extract_all : List ValueCollector → ValueCollector → ValueCollector
extract_all [] to = to
extract_all (values ∷ rest) to = extract_all rest (extract_to values to)

abbrev pub create_select : SelectOptions → Outcome Query
create_select o = ok (record { options = select_options o; params = condition_params o.condition })

abbrev pub create_insert : InsertOptions → List ValueCollector → Outcome Query
create_insert o values = try_bind (check_true (not (is_empty values))) λ _.
    try_bind (check_sizes (length o.columns) values) λ _. ok (record {
      options = insert_options (record o { values_count = length values });
      params = extract_all values [];
    })

abbrev pub create_update : UpdateOptions → ValueCollector → Outcome Query
create_update o values = try_bind (check_true (length values == length o.columns)) λ _.
    try_bind (check_true (is_set o.condition)) λ _.
      ok (record { options = update_options o; params = values ++ condition_params o.condition })

abbrev pub create_delete : DeleteOptions → Outcome Query
create_delete o =
    try_bind (check_true (is_set o.condition))
      λ _. ok (record { options = delete_options o; params = condition_params o.condition })

-- `QueryFactory::Create` on each pair of options and values.
unfoldable pub create : Request → Outcome Query
create (select_request o) = create_select o
create (insert_request o values) = create_insert o values
create (update_request o values) = create_update o values
create (delete_request o) = create_delete o
