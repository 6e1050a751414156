-- ===== src/QueryManager.antt =====
-- back/services/db_connector/source/query/source/query_manager.cpp: the statements that every connection
-- prepares, each under an id.
pub mod Stored
pub mod Iterator
pub mod Refresh
use warehouse_accounting_sys.Base.{
  ℕ, suc, ◌+◌, ◌%◌, ◌^◌, Bool, true, false, Option, none, some, List, [], ◌∷◌, ◌++◌, if◌then◌else◌,
}
use warehouse_accounting_sys.Exec.{Outcome, ok, throws, Exec, lift, pure, ◌>>=◌, ◌>>◌}
use warehouse_accounting_sys.Query.Schema.{is_yes}
use warehouse_accounting_sys.Query.Options.{
  QueryOptions, QueryIdentificator, identificator, serialize_parametrized,
}
use warehouse_accounting_sys.Query.Options.Equality.{equals_options}

unfoldable pub QueryIdentificator-discrete : Discrete QueryIdentificator
QueryIdentificator-discrete = hlevel

abbrev pub eq_identificator : QueryIdentificator → QueryIdentificator → Bool
eq_identificator a b = is_yes (QueryIdentificator-discrete a b)

-- The mapped type of `queriesStorage_t`: ids with their options, in the order they came.
abbrev pub Supported : Type 0
Supported = List (ℕ × QueryOptions)

-- `m_currentId` and `m_supportedQueries`, a map as the function that finds a key.
pub record QueryManager : Type 0 where
  pub current_id : ℕ
  pub supported : QueryIdentificator → Option Supported

abbrev pub new_manager : QueryManager
new_manager = record { current_id = 1; supported = λ k. none }

-- `std::find_if` with `pair.second->Equals(*options)`.
unfoldable pub find_query : QueryOptions → Supported → Option ℕ
find_query options [] = none
find_query options ((id, o) ∷ rest) =
    if equals_options o options then some id else find_query options rest

abbrev pub put :
    QueryIdentificator
    → Supported
    → (QueryIdentificator → Option Supported)
    → QueryIdentificator
    → Option Supported
put key vec supported k = if eq_identificator key k then some vec else supported k

-- `willUseId = m_currentId++`, the trace, which prints the statement and so can throw, and then the
-- insertion.
abbrev pub add_traced :
    {T : Type 0} → Outcome T → QueryOptions → Supported → QueryManager → Outcome ℕ × QueryManager
add_traced (ok text) options vec m = (
  ok m.current_id,
  record {
    current_id = (m.current_id + 1) % 2 ^ 64;
    supported = put (identificator options) (vec ++ (m.current_id, options) ∷ []) m.supported;
  },
)
add_traced (throws e) options vec m =
    (throws e, record m { current_id = (m.current_id + 1) % 2 ^ 64 })

abbrev pub add_query : QueryOptions → Supported → QueryManager → Outcome ℕ × QueryManager
add_query options vec m = add_traced (serialize_parametrized options 1).0 options vec m

abbrev pub use_or_add :
    QueryOptions → Supported → Option ℕ → QueryManager → Outcome ℕ × QueryManager
use_or_add options vec (some id) m = (ok id, m)
use_or_add options vec none m = add_query options vec m

abbrev pub get_or_support :
    QueryOptions → Option Supported → QueryManager → Outcome ℕ × QueryManager
get_or_support options (some vec) m = use_or_add options vec (find_query options vec) m
get_or_support options none m = add_query options [] m

-- `GetOrSupportQueryId`
unfoldable pub get_or_support_query_id : QueryOptions → Exec QueryManager ℕ
unfolding find_query
get_or_support_query_id options m = get_or_support options (m.supported (identificator options)) m
