-- ===== src/QueryManager/Refresh.antt =====
-- back/services/db_connector/source/connection/source/connection.cpp: the statements that a connection has
-- prepared, and `TransactionEntryFactory::CreateQueryTransactionEntry`, which has them refreshed.
pub mod Serving
pub mod Ordered
pub mod Entries
use warehouse_accounting_sys.Base.{
  ℕ, Bool, true, false, ltb, if◌then◌else◌, Option, none, some, List, [], ◌∷◌, ◌++◌,
}
use warehouse_accounting_sys.Exec.{Outcome, ok, throws, Exec, pure, ◌>>=◌, ◌>>◌}
use warehouse_accounting_sys.Query.Text.{Text}
use warehouse_accounting_sys.Query.Options.{QueryOptions, serialize_parametrized}
use warehouse_accounting_sys.QueryManager.{QueryManager, get_or_support_query_id}
use warehouse_accounting_sys.QueryManager.Iterator.{Field, all_fields}

-- `m_lastSupportedQuery`, and what `m_rawConnection` was given to prepare.
pub record Connection : Type 0 where
  pub last_supported_query : ℕ
  pub prepared : List (ℕ × Text)

-- A connection before its first refresh.
abbrev pub new_connection : Connection
new_connection = record { last_supported_query = 0; prepared = [] }

-- `prepare` is libpqxx's answer to a statement under an id.
module _ (prepare : ℕ → Text → Outcome (Unit {0})) where
  abbrev pub answered : ℕ → Text → Outcome (Unit {0}) → Exec Connection (Unit {0})
  answered id text (ok u) c = (ok tt, record c { prepared = (id, text) ∷ c.prepared })
  answered id text (throws e) c = (throws e, c)

  abbrev pub serialized : ℕ → Outcome Text → Exec Connection (Unit {0})
  serialized id (ok text) c = answered id text (prepare id text) c
  serialized id (throws e) c = (throws e, c)

  -- `SupportQuery(id, options->SerializeParametrized())`
  abbrev pub support_query : Field → Exec Connection (Unit {0})
  support_query f = serialized f.0 (serialize_parametrized f.1 1).0

  -- `while (queriesIt != queries->rend() && queriesIt->id > savedLastSupportedId)`
  unfoldable pub support_rest : ℕ → List Field → Exec Connection (Unit {0})
  support_rest saved [] = pure tt
  support_rest saved (f ∷ fs) =
      let rest = support_rest saved fs in if ltb saved f.0 then support_query f >> rest else pure tt

  -- `RefreshSupportedQueries` on the iteration from `rbegin()`; none where nothing is stored and the code
  -- goes on with the field of the iterator at the end. The constructor of `QueriesIterator` and its `++`
  -- read a field at the end for `rend()` and behind the last query, too, which no step then uses.
  unfoldable pub refresh_fields : List Field → Connection → Option (Outcome (Unit {0}) × Connection)
  refresh_fields [] c = none
  refresh_fields (f ∷ fs) c =
      if ltb c.last_supported_query f.0
      then some (
          (support_query f >> support_rest c.last_supported_query fs)
            (record c { last_supported_query = f.0 }))
      else some (ok tt, c)

  abbrev pub refresh_supported_queries :
      QueryManager → Connection → Option (Outcome (Unit {0}) × Connection)
  refresh_supported_queries m c = refresh_fields (all_fields m) c

  abbrev pub refreshed :
      ℕ
      → QueryManager
      → Option (Outcome (Unit {0}) × Connection)
      → Option (Outcome ℕ × (QueryManager × Connection))
  refreshed id m none = none
  refreshed id m (some (ok u, c)) = some (ok id, (m, c))
  refreshed id m (some (throws e, c)) = some (throws e, (m, c))

  abbrev pub with_id :
      Outcome ℕ × QueryManager → Connection → Option (Outcome ℕ × (QueryManager × Connection))
  with_id (throws e, m) c = some (throws e, (m, c))
  with_id (ok id, m) c =
      if ltb c.last_supported_query id
      then refreshed id m (refresh_supported_queries m c)
      else some (ok id, (m, c))

  -- `CreateQueryTransactionEntry` of a cached query: the id that the entry executes.
  unfoldable pub create_cached_entry :
      QueryOptions → QueryManager → Connection → Option (Outcome ℕ × (QueryManager × Connection))
  create_cached_entry o m c = with_id (get_or_support_query_id o m) c
