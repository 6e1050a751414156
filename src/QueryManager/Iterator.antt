-- ===== src/QueryManager/Iterator.antt =====
-- back/services/db_connector/source/query/source/queries_iterator_internal.h: all stored queries by
-- descending id, merged from the vectors of the storage.
pub mod Merged
use warehouse_accounting_sys.Base.{
  ℕ, zero, suc, ◌+◌, Bool, true, false, ltb, if◌then◌else◌, Option, none, some, List, [], ◌∷◌, ◌++◌,
  length,
}
use warehouse_accounting_sys.Query.Options.{
  QueryOptions, QueryIdentificator, raw, select, insert, delete, update,
}
use warehouse_accounting_sys.QueryManager.{QueryManager, Supported}

-- `QueriesIterator::Field`
abbrev pub Field : Type 0
Field = ℕ × QueryOptions

-- `crbegin` of a vector: what a reverse iterator has before it.
unfoldable pub reversed : Supported → Supported
reversed [] = []
reversed (f ∷ fs) = reversed fs ++ f ∷ []

abbrev pub vector_of : Option Supported → List Supported → List Supported
vector_of none rest = rest
vector_of (some vec) rest = reversed vec ∷ rest

-- `m_nextIterators` at the start, in the order of the map's keys.
unfoldable pub begin_iterators : QueryManager → List Supported
begin_iterators m = vector_of (m.supported raw) (
    vector_of (m.supported select) (
      vector_of (m.supported insert)
        (vector_of (m.supported delete) (vector_of (m.supported update) []))))

-- `Less` of the reverse iterators, where an empty list is one at its end. For two of them the code
-- compares the addresses of its parameters; either way an iterator at its end is chosen.
abbrev pub less : Supported → Supported → Bool
less [] [] = false
less (f ∷ fs) [] = true
less [] (g ∷ gs) = false
less (f ∷ fs) (g ∷ gs) = ltb g.0 f.0

abbrev pub bumped : Supported → Supported
bumped [] = []
bumped (f ∷ fs) = fs

-- `GetBorderElement`, the first of the least iterators, and `*minIt = std::next(*minIt)`: the iterator
-- that was chosen and the vector of iterators behind it.
unfoldable pub next_iterator : Supported → List Supported → Supported × List Supported
next_iterator v [] = (v, bumped v ∷ [])
next_iterator v (w ∷ ws) =
    let (best, rest) = next_iterator w ws in
    if less best v then (best, v ∷ rest) else (v, bumped v ∷ w ∷ ws)

-- `GetField` of an iterator that is not at the end, in front of the later ones.
abbrev pub with_field : Supported → List Field → List Field
with_field [] later = []
with_field (f ∷ fs) later = f ∷ later

-- The fields from `rbegin()` to `rend()`, in at most so many steps.
unfoldable pub fields : ℕ → List Supported → List Field
fields zero iterators = []
fields (suc fuel) [] = []
fields (suc fuel) (v ∷ vs) =
    let (best, rest) = next_iterator v vs in with_field best (fields fuel rest)

abbrev pub total : List Supported → ℕ
total [] = 0
total (v ∷ vs) = length v + total vs

-- The whole iteration; every step takes one query.
abbrev pub all_fields : QueryManager → List Field
all_fields m = fields (total (begin_iterators m)) (begin_iterators m)
