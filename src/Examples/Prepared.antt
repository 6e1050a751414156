-- ===== src/Examples/Prepared.antt =====
-- A cached entry on a new connection, and the statement of a size, on concrete inputs.
use warehouse_accounting_sys.Base.{
  ℕ, ◌≡◌, ◌⊎◌, refl, subst, Bool-cases, some, none, [], ◌∷◌, ◌++◌, length, arith, inl, inr, true,
  false,
}
use warehouse_accounting_sys.Exec.{Outcome, ok}
use warehouse_accounting_sys.Query.Schema.{is_yes-false, product, main_color, column_to_string}
use warehouse_accounting_sys.Query.Text.{Text, slots, count_up, words, placeholder}
use warehouse_accounting_sys.Base.Int.{pos}
use warehouse_accounting_sys.Query.Condition.{
  Condition, group, and, cons, nil, real, less, real_type_to_string, to_string, group_rest,
  collect_params,
}
use warehouse_accounting_sys.Query.Values.{int, to_pqxx}
use warehouse_accounting_sys.Query.Options.{
  QueryOptions, public_table, QueryIdentificator, raw, select, insert, update,
}
use warehouse_accounting_sys.Query.Options.Equality.{equals_options}
use warehouse_accounting_sys.QueryManager.{eq_identificator, QueryIdentificator-discrete}
use warehouse_accounting_sys.QueryManager.Stored.{Stores}
use warehouse_accounting_sys.QueryManager.Iterator.{
  reversed, all_fields, begin_iterators, fields, next_iterator,
}
use warehouse_accounting_sys.QueryManager.Iterator.Merged.{Descending}
use warehouse_accounting_sys.QueryManager.Refresh.{
  Connection, new_connection, create_cached_entry, refresh_fields, support_rest,
}
use warehouse_accounting_sys.QueryManager.Refresh.Serving.{IsPrepared}
use warehouse_accounting_sys.QueryManager.Refresh.Ordered.{Ordered}
use warehouse_accounting_sys.QueryManager.Refresh.Entries.{Serves, create_cached_entry-prepares}
use warehouse_accounting_sys.Tasks.Sizes.{size_query, size_query-binds, RawQuery}
use warehouse_accounting_sys.Examples.Statements.{
  first, second, with_first, with_first-WellFormed, only_first, finds_first, prints, printed_text,
  whole_vector, stored_under_delete,
}

abbrev prepares : ℕ → Text → Outcome (Unit {0})
prepares id text = ok tt

abbrev connected : Connection
connected = record { last_supported_query = 1; prepared = (1, printed_text) ∷ [] }

nothing_else :
    (key : QueryIdentificator)
    → (QueryIdentificator.delete ≡ key → ⊥)
    → with_first.supported key ≡ none
nothing_else key other =
    rw (is_yes-false (QueryIdentificator-discrete QueryIdentificator.delete key) other)

one_iterator : begin_iterators with_first ≡ ((1, first) ∷ []) ∷ []
unfolding begin_iterators reversed
one_iterator = rw (
  stored_under_delete,
  nothing_else raw (λ h. cc),
  nothing_else select (λ h. cc),
  nothing_else insert (λ h. cc),
  nothing_else update (λ h. cc),
)

one_field : all_fields with_first ≡ (1, first) ∷ []
unfolding fields next_iterator
one_field = rw one_iterator

enters :
    create_cached_entry prepares second with_first new_connection
    ≡ some (ok 1, (with_first, connected))
unfolding create_cached_entry refresh_fields support_rest
enters = rw (finds_first, one_field, prints)

one_descends : Descending (reversed ((1, first) ∷ []))
unfolding reversed
one_descends = (λ g k. absurd k, tt)

ordered : Ordered with_first
ordered key vec found = elim (Bool-cases (eq_identificator QueryIdentificator.delete key)) [
  | inl b ↦ subst (λ v. Descending (reversed v)) (whole_vector (rw b at found)) one_descends
  | inr b ↦ absurd (cc (rw b at found))
]

nothing_yet : Serves with_first new_connection
nothing_yet id o there le = absurd (omega (arith, le, (only_first id o there).0))

create_cached_entry-prepares_example :
    (o : QueryOptions) × Stores with_first 1 o
    × ((o ≡ second) ⊎ (equals_options o second ≡ true))
    × IsPrepared connected (1, o)
create_cached_entry-prepares_example =
    create_cached_entry-prepares prepares second with_first with_first new_connection connected 1
      with_first-WellFormed ordered (omega arith) nothing_yet enters

-- main_color < 3
abbrev low_color : Condition
low_color = group and (cons (real less main_color (int (pos 3))) nil)

abbrev low_colors : RawQuery
low_colors = record {
  text =
      words "SELECT COUNT(*) FROM " ∷ public_table product
      ++ words " WHERE "
        ∷ words "("
        ∷ words "("
        ∷ words (column_to_string main_color)
        ∷ words " "
        ∷ words (real_type_to_string less)
        ∷ words " "
        ∷ placeholder 1
        ∷ words ")"
        ∷ words ")"
        ∷ [];
  params = int (pos 3) ∷ [];
  cached = false;
}

sizes : size_query product (some low_color) ≡ ok low_colors
unfolding size_query to_string group_rest collect_params
sizes = refl

size_query-binds_example : slots low_colors.text ≡ count_up 1 (length (to_pqxx low_colors.params).0)
size_query-binds_example = size_query-binds product (some low_color) low_colors sizes
