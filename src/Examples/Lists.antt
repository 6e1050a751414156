-- ===== src/Examples/Lists.antt =====
-- Lists on the tables of Examples.Tables.
use native.Mathlib.Decide.{ℕ_discrete}
use warehouse_accounting_sys.Base.{
  sym, subst, inl, inr, ◌≡◌, ◌↔◌, refl, ℕ, none, some, [], ◌∷◌, true,
}
use warehouse_accounting_sys.Base.Int.{pos}
use warehouse_accounting_sys.Result.{Result, success, not_found}
use warehouse_accounting_sys.Exec.{Outcome, ok, runtime_error}
use warehouse_accounting_sys.Session.{callback_status, ok_status}
use warehouse_accounting_sys.Tasks.{base_execute}
use warehouse_accounting_sys.Tasks.Answers.{base_execute-status}
use warehouse_accounting_sys.Tasks.Filter.{parse_filter, parse_all, parse_filters, first_named}
use warehouse_accounting_sys.Tasks.Filter.Shape.{
  Comparisons, parse_filters-malformed, parse_filters-Comparisons,
}
use warehouse_accounting_sys.Examples.Bodies.{
  bodies, both, one, listing, low_filter, unlike_filter, unnamed_filter,
}
use warehouse_accounting_sys.Query.Schema.{
  Column-discrete, Table-discrete, column_to_string, name, main_color, product, product_id,
}
use warehouse_accounting_sys.Query.Values.{int}
use warehouse_accounting_sys.Query.Condition.{
  Condition, group, and, Conditions, real, is_null, less, nil, cons, real_type_from_string,
  RealConditionType-discrete, equals,
}
use warehouse_accounting_sys.Tasks.Listing.{ListRequest, list_options, parse_list}
use warehouse_accounting_sys.Query.Options.{
  QueryOptions, select_options, OrderType, serialize_parametrized,
}
use warehouse_accounting_sys.Query.Options.Equality.{
  equals_options, equals_select, Columns-discrete, Joins-discrete, OptionColumn-discrete,
  OptionInt-discrete,
}
use warehouse_accounting_sys.QueryManager.{
  Supported, QueryManager, find_query, get_or_support_query_id,
}
use warehouse_accounting_sys.QueryManager.Stored.{Among, Stores}
use warehouse_accounting_sys.Tasks.Listing.Prepared.{list_statement-same_text}
use warehouse_accounting_sys.Query.Condition.SameText.{and_only}
use warehouse_accounting_sys.Query.Options.Equality.SameStatement.{options_and_only, order_of}
use warehouse_accounting_sys.Tasks.Listing.Pages.{all_there}
use warehouse_accounting_sys.Tasks.Products.{product_list_columns}
use warehouse_accounting_sys.Examples.Tables.{no_dates}

-- main_color < 3
abbrev low_color : Condition
low_color = group and (cons (real less main_color (int (pos 3))) nil)

abbrev not_there : Outcome (Result × ℕ)
not_there = ok (not_found, 5)

base_execute-status_example :
    (callback_status (base_execute not_there).1 ≡ ok_status)
    ↔ ((a : ℕ) × ((base_execute not_there).0 ≡ some a) × (not_there ≡ ok (success, a)))
base_execute-status_example = base_execute-status not_there

parse_filters-malformed_example :
    parse_filters bodies no_dates (both low_filter unlike_filter) ≡ none
unfolding parse_filter column_to_string real_type_from_string first_named
parse_filters-malformed_example =
    parse_filters-malformed bodies no_dates (both low_filter unlike_filter) (low_filter ∷ [])
      unlike_filter [] runtime_error refl refl

parse_filters-Comparisons_example :
    (cs : Conditions) × (group and
        (cons (real less main_color (int (pos 3))) (cons (is_null name) nil))
      ≡ group and cs)
    × Comparisons cs
unfolding parse_filter parse_all parse_filters column_to_string RealConditionType-discrete
    real_type_from_string first_named
parse_filters-Comparisons_example =
    parse_filters-Comparisons bodies no_dates (both low_filter unnamed_filter) _ refl

-- The statement of a list with the filter on the color.
abbrev low_request : ListRequest
low_request = record { limit = none; offset = pos 0; filter = some low_color }

abbrev low_statement : QueryOptions
low_statement = select_options (list_options product product_list_columns product_id low_request)

abbrev with_low : QueryManager
with_low = record { current_id = 2; supported = λ k. some ((1, low_statement) ∷ []) }

low_parsed : parse_list bodies no_dates all_there (listing (one low_filter)) ≡ ok low_request
unfolding parse_list parse_filters parse_all parse_filter first_named column_to_string
    real_type_from_string
low_parsed = refl

low_equals : equals_options low_statement low_statement ≡ true
unfolding equals_options equals_select equals Column-discrete Table-discrete Columns-discrete
    Joins-discrete OptionColumn-discrete OptionInt-discrete RealConditionType-discrete ℕ_discrete
low_equals = refl

low_found : get_or_support_query_id low_statement with_low ≡ (ok 1, with_low)
unfolding get_or_support_query_id find_query
low_found = rw low_equals refl

low_only : (i : ℕ) (o : QueryOptions) → Stores with_low i o → o ≡ low_statement
low_only i o (key, vec, found, among) =
    only_of i o (subst (Among i o) (sym (vector_of vec found)) among)
  where
    vector_of :
        (vec : Supported) → with_low.supported key ≡ some vec → (1, low_statement) ∷ [] ≡ vec
    vector_of vec h = cc

    only_of : (i : ℕ) (o : QueryOptions) → Among i o ((1, low_statement) ∷ []) → o ≡ low_statement
    only_of i o (inl (same, is)) = is
    only_of i o (inr none_left) = absurd none_left

low_uniform :
    (i : ℕ) (o : QueryOptions)
    → Stores with_low i o
    → (options_and_only o ≡ true) × (order_of o ≡ OrderType.asc)
unfolding and_only
low_uniform i o h =
    let is = sym (low_only i o h) in
    (
      subst (λ x. options_and_only x ≡ true) is refl,
      subst (λ x. order_of x ≡ OrderType.asc) is refl,
    )

list_statement-same_text_example :
    (o : QueryOptions) × Stores with_low 1 o
    × (serialize_parametrized o ≡ serialize_parametrized low_statement)
list_statement-same_text_example =
    list_statement-same_text bodies no_dates all_there (listing (one low_filter)) low_request
      (list_options product product_list_columns product_id low_request) with_low with_low 1
      low_parsed (inl (product, product_list_columns, product_id, refl)) low_uniform low_found
