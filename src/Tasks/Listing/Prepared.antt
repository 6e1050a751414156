-- ===== src/Tasks/Listing/Prepared.antt =====
-- The cached statements of the list tasks in back/components/task_manager/source/tasks/protocol, under
-- the query manager's ids.
use warehouse_accounting_sys.Base.{
  ℕ, ◌≡◌, refl, ap, true, Option, none, some, Option-cases, List, inl, inr, subst, sym, Bool-cases,
  ◌⊎◌, ◌∙◌,
}
use warehouse_accounting_sys.Exec.{ok, check_success, try_bind-ok, ok-injective}
use warehouse_accounting_sys.Query.Schema.{Column, Table}
use warehouse_accounting_sys.Query.Condition.{Condition}
use warehouse_accounting_sys.Query.Options.{
  QueryOptions, SelectOptions, select_options, serialize_parametrized,
}
use warehouse_accounting_sys.Query.Options.Equality.SameStatement.{
  condition_and_only, options_and_only, order_of,
}
use warehouse_accounting_sys.QueryManager.{QueryManager, get_or_support_query_id}
use warehouse_accounting_sys.QueryManager.Stored.{Stores, get_or_support_query_id-same_text}
use warehouse_accounting_sys.Json.{Json, get_key, get_optional}
use warehouse_accounting_sys.Tasks.{DateProvider, Interfaces}
use warehouse_accounting_sys.Tasks.Filter.{parse_filters}
use warehouse_accounting_sys.Tasks.Filter.Shape.{parse_filters-Comparisons, and_only-Comparisons}
use warehouse_accounting_sys.Tasks.Listing.{
  ListRequest, parse_list, filter_key, filter_found, list_options,
}
use warehouse_accounting_sys.Tasks.Products.{product_list_options, extend_warehouse}

-- The options of a list task for a request: those of one table, or those of the list of products, which
-- is joined with the items when it is filtered by a warehouse.
abbrev pub OptionsOf : ListRequest → SelectOptions → Type 0
OptionsOf request o =
    ((table : Table) × (columns : List Column) × (id : Column) × (o
        ≡ list_options table columns id request))
    ⊎ (o ≡ product_list_options request)

product_condition :
    (request : ListRequest) → (product_list_options request).condition ≡ request.filter
unfolding product_list_options
product_condition request = elim (Bool-cases (extend_warehouse request.filter)) [
  | inl b ↦ rw b refl
  | inr b ↦ rw b refl
]

options_condition :
    (request : ListRequest) (o : SelectOptions) → OptionsOf request o → o.condition ≡ request.filter
options_condition request o (inl (table, columns, id, is)) = ap (λ q. q.condition) is
options_condition request o (inr is) = ap (λ q. q.condition) is ∙ product_condition request

module _ (j : Json) (dates : DateProvider) (interfaces : Interfaces) where
  parsed_and_only : (v : j.Value) → condition_and_only (parse_filters j dates v) ≡ true
  parsed_and_only v = elim (Option-cases (parse_filters j dates v)) [
    | inl e ↦ rw e refl
    | inr (c, e) ↦
        let (cs, is, shape) = parse_filters-Comparisons j dates v c e in
        rw (e, is) (and_only-Comparisons cs shape)
  ]

  found_and_only :
      (o : Option j.Value) (c : Option Condition)
      → filter_found j dates interfaces o ≡ ok c
      → condition_and_only c ≡ true
  found_and_only none c h = ap condition_and_only (sym (ok-injective h))
  found_and_only (some v) c h =
      let (u, e, f) = try_bind-ok (check_success interfaces.date_provider) _ h in
      subst (λ x. condition_and_only x ≡ true) (ok-injective f) (parsed_and_only v)

  parse_list-and_only :
      (body : j.Value) (request : ListRequest)
      → parse_list j dates interfaces body ≡ ok request
      → condition_and_only request.filter ≡ true
  unfolding parse_list
  parse_list-and_only body request h =
      let (l, e1, h1) = try_bind-ok (get_optional j j.as_int64 body "limit") _ h in
      let (o, e2, h2) = try_bind-ok (get_key j j.as_int64 body "offset") _ h1 in
      let (c, e3, h3) = try_bind-ok (filter_key j dates interfaces body) _ h2 in
      subst (λ r. condition_and_only r.filter ≡ true) (ok-injective h3)
        (found_and_only (j.find body "filters") c e3)

  -- The id that the query manager answers for the options of a parsed list request, of one table or of
  -- the list of products with its join, is prepared with the text of these options, as long as what is
  -- stored has AND groups only and orders as these options do.
  pub list_statement-same_text :
      (body : j.Value) (request : ListRequest) (options : SelectOptions) (m t : QueryManager)
      (i : ℕ)
      → parse_list j dates interfaces body ≡ ok request
      → OptionsOf request options
      → ((k : ℕ) (o : QueryOptions)
          → Stores t k o
          → (options_and_only o ≡ true) × (order_of o ≡ order_of (select_options options)))
      → get_or_support_query_id (select_options options) m ≡ (ok i, t)
      → (o : QueryOptions) × Stores t i o
        × (serialize_parametrized o ≡ serialize_parametrized (select_options options))
  list_statement-same_text body request options m t i parsed of uniform run =
      let filtered =
        subst (λ c. condition_and_only c ≡ true) (sym (options_condition request options of))
          (parse_list-and_only body request parsed) in
      get_or_support_query_id-same_text (select_options options) m t i filtered uniform run
