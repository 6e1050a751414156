-- ===== src/Examples/Statements.antt =====
-- Statements, their placeholders and their ids on concrete inputs.
use warehouse_accounting_sys.Base.{
  ℕ, ◌≡◌, refl, sym, subst, ◌∙◌, Bool-cases, true, false, length, [], ◌∷◌, some, arith, inl, inr,
}
use warehouse_accounting_sys.Base.Int.{ℤ, pos}
use warehouse_accounting_sys.Exec.{ok}
use warehouse_accounting_sys.Query.Schema.{
  Column, product_id, warehouse_id, Table, warehouse_item, column_to_string, table_to_string,
  Column-discrete, Table-discrete, yes_refl, is_yes-false,
}
use warehouse_accounting_sys.Query.Values.{int, to_pqxx}
use warehouse_accounting_sys.Query.Text.{
  Text, slots, count_up, placeholder_vector, joined, joined_rest, words, placeholder,
}
use warehouse_accounting_sys.Query.Condition.{
  Condition, Conditions, group, real, in_list, negation, cons, nil, and, equal, less, equals,
  group_rest, group_type_to_string, real_type_to_string, to_string, RealConditionType-discrete,
  collect_params,
}
use warehouse_accounting_sys.Query.Condition.SameText.{and_only, equals-negation}
use warehouse_accounting_sys.Query.Options.{
  QueryOptions, DeleteOptions, delete_options, serialize_parametrized, serialize_delete,
  identificator, QueryIdentificator,
}
use warehouse_accounting_sys.Query.Options.Equality.{equals_options, equals_delete}
use warehouse_accounting_sys.Query.Options.Equality.SameStatement.{
  equals-same_statement, options_and_only, order_of,
}
use warehouse_accounting_sys.Query.Build.{Query, create, delete_request}
use warehouse_accounting_sys.Query.Build.Binding.{create_binds_all}
use warehouse_accounting_sys.QueryManager.{
  QueryManager, eq_identificator, QueryIdentificator-discrete, new_manager, find_query,
  get_or_support_query_id, put, Supported,
}
use warehouse_accounting_sys.QueryManager.Stored.{
  Stores, Among, WellFormed, get_or_support_query_id-keeps, get_or_support_query_id-same_text,
  get_or_support_query_id-WellFormed,
}

abbrev items_of : ℤ → ℤ → ℤ → Condition
items_of w p q = group and (
    cons (in_list Column.product_id (int p ∷ int q ∷ []))
      (cons (real equal Column.warehouse_id (int w)) nil))

abbrev seven_and_eight : Condition
seven_and_eight = items_of (pos 1) (pos 7) (pos 8)

abbrev nine_and_ten : Condition
nine_and_ten = items_of (pos 2) (pos 9) (pos 10)

abbrev delete_both : Condition → DeleteOptions
delete_both c = record { table = warehouse_item; condition = some c }

abbrev pub first : QueryOptions
first = delete_options (delete_both seven_and_eight)

abbrev pub second : QueryOptions
second = delete_options (delete_both nine_and_ten)

same_conditions : equals seven_and_eight nine_and_ten ≡ true
unfolding equals
same_conditions = rw (
  yes_refl (Column-discrete product_id product_id),
  yes_refl (Column-discrete warehouse_id warehouse_id),
  yes_refl (RealConditionType-discrete equal equal),
)

same_options : equals_options first second ≡ true
unfolding equals_options equals_delete
same_options = rw (yes_refl (Table-discrete warehouse_item warehouse_item), same_conditions)

equals-same_statement_example : serialize_parametrized first ≡ serialize_parametrized second
unfolding and_only
equals-same_statement_example = equals-same_statement first second same_options refl refl refl

not_invalid : (Table.warehouse_item ≡ Table.invalid) → ⊥
not_invalid h = cc

-- The text of the first statement, from the count 1.
abbrev pub printed_text : Text
printed_text =
    words "DELETE FROM "
    ∷ words "public.\""
    ∷ words (table_to_string warehouse_item)
    ∷ words "\""
    ∷ words " WHERE "
    ∷ words "("
    ∷ words "("
    ∷ words (column_to_string product_id)
    ∷ words " IN ("
    ∷ placeholder 1
    ∷ words ", "
    ∷ placeholder 2
    ∷ words "))"
    ∷ words " "
    ∷ words (group_type_to_string and)
    ∷ words " "
    ∷ words "("
    ∷ words (column_to_string warehouse_id)
    ∷ words " "
    ∷ words (real_type_to_string equal)
    ∷ words " "
    ∷ placeholder 3
    ∷ words ")"
    ∷ words ")"
    ∷ words ";"
    ∷ []

pub prints : serialize_parametrized first 1 ≡ (ok printed_text, 4)
unfolding serialize_parametrized serialize_delete to_string group_rest placeholder_vector joined
    joined_rest
prints = rw (is_yes-false (Table-discrete warehouse_item Table.invalid) not_invalid)

abbrev first_query : Query
first_query = record { options = first; params = int (pos 7) ∷ int (pos 8) ∷ int (pos 1) ∷ [] }

makes : create (delete_request (delete_both seven_and_eight)) ≡ ok first_query
unfolding create collect_params
makes = refl

create_binds_all_example : slots printed_text ≡ count_up 1 (length (to_pqxx first_query.params).0)
create_binds_all_example =
    create_binds_all (delete_request (delete_both seven_and_eight)) {q = first_query}
      {t = printed_text} {n = 4} makes prints

equals-negation_example : equals (negation seven_and_eight) (negation seven_and_eight) ≡ false
equals-negation_example = equals-negation seven_and_eight (negation seven_and_eight)

abbrev comparisons : Conditions
comparisons =
    cons (real less product_id (int (pos 3))) (cons (real equal warehouse_id (int (pos 1))) nil)

-- The manager after the first statement was asked for.
abbrev pub with_first : QueryManager
with_first = record {
  current_id = 2;
  supported = put QueryIdentificator.delete ((1, first) ∷ []) new_manager.supported;
}

pub stored_under_delete : with_first.supported QueryIdentificator.delete ≡ some ((1, first) ∷ [])
stored_under_delete =
    rw (yes_refl (QueryIdentificator-discrete QueryIdentificator.delete QueryIdentificator.delete))

first_is_stored : Stores with_first 1 first
first_is_stored =
    (QueryIdentificator.delete, (1, first) ∷ [], stored_under_delete, inl (refl, refl))

pub finds_first : get_or_support_query_id second with_first ≡ (ok 1, with_first)
unfolding get_or_support_query_id find_query identificator
finds_first = rw (stored_under_delete, same_options)

get_or_support_query_id-keeps_example : Stores (get_or_support_query_id second with_first).1 1 first
get_or_support_query_id-keeps_example =
    get_or_support_query_id-keeps second with_first 1 first first_is_stored

pub whole_vector : {a b : Supported} → some a ≡ some b → a ≡ b
whole_vector h = cc

pub only_first : (i : ℕ) (o : QueryOptions) → Stores with_first i o → (i ≡ 1) × (o ≡ first)
only_first i o (key, vec, found, among) =
    elim (Bool-cases (eq_identificator QueryIdentificator.delete key)) [
      | inl b ↦
          let whole : (1, first) ∷ [] ≡ vec = whole_vector (rw b at found) in
          elim (subst (Among i o) (sym whole) among) [ inl it ↦ it | inr nothing ↦ absurd nothing ]
      | inr b ↦ absurd (cc (rw b at found))
    ]

pub with_first-WellFormed : WellFormed with_first
with_first-WellFormed = (
  λ id o h. omega (arith, (only_first id o h).0),
  λ id a b h k. (only_first id a h).1 ∙ sym (only_first id b k).1,
)

get_or_support_query_id-WellFormed_example :
    WellFormed (get_or_support_query_id second with_first).1
get_or_support_query_id-WellFormed_example =
    get_or_support_query_id-WellFormed second with_first (omega arith) with_first-WellFormed

uniform :
    (i : ℕ) (o : QueryOptions)
    → Stores with_first i o
    → (options_and_only o ≡ true) × (order_of o ≡ order_of second)
unfolding and_only
uniform i o h =
    let is = sym (only_first i o h).1 in
    (
      subst (λ x. options_and_only x ≡ true) is refl,
      subst (λ x. order_of x ≡ order_of second) is refl,
    )

get_or_support_query_id-same_text_example :
    (o : QueryOptions) × Stores with_first 1 o
    × (serialize_parametrized o ≡ serialize_parametrized second)
unfolding and_only
get_or_support_query_id-same_text_example =
    get_or_support_query_id-same_text second with_first with_first 1 refl uniform finds_first
