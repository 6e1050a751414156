-- ===== src/Query/Build/Binding.antt =====
-- The placeholders of a query's text against the parameters that go with it.
use warehouse_accounting_sys.Base.{
  ℕ, ◌+◌, ◌*◌, ◌≡◌, refl, subst, not, is_empty, List, [], ◌∷◌, length, length-append, eq_of-==,
  ◌==◌, arith,
}
use warehouse_accounting_sys.Exec.{ok, check_true, try_bind-ok, ok-injective, check_true-ok}
use warehouse_accounting_sys.Query.Values.{ValueCollector, to_pqxx, length-to_pqxx, extract_to}
use warehouse_accounting_sys.Query.Text.{Text, slots, count_up}
use warehouse_accounting_sys.Query.Options.{serialize_parametrized, condition_params, is_set}
use warehouse_accounting_sys.Query.Options.Numbering.{
  placeholder_count, serialize_parametrized-Numbered,
}
use warehouse_accounting_sys.Query.Build.{
  Query, Request, select_request, insert_request, update_request, delete_request, create,
  check_sizes, extract_all,
}

-- The query has as many values as its text has placeholders.
abbrev IsBalanced : Query → Type 0
IsBalanced q = length q.params ≡ placeholder_count q.options

length-extract_all :
    (k : ℕ) (values : List ValueCollector) (to : ValueCollector) {u : Unit {0}}
    → check_sizes k values ≡ ok u
    → length (extract_all values to) ≡ length to + length values * k
unfolding extract_all check_sizes
length-extract_all k [] to h = omega arith
length-extract_all k (v ∷ vs) to h =
    let (u, passed, rest) = try_bind-ok (check_true (length v == k)) _ h in
    omega (
      arith,
      length-append to v,
      eq_of-== (length v) k (check_true-ok _ passed),
      length-extract_all k vs (extract_to v to) rest,
    )

create-IsBalanced : (r : Request) {q : Query} → create r ≡ ok q → IsBalanced q
unfolding create
create-IsBalanced (select_request o) h = subst IsBalanced (ok-injective h) refl
create-IsBalanced (insert_request o values) h =
    let (u, filled, rest) = try_bind-ok (check_true (not (is_empty values))) _ h in
    let (v, sized, last) = try_bind-ok (check_sizes (length o.columns) values) _ rest in
    subst IsBalanced (ok-injective last)
      (omega (arith, length-extract_all (length o.columns) values [] sized))
create-IsBalanced (update_request o values) h =
    let (u, sized, rest) = try_bind-ok (check_true (length values == length o.columns)) _ h in
    let (v, given, last) = try_bind-ok (check_true (is_set o.condition)) _ rest in
    subst IsBalanced (ok-injective last) (
      omega (
        arith,
        length-append values (condition_params o.condition),
        eq_of-== (length values) (length o.columns) (check_true-ok _ sized),
      ))
create-IsBalanced (delete_request o) h =
    let (v, given, last) = try_bind-ok (check_true (is_set o.condition)) _ h in
    subst IsBalanced (ok-injective last) refl

-- A query that the factory made and that serialises has the placeholders $1, $2, … of exactly the
-- parameters that pqxx is given with it, each once and in order.
pub create_binds_all :
    (r : Request) {q : Query} {t : Text} {n : ℕ}
    → create r ≡ ok q
    → serialize_parametrized q.options 1 ≡ (ok t, n)
    → slots t ≡ count_up 1 (length (to_pqxx q.params).0)
create_binds_all r {q} made printed =
    rw (length-to_pqxx q.params, create-IsBalanced r made)
      (serialize_parametrized-Numbered q.options 1 printed).in_order
