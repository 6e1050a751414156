-- ===== src/Tasks/Filter/Shape.antt =====
-- What conditions `ParseFilters` of filter.h makes.
use warehouse_accounting_sys.Base.{
  ◌≡◌, refl, subst, ◌∙◌, true, ◌&&◌, Bool-cases, Option, none, some, List, [], ◌∷◌, ◌++◌, inl, inr,
  ap, String, str_eq,
}
use warehouse_accounting_sys.Base.Int.{ℤ}
use warehouse_accounting_sys.Exec.{
  Outcome, ok, throws, Exception, try_bind-ok, ok-injective, Outcome-cases,
}
use warehouse_accounting_sys.Query.Schema.{Column}
use warehouse_accounting_sys.Query.Values.{int}
use warehouse_accounting_sys.Query.Condition.{
  Condition, Conditions, group, and, real, is_null, nil, cons, RealConditionType, equal,
  eq_real_type, real_type_from_string,
}
use warehouse_accounting_sys.Query.Condition.SameText.{and_only}
use warehouse_accounting_sys.Json.{Json, get_key}
use warehouse_accounting_sys.Tasks.{DateProvider}
use warehouse_accounting_sys.Tasks.Filter.{
  parse_filter, parse_all, parse_filters, value_condition, string_condition, timestamp_condition,
  column_from_string, add_filter, caught,
}

-- A comparison of a column with a number, or IS NULL.
abbrev pub Comparison : Condition → Type 0
Comparison (real t c (int n)) = Unit
Comparison (is_null c) = Unit
Comparison c = ⊥

abbrev AbsentOr : Option Condition → Type 0
AbsentOr none = Unit
AbsentOr (some c) = Comparison c

abbrev pub Comparisons : Conditions → Type 0
Comparisons nil = Unit
Comparisons (cons c cs) = Comparison c × Comparisons cs

module _ (j : Json) (dates : DateProvider) where
  timestamp_shape :
      (type : RealConditionType) (c : Column) (o : Option ℤ)
      → AbsentOr (timestamp_condition j dates type c o)
  timestamp_shape type c none = tt
  timestamp_shape type c (some t) = tt

  string_shape :
      (type : RealConditionType) (c : Column) (s : String)
      → AbsentOr (string_condition j dates type c s)
  string_shape type c s = elim (Bool-cases (eq_real_type type equal && str_eq s "NULL")) [
    | inl b ↦ rw b tt
    | inr b ↦ rw b (timestamp_shape type c (dates.from_iso_time_string s))
  ]

  value_shape :
      (type : RealConditionType) (c : Column) (v : j.Value) (o : Option Condition)
      → value_condition j dates type c v ≡ ok o
      → AbsentOr o
  value_shape type c v o h = elim (Bool-cases (j.is_string v)) [
    | inl b ↦
        let (s, e, f) = try_bind-ok (j.as_string v) _ (rw b at h) in
        subst AbsentOr (ok-injective f) (string_shape type c s)
    | inr b ↦
        let (n, e, f) = try_bind-ok (j.as_int64 v) _ (rw b at h) in
        subst AbsentOr (ok-injective f) tt
  ]

  filter_shape : (v : j.Value) (o : Option Condition) → parse_filter j dates v ≡ ok o → AbsentOr o
  unfolding parse_filter
  filter_shape v o h =
      let (key, e1, h1) = try_bind-ok (get_key j j.as_string v "key") _ h in
      let (column, e2, h2) = try_bind-ok (column_from_string key) _ h1 in
      let (text, e3, h3) = try_bind-ok (get_key j j.as_string v "type") _ h2 in
      let (type, e4, h4) = try_bind-ok (real_type_from_string text) _ h3 in
      let (value, e5, h5) = try_bind-ok (j.at v "value") _ h4 in value_shape type column value o h5

  all_shape : (vs : List j.Value) (cs : Conditions) → parse_all j dates vs ≡ ok cs → Comparisons cs
  unfolding parse_all
  all_shape [] cs h = subst Comparisons (ok-injective h) tt
  all_shape (v ∷ vs) cs h =
      let (o, e, h') = try_bind-ok (parse_filter j dates v) _ h in
      let (ds, f, h'') = try_bind-ok (parse_all j dates vs) _ h' in
      subst Comparisons (ok-injective h'') (added o ds (filter_shape v o e) (all_shape vs ds f))
    where
      added :
          (o : Option Condition) (ds : Conditions)
          → AbsentOr o
          → Comparisons ds
          → Comparisons (add_filter j dates o ds)
      added none ds h k = k
      added (some c) ds h k = (h, k)

  caught_shape :
      (r : Outcome Conditions) (c : Condition)
      → ((cs : Conditions) → r ≡ ok cs → Comparisons cs)
      → caught j dates r ≡ some c
      → (cs : Conditions) × (c ≡ group and cs) × Comparisons cs
  caught_shape (ok cs) c h e = (cs, cc, h cs refl)
  caught_shape (throws x) c h e = cc

  -- A condition that `ParseFilters` makes is one AND group, of comparisons with numbers and of
  -- IS NULL conditions only.
  pub parse_filters-Comparisons :
      (filters : j.Value) (c : Condition)
      → parse_filters j dates filters ≡ some c
      → (cs : Conditions) × (c ≡ group and cs) × Comparisons cs
  unfolding parse_filters
  parse_filters-Comparisons filters c e =
      caught_shape (parse_all j dates (j.elements filters)) c (all_shape (j.elements filters)) e

  parse_all_throws :
      (before : List j.Value) (v : j.Value) (after : List j.Value) (x : Exception)
      → parse_filter j dates v ≡ throws x
      → (y : Exception) × (parse_all j dates (before ++ v ∷ after) ≡ throws y)
  unfolding parse_all
  parse_all_throws [] v after x h = (x, rw h refl)
  parse_all_throws (u ∷ before) v after x h = elim (Outcome-cases (parse_filter j dates u)) [
    | inl (o, e) ↦ let (y, f) = parse_all_throws before v after x h in (y, rw (e, f) refl)
    | inr (y, e) ↦ (y, rw e refl)
  ]

  -- One filter that cannot be parsed makes `ParseFilters` answer the null pointer, whatever the other
  -- filters are.
  pub parse_filters-malformed :
      (filters : j.Value) (before : List j.Value) (v : j.Value) (after : List j.Value)
      (x : Exception)
      → j.elements filters ≡ before ++ v ∷ after
      → parse_filter j dates v ≡ throws x
      → parse_filters j dates filters ≡ none
  unfolding parse_filters
  parse_filters-malformed filters before v after x e h =
      let (y, f) = parse_all_throws before v after x h in
      ap (λ vs. caught j dates (parse_all j dates vs)) e ∙ ap (caught j dates) f

pub and_only-Comparisons : (cs : Conditions) → Comparisons cs → and_only (group and cs) ≡ true
unfolding and_only
and_only-Comparisons nil h = refl
and_only-Comparisons (cons (real t c (int n)) cs) (h, hs) = and_only-Comparisons cs hs
and_only-Comparisons (cons (is_null c) cs) (h, hs) = and_only-Comparisons cs hs
and_only-Comparisons (cons _ cs) (h, hs) = absurd h
