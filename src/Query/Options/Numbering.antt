-- ===== src/Query/Options/Numbering.antt =====
-- The placeholders of each statement's text: numbered from the printer's count on, in order.
use mathlib.Core.List.{append-nil}
use warehouse_accounting_sys.Base.{
  ℕ, zero, suc, ◌+◌, ◌*◌, ◌≡◌, refl, ◌∙◌, Bool, true, false, Option, none, some, List, [], ◌∷◌,
  ◌++◌, length, any, Bool-cases, inl, inr, arith, map,
}
use warehouse_accounting_sys.Base.Int.{ℤ}
use warehouse_accounting_sys.Exec.{ok, check_true, lift}
use warehouse_accounting_sys.Query.Schema.{Column, Table, eq_column}
use warehouse_accounting_sys.Query.Text.{
  Text, slots_all, slots-joined, slots-append, IsPlain, IsPlain-append, Numbered, Numbered-append,
  Numbered-words, Numbered-end, Numbered-returned, NumberedAll, NumberedAll-cons,
  NumberedAll-returned, joined-Numbered, Numbered-from, Numbered-same_slots, bind-ok, joined,
  placeholder_vector, placeholder_vector-Numbered,
}
use warehouse_accounting_sys.Query.Condition.{Condition, to_string}
use warehouse_accounting_sys.Query.Condition.Placeholders.{to_string-Numbered}
use warehouse_accounting_sys.Query.Options.{
  Join, SelectOptions, InsertOptions, UpdateOptions, DeleteOptions, QueryOptions, select_options,
  insert_options, update_options, delete_options, serialize_parametrized, OrderType, select_head,
  join_text, join_texts, selected_column, where_text, order_text, number_text, check_table,
  serialize_select, serialize_insert, serialize_update, serialize_delete, column_text, row_texts,
  modification_texts, columns_text, returning_text, is_set, required_condition, not_empty,
  condition_params,
}

selected_column-IsPlain :
    (t : Table) (js : List Join) (c : Column) → IsPlain (selected_column t js c)
unfolding selected_column
selected_column-IsPlain t js c = elim (Bool-cases (any (λ j. eq_column j.left_column c) js)) [
  | inl e ↦ rw e
  | inr e ↦ rw e
]

slots_all-map_plain :
    {A : Type 0} (f : A → Text) (xs : List A)
    → ((x : A) → IsPlain (f x))
    → slots_all (map f xs) ≡ []
slots_all-map_plain f [] h = refl
slots_all-map_plain f (x ∷ xs) h = rw (h x) (slots_all-map_plain f xs h)

joined-map-IsPlain :
    {A : Type 0} (f : A → Text) (xs : List A)
    → ((x : A) → IsPlain (f x))
    → IsPlain (joined (map f xs))
joined-map-IsPlain f xs h = slots-joined (map f xs) ∙ slots_all-map_plain f xs h

select_head-IsPlain :
    (t : Table) (js : List Join) (cs : List Column) → IsPlain (select_head t js cs)
unfolding select_head
select_head-IsPlain t js [] = refl
select_head-IsPlain t js (c ∷ cs) =
    IsPlain-append (joined (map (selected_column t js) (c ∷ cs))) _
      (joined-map-IsPlain (selected_column t js) (c ∷ cs) (selected_column-IsPlain t js)) refl

join_texts-IsPlain : (t : Table) (js : List Join) → IsPlain (join_texts t js)
unfolding join_texts
join_texts-IsPlain t [] = refl
join_texts-IsPlain t (j ∷ js) =
    IsPlain-append (join_text t j) (join_texts t js) refl (join_texts-IsPlain t js)

order_text-IsPlain : (c : Option Column) (o : OrderType) → IsPlain (order_text c o)
unfolding order_text
order_text-IsPlain none o = refl
order_text-IsPlain (some c) o = refl

columns_text-IsPlain : (cs : List Column) → IsPlain (columns_text cs)
unfolding columns_text
columns_text-IsPlain [] = refl
columns_text-IsPlain (c ∷ cs) =
    IsPlain-append (joined (map column_text (c ∷ cs))) _
      (joined-map-IsPlain column_text (c ∷ cs) (λ x. refl)) refl

returning_text-IsPlain : (cs : List Column) → IsPlain (returning_text cs)
unfolding returning_text
returning_text-IsPlain [] = refl
returning_text-IsPlain (c ∷ cs) = joined-map-IsPlain column_text (c ∷ cs) (λ x. refl)

number_text-IsPlain : (keyword : _) (n : Option ℤ) → IsPlain (number_text keyword n)
number_text-IsPlain keyword none = refl
number_text-IsPlain keyword (some n) = refl

where_text-Numbered :
    (c : Option Condition) (n : ℕ) {t : Text} {n' : ℕ}
    → where_text c n ≡ (ok t, n')
    → Numbered t n n' (length (condition_params c))
unfolding where_text
where_text-Numbered none n h =
    Numbered-returned (record { in_order = refl; counted = omega arith }) h
where_text-Numbered (some c) n h =
    let (t, m, first, last) = bind-ok (to_string c) _ h in
    Numbered-returned (Numbered-words " WHERE " (to_string-Numbered c n first)) last

-- A check that passed left the count alone.
check_passed : (b : Bool) {n m : ℕ} {u : Unit {0}} → lift (check_true b) n ≡ (ok u, m) → n ≡ m
check_passed true h = cc
check_passed false h = cc

row_texts-Numbered :
    (columns rows n : ℕ) {ts : List Text} {n' : ℕ}
    → row_texts columns rows n ≡ (ok ts, n')
    → NumberedAll ts n n' (rows * columns)
unfolding row_texts
row_texts-Numbered columns zero n h =
    let none_left : zero * columns ≡ zero = omega arith in
    NumberedAll-returned (record { all_in_order = rw none_left; all_counted = omega arith }) h
row_texts-Numbered columns (suc rows) n h =
    let (ps, run, numbered) = placeholder_vector-Numbered columns n in
    let (us, m, first, rest) = bind-ok (placeholder_vector columns) _ h in
    let same : us ≡ ps = cc in
    let there : m ≡ n + columns = cc in
    let (vs, m', others, last) = bind-ok (row_texts columns rows) _ rest in
    let one_more : suc rows * columns ≡ columns + rows * columns = omega arith in
    rw one_more (
      NumberedAll-returned
        (NumberedAll-cons (Numbered-words "(" (Numbered-end ")" (rw (same, there) numbered)))
          (row_texts-Numbered columns rows m others))
        last)

modification_texts-Numbered :
    (cs : List Column) (n : ℕ) {ts : List Text} {n' : ℕ}
    → modification_texts cs n ≡ (ok ts, n')
    → NumberedAll ts n n' (length cs)
unfolding modification_texts
modification_texts-Numbered [] n h =
    NumberedAll-returned (record { all_in_order = refl; all_counted = omega arith }) h
modification_texts-Numbered (c ∷ cs) n h =
    let (vs, m', others, last) = bind-ok (modification_texts cs) _ h in
    let one_more : suc (length cs) ≡ 1 + length cs = omega arith in
    rw one_more (
      NumberedAll-returned
        (NumberedAll-cons (record { in_order = refl; counted = refl })
          (modification_texts-Numbered cs (n + 1) others))
        last)

required_condition-Numbered :
    (c : Option Condition) (n : ℕ) {t : Text} {n' : ℕ}
    → required_condition c n ≡ (ok t, n')
    → Numbered t n n' (length (condition_params c))
required_condition-Numbered none n h = cc
required_condition-Numbered (some c) n h = to_string-Numbered c n h

-- SELECT: one placeholder for each value that the condition collects.
pub serialize_select-Numbered :
    (o : SelectOptions) (n : ℕ) {t : Text} {n' : ℕ}
    → serialize_select o n ≡ (ok t, n')
    → Numbered t n n' (length (condition_params o.condition))
unfolding serialize_select
serialize_select-Numbered o n h =
    let (_, m, passed, rest) = bind-ok (check_table o.table) _ h in
    let same : n ≡ m = check_passed _ passed in
    let (c, m', printed, last) = bind-ok (where_text o.condition) _ rest in
    Numbered-returned
      (Numbered-same_slots c
        (simp (
          slots-append, select_head-IsPlain, join_texts-IsPlain, order_text-IsPlain,
          number_text-IsPlain, append-nil,
        ))
        (Numbered-from same (where_text-Numbered o.condition m printed)))
      last

-- INSERT: one for each column of each row.
pub serialize_insert-Numbered :
    (o : InsertOptions) (n : ℕ) {t : Text} {n' : ℕ}
    → serialize_insert o n ≡ (ok t, n')
    → Numbered t n n' (o.values_count * length o.columns)
unfolding serialize_insert
serialize_insert-Numbered o n h =
    let (_, m, passed, rest) = bind-ok (check_table o.table) _ h in
    let same : n ≡ m = check_passed _ passed in
    let (ts, m', printed, last) = bind-ok (row_texts (length o.columns) o.values_count) _ rest in
    Numbered-returned
      (Numbered-same_slots (joined ts)
        (simp (slots-append, columns_text-IsPlain, returning_text-IsPlain, append-nil))
        (Numbered-from same
          (joined-Numbered (row_texts-Numbered (length o.columns) o.values_count m printed))))
      last

-- UPDATE: one for each column, and then the condition's.
pub serialize_update-Numbered :
    (o : UpdateOptions) (n : ℕ) {t : Text} {n' : ℕ}
    → serialize_update o n ≡ (ok t, n')
    → Numbered t n n' (length o.columns + length (condition_params o.condition))
unfolding serialize_update
serialize_update-Numbered o n h =
    let (_, m, passed, rest) = bind-ok (check_table o.table) _ h in
    let (_, m', passed', rest') = bind-ok (lift (check_true (not_empty o.columns))) _ rest in
    let (_, m'', passed'', rest'') = bind-ok (lift (check_true (is_set o.condition))) _ rest' in
    let same : n ≡ m'' = check_passed _ passed ∙ check_passed _ passed' ∙ check_passed _ passed'' in
    let (ts, k, modified, others) = bind-ok (modification_texts o.columns) _ rest'' in
    let (c, k', printed, last) = bind-ok (required_condition o.condition) _ others in
    Numbered-returned
      (Numbered-same_slots (joined ts ++ c) (simp (slots-append, append-nil)) (
        Numbered-from same (
          Numbered-append (joined-Numbered (modification_texts-Numbered o.columns m'' modified))
            (required_condition-Numbered o.condition k printed))))
      last

-- DELETE: the condition's.
pub serialize_delete-Numbered :
    (o : DeleteOptions) (n : ℕ) {t : Text} {n' : ℕ}
    → serialize_delete o n ≡ (ok t, n')
    → Numbered t n n' (length (condition_params o.condition))
unfolding serialize_delete
serialize_delete-Numbered o n h =
    let (_, m, passed, rest) = bind-ok (check_table o.table) _ h in
    let (_, m', passed', rest') = bind-ok (lift (check_true (is_set o.condition))) _ rest in
    let same : n ≡ m' = check_passed _ passed ∙ check_passed _ passed' in
    let (c, k, printed, last) = bind-ok (required_condition o.condition) _ rest' in
    Numbered-returned
      (Numbered-same_slots c (simp (slots-append, append-nil))
        (Numbered-from same (required_condition-Numbered o.condition m' printed)))
      last

-- How many placeholders the text of the options has.
abbrev pub placeholder_count : QueryOptions → ℕ
placeholder_count (select_options o) = length (condition_params o.condition)
placeholder_count (insert_options o) = o.values_count * length o.columns
placeholder_count (update_options o) = length o.columns + length (condition_params o.condition)
placeholder_count (delete_options o) = length (condition_params o.condition)

-- A statement that is serialised from a count has the placeholders from there on, each once and in
-- order, as many as its options have values, and leaves the count behind them.
pub serialize_parametrized-Numbered :
    (o : QueryOptions) (n : ℕ) {t : Text} {n' : ℕ}
    → serialize_parametrized o n ≡ (ok t, n')
    → Numbered t n n' (placeholder_count o)
unfolding serialize_parametrized
serialize_parametrized-Numbered (select_options o) n h = serialize_select-Numbered o n h
serialize_parametrized-Numbered (insert_options o) n h = serialize_insert-Numbered o n h
serialize_parametrized-Numbered (update_options o) n h = serialize_update-Numbered o n h
serialize_parametrized-Numbered (delete_options o) n h = serialize_delete-Numbered o n h
