-- ===== src/Query/Options/Equality/SameStatement.antt =====
-- Options that `Equals` takes for equal against the SQL text that they are serialised to: the query
-- manager prepares one statement for all of them.
use warehouse_accounting_sys.Base.{
  ◌≡◌, refl, Bool, true, Option, none, some, List, [], ◌∷◌, ◌++◌, length, ℕ, eq_of-==, and_left,
  and_right,
}
use warehouse_accounting_sys.Base.Int.{ℤ}
use warehouse_accounting_sys.Exec.{pure, lift, check_true, ◌>>=◌, ◌>>◌}
use warehouse_accounting_sys.Query.Schema.{Column, Table, Table-discrete, yes_of}
use warehouse_accounting_sys.Query.Text.{Printer, words, joined}
use warehouse_accounting_sys.Query.Condition.{Condition}
use warehouse_accounting_sys.Query.Condition.SameText.{and_only, equals-same_text}
use warehouse_accounting_sys.Query.Options.{
  Join, OrderType, SelectOptions, InsertOptions, UpdateOptions, DeleteOptions, QueryOptions,
  select_options, insert_options, update_options, delete_options, select_head, join_texts,
  where_text, order_text, number_text, check_table, serialize_select, serialize_insert,
  serialize_update, serialize_delete, serialize_parametrized, required_condition, is_set, not_empty,
  public_table, row_texts, columns_text, returning_text, modification_texts,
}
use warehouse_accounting_sys.Query.Options.Equality.{
  Columns-discrete, Joins-discrete, OptionColumn-discrete, OptionInt-discrete, equals_condition,
  equals_select, equals_insert, equals_update, equals_delete, equals_options,
}

abbrev pub condition_and_only : Option Condition → Bool
condition_and_only none = true
condition_and_only (some c) = and_only c

-- The groups of the options' condition are AND groups.
abbrev pub options_and_only : QueryOptions → Bool
options_and_only (select_options o) = condition_and_only o.condition
options_and_only (insert_options o) = true
options_and_only (update_options o) = condition_and_only o.condition
options_and_only (delete_options o) = condition_and_only o.condition

-- The order type, of the options that have one.
abbrev pub order_of : QueryOptions → OrderType
order_of (select_options o) = o.order_type
order_of (insert_options o) = OrderType.asc
order_of (update_options o) = OrderType.asc
order_of (delete_options o) = OrderType.asc

where_same :
    (c d : Option Condition)
    → equals_condition c d ≡ true
    → condition_and_only c ≡ true
    → condition_and_only d ≡ true
    → where_text c ≡ where_text d
unfolding where_text
where_same none none e a b = refl
where_same (some c) (some d) e a b = rw (equals-same_text c d e a b)
where_same none (some d) e a b = cc
where_same (some c) none e a b = cc

required_same :
    (c d : Option Condition)
    → equals_condition c d ≡ true
    → condition_and_only c ≡ true
    → condition_and_only d ≡ true
    → (required_condition c ≡ required_condition d) × (is_set c ≡ is_set d)
required_same none none e a b = (refl, refl)
required_same (some c) (some d) e a b = (equals-same_text c d e a b, refl)
required_same none (some d) e a b = cc
required_same (some c) none e a b = cc

-- The printers over the parts of the options.
abbrev select_printer :
    Table
    → List Column
    → List Join
    → Printer
    → Option Column
    → OrderType
    → Option ℤ
    → Option ℤ
    → Printer
select_printer table columns joins where_part order_by order_type limit offset = do
  check_table table
  condition ← where_part
  pure (
      select_head table joins columns
      ++ join_texts table joins
      ++ condition
      ++ order_text order_by order_type
      ++ number_text " LIMIT " limit
      ++ number_text " OFFSET " offset
      ++ words ";" ∷ [])

abbrev update_printer : Table → List Column → Bool → Printer → Printer
update_printer table columns set condition_part = do
  check_table table
  lift (check_true (not_empty columns))
  lift (check_true set)
  modifications ← modification_texts columns
  condition ← condition_part
  pure (
      words "UPDATE " ∷ public_table table
      ++ words " SET " ∷ joined modifications
      ++ words " WHERE " ∷ condition
      ++ words ";" ∷ [])

abbrev delete_printer : Table → Bool → Printer → Printer
delete_printer table set condition_part = do
  check_table table
  lift (check_true set)
  condition ← condition_part
  pure (words "DELETE FROM " ∷ public_table table ++ words " WHERE " ∷ condition ++ words ";" ∷ [])

select_congruence :
    {t t' : Table} {cs cs' : List Column} {js js' : List Join} {w w' : Printer}
    {b b' : Option Column} {o o' : OrderType} {l l' f f' : Option ℤ}
    → t ≡ t'
    → cs ≡ cs'
    → js ≡ js'
    → w ≡ w'
    → b ≡ b'
    → o ≡ o'
    → l ≡ l'
    → f ≡ f'
    → select_printer t cs js w b o l f ≡ select_printer t' cs' js' w' b' o' l' f'
select_congruence p q r s u v x y =
    λ i. select_printer (p i) (q i) (r i) (s i) (u i) (v i) (x i) (y i)

select_same :
    (a b : SelectOptions)
    → equals_select a b ≡ true
    → a.order_type ≡ b.order_type
    → condition_and_only a.condition ≡ true
    → condition_and_only b.condition ≡ true
    → serialize_select a ≡ serialize_select b
unfolding serialize_select equals_select
select_same a b e o x y =
    let condition = and_right _ _ e in
    let offset = and_left _ _ e in
    let limit = and_left _ _ offset in
    let order = and_left _ _ limit in
    let joins = and_left _ _ order in
    let columns = and_left _ _ joins in
    select_congruence (yes_of (Table-discrete a.table b.table) (and_left _ _ columns))
      (yes_of (Columns-discrete a.columns b.columns) (and_right _ _ columns))
      (yes_of (Joins-discrete a.joins b.joins) (and_right _ _ joins))
      (where_same a.condition b.condition condition x y)
      (yes_of (OptionColumn-discrete a.order_by b.order_by) (and_right _ _ order)) o
      (yes_of (OptionInt-discrete a.limit b.limit) (and_right _ _ limit))
      (yes_of (OptionInt-discrete a.offset b.offset) (and_right _ _ offset))

abbrev insert_printer : Table → List Column → ℕ → List Column → Printer
insert_printer table columns count returning = do
  check_table table
  rows ← row_texts (length columns) count
  pure (
      words "INSERT INTO " ∷ public_table table
      ++ words " " ∷ columns_text columns
      ++ words "VALUES " ∷ joined rows
      ++ returning_text returning
      ++ words ";" ∷ [])

insert_same :
    (a b : InsertOptions) → equals_insert a b ≡ true → serialize_insert a ≡ serialize_insert b
unfolding serialize_insert equals_insert
insert_same a b e =
    let counted = and_left _ _ e in
    let columns = and_left _ _ counted in
    let p = yes_of (Table-discrete a.table b.table) (and_left _ _ columns) in
    let q = yes_of (Columns-discrete a.columns b.columns) (and_right _ _ columns) in
    let r = eq_of-== a.values_count b.values_count (and_right _ _ counted) in
    let s = yes_of (Columns-discrete a.returning b.returning) (and_right _ _ e) in
    λ i. insert_printer (p i) (q i) (r i) (s i)

update_same :
    (a b : UpdateOptions)
    → equals_update a b ≡ true
    → condition_and_only a.condition ≡ true
    → condition_and_only b.condition ≡ true
    → serialize_update a ≡ serialize_update b
unfolding serialize_update equals_update
update_same a b e x y =
    let columns = and_left _ _ e in
    let p = yes_of (Table-discrete a.table b.table) (and_left _ _ columns) in
    let q = yes_of (Columns-discrete a.columns b.columns) (and_right _ _ columns) in
    let (r, s) = required_same a.condition b.condition (and_right _ _ e) x y in
    λ i. update_printer (p i) (q i) (s i) (r i)

delete_same :
    (a b : DeleteOptions)
    → equals_delete a b ≡ true
    → condition_and_only a.condition ≡ true
    → condition_and_only b.condition ≡ true
    → serialize_delete a ≡ serialize_delete b
unfolding serialize_delete equals_delete
delete_same a b e x y =
    let p = yes_of (Table-discrete a.table b.table) (and_left _ _ e) in
    let (r, s) = required_same a.condition b.condition (and_right _ _ e) x y in
    λ i. delete_printer (p i) (s i) (r i)

-- Options that `Equals` takes for equal are serialised to the same SQL text, or fail the same check,
-- if their groups are AND groups and their order types agree; the values that they compare with, and
-- how many placeholders were used before, do not matter.
pub equals-same_statement :
    (a b : QueryOptions)
    → equals_options a b ≡ true
    → options_and_only a ≡ true
    → options_and_only b ≡ true
    → order_of a ≡ order_of b
    → serialize_parametrized a ≡ serialize_parametrized b
unfolding equals_options serialize_parametrized
equals-same_statement (select_options a) (select_options b) e x y o = select_same a b e o x y
equals-same_statement (insert_options a) (insert_options b) e x y o = insert_same a b e
equals-same_statement (update_options a) (update_options b) e x y o = update_same a b e x y
equals-same_statement (delete_options a) (delete_options b) e x y o = delete_same a b e x y
equals-same_statement a b e x y o = cc
