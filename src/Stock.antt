-- ===== src/Stock.antt =====
-- back/components/task_manager/source/tasks/include/tasks/common/warehouse_item.h: how many of each
-- product a warehouse holds, the table Warehouse_Item.
pub mod Items
pub mod Planning
pub mod Effects
pub mod Writing
pub mod Moving
use warehouse_accounting_sys.Base.{
  ℕ, Bool, true, false, not, ◌&&◌, ◌||◌, is_empty, if◌then◌else◌, Option, none, some, List, [], ◌∷◌,
  map, String,
}
use warehouse_accounting_sys.Base.Int.{ℤ, ◌+ℤ◌, ◌-ℤ◌, leb_ℤ}
use warehouse_accounting_sys.Exec.{
  Outcome, ok, throws, integrity_constraint_violation, Exec, pure, raise, lift, value, check_true,
  try_bind, ◌>>=◌, ◌>>◌,
}
use warehouse_accounting_sys.Query.Schema.{
  Column, Table, product_id, warehouse_id, count, warehouse_item,
}
use warehouse_accounting_sys.Query.Values.{Value, int, ValueCollector}
use warehouse_accounting_sys.Query.Condition.{
  Condition, group, and, real, equal, in_list, cons, nil,
}
use warehouse_accounting_sys.Query.Options.{
  SelectOptions, InsertOptions, UpdateOptions, DeleteOptions, OrderType,
}
use warehouse_accounting_sys.Query.Build.{
  Request, select_request, insert_request, update_request, delete_request,
}
use warehouse_accounting_sys.Database.{Database, Rows, Row, front, as_int, run_query}

-- product.h, `struct Product`
pub record Product : Type 0 where
  pub name : Option String
  pub pretty_name : Option String
  pub description : Option String
  pub main_color : Option ℤ
  pub main_color_name : Option String
  pub count : Option ℤ
  pub id : Option ℤ
  pub created_date : Option ℤ
  pub created_by : Option ℤ
  pub warehouse_id : Option ℤ

-- `product_id = p AND warehouse_id = w`
abbrev pub item_condition : ℤ → ℤ → Condition
item_condition w p = group and (
    cons (real equal Column.product_id (int p)) (cons (real equal Column.warehouse_id (int w)) nil))

-- SELECT count FROM Warehouse_Item WHERE …
abbrev pub count_request : ℤ → ℤ → Request
count_request w p = select_request (record {
  table = warehouse_item;
  columns = Column.count ∷ [];
  joins = [];
  condition = some (item_condition w p);
  order_by = none;
  order_type = OrderType.asc;
  limit = none;
  offset = none;
})

-- DELETE FROM Warehouse_Item WHERE product_id IN (…) AND warehouse_id = w
abbrev pub delete_items_request : ℤ → List ℤ → Request
delete_items_request w ids = delete_request (record {
  table = warehouse_item;
  condition = some (
      group and (
        cons (in_list Column.product_id (map int ids))
          (cons (real equal Column.warehouse_id (int w)) nil)));
})

-- INSERT INTO Warehouse_Item (warehouse_id, product_id, count) VALUES …
abbrev pub insert_items_request : ℤ → List (ℤ × ℤ) → Request
insert_items_request w rows =
    insert_request
      (record {
        table = warehouse_item;
        columns = Column.warehouse_id ∷ Column.product_id ∷ Column.count ∷ [];
        returning = [];
        values_count = 1;
      })
      (map (λ r. int w ∷ int r.0 ∷ int r.1 ∷ []) rows)

-- UPDATE Warehouse_Item SET count = target WHERE …
abbrev pub update_item_request : ℤ → ℤ → ℤ → Request
update_item_request w p target =
    update_request
      (record {
        table = warehouse_item;
        columns = Column.count ∷ [];
        condition = some (item_condition w p);
      })
      (int target ∷ [])

-- What the first loop of `ChangeCount` collects: `toDeleteIds` with `toCreateCounts`, which grow
-- together, and `toModifyIdsTarget`.
pub record Plan : Type 0 where
  pub critical : List (ℤ × ℤ)
  pub to_modify : List (ℤ × ℤ)

-- `result.at(0, 0).as<int64_t>()`
abbrev pub stored_count : Rows → Outcome ℤ
stored_count rows = try_bind (front rows) λ row. try_bind (front row) as_int

-- `predicate(product, result)`: whether the whole row goes away, or has to be created.
abbrev pub predicate : Bool → ℤ → Rows → Outcome Bool
predicate true c rows = try_bind (stored_count rows) λ have. ok (leb_ℤ have c)
predicate false c rows = ok (is_empty rows)

-- `calcTarget(product, result)`
abbrev pub calc_target : Bool → ℤ → Rows → Outcome ℤ
calc_target true c rows = try_bind (stored_count rows) λ have. ok (have -ℤ c)
calc_target false c rows = try_bind (stored_count rows) λ have. ok (have +ℤ c)

-- Where one product goes: `toDeleteIds.push_back` with `toCreateCounts.push_back`, or
-- `toModifyIdsTarget.emplace_back`.
pub data Change : Type 0 where
  goes_critical modifies : ℤ → ℤ → Change

abbrev pub decide_change : Bool → Bool → ℤ → ℤ → Rows → Outcome Change
decide_change is_reducing true p c rows = ok (goes_critical p c)
decide_change is_reducing false p c rows =
    try_bind (calc_target is_reducing c rows) λ target. ok (modifies p target)

abbrev pub add_change : Change → Plan → Plan
add_change (goes_critical p c) plan = record plan { critical = (p, c) ∷ plan.critical }
add_change (modifies p target) plan = record plan { to_modify = (p, target) ∷ plan.to_modify }

abbrev pub is_set {ℓ} : {A : Type ℓ} → Option A → Bool
is_set none = false
is_set (some a) = true

abbrev pub violation_if : Bool → Outcome (Unit {0})
violation_if true = throws integrity_constraint_violation
violation_if false = ok tt

module _ (d : Database) (is_reducing : Bool) (w : ℤ) where
  -- One round of the first loop.
  pub plan_product : Product → Exec d.State Change
  plan_product product = do
    lift (check_true (is_set product.id))
    lift (check_true (is_set product.count))
    p ← lift (value product.id)
    c ← lift (value product.count)
    rows ← run_query d (count_request w p)
    lift (violation_if (is_reducing && is_empty rows))
    goes ← lift (predicate is_reducing c rows)
    lift (decide_change is_reducing goes p c rows)

  pub plan_changes : List Product → Exec d.State Plan
  unfolding plan_product
  plan_changes [] = pure (record { critical = []; to_modify = [] })
  plan_changes (product ∷ products) = do
    change ← plan_product product
    rest ← plan_changes products
    pure (add_change change rest)

module _ (d : Database) (w : ℤ) where
  -- The loop that updates one row after the other.
  pub modify_items : List (ℤ × ℤ) → Exec d.State (Unit {0})
  modify_items [] = pure tt
  modify_items ((p, target) ∷ rest) = do
    run_query d (update_item_request w p target)
    modify_items rest

  -- Deleting or inserting the critical rows in one statement.
  pub change_critical : Bool → List (ℤ × ℤ) → Exec d.State (Unit {0})
  change_critical is_reducing [] = pure tt
  change_critical true (r ∷ rows) = do
    run_query d (delete_items_request w (map (λ q. q.0) (r ∷ rows)))
    pure tt
  change_critical false (r ∷ rows) = do run_query d (insert_items_request w (r ∷ rows)); pure tt

  -- `WarehouseItem::ChangeCount`, the function of the entry that it returns.
  pub change_count : Bool → List Product → Exec d.State (Unit {0})
  unfolding plan_changes change_critical modify_items
  change_count is_reducing [] = pure tt
  change_count is_reducing (product ∷ products) = do
    plan ← plan_changes d is_reducing w (product ∷ products)
    change_critical is_reducing plan.critical
    modify_items plan.to_modify
