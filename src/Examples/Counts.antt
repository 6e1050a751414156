-- ===== src/Examples/Counts.antt =====
-- Reductions, increases and moves of a small stock.
use warehouse_accounting_sys.Base.{
  ◌≡◌, refl, sym, ap, ◌∙◌, none, some, List, [], ◌∷◌, map, if◌then◌else◌, true, false, arith,
}
use warehouse_accounting_sys.Base.Int.{ℤ, pos, ◌==ℤ◌, ◌-ℤ◌, ◌+ℤ◌, ◌<ℤ◌}
use warehouse_accounting_sys.Exec.{Outcome, ok}
use warehouse_accounting_sys.Stock.{change_count}
use warehouse_accounting_sys.Stock.Planning.{requested, AllStored}
use warehouse_accounting_sys.Stock.Effects.{reduced, increased, changed_by}
use warehouse_accounting_sys.Stock.Writing.{
  AllFit, Becomes, change_count_reduces, change_count_increases,
}
use warehouse_accounting_sys.Stock.Moving.{
  move_stock, total, move_stock_lem, move_stock-total, move_stock-creates,
}
use warehouse_accounting_sys.Examples.Store.{Counts, store, item_table}

-- Warehouse 1 holds 5 of product 7 and 3 of product 8, warehouse 2 one of product 7.
abbrev pub stock : Counts
stock w p =
    if w ==ℤ pos 1
    then (if p ==ℤ pos 7 then some (pos 5) else if p ==ℤ pos 8 then some (pos 3) else none)
    else if w ==ℤ pos 2
    then (if p ==ℤ pos 7 then some (pos 1) else none)
    else none

abbrev pub asked : List (ℤ × ℤ)
asked = (pos 7, pos 2) ∷ (pos 8, pos 3) ∷ []

abbrev too_much : List (ℤ × ℤ)
too_much = (pos 7, pos 9) ∷ []

pub asked-AllStored : AllStored (stock (pos 1)) asked
asked-AllStored = ((pos 5, refl), ((pos 3, refl), tt))

pub asked-reduced : AllFit reduced (stock (pos 1)) asked
unfolding ◌-ℤ◌
asked-reduced = ((omega arith, omega arith), (tt, tt))

pub asked-increased : AllFit increased (stock (pos 2)) asked
unfolding ◌+ℤ◌
asked-increased = ((omega arith, omega arith), ((omega arith, omega arith), tt))

too_much-increased : AllFit increased (stock (pos 2)) too_much
unfolding ◌+ℤ◌
too_much-increased = ((omega arith, omega arith), tt)

change_count_reduces_example :
    (t : Counts) × (change_count store (pos 1) true (map requested asked) stock ≡ (ok tt, t))
    × Becomes store item_table (pos 1) stock t (changed_by reduced asked)
unfolding item_table
change_count_reduces_example =
    change_count_reduces store item_table (pos 1) asked stock asked-AllStored (refl, (refl, tt))
      asked-reduced

change_count_increases_example :
    (t : Counts) × (change_count store (pos 2) false (map requested asked) stock ≡ (ok tt, t))
    × Becomes store item_table (pos 2) stock t (changed_by increased asked)
unfolding item_table
change_count_increases_example =
    change_count_increases store item_table (pos 2) asked stock (refl, (refl, tt))
      (refl, (refl, tt)) asked-increased

-- A run that succeeds, with the state that it leaves.
ran : {T : Type 0} (m : Outcome (Unit {0}) × T) (t : T) → m ≡ (ok tt, t) → m ≡ (ok tt, m.1)
ran m t h = h ∙ ap (λ x. (ok tt, x)) (sym (ap (λ x. x.1) h))

abbrev after : List (ℤ × ℤ) → Counts
after ds = (move_stock store (pos 1) (pos 2) (map requested ds) stock).1

asked-moves : move_stock store (pos 1) (pos 2) (map requested asked) stock ≡ (ok tt, after asked)
unfolding item_table
asked-moves =
    let (t, run, items) =
      move_stock_lem store item_table (pos 1) (pos 2) refl asked stock asked-AllStored
        (refl, (refl, tt)) asked-reduced (refl, (refl, tt)) asked-increased in
    ran (move_stock store (pos 1) (pos 2) (map requested asked) stock) t run

too_much-moves :
    move_stock store (pos 1) (pos 2) (map requested too_much) stock ≡ (ok tt, after too_much)
unfolding item_table
too_much-moves =
    let (t, run, items) =
      move_stock_lem store item_table (pos 1) (pos 2) refl too_much stock ((pos 5, refl), tt)
        (refl, tt) (tt, tt) (refl, tt) too_much-increased in
    ran (move_stock store (pos 1) (pos 2) (map requested too_much) stock) t run

move_stock-total_example :
    total store item_table (pos 1) (pos 2) refl (after asked) (pos 7)
    ≡ total store item_table (pos 1) (pos 2) refl stock (pos 7)
unfolding item_table
move_stock-total_example =
    move_stock-total store item_table (pos 1) (pos 2) refl asked stock (after asked) (pos 7) (pos 2)
      (pos 5) asked-AllStored (refl, (refl, tt)) asked-reduced (refl, (refl, tt)) asked-increased
      asked-moves refl refl (omega arith)

move_stock-creates_example :
    total store item_table (pos 1) (pos 2) refl stock (pos 7)
    <ℤ total store item_table (pos 1) (pos 2) refl (after too_much) (pos 7)
unfolding item_table
move_stock-creates_example =
    move_stock-creates store item_table (pos 1) (pos 2) refl too_much stock (after too_much) (pos 7)
      (pos 9) (pos 5) ((pos 5, refl), tt) (refl, tt) (tt, tt) (refl, tt) too_much-increased
      too_much-moves refl refl (omega arith)
