-- ===== src/Stock/Planning.antt =====
-- The first loop of `ChangeCount` on products that a request names by id and count.
use warehouse_accounting_sys.Base.{
  ◌≡◌, refl, true, false, if◌then◌else◌, Option, none, some, List, [], ◌∷◌, ◌++◌, map, Bool-cases,
  inl, inr,
}
use warehouse_accounting_sys.Base.Int.{ℤ, ◌+ℤ◌, ◌-ℤ◌, leb_ℤ}
use warehouse_accounting_sys.Exec.{ok, throws, integrity_constraint_violation}
use warehouse_accounting_sys.Stock.{
  Product, Plan, Change, goes_critical, modifies, add_change, plan_product, plan_changes,
}
use warehouse_accounting_sys.Stock.Items.{ItemTable}
use warehouse_accounting_sys.Database.{Database}

-- A product as the move and remove requests parse it: an id and a count.
unfoldable pub requested : ℤ × ℤ → Product
requested (p, c) = record {
  name = none;
  pretty_name = none;
  description = none;
  main_color = none;
  main_color_name = none;
  count = some c;
  id = some p;
  created_date = none;
  created_by = none;
  warehouse_id = none;
}

-- Every product asked for has a row.
abbrev pub AllStored : (ℤ → Option ℤ) → List (ℤ × ℤ) → Type 0
AllStored stored [] = Unit {0}
AllStored stored ((p, c) ∷ ds) = ((h : ℤ) × (stored p ≡ some h)) × AllStored stored ds

-- What a product's row decides, when counts are reduced and when they are increased.
abbrev pub reduce_change : Option ℤ → ℤ → ℤ → Change
reduce_change none p c = goes_critical p c
reduce_change (some have) p c = if leb_ℤ have c then goes_critical p c else modifies p (have -ℤ c)

abbrev pub expand_change : Option ℤ → ℤ → ℤ → Change
expand_change none p c = goes_critical p c
expand_change (some have) p c = modifies p (have +ℤ c)

abbrev pub plan_of : (Option ℤ → ℤ → ℤ → Change) → (ℤ → Option ℤ) → List (ℤ × ℤ) → Plan
plan_of f stored [] = record { critical = []; to_modify = [] }
plan_of f stored ((p, c) ∷ ds) = add_change (f (stored p) p c) (plan_of f stored ds)

module _ (d : Database) (t : ItemTable d) (w : ℤ) (s : d.State) where
  open t use {item, select_lem}

  reduce_product :
      (p c h : ℤ)
      → item s w p ≡ some h
      → plan_product d true w (requested (p, c)) s ≡ (ok (reduce_change (some h) p c), s)
  unfolding plan_product requested
  reduce_product p c h e =
      rw (select_lem s w p, e) (elim (Bool-cases (leb_ℤ h c)) [ inl b ↦ rw b | inr b ↦ rw b ])

  expand_product :
      (p c : ℤ) (o : Option ℤ)
      → item s w p ≡ o
      → plan_product d false w (requested (p, c)) s ≡ (ok (expand_change o p c), s)
  unfolding plan_product requested
  expand_product p c none e = rw (select_lem s w p, e)
  expand_product p c (some h) e = rw (select_lem s w p, e)

  missing_product :
      (p c : ℤ)
      → item s w p ≡ none
      → plan_product d true w (requested (p, c)) s ≡ (throws integrity_constraint_violation, s)
  unfolding plan_product requested
  missing_product p c e = rw (select_lem s w p, e)

  -- Reducing plans from the counts that are stored, and writes nothing.
  pub reduce_plan :
      (ds : List (ℤ × ℤ))
      → AllStored (item s w) ds
      → plan_changes d true w (map requested ds) s ≡ (ok (plan_of reduce_change (item s w) ds), s)
  unfolding plan_changes
  reduce_plan [] h = refl
  reduce_plan ((p, c) ∷ ds) ((have, e), h) = rw (reduce_product p c have e, reduce_plan ds h, e)

  pub expand_plan :
      (ds : List (ℤ × ℤ))
      → plan_changes d false w (map requested ds) s ≡ (ok (plan_of expand_change (item s w) ds), s)
  unfolding plan_changes
  expand_plan [] = refl
  expand_plan ((p, c) ∷ ds) = rw (expand_product p c (item s w p) refl, expand_plan ds)

  -- Behind products that are stored, one that is not stops the plan with nothing written.
  pub reduce_plan_missing :
      (ds : List (ℤ × ℤ)) (p c : ℤ) (rest : List (ℤ × ℤ))
      → AllStored (item s w) ds
      → item s w p ≡ none
      → plan_changes d true w (map requested (ds ++ (p, c) ∷ rest)) s
        ≡ (throws integrity_constraint_violation, s)
  unfolding plan_changes
  reduce_plan_missing [] p c rest h e = rw (missing_product p c e)
  reduce_plan_missing ((q, k) ∷ ds) p c rest ((have, f), h) e =
      rw (reduce_product q k have f, reduce_plan_missing ds p c rest h e)
