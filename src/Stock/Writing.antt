-- ===== src/Stock/Writing.antt =====
-- The second half of `ChangeCount` of warehouse_item.h, and the whole of it.
use warehouse_accounting_sys.Base.{
  ◌≡◌, refl, sym, ◌∙◌, Bool, true, false, ◌&&◌, if◌then◌else◌, Option, none, some, List, [], ◌∷◌,
  ◌++◌, map, All, Bool-cases, inl, inr,
}
use warehouse_accounting_sys.Base.Int.{ℤ, leb_ℤ, ◌==ℤ◌, eq_of-==ℤ}
use warehouse_accounting_sys.Exec.{ok, throws, integrity_constraint_violation}
use warehouse_accounting_sys.Stock.{Plan, add_change, modify_items, change_critical, change_count}
use warehouse_accounting_sys.Stock.Items.{
  InInt4, ItemTable, AllNew, AllKnown, member, find_row, or_else, replaced,
}
use warehouse_accounting_sys.Stock.Planning.{
  requested, AllStored, reduce_change, expand_change, plan_of, reduce_plan, expand_plan,
  reduce_plan_missing,
}
use warehouse_accounting_sys.Stock.Effects.{
  ids, untouched, expand_change-KeepsId, after_updates, Distinct, reduced, increased, changed_by,
  effect_of_reducing, effect_of_increasing, reduce_plan_effect, expand_plan_effect,
}
use warehouse_accounting_sys.Database.{Database}

abbrev pub FitsInt4 : Option ℤ → Type 0
FitsInt4 none = Unit {0}
FitsInt4 (some c) = InInt4 c

-- Every count that a request leads to is one that the column can hold.
abbrev pub AllFit : (ℤ → Option ℤ → Option ℤ) → (ℤ → Option ℤ) → List (ℤ × ℤ) → Type 0
AllFit change stored [] = Unit {0}
AllFit change stored ((p, c) ∷ ds) = FitsInt4 (change c (stored p)) × AllFit change stored ds

abbrev Writable : List (ℤ × ℤ) → Type 0
Writable ms = All (λ m. InInt4 m.1) ms

reduce_plan-Writable :
    (stored : ℤ → Option ℤ) (ds : List (ℤ × ℤ))
    → AllStored stored ds
    → AllFit reduced stored ds
    → Writable (plan_of reduce_change stored ds).to_modify
reduce_plan-Writable stored [] h f = tt
reduce_plan-Writable stored ((p, c) ∷ ds) ((have, e), h) (f, g) =
    let rest = reduce_plan-Writable stored ds h g in
    elim (Bool-cases (leb_ℤ have c)) [
      | inl b ↦ rw (e, b) rest
      | inr b ↦ rw (e, b) ((rw (e, b) at f), rest)
    ]

expand_step-Writable :
    (o : Option ℤ) (r : Plan) (p c : ℤ)
    → FitsInt4 (increased c o)
    → Writable r.to_modify
    → Writable (add_change (expand_change o p c) r).to_modify
expand_step-Writable none r p c f h = h
expand_step-Writable (some have) r p c f h = (f, h)

expand_plan-Writable :
    (stored : ℤ → Option ℤ) (ds : List (ℤ × ℤ))
    → AllFit increased stored ds
    → Writable (plan_of expand_change stored ds).to_modify
expand_plan-Writable stored [] f = tt
expand_plan-Writable stored ((p, c) ∷ ds) (f, g) =
    expand_step-Writable (stored p) (plan_of expand_change stored ds) p c f
      (expand_plan-Writable stored ds g)

critical_fresh :
    (stored : ℤ → Option ℤ) (ds : List (ℤ × ℤ)) (p : ℤ)
    → find_row p ds ≡ none
    → find_row p (plan_of expand_change stored ds).critical ≡ none
critical_fresh stored ds p h =
    let (m, n, u) = untouched expand_change expand_change-KeepsId stored ds p h in n

expand_step-AllNew :
    (stored : ℤ → Option ℤ) (r : Plan) (p c : ℤ) (o : Option ℤ)
    → stored p ≡ o
    → find_row p r.critical ≡ none
    → FitsInt4 (increased c o)
    → AllNew stored r.critical
    → AllNew stored (add_change (expand_change o p c) r).critical
expand_step-AllNew stored r p c none e n f h = (e, n, f, h)
expand_step-AllNew stored r p c (some have) e n f h = h

expand_plan-AllNew :
    (stored : ℤ → Option ℤ) (ds : List (ℤ × ℤ))
    → Distinct ds
    → AllFit increased stored ds
    → AllNew stored (plan_of expand_change stored ds).critical
expand_plan-AllNew stored [] u f = tt
expand_plan-AllNew stored ((p, c) ∷ ds) (new, u) (f, g) =
    expand_step-AllNew stored (plan_of expand_change stored ds) p c (stored p) refl
      (critical_fresh stored ds p new) f (expand_plan-AllNew stored ds u g)

expand_step-AllKnown :
    (known : ℤ → Bool) (r : Plan) (p c : ℤ) (o : Option ℤ)
    → known p ≡ true
    → AllKnown known r.critical
    → AllKnown known (add_change (expand_change o p c) r).critical
expand_step-AllKnown known r p c none k h = (k, h)
expand_step-AllKnown known r p c (some have) k h = h

expand_plan-AllKnown :
    (known : ℤ → Bool) (stored : ℤ → Option ℤ) (ds : List (ℤ × ℤ))
    → AllKnown known ds
    → AllKnown known (plan_of expand_change stored ds).critical
expand_plan-AllKnown known stored [] k = tt
expand_plan-AllKnown known stored ((p, c) ∷ ds) (k, ks) =
    expand_step-AllKnown known (plan_of expand_change stored ds) p c (stored p) k
      (expand_plan-AllKnown known stored ds ks)

module _ (d : Database) (table : ItemTable d) (w : ℤ) where
  open table use {item, known, delete_lem, insert_lem, update_lem}

  -- The counts after a statement, by a change in warehouse `w` alone.
  abbrev pub Becomes : d.State → d.State → (ℤ → Option ℤ → Option ℤ) → Type 0
  Becomes s t change =
      (v p : ℤ) → item t v p ≡ (if w ==ℤ v then change p (item s v p) else item s v p)

  -- The warehouses and products that are there stay the same.
  abbrev pub Keeps : d.State → d.State → Type 0
  Keeps s t = (v p : ℤ) → known t v p ≡ known s v p

  update_step :
      (here same : Bool) (target : ℤ) (v : Option ℤ)
      → (if here && same then replaced target v else v)
        ≡ (if here then (if same then replaced target v else v) else v)
  update_step true same target v = refl
  update_step false same target v = refl

  modify_effect :
      (ms : List (ℤ × ℤ)) (s : d.State)
      → Writable ms
      → (t : d.State) × (modify_items d w ms s ≡ (ok tt, t))
        × Becomes s t (after_updates ms)
        × Keeps s t
  unfolding modify_items
  modify_effect [] s h =
      (s, refl, λ v p. elim (Bool-cases (w ==ℤ v)) [ inl b ↦ rw b | inr b ↦ rw b ], λ v p. refl)
  modify_effect ((q, target) ∷ ms) s (fit, h) =
      let (rows, t, run, step, same) = update_lem s w q target fit in
      let (u, run', steps, same') = modify_effect ms t h in
      (
        u,
        rw (run, run'),
        λ v p. steps v p ∙ elim (Bool-cases (w ==ℤ v)) [
          | inl b ↦ rw (b, step v p, b)
          | inr b ↦ rw (b, step v p, b)
        ],
        λ v p. same' v p ∙ same v p,
      )

  delete_effect :
      (rows : List (ℤ × ℤ)) (s : d.State)
      → (t : d.State) × (change_critical d w true rows s ≡ (ok tt, t))
        × Becomes s t (λ p v. if member p (ids rows) then none else v)
        × Keeps s t
  unfolding change_critical
  delete_effect [] s =
      (s, refl, λ v p. elim (Bool-cases (w ==ℤ v)) [ inl b ↦ rw b | inr b ↦ rw b ], λ v p. refl)
  delete_effect (r ∷ rows) s =
      let (result, t, run, step, same) = delete_lem s w r.0 (ids rows) in
      (
        t,
        rw run,
        λ v p. step v p ∙ elim (Bool-cases (w ==ℤ v)) [ inl b ↦ rw b | inr b ↦ rw b ],
        same,
      )

  insert_effect :
      (rows : List (ℤ × ℤ)) (s : d.State)
      → AllNew (item s w) rows
      → AllKnown (known s w) rows
      → (t : d.State) × (change_critical d w false rows s ≡ (ok tt, t))
        × Becomes s t (λ p v. or_else (find_row p rows) v)
  unfolding change_critical
  insert_effect [] s h k =
      (s, refl, λ v p. elim (Bool-cases (w ==ℤ v)) [ inl b ↦ rw b | inr b ↦ rw b ])
  insert_effect (r ∷ rows) s h k =
      let (result, t, run, step, same) = insert_lem s w r rows h k in (t, rw run, λ v p. step v p)

  Becomes-then :
      (s t u : d.State) (f g : ℤ → Option ℤ → Option ℤ)
      → Becomes s t f
      → Becomes t u g
      → Becomes s u (λ p v. g p (f p v))
  Becomes-then s t u f g h k v p =
      k v p ∙ elim (Bool-cases (w ==ℤ v)) [ inl b ↦ rw (b, h v p, b) | inr b ↦ rw (b, h v p, b) ]

  Becomes-agree :
      (s t : d.State) (f g : ℤ → Option ℤ → Option ℤ)
      → ((p : ℤ) → f p (item s w p) ≡ g p (item s w p))
      → Becomes s t f
      → Becomes s t g
  Becomes-agree s t f g e h v p =
      h v p
      ∙ elim (Bool-cases (w ==ℤ v)) [ inl b ↦ rw (b, sym (eq_of-==ℤ w v b)) (e p) | inr b ↦ rw b ]

module _ (d : Database) (table : ItemTable d) (w : ℤ) where
  open table use {item, known}

  pub change_count_reduces-Keeps :
      (ds : List (ℤ × ℤ)) (s : d.State)
      → AllStored (item s w) ds
      → Distinct ds
      → AllFit reduced (item s w) ds
      → (t : d.State) × (change_count d w true (map requested ds) s ≡ (ok tt, t))
        × Becomes d table w s t (changed_by reduced ds)
        × Keeps d table w s t
  unfolding change_count
  change_count_reduces-Keeps [] s h u f =
      (s, refl, λ v p. elim (Bool-cases (w ==ℤ v)) [ inl b ↦ rw b | inr b ↦ rw b ], λ v p. refl)
  change_count_reduces-Keeps ((q, c) ∷ ds) s h u f =
      let all = (q, c) ∷ ds in
      let plan = plan_of reduce_change (item s w) all in
      let (t, run, step, same) = delete_effect d table w plan.critical s in
      let (z, run', steps, same') =
        modify_effect d table w plan.to_modify t (reduce_plan-Writable (item s w) all h f) in
      (
        z,
        rw (reduce_plan d table w s all h, run) run',
        Becomes-agree d table w s z (effect_of_reducing plan) (changed_by reduced all)
            (λ p. reduce_plan_effect (item s w) all p h u)
            (Becomes-then d table w s t z (λ x v. if member x (ids plan.critical) then none else v)
              (after_updates plan.to_modify) step steps),
        λ v p. same' v p ∙ same v p,
      )

  -- When every product asked for is stored in the warehouse, none is asked for twice and the counts
  -- left fit the column, reducing succeeds: each product loses the count asked for, or its whole
  -- row when that is all of it or more, and no other count of any warehouse changes.
  pub change_count_reduces :
      (ds : List (ℤ × ℤ)) (s : d.State)
      → AllStored (item s w) ds
      → Distinct ds
      → AllFit reduced (item s w) ds
      → (t : d.State) × (change_count d w true (map requested ds) s ≡ (ok tt, t))
        × Becomes d table w s t (changed_by reduced ds)
  change_count_reduces ds s h u f =
      let (t, run, step, same) = change_count_reduces-Keeps ds s h u f in (t, run, step)

  -- When the warehouse and the products are there, none is asked for twice and the resulting counts fit
  -- the column, increasing succeeds: each product gains the count asked for, in a new row if it had
  -- none, and nothing else changes.
  pub change_count_increases :
      (ds : List (ℤ × ℤ)) (s : d.State)
      → AllKnown (known s w) ds
      → Distinct ds
      → AllFit increased (item s w) ds
      → (t : d.State) × (change_count d w false (map requested ds) s ≡ (ok tt, t))
        × Becomes d table w s t (changed_by increased ds)
  unfolding change_count
  change_count_increases [] s k u f =
      (s, refl, λ v p. elim (Bool-cases (w ==ℤ v)) [ inl b ↦ rw b | inr b ↦ rw b ])
  change_count_increases ((q, c) ∷ ds) s k u f =
      let all = (q, c) ∷ ds in
      let plan = plan_of expand_change (item s w) all in
      let (t, run, step) =
        insert_effect d table w plan.critical s (expand_plan-AllNew (item s w) all u f)
          (expand_plan-AllKnown (known s w) (item s w) all k) in
      let (z, run', steps, same) =
        modify_effect d table w plan.to_modify t (expand_plan-Writable (item s w) all f) in
      (
        z,
        rw (expand_plan d table w s all, run) run',
        Becomes-agree d table w s z (effect_of_increasing plan) (changed_by increased all)
            (λ p. expand_plan_effect (item s w) all p u)
            (Becomes-then d table w s t z (λ x v. or_else (find_row x plan.critical) v)
              (after_updates plan.to_modify) step steps),
      )

  -- A product that the warehouse does not hold, behind products that it does, stops the reduction
  -- with an integrity violation before anything is written.
  pub change_count_missing :
      (ds : List (ℤ × ℤ)) (p c : ℤ) (rest : List (ℤ × ℤ)) (s : d.State)
      → AllStored (item s w) ds
      → item s w p ≡ none
      → change_count d w true (map requested (ds ++ (p, c) ∷ rest)) s
        ≡ (throws integrity_constraint_violation, s)
  unfolding change_count
  change_count_missing [] p c rest s h e = rw (reduce_plan_missing d table w s [] p c rest tt e)
  change_count_missing ((q, k) ∷ ds) p c rest s h e =
      rw (reduce_plan_missing d table w s ((q, k) ∷ ds) p c rest h e)
