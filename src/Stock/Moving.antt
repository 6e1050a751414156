-- ===== src/Stock/Moving.antt =====
-- back/components/task_manager/source/tasks/protocol/products_move/products_move.cpp: the two entries
-- of a move that change what the warehouses hold.
use warehouse_accounting_sys.Base.{
  ◌≡◌, refl, sym, ap, ◌∙◌, Bool, true, false, if◌then◌else◌, Option, none, some, List, [], ◌∷◌, map,
  Bool-cases, inl, inr, arith,
}
use warehouse_accounting_sys.Base.Int.{
  ℤ, pos, ◌+ℤ◌, ◌-ℤ◌, ◌≤ℤ◌, ◌<ℤ◌, leb_ℤ, ◌==ℤ◌, ==ℤ-sym, ==ℤ-refl, eq_of-==ℤ, leb_ℤ-true,
  leb_ℤ-false, int_laws,
}
use warehouse_accounting_sys.Exec.{Exec, ok, ◌>>◌}
use warehouse_accounting_sys.Stock.{Product, change_count}
use warehouse_accounting_sys.Stock.Items.{ItemTable, AllKnown, find_row}
use warehouse_accounting_sys.Stock.Planning.{requested, AllStored}
use warehouse_accounting_sys.Stock.Effects.{Distinct, reduced, increased, changed_by}
use warehouse_accounting_sys.Stock.Writing.{
  AllFit, change_count_reduces-Keeps, change_count_increases,
}
use warehouse_accounting_sys.Database.{Database}

-- The entries `warehouseItemFromEntry` and `warehouseItemToEntry`, one after the other.
unfoldable pub move_stock : (d : Database) → ℤ → ℤ → List Product → Exec d.State (Unit {0})
move_stock d from to products =
    change_count d from true products >> change_count d to false products

-- The count of a row, or 0 without one.
abbrev pub held : Option ℤ → ℤ
held none = pos 0
held (some c) = c

changed_by-find :
    (change : ℤ → Option ℤ → Option ℤ) (ds : List (ℤ × ℤ)) (p c : ℤ) (v : Option ℤ)
    → find_row p ds ≡ some c
    → changed_by change ds p v ≡ change c v
changed_by-find change [] p c v h = cc
changed_by-find change ((q, k) ∷ ds) p c v h = elim (Bool-cases (q ==ℤ p)) [
  | inl b ↦ rw b (ap (λ x. change x v) (cc (rw b at h)))
  | inr b ↦ rw b (changed_by-find change ds p c v (rw b at h))
]

pub AllFit-agree :
    (change : ℤ → Option ℤ → Option ℤ) (f g : ℤ → Option ℤ) (ds : List (ℤ × ℤ))
    → ((p : ℤ) → g p ≡ f p)
    → AllFit change f ds
    → AllFit change g ds
AllFit-agree change f g [] e h = tt
AllFit-agree change f g ((p, c) ∷ ds) e (h, k) = (rw (e p) h, AllFit-agree change f g ds e k)

pub AllKnown-agree :
    (f g : ℤ → Bool) (ds : List (ℤ × ℤ)) → ((p : ℤ) → g p ≡ f p) → AllKnown f ds → AllKnown g ds
AllKnown-agree f g [] e h = tt
AllKnown-agree f g ((p, c) ∷ ds) e (h, k) = (e p ∙ h, AllKnown-agree f g ds e k)

held-reduced : (c have : ℤ) → c ≤ℤ have → held (reduced c (some have)) ≡ have -ℤ c
held-reduced c have h = elim (Bool-cases (leb_ℤ have c)) [
  | inl b ↦ rw b (omega (int_laws, leb_ℤ-true have c b))
  | inr b ↦ rw b
]

reduced_short : (c have : ℤ) → have <ℤ c → held (reduced c (some have)) ≡ pos 0
reduced_short c have h = elim (Bool-cases (leb_ℤ have c)) [
  | inl b ↦ rw b
  | inr b ↦ absurd (omega (arith, leb_ℤ-false have c b))
]

held-increased : (c : ℤ) (o : Option ℤ) → held (increased c o) ≡ held o +ℤ c
held-increased c none = omega int_laws
held-increased c (some have) = refl

module _ (d : Database) (table : ItemTable d) (from to : ℤ) (apart : (from ==ℤ to) ≡ false) where
  open table use {item, known}

  -- What both warehouses hold of a product.
  abbrev pub total : d.State → ℤ → ℤ
  total s p = held (item s from p) +ℤ held (item s to p)

  abbrev pub moved : List (ℤ × ℤ) → d.State → ℤ → ℤ → Option ℤ
  moved ds s v p =
      if from ==ℤ v
      then changed_by reduced ds p (item s v p)
      else if to ==ℤ v
      then changed_by increased ds p (item s v p)
      else item s v p

  -- Between two warehouses that are there, a move of stored products whose counts fit the column succeeds:
  -- the first warehouse loses and the second gains what was asked for, and no other count changes.
  pub move_stock_lem :
      (ds : List (ℤ × ℤ)) (s : d.State)
      → AllStored (item s from) ds
      → Distinct ds
      → AllFit reduced (item s from) ds
      → AllKnown (known s to) ds
      → AllFit increased (item s to) ds
      → (t : d.State) × (move_stock d from to (map requested ds) s ≡ (ok tt, t))
        × ((v p : ℤ) → item t v p ≡ moved ds s v p)
  unfolding move_stock
  move_stock_lem ds s h u f k g =
      let (t, run, step, same_known) = change_count_reduces-Keeps d table from ds s h u f in
      let same = λ (p : ℤ). step to p ∙ rw apart in
      let (z, run', steps) =
        change_count_increases d table to ds t
          (AllKnown-agree (known s to) (known t to) ds (same_known to) k) u
          (AllFit-agree increased (item s to) (item t to) ds same g) in
      (
        z,
        rw run run',
        λ v p. steps v p ∙ elim (Bool-cases (from ==ℤ v)) [
          | inl b ↦ rw (step v p, b, sym (eq_of-==ℤ from v b)) (rw (==ℤ-sym to from, apart))
          | inr b ↦ rw (step v p, b)
        ],
      )

  moved_from :
      (ds : List (ℤ × ℤ)) (s : d.State) (p c : ℤ)
      → find_row p ds ≡ some c
      → moved ds s from p ≡ reduced c (item s from p)
  moved_from ds s p c e = rw (==ℤ-refl from) (changed_by-find reduced ds p c _ e)

  moved_to :
      (ds : List (ℤ × ℤ)) (s : d.State) (p c : ℤ)
      → find_row p ds ≡ some c
      → moved ds s to p ≡ increased c (item s to p)
  moved_to ds s p c e = rw (apart, ==ℤ-refl to) (changed_by-find increased ds p c _ e)

  -- When every product is stored in the first warehouse, the second and the products are there, none is
  -- asked for twice and the counts fit the column, a move of no more of a product than the first
  -- warehouse holds keeps its total.
  pub move_stock-total :
      (ds : List (ℤ × ℤ)) (s t : d.State) (p c have : ℤ)
      → AllStored (item s from) ds
      → Distinct ds
      → AllFit reduced (item s from) ds
      → AllKnown (known s to) ds
      → AllFit increased (item s to) ds
      → move_stock d from to (map requested ds) s ≡ (ok tt, t)
      → find_row p ds ≡ some c
      → item s from p ≡ some have
      → c ≤ℤ have
      → total t p ≡ total s p
  move_stock-total ds s t p c have h u f k g run e stored le =
      let (z, run', items) = move_stock_lem ds s h u f k g in
      let same : z ≡ t = ap (λ r. r.1) (sym run' ∙ run) in
      rw (sym same, items from p, items to p, moved_from ds s p c e, moved_to ds s p c e, stored)
        (rw (held-reduced c have le, held-increased c (item s to p)) (omega int_laws))

  -- When every product is stored in the first warehouse, the second and the products are there, none is
  -- asked for twice and the counts fit the column, a move of more of a product than the first warehouse
  -- holds raises the total of the product.
  pub move_stock-creates :
      (ds : List (ℤ × ℤ)) (s t : d.State) (p c have : ℤ)
      → AllStored (item s from) ds
      → Distinct ds
      → AllFit reduced (item s from) ds
      → AllKnown (known s to) ds
      → AllFit increased (item s to) ds
      → move_stock d from to (map requested ds) s ≡ (ok tt, t)
      → find_row p ds ≡ some c
      → item s from p ≡ some have
      → have <ℤ c
      → total s p <ℤ total t p
  move_stock-creates ds s t p c have h u f k g run e stored lt =
      let (z, run', items) = move_stock_lem ds s h u f k g in
      let same : z ≡ t = ap (λ r. r.1) (sym run' ∙ run) in
      rw (sym same, items from p, items to p, moved_from ds s p c e, moved_to ds s p c e, stored)
        (rw (reduced_short c have lt, held-increased c (item s to p)) (omega int_laws))
