-- ===== src/Stock/Effects.antt =====
-- The plan that `ChangeCount` of warehouse_item.h makes, seen from one product's count.
use warehouse_accounting_sys.Base.{
  ◌≡◌, refl, sym, ap, ◌∙◌, subst, true, false, if◌then◌else◌, Option, none, some, List, [], ◌∷◌,
  map, Bool-cases, ◌⊎◌, inl, inr,
}
use warehouse_accounting_sys.Base.Int.{ℤ, ◌+ℤ◌, ◌-ℤ◌, leb_ℤ, ◌==ℤ◌, eq_of-==ℤ}
use warehouse_accounting_sys.Stock.{Plan, Change, goes_critical, modifies, add_change}
use warehouse_accounting_sys.Stock.Items.{member, find_row, or_else, replaced}
use warehouse_accounting_sys.Stock.Planning.{AllStored, reduce_change, expand_change, plan_of}

abbrev pub ids : List (ℤ × ℤ) → List ℤ
ids rows = map (λ q. q.0) rows

-- A count after the updates, made one after the other.
abbrev pub after_updates : List (ℤ × ℤ) → ℤ → Option ℤ → Option ℤ
after_updates [] p v = v
after_updates ((q, target) ∷ ms) p v = after_updates ms p (if q ==ℤ p then replaced target v else v)

-- No product is asked for twice.
abbrev pub Distinct : List (ℤ × ℤ) → Type 0
Distinct [] = Unit {0}
Distinct ((p, c) ∷ ds) = (find_row p ds ≡ none) × Distinct ds

-- What should become of a count from which `c` is taken: it is gone if `c` is all of it or more.
abbrev pub reduced : ℤ → Option ℤ → Option ℤ
reduced c none = none
reduced c (some have) = if leb_ℤ have c then none else some (have -ℤ c)

-- What should become of a count to which `c` is added.
abbrev pub increased : ℤ → Option ℤ → Option ℤ
increased c none = some c
increased c (some have) = some (have +ℤ c)

-- A change of the first entry for the product, if there is one.
abbrev pub changed_by : (ℤ → Option ℤ → Option ℤ) → List (ℤ × ℤ) → ℤ → Option ℤ → Option ℤ
changed_by change [] p v = v
changed_by change ((q, c) ∷ ds) p v = if q ==ℤ p then change c v else changed_by change ds p v

abbrev pub KeepsId : (Option ℤ → ℤ → ℤ → Change) → Type 0
KeepsId f =
    (o : Option ℤ) (p c : ℤ)
    → (f o p c ≡ goes_critical p c) ⊎ ((target : ℤ) × (f o p c ≡ modifies p target))

reduce_change-KeepsId : KeepsId reduce_change
reduce_change-KeepsId none p c = inl refl
reduce_change-KeepsId (some h) p c = elim (Bool-cases (leb_ℤ h c)) [
  | inl b ↦ inl (rw b)
  | inr b ↦ inr (h -ℤ c, rw b)
]

pub expand_change-KeepsId : KeepsId expand_change
expand_change-KeepsId none p c = inl refl
expand_change-KeepsId (some h) p c = inr (h +ℤ c, refl)

modify_step :
    (r : Plan) (q target p : ℤ) (v : Option ℤ)
    → after_updates (add_change (modifies q target) r).to_modify p v
      ≡ after_updates r.to_modify p (if q ==ℤ p then replaced target v else v)
modify_step r q target p v = refl

pub after_updates-none : (ms : List (ℤ × ℤ)) (p : ℤ) → after_updates ms p none ≡ none
after_updates-none [] p = refl
after_updates-none ((q, target) ∷ ms) p = elim (Bool-cases (q ==ℤ p)) [
  | inl b ↦ rw b (after_updates-none ms p)
  | inr b ↦ rw b (after_updates-none ms p)
]

-- Nothing that a plan does is about the product.
abbrev pub Untouched : Plan → ℤ → Type 0
Untouched r p =
    (member p (ids r.critical) ≡ false)
    × (find_row p r.critical ≡ none)
    × ((v : Option ℤ) → after_updates r.to_modify p v ≡ v)

Untouched-critical :
    (r : Plan) (q c p : ℤ)
    → (q ==ℤ p) ≡ false
    → Untouched r p
    → Untouched (add_change (goes_critical q c) r) p
Untouched-critical r q c p b (m, n, u) = rw b (m, n, u)

Untouched-modify :
    (r : Plan) (q target p : ℤ)
    → (q ==ℤ p) ≡ false
    → Untouched r p
    → Untouched (add_change (modifies q target) r) p
Untouched-modify r q target p b (m, n, u) = (m, n, λ v. modify_step r q target p v ∙ rw b (u v))

module _ (f : Option ℤ → ℤ → ℤ → Change) (k : KeepsId f) (stored : ℤ → Option ℤ) where
  pub untouched :
      (ds : List (ℤ × ℤ)) (p : ℤ) → find_row p ds ≡ none → Untouched (plan_of f stored ds) p
  untouched [] p h = (refl, refl, λ v. refl)
  untouched ((q, c) ∷ ds) p h = elim (Bool-cases (q ==ℤ p)) [
    | inl b ↦ absurd (cc (rw b at h))
    | inr b ↦
        let rest = untouched ds p (rw b at h) in
        elim (k (stored q) q c) [
          | inl e ↦ rw e (Untouched-critical (plan_of f stored ds) q c p b rest)
          | inr (target, e) ↦ rw e (Untouched-modify (plan_of f stored ds) q target p b rest)
        ]
  ]

-- A reduction's effect: the critical rows go away, then the updates are made.
abbrev pub effect_of_reducing : Plan → ℤ → Option ℤ → Option ℤ
effect_of_reducing r p v =
    after_updates r.to_modify p (if member p (ids r.critical) then none else v)

-- An increase's effect: the critical rows are made, then the updates.
abbrev pub effect_of_increasing : Plan → ℤ → Option ℤ → Option ℤ
effect_of_increasing r p v = after_updates r.to_modify p (or_else (find_row p r.critical) v)

module _ (r : Plan) (q c p : ℤ) where
  reducing_same :
      (have : ℤ)
      → (q ==ℤ p) ≡ true
      → Untouched r p
      → effect_of_reducing (add_change (reduce_change (some have) q c) r) p (some have)
        ≡ reduced c (some have)
  reducing_same have b (m, n, u) = elim (Bool-cases (leb_ℤ have c)) [
    | inl l ↦ rw (l, b) (u none)
    | inr l ↦ rw l (modify_step r q (have -ℤ c) p _ ∙ rw (b, m) (u (some (have -ℤ c))))
  ]

  reducing_other :
      (o v : Option ℤ)
      → (q ==ℤ p) ≡ false
      → effect_of_reducing (add_change (reduce_change o q c) r) p v ≡ effect_of_reducing r p v
  reducing_other o v b = elim (reduce_change-KeepsId o q c) [
    | inl e ↦ rw (e, b)
    | inr (target, e) ↦ rw e (modify_step r q target p _ ∙ rw b)
  ]

  increasing_same :
      (o : Option ℤ)
      → (q ==ℤ p) ≡ true
      → Untouched r p
      → effect_of_increasing (add_change (expand_change o q c) r) p o ≡ increased c o
  increasing_same none b (m, n, u) = rw b (u (some c))
  increasing_same (some have) b (m, n, u) =
      modify_step r q (have +ℤ c) p _ ∙ rw (b, n) (u (some (have +ℤ c)))

  increasing_other :
      (o v : Option ℤ)
      → (q ==ℤ p) ≡ false
      → effect_of_increasing (add_change (expand_change o q c) r) p v ≡ effect_of_increasing r p v
  increasing_other o v b = elim (expand_change-KeepsId o q c) [
    | inl e ↦ rw (e, b)
    | inr (target, e) ↦ rw e (modify_step r q target p _ ∙ rw b)
  ]

fresh :
    (ds : List (ℤ × ℤ)) (q p : ℤ) → (q ==ℤ p) ≡ true → find_row q ds ≡ none → find_row p ds ≡ none
fresh ds q p b = subst (λ x. find_row x ds ≡ none) (eq_of-==ℤ q p b)

-- The plan of a reduction does to each count what `reduced` says.
pub reduce_plan_effect :
    (stored : ℤ → Option ℤ) (ds : List (ℤ × ℤ)) (p : ℤ)
    → AllStored stored ds
    → Distinct ds
    → effect_of_reducing (plan_of reduce_change stored ds) p (stored p)
      ≡ changed_by reduced ds p (stored p)
reduce_plan_effect stored [] p h u = refl
reduce_plan_effect stored ((q, c) ∷ ds) p ((have, e), h) (new, u) =
    let r = plan_of reduce_change stored ds in
    elim (Bool-cases (q ==ℤ p)) [
      | inl b ↦
          let at_p = ap stored (sym (eq_of-==ℤ q p b)) ∙ e in
          let rest =
            untouched reduce_change reduce_change-KeepsId stored ds p (fresh ds q p b new) in
          rw (e, at_p) (reducing_same r q c p have b rest ∙ rw b)
      | inr b ↦
          reducing_other r q c p (stored q) (stored p) b ∙ reduce_plan_effect stored ds p h u ∙ rw b
    ]

-- The plan of an increase does to each count what `increased` says.
pub expand_plan_effect :
    (stored : ℤ → Option ℤ) (ds : List (ℤ × ℤ)) (p : ℤ)
    → Distinct ds
    → effect_of_increasing (plan_of expand_change stored ds) p (stored p)
      ≡ changed_by increased ds p (stored p)
expand_plan_effect stored [] p u = refl
expand_plan_effect stored ((q, c) ∷ ds) p (new, u) =
    let r = plan_of expand_change stored ds in
    elim (Bool-cases (q ==ℤ p)) [
      | inl b ↦
          let at_p = ap stored (sym (eq_of-==ℤ q p b)) in
          let rest =
            untouched expand_change expand_change-KeepsId stored ds p (fresh ds q p b new) in
          rw at_p (increasing_same r q c p (stored q) b rest ∙ rw b)
      | inr b ↦
          increasing_other r q c p (stored q) (stored p) b ∙ expand_plan_effect stored ds p u ∙ rw b
    ]
