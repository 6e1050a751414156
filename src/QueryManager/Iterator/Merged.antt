-- ===== src/QueryManager/Iterator/Merged.antt =====
-- The merged sequence of the iterator in queries_iterator_internal.h.
use warehouse_accounting_sys.Base.{
  ℕ, zero, suc, ◌≤◌, ◌<◌, ltb, true, false, ◌≡◌, refl, sym, subst, ap, ◌⊎◌, inl, inr, Bool-cases,
  List, [], ◌∷◌, All, arith, if◌then◌else◌,
}
use warehouse_accounting_sys.QueryManager.{Supported}
use warehouse_accounting_sys.QueryManager.Iterator.{
  Field, less, bumped, next_iterator, with_field, fields, total,
}

abbrev pub InList : Field → List Field → Type 0
InList f [] = ⊥
InList f (g ∷ gs) = (f ≡ g) ⊎ InList f gs

abbrev pub InAny : Field → List Supported → Type 0
InAny f [] = ⊥
InAny f (v ∷ vs) = InList f v ⊎ InAny f vs

-- No later id is above an earlier one.
abbrev pub Descending : List Field → Type 0
Descending [] = Unit
Descending (f ∷ fs) = ((g : Field) → InList g fs → g.0 ≤ f.0) × Descending fs

pub below_head :
    (f g : Field) (gs : List Field) → Descending (g ∷ gs) → InList f (g ∷ gs) → f.0 ≤ g.0
below_head f g gs (h, hs) (inl e) = omega (arith, ap (λ x. x.0) e)
below_head f g gs (h, hs) (inr k) = h f k

-- What the chosen iterator and the ones behind it are to be.
abbrev Picked : List Supported → Supported × List Supported → Type 0
Picked before ([], rest) = (f : Field) → InAny f before → ⊥
Picked before (g ∷ gs, rest) =
    ((f : Field) → InAny f before → (f ≡ g) ⊎ InAny f rest)
    × ((f : Field) → InAny f before → f.0 ≤ g.0)
    × ((f : Field) → InAny f rest → InAny f before)
    × (suc (total rest) ≡ total before)
    × All Descending rest
    × InAny g before

ltb_lt : (a b : ℕ) → ltb a b ≡ true → a < b
ltb_lt a b h = ground arith

ltb_le : (a b : ℕ) → ltb a b ≡ false → b ≤ a
ltb_le a b h = ground arith

own_head :
    (g : Field) (gs : Supported) (vs : List Supported)
    → Descending (g ∷ gs)
    → All Descending vs
    → ((f : Field) → InAny f vs → f.0 ≤ g.0)
    → Picked ((g ∷ gs) ∷ vs) (g ∷ gs, gs ∷ vs)
own_head g gs vs d ds below = (
  λ f h. elim h [ inl (inl e) ↦ inl e | inl (inr k) ↦ inr (inl k) | inr k ↦ inr (inr k) ],
  λ f h. elim h [ inl k ↦ below_head f g gs d k | inr k ↦ below f k ],
  λ f h. elim h [ inl k ↦ inl (inr k) | inr k ↦ inr k ],
  omega arith,
  (d.1, ds),
  inl (inl refl),
)

other_head :
    (v : Supported) (g : Field) (gs : Supported) (ws rest : List Supported)
    → Descending v
    → ((f : Field) → InList f v → f.0 ≤ g.0)
    → Picked ws (g ∷ gs, rest)
    → Picked (v ∷ ws) (g ∷ gs, v ∷ rest)
other_head v g gs ws rest d below (split, most, back, size, ds, there) = (
  λ f h. elim h [
    | inl k ↦ inr (inl k)
    | inr k ↦ elim (split f k) [ inl e ↦ inl e | inr l ↦ inr (inr l) ]
  ],
  λ f h. elim h [ inl k ↦ below f k | inr k ↦ most f k ],
  λ f h. elim h [ inl k ↦ inl k | inr k ↦ inr (back f k) ],
  omega (arith, size),
  (d, ds),
  inr there,
)

choose :
    (v : Supported) (ws : List Supported) (p : Supported × List Supported)
    → Descending v
    → All Descending ws
    → Picked ws p
    → Picked (v ∷ ws) (if less p.0 v then (p.0, v ∷ p.1) else (v, bumped v ∷ ws))
choose [] ws ([], rest) d ds h = λ f k. elim k [ inl z ↦ absurd z | inr k ↦ h f k ]
choose [] ws (g ∷ gs, rest) d ds h = other_head [] g gs ws rest d (λ f z. absurd z) h
choose (e ∷ es) ws ([], rest) d ds h = own_head e es ws d ds (λ f k. absurd (h f k))
choose (e ∷ es) ws (g ∷ gs, rest) d ds h = elim (Bool-cases (ltb e.0 g.0)) [
  | inl b ↦ rw b (
      other_head (e ∷ es) g gs ws rest d
        (λ f k. omega (arith, below_head f e es d k, ltb_lt e.0 g.0 b)) h)
  | inr b ↦ rw b (own_head e es ws d ds (λ f k. omega (arith, h.1 f k, ltb_le e.0 g.0 b)))
]

next_iterator-Picked :
    (v : Supported) (vs : List Supported)
    → Descending v
    → All Descending vs
    → Picked (v ∷ vs) (next_iterator v vs)
unfolding next_iterator
next_iterator-Picked [] [] d ds = λ f k. elim k [ inl z ↦ absurd z | inr z ↦ absurd z ]
next_iterator-Picked (f ∷ fs) [] d ds = own_head f fs [] d ds (λ g z. absurd z)
next_iterator-Picked v (w ∷ ws) d (dw, dws) =
    choose v (w ∷ ws) (next_iterator w ws) d (dw, dws) (next_iterator-Picked w ws dw dws)

with_field-covers :
    (before : List Supported) (p : Supported × List Supported) (later : List Field)
    → Picked before p
    → ((f : Field) → InAny f p.1 → InList f later)
    → (f : Field) → InAny f before
    → InList f (with_field p.0 later)
with_field-covers before ([], rest) later h covers f k = absurd (h f k)
with_field-covers before (g ∷ gs, rest) later (split, most, back, size, ds, there) covers f k =
    elim (split f k) [ inl e ↦ inl e | inr l ↦ inr (covers f l) ]

rest_size :
    (before : List Supported) (p : Supported × List Supported) (fuel : ℕ)
    → Picked before p
    → total before ≤ suc fuel
    → ((f : Field) → InAny f before → ⊥) ⊎ (total p.1 ≤ fuel)
rest_size before ([], rest) fuel h le = inl h
rest_size before (g ∷ gs, rest) fuel (split, most, back, size, ds, there) le =
    inr (omega (arith, size, le))

rest_Descending :
    (before : List Supported) (p : Supported × List Supported)
    → Picked before p
    → ((f : Field) → InAny f before → ⊥) ⊎ All Descending p.1
rest_Descending before ([], rest) h = inl h
rest_Descending before (g ∷ gs, rest) (split, most, back, size, ds, there) = inr ds

empty_total : (vs : List Supported) (f : Field) → total vs ≤ 0 → InAny f vs → ⊥
empty_total [] f le k = absurd k
empty_total ([] ∷ vs) f le (inl z) = absurd z
empty_total ((g ∷ gs) ∷ vs) f le (inl k) = omega (arith, le)
empty_total (v ∷ vs) f le (inr k) = empty_total vs f (omega (arith, le)) k

-- With a step for each query the iteration reaches every one.
pub fields-covers :
    (fuel : ℕ) (vs : List Supported)
    → All Descending vs
    → total vs ≤ fuel
    → (f : Field) → InAny f vs
    → InList f (fields fuel vs)
unfolding fields
fields-covers zero vs d le f k = absurd (empty_total vs f le k)
fields-covers (suc fuel) [] d le f k = absurd k
fields-covers (suc fuel) (v ∷ vs) (d, ds) le f k =
    let p = next_iterator v vs in
    let picked = next_iterator-Picked v vs d ds in
    with_field-covers (v ∷ vs) p (fields fuel p.1) picked
      (λ g l. elim (rest_size (v ∷ vs) p fuel picked le) [
        | inl none_left ↦ absurd (none_left f k)
        | inr size ↦ elim (rest_Descending (v ∷ vs) p picked) [
          | inl none_left ↦ absurd (none_left f k)
          | inr descending ↦ fields-covers fuel p.1 descending size g l
        ]
      ])
      f k

with_field-within :
    (before : List Supported) (p : Supported × List Supported) (later : List Field)
    → Picked before p
    → ((All Descending p.1) → (f : Field) → InList f later → InAny f p.1)
    → (f : Field) → InList f (with_field p.0 later)
    → InAny f before
with_field-within before ([], rest) later h within f k = absurd k
with_field-within before (g ∷ gs, rest) later (split, most, back, size, ds, there) within f
      (inl e) =
    subst (λ x. InAny x before) (sym e) there
with_field-within before (g ∷ gs, rest) later (split, most, back, size, ds, there) within f
      (inr k) =
    back f (within ds f k)

-- The iteration meets stored queries only.
pub fields-within :
    (fuel : ℕ) (vs : List Supported)
    → All Descending vs
    → (f : Field) → InList f (fields fuel vs)
    → InAny f vs
unfolding fields
fields-within zero vs d f k = absurd k
fields-within (suc fuel) [] d f k = absurd k
fields-within (suc fuel) (v ∷ vs) (d, ds) f k =
    let p = next_iterator v vs in
    with_field-within (v ∷ vs) p (fields fuel p.1) (next_iterator-Picked v vs d ds)
      (fields-within fuel p.1) f k

with_field-Descending :
    (before : List Supported) (p : Supported × List Supported) (later : List Field)
    → Picked before p
    → (All Descending p.1 → (f : Field) → InList f later → InAny f p.1)
    → (All Descending p.1 → Descending later)
    → Descending (with_field p.0 later)
with_field-Descending before ([], rest) later h within down = tt
with_field-Descending before (g ∷ gs, rest) later (split, most, back, size, ds, there) within down =
    (λ f k. most f (back f (within ds f k)), down ds)

-- It goes down from the highest id.
pub fields-Descending :
    (fuel : ℕ) (vs : List Supported) → All Descending vs → Descending (fields fuel vs)
unfolding fields
fields-Descending zero vs d = tt
fields-Descending (suc fuel) [] d = tt
fields-Descending (suc fuel) (v ∷ vs) (d, ds) =
    let p = next_iterator v vs in
    with_field-Descending (v ∷ vs) p (fields fuel p.1) (next_iterator-Picked v vs d ds)
      (fields-within fuel p.1) (fields-Descending fuel p.1)
