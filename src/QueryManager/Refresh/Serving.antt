-- ===== src/QueryManager/Refresh/Serving.antt =====
-- What a connection of connection.cpp has prepared, against what the query manager stores.
use warehouse_accounting_sys.Base.{
  ℕ, ◌≤◌, ◌<◌, ltb, ◌≡◌, refl, sym, ap, subst, ◌⊎◌, inl, inr, Bool-cases, true, false, some, List,
  [], ◌∷◌, arith,
}
use warehouse_accounting_sys.Exec.{Outcome, ok, throws}
use warehouse_accounting_sys.Query.Text.{Text, bind-ok}
use warehouse_accounting_sys.Query.Options.{serialize_parametrized}
use warehouse_accounting_sys.QueryManager.Iterator.{Field}
use warehouse_accounting_sys.QueryManager.Iterator.Merged.{below_head, InList, Descending}
use warehouse_accounting_sys.QueryManager.Refresh.{
  Connection, answered, serialized, support_query, support_rest, refresh_fields,
}

abbrev pub Given : ℕ → Text → List (ℕ × Text) → Type 0
Given i t [] = ⊥
Given i t ((j, u) ∷ rest) = ((i ≡ j) × (t ≡ u)) ⊎ Given i t rest

-- The connection has the query's statement prepared under its id.
abbrev pub IsPrepared : Connection → Field → Type 0
IsPrepared c f = (t : Text) × ((serialize_parametrized f.1 1).0 ≡ ok t) × Given f.0 t c.prepared

-- Nothing that was prepared is lost.
abbrev Keeps : Connection → Connection → Type 0
Keeps c d = (i : ℕ) (t : Text) → Given i t c.prepared → Given i t d.prepared

IsPrepared-Keeps : (c d : Connection) (f : Field) → Keeps c d → IsPrepared c f → IsPrepared d f
IsPrepared-Keeps c d f keeps (t, e, g) = (t, e, keeps f.0 t g)

not_above : (a b : ℕ) → ltb a b ≡ false → b ≤ a
not_above a b h = ground arith

is_above : (a b : ℕ) → ltb a b ≡ true → a < b
is_above a b h = ground arith

some-injective {ℓ} : {A : Type ℓ} {a b : A} → some a ≡ some b → a ≡ b
some-injective h = cc

module _ (prepare : ℕ → Text → Outcome (Unit {0})) where
  answered_ok :
      (i : ℕ) (t : Text) (r : Outcome (Unit {0})) (c d : Connection) {u : Unit {0}}
      → answered prepare i t r c ≡ (ok u, d)
      → Given i t d.prepared × Keeps c d
  answered_ok i t (ok v) c d h =
      let is : record c { prepared = (i, t) ∷ c.prepared } ≡ d = ap (λ x. x.1) h in
      (
        subst (λ x. Given i t x.prepared) is (inl (refl, refl)),
        λ j s g. subst (λ x. Given j s x.prepared) is (inr g),
      )
  answered_ok i t (throws e) c d h = cc

  serialized_ok :
      (f : Field) (r : Outcome Text) (c d : Connection) {u : Unit {0}}
      → (serialize_parametrized f.1 1).0 ≡ r
      → serialized prepare f.0 r c ≡ (ok u, d)
      → IsPrepared d f × Keeps c d
  serialized_ok f (ok t) c d e h =
      let (given, keeps) = answered_ok f.0 t (prepare f.0 t) c d h in ((t, e, given), keeps)
  serialized_ok f (throws x) c d e h = cc

  support_query_ok :
      (f : Field) (c d : Connection) {u : Unit {0}}
      → support_query prepare f c ≡ (ok u, d)
      → IsPrepared d f × Keeps c d
  support_query_ok f c d h = serialized_ok f (serialize_parametrized f.1 1).0 c d refl h

  -- What the loop prepares: every query above the saved id.
  support_rest_ok :
      (saved : ℕ) (fs : List Field) (c d : Connection) {u : Unit {0}}
      → Descending fs
      → support_rest prepare saved fs c ≡ (ok u, d)
      → ((f : Field) → InList f fs → saved < f.0 → IsPrepared d f) × Keeps c d
  unfolding support_rest
  support_rest_ok saved [] c d down h =
      (λ f k. absurd k, λ i t g. subst (λ x. Given i t x.prepared) (ap (λ x. x.1) h) g)
  support_rest_ok saved (g ∷ gs) c d (below, down) h = elim (Bool-cases (ltb saved g.0)) [
    | inl b ↦
        let (v, z, first, rest) = bind-ok (support_query prepare g) _ (rw b at h) in
        let (there, keeps) = support_query_ok g c z first in
        let (others, still) = support_rest_ok saved gs z d down rest in
        (
          λ f k lt. elim k [
            | inl e ↦ subst (IsPrepared d) (sym e) (IsPrepared-Keeps z d g still there)
            | inr l ↦ others f l lt
          ],
          λ i t x. still i t (keeps i t x),
        )
    | inr b ↦
        let same = rw b at h in
        (
          λ f k lt. elim k [
            | inl e ↦ absurd (omega (arith, lt, ap (λ x. x.0) e, not_above saved g.0 b))
            | inr l ↦ absurd (omega (arith, lt, below f l, not_above saved g.0 b))
          ],
          λ i t x. subst (λ y. Given i t y.prepared) (ap (λ y. y.1) same) x,
        )
  ]

  -- A refresh that succeeds leaves every query of the iteration prepared, when those up to the last
  -- supported id were.
  pub refresh_fields_ok :
      (fs : List Field) (c d : Connection) {u : Unit {0}}
      → Descending fs
      → ((f : Field) → InList f fs → f.0 ≤ c.last_supported_query → IsPrepared c f)
      → refresh_fields prepare fs c ≡ some (ok u, d)
      → (f : Field) → InList f fs
      → IsPrepared d f
  unfolding refresh_fields
  refresh_fields_ok [] c d down old h f k = absurd k
  refresh_fields_ok (g ∷ gs) c d (below, down) old h f k =
      elim (Bool-cases (ltb c.last_supported_query g.0)) [
        | inl b ↦
            let start = record c { last_supported_query = g.0 } in
            let (v, z, first, rest) =
              bind-ok (support_query prepare g) _ (some-injective (rw b at h)) in
            let (there, keeps) = support_query_ok g start z first in
            let (others, still) = support_rest_ok c.last_supported_query gs z d down rest in
            elim k [
              | inl e ↦ subst (IsPrepared d) (sym e) (IsPrepared-Keeps z d g still there)
              | inr l ↦ elim (Bool-cases (ltb c.last_supported_query f.0)) [
                | inl above ↦ others f l (is_above c.last_supported_query f.0 above)
                | inr under ↦ IsPrepared-Keeps z d f still (
                    IsPrepared-Keeps start z f keeps
                      (old f (inr l) (not_above c.last_supported_query f.0 under)))
              ]
            ]
        | inr b ↦
            let same : c ≡ d = ap (λ x. x.1) (some-injective (rw b at h)) in
            subst (λ x. IsPrepared x f) same
              (old f k (
                omega (
                  arith,
                  below_head f g gs (below, down) k,
                  not_above c.last_supported_query g.0 b,
                )))
      ]
