-- ===== src/QueryManager/Refresh/Ordered.antt =====
-- The vectors of query_manager.cpp hold their queries by ascending id, and the iteration of
-- queries_iterator_internal.h goes over what they hold.
use warehouse_accounting_sys.Base.{
  ℕ, ◌≡◌, refl, sym, ap, ◌∙◌, subst, ◌⊎◌, inl, inr, Option, none, some, List, [], ◌∷◌, ◌++◌, All,
}
use warehouse_accounting_sys.Query.Options.{
  QueryOptions, QueryIdentificator, raw, select, insert, delete, update,
}
use warehouse_accounting_sys.QueryManager.{QueryManager, Supported}
use warehouse_accounting_sys.QueryManager.Stored.{Among, Stores}
use warehouse_accounting_sys.QueryManager.Iterator.{Field, reversed, vector_of, begin_iterators}
use warehouse_accounting_sys.QueryManager.Iterator.Merged.{InList, InAny, Descending}

InList-append_left : (f : Field) (xs ys : List Field) → InList f xs → InList f (xs ++ ys)
InList-append_left f [] ys h = absurd h
InList-append_left f (x ∷ xs) ys (inl e) = inl e
InList-append_left f (x ∷ xs) ys (inr h) = inr (InList-append_left f xs ys h)

InList-last : (f : Field) (xs : List Field) → InList f (xs ++ f ∷ [])
InList-last f [] = inl refl
InList-last f (x ∷ xs) = inr (InList-last f xs)

InList-append : (f g : Field) (xs : List Field) → InList f (xs ++ g ∷ []) → InList f xs ⊎ (f ≡ g)
InList-append f g [] (inl e) = inr e
InList-append f g [] (inr z) = absurd z
InList-append f g (x ∷ xs) (inl e) = inl (inl e)
InList-append f g (x ∷ xs) (inr h) = elim (InList-append f g xs h) [
  | inl k ↦ inl (inr k)
  | inr e ↦ inr e
]

Among-reversed :
    (id : ℕ) (o : QueryOptions) (v : Supported) → Among id o v → InList (id, o) (reversed v)
unfolding reversed
Among-reversed id o [] h = absurd h
Among-reversed id o ((i, x) ∷ v) (inl (e, f)) =
    subst (λ g. InList g (reversed v ++ (i, x) ∷ []))
      (sym (ap (λ n. (n, o)) e ∙ ap (λ y. (i, y)) f)) (InList-last (i, x) (reversed v))
Among-reversed id o ((i, x) ∷ v) (inr h) =
    InList-append_left (id, o) (reversed v) _ (Among-reversed id o v h)

pub reversed-Among : (f : Field) (v : Supported) → InList f (reversed v) → Among f.0 f.1 v
unfolding reversed
reversed-Among f [] h = absurd h
reversed-Among f (g ∷ v) h = elim (InList-append f g (reversed v) h) [
  | inl k ↦ inr (reversed-Among f v k)
  | inr e ↦ inl (ap (λ x. x.0) e, ap (λ x. x.1) e)
]

in_vector :
    (f : Field) (o : Option Supported) (vec : Supported) (rest : List Supported)
    → o ≡ some vec
    → InList f (reversed vec)
    → InAny f (vector_of o rest)
in_vector f o vec rest e h = subst (λ x. InAny f (vector_of x rest)) (sym e) (inl h)

behind :
    (f : Field) (o : Option Supported) (rest : List Supported)
    → InAny f rest
    → InAny f (vector_of o rest)
behind f none rest h = h
behind f (some vec) rest h = inr h

-- What is stored is met by the iteration.
pub Stores-InAny :
    (m : QueryManager) (id : ℕ) (o : QueryOptions)
    → Stores m id o
    → InAny (id, o) (begin_iterators m)
unfolding begin_iterators
Stores-InAny m id o (key, vec, e, among) = at_key key e (Among-reversed id o vec among)
  where
    at_key :
        (k : QueryIdentificator)
        → m.supported k ≡ some vec
        → InList (id, o) (reversed vec)
        → InAny (id, o) (begin_iterators m)
    at_key raw e h = in_vector _ _ vec _ e h
    at_key select e h = behind _ (m.supported raw) _ (in_vector _ _ vec _ e h)
    at_key insert e h =
        behind _ (m.supported raw) _ (behind _ (m.supported select) _ (in_vector _ _ vec _ e h))
    at_key delete e h = behind _ (m.supported raw) _ (
        behind _ (m.supported select) _ (behind _ (m.supported insert) _ (in_vector _ _ vec _ e h)))
    at_key update e h = behind _ (m.supported raw) _ (
        behind _ (m.supported select) _ (
          behind _ (m.supported insert) _
            (behind _ (m.supported delete) _ (in_vector _ _ vec _ e h))))

from_vector :
    (m : QueryManager) (key : QueryIdentificator) (f : Field) (o : Option Supported)
    (rest : List Supported)
    → m.supported key ≡ o
    → (InAny f rest → Stores m f.0 f.1)
    → InAny f (vector_of o rest)
    → Stores m f.0 f.1
from_vector m key f none rest e later h = later h
from_vector m key f (some vec) rest e later (inl k) = (key, vec, e, reversed-Among f vec k)
from_vector m key f (some vec) rest e later (inr k) = later k

-- And the iteration meets what is stored only.
pub InAny-Stores : (m : QueryManager) (f : Field) → InAny f (begin_iterators m) → Stores m f.0 f.1
unfolding begin_iterators
InAny-Stores m f h =
    from_vector m raw f (m.supported raw) _ refl
      (from_vector m select f (m.supported select) _ refl (
        from_vector m insert f (m.supported insert) _ refl (
          from_vector m delete f (m.supported delete) _ refl
            (from_vector m update f (m.supported update) _ refl (λ z. absurd z)))))
      h

-- Every vector has its highest id at the end.
abbrev pub Ordered : QueryManager → Type 0
Ordered m =
    (key : QueryIdentificator) (vec : Supported)
    → m.supported key ≡ some vec
    → Descending (reversed vec)

add_vector :
    (o : Option Supported) (rest : List Supported)
    → ((vec : Supported) → o ≡ some vec → Descending (reversed vec))
    → All Descending rest
    → All Descending (vector_of o rest)
add_vector none rest h hs = hs
add_vector (some vec) rest h hs = (h vec refl, hs)

pub Ordered-iterators : (m : QueryManager) → Ordered m → All Descending (begin_iterators m)
unfolding begin_iterators
Ordered-iterators m h = add_vector (m.supported raw) _ (h raw) (
    add_vector (m.supported select) _ (h select) (
      add_vector (m.supported insert) _ (h insert) (
        add_vector (m.supported delete) _ (h delete)
          (add_vector (m.supported update) _ (h update) tt))))
