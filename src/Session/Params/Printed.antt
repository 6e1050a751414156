-- ===== src/Session/Params/Printed.antt =====
-- `ConvertFromParams` of base_session.cpp on a query that is written out.
use warehouse_accounting_sys.Base.{
  ℕ, ◌==◌, ◌≡◌, refl, sym, ap, subst, ◌∙◌, inl, inr, true, false, Bool-cases, if◌then◌else◌, Option,
  none, some, List, [], ◌∷◌, ◌++◌, append-nil, All, All-append,
}
use warehouse_accounting_sys.Base.Int.{ℤ}
use warehouse_accounting_sys.Documents.Paths.{Bytes, eq_bytes}
use warehouse_accounting_sys.Documents.Paths.Normal.{eq_bytes-true}
use warehouse_accounting_sys.Session.Params.{
  ParamValue, Params, behind, before, is_hash_first, pieces, emplace, param_of, value_of,
  handle_pair, handle_pairs, convert_from_params,
}

abbrev pub IsFree : ℕ → Bytes → Type 0
IsFree mark s = All (λ c. (c == mark) ≡ false) s

abbrev pub IsKey : Bytes → Type 0
IsKey s = IsFree b'&' s × IsFree b'#' s × IsFree b'=' s

abbrev pub IsValue : Bytes → Type 0
IsValue s = IsFree b'&' s × IsFree b'#' s

abbrev pub IsPair : Bytes × Bytes → Type 0
IsPair (key, value) = IsKey key × IsValue value

abbrev pub print_pair : Bytes × Bytes → Bytes
print_pair (key, value) = key ++ b'=' ∷ value

-- The pairs with '=' in them and '&' in_range them.
abbrev pub print : List (Bytes × Bytes) → Bytes
print [] = []
print (pair ∷ []) = print_pair pair
print (pair ∷ next ∷ pairs) = print_pair pair ++ b'&' ∷ print (next ∷ pairs)

behind-append :
    (mark : ℕ) (s t : Bytes)
    → IsFree mark s
    → (mark == mark) ≡ true
    → behind mark (s ++ mark ∷ t) ≡ some t
unfolding behind
behind-append mark [] t h e = rw e refl
behind-append mark (c ∷ s) t (d, h) e = rw d (behind-append mark s t h e)

before-mark : (mark : ℕ) (s t : Bytes) → IsFree mark s → before mark (s ++ t) ≡ s ++ before mark t
unfolding before
before-mark mark [] t h = refl
before-mark mark (c ∷ s) t (d, h) = rw d (ap (λ r. c ∷ r) (before-mark mark s t h))

before-pair : (key value : Bytes) → IsFree b'=' key → before b'=' (print_pair (key, value)) ≡ key
unfolding before
before-pair key value h = before-mark b'=' key (b'=' ∷ value) h ∙ append-nil key

is_hash_first-path :
    (path t : Bytes)
    → IsFree b'?' path
    → IsFree b'#' path
    → is_hash_first (path ++ b'?' ∷ t) ≡ false
unfolding is_hash_first
is_hash_first-path [] t h k = refl
is_hash_first-path (c ∷ path) t (d, h) (e, k) = rw (d, e) (is_hash_first-path path t h k)

pieces-free : (s : Bytes) → IsFree b'&' s → pieces s ≡ s ∷ []
unfolding pieces
pieces-free [] h = refl
pieces-free (c ∷ s) (d, h) = rw (d, pieces-free s h) refl

pieces-append : (s t : Bytes) → IsFree b'&' s → pieces (s ++ b'&' ∷ t) ≡ s ∷ pieces t
unfolding pieces
pieces-append [] t h = refl
pieces-append (c ∷ s) t (d, h) = rw (d, pieces-append s t h) refl

IsFree-pair :
    (mark : ℕ) (key value : Bytes)
    → IsFree mark key
    → (b'=' == mark) ≡ false
    → IsFree mark value
    → IsFree mark (print_pair (key, value))
IsFree-pair mark key value h e k = All-append _ key (b'=' ∷ value) h (e, k)

print-IsFree : (pairs : List (Bytes × Bytes)) → All IsPair pairs → IsFree b'#' (print pairs)
print-IsFree [] h = tt
print-IsFree ((key, value) ∷ []) (((a, b, c), (d, e)), h) = IsFree-pair b'#' key value b refl e
print-IsFree ((key, value) ∷ next ∷ pairs) (((a, b, c), (d, e)), h) =
    All-append _ (print_pair (key, value)) (b'&' ∷ print (next ∷ pairs))
      (IsFree-pair b'#' key value b refl e) (refl, print-IsFree (next ∷ pairs) h)

abbrev or_else {ℓ} : {A : Type ℓ} → Option A → Option A → Option A
or_else (some a) o = some a
or_else none o = o

or_else-none {ℓ} : {A : Type ℓ} (o : Option A) → or_else o none ≡ o
or_else-none (some a) = refl
or_else-none none = refl

or_else_assoc {ℓ} :
    {A : Type ℓ} (o p q : Option A) → or_else (or_else o p) q ≡ or_else o (or_else p q)
or_else_assoc (some a) p q = refl
or_else_assoc none p q = refl

abbrev when_key : Bytes → Bytes → ParamValue → Option ParamValue
when_key k key value = if eq_bytes k key then some value else none

-- A key that is there keeps its value.
param_of-emplace :
    (k key : Bytes) (value : ParamValue) (params : Params)
    → param_of key (emplace k value params) ≡ or_else (param_of key params) (when_key k key value)
unfolding param_of emplace
param_of-emplace k key value [] = refl
param_of-emplace k key value ((k', v) ∷ params) = elim (Bool-cases (eq_bytes k' k)) [
  | inl b ↦ elim (Bool-cases (eq_bytes k' key)) [
    | inl d ↦ rw (b, d) refl
    | inr d ↦
        rw (b, d, subst (λ r. eq_bytes r key ≡ false) (eq_bytes-true k' k b) d)
          (sym (or_else-none (param_of key params)))
  ]
  | inr b ↦ elim (Bool-cases (eq_bytes k' key)) [
    | inl d ↦ rw (b, d) refl
    | inr d ↦ rw (b, d) (param_of-emplace k key value params)
  ]
]

abbrev pub find_in : Bytes → Option Params → Option ParamValue
find_in key none = none
find_in key (some params) = param_of key params

module _ (stol : Bytes → Option ℤ) where
  -- What the first pair with the key holds.
  abbrev pub first_value : Bytes → List (Bytes × Bytes) → Option ParamValue
  first_value key [] = none
  first_value key ((k, value) ∷ pairs) =
      let rest = first_value key pairs in
      if eq_bytes k key then some (value_of stol value) else rest

  first_value-cons :
      (key k value : Bytes) (pairs : List (Bytes × Bytes))
      → first_value key ((k, value) ∷ pairs)
        ≡ or_else (when_key k key (value_of stol value)) (first_value key pairs)
  first_value-cons key k value pairs = elim (Bool-cases (eq_bytes k key)) [
    | inl b ↦ rw b refl
    | inr b ↦ rw b refl
  ]

  handle_pair-print_pair :
      (key value : Bytes) (params : Params)
      → IsFree b'=' key
      → handle_pair stol (print_pair (key, value)) params ≡ emplace key (value_of stol value) params
  handle_pair-print_pair key value params h =
      rw (behind-append b'=' key value h refl, before-pair key value h) refl

  handle_pairs-pieces :
      (key : Bytes) (pairs : List (Bytes × Bytes)) (params : Params)
      → All IsPair pairs
      → param_of key (handle_pairs stol (pieces (print pairs)) params)
        ≡ or_else (param_of key params) (first_value key pairs)
  unfolding handle_pairs pieces behind
  handle_pairs-pieces key [] params h = sym (or_else-none _)
  handle_pairs-pieces key ((k, value) ∷ []) params (((a, b, c), (d, e)), h) =
      rw
        (
          pieces-free (print_pair (k, value)) (IsFree-pair b'&' k value a refl d),
          handle_pair-print_pair k value params c,
          param_of-emplace k key (value_of stol value) params,
        )
        refl
  handle_pairs-pieces key ((k, value) ∷ next ∷ pairs) params (((a, b, c), (d, e)), h) =
      let rest = pieces (print (next ∷ pairs)) in
      ap (λ r. param_of key (handle_pairs stol r params))
        (pieces-append (print_pair (k, value)) (print (next ∷ pairs))
          (IsFree-pair b'&' k value a refl d))
      ∙ ap (λ r. param_of key (handle_pairs stol rest r)) (handle_pair-print_pair k value params c)
      ∙ handle_pairs-pieces key (next ∷ pairs) (emplace k (value_of stol value) params) h
      ∙ rw (param_of-emplace k key (value_of stol value) params) (
          or_else_assoc (param_of key params) _ _
          ∙ ap (or_else (param_of key params)) (sym (first_value-cons key k value (next ∷ pairs))))

  -- The value at the key in the object that `ConvertFromParams` makes.
  abbrev pub param_at : Bytes → Bytes → Option ParamValue
  param_at target key = find_in key (convert_from_params stol target)

  -- A target of a path without '?' and '#', a '?' and printed pairs, whose keys are free of '&', '#' and '=' and
  -- whose values are free of '&' and '#', with nothing behind it or a '#' and whatever else, gives each
  -- key the value of the first pair that has it.
  pub param_at-print :
      (path end key : Bytes) (pairs : List (Bytes × Bytes))
      → IsFree b'?' path
      → IsFree b'#' path
      → All IsPair pairs
      → before b'#' end ≡ []
      → param_at (path ++ b'?' ∷ (print pairs ++ end)) key ≡ first_value key pairs
  unfolding convert_from_params param_of
  param_at-print path end key pairs h k p cut =
      rw
        (
          behind-append b'?' path (print pairs ++ end) h refl,
          is_hash_first-path path (print pairs ++ end) h k,
          before-mark b'#' (print pairs) end (print-IsFree pairs p),
          cut,
          append-nil (print pairs),
        )
        (handle_pairs-pieces key pairs [] p)
