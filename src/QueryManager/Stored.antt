-- ===== src/QueryManager/Stored.antt =====
-- Which statement an id of the query manager stands for.
use warehouse_accounting_sys.Base.{
  ℕ, ◌+◌, ◌%◌, ◌^◌, ◌<◌, ◌≡◌, refl, sym, ap, subst, ◌∙◌, true, Bool-cases, Option-cases, some, [],
  ◌∷◌, ◌++◌, ◌⊎◌, inl, inr, arith,
}
use native.Mathlib.Nat.{mod-eq_of_lt}
use warehouse_accounting_sys.Exec.{Outcome, ok, throws, ok-injective}
use warehouse_accounting_sys.Query.Schema.{yes_of, yes_refl}
use warehouse_accounting_sys.Query.Options.{
  QueryOptions, QueryIdentificator, identificator, serialize_parametrized,
}
use warehouse_accounting_sys.Query.Options.Equality.{equals_options}
use warehouse_accounting_sys.Query.Options.Equality.SameStatement.{
  options_and_only, order_of, equals-same_statement,
}
use warehouse_accounting_sys.QueryManager.{
  QueryManager, Supported, QueryIdentificator-discrete, eq_identificator, find_query, put,
  add_traced, get_or_support_query_id,
}

abbrev pub Among : ℕ → QueryOptions → Supported → Type 0
Among id o [] = ⊥
Among id o ((i, x) ∷ rest) = ((id ≡ i) × (o ≡ x)) ⊎ Among id o rest

-- The manager has the options under the id.
abbrev pub Stores : QueryManager → ℕ → QueryOptions → Type 0
Stores m id o =
    (key : QueryIdentificator) × (vec : Supported) × (m.supported key ≡ some vec) × Among id o vec

Among-append_left :
    (id : ℕ) (o : QueryOptions) (xs ys : Supported) → Among id o xs → Among id o (xs ++ ys)
Among-append_left id o [] ys h = absurd h
Among-append_left id o ((i, x) ∷ xs) ys (inl h) = inl h
Among-append_left id o ((i, x) ∷ xs) ys (inr h) = inr (Among-append_left id o xs ys h)

Among-last : (id : ℕ) (o : QueryOptions) (xs : Supported) → Among id o (xs ++ (id, o) ∷ [])
Among-last id o [] = inl (refl, refl)
Among-last id o ((i, x) ∷ xs) = inr (Among-last id o xs)

find_query-Among :
    (options : QueryOptions) (vec : Supported) (id : ℕ)
    → find_query options vec ≡ some id
    → (o : QueryOptions) × Among id o vec × (equals_options o options ≡ true)
unfolding find_query
find_query-Among options [] id h = cc
find_query-Among options ((i, x) ∷ rest) id h = elim (Bool-cases (equals_options x options)) [
  | inl b ↦ (x, inl (cc (rw b at h), refl), b)
  | inr b ↦
      let (o, among, same) = find_query-Among options rest id (rw b at h) in (o, inr among, same)
]

-- What was stored stays stored when the vector of a key grows.
put-Stores :
    (m : QueryManager) (key : QueryIdentificator) (vec more : Supported) (id : ℕ) (o : QueryOptions)
    → ((old : Supported) → m.supported key ≡ some old → old ≡ vec)
    → Stores m id o
    → (k : QueryIdentificator) × (v : Supported) × (put key (vec ++ more) m.supported k ≡ some v)
      × Among id o v
put-Stores m key vec more id o only (k, v, found, among) =
    elim (Bool-cases (eq_identificator key k)) [
      | inl b ↦
          let same : key ≡ k = yes_of (QueryIdentificator-discrete key k) b in
          let here : v ≡ vec = only v (subst (λ x. m.supported x ≡ some v) (sym same) found) in
          (k, vec ++ more, rw b, Among-append_left id o vec more (subst (Among id o) here among))
      | inr b ↦ (k, v, rw b found, among)
    ]

Among-append :
    (id : ℕ) (o : QueryOptions) (xs ys : Supported)
    → Among id o (xs ++ ys)
    → Among id o xs ⊎ Among id o ys
Among-append id o [] ys h = inr h
Among-append id o ((i, x) ∷ xs) ys (inl h) = inl (inl h)
Among-append id o ((i, x) ∷ xs) ys (inr h) = elim (Among-append id o xs ys h) [
  | inl k ↦ inl (inr k)
  | inr k ↦ inr k
]

some-injective : {a b : Supported} → some a ≡ some b → a ≡ b
some-injective h = cc

-- Nothing is stored beyond what was and what was added.
put-only :
    (m : QueryManager) (key : QueryIdentificator) (vec : Supported) (new id : ℕ)
    (options o : QueryOptions)
    → ((i : ℕ) (x : QueryOptions) → Among i x vec → Stores m i x)
    → (k : QueryIdentificator) (v : Supported)
    → put key (vec ++ (new, options) ∷ []) m.supported k ≡ some v
    → Among id o v
    → Stores m id o ⊎ ((id ≡ new) × (o ≡ options))
put-only m key vec new id options o old k v found among =
    elim (Bool-cases (eq_identificator key k)) [
      | inl b ↦
          let whole : v ≡ vec ++ (new, options) ∷ [] = sym (some-injective (rw b at found)) in
          elim (Among-append id o vec _ (subst (Among id o) whole among)) [
            | inl there ↦ inl (old id o there)
            | inr (inl it) ↦ inr it
            | inr (inr none_left) ↦ absurd none_left
          ]
      | inr b ↦ inl (k, v, (rw b at found), among)
    ]

-- What a call of `add_query` with the key's vector may have done.
abbrev pub Added : QueryOptions → QueryManager → Outcome ℕ × QueryManager → Type 0
Added options m (r, t) =
    ((id : ℕ) (o : QueryOptions) → Stores m id o → Stores t id o)
    × ((id : ℕ) (o : QueryOptions)
        → Stores t id o
        → Stores m id o ⊎ ((id ≡ m.current_id) × (o ≡ options)))
    × ((id : ℕ)
        → r ≡ ok id
        → (o : QueryOptions) × Stores t id o × ((o ≡ options) ⊎ (equals_options o options ≡ true)))
    × (((t.current_id ≡ m.current_id)
          × ((id : ℕ) (o : QueryOptions) → Stores t id o → Stores m id o))
        ⊎ (t.current_id ≡ (m.current_id + 1) % 2 ^ 64))

add_traced-Added :
    {T : Type 0} (r : Outcome T) (options : QueryOptions) (vec : Supported) (m : QueryManager)
    → ((old : Supported) → m.supported (identificator options) ≡ some old → old ≡ vec)
    → ((i : ℕ) (x : QueryOptions) → Among i x vec → Stores m i x)
    → Added options m (add_traced r options vec m)
add_traced-Added (ok text) options vec m only old =
    let key = identificator options in
    let more = (m.current_id, options) ∷ [] in
    let there : put key (vec ++ more) m.supported key ≡ some (vec ++ more) =
      rw (yes_refl (QueryIdentificator-discrete key key)) in
    (
      λ id o h. put-Stores m key vec more id o only h,
      λ id o (k, v, found, among). put-only m key vec m.current_id id options o old k v found among,
      λ id same.
          let is : m.current_id ≡ id = ok-injective same in
          (
            options,
            (
              key,
              vec ++ more,
              there,
              subst (λ n. Among n options (vec ++ more)) is (Among-last m.current_id options vec),
            ),
            inl refl,
          ),
      inr refl,
    )
add_traced-Added (throws e) options vec m only old =
    (λ id o h. h, λ id o h. inl h, λ id h. cc, inr refl)

pub call-Added :
    (options : QueryOptions) (m : QueryManager)
    → Added options m (get_or_support_query_id options m)
unfolding get_or_support_query_id
call-Added options m = elim (Option-cases (m.supported (identificator options))) [
  | inl e ↦ rw e (
      add_traced-Added (serialize_parametrized options 1).0 options [] m (λ old h. cc)
        (λ i x h. absurd h))
  | inr (vec, e) ↦
      let old : (i : ℕ) (x : QueryOptions) → Among i x vec → Stores m i x =
        λ i x h. (identificator options, vec, e, h) in
      elim (Option-cases (find_query options vec)) [
        | inl f ↦
            rw (e, f)
              (add_traced-Added (serialize_parametrized options 1).0 options vec m
                (λ old' h. some-injective (sym h ∙ e)) old)
        | inr (id, f) ↦
            let (o, among, same) = find_query-Among options vec id f in
            rw (e, f)
              (
                λ i x h. h,
                λ i x h. inl h,
                λ i h. (o, subst (λ n. Stores m n o) (ok-injective h) (old id o among), inr same),
                inl (refl, λ i x h. h),
              )
      ]
]

-- The id that is answered is stored with the requested options, or with options that `Equals`
-- takes for them.
pub get_or_support_query_id-Stores :
    (options : QueryOptions) (m t : QueryManager) (id : ℕ)
    → get_or_support_query_id options m ≡ (ok id, t)
    → (o : QueryOptions) × Stores t id o × ((o ≡ options) ⊎ (equals_options o options ≡ true))
get_or_support_query_id-Stores options m t id h =
    let (kept, only, answered, next) = call-Added options m in
    let (o, there, same) = answered id (ap (λ x. x.0) h) in
    (o, subst (λ n. Stores n id o) (ap (λ x. x.1) h) there, same)

-- No call changes the statement of an id that was given out before.
pub get_or_support_query_id-keeps :
    (options : QueryOptions) (m : QueryManager) (id : ℕ) (o : QueryOptions)
    → Stores m id o
    → Stores (get_or_support_query_id options m).1 id o
get_or_support_query_id-keeps options m id o h =
    let (kept, only, answered, next) = call-Added options m in kept id o h

-- When the groups of every stored and of the requested condition are AND groups and all order the
-- same way, the id that is answered is prepared with the very text of the requested statement.
pub get_or_support_query_id-same_text :
    (options : QueryOptions) (m t : QueryManager) (id : ℕ)
    → options_and_only options ≡ true
    → ((i : ℕ) (o : QueryOptions)
        → Stores t i o
        → (options_and_only o ≡ true) × (order_of o ≡ order_of options))
    → get_or_support_query_id options m ≡ (ok id, t)
    → (o : QueryOptions) × Stores t id o
      × (serialize_parametrized o ≡ serialize_parametrized options)
get_or_support_query_id-same_text options m t id plain uniform h =
    let (o, there, same) = get_or_support_query_id-Stores options m t id h in
    elim same [
      | inl is ↦ (o, there, ap serialize_parametrized is)
      | inr e ↦
          let (and_only, order) = uniform id o there in
          (o, there, equals-same_statement o options e and_only plain order)
    ]

-- Ids are given out in order, each for one statement.
abbrev pub WellFormed : QueryManager → Type 0
WellFormed m =
    ((id : ℕ) (o : QueryOptions) → Stores m id o → id < m.current_id)
    × ((id : ℕ) (a b : QueryOptions) → Stores m id a → Stores m id b → a ≡ b)

-- Until the 64-bit counter wraps around, every call keeps the ids below the counter and one
-- statement for each id.
pub get_or_support_query_id-WellFormed :
    (options : QueryOptions) (m : QueryManager)
    → m.current_id + 1 < 2 ^ 64
    → WellFormed m
    → WellFormed (get_or_support_query_id options m).1
get_or_support_query_id-WellFormed options m h (below, one) =
    let (kept, only, answered, next) = call-Added options m in
    let counter : (m.current_id + 1) % 2 ^ 64 ≡ m.current_id + 1 = mod-eq_of_lt h in
    (
      λ id o there. elim next [
        | inl (same, old) ↦ omega (arith, below id o (old id o there), same)
        | inr up ↦ elim (only id o there) [
          | inl old ↦ omega (arith, below id o old, up, counter)
          | inr (new, is) ↦ omega (arith, new, up, counter)
        ]
      ],
      λ id a b there_a there_b. elim (only id a there_a) [
        | inl old_a ↦ elim (only id b there_b) [
          | inl old_b ↦ one id a b old_a old_b
          | inr (new, is) ↦ absurd (omega (arith, below id a old_a, new))
        ]
        | inr (new, is) ↦ elim (only id b there_b) [
          | inl old_b ↦ absurd (omega (arith, below id b old_b, new))
          | inr (new', is') ↦ is ∙ sym is'
        ]
      ],
    )
