-- ===== src/QueryManager/Refresh/Entries.antt =====
-- `TransactionEntryFactory::CreateQueryTransactionEntry` of transaction_entry_factory.cpp for a cached
-- query: the id that the entry executes is prepared on the connection.
use warehouse_accounting_sys.Base.{
  ℕ, ◌≤◌, ◌<◌, ltb, ◌≡◌, refl, sym, ap, ◌∙◌, subst, ◌⊎◌, inl, inr, Bool-cases, Option-cases, true,
  false, Option, none, some, [], ◌∷◌, ◌++◌, arith,
}
use warehouse_accounting_sys.Exec.{Outcome, ok, throws, ok-injective}
use warehouse_accounting_sys.Query.Text.{Text}
use warehouse_accounting_sys.Query.Options.{
  QueryOptions, QueryIdentificator, identificator, serialize_parametrized,
}
use warehouse_accounting_sys.Query.Options.Equality.{equals_options}
use warehouse_accounting_sys.QueryManager.{
  QueryManager, Supported, eq_identificator, put, find_query, add_traced, get_or_support_query_id,
}
use warehouse_accounting_sys.QueryManager.Stored.{
  Among, Stores, WellFormed, call-Added, get_or_support_query_id-Stores,
}
use warehouse_accounting_sys.QueryManager.Iterator.{
  Field, reversed, begin_iterators, total, all_fields,
}
use warehouse_accounting_sys.QueryManager.Iterator.Merged.{
  Descending, fields-covers, fields-within, fields-Descending,
}
use warehouse_accounting_sys.QueryManager.Refresh.{
  Connection, refresh_supported_queries, create_cached_entry, with_id, refreshed,
}
use warehouse_accounting_sys.QueryManager.Refresh.Ordered.{
  Ordered, Ordered-iterators, Stores-InAny, InAny-Stores, reversed-Among,
}
use warehouse_accounting_sys.QueryManager.Refresh.Serving.{IsPrepared, refresh_fields_ok}

reversed-last : (vec : Supported) (f : Field) → reversed (vec ++ f ∷ []) ≡ f ∷ reversed vec
unfolding reversed
reversed-last [] f = refl
reversed-last (g ∷ vec) f = ap (λ r. r ++ g ∷ []) (reversed-last vec f)

whole_injective {ℓ} : {A : Type ℓ} {a b : A} → some a ≡ some b → a ≡ b
whole_injective h = cc

put-Ordered :
    (m : QueryManager) (key : QueryIdentificator) (vec : Supported) (new : ℕ) (o : QueryOptions)
    → Ordered m
    → Descending (reversed vec)
    → ((i : ℕ) (x : QueryOptions) → Among i x vec → i ≤ new)
    → (k : QueryIdentificator) (v : Supported)
    → put key (vec ++ (new, o) ∷ []) m.supported k ≡ some v
    → Descending (reversed v)
put-Ordered m key vec new o ordered down below k v found =
    elim (Bool-cases (eq_identificator key k)) [
      | inl b ↦
          subst (λ x. Descending (reversed x)) (whole_injective (rw b at found))
            (subst Descending (sym (reversed-last vec (new, o)))
              (λ g h. below g.0 g.1 (reversed-Among g vec h), down))
      | inr b ↦ ordered k v (rw b at found)
    ]

add_traced-Ordered :
    {T : Type 0} (r : Outcome T) (options : QueryOptions) (vec : Supported) (m : QueryManager)
    → Ordered m
    → Descending (reversed vec)
    → ((i : ℕ) (x : QueryOptions) → Among i x vec → i ≤ m.current_id)
    → Ordered (add_traced r options vec m).1
add_traced-Ordered (ok text) options vec m ordered down below =
    put-Ordered m (identificator options) vec m.current_id options ordered down below
add_traced-Ordered (throws e) options vec m ordered down below = ordered

-- Asking for an id keeps the vectors in order.
call-Ordered :
    (options : QueryOptions) (m : QueryManager)
    → WellFormed m
    → Ordered m
    → Ordered (get_or_support_query_id options m).1
unfolding get_or_support_query_id reversed
call-Ordered options m (below, one) ordered =
    elim (Option-cases (m.supported (identificator options))) [
      | inl e ↦ rw e (
          add_traced-Ordered (serialize_parametrized options 1).0 options [] m ordered tt
            (λ i x h. absurd h))
      | inr (vec, e) ↦ elim (Option-cases (find_query options vec)) [
        | inl f ↦
            rw (e, f)
              (add_traced-Ordered (serialize_parametrized options 1).0 options vec m ordered
                (ordered (identificator options) vec e)
                (λ i x h. omega (arith, below i x (identificator options, vec, e, h))))
        | inr (id, f) ↦ rw (e, f) ordered
      ]
    ]

-- The stored queries up to the last supported id are prepared.
abbrev pub Serves : QueryManager → Connection → Type 0
Serves m c =
    (id : ℕ) (o : QueryOptions) → Stores m id o → id ≤ c.last_supported_query → IsPrepared c (id, o)

not_above : (a b : ℕ) → ltb a b ≡ false → b ≤ a
not_above a b h = ground arith

module _ (prepare : ℕ → Text → Outcome (Unit {0})) where
  -- A refresh that succeeds leaves every stored query prepared.
  pub refresh-prepares :
      (m : QueryManager) (c d : Connection) {u : Unit {0}}
      → Ordered m
      → Serves m c
      → refresh_supported_queries prepare m c ≡ some (ok u, d)
      → (id : ℕ) (o : QueryOptions) → Stores m id o
      → IsPrepared d (id, o)
  refresh-prepares m c d ordered serves run id o there =
      let iterators = begin_iterators m in
      let down = Ordered-iterators m ordered in
      refresh_fields_ok prepare (all_fields m) c d
        (fields-Descending (total iterators) iterators down)
        (λ f k le.
          serves f.0 f.1 (InAny-Stores m f (fields-within (total iterators) iterators down f k)) le)
        run (id, o)
        (fields-covers (total iterators) iterators down (omega arith) (id, o)
          (Stores-InAny m id o there))

  refreshed_ok :
      (i id : ℕ) (m t : QueryManager) (d : Connection)
      (r : Option (Outcome (Unit {0}) × Connection))
      → refreshed prepare i m r ≡ some (ok id, (t, d))
      → (i ≡ id) × (m ≡ t) × (r ≡ some (ok tt, d))
  refreshed_ok i id m t d none h = cc
  refreshed_ok i id m t d (some (ok u, c)) h =
      let same : (ok i, (m, c)) ≡ (ok id, (t, d)) = whole_injective h in
      (ok-injective (ap (λ x. x.0) same), ap (λ x. x.1.0) same, ap (λ x. some (ok tt, x.1.1)) same)
  refreshed_ok i id m t d (some (throws e, c)) h = cc

  with_id_prepares :
      (p : Outcome ℕ × QueryManager) (c d : Connection) (t : QueryManager) (id : ℕ)
      → Ordered p.1
      → Serves p.1 c
      → with_id prepare p c ≡ some (ok id, (t, d))
      → (p ≡ (ok id, t)) × ((o : QueryOptions) → Stores t id o → IsPrepared d (id, o))
  with_id_prepares (throws e, m) c d t id ordered serves h = cc
  with_id_prepares (ok i, m) c d t id ordered serves h =
      elim (Bool-cases (ltb c.last_supported_query i)) [
        | inl b ↦
            let (e, f, run) = refreshed_ok i id m t d _ (rw b at h) in
            (
              ap (λ n. (ok n, m)) e ∙ ap (λ x. (ok id, x)) f,
              λ o there.
                  refresh-prepares m c d ordered serves run id o
                    (subst (λ x. Stores x id o) (sym f) there),
            )
        | inr b ↦
            let same : (ok i, (m, c)) ≡ (ok id, (t, d)) = whole_injective (rw b at h) in
            let is = ok-injective (ap (λ x. x.0) same) in
            (
              ap (λ x. (x.0, x.1.0)) same,
              λ o there.
                  subst (λ x. IsPrepared x (id, o)) (ap (λ x. x.1.1) same)
                    (serves id o (subst (λ x. Stores x id o) (sym (ap (λ x. x.1.0) same)) there)
                      (omega (arith, is, not_above c.last_supported_query i b))),
            )
      ]

  -- When the ids are given out in order, the vectors are in order and the stored queries up to the
  -- last supported id are prepared, the id that a cached entry executes is stored with the requested
  -- options, or with options that `Equals` takes for them, and their statement is prepared under it.
  pub create_cached_entry-prepares :
      (options : QueryOptions) (m t : QueryManager) (c d : Connection) (id : ℕ)
      → WellFormed m
      → Ordered m
      → c.last_supported_query < m.current_id
      → Serves m c
      → create_cached_entry prepare options m c ≡ some (ok id, (t, d))
      → (o : QueryOptions) × Stores t id o
        × ((o ≡ options) ⊎ (equals_options o options ≡ true))
        × IsPrepared d (id, o)
  unfolding create_cached_entry
  create_cached_entry-prepares options m t c d id formed ordered last serves h =
      let (kept, only, answer, next) = call-Added options m in
      let (same, prepared) =
        with_id_prepares (get_or_support_query_id options m) c d t id
          (call-Ordered options m formed ordered)
          (λ i o there le. elim (only i o there) [
            | inl old ↦ serves i o old le
            | inr (new, is) ↦ absurd (omega (arith, new, last, le))
          ])
          h in
      let (o, there, close) = get_or_support_query_id-Stores options m t id same in
      (o, there, close, prepared o there)
