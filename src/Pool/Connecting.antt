-- ===== src/Pool/Connecting.antt =====
-- `CreateConnection` of connection_pool.cpp: its attempts to connect.
use warehouse_accounting_sys.Base.{
  ℕ, zero, suc, ◌-◌, ◌≤◌, ◌<◌, ◌≡◌, refl, subst, true, Bool-cases, Option, some, ltb, ◌⊎◌, inl, inr,
  arith,
}
use warehouse_accounting_sys.Exec.{Outcome, ok, throws, Exception, runtime_error, Outcome-cases}
use warehouse_accounting_sys.Pool.{create_from}

below :
    {attempts first : ℕ} (k : ℕ)
    → ltb (suc first) attempts ≡ true
    → ((k ≡ suc first) ⊎ (k < attempts))
    → k < attempts
below k b (inl same) = ground arith
below k b (inr less) = less

module _ {C : Type 0} where
  -- All attempts from `first` up to `last` fail, the last one not counted.
  abbrev pub Fail : (ℕ → Outcome C) → ℕ → ℕ → Type 0
  Fail connect first last =
      (i : ℕ) → first ≤ i → i < last → (e : Exception) × (connect i ≡ throws e)

  -- The first attempt that connects gives the connection, and it is the very first one or below the
  -- number of attempts; when these all failed, an exception is thrown.
  abbrev pub Connects : (ℕ → Outcome C) → ℕ → ℕ → Option (Outcome C) → Type 0
  Connects connect attempts first result =
      ((k : ℕ) × (c : C) × (first ≤ k)
        × ((k ≡ first) ⊎ (k < attempts))
        × Fail connect first k
        × (connect k ≡ ok c)
        × (result ≡ some (ok c)))
      ⊎ (((e : Exception) × (connect first ≡ throws e))
          × Fail connect first attempts
          × (result ≡ some (throws runtime_error)))

  Fail-extend :
      (connect : ℕ → Outcome C) (first last : ℕ) (e : Exception)
      → connect first ≡ throws e
      → Fail connect (suc first) last
      → Fail connect first last
  Fail-extend connect first last e failed rest i from to = elim (Bool-cases (ltb first i)) [
    | inl b ↦ rest i (ground arith) to
    | inr b ↦
        let same : first ≡ i = ground arith in
        subst (λ n. (x : Exception) × (connect n ≡ throws x)) same (e, failed)
  ]

  -- With as much fuel as attempts are left, and one more, `CreateConnection` returns: the first attempt
  -- that connects gives the connection, and it is the very first one or below the number of attempts;
  -- when the very first one and all below the number of attempts failed, it throws.
  pub create_from-Connects :
      (connect : ℕ → Outcome C) (attempts fuel first : ℕ)
      → attempts - first < fuel
      → Connects connect attempts first (create_from connect attempts fuel first)
  unfolding create_from
  create_from-Connects connect attempts zero first h = absurd (omega arith)
  create_from-Connects connect attempts (suc fuel) first h = elim (Outcome-cases (connect first)) [
    | inl (c, e) ↦ inl (
      first,
      c,
      omega arith,
      inl refl,
      λ i from to. absurd (omega (arith, from, to)),
      e,
      rw (e, create_from) refl,
    )
    | inr (x, e) ↦ elim (Bool-cases (ltb (suc first) attempts)) [
      | inl b ↦ elim (create_from-Connects connect attempts fuel (suc first) (ground arith)) [
        | inl (k, c, from, within, failed, found, is) ↦ inl (
          k,
          c,
          omega (arith, from),
          inr (below k b within),
          Fail-extend connect first k x e failed,
          found,
          rw (e, create_from, b) is,
        )
        | inr (next, failed, is) ↦
            inr ((x, e), Fail-extend connect first attempts x e failed, rw (e, create_from, b) is)
      ]
      | inr b ↦
          let last : attempts ≤ suc first = ground arith in
          inr (
            (x, e),
            Fail-extend connect first attempts x e
                (λ i from to. absurd (omega (arith, from, to, last))),
            rw (e, create_from, b) refl,
          )
    ]
  ]
