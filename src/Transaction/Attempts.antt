-- ===== src/Transaction/Attempts.antt =====
-- The retry loop of `Transaction::Execute`: its attempts and its answer.
use warehouse_accounting_sys.Base.{
  ℕ, zero, suc, ◌-◌, ◌≤◌, ◌<◌, ◌≡◌, ◌≢◌, ap, refl, sym, subst, ◌∙◌, true, false, Bool-cases, Option,
  none, some, Option-cases, ltb, if◌then◌else◌, ◌⊎◌, inl, inr, arith,
}
use warehouse_accounting_sys.Result.{Result, success, error}
use warehouse_accounting_sys.Exec.{Outcome, ok, throws, Exception, Exec}
use warehouse_accounting_sys.Transaction.Loop.{
  verdict, when_restarted, when_restarted-throws, retry_loop, Retries, here, again,
}

restart-cases :
    {S : Type 0} (r : Outcome (Unit {0}) × S)
    → ((v : S) × (r ≡ (ok tt, v))) ⊎ ((x : Exception) × (v : S) × (r ≡ (throws x, v)))
restart-cases (ok tt, v) = inl (v, refl)
restart-cases (throws x, v) = inr (x, v, refl)

-- How a run of attempts ends: the attempt that does not fail to serialize decides, or no new transaction
-- can be begun behind one that does, and the exception leaves the loop.
module _ {S : Type 0} (attempt reinitialize : Exec S (Unit {0})) where
  abbrev pub Ends : S → Option (Outcome Result) × S → Type 0
  Ends u result =
      ((r : Outcome (Unit {0})) × (t : S) × (answer : Result) × (attempt u ≡ (r, t))
        × (verdict r ≡ some answer)
        × (result ≡ (some (ok answer), t)))
      ⊎ ((r : Outcome (Unit {0})) × (t : S) × (x : Exception) × (v : S) × (attempt u ≡ (r, t))
          × (verdict r ≡ none)
          × (reinitialize t ≡ (throws x, v))
          × (result ≡ (some (throws x), v)))

  abbrev pub Settled : ℕ → ℕ → S → Option (Outcome Result) × S → Type 0
  Settled remaining k u result =
      ((k ≡ remaining) × (result ≡ (some (ok error), u))) ⊎ ((k < remaining) × Ends u result)

  abbrev pub Settles : ℕ → S → Option (Outcome Result) × S → Type 0
  Settles remaining s result =
      (k : ℕ) × (u : S) × Retries attempt reinitialize k s u × Settled remaining k u result

  ltb_lem : (n : ℕ) → 0 < n → ltb 0 n ≡ true
  ltb_lem n h = ground arith

  -- What follows an attempt that fails to serialize.
  abbrev behind : ℕ → ℕ → ℕ → S → Option (Outcome Result) × S
  behind fuel n remaining u =
      let left = if ltb 0 n then remaining - 1 else remaining in
      elim (ltb 0 left) [
        | true ↦ retry_loop attempt reinitialize fuel n left u
        | false ↦ (some (ok error), u)
      ]

  retry_loop-serialization :
      (fuel n remaining : ℕ) (s : S)
      → verdict (attempt s).0 ≡ none
      → retry_loop attempt reinitialize (suc fuel) n remaining s
        ≡ when_restarted (reinitialize (attempt s).1) (behind fuel n remaining)
  unfolding retry_loop
  retry_loop-serialization fuel n remaining s e = rw (e, retry_loop) refl

  retry_loop-decided :
      (fuel n remaining : ℕ) (s : S) (answer : Result)
      → verdict (attempt s).0 ≡ some answer
      → Ends s (retry_loop attempt reinitialize (suc fuel) n remaining s)
  unfolding retry_loop
  retry_loop-decided fuel n remaining s answer e =
      inl ((attempt s).0, (attempt s).1, answer, refl, e, rw (e, retry_loop) refl)

  retry_loop-refused :
      (fuel n remaining : ℕ) (s v : S) (x : Exception)
      → verdict (attempt s).0 ≡ none
      → reinitialize (attempt s).1 ≡ (throws x, v)
      → Ends s (retry_loop attempt reinitialize (suc fuel) n remaining s)
  retry_loop-refused fuel n remaining s v x e refused = inr (
    (attempt s).0,
    (attempt s).1,
    x,
    v,
    refl,
    e,
    refused,
    retry_loop-serialization fuel n remaining s e
        ∙ when_restarted-throws (reinitialize (attempt s).1) (behind fuel n remaining) x v refused,
  )

  retry_again :
      (fuel n remaining : ℕ) (s v : S)
      → verdict (attempt s).0 ≡ none
      → reinitialize (attempt s).1 ≡ (ok tt, v)
      → retry_loop attempt reinitialize (suc fuel) n remaining s ≡ behind fuel n remaining v
  retry_again fuel n remaining s v e begun =
      retry_loop-serialization fuel n remaining s e
      ∙ ap (λ q. when_restarted q (behind fuel n remaining)) begun

  behind-again :
      (fuel n remaining : ℕ) (v : S)
      → 0 < n
      → ltb 0 (remaining - 1) ≡ true
      → behind fuel n remaining v ≡ retry_loop attempt reinitialize fuel n (remaining - 1) v
  behind-again fuel n remaining v h b = rw (behind, ltb_lem n h, b, ltb_lem n h) refl

  behind-last :
      (fuel n remaining : ℕ) (v : S)
      → 0 < n
      → ltb 0 (remaining - 1) ≡ false
      → behind fuel n remaining v ≡ (some (ok error), v)
  behind-last fuel n remaining v h b = rw (behind, ltb_lem n h, b) refl

  Settled-again :
      (remaining k : ℕ) (u : S) (result : Option (Outcome Result) × S)
      → 0 < remaining
      → Settled (remaining - 1) k u result
      → Settled remaining (suc k) u result
  Settled-again remaining k u result h (inl (e, is)) = inl (omega arith, is)
  Settled-again remaining k u result h (inr (lt, ends)) = inr (omega arith, ends)

  -- With a limit, that many rounds of fuel give a result.
  pub retry_loop-Settles :
      (fuel n remaining : ℕ) (s : S)
      → 0 < n
      → 0 < remaining
      → remaining ≤ fuel
      → Settles remaining s (retry_loop attempt reinitialize fuel n remaining s)
  retry_loop-Settles zero n remaining s hn hr hf = absurd (omega arith)
  retry_loop-Settles (suc fuel) n remaining s hn hr hf =
      let r = (attempt s).0 in
      let t = (attempt s).1 in
      elim (Option-cases (verdict r)) [
        | inr (answer, e) ↦ (0, s, here s, inr (hr, retry_loop-decided fuel n remaining s answer e))
        | inl e ↦ elim (restart-cases (reinitialize t)) [
          | inr (x, v, refused) ↦
              (0, s, here s, inr (hr, retry_loop-refused fuel n remaining s v x e refused))
          | inl (v, begun) ↦
              let step = retry_again fuel n remaining s v e begun in
              elim (Bool-cases (ltb 0 (remaining - 1))) [
                | inl b ↦
                    let (k, u, path, settled) =
                      retry_loop-Settles fuel n (remaining - 1) v hn (ground arith) (omega arith) in
                    (
                      suc k,
                      u,
                      again k s t v u r refl e begun path,
                      subst (Settled remaining (suc k) u)
                          (sym (step ∙ behind-again fuel n remaining v hn b))
                          (Settled-again remaining k u _ hr settled),
                    )
                | inr b ↦ (
                  1,
                  v,
                  again 0 s t v v r refl e begun (here v),
                  inl (ground arith, step ∙ behind-last fuel n remaining v hn b),
                )
              ]
        ]
      ]

  -- What every failed attempt and a new transaction keep, the failing attempts keep.
  pub Retries-keep {κ} :
      (P : S → Type κ)
      → ((s : S) → verdict (attempt s).0 ≢ some success → P s → P (attempt s).1)
      → ((s : S) → P s → P (reinitialize s).1)
      → (k : ℕ) (s u : S) → Retries attempt reinitialize k s u
      → P s
      → P u
  Retries-keep P f g _ _ _ (here s) h = h
  Retries-keep P f g _ _ _ (again k s t v u r e d begun rest) h = Retries-keep P f g k v u rest (
      subst P (ap (λ x. x.1) begun) (g t (subst P (ap (λ x. x.1) e) (f s (rw (e, d) (λ x. cc)) h))))

  -- Without a limit, every round of fuel was an attempt that failed to serialize, or the run ended before.
  abbrev pub Unlimited : ℕ → S → Option (Outcome Result) × S → Type 0
  Unlimited fuel s result =
      (k : ℕ) × (u : S) × Retries attempt reinitialize k s u
      × (((k ≡ fuel) × (result ≡ (none, u))) ⊎ ((k < fuel) × Ends u result))

  Unlimited-again :
      (fuel k : ℕ) (u : S) (result : Option (Outcome Result) × S)
      → ((k ≡ fuel) × (result ≡ (none, u))) ⊎ ((k < fuel) × Ends u result)
      → ((suc k ≡ suc fuel) × (result ≡ (none, u))) ⊎ ((suc k < suc fuel) × Ends u result)
  Unlimited-again fuel k u result (inl (all, is)) = inl (ap suc all, is)
  Unlimited-again fuel k u result (inr (lt, ends)) = inr (omega arith, ends)

  pub retry_loop-Unlimited :
      (fuel : ℕ) (s : S) → Unlimited fuel s (retry_loop attempt reinitialize fuel 0 1 s)
  unfolding retry_loop
  retry_loop-Unlimited zero s = (0, s, here s, inl (refl, refl))
  retry_loop-Unlimited (suc fuel) s =
      let r = (attempt s).0 in
      let t = (attempt s).1 in
      elim (Option-cases (verdict r)) [
        | inr (answer, e) ↦
            (0, s, here s, inr (omega arith, retry_loop-decided fuel 0 1 s answer e))
        | inl e ↦ elim (restart-cases (reinitialize t)) [
          | inr (x, v, refused) ↦
              (0, s, here s, inr (omega arith, retry_loop-refused fuel 0 1 s v x e refused))
          | inl (v, begun) ↦
              let (k, u, path, settled) = retry_loop-Unlimited fuel v in
              (
                suc k,
                u,
                again k s t v u r refl e begun path,
                Unlimited-again fuel k u _ (
                    subst
                      (λ result. ((k ≡ fuel) × (result ≡ (none, u))) ⊎ ((k < fuel) × Ends u result))
                      (sym (retry_again fuel 0 1 s v e begun)) settled),
              )
        ]
      ]
