-- ===== src/Transaction/Atomic.antt =====
-- `Transaction::Execute` of transaction.cpp, with its attempts on the database.
use warehouse_accounting_sys.Base.{
  ℕ, suc, ◌==◌, false, ◌≤◌, ◌≡◌, ◌≢◌, refl, sym, ap, subst, ◌∙◌, some, inl, inr, arith,
}
use warehouse_accounting_sys.Result.{Result, success}
use warehouse_accounting_sys.Exec.{Outcome, ok, throws, Exception}
use warehouse_accounting_sys.Transaction.{
  Entry, Persistence, Session, Local, commit_local, run_chain, attempt, restarted, reinitialize,
  execute,
}
use warehouse_accounting_sys.Transaction.Loop.{verdict, Retries}
use warehouse_accounting_sys.Transaction.Attempts.{
  Ends, Settles, Unlimited, retry_loop-Settles, retry_loop-Unlimited, Retries-keep,
}

-- A commit that throws left the tables alone; libpqxx promises it for every failure but one in doubt.
abbrev pub FailedCommitKeeps {κ} : (p : Persistence) {X : Type κ} → (p.World → X) → Type κ
FailedCommitKeeps p tables =
    (v : p.View) (w : p.World) (e : Exception)
    → (p.commit v w).0 ≡ throws e
    → tables (p.commit v w).1 ≡ tables w

some-injective {ℓ} : {A : Type ℓ} {a b : A} → some a ≡ some b → a ≡ b
some-injective h = cc

suc_is_not_zero : (n : ℕ) → (suc n == 0) ≡ false
suc_is_not_zero n = ground arith

module _ (p : Persistence) (M : Type 0) where
  -- With a limit of one attempt or more and as much fuel, the run returns: every attempt failed to
  -- serialize, and the answer is ERROR; or the first that did not decides the answer; or no new
  -- transaction could be begun behind one that did, and the exception leaves the run.
  pub execute-Settles :
      (n fuel : ℕ) (e : Entry (Local p M)) (s : Session p M)
      → suc n ≤ fuel
      → Settles (attempt p M e) (reinitialize p M) (suc n) s (execute p M fuel (suc n) (some e) s)
  unfolding execute
  execute-Settles n fuel e s h =
      rw (execute, suc_is_not_zero n)
        (retry_loop-Settles (attempt p M e) (reinitialize p M) fuel (suc n) (suc n) s (omega arith)
          (omega arith) h)

  -- With a limit of 0 the run never gives up: it is still retrying when the fuel ends, or the first
  -- attempt that did not fail to serialize decided the answer, or no new transaction could be begun
  -- and the exception left the run.
  pub execute-Unlimited :
      (fuel : ℕ) (e : Entry (Local p M)) (s : Session p M)
      → Unlimited (attempt p M e) (reinitialize p M) fuel s (execute p M fuel 0 (some e) s)
  unfolding execute
  execute-Unlimited fuel e s = retry_loop-Unlimited (attempt p M e) (reinitialize p M) fuel s

module _ {κ} (p : Persistence) (M : Type 0) {X : Type κ} (tables : p.World → X)
    (keeps : FailedCommitKeeps p tables) where
  commit-keeps :
      (w : p.World) (r : Outcome (Unit {0}) × Local p M)
      → verdict (commit_local p M w r).0 ≢ some success
      → tables (commit_local p M w r).1.world ≡ tables w
  commit-keeps w (throws e, (v, m)) h = refl
  commit-keeps w (ok tt, (v, m)) h = go (p.commit v w).0 refl
    where
      go : (o : Outcome (Unit {0})) → (p.commit v w).0 ≡ o → tables (p.commit v w).1 ≡ tables w
      go (ok u) e = absurd (h (ap verdict e))
      go (throws x) e = keeps v w x e

  attempt-keeps :
      (e : Entry (Local p M)) (s : Session p M)
      → verdict (attempt p M e s).0 ≢ some success
      → tables (attempt p M e s).1.world ≡ tables s.world
  unfolding attempt
  attempt-keeps e s h = commit-keeps s.world (run_chain e (s.view, s.memory)) h

  restarted-keeps :
      (s : Session p M) (r : Outcome p.View) → tables (restarted p M s r).1.world ≡ tables s.world
  restarted-keeps s (ok v) = refl
  restarted-keeps s (throws e) = refl

  reinitialize-keeps : (s : Session p M) → tables (reinitialize p M s).1.world ≡ tables s.world
  unfolding reinitialize
  reinitialize-keeps s = restarted-keeps s (p.restart s.world)

  Retries-keep_tables :
      (e : Entry (Local p M)) (k : ℕ) (s u : Session p M)
      → Retries (attempt p M e) (reinitialize p M) k s u
      → tables u.world ≡ tables s.world
  Retries-keep_tables e k s u path =
      Retries-keep (attempt p M e) (reinitialize p M) (λ x. tables x.world ≡ tables s.world)
        (λ x h same. attempt-keeps e x h ∙ same) (λ x same. reinitialize-keeps x ∙ same) k s u path
        refl

  Ends-keeps :
      (e : Entry (Local p M)) (u t : Session p M) (answer : Outcome Result)
      → Ends (attempt p M e) (reinitialize p M) u (some answer, t)
      → answer ≢ ok success
      → tables t.world ≡ tables u.world
  Ends-keeps e u t answer (inl (r, z, answer', step, v, is)) bad =
      let after : (attempt p M e u).1 ≡ t = ap (λ x. x.1) step ∙ sym (ap (λ x. x.1) is) in
      let answered : some answer ≡ some (ok answer') = ap (λ x. x.0) is in
      ap (λ x. tables x.world) (sym after)
      ∙ attempt-keeps e u (λ q. bad (
          some-injective answered
          ∙ ap ok (some-injective (sym v ∙ sym (ap (λ x. verdict x.0) step) ∙ q))))
  Ends-keeps e u t answer (inr (r, z, x, v, step, failed, refused, is)) bad =
      let after : (reinitialize p M (attempt p M e u).1).1 ≡ t =
        ap (λ a. (reinitialize p M a.1).1) step ∙ ap (λ a. a.1) refused ∙ sym (ap (λ a. a.1) is) in
      ap (λ a. tables a.world) (sym after)
      ∙ reinitialize-keeps (attempt p M e u).1
      ∙ attempt-keeps e u (λ q. cc (sym failed ∙ sym (ap (λ a. verdict a.0) step) ∙ q))

  -- When no commit is in doubt, a run with a limit that ends with anything but SUCCESS, an exception
  -- included, leaves the tables as they were before, whatever the entries had written.
  pub execute-atomic :
      (n fuel : ℕ) (e : Entry (Local p M)) (s t : Session p M) (answer : Outcome Result)
      → suc n ≤ fuel
      → execute p M fuel (suc n) (some e) s ≡ (some answer, t)
      → answer ≢ ok success
      → tables t.world ≡ tables s.world
  execute-atomic n fuel e s t answer h run bad =
      let (k, u, path, settled) = execute-Settles p M n fuel e s h in
      let before = Retries-keep_tables e k s u path in
      elim settled [
        | inl (all, is) ↦
            let same : u ≡ t = ap (λ x. x.1) (sym is ∙ run) in
            ap (λ x. tables x.world) (sym same) ∙ before
        | inr (lt, ends) ↦
            Ends-keeps e u t answer (subst (Ends (attempt p M e) (reinitialize p M) u) run ends) bad
            ∙ before
      ]
