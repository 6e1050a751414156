-- ===== src/Transaction/Steps.antt =====
-- Single attempts of `Transaction::Execute` in transaction.cpp.
use warehouse_accounting_sys.Base.{ℕ, suc, ◌≡◌, ap, ◌∙◌, some}
use warehouse_accounting_sys.Result.{Result}
use warehouse_accounting_sys.Exec.{Outcome, ok, throws, serialization_failure, Exception}
use warehouse_accounting_sys.Transaction.{
  Entry, Persistence, Session, Local, run_chain, attempt, restarted, reinitialize, execute,
  commit_local,
}
use warehouse_accounting_sys.Transaction.Loop.{retry_loop, verdict, when_restarted-throws}

module _ (p : Persistence) (M : Type 0) where
  -- An attempt whose entries succeed ends with what the commit answers.
  pub attempt_commits :
      (e : Entry (Local p M)) (s : Session p M) (v : p.View) (m : M) (r : Outcome (Unit {0}))
      (w : p.World)
      → run_chain e (s.view, s.memory) ≡ (ok tt, (v, m))
      → p.commit v s.world ≡ (r, w)
      → attempt p M e s ≡ (r, record { view = v; world = w; memory = m })
  unfolding attempt
  attempt_commits e s v m r w run commit =
      ap (commit_local p M s.world) run
      ∙ ap (λ c. (c.0, record { view = v; world = c.1; memory = m })) commit

  -- An attempt whose entries throw ends with the exception.
  pub attempt_throws :
      (e : Entry (Local p M)) (s : Session p M) (v : p.View) (m : M) (x : Exception)
      → run_chain e (s.view, s.memory) ≡ (throws x, (v, m))
      → attempt p M e s ≡ (throws x, record { view = v; world = s.world; memory = m })
  unfolding attempt
  attempt_throws e s v m x run = ap (commit_local p M s.world) run

  -- The first attempt decides, unless it failed to serialize.
  pub execute_decided :
      (n fuel : ℕ) (e : Entry (Local p M)) (s t : Session p M) (r : Outcome (Unit {0}))
      (result : Result)
      → attempt p M e s ≡ (r, t)
      → verdict r ≡ some result
      → execute p M (suc fuel) n (some e) s ≡ (some (ok result), t)
  unfolding execute retry_loop
  execute_decided n fuel e s t r result h d =
      rw (execute, retry_loop, ap (λ a. verdict a.0) h ∙ d) (ap (λ a. (some (ok result), a.1)) h)

  -- When an attempt fails to serialize and no other transaction can be begun, its exception leaves `Execute`.
  pub execute_refused :
      (n fuel : ℕ) (e : Entry (Local p M)) (s t : Session p M) (x : Exception)
      → attempt p M e s ≡ (throws serialization_failure, t)
      → p.restart t.world ≡ throws x
      → execute p M (suc fuel) n (some e) s ≡ (some (throws x), t)
  unfolding execute retry_loop reinitialize
  execute_refused n fuel e s t x h refused =
      rw (execute, retry_loop, ap (λ a. verdict a.0) h)
        (when_restarted-throws _ _ x t
          (ap (λ a. reinitialize p M a.1) h ∙ ap (restarted p M t) refused))
