-- ===== src/Transaction/Loop.antt =====
-- The `do … while` of `Transaction::Execute`, and its handlers.
use warehouse_accounting_sys.Base.{
  ℕ, zero, suc, ◌-◌, ◌≡◌, ap, true, false, Option, none, some, ltb, if◌then◌else◌,
}
use warehouse_accounting_sys.Result.{Result, success, error, violation, not_found}
use warehouse_accounting_sys.Exec.{
  Exception, Outcome, ok, throws, Exec, runtime_error, integrity_constraint_violation,
  serialization_failure, not_found_exception, in_doubt_error, other_exception,
}

-- The result that a handler returns; none for a serialization failure, which is retried.
abbrev pub verdict : Outcome (Unit {0}) → Option Result
verdict (ok u) = some success
verdict (throws serialization_failure) = none
verdict (throws integrity_constraint_violation) = some violation
verdict (throws not_found_exception) = some not_found
verdict (throws in_doubt_error) = some error
verdict (throws runtime_error) = some error
verdict (throws other_exception) = some error

-- What `reinitialize` threw leaves `Execute`, since it is called in a handler.
abbrev pub when_restarted :
    {S : Type 0}
    → Outcome (Unit {0}) × S
    → (S → Option (Outcome Result) × S)
    → Option (Outcome Result) × S
when_restarted (ok u, s) go = go s
when_restarted (throws e, s) go = (some (throws e), s)

pub when_restarted-throws :
    {S : Type 0} (r : Outcome (Unit {0}) × S) (go : S → Option (Outcome Result) × S) (x : Exception)
    (s : S)
    → r ≡ (throws x, s)
    → when_restarted r go ≡ (some (throws x), s)
when_restarted-throws r go x s h = ap (λ q. when_restarted q go) h

module _ {S : Type 0} (attempt reinitialize : Exec S (Unit {0})) where
  -- `attemptsRemaining` goes down only when `m_commitAttempts` is not 0, so that 0 means no limit.
  unfoldable pub retry_loop : ℕ → ℕ → ℕ → S → Option (Outcome Result) × S
  retry_loop zero commit_attempts remaining s = (none, s)
  retry_loop (suc fuel) commit_attempts remaining s =
      let (r, t) = attempt s in
      elim (verdict r) [
        | some result ↦ (some (ok result), t)
        | none ↦
            let left = if ltb 0 commit_attempts then remaining - 1 else remaining in
            when_restarted (reinitialize t) λ u. elim (ltb 0 left) [
              | true ↦ retry_loop fuel commit_attempts left u
              | false ↦ (some (ok error), u)
            ]
      ]

-- `k` attempts in a row that fail to serialize, each with a new transaction behind it, lead from one state
-- to the other.
pub data Retries {S : Type 0} (attempt reinitialize : Exec S (Unit {0})) : ℕ → S → S → Type 0 where
  here : (s : S) → Retries attempt reinitialize 0 s s
  again :
      (k : ℕ) (s t v u : S) (r : Outcome (Unit {0}))
      → attempt s ≡ (r, t)
      → verdict r ≡ none
      → reinitialize t ≡ (ok tt, v)
      → Retries attempt reinitialize k v u
      → Retries attempt reinitialize (suc k) s u
