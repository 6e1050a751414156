-- ===== src/Transaction.antt =====
-- back/services/db_connector/source/transaction/source/transaction.cpp and its entries: a chain of
-- entries that is executed within one database transaction, and retried.
pub mod Loop
pub mod Attempts
pub mod Atomic
pub mod Steps
use warehouse_accounting_sys.Base.{ℕ, Bool, true, false, Option, none, some, ◌==◌, if◌then◌else◌}
use warehouse_accounting_sys.Result.{Result, success}
use warehouse_accounting_sys.Exec.{Outcome, ok, throws, Exec, pure, ◌>>=◌, ◌>>◌}
use warehouse_accounting_sys.Transaction.Loop.{retry_loop}

-- The entries of a chain over the state `S`. `function` stands for `VariableTransactionEntry` and for
-- the query entries, whose `Execute` sends a statement and stores its result; a `Link` is the
-- pointer to the next entry.
mutual
  pub data Entry (S : Type 0) : Type 0 where
    function : Exec S (Unit {0}) → Link S → Entry S
    grouped : Entries S → Link S → Entry S
    condition : Exec S Bool → Link S → Link S → Entry S

  pub data Link (S : Type 0) : Type 0 where
    stop : Link S
    next : Entry S → Link S

  pub data Entries (S : Type 0) : Type 0 where
    nil : Entries S
    cons : Entry S → Entries S → Entries S

-- `Execute()` of an entry. A grouped entry does not look at its members' next entries.
abbrev mutual
  pub execute_entry : {S : Type 0} → Entry S → Exec S (Unit {0})
  execute_entry (function f l) = f
  execute_entry (grouped es l) = execute_all es
  execute_entry (condition p a b) = p >>= λ r. pure tt

  pub execute_all : {S : Type 0} → Entries S → Exec S (Unit {0})
  execute_all nil = pure tt
  execute_all (cons e es) = execute_entry e >> execute_all es

-- The inner `while`: `Execute()`, then `GetNext()`, which for a condition is the branch that its
-- predicate chose.
abbrev mutual
  pub run_chain : {S : Type 0} → Entry S → Exec S (Unit {0})
  run_chain (function f l) = f >> run_link l
  run_chain (grouped es l) = execute_all es >> run_link l
  run_chain (condition p a b) = p >>= λ r. elim r [ true ↦ run_link a | false ↦ run_link b ]

  pub run_link : {S : Type 0} → Link S → Exec S (Unit {0})
  run_link stop = pure tt
  run_link (next e) = run_chain e

-- What libpqxx does to begin and to commit a transaction: a parameter. `restart` begins one while the
-- transaction before is still there.
pub record Persistence : Type 1 where
  pub World : Type 0
  pub View : Type 0
  pub begin : World → View
  pub restart : World → Outcome View
  pub commit : View → World → Outcome (Unit {0}) × World

-- The transaction's view of the tables, what is outside of it, and the variables that the entries share
-- with their task. A new transaction has a new view; the variables stay as they are.
pub record Session (p : Persistence) (M : Type 0) : Type 0 where
  pub view : p.View
  pub world : p.World
  pub memory : M

module _ (p : Persistence) (M : Type 0) where
  -- The entries work on the view and on the variables.
  abbrev pub Local : Type 0
  Local = p.View × M

  abbrev pub commit_local : p.World → Outcome (Unit {0}) × Local → Outcome (Unit {0}) × Session p M
  commit_local w (throws e, (v, m)) = (throws e, record { view = v; world = w; memory = m })
  commit_local w (ok u, (v, m)) =
      let (r, w') = p.commit v w in (r, record { view = v; world = w'; memory = m })

  -- The body of the `try`.
  unfoldable pub attempt : Entry Local → Exec (Session p M) (Unit {0})
  attempt e s = commit_local s.world (run_chain e (s.view, s.memory))

  abbrev pub restarted : Session p M → Outcome p.View → Outcome (Unit {0}) × Session p M
  restarted s (ok v) = (ok tt, record s { view = v })
  restarted s (throws e) = (throws e, s)

  -- `IRawTransaction::ReInitialize`, which makes the new transaction before the old one goes.
  unfoldable pub reinitialize : Exec (Session p M) (Unit {0})
  reinitialize s = restarted s (p.restart s.world)

  -- `Transaction::Execute`, run on fuel.
  unfoldable pub execute :
      ℕ → ℕ → Option (Entry Local) → Session p M → Option (Outcome Result) × Session p M
  execute fuel commit_attempts none s = (some (ok success), s)
  execute fuel commit_attempts (some e) s =
      retry_loop (attempt e) reinitialize fuel commit_attempts
        (if commit_attempts == 0 then 1 else commit_attempts) s
