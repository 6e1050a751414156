-- ===== src/Tasks.antt =====
-- back/components/task_manager/source/tasks/include/tasks/base_task.h, and what every task needs: the
-- interfaces that it asks for, and a transaction of its own.
pub mod Reading
pub mod Filter
pub mod Listing
pub mod Users
pub mod Products
pub mod Reports
pub mod Operations
pub mod Items
pub mod Invoices
pub mod Warehouses
pub mod Typed
pub mod Answers
pub mod Sizes
pub mod Goods
pub mod Accounts
pub mod Workers
pub mod Dispatch
pub mod Refused
use mathlib.Core.Option
use warehouse_accounting_sys.Base.{ℕ, Option, none, some, String}
use warehouse_accounting_sys.Base.Int.{ℤ}
use warehouse_accounting_sys.Result.{Result, success, error, wrong_format}
use warehouse_accounting_sys.Exec.{
  Outcome, ok, throws, other_exception, Exec, check_success, try_bind,
}
use warehouse_accounting_sys.Query.Build.{Request}
use warehouse_accounting_sys.Database.{Database, Rows, run_query}
use warehouse_accounting_sys.Transaction.{Persistence, Session, Local, Entry, execute}

-- The database with its transactions, and the configured attempts of a commit.
pub record Server : Type 1 where
  pub database : Database
  pub World : Type 0
  pub begin : World → database.State
  pub commit : database.State → World → Outcome (Unit {0}) × World
  pub commit_attempts : ℕ

-- libpqxx keeps one transaction for a connection and refuses another with `usage_error`, and the transaction
-- before is still there when `ReInitialize` makes the new one.
abbrev pub persistence : Server → Persistence
persistence s = record {
  World = s.World;
  View = s.database.State;
  begin = s.begin;
  restart = λ w. throws other_exception;
  commit = s.commit;
}

-- What `GetInterface` and `CreateTransaction` answer.
pub record Interfaces : Type 0 where
  pub accessor : Result
  pub date_provider : Result
  pub create_transaction : Result

-- `srv::IDateProvider`; none is any code but SUCCESS.
pub record DateProvider : Type 0 where
  pub from_iso_time_string : String → Option ℤ
  pub to_iso_time_string : ℤ → String

module _ (server : Server) where
  -- A computation on the tables; none when the transaction's fuel ends.
  abbrev pub Running : Type 0 → Type 0
  Running A = server.World → Option (Outcome A) × server.World

  abbrev pub checked : {A : Type 0} → Outcome (Unit {0}) → Running A → Running A
  checked (ok u) run w = run w
  checked (throws e) run w = (some (throws e), w)

  -- A query entry with the variable that it stores its result in.
  abbrev pub stored :
      {V M : Type 0} → (Rows → M → M) → Outcome Rows × V → M → Outcome (Unit {0}) × (V × M)
  stored store (ok rows, v) m = (ok tt, (v, store rows m))
  stored store (throws e, v) m = (throws e, (v, m))

  abbrev pub query_entry :
      {M : Type 0} → Request → (Rows → M → M) → Exec (server.database.State × M) (Unit {0})
  query_entry request store (v, m) = stored store (run_query server.database request v) m

  abbrev pub begin_session : (M : Type 0) → M → server.World → Session (persistence server) M
  begin_session M m w = record { view = server.begin w; world = w; memory = m }

  -- The task's own code, behind `Execute`.
  abbrev pub finished :
      {M A : Type 0}
      → (M → Result → Outcome A)
      → Option (Outcome Result) × Session (persistence server) M
      → Option (Outcome A) × server.World
  finished after (r, s) = (Option.map (λ o. try_bind o (after s.memory)) r, s.world)

  -- `CreateTransaction`, `SetRootEntry`, `Execute`, and then the task's own code.
  unfoldable pub run_transaction :
      {M A : Type 0}
      → Interfaces
      → ℕ
      → Entry (Local (persistence server) M)
      → M
      → (M → Result → Outcome A)
      → Running A
  run_transaction interfaces fuel entry m after w =
      checked (check_success interfaces.create_transaction)
        (λ w. finished after (
          execute (persistence server) _ fuel server.commit_attempts (some entry)
            (begin_session _ m w)))
        w

  -- The checks at the head of an `ExecuteInternal`.
  abbrev pub with_interfaces : {A : Type 0} → Interfaces → Running A → Running A
  with_interfaces interfaces run =
      checked (check_success interfaces.accessor)
        (checked (check_success interfaces.date_provider) run)

-- `BaseTask::Parse`
unfoldable pub parse : {T : Type 0} → Outcome T → Result
parse (ok t) = success
parse (throws e) = wrong_format

-- `BaseTask::Execute`: what the callback is called with, where none is the response "{}".
unfoldable pub base_execute : {A : Type 0} → Outcome (Result × A) → Option A × Result
base_execute (throws e) = (none, error)
base_execute (ok (success, a)) = (some a, success)
base_execute (ok (r, a)) = (none, r)
