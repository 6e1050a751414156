-- ===== src/Examples/Running.antt =====
-- Transactions, the pool of connections, requests and result codes on concrete inputs.
use warehouse_accounting_sys.Base.{
  if◌then◌else◌, ℕ, ◌+◌, ◌==◌, ◌≡◌, refl, String, length, some, [], ◌∷◌, arith,
}
use warehouse_accounting_sys.Result.{Result, success, violation}
use warehouse_accounting_sys.Exec.{
  Outcome, ok, throws, integrity_constraint_violation, serialization_failure, other_exception,
}
use warehouse_accounting_sys.Transaction.{
  Entry, function, grouped, cons, nil, stop, next, Persistence, Session, Local, attempt,
  reinitialize, execute,
}
use warehouse_accounting_sys.Transaction.Loop.{retry_loop}
use warehouse_accounting_sys.Transaction.Attempts.{Settles, Unlimited}
use warehouse_accounting_sys.Transaction.Atomic.{
  FailedCommitKeeps, execute-Settles, execute-Unlimited, execute-atomic,
}
use warehouse_accounting_sys.Pool.{create_from, Pool, get_connection, set_connections_count}
use warehouse_accounting_sys.Pool.Quota.{Balanced, taken_after, get_connection-Balanced}
use warehouse_accounting_sys.Pool.Connecting.{Connects, create_from-Connects}
use warehouse_accounting_sys.Pool.Resize.{set_connections_count-sizes}
use warehouse_accounting_sys.Session.{get, handles_api, handle_request}

-- A database of one number, in which every commit succeeds.
abbrev one_number : Persistence
one_number = record {
  World = ℕ;
  View = ℕ;
  begin = λ w. w;
  restart = λ w. ok w;
  commit = λ v w. (ok tt, v);
}

one_number-keeps : FailedCommitKeeps one_number (λ w. w)
one_number-keeps v w e h = cc

abbrev at_five : Session one_number ℕ
at_five = record { view = 5; world = 5; memory = 0 }

-- It counts the view up, and then fails.
abbrev writes_and_fails : Entry (Local one_number ℕ)
writes_and_fails =
    function (λ s. (ok tt, (s.0 + 1, s.1)))
      (next
        (grouped (cons (function (λ s. (throws integrity_constraint_violation, s)) stop) nil) stop))

abbrev serializes_never : Entry (Local one_number ℕ)
serializes_never = function (λ s. (throws serialization_failure, (s.0 + 1, s.1 + 1))) stop

execute-Settles_example :
    Settles
      (attempt one_number ℕ serializes_never)
      (reinitialize one_number ℕ)
      3
      at_five
      (execute one_number ℕ 7 3 (some serializes_never) at_five)
execute-Settles_example = execute-Settles one_number ℕ 2 7 serializes_never at_five (omega arith)

execute-Unlimited_example :
    Unlimited
      (attempt one_number ℕ serializes_never)
      (reinitialize one_number ℕ)
      4
      at_five
      (execute one_number ℕ 4 0 (some serializes_never) at_five)
execute-Unlimited_example = execute-Unlimited one_number ℕ 4 serializes_never at_five

abbrev afterwards : Session one_number ℕ
afterwards = record { view = 6; world = 5; memory = 0 }

violates :
    execute one_number ℕ 2 2 (some writes_and_fails) at_five ≡ (some (ok violation), afterwards)
unfolding execute attempt retry_loop
violates = refl

execute-atomic_example : afterwards.world ≡ at_five.world
execute-atomic_example =
    execute-atomic one_number ℕ (λ w. w) one_number-keeps 1 2 writes_and_fails at_five afterwards
      (ok violation) (omega arith) violates (λ h. cc)

abbrev two_free : Pool ℕ
two_free = record { free = 10 ∷ 11 ∷ []; to_delete = 0; to_create = 1; busy = 0; attempts = 50 }

get_connection-Balanced_example :
    Balanced 4
      (taken_after (get_connection (ok 12) two_free).0 1)
      (get_connection (ok 12) two_free).1
get_connection-Balanced_example = get_connection-Balanced (ok 12) 4 1 two_free (omega arith) refl

set_connections_count-sizes_example :
    (length (set_connections_count 2 two_free).free + (set_connections_count 2 two_free).to_create
      ≡ 2)
    × ((set_connections_count 2 two_free).to_delete ≡ 0)
set_connections_count-sizes_example =
    set_connections_count-sizes 2 two_free refl (omega arith) (omega arith)

abbrev third_connects : ℕ → Outcome ℕ
third_connects k = if k == 2 then ok 7 else throws other_exception

create_from-Connects_example : Connects third_connects 50 0 (create_from third_connects 50 51 0)
create_from-Connects_example = create_from-Connects third_connects 50 51 0 (omega arith)

abbrev token_user : ℕ
token_user = 5

abbrev accepts_all : String → Result × ℕ
accepts_all token = (success, token_user)

abbrev products_target : String
products_target = "/api/products"

reaches_products :
    handle_request accepts_all get products_target "token" ≡ ok (handles_api token_user)
unfolding handle_request
reaches_products = refl
