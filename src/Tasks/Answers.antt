-- ===== src/Tasks/Answers.antt =====
-- What a task answers with: `BaseTask::Execute` of base_task.h, up to the status of the HTTP response.
use warehouse_accounting_sys.Base.{◌≡◌, ◌↔◌, refl, some}
use warehouse_accounting_sys.Result.{Result, success}
use warehouse_accounting_sys.Exec.{Outcome, ok, throws}
use warehouse_accounting_sys.Session.{callback_status, ok_status}
use warehouse_accounting_sys.Tasks.{base_execute}

-- The callback gets a response other than "{}" just when the response's status is OK.
pub base_execute-status :
    {A : Type 0} (r : Outcome (Result × A))
    → (callback_status (base_execute r).1 ≡ ok_status)
      ↔ ((a : A) × ((base_execute r).0 ≡ some a) × (r ≡ ok (success, a)))
unfolding base_execute callback_status
base_execute-status (throws e) = (λ h. cc, λ h. cc)
base_execute-status (ok (success, a)) = (λ h. (a, refl, refl), λ h. refl)
base_execute-status (ok (_, a)) = (λ h. cc, λ h. cc)
