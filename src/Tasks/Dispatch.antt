-- ===== src/Tasks/Dispatch.antt =====
-- back/components/task_manager/source/task_manager.cpp and protocol/tasks_list.h: the task that a request's
-- identificator names, and its way into the queue.
use warehouse_accounting_sys.Base.{
  ℕ, ◌==◌, ◌≡◌, refl, if◌then◌else◌, Option, none, some, List, [], ◌∷◌,
}
use warehouse_accounting_sys.Result.{Result, success, not_found}
use warehouse_accounting_sys.Session.{
  TaskIdentificator, authorization, create_user, products_create, products_move, products_remove,
  reports_by_period, reports_current, get_product, get_warehouse, get_invoice, get_user, get_report,
  get_current_user, get_product_list, get_warehouse_list, get_invoice_list, get_user_list,
  get_report_list, get_operation_list, get_product_size, get_warehouse_size, get_invoice_size,
  get_user_size, get_report_size, get_operation_size, get_product_size_by_warehouse,
  create_warehouse,
}
use warehouse_accounting_sys.Tasks.Workers.{WorkersManager, add_task}

-- `TasksList`, each task by what its `GetIdentificator` answers.
abbrev pub tasks_list : List TaskIdentificator
tasks_list =
    authorization ∷ create_user ∷ products_create ∷ products_move ∷ products_remove
    ∷ reports_by_period ∷ reports_current ∷ get_product ∷ get_warehouse ∷ get_invoice ∷ get_user
    ∷ get_report ∷ get_current_user ∷ get_product_list ∷ get_warehouse_list ∷ get_invoice_list
    ∷ get_user_list ∷ get_report_list ∷ get_operation_list ∷ get_product_size ∷ get_warehouse_size
    ∷ get_invoice_size ∷ get_user_size ∷ get_report_size ∷ get_operation_size
    ∷ get_product_size_by_warehouse ∷ create_warehouse ∷ []

-- The numbers of the enumeration, by which its values are compared.
abbrev pub number_of : TaskIdentificator → ℕ
number_of authorization = 0
number_of create_user = 1
number_of products_create = 2
number_of products_move = 3
number_of products_remove = 4
number_of reports_by_period = 5
number_of reports_current = 6
number_of get_product = 7
number_of get_warehouse = 8
number_of get_invoice = 9
number_of get_user = 10
number_of get_report = 11
number_of get_current_user = 12
number_of get_product_list = 13
number_of get_warehouse_list = 14
number_of get_invoice_list = 15
number_of get_user_list = 16
number_of get_report_list = 17
number_of get_operation_list = 18
number_of get_product_size = 19
number_of get_warehouse_size = 20
number_of get_invoice_size = 21
number_of get_user_size = 22
number_of get_report_size = 23
number_of get_operation_size = 24
number_of get_product_size_by_warehouse = 25
number_of create_warehouse = 26

-- `initialize` is a task's constructor and its `Initialize`, on the body of the request.
module _ {B T : Type 0} (initialize : TaskIdentificator → B → Result × T) where
  abbrev pub initialized : Result × T → Result × Option T
  initialized (r, task) = (r, some task)

  -- `GenerateTask`
  unfoldable pub generate_task : List TaskIdentificator → TaskIdentificator → B → Result × Option T
  generate_task [] identificator body = (not_found, none)
  generate_task (task ∷ tasks) identificator body =
      let rest = generate_task tasks identificator body in
      if number_of identificator == number_of task then initialized (initialize task body) else rest

  abbrev pub add_when_success : Result × Option T → WorkersManager T → Result × WorkersManager T
  add_when_success (success, some task) s = (success, add_task task s)
  add_when_success (r, task) s = (r, s)

  -- The task manager's `AddTask`
  unfoldable pub dispatch_task :
      TaskIdentificator → B → WorkersManager T → Result × WorkersManager T
  dispatch_task identificator body s =
      add_when_success (generate_task tasks_list identificator body) s

  -- Every identificator has its own task in the list.
  pub generate_task-tasks_list :
      (identificator : TaskIdentificator) (body : B)
      → generate_task tasks_list identificator body ≡ initialized (initialize identificator body)
  unfolding generate_task
  generate_task-tasks_list authorization body = refl
  generate_task-tasks_list create_user body = refl
  generate_task-tasks_list products_create body = refl
  generate_task-tasks_list products_move body = refl
  generate_task-tasks_list products_remove body = refl
  generate_task-tasks_list reports_by_period body = refl
  generate_task-tasks_list reports_current body = refl
  generate_task-tasks_list get_product body = refl
  generate_task-tasks_list get_warehouse body = refl
  generate_task-tasks_list get_invoice body = refl
  generate_task-tasks_list get_user body = refl
  generate_task-tasks_list get_report body = refl
  generate_task-tasks_list get_current_user body = refl
  generate_task-tasks_list get_product_list body = refl
  generate_task-tasks_list get_warehouse_list body = refl
  generate_task-tasks_list get_invoice_list body = refl
  generate_task-tasks_list get_user_list body = refl
  generate_task-tasks_list get_report_list body = refl
  generate_task-tasks_list get_operation_list body = refl
  generate_task-tasks_list get_product_size body = refl
  generate_task-tasks_list get_warehouse_size body = refl
  generate_task-tasks_list get_invoice_size body = refl
  generate_task-tasks_list get_user_size body = refl
  generate_task-tasks_list get_report_size body = refl
  generate_task-tasks_list get_operation_size body = refl
  generate_task-tasks_list get_product_size_by_warehouse body = refl
  generate_task-tasks_list create_warehouse body = refl
