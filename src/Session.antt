-- ===== src/Session.antt =====
-- back/components/webserver/source/session/source/base_session.cpp: where a request goes, who may make it,
-- and the status that a task's result is answered with.
pub mod Access
pub mod Mime
pub mod Serving
pub mod Params
pub mod Api
use warehouse_accounting_sys.Base.{
  ℕ, ◌+◌, ◌-◌, Bool, true, false, not, ◌&&◌, ◌||◌, Option, none, some, String, ltb, ◌==◌,
  if◌then◌else◌, str_eq,
}
use Prim.Native.String.{len, slice}
use text.Mathlib.Text.{starts_with, find?}
use warehouse_accounting_sys.Result.{
  Result, success, wrong_format, unauthorized, violation, error, no_interface,
  reregistering_interface, no_string_converter, duplicate, not_implemented, no_connection,
}
use warehouse_accounting_sys.Exec.{Outcome, ok, throws, runtime_error}

-- `http::verb`, as far as the code tells the verbs apart.
pub data Verb : Type 0 where
  get post head other_verb : Verb

-- `http::status`, the ones that the code sends.
pub data Status : Type 0 where
  ok_status bad_request not_found not_implemented_status unauthorized_status : Status
  unprocessable_entity internal_server_error : Status

-- task_manager/task_identificator.h
pub data TaskIdentificator : Type 0 where
  authorization create_user products_create products_move products_remove : TaskIdentificator
  reports_by_period reports_current get_product get_warehouse get_invoice : TaskIdentificator
  get_user get_report get_current_user get_product_list get_warehouse_list : TaskIdentificator
  get_invoice_list get_user_list get_report_list get_operation_list : TaskIdentificator
  get_product_size get_warehouse_size get_invoice_size get_user_size : TaskIdentificator
  get_report_size get_operation_size get_product_size_by_warehouse : TaskIdentificator
  create_warehouse : TaskIdentificator

-- `ALLOWED_VERBS`
abbrev pub is_allowed : Verb → Bool
is_allowed get = true
is_allowed post = true
is_allowed head = false
is_allowed other_verb = false

abbrev pub api_target : String
api_target = "/api"

abbrev pub authorization_target : String
authorization_target = "/authorization"

-- `string_view::ends_with`
abbrev pub ends_with : String → String → Bool
ends_with s t = str_eq (slice s (len s - len t) (len s)) t

-- `ConvertToHttpStatus`
unfoldable pub convert_to_http_status : Result → Status
convert_to_http_status wrong_format = bad_request
convert_to_http_status Result.not_found = not_found
convert_to_http_status unauthorized = unauthorized_status
convert_to_http_status violation = unprocessable_entity
convert_to_http_status _ = internal_server_error

-- The status that the task's callback sends.
unfoldable pub callback_status : Result → Status
unfolding convert_to_http_status
callback_status success = ok_status
callback_status r = convert_to_http_status r

-- The target without `/api/` and without its query.
abbrev pub without_query : Option ℕ → String → String
without_query none t = t
without_query (some i) t = slice t 0 i

abbrev pub task_target : String → String
task_target target =
    let t = slice target (len api_target + 1) (len target) in without_query (find? t "?") t

abbrev pub identify : String → Outcome TaskIdentificator
identify t =
    if str_eq t "authorization"
    then ok authorization
    else if str_eq t "users/create"
    then ok create_user
    else if str_eq t "products/create"
    then ok products_create
    else if str_eq t "products/move"
    then ok products_move
    else if str_eq t "products/remove"
    then ok products_remove
    else if str_eq t "reports/byperiod"
    then ok reports_by_period
    else if str_eq t "reports/current"
    then ok reports_current
    else if str_eq t "product"
    then ok get_product
    else if str_eq t "warehouse"
    then ok get_warehouse
    else if str_eq t "invoice"
    then ok get_invoice
    else if str_eq t "user"
    then ok get_user
    else if str_eq t "report"
    then ok get_report
    else if str_eq t "currentuser"
    then ok get_current_user
    else if str_eq t "products"
    then ok get_product_list
    else if str_eq t "warehouses"
    then ok get_warehouse_list
    else if str_eq t "invoices"
    then ok get_invoice_list
    else if str_eq t "users"
    then ok get_user_list
    else if str_eq t "reports"
    then ok get_report_list
    else if str_eq t "operations"
    then ok get_operation_list
    else if str_eq t "productsize"
    then ok get_product_size
    else if str_eq t "warehousesize"
    then ok get_warehouse_size
    else if str_eq t "invoicesize"
    then ok get_invoice_size
    else if str_eq t "usersize"
    then ok get_user_size
    else if str_eq t "reportsize"
    then ok get_report_size
    else if str_eq t "operationsize"
    then ok get_operation_size
    else if str_eq t "productsizebywarehouse"
    then ok get_product_size_by_warehouse
    else if str_eq t "warehouses/create"
    then ok create_warehouse
    else throws runtime_error

-- `ParseTaskIdentificator`
pub parse_task_identificator : String → Outcome TaskIdentificator
parse_task_identificator target = identify (task_target target)

-- What `HandleRequest` does with a request: it answers at once, or goes on to `HandleApi` with the user
-- or to `HandleFile`.
pub data Handled : Type 0 where
  responds : String → Status → Handled
  handles_api : ℕ → Handled
  handles_file : Handled

-- `Authenticate`; `validate` is the authorizer's `ValidateToken`, which also sets the user.
abbrev pub authenticate : (String → Result × ℕ) → String → Result × ℕ
authenticate validate token = if len token == 0 then (wrong_format, 0) else validate token

abbrev pub authenticated : Result × ℕ → Outcome Handled
authenticated (success, user) = ok (handles_api user)
authenticated (wrong_format, user) =
    ok (responds "Invalid authentication header" unauthorized_status)
authenticated (unauthorized, user) = ok (responds "Unauthorized" unauthorized_status)
authenticated (_, user) = throws runtime_error

abbrev pub is_api : String → Bool
is_api target = ltb (len api_target + 2) (len target) && starts_with target api_target

-- Whether the request is the one that needs no authentication.
abbrev pub is_authorizing : String → Bool
is_authorizing target =
    (len target == len api_target + len authorization_target)
    && starts_with target api_target
    && ends_with target authorization_target

abbrev pub is_rooted : String → Bool
is_rooted target = not (len target == 0) && starts_with target "/"

-- `HandleRequest`
unfoldable pub handle_request : (String → Result × ℕ) → Verb → String → String → Outcome Handled
handle_request validate verb target token =
    if not (is_allowed verb)
    then ok (responds "Invalid verb" bad_request)
    else if not (is_rooted target)
    then ok (responds "Invalid target" bad_request)
    else if not (is_api target)
    then ok handles_file
    else if is_authorizing target
    then ok (handles_api 0)
    else authenticated (authenticate validate token)
