-- ===== src/Session/Api.antt =====
-- `HandleApi` of base_session.cpp, and the whole of `HandleRequest` with what it calls.
pub mod Once
use warehouse_accounting_sys.Base.{ℕ, Bool, Option, none, some, String, List, [], ◌∷◌}
use warehouse_accounting_sys.Base.Int.{ℤ}
use warehouse_accounting_sys.Result.{Result, success, wrong_format, not_found}
use warehouse_accounting_sys.Exec.{Outcome, ok, throws, runtime_error}
use warehouse_accounting_sys.Documents.Paths.{Bytes, FilePath, codes}
use warehouse_accounting_sys.Session.{
  Verb, get, bad_request, not_implemented_status, TaskIdentificator, parse_task_identificator,
  Handled, responds, handles_api, handles_file, handle_request,
}
use warehouse_accounting_sys.Session.Params.{Params, convert_from_params}
use warehouse_accounting_sys.Session.Serving.{Response, prepare_response, handle_file}
use warehouse_accounting_sys.Tasks.Workers.{WorkersManager}
use warehouse_accounting_sys.Tasks.Dispatch.{dispatch_task}

-- `m_request`, of which `token` is the header "Authorization".
pub record HttpRequest : Type 0 where
  pub verb : Verb
  pub target : String
  pub token : String
  pub keep_alive : Bool
  pub body : Bytes

-- The body of a task: what `ConvertFromParams` makes, or what the JSON library parses.
pub data TaskBody (V : Type 0) : Type 0 where
  params_body : Option Params → TaskBody V
  json_body : V → TaskBody V

-- What the session asks: the authorizer's `ValidateToken`, the file system, the JSON library's `parse`
-- and the standard library's `stol` (none when they throw), and how a task is made.
pub record Services (V T : Type 0) : Type 0 where
  pub validate : String → Result × ℕ
  pub exists : FilePath → Bool
  pub opens : FilePath → Bool
  pub root : FilePath
  pub parse : Bytes → Option V
  pub stol : Bytes → Option ℤ
  pub initialize : ℕ → TaskIdentificator → TaskBody V → Result × T

-- The responses that are sent at once, and the queue of tasks.
abbrev pub Sent : Type 0 → Type 0
Sent T = Outcome (List Response) × WorkersManager T

module _ {V T : Type 0} (services : Services V T) where
  abbrev pub refusal : HttpRequest → String → Outcome (List Response)
  refusal request text = ok (prepare_response request.keep_alive text bad_request ∷ [])

  -- What follows `AddTask`; the task's callback answers later.
  abbrev pub after_adding : HttpRequest → Result × WorkersManager T → Sent T
  after_adding request (success, s) = (ok [], s)
  after_adding request (wrong_format, s) = (refusal request "Invalid body format", s)
  after_adding request (not_found, s) =
      (ok (prepare_response request.keep_alive "Task not found" not_implemented_status ∷ []), s)
  after_adding request (_, s) = (throws runtime_error, s)

  abbrev pub parsed_json : Option V → Option (TaskBody V)
  parsed_json none = none
  parsed_json (some v) = some (json_body v)

  -- `PARAMS_VERBS`
  abbrev pub task_body : HttpRequest → Verb → Option (TaskBody V)
  task_body request get =
      some (params_body (convert_from_params services.stol (codes request.target)))
  task_body request _ = parsed_json (services.parse request.body)

  abbrev pub with_body :
      HttpRequest → ℕ → TaskIdentificator → Option (TaskBody V) → WorkersManager T → Sent T
  with_body request user identificator none s = (refusal request "Invalid body format", s)
  with_body request user identificator (some body) s =
      after_adding request (dispatch_task (services.initialize user) identificator body s)

  abbrev pub with_identificator :
      HttpRequest → ℕ → Outcome TaskIdentificator → WorkersManager T → Sent T
  with_identificator request user (throws e) s = (refusal request "Task not found", s)
  with_identificator request user (ok identificator) s =
      with_body request user identificator (task_body request request.verb) s

  -- `HandleApi`
  unfoldable pub handle_api : HttpRequest → ℕ → WorkersManager T → Sent T
  handle_api request user s =
      with_identificator request user (parse_task_identificator request.target) s

  abbrev pub after_handling : HttpRequest → Outcome Handled → WorkersManager T → Sent T
  after_handling request (throws e) s = (throws e, s)
  after_handling request (ok (responds text status)) s =
      (ok (prepare_response request.keep_alive text status ∷ []), s)
  after_handling request (ok (handles_api user)) s = handle_api request user s
  after_handling request (ok handles_file) s = (
    handle_file services.exists services.opens services.root request.verb request.keep_alive
        (codes request.target),
    s,
  )

  -- `HandleRequest`, with the handlers that it calls.
  unfoldable pub serve : HttpRequest → WorkersManager T → Sent T
  serve request s =
      after_handling request
        (handle_request services.validate request.verb request.target request.token) s
