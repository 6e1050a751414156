-- ===== src/Session/Api/Once.antt =====
-- `HandleRequest` of base_session.cpp with its handlers: every request is answered, or queued, once.
use warehouse_accounting_sys.Base.{
  ℕ, ◌==◌, ◌≡◌, refl, sym, subst, ◌⊎◌, inl, inr, Bool, true, false, not, Bool-cases, Option, none,
  some, String, List, [], ◌∷◌, length, if◌then◌else◌,
}
use Prim.Native.String.{len}
use warehouse_accounting_sys.Result.{Result, success, wrong_format, not_found, unauthorized}
use warehouse_accounting_sys.Exec.{Outcome, ok, throws}
use warehouse_accounting_sys.Documents.{restore_document}
use warehouse_accounting_sys.Documents.Paths.{Bytes, FilePath, codes, to_path}
use warehouse_accounting_sys.Session.{
  Verb, get, post, head, other_verb, TaskIdentificator, parse_task_identificator, Handled, responds,
  handles_api, handles_file, is_allowed, is_rooted, is_api, is_authorizing, authenticate,
  authenticated, handle_request,
}
use warehouse_accounting_sys.Session.Access.{handle_request-authenticated}
use warehouse_accounting_sys.Session.Serving.{Response, first_word, restored_response, handle_file}
use warehouse_accounting_sys.Session.Api.{
  HttpRequest, TaskBody, Services, Sent, after_adding, task_body, with_body, with_identificator,
  handle_api, after_handling, serve,
}
use warehouse_accounting_sys.Tasks.Workers.{WorkersManager, add_task}
use warehouse_accounting_sys.Tasks.Dispatch.{
  initialized, add_when_success, dispatch_task, generate_task-tasks_list,
}

-- One response and the queue as it was, no response and one more task, or an exception and the queue as it
-- was.
abbrev pub IsOnce : {T : Type 0} → WorkersManager T → Sent T → Type 0
IsOnce s (throws e, s') = s' ≡ s
IsOnce {T} s (ok responses, s') =
    ((length responses ≡ 1) × (s' ≡ s)) ⊎ ((responses ≡ []) × ((task : T) × (s' ≡ add_task task s)))

abbrev IsOne : Outcome (List Response) → Type 0
IsOne (throws e) = Unit {0}
IsOne (ok responses) = length responses ≡ 1

opened-IsOne :
    (b : Bool) (responses : List Response) (e : _)
    → length responses ≡ 1
    → IsOne (if b then ok responses else throws e)
opened-IsOne true responses e h = h
opened-IsOne false responses e h = tt

restored_response-IsOne :
    (opens : FilePath → Bool) (verb : Verb) (keep_alive : Bool) (r : Result × FilePath)
    → is_allowed verb ≡ true
    → IsOne (restored_response opens verb keep_alive r)
restored_response-IsOne opens verb keep_alive (wrong_format, file) h = refl
restored_response-IsOne opens verb keep_alive (not_found, file) h = refl
restored_response-IsOne opens get keep_alive (_, file) h = opened-IsOne (opens file) _ _ refl
restored_response-IsOne opens post keep_alive (_, file) h = opened-IsOne (opens file) _ _ refl
restored_response-IsOne opens head keep_alive (_, file) h = cc
restored_response-IsOne opens other_verb keep_alive (_, file) h = cc

handle_file-IsOne :
    (exists opens : FilePath → Bool) (root : FilePath) (verb : Verb) (keep_alive : Bool)
    (target : Bytes)
    → is_allowed verb ≡ true
    → IsOne (handle_file exists opens root verb keep_alive target)
unfolding handle_file
handle_file-IsOne exists opens root verb keep_alive [] h = tt
handle_file-IsOne exists opens root verb keep_alive (slash ∷ s) h =
    restored_response-IsOne opens verb keep_alive
      (restore_document exists root true (to_path (first_word s))) h

-- HandleRequest goes on to HandleFile for the allowed verbs only.
abbrev AllowsFile : Verb → Outcome Handled → Type 0
AllowsFile verb (ok handles_file) = is_allowed verb ≡ true
AllowsFile verb (ok (responds text answer)) = Unit {0}
AllowsFile verb (ok (handles_api user)) = Unit {0}
AllowsFile verb (throws e) = Unit {0}

authenticated-AllowsFile : (verb : Verb) (r : Result × ℕ) → AllowsFile verb (authenticated r)
authenticated-AllowsFile verb (success, user) = tt
authenticated-AllowsFile verb (wrong_format, user) = tt
authenticated-AllowsFile verb (unauthorized, user) = tt
authenticated-AllowsFile verb (_, user) = tt

not-false : (b : Bool) → not b ≡ false → b ≡ true
not-false true h = refl
not-false false h = cc

handle_request-AllowsFile :
    (validate : String → Result × ℕ) (verb : Verb) (target token : String)
    → AllowsFile verb (handle_request validate verb target token)
unfolding handle_request
handle_request-AllowsFile validate verb target token = elim (Bool-cases (not (is_allowed verb))) [
  | inl a ↦ rw a tt
  | inr a ↦ elim (Bool-cases (not (is_rooted target))) [
    | inl b ↦ rw (a, b) tt
    | inr b ↦ elim (Bool-cases (not (is_api target))) [
      | inl c ↦ rw (a, b, c) (not-false _ a)
      | inr c ↦ elim (Bool-cases (is_authorizing target)) [
        | inl e ↦ rw (a, b, c, e) tt
        | inr e ↦ rw (a, b, c, e) (authenticated-AllowsFile verb (authenticate validate token))
      ]
    ]
  ]
]

module _ {V T : Type 0} (services : Services V T) where
  after_adding-IsOnce :
      (initialize : TaskIdentificator → TaskBody V → Result × T) (request : HttpRequest)
      (r : Result × T) (s : WorkersManager T)
      → IsOnce s
          (after_adding services request (add_when_success initialize (initialized initialize r) s))
  after_adding-IsOnce initialize request (success, task) s = inr (refl, (task, refl))
  after_adding-IsOnce initialize request (wrong_format, task) s = inl (refl, refl)
  after_adding-IsOnce initialize request (not_found, task) s = inl (refl, refl)
  after_adding-IsOnce initialize request (_, task) s = refl

  with_body-IsOnce :
      (request : HttpRequest) (user : ℕ) (identificator : TaskIdentificator)
      (body : Option (TaskBody V)) (s : WorkersManager T)
      → IsOnce s (with_body services request user identificator body s)
  unfolding dispatch_task
  with_body-IsOnce request user identificator none s = inl (refl, refl)
  with_body-IsOnce request user identificator (some body) s =
      let initialize = services.initialize user in
      subst (λ r. IsOnce s (after_adding services request (add_when_success initialize r s)))
        (sym (generate_task-tasks_list initialize identificator body))
        (after_adding-IsOnce initialize request (initialize identificator body) s)

  with_identificator-IsOnce :
      (request : HttpRequest) (user : ℕ) (identificator : Outcome TaskIdentificator)
      (s : WorkersManager T)
      → IsOnce s (with_identificator services request user identificator s)
  with_identificator-IsOnce request user (throws e) s = inl (refl, refl)
  with_identificator-IsOnce request user (ok identificator) s =
      with_body-IsOnce request user identificator (task_body services request request.verb) s

  one-IsOnce : (o : Outcome (List Response)) (s : WorkersManager T) → IsOne o → IsOnce s (o, s)
  one-IsOnce (throws e) s h = refl
  one-IsOnce (ok responses) s h = inl (h, refl)

  after_handling-IsOnce :
      (request : HttpRequest) (h : Outcome Handled) (s : WorkersManager T)
      → AllowsFile request.verb h
      → IsOnce s (after_handling services request h s)
  unfolding handle_api
  after_handling-IsOnce request (throws e) s a = refl
  after_handling-IsOnce request (ok (responds text answer)) s a = inl (refl, refl)
  after_handling-IsOnce request (ok (handles_api user)) s a =
      with_identificator-IsOnce request user (parse_task_identificator request.target) s
  after_handling-IsOnce request (ok handles_file) s a = one-IsOnce _ s (
      handle_file-IsOne services.exists services.opens services.root request.verb request.keep_alive
        (codes request.target) a)

  -- Every request is answered with one response and leaves the queue of tasks as it was, or has no response
  -- yet and has put one task at the queue's end, or ends in an exception and leaves the queue as it was.
  pub serve-IsOnce :
      (request : HttpRequest) (s : WorkersManager T) → IsOnce s (serve services request s)
  unfolding serve
  serve-IsOnce request s =
      after_handling-IsOnce request
        (handle_request services.validate request.verb request.target request.token) s
        (handle_request-AllowsFile services.validate request.verb request.target request.token)

  after_handling-queue :
      (request : HttpRequest) (h : Outcome Handled) (s : WorkersManager T)
      → ((after_handling services request h s).1 ≡ s) ⊎ ((user : ℕ) × (h ≡ ok (handles_api user)))
  after_handling-queue request (throws e) s = inl refl
  after_handling-queue request (ok (responds text answer)) s = inl refl
  after_handling-queue request (ok (handles_api user)) s = inr (user, refl)
  after_handling-queue request (ok handles_file) s = inl refl

  -- A request leaves the queue of tasks as it was, or its target is the one of an authorization, or it carries
  -- a token that the authorizer accepts as some user's.
  pub serve-authenticated :
      (request : HttpRequest) (s : WorkersManager T)
      → ((serve services request s).1 ≡ s)
        ⊎ ((request.target ≡ "/api/authorization")
            ⊎ (((len request.token == 0) ≡ false)
                × ((user : ℕ) × (services.validate request.token ≡ (success, user)))))
  unfolding serve
  serve-authenticated request s =
      elim (after_handling-queue request
        (handle_request services.validate request.verb request.target request.token) s) [
          | inl h ↦ inl h
          | inr (user, h) ↦
              elim (handle_request-authenticated services.validate request.verb request.target
                request.token user h) [
                  | inl (target, none_yet) ↦ inr (inl target)
                  | inr (there, valid) ↦ inr (inr (there, (user, valid)))
                ]
        ]
