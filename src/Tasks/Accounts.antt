-- ===== src/Tasks/Accounts.antt =====
-- back/components/task_manager/source/tasks/protocol/authorization, create_user, get_current_user: the tasks on the
-- users of the authorizer.
use mathlib.Core.Option
use warehouse_accounting_sys.Base.{ℕ, Option, none, some, String, ◌++◌}
use warehouse_accounting_sys.Base.Int.{pos}
use warehouse_accounting_sys.Result.{Result, success}
use warehouse_accounting_sys.Exec.{Outcome, ok, check_success, value, try_bind}
use warehouse_accounting_sys.Exec.Try.{◌>>=◌}
use warehouse_accounting_sys.Json.{
  Json, Content, Document, number, words, put, put_optional, plain, get_key,
}
use warehouse_accounting_sys.Tasks.{Server, Interfaces, DateProvider, Running, checked}
use warehouse_accounting_sys.Authorizer.{Jwt}
use warehouse_accounting_sys.Authorizer.Users.{UserInfo, log_in, create_user, get_user_info}

-- A `UserInfo` before anything is known.
abbrev pub no_user : UserInfo
no_user = record {
  id = none;
  login = "";
  password_hashed = "";
  name = "";
  created_date = 0;
  created_by = none;
}

-- `Put` of a 64-bit id.
abbrev pub unsigned : ℕ → Content
unsigned n = number (pos n)

-- What `Authorization` parses: the login and the hashed password.
pub record Credentials : Type 0 where
  pub login : String
  pub hash_password : String

-- `hash` is `HashToBase64`, which asks OpenSSL.
module _ (hash : String → Outcome String) (j : Json) where
  unfoldable pub parse_authorization : j.Value → Outcome Credentials
  parse_authorization body = do
    log ← get_key j j.as_string body "login"
    password ← get_key j j.as_string body "password"
    hashed ← hash password
    ok (record { login = log; hash_password = hashed })

  -- `CreateUser::ParseInternal`; the user is the one who asked.
  unfoldable pub parse_create_user : ℕ → j.Value → Outcome UserInfo
  parse_create_user user body = do
    log ← get_key j j.as_string body "login"
    name ← get_key j j.as_string body "name"
    password ← get_key j j.as_string body "password"
    hashed ← hash password
    ok (record no_user {
      login = log;
      name = name;
      password_hashed = hashed;
      created_by = some user;
    })

module _ (dates : DateProvider) where
  abbrev pub date_of : UserInfo → String
  date_of u = dates.to_iso_time_string (pos u.created_date)

  unfoldable pub authorization_answer :
      (Result × Option String) × UserInfo → Outcome (Result × Option Document)
  authorization_answer ((success, some token), u) = ok (
    success,
    some (
        plain (
          put words "token" token
          ++ put_optional unsigned "user_id" u.id
          ++ put words "login" u.login
          ++ put words "name" u.name
          ++ put words "created_date" (date_of u)
          ++ put_optional unsigned "created_by" u.created_by)),
  )
  authorization_answer ((result, token), u) = ok (result, none)

  unfoldable pub created_user_answer : Result × UserInfo → Outcome (Result × Option Document)
  created_user_answer (success, u) = do
    id ← value u.id
    by ← value u.created_by
    ok (
      success,
      some (
          plain (
            put words "name" u.name
            ++ put words "login" u.login
            ++ put unsigned "user_id" id
            ++ put words "created_date" (date_of u)
            ++ put unsigned "created_by" by)),
    )
  created_user_answer (result, u) = ok (result, none)

  unfoldable pub current_user_answer : Result × UserInfo → Outcome (Result × Option Document)
  current_user_answer (success, u) = do
    id ← value u.id
    ok (
      success,
      some (
          plain (
            put unsigned "user_id" id
            ++ put words "name" u.name
            ++ put words "login" u.login
            ++ put words "created_date" (date_of u)
            ++ put_optional unsigned "created_by" u.created_by)),
    )
  current_user_answer (result, u) = ok (result, none)

-- `authorizer` is what `GetInterface` answers for the authorizer; `interfaces` is what the authorizer
-- itself is answered.
module _ (server : Server) (authorizer : Result) (interfaces : Interfaces) (dates : DateProvider)
    (fuel : ℕ) where
  abbrev pub with_authorizer : {A : Type 0} → Running server A → Running server A
  with_authorizer run =
      checked server (check_success authorizer)
        (checked server (check_success interfaces.date_provider) run)

  -- The answer of a method of the authorizer, which the task writes.
  abbrev pub answering :
      {A B : Type 0}
      → (A → Outcome B)
      → Option (Outcome A) × server.World
      → Option (Outcome B) × server.World
  answering write (r, w) = (Option.map (λ a. try_bind a write) r, w)

  -- A method that throws nothing.
  abbrev pub method : {A : Type 0} → Option A × server.World → Option (Outcome A) × server.World
  method (r, w) = (Option.map (λ a. ok a) r, w)

  -- `ExecuteInternal` of the three tasks.
  unfoldable pub run_authorization :
      Jwt → ℕ → Credentials → Running server (Result × Option Document)
  run_authorization jwt now c = with_authorizer λ w.
      answering (authorization_answer dates)
        (method (log_in server interfaces fuel jwt now c.login c.hash_password no_user w))

  unfoldable pub run_create_user : ℕ → UserInfo → Running server (Result × Option Document)
  run_create_user now u =
      with_authorizer
        λ w. answering (created_user_answer dates) (create_user server interfaces fuel now u w)

  unfoldable pub get_current_user : ℕ → Running server (Result × Option Document)
  get_current_user user = with_authorizer λ w.
      answering (current_user_answer dates)
        (method (get_user_info server interfaces fuel user no_user w))
