-- ===== src/Tasks/Users.antt =====
-- back/components/task_manager/source/tasks/protocol/get_user, get_user_list: the users.
use warehouse_accounting_sys.Base.{ℕ, Option, none, some, List, [], ◌∷◌, ◌++◌, String}
use warehouse_accounting_sys.Base.Int.{ℤ}
use warehouse_accounting_sys.Exec.{Outcome, ok, value}
use warehouse_accounting_sys.Exec.Try.{◌>>=◌}
use warehouse_accounting_sys.Result.{Result}
use warehouse_accounting_sys.Query.Schema.{Column, user, user_id, login, created_date, created_by}
use warehouse_accounting_sys.Database.{Row}
use warehouse_accounting_sys.Json.{Document, number, words, put, put_optional, plain}
use warehouse_accounting_sys.Tasks.{Server, Interfaces, DateProvider, Running}
use warehouse_accounting_sys.Tasks.Reading.{int_at, text_at}
use warehouse_accounting_sys.Tasks.Listing.{
  ListRequest, list_options, id_options, run_list, run_get,
}

-- user.h
pub record User : Type 0 where
  pub user_id : Option ℤ
  pub login : Option String
  pub password : Option String
  pub name : Option String
  pub created_by : Option ℤ
  pub created_date : Option ℤ

abbrev pub user_list_columns : List Column
user_list_columns = user_id ∷ login ∷ Column.name ∷ created_date ∷ created_by ∷ []

unfoldable pub read_user : Row → Outcome User
read_user row = do
  id ← int_at 0 row
  log ← text_at 1 row
  name ← text_at 2 row
  date ← int_at 3 row
  by ← int_at 4 row
  ok (record {
    user_id = id;
    login = log;
    password = none;
    name = name;
    created_by = by;
    created_date = date;
  })

module _ (dates : DateProvider) where
  -- An object of the list; the name is put under the key of the login, too.
  unfoldable pub write_listed_user : User → Outcome Document
  write_listed_user u = do
    id ← value u.user_id
    name ← value u.name
    log ← value u.name
    date ← value u.created_date
    ok (
        plain (
          put number "user_id" id
          ++ put words "name" name
          ++ put words "login" log
          ++ put words "created_date" (dates.to_iso_time_string date)
          ++ put_optional number "created_by" u.created_by))

  unfoldable pub write_user : User → Outcome Document
  write_user u = do
    id ← value u.user_id
    name ← value u.name
    log ← value u.login
    date ← value u.created_date
    ok (
        plain (
          put number "user_id" id
          ++ put words "name" name
          ++ put words "login" log
          ++ put words "created_date" (dates.to_iso_time_string date)
          ++ put_optional number "created_by" u.created_by))

-- A row of `GetUser`, whose id is the one that was asked for.
unfoldable pub read_user_by_id : ℤ → Row → Outcome User
read_user_by_id id row = do
  log ← text_at 0 row
  name ← text_at 1 row
  date ← int_at 2 row
  by ← int_at 3 row
  ok (record {
    user_id = some id;
    login = log;
    password = none;
    name = name;
    created_by = by;
    created_date = date;
  })

abbrev pub user_columns : List Column
user_columns = login ∷ Column.name ∷ created_date ∷ created_by ∷ []

module _ (server : Server) (interfaces : Interfaces) (dates : DateProvider) (fuel : ℕ) where
  -- `GetUserList::ExecuteInternal`
  unfoldable pub get_user_list : ListRequest → Running server (Result × List Document)
  get_user_list request =
      run_list server interfaces fuel (list_options user user_list_columns user_id request)
        read_user (write_listed_user dates)

  -- `GetUser::ExecuteInternal`
  unfoldable pub get_user : ℤ → Running server (Result × Option Document)
  get_user id =
      run_get server interfaces fuel (id_options user user_columns user_id id) (read_user_by_id id)
        (write_user dates)
