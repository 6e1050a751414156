-- ===== src/Authorizer/Users.antt =====
-- back/services/authorizer/source/authorizer.cpp: the users in the database (`ValidateCredentials`,
-- `GetUserInfo`, `CreateUser`), and `GenerateToken` on them.
pub mod LoggedIn
use warehouse_accounting_sys.Base.{
  ℕ, ◌^◌, ◌-◌, ltb, Bool, true, false, not, ◌&&◌, ◌||◌, ◌==◌, length, if◌then◌else◌, Option, none,
  some, List, [], ◌∷◌, String,
}
use Prim.Native.String.{len}
use mathlib.Core.Option
use warehouse_accounting_sys.Base.Int.{ℤ, pos, negsuc}
use warehouse_accounting_sys.Result.{Result, success, error, wrong_format, unauthorized, not_found}
use warehouse_accounting_sys.Exec.{
  Outcome, ok, throws, other_exception, runtime_error, Exec, pure, raise, lift, ◌>>=◌, ◌>>◌,
  check_true, try_bind,
}
use warehouse_accounting_sys.Query.Schema.{
  Column, Table, user, user_id, password_hashed, login, created_date, created_by, name,
}
use warehouse_accounting_sys.Query.Values.{Value, int, text, Param, ValueCollector}
use warehouse_accounting_sys.Query.Condition.{Condition, group, and, real, equal, cons, nil}
use warehouse_accounting_sys.Query.Options.{SelectOptions, InsertOptions, OrderType}
use warehouse_accounting_sys.Query.Build.{insert_request}
use warehouse_accounting_sys.Database.{Row, Rows, front}
use warehouse_accounting_sys.Transaction.{Entry, Local, function, stop}
use warehouse_accounting_sys.Tasks.{
  Server, Interfaces, Running, persistence, query_entry, run_transaction,
}
use warehouse_accounting_sys.Tasks.Reading.{int_at, int_value_at, text_value_at}
use warehouse_accounting_sys.Tasks.Listing.{run_select}
use warehouse_accounting_sys.Authorizer.{Jwt, generate_token}

-- user_info.h; the ids and the date are of 64 bits.
pub record UserInfo : Type 0 where
  pub id : Option ℕ
  pub login : String
  pub password_hashed : String
  pub name : String
  pub created_date : ℕ
  pub created_by : Option ℕ

-- A number of the database as `uint64_t`.
abbrev pub as_uint64 : ℤ → Outcome ℕ
as_uint64 (pos n) = if ltb n (2 ^ 64) then ok n else throws other_exception
as_uint64 (negsuc n) = throws other_exception

-- `as<userid_t>()`, which throws on null, and `get<userid_t>()`.
abbrev pub userid_at : ℕ → Row → Outcome ℕ
userid_at i row = try_bind (int_value_at i row) as_uint64

abbrev pub optional_userid : Option ℤ → Outcome (Option ℕ)
optional_userid none = ok none
optional_userid (some n) = try_bind (as_uint64 n) λ u. ok (some u)

abbrev pub optional_userid_at : ℕ → Row → Outcome (Option ℕ)
optional_userid_at i row = try_bind (int_at i row) optional_userid

-- `userInfo.field = …`, where what is read may throw.
abbrev pub assign : {A : Type 0} → Outcome A → (A → UserInfo → UserInfo) → Exec UserInfo (Unit {0})
assign (ok a) set u = (ok tt, set a u)
assign (throws e) set u = (throws e, u)

abbrev pub user_select : List Column → Condition → SelectOptions
user_select columns condition = record {
  table = user;
  columns = columns;
  joins = [];
  condition = some condition;
  order_by = none;
  order_type = OrderType.asc;
  limit = none;
  offset = none;
}

abbrev pub credentials_options : String → String → SelectOptions
credentials_options log password =
    user_select (user_id ∷ Column.name ∷ created_by ∷ created_date ∷ []) (
      group and (
        cons (real equal Column.login (text log))
          (cons (real equal Column.password_hashed (text password)) nil)))

abbrev pub info_options : ℕ → SelectOptions
info_options id =
    user_select (Column.login ∷ Column.name ∷ created_by ∷ created_date ∷ [])
      (real equal user_id (int (pos id)))

-- The one row of `ValidateCredentials`.
unfoldable pub read_credentials : String → Row → Exec UserInfo (Unit {0})
read_credentials log row =
    assign (userid_at 0 row) (λ n u. record u { id = some n })
    >> assign (text_value_at 1 row) (λ s u. record u { name = s })
    >> assign (optional_userid_at 2 row) (λ n u. record u { created_by = n })
    >> assign (userid_at 3 row) (λ n u. record u { created_date = n })
    >> assign (ok log) (λ s u. record u { login = s })

-- The one row of `GetUserInfo`.
unfoldable pub read_info : ℕ → Row → Exec UserInfo (Unit {0})
read_info id row =
    lift (check_true (length row == 4))
    >> assign (ok id) (λ n u. record u { id = some n })
    >> assign (text_value_at 0 row) (λ s u. record u { login = s })
    >> assign (text_value_at 1 row) (λ s u. record u { name = s })
    >> assign (optional_userid_at 2 row) (λ n u. record u { created_by = n })
    >> assign (userid_at 3 row) (λ n u. record u { created_date = n })

-- `catch (const std::exception& ex)`, which keeps the fields that were assigned.
abbrev pub caught : Outcome (Unit {0}) × UserInfo → Result × UserInfo
caught (ok done, u) = (success, u)
caught (throws e, u) = (error, u)

-- `if (result.empty()) … else if (result.size() == 1) … else`
unfoldable pub one_user : (Row → Exec UserInfo (Unit {0})) → Rows → UserInfo → Result × UserInfo
one_user read [] u = (not_found, u)
one_user read (row ∷ []) u = caught (read row u)
one_user read (row ∷ other ∷ rest) u = (error, u)

abbrev pub answered_rows :
    (Rows → UserInfo → Result × UserInfo) → UserInfo → Outcome Rows → Result × UserInfo
answered_rows read u (ok rows) = read rows u
answered_rows read u (throws e) = (error, u)

-- `CreateUser` checks its fields after the date is set.
abbrev pub is_complete : UserInfo → Bool
is_complete u = not (len u.login == 0) && not (len u.name == 0) && not (len u.password_hashed == 0)

abbrev pub user_insert : InsertOptions
user_insert = record {
  table = user;
  columns = Column.name ∷ Column.password_hashed ∷ Column.login ∷ created_date ∷ created_by ∷ [];
  returning = user_id ∷ [];
  values_count = 0;
}

abbrev pub user_values : UserInfo → ℕ → ValueCollector
user_values u by =
    text u.name
    ∷ text u.password_hashed
    ∷ text u.login
    ∷ int (pos u.created_date)
    ∷ int (pos by)
    ∷ []

-- `get<int64_t>()` becomes an id of 64 bits without a check.
abbrev pub wrapped : ℤ → ℕ
wrapped (pos n) = n
wrapped (negsuc n) = 18446744073709551615 - n

unfoldable pub created : UserInfo → Rows → Result → Outcome (Result × UserInfo)
created u rows success =
    try_bind (front rows)
      λ row. try_bind (int_at 0 row) λ n. ok (success, record u { id = Option.map wrapped n })
created u rows result = ok (result, u)

-- `GenerateToken` behind `ValidateCredentials`.
abbrev pub token_of :
    Jwt → ℕ → String → String → Result × UserInfo → (Result × Option String) × UserInfo
token_of jwt now log password (r, u) = (generate_token jwt now log password (r, u.id), u)

module _ (server : Server) (interfaces : Interfaces) (fuel : ℕ) where
  -- The rows that the transaction leaves, whatever `Execute` answers.
  abbrev pub selected_rows : SelectOptions → Running server Rows
  selected_rows o = run_select server interfaces fuel o λ rows result. ok rows

  abbrev pub find_user :
      SelectOptions
      → (Row → Exec UserInfo (Unit {0}))
      → UserInfo
      → server.World
      → Option (Result × UserInfo) × server.World
  find_user o read u w =
      let (r, after) = selected_rows o w in (Option.map (answered_rows (one_user read) u) r, after)

  unfoldable pub validate_credentials :
      String → String → UserInfo → server.World → Option (Result × UserInfo) × server.World
  validate_credentials log password =
      find_user (credentials_options log password) (read_credentials log)

  unfoldable pub get_user_info :
      ℕ → UserInfo → server.World → Option (Result × UserInfo) × server.World
  get_user_info id = find_user (info_options id) (read_info id)

  abbrev pub insert_user : UserInfo → Option ℕ → Running server (Result × UserInfo)
  insert_user u none w = (some (ok (wrong_format, u)), w)
  insert_user u (some by) w =
      if is_complete u
      then run_transaction server interfaces fuel
          (function
            (query_entry server (insert_request user_insert (user_values u by ∷ []))
              (λ rows m. rows))
            stop)
          [] (created u) w
      else (some (ok (wrong_format, u)), w)

  unfoldable pub create_user : ℕ → UserInfo → Running server (Result × UserInfo)
  create_user now u = insert_user (record u { created_date = now }) u.created_by

  module _ (jwt : Jwt) where
    -- `GenerateToken`, which looks for the user only when both texts are there.
    unfoldable pub log_in :
        ℕ
        → String
        → String
        → UserInfo
        → server.World
        → Option ((Result × Option String) × UserInfo) × server.World
    log_in now log password u w =
        if not (len log == 0) && not (len password == 0)
        then (let (r, after) = validate_credentials log password u w in
            (Option.map (token_of jwt now log password) r, after))
        else (some ((unauthorized, none), u), w)
