-- ===== src/Examples/Logins.antt =====
-- A login on a server of one user, with the stand-in for the JWT library of Examples.Shown.
use warehouse_accounting_sys.Base.{
  ℕ, ◌+◌, ◌%◌, ◌^◌, ◌≡◌, refl, ltb, if◌then◌else◌, some, none, [], ◌∷◌,
}
use warehouse_accounting_sys.Base.Int.{pos}
use warehouse_accounting_sys.Result.{success, unauthorized}
use warehouse_accounting_sys.Exec.{ok}
use warehouse_accounting_sys.Query.Values.{int, text, null, bound}
use warehouse_accounting_sys.Query.Build.{create}
use warehouse_accounting_sys.Database.{Row, run_query}
use warehouse_accounting_sys.Transaction.{execute, attempt}
use warehouse_accounting_sys.Transaction.Loop.{retry_loop}
use warehouse_accounting_sys.Tasks.{Server, run_transaction}
use warehouse_accounting_sys.Tasks.Listing.Pages.{all_there}
use warehouse_accounting_sys.Authorizer.{lifetime, validate_token, generate_token}
use warehouse_accounting_sys.Authorizer.Users.{
  UserInfo, userid_at, credentials_options, selected_rows, log_in, validate_credentials, one_user,
  read_credentials,
}
use warehouse_accounting_sys.Authorizer.Users.LoggedIn.{log_in-validate_token}
use warehouse_accounting_sys.Examples.Shown.{tallies, tallies-JwtLaws, late, token}

abbrev anna_row : Row
anna_row = bound (int (pos 5)) ∷ bound (text "Anna") ∷ null ∷ bound (int (pos 3)) ∷ []

abbrev one_user_server : Server
one_user_server = record {
  database = record { State = ℕ; exec = λ o ps s. (ok (anna_row ∷ []), s) };
  World = ℕ;
  begin = λ w. w;
  commit = λ v w. (ok tt, w);
  commit_attempts = 2;
}

abbrev nobody : UserInfo
nobody = record {
  id = none;
  login = "";
  password_hashed = "";
  name = "";
  created_date = 0;
  created_by = none;
}

abbrev anna : UserInfo
anna = record nobody { id = some 5; login = "anna"; name = "Anna"; created_date = 3 }

logs_in :
    log_in one_user_server all_there 1 tallies late "anna" "pass" nobody 8
    ≡ (some ((success, some token), anna), 8)
unfolding log_in validate_credentials run_transaction execute run_query create one_user
    read_credentials generate_token retry_loop attempt
logs_in = refl

log_in-validate_token_example :
    (row : Row) × (id : ℕ) × (selected_rows one_user_server all_there 1
        (credentials_options "anna" "pass")
        8
      ≡ (some (ok (row ∷ [])), 8))
    × (userid_at 0 row ≡ ok id)
    × (anna.id ≡ some id)
    × (anna.login ≡ "anna")
    × (validate_token tallies 2 0 token
        ≡ (if ltb ((late + lifetime) % 2 ^ 64) 2 then (unauthorized, 0) else (success, id)))
log_in-validate_token_example =
    log_in-validate_token one_user_server all_there 1 tallies tallies-JwtLaws late 2 0 "anna" "pass"
      token nobody anna 8 8 logs_in
