-- ===== src/Authorizer/Users/LoggedIn.antt =====
-- `GenerateToken` of authorizer.cpp on the users in the database, and `ValidateToken` on its token.
use mathlib.Core.Option
use Prim.Native.String.{len}
use warehouse_accounting_sys.Base.{
  ℕ, ◌+◌, ◌%◌, ◌^◌, ◌<◌, ◌≡◌, refl, sym, ap, ◌∙◌, subst, true, Bool-cases, not, ◌&&◌, Option, some,
  none, [], ◌∷◌, String, ltb, ◌==◌, if◌then◌else◌, inl, inr, arith,
}
use warehouse_accounting_sys.Base.Int.{ℤ, pos, negsuc}
use warehouse_accounting_sys.Result.{Result, success, unauthorized}
use warehouse_accounting_sys.Exec.{Outcome, ok, throws, Outcome-cases, try_bind-ok, ok-injective}
use warehouse_accounting_sys.Database.{Row, Rows}
use warehouse_accounting_sys.Tasks.{Server, Interfaces}
use warehouse_accounting_sys.Tasks.Reading.{int_value_at, text_value_at}
use warehouse_accounting_sys.Authorizer.{Jwt, lifetime, token_for, generate_token, validate_token}
use warehouse_accounting_sys.Authorizer.Tokens.{JwtLaws, validate_token-generate_token}
use warehouse_accounting_sys.Authorizer.Users.{
  UserInfo, as_uint64, userid_at, optional_userid_at, read_credentials, one_user, caught,
  answered_rows, credentials_options, selected_rows, validate_credentials, token_of, log_in,
}

below : {n u : ℕ} → n ≡ u → ltb n (2 ^ 64) ≡ true → u < 2 ^ 64
below h b = ground arith

as_uint64-small : (n : ℤ) (u : ℕ) → as_uint64 n ≡ ok u → u < 2 ^ 64
as_uint64-small (pos n) u h = elim (Bool-cases (ltb n (2 ^ 64))) [
  | inl b ↦ below (ok-injective (rw b at h)) b
  | inr b ↦ absurd (cc (rw b at h))
]
as_uint64-small (negsuc n) u h = cc

userid_at-small : (row : Row) (id : ℕ) → userid_at 0 row ≡ ok id → id < 2 ^ 64
userid_at-small row id h =
    let (n, e, f) = try_bind-ok (int_value_at 0 row) as_uint64 h in as_uint64-small n id f

some-injective {ℓ} : {A : Type ℓ} {a b : A} → some a ≡ some b → a ≡ b
some-injective h = cc

read_credentials_ok :
    (log : String) (row : Row) (u v : UserInfo) {t : Unit {0}}
    → read_credentials log row u ≡ (ok t, v)
    → (id : ℕ) × (userid_at 0 row ≡ ok id) × (v.id ≡ some id) × (v.login ≡ log)
unfolding read_credentials
read_credentials_ok log row u v h = elim (Outcome-cases (userid_at 0 row)) [
  | inr (e, b) ↦ absurd (cc (rw b at h))
  | inl (id, b) ↦ elim (Outcome-cases (text_value_at 1 row)) [
    | inr (e, c) ↦ absurd (cc (rw (b, c) at h))
    | inl (s, c) ↦ elim (Outcome-cases (optional_userid_at 2 row)) [
      | inr (e, d) ↦ absurd (cc (rw (b, c, d) at h))
      | inl (by, d) ↦ elim (Outcome-cases (userid_at 3 row)) [
        | inr (e, f) ↦ absurd (cc (rw (b, c, d, f) at h))
        | inl (date, f) ↦
            let is = ap (λ x. x.1) (rw (b, c, d, f) at h) in
            (id, b, sym (ap (λ x. x.id) is), sym (ap (λ x. x.login) is))
      ]
    ]
  ]
]

caught_ok :
    (r : Outcome (Unit {0}) × UserInfo) (v : UserInfo) → caught r ≡ (success, v) → r ≡ (ok tt, v)
caught_ok (ok done, u) v h = ap (λ x. (ok tt, x.1)) h
caught_ok (throws e, u) v h = cc

-- The answered user is the one of the row, when there is one row.
one_user_ok :
    (log : String) (r : Outcome Rows) (u v : UserInfo)
    → answered_rows (one_user (read_credentials log)) u r ≡ (success, v)
    → (row : Row) × (id : ℕ) × (r ≡ ok (row ∷ []))
      × (userid_at 0 row ≡ ok id)
      × (v.id ≡ some id)
      × (v.login ≡ log)
unfolding one_user
one_user_ok log (ok []) u v h = cc
one_user_ok log (ok (row ∷ [])) u v h =
    let (id, reads, is, named) = read_credentials_ok log row u v (caught_ok _ v h) in
    (row, id, refl, reads, is, named)
one_user_ok log (ok (row ∷ other ∷ rest)) u v h = cc
one_user_ok log (throws e) u v h = cc

-- Only a user who was found gets a token.
generate_token-success :
    (jwt : Jwt) (now : ℕ) (log password token : String) (r : Result) (id : Option ℕ)
    → generate_token jwt now log password (r, id) ≡ (success, some token)
    → r ≡ success
unfolding generate_token
generate_token-success jwt now log password token r id h =
    elim (Bool-cases (not (len log == 0) && not (len password == 0))) [
      | inl b ↦ token_for_ok r id (rw b at h)
      | inr b ↦ absurd (cc (rw b at h))
    ]
  where
    token_for_ok :
        (r : Result) (id : Option ℕ)
        → token_for jwt now (r, id) ≡ (success, some token)
        → r ≡ success
    token_for_ok success id h = refl
    token_for_ok _ id h = cc

token_of_ok :
    (jwt : Jwt) (now : ℕ) (log password token : String) (r : Option (Outcome Rows)) (u v : UserInfo)
    → Option.map
        (token_of jwt now log password)
        (Option.map (answered_rows (one_user (read_credentials log)) u) r)
      ≡ some ((success, some token), v)
    → (row : Row) × (id : ℕ) × (r ≡ some (ok (row ∷ [])))
      × (userid_at 0 row ≡ ok id)
      × (v.id ≡ some id)
      × (v.login ≡ log)
      × (generate_token jwt now log password (success, some id) ≡ (success, some token))
token_of_ok jwt now log password token none u v h = cc
token_of_ok jwt now log password token (some r) u v h =
    let answer = answered_rows (one_user (read_credentials log)) u r in
    let whole : token_of jwt now log password answer ≡ ((success, some token), v) =
      some-injective h in
    let same : answer.1 ≡ v = ap (λ x. x.1) whole in
    let made = ap (λ x. x.0) whole in
    let found : answer ≡ (success, v) =
      ap (λ x. (x, answer.1))
        (generate_token-success jwt now log password token answer.0 answer.1.id made)
      ∙ ap (λ x. (success, x)) same in
    let (row, id, one, reads, is, named) = one_user_ok log r u v found in
    (
      row,
      id,
      ap (λ x. some x) one,
      reads,
      is,
      named,
      subst (λ x. generate_token jwt now log password x ≡ (success, some token))
          (ap (λ x. (x.0, x.1.id)) found ∙ ap (λ x. (success, x)) is) made,
    )

module _ (server : Server) (interfaces : Interfaces) (fuel : ℕ) (jwt : Jwt) where
  -- The user who logs in is the one whose row the database answered for the login and the password,
  -- and answered alone; ValidateToken accepts the token as that user up to its expiration and refuses
  -- it with UNAUTHORIZED later.
  pub log_in-validate_token :
      (laws : JwtLaws jwt) (now later before : ℕ) (log password token : String) (info u : UserInfo)
      (w after : server.World)
      → log_in server interfaces fuel jwt now log password info w
        ≡ (some ((success, some token), u), after)
      → (row : Row) × (id : ℕ) × (selected_rows server interfaces fuel
            (credentials_options log password)
            w
          ≡ (some (ok (row ∷ [])), after))
        × (userid_at 0 row ≡ ok id)
        × (u.id ≡ some id)
        × (u.login ≡ log)
        × (validate_token jwt later before token ≡ (
            if ltb ((now + lifetime) % 2 ^ 64) later
            then (unauthorized, before)
            else (success, id)))
  unfolding log_in validate_credentials
  log_in-validate_token laws now later before log password token info u w after h =
      elim (Bool-cases (not (len log == 0) && not (len password == 0))) [
        | inr b ↦ absurd (cc (rw b at h))
        | inl b ↦
            let ran = rw b at h in
            let rows = selected_rows server interfaces fuel (credentials_options log password) w in
            let (row, id, one, reads, is, named, made) =
              token_of_ok jwt now log password token rows.0 info u (ap (λ x. x.0) ran) in
            (
              row,
              id,
              ap (λ x. (x, rows.1)) one ∙ ap (λ x. (some (ok (row ∷ [])), x)) (ap (λ x. x.1) ran),
              reads,
              is,
              named,
              validate_token-generate_token jwt laws now later before id log password token
                  (userid_at-small row id reads) made,
            )
      ]
