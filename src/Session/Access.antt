-- ===== src/Session/Access.antt =====
-- `HandleRequest` and the task's callback of base_session.cpp: who reaches a task.
use warehouse_accounting_sys.Base.{
  ℕ, ◌+◌, ◌-◌, ◌≡◌, ◌↔◌, refl, sym, ap, subst, ◌∙◌, true, false, Bool-cases, and_left, and_right,
  not, String, ◌==◌, eq_of-==, eq_iff, ◌⊎◌, inl, inr, arith,
}
use Prim.Native.String.{len, slice, ◌++◌}
use text.Mathlib.TextEquality.{starts_with_iff}
use text.Mathlib.TextPositions.{len-append, slice-append_right}
use warehouse_accounting_sys.Result.{Result, success, wrong_format, unauthorized}
use warehouse_accounting_sys.Exec.{ok}
use warehouse_accounting_sys.Session.{
  Verb, handles_api, api_target, authorization_target, ends_with, is_authorizing, is_allowed,
  is_rooted, is_api, authenticate, authenticated, handle_request, ok_status, callback_status,
}

authorizing_append :
    (rest : String)
    → len (api_target ++ rest) ≡ len api_target + len authorization_target
    → ends_with (api_target ++ rest) authorization_target ≡ true
    → rest ≡ authorization_target
authorizing_append rest size ends =
    let total = len-append api_target rest in
    let start : len (api_target ++ rest) - len authorization_target ≡ len api_target =
      omega (arith, size) in
    let tail : slice (api_target ++ rest) (len api_target) (len (api_target ++ rest)) ≡ rest =
      ap (slice (api_target ++ rest) (len api_target)) total ∙ slice-append_right api_target rest in
    let whole = (eq_iff _ _).0 ends in
    sym tail ∙ ap (λ n. slice (api_target ++ rest) n (len (api_target ++ rest))) (sym start) ∙ whole

is_authorizing-target :
    (target : String) → is_authorizing target ≡ true → target ≡ "/api/authorization"
is_authorizing-target target h =
    let size = eq_of-== _ _ (and_left _ _ (and_left _ _ h)) in
    let (rest, is) = (starts_with_iff target api_target).0 (and_right _ _ (and_left _ _ h)) in
    let ends = and_right _ _ h in
    sym is
    ∙ ap (λ r. api_target ++ r)
        (authorizing_append rest (ap len is ∙ size)
          (subst (λ t. ends_with t authorization_target ≡ true) (sym is) ends))

authenticated-handles_api :
    (r : Result × ℕ) (user : ℕ) → authenticated r ≡ ok (handles_api user) → r ≡ (success, user)
authenticated-handles_api (success, n) user h = cc
authenticated-handles_api (wrong_format, n) user h = cc
authenticated-handles_api (unauthorized, n) user h = cc
authenticated-handles_api (_, n) user h = cc

authenticate-handles_api :
    (validate : String → Result × ℕ) (token : String) (user : ℕ)
    → authenticated (authenticate validate token) ≡ ok (handles_api user)
    → ((len token == 0) ≡ false) × (validate token ≡ (success, user))
authenticate-handles_api validate token user h = elim (Bool-cases (len token == 0)) [
  | inl e ↦ absurd (cc (rw e at h))
  | inr e ↦ (e, authenticated-handles_api (validate token) user (rw e at h))
]

-- A request that reaches a task as some user has the target of an authorization, and then no user,
-- or carries a token that the authorizer accepts as that user's.
pub handle_request-authenticated :
    (validate : String → Result × ℕ) (verb : Verb) (target token : String) (user : ℕ)
    → handle_request validate verb target token ≡ ok (handles_api user)
    → ((target ≡ "/api/authorization") × (user ≡ 0))
      ⊎ (((len token == 0) ≡ false) × (validate token ≡ (success, user)))
unfolding handle_request
handle_request-authenticated validate verb target token user h =
    elim (Bool-cases (not (is_allowed verb))) [
      | inl a ↦ absurd (cc (rw a at h))
      | inr a ↦ elim (Bool-cases (not (is_rooted target))) [
        | inl b ↦ absurd (cc (rw (a, b) at h))
        | inr b ↦ elim (Bool-cases (not (is_api target))) [
          | inl c ↦ absurd (cc (rw (a, b, c) at h))
          | inr c ↦ elim (Bool-cases (is_authorizing target)) [
            | inl e ↦ inl (is_authorizing-target target e, cc (rw (a, b, c, e) at h))
            | inr e ↦ inr (authenticate-handles_api validate token user (rw (a, b, c, e) at h))
          ]
        ]
      ]
    ]

-- A task's answer is sent with the status OK just when the task succeeded.
callback_status-ok : (r : Result) → (callback_status r ≡ ok_status) ↔ (r ≡ success)
unfolding callback_status
callback_status-ok success = (λ h. refl, λ h. refl)
callback_status-ok _ = (λ h. cc, λ h. cc)
