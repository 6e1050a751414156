-- ===== src/Authorizer/Tokens.antt =====
-- `ValidateToken` and `GenerateToken` of authorizer.cpp, and requests that show a token.
use warehouse_accounting_sys.Base.{
  ℕ, ◌+◌, ◌%◌, ◌^◌, ◌≤◌, ◌<◌, ◌≡◌, sym, ap, ◌∙◌, true, false, Bool-cases, not, ◌&&◌, some, [], ◌∷◌,
  String, ltb, ◌==◌, if◌then◌else◌, ◌⊎◌, inl, inr, arith,
}
use Prim.Native.String.{len}
use warehouse_accounting_sys.Result.{success, unauthorized}
use warehouse_accounting_sys.Exec.{ok, Outcome-cases}
use warehouse_accounting_sys.Session.{Verb, handles_api, handle_request}
use warehouse_accounting_sys.Session.Access.{handle_request-authenticated}
use warehouse_accounting_sys.Authorizer.{
  Jwt, userid_key, expiration_key, issuer, secret, lifetime, number_claim, verified, validate_token,
  signed_token, generate_token,
}

module _ (jwt : Jwt) where
  -- The token is signed with the server's key, names the user, and has not expired.
  abbrev pub Vouches : ℕ → String → ℕ → Type 0
  Vouches now token user =
      (d : jwt.Decoded) × (expiration : ℕ) × (jwt.decode token ≡ ok d)
      × (jwt.verify issuer secret d ≡ true)
      × (number_claim jwt d expiration_key ≡ ok expiration)
      × (now ≤ expiration)
      × (number_claim jwt d userid_key ≡ ok user)

  verified-user :
      (d : jwt.Decoded) (u user : ℕ)
      → verified jwt d u ≡ (success, user)
      → (jwt.verify issuer secret d ≡ true) × (u ≡ user)
  verified-user d u user h = elim (Bool-cases (jwt.verify issuer secret d)) [
    | inl b ↦ (b, ap (λ r. r.1) (rw b at h))
    | inr b ↦ absurd (cc (rw b at h))
  ]

  not_later : (expiration now : ℕ) → ltb expiration now ≡ false → now ≤ expiration
  not_later expiration now h = ground arith

  -- A token is accepted only if the library verifies it with the server's issuer and key, it has
  -- not expired, and its user is the one that is answered.
  pub validate_token-Vouches :
      (now before : ℕ) (token : String) (user : ℕ)
      → validate_token jwt now before token ≡ (success, user)
      → Vouches now token user
  unfolding validate_token
  validate_token-Vouches now before token user h = elim (Outcome-cases (jwt.decode token)) [
    | inr (e, b) ↦ absurd (cc (rw b at h))
    | inl (d, b) ↦ elim (Outcome-cases (number_claim jwt d expiration_key)) [
      | inr (e, c) ↦ absurd (cc (rw (b, c) at h))
      | inl (expiration, c) ↦ elim (Bool-cases (ltb expiration now)) [
        | inl late ↦ absurd (cc (rw (b, c, late) at h))
        | inr early ↦ elim (Outcome-cases (number_claim jwt d userid_key)) [
          | inr (e, u) ↦ absurd (cc (rw (b, c, early, u) at h))
          | inl (n, u) ↦
              let (signed, same) = verified-user d n user (rw (b, c, early, u) at h) in
              (d, expiration, b, signed, c, not_later expiration now early, u ∙ ap (λ x. ok x) same)
        ]
      ]
    ]
  ]

  -- A request reaches a task only as an authorization request, or with a token that is signed with
  -- the server's key, has not expired and names the user as whom the task is run.
  pub handle_request-Vouches :
      (now : ℕ) (verb : Verb) (target token : String) (user : ℕ)
      → handle_request (validate_token jwt now 0) verb target token ≡ ok (handles_api user)
      → ((target ≡ "/api/authorization") × (user ≡ 0)) ⊎ Vouches now token user
  handle_request-Vouches now verb target token user h =
      elim (handle_request-authenticated (validate_token jwt now 0) verb target token user h) [
        | inl open_to_all ↦ inl open_to_all
        | inr (filled, valid) ↦ inr (validate_token-Vouches now 0 token user valid)
      ]

-- What the documentation of the JWT library and of the conversions promises: a token that is signed with
-- two claims decodes to them and verifies with its own issuer and key, and a 64-bit number is read
-- back from its text.
pub record JwtLaws (jwt : Jwt) : Type 0 where
  pub signed_lem :
      (x y : ℕ)
      → (d : jwt.Decoded) × (jwt.decode (
            jwt.sign issuer secret
              ((userid_key, jwt.to_text x) ∷ (expiration_key, jwt.to_text y) ∷ []))
          ≡ ok d)
        × (jwt.verify issuer secret d ≡ true)
        × (jwt.claim d userid_key ≡ ok (jwt.to_text x))
        × (jwt.claim d expiration_key ≡ ok (jwt.to_text y))
  pub number_lem : (n : ℕ) → n < 2 ^ 64 → jwt.from_text (jwt.to_text n) ≡ ok n

module _ (jwt : Jwt) (laws : JwtLaws jwt) where
  signed_token-valid :
      (now later before user : ℕ)
      → user < 2 ^ 64
      → validate_token jwt later before (signed_token jwt now user) ≡ (
          if ltb ((now + lifetime) % 2 ^ 64) later then (unauthorized, before) else (success, user))
  unfolding validate_token
  signed_token-valid now later before user small =
      let expiration = (now + lifetime) % 2 ^ 64 in
      let (d, decodes, verifies, user_claim, expiration_claim) = laws.signed_lem user expiration in
      let in_time : expiration < 2 ^ 64 = omega arith in
      rw (decodes, expiration_claim, laws.number_lem expiration in_time)
        (elim (Bool-cases (ltb expiration later)) [
          | inl b ↦ rw b
          | inr b ↦ rw (b, user_claim, laws.number_lem user small, verifies)
        ])

  generated :
      (now user : ℕ) (login password token : String)
      → generate_token jwt now login password (success, some user) ≡ (success, some token)
      → signed_token jwt now user ≡ token
  unfolding generate_token
  generated now user login password token h =
      elim (Bool-cases (not (len login == 0) && not (len password == 0))) [
        | inl b ↦ cc (rw b at h)
        | inr b ↦ absurd (cc (rw b at h))
      ]

  -- A token that was generated for a user whose id has 64 bits is accepted as that user's up to its
  -- expiration, and is refused with UNAUTHORIZED later, whatever user was set before.
  pub validate_token-generate_token :
      (now later before user : ℕ) (login password token : String)
      → user < 2 ^ 64
      → generate_token jwt now login password (success, some user) ≡ (success, some token)
      → validate_token jwt later before token ≡ (
          if ltb ((now + lifetime) % 2 ^ 64) later then (unauthorized, before) else (success, user))
  validate_token-generate_token now later before user login password token small h =
      ap (validate_token jwt later before) (sym (generated now user login password token h))
      ∙ signed_token-valid now later before user small
