-- ===== src/Authorizer.antt =====
-- back/services/authorizer/source/authorizer.cpp: the tokens that a user gets and shows.
pub mod Tokens
pub mod Users
use warehouse_accounting_sys.Base.{
  ℕ, ◌+◌, ◌*◌, ◌%◌, ◌^◌, Bool, true, false, not, ◌&&◌, Option, none, some, List, [], ◌∷◌, String,
  ltb, ◌==◌, if◌then◌else◌,
}
use Prim.Native.String.{len}
use warehouse_accounting_sys.Result.{Result, success, wrong_format, unauthorized}
use warehouse_accounting_sys.Exec.{Outcome, ok, throws, try_bind, check_true, value}

-- The JWT library and the standard conversions of 64-bit numbers, which are not part of the repository.
-- `claim` is `payload[key].to_str()`; `verify` and `sign` take the issuer and the key.
pub record Jwt : Type 1 where
  pub Decoded : Type 0
  pub decode : String → Outcome Decoded
  pub claim : Decoded → String → Outcome String
  pub verify : String → String → Decoded → Bool
  pub sign : String → String → List (String × String) → String
  pub to_text : ℕ → String
  pub from_text : String → Outcome ℕ

abbrev pub userid_key : String
userid_key = "userId"

abbrev pub expiration_key : String
expiration_key = "expiration"

abbrev pub issuer : String
issuer = "was"

abbrev pub secret : String
secret = "secret"

-- `30ull * 60ull * 60ull * 1000ull * 1000ull * 1000ull`
abbrev pub lifetime : ℕ
lifetime = 30 * 60 * 60 * 1000 * 1000 * 1000

module _ (jwt : Jwt) where
  -- A claim read as a number.
  abbrev pub number_claim : jwt.Decoded → String → Outcome ℕ
  number_claim d key = try_bind (jwt.claim d key) jwt.from_text

  -- The signature is checked after the user was set.
  abbrev pub verified : jwt.Decoded → ℕ → Result × ℕ
  verified d user = if jwt.verify issuer secret d then (success, user) else (unauthorized, user)

  abbrev pub read_user : jwt.Decoded → ℕ → Outcome ℕ → Result × ℕ
  read_user d user (ok u) = verified d u
  read_user d user (throws e) = (wrong_format, user)

  abbrev pub read_expiration : ℕ → jwt.Decoded → ℕ → Outcome ℕ → Result × ℕ
  read_expiration now d user (ok expiration) =
      if ltb expiration now
      then (unauthorized, user)
      else read_user d user (number_claim d userid_key)
  read_expiration now d user (throws e) = (wrong_format, user)

  abbrev pub read_token : ℕ → ℕ → Outcome jwt.Decoded → Result × ℕ
  read_token now user (ok d) = read_expiration now d user (number_claim d expiration_key)
  read_token now user (throws e) = (wrong_format, user)

  -- `ValidateToken`: the result and the user, which is the one given until a claim was read.
  unfoldable pub validate_token : ℕ → ℕ → String → Result × ℕ
  validate_token now user token = read_token now user (jwt.decode token)

  abbrev pub signed_token : ℕ → ℕ → String
  signed_token now user = jwt.sign issuer secret (
      (userid_key, jwt.to_text user)
      ∷ (expiration_key, jwt.to_text ((now + lifetime) % 2 ^ 64))
      ∷ [])

  abbrev pub token_for : ℕ → Result × Option ℕ → Result × Option String
  token_for now (success, some user) = (success, some (signed_token now user))
  token_for now (_, user) = (unauthorized, none)

  -- `GenerateToken`, given what `ValidateCredentials` answers; every exception is caught.
  unfoldable pub generate_token : ℕ → String → String → Result × Option ℕ → Result × Option String
  generate_token now login password credentials =
      if not (len login == 0) && not (len password == 0)
      then token_for now credentials
      else (unauthorized, none)
