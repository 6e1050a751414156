-- ===== src/Examples/Shown.antt =====
-- A token that is generated and shown, with a stand-in for the JWT library.
use warehouse_accounting_sys.Base.{
  ℕ, zero, suc, ◌==◌, ◌≡◌, ◌⊎◌, refl, ap, true, if◌then◌else◌, String, str_eq, List, ◌∷◌, some,
}
use Prim.Native.Char.{code}
use Prim.Native.String.{[] as no_text, ◌∷◌ as ◌:text:◌}
use warehouse_accounting_sys.Result.{success}
use warehouse_accounting_sys.Exec.{ok}
use warehouse_accounting_sys.Session.{get, handles_api, handle_request}
use warehouse_accounting_sys.Authorizer.{Jwt, userid_key, generate_token, validate_token}
use warehouse_accounting_sys.Authorizer.Tokens.{JwtLaws, Vouches, handle_request-Vouches}

abbrev tally : ℕ → String
tally zero = no_text
tally (suc n) = "a" :text: tally n

abbrev size : String → ℕ
size no_text = 0
size (c :text: s) = suc (size s)

abbrev glue : String → String → String
glue no_text t = "b" :text: t
glue (c :text: s) t = c :text: glue s t

abbrev front : String → String
front no_text = no_text
front (c :text: s) = if code c == 98 then no_text else (c :text: front s)

abbrev back : String → String
back no_text = no_text
back (c :text: s) = if code c == 98 then s else back s

abbrev glued : List (String × String) → String
glued (a ∷ b ∷ rest) = glue a.1 b.1
glued _ = no_text

-- Numbers are tallies, and a token is the two claims with a mark between them.
abbrev pub tallies : Jwt
tallies = record {
  Decoded = String;
  decode = λ s. ok s;
  claim = λ d key. ok (if str_eq key userid_key then front d else back d);
  verify = λ iss key d. true;
  sign = λ iss key claims. glued claims;
  to_text = tally;
  from_text = λ s. ok (size s);
}

front-glue : (n : ℕ) (t : String) → front (glue (tally n) t) ≡ tally n
front-glue zero t = refl
front-glue (suc n) t = ap (λ s. "a" :text: s) (front-glue n t)

back-glue : (n : ℕ) (t : String) → back (glue (tally n) t) ≡ t
back-glue zero t = refl
back-glue (suc n) t = back-glue n t

size-tally : (n : ℕ) → size (tally n) ≡ n
size-tally zero = refl
size-tally (suc n) = ap suc (size-tally n)

pub tallies-JwtLaws : JwtLaws tallies
tallies-JwtLaws = record {
  signed_lem = λ x y. (
    glue (tally x) (tally y),
    refl,
    refl,
    ap (λ s. ok s) (front-glue x (tally y)),
    ap (λ s. ok s) (back-glue x (tally y)),
  );
  number_lem = λ n h. ap (λ m. ok m) (size-tally n);
}

abbrev pub token : String
token = "aaaaabaaa"

-- So late that the expiration wraps around to 3.
abbrev pub late : ℕ
late = 18446636073709551619

shows : validate_token tallies 2 0 token ≡ (success, 5)
unfolding validate_token
shows = refl

abbrev users_target : String
users_target = "/api/users"

abbrev five : ℕ
five = 5

reaches_users :
    handle_request (validate_token tallies 2 0) get users_target token ≡ ok (handles_api five)
unfolding handle_request validate_token
reaches_users = refl

handle_request-Vouches_example :
    ((users_target ≡ "/api/authorization") × (five ≡ 0)) ⊎ Vouches tallies 2 token five
handle_request-Vouches_example =
    handle_request-Vouches tallies 2 get users_target token five reaches_users

generates : generate_token tallies late "anna" "pass" (success, some five) ≡ (success, some token)
unfolding generate_token
generates = refl
