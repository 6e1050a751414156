-- ===== src/Examples/Bodies.antt =====
-- Request bodies: a few JSON values in place of the library.
use warehouse_accounting_sys.Base.{
  String, str_eq, Bool, true, false, if◌then◌else◌, Option, none, some, List, [], ◌∷◌,
}
use warehouse_accounting_sys.Base.Int.{ℤ, pos}
use warehouse_accounting_sys.Exec.{Outcome, ok, throws, other_exception}
use warehouse_accounting_sys.Json.{Json}

-- A number, a text, a filter, one or two filters in an array, or the body of a list with its filters.
pub data Body : Type 0 where
  numeral : ℤ → Body
  letters : String → Body
  filter : String → String → Body → Body
  one : Body → Body
  both : Body → Body → Body
  listing : Body → Body

abbrev key_at : Body → String → Outcome Body
key_at (filter key type v) name =
    if str_eq name "key"
    then ok (letters key)
    else if str_eq name "type"
    then ok (letters type)
    else if str_eq name "value"
    then ok v
    else throws other_exception
key_at (listing filters) name =
    if str_eq name "offset" then ok (numeral (pos 0)) else throws other_exception
key_at body name = throws other_exception

abbrev key_found : Body → String → Option Body
key_found (listing filters) name = if str_eq name "filters" then some filters else none
key_found body name = none

abbrev members : Body → List Body
members (one a) = a ∷ []
members (both a b) = a ∷ b ∷ []
members body = []

abbrev is_letters : Body → Bool
is_letters (letters s) = true
is_letters body = false

abbrev letters_of : Body → Outcome String
letters_of (letters s) = ok s
letters_of body = throws other_exception

abbrev numeral_of : Body → Outcome ℤ
numeral_of (numeral n) = ok n
numeral_of body = throws other_exception

abbrev pub bodies : Json
bodies = record {
  Value = Body;
  at = key_at;
  find = key_found;
  elements = members;
  is_string = is_letters;
  is_array = λ v. false;
  as_string = letters_of;
  as_int64 = numeral_of;
}

-- {"key": "main_color", "type": "<", "value": 3}
abbrev pub low_filter : Body
low_filter = filter "main_color" "<" (numeral (pos 3))

-- {"key": "name", "type": "=", "value": "NULL"}
abbrev pub unnamed_filter : Body
unnamed_filter = filter "name" "=" (letters "NULL")

-- A comparison that there is no type for.
abbrev pub unlike_filter : Body
unlike_filter = filter "main_color" "!=" (numeral (pos 3))
