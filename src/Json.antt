-- ===== src/Json.antt =====
-- back/utilities/json/include/json/json_helpers.h over the JSON library, which is not part of the
-- repository: a parameter of the model.
use warehouse_accounting_sys.Base.{Bool, Option, none, some, List, [], ◌∷◌, String}
use warehouse_accounting_sys.Base.Int.{ℤ}
use warehouse_accounting_sys.Exec.{Outcome, ok, try_bind}

-- `nlohmann::json` as the tasks read it; what throws does so for a missing key or another type.
pub record Json : Type 1 where
  pub Value : Type 0
  pub at : Value → String → Outcome Value
  pub find : Value → String → Option Value
  pub elements : Value → List Value
  pub is_string : Value → Bool
  pub is_array : Value → Bool
  pub as_string : Value → Outcome String
  pub as_int64 : Value → Outcome ℤ

abbrev pub converted : {V A : Type 0} → (V → Outcome A) → Option V → Outcome (Option A)
converted read none = ok none
converted read (some v) = try_bind (read v) λ a. ok (some a)

module _ (j : Json) {A : Type 0} (read : j.Value → Outcome A) where
  -- `Get<T>(json, key)`
  abbrev pub get_key : j.Value → String → Outcome A
  get_key body key = try_bind (j.at body key) read

  -- `GetOptional<T>(json, key)`
  abbrev pub get_optional : j.Value → String → Outcome (Option A)
  get_optional body key = converted read (j.find body key)

-- What a task writes into an answer.
pub data Content : Type 0 where
  number : ℤ → Content
  words : String → Content

-- An object of the answer: the keys with what is put at each, in the order of the calls.
abbrev pub Puts : Type 0
Puts = List (String × Content)

-- An object with the array of objects at its key "items", or "products" for the tasks on products.
pub record Document : Type 0 where
  pub puts : Puts
  pub items : Option (List Puts)

abbrev pub plain : Puts → Document
plain puts = record { puts = puts; items = none }

-- `Put(json, key, data)`, and its overload for an optional value.
abbrev pub put : {A : Type 0} → (A → Content) → String → A → Puts
put content key a = (key, content a) ∷ []

abbrev pub put_optional : {A : Type 0} → (A → Content) → String → Option A → Puts
put_optional content key none = []
put_optional content key (some a) = put content key a
