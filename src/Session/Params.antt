-- ===== src/Session/Params.antt =====
-- `ConvertFromParams` of base_session.cpp: the body that the query of a target makes.
pub mod Printed
use warehouse_accounting_sys.Base.{
  ℕ, ◌==◌, Bool, true, false, if◌then◌else◌, Option, none, some, List, [], ◌∷◌,
}
use warehouse_accounting_sys.Base.Int.{ℤ}
use warehouse_accounting_sys.Documents.Paths.{Bytes, eq_bytes, push_front}

-- A value of the object: a number where the text can be read as one.
pub data ParamValue : Type 0 where
  number : ℤ → ParamValue
  words : Bytes → ParamValue

-- `json::object_t`, a map whose keys are different.
abbrev pub Params : Type 0
Params = List (Bytes × ParamValue)

-- What is behind the first such byte.
unfoldable pub behind : ℕ → Bytes → Option Bytes
behind mark [] = none
behind mark (c ∷ s) = let rest = behind mark s in if c == mark then some s else rest

-- What is before the first such byte, or everything.
unfoldable pub before : ℕ → Bytes → Bytes
before mark [] = []
before mark (c ∷ s) = let rest = before mark s in if c == mark then [] else c ∷ rest

-- Whether the first '#' comes before the first '?'.
unfoldable pub is_hash_first : Bytes → Bool
is_hash_first [] = false
is_hash_first (c ∷ s) =
    let rest = is_hash_first s in if c == b'?' then false else if c == b'#' then true else rest

-- The text in_range the first '?' and the first '#'. A '#' that comes first makes the length of
-- `substr` wrap, so that nothing is cut.
abbrev pub cut_query : Bool → Bytes → Bytes
cut_query true s = s
cut_query false s = before b'#' s

abbrev pub cut_behind : Bool → Option Bytes → Option Bytes
cut_behind hash_first none = none
cut_behind hash_first (some s) = some (cut_query hash_first s)

abbrev pub query_of : Bytes → Option Bytes
query_of target = cut_behind (is_hash_first target) (behind b'?' target)

-- The pieces in_range '&'.
unfoldable pub pieces : Bytes → List Bytes
pieces [] = [] ∷ []
pieces (c ∷ s) = let rest = pieces s in if c == b'&' then [] ∷ rest else push_front c rest

-- `emplace`, which leaves a key that is there as it is.
unfoldable pub emplace : Bytes → ParamValue → Params → Params
emplace key value [] = (key, value) ∷ []
emplace key value ((k, v) ∷ params) =
    let rest = emplace key value params in if eq_bytes k key then (k, v) ∷ params else (k, v) ∷ rest

unfoldable pub param_of : Bytes → Params → Option ParamValue
param_of key [] = none
param_of key ((k, v) ∷ params) =
    let rest = param_of key params in if eq_bytes k key then some v else rest

-- `stol` is the standard library's, none when it throws.
module _ (stol : Bytes → Option ℤ) where
  abbrev pub value_of : Bytes → ParamValue
  value_of s = elim (stol s) [ some n ↦ number n | none ↦ words s ]

  abbrev pub emplace_value : Bytes → Option Bytes → Params → Params
  emplace_value key none params = params
  emplace_value key (some value) params = emplace key (value_of value) params

  -- `handlePair`: a piece without '=' is skipped.
  abbrev pub handle_pair : Bytes → Params → Params
  handle_pair piece params = emplace_value (before b'=' piece) (behind b'=' piece) params

  -- The loop over the pieces.
  unfoldable pub handle_pairs : List Bytes → Params → Params
  handle_pairs [] params = params
  handle_pairs (piece ∷ rest) params = handle_pairs rest (handle_pair piece params)

  abbrev pub converted_query : Option Bytes → Option Params
  converted_query none = none
  converted_query (some query) = some (handle_pairs (pieces query) [])

  -- `ConvertFromParams`; none is the null value.
  unfoldable pub convert_from_params : Bytes → Option Params
  convert_from_params target = converted_query (query_of target)
