-- ===== src/Documents/Paths.antt =====
-- What back/services/document_manager/source/document_manager.cpp uses of `std::filesystem::path`, with the
-- separator '/': a path is its elements.
pub mod Normal
use Prim.Native.Char.{code}
use Prim.Native.String
use warehouse_accounting_sys.Base.{
  ℕ, ◌==◌, Bool, true, false, not, ◌&&◌, ◌||◌, is_empty, if◌then◌else◌, Option, none, some, String,
  List, [], ◌∷◌, ◌++◌, map,
}

-- A text, byte by byte.
abbrev pub Bytes : Type 0
Bytes = List ℕ

-- A text of the source's own, in characters of one byte.
abbrev pub codes : String → Bytes
codes String.[] = []
codes (String.◌∷◌ c s) = code c ∷ codes s

abbrev pub eq_bytes : Bytes → Bytes → Bool
eq_bytes [] [] = true
eq_bytes (a ∷ s) (b ∷ t) = (a == b) && eq_bytes s t
eq_bytes _ _ = false

-- The file names of a path behind its root; an empty one at the end is a trailing separator.
pub record FilePath : Type 0 where
  pub rooted : Bool
  pub names : List Bytes

abbrev pub empty_path : FilePath
empty_path = record { rooted = false; names = [] }

abbrev pub push_front : ℕ → List Bytes → List Bytes
push_front c [] = (c ∷ []) ∷ []
push_front c (name ∷ names) = (c ∷ name) ∷ names

unfoldable pub split : Bytes → List Bytes
split [] = [] ∷ []
split (c ∷ s) = let rest = split s in if c == b'/' then [] ∷ rest else push_front c rest

-- Separators that follow each other are one.
unfoldable pub squeeze : List Bytes → List Bytes
squeeze [] = []
squeeze (name ∷ []) = name ∷ []
squeeze (name ∷ next ∷ rest) =
    let later = squeeze (next ∷ rest) in if is_empty name then later else name ∷ later

abbrev pub named : List Bytes → List Bytes
named ([] ∷ []) = []
named names = names

abbrev pub starts_with_separator : Bytes → Bool
starts_with_separator [] = false
starts_with_separator (c ∷ s) = c == b'/'

-- A path from its text.
unfoldable pub to_path : Bytes → FilePath
to_path s = record { rooted = starts_with_separator s; names = named (squeeze (split s)) }

abbrev pub is_dot : Bytes → Bool
is_dot name = eq_bytes name (b'.' ∷ [])

abbrev pub dot_dot : Bytes
dot_dot = b'.' ∷ b'.' ∷ []

abbrev pub is_dot_dot : Bytes → Bool
is_dot_dot name = eq_bytes name dot_dot

-- The last of the names is no trailing separator.
abbrev pub ends_with_name : List Bytes → Bool
ends_with_name [] = false
ends_with_name (name ∷ []) = not (is_empty name)
ends_with_name (name ∷ next ∷ rest) = ends_with_name (next ∷ rest)

-- `has_filename()`, `empty()`
abbrev pub has_filename : FilePath → Bool
has_filename p = ends_with_name p.names

abbrev pub is_empty_path : FilePath → Bool
is_empty_path p = not p.rooted && is_empty p.names

-- `filename()`
abbrev pub last_name : List Bytes → Bytes
last_name [] = []
last_name (name ∷ []) = name
last_name (name ∷ next ∷ rest) = last_name (next ∷ rest)

-- From the last dot on.
abbrev pub from_dot : Bytes → Option Bytes
from_dot [] = none
from_dot (c ∷ s) = elim (from_dot s) [
  | some e ↦ some e
  | none ↦ if c == b'.' then some (c ∷ s) else none
]

abbrev pub extension_of : Bytes → Bytes
extension_of [] = []
extension_of (c ∷ s) =
    if is_dot_dot (c ∷ s) then [] else elim (from_dot s) [ some e ↦ e | none ↦ [] ]

-- `extension()`
abbrev pub extension : FilePath → Bytes
extension p = extension_of (last_name p.names)

-- What is normal so far, the last name first, and whether a separator follows.
abbrev pub climb : Bool → List Bytes → List Bytes × Bool
climb rooted [] = if rooted then ([], true) else (dot_dot ∷ [], false)
climb rooted (top ∷ stack) =
    if is_dot_dot top then (dot_dot ∷ top ∷ stack, false) else (stack, true)

abbrev pub walk_one : Bool → Bytes → List Bytes × Bool → List Bytes × Bool
walk_one rooted name (stack, trailing) =
    if is_empty name || is_dot name
    then (stack, true)
    else if is_dot_dot name
    then climb rooted stack
    else (name ∷ stack, false)

unfoldable pub walk : Bool → List Bytes → List Bytes × Bool → List Bytes × Bool
walk rooted [] state = state
walk rooted (name ∷ names) state = walk rooted names (walk_one rooted name state)

unfoldable pub reverse_onto : List Bytes → List Bytes → List Bytes
reverse_onto [] onto = onto
reverse_onto (name ∷ names) onto = reverse_onto names (name ∷ onto)

abbrev pub finish : Bool → List Bytes × Bool → List Bytes
finish rooted ([], trailing) = if rooted then [] else (b'.' ∷ []) ∷ []
finish rooted (top ∷ stack, trailing) =
    reverse_onto (top ∷ stack) (if trailing && not (is_dot_dot top) then [] ∷ [] else [])

-- `lexically_normal()`
unfoldable pub lexically_normal : FilePath → FilePath
lexically_normal p =
    if is_empty_path p
    then p
    else (record { rooted = p.rooted; names = finish p.rooted (walk p.rooted p.names ([], false)) })

-- The names without a trailing separator.
unfoldable pub directory_names : List Bytes → List Bytes
directory_names [] = []
directory_names (name ∷ []) = if is_empty name then [] else name ∷ []
directory_names (name ∷ next ∷ rest) = name ∷ directory_names (next ∷ rest)

abbrev pub with_separator : FilePath → FilePath
with_separator p = if has_filename p then (record p { names = p.names ++ [] ∷ [] }) else p

abbrev pub under : FilePath → List Bytes → FilePath
under p [] = with_separator p
under p (name ∷ names) = record p { names = directory_names p.names ++ name ∷ names }

-- `p / q`
unfoldable pub append_path : FilePath → FilePath → FilePath
append_path p q = if q.rooted then q else under p q.names

-- What an iteration over a path meets.
pub data Element : Type 0 where
  root_directory : Element
  file_name : Bytes → Element

abbrev pub eq_element : Element → Element → Bool
eq_element root_directory root_directory = true
eq_element (file_name a) (file_name b) = eq_bytes a b
eq_element _ _ = false

abbrev pub elements : FilePath → List Element
elements p = if p.rooted then root_directory ∷ map file_name p.names else map file_name p.names

-- An element as a path of its own.
abbrev pub element_path : Element → FilePath
element_path root_directory = record { rooted = true; names = [] }
element_path (file_name []) = empty_path
element_path (file_name (c ∷ name)) = record { rooted = false; names = (c ∷ name) ∷ [] }
