-- ===== src/Documents.antt =====
-- back/services/document_manager/source/document_manager.cpp: the files below the document root.
pub mod Paths
pub mod Below
pub mod RoundTrip
pub mod Creating
pub mod Escaping
use warehouse_accounting_sys.Base.{
  ℕ, zero, suc, ◌==◌, leb, Bool, true, false, not, ◌&&◌, ◌||◌, if◌then◌else◌, Option, none, some,
  List, [], ◌∷◌, ◌++◌, map, is_empty,
}
use warehouse_accounting_sys.Result.{Result, success, wrong_format, not_found, error}
use warehouse_accounting_sys.Documents.Paths.{
  Bytes, FilePath, Element, file_name, eq_element, empty_path, to_path, has_filename, is_empty_path,
  lexically_normal, append_path, elements, element_path, last_name,
}

-- `INDEX_FILENAME`
abbrev pub index_filename : Bytes
index_filename = b'i' ∷ b'n' ∷ b'd' ∷ b'e' ∷ b'x' ∷ b'.' ∷ b'h' ∷ b't' ∷ b'm' ∷ b'l' ∷ []

-- `DEFAULT_DOCUMENT_ROOT`
abbrev pub default_document_root : FilePath
default_document_root = record { rooted = false; names = (b'.' ∷ []) ∷ [] }

-- `SetSettings`
unfoldable pub set_document_root : Option FilePath → FilePath → FilePath
set_document_root none root = root
set_document_root (some document_root) root = document_root

abbrev pub or_index : FilePath → FilePath
or_index p = if is_empty_path p then to_path index_filename else p

abbrev pub placed : (FilePath → Bool) → Bool → FilePath → Result × FilePath
placed exists check p = if check && not (exists p) then (not_found, p) else (success, p)

abbrev pub restored : (FilePath → Bool) → FilePath → Bool → FilePath → Result × FilePath
restored exists root check p =
    if p.rooted || not (has_filename p)
    then (wrong_format, p)
    else placed exists check (append_path root p)

-- `RestoreDocument`: the result, and the path that the caller's path becomes.
unfoldable pub restore_document : (FilePath → Bool) → FilePath → Bool → FilePath → Result × FilePath
restore_document exists root check p = restored exists root check (lexically_normal (or_index p))

-- The loop over the root's elements.
unfoldable pub strip : List Element → List Element → Option (List Element)
strip [] names = some names
strip (a ∷ root) [] = none
strip (a ∷ root) (b ∷ names) = let rest = strip root names in if eq_element b a then rest else none

unfoldable pub append_all : FilePath → List Element → FilePath
append_all p [] = p
append_all p (e ∷ es) = append_all (append_path p (element_path e)) es

abbrev pub relative : FilePath → Option (List Element) → Result × FilePath
relative p none = (wrong_format, p)
relative p (some rest) = (success, append_all empty_path rest)

-- `RelativizeDocument`
unfoldable pub relativize_document : FilePath → FilePath → Result × FilePath
relativize_document root p = relative p (strip (elements root) (elements p))

abbrev pub in_range : ℕ → ℕ → ℕ → Bool
in_range low high c = leb low c && leb c high

-- `SafeCharacters`, and the separator.
abbrev pub is_safe : ℕ → Bool
is_safe c =
    in_range b'a' b'z' c
    || in_range b'A' b'Z' c
    || in_range b'0' b'9' c
    || c == b'_'
    || c == b'\\'
    || c == b'/'
    || c == b'.'

abbrev pub escape_byte : ℕ → ℕ
escape_byte c = if is_safe c then c else b'_'

-- `EscapePath`, on the text of the path.
unfoldable pub escape_path : Bytes → Bytes
escape_path s = map escape_byte s

-- The file system: what is there, and what creating a directory and opening a file for writing answer
-- and change.
pub record FileSystem : Type 1 where
  pub World : Type 0
  pub exists : World → FilePath → Bool
  pub create_directory : FilePath → World → Bool × World
  pub open_stream : FilePath → World → Bool × World

module _ (fs : FileSystem) where
  abbrev pub ensured : FilePath → fs.World → Bool × fs.World
  ensured p w = if fs.exists w p then (true, w) else fs.create_directory p w

  -- The loop over the elements, which stops at the first one that is named like the file.
  unfoldable pub create_directories : Element → FilePath → List Element → fs.World → Bool × fs.World
  create_directories file current [] w = (true, w)
  create_directories file current (e ∷ es) w =
      let p = append_path current (element_path e) in
      let (made, w') = ensured p w in
      let rest = create_directories file p es w' in
      if eq_element e file then (true, w) else if made then rest else (false, w')

  -- `CreateDirectoriesAndOpenStream`
  unfoldable pub create_directories_and_open_stream : FilePath → fs.World → Bool × fs.World
  create_directories_and_open_stream p w =
      let (made, w') =
        create_directories (file_name (last_name p.names)) empty_path (elements p) w in
      if made then fs.open_stream p w' else (false, w')

  abbrev pub open_when_missing : Result × FilePath → fs.World → Bool × fs.World
  open_when_missing (not_found, p) w = create_directories_and_open_stream p w
  open_when_missing (_, p) w = (false, w)

  -- One round: whether the file was created.
  abbrev pub try_file : FilePath → Bytes → fs.World → Bool × fs.World
  try_file root text w =
      open_when_missing (restore_document (fs.exists w) root true (to_path text)) w

  -- The rounds of `CreateFile`; `random n` is what the n-th call of `GenerateRandomString` answers.
  unfoldable pub create_file_from :
      (ℕ → Bytes) → FilePath → Bytes → ℕ → ℕ → Bytes → fs.World → (Result × Bytes) × fs.World
  create_file_from random root text n zero tweak w = ((error, text), w)
  create_file_from random root text n (suc attempts) tweak w =
      let (created, w') = try_file root (text ++ tweak) w in
      let rest = create_file_from random root text (suc n) attempts (random n) w' in
      if created then ((success, text ++ tweak), w') else rest

  -- `CreateFile`, on the text of the path.
  abbrev pub create_file : (ℕ → Bytes) → FilePath → Bytes → fs.World → (Result × Bytes) × fs.World
  create_file random root text w = create_file_from random root text 0 100 [] w
