-- ===== src/Session/Serving/Climbing.antt =====
-- Which files `HandleFile` of base_session.cpp sends.
use warehouse_accounting_sys.Base.{
  ℕ, zero, suc, ◌==◌, ◌||◌, ◌≡◌, refl, ap, ◌∙◌, Bool, true, false, is_empty, [], ◌∷◌, ◌++◌, All,
}
use warehouse_accounting_sys.Exec.{ok}
use warehouse_accounting_sys.Documents.Paths.{
  Bytes, FilePath, dot_dot, starts_with_separator, named, split, squeeze, to_path, directory_names,
}
use warehouse_accounting_sys.Documents.Paths.Normal.{IsPlain}
use warehouse_accounting_sys.Documents.Below.{ups, climbing, restore_document-climbs}
use warehouse_accounting_sys.Session.{get}
use warehouse_accounting_sys.Session.Serving.{file_body, first_word, file_response, handle_file}

-- A byte of a file's name: no separator, and not where the target's first word ends.
abbrev pub IsPart : ℕ → Type 0
IsPart c = ((c == b'/') ≡ false) × ((c == b'?' || c == b'#') ≡ false)

-- So many times "../", and then the name.
abbrev pub ups_text : ℕ → Bytes → Bytes
ups_text zero name = name
ups_text (suc k) name = b'.' ∷ b'.' ∷ b'/' ∷ ups_text k name

first_word-part : (name : Bytes) → All IsPart name → first_word name ≡ name
unfolding first_word
first_word-part [] h = refl
first_word-part (c ∷ name) ((s, e), h) = rw e (ap (λ r. c ∷ r) (first_word-part name h))

first_word-ups_text :
    (k : ℕ) (name : Bytes) → All IsPart name → first_word (ups_text k name) ≡ ups_text k name
unfolding first_word
first_word-ups_text zero name h = first_word-part name h
first_word-ups_text (suc k) name h = ap (λ r. b'.' ∷ b'.' ∷ b'/' ∷ r) (first_word-ups_text k name h)

split-part : (name : Bytes) → All IsPart name → split name ≡ name ∷ []
unfolding split
split-part [] h = refl
split-part (c ∷ name) ((s, e), h) = rw (s, split-part name h) refl

split-ups_text :
    (k : ℕ) (name : Bytes) → All IsPart name → split (ups_text k name) ≡ ups k (name ∷ [])
unfolding split
split-ups_text zero name h = split-part name h
split-ups_text (suc k) name h = ap (λ r. dot_dot ∷ r) (split-ups_text k name h)

squeeze-ups : (k : ℕ) (name : Bytes) → squeeze (ups k (name ∷ [])) ≡ ups k (name ∷ [])
unfolding squeeze
squeeze-ups zero name = refl
squeeze-ups (suc zero) name = refl
squeeze-ups (suc (suc k)) name = ap (λ r. dot_dot ∷ r) (squeeze-ups (suc k) name)

named-ups :
    (k : ℕ) (name : Bytes) → is_empty name ≡ false → named (ups k (name ∷ [])) ≡ ups k (name ∷ [])
named-ups zero [] h = cc
named-ups zero (c ∷ name) h = refl
named-ups (suc k) name h = refl

starts_with_separator-ups_text :
    (k : ℕ) (name : Bytes) → All IsPart name → starts_with_separator (ups_text k name) ≡ false
starts_with_separator-ups_text zero [] h = refl
starts_with_separator-ups_text zero (c ∷ name) ((s, e), h) = s
starts_with_separator-ups_text (suc k) name h = refl

to_path-ups_text :
    (k : ℕ) (name : Bytes)
    → IsPlain name
    → All IsPart name
    → to_path (ups_text k name) ≡ climbing k name
unfolding to_path
to_path-ups_text k name plain h = rw (starts_with_separator-ups_text k name h) (
    ap (λ names. record { rooted = false; names = names })
      (ap (λ names. named (squeeze names)) (split-ups_text k name h)
        ∙ ap named (squeeze-ups k name)
        ∙ named-ups k name plain.0))

-- A GET request for "/", "../" however many times, and the name of a file is answered with the file that lies
-- so many directories above the document root, when it is there and can be opened.
pub handle_file-climbs :
    (exists opens : FilePath → Bool) (root : FilePath) (keep_alive : Bool) (k : ℕ) (name : Bytes)
    → IsPlain name
    → All IsPart name
    → exists (record root { names = directory_names root.names ++ ups k (name ∷ []) }) ≡ true
    → opens (record root { names = directory_names root.names ++ ups k (name ∷ []) }) ≡ true
    → handle_file exists opens root get keep_alive (b'/' ∷ ups_text k name)
      ≡ ok (
          file_response keep_alive
            (record root { names = directory_names root.names ++ ups k (name ∷ []) })
            (file_body (record root { names = directory_names root.names ++ ups k (name ∷ []) }))
          ∷ [])
unfolding handle_file
handle_file-climbs exists opens root keep_alive k name plain h there opened =
    rw
      (
        first_word-ups_text k name h,
        to_path-ups_text k name plain h,
        restore_document-climbs exists root true k name plain there,
        opened,
      )
      refl
