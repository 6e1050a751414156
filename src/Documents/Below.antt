-- ===== src/Documents/Below.antt =====
-- Where the paths lie that `RestoreDocument` of document_manager.cpp answers.
use warehouse_accounting_sys.Base.{
  ℕ, zero, suc, ◌+◌, ◌≡◌, refl, sym, ap, ◌∙◌, inl, inr, Bool-cases, Bool, true, false, not, ◌&&◌,
  ◌||◌, is_empty, if◌then◌else◌, List, [], ◌∷◌, ◌++◌, arith,
}
use warehouse_accounting_sys.Result.{Result, success}
use warehouse_accounting_sys.Documents.Paths.{
  Bytes, FilePath, dot_dot, ends_with_name, is_empty_path, climb, walk, reverse_onto, to_path,
  lexically_normal, has_filename, directory_names, append_path, under, split, squeeze,
}
use warehouse_accounting_sys.Documents.Paths.Normal.{
  IsPlain, IsRelative, lexically_normal-IsRelative,
}
use warehouse_accounting_sys.Documents.{or_index, placed, restored, restore_document}

pub or_index-there : (p : FilePath) → is_empty_path (or_index p) ≡ false
unfolding to_path split squeeze
or_index-there p = elim (Bool-cases (is_empty_path p)) [
  | inl b ↦ rw b refl
  | inr b ↦ rw (b, b) refl
]

pub lexically_normal-rooted : (p : FilePath) → (lexically_normal p).rooted ≡ p.rooted
unfolding lexically_normal
lexically_normal-rooted p = elim (Bool-cases (is_empty_path p)) [
  | inl b ↦ rw b refl
  | inr b ↦ rw b refl
]

pub placed_ok :
    (exists : FilePath → Bool) (check : Bool) (p q : FilePath)
    → placed exists check p ≡ (success, q)
    → p ≡ q
placed_ok exists check p q h = elim (Bool-cases (check && not (exists p))) [
  | inl b ↦ absurd (cc (rw b at h))
  | inr b ↦ ap (λ x. x.1) (rw b at h)
]

refused_not : (a b : Bool) → (a || not b) ≡ false → (a ≡ false) × (b ≡ true)
refused_not true b h = cc
refused_not false true h = (refl, refl)
refused_not false false h = cc

restored_ok :
    (exists : FilePath → Bool) (root : FilePath) (check : Bool) (p q : FilePath)
    → restored exists root check p ≡ (success, q)
    → (p.rooted ≡ false) × (has_filename p ≡ true) × (append_path root p ≡ q)
restored_ok exists root check p q h = elim (Bool-cases (p.rooted || not (has_filename p))) [
  | inl b ↦ absurd (cc (rw b at h))
  | inr b ↦
      let (relative, named) = refused_not p.rooted (has_filename p) b in
      (relative, named, placed_ok exists check (append_path root p) q (rw b at h))
]

under-named :
    (root : FilePath) (names : List Bytes)
    → ends_with_name names ≡ true
    → under root names ≡ record root { names = directory_names root.names ++ names }
under-named root [] h = cc
under-named root (name ∷ names) h = refl

append_path-relative :
    (root p : FilePath)
    → p.rooted ≡ false
    → has_filename p ≡ true
    → append_path root p ≡ record root { names = directory_names root.names ++ p.names }
unfolding append_path
append_path-relative root p relative named = rw relative (under-named root p.names named)

-- A path that RestoreDocument answers with SUCCESS is the root, followed by the normal form of what was
-- asked for: "." or names of which none is empty or ".", and ".." stands at the front only.
pub restore_document-IsRelative :
    (exists : FilePath → Bool) (root : FilePath) (check : Bool) (p q : FilePath)
    → restore_document exists root check p ≡ (success, q)
    → IsRelative (lexically_normal (or_index p)).names
      × (q ≡ record root {
        names = directory_names root.names ++ (lexically_normal (or_index p)).names;
      })
unfolding restore_document
restore_document-IsRelative exists root check p q h =
    let asked = lexically_normal (or_index p) in
    let (relative, named, is) = restored_ok exists root check asked q h in
    (
      lexically_normal-IsRelative (or_index p) (or_index-there p)
          (sym (lexically_normal-rooted (or_index p)) ∙ relative) named,
      sym is ∙ append_path-relative root asked relative named,
    )

-- So many times "..", and then the names.
abbrev pub ups : ℕ → List Bytes → List Bytes
ups zero names = names
ups (suc k) names = dot_dot ∷ ups k names

ups_later : (k : ℕ) (names : List Bytes) → ups k (dot_dot ∷ names) ≡ dot_dot ∷ ups k names
ups_later zero names = refl
ups_later (suc k) names = ap (λ r. dot_dot ∷ r) (ups_later k names)

climb-ups : (j : ℕ) → climb false (ups j []) ≡ (ups (suc j) [], false)
climb-ups zero = refl
climb-ups (suc j) = refl

none_more : (j : ℕ) → j ≡ 0 + j
none_more j = omega arith

no_more : (k : ℕ) → k + 0 ≡ k
no_more k = omega arith

moved_one : (k j : ℕ) → k + suc j ≡ suc k + j
moved_one k j = omega arith

-- The walk over the ups, onto those that it has met.
walk-ups :
    (k j : ℕ) (name : Bytes)
    → IsPlain name
    → walk false (ups k (name ∷ [])) (ups j [], false) ≡ (name ∷ ups (k + j) [], false)
unfolding walk
walk-ups zero j name (e, d, dd) = rw (e, d, dd) (ap (λ n. (name ∷ ups n [], false)) (none_more j))
walk-ups (suc k) j name h =
    ap (walk false (ups k (name ∷ []))) (climb-ups j)
    ∙ walk-ups k (suc j) name h
    ∙ ap (λ n. (name ∷ ups n [], false)) (moved_one k j)

reverse_ups : (k : ℕ) (names : List Bytes) → reverse_onto (ups k []) names ≡ ups k names
unfolding reverse_onto
reverse_ups zero names = refl
reverse_ups (suc k) names = reverse_ups k (dot_dot ∷ names) ∙ ups_later k names

ups_there : (k : ℕ) (name : Bytes) → is_empty (ups k (name ∷ [])) ≡ false
ups_there zero name = refl
ups_there (suc k) name = refl

ups_named :
    (k : ℕ) (name : Bytes) → is_empty name ≡ false → ends_with_name (ups k (name ∷ [])) ≡ true
ups_named zero name e = rw e refl
ups_named (suc zero) name e = rw e refl
ups_named (suc (suc k)) name e = ups_named (suc k) name e

-- A path of "..", however many, with a plain name behind them.
abbrev pub climbing : ℕ → Bytes → FilePath
climbing k name = record { rooted = false; names = ups k (name ∷ []) }

climbing-normal :
    (k : ℕ) (name : Bytes)
    → IsPlain name
    → lexically_normal (or_index (climbing k name)) ≡ climbing k name
unfolding lexically_normal reverse_onto
climbing-normal k name h =
    let there = ups_there k name in
    rw (there, there, walk-ups k 0 name h)
      (ap (λ names. record { rooted = false; names = names })
        (ap (λ n. reverse_onto (ups n []) (name ∷ [])) (no_more k) ∙ reverse_ups k (name ∷ [])))

whatever : (p q : Result × FilePath) (check : Bool) → (if check && false then p else q) ≡ q
whatever p q true = refl
whatever p q false = refl

-- RestoreDocument refuses no path of "..", however many, with a plain name behind them: when the file
-- is there, it answers SUCCESS with that path from the root.
pub restore_document-climbs :
    (exists : FilePath → Bool) (root : FilePath) (check : Bool) (k : ℕ) (name : Bytes)
    → IsPlain name
    → exists (record root { names = directory_names root.names ++ ups k (name ∷ []) }) ≡ true
    → restore_document exists root check (climbing k name)
      ≡ (success, record root { names = directory_names root.names ++ ups k (name ∷ []) })
unfolding restore_document
restore_document-climbs exists root check k name h there =
    let named = ups_named k name h.0 in
    ap (restored exists root check) (climbing-normal k name h)
    ∙ rw (named, append_path-relative root (climbing k name) refl named, there) (whatever _ _ check)
