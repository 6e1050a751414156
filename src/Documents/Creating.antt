-- ===== src/Documents/Creating.antt =====
-- `CreateFile` of document_manager.cpp: which file it opens.
use warehouse_accounting_sys.Base.{
  ℕ, zero, suc, ◌≡◌, refl, sym, ap, subst, ◌∙◌, inl, inr, Bool-cases, Bool, true, false, not, ◌||◌,
  if◌then◌else◌, [], ◌∷◌, ◌++◌,
}
use warehouse_accounting_sys.Result.{Result, success, wrong_format, not_found, error}
use warehouse_accounting_sys.Documents.Paths.{
  Bytes, FilePath, to_path, has_filename, lexically_normal, append_path, starts_with_separator,
}
use warehouse_accounting_sys.Documents.Below.{lexically_normal-rooted}
use warehouse_accounting_sys.Documents.{
  or_index, placed, restored, restore_document, FileSystem, create_directories_and_open_stream,
  open_when_missing, try_file, create_file_from, create_file,
}

placed-missing :
    (exists : FilePath → Bool) (p q : FilePath)
    → placed exists true p ≡ (not_found, q)
    → exists q ≡ false
placed-missing exists p q h = elim (Bool-cases (exists p)) [
  | inl b ↦ absurd (cc (rw b at h))
  | inr b ↦ rw (sym (ap (λ r. r.1) (rw b at h))) b
]

restored-missing :
    (exists : FilePath → Bool) (root p q : FilePath)
    → restored exists root true p ≡ (not_found, q)
    → exists q ≡ false
restored-missing exists root p q h = elim (Bool-cases (p.rooted || not (has_filename p))) [
  | inl b ↦ absurd (cc (rw b at h))
  | inr b ↦ placed-missing exists (append_path root p) q (rw b at h)
]

-- What RestoreDocument answers with NOT_FOUND is no file.
restore_document-missing :
    (exists : FilePath → Bool) (root p q : FilePath)
    → restore_document exists root true p ≡ (not_found, q)
    → exists q ≡ false
unfolding restore_document
restore_document-missing exists root p q h =
    restored-missing exists root (lexically_normal (or_index p)) q h

module _ (fs : FileSystem) where
  -- A round of CreateFile at some state of the file system: the path, which was not there, is what is
  -- opened.
  abbrev pub IsFresh : FilePath → Bytes → fs.World → Type 0
  IsFresh root text after =
      (before : fs.World) × ((p : FilePath) × ((fs.exists before p ≡ false)
          × ((restore_document (fs.exists before) root true (to_path text) ≡ (not_found, p))
              × (create_directories_and_open_stream fs p before ≡ (true, after)))))

  was_missing :
      (r : Result × FilePath) (w after : fs.World)
      → open_when_missing fs r w ≡ (true, after)
      → (p : FilePath) × ((r ≡ (not_found, p))
          × (create_directories_and_open_stream fs p w ≡ (true, after)))
  was_missing (not_found, p) w after h = (p, (refl, h))
  was_missing (_, p) w after h = absurd (cc h)

  try_file-IsFresh :
      (root : FilePath) (text : Bytes) (w after : fs.World)
      → try_file fs root text w ≡ (true, after)
      → IsFresh root text after
  try_file-IsFresh root text w after h =
      let (p, (missing, opened)) =
        was_missing (restore_document (fs.exists w) root true (to_path text)) w after h in
      (
        w,
        (
          p,
          (restore_document-missing (fs.exists w) root (to_path text) p missing, (missing, opened)),
        ),
      )

  abbrev next_round :
      (ℕ → Bytes) → FilePath → Bytes → ℕ → ℕ → Bytes → Bool × fs.World → (Result × Bytes) × fs.World
  next_round random root text n attempts tweak (created, w) =
      if created
      then ((success, text ++ tweak), w)
      else create_file_from fs random root text (suc n) attempts (random n) w

  next_round-IsFresh :
      (random : ℕ → Bytes) (root : FilePath) (text : Bytes) (n attempts : ℕ) (tweak : Bytes)
      (round : Bool × fs.World) (answer : Bytes) (after : fs.World)
      → next_round random root text n attempts tweak round ≡ ((success, answer), after)
      → (round ≡ (true, after) → IsFresh root (text ++ tweak) after)
      → ((w : fs.World)
          → create_file_from fs random root text (suc n) attempts (random n) w
            ≡ ((success, answer), after)
          → IsFresh root answer after)
      → IsFresh root answer after
  next_round-IsFresh random root text n attempts tweak (true, w) answer after h fresh later =
      subst (λ r. IsFresh root r after) (ap (λ r. r.0.1) h)
        (fresh (ap (λ r. (true, r)) (ap (λ r. r.1) h)))
  next_round-IsFresh random root text n attempts tweak (false, w) answer after h fresh later =
      later w h

  created_IsFresh :
      (random : ℕ → Bytes) (root : FilePath) (text : Bytes) (n attempts : ℕ) (tweak : Bytes)
      (w : fs.World) (answer : Bytes) (after : fs.World)
      → create_file_from fs random root text n attempts tweak w ≡ ((success, answer), after)
      → IsFresh root answer after
  unfolding create_file_from
  created_IsFresh random root text n zero tweak w answer after h = absurd (cc h)
  created_IsFresh random root text n (suc attempts) tweak w answer after h =
      next_round-IsFresh random root text n attempts tweak (try_file fs root (text ++ tweak) w)
        answer after h (try_file-IsFresh root (text ++ tweak) w after)
        (λ w'. created_IsFresh random root text (suc n) attempts (random n) w' answer after)

  -- When CreateFile succeeds, the path it gives back, restored below the root, was no file just before the file was
  -- opened: no file that is there is cut to nothing.
  pub create_file-IsFresh :
      (random : ℕ → Bytes) (root : FilePath) (text : Bytes) (w : fs.World) (answer : Bytes)
      (after : fs.World)
      → create_file fs random root text w ≡ ((success, answer), after)
      → IsFresh root answer after
  create_file-IsFresh random root text w answer after h =
      created_IsFresh random root text 0 100 [] w answer after h

  rooted_append :
      (text tweak : Bytes)
      → starts_with_separator text ≡ true
      → starts_with_separator (text ++ tweak) ≡ true
  rooted_append [] tweak h = cc
  rooted_append (c ∷ text) tweak h = h

  restored-rooted :
      (exists : FilePath → Bool) (root p : FilePath)
      → p.rooted ≡ true
      → restored exists root true p ≡ (wrong_format, p)
  restored-rooted exists root p h = rw h refl

  try_file-rooted :
      (root : FilePath) (text : Bytes) (w : fs.World)
      → starts_with_separator text ≡ true
      → try_file fs root text w ≡ (false, w)
  unfolding restore_document to_path
  try_file-rooted root text w h =
      rw
        (restored-rooted (fs.exists w) root (lexically_normal (or_index (to_path text)))
          (lexically_normal-rooted (or_index (to_path text)) ∙ rw h refl))
        refl

  create_file_from-rooted :
      (random : ℕ → Bytes) (root : FilePath) (text : Bytes) (n attempts : ℕ) (tweak : Bytes)
      (w : fs.World)
      → starts_with_separator text ≡ true
      → create_file_from fs random root text n attempts tweak w ≡ ((error, text), w)
  unfolding create_file_from
  create_file_from-rooted random root text n zero tweak w h = refl
  create_file_from-rooted random root text n (suc attempts) tweak w h =
      rw (try_file-rooted root (text ++ tweak) w (rooted_append text tweak h))
        (create_file_from-rooted random root text (suc n) attempts (random n) w h)

  -- CreateFile refuses a path from the root directory: after its rounds it answers ERROR and has changed no
  -- file.
  pub create_file-rooted :
      (random : ℕ → Bytes) (root : FilePath) (text : Bytes) (w : fs.World)
      → starts_with_separator text ≡ true
      → create_file fs random root text w ≡ ((error, text), w)
  create_file-rooted random root text w h = create_file_from-rooted random root text 0 100 [] w h
