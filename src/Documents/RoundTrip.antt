-- ===== src/Documents/RoundTrip.antt =====
-- `RelativizeDocument` of document_manager.cpp on what `RestoreDocument` answers.
use warehouse_accounting_sys.Base.{
  ◌≡◌, refl, sym, ap, ◌∙◌, subst, inl, inr, Bool, true, false, is_empty, Bool-cases, some, List, [],
  ◌∷◌, ◌++◌, append_assoc, append-nil, All, map,
}
use warehouse_accounting_sys.Result.{success}
use warehouse_accounting_sys.Documents.Paths.{
  Bytes, FilePath, directory_names, append_path, lexically_normal, Element, root_directory,
  file_name, eq_element, elements,
}
use warehouse_accounting_sys.Documents.Paths.Normal.{IsPlain, IsNormal, IsRelative, eq_bytes_refl}
use warehouse_accounting_sys.Documents.{
  or_index, restore_document, strip, append_all, relative, relativize_document,
}
use warehouse_accounting_sys.Documents.Below.{restore_document-IsRelative}

abbrev IsNamed : Bytes → Type 0
IsNamed name = is_empty name ≡ false

plain-IsNamed : (names : List Bytes) → All IsPlain names → All IsNamed names
plain-IsNamed [] h = tt
plain-IsNamed (name ∷ names) ((e, d, dd), h) = (e, plain-IsNamed names h)

normal-IsNamed : (names : List Bytes) → IsNormal names → All IsNamed names
normal-IsNamed [] h = tt
normal-IsNamed (name ∷ names) (inl (e, h)) =
    (subst (λ n. is_empty n ≡ false) (sym e) refl, normal-IsNamed names h)
normal-IsNamed (name ∷ names) (inr ((e, d, dd), h)) = (e, plain-IsNamed names h)

relative-IsNamed : (names : List Bytes) → IsRelative names → All IsNamed names
relative-IsNamed names (inl e) = subst (All IsNamed) (sym e) (refl, tt)
relative-IsNamed names (inr h) = normal-IsNamed names h

eq_element_refl : (e : Element) → eq_element e e ≡ true
eq_element_refl root_directory = refl
eq_element_refl (file_name name) = eq_bytes_refl name

strip-append : (root names : List Element) → strip root (root ++ names) ≡ some names
unfolding strip
strip-append [] names = refl
strip-append (e ∷ root) names = rw (eq_element_refl e) (strip-append root names)

directory_names-All : (names : List Bytes) → All IsNamed names → directory_names names ≡ names
unfolding directory_names
directory_names-All [] h = refl
directory_names-All (name ∷ []) (e, h) = rw e refl
directory_names-All (name ∷ next ∷ names) (e, h) =
    ap (λ r. name ∷ r) (directory_names-All (next ∷ names) h)

All-snoc :
    (names : List Bytes) (name : Bytes)
    → All IsNamed names
    → IsNamed name
    → All IsNamed (names ++ name ∷ [])
All-snoc [] name h e = (e, tt)
All-snoc (first ∷ names) name (f, h) e = (f, All-snoc names name h e)

-- One element after the other comes behind the path.
append_all-names :
    (before names : List Bytes)
    → All IsNamed before
    → All IsNamed names
    → append_all (record { rooted = false; names = before }) (map file_name names)
      ≡ record { rooted = false; names = before ++ names }
unfolding append_all append_path
append_all-names before [] h k =
    ap (λ r. record { rooted = false; names = r }) (sym (append-nil before))
append_all-names before ([] ∷ names) h (e, k) = cc
append_all-names before ((c ∷ name) ∷ names) h (e, k) =
    ap
      (λ r.
        append_all (record { rooted = false; names = r ++ (c ∷ name) ∷ [] }) (map file_name names))
      (directory_names-All before h)
    ∙ append_all-names (before ++ (c ∷ name) ∷ []) names (All-snoc before (c ∷ name) h e) k
    ∙ ap (λ r. record { rooted = false; names = r }) (append_assoc before ((c ∷ name) ∷ []) names)

map-append : (xs ys : List Bytes) → map file_name (xs ++ ys) ≡ map file_name xs ++ map file_name ys
map-append [] ys = refl
map-append (x ∷ xs) ys = ap (λ r. file_name x ∷ r) (map-append xs ys)

elements-under :
    (root : FilePath) (names : List Bytes)
    → elements (record root { names = root.names ++ names }) ≡ elements root ++ map file_name names
elements-under root names = elim (Bool-cases root.rooted) [
  | inl b ↦ rw b (ap (λ r. root_directory ∷ r) (map-append root.names names))
  | inr b ↦ rw b (map-append root.names names)
]

-- When the root has no separator at its end, RelativizeDocument gives back, in normal form, the path that
-- RestoreDocument was asked for.
pub relativize_document-restore_document :
    (exists : FilePath → Bool) (root : FilePath) (check : Bool) (p q : FilePath)
    → directory_names root.names ≡ root.names
    → restore_document exists root check p ≡ (success, q)
    → relativize_document root q
      ≡ (success, record { rooted = false; names = (lexically_normal (or_index p)).names })
unfolding relativize_document
relativize_document-restore_document exists root check p q trimmed h =
    let names = (lexically_normal (or_index p)).names in
    let (normal, is) = restore_document-IsRelative exists root check p q h in
    let below : q ≡ record root { names = root.names ++ names } =
      is ∙ ap (λ r. record root { names = r ++ names }) trimmed in
    ap (λ r. relative r (strip (elements root) (elements r))) below
    ∙ ap (λ r. relative (record root { names = root.names ++ names }) (strip (elements root) r))
        (elements-under root names)
    ∙ ap (relative (record root { names = root.names ++ names }))
        (strip-append (elements root) (map file_name names))
    ∙ ap (λ r. (success, r)) (append_all-names [] names tt (relative-IsNamed names normal))
