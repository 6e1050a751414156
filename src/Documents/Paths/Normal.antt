-- ===== src/Documents/Paths/Normal.antt =====
-- The normal form of a relative path in document_manager.cpp.
use warehouse_accounting_sys.Base.{
  ◌≡◌, refl, ◌⊎◌, inl, inr, Bool-cases, Bool, true, false, not, ◌&&◌, ◌||◌, is_empty, List, [], ◌∷◌,
  All, arith,
}
use warehouse_accounting_sys.Documents.Paths.{
  Bytes, eq_bytes, FilePath, is_dot, dot_dot, is_dot_dot, ends_with_name, is_empty_path, climb,
  walk_one, walk, reverse_onto, finish, lexically_normal, has_filename,
}

pub eq_bytes_refl : (s : Bytes) → eq_bytes s s ≡ true
eq_bytes_refl [] = refl
eq_bytes_refl (c ∷ s) = ground (arith, eq_bytes_refl s)

pub eq_bytes-true : (s t : Bytes) → eq_bytes s t ≡ true → s ≡ t
eq_bytes-true [] [] h = refl
eq_bytes-true [] (d ∷ t) h = cc
eq_bytes-true (c ∷ s) [] h = cc
eq_bytes-true (c ∷ s) (d ∷ t) h = ground (arith, eq_bytes-true s t)

-- A name that is neither empty nor "." nor "..".
abbrev pub IsPlain : Bytes → Type 0
IsPlain name = (is_empty name ≡ false) × (is_dot name ≡ false) × (is_dot_dot name ≡ false)

-- The names of a normal path: ".." at the front only, and then plain names.
abbrev pub IsNormal : List Bytes → Type 0
IsNormal [] = Unit {0}
IsNormal (name ∷ names) = ((name ≡ dot_dot) × IsNormal names) ⊎ (IsPlain name × All IsPlain names)

-- What is normal so far: plain names on top of "..".
abbrev IsStack : List Bytes → Type 0
IsStack [] = Unit {0}
IsStack (top ∷ stack) =
    (IsPlain top × IsStack stack) ⊎ ((top ≡ dot_dot) × All (λ name. name ≡ dot_dot) stack)

IsStack-tail : (top : Bytes) (stack : List Bytes) → IsStack (top ∷ stack) → IsStack stack
IsStack-tail top stack (inl (p, s)) = s
IsStack-tail top [] (inr (e, s)) = tt
IsStack-tail top (next ∷ stack) (inr (e, (f, s))) = inr (f, s)

climb-IsStack : (stack : List Bytes) → IsStack stack → IsStack (climb false stack).0
climb-IsStack [] h = inr (refl, tt)
climb-IsStack (top ∷ stack) h = elim (Bool-cases (is_dot_dot top)) [
  | inl b ↦
      rw b (inr (refl, elim h [ inl ((e, d, dd), s) ↦ absurd (cc (b, dd)) | inr (e, s) ↦ (e, s) ]))
  | inr b ↦ rw b (IsStack-tail top stack h)
]

or_false : (a b : Bool) → (a || b) ≡ false → (a ≡ false) × (b ≡ false)
or_false true b h = cc
or_false false b h = (refl, h)

walk_one-IsStack :
    (name : Bytes) (stack : List Bytes) (trailing : Bool)
    → IsStack stack
    → IsStack (walk_one false name (stack, trailing)).0
walk_one-IsStack name stack trailing h = elim (Bool-cases (is_empty name || is_dot name)) [
  | inl b ↦ rw b h
  | inr b ↦ elim (Bool-cases (is_dot_dot name)) [
    | inl d ↦ rw (b, d) (climb-IsStack stack h)
    | inr d ↦
        rw (b, d) (let (e, k) = or_false (is_empty name) (is_dot name) b in inl ((e, k, d), h))
  ]
]

walk-IsStack :
    (names stack : List Bytes) (trailing : Bool)
    → IsStack stack
    → IsStack (walk false names (stack, trailing)).0
unfolding walk
walk-IsStack [] stack trailing h = h
walk-IsStack (name ∷ names) stack trailing h =
    walk-IsStack names (walk_one false name (stack, trailing)).0
      (walk_one false name (stack, trailing)).1 (walk_one-IsStack name stack trailing h)

reverse_dot_dots :
    (stack onto : List Bytes)
    → All (λ name. name ≡ dot_dot) stack
    → IsNormal onto
    → IsNormal (reverse_onto stack onto)
unfolding reverse_onto
reverse_dot_dots [] onto h k = k
reverse_dot_dots (name ∷ stack) onto (e, h) k = reverse_dot_dots stack (name ∷ onto) h (inl (e, k))

All-plain : (names : List Bytes) → All IsPlain names → IsNormal names
All-plain [] h = tt
All-plain (name ∷ names) (p, h) = inr (p, h)

reverse_onto-IsNormal :
    (stack onto : List Bytes)
    → IsStack stack
    → All IsPlain onto
    → IsNormal (reverse_onto stack onto)
unfolding reverse_onto
reverse_onto-IsNormal [] onto h k = All-plain onto k
reverse_onto-IsNormal (top ∷ stack) onto (inl (p, h)) k =
    reverse_onto-IsNormal stack (top ∷ onto) h (p, k)
reverse_onto-IsNormal (top ∷ stack) onto (inr (e, h)) k =
    reverse_dot_dots stack (top ∷ onto) h (inl (e, All-plain onto k))

ends_with_name-reverse_onto :
    (stack : List Bytes) (name : Bytes) (onto : List Bytes)
    → ends_with_name (reverse_onto stack (name ∷ onto)) ≡ ends_with_name (name ∷ onto)
unfolding reverse_onto
ends_with_name-reverse_onto [] name onto = refl
ends_with_name-reverse_onto (top ∷ stack) name onto =
    ends_with_name-reverse_onto stack top (name ∷ onto)

-- The names that a relative path has in normal form, when it has a file name.
abbrev pub IsRelative : List Bytes → Type 0
IsRelative names = (names ≡ (b'.' ∷ []) ∷ []) ⊎ IsNormal names

finish-IsRelative :
    (stack : List Bytes) (trailing : Bool)
    → IsStack stack
    → ends_with_name (finish false (stack, trailing)) ≡ true
    → IsRelative (finish false (stack, trailing))
unfolding reverse_onto
finish-IsRelative [] trailing h named = inl refl
finish-IsRelative (top ∷ stack) trailing h named =
    elim (Bool-cases (trailing && not (is_dot_dot top))) [
      | inl b ↦ absurd (cc (ends_with_name-reverse_onto stack top ([] ∷ []), rw b at named))
      | inr b ↦ rw b (inr (reverse_onto-IsNormal (top ∷ stack) [] h tt))
    ]

-- A relative path that is not empty and has a file name has, in normal form, ".." at the front only and no empty
-- name, or it is ".".
pub lexically_normal-IsRelative :
    (p : FilePath)
    → is_empty_path p ≡ false
    → p.rooted ≡ false
    → has_filename (lexically_normal p) ≡ true
    → IsRelative (lexically_normal p).names
unfolding lexically_normal
lexically_normal-IsRelative p b relative named =
    rw (b, relative)
      (finish-IsRelative (walk false p.names ([], false)).0 (walk false p.names ([], false)).1
        (walk-IsStack p.names [] false tt) (rw (b, relative) at named))
