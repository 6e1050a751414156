-- ===== src/Documents/Escaping.antt =====
-- `EscapePath` of document_manager.cpp.
use warehouse_accounting_sys.Base.{
  ℕ, suc, ◌≡◌, refl, ap₂, inl, inr, Bool-cases, true, [], ◌∷◌, All, length, ap,
}
use warehouse_accounting_sys.Documents.Paths.{Bytes}
use warehouse_accounting_sys.Documents.{is_safe, escape_byte, escape_path}

escape_byte-safe : (c : ℕ) → is_safe (escape_byte c) ≡ true
escape_byte-safe c = elim (Bool-cases (is_safe c)) [ inl b ↦ rw (b, b) refl | inr b ↦ rw b refl ]

escape_byte-fixed : (c : ℕ) → is_safe c ≡ true → escape_byte c ≡ c
escape_byte-fixed c h = rw h refl

escape_path-fixed : (s : Bytes) → All (λ c. is_safe c ≡ true) s → escape_path s ≡ s
unfolding escape_path
escape_path-fixed [] h = refl
escape_path-fixed (c ∷ s) (e, h) = ap₂ ◌∷◌ (escape_byte-fixed c e) (escape_path-fixed s h)

length-escape_path : (s : Bytes) → length (escape_path s) ≡ length s
unfolding escape_path
length-escape_path [] = refl
length-escape_path (c ∷ s) = ap suc (length-escape_path s)

escape_path_safe : (s : Bytes) → All (λ c. is_safe c ≡ true) (escape_path s)
unfolding escape_path
escape_path_safe [] = tt
escape_path_safe (c ∷ s) = (escape_byte-safe c, escape_path_safe s)

-- EscapePath keeps the length, answers safe characters only, and leaves a text of safe characters as it is.
pub escape_path-safe :
    (s : Bytes)
    → (length (escape_path s) ≡ length s)
      × (All (λ c. is_safe c ≡ true) (escape_path s)
          × (All (λ c. is_safe c ≡ true) s → escape_path s ≡ s))
escape_path-safe s = (length-escape_path s, (escape_path_safe s, escape_path-fixed s))
