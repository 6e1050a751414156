-- ===== src/Pool/Quota.antt =====
-- `GetConnection` and `ReturnConnection` of connection_pool.cpp, against the number of connections.
use warehouse_accounting_sys.Base.{
  ℕ, suc, ◌+◌, ◌^◌, ◌<◌, ◌≡◌, refl, ap, true, false, Bool-cases, List, [], ◌∷◌, length,
  length-append, ltb, inl, inr, arith,
}
use warehouse_accounting_sys.Exec.{Outcome, ok, throws}
use warehouse_accounting_sys.Pool.{Pool, init_of, take_free, get_connection, return_connection}

positive : (n : ℕ) → ltb 0 n ≡ true → 0 < n
positive n h = ground arith

zero_of : (n : ℕ) → ltb 0 n ≡ false → n ≡ 0
zero_of n h = ground arith

module _ {C : Type 0} where
  length-init_of : (x : C) (xs : List C) → length (init_of x xs) ≡ length xs
  length-init_of x [] = refl
  length-init_of x (y ∷ ys) = ap suc (length-init_of y ys)

  -- What is free, what may still be created and what is taken make up the quota, and what is
  -- taken beyond it is marked for deletion.
  abbrev pub Balanced : ℕ → ℕ → Pool C → Type 0
  Balanced quota taken s = length s.free + s.to_create + taken ≡ quota + s.to_delete

  -- How many are taken after a call of `GetConnection`.
  abbrev pub taken_after : Outcome C → ℕ → ℕ
  taken_after (ok c) taken = suc taken
  taken_after (throws e) taken = taken

  take_free-Balanced :
      (created : Outcome C) (xs : List C) (quota taken : ℕ) (s : Pool C)
      → s.to_delete + 1 < 2 ^ 32
      → s.free ≡ xs
      → Balanced quota taken s
      → Balanced quota (taken_after (take_free created xs s).0 taken) (take_free created xs s).1
  take_free-Balanced created (x ∷ xs) quota taken s h e b =
      let n : length s.free ≡ suc (length xs) = ap length e in
      omega (arith, b, n, length-init_of x xs)
  take_free-Balanced (ok c) [] quota taken s h e b = elim (Bool-cases (ltb 0 s.to_create)) [
    | inl l ↦ rw l (omega (arith, b, positive s.to_create l))
    | inr l ↦ rw l (omega (arith, b))
  ]
  take_free-Balanced (throws x) [] quota taken s h e b = elim (Bool-cases (ltb 0 s.to_create)) [
    | inl l ↦ rw l b
    | inr l ↦ rw l b
  ]

  -- While the counter of connections to delete does not wrap around, `GetConnection` keeps the
  -- balance, also when connecting fails.
  pub get_connection-Balanced :
      (created : Outcome C) (quota taken : ℕ) (s : Pool C)
      → s.to_delete + 1 < 2 ^ 32
      → Balanced quota taken s
      → Balanced quota (taken_after (get_connection created s).0 taken) (get_connection created s).1
  unfolding get_connection
  get_connection-Balanced created quota taken s h b =
      take_free-Balanced created s.free quota taken s h refl b

  -- `ReturnConnection` keeps the balance.
  pub return_connection-Balanced :
      (c : C) (quota taken : ℕ) (s : Pool C)
      → Balanced quota (suc taken) s
      → Balanced quota taken (return_connection c s)
  unfolding return_connection
  return_connection-Balanced c quota taken s b = elim (Bool-cases (ltb 0 s.to_delete)) [
    | inl e ↦ rw e (omega (arith, b, positive s.to_delete e))
    | inr e ↦ rw e (omega (arith, b, zero_of s.to_delete e, length-append s.free (c ∷ [])))
  ]
