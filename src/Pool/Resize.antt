-- ===== src/Pool/Resize.antt =====
-- `SetConnectionsCount` of connection_pool.cpp, in 32-bit arithmetic.
use warehouse_accounting_sys.Base.{
  ℕ, zero, suc, ◌+◌, ◌-◌, ◌%◌, ◌^◌, ◌≤◌, ◌<◌, ◌≡◌, refl, ap, ◌∙◌, true, false, Bool-cases, List, [],
  ◌∷◌, length, ltb, leb, inl, inr, arith,
}
use warehouse_accounting_sys.Base.Int.{
  pos, negsuc, ◌-ℤ◌, ◌+ℤ◌, leb_ℤ, int_laws, to_uint32, to_int32, to_uint32-pos, to_int32-pos,
}
use warehouse_accounting_sys.Pool.{Pool, take, cut_free, cut, resize_by, set_connections_count}

to_int32-negsuc : (n : ℕ) → n < 2 ^ 31 → to_int32 (negsuc n) ≡ negsuc n
to_int32-negsuc n h =
    let small : n % 2 ^ 32 ≡ n = to_uint32-pos n (omega arith) in
    let high : ltb (2 ^ 32 - 1 - n) (2 ^ 31) ≡ false = ground arith in
    rw (small, high) (omega int_laws)

sub_pos : (a b : ℕ) → b ≤ a → pos a -ℤ pos b ≡ pos (a - b)
sub_pos a b h = omega int_laws

sub_negsuc : (a b : ℕ) → a < b → pos a -ℤ pos b ≡ negsuc (b - a - 1)
sub_negsuc a b h = omega int_laws

to_int32-sub : (a b : ℕ) → a < 2 ^ 31 → b < 2 ^ 31 → to_int32 (pos a -ℤ pos b) ≡ pos a -ℤ pos b
to_int32-sub a b ha hb = elim (Bool-cases (leb b a)) [
  | inl e ↦ rw (sub_pos a b (ground arith)) (to_int32-pos (a - b) (omega arith))
  | inr e ↦ rw (sub_negsuc a b (ground arith)) (to_int32-negsuc (b - a - 1) (omega arith))
]

to_uint32-sub : (a b : ℕ) → b ≤ a → a < 2 ^ 32 → to_uint32 (pos a -ℤ pos b) ≡ a - b
to_uint32-sub a b h ha = rw (sub_pos a b h) (to_uint32-pos (a - b) (omega arith))

sub_le_zero : (a b : ℕ) → leb_ℤ (pos a -ℤ pos b) (pos 0) ≡ leb a b
unfolding ◌-ℤ◌
sub_le_zero a b = ground arith

zero_le_sub : (a b : ℕ) → leb_ℤ (pos 0) (pos a -ℤ pos b) ≡ leb b a
unfolding ◌-ℤ◌
zero_le_sub a b = ground arith

module _ {C : Type 0} where
  length-take : (n : ℕ) (xs : List C) → n ≤ length xs → length (take n xs) ≡ n
  length-take zero xs h = refl
  length-take (suc n) [] h = absurd (omega arith)
  length-take (suc n) (x ∷ xs) h = ap suc (length-take n xs (omega arith))

  -- How many are free and may be created, and that no more are marked for deletion.
  abbrev pub Sizes : ℕ → ℕ → ℕ → Pool C → Type 0
  Sizes free create delete s =
      (length s.free ≡ free) × (s.to_create ≡ create) × (s.to_delete ≡ delete)

  cut_free-Sizes :
      (k : ℕ) (s : Pool C)
      → k ≤ length s.free
      → length s.free < 2 ^ 31
      → Sizes (length s.free - k) s.to_create s.to_delete (cut_free (pos k) s)
  cut_free-Sizes k s h small =
      let size = length s.free in
      let exact = to_int32-sub k size (omega arith) small in
      let no_rest : leb k size ≡ true = ground arith in
      let kept = to_uint32-sub size k h (omega arith) in
      elim (Bool-cases (leb size k)) [
        | inl e ↦
            rw (exact, sub_le_zero k size, zero_le_sub k size, no_rest, e)
              (ground arith, refl, refl)
        | inr e ↦
            rw (exact, sub_le_zero k size, zero_le_sub k size, no_rest, e, kept)
              (length-take (size - k) s.free (omega arith), refl, refl)
      ]

  cut-Sizes :
      (k : ℕ) (s : Pool C)
      → k ≤ length s.free + s.to_create
      → length s.free + s.to_create < 2 ^ 31
      → let t = cut (pos k) s in
        (length t.free + t.to_create ≡ length s.free + s.to_create - k)
        × (t.to_delete ≡ s.to_delete)
  cut-Sizes k s h small =
      let rest = to_int32-sub k s.to_create (omega arith) (omega arith) in
      let kept = λ (e : k ≤ s.to_create). to_uint32-sub s.to_create k e (omega arith) in
      elim (Bool-cases (leb k s.to_create)) [
        | inl e ↦ elim (Bool-cases (leb s.to_create k)) [
          | inl f ↦
              rw (rest, sub_le_zero k s.to_create, zero_le_sub k s.to_create, e, f)
                (ground arith, refl)
          | inr f ↦
              rw
                (
                  rest,
                  sub_le_zero k s.to_create,
                  zero_le_sub k s.to_create,
                  e,
                  f,
                  kept (ground arith),
                )
                (ground arith, refl)
        ]
        | inr e ↦
            let f : leb s.to_create k ≡ true = ground arith in
            let over : s.to_create < k = ground arith in
            let (free, create, delete) =
              cut_free-Sizes (k - s.to_create) (record s { to_create = 0 }) (ground arith)
                (omega arith) in
            rw
              (
                rest,
                sub_le_zero k s.to_create,
                zero_le_sub k s.to_create,
                e,
                f,
                sub_pos k s.to_create (ground arith),
              )
              (omega (arith, free, create, over), delete)
      ]

  resize_by-grow :
      (d : ℕ) (s : Pool C)
      → s.to_create + d < 2 ^ 32
      → Sizes (length s.free) (s.to_create + d) s.to_delete (resize_by (pos d) s)
  resize_by-grow zero s h = (refl, omega arith, refl)
  resize_by-grow (suc d) s h =
      let sum : pos s.to_create +ℤ pos (suc d) ≡ pos (s.to_create + suc d) = omega int_laws in
      let more : leb_ℤ (pos (suc d)) (pos 0) ≡ false = ground arith in
      rw (more, sum) (refl, to_uint32-pos (s.to_create + suc d) h, refl)

  resize_by-cut : (k : ℕ) (s : Pool C) → resize_by (negsuc k) s ≡ cut (pos (suc k)) s
  resize_by-cut k s =
      let size : pos 0 -ℤ negsuc k ≡ pos (suc k) = omega int_laws in
      let less : leb_ℤ (negsuc k) (pos 0) ≡ true = ground arith in
      let not_more : leb_ℤ (pos 0) (negsuc k) ≡ false = ground arith in
      rw (less, not_more) (ap (λ z. cut z s) size)

  set_connections_count-resize_by :
      (count : ℕ) (s : Pool C)
      → s.busy ≡ 0
      → count < 2 ^ 31
      → length s.free + s.to_create < 2 ^ 31
      → set_connections_count count s ≡ resize_by (pos count -ℤ pos (length s.free + s.to_create)) s
  unfolding set_connections_count
  set_connections_count-resize_by count s idle hc small =
      let sum : length s.free + s.busy + s.to_create ≡ length s.free + s.to_create =
        omega (arith, idle) in
      ap (λ d. resize_by d s)
        (ap (λ n. to_int32 (pos count -ℤ pos n)) sum
          ∙ to_int32-sub count (length s.free + s.to_create) hc small)

  -- While `m_busy` is 0, and with no more than 2 ^ 31 - 1 connections before and after, `SetConnectionsCount` makes the free and
  -- the uncreated connections together as many as asked for, however many are taken, and marks
  -- none of the taken ones for deletion.
  pub set_connections_count-sizes :
      (count : ℕ) (s : Pool C)
      → s.busy ≡ 0
      → count < 2 ^ 31
      → length s.free + s.to_create < 2 ^ 31
      → let t = set_connections_count count s in
        (length t.free + t.to_create ≡ count) × (t.to_delete ≡ s.to_delete)
  set_connections_count-sizes count s idle hc small =
      let there = length s.free + s.to_create in
      elim (Bool-cases (leb there count)) [
        | inl e ↦
            let (free, create, delete) = resize_by-grow (count - there) s (omega arith) in
            let enough : there ≤ count = ground arith in
            rw (set_connections_count-resize_by count s idle hc small, sub_pos count there enough)
              (omega (arith, free, create, enough), delete)
        | inr e ↦
            let short : count < there = ground arith in
            let (sum, delete) = cut-Sizes (suc (there - count - 1)) s (omega arith) small in
            rw
              (
                set_connections_count-resize_by count s idle hc small,
                sub_negsuc count there short,
                resize_by-cut (there - count - 1) s,
              )
              (omega (arith, sum, short), delete)
      ]
