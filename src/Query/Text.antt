-- ===== src/Query/Text.antt =====
-- SQL text under construction: pieces, whose concatenation is the text, and the placeholders that
-- they number. `fmt::format` and `+=` join lists. The joining is `ToString(begin, end, separator)` of
-- back/instrumental/include/instrumental/string_converters.h at the separator ", ".
use warehouse_accounting_sys.Base.{
  ℕ, zero, suc, ◌+◌, String, ◌≡◌, refl, ap, sym, ◌∙◌, List, [], ◌∷◌, ◌++◌, arith,
}
use mathlib.Core.List.{append-nil}
use native.Mathlib.Nat.{add-zero}
use warehouse_accounting_sys.Base.Int.{ℤ}
use warehouse_accounting_sys.Exec.{Outcome, ok, throws, Exec, pure, continue, ◌>>=◌}

-- `placeholder n` is the text that `pqxx::placeholders` shows at count `n`, and `number n` the
-- decimal text of a number.
pub data Piece : Type 0 where
  words : String → Piece
  placeholder : ℕ → Piece
  number : ℤ → Piece

abbrev pub Text : Type 0
Text = List Piece

-- The state of `pqxx::placeholders`: its `count()`, 1 at the start.
abbrev pub Printer : Type 0
Printer = Exec ℕ Text

-- `placeholders.view()` or `get()`, and then `next()`.
abbrev pub next_placeholder : Printer
next_placeholder n = (ok (placeholder n ∷ []), n + 1)

-- The loops that fill a vector with `k` placeholders.
unfoldable pub placeholder_vector : ℕ → Exec ℕ (List Text)
placeholder_vector zero = pure []
placeholder_vector (suc k) = do p ← next_placeholder; rest ← placeholder_vector k; pure (p ∷ rest)

unfoldable pub joined_rest : List Text → Text
joined_rest [] = []
joined_rest (t ∷ ts) = words ", " ∷ t ++ joined_rest ts

unfoldable pub joined : List Text → Text
unfolding joined_rest
joined [] = []
joined (t ∷ ts) = t ++ joined_rest ts

-- A bind that returned was two runs that returned.
pub bind-ok :
    {S A B : Type 0} (m : Exec S A) (f : A → Exec S B) {s s'' : S} {b : B}
    → (m >>= f) s ≡ (ok b, s'')
    → (a : A) × (s' : S) × (m s ≡ (ok a, s')) × (f a s' ≡ (ok b, s''))
bind-ok {S} {A} {B} m f {s} {s''} {b} h = go (m s).0 (m s).1 refl h
  where
    go :
        (r : Outcome A) (t : S)
        → m s ≡ (r, t)
        → continue r f t ≡ (ok b, s'')
        → (a : A) × (s' : S) × (m s ≡ (ok a, s')) × (f a s' ≡ (ok b, s''))
    go (ok a) t e k = (a, t, e, k)
    go (throws x) t e k = cc

-- The numbers of the placeholders of a text, in the order in which they stand.
abbrev pub slots : Text → List ℕ
slots [] = []
slots (words w ∷ t) = slots t
slots (placeholder n ∷ t) = n ∷ slots t
slots (number k ∷ t) = slots t

-- n, n + 1, …, n + k - 1
abbrev pub count_up : ℕ → ℕ → List ℕ
count_up n zero = []
count_up n (suc k) = n ∷ count_up (n + 1) k

-- The text's placeholders are the next `k` after count `n`, each once and in order, and the
-- printer's count has gone up by as many.
pub record Numbered (t : Text) (n n' k : ℕ) : Type 0 where
  pub in_order : slots t ≡ count_up n k
  pub counted : n' ≡ n + k

pub slots-append : (t u : Text) → slots (t ++ u) ≡ slots t ++ slots u
slots-append [] u = refl
slots-append (words w ∷ t) u = slots-append t u
slots-append (placeholder n ∷ t) u = ap (λ r. n ∷ r) (slots-append t u)
slots-append (number k ∷ t) u = slots-append t u

pub count_up-add : (n k l : ℕ) → count_up n (k + l) ≡ count_up n k ++ count_up (n + k) l
count_up-add n zero l = rw (zero_add l, right_zero n)
  where
    zero_add : (m : ℕ) → zero + m ≡ m
    zero_add m = omega arith

    right_zero : (m : ℕ) → m + zero ≡ m
    right_zero m = omega arith
count_up-add n (suc k) l = rw (suc_plus, shift) (ap (λ r. n ∷ r) (count_up-add (n + 1) k l))
  where
    suc_plus : suc k + l ≡ suc (k + l)
    suc_plus = omega arith

    shift : n + suc k ≡ n + 1 + k
    shift = omega arith

pub Numbered-append :
    {t u : Text} {n n' n'' k l : ℕ}
    → Numbered t n n' k
    → Numbered u n' n'' l
    → Numbered (t ++ u) n n'' (k + l)
Numbered-append {t} {u} {n} {n'} {n''} {k} {l} a b = record {
  in_order = rw (slots-append t u, a.in_order, b.in_order, a.counted) (sym (count_up-add n k l));
  counted = omega (arith, a.counted, b.counted);
}

-- Words number nothing.
pub Numbered-words :
    {t : Text} {n n' k : ℕ} (w : String) → Numbered t n n' k → Numbered (words w ∷ t) n n' k
Numbered-words w a = record { in_order = a.in_order; counted = a.counted }

pub Numbered-end :
    {t : Text} {n n' k : ℕ} (w : String) → Numbered t n n' k → Numbered (t ++ words w ∷ []) n n' k
Numbered-end {t} w a = record {
  in_order = rw (slots-append t (words w ∷ [])) (append-nil (slots t) ∙ a.in_order);
  counted = a.counted;
}

-- What the vector holds.
placeholder_texts : ℕ → ℕ → List Text
placeholder_texts n zero = []
placeholder_texts n (suc k) = (placeholder n ∷ []) ∷ placeholder_texts (n + 1) k

placeholder_vector-eq-texts :
    (k n : ℕ) → placeholder_vector k n ≡ (ok (placeholder_texts n k), n + k)
unfolding placeholder_vector placeholder_texts
placeholder_vector-eq-texts zero n = rw (add-zero n)
placeholder_vector-eq-texts (suc k) n = rw (placeholder_vector-eq-texts k (n + 1), shift)
  where
    shift : n + 1 + k ≡ n + suc k
    shift = omega arith

slots-joined_rest-texts : (k n : ℕ) → slots (joined_rest (placeholder_texts n k)) ≡ count_up n k
unfolding joined_rest placeholder_texts
slots-joined_rest-texts zero n = refl
slots-joined_rest-texts (suc k) n = ap (λ r. n ∷ r) (slots-joined_rest-texts k (n + 1))

slots-joined-texts : (k n : ℕ) → slots (joined (placeholder_texts n k)) ≡ count_up n k
unfolding joined placeholder_texts
slots-joined-texts zero n = refl
slots-joined-texts (suc k) n = ap (λ r. n ∷ r) (slots-joined_rest-texts k (n + 1))

-- Joined by commas, the vector's placeholders are numbered in order.
pub placeholder_vector-Numbered :
    (k n : ℕ)
    → (ts : List Text) × (placeholder_vector k n ≡ (ok ts, n + k))
      × Numbered (joined ts) n (n + k) k
placeholder_vector-Numbered k n = (
  placeholder_texts n k,
  placeholder_vector-eq-texts k n,
  record { in_order = slots-joined-texts k n; counted = refl },
)

-- A printer that returned returned this text, at this count.
pub Numbered-returned :
    {t u : Text} {n m n' k : ℕ}
    → Numbered u n m k
    → ◌≡◌ {A = Outcome Text × ℕ} (ok u, m) (ok t, n')
    → Numbered t n n' k
Numbered-returned {t} {u} {n} {m} {n'} {k} a h =
    let e : u ≡ t = cc in let f : m ≡ n' = cc in rw (← e, ← f) a

-- The numbers of the placeholders of several texts.
abbrev pub slots_all : List Text → List ℕ
slots_all [] = []
slots_all (t ∷ ts) = slots t ++ slots_all ts

slots-joined_rest : (ts : List Text) → slots (joined_rest ts) ≡ slots_all ts
unfolding joined_rest
slots-joined_rest [] = refl
slots-joined_rest (t ∷ ts) =
    slots-append t (joined_rest ts) ∙ ap (λ r. slots t ++ r) (slots-joined_rest ts)

-- The commas number nothing.
pub slots-joined : (ts : List Text) → slots (joined ts) ≡ slots_all ts
unfolding joined
slots-joined [] = refl
slots-joined (t ∷ ts) =
    slots-append t (joined_rest ts) ∙ ap (λ r. slots t ++ r) (slots-joined_rest ts)

-- A text with no placeholder.
abbrev pub IsPlain : Text → Type 0
IsPlain t = slots t ≡ []

pub IsPlain-append : (t u : Text) → IsPlain t → IsPlain u → IsPlain (t ++ u)
IsPlain-append t u p q = rw (slots-append t u, p, q)

-- Several texts, each with the next placeholders.
pub record NumberedAll (ts : List Text) (n n' k : ℕ) : Type 0 where
  pub all_in_order : slots_all ts ≡ count_up n k
  pub all_counted : n' ≡ n + k

pub NumberedAll-cons :
    {t : Text} {ts : List Text} {n n' n'' k l : ℕ}
    → Numbered t n n' k
    → NumberedAll ts n' n'' l
    → NumberedAll (t ∷ ts) n n'' (k + l)
NumberedAll-cons {n} {k} {l} a b = record {
  all_in_order = rw (a.in_order, b.all_in_order, a.counted) (sym (count_up-add n k l));
  all_counted = omega (arith, a.counted, b.all_counted);
}

pub NumberedAll-returned :
    {ts us : List Text} {n m n' k : ℕ}
    → NumberedAll us n m k
    → ◌≡◌ {A = Outcome (List Text) × ℕ} (ok us, m) (ok ts, n')
    → NumberedAll ts n n' k
NumberedAll-returned {ts} {us} {m} {n'} a h =
    let e : us ≡ ts = cc in let f : m ≡ n' = cc in rw (← e, ← f) a

pub joined-Numbered :
    {ts : List Text} {n n' k : ℕ} → NumberedAll ts n n' k → Numbered (joined ts) n n' k
joined-Numbered {ts} a = record {
  in_order = slots-joined ts ∙ a.all_in_order;
  counted = a.all_counted;
}

pub Numbered-from : {t : Text} {n m n' k : ℕ} → n ≡ m → Numbered t m n' k → Numbered t n n' k
Numbered-from e a = rw e a

-- A text with the same placeholders is numbered in the same way.
pub Numbered-same_slots :
    (t : Text) {u : Text} {n n' k : ℕ} → slots u ≡ slots t → Numbered t n n' k → Numbered u n n' k
Numbered-same_slots t e a = record { in_order = e ∙ a.in_order; counted = a.counted }
