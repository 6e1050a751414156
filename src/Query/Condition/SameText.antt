-- ===== src/Query/Condition/SameText.antt =====
-- `Equals` on conditions against the text that they print.
use warehouse_accounting_sys.Base.{
  ℕ, ◌≡◌, ◌≢◌, refl, ap, ap₂, sym, ◌∙◌, Bool, true, false, ◌&&◌, List, [], ◌∷◌, ◌++◌, length,
  eq_of-==, eq_iff, and_left, and_right, arith,
}
use warehouse_accounting_sys.Exec.{pure, ◌>>=◌}
use warehouse_accounting_sys.Query.Schema.{Column, Column-discrete, yes_of, yes_refl}
use warehouse_accounting_sys.Query.Values.{Value}
use warehouse_accounting_sys.Query.Text.{words, Printer}
use warehouse_accounting_sys.Query.Condition.{
  Condition, Conditions, group, real, in_list, negation, is_null, nil, cons, to_string, group_rest,
  equals, equals_all, GroupConditionType, and, or, group_type_to_string, RealConditionType,
  RealConditionType-discrete,
}

-- Every group in the condition is an AND group.
unfoldable mutual
  pub and_only : Condition → Bool
  and_only (group and cs) = and_only_all cs
  and_only (group or cs) = false
  and_only (real t column v) = true
  and_only (in_list column vs) = true
  and_only (negation c) = and_only c
  and_only (is_null column) = true

  pub and_only_all : Conditions → Bool
  and_only_all nil = true
  and_only_all (cons c cs) = and_only c && and_only_all cs

-- A NOT condition equals nothing, not even itself.
pub equals-negation : (c d : Condition) → equals (negation c) d ≡ false
unfolding equals
equals-negation c (negation d) = equals-negation d d
equals-negation c (group t cs) = refl
equals-negation c (real t column v) = refl
equals-negation c (in_list column vs) = refl
equals-negation c (is_null column) = refl

-- The printers of the classes, over what they call.
abbrev group_printer : Printer → Printer → Printer
group_printer first others = do t ← first; rest ← others; pure (words "(" ∷ t ++ rest)

abbrev rest_printer : GroupConditionType → Printer → Printer → Printer
rest_printer type first others = do
  t ← first
  rest ← others
  pure (words " " ∷ words (group_type_to_string type) ∷ words " " ∷ t ++ rest)

to_string-group :
    (type : GroupConditionType) (c : Condition) (cs : Conditions)
    → to_string (group type (cons c cs)) ≡ group_printer (to_string c) (group_rest type cs)
unfolding to_string
to_string-group type c cs = refl

group_rest-cons :
    (type : GroupConditionType) (c : Condition) (cs : Conditions)
    → group_rest type (cons c cs) ≡ rest_printer type (to_string c) (group_rest type cs)
unfolding to_string
group_rest-cons type c cs = refl

same_text_real :
    (t u : RealConditionType) (column column' : Column) (v w : Value)
    → t ≡ u
    → column ≡ column'
    → to_string (real t column v) ≡ to_string (real u column' w)
unfolding to_string
same_text_real t u column column' v w p q = rw (p, q)

same_text_in :
    (column column' : Column) (vs ws : List Value)
    → column ≡ column'
    → length vs ≡ length ws
    → to_string (in_list column vs) ≡ to_string (in_list column' ws)
unfolding to_string
same_text_in column column' [] [] p q = refl
same_text_in column column' (v ∷ vs) (w ∷ ws) p q = rw (p, q)
same_text_in column column' [] (w ∷ ws) p q = absurd (omega arith)
same_text_in column column' (v ∷ vs) [] p q = absurd (omega arith)

mutual
  unfolding equals equals_all and_only and_only_all

  same_text_in_block :
      (c d : Condition)
      → equals c d ≡ true
      → and_only c ≡ true
      → and_only d ≡ true
      → to_string c ≡ to_string d
  same_text_in_block (group and nil) (group and nil) e a b = refl
  same_text_in_block (group and (cons c cs)) (group and (cons d ds)) e a b =
      to_string-group and c cs
      ∙ ap₂ group_printer
          (same_text_in_block c d (and_left _ _ e) (and_left _ _ a) (and_left _ _ b))
          (same_text_rest cs ds (and_right _ _ e) (and_right _ _ a) (and_right _ _ b))
      ∙ sym (to_string-group and d ds)
  same_text_in_block (real t column v) (real u column' w) e a b =
      same_text_real t u column column' v w
        (yes_of (RealConditionType-discrete t u) (and_left _ _ e))
        (yes_of (Column-discrete column column') (and_right _ _ e))
  same_text_in_block (in_list column vs) (in_list column' ws) e a b =
      same_text_in column column' vs ws (yes_of (Column-discrete column column') (and_left _ _ e))
        (eq_of-== (length vs) (length ws) (and_right _ _ e))
  same_text_in_block (is_null column) (is_null column') e a b =
      ap (λ k. to_string (is_null k)) (yes_of (Column-discrete column column') e)
  same_text_in_block (negation c) d e a b = cc (equals-negation c d)
  same_text_in_block c d e a b = cc

  same_text_rest :
      (cs ds : Conditions)
      → equals_all cs ds ≡ true
      → and_only_all cs ≡ true
      → and_only_all ds ≡ true
      → group_rest and cs ≡ group_rest and ds
  same_text_rest nil nil e a b = refl
  same_text_rest (cons c cs) (cons d ds) e a b =
      group_rest-cons and c cs
      ∙ ap₂ (rest_printer and)
          (same_text_in_block c d (and_left _ _ e) (and_left _ _ a) (and_left _ _ b))
          (same_text_rest cs ds (and_right _ _ e) (and_right _ _ a) (and_right _ _ b))
      ∙ sym (group_rest-cons and d ds)
  same_text_rest cs ds e a b = cc

-- Conditions whose groups are all AND groups print the same text from any count when `Equals`
-- takes them for equal, whatever values they hold.
pub equals-same_text :
    (c d : Condition)
    → equals c d ≡ true
    → and_only c ≡ true
    → and_only d ≡ true
    → to_string c ≡ to_string d
equals-same_text = same_text_in_block

-- `Equals` does not look at the type of a group: an AND and an OR of the same two comparisons are
-- taken for equal, and their texts differ.
pub equals_ignores_group_type :
    (t u : RealConditionType) (a b : Column) (v w : Value) (n : ℕ)
    → let both = cons (real t a v) (cons (real u b w) nil) in
      (equals (group and both) (group or both) ≡ true)
      × (to_string (group and both) n ≢ to_string (group or both) n)
unfolding equals equals_all to_string group_rest group_type_to_string
equals_ignores_group_type t u a b v w n = (
  rw (
    yes_refl (RealConditionType-discrete t t),
    yes_refl (RealConditionType-discrete u u),
    yes_refl (Column-discrete a a),
    yes_refl (Column-discrete b b),
  ),
  λ h. ground (arith, eq_iff "AND" "OR"),
)
