-- ===== src/Query/Condition/Placeholders.antt =====
-- The placeholders that a condition prints against the values that it collects.
use warehouse_accounting_sys.Base.{ℕ, ◌+◌, ◌≡◌, refl, [], ◌∷◌, length, length-append, not, arith}
use warehouse_accounting_sys.Exec.{ok, lift, check_true}
use warehouse_accounting_sys.Query.Schema.{Column, eq_column}
use warehouse_accounting_sys.Query.Text.{
  Text, Numbered, Numbered-append, Numbered-words, Numbered-end, Numbered-returned, bind-ok,
  placeholder_vector, placeholder_vector-Numbered,
}
use warehouse_accounting_sys.Query.Condition.{
  Condition, Conditions, group, real, in_list, negation, is_null, nil, cons, to_string, group_rest,
  collect_params, collect_all, GroupConditionType,
}

mutual
  unfolding to_string group_rest collect_params collect_all

  -- A condition that prints has one placeholder for each value that it collects, numbered in order.
  pub to_string-Numbered :
      (c : Condition) (n : ℕ) {t : Text} {n' : ℕ}
      → to_string c n ≡ (ok t, n')
      → Numbered t n n' (length (collect_params c))
  to_string-Numbered (group type nil) n h = cc
  to_string-Numbered (group type (cons c cs)) n h =
      let (t, m, first, rest) = bind-ok (to_string c) _ h in
      let (u, m', others, last) = bind-ok (group_rest type cs) _ rest in
      rw (length-append (collect_params c) (collect_all cs)) (
        Numbered-returned
          (Numbered-words "("
            (Numbered-append (to_string-Numbered c n first) (group_rest-Numbered cs type m others)))
          last)
  to_string-Numbered (real type column value) n h =
      Numbered-returned (record { in_order = refl; counted = refl }) h
  to_string-Numbered (in_list column []) n h = cc
  to_string-Numbered (in_list column (v ∷ vs)) n h =
      let (ts, run, numbered) = placeholder_vector-Numbered (length (v ∷ vs)) n in
      let (us, m, first, last) = bind-ok (placeholder_vector (length (v ∷ vs))) _ h in
      let same : us ≡ ts = cc in
      let there : m ≡ n + length (v ∷ vs) = cc in
      Numbered-returned
        (Numbered-words "(" (
          Numbered-words _
            (Numbered-words " IN (" (rw (same, there) (Numbered-end "))" numbered)))))
        last
  to_string-Numbered (negation c) n h =
      let (t, m, first, last) = bind-ok (to_string c) _ h in
      Numbered-returned (Numbered-words "(NOT " (Numbered-end ")" (to_string-Numbered c n first)))
        last
  to_string-Numbered (is_null column) n h =
      let (u, m, first, last) =
        bind-ok (lift (check_true (not (eq_column column Column.invalid)))) _ h in
      let there : m ≡ n = cc in
      Numbered-returned (record { in_order = refl; counted = rw there (omega arith) }) last

  pub group_rest-Numbered :
      (cs : Conditions) (type : GroupConditionType) (n : ℕ) {t : Text} {n' : ℕ}
      → group_rest type cs n ≡ (ok t, n')
      → Numbered t n n' (length (collect_all cs))
  group_rest-Numbered nil type n h =
      Numbered-returned (record { in_order = refl; counted = omega arith }) h
  group_rest-Numbered (cons c cs) type n h =
      let (t, m, first, rest) = bind-ok (to_string c) _ h in
      let (u, m', others, last) = bind-ok (group_rest type cs) _ rest in
      rw (length-append (collect_params c) (collect_all cs)) (
        Numbered-returned
          (Numbered-words " " (
            Numbered-words _ (
              Numbered-words " " (
                Numbered-append (to_string-Numbered c n first)
                  (group_rest-Numbered cs type m others)))))
          last)
