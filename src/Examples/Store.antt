-- ===== src/Examples/Store.antt =====
-- A store that answers the statements of `ChangeCount` as the table Warehouse_Item does.
use warehouse_accounting_sys.Base.{
  ◌≡◌, refl, sym, ap, ◌∙◌, Bool, true, false, ◌&&◌, if◌then◌else◌, Bool-cases, Option, none, some,
  List, [], ◌∷◌, ◌++◌, append-nil, append_assoc, map, any, inl, inr,
}
use warehouse_accounting_sys.Base.Int.{ℤ, ◌==ℤ◌}
use warehouse_accounting_sys.Exec.{Outcome, ok, throws, other_exception}
use warehouse_accounting_sys.Query.Values.{
  Value, int, text, Param, bound, ValueCollector, to_pqxx, to_param,
}
use warehouse_accounting_sys.Query.Condition.{
  Condition, group, in_list, real, cons, nil, collect_params,
}
use warehouse_accounting_sys.Query.Options.{
  QueryOptions, select_options, insert_options, update_options, delete_options,
}
use warehouse_accounting_sys.Query.Build.{create, check_sizes, extract_all}
use warehouse_accounting_sys.Database.{Database, Rows, run_query}
use warehouse_accounting_sys.Stock.{insert_items_request}
use warehouse_accounting_sys.Stock.Items.{
  ItemTable, count_rows, member, find_row, or_else, replaced,
}

-- The count of a warehouse and a product.
abbrev pub Counts : Type 0
Counts = ℤ → ℤ → Option ℤ

abbrev pub is_value : Value → ℤ → Bool
is_value (int n) p = n ==ℤ p
is_value (text s) p = false

abbrev pub delete_of : Option Condition → Counts → Counts
delete_of (some (group t (cons (in_list a values) (cons (real e b (int w)) nil)))) s v p =
    if (w ==ℤ v) && any (λ u. is_value u p) values then none else s v p
delete_of _ s v p = s v p

abbrev pub find_param : ℤ → ℤ → List Param → Option ℤ
find_param v p (bound (int w) ∷ bound (int q) ∷ bound (int c) ∷ rest) =
    if (w ==ℤ v) && (q ==ℤ p) then some c else find_param v p rest
find_param v p _ = none

abbrev answer : QueryOptions → List Param → Counts → Outcome Rows × Counts
answer (select_options o) (bound (int p) ∷ bound (int w) ∷ []) s = (ok (count_rows (s w p)), s)
answer (insert_options o) params s = (ok [], λ v p. or_else (find_param v p params) (s v p))
answer (update_options o) (bound (int target) ∷ bound (int p) ∷ bound (int w) ∷ []) s =
    (ok [], λ v q. if (w ==ℤ v) && (p ==ℤ q) then replaced target (s v q) else s v q)
answer (delete_options o) params s = (ok [], delete_of o.condition s)
answer _ params s = (throws other_exception, s)

abbrev pub store : Database
store = record { State = Counts; exec = answer }

pub any-is_value : (ids : List ℤ) (p : ℤ) → any (λ u. is_value u p) (map int ids) ≡ member p ids
any-is_value [] p = refl
any-is_value (q ∷ ids) p = rw (any-is_value ids p)

abbrev pub row : ℤ → ℤ × ℤ → ValueCollector
row w r = int w ∷ int r.0 ∷ int r.1 ∷ []

abbrev pub flat : ℤ → List (ℤ × ℤ) → List Param
flat w [] = []
flat w ((q, c) ∷ rows) = bound (int w) ∷ bound (int q) ∷ bound (int c) ∷ flat w rows

pub check_sizes-rows : (w : ℤ) (rows : List (ℤ × ℤ)) → check_sizes 3 (map (row w) rows) ≡ ok tt
unfolding check_sizes
check_sizes-rows w [] = refl
check_sizes-rows w (r ∷ rows) = check_sizes-rows w rows

to_pqxx-append : (a b : ValueCollector) → (to_pqxx (a ++ b)).0 ≡ (to_pqxx a).0 ++ (to_pqxx b).0
unfolding to_pqxx
to_pqxx-append [] b = refl
to_pqxx-append (v ∷ a) b = ap (λ r. to_param v ∷ r) (to_pqxx-append a b)

extract_all-rows :
    (w : ℤ) (rows : List (ℤ × ℤ)) (to : ValueCollector)
    → (to_pqxx (extract_all (map (row w) rows) to)).0 ≡ (to_pqxx to).0 ++ flat w rows
unfolding extract_all to_pqxx to_param
extract_all-rows w [] to = sym (append-nil (to_pqxx to).0)
extract_all-rows w (r ∷ rows) to =
    extract_all-rows w rows (to ++ row w r)
    ∙ rw (to_pqxx-append to (row w r))
        (append_assoc (to_pqxx to).0 (to_pqxx (row w r)).0 (flat w rows))

pub find_param-flat :
    (w v p : ℤ) (rows : List (ℤ × ℤ))
    → find_param v p (flat w rows) ≡ (if w ==ℤ v then find_row p rows else none)
find_param-flat w v p [] = elim (Bool-cases (w ==ℤ v)) [ inl b ↦ rw b | inr b ↦ rw b ]
find_param-flat w v p ((q, c) ∷ rows) = elim (Bool-cases (w ==ℤ v)) [
  | inl b ↦ rw (b, find_param-flat w v p rows, b)
  | inr b ↦ rw (b, find_param-flat w v p rows, b)
]

pub insert_run :
    (w : ℤ) (r : ℤ × ℤ) (rows : List (ℤ × ℤ)) (s : Counts)
    → run_query store (insert_items_request w (r ∷ rows)) s
      ≡ (ok [], λ v p. or_else (find_param v p (flat w (r ∷ rows))) (s v p))
unfolding run_query create to_pqxx
insert_run w r rows s = rw (check_sizes-rows w (r ∷ rows), extract_all-rows w (r ∷ rows) [])

pub or_else_if :
    (b : Bool) (o v : Option ℤ) → or_else (if b then o else none) v ≡ (if b then or_else o v else v)
or_else_if true o v = refl
or_else_if false o v = refl

unfoldable pub item_table : ItemTable store
unfolding run_query create to_pqxx to_param collect_params
item_table = record {
  item = λ s w p. s w p;
  known = λ s w p. true;
  select_lem = λ s w p. refl;
  delete_lem = λ s w id ids. ([], _, refl, λ v p. rw (any-is_value ids p), λ v p. refl);
  insert_lem = λ s w r new h k. (
    [],
    _,
    insert_run w r new s,
    λ v p.
        ap (λ o. or_else o (s v p)) (find_param-flat w v p (r ∷ new))
        ∙ or_else_if (w ==ℤ v) (find_row p (r ∷ new)) (s v p),
    λ v p. refl,
  );
  update_lem = λ s w p target h. ([], _, refl, λ v q. refl, λ v q. refl);
}
