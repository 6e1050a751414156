-- ===== src/Database/Select.antt =====
-- What a SELECT of one table answers, for the tables of
-- back/services/db_connector/source/db_manager/source/scripts/initialize_tables.h.
use warehouse_accounting_sys.Base.{
  ℕ, zero, suc, ◌-◌, ◌<◌, ◌^◌, Bool, true, false, not, ◌&&◌, if◌then◌else◌, Option, none, some,
  List, [], ◌∷◌, map, any, length, All, ◌≡◌, Bool-cases, inl, inr,
}
use warehouse_accounting_sys.Base.Int.{ℤ, pos, negsuc, ◌==ℤ◌, leb_ℤ}
use warehouse_accounting_sys.Exec.{ok}
use warehouse_accounting_sys.Query.Schema.{Column, Table, eq_column}
use warehouse_accounting_sys.Query.Values.{int, text, Param, null, bound}
use warehouse_accounting_sys.Query.Condition.{
  Condition, Conditions, group, and, real, is_null, nil, cons, RealConditionType, equal, less,
  greater, not_equal, not_less, not_greater,
}
use warehouse_accounting_sys.Query.Options.{select_options, OrderType}
use warehouse_accounting_sys.Database.{Database}
use warehouse_accounting_sys.Database.Tables.{
  Tuple, ColumnType, bigint, integer, characters, initialize_tables, project,
}

abbrev pub compare : RealConditionType → ℤ → ℤ → Bool
compare equal a b = a ==ℤ b
compare less a b = not (leb_ℤ b a)
compare greater a b = not (leb_ℤ a b)
compare not_equal a b = not (a ==ℤ b)
compare not_less a b = leb_ℤ b a
compare not_greater a b = leb_ℤ a b

-- A comparison with null is not true.
abbrev pub holds : RealConditionType → Param → ℤ → Bool
holds type null n = false
holds type (bound (int a)) n = compare type a n
holds type (bound (text s)) n = false

abbrev pub missing : Param → Bool
missing null = true
missing (bound v) = false

-- The row meets every condition of the AND group, whose placeholders stand for the numbers in order.
unfoldable pub selected_by : Conditions → List ℤ → Tuple → Bool
selected_by nil ns t = true
selected_by (cons (real type c v) cs) (n ∷ ns) t = holds type (t c) n && selected_by cs ns t
selected_by (cons (is_null c) cs) ns t = missing (t c) && selected_by cs ns t
selected_by _ _ t = false

abbrev pub where_of : Option Condition → List ℤ → Tuple → Bool
where_of none ns t = true
where_of (some (group and cs)) ns t = selected_by cs ns t
where_of (some c) ns t = false

abbrev is_number : ColumnType → Bool
is_number bigint = true
is_number integer = true
is_number characters = false

abbrev pub has_number : Table → Column → Bool
has_number table c = any (λ d. eq_column d.column c && is_number d.type) (initialize_tables table)

abbrev pub has_column : Table → Column → Bool
has_column table c = any (λ d. eq_column d.column c) (initialize_tables table)

-- Comparisons of a number column of the table with a number, and IS NULL of a column.
abbrev pub AllFilters : Table → Conditions → Type 0
AllFilters table nil = Unit
AllFilters table (cons (real type c (int n)) cs) = (has_number table c ≡ true) × AllFilters table cs
AllFilters table (cons (is_null c) cs) = (has_column table c ≡ true) × AllFilters table cs
AllFilters table _ = ⊥

-- No filter, or an AND group of one or more.
abbrev pub FilterOn : Table → Option Condition → Type 0
FilterOn table none = Unit
FilterOn table (some (group and (cons c cs))) = AllFilters table (cons c cs)
FilterOn table _ = ⊥

abbrev pub filter_numbers : Conditions → List ℤ
filter_numbers (cons (real type c (int n)) cs) = n ∷ filter_numbers cs
filter_numbers (cons (is_null c) cs) = filter_numbers cs
filter_numbers _ = []

-- The numbers that a filter binds.
abbrev pub numbers_of : Option Condition → List ℤ
numbers_of (some (group and cs)) = filter_numbers cs
numbers_of _ = []

-- PostgreSQL takes a number for a parameter only if it fits the type of the column it is compared with.
abbrev signed : ℕ → ℤ → Bool
signed bits n = leb_ℤ (negsuc (2 ^ bits - 1)) n && leb_ℤ n (pos (2 ^ bits - 1))

abbrev in_range : ColumnType → ℤ → Bool
in_range integer n = signed 31 n
in_range bigint n = signed 63 n
in_range characters n = false

abbrev fits_column : Table → Column → ℤ → Bool
fits_column table c n =
    any (λ d. eq_column d.column c && in_range d.type n) (initialize_tables table)

abbrev all_fit : Table → Conditions → List ℤ → Bool
all_fit table (cons (real type c v) cs) (n ∷ ns) = fits_column table c n && all_fit table cs ns
all_fit table (cons (is_null c) cs) ns = all_fit table cs ns
all_fit table _ ns = true

-- The numbers for the placeholders of a filter fit the columns they are compared with.
abbrev pub numbers_fit : Table → Option Condition → List ℤ → Bool
numbers_fit table (some (group and cs)) ns = all_fit table cs ns
numbers_fit table _ ns = true

-- A limit and an offset that 32 bits hold.
abbrev pub LimitFits : Option ℕ → Type 0
LimitFits none = Unit
LimitFits (some n) = n < 2 ^ 31

abbrev pub keep : (Tuple → Bool) → List Tuple → List Tuple
keep p [] = []
keep p (t ∷ ts) = let rest = keep p ts in if p t then t ∷ rest else rest

abbrev id_of : Param → ℤ
id_of (bound (int n)) = n
id_of p = pos 0

abbrev insert_by : Column → Tuple → List Tuple → List Tuple
insert_by c t [] = t ∷ []
insert_by c t (u ∷ us) =
    let rest = insert_by c t us in
    if leb_ℤ (id_of (t c)) (id_of (u c)) then t ∷ u ∷ us else u ∷ rest

-- ORDER BY c ASC
abbrev pub sort_by : Column → List Tuple → List Tuple
sort_by c [] = []
sort_by c (t ∷ ts) = insert_by c t (sort_by c ts)

abbrev take : ℕ → List Tuple → List Tuple
take zero ts = []
take (suc n) [] = []
take (suc n) (t ∷ ts) = t ∷ take n ts

abbrev drop : ℕ → List Tuple → List Tuple
drop zero ts = ts
drop (suc n) [] = []
drop (suc n) (t ∷ ts) = drop n ts

abbrev limited : Option ℕ → List Tuple → List Tuple
limited none ts = ts
limited (some n) ts = take n ts

-- LIMIT and OFFSET
abbrev pub page : Option ℕ → ℕ → List Tuple → List Tuple
page limit offset ts = limited limit (drop offset ts)

-- The rows of the answer, for bound numbers `ns`.
abbrev pub answered : Column → Option Condition → List ℤ → Option ℕ → ℕ → List Tuple → List Tuple
answered id filter ns limit offset ts =
    page limit offset (sort_by id (keep (where_of filter ns) ts))

abbrev pub optional_pos : Option ℕ → Option ℤ
optional_pos none = none
optional_pos (some n) = some (pos n)

-- What PostgreSQL documents of SELECT, for a filter of numbers on one table, each of which fits the
-- column it is compared with, and a limit and an offset of 32 bits.
pub record SelectLaws (d : Database) : Type 1 where
  pub tuples : d.State → Table → List Tuple
  pub select_lem :
      (s : d.State) (table : Table) (columns : List Column) (id : Column)
      (filter : Option Condition) (ns : List ℤ) (limit : Option ℕ) (offset : ℕ)
      → All (λ c. has_column table c ≡ true) (id ∷ columns)
      → FilterOn table filter
      → length ns ≡ length (numbers_of filter)
      → numbers_fit table filter ns ≡ true
      → LimitFits limit
      → offset < 2 ^ 31
      → d.exec
          (select_options (record {
            table = table;
            columns = columns;
            joins = [];
            condition = filter;
            order_by = some id;
            order_type = OrderType.asc;
            limit = optional_pos limit;
            offset = some (pos offset);
          }))
          (map (λ n. bound (int n)) ns)
          s
        ≡ (ok (map (project columns) (answered id filter ns limit offset (tuples s table))), s)

module _ {κ} (P : Tuple → Type κ) where
  All-keep : (p : Tuple → Bool) (ts : List Tuple) → All P ts → All P (keep p ts)
  All-keep p [] h = h
  All-keep p (t ∷ ts) (h, hs) = elim (Bool-cases (p t)) [
    | inl b ↦ rw b (h, All-keep p ts hs)
    | inr b ↦ rw b (All-keep p ts hs)
  ]

  All-insert_by :
      (c : Column) (t : Tuple) (ts : List Tuple) → P t → All P ts → All P (insert_by c t ts)
  All-insert_by c t [] h hs = (h, tt)
  All-insert_by c t (u ∷ us) h (k, ks) = elim (Bool-cases (leb_ℤ (id_of (t c)) (id_of (u c)))) [
    | inl b ↦ rw b (h, (k, ks))
    | inr b ↦ rw b (k, All-insert_by c t us h ks)
  ]

  All-sort_by : (c : Column) (ts : List Tuple) → All P ts → All P (sort_by c ts)
  All-sort_by c [] h = h
  All-sort_by c (t ∷ ts) (h, hs) = All-insert_by c t (sort_by c ts) h (All-sort_by c ts hs)

  All-take : (n : ℕ) (ts : List Tuple) → All P ts → All P (take n ts)
  All-take zero ts h = tt
  All-take (suc n) [] h = tt
  All-take (suc n) (t ∷ ts) (h, hs) = (h, All-take n ts hs)

  All-drop : (n : ℕ) (ts : List Tuple) → All P ts → All P (drop n ts)
  All-drop zero ts h = h
  All-drop (suc n) [] h = h
  All-drop (suc n) (t ∷ ts) (h, hs) = All-drop n ts hs

  All-limited : (limit : Option ℕ) (ts : List Tuple) → All P ts → All P (limited limit ts)
  All-limited none ts h = h
  All-limited (some n) ts h = All-take n ts h

  pub All-page :
      (id : Column) (p : Tuple → Bool) (limit : Option ℕ) (offset : ℕ) (ts : List Tuple)
      → All P ts
      → All P (page limit offset (sort_by id (keep p ts)))
  All-page id p limit offset ts h =
      All-limited limit _ (All-drop offset _ (All-sort_by id _ (All-keep p ts h)))
