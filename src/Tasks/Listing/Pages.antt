-- ===== src/Tasks/Listing/Pages.antt =====
-- A list of one table on a database that answers SELECT as documented.
use warehouse_accounting_sys.Base.{
  ℕ, ◌≡◌, refl, ap, Bool, true, ◌&&◌, Option, none, some, List, [], ◌∷◌, map, All,
}
use warehouse_accounting_sys.Base.Int.{pos}
use warehouse_accounting_sys.Result.{Result, success, not_found}
use warehouse_accounting_sys.Exec.{Outcome, ok, try_bind}
use warehouse_accounting_sys.Query.Schema.{Column, Table}
use warehouse_accounting_sys.Query.Values.{int, bound, to_pqxx, to_param}
use warehouse_accounting_sys.Query.Condition.{
  Condition, Conditions, group, and, real, is_null, nil, cons, collect_params, collect_all,
}
use warehouse_accounting_sys.Query.Options.{condition_params}
use warehouse_accounting_sys.Database.{Row}
use warehouse_accounting_sys.Database.Tables.{Tuple, project}
use warehouse_accounting_sys.Database.Select.{
  FilterOn, AllFilters, filter_numbers, numbers_of, where_of, selected_by, holds, missing, keep,
  sort_by, page, answered, optional_pos, All-page,
}
use warehouse_accounting_sys.Json.{Document}
use warehouse_accounting_sys.Tasks.{Interfaces}
use warehouse_accounting_sys.Tasks.Reading.{each}
use warehouse_accounting_sys.Tasks.Listing.{ListRequest, list_result, list_answer}

-- Every interface is there, and the transaction gets a connection.
abbrev pub all_there : Interfaces
all_there = record { accessor = success; date_provider = success; create_transaction = success }

-- The row meets the filters, each with its own number.
abbrev pub meets_all : Conditions → Tuple → Bool
meets_all (cons (real type c (int n)) cs) t = holds type (t c) n && meets_all cs t
meets_all (cons (is_null c) cs) t = missing (t c) && meets_all cs t
meets_all _ t = true

abbrev pub meets : Option Condition → Tuple → Bool
meets (some (group and cs)) t = meets_all cs t
meets _ t = true

-- The rows that a list is about: those that meet the filter, in the order of the id, from the offset
-- on and no more than the limit.
abbrev pub listed : Column → Option Condition → Option ℕ → ℕ → List Tuple → List Tuple
listed id filter limit offset ts = page limit offset (sort_by id (keep (meets filter) ts))

-- The rows of a list are among those of the table.
pub All-listed {κ} :
    (P : Tuple → Type κ) (id : Column) (filter : Option Condition) (limit : Option ℕ) (offset : ℕ)
    (ts : List Tuple)
    → All P ts
    → All P (listed id filter limit offset ts)
All-listed P id filter limit offset ts h = All-page P id (meets filter) limit offset ts h

abbrev pub list_of_documents : List Document → Result × List Document
list_of_documents [] = (not_found, [])
list_of_documents (d ∷ ds) = (success, d ∷ ds)

abbrev pub request_of : Option ℕ → ℕ → Option Condition → ListRequest
request_of limit offset filter = record {
  limit = optional_pos limit;
  offset = pos offset;
  filter = filter;
}

collect-numbers :
    (table : Table) (cs : Conditions)
    → AllFilters table cs
    → (to_pqxx (collect_all cs)).0 ≡ map (λ n. bound (int n)) (filter_numbers cs)
unfolding to_pqxx to_param collect_all
collect-numbers table nil h = refl
collect-numbers table (cons (real type c (int n)) cs) (h, hs) =
    ap (λ ps. bound (int n) ∷ ps) (collect-numbers table cs hs)
collect-numbers table (cons (is_null c) cs) (h, hs) = collect-numbers table cs hs
collect-numbers table (cons _ cs) h = absurd h

pub bound_numbers :
    (table : Table) (filter : Option Condition)
    → FilterOn table filter
    → (to_pqxx (condition_params filter)).0 ≡ map (λ n. bound (int n)) (numbers_of filter)
unfolding to_pqxx collect_params
bound_numbers table none h = refl
bound_numbers table (some (group and (cons c cs))) h = collect-numbers table (cons c cs) h
bound_numbers table (some _) h = absurd h

selected_by-meets :
    (table : Table) (cs : Conditions) (t : Tuple)
    → AllFilters table cs
    → selected_by cs (filter_numbers cs) t ≡ meets_all cs t
unfolding selected_by
selected_by-meets table nil t h = refl
selected_by-meets table (cons (real type c (int n)) cs) t (h, hs) =
    ap (λ b. holds type (t c) n && b) (selected_by-meets table cs t hs)
selected_by-meets table (cons (is_null c) cs) t (h, hs) =
    ap (λ b. missing (t c) && b) (selected_by-meets table cs t hs)
selected_by-meets table (cons _ cs) t h = absurd h

where_of-meets :
    (table : Table) (filter : Option Condition) (t : Tuple)
    → FilterOn table filter
    → where_of filter (numbers_of filter) t ≡ meets filter t
where_of-meets table none t h = refl
where_of-meets table (some (group and (cons c cs))) t h = selected_by-meets table (cons c cs) t h
where_of-meets table (some _) t h = absurd h

keep-same :
    (p q : Tuple → Bool) (ts : List Tuple) → ((t : Tuple) → p t ≡ q t) → keep p ts ≡ keep q ts
keep-same p q [] e = refl
keep-same p q (t ∷ ts) e = rw (e t, keep-same p q ts e)

-- The numbers that are bound beside the statement are those of the filter.
pub answered-listed :
    (table : Table) (id : Column) (filter : Option Condition) (limit : Option ℕ) (offset : ℕ)
    (ts : List Tuple)
    → FilterOn table filter
    → answered id filter (numbers_of filter) limit offset ts ≡ listed id filter limit offset ts
answered-listed table id filter limit offset ts h =
    ap (λ us. page limit offset (sort_by id us))
      (keep-same _ _ ts (λ t. where_of-meets table filter t h))

-- Rows that are read and written without an exception.
each-documents :
    {A : Type 0} (read : Row → Outcome A) (write : A → Outcome Document) (columns : List Column)
    (of : Tuple → A) (document : Tuple → Document) (P : Tuple → Type 0)
    → ((t : Tuple) → P t → read (project columns t) ≡ ok (of t))
    → ((t : Tuple) → P t → write (of t) ≡ ok (document t))
    → (ts : List Tuple) → All P ts
    → (each read (map (project columns) ts) ≡ ok (map of ts))
      × (each write (map of ts) ≡ ok (map document ts))
each-documents read write columns of document P reads writes [] h = (refl, refl)
each-documents read write columns of document P reads writes (t ∷ ts) (h, hs) =
    let (e, f) = each-documents read write columns of document P reads writes ts hs in
    (rw (reads t h, e), rw (writes t h, f))

pub list-documents :
    {A : Type 0} (read : Row → Outcome A) (write : A → Outcome Document) (columns : List Column)
    (of : Tuple → A) (document : Tuple → Document) (P : Tuple → Type 0)
    → ((t : Tuple) → P t → read (project columns t) ≡ ok (of t))
    → ((t : Tuple) → P t → write (of t) ≡ ok (document t))
    → (ts : List Tuple) → All P ts
    → try_bind (list_result read (map (project columns) ts) success) (list_answer write)
      ≡ ok (list_of_documents (map document ts))
unfolding list_result
list-documents read write columns of document P reads writes [] h = refl
list-documents read write columns of document P reads writes (t ∷ ts) (h, hs) =
    let (e, f) = each-documents read write columns of document P reads writes ts hs in
    rw (reads t h, e) (rw (writes t h, f))
