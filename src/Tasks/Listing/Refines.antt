-- ===== src/Tasks/Listing/Refines.antt =====
-- The list tasks of back/components/task_manager/source/tasks/protocol against what they are to
-- answer: the rows of their table that meet the filters.
use warehouse_accounting_sys.Base.{
  true, ℕ, suc, ◌<◌, ◌^◌, ◌≡◌, refl, ap, Option, none, some, List, [], ◌∷◌, ◌++◌, map, length, All,
  String,
}
use warehouse_accounting_sys.Base.Int.{ℤ, to_int32-pos}
use warehouse_accounting_sys.Result.{Result, success}
use warehouse_accounting_sys.Exec.{Outcome, ok}
use warehouse_accounting_sys.Query.Schema.{
  Column, Table, product_id, created_date, created_by, name, pretty_name, description, main_color,
}
use warehouse_accounting_sys.Query.Condition.{Condition}
use warehouse_accounting_sys.Query.Options.{SelectOptions}
use warehouse_accounting_sys.Query.Build.{create, select_request}
use warehouse_accounting_sys.Database.{Rows, run_query}
use warehouse_accounting_sys.Database.Tables.{Tuple, project}
use warehouse_accounting_sys.Database.Select.{
  SelectLaws, FilterOn, numbers_of, has_column, numbers_fit, LimitFits, optional_pos,
}
use warehouse_accounting_sys.Transaction.Steps.{attempt_commits, execute_decided}
use warehouse_accounting_sys.Json.{Document, number, words, put_optional, plain}
use warehouse_accounting_sys.Tasks.{
  Server, DateProvider, run_transaction, begin_session, finished, persistence,
}
use warehouse_accounting_sys.Tasks.Listing.{select_entry, list_options, run_select, narrowed}
use warehouse_accounting_sys.Tasks.Listing.Pages.{
  all_there, listed, request_of, bound_numbers, answered-listed,
}
use warehouse_accounting_sys.Tasks.Typed.{int_of, text_of}

abbrev iso_date : DateProvider → Option ℤ → Option String
iso_date dates none = none
iso_date dates (some t) = some (dates.to_iso_time_string t)

length-map : {A B : Type 0} (f : A → B) (xs : List A) → length (map f xs) ≡ length xs
length-map f [] = refl
length-map f (x ∷ xs) = ap suc (length-map f xs)

narrowed_fits :
    (limit : Option ℕ) → LimitFits limit → narrowed (optional_pos limit) ≡ optional_pos limit
narrowed_fits none h = refl
narrowed_fits (some n) h = ap some (to_int32-pos n h)

module _ (server : Server) (laws : SelectLaws server.database) (fuel : ℕ) where
  open laws use {tuples, select_lem}

  abbrev view_of : server.World → server.database.State
  view_of w = server.begin w

  pub select_run :
      (table : Table) (columns : List Column) (id : Column) (filter : Option Condition)
      (limit : Option ℕ) (offset : ℕ) (s : server.database.State)
      → All (λ c. has_column table c ≡ true) (id ∷ columns)
      → FilterOn table filter
      → numbers_fit table filter (numbers_of filter) ≡ true
      → LimitFits limit
      → offset < 2 ^ 31
      → run_query server.database
          (select_request (list_options table columns id (request_of limit offset filter)))
          s
        ≡ (ok (map (project columns) (listed id filter limit offset (tuples s table))), s)
  unfolding run_query create
  select_run table columns id filter limit offset s cs h fit small start =
      rw
        (
          narrowed_fits limit small,
          to_int32-pos offset start,
          bound_numbers table filter h,
          select_lem s table columns id filter (numbers_of filter) limit offset cs h refl fit small
              start,
          answered-listed table id filter limit offset (tuples s table) h,
        )
        refl

  -- When the statement answers and its transaction commits, the task's code gets the rows.
  pub run_select_ok :
      {B : Type 0} (o : SelectOptions) (after : Rows → Result → Outcome B) (w w' : server.World)
      (rows : Rows)
      → run_query server.database (select_request o) (server.begin w) ≡ (ok rows, server.begin w)
      → server.commit (server.begin w) w ≡ (ok tt, w')
      → run_select server all_there (suc fuel) o after w ≡ (some (after rows success), w')
  unfolding run_transaction
  run_select_ok o after w w' rows run commit =
      let p = persistence server in
      let e = select_entry server o in
      let first =
        attempt_commits p Rows e (begin_session server Rows [] w) (server.begin w) rows (ok tt) w'
          (rw run refl) commit in
      ap (finished server after)
        (execute_decided p Rows server.commit_attempts fuel e _ _ (ok tt) success first refl)

-- The answer's object for a product, by the columns' names.
abbrev pub product_document : DateProvider → Tuple → Document
product_document dates t = plain (
    put_optional number "product_id" (int_of (t product_id))
    ++ put_optional words "name" (text_of (t name))
    ++ put_optional words "pretty_name" (text_of (t pretty_name))
    ++ put_optional words "description" (text_of (t description))
    ++ put_optional words "created_date" (iso_date dates (int_of (t created_date)))
    ++ put_optional number "created_by" (int_of (t created_by))
    ++ put_optional number "main_color" (int_of (t main_color)))
