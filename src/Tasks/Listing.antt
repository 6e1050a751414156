-- ===== src/Tasks/Listing.antt =====
-- What the list, get and size tasks of back/components/task_manager/source/tasks/protocol have in
-- common; each task's own file has its columns, its rows and its answer.
pub mod Pages
pub mod Refines
pub mod Prepared
pub mod Failing
use warehouse_accounting_sys.Base.{ℕ, Option, none, some, List, [], ◌∷◌, String, if◌then◌else◌}
use warehouse_accounting_sys.Base.Int.{ℤ, pos, leb_ℤ, to_int32}
use warehouse_accounting_sys.Result.{Result, success, not_found}
use warehouse_accounting_sys.Exec.{Outcome, ok, try_bind, check_success}
use warehouse_accounting_sys.Exec.Try.{◌>>=◌, ◌>>◌}
use warehouse_accounting_sys.Query.Schema.{Column, Table}
use warehouse_accounting_sys.Query.Values.{int}
use warehouse_accounting_sys.Query.Condition.{Condition, real, equal}
use warehouse_accounting_sys.Query.Options.{SelectOptions, OrderType}
use warehouse_accounting_sys.Query.Build.{select_request}
use warehouse_accounting_sys.Database.{Row, Rows}
use warehouse_accounting_sys.Transaction.{Entry, Local, function, stop}
use warehouse_accounting_sys.Json.{Json, Document, get_key, get_optional}
use warehouse_accounting_sys.Tasks.{
  Server, Interfaces, DateProvider, Running, persistence, query_entry, run_transaction,
  with_interfaces,
}
use warehouse_accounting_sys.Tasks.Reading.{each}
use warehouse_accounting_sys.Tasks.Filter.{parse_filters}

-- `m_limit`, `m_offset` and `m_filter`
pub record ListRequest : Type 0 where
  pub limit : Option ℤ
  pub offset : ℤ
  pub filter : Option Condition

abbrev pub positive : Option ℤ → Option ℤ
positive none = none
positive (some n) = if leb_ℤ n (pos 0) then none else some n

module _ (j : Json) (dates : DateProvider) (interfaces : Interfaces) where
  abbrev filter_found : Option j.Value → Outcome (Option Condition)
  filter_found none = ok none
  filter_found (some v) = do check_success interfaces.date_provider; ok (parse_filters j dates v)

  -- The filters of a body, for lists and sizes.
  abbrev pub filter_key : j.Value → Outcome (Option Condition)
  filter_key body = filter_found (j.find body "filters")

  -- `ParseInternal` of a list task.
  unfoldable pub parse_list : j.Value → Outcome ListRequest
  parse_list body = do
    limit ← get_optional j j.as_int64 body "limit"
    offset ← get_key j j.as_int64 body "offset"
    filter ← filter_key body
    ok (record { limit = positive limit; offset = offset; filter = filter })

-- `ParseInternal` of a get task.
abbrev pub parse_id : (j : Json) → j.Value → Outcome ℤ
parse_id j body = get_key j j.as_int64 body "id"

-- The options hold numbers of 32 bits.
abbrev pub narrowed : Option ℤ → Option ℤ
narrowed none = none
narrowed (some n) = some (to_int32 n)

-- The options of a list that is ordered by its id.
abbrev pub list_options : Table → List Column → Column → ListRequest → SelectOptions
list_options table columns id request = record {
  table = table;
  columns = columns;
  joins = [];
  condition = request.filter;
  order_by = some id;
  order_type = OrderType.asc;
  limit = narrowed request.limit;
  offset = some (to_int32 request.offset);
}

-- The options of a get task: the row with the id.
abbrev pub id_options : Table → List Column → Column → ℤ → SelectOptions
id_options table columns id n = record {
  table = table;
  columns = columns;
  joins = [];
  condition = some (real equal id (int n));
  order_by = none;
  order_type = OrderType.asc;
  limit = none;
  offset = none;
}

-- `if (results.empty()) … else if (transactionResult == SUCCESS) …`
unfoldable pub list_result :
    {A : Type 0} → (Row → Outcome A) → Rows → Result → Outcome (Result × List A)
list_result read [] result = ok (not_found, [])
list_result read (row ∷ rows) success = do xs ← each read (row ∷ rows); ok (success, xs)
list_result read (row ∷ rows) result = ok (result, [])

-- The same for a single object, which is read from the first row.
unfoldable pub get_result :
    {A : Type 0} → (Row → Outcome A) → Rows → Result → Outcome (Result × Option A)
get_result read [] result = ok (not_found, none)
get_result read (row ∷ rows) success = do x ← read row; ok (success, some x)
get_result read (row ∷ rows) result = ok (result, none)

-- The loops that write the answer of a task that succeeded.
abbrev pub list_answer :
    {A : Type 0} → (A → Outcome Document) → Result × List A → Outcome (Result × List Document)
list_answer write (success, xs) = do documents ← each write xs; ok (success, documents)
list_answer write (result, xs) = ok (result, [])

abbrev pub get_answer :
    {A : Type 0} → (A → Outcome Document) → Result × Option A → Outcome (Result × Option Document)
get_answer write (success, some x) = do document ← write x; ok (success, some document)
get_answer write (result, x) = ok (result, none)

-- The root entry that fetches `results`.
abbrev pub select_entry :
    (server : Server) → SelectOptions → Entry (Local (persistence server) Rows)
select_entry server o = function (query_entry server (select_request o) (λ rows m. rows)) stop

module _ (server : Server) (interfaces : Interfaces) (fuel : ℕ) where
  -- One statement, and what becomes of its rows.
  abbrev pub run_select :
      {B : Type 0} → SelectOptions → (Rows → Result → Outcome B) → Running server B
  run_select o after = run_transaction server interfaces fuel (select_entry server o) [] after

  -- The answer of the interfaces' checks, the transaction and the writing, in this order.
  abbrev pub run_list :
      {A : Type 0}
      → SelectOptions
      → (Row → Outcome A)
      → (A → Outcome Document)
      → Running server (Result × List Document)
  run_list o read write =
      with_interfaces server interfaces
        (run_select o λ rows result. try_bind (list_result read rows result) (list_answer write))

  abbrev pub run_get :
      {A : Type 0}
      → SelectOptions
      → (Row → Outcome A)
      → (A → Outcome Document)
      → Running server (Result × Option Document)
  run_get o read write =
      with_interfaces server interfaces
        (run_select o λ rows result. try_bind (get_result read rows result) (get_answer write))
