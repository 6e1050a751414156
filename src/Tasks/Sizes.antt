-- ===== src/Tasks/Sizes.antt =====
-- back/components/task_manager/source/tasks/protocol/get_*_size, get_product_size_by_warehouse: how many
-- rows a table has, by a raw statement (`QueryFactory::CreateRaw`).
use warehouse_accounting_sys.Base.{
  ℕ, Bool, true, false, ◌&&◌, ◌≡◌, ap, ◌∙◌, if◌then◌else◌, Option, none, some, [], ◌∷◌, ◌++◌,
  length, sym,
}
use warehouse_accounting_sys.Base.Int.{ℤ, pos, negsuc, leb_ℤ}
use warehouse_accounting_sys.Result.{Result, success}
use warehouse_accounting_sys.Exec.{
  Outcome, ok, throws, other_exception, check_success, try_bind, try_bind-ok, ok-injective,
}
use warehouse_accounting_sys.Exec.Try.{◌>>=◌}
use warehouse_accounting_sys.Query.Schema.{
  Table, product, invoice, user, warehouse, report, operation,
}
use warehouse_accounting_sys.Query.Values.{ValueCollector, to_pqxx, length-to_pqxx}
use warehouse_accounting_sys.Query.Text.{Text, words, number, slots, count_up}
use warehouse_accounting_sys.Query.Condition
use warehouse_accounting_sys.Query.Condition.{Condition}
use warehouse_accounting_sys.Query.Condition.Placeholders.{to_string-Numbered}
use warehouse_accounting_sys.Query.Options.{public_table}
use warehouse_accounting_sys.Database.{Rows, front}
use warehouse_accounting_sys.Transaction.{Entry, Local, function, stop}
use warehouse_accounting_sys.Json
use warehouse_accounting_sys.Json.{Json, Document, plain, put, get_key}
use warehouse_accounting_sys.Tasks.{
  Server, Interfaces, DateProvider, Running, persistence, stored, checked, run_transaction,
  with_interfaces,
}
use warehouse_accounting_sys.Tasks.Reading.{int_value_at}
use warehouse_accounting_sys.Tasks.Listing.{filter_key}

-- What `CreateRaw` and `CreateQueryTransactionEntry` are given.
pub record RawQuery : Type 0 where
  pub text : Text
  pub params : ValueCollector
  pub cached : Bool

abbrev pub size_head : Table → Text
size_head table = words "SELECT COUNT(*) FROM " ∷ public_table table

-- The statement of a size task, over `m_filter`.
unfoldable pub size_query : Table → Option Condition → Outcome RawQuery
size_query table none = ok (record { text = size_head table; params = []; cached = true })
size_query table (some c) = do
  condition ← (Condition.to_string c 1).0
  ok (record {
    text = size_head table ++ words " WHERE " ∷ condition;
    params = Condition.collect_params c;
    cached = false;
  })

-- The statement of `GetProductSizeByWarehouse`, which has the id in its text.
abbrev pub warehouse_size_query : ℤ → RawQuery
warehouse_size_query id = record {
  text =
      words "SELECT COUNT(*) FROM public.\"Warehouse_Item\" WHERE warehouse_id="
      ∷ number id
      ∷ words ";"
      ∷ [];
  params = [];
  cached = true;
}

-- `get<int32_t>()` of an integer: one out of range does not convert.
abbrev pub as_int32 : ℤ → Outcome ℤ
as_int32 n =
    if leb_ℤ n (pos 2147483647) && leb_ℤ (negsuc 2147483647) n then ok n else throws other_exception

-- `count = results.at(0, 0).get<int32_t>().value()`, on success only.
unfoldable pub count_result : Rows → Result → Outcome (Result × Option ℤ)
count_result rows success = do
  row ← front rows
  n ← int_value_at 0 row
  count ← as_int32 n
  ok (success, some count)
count_result rows result = ok (result, none)

abbrev pub size_answer : Result × Option ℤ → Outcome (Result × Option Document)
size_answer (success, some n) = ok (success, some (plain (put Json.number "count" n)))
size_answer (result, count) = ok (result, none)

-- `ParseInternal` of a size task, and of the one by warehouse.
abbrev pub parse_size :
    (j : Json) → DateProvider → Interfaces → j.Value → Outcome (Option Condition)
parse_size j dates interfaces body = filter_key j dates interfaces body

abbrev pub parse_size_by_warehouse : (j : Json) → j.Value → Outcome ℤ
parse_size_by_warehouse j body = get_key j j.as_int64 body "warehouse_id"

module _ (server : Server)
    (execute_raw : RawQuery → server.database.State → Outcome Rows × server.database.State)
    (interfaces : Interfaces) (fuel : ℕ) where
  abbrev raw_entry : RawQuery → Entry (Local (persistence server) Rows)
  raw_entry q = function (λ (v, m). stored server (λ rows n. rows) (execute_raw q v) m) stop

  -- The transaction is made before the text is.
  abbrev run_raw : Outcome RawQuery → Running server (Result × Option Document)
  run_raw (throws e) =
      checked server (check_success interfaces.create_transaction) (λ w. (some (throws e), w))
  run_raw (ok q) =
      run_transaction server interfaces fuel (raw_entry q) []
        λ rows result. try_bind (count_result rows result) size_answer

  -- `ExecuteInternal` of the size of a table.
  abbrev pub get_size : Table → Option Condition → Running server (Result × Option Document)
  get_size table filter = with_interfaces server interfaces (run_raw (size_query table filter))

  unfoldable pub get_product_size : Option Condition → Running server (Result × Option Document)
  get_product_size = get_size product

  unfoldable pub get_invoice_size : Option Condition → Running server (Result × Option Document)
  get_invoice_size = get_size invoice

  unfoldable pub get_user_size : Option Condition → Running server (Result × Option Document)
  get_user_size = get_size user

  unfoldable pub get_warehouse_size : Option Condition → Running server (Result × Option Document)
  get_warehouse_size = get_size warehouse

  unfoldable pub get_report_size : Option Condition → Running server (Result × Option Document)
  get_report_size = get_size report

  unfoldable pub get_operation_size : Option Condition → Running server (Result × Option Document)
  get_operation_size = get_size operation

  unfoldable pub get_product_size_by_warehouse : ℤ → Running server (Result × Option Document)
  get_product_size_by_warehouse id =
      with_interfaces server interfaces (run_raw (ok (warehouse_size_query id)))

-- The statement of a size has the placeholders $1, $2, ... of exactly the values that are bound
-- beside it, each once and in order.
pub size_query-binds :
    (table : Table) (filter : Option Condition) (q : RawQuery)
    → size_query table filter ≡ ok q
    → slots q.text ≡ count_up 1 (length (to_pqxx q.params).0)
unfolding size_query to_pqxx
size_query-binds table none q h =
    ap (λ r. slots r.text) (sym (ok-injective h))
    ∙ ap (λ r. count_up 1 (length (to_pqxx r.params).0)) (ok-injective h)
size_query-binds table (some c) q h =
    let (t, e, f) = try_bind-ok (Condition.to_string c 1).0 _ h in
    let numbered = to_string-Numbered c 1 (ap (λ r. (r, (Condition.to_string c 1).1)) e) in
    ap (λ r. slots r.text) (sym (ok-injective f))
    ∙ numbered.in_order
    ∙ ap (count_up 1) (sym (length-to_pqxx (Condition.collect_params c)))
    ∙ ap (λ r. count_up 1 (length (to_pqxx r.params).0)) (ok-injective f)
