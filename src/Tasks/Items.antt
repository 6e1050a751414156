-- ===== src/Tasks/Items.antt =====
-- The rows of Invoice_Item and Warehouse_Item in the answers of
-- back/components/task_manager/source/tasks/protocol: get_invoice, get_invoice_list, get_warehouse,
-- get_warehouse_list.
use warehouse_accounting_sys.Base.{
  ℕ, Option, none, some, List, [], ◌∷◌, ◌++◌, map, String, if◌then◌else◌,
}
use warehouse_accounting_sys.Base.Int.{ℤ, ◌==ℤ◌}
use warehouse_accounting_sys.Result.{Result, success, not_found}
use warehouse_accounting_sys.Exec
use warehouse_accounting_sys.Exec.{Outcome, ok, throws, value, Exec, pure, continue, try_bind}
use warehouse_accounting_sys.Exec.Try.{◌>>=◌}
use warehouse_accounting_sys.Query.Schema.{Column, Table, product_id, count}
use warehouse_accounting_sys.Query.Values.{int}
use warehouse_accounting_sys.Query.Condition.{in_list}
use warehouse_accounting_sys.Query.Options.{SelectOptions, OrderType}
use warehouse_accounting_sys.Query.Build.{select_request}
use warehouse_accounting_sys.Database.{Row, Rows}
use warehouse_accounting_sys.Json.{Puts, Document, number, put}
use warehouse_accounting_sys.Transaction.{Entry, Local, function, stop, next}
use warehouse_accounting_sys.Tasks.{
  Server, Interfaces, Running, persistence, query_entry, run_transaction, with_interfaces,
}
use warehouse_accounting_sys.Tasks.Reading.{int_at, each}

-- invoice_item.h, and what is read of warehouse_item.h: `owner_id` is `invoice_id` or
-- `warehouse_id`.
pub record Item : Type 0 where
  pub owner_id : Option ℤ
  pub product_id : Option ℤ
  pub count : Option ℤ

-- A row of the lists, which select the owner.
unfoldable pub read_item : Row → Outcome Item
read_item row = do
  owner ← int_at 0 row
  product ← int_at 1 row
  held ← int_at 2 row
  ok (record { owner_id = owner; product_id = product; count = held })

-- A row of the items of one owner.
unfoldable pub read_item_of : ℤ → Row → Outcome Item
read_item_of owner row = do
  product ← int_at 0 row
  held ← int_at 1 row
  ok (record { owner_id = some owner; product_id = product; count = held })

-- `m_invoiceItems[item.invoice_id.value()].emplace_back(item)`: an item without an owner throws.
unfoldable pub read_owned : Row → Outcome (ℤ × Item)
read_owned row = do item ← read_item row; owner ← value item.owner_id; ok (owner, item)

-- `m_invoiceItems[id]`
pub items_of : ℤ → List (ℤ × Item) → List Item
items_of id [] = []
items_of id ((owner, item) ∷ items) =
    let rest = items_of id items in if owner ==ℤ id then item ∷ rest else rest

-- An object of the array at the key "items".
unfoldable pub write_item : String → Item → Outcome Puts
write_item key item = do
  owner ← value item.owner_id
  product ← value item.product_id
  held ← value item.count
  ok (put number key owner ++ put number "product_id" product ++ put number "count" held)

-- The items whose owner is one of the ids.
abbrev pub items_options : Table → Column → List ℤ → SelectOptions
items_options table key ids = record {
  table = table;
  columns = key ∷ product_id ∷ count ∷ [];
  joins = [];
  condition = some (in_list key (map int ids));
  order_by = some key;
  order_type = OrderType.asc;
  limit = none;
  offset = none;
}

-- What a list with items shares with its entries: the results of both statements, and
-- `m_invoices` or `m_warehouses`.
pub record ListMemory (A : Type 0) : Type 0 where
  pub results : Rows
  pub parsed : List A
  pub item_results : Rows

abbrev pub no_memory : {A : Type 0} → ListMemory A
no_memory = record { results = []; parsed = []; item_results = [] }

module _ (server : Server) (table : Table) (key : Column) {A : Type 0} (read : Row → Outcome A)
    (id_of : A → Option ℤ) where
  abbrev pub pushed : Outcome A → ListMemory A → Outcome (Unit {0}) × ListMemory A
  pushed (ok x) m = (ok tt, record m { parsed = m.parsed ++ x ∷ [] })
  pushed (throws e) m = (throws e, m)

  -- The loop over the results: each is pushed back before the next is read.
  unfoldable pub push_all : Rows → Exec (ListMemory A) (Unit {0})
  push_all [] = pure tt
  push_all (row ∷ rows) = Exec.◌>>◌ (pushed (read row)) (push_all rows)

  -- `if (!ids.empty())`: the statement that fetches the items.
  abbrev pub fetch_items : List ℤ → Exec (server.database.State × ListMemory A) (Unit {0})
  fetch_items [] = pure tt
  fetch_items (id ∷ ids) =
      query_entry server (select_request (items_options table key (id ∷ ids)))
        (λ rows m. record m { item_results = rows })

  abbrev fetch_for :
      Outcome (Unit {0}) × ListMemory A → Exec (server.database.State × ListMemory A) (Unit {0})
  fetch_for (throws e, m) (v, n) = (throws e, (v, m))
  fetch_for (ok u, m) (v, n) = continue (each (λ x. value (id_of x)) m.parsed) fetch_items (v, m)

  -- The function of the second entry.
  unfoldable pub convert : Exec (server.database.State × ListMemory A) (Unit {0})
  unfolding push_all
  convert (v, m) = fetch_for (push_all m.results m) (v, m)

-- `if (results.empty()) … else if (transactionResult == SUCCESS) …`
unfoldable pub item_list_result :
    {A : Type 0} → ListMemory A → Result → Outcome (Result × (List A × List (ℤ × Item)))
item_list_result m result = elim m.results [
  | [] ↦ ok (not_found, ([], []))
  | row ∷ rows ↦ elim result [
    | success ↦ do items ← each read_owned m.item_results; ok (success, (m.parsed, items))
    | other ↦ ok (other, ([], []))
  ]
]

module _ {A : Type 0} (key : String) (id_of : A → Option ℤ) (write : A → Outcome Puts) where
  -- An object of the answer, with the items of its id.
  abbrev pub write_with_items : List (ℤ × Item) → A → Outcome Document
  write_with_items items x = do
    puts ← write x
    id ← value (id_of x)
    written ← each (write_item key) (items_of id items)
    ok (record { puts = puts; items = some written })

  abbrev pub item_list_answer :
      Result × (List A × List (ℤ × Item)) → Outcome (Result × List Document)
  item_list_answer (success, (xs, items)) = do
    documents ← each (write_with_items items) xs
    ok (success, documents)
  item_list_answer (result, r) = ok (result, [])

-- The two entries of a list with items.
abbrev pub item_list_entry :
    {A : Type 0} (server : Server)
    → SelectOptions
    → Exec (server.database.State × ListMemory A) (Unit {0})
    → Entry (Local (persistence server) (ListMemory A))
item_list_entry server o converter =
    function (query_entry server (select_request o) (λ rows m. record m { results = rows }))
      (next (function converter stop))

module _ (server : Server) (interfaces : Interfaces) (fuel : ℕ) {A : Type 0} where
  abbrev pub run_item_list :
      SelectOptions
      → Exec (server.database.State × ListMemory A) (Unit {0})
      → (Result × (List A × List (ℤ × Item)) → Outcome (Result × List Document))
      → Running server (Result × List Document)
  run_item_list o converter answer = with_interfaces server interfaces (
      run_transaction server interfaces fuel (item_list_entry server o converter) no_memory
        λ m result. try_bind (item_list_result m result) answer)

-- What a get task with items shares with its entries.
pub record GetMemory : Type 0 where
  pub item_results : Rows
  pub results : Rows
