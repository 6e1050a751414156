-- ===== src/Tasks/Goods/Invoiced.antt =====
-- What the database answers when `Invoice::FullInsertEntry` of tasks/common/invoice.h inserts an invoice, and the
-- entries that come next.
use warehouse_accounting_sys.Base.{◌≡◌, refl, List, [], ◌∷◌, ◌++◌, map, some, String}
use warehouse_accounting_sys.Base.Int.{ℤ}
use warehouse_accounting_sys.Exec.{ok}
use warehouse_accounting_sys.Query.Values.{int, text, bound, ValueCollector}
use warehouse_accounting_sys.Query.Build.{Request}
use warehouse_accounting_sys.Database.{Rows, run_query}
use warehouse_accounting_sys.Stock.Items.{ItemTable}
use warehouse_accounting_sys.Stock.Planning.{requested}
use warehouse_accounting_sys.Json.{Puts, number, put}
use warehouse_accounting_sys.Transaction.{run_chain, run_link, Link, Local}
use warehouse_accounting_sys.Tasks.{Server, persistence}
use warehouse_accounting_sys.Tasks.Reading.{each}
use warehouse_accounting_sys.Tasks.Invoices.{Invoice}
use warehouse_accounting_sys.Tasks.Invoices.Inserting.{
  Goods, item_values, items_insertion, invoice_id_getter, insert_invoice_items, full_insert_entry,
}
use warehouse_accounting_sys.Tasks.Goods.{goods_of, write_asked}

-- The values of the invoice's items.
abbrev pub item_rows : ℤ → List (ℤ × ℤ) → List ValueCollector
item_rows id ds = map (λ r. int id ∷ int r.0 ∷ int r.1 ∷ []) ds

each-item_values :
    (id : ℤ) (ds : List (ℤ × ℤ)) → each (item_values id) (map requested ds) ≡ ok (item_rows id ds)
unfolding requested
each-item_values id [] = refl
each-item_values id ((p, c) ∷ ds) = rw (each-item_values id ds) refl

abbrev pub asked_puts : ℤ × ℤ → Puts
asked_puts (p, c) = put number "id" p ++ put number "count" c

pub each-write_asked :
    (ds : List (ℤ × ℤ)) → each write_asked (map requested ds) ≡ ok (map asked_puts ds)
unfolding requested
each-write_asked [] = refl
each-write_asked ((p, c) ∷ ds) = rw (each-write_asked ds) refl

module _ (server : Server) (table : ItemTable server.database) where
  open table use {item, known}

  -- What the database answers to the two insertions of an invoice that violates no constraint: its id
  -- with its pretty name, and the counts, the warehouses and the products stay as they are.
  pub record Invoiced (request : Request) (ds : List (ℤ × ℤ)) (s : server.database.State)
      : Type 0 where
    pub id : ℤ
    pub pretty : String
    pub between : server.database.State
    pub after : server.database.State
    pub rows : Rows
    pub invoice_run :
        run_query server.database request s
        ≡ (ok ((bound (int id) ∷ bound (text pretty) ∷ []) ∷ []), between)
    pub items_run :
        run_query server.database (items_insertion (item_rows id ds)) between ≡ (ok rows, after)
    pub same : (w p : ℤ) → item after w p ≡ item s w p
    pub same_known : (w p : ℤ) → known after w p ≡ known s w p

  module _ (request : Request) (ds : List (ℤ × ℤ)) (s : server.database.State)
      (i : Invoiced request ds s) (invoice : Invoice) where
    -- The variables when the invoice is inserted.
    abbrev pub invoiced : Goods
    invoiced = record {
      invoice = record invoice { invoice_id = some i.id; pretty_name = some i.pretty };
      products = map requested ds;
      products_new = [];
      invoice_results = (bound (int i.id) ∷ bound (text i.pretty) ∷ []) ∷ [];
      product_results = [];
    }

    -- The invoice comes first, and then the rest of the chain.
    pub full_insert_run :
        (link : Link (Local (persistence server) Goods))
        → run_chain (full_insert_entry server request link) (s, goods_of invoice (map requested ds))
          ≡ run_link link (i.after, invoiced)
    unfolding full_insert_entry invoice_id_getter insert_invoice_items
    full_insert_run link = rw (i.invoice_run, each-item_values i.id ds, i.items_run) refl
