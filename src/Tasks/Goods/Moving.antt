-- ===== src/Tasks/Goods/Moving.antt =====
-- The task of back/components/task_manager/source/tasks/protocol/products_move, from its entries to its answer.
use warehouse_accounting_sys.Base.{
  ℕ, suc, ◌≡◌, refl, ap, ◌∙◌, true, false, Option, none, some, List, [], ◌∷◌, ◌++◌, map, String,
}
use warehouse_accounting_sys.Base.Int.{ℤ, pos, ◌==ℤ◌}
use warehouse_accounting_sys.Result.{success}
use warehouse_accounting_sys.Exec.{ok}
use warehouse_accounting_sys.Query.Text.{bind-ok}
use warehouse_accounting_sys.Query.Build.{Request}
use warehouse_accounting_sys.Stock.{change_count}
use warehouse_accounting_sys.Stock.Items.{ItemTable, AllKnown}
use warehouse_accounting_sys.Stock.Planning.{requested, AllStored}
use warehouse_accounting_sys.Stock.Effects.{Distinct, reduced, increased}
use warehouse_accounting_sys.Stock.Writing.{AllFit}
use warehouse_accounting_sys.Stock.Moving.{
  moved, move_stock, move_stock_lem, AllFit-agree, AllKnown-agree,
}
use warehouse_accounting_sys.Json.{Document, number, words, put, put_optional}
use warehouse_accounting_sys.Transaction.{run_chain}
use warehouse_accounting_sys.Transaction.Steps.{attempt_commits, execute_decided}
use warehouse_accounting_sys.Tasks.{
  Server, DateProvider, persistence, begin_session, finished, run_transaction,
}
use warehouse_accounting_sys.Tasks.Listing.Pages.{all_there}
use warehouse_accounting_sys.Tasks.Invoices.{Invoice}
use warehouse_accounting_sys.Tasks.Invoices.Inserting.{
  Goods, invoice_values, invoice_insertion, insert_invoice,
}
use warehouse_accounting_sys.Tasks.Goods.Invoiced.{
  Invoiced, invoiced, full_insert_run, asked_puts, each-write_asked,
}
use warehouse_accounting_sys.Tasks.Goods.{
  goods_of, move_entry, move_entries, moved_answer, write_moved, run_products_move,
}

pub AllStored-agree :
    (f g : ℤ → Option ℤ) (ds : List (ℤ × ℤ))
    → ((p : ℤ) → g p ≡ f p)
    → AllStored f ds
    → AllStored g ds
AllStored-agree f g [] e h = tt
AllStored-agree f g ((p, c) ∷ ds) e ((have, is), h) = ((have, e p ∙ is), AllStored-agree f g ds e h)

-- The invoice of a move, as it is parsed.
abbrev pub move_invoice : ℤ → ℤ → String → Option String → ℤ → Invoice
move_invoice from to name about by = record {
  invoice_id = none;
  warehouse_to_id = some to;
  warehouse_from_id = some from;
  name = some name;
  pretty_name = none;
  description = about;
  created_date = none;
  created_by = some by;
}

-- What is answered for a move that was inserted under an id.
abbrev pub move_document :
    DateProvider → ℤ → ℤ → String → Option String → ℤ → ℕ → ℤ → String → List (ℤ × ℤ) → Document
move_document dates from to name about by now id pretty ds = record {
  puts =
      put number "invoice_id" id
      ++ put words "invoice_created_date" (dates.to_iso_time_string (pos now))
      ++ put number "invoice_created_by" by
      ++ put words "invoice_name" name
      ++ put words "invoice_pretty_name" pretty
      ++ put_optional words "invoice_description" about
      ++ put number "warehouse_to" to
      ++ put number "warehouse_from" from;
  items = some (map asked_puts ds);
}

module _ (server : Server) (table : ItemTable server.database) where
  open table use {item, known}

  move_chain :
      (request : Request) (ds : List (ℤ × ℤ)) (s : server.database.State)
      (i : Invoiced server table request ds s) (invoice : Invoice) (from to : ℤ)
      (t : server.database.State)
      → move_stock server.database from to (map requested ds) i.after ≡ (ok tt, t)
      → run_chain (move_entry server from to request) (s, goods_of invoice (map requested ds))
        ≡ (ok tt, (t, invoiced server table request ds s i invoice))
  unfolding move_stock
  move_chain request ds s i invoice from to t run =
      let (u, z, first, rest) =
        bind-ok (change_count server.database from true (map requested ds)) _ run in
      full_insert_run server table request ds s i invoice _ ∙ rw (first, rest) refl

  module _ (dates : DateProvider) (from to : ℤ) (apart : (from ==ℤ to) ≡ false) where
    -- When the interfaces are there, the invoice is inserted, every product is stored in the first
    -- warehouse, the second warehouse and the products are there, none is asked for twice and the
    -- counts fit the column, a move between two warehouses is answered with SUCCESS and its document
    -- as soon as the first commit succeeds, and what is committed has the products taken from the
    -- first warehouse and put into the second, and no other count changed.
    pub run_products_move-moves :
        (now fuel : ℕ) (name : String) (about : Option String) (by : ℤ) (ds : List (ℤ × ℤ))
        (w : server.World)
        → (i : Invoiced server table
            (invoice_insertion (invoice_values (move_invoice from to name about by) name by now))
            ds
            (server.begin w))
        → AllStored (item (server.begin w) from) ds
        → Distinct ds
        → AllFit reduced (item (server.begin w) from) ds
        → AllKnown (known (server.begin w) to) ds
        → AllFit increased (item (server.begin w) to) ds
        → ((v : server.database.State) → (w' : server.World) × (server.commit v w ≡ (ok tt, w')))
        → (t : server.database.State) × (w' : server.World) × (server.commit t w ≡ (ok tt, w'))
          × (run_products_move server all_there dates
                (suc fuel)
                now
                (goods_of (move_invoice from to name about by) (map requested ds))
                w
              ≡ (
                some (
                    ok (
                      success,
                      some (move_document dates from to name about by now i.id i.pretty ds),
                    )),
                w',
              ))
          × ((v p : ℤ)
              → item t v p ≡ moved server.database table from to apart ds (server.begin w) v p)
    unfolding run_products_move move_entries insert_invoice run_transaction moved_answer write_moved
    run_products_move-moves now fuel name about by ds w i stored distinct fits there grows commits =
        let s = server.begin w in
        let same = λ (v p : ℤ). i.same v p in
        let (t, run, items) =
          move_stock_lem server.database table from to apart ds i.after
            (AllStored-agree (item s from) (item i.after from) ds (i.same from) stored) distinct
            (AllFit-agree reduced (item s from) (item i.after from) ds (i.same from) fits)
            (AllKnown-agree (known s to) (known i.after to) ds (i.same_known to) there)
            (AllFit-agree increased (item s to) (item i.after to) ds (i.same to) grows) in
        let (w', commit) = commits t in
        let request =
          invoice_insertion (invoice_values (move_invoice from to name about by) name by now) in
        let made = record (move_invoice from to name about by) { created_date = some (pos now) } in
        let p = persistence server in
        let e = move_entry server from to request in
        let first =
          attempt_commits p Goods e
            (begin_session server Goods (goods_of made (map requested ds)) w) t
            (invoiced server table request ds s i made) (ok tt) w'
            (move_chain request ds s i made from to t run) commit in
        let whole =
          execute_decided p Goods server.commit_attempts fuel e _ _ (ok tt) success first refl in
        (
          t,
          w',
          commit,
          ap (finished server (moved_answer (write_moved dates))) whole
              ∙ rw (each-write_asked ds) refl,
          λ v q. items v q ∙ rw (i.same v q) refl,
        )
