-- ===== src/Tasks/Goods/Removing.antt =====
-- The task of back/components/task_manager/source/tasks/protocol/products_remove, when a product is missing.
use warehouse_accounting_sys.Base.{
  ℕ, suc, ◌≡◌, refl, ap, ◌∙◌, Option, none, some, List, ◌∷◌, ◌++◌, map, String,
}
use warehouse_accounting_sys.Base.Int.{ℤ, pos}
use warehouse_accounting_sys.Result.{violation}
use warehouse_accounting_sys.Exec.{ok, throws, integrity_constraint_violation}
use warehouse_accounting_sys.Stock.Items.{ItemTable}
use warehouse_accounting_sys.Stock.Planning.{requested, AllStored}
use warehouse_accounting_sys.Stock.Writing.{change_count_missing}
use warehouse_accounting_sys.Transaction.{run_chain}
use warehouse_accounting_sys.Transaction.Steps.{attempt_throws, execute_decided}
use warehouse_accounting_sys.Tasks.{
  Server, DateProvider, persistence, begin_session, finished, run_transaction,
}
use warehouse_accounting_sys.Tasks.Listing.Pages.{all_there}
use warehouse_accounting_sys.Tasks.Invoices.{Invoice}
use warehouse_accounting_sys.Tasks.Invoices.Inserting.{
  Goods, invoice_values, invoice_insertion, insert_invoice,
}
use warehouse_accounting_sys.Tasks.Goods.{
  goods_of, remove_entry, remove_entries, moved_answer, write_removed, run_products_remove,
}
use warehouse_accounting_sys.Tasks.Goods.Invoiced.{Invoiced, invoiced, full_insert_run}
use warehouse_accounting_sys.Tasks.Goods.Moving.{AllStored-agree}

-- The invoice of a removal, as it is parsed.
abbrev pub remove_invoice : ℤ → String → Option String → ℤ → Invoice
remove_invoice from name about by = record {
  invoice_id = none;
  warehouse_to_id = none;
  warehouse_from_id = some from;
  name = some name;
  pretty_name = none;
  description = about;
  created_date = none;
  created_by = some by;
}

module _ (server : Server) (table : ItemTable server.database) (dates : DateProvider)
    (from : ℤ) where
  open table use {item}

  -- When the interfaces are there and the invoice is inserted, a removal of a product that the warehouse
  -- does not hold, behind products that it does, is answered with VIOLATION, and nothing is
  -- committed: neither the invoice nor a count.
  pub run_products_remove-missing :
      (now fuel : ℕ) (name : String) (about : Option String) (by : ℤ) (ds : List (ℤ × ℤ)) (p c : ℤ)
      (rest : List (ℤ × ℤ)) (w : server.World)
      → Invoiced server table
          (invoice_insertion (invoice_values (remove_invoice from name about by) name by now))
          (ds ++ (p, c) ∷ rest)
          (server.begin w)
      → AllStored (item (server.begin w) from) ds
      → item (server.begin w) from p ≡ none
      → run_products_remove server all_there dates
          (suc fuel)
          now
          (goods_of (remove_invoice from name about by) (map requested (ds ++ (p, c) ∷ rest)))
          w
        ≡ (some (ok (violation, none)), w)
  unfolding run_products_remove remove_entries insert_invoice run_transaction moved_answer
  run_products_remove-missing now fuel name about by ds p c rest w i stored missing =
      let s = server.begin w in
      let all = ds ++ (p, c) ∷ rest in
      let request =
        invoice_insertion (invoice_values (remove_invoice from name about by) name by now) in
      let made = record (remove_invoice from name about by) { created_date = some (pos now) } in
      let local = persistence server in
      let e = remove_entry server from request in
      let memory = invoiced server table request all s i made in
      let stops =
        change_count_missing server.database table from ds p c rest i.after
          (AllStored-agree (item s from) (item i.after from) ds (i.same from) stored)
          (i.same from p ∙ missing) in
      let chain : run_chain e (s, goods_of made (map requested all))
          ≡ (throws integrity_constraint_violation, (i.after, memory)) =
        full_insert_run server table request all s i made _ ∙ rw stops refl in
      let first =
        attempt_throws local Goods e
          (begin_session server Goods (goods_of made (map requested all)) w) i.after memory
          integrity_constraint_violation chain in
      ap (finished server (moved_answer (write_removed dates))) (
        execute_decided local Goods server.commit_attempts fuel e _ _
          (throws integrity_constraint_violation) violation first refl)
