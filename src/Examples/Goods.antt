-- ===== src/Examples/Goods.antt =====
-- The tasks on products, on a store that also numbers invoices.
use warehouse_accounting_sys.Base.{true, ◌≡◌, refl, none, some, List, [], ◌∷◌, ◌++◌, ◌∙◌, map}
use warehouse_accounting_sys.Base.Int.{ℤ, pos}
use warehouse_accounting_sys.Result.{success, violation}
use warehouse_accounting_sys.Exec.{Outcome, ok, throws, runtime_error}
use warehouse_accounting_sys.Query.Schema.{invoice, invoice_item}
use warehouse_accounting_sys.Query.Values.{int, text, Param, bound, to_pqxx, to_param}
use warehouse_accounting_sys.Query.Condition.{collect_params}
use warehouse_accounting_sys.Query.Options.{QueryOptions, insert_options}
use warehouse_accounting_sys.Query.Build.{create, check_sizes, extract_all}
use warehouse_accounting_sys.Database.{Database, Rows, run_query}
use warehouse_accounting_sys.Stock.{insert_items_request}
use warehouse_accounting_sys.Stock.Items.{ItemTable}
use warehouse_accounting_sys.Stock.Planning.{requested}
use warehouse_accounting_sys.Tasks.{Server}
use warehouse_accounting_sys.Query.Build.{Request}
use warehouse_accounting_sys.Stock.Moving.{moved}
use warehouse_accounting_sys.Tasks.Listing.Pages.{all_there}
use warehouse_accounting_sys.Tasks.Invoices.Inserting.{Goods, invoice_insertion, invoice_values}
use warehouse_accounting_sys.Tasks.Goods.{goods_of, run_products_move, run_products_remove}
use warehouse_accounting_sys.Tasks.Goods.Invoiced.{Invoiced}
use warehouse_accounting_sys.Tasks.Goods.Moving.{
  move_invoice, move_document, run_products_move-moves,
}
use warehouse_accounting_sys.Tasks.Goods.Removing.{remove_invoice, run_products_remove-missing}
use warehouse_accounting_sys.Tasks.Goods.Creating.{run_products_create}
use warehouse_accounting_sys.Tasks.Goods.Creating.Known.{run_products_create-known}
use warehouse_accounting_sys.Examples.Tables.{no_dates}
use warehouse_accounting_sys.Examples.Counts.{
  stock, asked, asked-AllStored, asked-reduced, asked-increased,
}
use warehouse_accounting_sys.Examples.Store.{Counts, store, item_table, check_sizes-rows}

-- Every invoice is the fourth.
abbrev numbering : QueryOptions → List Param → Counts → Outcome Rows × Counts
numbering (insert_options o) params s = elim o.table [
  | invoice ↦ (ok ((bound (int (pos 4)) ∷ bound (text "4_n") ∷ []) ∷ []), s)
  | invoice_item ↦ (ok [], s)
  | other ↦ store.exec (insert_options o) params s
]
numbering o params s = store.exec o params s

abbrev numbered : Database
numbered = record { State = Counts; exec = numbering }

insert_same :
    (w : ℤ) (r : ℤ × ℤ) (new : List (ℤ × ℤ)) (s : Counts)
    → run_query numbered (insert_items_request w (r ∷ new)) s
      ≡ run_query store (insert_items_request w (r ∷ new)) s
unfolding run_query create
insert_same w r new s = rw (check_sizes-rows w (r ∷ new)) refl

unfoldable numbered_items : ItemTable numbered
unfolding item_table run_query create to_pqxx to_param collect_params
numbered_items = record {
  item = λ s w p. s w p;
  known = λ s w p. true;
  select_lem = item_table.select_lem;
  delete_lem = item_table.delete_lem;
  insert_lem = λ s w r new h k.
      let (rows, t, run, items, same) = item_table.insert_lem s w r new h k in
      (rows, t, insert_same w r new s ∙ run, items, same);
  update_lem = item_table.update_lem;
}

-- What is committed is the next world.
abbrev shop : Server
shop = record {
  database = numbered;
  World = Counts;
  begin = λ w. w;
  commit = λ v w. (ok tt, v);
  commit_attempts = 2;
}

abbrev move_request : Request
move_request =
    invoice_insertion (invoice_values (move_invoice (pos 1) (pos 2) "n" none (pos 3)) "n" (pos 3) 9)

move_invoiced : Invoiced shop numbered_items move_request asked stock
unfolding run_query create check_sizes extract_all numbered_items
move_invoiced = record {
  id = pos 4;
  pretty = "4_n";
  between = stock;
  after = stock;
  rows = [];
  invoice_run = refl;
  items_run = refl;
  same = λ w p. refl;
  same_known = λ w p. refl;
}

run_products_move-moves_example :
    (t : Counts) × (w : Counts) × (shop.commit t stock ≡ (ok tt, w))
    × (run_products_move shop all_there no_dates 1 9
          (goods_of (move_invoice (pos 1) (pos 2) "n" none (pos 3)) (map requested asked))
          stock
        ≡ (
          some (
              ok (
                success,
                some (
                    move_document no_dates
                      (pos 1)
                      (pos 2)
                      "n"
                      none
                      (pos 3)
                      9
                      move_invoiced.id
                      move_invoiced.pretty
                      asked),
              )),
          w,
        ))
    × ((v p : ℤ)
        → numbered_items.item t v p
          ≡ moved numbered numbered_items (pos 1) (pos 2) refl asked stock v p)
unfolding numbered_items
run_products_move-moves_example =
    run_products_move-moves shop numbered_items no_dates (pos 1) (pos 2) refl 9 0 "n" none (pos 3)
      asked stock move_invoiced asked-AllStored (refl, (refl, tt)) asked-reduced (refl, (refl, tt))
      asked-increased (λ v. (v, refl))

abbrev remove_request : Request
remove_request =
    invoice_insertion (invoice_values (remove_invoice (pos 1) "n" none (pos 3)) "n" (pos 3) 9)

remove_invoiced : Invoiced shop numbered_items remove_request (asked ++ (pos 9, pos 1) ∷ []) stock
unfolding run_query create check_sizes extract_all numbered_items
remove_invoiced = record {
  id = pos 4;
  pretty = "4_n";
  between = stock;
  after = stock;
  rows = [];
  invoice_run = refl;
  items_run = refl;
  same = λ w p. refl;
  same_known = λ w p. refl;
}

run_products_remove-missing_example :
    run_products_remove shop all_there no_dates 1 9
      (goods_of
        (remove_invoice (pos 1) "n" none (pos 3))
        (map requested (asked ++ (pos 9, pos 1) ∷ [])))
      stock
    ≡ (some (ok (violation, none)), stock)
unfolding numbered_items
run_products_remove-missing_example =
    run_products_remove-missing shop numbered_items no_dates (pos 1) 9 0 "n" none (pos 3) asked
      (pos 9) (pos 1) [] stock remove_invoiced asked-AllStored refl

abbrev known : Goods
known =
    goods_of (record (move_invoice (pos 1) (pos 2) "n" none (pos 3)) { warehouse_from_id = none })
      (map requested asked)

run_products_create-known_example :
    run_products_create shop all_there no_dates (λ s. s) 1 (λ n. n) known stock
    ≡ (some (throws runtime_error), stock)
run_products_create-known_example =
    run_products_create-known shop no_dates (λ s. s) 1 (λ n. n) known (pos 2) stock refl refl
