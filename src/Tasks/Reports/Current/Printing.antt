-- ===== src/Tasks/Reports/Current/Printing.antt =====
-- `WriteReportFile` and the answer of back/components/task_manager/source/tasks/protocol/reports_current.
use warehouse_accounting_sys.Base.{ℕ, length, Option, none, some, List, [], ◌∷◌, ◌++◌, String}
use warehouse_accounting_sys.Base.Int.{ℤ}
use warehouse_accounting_sys.Result.{Result, success}
use warehouse_accounting_sys.Exec.{Outcome, ok, value}
use warehouse_accounting_sys.Exec.Try.{◌>>=◌}
use warehouse_accounting_sys.Stock.{Product}
use warehouse_accounting_sys.Json.{Puts, Document, number, words, put, put_optional}
use warehouse_accounting_sys.Tasks.{DateProvider}
use warehouse_accounting_sys.Tasks.Reading.{each}
use warehouse_accounting_sys.Tasks.Warehouses.{Warehouse}
use warehouse_accounting_sys.Tasks.Reports.{Report}
use warehouse_accounting_sys.Tasks.Reports.Current.{Products}

-- The parts of the file: the fixed texts by their names, and the templates with what is put into
-- them.
pub data Fragment : Type 0 where
  open_html head open_body open_products close_products close_body close_html : Fragment
  header_of : ℤ → String → String → ℤ → String → String → Fragment
  summary_of : ℕ → Fragment
  product_of : ℤ → String → String → String → ℤ → String → Fragment

-- `value_or("")`
abbrev pub or_nothing : Option String → String
or_nothing none = ""
or_nothing (some s) = s

-- `readable` is the date provider's `ToReadableTimeString`.
module _ (readable : ℤ → String) where
  unfoldable pub print_header : Report → Warehouse → Outcome Fragment
  print_header r w = do
    id ← value r.report_id
    name ← value r.name
    at ← value r.warehouse_id
    warehouse_name ← value w.name
    date ← value r.created_date
    ok (header_of id name (or_nothing r.description) at warehouse_name (readable date))

  unfoldable pub print_product : ℤ × Product → Outcome Fragment
  print_product (key, p) = do
    id ← value p.id
    name ← value p.name
    pretty ← value p.pretty_name
    held ← value p.count
    date ← value p.created_date
    ok (product_of id name pretty (or_nothing p.description) held (readable date))

  -- `WriteReportFile`: what is written into the stream.
  unfoldable pub write_report_file : Report → Warehouse → Products → Outcome (List Fragment)
  write_report_file r w products = do
    header ← print_header r w
    rows ← each print_product products
    ok (
        open_html ∷ head ∷ open_body ∷ header ∷ summary_of (length products) ∷ open_products ∷ rows
        ++ close_products ∷ close_body ∷ close_html ∷ [])

-- The answer with the text of the file.
abbrev pub Reported : Type 0
Reported = Result × Option (Document × List Fragment)

module _ (dates : DateProvider) where
  abbrev pub write_reported : ℤ × Product → Outcome Puts
  write_reported (key, p) = do
    name ← value p.name
    id ← value p.id
    held ← value p.count
    date ← value p.created_date
    by ← value p.created_by
    pretty ← value p.pretty_name
    ok (
        put words "name" name
        ++ put_optional words "description" p.description
        ++ put_optional number "main_color" p.main_color
        ++ put number "id" id
        ++ put number "count" held
        ++ put words "created_date" (dates.to_iso_time_string date)
        ++ put number "created_by" by
        ++ put words "pretty_name" pretty)

  -- What `ExecuteInternal` writes.
  unfoldable pub write_current : Report → Products → Outcome Document
  write_current r products = do
    id ← value r.report_id
    path ← value r.filepath
    date ← value r.created_date
    by ← value r.created_by
    name ← value r.name
    w ← value r.warehouse_id
    written ← each write_reported products
    ok (record {
      puts =
          put number "report_id" id
          ++ put words "filepath" path
          ++ put words "created_date" (dates.to_iso_time_string date)
          ++ put number "created_by" by
          ++ put words "name" name
          ++ put_optional words "description" r.description
          ++ put number "warehouse_id" w;
      items = some written;
    })

  abbrev pub current_answer : Report → Products → List Fragment → Result → Outcome Reported
  current_answer r products file success = do
    document ← write_current r products
    ok (success, some (document, file))
  current_answer r products file result = ok (result, none)
