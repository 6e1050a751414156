-- ===== src/Examples/Reports.antt =====
-- The current report: on a warehouse that is not there, and one that is answered.
use warehouse_accounting_sys.Base.{
  ◌≡◌, refl, ℕ, true, false, none, some, List, [], ◌∷◌, map, String,
}
use warehouse_accounting_sys.Base.Int.{ℤ, pos}
use warehouse_accounting_sys.Result.{success, not_found}
use warehouse_accounting_sys.Exec.{ok, throws, other_exception}
use warehouse_accounting_sys.Query.Build.{create}
use warehouse_accounting_sys.Database.{run_query}
use warehouse_accounting_sys.Transaction.{execute}
use warehouse_accounting_sys.Json.{Puts, Document, number, words}
use warehouse_accounting_sys.Tasks.{Server, persistence, begin_session}
use warehouse_accounting_sys.Tasks.Listing.Pages.{all_there}
use warehouse_accounting_sys.Documents.{FileSystem, default_document_root}
use warehouse_accounting_sys.Documents.Paths.{Bytes}
use warehouse_accounting_sys.Tasks.Reports.Current.{ReportMemory}
use warehouse_accounting_sys.Tasks.Reports.Current.Printing.{
  Fragment, header_of, summary_of, product_of, open_html, head, open_body, open_products,
  close_products, close_body, close_html, write_report_file, print_header, print_product,
  write_current,
}
use warehouse_accounting_sys.Tasks.Reports.Current.Collecting.{
  current_entry, reported, run_reports_current,
}
use warehouse_accounting_sys.Tasks.Reports.Current.Failing.{run_reports_current-hides}
use warehouse_accounting_sys.Tasks.Reports.Current.Agreeing.{item_key, row_keys, reported-agrees}
use warehouse_accounting_sys.Examples.Tables.{no_dates}

-- A database without a row in any table, and a disk without a file.
abbrev empty_server : Server
empty_server = record {
  database = record { State = ℕ; exec = λ o ps s. (ok [], s) };
  World = ℕ;
  begin = λ w. w;
  commit = λ v w. (ok tt, w);
  commit_attempts = 2;
}

abbrev empty_disk : FileSystem
empty_disk = record {
  World = ℕ;
  exists = λ w p. false;
  create_directory = λ p w. (true, w);
  open_stream = λ p w. (true, 1);
}

abbrev unset_report : ReportMemory empty_disk
unset_report = record {
  report = record {
    report_id = none;
    name = some "stock";
    description = none;
    period_from = none;
    period_to = none;
    warehouse_id = some (pos 3);
    created_by = some (pos 7);
    created_date = none;
    filepath = none;
    report_type = some (pos 1);
  };
  warehouse = record {
    name = none;
    pretty_name = none;
    description = none;
    location = none;
    warehouse_id = some (pos 3);
    created_date = none;
    created_by = none;
  };
  products = [];
  warehouse_results = [];
  item_results = [];
  product_results = [];
  report_results = [];
  files = 0;
  opened = 0;
}

abbrev dated_report : ReportMemory empty_disk
dated_report = record unset_report {
  report = record unset_report.report { created_date = some (pos 9) };
}

abbrev no_bytes : ℕ → ℕ → Bytes
no_bytes c n = []

abbrev no_text : Bytes → String
no_text s = ""

abbrev no_date : ℤ → String
no_date n = ""

run_reports_current-hides_example :
    ((execute
        (persistence empty_server)
        (ReportMemory empty_disk)
        1
        2
        (some (
          current_entry empty_server empty_disk no_bytes default_document_root no_text no_dates
            (pos 3)))
        (begin_session empty_server (ReportMemory empty_disk) dated_report 5)).0
      ≡ some (ok not_found))
    × (run_reports_current empty_server empty_disk no_bytes default_document_root no_text no_dates
          no_date all_there success 1 9 unset_report 5
        ≡ (some (throws other_exception), 5))
unfolding run_query create
run_reports_current-hides_example =
    run_reports_current-hides empty_server empty_disk no_bytes default_document_root no_text
      no_dates no_date 0 9 unset_report (pos 3) 5 5 refl refl refl

-- Ten of the product 2 in the warehouse 3.
abbrev full_report : ReportMemory empty_disk
full_report = record unset_report {
  report = record dated_report.report {
    report_id = some (pos 4);
    filepath = some "reports/a.html";
  };
  warehouse = record unset_report.warehouse { name = some "north" };
  products =
      (
        pos 2,
        record {
          name = some "nail";
          pretty_name = some "2_nail";
          description = none;
          main_color = none;
          main_color_name = none;
          count = some (pos 10);
          id = some (pos 2);
          created_date = some (pos 1);
          created_by = some (pos 7);
          warehouse_id = none;
        },
      )
      ∷ [];
}

abbrev full_file : List Fragment
full_file =
    open_html
    ∷ head
    ∷ open_body
    ∷ header_of (pos 4) "stock" "" (pos 3) "north" ""
    ∷ summary_of 1
    ∷ open_products
    ∷ product_of (pos 2) "nail" "2_nail" "" (pos 10) ""
    ∷ close_products
    ∷ close_body
    ∷ close_html
    ∷ []

abbrev full_document : Document
full_document = record {
  puts =
      ("report_id", number (pos 4))
      ∷ ("filepath", words "reports/a.html")
      ∷ ("created_date", words (no_dates.to_iso_time_string (pos 9)))
      ∷ ("created_by", number (pos 7))
      ∷ ("name", words "stock")
      ∷ ("warehouse_id", number (pos 3))
      ∷ [];
  items = some (
      (("name", words "nail")
        ∷ ("id", number (pos 2))
        ∷ ("count", number (pos 10))
        ∷ ("created_date", words (no_dates.to_iso_time_string (pos 1)))
        ∷ ("created_by", number (pos 7))
        ∷ ("pretty_name", words "2_nail")
        ∷ [])
      ∷ []);
}

reported_in_full :
    reported empty_server empty_disk no_bytes default_document_root no_text no_dates no_date
      full_report success
    ≡ ok (success, some (full_document, full_file))
unfolding reported write_report_file print_header print_product write_current
reported_in_full = refl

reported-agrees_example :
    (items : List Puts) × ((full_document.items ≡ some items)
      × (row_keys full_file ≡ map item_key items))
reported-agrees_example =
    reported-agrees no_dates no_date empty_server empty_disk no_bytes default_document_root no_text
      full_report success success full_document full_file reported_in_full
