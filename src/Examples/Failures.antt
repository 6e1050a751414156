-- ===== src/Examples/Failures.antt =====
-- Lists whose statement or whose commit fails.
use mathlib.Core.Option
use warehouse_accounting_sys.Base.{
  ◌≡◌, refl, ℕ, suc, ◌==◌, if◌then◌else◌, Option, none, some, List, [], ◌∷◌, length,
}
use warehouse_accounting_sys.Base.Int.{pos}
use warehouse_accounting_sys.Result.{Result, violation, not_found, error}
use warehouse_accounting_sys.Exec.{
  Outcome, ok, throws, integrity_constraint_violation, serialization_failure, other_exception,
}
use warehouse_accounting_sys.Query.Schema.{invoice, invoice_id}
use warehouse_accounting_sys.Query.Values.{int, text, Param, null, bound}
use warehouse_accounting_sys.Query.Condition.{Condition}
use warehouse_accounting_sys.Query.Options.{QueryOptions, select_options, SelectOptions}
use warehouse_accounting_sys.Query.Build.{create}
use warehouse_accounting_sys.Database.{Row, Rows, run_query}
use warehouse_accounting_sys.Transaction.{execute}
use warehouse_accounting_sys.Tasks.{
  Server, base_execute, persistence, begin_session, run_transaction,
}
use warehouse_accounting_sys.Tasks.Listing.{ListRequest, list_options, select_entry}
use warehouse_accounting_sys.Tasks.Listing.Pages.{all_there}
use warehouse_accounting_sys.Tasks.Listing.Failing.{get_product_list-hides}
use warehouse_accounting_sys.Tasks.Products.{get_product_list, product_list_options}
use warehouse_accounting_sys.Tasks.Invoices.{invoice_columns}
use warehouse_accounting_sys.Tasks.Refused.{run_transaction-refused}
use warehouse_accounting_sys.Examples.Tables.{no_dates}

-- A server whose statements all violate a constraint.
abbrev violating : Server
violating = record {
  database = record { State = ℕ; exec = λ o ps s. (throws integrity_constraint_violation, s) };
  World = ℕ;
  begin = λ w. w;
  commit = λ v w. (ok tt, w);
  commit_attempts = 2;
}

abbrev everything : ListRequest
everything = record { limit = none; offset = pos 0; filter = none }

get_product_list-hides_example :
    ((execute
        (persistence violating)
        Rows
        1
        2
        (some (select_entry violating (product_list_options everything)))
        (begin_session violating Rows [] 5)).0
      ≡ some (ok violation))
    × (get_product_list violating all_there no_dates 1 everything 5
        ≡ (some (ok (not_found, [])), 5))
unfolding run_query create
get_product_list-hides_example =
    get_product_list-hides violating no_dates 0 everything 5 5 integrity_constraint_violation
      violation refl refl

-- The invoice 4, which has no items.
abbrev invoice_row : Row
invoice_row =
    bound (int (pos 4))
    ∷ bound (int (pos 1))
    ∷ null
    ∷ bound (text "n")
    ∷ bound (text "4_n")
    ∷ null
    ∷ bound (int (pos 7))
    ∷ bound (int (pos 1))
    ∷ []

abbrev rows_of : Option Condition → Rows
rows_of none = invoice_row ∷ []
rows_of (some c) = []

abbrev invoice_rows : QueryOptions → List Param → ℕ → Outcome Rows × ℕ
invoice_rows (select_options o) ps s = (ok (rows_of o.condition), s)
invoice_rows _ ps s = (throws other_exception, s)

-- A server of one invoice, whose first commit fails to serialize; the world counts the commits.
abbrev contended : Server
contended = record {
  database = record { State = ℕ; exec = invoice_rows };
  World = ℕ;
  begin = λ w. 0;
  commit = λ v w. (if w == 0 then throws serialization_failure else ok tt, suc w);
  commit_attempts = 3;
}

abbrev all_invoices : SelectOptions
all_invoices = list_options invoice invoice_columns invoice_id everything

abbrev count_rows : Rows → Result → Outcome (Result × ℕ)
count_rows rows result = ok (result, length rows)

run_transaction-refused_example :
    (run_transaction contended all_there 1 (select_entry contended all_invoices) [] count_rows 0
      ≡ (some (throws other_exception), 1))
    × (Option.map base_execute
          (run_transaction contended all_there 1
            (select_entry contended all_invoices)
            []
            count_rows
            0).0
        ≡ some (none, error))
unfolding run_query create
run_transaction-refused_example =
    run_transaction-refused contended 0 (select_entry contended all_invoices) [] (invoice_row ∷ [])
      count_rows 0 1 0 refl refl
