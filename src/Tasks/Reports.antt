-- ===== src/Tasks/Reports.antt =====
-- back/components/task_manager/source/tasks/protocol/get_report, get_report_list: the reports.
pub mod Current
use warehouse_accounting_sys.Base.{
  ℕ, Option, none, some, List, [], ◌∷◌, ◌++◌, String, if◌then◌else◌,
}
use warehouse_accounting_sys.Base.Int.{ℤ, pos, ◌==ℤ◌}
use warehouse_accounting_sys.Exec.{Outcome, ok, throws, runtime_error, value}
use warehouse_accounting_sys.Exec.Try.{◌>>=◌}
use warehouse_accounting_sys.Result.{Result}
use warehouse_accounting_sys.Query.Schema.{
  Column, report, report_id, description, report_type, filepath, created_date, created_by,
  warehouse_id,
}
use warehouse_accounting_sys.Database.{Row}
use warehouse_accounting_sys.Json.{Document, number, words, put, put_optional, plain}
use warehouse_accounting_sys.Tasks.{Server, Interfaces, DateProvider, Running}
use warehouse_accounting_sys.Tasks.Reading.{int_at, int_value_at, text_at}
use warehouse_accounting_sys.Tasks.Listing.{
  ListRequest, list_options, id_options, run_list, run_get,
}

-- report.h; `report_type` is the value of the enumerator, which the cast does not check.
pub record Report : Type 0 where
  pub report_id : Option ℤ
  pub name : Option String
  pub description : Option String
  pub period_from : Option ℤ
  pub period_to : Option ℤ
  pub warehouse_id : Option ℤ
  pub created_by : Option ℤ
  pub created_date : Option ℤ
  pub filepath : Option String
  pub report_type : Option ℤ

-- `ToString(ReportType)`: `ByPeriod` is 0 and `Current` 1.
abbrev pub report_type_to_string : ℤ → Outcome String
report_type_to_string n =
    if n ==ℤ pos 0
    then ok "ByPeriod"
    else if n ==ℤ pos 1
    then ok "Current"
    else throws runtime_error

abbrev pub report_list_columns : List Column
report_list_columns =
    report_id ∷ Column.name ∷ description ∷ report_type ∷ filepath ∷ created_date ∷ created_by
    ∷ warehouse_id ∷ []

unfoldable pub read_report : Row → Outcome Report
read_report row = do
  id ← int_at 0 row
  name ← text_at 1 row
  text ← text_at 2 row
  type ← int_value_at 3 row
  path ← text_at 4 row
  date ← int_at 5 row
  by ← int_at 6 row
  warehouse ← int_value_at 7 row
  ok (record {
    report_id = id;
    name = name;
    description = text;
    period_from = none;
    period_to = none;
    warehouse_id = some warehouse;
    created_by = by;
    created_date = date;
    filepath = path;
    report_type = some type;
  })

abbrev pub report_columns : List Column
report_columns =
    Column.name ∷ description ∷ report_type ∷ filepath ∷ created_date ∷ created_by ∷ warehouse_id
    ∷ []

-- A row of `GetReport`, whose id is the one that was asked for.
unfoldable pub read_report_by_id : ℤ → Row → Outcome Report
read_report_by_id id row = do
  name ← text_at 0 row
  text ← text_at 1 row
  type ← int_value_at 2 row
  path ← text_at 3 row
  date ← int_at 4 row
  by ← int_at 5 row
  warehouse ← int_value_at 6 row
  ok (record {
    report_id = some id;
    name = name;
    description = text;
    period_from = none;
    period_to = none;
    warehouse_id = some warehouse;
    created_by = by;
    created_date = date;
    filepath = path;
    report_type = some type;
  })

-- An object of the answer, which both tasks write alike.
unfoldable pub write_report : DateProvider → Report → Outcome Document
write_report dates r = do
  id ← value r.report_id
  name ← value r.name
  type ← value r.report_type
  type_text ← report_type_to_string type
  path ← value r.filepath
  date ← value r.created_date
  warehouse ← value r.warehouse_id
  ok (
      plain (
        put number "report_id" id
        ++ put words "name" name
        ++ put_optional words "description" r.description
        ++ put words "report_type" type_text
        ++ put words "filepath" path
        ++ put words "created_date" (dates.to_iso_time_string date)
        ++ put_optional number "created_by" r.created_by
        ++ put number "warehouse_id" warehouse))

module _ (server : Server) (interfaces : Interfaces) (dates : DateProvider) (fuel : ℕ) where
  -- `GetReportList::ExecuteInternal`
  unfoldable pub get_report_list : ListRequest → Running server (Result × List Document)
  get_report_list request =
      run_list server interfaces fuel (list_options report report_list_columns report_id request)
        read_report (write_report dates)

  -- `GetReport::ExecuteInternal`
  unfoldable pub get_report : ℤ → Running server (Result × Option Document)
  get_report id =
      run_get server interfaces fuel (id_options report report_columns report_id id)
        (read_report_by_id id) (write_report dates)
