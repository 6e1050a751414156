-- ===== src/Examples/Tables.antt =====
-- A database that answers the lists' statements from tables in memory, as PostgreSQL documents.
use warehouse_accounting_sys.Base.{◌≡◌, refl, ap, ℕ, Option, none, some, List, [], ◌∷◌, map}
use warehouse_accounting_sys.Base.Int.{ℤ, pos}
use warehouse_accounting_sys.Exec.{Outcome, ok, throws, other_exception}
use warehouse_accounting_sys.Query.Schema.{
  Column, Table, product, product_id, name, pretty_name, created_date, created_by, main_color,
}
use warehouse_accounting_sys.Query.Values.{int, text, Param, null, bound}
use warehouse_accounting_sys.Query.Options.{QueryOptions, select_options, SelectOptions}
use warehouse_accounting_sys.Database.{Database, Rows}
use warehouse_accounting_sys.Database.Tables.{Tuple, Conforms, project, initialize_tables}
use warehouse_accounting_sys.Database.Select.{SelectLaws, answered, optional_pos}
use warehouse_accounting_sys.Tasks.{Server, DateProvider}

abbrev numbers : List Param → List ℤ
numbers (bound (int n) ∷ ps) = n ∷ numbers ps
numbers _ = []

abbrev natural : Option ℤ → Option ℕ
natural (some (pos n)) = some n
natural _ = none

abbrev start_of : Option ℤ → ℕ
start_of (some (pos n)) = n
start_of _ = 0

abbrev key_of : Option Column → Column
key_of none = Column.invalid
key_of (some c) = c

abbrev answer_select : SelectOptions → List Param → List Tuple → Rows
answer_select o ps ts =
    map (project o.columns) (
      answered (key_of o.order_by) o.condition (numbers ps) (natural o.limit) (start_of o.offset)
        ts)

abbrev answer_table :
    QueryOptions → List Param → (Table → List Tuple) → Outcome Rows × (Table → List Tuple)
answer_table (select_options o) ps s = (ok (answer_select o ps (s o.table)), s)
answer_table _ ps s = (throws other_exception, s)

abbrev pub tables : Database
tables = record { State = Table → List Tuple; exec = answer_table }

pub numbers_lem : (ns : List ℤ) → numbers (map (λ n. bound (int n)) ns) ≡ ns
numbers_lem [] = refl
numbers_lem (n ∷ ns) = ap (λ r. n ∷ r) (numbers_lem ns)

pub natural_lem : (limit : Option ℕ) → natural (optional_pos limit) ≡ limit
natural_lem none = refl
natural_lem (some n) = refl

abbrev pub tables_laws : SelectLaws tables
tables_laws = record {
  tuples = λ s t. s t;
  select_lem = λ s table columns id filter ns limit offset cs h l f small start.
      rw (numbers_lem ns, natural_lem limit) refl;
}

-- Product `n`, with its name and a color.
abbrev pub product_tuple : ℕ → Tuple
product_tuple n product_id = bound (int (pos n))
product_tuple n name = bound (text "bolt")
product_tuple n pretty_name = bound (text "1_bolt")
product_tuple n created_date = bound (int (pos 7))
product_tuple n created_by = bound (int (pos 1))
product_tuple n main_color = bound (int (pos n))
product_tuple n _ = null

abbrev pub three_products : Table → List Tuple
three_products product = product_tuple 3 ∷ product_tuple 1 ∷ product_tuple 2 ∷ []
three_products _ = []

-- A server on the tables, whose commits succeed.
abbrev pub table_server : Server
table_server = record {
  database = tables;
  World = Table → List Tuple;
  begin = λ w. w;
  commit = λ v w. (ok tt, v);
  commit_attempts = 3;
}

abbrev pub no_dates : DateProvider
no_dates = record { from_iso_time_string = λ s. none; to_iso_time_string = λ n. "a date" }

pub product_tuple-Conforms : (n : ℕ) → Conforms product (product_tuple n)
unfolding initialize_tables
product_tuple-Conforms n = (tt, (tt, (tt, (tt, (tt, (tt, (tt, tt)))))))
