-- ===== src/Tasks/Reports/Current/Agreeing.antt =====
-- The file and the answer of back/components/task_manager/source/tasks/protocol/reports_current.
use warehouse_accounting_sys.Base.{
  ℕ, ◌≡◌, refl, sym, ap, ap₂, ◌∙◌, if◌then◌else◌, Option, none, some, List, [], ◌∷◌, ◌++◌, map,
  String, str_eq,
}
use warehouse_accounting_sys.Base.Int.{ℤ}
use warehouse_accounting_sys.Exec.{ok, value, try_bind-ok, ok-injective}
use warehouse_accounting_sys.Stock.{Product}
use warehouse_accounting_sys.Json.{Content, Puts, Document, number, words, put, put_optional}
use warehouse_accounting_sys.Documents.{FileSystem}
use warehouse_accounting_sys.Documents.Paths.{Bytes, FilePath}
use warehouse_accounting_sys.Tasks.{Server, DateProvider}
use warehouse_accounting_sys.Tasks.Reading.{each}
use warehouse_accounting_sys.Result.{Result, success}
use warehouse_accounting_sys.Tasks.Warehouses.{Warehouse}
use warehouse_accounting_sys.Tasks.Reports.{Report}
use warehouse_accounting_sys.Tasks.Reports.Current.{Products, ReportMemory}
use warehouse_accounting_sys.Tasks.Reports.Current.Collecting.{reported}
use warehouse_accounting_sys.Tasks.Reports.Current.Printing.{
  Fragment, product_of, close_products, close_body, close_html, print_header, print_product,
  write_report_file, write_reported, write_current, current_answer,
}

-- What is at the key.
abbrev pub lookup : String → Puts → Option Content
lookup key [] = none
lookup key ((k, c) ∷ puts) = let rest = lookup key puts in if str_eq k key then some c else rest

-- The id and the count of a product in the answer, and in a row of the file.
abbrev pub item_key : Puts → Option Content × Option Content
item_key puts = (lookup "id" puts, lookup "count" puts)

abbrev pub row_key : Fragment → List (Option Content × Option Content)
row_key (product_of id name pretty about held date) = (some (number id), some (number held)) ∷ []
row_key _ = []

abbrev pub row_keys : List Fragment → List (Option Content × Option Content)
row_keys [] = []
row_keys (f ∷ file) = row_key f ++ row_keys file

some-injective : {A : Type 0} {a b : A} → some a ≡ some b → a ≡ b
some-injective h = cc

-- The object of a product in the answer.
abbrev reported_puts : String → Option String → Option ℤ → ℤ → ℤ → String → ℤ → String → Puts
reported_puts name about color id held date by pretty =
    put words "name" name
    ++ put_optional words "description" about
    ++ put_optional number "main_color" color
    ++ put number "id" id
    ++ put number "count" held
    ++ put words "created_date" date
    ++ put number "created_by" by
    ++ put words "pretty_name" pretty

item_key-reported_puts :
    (name : String) (about : Option String) (color : Option ℤ) (id held : ℤ) (date : String)
    (by : ℤ) (pretty : String)
    → item_key (reported_puts name about color id held date by pretty)
      ≡ (some (number id), some (number held))
item_key-reported_puts name none none id held date by pretty = refl
item_key-reported_puts name none (some n) id held date by pretty = refl
item_key-reported_puts name (some s) none id held date by pretty = refl
item_key-reported_puts name (some s) (some n) id held date by pretty = refl

row_keys-closed :
    (rows : List Fragment)
    → row_keys (rows ++ close_products ∷ close_body ∷ close_html ∷ []) ≡ row_keys rows
row_keys-closed [] = refl
row_keys-closed (f ∷ rows) = ap (λ keys. row_key f ++ keys) (row_keys-closed rows)

module _ (dates : DateProvider) (readable : ℤ → String) where
  row_key-item_key :
      (key : ℤ) (p : Product) (f : Fragment) (puts : Puts)
      → print_product readable (key, p) ≡ ok f
      → write_reported dates (key, p) ≡ ok puts
      → row_key f ≡ item_key puts ∷ []
  unfolding print_product
  row_key-item_key key p f puts h k =
      let (id, a, h1) = try_bind-ok (value p.id) _ h in
      let (name, b, h2) = try_bind-ok (value p.name) _ h1 in
      let (pretty, c, h3) = try_bind-ok (value p.pretty_name) _ h2 in
      let (held, d, h4) = try_bind-ok (value p.count) _ h3 in
      let (date, e, h5) = try_bind-ok (value p.created_date) _ h4 in
      let (name', b', k1) = try_bind-ok (value p.name) _ k in
      let (id', a', k2) = try_bind-ok (value p.id) _ k1 in
      let (held', d', k3) = try_bind-ok (value p.count) _ k2 in
      let (date', e', k4) = try_bind-ok (value p.created_date) _ k3 in
      let (by, g, k5) = try_bind-ok (value p.created_by) _ k4 in
      let (pretty', c', k6) = try_bind-ok (value p.pretty_name) _ k5 in
      let same_id : id' ≡ id = ok-injective (sym a' ∙ a) in
      let same_held : held' ≡ held = ok-injective (sym d' ∙ d) in
      ap row_key (sym (ok-injective h5))
      ∙ ap (λ r. r ∷ [])
          (ap₂ (λ n c. (some (number n), some (number c))) (sym same_id) (sym same_held)
            ∙ sym (
                item_key-reported_puts name' p.description p.main_color id' held'
                  (dates.to_iso_time_string date') by pretty')
            ∙ ap item_key (ok-injective k6))

  row_keys-item_keys :
      (products : Products) (rows : List Fragment) (items : List Puts)
      → each (print_product readable) products ≡ ok rows
      → each (write_reported dates) products ≡ ok items
      → row_keys rows ≡ map item_key items
  row_keys-item_keys [] rows items h k =
      ap row_keys (sym (ok-injective h)) ∙ ap (map item_key) (ok-injective k)
  row_keys-item_keys ((key, p) ∷ products) rows items h k =
      let (f, a, h1) = try_bind-ok (print_product readable (key, p)) _ h in
      let (fs, b, h2) = try_bind-ok (each (print_product readable) products) _ h1 in
      let (puts, c, k1) = try_bind-ok (write_reported dates (key, p)) _ k in
      let (rest, d, k2) = try_bind-ok (each (write_reported dates) products) _ k1 in
      ap row_keys (sym (ok-injective h2))
      ∙ ap₂ ◌++◌ (row_key-item_key key p f puts a c) (row_keys-item_keys products fs rest b d)
      ∙ ap (map item_key) (ok-injective k2)

  row_key-header :
      (r : Report) (w : Warehouse) (f : Fragment)
      → print_header readable r w ≡ ok f
      → row_key f ≡ []
  unfolding print_header
  row_key-header r w f h =
      let (id, a, h1) = try_bind-ok (value r.report_id) _ h in
      let (name, b, h2) = try_bind-ok (value r.name) _ h1 in
      let (at, c, h3) = try_bind-ok (value r.warehouse_id) _ h2 in
      let (warehouse_name, d, h4) = try_bind-ok (value w.name) _ h3 in
      let (date, e, h5) = try_bind-ok (value r.created_date) _ h4 in
      ap row_key (sym (ok-injective h5))

  write_report_file-rows :
      (r : Report) (w : Warehouse) (products : Products) (file : List Fragment)
      → write_report_file readable r w products ≡ ok file
      → (rows : List Fragment) × ((each (print_product readable) products ≡ ok rows)
          × (row_keys file ≡ row_keys rows))
  unfolding write_report_file
  write_report_file-rows r w products file h =
      let (header, a, h1) = try_bind-ok (print_header readable r w) _ h in
      let (rows, b, h2) = try_bind-ok (each (print_product readable) products) _ h1 in
      (
        rows,
        (
          b,
          ap row_keys (sym (ok-injective h2))
              ∙ ap
                  (λ keys. keys ++ row_keys (rows ++ close_products ∷ close_body ∷ close_html ∷ []))
                  (row_key-header r w header a)
              ∙ row_keys-closed rows,
        ),
      )

  write_current-items :
      (r : Report) (products : Products) (document : Document)
      → write_current dates r products ≡ ok document
      → (items : List Puts) × ((document.items ≡ some items)
          × (each (write_reported dates) products ≡ ok items))
  unfolding write_current
  write_current-items r products document h =
      let (id, a, h1) = try_bind-ok (value r.report_id) _ h in
      let (path, b, h2) = try_bind-ok (value r.filepath) _ h1 in
      let (date, c, h3) = try_bind-ok (value r.created_date) _ h2 in
      let (by, d, h4) = try_bind-ok (value r.created_by) _ h3 in
      let (name, e, h5) = try_bind-ok (value r.name) _ h4 in
      let (w, f, h6) = try_bind-ok (value r.warehouse_id) _ h5 in
      let (written, g, h7) = try_bind-ok (each (write_reported dates) products) _ h6 in
      (written, (ap (λ d. d.items) (sym (ok-injective h7)), g))

  current_answer-written :
      (r : Report) (products : Products) (file : List Fragment) (result : Result) (answer : Result)
      (document : Document) (shown : List Fragment)
      → current_answer dates r products file result ≡ ok (answer, some (document, shown))
      → (write_current dates r products ≡ ok document) × (file ≡ shown)
  current_answer-written r products file success answer document shown h =
      let (d, a, h1) = try_bind-ok (write_current dates r products) _ h in
      let same = some-injective (ap (λ x. x.1) (ok-injective h1)) in
      (a ∙ ap ok (ap (λ x. x.0) same), ap (λ x. x.1) same)
  current_answer-written r products file _ answer document shown h = absurd (cc h)

  -- When the task answers with a document and a file, the file has a row for every product of the document, in the
  -- same order and with the same id and count, and no other row.
  pub reported-agrees :
      (server : Server) (fs : FileSystem) (random : ℕ → ℕ → Bytes) (root : FilePath)
      (text_of : Bytes → String) (m : ReportMemory fs) (result answer : Result)
      (document : Document) (file : List Fragment)
      → reported server fs random root text_of dates readable m result
        ≡ ok (answer, some (document, file))
      → (items : List Puts) × ((document.items ≡ some items) × (row_keys file ≡ map item_key items))
  unfolding reported
  reported-agrees server fs random root text_of m result answer document file h =
      let (shown, a, h1) =
        try_bind-ok (write_report_file readable m.report m.warehouse m.products) _ h in
      let (written, same) =
        current_answer-written m.report m.products shown result answer document file h1 in
      let (rows, (b, printed)) = write_report_file-rows m.report m.warehouse m.products shown a in
      let (items, (is, c)) = write_current-items m.report m.products document written in
      (items, (is, ap row_keys (sym same) ∙ printed ∙ row_keys-item_keys m.products rows items b c))
