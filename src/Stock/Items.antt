-- ===== src/Stock/Items.antt =====
-- What the tasks rely on of the table Warehouse_Item, whose primary key is (warehouse_id, product_id),
-- whose counts are 32-bit and which refers to Warehouse and Product: SQL's documented effect of the
-- four statements that `ChangeCount` sends.
use warehouse_accounting_sys.Base.{
  ◌^◌, ◌≤◌, ◌<◌, ◌≡◌, Bool, true, All, if◌then◌else◌, ◌&&◌, Option, none, some, List, [], ◌∷◌, any,
}
use warehouse_accounting_sys.Base.Int.{ℤ, pos_part, neg_part, ◌==ℤ◌}
use warehouse_accounting_sys.Exec.{ok}
use warehouse_accounting_sys.Query.Values.{int, bound}
use warehouse_accounting_sys.Stock.{
  count_request, delete_items_request, insert_items_request, update_item_request,
}
use warehouse_accounting_sys.Database.{Database, Rows, run_query}

-- The range of PostgreSQL's `integer`.
abbrev pub InInt4 : ℤ → Type 0
InInt4 c = (pos_part c < 2 ^ 31) × (neg_part c ≤ 2 ^ 31)

-- One row, or none, for a key.
abbrev pub count_rows : Option ℤ → Rows
count_rows none = []
count_rows (some c) = (bound (int c) ∷ []) ∷ []

abbrev pub member : ℤ → List ℤ → Bool
member p ids = any (λ q. q ==ℤ p) ids

-- The count that a list of (product, count) rows has for a product.
abbrev pub find_row : ℤ → List (ℤ × ℤ) → Option ℤ
find_row p [] = none
find_row p ((q, c) ∷ rows) = if q ==ℤ p then some c else find_row p rows

abbrev pub or_else : Option ℤ → Option ℤ → Option ℤ
or_else (some a) b = some a
or_else none b = b

abbrev pub replaced : ℤ → Option ℤ → Option ℤ
replaced target none = none
replaced target (some c) = some target

-- Every row is for a product that has none yet, and no two are for one product.
abbrev pub AllNew : (ℤ → Option ℤ) → List (ℤ × ℤ) → Type 0
AllNew stored [] = Unit {0}
AllNew stored ((p, c) ∷ rows) =
    (stored p ≡ none) × (find_row p rows ≡ none) × InInt4 c × AllNew stored rows

-- There is a row of Product for every one that is asked for, and one of Warehouse for theirs.
abbrev pub AllKnown : (ℤ → Bool) → List (ℤ × ℤ) → Type 0
AllKnown known rows = All (λ r. known r.0 ≡ true) rows

pub record ItemTable (d : Database) : Type 0 where
  -- The count that the transaction sees for a warehouse and a product.
  pub item : d.State → ℤ → ℤ → Option ℤ
  -- Whether it sees the warehouse and the product, which the table's foreign keys refer to.
  pub known : d.State → ℤ → ℤ → Bool
  pub select_lem :
      (s : d.State) (w p : ℤ)
      → run_query d (count_request w p) s ≡ (ok (count_rows (item s w p)), s)
  pub delete_lem :
      (s : d.State) (w : ℤ) (id : ℤ) (ids : List ℤ)
      → (rows : Rows) × (t : d.State) × (run_query d (delete_items_request w (id ∷ ids)) s
          ≡ (ok rows, t))
        × ((v p : ℤ) → item t v p ≡ (if (w ==ℤ v) && member p (id ∷ ids) then none else item s v p))
        × ((v p : ℤ) → known t v p ≡ known s v p)
  pub insert_lem :
      (s : d.State) (w : ℤ) (r : ℤ × ℤ) (new : List (ℤ × ℤ))
      → AllNew (item s w) (r ∷ new)
      → AllKnown (known s w) (r ∷ new)
      → (rows : Rows) × (t : d.State) × (run_query d (insert_items_request w (r ∷ new)) s
          ≡ (ok rows, t))
        × ((v p : ℤ)
            → item t v p
              ≡ (if w ==ℤ v then or_else (find_row p (r ∷ new)) (item s v p) else item s v p))
        × ((v p : ℤ) → known t v p ≡ known s v p)
  pub update_lem :
      (s : d.State) (w p target : ℤ)
      → InInt4 target
      → (rows : Rows) × (t : d.State) × (run_query d (update_item_request w p target) s
          ≡ (ok rows, t))
        × ((v q : ℤ)
            → item t v q
              ≡ (if (w ==ℤ v) && (p ==ℤ q) then replaced target (item s v q) else item s v q))
        × ((v q : ℤ) → known t v q ≡ known s v q)
