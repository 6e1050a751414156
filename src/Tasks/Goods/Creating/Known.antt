-- ===== src/Tasks/Goods/Creating/Known.antt =====
-- The task of back/components/task_manager/source/tasks/protocol/products_create, when no product is new.
use warehouse_accounting_sys.Base.{ℕ, ◌≡◌, refl, some, [], String}
use warehouse_accounting_sys.Base.Int.{ℤ}
use warehouse_accounting_sys.Exec.{throws, runtime_error}
use warehouse_accounting_sys.Query.Build.{create}
use warehouse_accounting_sys.Tasks.{Server, DateProvider}
use warehouse_accounting_sys.Tasks.Listing.Pages.{all_there}
use warehouse_accounting_sys.Tasks.Invoices.Inserting.{Goods}
use warehouse_accounting_sys.Tasks.Goods.Creating.{
  insert_products, create_entries, run_products_create,
}

-- Products that are all known by their id cannot come into a warehouse: the query for the new ones is
-- made without a row, which throws before the transaction is executed.
pub run_products_create-known :
    (server : Server) (dates : DateProvider) (leaves : String → String) (fuel : ℕ) (clock : ℕ → ℕ)
    (m : Goods) (to : ℤ) (w : server.World)
    → m.products_new ≡ []
    → m.invoice.warehouse_to_id ≡ some to
    → run_products_create server all_there dates leaves fuel clock m w
      ≡ (some (throws runtime_error), w)
unfolding run_products_create create_entries insert_products create
run_products_create-known server dates leaves fuel clock m to w none_new known =
    rw (known, none_new) refl
