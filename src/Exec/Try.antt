-- ===== src/Exec/Try.antt =====
-- `do` blocks for code that may throw and keeps no state: back/instrumental/include/instrumental/check.h.
use warehouse_accounting_sys.Exec.{Outcome, try_bind}

module _ {ℓ κ} {A : Type ℓ} {B : Type κ} where
  infixl 10 ◌>>=◌ ◌>>◌
  abbrev pub ◌>>=◌ : Outcome A → (A → Outcome B) → Outcome B
  m >>= f = try_bind m f

  abbrev pub ◌>>◌ : Outcome A → Outcome B → Outcome B
  m >> n = try_bind m λ _. n
