-- ===== src/Exec.antt =====
-- Exceptions and state: `back/instrumental/include/instrumental/check.h` and the exceptions that
-- the code catches. What was written before a throw stays written, so the state comes back beside
-- the exception too; the database's rollback is a step of its own.
pub mod Try
use warehouse_accounting_sys.Base.{Bool, true, false, Option, none, some, ◌≡◌, refl, ◌⊎◌, inl, inr}
use warehouse_accounting_sys.Result.{Result, success}

-- The exceptions that some handler tells apart; `runtime_error` is what the check macros throw, and
-- `other_exception` any other `std::exception`.
pub data Exception : Type 0 where
  runtime_error integrity_constraint_violation serialization_failure : Exception
  not_found_exception in_doubt_error other_exception : Exception

pub data Outcome {ℓ} (A : Type ℓ) : Type ℓ where
  ok : A → Outcome A
  throws : Exception → Outcome A

-- `CHECK_TRUE(x)`
abbrev pub check_true : Bool → Outcome (Unit {0})
check_true true = ok tt
check_true false = throws runtime_error

-- `CHECK_SUCCESS(x)`
abbrev pub check_success : Result → Outcome (Unit {0})
check_success success = ok tt
check_success _ = throws runtime_error

-- `std::optional::value()`
abbrev pub value {ℓ} : {A : Type ℓ} → Option A → Outcome A
value (some a) = ok a
value none = throws other_exception

abbrev pub try_bind {ℓ κ} : {A : Type ℓ} {B : Type κ} → Outcome A → (A → Outcome B) → Outcome B
try_bind (ok a) f = f a
try_bind (throws e) f = throws e

abbrev pub Exec : Type 0 → Type 0 → Type 0
Exec S A = S → Outcome A × S

module _ {S A : Type 0} where
  abbrev pub pure : A → Exec S A
  pure a s = (ok a, s)

  abbrev pub raise : Exception → Exec S A
  raise e s = (throws e, s)

  abbrev pub lift : Outcome A → Exec S A
  lift r s = (r, s)

  abbrev pub gets : (S → A) → Exec S A
  gets f s = (ok (f s), s)

module _ {S A B : Type 0} where
  abbrev pub continue : Outcome A → (A → Exec S B) → Exec S B
  continue (ok a) f s = f a s
  continue (throws e) f s = (throws e, s)

  infixl 10 ◌>>=◌ ◌>>◌
  abbrev pub ◌>>=◌ : Exec S A → (A → Exec S B) → Exec S B
  ◌>>=◌ m f s = let (r, s') = m s in continue r f s'

  abbrev pub ◌>>◌ : Exec S A → Exec S B → Exec S B
  m >> n = m >>= λ _. n

abbrev pub modify : {S : Type 0} → (S → S) → Exec S (Unit {0})
modify f s = (ok tt, f s)

pub try_bind-ok {ℓ κ} :
    {A : Type ℓ} {B : Type κ} (m : Outcome A) (f : A → Outcome B) {b : B}
    → try_bind m f ≡ ok b
    → (a : A) × (m ≡ ok a) × (f a ≡ ok b)
try_bind-ok (ok a) f h = (a, refl, h)
try_bind-ok (throws e) f h = cc

pub ok-injective {ℓ} : {A : Type ℓ} {a b : A} → ok a ≡ ok b → a ≡ b
ok-injective h = cc

pub check_true-ok : (b : Bool) {u : Unit {0}} → check_true b ≡ ok u → b ≡ true
check_true-ok true h = refl
check_true-ok false h = cc

pub Outcome-cases {ℓ} :
    {A : Type ℓ} (r : Outcome A) → ((a : A) × (r ≡ ok a)) ⊎ ((e : Exception) × (r ≡ throws e))
Outcome-cases (ok a) = inl (a, refl)
Outcome-cases (throws e) = inr (e, refl)
