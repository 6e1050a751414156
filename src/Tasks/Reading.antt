-- ===== src/Tasks/Reading.antt =====
-- Reading the rows of a `pqxx::result` by position: `row.at(i++).get<T>()` in
-- back/components/task_manager/source/tasks/protocol.
use warehouse_accounting_sys.Base.{ℕ, zero, suc, Option, none, some, List, [], ◌∷◌, String}
use warehouse_accounting_sys.Base.Int.{ℤ}
use warehouse_accounting_sys.Exec.{Outcome, ok, throws, other_exception, try_bind, value}
use warehouse_accounting_sys.Query.Values.{int, text, Param, null, bound}
use warehouse_accounting_sys.Database.{Row}

-- `row.at(i)`
abbrev pub at : ℕ → Row → Outcome Param
at i [] = throws other_exception
at zero (p ∷ row) = ok p
at (suc i) (p ∷ row) = at i row

-- `get<int64_t>()`
abbrev pub get_int : Param → Outcome (Option ℤ)
get_int null = ok none
get_int (bound (int n)) = ok (some n)
get_int (bound (text s)) = throws other_exception

-- `get<std::string>()`; the tasks ask it of columns of type text only.
abbrev pub get_text : Param → Outcome (Option String)
get_text null = ok none
get_text (bound (text s)) = ok (some s)
get_text (bound (int n)) = throws other_exception

abbrev pub int_at : ℕ → Row → Outcome (Option ℤ)
int_at i row = try_bind (at i row) get_int

abbrev pub text_at : ℕ → Row → Outcome (Option String)
text_at i row = try_bind (at i row) get_text

-- `row.at(i).get<T>().value()`
abbrev pub int_value_at : ℕ → Row → Outcome ℤ
int_value_at i row = try_bind (int_at i row) value

abbrev pub text_value_at : ℕ → Row → Outcome String
text_value_at i row = try_bind (text_at i row) value

-- `for (const auto& row : results)` and the like.
abbrev pub each {ℓ κ} : {A : Type ℓ} {B : Type κ} → (A → Outcome B) → List A → Outcome (List B)
each f [] = ok []
each f (x ∷ xs) = try_bind (f x) λ y. try_bind (each f xs) λ ys. ok (y ∷ ys)
