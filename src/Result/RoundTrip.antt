-- ===== src/Result/RoundTrip.antt =====
-- The two string converters of types.h against each other.
use warehouse_accounting_sys.Base.{String, eq_iff, ◌≡◌, ◌≢◌, refl, arith}
use warehouse_accounting_sys.Result.{
  Result, to_string, from_string, success, error, no_interface, reregistering_interface, not_found,
  no_string_converter, wrong_format, duplicate, unauthorized, not_implemented, no_connection,
  violation,
}

-- Every result code is read back from its text.
pub from_string-to_string : (r : Result) → from_string (to_string r) ≡ r
unfolding from_string to_string
from_string-to_string success = refl
from_string-to_string error = refl
from_string-to_string no_interface = refl
from_string-to_string reregistering_interface = refl
from_string-to_string not_found = refl
from_string-to_string no_string_converter = refl
from_string-to_string wrong_format = refl
from_string-to_string duplicate = refl
from_string-to_string unauthorized = refl
from_string-to_string not_implemented = refl
from_string-to_string no_connection = refl
from_string-to_string violation = refl

-- A text that is read as any code but NO_STRING_CONVERTER is the text of that code.
to_string-from_string :
    (s : String) → from_string s ≢ no_string_converter → to_string (from_string s) ≡ s
unfolding from_string to_string
to_string-from_string s h = ground (
  arith,
  eq_iff s "SUCCESS",
  eq_iff s "ERROR",
  eq_iff s "NO_INTERFACE",
  eq_iff s "REREGISTERING_INTERFACE",
  eq_iff s "NOT_FOUND",
  eq_iff s "WRONG_FORMAT",
  eq_iff s "DUPLICATE",
  eq_iff s "UNAUTHORIZED",
  eq_iff s "NOT_IMPLEMENTED",
  eq_iff s "NO_CONNECTION",
  eq_iff s "VIOLATION",
)
