-- ===== src/Result.antt =====
-- back/instrumental/include/instrumental/types.h: the result codes and their string converters.
pub mod RoundTrip
use warehouse_accounting_sys.Base.{String, str_eq, if◌then◌else◌}

-- The enumerators of `ufa::Result`, in order.
pub data Result : Type 0 where
  success error no_interface reregistering_interface not_found no_string_converter : Result
  wrong_format duplicate unauthorized not_implemented no_connection violation : Result

-- `ToString(ufa::Result)`; the `default` of the switch is for values outside the enumeration.
pub to_string : Result → String
to_string success = "SUCCESS"
to_string error = "ERROR"
to_string no_interface = "NO_INTERFACE"
to_string reregistering_interface = "REREGISTERING_INTERFACE"
to_string not_found = "NOT_FOUND"
to_string no_string_converter = "NO_STRING_CONVERTER"
to_string wrong_format = "WRONG_FORMAT"
to_string duplicate = "DUPLICATE"
to_string unauthorized = "UNAUTHORIZED"
to_string not_implemented = "NOT_IMPLEMENTED"
to_string no_connection = "NO_CONNECTION"
to_string violation = "VIOLATION"

-- `FromString<ufa::Result>`: a chain of comparisons that has none for NO_STRING_CONVERTER.
unfoldable pub from_string : String → Result
from_string s =
    if str_eq s "SUCCESS"
    then success
    else if str_eq s "ERROR"
    then error
    else if str_eq s "NO_INTERFACE"
    then no_interface
    else if str_eq s "REREGISTERING_INTERFACE"
    then reregistering_interface
    else if str_eq s "NOT_FOUND"
    then not_found
    else if str_eq s "WRONG_FORMAT"
    then wrong_format
    else if str_eq s "DUPLICATE"
    then duplicate
    else if str_eq s "UNAUTHORIZED"
    then unauthorized
    else if str_eq s "NOT_IMPLEMENTED"
    then not_implemented
    else if str_eq s "NO_CONNECTION"
    then no_connection
    else if str_eq s "VIOLATION"
    then violation
    else no_string_converter
