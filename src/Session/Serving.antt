-- ===== src/Session/Serving.antt =====
-- `HandleFile` and `PrepareResponse` of base_session.cpp: a file below the document root, or what is wrong with it.
pub mod Climbing
use warehouse_accounting_sys.Base.{
  ◌==◌, Bool, true, false, ◌||◌, if◌then◌else◌, String, List, [], ◌∷◌,
}
use warehouse_accounting_sys.Result.{Result, success, wrong_format}
use warehouse_accounting_sys.Exec.{Outcome, ok, throws, runtime_error, other_exception}
use warehouse_accounting_sys.Documents.{restore_document}
use warehouse_accounting_sys.Documents.Paths.{Bytes, FilePath, to_path, extension}
use warehouse_accounting_sys.Session.{Verb, get, head, Status, ok_status, bad_request, not_found}
use warehouse_accounting_sys.Session.Mime.{get_mime_type}

-- What a response carries: nothing, a text, or a file.
pub data ResponseBody : Type 0 where
  empty_body : ResponseBody
  string_body : String → ResponseBody
  file_body : FilePath → ResponseBody

pub record Response : Type 0 where
  pub status : Status
  pub content_type : String
  pub keep_alive : Bool
  pub body : ResponseBody

abbrev is_ok : Status → Bool
is_ok ok_status = true
is_ok _ = false

-- `PrepareResponse`; `keep_alive` is what the request asks for.
abbrev pub prepare_response : Bool → String → Status → Response
prepare_response keep_alive text status = record {
  status = status;
  content_type = "text/html";
  keep_alive = if is_ok status then keep_alive else false;
  body = string_body text;
}

-- `target.substr(1, firstWordEnd - 1)` without its first character: up to the first '?' or '#'.
unfoldable pub first_word : Bytes → Bytes
first_word [] = []
first_word (c ∷ s) = let rest = first_word s in if c == b'?' || c == b'#' then [] else c ∷ rest

abbrev pub file_response : Bool → FilePath → ResponseBody → Response
file_response keep_alive file body = record {
  status = ok_status;
  content_type = get_mime_type (extension file);
  keep_alive = keep_alive;
  body = body;
}

abbrev pub file_responses : Verb → Bool → FilePath → List Response
file_responses head keep_alive file =
    file_response keep_alive file empty_body ∷ file_response keep_alive file (file_body file) ∷ []
file_responses _ keep_alive file = file_response keep_alive file (file_body file) ∷ []

-- What follows the document manager's answer; `opens` tells whether a file can be opened for reading.
abbrev pub restored_response :
    (FilePath → Bool) → Verb → Bool → Result × FilePath → Outcome (List Response)
restored_response opens verb keep_alive (wrong_format, file) =
    ok (prepare_response keep_alive "Invalid filename" bad_request ∷ [])
restored_response opens verb keep_alive (Result.not_found, file) =
    ok (prepare_response keep_alive "File not found" not_found ∷ [])
restored_response opens verb keep_alive (_, file) =
    if opens file then ok (file_responses verb keep_alive file) else throws runtime_error

-- `HandleFile`: what it sends. A target that is empty is out of the range of `substr`.
unfoldable pub handle_file :
    (FilePath → Bool) → (FilePath → Bool) → FilePath → Verb → Bool → Bytes → Outcome (List Response)
handle_file exists opens root verb keep_alive [] = throws other_exception
handle_file exists opens root verb keep_alive (slash ∷ s) =
    restored_response opens verb keep_alive
      (restore_document exists root true (to_path (first_word s)))
