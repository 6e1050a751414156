-- ===== src/Examples/Files.antt =====
-- Files and requests on concrete inputs.
use warehouse_accounting_sys.Base.{
  ℕ, ◌==◌, ◌≡◌, refl, ◌⊎◌, Bool, true, false, not, ◌&&◌, and_left, and_right, Option, none, List,
  [], ◌∷◌, ◌++◌,
}
use Prim.Native.String.{len}
use warehouse_accounting_sys.Base.Int.{ℤ}
use warehouse_accounting_sys.Result.{success}
use warehouse_accounting_sys.Exec.{ok}
use warehouse_accounting_sys.Documents.{
  default_document_root, FileSystem, create_file, restore_document, relativize_document,
  create_file_from, create_directories_and_open_stream, create_directories, or_index,
}
use warehouse_accounting_sys.Documents.Paths.{
  Bytes, FilePath, codes, eq_bytes, to_path, directory_names, lexically_normal, split, squeeze,
  walk, reverse_onto, append_path, last_name,
}
use warehouse_accounting_sys.Documents.Below.{ups}
use warehouse_accounting_sys.Documents.RoundTrip.{relativize_document-restore_document}
use warehouse_accounting_sys.Documents.Creating.{IsFresh, create_file-IsFresh}
use warehouse_accounting_sys.Session.{get}
use warehouse_accounting_sys.Session.Params.{before}
use warehouse_accounting_sys.Session.Params.Printed.{
  IsFree, IsPair, print, first_value, param_at, param_at-print,
}
use warehouse_accounting_sys.Session.Serving.{file_body, file_response, handle_file}
use warehouse_accounting_sys.Session.Serving.Climbing.{ups_text, handle_file-climbs}
use warehouse_accounting_sys.Session.Api.{HttpRequest, Services, serve}
use warehouse_accounting_sys.Session.Api.Once.{IsOnce, serve-IsOnce, serve-authenticated}
use warehouse_accounting_sys.Tasks.Workers.{new_workers}

abbrev everywhere : FilePath → Bool
everywhere p = true

abbrev outside : FilePath
outside = record {
  rooted = false;
  names = directory_names default_document_root.names ++ ups 2 (codes "key" ∷ []);
}

handle_file-climbs_example :
    handle_file everywhere everywhere default_document_root get true
      (b'/' ∷ ups_text 2 (codes "key"))
    ≡ ok (file_response true outside (file_body outside) ∷ [])
handle_file-climbs_example =
    handle_file-climbs everywhere everywhere default_document_root true 2 (codes "key")
      (refl, refl, refl) ((refl, refl), ((refl, refl), ((refl, refl), tt))) refl refl

abbrev asked : FilePath
asked = to_path (codes "css/../pages//main.css")

abbrev answered : FilePath
answered = record { rooted = false; names = codes "." ∷ codes "pages" ∷ codes "main.css" ∷ [] }

restored_page : restore_document everywhere default_document_root false asked ≡ (success, answered)
unfolding restore_document lexically_normal to_path split squeeze walk reverse_onto append_path
    directory_names
restored_page = refl

trimmed : directory_names default_document_root.names ≡ default_document_root.names
unfolding directory_names
trimmed = refl

relativize_document-restore_document_example :
    relativize_document default_document_root answered
    ≡ (success, record { rooted = false; names = (lexically_normal (or_index asked)).names })
relativize_document-restore_document_example =
    relativize_document-restore_document everywhere default_document_root false asked answered
      trimmed restored_page

-- Files by their number; one is there, and another can be created.
abbrev one_file : FileSystem
one_file = record {
  World = ℕ;
  exists = λ w p. eq_bytes (last_name p.names) (codes "report.txt");
  create_directory = λ p w. (true, w);
  open_stream = λ p w. (true, 1);
}

abbrev tweaks : ℕ → Bytes
tweaks n = codes "Zg"

renamed :
    create_file one_file tweaks default_document_root (codes "report.txt") 0
    ≡ ((success, codes "report.txtZg"), 1)
unfolding create_file_from restore_document lexically_normal to_path split squeeze walk reverse_onto
    append_path directory_names create_directories_and_open_stream create_directories
renamed = refl

create_file-IsFresh_example : IsFresh one_file default_document_root (codes "report.txtZg") 1
create_file-IsFresh_example =
    create_file-IsFresh one_file tweaks default_document_root (codes "report.txt") 0
      (codes "report.txtZg") 1 renamed

abbrev no_number : Bytes → Option ℤ
no_number s = none

abbrev pairs : List (Bytes × Bytes)
pairs = (codes "limit", codes "ten") ∷ (codes "order", codes "id") ∷ []

abbrev free : ℕ → Bytes → Bool
free mark [] = true
free mark (c ∷ s) = not (c == mark) && free mark s

not-true : (b : Bool) → not b ≡ true → b ≡ false
not-true true h = cc
not-true false h = refl

IsFree_lem : (mark : ℕ) (s : Bytes) → free mark s ≡ true → IsFree mark s
IsFree_lem mark [] h = tt
IsFree_lem mark (c ∷ s) h =
    (not-true _ (and_left _ _ h), IsFree_lem mark s (and_right (not (c == mark)) _ h))

abbrev clean : Bytes → Bool
clean s = free b'&' s && free b'#' s

clean_lem : (s : Bytes) → clean s ≡ true → IsFree b'&' s × IsFree b'#' s
clean_lem s h =
    (IsFree_lem b'&' s (and_left _ _ h), IsFree_lem b'#' s (and_right (free b'&' s) _ h))

pair_lem :
    (key value : Bytes)
    → (clean key && free b'=' key) ≡ true
    → clean value ≡ true
    → IsPair (key, value)
pair_lem key value h k =
    let (a, b) = clean_lem key (and_left _ _ h) in
    ((a, b, IsFree_lem b'=' key (and_right (clean key) _ h)), clean_lem value k)

cut_at_hash : before b'#' (codes "#top") ≡ []
unfolding before
cut_at_hash = refl

param_at-print_example :
    param_at no_number (codes "/api/users" ++ b'?' ∷ (print pairs ++ codes "#top")) (codes "order")
    ≡ first_value no_number (codes "order") pairs
param_at-print_example =
    param_at-print no_number (codes "/api/users") (codes "#top") (codes "order") pairs
      (IsFree_lem b'?' (codes "/api/users") refl) (IsFree_lem b'#' (codes "/api/users") refl)
      (
        pair_lem (codes "limit") (codes "ten") refl refl,
        (pair_lem (codes "order") (codes "id") refl refl, tt),
      )
      cut_at_hash

abbrev some_services : Services (Unit {0}) ℕ
some_services = record {
  validate = λ token. (success, 7);
  exists = everywhere;
  opens = everywhere;
  root = default_document_root;
  parse = λ body. none;
  stol = no_number;
  initialize = λ user identificator body. (success, user);
}

abbrev users_request : HttpRequest
users_request = record {
  verb = get;
  target = "/api/users?limit=ten";
  token = "token";
  keep_alive = true;
  body = [];
}

serve-IsOnce_example : IsOnce new_workers (serve some_services users_request new_workers)
serve-IsOnce_example = serve-IsOnce some_services users_request new_workers

serve-authenticated_example :
    ((serve some_services users_request new_workers).1 ≡ new_workers)
    ⊎ ((users_request.target ≡ "/api/authorization")
        ⊎ (((len users_request.token == 0) ≡ false)
            × ((user : ℕ) × (some_services.validate users_request.token ≡ (success, user)))))
serve-authenticated_example = serve-authenticated some_services users_request new_workers
