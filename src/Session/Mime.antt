-- ===== src/Session/Mime.antt =====
-- `GetMimeType` of base_session.cpp.
use warehouse_accounting_sys.Base.{Bool, if◌then◌else◌, String}
use warehouse_accounting_sys.Documents.Paths.{Bytes, eq_bytes, codes}

abbrev is : Bytes → String → Bool
is extension s = eq_bytes extension (codes s)

-- `GetMimeType`
unfoldable pub get_mime_type : Bytes → String
get_mime_type extension =
    if is extension ".htm"
    then "text/html"
    else if is extension ".html"
    then "text/html"
    else if is extension ".js"
    then "application/javascript"
    else if is extension ".css"
    then "text/css"
    else if is extension ".php"
    then "text/html"
    else if is extension ".txt"
    then "text/plain"
    else if is extension ".json"
    then "application/json"
    else if is extension ".xml"
    then "application/xml"
    else if is extension ".swf"
    then "application/x-shockwave-flash"
    else if is extension ".flv"
    then "video/x-flv"
    else if is extension ".png"
    then "image/png"
    else if is extension ".jpe"
    then "image/jpeg"
    else if is extension ".jpeg"
    then "image/jpeg"
    else if is extension ".jpg"
    then "image/jpeg"
    else if is extension ".gif"
    then "image/gif"
    else if is extension ".bmp"
    then "image/bmp"
    else if is extension ".ico"
    then "image/vnd.microsoft.icon"
    else if is extension ".tiff"
    then "image/tiff"
    else if is extension ".tif"
    then "image/tiff"
    else if is extension ".svg"
    then "image/svg+xml"
    else if is extension ".svgz"
    then "image/svg+xml"
    else "application/text"
