-- ===== src/HttpResponse/Construct.antt =====
-- src/HttpResponse.cpp: `construct`.
use frnetlib.Base.{not, ◌&&◌, [], ◌++◌, Bytes, codes, if◌then◌else◌, length}
use frnetlib.Base.Decimal.{to_string}
use frnetlib.Http.Fields.{Fields, look_up}
use frnetlib.Http.Kinds.{RequestVersion}
use frnetlib.Http.Write.{line_end, is_v1, header_lines, is_missing, default_line}
use frnetlib.HttpRequest.Parse.{is_empty}
use frnetlib.HttpResponse.{HttpResponse}

abbrev pub version_text : RequestVersion → Bytes
version_text v = if is_v1 v then codes "HTTP/1.0 " else codes "HTTP/1.1 "

unfoldable pub status_text : HttpResponse → Bytes
unfolding to_string
status_text q = version_text q.http.version ++ to_string q.http.status ++ codes " " ++ line_end

-- The length of the body, where there is a body and no header that gives it.
abbrev pub length_line : Bytes → Fields → Bytes
length_line body m =
    if is_missing (look_up (codes "content-length") m) && not (is_empty body)
    then codes "content-length: " ++ to_string (length body) ++ line_end
    else []

-- The header, without the empty line that ends it.
unfoldable pub header_text : HttpResponse → Bytes
header_text q =
    let m = q.http.header_data in
    status_text q
    ++ header_lines m
    ++ default_line (codes "connection") (codes "connection: keep-alive" ++ line_end) m
    ++ default_line (codes "content-type") (codes "content-type: text/html" ++ line_end) m
    ++ length_line q.http.body m

-- The host is not used.
unfoldable pub construct : Bytes → HttpResponse → Bytes
construct host q = header_text q ++ line_end ++ q.http.body
