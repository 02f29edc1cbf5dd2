-- ===== src/HttpRequest/Construct.antt =====
-- src/HttpRequest.cpp: `construct`.
use frnetlib.Base.{◌+◌, not, [], ◌∷◌, ◌++◌, Bytes, codes, if◌then◌else◌, length}
use frnetlib.Base.Decimal.{to_string}
use frnetlib.Http.Fields.{Fields}
use frnetlib.Http.Kinds.{RequestVersion, RequestType, get, unknown, request_type_to_string}
use frnetlib.Http.Write.{line_end, is_v1, header_lines, default_line}
use frnetlib.HttpRequest.{HttpRequest}
use frnetlib.HttpRequest.Parse.{is_empty}

-- The variables of a query, with `&` between them.
unfoldable pub query : Fields → Bytes
query [] = []
query ((k, v) ∷ []) = k ++ codes "=" ++ v
query ((k, v) ∷ m) = k ++ codes "=" ++ v ++ codes "&" ++ query m

abbrev pub query_text : Fields → Bytes
query_text [] = []
query_text (x ∷ m) = codes "?" ++ query (x ∷ m)

abbrev pub type_sent : RequestType → RequestType
type_sent unknown = get
type_sent t = t

abbrev pub version_text : RequestVersion → Bytes
version_text v = if is_v1 v then codes " HTTP/1.0" else codes " HTTP/1.1"

unfoldable pub first_text : HttpRequest → Bytes
first_text q =
    request_type_to_string (type_sent q.http.request_type)
    ++ codes " "
    ++ q.http.uri
    ++ query_text q.http.get_data
    ++ version_text q.http.version
    ++ line_end

-- The variables of the body. The test for the last one compares with the end of another map, `get_data`; that is the end
-- of this one as well, for in the library's implementation the end of every such map is a null pointer.
unfoldable pub post_string : Fields → Bytes
unfolding query
post_string [] = []
post_string (x ∷ m) = query (x ∷ m) ++ line_end

abbrev pub length_line : Bytes → Bytes → Bytes
length_line body post =
    if not (is_empty body)
    then codes "Content-Length: " ++ to_string (length body + length post) ++ line_end
    else []

unfoldable pub construct : Bytes → HttpRequest → Bytes
construct host q =
    let m = q.http.header_data in
    let post = post_string q.http.post_data in
    first_text q
    ++ header_lines m
    ++ default_line (codes "connection") (codes "Connection: keep-alive" ++ line_end) m
    ++ default_line (codes "host") (codes "Host: " ++ host ++ line_end) m
    ++ length_line q.http.body post
    ++ line_end
    ++ post
    ++ q.http.body
