-- ===== src/HttpRequest.antt =====
-- src/HttpRequest.cpp: a request that is parsed from the bytes that arrive, piece by piece, and built up to be sent. The
-- sizes allowed are the defaults of CMakeLists.txt.
pub mod Parse
pub mod Headers
pub mod Front
pub mod Incremental
pub mod Cuts
pub mod Receive
pub mod Bounds
pub mod Construct
mod Tests
use frnetlib.Base.{
  ℕ, ◌+◌, ◌-◌, Bool, true, false, not, ◌&&◌, ◌||◌, List, [], ◌∷◌, ◌++◌, Option, none, some, Bytes,
  codes, ltb, leb, ◌==◌, if◌then◌else◌, length, take, drop,
}
use frnetlib.Base.Text.{find, rfind, find_first_not_of, substr, erase, minus, same_bytes, to_lower}
use frnetlib.Base.Numbers.{stoull}
use frnetlib.Socket.{
  Status, success, parse_error, http_header_too_big, http_body_too_big, not_enough_data,
}
use frnetlib.Http.{split_string, set_uri}
use frnetlib.Http.Arguments.{parse_argument_list}
use frnetlib.Http.Fields.{Fields, look_up, emplace, put}
use frnetlib.Http.Kinds.{
  RequestVersion, v1, v1_1, RequestType, get, post, unknown, is_invalid, is_unknown,
  string_to_request_type, request_type_to_string,
}
use frnetlib.Http.Message.{Http, new_http, parse_header_lines}

abbrev pub max_header_size : ℕ
max_header_size = 0xC800

abbrev pub max_body_size : ℕ
max_body_size = 0xA00000

pub record HttpRequest : Type 0 where
  pub http : Http
  pub header_ended : Bool
  pub content_length : ℕ

unfoldable pub new_request : HttpRequest
unfolding new_http
new_request = record { http = new_http; header_ended = false; content_length = 0 }

-- A request with another body.
abbrev pub with_body : Bytes → HttpRequest → HttpRequest
with_body bs q = record q { http = record q.http { body = bs } }

unfoldable pub parse_header_type : Bytes → RequestType
parse_header_type str = elim (find (b' ' ∷ []) str) [
  | none ↦ unknown
  | some type_end ↦ string_to_request_type (take type_end str)
]

unfoldable pub add_get_vars : Fields → Fields → Fields
add_get_vars [] m = m
add_get_vars ((k, v) ∷ vars) m = add_get_vars vars (emplace (to_lower k) v m)

abbrev pub version_at : ℕ → Bytes → RequestVersion
version_at i str = if same_bytes (substr i 8 str) (codes "HTTP/1.0") then v1 else v1_1

-- What the first line holds: the path, the text of the GET variables where there are any, and the version.
pub record FirstLine : Type 0 where
  pub path : Bytes
  pub get_vars : Option Bytes
  pub line_version : RequestVersion

-- The places of the path and of `HTTP`, by the place of the question mark. `uri_end` is decremented, and wraps where the
-- line begins with `HTTP`.
abbrev pub cut_line : ℕ → ℕ → Option ℕ → Bytes → FirstLine
cut_line uri_begin http_pos none str = record {
  path = substr uri_begin (minus (minus http_pos 1) uri_begin) str;
  get_vars = none;
  line_version = version_at http_pos str;
}
cut_line uri_begin http_pos (some get_begin) str = record {
  path = substr uri_begin (minus get_begin uri_begin) str;
  get_vars = some (substr get_begin (minus (minus http_pos 1) get_begin) str);
  line_version = version_at http_pos str;
}

-- None is the exception.
unfoldable pub first_line : Bytes → Option FirstLine
first_line str = elim (find (b'/' ∷ []) str) [
  | none ↦ none
  | some uri_begin ↦ elim (find (codes "HTTP") str) [
    | none ↦ none
    | some http_pos ↦ some (cut_line uri_begin http_pos (find (b'?' ∷ []) str) str)
  ]
]

abbrev pub add_query : Option Bytes → Fields → Fields
add_query none m = m
add_query (some text) m = add_get_vars (parse_argument_list text) m

abbrev pub apply_line : Option FirstLine → Http → Option Http
apply_line none h = none
apply_line (some l) h = some (record h {
  get_data = add_query l.get_vars h.get_data;
  uri = set_uri h.uri l.path;
  version = l.line_version;
})

unfoldable pub parse_header_uri : Bytes → Http → Option Http
parse_header_uri str h = apply_line (first_line str) h

-- The length of the body, where a header gives one; the number may be none that `std::stoull` takes.
abbrev pub store_number : Option ℕ → HttpRequest → Bool × HttpRequest
store_number none q = (false, q)
store_number (some n) q = (true, record q { content_length = n })

abbrev pub store_length : Option Bytes → HttpRequest → Bool × HttpRequest
store_length none q = (true, q)
store_length (some v) q = store_number (stoull 10 v) q

-- The headers behind the first line.
unfoldable pub parse_fields : List Bytes → Http → HttpRequest → Bool × HttpRequest
parse_fields lines h q =
    let read = parse_header_lines lines h in
    store_length (look_up (codes "content-length") read.header_data) (record q { http = read })

abbrev pub parse_behind : List Bytes → Option Http → HttpRequest → Bool × HttpRequest
parse_behind lines none q = (false, q)
parse_behind lines (some h) q = parse_fields lines h q

abbrev pub parse_lines : List Bytes → HttpRequest → Bool × HttpRequest
parse_lines [] q = (true, q)
parse_lines (line ∷ lines) q =
    let h = record q.http { request_type = parse_header_type line } in
    let typed : HttpRequest = record q { http = h } in
    let more = parse_behind lines (parse_header_uri line h) typed in
    if is_invalid h.request_type then (false, typed) else more

-- The text of the header, in its lines.
unfoldable pub parse_header_text : Bytes → HttpRequest → Bool × HttpRequest
parse_header_text text q = parse_lines (split_string text 10 false) q

unfoldable pub parse_header : ℕ → HttpRequest → Bool × HttpRequest
unfolding parse_header_text
parse_header header_end_pos q = parse_header_text (take header_end_pos q.http.body) q
