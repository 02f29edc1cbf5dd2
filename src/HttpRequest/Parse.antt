-- ===== src/HttpRequest/Parse.antt =====
-- src/HttpRequest.cpp: `parse` and `parse_post_body`.
use frnetlib.Base.{
  ℕ, ◌+◌, Bool, true, false, not, ◌&&◌, ◌||◌, [], ◌∷◌, ◌++◌, Option, none, some, Bytes, ltb, leb,
  ◌==◌, if◌then◌else◌, length, drop,
}
use frnetlib.Base.Text.{find, rfind, find_first_not_of, substr, erase, minus}
use frnetlib.Socket.{
  Status, success, parse_error, http_header_too_big, http_body_too_big, not_enough_data,
}
use frnetlib.Http.Arguments.{parse_argument_list}
use frnetlib.Http.Fields.{Fields, put}
use frnetlib.Http.Kinds.{RequestType, post, is_unknown, string_to_request_type}
use frnetlib.HttpRequest.{HttpRequest, with_body, max_header_size, max_body_size, parse_header}

unfoldable pub add_post_vars : Fields → Fields → Fields
add_post_vars [] m = m
add_post_vars ((k, v) ∷ vars) m = add_post_vars vars (put k v m)

abbrev pub is_cr_or_lf : ℕ → Bool
is_cr_or_lf c = c == 13 || c == 10

abbrev pub is_lf : ℕ → Bool
is_lf c = c == 10

abbrev pub crlf_crlf : Bytes
crlf_crlf = 13 ∷ 10 ∷ 13 ∷ 10 ∷ []

abbrev pub lf_lf : Bytes
lf_lf = 10 ∷ 10 ∷ []

-- The first that is there.
abbrev pub first_of : Option ℕ → Option ℕ → Option ℕ
first_of (some i) y = some i
first_of none y = y

-- The bytes from `post_begin` up to `post_end`; to the end where that is `npos` or stands in front of the beginning.
abbrev pub post_text : ℕ → Option ℕ → Bytes → Bytes
post_text post_begin none body = drop post_begin body
post_text post_begin (some post_end) body = substr post_begin (minus post_end post_begin) body

abbrev pub same_place : ℕ → Option ℕ → Bool
same_place i none = false
same_place i (some j) = i == j

-- By the place where the text begins.
abbrev pub read_post : Option ℕ → HttpRequest → HttpRequest
read_post none q = q
read_post (some post_begin) q =
    let body = q.http.body in
    let post_end = first_of (rfind crlf_crlf body) (rfind lf_lf body) in
    let vars = parse_argument_list (post_text post_begin post_end body) in
    if same_place post_begin post_end
    then q
    else record q { http = record q.http { post_data = add_post_vars vars q.http.post_data } }

unfoldable pub parse_post_body : HttpRequest → HttpRequest
parse_post_body q =
    read_post
      (first_of (find_first_not_of is_cr_or_lf q.http.body) (find_first_not_of is_lf q.http.body)) q

abbrev pub is_post : RequestType → Bool
is_post post = true
is_post _ = false

-- Behind the header: the check of the size, and what is done with a whole body.
unfoldable pub parse_body : HttpRequest → Status × HttpRequest
parse_body q =
    if ltb max_body_size (length q.http.body)
    then (http_body_too_big, q)
    else if leb q.content_length (length q.http.body)
    then (success, if is_post q.http.request_type then parse_post_body q else q)
    else (not_enough_data, q)

-- The end of the header, with the size of the mark that ends it.
abbrev pub sized : ℕ → Option ℕ → Option (ℕ × ℕ)
sized n none = none
sized n (some i) = some (i, n)

abbrev pub mark : Option ℕ → Option ℕ → Option (ℕ × ℕ)
mark none lf = sized 2 lf
mark (some i) lf = some (i, 4)

unfoldable pub header_end : Bytes → Option (ℕ × ℕ)
header_end body = mark (find crlf_crlf body) (find lf_lf body)

-- What follows a header that ends at `i`, with a mark of `n` bytes.
unfoldable pub parse_ended : ℕ → ℕ → HttpRequest → Status × HttpRequest
parse_ended i n q =
    let r = parse_header i q in
    if ltb max_header_size i
    then (http_header_too_big, q)
    else if r.0
    then parse_body (with_body (erase 0 (i + n) r.1.http.body) r.1)
    else (parse_error, r.1)

abbrev pub is_empty : Bytes → Bool
is_empty [] = true
is_empty _ = false

abbrev pub parse_marked : Option (ℕ × ℕ) → HttpRequest → Status × HttpRequest
parse_marked none q =
    if ltb max_header_size (length q.http.body)
    then (http_header_too_big, q)
    else (not_enough_data, q)
parse_marked (some (i, n)) q = parse_ended i n (record q { header_ended = true })

-- As long as the header has not ended.
unfoldable pub parse_start : HttpRequest → Status × HttpRequest
parse_start q =
    let body = q.http.body in
    let looked = parse_marked (header_end body) q in
    if not (is_empty body) && is_unknown (string_to_request_type body)
    then (parse_error, q)
    else looked

unfoldable pub parse : Bytes → HttpRequest → Status × HttpRequest
parse request q =
    let more = with_body (q.http.body ++ request) q in
    let start = parse_start more in
    let rest = parse_body more in if q.header_ended then rest else start
