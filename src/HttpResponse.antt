-- ===== src/HttpResponse.antt =====
-- src/HttpResponse.cpp: a response that is parsed from the bytes that arrive, piece by piece, and built up to be sent:
-- its state, and how its header is read.
pub mod Parse
pub mod Loop
pub mod Headers
pub mod Chunks
pub mod Decode
pub mod Steps
pub mod Body
pub mod Incremental
pub mod Receive
pub mod Construct
pub mod FirstLine
pub mod Written
pub mod Sendable
pub mod RoundTrip
mod Tests
use frnetlib.Base.{
  ℕ, ◌+◌, ◌-◌, Bool, true, false, List, [], ◌∷◌, Option, none, some, Bytes, codes, if◌then◌else◌,
  take, drop,
}
use frnetlib.Base.Text.{find, find_from, substr, same_bytes}
use frnetlib.Base.Numbers.{stoull, stoi}
use frnetlib.Http.{split_string}
use frnetlib.Http.Fields.{look_up}
use frnetlib.Http.Kinds.{RequestVersion, v1, v1_1}
use frnetlib.Http.Message.{Http, new_http, parse_header_lines}

pub record HttpResponse : Type 0 where
  pub http : Http
  pub header_ended : Bool
  pub content_length : ℕ
  pub chunk_offset : ℕ

unfoldable pub new_response : HttpResponse
unfolding new_http
new_response = record {
  http = new_http;
  header_ended = false;
  content_length = 0;
  chunk_offset = 0;
}

-- A response with another body.
abbrev pub with_body : Bytes → HttpResponse → HttpResponse
with_body bs q = record q { http = record q.http { body = bs } }

-- The text from one place up to another, or to the end of the line.
abbrev pub up_to : ℕ → Option ℕ → Bytes → Bytes
up_to i none line = drop i line
up_to i (some j) line = substr i (j - i) line

abbrev pub with_version : Option ℕ → ℕ → Bytes → Option (ℕ × RequestVersion)
with_version none status_begin line = none
with_version (some status) status_begin line =
    some (status, if same_bytes (take status_begin line) (codes "HTTP/1.0") then v1 else v1_1)

-- The status behind the first space of the first line, as the word that stands for it, and the version in front.
abbrev pub status_line : Option ℕ → Bytes → Option (ℕ × RequestVersion)
status_line none line = none
status_line (some status_begin) line =
    with_version (stoi (up_to status_begin (find_from (b' ' ∷ []) (status_begin + 1) line) line))
      status_begin line

unfoldable pub first_line : Bytes → Option (ℕ × RequestVersion)
first_line line = status_line (find (b' ' ∷ []) line) line

abbrev pub store_number : Option ℕ → HttpResponse → Bool × HttpResponse
store_number none q = (false, q)
store_number (some n) q = (true, record q { content_length = n })

abbrev pub store_length : Option Bytes → HttpResponse → Bool × HttpResponse
store_length none q = (true, q)
store_length (some v) q = store_number (stoull 10 v) q

-- The headers behind the first line.
unfoldable pub parse_fields : List Bytes → Http → HttpResponse → Bool × HttpResponse
parse_fields lines h q =
    let read = parse_header_lines lines h in
    store_length (look_up (codes "content-length") read.header_data) (record q { http = read })

abbrev pub parse_behind :
    List Bytes → Option (ℕ × RequestVersion) → HttpResponse → Bool × HttpResponse
parse_behind lines none q = (false, q)
parse_behind lines (some (n, v)) q =
    parse_fields lines (record q.http { status = n; version = v }) q

abbrev pub parse_lines : List Bytes → HttpResponse → Bool × HttpResponse
parse_lines [] q = (false, q)
parse_lines (line ∷ lines) q = parse_behind lines (first_line line) q

unfoldable pub parse_header : ℕ → HttpResponse → Bool × HttpResponse
parse_header header_end_pos q =
    parse_lines (split_string (take header_end_pos q.http.body) 10 false) q
