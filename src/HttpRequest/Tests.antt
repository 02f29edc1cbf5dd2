-- ===== src/HttpRequest/Tests.antt =====
-- Runs of the theorems on a request that comes in two pieces.
use frnetlib.Base.{◌≡◌, inr, refl, ap, arith, false, [], ◌∷◌, ◌++◌, Bytes, codes, drop}
use frnetlib.Base.Text.{find}
use frnetlib.Base.Text.{to_lower, find_first_not_of}
use frnetlib.Base.Numbers.{stoull, skip_spaces, read_digits}
use frnetlib.Http.{split_string, split_from, set_uri}
use frnetlib.Http.Fields.{look_up, emplace}
use frnetlib.Http.Kinds.{string_to_request_type, type_from}
use frnetlib.Http.Message.{
  new_http, parse_header_lines, parse_header_line, header_parts, add_header, printable,
}
use frnetlib.Socket.{not_enough_data}
use frnetlib.TcpSocket.{TcpSocket, blocks, chunk}
use frnetlib.HttpRequest.{
  HttpRequest, new_request, parse_header, parse_header_text, parse_header_type, parse_header_uri,
  first_line, parse_fields,
}
use frnetlib.HttpRequest.Parse.{
  parse_start, parse_ended, parse_body, parse_post_body, parse, header_end, crlf_crlf,
}
use frnetlib.HttpRequest.Incremental.{CutWell, parse-append}
use frnetlib.HttpRequest.Bounds.{Returned, parse-Returned}

-- `h` of a body of two bytes, behind a whole header.
abbrev first_piece : Bytes
first_piece =
    codes "GET /a HTTP/1.1" ++ 13 ∷ 10 ∷ codes "content-length: 2" ++ crlf_crlf ++ codes "h"

abbrev second_piece : Bytes
second_piece = codes "i"

first_piece-CutWell : CutWell first_piece
unfolding find
first_piece-CutWell = inr (34, refl, omega arith)

abbrev halfway : HttpRequest
halfway = (parse first_piece new_request).1

first_piece-status : (parse first_piece new_request).0 ≡ not_enough_data
unfolding parse new_request new_http parse_start string_to_request_type type_from header_end find
    parse_ended parse_header parse_header_text split_string split_from parse_header_type
    parse_header_uri first_line parse_fields look_up parse_header_lines parse_header_line
    header_parts add_header emplace printable to_lower find_first_not_of stoull skip_spaces
    read_digits set_uri parse_body parse_post_body
first_piece-status = refl

first_piece_lem : parse first_piece new_request ≡ (not_enough_data, halfway)
first_piece_lem = ap (λ st. (st, halfway)) first_piece-status

parse-append_example : parse second_piece halfway ≡ parse (first_piece ++ second_piece) new_request
parse-append_example =
    unfold new_request in
    parse-append new_request halfway first_piece second_piece (inr first_piece-CutWell)
      first_piece_lem

parse-Returned_example :
    Returned (parse first_piece new_request).0 (parse first_piece new_request).1
parse-Returned_example = parse-Returned first_piece new_request

-- A socket on which the request comes in these two pieces, with a pause between them.
abbrev line : TcpSocket
line = record {
  is_blocking = false;
  arrivals = chunk b'G' (drop 1 first_piece) ∷ blocks ∷ chunk b'i' [] ∷ [];
  answers = [];
  outgoing = [];
}
