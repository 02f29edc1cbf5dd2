-- ===== src/HttpResponse/Tests.antt =====
-- Runs of the theorems on a response in chunks, which comes in two pieces.
mod Sending
use frnetlib.Base.{
  ◌≡◌, inr, refl, arith, Bool, true, false, [], ◌∷◌, ◌++◌, Option, none, some, Bytes, codes, drop,
}
use frnetlib.Base.Text.{find, to_lower, find_first_not_of, find_from}
use frnetlib.Base.Numbers.{stoull, stoi, skip_spaces, read_digits}
use frnetlib.Socket.{success, not_enough_data}
use frnetlib.TcpSocket.{TcpSocket, blocks, chunk}
use frnetlib.Http.{split_string, split_from}
use frnetlib.Http.Fields.{look_up, emplace}
use frnetlib.Http.Kinds.{TransferEncoding, string_to_transfer_encoding}
use frnetlib.Http.Message.{
  new_http, parse_header_lines, parse_header_line, header_parts, add_header, add_encodings,
  printable,
}
use frnetlib.Http.Transfer.{Outcome, returned, thrown}
use frnetlib.HttpRequest.Parse.{header_end}
use frnetlib.HttpResponse.{
  HttpResponse, with_body, new_response, first_line, parse_fields, parse_header,
}
use frnetlib.HttpResponse.Parse.{
  parse, parse_start, parse_ended, parse_body, read_chunks, read_chunk, crlf,
}
use frnetlib.HttpResponse.Chunks.{Chunk, IsChunk, framed, contents}
use frnetlib.HttpResponse.Chunks
use frnetlib.HttpResponse.Decode.{parse-chunked}
use frnetlib.HttpResponse.Incremental.{CutWell, parse-append_response}
use frnetlib.HttpResponse.Receive.{Ends, parse-Ends}

abbrev header : Bytes
header = codes "HTTP/1.1 200 OK" ++ crlf ++ codes "transfer-encoding: chunked" ++ crlf ++ crlf

-- A chunk of three bytes and a part of one of ten.
abbrev first_piece : Bytes
first_piece = header ++ codes "3" ++ crlf ++ codes "abc" ++ crlf ++ codes "a" ++ crlf ++ codes "01"

abbrev second_piece : Bytes
second_piece = codes "23456789" ++ crlf ++ codes "0" ++ crlf ++ crlf

abbrev from_some : Option (Outcome × HttpResponse) → Outcome × HttpResponse
from_some none = (thrown, new_response)
from_some (some r) = r

abbrev halfway : HttpResponse
halfway = (from_some (parse first_piece new_response)).1

abbrev asks_more : Option (Outcome × HttpResponse) → Bool
asks_more (some (returned not_enough_data, q)) = true
asks_more _ = false

asks_more→more :
    (x : Option (Outcome × HttpResponse))
    → asks_more x ≡ true
    → x ≡ some (returned not_enough_data, (from_some x).1)
asks_more→more none h = cc
asks_more→more (some (thrown, q)) h = cc
asks_more→more (some (returned not_enough_data, q)) h = refl
asks_more→more (some (returned _, q)) h = cc

first_piece-asks : asks_more (parse first_piece new_response) ≡ true
unfolding parse new_response new_http parse_start header_end find find_from parse_ended parse_header
    split_string split_from first_line stoi skip_spaces read_digits parse_fields look_up
    parse_header_lines parse_header_line header_parts add_header add_encodings
    string_to_transfer_encoding emplace printable to_lower find_first_not_of stoull parse_body
    read_chunks read_chunk
first_piece-asks = refl

first_piece-CutWell : CutWell first_piece
unfolding find
first_piece-CutWell = inr (43, refl)

parse-append_response_example :
    parse second_piece halfway ≡ parse (first_piece ++ second_piece) new_response
unfolding new_response new_http
parse-append_response_example =
    parse-append_response new_response halfway first_piece second_piece (inr first_piece-CutWell)
      (omega arith) (asks_more→more (parse first_piece new_response) first_piece-asks)

parse-Ends_example : Ends (parse first_piece new_response)
parse-Ends_example = parse-Ends first_piece new_response

-- A socket on which the response comes in these two pieces, with a pause between them.
abbrev line : TcpSocket
line = record {
  is_blocking = false;
  arrivals = chunk b'H' (drop 1 first_piece) ∷ blocks ∷ chunk b'2' (drop 1 second_piece) ∷ [];
  answers = [];
  outgoing = [];
}

-- A response whose header has been read.
abbrev behind_header : HttpResponse
behind_header = record {
  http = record new_http { transfer_encodings = TransferEncoding.chunked ∷ [] };
  header_ended = true;
  content_length = 0;
  chunk_offset = 0;
}

abbrev three : Chunk
three = record { line = codes "3;x=y"; data_bytes = codes "abc" }

abbrev empty : Chunk
empty = record { line = codes "0"; data_bytes = [] }

three-IsChunk : IsChunk three
unfolding find stoull skip_spaces read_digits
three-IsChunk = record { one_line = refl; spelled = refl; short = omega arith }

empty-IsChunk : IsChunk empty
unfolding find stoull skip_spaces read_digits
empty-IsChunk = record { one_line = refl; spelled = refl; short = omega arith }

parse-chunked_example :
    parse (Chunks.chunked (three ∷ three ∷ []) (framed empty (codes "z"))) behind_header
    ≡ some
        (returned success, with_body (codes "abcabcz") (record behind_header { chunk_offset = 6 }))
unfolding new_http contents Chunks.chunked
parse-chunked_example =
    parse-chunked behind_header (three ∷ three ∷ []) empty (codes "z") refl refl refl
      ((three-IsChunk, omega arith), ((three-IsChunk, omega arith), tt)) empty-IsChunk refl
      (omega arith)
