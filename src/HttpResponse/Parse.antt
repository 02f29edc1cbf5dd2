-- ===== src/HttpResponse/Parse.antt =====
-- src/HttpResponse.cpp: `parse`, with the loop over the chunks of a body.
use frnetlib.Base.{
  ℕ, zero, suc, ◌+◌, ◌-◌, ◌%◌, ◌^◌, Bool, true, not, ◌&&◌, ◌∷◌, [], ◌++◌, Option, none, some, Bytes,
  codes, ltb, leb, ◌==◌, if◌then◌else◌, length, take,
}
use frnetlib.Base.Text.{find_from, substr, erase, same_bytes}
use frnetlib.Base.Numbers.{stoull}
use frnetlib.Socket.{
  Status, success, parse_error, http_header_too_big, http_body_too_big, not_enough_data,
}
use frnetlib.Http.Message.{has_chunked}
use frnetlib.Http.Transfer.{Outcome, returned, thrown}
use frnetlib.HttpRequest.{max_header_size, max_body_size}
use frnetlib.HttpRequest.Parse.{header_end}
use frnetlib.HttpResponse.{HttpResponse, with_body, parse_header}

abbrev pub crlf : Bytes
crlf = 13 ∷ 10 ∷ []

-- One round of the loop on a body and the offset in it: how it leaves the function, or the length of the chunk, the body
-- and the offset for the next round.
pub data Round : Type 0 where
  left : Outcome → Round
  went_on : ℕ → Bytes → ℕ → Round

-- `std::string::erase` throws for a place behind the end.
abbrev pub erase_chunk : ℕ → ℕ → ℕ → Bytes → Round
erase_chunk length_end chunk_len chunk_offset body =
    let hex_size = length_end - chunk_offset in
    let pos = chunk_offset + hex_size + chunk_len + 2 in
    if ltb (length body) pos
    then left thrown
    else went_on chunk_len (erase chunk_offset (hex_size + 2) (erase pos 2 body))
        (chunk_offset + chunk_len)

-- With the length of the chunk, where its digits make one; `chunk_len + 4` is computed in the 32 bits of
-- `unsigned int`.
abbrev pub sized_chunk : ℕ → Option ℕ → ℕ → Bytes → Round
sized_chunk length_end none chunk_offset body = left thrown
sized_chunk length_end (some n) chunk_offset body =
    let chunk_len = n % 2 ^ 32 in
    if ltb (length body - length_end) ((chunk_len + 4) % 2 ^ 32)
    then left (returned not_enough_data)
    else erase_chunk length_end chunk_len chunk_offset body

abbrev pub ended_chunk : Option ℕ → ℕ → Bytes → Round
ended_chunk none chunk_offset body = left (returned not_enough_data)
ended_chunk (some length_end) chunk_offset body =
    sized_chunk length_end (stoull 16 (substr chunk_offset (length_end - chunk_offset) body))
      chunk_offset body

unfoldable pub read_chunk : ℕ → Bytes → Round
read_chunk chunk_offset body = ended_chunk (find_from crlf chunk_offset body) chunk_offset body

-- What the loop leaves: the outcome of the function, the body and the offset.
pub record Unchunked : Type 0 where
  pub outcome : Outcome
  pub rest : Bytes
  pub offset : ℕ

-- Behind the loop.
abbrev pub loop_ended : ℕ → Bytes → ℕ → Unchunked
loop_ended chunk_len body chunk_offset = record {
  outcome = returned (if chunk_len == 0 then success else not_enough_data);
  rest = body;
  offset = chunk_offset;
}

-- How the function goes on after a round.
abbrev pub after_round : (ℕ → Bytes → ℕ → Option Unchunked) → Bytes → ℕ → Round → Option Unchunked
after_round again body chunk_offset (left o) =
    some (record { outcome = o; rest = body; offset = chunk_offset })
after_round again body chunk_offset (went_on chunk_len body' offset') =
    again chunk_len body' offset'

-- The loop, on fuel.
unfoldable pub read_chunks : ℕ → ℕ → Bytes → ℕ → Option Unchunked
read_chunks zero chunk_len body chunk_offset = none
read_chunks (suc fuel) chunk_len body chunk_offset =
    let next = after_round (read_chunks fuel) body chunk_offset (read_chunk chunk_offset body) in
    if ltb 0 chunk_len && ltb chunk_offset (length body)
    then next
    else some (loop_ended chunk_len body chunk_offset)

abbrev pub with_chunks : Option Unchunked → HttpResponse → Option (Outcome × HttpResponse)
with_chunks none q = none
with_chunks (some u) q = some (u.outcome, with_body u.rest (record q { chunk_offset = u.offset }))

-- A body that comes whole: it is cut at its length, where one is given.
unfoldable pub parse_plain : HttpResponse → Status × HttpResponse
parse_plain q =
    let body = q.http.body in
    if ltb 0 q.content_length && ltb q.content_length (length body)
    then (success, with_body (take q.content_length body) q)
    else if ltb (length body) q.content_length
    then (not_enough_data, q)
    else (success, q)

abbrev pub returning : Status × HttpResponse → Option (Outcome × HttpResponse)
returning (st, q) = some (returned st, q)

-- Behind the header. The loop gets fuel for every byte of the body.
unfoldable pub parse_body : HttpResponse → Option (Outcome × HttpResponse)
parse_body q =
    let body = q.http.body in
    if ltb max_body_size (length body)
    then returning (http_body_too_big, q)
    else if has_chunked q.http.transfer_encodings
    then with_chunks (read_chunks (suc (length body)) 1 body q.chunk_offset) q
    else returning (parse_plain q)

-- What follows a header that ends at `i`, with a mark of `n` bytes.
unfoldable pub parse_ended : ℕ → ℕ → HttpResponse → Option (Outcome × HttpResponse)
parse_ended i n q =
    let r = parse_header i q in
    if ltb max_header_size i
    then returning (http_header_too_big, q)
    else if r.0
    then parse_body (with_body (erase 0 (i + n) r.1.http.body) r.1)
    else returning (parse_error, r.1)

abbrev pub parse_marked : Option (ℕ × ℕ) → HttpResponse → Option (Outcome × HttpResponse)
parse_marked none q =
    if ltb max_header_size (length q.http.body)
    then returning (http_header_too_big, q)
    else returning (not_enough_data, q)
parse_marked (some (i, n)) q = parse_ended i n (record q { header_ended = true })

abbrev pub is_other : Bytes → Bool
is_other body = leb 4 (length body) && not (same_bytes (take 4 body) (codes "HTTP"))

-- As long as the header has not ended.
unfoldable pub parse_start : HttpResponse → Option (Outcome × HttpResponse)
parse_start q =
    let looked = parse_marked (header_end q.http.body) q in
    if is_other q.http.body then returning (parse_error, q) else looked

unfoldable pub parse : Bytes → HttpResponse → Option (Outcome × HttpResponse)
parse response_data q =
    let more = with_body (q.http.body ++ response_data) q in
    if q.header_ended then parse_body more else parse_start more
