-- ===== src/HttpResponse/Decode.antt =====
-- src/HttpResponse.cpp: `parse` on a body in chunks.
use frnetlib.Base.{
  suc, ◌+◌, ◌≤◌, ◌≡◌, ap, ◌∙◌, arith, true, List, [], ◌∷◌, ◌++◌, some, Bytes, All, length,
  length-append,
}
use frnetlib.Socket.{success}
use frnetlib.Http.Transfer.{returned}
use frnetlib.Http.Message.{has_chunked}
use frnetlib.HttpRequest.{max_body_size}
use frnetlib.HttpResponse.{HttpResponse, with_body}
use frnetlib.HttpResponse.Headers.{parse_behind_header, chunked_body}
use frnetlib.HttpResponse.Parse.{parse, with_chunks, crlf, read_chunks}
use frnetlib.HttpResponse.Chunks.{Chunk, IsChunk, framed, chunked, contents, read_chunks-chunked}

rounds :
    (cs : List Chunk) (last : Chunk) (rest : Bytes)
    → length cs + 4 ≤ length (chunked cs (framed last rest))
unfolding chunked
rounds [] last rest = omega (
  arith,
  length-append last.line (crlf ++ (last.data_bytes ++ (crlf ++ rest))),
  length-append last.data_bytes (crlf ++ rest),
)
rounds (c ∷ cs) last rest =
    let behind = chunked cs (framed last rest) in
    omega (
      arith,
      rounds cs last rest,
      length-append c.line (crlf ++ (c.data_bytes ++ (crlf ++ behind))),
      length-append c.data_bytes (crlf ++ behind),
    )

-- Bytes that arrive behind the header of a response with chunked encoding, in which all bytes so far have been read: if
-- they are chunks of a byte at least each and then one that has none, and all is within the bound on bodies, `parse`
-- succeeds, and appends to the body the data of the chunks in order, and then the bytes that follow the last chunk.
pub parse-chunked :
    (q : HttpResponse) (cs : List Chunk) (last : Chunk) (rest : Bytes)
    → q.header_ended ≡ true
    → has_chunked q.http.transfer_encodings ≡ true
    → q.chunk_offset ≡ length q.http.body
    → All (λ c. IsChunk c × (1 ≤ length c.data_bytes)) cs
    → IsChunk last
    → last.data_bytes ≡ []
    → length (q.http.body ++ chunked cs (framed last rest)) ≤ max_body_size
    → parse (chunked cs (framed last rest)) q
      ≡ some (
        returned success,
        with_body
            (q.http.body ++ (contents cs ++ rest))
            (record q { chunk_offset = length (q.http.body ++ contents cs) }),
      )
parse-chunked q cs last rest ended enc at_end all is empty bound =
    let bytes = chunked cs (framed last rest) in
    let s = q.http.body ++ bytes in
    parse_behind_header q bytes ended
    ∙ chunked_body (with_body s q) bound enc
    ∙ ap (λ i. with_chunks (read_chunks (suc (length s)) 1 s i) (with_body s q)) at_end
    ∙ ap (λ u. with_chunks u (with_body s q))
        (read_chunks-chunked (suc (length s)) 1 q.http.body cs last rest all is empty (omega arith)
          (omega (arith, rounds cs last rest, length-append q.http.body bytes)))
