-- ===== src/HttpResponse/Body.antt =====
-- src/HttpResponse.cpp: a body that arrives in pieces behind its header.
use frnetlib.Base.{
  ℕ, suc, ◌≤◌, ◌≡◌, inl, inr, refl, sym, ap, ◌∙◌, arith, ◌++◌, Option, none, some, Bytes, length,
  length-append, Bool-cases,
}
use mathlib.Core.Option.{some-injective}
use frnetlib.Socket.{not_enough_data}
use frnetlib.Http.Message.{has_chunked}
use frnetlib.Http.Transfer.{Outcome, returned}
use frnetlib.HttpRequest.{max_body_size}
use frnetlib.HttpResponse.{HttpResponse, with_body}
use frnetlib.HttpResponse.Parse.{Unchunked, with_chunks, parse_plain, returning, parse_body}
use frnetlib.HttpResponse.Loop.{read_chunks-ends, read_chunks-append, read_chunks-shorter}
use frnetlib.HttpResponse.Headers.{plain_body, chunked_body}

-- A call that asked for more data, and leaves `r`.
abbrev pub AsksMore : Option (Outcome × HttpResponse) → HttpResponse → Type 0
AsksMore x r = x ≡ some (returned not_enough_data, r)

plain_more : (q r : HttpResponse) → AsksMore (returning (parse_plain q)) r → r ≡ q
unfolding parse_plain
plain_more q r e = ground arith

-- The loop overwrites the body and the offset.
with_chunks-over :
    (x : Option Unchunked) (s t : Bytes) (o : ℕ) (q : HttpResponse)
    → with_chunks x (with_body s (record q { chunk_offset = o })) ≡ with_chunks x (with_body t q)
with_chunks-over none s t o q = refl
with_chunks-over (some u) s t o q = refl

-- A body that was short of its end goes on where it was.
pub parse_body-append :
    (q r : HttpResponse) (t : Bytes)
    → length (q.http.body ++ t) ≤ max_body_size
    → AsksMore (parse_body q) r
    → parse_body (with_body (r.http.body ++ t) r) ≡ parse_body (with_body (q.http.body ++ t) q)
parse_body-append q r t bound e = elim (Bool-cases (has_chunked q.http.transfer_encodings)) [
  | inr plain ↦
      let same = plain_more q r (sym (plain_body q small plain) ∙ e) in
      ap (λ x. parse_body (with_body (x.http.body ++ t) x)) same
  | inl chunks ↦
      let (u, ends) = read_chunks-ends (suc (length s)) 1 s q.chunk_offset (omega arith) in
      let e' : some (u.outcome, with_body u.rest (record q { chunk_offset = u.offset }))
          ≡ some (returned not_enough_data, r) =
        sym (chunked_body q small chunks ∙ ap (λ x. with_chunks x q) ends) ∙ e in
      let pair : (u.outcome, with_body u.rest (record q { chunk_offset = u.offset }))
          ≡ (returned not_enough_data, r) =
        some-injective _ _ e' in
      let left = read_chunks-shorter (suc (length s)) 1 s q.chunk_offset u ends in
      let short : length (u.rest ++ t) ≤ max_body_size =
        omega (arith, length-append u.rest t, length-append s t) in
      let on =
        read_chunks-append (suc (length s)) (suc (length (s ++ t))) (suc (length (u.rest ++ t))) 1 s
          t q.chunk_offset u (omega arith) bound (omega arith) (omega arith) (omega arith) ends
          (ap (λ x. x.0) pair) in
      ap (λ x. parse_body (with_body (x.1.http.body ++ t) x.1)) (sym pair)
      ∙ chunked_body (with_body (u.rest ++ t) (record q { chunk_offset = u.offset })) short chunks
      ∙ ap (λ x. with_chunks x (with_body (u.rest ++ t) (record q { chunk_offset = u.offset }))) on
      ∙ with_chunks-over _ (u.rest ++ t) (s ++ t) u.offset q
      ∙ sym (chunked_body (with_body (s ++ t) q) bound chunks)
]
  where
    s : Bytes
    s = q.http.body

    small : length s ≤ max_body_size
    small = omega (arith, length-append s t)

-- And its header has still ended.
pub parse_body-kept :
    (q r : HttpResponse)
    → length q.http.body ≤ max_body_size
    → AsksMore (parse_body q) r
    → r.header_ended ≡ q.header_ended
parse_body-kept q r small e = elim (Bool-cases (has_chunked q.http.transfer_encodings)) [
  | inr plain ↦ ap (λ x. x.header_ended) (plain_more q r (sym (plain_body q small plain) ∙ e))
  | inl chunks ↦
      let s = q.http.body in
      let (u, ends) = read_chunks-ends (suc (length s)) 1 s q.chunk_offset (omega arith) in
      let e' : some (u.outcome, with_body u.rest (record q { chunk_offset = u.offset }))
          ≡ some (returned not_enough_data, r) =
        sym (chunked_body q small chunks ∙ ap (λ x. with_chunks x q) ends) ∙ e in
      ap (λ x. x.1.header_ended) (sym (some-injective _ _ e'))
]
