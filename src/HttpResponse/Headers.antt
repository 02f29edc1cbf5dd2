-- ===== src/HttpResponse/Headers.antt =====
-- src/HttpResponse.cpp: reading a header does not look at the body behind it, and the branches of `parse`.
use frnetlib.Base.{
  ℕ, ◌≤◌, ◌≡◌, refl, ap, ◌∙◌, Bool, true, false, List, [], ◌∷◌, ◌++◌, Option, none, some, Bytes,
  take, codes, ltb, length, suc, arith,
}
use frnetlib.Base.Numbers.{stoull}
use frnetlib.Http.{split_string}
use frnetlib.Http.Fields.{look_up}
use frnetlib.Http.Kinds.{RequestVersion}
use frnetlib.Http.Message.{has_chunked, Http, parse_header_lines}
use frnetlib.HttpRequest.{max_body_size}
use frnetlib.HttpRequest.Headers.{rebody, parse_header_lines-body}
use frnetlib.HttpResponse.{
  HttpResponse, with_body, first_line, store_number, store_length, parse_fields, parse_behind,
  parse_lines, parse_header,
}
use frnetlib.HttpResponse.Parse.{
  parse, parse_body, parse_start, parse_plain, returning, with_chunks, read_chunks,
}

-- A result with another body.
abbrev pub moved : Bytes → Bool × HttpResponse → Bool × HttpResponse
moved bs (b, q) = (b, with_body bs q)

store_length-body :
    (bs : Bytes) (x : Option Bytes) (q : HttpResponse)
    → store_length x (with_body bs q) ≡ moved bs (store_length x q)
store_length-body bs none q = refl
store_length-body bs (some v) q = by_number (stoull 10 v)
  where
    by_number : (x : Option ℕ) → store_number x (with_body bs q) ≡ moved bs (store_number x q)
    by_number none = refl
    by_number (some n) = refl

parse_fields-body :
    (bs : Bytes) (lines : List Bytes) (h : Http) (q : HttpResponse)
    → parse_fields lines (rebody bs h) (with_body bs q) ≡ moved bs (parse_fields lines h q)
unfolding parse_fields
parse_fields-body bs lines h q =
    ap (λ x. store_length (look_up (codes "content-length") x.header_data) (record q { http = x }))
      (parse_header_lines-body bs lines h)
    ∙ store_length-body bs
        (look_up (codes "content-length") (parse_header_lines lines h).header_data)
        (record q { http = parse_header_lines lines h })

parse_lines-body :
    (bs : Bytes) (lines : List Bytes) (q : HttpResponse)
    → parse_lines lines (with_body bs q) ≡ moved bs (parse_lines lines q)
parse_lines-body bs [] q = refl
parse_lines-body bs (line ∷ lines) q = by_line (first_line line)
  where
    by_line :
        (x : Option (ℕ × RequestVersion))
        → parse_behind lines x (with_body bs q) ≡ moved bs (parse_behind lines x q)
    by_line none = refl
    by_line (some (n, v)) = parse_fields-body bs lines _ q

-- The header is read the same whatever the body is, as long as its text is.
pub parse_header-body :
    (i : ℕ) (bs : Bytes) (q : HttpResponse)
    → take i bs ≡ take i q.http.body
    → parse_header i (with_body bs q) ≡ moved bs (parse_header i q)
unfolding parse_header
parse_header-body i bs q e =
    ap (λ t. parse_lines (split_string t 10 false) (with_body bs q)) e
    ∙ parse_lines-body bs (split_string (take i q.http.body) 10 false) q

-- The state of the header's end is not touched by it.
pub parse_header-ended :
    (i : ℕ) (q : HttpResponse) → (parse_header i q).1.header_ended ≡ q.header_ended
unfolding parse_header parse_fields
parse_header-ended i q = of_lines (split_string (take i q.http.body) 10 false)
  where
    of_number :
        (x : Option ℕ) (r : HttpResponse) → (store_number x r).1.header_ended ≡ r.header_ended
    of_number none r = refl
    of_number (some n) r = refl

    of_length :
        (x : Option Bytes) (r : HttpResponse) → (store_length x r).1.header_ended ≡ r.header_ended
    of_length none r = refl
    of_length (some v) r = of_number (stoull 10 v) r

    of_behind :
        (lines : List Bytes) (x : Option (ℕ × RequestVersion))
        → (parse_behind lines x q).1.header_ended ≡ q.header_ended
    of_behind lines none = refl
    of_behind lines (some (n, v)) = of_length _ _

    of_lines : (lines : List Bytes) → (parse_lines lines q).1.header_ended ≡ q.header_ended
    of_lines [] = refl
    of_lines (line ∷ lines) = of_behind lines _

-- The branches of `parse`.
module _ (q : HttpResponse) (a : Bytes) where
  abbrev pub more : HttpResponse
  more = with_body (q.http.body ++ a) q

  pub parse_behind_header : q.header_ended ≡ true → parse a q ≡ parse_body more
  unfolding parse
  parse_behind_header h = rw h

  pub parse_in_header : q.header_ended ≡ false → parse a q ≡ parse_start more
  unfolding parse
  parse_in_header h = rw h

-- The branches behind the header.
pub plain_body :
    (q : HttpResponse)
    → length q.http.body ≤ max_body_size
    → has_chunked q.http.transfer_encodings ≡ false
    → parse_body q ≡ returning (parse_plain q)
unfolding parse_body
plain_body q h k =
    let small : ltb max_body_size (length q.http.body) ≡ false = ground arith in rw (small, k)

pub chunked_body :
    (q : HttpResponse)
    → length q.http.body ≤ max_body_size
    → has_chunked q.http.transfer_encodings ≡ true
    → parse_body q
      ≡ with_chunks (read_chunks (suc (length q.http.body)) 1 q.http.body q.chunk_offset) q
unfolding parse_body
chunked_body q h k =
    let small : ltb max_body_size (length q.http.body) ≡ false = ground arith in rw (small, k)
