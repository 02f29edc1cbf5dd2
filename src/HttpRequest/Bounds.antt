-- ===== src/HttpRequest/Bounds.antt =====
-- src/HttpRequest.cpp: what a request holds while it is parsed.
use frnetlib.Base.{
  ℕ, ◌+◌, ◌≤◌, ◌<◌, ◌≡◌, inl, inr, refl, sym, ◌∙◌, arith, Bool, true, false, not, ◌&&◌, ◌++◌,
  Option, none, some, Bytes, ltb, leb, if◌then◌else◌, length, Bool-cases,
}
use mathlib.Core.Path.{subst}
use frnetlib.Base.Text.{find, find-fits}
use frnetlib.Socket.{
  Status, success, not_enough_data, parse_error, http_body_too_big, http_header_too_big,
}
use frnetlib.Http.Fields.{Fields}
use frnetlib.Http.Kinds.{is_unknown, string_to_request_type}
use frnetlib.HttpRequest.{HttpRequest, with_body, parse_header, max_header_size, max_body_size}
use frnetlib.HttpRequest.Parse.{
  mark, crlf_crlf, lf_lf, read_post, same_place, parse_body, parse_post_body, header_end, is_empty,
  is_post, parse_marked, parse_ended, parse_start, parse,
}
use frnetlib.HttpRequest.Incremental.{parse_behind_header, parse_in_header}
use frnetlib.HttpRequest.Headers.{parse_header-ended}

-- What `parse` may return, and with which request.
pub data Returned : Status → HttpRequest → Type 0 where
  -- A whole body, as long as the header says at least, and within the bound.
  whole :
      {q : HttpRequest}
      → q.header_ended ≡ true
      → q.content_length ≤ length q.http.body
      → length q.http.body ≤ max_body_size
      → Returned success q
  -- A part of the body, with less than the header says.
  more_of_body :
      {q : HttpRequest}
      → q.header_ended ≡ true
      → length q.http.body < q.content_length
      → length q.http.body ≤ max_body_size
      → Returned not_enough_data q
  -- A part of the header, within the bound.
  more_of_header :
      {q : HttpRequest}
      → q.header_ended ≡ false
      → header_end q.http.body ≡ none
      → length q.http.body ≤ max_header_size
      → Returned not_enough_data q
  body_too_long :
      {q : HttpRequest}
      → q.header_ended ≡ true
      → max_body_size < length q.http.body
      → Returned http_body_too_big q
  header_too_long :
      {q : HttpRequest} → max_header_size < length q.http.body → Returned http_header_too_big q
  malformed : {q : HttpRequest} → Returned parse_error q

-- The variables of the body change nothing else of the request.
abbrev with_post : Fields → HttpRequest → HttpRequest
with_post m q = record q { http = record q.http { post_data = m } }

parse_post_body-post : (q : HttpRequest) → (m : Fields) × (parse_post_body q ≡ with_post m q)
unfolding parse_post_body
parse_post_body-post q = from _
  where
    at_end :
        (m : Fields) (b : Bool) → (n : Fields) × ((if b then q else with_post m q) ≡ with_post n q)
    at_end m true = (q.http.post_data, refl)
    at_end m false = (m, refl)

    from : (x : Option ℕ) → (m : Fields) × (read_post x q ≡ with_post m q)
    from none = (q.http.post_data, refl)
    from (some i) = at_end _ (same_place i _)

finished :
    (q : HttpRequest)
    → (m : Fields) × ((if is_post q.http.request_type then parse_post_body q else q)
        ≡ with_post m q)
finished q = elim (Bool-cases (is_post q.http.request_type)) [
  | inl h ↦ rw h (parse_post_body-post q)
  | inr h ↦ rw h (q.http.post_data, refl)
]

parse_body-Returned :
    (q : HttpRequest) → q.header_ended ≡ true → Returned (parse_body q).0 (parse_body q).1
unfolding parse_body
parse_body-Returned q h = elim (Bool-cases (ltb max_body_size (length q.http.body))) [
  | inl long ↦ rw long (body_too_long h (ground arith))
  | inr fits ↦ elim (Bool-cases (leb q.content_length (length q.http.body))) [
    | inl full ↦
        let (m, e) = finished q in rw (fits, full, e) (whole h (ground arith) (ground arith))
    | inr short ↦ rw (fits, short) (more_of_body h (ground arith) (ground arith))
  ]
]

-- A header that is cut off, with what is behind it.
parse_ended-Returned :
    (i n : ℕ) (q : HttpRequest)
    → q.header_ended ≡ true
    → i ≤ length q.http.body
    → Returned (parse_ended i n q).0 (parse_ended i n q).1
unfolding parse_ended
parse_ended-Returned i n q h fits = elim (Bool-cases (ltb max_header_size i)) [
  | inl long ↦ rw long (header_too_long (ground arith))
  | inr small ↦ elim (Bool-cases (parse_header i q).0) [
    | inl good ↦ rw (small, good) (parse_body-Returned _ (parse_header-ended i q ∙ h))
    | inr bad ↦ rw (small, bad) malformed
  ]
]

-- The place where a header ends is within the bytes.
header_end-fits : (s : Bytes) (i n : ℕ) → header_end s ≡ some (i, n) → i ≤ length s
unfolding header_end
header_end-fits s i n =
    by_places (find crlf_crlf s) (find lf_lf s) (find-fits crlf_crlf s) (find-fits lf_lf s)
  where
    by_places :
        (x y : Option ℕ)
        → ((j : ℕ) → x ≡ some j → j + 4 ≤ length s)
        → ((j : ℕ) → y ≡ some j → j + 2 ≤ length s)
        → mark x y ≡ some (i, n)
        → i ≤ length s
    by_places none none f g e = cc
    by_places none (some j) f g e = ground (arith, g j refl)
    by_places (some j) y f g e = ground (arith, f j refl)

parse_marked-Returned :
    (q : HttpRequest) (x : Option (ℕ × ℕ))
    → q.header_ended ≡ false
    → header_end q.http.body ≡ x
    → Returned (parse_marked x q).0 (parse_marked x q).1
parse_marked-Returned q none h e = elim (Bool-cases (ltb max_header_size (length q.http.body))) [
  | inl long ↦ rw long (header_too_long (ground arith))
  | inr small ↦ rw small (more_of_header h e (ground arith))
]
parse_marked-Returned q (some (i, n)) h e =
    parse_ended-Returned i n (record q { header_ended = true }) refl
      (header_end-fits q.http.body i n e)

parse_start-Returned :
    (q : HttpRequest) → q.header_ended ≡ false → Returned (parse_start q).0 (parse_start q).1
unfolding parse_start
parse_start-Returned q h =
    elim (Bool-cases
      (not (is_empty q.http.body) && is_unknown (string_to_request_type q.http.body))) [
        | inl bad ↦ rw bad malformed
        | inr good ↦ rw good (parse_marked-Returned q (header_end q.http.body) h refl)
      ]

-- Whatever bytes `parse` gets, in whatever state the request is: Success leaves a body that is as long as the header says
-- at least and within the bound; NotEnoughData a body within the bound that is shorter than that, or a header within its
-- bound whose end has not come; the two statuses for sizes come only where the bytes kept are above their bound; and the
-- only other status is ParseError.
pub parse-Returned :
    (bytes : Bytes) (q : HttpRequest) → Returned (parse bytes q).0 (parse bytes q).1
parse-Returned bytes q = elim (Bool-cases q.header_ended) [
  | inl h ↦
      subst (λ x. Returned x.0 x.1) (sym (parse_behind_header q bytes h))
        (parse_body-Returned (with_body (q.http.body ++ bytes) q) h)
  | inr h ↦
      subst (λ x. Returned x.0 x.1) (sym (parse_in_header q bytes h))
        (parse_start-Returned (with_body (q.http.body ++ bytes) q) h)
]
