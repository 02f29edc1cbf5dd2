-- ===== src/HttpRequest/Incremental.antt =====
-- src/HttpRequest.cpp: `parse` on a request that arrives in pieces.
use frnetlib.Base.{
  ℕ, ◌+◌, ◌≤◌, ◌≡◌, ◌⊎◌, inl, inr, refl, sym, ap, ◌∙◌, arith, true, false, not, ◌&&◌, [], ◌∷◌, ◌++◌,
  none, some, Bytes, ltb, length, take-append_le, drop-append_le, append_assoc, Bool-cases,
}
use frnetlib.Base.Text.{find, find-append, find-fits, erase}
use frnetlib.Socket.{Status, not_enough_data}
use frnetlib.Http.Kinds.{string_to_request_type, is_unknown}
use frnetlib.HttpRequest.{HttpRequest, with_body, parse_header, max_header_size}
use frnetlib.HttpRequest.Parse.{
  parse_body, header_end, mark, is_empty, parse_marked, parse_ended, parse_start, parse, crlf_crlf,
  lf_lf,
}
use frnetlib.HttpRequest.Headers.{moved, parse_header-body, parse_header-ended}
use frnetlib.HttpRequest.Front.{string_to_request_type-append}

-- A body that is not whole asks for more, and is left as it is.
parse_body-more : (q q' : HttpRequest) → parse_body q ≡ (not_enough_data, q') → q' ≡ q
unfolding parse_body
parse_body-more q q' e = ground arith

-- Where a header ends with two pairs of CR and LF, it ends there too when more bytes follow.
pub header_end-append :
    (s t : Bytes) (i : ℕ) → find crlf_crlf s ≡ some i → header_end (s ++ t) ≡ some (i, 4)
unfolding header_end
header_end-append s t i e = ap (λ x. mark x (find lf_lf (s ++ t))) (find-append crlf_crlf s t i e)

-- How the bytes of a header may be cut: a piece ends in front of the end of the header, or the header has ended with two
-- pairs of CR and LF, behind six bytes at least.
abbrev pub CutWell : Bytes → Type 0
CutWell s = (header_end s ≡ none) ⊎ ((i : ℕ) × (find crlf_crlf s ≡ some i) × (6 ≤ length s))

-- The branches of `parse`, by the tests that lead to them.
module _ (q : HttpRequest) (a : Bytes) where
  abbrev pub more : HttpRequest
  more = with_body (q.http.body ++ a) q

  pub parse_behind_header : q.header_ended ≡ true → parse a q ≡ parse_body more
  unfolding parse
  parse_behind_header h = rw h

  pub parse_in_header : q.header_ended ≡ false → parse a q ≡ parse_start more
  unfolding parse
  parse_in_header h = rw h

start_refused :
    (q r : HttpRequest) (st : Status)
    → parse_start q ≡ (not_enough_data, r)
    → (not (is_empty q.http.body) && is_unknown (string_to_request_type q.http.body)) ≡ false
unfolding parse_start
start_refused q r st e = ground arith

start_known :
    (q : HttpRequest)
    → (not (is_empty q.http.body) && is_unknown (string_to_request_type q.http.body)) ≡ false
    → parse_start q ≡ parse_marked (header_end q.http.body) q
unfolding parse_start
start_known q h = rw h

-- Where the header has not ended yet, a request for more leaves the request as it is.
unmarked_more : (q r : HttpRequest) → parse_marked none q ≡ (not_enough_data, r) → r ≡ q
unmarked_more q r e = ground arith

-- Where it has, the header was read without fault, and what is behind it is short of the body.
ended_more :
    (i n : ℕ) (q r : HttpRequest)
    → parse_ended i n q ≡ (not_enough_data, r)
    → (ltb max_header_size i ≡ false)
      × ((parse_header i q).0 ≡ true)
      × (parse_body
            (with_body (erase 0 (i + n) (parse_header i q).1.http.body) (parse_header i q).1)
          ≡ (not_enough_data, r))
unfolding parse_ended
ended_more i n q r e = ground arith

ended_read :
    (i n : ℕ) (q : HttpRequest)
    → ltb max_header_size i ≡ false
    → (parse_header i q).0 ≡ true
    → parse_ended i n q
      ≡ parse_body (with_body (erase 0 (i + n) (parse_header i q).1.http.body) (parse_header i q).1)
unfolding parse_ended
ended_read i n q h k = rw (h, k)

-- The three cases of a request for more data.
after_header :
    (q q' : HttpRequest) (a b : Bytes)
    → q.header_ended ≡ true
    → parse a q ≡ (not_enough_data, q')
    → parse b q' ≡ parse (a ++ b) q
after_header q q' a b h e =
    let same : q' ≡ more q a =
      parse_body-more (more q a) q' (sym (parse_behind_header q a h) ∙ e) in
    ap (parse b) same
    ∙ parse_behind_header (more q a) b h
    ∙ ap (λ t. parse_body (with_body t q)) (append_assoc q.http.body a b)
    ∙ sym (parse_behind_header q (a ++ b) h)

inside_header :
    (q q' : HttpRequest) (a b : Bytes)
    → q.header_ended ≡ false
    → header_end (q.http.body ++ a) ≡ none
    → parse a q ≡ (not_enough_data, q')
    → parse b q' ≡ parse (a ++ b) q
inside_header q q' a b h w e =
    let start = sym (parse_in_header q a h) ∙ e in
    let known = start_refused (more q a) q' not_enough_data start in
    let same : q' ≡ more q a =
      unmarked_more (more q a) q' (
        ap (λ x. parse_marked x (more q a)) (sym w) ∙ sym (start_known (more q a) known) ∙ start) in
    ap (parse b) same
    ∙ parse_in_header (more q a) b h
    ∙ ap (λ t. parse_start (with_body t q)) (append_assoc q.http.body a b)
    ∙ sym (parse_in_header q (a ++ b) h)

-- The request whose header is read.
abbrev marked : HttpRequest → HttpRequest
marked q = record q { header_ended = true }

known_longer :
    (s t : Bytes)
    → 6 ≤ length s
    → (not (is_empty s) && is_unknown (string_to_request_type s)) ≡ false
    → (not (is_empty (s ++ t)) && is_unknown (string_to_request_type (s ++ t))) ≡ false
known_longer [] t h k = absurd (omega arith)
known_longer (c ∷ cs) t h k = ap is_unknown (string_to_request_type-append (c ∷ cs) t h) ∙ k

-- The header ends within `s`, and is read from more bytes.
header_of_more :
    (i : ℕ) (s t : Bytes) (q : HttpRequest)
    → i ≤ length s
    → parse_header i (marked (with_body (s ++ t) q))
      ≡ moved (s ++ t) (parse_header i (marked (with_body s q)))
header_of_more i s t q h =
    parse_header-body i (s ++ t) (marked (with_body s q)) (take-append_le i s t h)

body_kept :
    (i : ℕ) (s : Bytes) (q : HttpRequest)
    → (parse_header i (marked (with_body s q))).1.http.body ≡ s
body_kept i s q = ap (λ x. x.1.http.body) (parse_header-body i s (marked (with_body s q)) refl)

behind_header :
    (q q' : HttpRequest) (a b : Bytes) (i : ℕ)
    → q.header_ended ≡ false
    → find crlf_crlf (q.http.body ++ a) ≡ some i
    → 6 ≤ length (q.http.body ++ a)
    → parse a q ≡ (not_enough_data, q')
    → parse b q' ≡ parse (a ++ b) q
behind_header q q' a b i h w six e =
    let s = q.http.body ++ a in
    let fits : i + 4 ≤ length s = find-fits crlf_crlf s i w in
    let start = sym (parse_in_header q a h) ∙ e in
    let known = start_refused (more q a) q' not_enough_data start in
    let end : header_end s ≡ some (i, 4) = unfold header_end in ap (λ x. mark x (find lf_lf s)) w in
    let (small, good, rest) = ended_more i 4 (marked (more q a)) q' (
      ap (λ x. parse_marked x (more q a)) (sym end) ∙ sym (start_known (more q a) known) ∙ start) in
    let r = (parse_header i (marked (more q a))).1 in
    let left = erase 0 (i + 4) s in
    let same : q' ≡ with_body left r =
      parse_body-more _ q' rest ∙ ap (λ t. with_body (erase 0 (i + 4) t) r) (body_kept i s q) in
    let end' : header_end (s ++ b) ≡ some (i, 4) = header_end-append s b i w in
    let read = header_of_more i s b q (omega arith) in
    ap (parse b) same
    ∙ parse_behind_header (with_body left r) b (parse_header-ended i (marked (more q a)))
    ∙ ap (λ t. parse_body (with_body t r)) (sym (drop-append_le (0 + (i + 4)) s b (omega arith)))
    ∙ ap (λ x. parse_body (with_body (erase 0 (i + 4) x.1.http.body) x.1)) (sym read)
    ∙ sym (ended_read i 4 (marked (with_body (s ++ b) q)) small (ap (λ x. x.0) read ∙ good))
    ∙ ap (λ x. parse_marked x (with_body (s ++ b) q)) (sym end')
    ∙ sym (start_known (with_body (s ++ b) q) (known_longer s b six known))
    ∙ ap (λ t. parse_start (with_body t q)) (append_assoc q.http.body a b)
    ∙ sym (parse_in_header q (a ++ b) h)

-- Where `parse` asks for more data after a piece `a`, and gets `b`, the result is that of both pieces at once, if the
-- header had ended before, has not ended within `a`, or has ended with two pairs of CR and LF behind six bytes at least.
pub parse-append :
    (q q' : HttpRequest) (a b : Bytes)
    → (q.header_ended ≡ true) ⊎ CutWell (q.http.body ++ a)
    → parse a q ≡ (not_enough_data, q')
    → parse b q' ≡ parse (a ++ b) q
parse-append q q' a b (inl h) e = after_header q q' a b h e
parse-append q q' a b (inr w) e = elim (Bool-cases q.header_ended) [
  | inl h ↦ after_header q q' a b h e
  | inr h ↦ elim w [
    | inl out ↦ inside_header q q' a b h out e
    | inr (i, found, six) ↦ behind_header q q' a b i h found six e
  ]
]
