-- ===== src/HttpResponse/Incremental.antt =====
-- src/HttpResponse.cpp: `parse` on a response that arrives in pieces.
use frnetlib.Base.{
  ℕ, ◌+◌, ◌≤◌, ◌≡◌, ◌⊎◌, inl, inr, refl, sym, ap, ◌∙◌, arith, true, false, ◌++◌, none, some, Bytes,
  ltb, length, length-append, take-append_le, drop-append_le, append_assoc, Bool-cases, codes,
}
use frnetlib.Base.Text.{find, find-fits, erase, same_bytes}
use frnetlib.Base.Erase.{length-erase_le}
use frnetlib.Socket.{not_enough_data}
use frnetlib.Http.Transfer.{returned}
use frnetlib.HttpRequest.{max_header_size, max_body_size}
use frnetlib.HttpRequest.Parse.{header_end, mark, crlf_crlf, lf_lf}
use frnetlib.HttpRequest.Incremental.{header_end-append}
use frnetlib.HttpResponse.{HttpResponse, with_body, parse_header}
use frnetlib.HttpResponse.Parse.{
  parse_body, parse_ended, parse_marked, is_other, parse_start, parse,
}
use frnetlib.HttpResponse.Body.{AsksMore, parse_body-append, parse_body-kept}
use frnetlib.HttpResponse.Headers.{
  parse_header-body, parse_header-ended, more, parse_behind_header, parse_in_header,
}

-- The branches of `parse_start` and of `parse_ended`.
pub start_known :
    (q : HttpResponse)
    → is_other q.http.body ≡ false
    → parse_start q ≡ parse_marked (header_end q.http.body) q
unfolding parse_start
start_known q h = rw h

start_refused : (q r : HttpResponse) → AsksMore (parse_start q) r → is_other q.http.body ≡ false
unfolding parse_start
start_refused q r e = ground arith

unmarked_more : (q r : HttpResponse) → AsksMore (parse_marked none q) r → r ≡ q
unmarked_more q r e = ground arith

ended_more :
    (i n : ℕ) (q r : HttpResponse)
    → AsksMore (parse_ended i n q) r
    → (ltb max_header_size i ≡ false)
      × ((parse_header i q).0 ≡ true)
      × AsksMore
          (parse_body
            (with_body (erase 0 (i + n) (parse_header i q).1.http.body) (parse_header i q).1))
          r
unfolding parse_ended
ended_more i n q r e = ground arith

pub ended_read :
    (i n : ℕ) (q : HttpResponse)
    → ltb max_header_size i ≡ false
    → (parse_header i q).0 ≡ true
    → parse_ended i n q
      ≡ parse_body (with_body (erase 0 (i + n) (parse_header i q).1.http.body) (parse_header i q).1)
unfolding parse_ended
ended_read i n q h k = rw (h, k)

-- Where a piece may end: in front of the end of the header, or behind two pairs of CR and LF that end it.
abbrev pub CutWell : Bytes → Type 0
CutWell s = (header_end s ≡ none) ⊎ ((i : ℕ) × (find crlf_crlf s ≡ some i))

abbrev pub marked : HttpResponse → HttpResponse
marked q = record q { header_ended = true }

is_other-append : (s t : Bytes) → 4 ≤ length s → is_other s ≡ false → is_other (s ++ t) ≡ false
is_other-append s t h k =
    let same = take-append_le 4 s t h in
    ground (arith, length-append s t, ap (λ x. same_bytes x (codes "HTTP")) same)

after_header :
    (q r : HttpResponse) (a b : Bytes)
    → q.header_ended ≡ true
    → length (q.http.body ++ (a ++ b)) ≤ max_body_size
    → AsksMore (parse a q) r
    → parse b r ≡ parse (a ++ b) q
after_header q r a b h bound e =
    let start : AsksMore (parse_body (more q a)) r = sym (parse_behind_header q a h) ∙ e in
    let apart = append_assoc q.http.body a b in
    let whole : length ((q.http.body ++ a) ++ b) ≤ max_body_size =
      omega (arith, ap (length {A = ℕ}) apart) in
    let front : length (q.http.body ++ a) ≤ max_body_size =
      omega (arith, length-append (q.http.body ++ a) b) in
    parse_behind_header r b (parse_body-kept (more q a) r front start ∙ h)
    ∙ parse_body-append (more q a) r b whole start
    ∙ ap (λ t. parse_body (with_body t q)) apart
    ∙ sym (parse_behind_header q (a ++ b) h)

inside_header :
    (q r : HttpResponse) (a b : Bytes)
    → q.header_ended ≡ false
    → header_end (q.http.body ++ a) ≡ none
    → AsksMore (parse a q) r
    → parse b r ≡ parse (a ++ b) q
inside_header q r a b h w e =
    let start = sym (parse_in_header q a h) ∙ e in
    let known = start_refused (more q a) r start in
    let same : r ≡ more q a =
      unmarked_more (more q a) r (
        ap (λ x. parse_marked x (more q a)) (sym w) ∙ sym (start_known (more q a) known) ∙ start) in
    ap (parse b) same
    ∙ parse_in_header (more q a) b h
    ∙ ap (λ t. parse_start (with_body t q)) (append_assoc q.http.body a b)
    ∙ sym (parse_in_header q (a ++ b) h)

body_kept :
    (i : ℕ) (s : Bytes) (q : HttpResponse)
    → (parse_header i (marked (with_body s q))).1.http.body ≡ s
body_kept i s q = ap (λ x. x.1.http.body) (parse_header-body i s (marked (with_body s q)) refl)

behind_header :
    (q r : HttpResponse) (a b : Bytes) (i : ℕ)
    → q.header_ended ≡ false
    → find crlf_crlf (q.http.body ++ a) ≡ some i
    → length (q.http.body ++ (a ++ b)) ≤ max_body_size
    → AsksMore (parse a q) r
    → parse b r ≡ parse (a ++ b) q
behind_header q r a b i h w bound e =
    let s = q.http.body ++ a in
    let fits : i + 4 ≤ length s = find-fits crlf_crlf s i w in
    let apart : s ++ b ≡ q.http.body ++ (a ++ b) = append_assoc q.http.body a b in
    let start = sym (parse_in_header q a h) ∙ e in
    let known = start_refused (more q a) r start in
    let end : header_end s ≡ some (i, 4) = unfold header_end in ap (λ x. mark x (find lf_lf s)) w in
    let (small, good, rest) = ended_more i 4 (marked (more q a)) r (
      ap (λ x. parse_marked x (more q a)) (sym end) ∙ sym (start_known (more q a) known) ∙ start) in
    let hdr = (parse_header i (marked (more q a))).1 in
    let left = erase 0 (i + 4) s in
    let rest' : AsksMore (parse_body (with_body left hdr)) r =
      ap (λ t. parse_body (with_body (erase 0 (i + 4) t) hdr)) (sym (body_kept i s q)) ∙ rest in
    let room : length (left ++ b) ≤ max_body_size = omega (
      arith,
      length-append left b,
      length-append s b,
      length-erase_le 0 (i + 4) s,
      ap (length {A = ℕ}) apart,
    ) in
    let room' : length left ≤ max_body_size = omega (arith, length-append left b) in
    let read =
      parse_header-body i (s ++ b) (marked (more q a)) (take-append_le i s b (omega arith)) in
    parse_behind_header r b (
      parse_body-kept (with_body left hdr) r room' rest' ∙ parse_header-ended i (marked (more q a)))
    ∙ parse_body-append (with_body left hdr) r b room rest'
    ∙ ap (λ t. parse_body (with_body t hdr)) (sym (drop-append_le (0 + (i + 4)) s b (omega arith)))
    ∙ ap (λ x. parse_body (with_body (erase 0 (i + 4) x.1.http.body) x.1)) (sym read)
    ∙ sym (ended_read i 4 (marked (with_body (s ++ b) q)) small (ap (λ x. x.0) read ∙ good))
    ∙ ap (λ x. parse_marked x (with_body (s ++ b) q)) (sym (header_end-append s b i w))
    ∙ sym (start_known (with_body (s ++ b) q) (is_other-append s b (omega arith) known))
    ∙ ap (λ t. parse_start (with_body t q)) apart
    ∙ sym (parse_in_header q (a ++ b) h)

-- Where `parse` asks for more data after a piece `a`, and gets `b`, the result is that of both pieces at once, chunks
-- that were read on the way included, if the header had ended before, has not ended within `a`, or has ended with two
-- pairs of CR and LF, and all the bytes are within the bound on bodies.
pub parse-append_response :
    (q r : HttpResponse) (a b : Bytes)
    → (q.header_ended ≡ true) ⊎ CutWell (q.http.body ++ a)
    → length (q.http.body ++ (a ++ b)) ≤ max_body_size
    → parse a q ≡ some (returned not_enough_data, r)
    → parse b r ≡ parse (a ++ b) q
parse-append_response q r a b (inl h) bound e = after_header q r a b h bound e
parse-append_response q r a b (inr w) bound e = elim (Bool-cases q.header_ended) [
  | inl h ↦ after_header q r a b h bound e
  | inr h ↦ elim w [
    | inl out ↦ inside_header q r a b h out e
    | inr (i, found) ↦ behind_header q r a b i h found bound e
  ]
]
