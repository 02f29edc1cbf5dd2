-- ===== src/HttpRequest/Headers.antt =====
-- Reading a header does not look at the body behind it.
use frnetlib.Base.{
  ℕ, ◌≡◌, inl, inr, refl, ap, ◌∙◌, Bool, false, List, [], ◌∷◌, Option, none, some, Bytes, take,
  Bool-cases, codes,
}
use frnetlib.Base.Numbers.{stoull}
use frnetlib.Http.Fields.{look_up}
use frnetlib.Http.Kinds.{is_invalid}
use frnetlib.Http.Message.{
  Http, add_header, add_parts, header_parts, parse_header_line, parse_header_lines,
}
use frnetlib.Http.{split_string}
use frnetlib.HttpRequest.{
  FirstLine, first_line, apply_line, store_number, store_length, parse_behind, parse_lines,
  parse_header_type, HttpRequest, with_body, parse_header_uri, parse_fields, parse_header_text,
  parse_header,
}

-- Nothing that reads a header looks at the body.
abbrev pub rebody : Bytes → Http → Http
rebody bs h = record h { body = bs }

add_header-body :
    (bs name value : Bytes) (h : Http)
    → add_header name value (rebody bs h) ≡ rebody bs (add_header name value h)
unfolding add_header
add_header-body bs name value h = refl

add_parts-body :
    (bs : Bytes) (x : Option (Bytes × Bytes)) (h : Http)
    → add_parts x (rebody bs h) ≡ rebody bs (add_parts x h)
add_parts-body bs none h = refl
add_parts-body bs (some (name, value)) h = add_header-body bs name value h

pub parse_header_lines-body :
    (bs : Bytes) (lines : List Bytes) (h : Http)
    → parse_header_lines lines (rebody bs h) ≡ rebody bs (parse_header_lines lines h)
unfolding parse_header_lines parse_header_line
parse_header_lines-body bs [] h = refl
parse_header_lines-body bs (line ∷ lines) h =
    ap (parse_header_lines lines) (add_parts-body bs (header_parts line) h)
    ∙ parse_header_lines-body bs lines (parse_header_line line h)

-- A result with another body.
abbrev pub moved : Bytes → Bool × HttpRequest → Bool × HttpRequest
moved bs (b, q) = (b, with_body bs q)

store_length-body :
    (bs : Bytes) (x : Option Bytes) (q : HttpRequest)
    → store_length x (with_body bs q) ≡ moved bs (store_length x q)
store_length-body bs none q = refl
store_length-body bs (some v) q = by_number (stoull 10 v)
  where
    by_number : (x : Option ℕ) → store_number x (with_body bs q) ≡ moved bs (store_number x q)
    by_number none = refl
    by_number (some n) = refl

parse_fields-body :
    (bs : Bytes) (lines : List Bytes) (h : Http) (q : HttpRequest)
    → parse_fields lines (rebody bs h) (with_body bs q) ≡ moved bs (parse_fields lines h q)
unfolding parse_fields
parse_fields-body bs lines h q =
    ap (λ x. store_length (look_up (codes "content-length") x.header_data) (record q { http = x }))
      (parse_header_lines-body bs lines h)
    ∙ store_length-body bs
        (look_up (codes "content-length") (parse_header_lines lines h).header_data)
        (record q { http = parse_header_lines lines h })

parse_behind-body :
    (bs : Bytes) (lines : List Bytes) (x : Option FirstLine) (h : Http) (q : HttpRequest)
    → parse_behind lines (apply_line x (rebody bs h)) (with_body bs q)
      ≡ moved bs (parse_behind lines (apply_line x h) q)
parse_behind-body bs lines none h q = refl
parse_behind-body bs lines (some l) h q = parse_fields-body bs lines _ q

parse_lines-body :
    (bs : Bytes) (lines : List Bytes) (q : HttpRequest)
    → parse_lines lines (with_body bs q) ≡ moved bs (parse_lines lines q)
unfolding parse_header_uri
parse_lines-body bs [] q = refl
parse_lines-body bs (line ∷ lines) q = elim (Bool-cases (is_invalid (parse_header_type line))) [
  | inl bad ↦ rw bad
  | inr good ↦ rw good (parse_behind-body bs lines (first_line line) _ _)
]

-- The header is read the same whatever the body is, as long as its text is.
pub parse_header-body :
    (i : ℕ) (bs : Bytes) (q : HttpRequest)
    → take i bs ≡ take i q.http.body
    → parse_header i (with_body bs q) ≡ moved bs (parse_header i q)
unfolding parse_header parse_header_text
parse_header-body i bs q e =
    ap (λ t. parse_lines (split_string t 10 false) (with_body bs q)) e
    ∙ parse_lines-body bs (split_string (take i q.http.body) 10 false) q

-- The state of the header's end is not touched by it.
pub parse_header-ended :
    (i : ℕ) (q : HttpRequest) → (parse_header i q).1.header_ended ≡ q.header_ended
unfolding parse_header parse_header_text parse_fields parse_header_uri
parse_header-ended i q = of_lines (split_string (take i q.http.body) 10 false)
  where
    of_number :
        (x : Option ℕ) (r : HttpRequest) → (store_number x r).1.header_ended ≡ r.header_ended
    of_number none r = refl
    of_number (some n) r = refl

    of_length :
        (x : Option Bytes) (r : HttpRequest) → (store_length x r).1.header_ended ≡ r.header_ended
    of_length none r = refl
    of_length (some v) r = of_number (stoull 10 v) r

    of_behind :
        (lines : List Bytes) (x : Option Http) (r : HttpRequest)
        → (parse_behind lines x r).1.header_ended ≡ r.header_ended
    of_behind lines none r = refl
    of_behind lines (some h) r = of_length _ _

    of_lines : (lines : List Bytes) → (parse_lines lines q).1.header_ended ≡ q.header_ended
    of_lines [] = refl
    of_lines (line ∷ lines) = elim (Bool-cases (is_invalid (parse_header_type line))) [
      | inl bad ↦ rw bad
      | inr good ↦ rw good (of_behind lines _ _)
    ]
