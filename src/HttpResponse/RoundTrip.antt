-- ===== src/HttpResponse/RoundTrip.antt =====
-- src/HttpResponse.cpp: constructing a response, and parsing it.
use frnetlib.Base.{
  ℕ, ◌+◌, ◌≤◌, ◌<◌, ◌≡◌, refl, sym, ap, ◌∙◌, arith, Bool, true, false, ◌&&◌, ◌∷◌, ◌++◌,
  append_assoc, some, Bytes, All-append, ltb, ◌==◌, codes, length, length-append, drop, take-append,
  drop-append,
}
use frnetlib.Base.Text.{find, erase}
use frnetlib.Base.Decimal.{to_string, to_string-IsDigit}
use frnetlib.Socket.{success}
use frnetlib.Http.{split_string}
use frnetlib.Http.Fields.{Fields, look_up}
use frnetlib.Http.Kinds.{RequestVersion, v1, v1_1}
use frnetlib.Http.Message.{Http, new_http}
use frnetlib.Http.Transfer.{returned}
use frnetlib.Http.Lines.{Without, tail_text, tail_lines, cr, AllFields}
use frnetlib.Http.ReadBack.{split_string-lines, parse_header_lines-tail_lines}
use frnetlib.HttpRequest.{max_header_size}
use frnetlib.HttpRequest.Parse.{header_end, mark, crlf_crlf, lf_lf}
use frnetlib.HttpResponse.{
  HttpResponse, new_response, with_body, first_line, store_length, parse_fields, parse_behind,
  parse_lines, parse_header,
}
use frnetlib.HttpResponse.Parse.{parse, parse_marked, parse_body, parse_plain, returning, is_other}
use frnetlib.HttpResponse.Construct.{version_text, construct}
use frnetlib.HttpResponse.FirstLine.{first_of_text, digits-Without, first_line-version}
use frnetlib.HttpResponse.Written.{sent_fields, text_of, construct-text, find_end}
use frnetlib.HttpResponse.Headers.{parse_in_header, plain_body}
use frnetlib.HttpResponse.Incremental.{start_known, ended_read}
use frnetlib.HttpResponse.Sendable.{IsSendable, received, look_up-sent, store_sent}

first-Without : (v : RequestVersion) (n x : ℕ) → x < 32 → Without x (first_of_text v n)
first-Without v n x h = All-append _ (version_text v) (to_string n ++ codes " ") (of_version v) (
    All-append _ (to_string n) (codes " ")
      (digits-Without x (to_string n) (omega arith) (to_string-IsDigit n))
      (other 32 (omega arith), tt))
  where
    other : (c : ℕ) → 32 ≤ c → (c == x) ≡ false
    other c k = ground arith

    of_version : (v : RequestVersion) → Without x (version_text v)
    of_version v1 = (
      other 72 (omega arith),
      (
        other 84 (omega arith),
        (
          other 84 (omega arith),
          (
            other 80 (omega arith),
            (
              other 47 (omega arith),
              (
                other 49 (omega arith),
                (other 46 (omega arith), (other 48 (omega arith), (other 32 (omega arith), tt))),
              ),
            ),
          ),
        ),
      ),
    )
    of_version v1_1 = (
      other 72 (omega arith),
      (
        other 84 (omega arith),
        (
          other 84 (omega arith),
          (
            other 80 (omega arith),
            (
              other 47 (omega arith),
              (
                other 49 (omega arith),
                (other 46 (omega arith), (other 49 (omega arith), (other 32 (omega arith), tt))),
              ),
            ),
          ),
        ),
      ),
    )

split_first :
    (v : RequestVersion) (n : ℕ) (m : Fields)
    → AllFields m
    → split_string (first_of_text v n ++ tail_text m) 10 false
      ≡ (first_of_text v n ++ cr m) ∷ tail_lines m
split_first v1 n m all =
    split_string-lines 72 (drop 1 (first_of_text v1 n)) m (first-Without v1 n 10 (omega arith)) all
split_first v1_1 n m all =
    split_string-lines 72 (drop 1 (first_of_text v1_1 n)) m (first-Without v1_1 n 10 (omega arith))
      all

-- A new response whose header has ended in these bytes.
abbrev fresh_with : Bytes → HttpResponse
fresh_with bytes = record {
  http = record new_http { body = bytes };
  header_ended = true;
  content_length = 0;
  chunk_offset = 0;
}

-- The header that was written is read.
read_back :
    (q : HttpResponse) (behind : Bytes)
    → IsSendable q
    → parse_header (length (text_of q)) (fresh_with (text_of q ++ behind))
      ≡ (true, with_body (text_of q ++ behind) (received q))
unfolding parse_header parse_fields new_http
read_back q behind s =
    let m = sent_fields q in
    let v = q.http.version in
    let n = q.http.status in
    let r = fresh_with (text_of q ++ behind) in
    let h : Http = record r.http { status = n; version = v } in
    let line : first_of_text v n ++ cr m ≡ version_text v ++ (to_string n ++ 32 ∷ cr m) =
      simp append_assoc in
    ap (λ t. parse_lines (split_string t 10 false) r)
      (take-append (text_of q) behind (length (text_of q)) refl)
    ∙ ap (λ ls. parse_lines ls r) (split_first v n m s.fields)
    ∙ ap (λ x. parse_behind (tail_lines m) x r)
        (ap first_line line ∙ first_line-version v n (cr m) s.status_fits)
    ∙ ap
        (λ x. store_length (look_up (codes "content-length") x.header_data) (record r { http = x }))
        (parse_header_lines-tail_lines m h s.fields s.distinct)
    ∙ ap (λ x. store_length x (record r { http = record h { header_data = m } }))
        (look_up-sent q s.no_length)
    ∙ store_sent q.http.body (record r { http = record h { header_data = m } }) s.body_fits refl

and_false : (b : Bool) → (b && false) ≡ false
and_false true = refl
and_false false = refl

begins_well : (v : RequestVersion) (s : Bytes) → is_other (version_text v ++ s) ≡ false
begins_well v1 s = and_false _
begins_well v1_1 s = and_false _

plain_whole :
    (q : HttpResponse)
    → q.content_length ≡ length q.http.body
    → returning (parse_plain q) ≡ some (returned success, q)
unfolding parse_plain
plain_whole q h = ground arith

-- A response that `construct` wrote for any host is parsed with success, with its status, version and body, and with its
-- fields and those that `construct` added for the ones it lacked; if its status fits an `int`, the names of all those
-- fields are in lower case, differ, and have no colon or line end, their values are not empty, are printable and do not begin
-- with a space, none of them is a transfer encoding, the response does not give its length itself, and header and body are within
-- their bounds.
pub parse-construct :
    (host : Bytes) (q : HttpResponse)
    → IsSendable q
    → parse (construct host q) new_response ≡ some (returned success, received q)
unfolding new_response new_http header_end
parse-construct host q s =
    let first = first_of_text q.http.version q.http.status in
    let text = text_of q in
    let body = q.http.body in
    let whole = text ++ (crlf_crlf ++ body) in
    let n = length text in
    let end : header_end whole ≡ some (n, 4) =
      ap (λ x. mark x (find lf_lf whole))
        (find_end first body (sent_fields q)
          (first-Without q.http.version q.http.status 13 (omega arith)) s.fields) in
    let version_first : whole
        ≡ version_text q.http.version
          ++ ((to_string q.http.status ++ codes " ")
              ++ (tail_text (sent_fields q) ++ (crlf_crlf ++ body))) =
      simp append_assoc in
    let http : is_other whole ≡ false = ap is_other version_first ∙ begins_well q.http.version _ in
    let small : ltb max_header_size n ≡ false = (let k = s.header_fits in ground arith) in
    let read = read_back q (crlf_crlf ++ body) s in
    let behind : drop (0 + (n + 4)) whole ≡ body =
      ap (drop (0 + (n + 4))) (sym (append_assoc text crlf_crlf body))
      ∙ drop-append (text ++ crlf_crlf) body (0 + (n + 4))
          (length-append text crlf_crlf ∙ omega arith) in
    ap (λ b. parse b new_response) (construct-text host q)
    ∙ parse_in_header new_response whole refl
    ∙ start_known (with_body whole new_response) http
    ∙ ap (λ x. parse_marked x (with_body whole new_response)) end
    ∙ ended_read n 4 (fresh_with whole) small (ap (λ x. x.0) read)
    ∙ ap (λ x. parse_body (with_body (erase 0 (n + 4) x.1.http.body) x.1)) read
    ∙ ap (λ b. parse_body (with_body b (received q))) behind
    ∙ plain_body (received q) s.body_fits refl
    ∙ plain_whole (received q) refl
