-- ===== src/HttpResponse/Sendable.antt =====
-- src/HttpResponse.cpp: the responses that `construct` is asked for, and what a receiver makes of them.
use frnetlib.Base.{
  ◌^◌, ◌≤◌, ◌<◌, ◌≡◌, refl, ap, ◌∙◌, arith, Bool, true, false, not, ◌&&◌, [], ◌∷◌, ◌++◌, Option,
  none, some, inl, inr, Bytes, if◌then◌else◌, codes, length, Bool-cases,
}
use frnetlib.Base.Text.{same_bytes}
use frnetlib.Base.Decimal.{to_string, stoull-to_string}
use frnetlib.Http.Fields.{Fields, look_up}
use frnetlib.Http.Message.{new_http}
use frnetlib.Http.Write.{is_missing}
use frnetlib.Http.Lines.{AllFields}
use frnetlib.Http.ReadBack.{Fresh}
use frnetlib.HttpRequest.{max_header_size, max_body_size}
use frnetlib.HttpRequest.Parse.{is_empty}
use frnetlib.HttpResponse.{HttpResponse, store_number, store_length}
use frnetlib.HttpResponse.Written.{sent_fields, text_of}

-- A response that can be sent: what its header holds can be read back, the length is left to `construct`, and it is
-- within the bounds.
pub record IsSendable (q : HttpResponse) : Type 0 where
  pub status_fits : q.http.status < 2 ^ 31
  pub fields : AllFields (sent_fields q)
  pub distinct : Fresh [] (sent_fields q)
  pub no_length : look_up (codes "content-length") q.http.header_data ≡ none
  pub header_fits : length (text_of q) ≤ max_header_size
  pub body_fits : length q.http.body ≤ max_body_size

-- What the receiver has then: the status, the version, the body, and the fields that were sent.
abbrev pub received : HttpResponse → HttpResponse
received q = record {
  http = record new_http {
    header_data = sent_fields q;
    status = q.http.status;
    version = q.http.version;
    body = q.http.body;
  };
  header_ended = true;
  content_length = length q.http.body;
  chunk_offset = 0;
}

look_up-append : (k : Bytes) (m n : Fields) → look_up k m ≡ none → look_up k (m ++ n) ≡ look_up k n
unfolding look_up
look_up-append k [] n h = refl
look_up-append k ((j, v) ∷ m) n h = elim (Bool-cases (same_bytes j k)) [
  | inl here ↦ let no : ◌≡◌ {A = Option Bytes} (some v) none = (rw here at h) in cc
  | inr on ↦ rw on (look_up-append k m n (rw on at h))
]

-- The length that the receiver reads.
unfoldable pub sent_length : Bytes → Option Bytes
sent_length [] = none
sent_length (b ∷ bs) = some (to_string (length (b ∷ bs)))

pub look_up-sent :
    (q : HttpResponse)
    → look_up (codes "content-length") q.http.header_data ≡ none
    → look_up (codes "content-length") (sent_fields q) ≡ sent_length q.http.body
unfolding look_up sent_length
look_up-sent q h =
    let m = q.http.header_data in
    look_up-append (codes "content-length") m _ h
    ∙ by_tests (is_missing (look_up (codes "connection") m))
        (is_missing (look_up (codes "content-type") m)) q.http.body
        (look_up (codes "content-length") m) h
  where
    by_tests :
        (b c : Bool) (body : Bytes) (x : Option Bytes)
        → x ≡ none
        → look_up (codes "content-length") (
            (if b then (codes "connection", codes "keep-alive") ∷ [] else [])
            ++ ((if c then (codes "content-type", codes "text/html") ∷ [] else [])
                ++ (if is_missing x && not (is_empty body)
                    then (codes "content-length", to_string (length body)) ∷ []
                    else [])))
          ≡ sent_length body
    by_tests true true [] none e = refl
    by_tests true true (d ∷ ds) none e = refl
    by_tests true false [] none e = refl
    by_tests true false (d ∷ ds) none e = refl
    by_tests false true [] none e = refl
    by_tests false true (d ∷ ds) none e = refl
    by_tests false false [] none e = refl
    by_tests false false (d ∷ ds) none e = refl
    by_tests b c body (some v) e = cc

pub store_sent :
    (body : Bytes) (r : HttpResponse)
    → length body ≤ max_body_size
    → r.content_length ≡ 0
    → store_length (sent_length body) r ≡ (true, record r { content_length = length body })
unfolding sent_length
store_sent [] r h z = ap (λ n. (true, record r { content_length = n })) z
store_sent (b ∷ bs) r h z =
    ap (λ x. store_number x r) (stoull-to_string (length (b ∷ bs)) (omega arith))
