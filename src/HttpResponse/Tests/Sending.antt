-- ===== src/HttpResponse/Tests/Sending.antt =====
-- A run of the theorem on a response that is sent.
use frnetlib.Base.{
  ℕ, ◌≡◌, refl, arith, Bool, true, false, not, ◌&&◌, ◌==◌, leb, [], ◌∷◌, some, Bytes, codes, All,
}
use frnetlib.Base.Text.{same_bytes, to_lower, find_first_not_of}
use frnetlib.Base.Decimal.{digits, to_string}
use frnetlib.Socket.{success}
use frnetlib.Http.Fields.{look_up}
use frnetlib.Http.Message.{new_http, is_blank}
use frnetlib.Http.Lines.{Without, IsPrintable, IsField, tail_text}
use frnetlib.Http.Transfer.{returned}
use frnetlib.HttpResponse.{HttpResponse, new_response}
use frnetlib.HttpResponse.Parse.{parse}
use frnetlib.HttpResponse.Construct.{construct}
use frnetlib.HttpResponse.Sendable.{IsSendable, received}
use frnetlib.HttpResponse.RoundTrip.{parse-construct}

-- A response that is sent.
abbrev reply : HttpResponse
reply = record {
  http = record new_http {
    header_data = (codes "server", codes "a b") ∷ [];
    body = codes "hello";
    status = 404;
  };
  header_ended = false;
  content_length = 0;
  chunk_offset = 0;
}

abbrev none_is : ℕ → Bytes → Bool
none_is x [] = true
none_is x (c ∷ cs) = not (c == x) && none_is x cs

none_is→Without : (x : ℕ) (s : Bytes) → none_is x s ≡ true → Without x s
none_is→Without x [] h = tt
none_is→Without x (c ∷ cs) h = (ground arith, none_is→Without x cs (ground arith))

abbrev all_printable : Bytes → Bool
all_printable [] = true
all_printable (c ∷ cs) = (leb 32 c && leb c 126) && all_printable cs

printable_lem : (s : Bytes) → all_printable s ≡ true → All IsPrintable s
printable_lem [] h = tt
printable_lem (c ∷ cs) h = ((ground arith, ground arith), printable_lem cs (ground arith))

field_lem :
    (name value : Bytes)
    → none_is 58 name ≡ true
    → none_is 13 name ≡ true
    → none_is 10 name ≡ true
    → to_lower name ≡ name
    → same_bytes name (codes "transfer-encoding") ≡ false
    → all_printable value ≡ true
    → find_first_not_of is_blank value ≡ some 0
    → IsField name value
field_lem name value a b c d e f g = record {
  no_colon = none_is→Without 58 name a;
  no_cr = none_is→Without 13 name b;
  no_lf = none_is→Without 10 name c;
  in_lower_case = d;
  other_name = e;
  is_printable = printable_lem value f;
  no_space = g;
}

reply-IsSendable : IsSendable reply
unfolding new_http look_up to_string digits to_lower find_first_not_of tail_text
reply-IsSendable = record {
  status_fits = omega arith;
  fields = (
    field_lem (codes "server") (codes "a b") refl refl refl refl refl refl refl,
    (
      field_lem (codes "connection") (codes "keep-alive") refl refl refl refl refl refl refl,
      (
        field_lem (codes "content-type") (codes "text/html") refl refl refl refl refl refl refl,
        (field_lem (codes "content-length") (codes "5") refl refl refl refl refl refl refl, tt),
      ),
    ),
  );
  distinct = (refl, (refl, (refl, (refl, tt))));
  no_length = refl;
  header_fits = omega arith;
  body_fits = omega arith;
}

parse-construct_example :
    parse (construct (codes "host") reply) new_response ≡ some (returned success, received reply)
parse-construct_example = parse-construct (codes "host") reply reply-IsSendable
