-- ===== src/HttpResponse/Written.antt =====
-- src/HttpResponse.cpp: the text that `construct` writes, and where its header ends.
use frnetlib.Base.{
  ℕ, ◌≡◌, refl, sym, ap, ◌∙◌, arith, Bool, true, false, not, ◌&&◌, [], ◌∷◌, ◌++◌, append_assoc,
  append-nil, some, Bytes, ◌==◌, if◌then◌else◌, codes, length, length-append,
}
use mathlib.Core.Path.{ap₂}
use frnetlib.Base.Text.{find, find_here, find_behind, later, shifted}
use frnetlib.Base.Decimal.{to_string}
use frnetlib.Http.Fields.{Fields, look_up}
use frnetlib.Http.Write.{line_end, header_line, header_lines, is_missing, default_line}
use frnetlib.Http.Lines.{
  Without, find-behind, field, tail_text, header_lines-tail_text, IsField, AllFields, field-Without,
}
use frnetlib.HttpRequest.Parse.{is_empty, crlf_crlf}
use frnetlib.HttpResponse.{HttpResponse}
use frnetlib.HttpResponse.Construct.{status_text, length_line, header_text, construct}
use frnetlib.HttpResponse.FirstLine.{first_of_text}

-- A field that `construct` adds where there is none of its name.
abbrev pub default_field : Bytes → Bytes → Fields → Fields
default_field key value m = if is_missing (look_up key m) then (key, value) ∷ [] else []

abbrev pub length_field : Bytes → Fields → Fields
length_field body m =
    if is_missing (look_up (codes "content-length") m) && not (is_empty body)
    then (codes "content-length", to_string (length body)) ∷ []
    else []

-- The fields that are sent: those of the response, and those that it lacks.
abbrev pub sent_fields : HttpResponse → Fields
sent_fields q =
    let m = q.http.header_data in
    m
    ++ (default_field (codes "connection") (codes "keep-alive") m
        ++ (default_field (codes "content-type") (codes "text/html") m
            ++ length_field q.http.body m))

header_lines-append : (m n : Fields) → header_lines (m ++ n) ≡ header_lines m ++ header_lines n
unfolding header_lines
header_lines-append [] n = refl
header_lines-append ((k, v) ∷ m) n =
    ap (◌++◌ (header_line k v)) (header_lines-append m n)
    ∙ sym (append_assoc (header_line k v) (header_lines m) (header_lines n))

-- The text in front of the two line ends that end the header.
abbrev pub text_of : HttpResponse → Bytes
text_of q = first_of_text q.http.version q.http.status ++ tail_text (sent_fields q)

connection_line :
    (b : Bool)
    → header_lines (if b then (codes "connection", codes "keep-alive") ∷ [] else [])
      ≡ (if b then codes "connection: keep-alive" ++ line_end else [])
unfolding header_lines
connection_line true = refl
connection_line false = refl

type_line :
    (b : Bool)
    → header_lines (if b then (codes "content-type", codes "text/html") ∷ [] else [])
      ≡ (if b then codes "content-type: text/html" ++ line_end else [])
unfolding header_lines
type_line true = refl
type_line false = refl

size_line :
    (b : Bool) (n : ℕ)
    → header_lines (if b then (codes "content-length", to_string n) ∷ [] else [])
      ≡ (if b then codes "content-length: " ++ to_string n ++ line_end else [])
unfolding header_lines
size_line true n = simp (append_assoc, append-nil)
size_line false n = refl

-- The lines that `construct` writes are those of the fields that are sent.
sent_lines :
    (q : HttpResponse)
    → header_lines (sent_fields q)
      ≡ header_lines q.http.header_data
        ++ (default_line
              (codes "connection")
              (codes "connection: keep-alive" ++ line_end)
              q.http.header_data
            ++ (default_line
                  (codes "content-type")
                  (codes "content-type: text/html" ++ line_end)
                  q.http.header_data
                ++ length_line q.http.body q.http.header_data))
sent_lines q =
    let m = q.http.header_data in
    header_lines-append m _
    ∙ ap (◌++◌ (header_lines m)) (
        header_lines-append (default_field (codes "connection") (codes "keep-alive") m) _
        ∙ ap₂ ◌++◌ (connection_line (is_missing (look_up (codes "connection") m))) (
            header_lines-append (default_field (codes "content-type") (codes "text/html") m) _
            ∙ ap₂ ◌++◌ (type_line (is_missing (look_up (codes "content-type") m))) (
                size_line
                  (is_missing (look_up (codes "content-length") m) && not (is_empty q.http.body))
                  (length q.http.body))))

pub construct-text :
    (host : Bytes) (q : HttpResponse) → construct host q ≡ text_of q ++ (crlf_crlf ++ q.http.body)
unfolding construct header_text status_text
construct-text host q =
    let m = q.http.header_data in
    let first = first_of_text q.http.version q.http.status in
    let one = default_line (codes "connection") (codes "connection: keep-alive" ++ line_end) m in
    let two = default_line (codes "content-type") (codes "content-type: text/html" ++ line_end) m in
    let three = length_line q.http.body m in
    let apart : construct host q
        ≡ first
          ++ ((13 ∷ 10 ∷ (header_lines m ++ (one ++ (two ++ three)))) ++ 13 ∷ 10 ∷ q.http.body) =
      simp append_assoc in
    let back : first ++ ((tail_text (sent_fields q) ++ 13 ∷ 10 ∷ []) ++ 13 ∷ 10 ∷ q.http.body)
        ≡ text_of q ++ (crlf_crlf ++ q.http.body) =
      simp append_assoc in
    apart
    ∙ ap (λ x. first ++ ((13 ∷ 10 ∷ x) ++ 13 ∷ 10 ∷ q.http.body)) (sym (sent_lines q))
    ∙ ap (λ x. first ++ (x ++ 13 ∷ 10 ∷ q.http.body)) (header_lines-tail_text (sent_fields q))
    ∙ back

two_on :
    (x : ℕ) (s : Bytes)
    → (x == 13) ≡ false
    → find crlf_crlf (13 ∷ 10 ∷ x ∷ s) ≡ later (later (find crlf_crlf (x ∷ s)))
two_on x s h =
    let other : (13 == x) ≡ false = ground arith in
    find_behind crlf_crlf 13 (10 ∷ x ∷ s) (rw other refl)
    ∙ ap later (find_behind crlf_crlf 10 (x ∷ s) refl)

-- A line of a header does not begin with CR.
field_front :
    (name value : Bytes)
    → IsField name value
    → (c : ℕ) × (cs : Bytes) × (field name value ≡ c ∷ cs) × ((c == 13) ≡ false)
field_front [] value f = (58, 32 ∷ value, refl, refl)
field_front (c ∷ cs) value f = (c, cs ++ 58 ∷ 32 ∷ value, refl, f.no_cr.0)

-- The end of the header is found.
pub find_end :
    (l s : Bytes) (m : Fields)
    → Without 13 l
    → AllFields m
    → find crlf_crlf ((l ++ tail_text m) ++ (crlf_crlf ++ s)) ≡ some (length (l ++ tail_text m))
unfolding tail_text
find_end l s [] h all =
    ap (find crlf_crlf) (append_assoc l [] (crlf_crlf ++ s))
    ∙ find-behind 13 (10 ∷ 13 ∷ 10 ∷ []) l (crlf_crlf ++ s) h
    ∙ ap (shifted (length l)) (find_here crlf_crlf (crlf_crlf ++ s) refl)
    ∙ ap some (omega (arith, length-append l []))
find_end l s ((name, value) ∷ m) h all =
    let rest = field name value ++ tail_text m in
    let (c, cs, e, other) = field_front name value all.0 in
    let begins : rest ++ (crlf_crlf ++ s) ≡ c ∷ ((cs ++ tail_text m) ++ (crlf_crlf ++ s)) =
      ap (λ x. (x ++ tail_text m) ++ (crlf_crlf ++ s)) e in
    let inner =
      find_end (field name value) s m (field-Without 13 name value (omega arith) all.0.no_cr all.0)
        all.1 in
    ap (find crlf_crlf) (append_assoc l (13 ∷ 10 ∷ rest) (crlf_crlf ++ s))
    ∙ find-behind 13 (10 ∷ 13 ∷ 10 ∷ []) l (13 ∷ 10 ∷ (rest ++ (crlf_crlf ++ s))) h
    ∙ ap (λ x. shifted (length l) (find crlf_crlf (13 ∷ 10 ∷ x))) begins
    ∙ ap (shifted (length l)) (two_on c ((cs ++ tail_text m) ++ (crlf_crlf ++ s)) other)
    ∙ ap (λ x. shifted (length l) (later (later (find crlf_crlf x)))) (sym begins)
    ∙ ap (λ x. shifted (length l) (later (later x))) inner
    ∙ ap some (omega (arith, length-append l (13 ∷ 10 ∷ rest)))
