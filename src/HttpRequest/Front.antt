-- ===== src/HttpRequest/Front.antt =====
-- The type of a request is known from its first bytes.
use frnetlib.Base.{
  ◌≤◌, ◌≡◌, refl, ap, ◌∙◌, arith, false, List, [], ◌∷◌, ◌++◌, Bytes, ltb, if◌then◌else◌, All,
  length, length-append, take-append_le,
}
use mathlib.Core.Path.{ap₂}
use frnetlib.Base.Text.{compare}
use frnetlib.Http.Kinds.{
  RequestType, unknown, request_types, request_type_to_string, compare_front, next_type, is_equal,
  string_to_request_type, type_from,
}

-- The first six bytes decide the type of a request.
compare_front-append :
    (s t name : Bytes) → length name ≤ length s → compare_front (s ++ t) name ≡ compare_front s name
compare_front-append s t name h = ap (λ x. compare x name) (take-append_le (length name) s t h)

next_type-append :
    (s t name : Bytes) (type : RequestType)
    → length name ≤ length s
    → next_type (s ++ t) name type ≡ next_type s name type
next_type-append s t name type h =
    let long : ltb (length (s ++ t)) (length name) ≡ false = ground (arith, length-append s t) in
    let long' : ltb (length s) (length name) ≡ false = ground arith in rw (long, long')

abbrev Short : RequestType → Type 0
Short t = length (request_type_to_string t) ≤ 6

type_from-append :
    (s t : Bytes) (type : RequestType) (ts : List RequestType)
    → 6 ≤ length s
    → All Short ts
    → type_from (s ++ t) type ts ≡ type_from s type ts
unfolding type_from
type_from-append s t type [] h k = refl
type_from-append s t type (r ∷ ts) h k =
    let name = request_type_to_string r in
    ap₂ (λ b x. if b then r else x) (ap is_equal (compare_front-append s t name (omega arith)))
      (ap (λ x. type_from (s ++ t) x ts) (next_type-append s t name type (omega arith))
        ∙ type_from-append s t (next_type s name type) ts h k.1)

pub string_to_request_type-append :
    (s t : Bytes) → 6 ≤ length s → string_to_request_type (s ++ t) ≡ string_to_request_type s
unfolding string_to_request_type
string_to_request_type-append s t h =
    type_from-append s t unknown request_types h
      (omega arith, (omega arith, (omega arith, (omega arith, (omega arith, tt)))))
