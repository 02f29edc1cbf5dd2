-- ===== src/Http/Kinds.antt =====
-- include/frnetlib/Http.h: the enumerations of requests, versions and encodings, and the strings that stand for them.
use frnetlib.Base.{
  Bool, true, false, not, ◌&&◌, List, [], ◌∷◌, Bytes, codes, ltb, if◌then◌else◌, length, take,
}
use frnetlib.Base.Text.{Order, less, equal, greater, compare, same_bytes, to_lower}

pub data RequestVersion : Type 0 where
  v1 v1_1 : RequestVersion

pub data RequestType : Type 0 where
  get post put delete patch request_type_count unknown partial : RequestType

pub data TransferEncoding : Type 0 where
  none chunked compress deflate gzip identity : TransferEncoding

-- A type is sent by one of the first five names; `type >= RequestTypeCount` is the last clause.
abbrev pub request_type_to_string : RequestType → Bytes
request_type_to_string get = codes "GET"
request_type_to_string post = codes "POST"
request_type_to_string put = codes "PUT"
request_type_to_string delete = codes "DELETE"
request_type_to_string patch = codes "PATCH"
request_type_to_string _ = codes "UNKNOWN"

-- `type > RequestTypeCount`.
abbrev pub is_invalid : RequestType → Bool
is_invalid unknown = true
is_invalid partial = true
is_invalid _ = false

abbrev pub is_unknown : RequestType → Bool
is_unknown unknown = true
is_unknown _ = false

abbrev pub is_partial : RequestType → Bool
is_partial partial = true
is_partial _ = false

abbrev pub is_less : Order → Bool
is_less less = true
is_less _ = false

abbrev pub is_equal : Order → Bool
is_equal equal = true
is_equal _ = false

abbrev pub is_greater : Order → Bool
is_greater greater = true
is_greater _ = false

-- `str.compare(0, n, name)` with the length `n` of the name.
abbrev pub compare_front : Bytes → Bytes → Order
compare_front str name = compare (take (length name) str) name

-- What a name that is not in front leaves as the result so far.
abbrev pub next_type : Bytes → Bytes → RequestType → RequestType
next_type str name type =
    let short = ltb (length str) (length name) in
    let sooner = if short && is_less (compare_front str name) then partial else type in
    if not (is_partial sooner) && (short && is_greater (compare_front str name))
    then unknown
    else sooner

-- The loop over the types, with the result so far.
unfoldable pub type_from : Bytes → RequestType → List RequestType → RequestType
type_from str type [] = type
type_from str type (t ∷ ts) =
    let name = request_type_to_string t in
    let rest = type_from str (next_type str name type) ts in
    if is_equal (compare_front str name) then t else rest

abbrev pub request_types : List RequestType
request_types = get ∷ post ∷ put ∷ delete ∷ patch ∷ []

unfoldable pub string_to_request_type : Bytes → RequestType
string_to_request_type str = type_from str unknown request_types

-- The names of the encodings; case does not count.
unfoldable pub string_to_transfer_encoding : Bytes → TransferEncoding
string_to_transfer_encoding encoding =
    let s = to_lower encoding in
    if same_bytes s (codes "none")
    then none
    else if same_bytes s (codes "chunked")
    then chunked
    else if same_bytes s (codes "compress")
    then compress
    else if same_bytes s (codes "deflate")
    then deflate
    else if same_bytes s (codes "gzip")
    then gzip
    else if same_bytes s (codes "identity")
    then identity
    else none
