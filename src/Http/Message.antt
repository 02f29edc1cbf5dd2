-- ===== src/Http/Message.antt =====
-- src/Http.cpp: the state that requests and responses share, and `parse_header_line`.
use frnetlib.Base.{
  ℕ, ◌+◌, Bool, true, false, ◌&&◌, List, [], ◌∷◌, ◌++◌, Option, none, some, Bytes, codes, leb, ◌==◌,
  if◌then◌else◌, take, drop,
}
use frnetlib.Base.Text.{find, find_first_not_of, shifted, same_bytes, to_lower}
use frnetlib.Http.{split_string}
use frnetlib.Http.Fields.{Fields, emplace}
use frnetlib.Http.Kinds.{
  RequestVersion, v1_1, RequestType, unknown, TransferEncoding, chunked,
  string_to_transfer_encoding,
}

-- `status` is the number of a RequestStatus. The set of encodings is what was put into it.
pub record Http : Type 0 where
  pub header_data : Fields
  pub post_data : Fields
  pub get_data : Fields
  pub transfer_encodings : List TransferEncoding
  pub body : Bytes
  pub request_type : RequestType
  pub uri : Bytes
  pub status : ℕ
  pub version : RequestVersion

-- The constructor.
unfoldable pub new_http : Http
new_http = record {
  header_data = [];
  post_data = [];
  get_data = [];
  transfer_encodings = [];
  body = [];
  request_type = unknown;
  uri = b'/' ∷ [];
  status = 200;
  version = v1_1;
}

-- `find(TransferEncoding::Chunked)`.
abbrev pub has_chunked : List TransferEncoding → Bool
has_chunked [] = false
has_chunked (chunked ∷ es) = true
has_chunked (_ ∷ es) = has_chunked es

-- The printable characters in front: the value of a header.
unfoldable pub printable : Bytes → Bytes
printable [] = []
printable (c ∷ cs) = let rest = printable cs in if leb 32 c && leb c 126 then c ∷ rest else []

unfoldable pub add_encodings : List Bytes → List TransferEncoding → List TransferEncoding
add_encodings [] es = es
add_encodings (enc ∷ encodings) es =
    add_encodings encodings (es ++ string_to_transfer_encoding enc ∷ [])

-- A line with its name and its value, which begins where the spaces behind the colon end.
unfoldable pub add_header : Bytes → Bytes → Http → Http
add_header name value h =
    let encodings =
      if same_bytes name (codes "transfer-encoding")
      then add_encodings (split_string value b',' true) h.transfer_encodings
      else h.transfer_encodings in
    record h { header_data = emplace name value h.header_data; transfer_encodings = encodings }

abbrev pub is_blank : ℕ → Bool
is_blank c = c == b' '

-- By the place of the colon and the place where the value begins.
abbrev pub header_value : ℕ → Option ℕ → Bytes → Option (Bytes × Bytes)
header_value colon_pos none str = none
header_value colon_pos (some data_begin) str =
    some (to_lower (take colon_pos str), printable (drop data_begin str))

abbrev pub header_at : Option ℕ → Bytes → Option (Bytes × Bytes)
header_at none str = none
header_at (some colon_pos) str =
    header_value colon_pos
      (shifted (colon_pos + 1) (find_first_not_of is_blank (drop (colon_pos + 1) str))) str

-- The name and the value of a line; none where there is no colon, or nothing but spaces behind it.
unfoldable pub header_parts : Bytes → Option (Bytes × Bytes)
header_parts str = header_at (find (b':' ∷ []) str) str

abbrev pub add_parts : Option (Bytes × Bytes) → Http → Http
add_parts none h = h
add_parts (some (name, value)) h = add_header name value h

unfoldable pub parse_header_line : Bytes → Http → Http
parse_header_line str h = add_parts (header_parts str) h

unfoldable pub parse_header_lines : List Bytes → Http → Http
parse_header_lines [] h = h
parse_header_lines (line ∷ lines) h = parse_header_lines lines (parse_header_line line h)
