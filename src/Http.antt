-- ===== src/Http.antt =====
-- src/Http.cpp: the static helpers on strings. A string is its bytes; where the code compares or subtracts a `char`,
-- which is signed, the bytes from 128 on count as negative.
pub mod Fields
pub mod Kinds
pub mod Arguments
pub mod Message
pub mod Transfer
pub mod Receiving
pub mod Write
pub mod Lines
pub mod ReadBack
pub mod Escape
pub mod Path
pub mod Split
pub mod Mimetypes
mod Tests
use Prim.Native.Nat.{bit_and, bit_or}
use frnetlib.Base.{
  ℕ, ◌+◌, ◌-◌, ◌*◌, ◌/◌, ◌%◌, ◌^◌, Bool, not, ◌&&◌, ◌||◌, List, [], ◌∷◌, ◌++◌, Bytes, ltb, leb,
  ◌==◌, if◌then◌else◌, get_or, codes,
}

abbrev pub between : ℕ → ℕ → ℕ → Bool
between low high c = leb low c && leb c high

-- The characters that `url_encode` leaves as they are.
unfoldable pub is_unescaped : ℕ → Bool
is_unescaped c =
    between b'0' b'9' c
    || between b'a' b'z' c
    || between b'A' b'Z' c
    || (c == b'-' || c == b'_' || c == b'.' || c == b'!' || c == b'~')
    || (c == b'*' || c == 39 || c == b'(' || c == b')')

abbrev pub hex_lookup : ℕ → ℕ
hex_lookup i = get_or (codes "0123456789ABCDEF") i 0

-- What one character becomes.
unfoldable pub encode_char : ℕ → Bytes
encode_char c =
    if is_unescaped c
    then c ∷ []
    else if c == b' '
    then b'+' ∷ []
    else b'%' ∷ hex_lookup (bit_and c 0xf0 / 2 ^ 4) ∷ hex_lookup (bit_and c 0xf) ∷ []

unfoldable pub url_encode : Bytes → Bytes
url_encode [] = []
url_encode (c ∷ cs) = encode_char c ++ url_encode cs

-- `str[++a] - 48`, less 7 where it is above 9, as the low eight bits of the `int`: all that the result of type
-- `uint8_t` keeps.
unfoldable pub hex_value : ℕ → ℕ
hex_value c = if ltb 57 c && ltb c 128 then c - 55 else (c + 208) % 256

unfoldable pub hex_byte : ℕ → ℕ → ℕ
hex_byte h l = bit_or (hex_value h * 2 ^ 4 % 256) (hex_value l)

-- A character that is no '%' with something behind it.
unfoldable pub plain_char : ℕ → ℕ
plain_char c = if c == b'+' then b' ' else c

-- The loop. Behind a '%' the second digit may be the zero that ends every `std::string`.
unfoldable pub url_decode : Bytes → Bytes
url_decode [] = []
url_decode (c ∷ []) = plain_char c ∷ []
url_decode (c ∷ d ∷ []) =
    let rest = plain_char d ∷ [] in if c == b'%' then hex_byte d 0 ∷ [] else plain_char c ∷ rest
url_decode (c ∷ d ∷ e ∷ cs) =
    let behind = url_decode cs in
    let rest = url_decode (d ∷ e ∷ cs) in
    if c == b'%' then hex_byte d e ∷ behind else plain_char c ∷ rest

-- The end of a part: none where nothing was gathered.
abbrev pub close_part : List Bytes → Bytes → List Bytes
close_part ret [] = ret
close_part ret (b ∷ buffer) = ret ++ (b ∷ buffer) ∷ []

-- The loop of `split_string` and what follows it, with the parts so far and the characters of the next one.
unfoldable pub split_from : ℕ → Bool → List Bytes → Bytes → Bytes → List Bytes
split_from token strip_spacing ret buffer [] = close_part ret buffer
split_from token strip_spacing ret buffer (a ∷ str) =
    let closed = split_from token strip_spacing (close_part ret buffer) [] str in
    let longer = split_from token strip_spacing ret (buffer ++ a ∷ []) str in
    let same = split_from token strip_spacing ret buffer str in
    if a == token then closed else if not (a == b' ') || not strip_spacing then longer else same

unfoldable pub split_string : Bytes → ℕ → Bool → List Bytes
split_string str token strip_spacing = split_from token strip_spacing [] [] str

-- `set_uri`: the path that is stored, from the one that was.
unfoldable pub set_uri : Bytes → Bytes → Bytes
set_uri uri [] = uri
set_uri uri (c ∷ str) = if c == b'/' then c ∷ str else b'/' ∷ c ∷ str
