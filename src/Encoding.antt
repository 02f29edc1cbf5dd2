-- ===== src/Encoding.antt =====
-- include/frnetlib/NetworkEncoding.h and the C library's htons and htonl: how a machine word gets its
-- bytes on the wire. The host's byte order is a parameter of everything below.
pub mod Wire
mod Tests
use frnetlib.Base.{ℕ, zero, suc, ◌+◌, ◌*◌, ◌/◌, ◌%◌, ◌^◌, List, [], ◌∷◌, ◌++◌, Bytes}

-- `__BYTE_ORDER`.
pub data ByteOrder : Type 0 where
  little big : ByteOrder

-- The `w` bytes of a word, most significant first and least significant first.
unfoldable pub big_endian : ℕ → ℕ → Bytes
big_endian zero v = []
big_endian (suc w) v = (v / 256 ^ w % 256) ∷ big_endian w v

unfoldable pub little_endian : ℕ → ℕ → Bytes
little_endian zero v = []
little_endian (suc w) v = (v % 256) ∷ little_endian w (v / 256)

-- The word whose bytes are given, most or least significant first.
unfoldable pub of_big_endian : ℕ → Bytes → ℕ
of_big_endian acc [] = acc
of_big_endian acc (b ∷ bs) = of_big_endian (acc * 256 + b) bs

unfoldable pub of_little_endian : Bytes → ℕ
of_little_endian [] = 0
of_little_endian (b ∷ bs) = b + 256 * of_little_endian bs

-- The object representation of a `w`-byte unsigned word: what `memcpy` or a cast to `char *` sees.
unfoldable pub store : ByteOrder → ℕ → ℕ → Bytes
unfolding big_endian little_endian
store little w v = little_endian w v
store big w v = big_endian w v

unfoldable pub load : ByteOrder → Bytes → ℕ
unfolding of_big_endian of_little_endian
load little bs = of_little_endian bs
load big bs = of_big_endian 0 bs

-- `__builtin_bswap64` and its kin: the word whose bytes are those of `v` in reverse.
unfoldable pub byte_swap : ℕ → ℕ → ℕ
unfolding little_endian of_big_endian
byte_swap w v = of_big_endian 0 (little_endian w v)

-- htons, htonl and `fr_htonll` at widths 2, 4 and 8; ntohs, ntohl and `fr_ntohll` are the same
-- functions.
unfoldable pub hton : ByteOrder → ℕ → ℕ → ℕ
unfolding byte_swap
hton little w v = byte_swap w v
hton big w v = v
