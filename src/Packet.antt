-- ===== src/Packet.antt =====
-- include/frnetlib/Packet.h: the buffer, its read cursor, and the operators that add and extract
-- values. An exception leaves the packet as far as it was read, so an extraction returns the packet
-- beside its result.
pub mod Codec
pub mod Cursor
pub mod Collections
pub mod RoundTrip
pub mod Exchange
pub mod Undefined
pub mod Transfer
pub mod Delivery
pub mod Arrival
pub mod Journey
pub mod Safety
mod Tests
use frnetlib.Base.{
  ℕ, zero, suc, ◌+◌, ◌-◌, ◌%◌, ◌^◌, ◌≤◌, ◌<◌, Bool, true, false, List, [], ◌∷◌, ◌++◌, Bytes, ltb,
  leb, ◌==◌, if◌then◌else◌, length, take, drop, replicate,
}
use frnetlib.Encoding.{ByteOrder, store, load, hton}

-- `out_of_range` is the exception. `undefined` is no C++ value: the code would read outside the
-- buffer.
pub data Failure : Type 0 where
  out_of_range undefined : Failure

pub data Result {ℓ} (A : Type ℓ) : Type ℓ where
  ok : A → Result A
  fail : Failure → Result A

pub record Packet : Type 0 where
  pub buffer : Bytes
  pub buffer_read_index : ℕ

abbrev pub M : Type 0 → Type 0
M A = Packet → Result A × Packet

abbrev pub pure : {A : Type 0} → A → M A
pure a p = (ok a, p)

abbrev pub bind_result : {A B : Type 0} → Result A × Packet → (A → M B) → Result B × Packet
bind_result (ok a, p) f = f a p
bind_result (fail e, p) f = (fail e, p)

abbrev pub ◌>>=◌ : {A B : Type 0} (m : M A) (next : A → M B) → M B
◌>>=◌ m next p = bind_result (m p) next

abbrev pub ◌>>◌ : {B : Type 0} (m : M (Unit {0})) (next : M B) → M B
◌>>◌ m next p = bind_result (m p) (λ done. next)

infixl 5 ◌>>=◌ ◌>>◌
-- PACKET_HEADER_LENGTH, and the range of `size_t`.
abbrev pub header_length : ℕ
header_length = 4

abbrev pub size_mod : ℕ
size_mod = 2 ^ 64

-- The default constructor; the header's place holds '0' characters.
unfoldable pub new_packet : Packet
new_packet = record { buffer = replicate header_length b'0'; buffer_read_index = header_length }

unfoldable pub clear : Packet → Packet
clear p = record { buffer = replicate header_length 0; buffer_read_index = header_length }

unfoldable pub set_buffer : Bytes → Packet → Packet
set_buffer bs p = record p { buffer = bs }

unfoldable pub add_raw : Bytes → Packet → Packet
add_raw bs p = record p { buffer = p.buffer ++ bs }

-- The sum of two `size_t` wraps.
unfoldable pub assert_bytes_remaining : ℕ → M (Unit {0})
assert_bytes_remaining n p = (
  if ltb (length p.buffer) ((p.buffer_read_index + n) % size_mod) then fail out_of_range else ok tt,
  p,
)

-- `memcpy` from the cursor on, and the advance of the cursor.
unfoldable pub read_bytes : ℕ → M Bytes
read_bytes n p =
    if leb (p.buffer_read_index + n) (length p.buffer)
    then (
      ok (take n (drop p.buffer_read_index p.buffer)),
      record p { buffer_read_index = p.buffer_read_index + n },
    )
    else (fail undefined, p)

unfoldable pub extract_raw : ℕ → M Bytes
extract_raw n = do assert_bytes_remaining n; read_bytes n

-- The common body of the operators on words of `w` bytes: hton, then an append of the word's memory;
-- a check, a `memcpy` into the word, then ntoh. A signed integer is its two's complement pattern and
-- a float its bit pattern, which the casts and the calls of `memcpy` leave as it is.
unfoldable pub add_word : ByteOrder → ℕ → ℕ → Packet → Packet
add_word o w v = add_raw (store o w (hton o w v))

unfoldable pub extract_word : ByteOrder → ℕ → M ℕ
extract_word o w = do assert_bytes_remaining w; bs ← read_bytes w; pure (hton o w (load o bs))

-- `strlen` stops at the first zero byte.
abbrev pub until_nul : Bytes → Bytes
until_nul [] = []
until_nul (b ∷ bs) = if b == 0 then [] else b ∷ until_nul bs

module _ (o : ByteOrder) where
  unfoldable pub add_u8 : ℕ → Packet → Packet
  add_u8 v = add_raw (store o 1 v)

  unfoldable pub extract_u8 : M ℕ
  extract_u8 = do assert_bytes_remaining 1; bs ← read_bytes 1; pure (load o bs)

  unfoldable pub add_u16 : ℕ → Packet → Packet
  add_u16 = add_word o 2

  unfoldable pub extract_u16 : M ℕ
  extract_u16 = extract_word o 2

  unfoldable pub add_u32 : ℕ → Packet → Packet
  add_u32 = add_word o 4

  unfoldable pub extract_u32 : M ℕ
  extract_u32 = extract_word o 4

  unfoldable pub add_u64 : ℕ → Packet → Packet
  add_u64 = add_word o 8

  unfoldable pub extract_u64 : M ℕ
  extract_u64 = extract_word o 8

  unfoldable pub add_i16 : ℕ → Packet → Packet
  add_i16 = add_word o 2

  unfoldable pub extract_i16 : M ℕ
  extract_i16 = extract_word o 2

  unfoldable pub add_i32 : ℕ → Packet → Packet
  add_i32 = add_word o 4

  unfoldable pub extract_i32 : M ℕ
  extract_i32 = extract_word o 4

  unfoldable pub add_i64 : ℕ → Packet → Packet
  add_i64 = add_word o 8

  unfoldable pub extract_i64 : M ℕ
  extract_i64 = extract_word o 8

  -- An enumerator is sent as its value cast to uint32_t.
  unfoldable pub add_enum : ℕ → Packet → Packet
  add_enum v = add_u32 (v % 2 ^ 32)

  -- The cast to an enumeration whose underlying type has `w` bytes, four at most, keeps the low bytes.
  unfoldable pub extract_enum : ℕ → M ℕ
  extract_enum w = do v ← extract_u32; pure (v % 256 ^ w)

  unfoldable pub add_float : ℕ → Packet → Packet
  add_float = add_word o 4

  unfoldable pub extract_float : M ℕ
  extract_float = extract_word o 4

  unfoldable pub add_double : ℕ → Packet → Packet
  add_double = add_word o 8

  unfoldable pub extract_double : M ℕ
  extract_double = extract_word o 8

  -- A `bool` is the byte that it occupies in memory, 0 for false and 1 for true; the extraction copies any byte there.
  unfoldable pub add_bool : ℕ → Packet → Packet
  add_bool v = add_raw (store o 1 v)

  unfoldable pub extract_bool : M ℕ
  extract_bool = do assert_bytes_remaining 1; bs ← read_bytes 1; pure (load o bs)

  unfoldable pub add_string : Bytes → Packet → Packet
  add_string s p = add_raw s (add_u32 (length s % 2 ^ 32) p)

  unfoldable pub extract_string : M Bytes
  extract_string = do n ← extract_u32; assert_bytes_remaining n; read_bytes n

  unfoldable pub add_c_string : Bytes → Packet → Packet
  add_c_string s p = let n = length (until_nul s) % 2 ^ 32 in add_raw (take n s) (add_u32 n p)
