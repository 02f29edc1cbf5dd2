-- ===== src/Packet/Cursor.antt =====
-- include/frnetlib/Packet.h: the read cursor as a position, and that every operation keeps it in place.
use frnetlib.Base.{
  ℤ, pos, negsuc, ℕ, suc, ◌+◌, ◌-◌, ◌%◌, ◌^◌, ◌≤◌, ◌<◌, ap, arith, Bool, true, ◌≡◌, refl, ◌||◌,
  Bytes, length, length-append, ltb, leb, if◌then◌else◌, min,
}
use frnetlib.Encoding.{ByteOrder}
use frnetlib.Packet.{
  Packet, fail, out_of_range, header_length, size_mod, new_packet, clear, set_buffer, add_raw,
  extract_word, assert_bytes_remaining,
}
use frnetlib.Packet.Codec.{IsValid}

-- The word of 64 bits that stands for a `ssize_t`.
abbrev to_word : ℤ → ℕ
to_word (pos n) = n % size_mod
to_word (negsuc n) = size_mod - 1 - n % size_mod

-- A word that a `ssize_t` reads as a negative number.
abbrev is_negative : ℕ → Bool
is_negative v = leb (2 ^ 63) v

unfoldable pub set_cursor : ℕ → Packet → Packet
set_cursor n p =
    let moved = (header_length + n) % size_mod in
    record p { buffer_read_index = if ltb (length p.buffer) moved then length p.buffer else moved }

-- The difference of two `size_t` wraps.
unfoldable pub get_cursor : Packet → ℕ
get_cursor p = (p.buffer_read_index + size_mod - header_length) % size_mod

unfoldable pub get_bytes_remaining : Packet → ℕ
get_bytes_remaining p = (length p.buffer + size_mod - p.buffer_read_index) % size_mod

unfoldable pub size : Packet → ℕ
size p = if leb (length p.buffer) header_length then 0 else length p.buffer - header_length

-- `buffer_read_index + pos` is computed as `size_t`, and read as `ssize_t` by both tests.
unfoldable pub seek_cursor : ℤ → Packet → Packet
seek_cursor n p =
    let sum = (p.buffer_read_index + to_word n) % size_mod in
    let raised = if is_negative sum || ltb sum header_length then header_length else sum in
    record p {
      buffer_read_index = if ltb (length p.buffer) raised then length p.buffer else raised;
    }

-- Where the relative move ends: at the nearest place in the packet.
abbrev target : ℤ → Packet → ℕ
target (pos n) p = min (p.buffer_read_index + n) (length p.buffer)
target (negsuc n) p =
    if leb (header_length + suc n) p.buffer_read_index
    then p.buffer_read_index - suc n
    else header_length

-- The moves for which the sum is still an `ssize_t`.
abbrev InRange : ℤ → Packet → Type 0
InRange (pos n) p = p.buffer_read_index + n < 2 ^ 63
InRange (negsuc n) p = n < 2 ^ 63

-- On a valid packet a relative seek goes to the nearest place in the packet, if the sum of the cursor and a move forward
-- is below 2 ^ 63, or a move back is of 2 ^ 63 at most.
pub seek_cursor-target :
    (n : ℤ) (p : Packet)
    → IsValid p
    → InRange n p
    → seek_cursor n p ≡ record p { buffer_read_index = target n p }
unfolding seek_cursor
seek_cursor-target (pos n) p v h = ap (λ t. record p { buffer_read_index = t }) (ground arith)
seek_cursor-target (negsuc n) p v h = ap (λ t. record p { buffer_read_index = t }) (ground arith)

-- A seek so far forward that the sum leaves the range of `ssize_t` goes to the start of the packet.
pub seek_cursor_overflow :
    (n : ℕ) (p : Packet)
    → IsValid p
    → n < 2 ^ 63
    → 2 ^ 63 ≤ p.buffer_read_index + n
    → seek_cursor (pos n) p ≡ record p { buffer_read_index = header_length }
unfolding seek_cursor
seek_cursor_overflow n p v h k = ap (λ t. record p { buffer_read_index = t }) (ground arith)

-- The cursor stays in place under every seek, whatever its argument.
pub seek_cursor-IsValid : (n : ℤ) (p : Packet) → IsValid p → IsValid (seek_cursor n p)
unfolding seek_cursor
seek_cursor-IsValid n p v = ground arith

-- An absolute seek goes to the position asked for, or to the end; it is then read back, the rest of the
-- packet is what remains, and the cursor is in place.
pub set_cursor_lem :
    (n : ℕ) (p : Packet)
    → IsValid p
    → n < 2 ^ 63
    → (get_cursor (set_cursor n p) ≡ min n (size p))
      × (get_bytes_remaining (set_cursor n p) ≡ size p - n)
      × IsValid (set_cursor n p)
unfolding set_cursor get_cursor get_bytes_remaining size
set_cursor_lem n p v h = ground arith

-- Adding bytes, at a cursor in place, leaves it in place, and grows the size and what remains by as
-- many.
pub add_raw_lem :
    (bs : Bytes) (p : Packet)
    → IsValid p
    → length p.buffer + length bs < 2 ^ 63
    → IsValid (add_raw bs p)
      × (size (add_raw bs p) ≡ size p + length bs)
      × (get_bytes_remaining (add_raw bs p) ≡ get_bytes_remaining p + length bs)
unfolding add_raw size get_bytes_remaining
add_raw_lem bs p v h = ground (arith, length-append p.buffer bs)

-- An empty packet, new or cleared, is in order and has nothing to read.
pub new_packet_lem :
    (p : Packet)
    → IsValid new_packet
      × IsValid (clear p)
      × (size (clear p) ≡ 0)
      × (get_bytes_remaining (clear p) ≡ 0)
      × (size new_packet ≡ 0)
unfolding new_packet clear size get_bytes_remaining
new_packet_lem p = ground arith

-- On a valid packet whose buffer is replaced by one that ends in front of the cursor, the number of bytes that remain
-- wraps around: it is 2 ^ 64 less the distance from the end to the cursor. The extraction of a word, of a size below
-- 2 ^ 63, still fails with the exception.
pub get_bytes_remaining-set_buffer :
    (o : ByteOrder) (w : ℕ) (bs : Bytes) (p : Packet)
    → IsValid p
    → length bs < p.buffer_read_index
    → w < 2 ^ 63
    → (get_bytes_remaining (set_buffer bs p) ≡ 2 ^ 64 - (p.buffer_read_index - length bs))
      × ((extract_word o w (set_buffer bs p)).0 ≡ fail out_of_range)
unfolding set_buffer get_bytes_remaining extract_word assert_bytes_remaining
get_bytes_remaining-set_buffer o w bs p v short h =
    let beyond : ltb (length bs) ((p.buffer_read_index + w) % size_mod) ≡ true =
      (let k : (p.buffer_read_index + w) % size_mod ≡ p.buffer_read_index + w =
          omega (arith, v.in_buffer, v.fits) in
        rw k (ground arith)) in
    (omega (arith, v.in_buffer, v.fits), rw beyond refl)
