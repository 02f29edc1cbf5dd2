-- ===== src/Packet/Undefined.antt =====
-- An operation that can be driven into undefined behaviour: the size given to `extract_raw` can wrap around the check.
use frnetlib.Base.{ℕ, ◌+◌, ◌^◌, ◌≤◌, ◌<◌, ◌≡◌, ◌↔◌, arith}
use frnetlib.Packet.{Packet, fail, undefined, assert_bytes_remaining, read_bytes, extract_raw}
use frnetlib.Packet.Codec.{IsValid}

-- On a valid packet `extract_raw` of any `size_t` is undefined exactly when the cursor and the size add up
-- to 2 ^ 64 or more.
pub extract_raw-undefined :
    (n : ℕ) (p : Packet)
    → IsValid p
    → n < 2 ^ 64
    → ((extract_raw n p).0 ≡ fail undefined) ↔ (2 ^ 64 ≤ p.buffer_read_index + n)
unfolding extract_raw assert_bytes_remaining read_bytes
extract_raw-undefined n p v small = ground arith
