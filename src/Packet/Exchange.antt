-- ===== src/Packet/Exchange.antt =====
-- A value that one host adds to a packet is extracted by another: words, strings, vectors and maps.
use frnetlib.Base.{ℕ, ◌+◌, ◌^◌, ◌<◌, ◌≡◌, arith, List, [], Bytes, length, All}
use frnetlib.Encoding.{ByteOrder, big_endian}
use frnetlib.Packet.{Packet, ok}
use frnetlib.Packet.{add_word, extract_word, add_string, extract_string}
use frnetlib.Encoding.Wire.{length-big_endian}
use frnetlib.Packet.Collections.{Packable, add_vector, extract_vector, add_map, extract_map}
use frnetlib.Packet.Codec.{
  IsValid, unread, advance, Lawful, word, word-Lawful, string, string-Lawful, encode_string,
}
use frnetlib.Packet.RoundTrip.{
  extract-add, vector, vector-Lawful, map_packable, map-Lawful, encode_vector, encode_pair,
  FitsPair, Distinct,
}

-- Where an added value lies in its packet, as three hypotheses: the packet is in order, everything in it has been read,
-- and `n` bytes more fit a string.
pub record HasRoom (n : ℕ) (p : Packet) : Type 0 where
  pub valid : IsValid p
  pub all_read : unread p ≡ []
  pub fits : length p.buffer + n < 2 ^ 63

-- A word of `w` bytes that was added on a host of either byte order is extracted on a host of either byte order, from a
-- packet with room whose bytes so far have all been read; the cursor is then behind it.
pub extract_word-add_word :
    (o o' : ByteOrder) (w v : ℕ) (p : Packet)
    → v < 256 ^ w
    → HasRoom w p
    → extract_word o' w (add_word o w v p) ≡ (ok v, advance w (add_word o w v p))
extract_word-add_word o o' w v p h r = rw (length-big_endian w v) at (
    extract-add (word o w) (big_endian w) _ (word-Lawful o w) (word o' w) (word-Lawful o' w) v p h
      r.valid r.all_read (omega (arith, length-big_endian w v, r.fits)))

-- A string of fewer than 2 ^ 32 bytes that was added on a host of either byte order is extracted on a host of either
-- byte order, from a packet with room whose bytes so far have all been read; the cursor is then behind it.
pub extract_string-add_string :
    (o o' : ByteOrder) (s : Bytes) (p : Packet)
    → length s < 2 ^ 32
    → HasRoom (length (encode_string s)) p
    → extract_string o' (add_string o s p)
      ≡ (ok s, advance (length (encode_string s)) (add_string o s p))
extract_string-add_string o o' s p h r =
    extract-add (string o) encode_string _ (string-Lawful o) (string o') (string-Lawful o') s p h
      r.valid r.all_read r.fits

-- A vector of fewer than 2 ^ 32 elements, each of which a packet gives back, is extracted again in its order, on a host
-- of either byte order, from a packet with room whose bytes so far have all been read.
pub extract_vector-add_vector :
    {A : Type 0} (c c' : Packable A) (encode : A → Bytes) (Fits : A → Type 0)
    → Lawful c encode Fits
    → Lawful c' encode Fits
    → (o o' : ByteOrder) (xs : List A) (p : Packet) → length xs < 2 ^ 32
    → All Fits xs
    → HasRoom (length (encode_vector encode xs)) p
    → extract_vector c' o' (add_vector c o xs p)
      ≡ (ok xs, advance (length (encode_vector encode xs)) (add_vector c o xs p))
extract_vector-add_vector c c' encode Fits l l' o o' xs p n h r =
    extract-add (vector c encode Fits l o) (encode_vector encode) _
      (vector-Lawful c encode Fits l o) (vector c' encode Fits l' o')
      (vector-Lawful c' encode Fits l' o') xs p (n, h) r.valid r.all_read r.fits

-- A map of fewer than 2 ^ 32 entries whose keys differ, and whose keys and values a packet gives back, is extracted
-- into an empty map as it was, with its entries in the order of their addition, on a host of either byte order, from a
-- packet with room whose bytes so far have all been read.
pub extract_map-add_map :
    {K V : Type 0} (same : Discrete K) (c c' : Packable K) (encode_k : K → Bytes)
    (FitsK : K → Type 0) (d d' : Packable V) (encode_v : V → Bytes) (FitsV : V → Type 0)
    → Lawful c encode_k FitsK
    → Lawful c' encode_k FitsK
    → Lawful d encode_v FitsV
    → Lawful d' encode_v FitsV
    → (o o' : ByteOrder) (m : List (K × V)) (p : Packet) → length m < 2 ^ 32
    → All (FitsPair FitsK FitsV) m
    → Distinct same [] m
    → HasRoom (length (encode_vector (encode_pair encode_k encode_v) m)) p
    → extract_map same c' d' o' [] (add_map same c d o m p) ≡ (
      ok m,
      advance (length (encode_vector (encode_pair encode_k encode_v) m)) (add_map same c d o m p),
    )
extract_map-add_map same c c' ek fk d d' ev fv k k' l l' o o' m p n h ds r =
    extract-add (map_packable same c ek fk d ev fv k l o) (encode_vector (encode_pair ek ev)) _
      (map-Lawful same c ek fk d ev fv k l o) (map_packable same c' ek fk d' ev fv k' l' o')
      (map-Lawful same c' ek fk d' ev fv k' l' o') m p (n, h, ds) r.valid r.all_read r.fits
