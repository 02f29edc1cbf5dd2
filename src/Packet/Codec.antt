-- ===== src/Packet/Codec.antt =====
-- What it means that a packet gives a value back, and that it does, for each operator on scalars.
use frnetlib.Base.{
  ℕ, ◌+◌, ◌^◌, ◌≤◌, ◌<◌, ◌≡◌, refl, sym, ap, ◌∙◌, arith, [], ◌∷◌, ◌++◌, Bytes, length,
  length-append, take, drop, take-append, drop-append, drop-drop, length-drop, append_assoc,
}
use frnetlib.Encoding.{ByteOrder, big_endian, load, hton, store, little, big}
use frnetlib.Encoding.Wire.{store-hton, hton-load-big_endian, length-big_endian}
use frnetlib.Packet.{Packet, ok, M, ◌>>=◌, ◌>>◌, pure}
use frnetlib.Packet.{assert_bytes_remaining, read_bytes, add_word, extract_word, add_raw}
use frnetlib.Packet.{
  add_u8, extract_u8, add_u16, extract_u16, add_u32, extract_u32, add_u64, extract_u64, add_bool,
  extract_bool, add_string, extract_string,
}
use native.Mathlib.Nat.{mod-eq_of_lt}
use frnetlib.Packet.Collections.{Packable}

-- The cursor stands in the buffer, behind the header; a `std::string` holds less than 2 ^ 63 bytes.
pub record IsValid (p : Packet) : Type 0 where
  pub behind_header : 4 ≤ p.buffer_read_index
  pub in_buffer : p.buffer_read_index ≤ length p.buffer
  pub fits : length p.buffer < 2 ^ 63

-- What is still to be read, and the packet after `n` bytes of it were read.
abbrev pub unread : Packet → Bytes
unread p = drop p.buffer_read_index p.buffer

abbrev pub advance : ℕ → Packet → Packet
advance n p = record p { buffer_read_index = p.buffer_read_index + n }

-- `c` writes the bytes `encode a` for `a`, and reads `a` back from them, whatever follows.
pub record Lawful {A : Type 0} (c : Packable A) (encode : A → Bytes) (Fits : A → Type 0)
    : Type 0 where
  pub add_lem : (a : A) (p : Packet) → Fits a → c.add a p ≡ add_raw (encode a) p
  pub extract_lem :
      (a : A) (rest : Bytes) (p : Packet)
      → Fits a
      → IsValid p
      → unread p ≡ encode a ++ rest
      → c.extract p ≡ (ok a, advance (length (encode a)) p)

-- What the bytes to be read begin with lies in the buffer.
pub unread_fits :
    (bs rest : Bytes) (p : Packet)
    → IsValid p
    → unread p ≡ bs ++ rest
    → p.buffer_read_index + length bs ≤ length p.buffer
unread_fits bs rest p v e =
    omega (
      arith,
      ap (length {A = ℕ}) e,
      length-drop p.buffer_read_index p.buffer,
      length-append bs rest,
    )

pub advance-IsValid :
    (bs rest : Bytes) (p : Packet)
    → IsValid p
    → unread p ≡ bs ++ rest
    → IsValid (advance (length bs) p)
advance-IsValid bs rest p v e = record {
  behind_header = omega arith;
  in_buffer = unread_fits bs rest p v e;
  fits = v.fits;
}

pub unread-advance :
    (bs rest : Bytes) (p : Packet) → unread p ≡ bs ++ rest → unread (advance (length bs) p) ≡ rest
unread-advance bs rest p e =
    sym (drop-drop p.buffer_read_index (length bs) p.buffer (p.buffer_read_index + length bs) refl)
    ∙ ap (drop (length bs)) e
    ∙ drop-append bs rest (length bs) refl

pub assert_bytes_remaining_lem :
    (n : ℕ) (p : Packet)
    → IsValid p
    → p.buffer_read_index + n ≤ length p.buffer
    → assert_bytes_remaining n p ≡ (ok tt, p)
unfolding assert_bytes_remaining
assert_bytes_remaining_lem n p v h = ground arith

pub read_bytes_lem :
    (bs rest : Bytes) (n : ℕ) (p : Packet)
    → IsValid p
    → unread p ≡ bs ++ rest
    → length bs ≡ n
    → read_bytes n p ≡ (ok bs, advance n p)
unfolding read_bytes
read_bytes_lem bs rest n p v e h =
    ground (arith, unread_fits bs rest p v e, ap (take n) e, take-append bs rest n h)

-- A check and a copy, at bytes that are there, hand those bytes to what follows.
pub take_bytes_lem :
    {B : Type 0} (f : Bytes → M B) (bs rest : Bytes) (n : ℕ) (p : Packet)
    → IsValid p
    → unread p ≡ bs ++ rest
    → length bs ≡ n
    → (assert_bytes_remaining n >> (read_bytes n >>= f)) p ≡ f bs (advance n p)
take_bytes_lem f bs rest n p v e h =
    rw (assert_bytes_remaining_lem n p v (omega (arith, unread_fits bs rest p v e)))
      (rw (read_bytes_lem bs rest n p v e h))

abbrev pub word : ByteOrder → ℕ → Packable ℕ
word o w = record { add = add_word o w; extract = extract_word o w }

-- Words of `w` bytes travel in network order, whatever the host's byte order is.
pub word-Lawful : (o : ByteOrder) (w : ℕ) → Lawful (word o w) (big_endian w) (λ v. v < 256 ^ w)
unfolding add_word extract_word
word-Lawful o w = record {
  add_lem = λ v p h. ap (λ t. add_raw t p) (store-hton o w v);
  extract_lem = λ v rest p h valid e.
      take_bytes_lem (λ bs. pure (hton o w (load o bs))) (big_endian w v) rest w p valid e
        (length-big_endian w v)
      ∙ rw (hton-load-big_endian o w v h, length-big_endian w v);
}

-- The names of the operators at each scalar type.
module _ (o : ByteOrder) where
  abbrev pub u8 : Packable ℕ
  u8 = record { add = add_u8 o; extract = extract_u8 o }

  abbrev pub u16 : Packable ℕ
  u16 = record { add = add_u16 o; extract = extract_u16 o }

  abbrev pub u32 : Packable ℕ
  u32 = record { add = add_u32 o; extract = extract_u32 o }

  abbrev pub u64 : Packable ℕ
  u64 = record { add = add_u64 o; extract = extract_u64 o }

  abbrev pub boolean : Packable ℕ
  boolean = record { add = add_bool o; extract = extract_bool o }

  abbrev pub string : Packable Bytes
  string = record { add = add_string o; extract = extract_string o }

-- A single byte is the same in both byte orders.
store_byte : (o : ByteOrder) (v : ℕ) → v < 256 → store o 1 v ≡ v ∷ []
unfolding store
store_byte little v h = ap (λ t. t ∷ []) (omega arith)
store_byte big v h = ap (λ t. t ∷ []) (omega arith)

pub load_byte : (o : ByteOrder) (v : ℕ) → load o (v ∷ []) ≡ v
unfolding load
load_byte little v = omega arith
load_byte big v = omega arith

pub u8-Lawful : (o : ByteOrder) → Lawful (u8 o) (λ v. v ∷ []) (λ v. v < 256)
unfolding add_u8 extract_u8
u8-Lawful o = record {
  add_lem = λ v p h. ap (λ t. add_raw t p) (store_byte o v h);
  extract_lem = λ v rest p h valid e.
      take_bytes_lem (λ bs. pure (load o bs)) (v ∷ []) rest 1 p valid e refl ∙ rw (load_byte o v);
}

pub boolean-Lawful : (o : ByteOrder) → Lawful (boolean o) (λ v. v ∷ []) (λ v. v < 256)
unfolding add_bool extract_bool
boolean-Lawful o = record {
  add_lem = λ v p h. ap (λ t. add_raw t p) (store_byte o v h);
  extract_lem = λ v rest p h valid e.
      take_bytes_lem (λ bs. pure (load o bs)) (v ∷ []) rest 1 p valid e refl ∙ rw (load_byte o v);
}

-- An extraction followed by more, on bytes that begin with a value's encoding.
pub extract-bind :
    {A B : Type 0} (c : Packable A) (encode : A → Bytes) (Fits : A → Type 0) (f : A → M B)
    → Lawful c encode Fits
    → (a : A) (rest : Bytes) (p : Packet) → Fits a
    → IsValid p
    → unread p ≡ encode a ++ rest
    → (c.extract >>= f) p ≡ f a (advance (length (encode a)) p)
extract-bind c encode Fits f l a rest p h v e = rw (l.extract_lem a rest p h v e)

pub advance-advance : (m n k : ℕ) (p : Packet) → m + n ≡ k → advance n (advance m p) ≡ advance k p
advance-advance m n k p e = ap (λ t. record p { buffer_read_index = t }) (omega arith)

pub add_raw-add_raw : (a b : Bytes) (p : Packet) → add_raw b (add_raw a p) ≡ add_raw (a ++ b) p
unfolding add_raw
add_raw-add_raw a b p = ap (λ t. record p { buffer = t }) (append_assoc p.buffer a b)

abbrev pub encode_string : Bytes → Bytes
encode_string s = big_endian 4 (length s) ++ s

pub string-Lawful : (o : ByteOrder) → Lawful (string o) encode_string (λ s. length s < 2 ^ 32)
unfolding add_string extract_string add_u32 extract_u32
string-Lawful o = record {
  add_lem = λ s p h.
      rw (mod-eq_of_lt h, (word-Lawful o 4).add_lem (length s) p h) (add_raw-add_raw _ s p);
  extract_lem = λ s rest p h valid e.
      let prefix = big_endian 4 (length s) in
      let e' : unread p ≡ prefix ++ (s ++ rest) = e ∙ append_assoc prefix s rest in
      let q = advance (length prefix) p in
      let v' = advance-IsValid prefix (s ++ rest) p valid e' in
      let u = unread-advance prefix (s ++ rest) p e' in
      let room = unread_fits s rest q v' u in
      extract-bind (word o 4) _ _ (λ n. assert_bytes_remaining n >> read_bytes n) (word-Lawful o 4)
        (length s) (s ++ rest) p h valid e'
      ∙ rw (assert_bytes_remaining_lem (length s) q v' room) (read_bytes_lem s rest _ q v' u refl)
      ∙ ap (λ t. (ok s, t)) (advance-advance _ (length s) _ p (sym (length-append prefix s)));
}
