-- ===== src/Encoding/Wire.antt =====
-- Words on the wire: the bytes do not depend on the host.
use frnetlib.Base.{
  ℕ, zero, suc, ◌+◌, ◌*◌, ◌/◌, ◌%◌, ◌^◌, ◌≤◌, ◌<◌, ◌≡◌, refl, sym, ap, ◌∙◌, arith, [], ◌∷◌, ◌++◌,
  Bytes, IsByte, length, All,
}
use frnetlib.Encoding.{
  ByteOrder, little, big, big_endian, little_endian, of_big_endian, of_little_endian, store, load,
  byte_swap, hton,
}
use mathlib.Core.Path.{ap₂}
use mathlib.Core.List.{reverse, reverse-cons, reverse-reverse}
use native.Mathlib.Nat.{
  pow-suc, pow-succ', add_comm, mul_comm, mul-le-mul_right, mod-eq_of_lt, div-add-mod,
  div-div-eq-div-mul,
}

pub length-big_endian : (w v : ℕ) → length (big_endian w v) ≡ w
unfolding big_endian
length-big_endian zero v = refl
length-big_endian (suc w) v = ap suc (length-big_endian w v)

pub big_endian-IsByte : (w v : ℕ) → All IsByte (big_endian w v)
unfolding big_endian
big_endian-IsByte zero v = tt
big_endian-IsByte (suc w) v = (omega arith, big_endian-IsByte w v)

-- The lowest digits of `v` in a number system: one digit more, in front of those below it.
split_digit : (v m : ℕ) → v % (m * 256) ≡ v / m % 256 * m + v % m
split_digit v m =
    let whole : m * 256 * (v / m / 256) + v % (m * 256) ≡ v =
      rw (div-div-eq-div-mul v m 256) (div-add-mod v (m * 256)) in
    omega (arith, whole, div-add-mod v m, ap (λ (t : ℕ). m * t) (div-add-mod (v / m) 256))

of_big_endian-big_endian :
    (w v acc : ℕ) → of_big_endian acc (big_endian w v) ≡ acc * 256 ^ w + v % 256 ^ w
unfolding big_endian of_big_endian
of_big_endian-big_endian zero v acc = omega arith
of_big_endian-big_endian (suc w) v acc =
    of_big_endian-big_endian w v (acc * 256 + v / 256 ^ w % 256)
    ∙ rw (pow-suc 256 w) (omega (arith, split_digit v (256 ^ w)))

big_endian_last : (w v : ℕ) → big_endian (suc w) v ≡ big_endian w (v / 256) ++ (v % 256) ∷ []
unfolding big_endian
big_endian_last zero v = ap (λ (t : ℕ). t ∷ []) (omega arith)
big_endian_last (suc w) v = ap₂ ◌∷◌ top (big_endian_last w v)
  where
    top : v / 256 ^ suc w % 256 ≡ v / 256 / 256 ^ w % 256
    top = rw (div-div-eq-div-mul v 256 (256 ^ w), pow-succ' 256 w)

big_endian-reverse : (w v : ℕ) → big_endian w v ≡ reverse (little_endian w v)
unfolding little_endian
big_endian-reverse zero v = unfold big_endian in refl
big_endian-reverse (suc w) v =
    big_endian_last w v
    ∙ ap (λ t. t ++ v % 256 ∷ []) (big_endian-reverse w (v / 256))
    ∙ sym (reverse-cons (v % 256) (little_endian w (v / 256)))

of_big_endian_last :
    (bs : Bytes) (b acc : ℕ) → of_big_endian acc (bs ++ b ∷ []) ≡ of_big_endian acc bs * 256 + b
unfolding of_big_endian
of_big_endian_last [] b acc = refl
of_big_endian_last (x ∷ bs) b acc = of_big_endian_last bs b (acc * 256 + x)

digit :
    (b n : ℕ) (bs : Bytes)
    → b < 256
    → little_endian (length bs) n ≡ bs
    → ((n * 256 + b) % 256) ∷ little_endian (length bs) ((n * 256 + b) / 256) ≡ b ∷ bs
digit b n bs h e =
    let low : (n * 256 + b) % 256 ≡ b = omega arith in
    let high : (n * 256 + b) / 256 ≡ n = omega arith in rw (low, high, e)

little_endian-of_big_endian :
    (bs : Bytes) (acc : ℕ)
    → All IsByte bs
    → little_endian (length bs) (of_big_endian acc (reverse bs)) ≡ bs
unfolding little_endian
little_endian-of_big_endian [] acc h = refl
little_endian-of_big_endian (b ∷ bs) acc h =
    rw (reverse-cons b bs, of_big_endian_last (reverse bs) b acc)
      (digit b (of_big_endian acc (reverse bs)) bs h.0 (little_endian-of_big_endian bs acc h.1))

little_endian-of_little_endian :
    (bs : Bytes) → All IsByte bs → little_endian (length bs) (of_little_endian bs) ≡ bs
unfolding little_endian of_little_endian
little_endian-of_little_endian [] h = refl
little_endian-of_little_endian (b ∷ bs) h =
    rw (add_comm b (256 * of_little_endian bs), mul_comm 256 (of_little_endian bs))
      (digit b (of_little_endian bs) bs h.0 (little_endian-of_little_endian bs h.1))

little_endian-reverse : (w v : ℕ) → little_endian w v ≡ reverse (big_endian w v)
little_endian-reverse w v = sym (ap reverse (big_endian-reverse w v) ∙ reverse-reverse _)

byte_swap-big_endian : (w v : ℕ) → little_endian w (byte_swap w v) ≡ big_endian w v
unfolding byte_swap
byte_swap-big_endian w v = rw (little_endian-reverse w v) (
    rw (length-big_endian w v) at
      (little_endian-of_big_endian (big_endian w v) 0 (big_endian-IsByte w v)))

-- Whatever the host's byte order, the bytes in memory of a word that went through hton are the word's
-- bytes with the most significant first.
pub store-hton : (o : ByteOrder) (w v : ℕ) → store o w (hton o w v) ≡ big_endian w v
unfolding store hton
store-hton little w v = byte_swap-big_endian w v
store-hton big w v = refl

-- On bytes received, ntoh of the word loaded from memory is the number they spell, the most
-- significant first, whatever the host's byte order.
pub hton-load :
    (o : ByteOrder) (bs : Bytes)
    → All IsByte bs
    → hton o (length bs) (load o bs) ≡ of_big_endian 0 bs
unfolding load hton
hton-load little bs h = ap (of_big_endian 0) (little_endian-of_little_endian bs h)
hton-load big bs h = refl

-- A word that fits `w` bytes is read back from its bytes on the wire.
pub hton-load-big_endian :
    (o : ByteOrder) (w v : ℕ) → v < 256 ^ w → hton o w (load o (big_endian w v)) ≡ v
hton-load-big_endian o w v h =
    (rw (length-big_endian w v) at (hton-load o (big_endian w v) (big_endian-IsByte w v)))
    ∙ of_big_endian-big_endian w v 0
    ∙ rw (mod-eq_of_lt h) (omega arith)

-- The number that `n` bytes spell fits `n` bytes.
pub of_big_endian-lt :
    (bs : Bytes) (acc : ℕ) → All IsByte bs → of_big_endian acc bs < (acc + 1) * 256 ^ length bs
unfolding of_big_endian
of_big_endian-lt [] acc h = omega arith
of_big_endian-lt (b ∷ bs) acc h =
    let below = of_big_endian-lt bs (acc * 256 + b) h.1 in
    let room : (b + 1) * 256 ^ length bs ≤ 256 * 256 ^ length bs =
      mul-le-mul_right (256 ^ length bs) (omega arith) in
    rw (pow-suc 256 (length bs)) (omega (arith, below, room))

length-little_endian : (w v : ℕ) → length (little_endian w v) ≡ w
unfolding little_endian
length-little_endian zero v = refl
length-little_endian (suc w) v = ap suc (length-little_endian w (v / 256))

pub length-store : (o : ByteOrder) (w v : ℕ) → length (store o w v) ≡ w
unfolding store
length-store little w v = length-little_endian w v
length-store big w v = length-big_endian w v
