-- ===== src/Base64/RoundTrip.antt =====
-- What `encode` returns decodes to its input.
use frnetlib.Base.{
  ℕ, zero, suc, ◌+◌, ◌*◌, ◌/◌, ◌%◌, ◌^◌, ◌<◌, ◌≤◌, ◌≡◌, ◌≢◌, ◌↔◌, refl, sym, ap, ◌∙◌, arith, true,
  false, [], ◌∷◌, ◌++◌, none, some, Bytes, IsByte, All, leb, ◌==◌, length, Bool-cases, inl, inr,
  drop, drop-drop,
}
use frnetlib.Base64.{
  at, first, second, third, fourth, second_alone, third_alone, group, remainder, in_loop,
  encode_from, encode,
}
use frnetlib.Base64.Decode.{
  before, place, decode, place-at, at-padding, parts_lem, second_lem, third_lem, second_alone_lem,
  third_alone_lem,
}

decode_four :
    (p q r s : ℕ) (rest : Bytes)
    → (s == b'=') ≡ false
    → decode (p ∷ q ∷ r ∷ s ∷ rest)
      ≡ before
          (place p * 4 + place q / 16)
          (place q % 16 * 16 + place r / 4)
          (place r % 4 * 64 + place s)
          (decode rest)
unfolding decode
decode_four p q r s rest e = rw e

decode_group :
    (x y z : ℕ) (rest : Bytes)
    → x < 256
    → y < 256
    → z < 256
    → decode (at (first x) ∷ at (second x y) ∷ at (third y z) ∷ at (fourth z) ∷ rest)
      ≡ before x y z (decode rest)
decode_group x y z rest hx hy hz =
    let i : first x < 64 = omega (arith, (parts_lem hx).0) in
    let j : second x y < 64 = omega (arith, second_lem x y hx hy) in
    let k : third y z < 64 = omega (arith, third_lem y z hy hz) in
    let l : fourth z < 64 = omega (arith, (parts_lem hz).1) in
    let a : first x * 4 + second x y / 16 ≡ x =
      omega (arith, (parts_lem hx).0, second_lem x y hx hy) in
    let b : second x y % 16 * 16 + third y z / 4 ≡ y =
      omega (arith, second_lem x y hx hy, third_lem y z hy hz) in
    let c : third y z % 4 * 64 + fourth z ≡ z =
      omega (arith, third_lem y z hy hz, (parts_lem hz).1) in
    decode_four (at (first x)) (at (second x y)) (at (third y z)) (at (fourth z)) rest
      (at-padding l)
    ∙ rw (place-at i, place-at j, place-at k, place-at l, a, b, c)

decode_one : (x : ℕ) → x < 256 → decode (remainder (x ∷ [])) ≡ some (x ∷ [])
unfolding decode
decode_one x hx =
    let i : first x < 64 = omega (arith, (parts_lem hx).0) in
    let j : second_alone x < 64 = omega (arith, second_alone_lem x hx) in
    let a : first x * 4 + second_alone x / 16 ≡ x =
      omega (arith, (parts_lem hx).0, second_alone_lem x hx) in
    rw (place-at i, place-at j, a)

decode_two : (x y : ℕ) → x < 256 → y < 256 → decode (remainder (x ∷ y ∷ [])) ≡ some (x ∷ y ∷ [])
unfolding decode
decode_two x y hx hy =
    let i : first x < 64 = omega (arith, (parts_lem hx).0) in
    let j : second x y < 64 = omega (arith, second_lem x y hx hy) in
    let k : third_alone y < 64 = omega (arith, third_alone_lem y hy) in
    let a : first x * 4 + second x y / 16 ≡ x =
      omega (arith, (parts_lem hx).0, second_lem x y hx hy) in
    let b : second x y % 16 * 16 + third_alone y / 4 ≡ y =
      omega (arith, second_lem x y hx hy, third_alone_lem y hy) in
    rw (at-padding k, place-at i, place-at j, place-at k, a, b)

-- One round of the loop.
loop_ends :
    (fuel : ℕ) (input : Bytes) (a : ℕ)
    → in_loop a (length input) ≡ false
    → encode_from (suc fuel) input a ≡ some (remainder (drop a input))
unfolding encode_from
loop_ends fuel input a h = rw h

loop_goes_on :
    (fuel : ℕ) (input : Bytes) (a : ℕ) {out : Bytes}
    → in_loop a (length input) ≡ true
    → leb (a + 3) (length input) ≡ true
    → encode_from fuel input (a + 3) ≡ some out
    → encode_from (suc fuel) input a ≡ some (group (drop a input) ++ out)
unfolding encode_from
loop_goes_on fuel input a h k e = rw (h, k, e, encode_from)

in_loop_lem : (a n : ℕ) → 2 ≤ n → n < 2 ^ 63 → a ≤ n → (in_loop a n ≡ true) ↔ (a + 3 ≤ n)
unfolding in_loop
in_loop_lem a n h k l = ground arith

not_in_loop : (a n : ℕ) → 2 ≤ n → n < 2 ^ 63 → a ≤ n → n < a + 3 → in_loop a n ≡ false
unfolding in_loop
not_in_loop a n h k l m = ground arith

-- The text for the input from `a` on, and its length.
abbrev Encoded : ℕ → Bytes → ℕ → Bytes → Type 0
Encoded fuel input a bs =
    (out : Bytes) × (encode_from fuel input a ≡ some out)
    × (decode out ≡ some bs)
    × (length out ≡ (length bs + 2) / 3 * 4)

encode_from_end :
    (fuel : ℕ) (input : Bytes) (a : ℕ) (bs : Bytes)
    → drop a input ≡ bs
    → in_loop a (length input) ≡ false
    → decode (remainder bs) ≡ some bs
    → length (remainder bs) ≡ (length bs + 2) / 3 * 4
    → Encoded (suc fuel) input a bs
encode_from_end fuel input a bs e h d l =
    (remainder bs, loop_ends fuel input a h ∙ ap (λ t. some (remainder t)) e, d, l)

encode_from_lem :
    (fuel : ℕ) (input : Bytes) (a : ℕ) (bs : Bytes)
    → 2 ≤ length input
    → length input < 2 ^ 63
    → a + length bs ≡ length input
    → length bs < fuel
    → drop a input ≡ bs
    → All IsByte bs
    → Encoded fuel input a bs
encode_from_lem zero input a bs h k n f e v = absurd (omega arith)
encode_from_lem (suc fuel) input a [] h k n f e v =
    encode_from_end fuel input a [] e (not_in_loop a _ h k (omega arith) (omega arith))
      (unfold decode in refl) refl
encode_from_lem (suc fuel) input a (x ∷ []) h k n f e v =
    encode_from_end fuel input a (x ∷ []) e (not_in_loop a _ h k (omega arith) (omega arith))
      (decode_one x v.0) refl
encode_from_lem (suc fuel) input a (x ∷ y ∷ []) h k n f e v =
    encode_from_end fuel input a (x ∷ y ∷ []) e (not_in_loop a _ h k (omega arith) (omega arith))
      (decode_two x y v.0 v.1.0) refl
encode_from_lem (suc fuel) input a (x ∷ y ∷ z ∷ rest) h k n f e v =
    let behind : drop (a + 3) input ≡ rest =
      sym (drop-drop a 3 input (a + 3) refl) ∙ ap (drop 3) e in
    let (out, r, d, l) =
      encode_from_lem fuel input (a + 3) rest h k (omega arith) (omega arith) behind v.1.1.1 in
    (
      group (x ∷ y ∷ z ∷ rest) ++ out,
      loop_goes_on fuel input a ((in_loop_lem a _ h k (omega arith)).1 (omega arith)) (ground arith)
            r
          ∙ ap (λ t. some (group t ++ out)) e,
      decode_group x y z out v.0 v.1.0 v.1.1.0 ∙ rw d,
      omega (arith, l),
    )

-- The text for an input of two bytes or more decodes to that input, and has four characters for every three bytes,
-- a last group that is not full counted as full.
pub decode-encode :
    (input : Bytes)
    → All IsByte input
    → 2 ≤ length input
    → length input < 2 ^ 63
    → (out : Bytes) × (encode input ≡ some out)
      × (decode out ≡ some input)
      × (length out ≡ (length input + 2) / 3 * 4)
unfolding encode
decode-encode input v h k =
    encode_from_lem (length input + 1) input 0 input h k (omega arith) (omega arith) refl v

too_short : (input : Bytes) → length input < 2 → encode input ≡ none
unfolding encode encode_from in_loop
too_short [] h = refl
too_short (x ∷ []) h = refl
too_short (x ∷ y ∷ rest) h = absurd (omega arith)

long_enough :
    (input : Bytes)
    → All IsByte input
    → length input < 2 ^ 63
    → 2 ≤ length input
    → encode input ≢ none
long_enough input v k h e = let (out, r, d, l) = decode-encode input v h k in cc

-- On an input of bytes, fewer than 2 ^ 63, `encode` reads behind the end exactly where there are fewer than two.
pub encode-undefined :
    (input : Bytes)
    → All IsByte input
    → length input < 2 ^ 63
    → (encode input ≡ none) ↔ (length input < 2)
encode-undefined input v k = (
  λ e. elim (Bool-cases (leb 2 (length input))) [
    | inl long ↦ absurd (long_enough input v k (ground arith) e)
    | inr short ↦ ground arith
  ],
  too_short input,
)
