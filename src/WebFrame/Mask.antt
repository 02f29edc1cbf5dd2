-- ===== src/WebFrame/Mask.antt =====
-- Masking a payload.
use frnetlib.Base.{
  ℕ, zero, suc, ◌+◌, ◌%◌, ◌<◌, ◌≡◌, refl, ap, ◌∙◌, arith, [], ◌∷◌, Bytes, length, get_or,
}
use Prim.Native.Nat.{bit_xor}
use frnetlib.Base.Xor.{bit_xor_twice}
use frnetlib.WebFrame.{mask_from}
use mathlib.Core.Path.{ap₂}

-- A payload that was masked is unmasked with the same key.
pub mask_from-mask_from : (a : ℕ) (key bs : Bytes) → mask_from a key (mask_from a key bs) ≡ bs
unfolding mask_from
mask_from-mask_from a key [] = refl
mask_from-mask_from a key (b ∷ bs) =
    ap₂ ◌∷◌ (bit_xor_twice b (get_or key (a % 4) 0)) (mask_from-mask_from (a + 1) key bs)

pub length-mask_from : (a : ℕ) (key bs : Bytes) → length (mask_from a key bs) ≡ length bs
unfolding mask_from
length-mask_from a key [] = refl
length-mask_from a key (b ∷ bs) = ap suc (length-mask_from (a + 1) key bs)

pub mask_from-get_or :
    (a : ℕ) (key bs : Bytes) (i : ℕ)
    → i < length bs
    → get_or (mask_from a key bs) i 0 ≡ bit_xor (get_or bs i 0) (get_or key ((a + i) % 4) 0)
unfolding mask_from
mask_from-get_or a key [] i h = absurd (omega arith)
mask_from-get_or a key (b ∷ bs) zero h = ap (λ k. bit_xor b (get_or key (k % 4) 0)) (omega arith)
mask_from-get_or a key (b ∷ bs) (suc i) h =
    mask_from-get_or (a + 1) key bs i (omega arith)
    ∙ ap (λ k. bit_xor (get_or bs i 0) (get_or key (k % 4) 0)) (omega arith)

-- Masking keeps the length, and combines the byte at each position with the byte of the key at that position, counted
-- from `a`, modulo four, by exclusive or.
pub mask_from-at :
    (a : ℕ) (key bs : Bytes) (i : ℕ)
    → i < length bs
    → (length (mask_from a key bs) ≡ length bs)
      × (get_or (mask_from a key bs) i 0 ≡ bit_xor (get_or bs i 0) (get_or key ((a + i) % 4) 0))
mask_from-at a key bs i h = (length-mask_from a key bs, mask_from-get_or a key bs i h)
