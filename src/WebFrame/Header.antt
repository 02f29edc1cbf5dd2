-- ===== src/WebFrame/Header.antt =====
-- The first two bytes of a frame: what is packed into them is taken out again.
use Prim.Native.Nat.{bit_and}
use frnetlib.Base.{
  ℕ, ◌+◌, ◌*◌, ◌/◌, ◌%◌, ◌^◌, ◌<◌, ◌≡◌, refl, arith, Bool, true, false, not, ◌&&◌, ◌==◌, ltb,
}
use frnetlib.Base.Bits.{holds_below, holds_below-at}
use frnetlib.WebFrame.{first_bytes, bit}

-- The number that holds the four fields, and the fields of such a number.
abbrev packed : Bool → ℕ → Bool → ℕ → ℕ
packed final opcode is_client len = bit final * 4096 + opcode * 256 + bit is_client * 128 + len

abbrev flag : ℕ → Bool
flag n = not (n == 0)

-- The word for the fields of `i`.
abbrev word : ℕ → ℕ
word i = first_bytes (flag (i / 4096)) (i / 256 % 16) (flag (i / 128 % 2)) (i % 128)

abbrev agrees : ℕ → ℕ → Bool
agrees i x =
    bit_and (x / 2 ^ 15) 1 == i / 4096
    && bit_and (x / 2 ^ 8) 15 == i / 256 % 16
    && bit_and (x / 2 ^ 7) 1 == i / 128 % 2
    && bit_and x 127 == i % 128
    && ltb x (2 ^ 16)

abbrev same_fields : ℕ → Bool
same_fields i = agrees i (word i)

table : holds_below same_fields 8192 ≡ true
unfolding holds_below first_bytes
table = refl

-- What is read off the first two bytes.
abbrev pub FieldsOf : ℕ → Bool → ℕ → Bool → ℕ → Type 0
FieldsOf x final opcode is_client len =
    (not (bit_and (x / 2 ^ 15) 1 == 0) ≡ final)
    × (bit_and (x / 2 ^ 8) 15 ≡ opcode)
    × (not (bit_and (x / 2 ^ 7) 1 == 0) ≡ is_client)
    × (bit_and x 127 ≡ len)
    × (x < 2 ^ 16)

flag-bit : (b : Bool) → flag (bit b) ≡ b
flag-bit true = refl
flag-bit false = refl

bit-lt : (b : Bool) → bit b < 2
bit-lt true = omega arith
bit-lt false = omega arith

abbrev Unpacked : ℕ → Bool → ℕ → Bool → ℕ → Type 0
Unpacked i final opcode is_client len =
    (i / 4096 ≡ bit final)
    × (i / 256 % 16 ≡ opcode)
    × (i / 128 % 2 ≡ bit is_client)
    × (i % 128 ≡ len)
    × (i < 8192)

packed-Unpacked :
    (final : Bool) (opcode : ℕ) (is_client : Bool) (len : ℕ)
    → opcode < 16
    → len < 128
    → Unpacked (packed final opcode is_client len) final opcode is_client len
packed-Unpacked final opcode is_client len h k = omega (arith, bit-lt final, bit-lt is_client)

word_of_fields :
    (i : ℕ) (final : Bool) (opcode : ℕ) (is_client : Bool) (len : ℕ)
    → Unpacked i final opcode is_client len
    → word i ≡ first_bytes final opcode is_client len
word_of_fields i final opcode is_client len u =
    rw (u.0, u.1, u.2, u.3, flag-bit final, flag-bit is_client)

agreed :
    (i x : ℕ) (final : Bool) (opcode : ℕ) (is_client : Bool) (len : ℕ)
    → Unpacked i final opcode is_client len
    → agrees i x ≡ true
    → FieldsOf x final opcode is_client len
agreed i x final opcode is_client len u h = ground (arith, bit-lt final, bit-lt is_client)

word-FieldsOf :
    (i x : ℕ) (final : Bool) (opcode : ℕ) (is_client : Bool) (len : ℕ)
    → Unpacked i final opcode is_client len
    → word i ≡ x
    → FieldsOf x final opcode is_client len
word-FieldsOf i x final opcode is_client len u e =
    let h : agrees i x ≡ true = rw e at (holds_below-at same_fields u.4 table) in
    agreed i x final opcode is_client len u h

-- Every field of the first two bytes, the final bit, the opcode of four bits, the mask bit and the length of
-- seven bits, is read back as it was written.
pub first_bytes-FieldsOf :
    (final : Bool) (opcode : ℕ) (is_client : Bool) (len : ℕ)
    → opcode < 16
    → len < 128
    → FieldsOf (first_bytes final opcode is_client len) final opcode is_client len
first_bytes-FieldsOf final opcode is_client len h k =
    let u = packed-Unpacked final opcode is_client len h k in
    word-FieldsOf _ _ final opcode is_client len u
      (word_of_fields (packed final opcode is_client len) final opcode is_client len u)
