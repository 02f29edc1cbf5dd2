-- ===== src/Base64.antt =====
-- src/Base64.cpp: `Base64::encode`.
pub mod Decode
pub mod RoundTrip
mod Tests
use Prim.Native.Nat.{bit_and, bit_or}
use frnetlib.Base.{
  ℕ, zero, suc, ◌+◌, ◌-◌, ◌*◌, ◌/◌, ◌%◌, ◌^◌, Bool, List, [], ◌∷◌, ◌++◌, Option, none, some, Bytes,
  leb, ltb, ◌==◌, if◌then◌else◌, length, get_or, drop, codes,
}

abbrev pub base64_table : Bytes
base64_table = codes "ABCDEFGHIJKLMNOPQRSTUVWXYZabcdefghijklmnopqrstuvwxyz0123456789+/"

unfoldable pub at : ℕ → ℕ
at i = get_or base64_table i 0

-- The four indices into the table, from the three bytes of a group. A `char` is its byte: the masks drop the bits
-- that its sign extends to.
unfoldable pub first : ℕ → ℕ
first a = bit_and (a / 2 ^ 2) 0x3f

unfoldable pub second : ℕ → ℕ → ℕ
second a b = bit_or (bit_and a 0x3 * 2 ^ 4) (bit_and b 0xf0 / 2 ^ 4)

unfoldable pub third : ℕ → ℕ → ℕ
third b c = bit_or (bit_and b 0xf * 2 ^ 2) (bit_and c 0xc0 / 2 ^ 6)

unfoldable pub fourth : ℕ → ℕ
fourth c = bit_and c 0x3f

-- The last index where one or two bytes are left.
unfoldable pub second_alone : ℕ → ℕ
second_alone a = bit_and a 0x3 * 2 ^ 4

unfoldable pub third_alone : ℕ → ℕ
third_alone b = bit_and b 0xf * 2 ^ 2

-- What one round of the loop appends, at position `a` of the input.
abbrev pub group : Bytes → Bytes
group (x ∷ y ∷ z ∷ rest) = at (first x) ∷ at (second x y) ∷ at (third y z) ∷ at (fourth z) ∷ []
group _ = []

-- What is appended behind the loop, where the position is still inside the input: two bytes are left, or one.
abbrev pub remainder : Bytes → Bytes
remainder [] = []
remainder (x ∷ []) = at (first x) ∷ at (second_alone x) ∷ b'=' ∷ b'=' ∷ []
remainder (x ∷ y ∷ rest) = at (first x) ∷ at (second x y) ∷ at (third_alone y) ∷ b'=' ∷ []

-- `a < input.size() - 2`, in `size_t`.
unfoldable pub in_loop : ℕ → ℕ → Bool
in_loop a n = ltb a ((n + 2 ^ 64 - 2) % 2 ^ 64)

-- The loop from position `a` on. `none`: it reads behind the end of the input, or the fuel ran out.
unfoldable pub encode_from : ℕ → Bytes → ℕ → Option Bytes
encode_from zero input a = none
encode_from (suc fuel) input a =
    let n = length input in
    let rest = encode_from fuel input (a + 3) in
    let more : Option Bytes = elim rest [
      | none ↦ none
      | some out ↦ some (group (drop a input) ++ out)
    ] in
    if in_loop a n then if leb (a + 3) n then more else none else some (remainder (drop a input))

unfoldable pub encode : Bytes → Option Bytes
encode input = encode_from (length input + 1) input 0
