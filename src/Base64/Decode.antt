-- ===== src/Base64/Decode.antt =====
-- The decoding of RFC 4648, and that it gives back what was encoded.
use Prim.Native.Nat.{bit_and, bit_or}
use frnetlib.Base.{
  ℕ, ◌+◌, ◌*◌, ◌/◌, ◌%◌, ◌^◌, ◌<◌, ◌≡◌, refl, arith, Bool, true, false, ◌&&◌, [], ◌∷◌, Option, none,
  some, Bytes, ◌==◌, if◌then◌else◌, not,
}
use frnetlib.Base.Bits.{holds_below, holds_below-at}
use frnetlib.Base64.{at, first, second, third, fourth, second_alone, third_alone, base64_table}

-- The place of a character in the table of 64; 64 for any other.
abbrev pub place_in : Bytes → ℕ → ℕ
place_in [] c = 0
place_in (x ∷ xs) c = let later = place_in xs c in if x == c then 0 else later + 1

unfoldable pub place : ℕ → ℕ
place c = place_in base64_table c

-- A decoded group in front of what the rest decodes to.
abbrev pub before : ℕ → ℕ → ℕ → Option Bytes → Option Bytes
before x y z none = none
before x y z (some out) = some (x ∷ y ∷ z ∷ out)

-- Four characters are three bytes; `=` in the last places means that there are fewer.
unfoldable pub decode : Bytes → Option Bytes
decode [] = some []
decode (p ∷ q ∷ r ∷ s ∷ rest) =
    let i = place p in
    let j = place q in
    let k = place r in
    let l = place s in
    let x = i * 4 + j / 16 in
    let y = j % 16 * 16 + k / 4 in
    let z = k % 4 * 64 + l in
    let whole = before x y z (decode rest) in
    if s == b'=' then if r == b'=' then some (x ∷ []) else some (x ∷ y ∷ []) else whole
decode _ = none

-- Characters of the table are found in it, and none is `=`.
abbrev found : ℕ → Bool
found i = place (at i) == i && not (at i == b'=')

found_table : holds_below found 64 ≡ true
unfolding holds_below place at
found_table = refl

pub place-at : {i : ℕ} → i < 64 → place (at i) ≡ i
place-at h = ground (arith, holds_below-at found h found_table)

pub at-padding : {i : ℕ} → i < 64 → (at i == b'=') ≡ false
at-padding h = ground (arith, holds_below-at found h found_table)

-- The indices as numbers: the parts that a byte gives to them, and the parts put together.
abbrev parts_agree : ℕ → Bool
parts_agree b =
    first b == b / 4
    && fourth b == b % 64
    && bit_and b 0x3 == b % 4
    && bit_and b 0xf0 / 2 ^ 4 == b / 16
    && bit_and b 0xf == b % 16
    && bit_and b 0xc0 / 2 ^ 6 == b / 64

parts_table : holds_below parts_agree 256 ≡ true
unfolding holds_below first fourth
parts_table = refl

abbrev pub Parts : ℕ → Type 0
Parts b =
    (first b ≡ b / 4)
    × (fourth b ≡ b % 64)
    × (bit_and b 0x3 ≡ b % 4)
    × (bit_and b 0xf0 / 2 ^ 4 ≡ b / 16)
    × (bit_and b 0xf ≡ b % 16)
    × (bit_and b 0xc0 / 2 ^ 6 ≡ b / 64)

pub parts_lem : {b : ℕ} → b < 256 → Parts b
parts_lem h = ground (arith, holds_below-at parts_agree h parts_table)

abbrev or_agrees : ℕ → Bool
or_agrees n = bit_or (n / 16 * 2 ^ 4) (n % 16) == n && bit_or (n / 4 * 2 ^ 2) (n % 4) == n

or_table : holds_below or_agrees 64 ≡ true
unfolding holds_below
or_table = refl

or_wide : (i j : ℕ) → i < 4 → j < 16 → bit_or (i * 2 ^ 4) j ≡ i * 16 + j
or_wide i j h k =
    let n = i * 16 + j in
    let small : n < 64 = omega arith in
    let high : n / 16 ≡ i = omega arith in
    let low : n % 16 ≡ j = omega arith in
    let e : bit_or (n / 16 * 2 ^ 4) (n % 16) ≡ n =
      ground (arith, holds_below-at or_agrees small or_table) in
    rw (high, low) at e

or_narrow : (i j : ℕ) → i < 16 → j < 4 → bit_or (i * 2 ^ 2) j ≡ i * 4 + j
or_narrow i j h k =
    let n = i * 4 + j in
    let small : n < 64 = omega arith in
    let high : n / 4 ≡ i = omega arith in
    let low : n % 4 ≡ j = omega arith in
    let e : bit_or (n / 4 * 2 ^ 2) (n % 4) ≡ n =
      ground (arith, holds_below-at or_agrees small or_table) in
    rw (high, low) at e

pub second_lem : (a b : ℕ) → a < 256 → b < 256 → second a b ≡ a % 4 * 16 + b / 16
unfolding second
second_lem a b h k =
    let p = parts_lem h in
    let q = parts_lem k in rw (p.2, q.3) (or_wide (a % 4) (b / 16) (omega arith) (omega arith))

pub third_lem : (b c : ℕ) → b < 256 → c < 256 → third b c ≡ b % 16 * 4 + c / 64
unfolding third
third_lem b c h k =
    let p = parts_lem h in
    let q = parts_lem k in rw (p.4, q.5) (or_narrow (b % 16) (c / 64) (omega arith) (omega arith))

pub second_alone_lem : (a : ℕ) → a < 256 → second_alone a ≡ a % 4 * 16
unfolding second_alone
second_alone_lem a h = let p = parts_lem h in rw p.2

pub third_alone_lem : (b : ℕ) → b < 256 → third_alone b ≡ b % 16 * 4
unfolding third_alone
third_alone_lem b h = let p = parts_lem h in rw p.4
