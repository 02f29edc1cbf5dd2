-- ===== src/Base/Xor.antt =====
-- Exclusive or on numbers of any size, by their binary digits.
use Prim.Native.Nat.{
  ℕ, zero, suc, ◌+◌, ◌-◌, ◌*◌, ◌/◌, ◌%◌, ◌^◌, ◌≤◌, ◌<◌, bit_xor, digits, differ, bit_xor-bitwise,
}
use mathlib.Core.Path.{◌≡◌, refl, ap, ap₂, ◌∙◌}
use mathlib.Core.Logic.{◌⊎◌}
use native.Mathlib.Nat.{pow-suc}
use native.Mathlib.Omega.{arith}

abbrev xor_digits : ℕ → ℕ → ℕ → ℕ
xor_digits n a b = digits (λ b. b) differ n a b

-- The digits of `a` are done after `a` steps: one step more makes no difference, and so does no number of them.
one_step_more : (n b : ℕ) (a : ℕ) → a ≤ n → xor_digits (suc n) a b ≡ xor_digits n a b
one_step_more n b zero within = no_digit n
  where
    no_digit : (n : ℕ) → xor_digits (suc n) zero b ≡ xor_digits n zero b
    no_digit zero = refl
    no_digit (suc n) = refl
one_step_more zero b (suc a) within = absurd (omega arith)
one_step_more (suc n) b (suc a) within =
    ap (λ (t : ℕ). t * 2 + differ (suc a % 2) (b % 2))
      (one_step_more n (b / 2) (suc a / 2) (omega arith))

suc_out : (k n : ℕ) → suc k + n ≡ suc (k + n)
suc_out k n = omega arith

steps_more : (k n a b : ℕ) → a ≤ n → xor_digits (k + n) a b ≡ xor_digits n a b
steps_more zero n a b within = ap (λ t. xor_digits t a b) (omega arith)
steps_more (suc k) n a b within =
    ap (λ t. xor_digits t a b) (suc_out k n)
    ∙ one_step_more (k + n) b a (omega arith)
    ∙ steps_more k n a b within

zero-bit_xor : (b : ℕ) → bit_xor 0 b ≡ b
zero-bit_xor b = bit_xor-bitwise 0 b

abbrev pub digit : ℕ → ℕ → ℕ
digit a b = differ (a % 2) (b % 2)

bit-cases : (a : ℕ) → (a % 2 ≡ 0) ⊎ (a % 2 ≡ 1)
bit-cases a = ground arith

digit_zero : (a b : ℕ) → a % 2 ≡ 0 → digit a b ≡ b % 2
digit_zero a b e = rw e

halves : (a : ℕ) → a ≡ a - suc a / 2 + suc a / 2
halves a = omega arith

pub bit_xor_step : (a b : ℕ) → bit_xor a b ≡ bit_xor (a / 2) (b / 2) * 2 + digit a b
bit_xor_step zero b = omega (arith, zero-bit_xor b, zero-bit_xor (b / 2), digit_zero 0 b refl)
bit_xor_step (suc a) b = omega (
  arith,
  bit_xor-bitwise (suc a) b,
  bit_xor-bitwise (suc a / 2) (b / 2),
  ap (λ t. xor_digits t (suc a / 2) (b / 2)) (halves a),
  steps_more (a - suc a / 2) (suc a / 2) (suc a / 2) (b / 2) (omega arith),
)

-- On single digits.
digit_twice : (a b : ℕ) → a < 2 → b < 2 → differ (differ a b) b ≡ a
digit_twice zero zero h k = refl
digit_twice zero (suc zero) h k = refl
digit_twice (suc zero) zero h k = refl
digit_twice (suc zero) (suc zero) h k = refl
digit_twice zero (suc (suc b)) h k = absurd (omega arith)
digit_twice (suc zero) (suc (suc b)) h k = absurd (omega arith)
digit_twice (suc (suc a)) b h k = absurd (omega arith)

digit-lt : (a b : ℕ) → a < 2 → b < 2 → differ a b < 2
digit-lt zero b h k = k
digit-lt (suc zero) zero h k = omega arith
digit-lt (suc zero) (suc zero) h k = omega arith
digit-lt (suc zero) (suc (suc b)) h k = absurd (omega arith)
digit-lt (suc (suc a)) b h k = absurd (omega arith)

bit_xor_twice_fuel : (n a b : ℕ) → a ≤ n → b ≤ n → bit_xor (bit_xor a b) b ≡ a
bit_xor_twice_fuel zero zero zero h k = refl
bit_xor_twice_fuel zero zero (suc b) h k = absurd (omega arith)
bit_xor_twice_fuel zero (suc a) b h k = absurd (omega arith)
bit_xor_twice_fuel (suc n) a b h k =
    let low = digit-lt (a % 2) (b % 2) (omega arith) (omega arith) in
    let high : bit_xor a b / 2 ≡ bit_xor (a / 2) (b / 2) = omega (arith, bit_xor_step a b, low) in
    let last : bit_xor a b % 2 ≡ digit a b = omega (arith, bit_xor_step a b, low) in
    bit_xor_step (bit_xor a b) b
    ∙ ap₂ (λ u v. u * 2 + v)
        (ap (λ t. bit_xor t (b / 2)) high
          ∙ bit_xor_twice_fuel n (a / 2) (b / 2) (omega arith) (omega arith))
        (ap (λ t. differ t (b % 2)) last ∙ digit_twice (a % 2) (b % 2) (omega arith) (omega arith))
    ∙ omega arith

-- What is masked twice with one key is as it was.
pub bit_xor_twice : (a b : ℕ) → bit_xor (bit_xor a b) b ≡ a
bit_xor_twice a b = bit_xor_twice_fuel (a + b) a b (omega arith) (omega arith)

-- Exclusive or stays within a width.
pub bit_xor-lt : (k a b : ℕ) → a < 2 ^ k → b < 2 ^ k → bit_xor a b < 2 ^ k
bit_xor-lt zero a b h k = rw (zero_of_lt a h, zero_of_lt b k) (omega arith)
  where
    zero_of_lt : (c : ℕ) → c < 2 ^ 0 → c ≡ 0
    zero_of_lt c p = omega arith
bit_xor-lt (suc k) a b h h' =
    let below =
      bit_xor-lt k (a / 2) (b / 2) (omega (arith, pow-suc 2 k)) (omega (arith, pow-suc 2 k)) in
    omega (
      arith,
      below,
      pow-suc 2 k,
      bit_xor_step a b,
      digit-lt (a % 2) (b % 2) (omega arith) (omega arith),
    )
