-- ===== src/Base/Decimal.antt =====
-- What the sources use of `std::to_string`: a number in decimal, and how `std::stoull` and `std::stoi` read it back.
use frnetlib.Base.{
  ℕ, zero, suc, ◌+◌, ◌*◌, ◌/◌, ◌%◌, ◌^◌, ◌≤◌, ◌<◌, ◌≡◌, inl, inr, refl, sym, ap, ◌∙◌, arith, true,
  false, [], ◌∷◌, ◌++◌, append_assoc, append-nil, none, some, Bytes, Bool-cases, All, All-append,
  ltb, ◌==◌, if◌then◌else◌,
}
use frnetlib.Base.Numbers.{
  digit_value, skip_spaces, read_digits, read_number, skip_prefix, signed, read_signed, stoull,
  stoi, to_unsigned, to_int,
}

-- The digits of a number, on as many places as are there.
unfoldable pub digits : ℕ → ℕ → Bytes
digits zero n = []
digits (suc places) n =
    let front = digits places (n / 10) in (if ltb n 10 then [] else front) ++ (48 + n % 10) ∷ []

-- `std::to_string` of a number of 64 bits, which has 20 digits at most.
unfoldable pub to_string : ℕ → Bytes
to_string n = digits 20 n

abbrev pub IsDigit : ℕ → Type 0
IsDigit c = (48 ≤ c) × (c ≤ 57)

digit_value_lem : (d : ℕ) → d < 10 → digit_value (48 + d) ≡ d
digit_value_lem d h = ground arith

read_digit :
    (d acc : ℕ) (cs : Bytes)
    → d < 10
    → read_digits 10 acc ((48 + d) ∷ cs) ≡ read_digits 10 (acc * 10 + d) cs
unfolding read_digits
read_digit d acc cs h =
    let value = digit_value_lem d h in
    let is : ltb (digit_value (48 + d)) 10 ≡ true = ground (arith, value) in
    rw is (ap (λ x. read_digits 10 (acc * 10 + x) cs) value)

-- How many numbers have so many digits.
abbrev pub tens : ℕ → ℕ
tens zero = 1
tens (suc places) = 10 * tens places

tenth : (n k : ℕ) → n < 10 * k → n / 10 < k
tenth n k h = omega arith

-- Reading the digits of a number is to have read the number.
read_digits-digits :
    (places n : ℕ) (rest : Bytes)
    → n < tens (suc places)
    → read_digits 10 0 (digits (suc places) n ++ rest) ≡ read_digits 10 n rest
unfolding digits
read_digits-digits zero n rest h =
    let one : ltb n 10 ≡ true = ground arith in
    rw one (
      let same : n % 10 ≡ n = omega arith in
      read_digit (n % 10) 0 rest (omega arith)
      ∙ ap (λ x. read_digits 10 x rest) (omega (arith, same)))
read_digits-digits (suc places) n rest h = elim (Bool-cases (ltb n 10)) [
  | inl one ↦
      let small : n < 10 = ground arith in
      let same : n % 10 ≡ n = omega arith in
      rw one (
        read_digit (n % 10) 0 rest (omega arith)
        ∙ ap (λ x. read_digits 10 x rest) (omega (arith, same)))
  | inr more ↦
      let front = digits (suc places) (n / 10) in
      rw more (
        ap (read_digits 10 0) (append_assoc front ((48 + n % 10) ∷ []) rest)
        ∙ read_digits-digits places (n / 10) ((48 + n % 10) ∷ rest) (tenth n (tens (suc places)) h)
        ∙ read_digit (n % 10) (n / 10) rest (omega arith)
        ∙ ap (λ x. read_digits 10 x rest) (omega arith))
]

digits-IsDigit : (places n : ℕ) → All IsDigit (digits places n)
unfolding digits
digits-IsDigit zero n = tt
digits-IsDigit (suc places) n = elim (Bool-cases (ltb n 10)) [
  | inl one ↦ rw one ((omega arith, omega arith), tt)
  | inr more ↦
      rw more
        (All-append IsDigit _ _ (digits-IsDigit places (n / 10)) ((omega arith, omega arith), tt))
]

-- There is a digit at least.
digits_front :
    (places n : ℕ) → (c : ℕ) × (cs : Bytes) × (digits (suc places) n ≡ c ∷ cs) × IsDigit c
unfolding digits
digits_front zero n = elim (Bool-cases (ltb n 10)) [
  | inl one ↦ (48 + n % 10, [], rw one refl, (omega arith, omega arith))
  | inr more ↦ (48 + n % 10, [], rw more refl, (omega arith, omega arith))
]
digits_front (suc places) n = elim (Bool-cases (ltb n 10)) [
  | inl one ↦ (48 + n % 10, [], rw one refl, (omega arith, omega arith))
  | inr more ↦
      let (c, cs, e, is) = digits_front places (n / 10) in
      (c, cs ++ (48 + n % 10) ∷ [], rw more (ap (λ x. x ++ (48 + n % 10) ∷ []) e), is)
]

no_prefix : (s : Bytes) → skip_prefix 10 s ≡ s
no_prefix [] = refl
no_prefix (a ∷ []) = refl
no_prefix (a ∷ b ∷ []) = refl
no_prefix (a ∷ b ∷ c ∷ cs) = refl

no_space : (c : ℕ) (cs : Bytes) → IsDigit c → skip_spaces (c ∷ cs) ≡ c ∷ cs
unfolding skip_spaces
no_space c cs h = ground arith

read_number-digit :
    (c : ℕ) (cs : Bytes) → IsDigit c → read_number 10 (c ∷ cs) ≡ some (read_digits 10 0 (c ∷ cs))
read_number-digit c cs h = ground arith

-- Whatever reads a number with a sign takes digits as they are.
read_signed-digits :
    (c : ℕ) (cs : Bytes)
    → IsDigit c
    → read_signed 10 (c ∷ cs) ≡ some (false, read_digits 10 0 (c ∷ cs))
read_signed-digits c cs h =
    let number : signed 10 (c ∷ cs) ≡ some (false, read_digits 10 0 (c ∷ cs)) =
      ap (λ x. elim (read_number 10 x) [ none ↦ none | some n ↦ some (false, n) ])
        (no_prefix (c ∷ cs))
      ∙ ap (λ x. elim x [ none ↦ none | some n ↦ some (false, n) ]) (read_number-digit c cs h) in
    let not_minus : (c == 45) ≡ false = ground arith in
    let not_plus : (c == 43) ≡ false = ground arith in rw (not_minus, not_plus) number

read_all : (n : ℕ) → n < tens 20 → read_signed 10 (skip_spaces (to_string n)) ≡ some (false, n)
unfolding to_string read_digits
read_all n h =
    let (c, cs, e, is) = digits_front 19 n in
    ap (λ s. read_signed 10 (skip_spaces s)) e
    ∙ ap (read_signed 10) (no_space c cs is)
    ∙ read_signed-digits c cs is
    ∙ ap (λ s. some (false, read_digits 10 0 s)) (sym e ∙ sym (append-nil (digits 20 n)))
    ∙ ap (λ x. some (false, x)) (read_digits-digits 19 n [] h)

-- A number of 64 bits that was printed is read back.
pub stoull-to_string : (n : ℕ) → n < 2 ^ 64 → stoull 10 (to_string n) ≡ some n
unfolding stoull
stoull-to_string n h = ap to_unsigned (read_all n (omega arith)) ∙ ground arith

pub stoi-to_string : (n : ℕ) → n < 2 ^ 31 → stoi (32 ∷ to_string n) ≡ some n
unfolding stoi skip_spaces
stoi-to_string n h = ap to_int (read_all n (omega arith)) ∙ ground arith

pub to_string-IsDigit : (n : ℕ) → All IsDigit (to_string n)
unfolding to_string
to_string-IsDigit n = digits-IsDigit 20 n
