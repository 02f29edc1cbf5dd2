-- ===== src/Base/Numbers.antt =====
-- What the sources use of `std::stoull`, `std::stoul` and `std::stoi`: reading a number off the front of a string.
use frnetlib.Base.{
  ℕ, ◌+◌, ◌-◌, ◌*◌, ◌%◌, ◌^◌, Bool, true, false, ◌&&◌, ◌||◌, [], ◌∷◌, Option, none, some, Bytes,
  ltb, leb, ◌==◌, if◌then◌else◌,
}

abbrev pub is_space : ℕ → Bool
is_space c = leb 9 c && leb c 13 || c == 32

-- The value of a digit, or one that no base reaches.
abbrev pub digit_value : ℕ → ℕ
digit_value c =
    if leb 48 c && leb c 57
    then c - 48
    else if leb 65 c && leb c 90
    then c - 55
    else if leb 97 c && leb c 122
    then c - 87
    else 99

unfoldable pub skip_spaces : Bytes → Bytes
skip_spaces [] = []
skip_spaces (c ∷ cs) = let rest = skip_spaces cs in if is_space c then rest else c ∷ cs

-- The digits that come next, behind those that make `acc`.
unfoldable pub read_digits : ℕ → ℕ → Bytes → ℕ
read_digits base acc [] = acc
read_digits base acc (c ∷ cs) =
    let rest = read_digits base (acc * base + digit_value c) cs in
    if ltb (digit_value c) base then rest else acc

-- The number in front; none where there is no digit: `std::invalid_argument`.
abbrev pub read_number : ℕ → Bytes → Option ℕ
read_number base [] = none
read_number base (c ∷ cs) =
    if ltb (digit_value c) base then some (read_digits base 0 (c ∷ cs)) else none

-- `0x` in front of a hexadecimal digit is skipped in base 16.
abbrev pub skip_prefix : ℕ → Bytes → Bytes
skip_prefix base (a ∷ b ∷ c ∷ cs) =
    if base == 16 && (a == 48 && ((b == 120 || b == 88) && ltb (digit_value c) 16))
    then c ∷ cs
    else a ∷ b ∷ c ∷ cs
skip_prefix base s = s

-- The sign, and the number behind it.
abbrev pub signed : ℕ → Bytes → Option (Bool × ℕ)
signed base s = elim (read_number base (skip_prefix base s)) [
  | none ↦ none
  | some n ↦ some (false, n)
]

abbrev pub negated : Option (Bool × ℕ) → Option (Bool × ℕ)
negated none = none
negated (some (b, n)) = some (true, n)

abbrev pub read_signed : ℕ → Bytes → Option (Bool × ℕ)
read_signed base [] = none
read_signed base (c ∷ cs) =
    if c == 45
    then negated (signed base cs)
    else if c == 43
    then signed base cs
    else signed base (c ∷ cs)

-- In 64 bits: `std::out_of_range` above them; a number with a minus sign is negated in them.
abbrev pub to_unsigned : Option (Bool × ℕ) → Option ℕ
to_unsigned none = none
to_unsigned (some (minus, n)) =
    if leb (2 ^ 64) n then none else some (if minus then (2 ^ 64 - n) % 2 ^ 64 else n)

-- `std::stoull(s)`, and `std::stoul(s, nullptr, base)` where `unsigned long` has 64 bits; none is an exception.
unfoldable pub stoull : ℕ → Bytes → Option ℕ
stoull base s = to_unsigned (read_signed base (skip_spaces s))

-- In an `int`, as the word of 32 bits that stands for it.
abbrev pub to_int : Option (Bool × ℕ) → Option ℕ
to_int none = none
to_int (some (minus, n)) =
    if minus
    then if leb n (2 ^ 31) then some ((2 ^ 32 - n) % 2 ^ 32) else none
    else if ltb n (2 ^ 31)
    then some n
    else none

-- `std::stoi(s)`.
unfoldable pub stoi : Bytes → Option ℕ
stoi s = to_int (read_signed 10 (skip_spaces s))
