-- ===== src/Base/Erase.antt =====
-- `erase` and `substr` of `std::string`, on strings that are put together from parts.
use frnetlib.Base.{
  ℕ, ◌+◌, ◌≤◌, ◌≡◌, sym, ap, ◌∙◌, arith, ◌++◌, Bytes, append_assoc, length, length-append,
  length-take, length-drop, take, drop, take-append, take-append_le, drop-append, drop-append_le,
}
use mathlib.Core.Path.{ap₂}
use frnetlib.Base.Text.{erase, substr}

pub length-erase : (i n : ℕ) (s : Bytes) → i + n ≤ length s → length (erase i n s) + n ≡ length s
length-erase i n s h =
    omega (arith, length-append (take i s) (drop (i + n) s), length-take i s, length-drop (i + n) s)

pub length-erase_le : (i n : ℕ) (s : Bytes) → length (erase i n s) ≤ length s
length-erase_le i n s =
    omega (arith, length-append (take i s) (drop (i + n) s), length-take i s, length-drop (i + n) s)

-- What is erased in front does not depend on what follows.
pub erase-append :
    (i n : ℕ) (s t : Bytes) → i + n ≤ length s → erase i n (s ++ t) ≡ erase i n s ++ t
erase-append i n s t h =
    ap₂ ◌++◌ (take-append_le i s t (omega arith)) (drop-append_le (i + n) s t h)
    ∙ sym (append_assoc (take i s) (drop (i + n) s) t)

pub substr-append : (i n : ℕ) (s t : Bytes) → i + n ≤ length s → substr i n (s ++ t) ≡ substr i n s
substr-append i n s t h =
    ap (take n) (drop-append_le i s t (omega arith))
    ∙ take-append_le n (drop i s) t (omega (arith, length-drop i s))

-- A part between two others.
pub erase_part :
    (xs ys zs : Bytes) (i n : ℕ)
    → length xs ≡ i
    → length ys ≡ n
    → erase i n (xs ++ (ys ++ zs)) ≡ xs ++ zs
erase_part xs ys zs i n e f = ap₂ ◌++◌ (take-append xs (ys ++ zs) i e) (
    ap (drop (i + n)) (sym (append_assoc xs ys zs))
    ∙ drop-append (xs ++ ys) zs (i + n) (omega (arith, length-append xs ys)))

pub substr_part :
    (xs ys zs : Bytes) (i n : ℕ)
    → length xs ≡ i
    → length ys ≡ n
    → substr i n (xs ++ (ys ++ zs)) ≡ ys
substr_part xs ys zs i n e f = ap (take n) (drop-append xs (ys ++ zs) i e) ∙ take-append ys zs n f
