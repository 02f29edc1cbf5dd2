-- ===== src/Base/Text.antt =====
-- What the sources use of `std::string`: `find`, `substr`, comparison and `tolower`.
use frnetlib.Base.{
  ℕ, suc, ◌+◌, ◌-◌, ◌%◌, ◌^◌, ◌≤◌, ◌≡◌, ◌⊎◌, refl, sym, ap, ◌∙◌, arith, Bool, true, false, ◌&&◌, [],
  ◌∷◌, ◌++◌, Option, none, some, Bytes, ltb, leb, ◌==◌, if◌then◌else◌, length, take, drop,
  Bool-cases, inl, inr,
}

abbrev pub same_bytes : Bytes → Bytes → Bool
same_bytes [] [] = true
same_bytes (a ∷ us) (b ∷ vs) = a == b && same_bytes us vs
same_bytes _ _ = false

abbrev pub is_prefix : Bytes → Bytes → Bool
is_prefix [] s = true
is_prefix (p ∷ ps) [] = false
is_prefix (p ∷ ps) (c ∷ cs) = p == c && is_prefix ps cs

-- One place further on.
abbrev pub later : Option ℕ → Option ℕ
later none = none
later (some i) = some (suc i)

-- `s.find(p)`: the first place of `p` in `s`, or `npos`.
unfoldable pub find : Bytes → Bytes → Option ℕ
find p [] = if is_prefix p [] then some 0 else none
find p (c ∷ cs) = let behind = later (find p cs) in if is_prefix p (c ∷ cs) then some 0 else behind

-- Counted from the start of the string again.
abbrev pub shifted : ℕ → Option ℕ → Option ℕ
shifted n none = none
shifted n (some i) = some (n + i)

-- `s.find(p, i)`, for a `p` that is not empty.
unfoldable pub find_from : Bytes → ℕ → Bytes → Option ℕ
find_from p i s = shifted i (find p (drop i s))

-- `s.rfind(p)`: the last place.
unfoldable pub rfind : Bytes → Bytes → Option ℕ
rfind p [] = if is_prefix p [] then some 0 else none
rfind p (c ∷ cs) = elim (rfind p cs) [
  | some i ↦ some (suc i)
  | none ↦ if is_prefix p (c ∷ cs) then some 0 else none
]

-- `s.find_first_not_of(set)`.
unfoldable pub find_first_not_of : (ℕ → Bool) → Bytes → Option ℕ
find_first_not_of inside [] = none
find_first_not_of inside (c ∷ cs) =
    let behind = later (find_first_not_of inside cs) in if inside c then behind else some 0

-- `size_t` subtraction.
abbrev pub minus : ℕ → ℕ → ℕ
minus a b = (a + 2 ^ 64 - b) % 2 ^ 64

-- `std::string::npos`.
abbrev pub npos : ℕ
npos = 2 ^ 64 - 1

-- `s.substr(i, n)` for a place within the string.
abbrev pub substr : ℕ → ℕ → Bytes → Bytes
substr i n s = take n (drop i s)

-- `s.erase(i, n)` for a place within the string.
abbrev pub erase : ℕ → ℕ → Bytes → Bytes
erase i n s = take i s ++ drop (i + n) s

abbrev pub lower : ℕ → ℕ
lower c = if leb 65 c && leb c 90 then c + 32 else c

unfoldable pub to_lower : Bytes → Bytes
to_lower [] = []
to_lower (c ∷ cs) = lower c ∷ to_lower cs

-- `compare`: less, equal, greater.
pub data Order : Type 0 where
  less equal greater : Order

abbrev pub compare : Bytes → Bytes → Order
compare [] [] = equal
compare [] (b ∷ bs) = less
compare (a ∷ us) [] = greater
compare (a ∷ us) (b ∷ vs) =
    let rest = compare us vs in if ltb a b then less else if ltb b a then greater else rest

pub is_prefix-append : (p s t : Bytes) → length p ≤ length s → is_prefix p (s ++ t) ≡ is_prefix p s
is_prefix-append [] s t h = refl
is_prefix-append (p ∷ ps) [] t h = absurd (omega arith)
is_prefix-append (p ∷ ps) (c ∷ cs) t h =
    ap (λ b. (p == c) && b) (is_prefix-append ps cs t (omega arith))

pub is_prefix-length : (p s : Bytes) → is_prefix p s ≡ true → length p ≤ length s
is_prefix-length [] s h = omega arith
is_prefix-length (p ∷ ps) [] h = cc
is_prefix-length (p ∷ ps) (c ∷ cs) h = ground (arith, is_prefix-length ps cs)

-- Where a pattern is found, it fits.
pub find-fits : (p s : Bytes) (i : ℕ) → find p s ≡ some i → i + length p ≤ length s
unfolding find
find-fits p [] i h = ground (arith, is_prefix-length p [])
find-fits p (c ∷ cs) i h = elim (Bool-cases (is_prefix p (c ∷ cs))) [
  | inl here ↦
      let e : some 0 ≡ some i = (rw here at h) in ground (arith, is_prefix-length p (c ∷ cs) here)
  | inr on ↦ behind (find p cs) (find-fits p cs) (rw on at h)
]
  where
    behind :
        (x : Option ℕ)
        → ((j : ℕ) → x ≡ some j → j + length p ≤ length cs)
        → later x ≡ some i
        → i + length p ≤ length (c ∷ cs)
    behind none f e = cc
    behind (some j) f e = ground (arith, f j refl)

pub find_here : (p s : Bytes) → is_prefix p s ≡ true → find p s ≡ some 0
unfolding find
find_here p [] h = rw h
find_here p (c ∷ cs) h = rw h

pub find_behind :
    (p : Bytes) (c : ℕ) (cs : Bytes)
    → is_prefix p (c ∷ cs) ≡ false
    → find p (c ∷ cs) ≡ later (find p cs)
unfolding find
find_behind p c cs h = rw h

pub Option-cases : (x : Option ℕ) → (x ≡ none) ⊎ ((j : ℕ) × (x ≡ some j))
Option-cases none = inl refl
Option-cases (some j) = inr (j, refl)

not_in_empty : (p : Bytes) → is_prefix p [] ≡ false → find p [] ≡ none
unfolding find
not_in_empty p h = rw h

find-append_here :
    (p s t : Bytes) (i : ℕ) → is_prefix p s ≡ true → find p s ≡ some i → find p (s ++ t) ≡ some i
find-append_here p s t i h e =
    find_here p (s ++ t) (is_prefix-append p s t (is_prefix-length p s h) ∙ h)
    ∙ sym (find_here p s h)
    ∙ e

-- What was found is found at the same place when more bytes follow.
pub find-append : (p s t : Bytes) (i : ℕ) → find p s ≡ some i → find p (s ++ t) ≡ some i
find-append p [] t i e = elim (Bool-cases (is_prefix p [])) [
  | inl h ↦ find-append_here p [] t i h e
  | inr h ↦ let no : none ≡ some i = sym (not_in_empty p h) ∙ e in cc
]
find-append p (c ∷ cs) t i e = elim (Bool-cases (is_prefix p (c ∷ cs))) [
  | inl h ↦ find-append_here p (c ∷ cs) t i h e
  | inr h ↦ elim (Option-cases (find p cs)) [
    | inl none_on ↦ let no : none ≡ some i = sym (find_behind p c cs h ∙ ap later none_on) ∙ e in cc
    | inr (j, on) ↦
        find_behind p c (cs ++ t)
          (is_prefix-append p (c ∷ cs) t (omega (arith, find-fits p cs j on)) ∙ h)
        ∙ ap later (find-append p cs t j on)
        ∙ sym (find_behind p c cs h ∙ ap later on)
        ∙ e
  ]
]

-- What is found within a part in front is found in that part.
pub find-within :
    (p s t : Bytes) (i : ℕ) → find p (s ++ t) ≡ some i → i + length p ≤ length s → find p s ≡ some i
find-within [] [] t i e h = ground (arith, find_here [] [] refl)
find-within (p ∷ ps) [] t i e h = absurd (omega arith)
find-within p (c ∷ cs) t i e h = elim (Bool-cases (is_prefix p (c ∷ cs))) [
  | inl here ↦
      find_here p (c ∷ cs) here
      ∙ sym (
          find_here p (c ∷ cs ++ t)
            (is_prefix-append p (c ∷ cs) t (is_prefix-length p (c ∷ cs) here) ∙ here))
      ∙ e
  | inr on ↦
      let on' = is_prefix-append p (c ∷ cs) t (omega arith) ∙ on in
      let e' = sym (find_behind p c (cs ++ t) on') ∙ e in
      elim (Option-cases (find p (cs ++ t))) [
        | inl out ↦ let no : none ≡ some i = sym (ap later out) ∙ e' in cc
        | inr (j, found) ↦
            let same : some (suc j) ≡ some i = sym (ap later found) ∙ e' in
            find_behind p c cs on ∙ ap later (find-within p cs t j found (ground arith)) ∙ same
      ]
]

-- What is not found in a string is not found in front of it.
pub find-none : (p s t : Bytes) → find p (s ++ t) ≡ none → find p s ≡ none
find-none p s t e = elim (Option-cases (find p s)) [
  | inl out ↦ out
  | inr (j, found) ↦ let no : none ≡ some j = sym e ∙ find-append p s t j found in cc
]
