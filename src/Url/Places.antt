-- ===== src/Url/Places.antt =====
-- Places and parts of a text that is put together from parts.
use frnetlib.Base.{
  ℕ, ◌+◌, ◌≡◌, refl, ap, ◌∙◌, arith, false, [], ◌∷◌, ◌++◌, none, some, Bytes, ◌==◌, length, drop,
  drop-append,
}
use frnetlib.Base.Text.{find, find_from, shifted, later, substr}
use frnetlib.Base.Erase.{substr_part}
use frnetlib.Http.Lines.{Without, find-char}

find-nowhere : (x : ℕ) (s : Bytes) → Without x s → find (x ∷ []) s ≡ none
unfolding find
find-nowhere x [] h = refl
find-nowhere x (c ∷ cs) h =
    let other : (x == c) ≡ false = (let k : (c == x) ≡ false = h.0 in ground arith) in
    rw other (ap later (find-nowhere x cs h.1))

-- The first place of a character behind a place.
pub place :
    (x i : ℕ) (t front s behind : Bytes)
    → t ≡ front ++ (s ++ x ∷ behind)
    → length front ≡ i
    → Without x s
    → find_from (x ∷ []) i t ≡ some (i + length s)
unfolding find_from
place x i t front s behind e l h =
    ap (λ z. shifted i (find (x ∷ []) (drop i z))) e
    ∙ ap (λ z. shifted i (find (x ∷ []) z)) (drop-append front (s ++ x ∷ behind) i l)
    ∙ ap (shifted i) (find-char x s behind h)

pub nowhere :
    (x i : ℕ) (t front s : Bytes)
    → t ≡ front ++ s
    → length front ≡ i
    → Without x s
    → find_from (x ∷ []) i t ≡ none
unfolding find_from
nowhere x i t front s e l h =
    ap (λ z. shifted i (find (x ∷ []) (drop i z))) e
    ∙ ap (λ z. shifted i (find (x ∷ []) z)) (drop-append front s i l)
    ∙ ap (shifted i) (find-nowhere x s h)

-- A part.
pub slice :
    (i n : ℕ) (t front s behind : Bytes)
    → t ≡ front ++ (s ++ behind)
    → length front ≡ i
    → length s ≡ n
    → substr i n t ≡ s
slice i n t front s behind e l k = ap (substr i n) e ∙ substr_part front s behind i n l k
