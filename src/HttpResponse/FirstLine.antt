-- ===== src/HttpResponse/FirstLine.antt =====
-- src/HttpResponse.cpp: the first line that `construct` writes is read by `parse_header`.
use frnetlib.Base.{
  ℕ, suc, ◌+◌, ◌-◌, ◌^◌, ◌<◌, ◌≡◌, refl, ap, ◌∙◌, arith, [], ◌∷◌, ◌++◌, some, Bytes, All,
  if◌then◌else◌, codes, length, take, drop, take-append,
}
use frnetlib.Base.Text.{find, find_from, shifted, same_bytes}
use frnetlib.Base.Decimal.{to_string, IsDigit, to_string-IsDigit, stoi-to_string}
use frnetlib.Base.Numbers.{stoi}
use frnetlib.Http.Kinds.{RequestVersion, v1, v1_1}
use frnetlib.Http.Lines.{Without, find-char}
use frnetlib.HttpResponse.{up_to, with_version, status_line, first_line}
use frnetlib.HttpResponse.Construct.{version_text}

-- The first line without its end.
abbrev pub first_of_text : RequestVersion → ℕ → Bytes
first_of_text v n = version_text v ++ (to_string n ++ codes " ")

pub digits-Without : (x : ℕ) (s : Bytes) → x < 48 → All IsDigit s → Without x s
digits-Without x [] l h = tt
digits-Without x (c ∷ cs) l h = (ground arith, digits-Without x cs l h.1)

version-place : (v : RequestVersion) (s : Bytes) → find (b' ' ∷ []) (version_text v ++ s) ≡ some 8
unfolding find
version-place v1 s = refl
version-place v1_1 s = refl

version-behind : (v : RequestVersion) (s : Bytes) → drop 9 (version_text v ++ s) ≡ s
version-behind v1 s = refl
version-behind v1_1 s = refl

version-front : (v : RequestVersion) (s : Bytes) → drop 8 (version_text v ++ s) ≡ 32 ∷ s
version-front v1 s = refl
version-front v1_1 s = refl

version-read :
    (v : RequestVersion) (s : Bytes)
    → (if same_bytes (take 8 (version_text v ++ s)) (codes "HTTP/1.0") then v1 else v1_1) ≡ v
version-read v1 s = refl
version-read v1_1 s = refl

-- The status and the version of a line that was written.
pub first_line-version :
    (v : RequestVersion) (n : ℕ) (rest : Bytes)
    → n < 2 ^ 31
    → first_line (version_text v ++ (to_string n ++ 32 ∷ rest)) ≡ some (n, v)
unfolding first_line find_from
first_line-version v n rest h =
    let ts = to_string n in
    let line = version_text v ++ (ts ++ 32 ∷ rest) in
    let second : find_from (b' ' ∷ []) (8 + 1) line ≡ some (9 + length ts) =
      ap (λ x. shifted 9 (find (b' ' ∷ []) x)) (version-behind v (ts ++ 32 ∷ rest))
      ∙ ap (shifted 9)
          (find-char 32 ts rest (digits-Without 32 ts (omega arith) (to_string-IsDigit n))) in
    let size : 9 + length ts - 8 ≡ suc (length ts) = omega arith in
    let text : up_to 8 (some (9 + length ts)) line ≡ 32 ∷ ts =
      ap (take (9 + length ts - 8)) (version-front v (ts ++ 32 ∷ rest))
      ∙ ap (λ k. take k (32 ∷ (ts ++ 32 ∷ rest))) size
      ∙ ap (◌∷◌ 32) (take-append ts (32 ∷ rest) (length ts) refl) in
    ap (λ x. status_line x line) (version-place v (ts ++ 32 ∷ rest))
    ∙ ap (λ x. with_version (stoi (up_to 8 x line)) 8 line) second
    ∙ ap (λ x. with_version (stoi x) 8 line) text
    ∙ ap (λ x. with_version x 8 line) (stoi-to_string n h)
    ∙ ap (λ x. some (n, x)) (version-read v (ts ++ 32 ∷ rest))
