-- ===== src/Http/Lines.antt =====
-- src/Http.cpp: the lines of a header that were written are read back.
use frnetlib.Base.{
  ℕ, suc, ◌≤◌, ◌<◌, ◌≡◌, inl, inr, refl, sym, ap, ◌∙◌, arith, false, List, [], ◌∷◌, ◌++◌,
  append_assoc, append-nil, Option, none, some, Bytes, Bool-cases, All, All-append, ◌==◌, codes,
  length,
}
use frnetlib.Base.Text.{find, find_behind, later, shifted, find_first_not_of, same_bytes, to_lower}
use frnetlib.Http.{close_part, split_from}
use frnetlib.Http.Fields.{Fields}
use frnetlib.Http.Message.{is_blank}
use frnetlib.Http.Write.{header_line, header_lines}

-- Without a character.
abbrev pub Without : ℕ → Bytes → Type 0
Without x s = All (λ c. (c == x) ≡ false) s

-- The first place of a character is behind a text that has none.
pub find-char : (x : ℕ) (s t : Bytes) → Without x s → find (x ∷ []) (s ++ x ∷ t) ≡ some (length s)
unfolding find
find-char x [] t h = ground arith
find-char x (c ∷ cs) t h =
    let other : (x == c) ≡ false = (let k : (c == x) ≡ false = h.0 in ground arith) in
    rw other (ap later (find-char x cs t h.1))

-- A pattern that begins with another character is found behind the text.
pub find-behind :
    (x : ℕ) (p s t : Bytes)
    → Without x s
    → find (x ∷ p) (s ++ t) ≡ shifted (length s) (find (x ∷ p) t)
find-behind x p [] t h = unmoved (find (x ∷ p) t)
  where
    unmoved : (y : Option ℕ) → y ≡ shifted 0 y
    unmoved none = refl
    unmoved (some i) = ap some (omega arith)
find-behind x p (c ∷ cs) t h =
    let other : (x == c) ≡ false = (let k : (c == x) ≡ false = h.0 in ground arith) in
    find_behind (x ∷ p) c (cs ++ t) (rw other refl)
    ∙ ap later (find-behind x p cs t h.1)
    ∙ one_more (find (x ∷ p) t)
  where
    one_more : (y : Option ℕ) → later (shifted (length cs) y) ≡ shifted (suc (length cs)) y
    one_more none = refl
    one_more (some i) = ap some (omega arith)

-- A line that does not hold the separator is gathered.
pub split_line :
    (token : ℕ) (ret : List Bytes) (buffer l s : Bytes)
    → Without token l
    → split_from token false ret buffer (l ++ s) ≡ split_from token false ret (buffer ++ l) s
unfolding split_from
split_line token ret buffer [] s h =
    ap (λ b. split_from token false ret b s) (sym (append-nil buffer))
split_line token ret buffer (c ∷ cs) s h =
    let step =
      split_line token ret (buffer ++ c ∷ []) cs s h.1
      ∙ ap (λ b. split_from token false ret b s) (append_assoc buffer (c ∷ []) cs) in
    elim (Bool-cases (c == b' ')) [
      | inl blank ↦ rw (h.0, blank) step
      | inr other ↦ rw (h.0, other) step
    ]

-- A header in one text, without the line ends behind its last line.
abbrev pub field : Bytes → Bytes → Bytes
field name value = name ++ 58 ∷ 32 ∷ value

unfoldable pub tail_text : Fields → Bytes
tail_text [] = []
tail_text ((name, value) ∷ m) = 13 ∷ 10 ∷ (field name value ++ tail_text m)

-- The lines as `split_string` leaves them: all but the last keep their CR.
abbrev pub cr : Fields → Bytes
cr [] = []
cr (x ∷ m) = 13 ∷ []

unfoldable pub tail_lines : Fields → List Bytes
tail_lines [] = []
tail_lines ((name, value) ∷ m) = (field name value ++ cr m) ∷ tail_lines m

pub header_lines-tail_text : (m : Fields) → 13 ∷ 10 ∷ header_lines m ≡ tail_text m ++ 13 ∷ 10 ∷ []
unfolding header_lines tail_text
header_lines-tail_text [] = refl
header_lines-tail_text ((name, value) ∷ m) =
    let inner : header_line name value ++ header_lines m
        ≡ field name value ++ (13 ∷ 10 ∷ header_lines m) =
      simp append_assoc in
    ap (λ t. 13 ∷ 10 ∷ t)
      (inner
        ∙ ap (◌++◌ (field name value)) (header_lines-tail_text m)
        ∙ sym (append_assoc (field name value) (tail_text m) (13 ∷ 10 ∷ [])))

abbrev pub IsPrintable : ℕ → Type 0
IsPrintable c = (32 ≤ c) × (c ≤ 126)

-- A header that can be read back: a name in lower case, without line ends and colons, that is not the one of transfer
-- encodings, and a value of printable characters, which does not begin with a space.
pub record IsField (name value : Bytes) : Type 0 where
  pub no_colon : Without 58 name
  pub no_cr : Without 13 name
  pub no_lf : Without 10 name
  pub in_lower_case : to_lower name ≡ name
  pub other_name : same_bytes name (codes "transfer-encoding") ≡ false
  pub is_printable : All IsPrintable value
  pub no_space : find_first_not_of is_blank value ≡ some 0

abbrev pub AllFields : Fields → Type 0
AllFields m = All (λ f. IsField f.0 f.1) m

pub printable-Without : (x : ℕ) (v : Bytes) → x < 32 → All IsPrintable v → Without x v
printable-Without x [] l h = tt
printable-Without x (c ∷ cs) l h = (ground arith, printable-Without x cs l h.1)

pub field-Without :
    (x : ℕ) (name value : Bytes)
    → x < 32
    → Without x name
    → IsField name value
    → Without x (field name value)
field-Without x name value l h f =
    All-append _ name (58 ∷ 32 ∷ value) h
      (ground arith, (ground arith, printable-Without x value l f.is_printable))

pub close_line :
    (ret : List Bytes) (c : ℕ) (l s : Bytes)
    → close_part ret (l ++ c ∷ s) ≡ ret ++ (l ++ c ∷ s) ∷ []
close_line ret c [] s = refl
close_line ret c (d ∷ l) s = refl
