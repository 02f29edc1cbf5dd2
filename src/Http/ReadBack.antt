-- ===== src/Http/ReadBack.antt =====
-- src/Http.cpp: `split_string` and `parse_header_line` on the lines of a header that was written.
use frnetlib.Base.{
  ℕ, ◌+◌, ◌≡◌, inl, inr, refl, sym, ap, ◌∙◌, arith, false, List, [], ◌∷◌, ◌++◌, append_assoc,
  append-nil, Option, none, some, Bytes, Bool-cases, All, All-append, ◌==◌, length, length-append,
  take, drop, take-append, drop-append,
}
use mathlib.Core.Path.{ap₂}
use frnetlib.Base.Text.{find, shifted, later, find_first_not_of, same_bytes, to_lower}
use frnetlib.Http.{close_part, split_from, split_string}
use frnetlib.Http.Fields.{Fields, look_up, emplace}
use frnetlib.Http.Message.{
  Http, is_blank, printable, header_value, header_at, header_parts, add_header, add_parts,
  parse_header_line, parse_header_lines,
}
use frnetlib.Http.Lines.{
  Without, find-char, split_line, field, tail_text, cr, tail_lines, IsPrintable, IsField, AllFields,
  field-Without, close_line,
}

-- A header splits into its lines.
split_lines :
    (ret : List Bytes) (l : Bytes) (x : ℕ) (s : Bytes) (m : Fields)
    → Without 10 (l ++ x ∷ s)
    → AllFields m
    → split_from 10 false ret [] ((l ++ x ∷ s) ++ tail_text m)
      ≡ ret ++ ((l ++ x ∷ s) ++ cr m) ∷ tail_lines m
unfolding tail_text tail_lines split_from
split_lines ret l x s [] h all =
    split_line 10 ret [] (l ++ x ∷ s) [] h
    ∙ close_line ret x l s
    ∙ ap (λ y. ret ++ y ∷ []) (sym (append-nil (l ++ x ∷ s)))
split_lines ret l x s ((name, value) ∷ m) h all =
    let line = l ++ x ∷ s in
    let long = line ++ 13 ∷ [] in
    let rest = field name value ++ tail_text m in
    let closed : close_part ret long ≡ ret ++ long ∷ [] =
      ap (close_part ret) (append_assoc l (x ∷ s) (13 ∷ []))
      ∙ close_line ret x l (s ++ 13 ∷ [])
      ∙ ap (λ y. ret ++ y ∷ []) (sym (append_assoc l (x ∷ s) (13 ∷ []))) in
    ap (split_from 10 false ret []) (sym (append_assoc line (13 ∷ []) (10 ∷ rest)))
    ∙ split_line 10 ret [] long (10 ∷ rest) (All-append _ line (13 ∷ []) h (refl, tt))
    ∙ ap (λ r. split_from 10 false r [] rest) closed
    ∙ split_lines (ret ++ long ∷ []) name 58 (32 ∷ value) m
        (field-Without 10 name value (omega arith) all.0.no_lf all.0) all.1
    ∙ append_assoc ret (long ∷ []) ((field name value ++ cr m) ∷ tail_lines m)

pub split_string-lines :
    (c : ℕ) (l : Bytes) (m : Fields)
    → Without 10 (c ∷ l)
    → AllFields m
    → split_string ((c ∷ l) ++ tail_text m) 10 false ≡ ((c ∷ l) ++ cr m) ∷ tail_lines m
unfolding split_string
split_string-lines c l m h all = split_lines [] [] c l m h all

printable_front : (v t : Bytes) → All IsPrintable v → printable t ≡ [] → printable (v ++ t) ≡ v
unfolding printable
printable_front [] t h e = e
printable_front (c ∷ cs) t h e =
    let rest = printable_front cs t h.1 e in ground (arith, h.0.0, h.0.1)

printable-cr : (m : Fields) → printable (cr m) ≡ []
unfolding printable
printable-cr [] = refl
printable-cr (x ∷ m) = refl

value_begins :
    (v t : Bytes)
    → find_first_not_of is_blank v ≡ some 0
    → find_first_not_of is_blank (32 ∷ (v ++ t)) ≡ some 1
unfolding find_first_not_of
value_begins [] t h = let no : ◌≡◌ {A = Option ℕ} none (some 0) = h in cc
value_begins (c ∷ cs) t h = elim (Bool-cases (c == b' ')) [
  | inl blank ↦ absurd (later-zero (find_first_not_of is_blank cs) (rw blank at h))
  | inr other ↦ rw other refl
]
  where
    later-zero : (y : Option ℕ) → later y ≡ some 0 → ⊥
    later-zero none e = cc
    later-zero (some i) e = cc

-- A line of a header is read as its name and its value.
header_parts-field :
    (name value : Bytes) (m : Fields)
    → IsField name value
    → header_parts (field name value ++ cr m) ≡ some (name, value)
unfolding header_parts
header_parts-field name value m f =
    let str = name ++ 58 ∷ 32 ∷ (value ++ cr m) in
    let shape : field name value ++ cr m ≡ str = append_assoc name (58 ∷ 32 ∷ value) (cr m) in
    let found : find (58 ∷ []) str ≡ some (length name) =
      find-char 58 name (32 ∷ (value ++ cr m)) f.no_colon in
    let behind : drop (length name + 1) str ≡ 32 ∷ (value ++ cr m) =
      ap (drop (length name + 1)) (sym (append_assoc name (58 ∷ []) (32 ∷ (value ++ cr m))))
      ∙ drop-append (name ++ 58 ∷ []) _ (length name + 1) (length-append name (58 ∷ [])) in
    let begins = value_begins value (cr m) f.no_space in
    let rest : drop (length name + 1 + 1) str ≡ value ++ cr m =
      ap (drop (length name + 1 + 1)) (sym (append_assoc name (58 ∷ 32 ∷ []) (value ++ cr m)))
      ∙ drop-append (name ++ 58 ∷ 32 ∷ []) _ (length name + 1 + 1)
          (length-append name (58 ∷ 32 ∷ []) ∙ omega arith) in
    let kept = printable_front value (cr m) f.is_printable (printable-cr m) in
    let front : take (length name) str ≡ name = take-append name _ (length name) refl in
    ap header_parts shape
    ∙ ap (λ x. header_at x str) found
    ∙ ap
        (λ x.
          header_value (length name) (shifted (length name + 1) (find_first_not_of is_blank x)) str)
        behind
    ∙ ap (λ x. header_value (length name) (shifted (length name + 1) x) str) begins
    ∙ ap₂ (λ x y. some (x, y)) (ap to_lower front ∙ f.in_lower_case) (ap printable rest ∙ kept)

-- No name is there twice, nor in the fields before.
abbrev pub Fresh : Fields → Fields → Type 0
Fresh before [] = Unit
Fresh before ((name, value) ∷ m) =
    (look_up name before ≡ none) × Fresh (before ++ (name, value) ∷ []) m

emplace_fresh : (k v : Bytes) (m : Fields) → look_up k m ≡ none → emplace k v m ≡ m ++ (k, v) ∷ []
unfolding look_up emplace
emplace_fresh k v [] h = refl
emplace_fresh k v ((j, w) ∷ m) h = elim (Bool-cases (same_bytes j k)) [
  | inl here ↦ let no : some w ≡ none = (rw here at h) in cc
  | inr on ↦ rw on (ap (◌∷◌ (j, w)) (emplace_fresh k v m (rw on at h)))
]

add_header-field :
    (name value : Bytes) (h : Http)
    → IsField name value
    → look_up name h.header_data ≡ none
    → add_header name value h ≡ record h { header_data = h.header_data ++ (name, value) ∷ [] }
unfolding add_header
add_header-field name value h f fresh =
    rw (f.other_name, emplace_fresh name value h.header_data fresh) refl

-- The lines of a header are read as its fields.
pub parse_header_lines-tail_lines :
    (m : Fields) (h : Http)
    → AllFields m
    → Fresh h.header_data m
    → parse_header_lines (tail_lines m) h ≡ record h { header_data = h.header_data ++ m }
unfolding parse_header_lines parse_header_line tail_lines
parse_header_lines-tail_lines [] h all fresh =
    ap (λ d. record h { header_data = d }) (sym (append-nil h.header_data))
parse_header_lines-tail_lines ((name, value) ∷ m) h all fresh =
    let longer : Http = record h { header_data = h.header_data ++ (name, value) ∷ [] } in
    ap (λ x. parse_header_lines (tail_lines m) (add_parts x h))
      (header_parts-field name value m all.0)
    ∙ ap (parse_header_lines (tail_lines m)) (add_header-field name value h all.0 fresh.0)
    ∙ parse_header_lines-tail_lines m longer all.1 fresh.1
    ∙ ap (λ d. record h { header_data = d }) (append_assoc h.header_data ((name, value) ∷ []) m)
