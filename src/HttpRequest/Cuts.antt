-- ===== src/HttpRequest/Cuts.antt =====
-- Where the header ends in the front part of a stream.
use frnetlib.Base.{
  ℕ, ◌+◌, ◌-◌, ◌≤◌, ◌≡◌, ◌⊎◌, inl, inr, refl, sym, ap, ◌∙◌, arith, ◌++◌, Option, none, some, Bytes,
  leb, length, take, take-append_ge, Bool-cases,
}
use frnetlib.Base.Text.{find, find-append, find-within, find-none, Option-cases}
use frnetlib.HttpRequest.Parse.{header_end, mark, crlf_crlf, lf_lf}

no_mark : (x y : Option ℕ) → mark x y ≡ none → (x ≡ none) × (y ≡ none)
no_mark none none e = (refl, refl)
no_mark none (some j) e = cc
no_mark (some i) y e = cc

no_end : (s : Bytes) → find crlf_crlf s ≡ none → find lf_lf s ≡ none → header_end s ≡ none
unfolding header_end
no_end s e f = rw (e, f)

pub header_end-front : (a t : Bytes) → header_end (a ++ t) ≡ none → header_end a ≡ none
header_end-front a t out =
    let (no_crlf, no_lf) =
      no_mark (find crlf_crlf (a ++ t)) (find lf_lf (a ++ t)) (unfold header_end in out) in
    no_end a (find-none crlf_crlf a t no_crlf) (find-none lf_lf a t no_lf)

-- Two pairs of CR and LF, with no empty line of another kind in front of them, end the header in the front part or not at
-- all in it.
pub front_cases :
    (a t : Bytes) (i : ℕ)
    → find crlf_crlf (a ++ t) ≡ some i
    → find lf_lf (take (i + 4) (a ++ t)) ≡ none
    → (header_end a ≡ none) ⊎ (find crlf_crlf a ≡ some i)
front_cases a t i found clear = elim (Option-cases (find crlf_crlf a)) [
  | inr (j, within) ↦ inr (within ∙ sym (find-append crlf_crlf a t j within) ∙ found)
  | inl out ↦
      let short : length a ≤ i + 4 = elim (Bool-cases (leb (i + 4) (length a))) [
        | inl long ↦
            let no : none ≡ some i = sym out ∙ find-within crlf_crlf a t i found (ground arith) in
            cc
        | inr less ↦ ground arith
      ] in
      let front = take-append_ge (i + 4) (i + 4 - length a) a t (omega arith) in
      inl (no_end a out (find-none lf_lf a _ (ap (find lf_lf) (sym front) ∙ clear)))
]
