-- ===== src/HttpResponse/Loop.antt =====
-- src/HttpResponse.cpp: the loop over the chunks.
use frnetlib.Base.{
  ℕ, zero, suc, ◌+◌, ◌≤◌, ◌<◌, ◌≡◌, ◌⊎◌, inl, inr, refl, sym, ap, ◌∙◌, arith, Bool, true, false,
  ◌&&◌, ◌++◌, none, some, Bytes, ltb, length, length-append, Bool-cases,
}
use mathlib.Core.Path.{ap₂}
use mathlib.Core.Option.{some-injective}
use frnetlib.Socket.{success, not_enough_data}
use frnetlib.Http.Transfer.{Outcome, returned}
use frnetlib.HttpRequest.{max_body_size}
use frnetlib.HttpResponse.Parse.{
  Round, left, went_on, read_chunk, Unchunked, loop_ended, after_round, read_chunks,
}
use frnetlib.HttpResponse.Steps.{
  Framed-read, read-Framed, Framed-append, unframed-append, went_on-shorter,
}

-- The test of the loop.
abbrev pub goes_on : ℕ → Bytes → ℕ → Bool
goes_on c s o = ltb 0 c && ltb o (length s)

pub runs :
    (f c : ℕ) (s : Bytes) (o : ℕ)
    → goes_on c s o ≡ true
    → read_chunks (suc f) c s o ≡ after_round (read_chunks f) s o (read_chunk o s)
unfolding read_chunks
runs f c s o h = rw h

pub stops :
    (f c : ℕ) (s : Bytes) (o : ℕ)
    → goes_on c s o ≡ false
    → read_chunks (suc f) c s o ≡ some (loop_ended c s o)
unfolding read_chunks
stops f c s o h = rw h

round_cases :
    (r : Round)
    → ((x : Outcome) × (r ≡ left x)) ⊎ ((n : ℕ) × (s : Bytes) × (o : ℕ) × (r ≡ went_on n s o))
round_cases (left x) = inl (x, refl)
round_cases (went_on n s o) = inr (n, s, o, refl)

-- The loop ends, with fuel for every byte.
pub read_chunks-ends :
    (f c : ℕ) (s : Bytes) (o : ℕ) → length s < f → (u : Unchunked) × (read_chunks f c s o ≡ some u)
read_chunks-ends zero c s o h = absurd (omega arith)
read_chunks-ends (suc f) c s o h = elim (Bool-cases (goes_on c s o)) [
  | inr stop ↦ (loop_ended c s o, stops f c s o stop)
  | inl on ↦ elim (round_cases (read_chunk o s)) [
    | inl (x, r) ↦ (
      record { outcome = x; rest = s; offset = o },
      runs f c s o on ∙ ap (after_round (read_chunks f) s o) r,
    )
    | inr (n, s', o', r) ↦
        let (u, e) = read_chunks-ends f n s' o' (omega (arith, went_on-shorter o n o' s s' r)) in
        (u, runs f c s o on ∙ ap (after_round (read_chunks f) s o) r ∙ e)
  ]
]

-- What it leaves is not longer than what it got.
pub read_chunks-shorter :
    (f c : ℕ) (s : Bytes) (o : ℕ) (u : Unchunked)
    → read_chunks f c s o ≡ some u
    → length u.rest ≤ length s
unfolding read_chunks
read_chunks-shorter zero c s o u e = let no : none ≡ some u = e in cc
read_chunks-shorter (suc f) c s o u e = elim (Bool-cases (goes_on c s o)) [
  | inr stop ↦ left_as (loop_ended c s o) refl (sym (stops f c s o stop) ∙ e)
  | inl on ↦ elim (round_cases (read_chunk o s)) [
    | inl (x, r) ↦
        left_as (record { outcome = x; rest = s; offset = o }) refl
          (sym (runs f c s o on ∙ ap (after_round (read_chunks f) s o) r) ∙ e)
    | inr (n, s', o', r) ↦
        let less = went_on-shorter o n o' s s' r in
        let e' : read_chunks f n s' o' ≡ some u =
          sym (runs f c s o on ∙ ap (after_round (read_chunks f) s o) r) ∙ e in
        omega (arith, read_chunks-shorter f n s' o' u e')
  ]
]
  where
    left_as : (v : Unchunked) → v.rest ≡ s → some v ≡ some u → length u.rest ≤ length s
    left_as v a q =
        omega (arith, ap (λ x. length x.rest) (some-injective v u q), ap (length {A = ℕ}) a)

-- More fuel changes nothing.
pub read_chunks-fuel :
    (f g c : ℕ) (s : Bytes) (o : ℕ)
    → length s < f
    → length s < g
    → read_chunks f c s o ≡ read_chunks g c s o
read_chunks-fuel zero g c s o h k = absurd (omega arith)
read_chunks-fuel (suc f) zero c s o h k = absurd (omega arith)
read_chunks-fuel (suc f) (suc g) c s o h k = elim (Bool-cases (goes_on c s o)) [
  | inr stop ↦ stops f c s o stop ∙ sym (stops g c s o stop)
  | inl on ↦
      let same : after_round (read_chunks f) s o (read_chunk o s)
          ≡ after_round (read_chunks g) s o (read_chunk o s) =
        elim (round_cases (read_chunk o s)) [
          | inl (x, r) ↦ rw r refl
          | inr (n, s', o', r) ↦
              let less = went_on-shorter o n o' s s' r in
              rw r (read_chunks-fuel f g n s' o' (omega arith) (omega arith))
        ] in
      runs f c s o on ∙ same ∙ sym (runs g c s o on)
]

-- The size of the chunk before counts only as zero or not.
read_chunks-size :
    (f c : ℕ) (s : Bytes) (o : ℕ) → 0 < c → read_chunks (suc f) c s o ≡ read_chunks (suc f) 1 s o
unfolding read_chunks
read_chunks-size f c s o h = ground arith

again :
    (g h c : ℕ) (s : Bytes) (o : ℕ)
    → 0 < c
    → length s < g
    → length s < h
    → read_chunks h 1 s o ≡ read_chunks g c s o
again zero h c s o p k l = absurd (omega arith)
again (suc g) h c s o p k l =
    read_chunks-fuel h (suc g) 1 s o l k ∙ sym (read_chunks-size g c s o p)

-- A chunk of no bytes ends the loop with success.
nonzero :
    (f n : ℕ) (s : Bytes) (o : ℕ) (u : Unchunked)
    → read_chunks f n s o ≡ some u
    → u.outcome ≡ returned not_enough_data
    → 0 < n
unfolding read_chunks
nonzero f (suc n) s o u e w = omega arith
nonzero zero zero s o u e w = let no : none ≡ some u = e in cc
nonzero (suc f) zero s o u e w =
    let eq : some (loop_ended 0 s o) ≡ some u = sym (stops f 0 s o refl) ∙ e in
    let out : returned success ≡ returned not_enough_data =
      ap (λ x. x.outcome) (some-injective (loop_ended 0 s o) u eq) ∙ w in
    cc

-- A loop that asked for more bytes, and gets them, does what it does on all of them at once.
pub read_chunks-append :
    (f g h c : ℕ) (s t : Bytes) (o : ℕ) (u : Unchunked)
    → 0 < c
    → length (s ++ t) ≤ max_body_size
    → length s < f
    → length (s ++ t) < g
    → length (u.rest ++ t) < h
    → read_chunks f c s o ≡ some u
    → u.outcome ≡ returned not_enough_data
    → read_chunks h 1 (u.rest ++ t) u.offset ≡ read_chunks g c (s ++ t) o
read_chunks-append zero g h c s t o u p bound k l m e w = absurd (omega arith)
read_chunks-append (suc f) zero h c s t o u p bound k l m e w = absurd (omega arith)
read_chunks-append (suc f) (suc g) h c s t o u p bound k l m e w =
    elim (Bool-cases (goes_on c s o)) [
      | inr stop ↦ stays (loop_ended c s o) refl refl (sym (stops f c s o stop) ∙ e)
      | inl on ↦ elim (round_cases (read_chunk o s)) [
        | inl (x, r) ↦
            stays (record { outcome = x; rest = s; offset = o }) refl refl
              (sym (runs f c s o on ∙ ap (after_round (read_chunks f) s o) r) ∙ e)
        | inr (n, s', o', r) ↦
            let (place, framed, erased, moved) = read-Framed o n o' s s' (omega (arith, sum)) r in
            let less = went_on-shorter o n o' s s' r in
            let sum' : length (s' ++ t) ≡ length s' + length t = length-append s' t in
            let e' : read_chunks f n s' o' ≡ some u =
              sym (runs f c s o on ∙ ap (after_round (read_chunks f) s o) r) ∙ e in
            let r' : read_chunk o (s ++ t) ≡ went_on n (s' ++ t) o' =
              Framed-read o place n (s ++ t) (Framed-append o place n s t framed)
              ∙ ap₂ (went_on n)
                  (unframed-append o place n s t framed ∙ ap (λ x. x ++ t) (sym erased))
                  (sym moved) in
            let on' : goes_on c (s ++ t) o ≡ true = ground (arith, sum) in
            read_chunks-append f g h n s' t o' u (nonzero f n s' o' u e' w)
              (omega (arith, sum, sum')) (omega arith) (omega (arith, sum, sum')) m e' w
            ∙ sym (runs g c (s ++ t) o on' ∙ ap (after_round (read_chunks g) (s ++ t) o) r')
      ]
    ]
  where
    sum : length (s ++ t) ≡ length s + length t
    sum = length-append s t

    stays :
        (v : Unchunked)
        → v.rest ≡ s
        → v.offset ≡ o
        → some v ≡ some u
        → read_chunks h 1 (u.rest ++ t) u.offset ≡ read_chunks (suc g) c (s ++ t) o
    stays v a b q =
        let same : u ≡ v = sym (some-injective v u q) in
        let rest : u.rest ≡ s = ap (λ x. x.rest) same ∙ a in
        ap₂ (λ x i. read_chunks h 1 (x ++ t) i) rest (ap (λ x. x.offset) same ∙ b)
        ∙ again (suc g) h c (s ++ t) o p l (omega (arith, m, ap (λ x. length (x ++ t)) rest))
