-- ===== src/HttpResponse/Steps.antt =====
-- src/HttpResponse.cpp: one round of the loop over the chunks, in a body within its bound.
use frnetlib.Base.{
  ℕ, ◌+◌, ◌-◌, ◌%◌, ◌^◌, ◌≤◌, ◌<◌, ◌≡◌, inl, inr, refl, sym, ap, ◌∙◌, arith, false, ◌++◌, Option,
  none, some, Bytes, ltb, length, length-append, length-drop, length-take, take, drop,
  drop-append_le, Bool-cases,
}
use frnetlib.Base.Text.{find, find-append, find-fits, find_from, shifted, substr, erase}
use frnetlib.Base.Erase.{length-erase, length-erase_le, erase-append, substr-append}
use frnetlib.Base.Numbers.{stoull}
use frnetlib.HttpRequest.{max_body_size}
use frnetlib.Http.Transfer.{Outcome}
use frnetlib.HttpResponse.Parse.{crlf, left, went_on, sized_chunk, ended_chunk, read_chunk}

-- A whole chunk of `n` bytes at `o`, whose digits end at `e`.
pub record Framed (o e n : ℕ) (s : Bytes) : Type 0 where
  pub ended : find_from crlf o s ≡ some e
  pub digits : ℕ
  pub number : stoull 16 (substr o (e - o) s) ≡ some digits
  pub length_is : n ≡ digits % 2 ^ 32
  pub small : n + 4 < 2 ^ 32
  pub whole : e + n + 4 ≤ length s

-- The body without what frames that chunk.
abbrev pub unframed : ℕ → ℕ → ℕ → Bytes → Bytes
unframed o e n s = erase o (e - o + 2) (erase (o + (e - o) + n + 2) 2 s)

shifted-some :
    (o e : ℕ) (x : Option ℕ) → shifted o x ≡ some e → (i : ℕ) × (x ≡ some i) × (e ≡ o + i)
shifted-some o e none h = cc
shifted-some o e (some i) h = (i, refl, ground arith)

pub find_from-place :
    (o e : ℕ) (s : Bytes)
    → find_from crlf o s ≡ some e
    → (i : ℕ) × (find crlf (drop o s) ≡ some i) × (e ≡ o + i)
unfolding find_from
find_from-place o e s h = shifted-some o e (find crlf (drop o s)) h

pub find_from-fits :
    (o e : ℕ) (s : Bytes) → find_from crlf o s ≡ some e → (o ≤ e) × (e + 2 ≤ length s)
find_from-fits o e s h =
    let (i, found, same) = find_from-place o e s h in
    let fits = find-fits crlf (drop o s) i found in (omega arith, omega (arith, length-drop o s))

pub find_from-append :
    (o e : ℕ) (s t : Bytes) → find_from crlf o s ≡ some e → find_from crlf o (s ++ t) ≡ some e
unfolding find_from
find_from-append o e s t h =
    let (i, found, same) = find_from-place o e s h in
    let fits = find_from-fits o e s h in
    ap (λ x. shifted o (find crlf x)) (drop-append_le o s t (omega arith))
    ∙ ap (shifted o) (find-append crlf (drop o s) t i found)
    ∙ ap some (sym same)

pub Framed-read :
    (o e n : ℕ) (s : Bytes) → Framed o e n s → read_chunk o s ≡ went_on n (unframed o e n s) (o + n)
unfolding read_chunk
Framed-read o e n s f =
    let (low, fits) = find_from-fits o e s f.ended in
    let size = f.length_is in
    let whole = f.whole in
    let small = f.small in
    let enough : ltb (length s - e) ((n + 4) % 2 ^ 32) ≡ false = ground arith in
    let within : ltb (length s) (o + (e - o) + n + 2) ≡ false = ground arith in
    ap (λ x. ended_chunk x o s) f.ended
    ∙ ap (λ x. sized_chunk e x o s) f.number
    ∙ rw (sym size, enough, within) refl

-- What a round has found where it goes on, in a body of any length.
record Found (o n o' : ℕ) (s s' : Bytes) : Type 0 where
  place : ℕ
  found : find_from crlf o s ≡ some place
  spelled : ℕ
  spells : stoull 16 (substr o (place - o) s) ≡ some spelled
  is_size : n ≡ spelled % 2 ^ 32
  enough : (n + 4) % 2 ^ 32 ≤ length s - place
  within : o + (place - o) + n + 2 ≤ length s
  erased : s' ≡ unframed o place n s
  moved : o' ≡ o + n

left≢went_on : (x : Outcome) (n o' : ℕ) (s' : Bytes) → left x ≡ went_on n s' o' → ⊥
left≢went_on x n o' s' h = cc

read-Found : (o n o' : ℕ) (s s' : Bytes) → read_chunk o s ≡ went_on n s' o' → Found o n o' s s'
unfolding read_chunk
read-Found o n o' s s' h = by_end _ refl h
  where
    by_number :
        (e : ℕ) (y : Option ℕ)
        → find_from crlf o s ≡ some e
        → stoull 16 (substr o (e - o) s) ≡ y
        → sized_chunk e y o s ≡ went_on n s' o'
        → Found o n o' s s'
    by_number e none g k h = cc
    by_number e (some d) g k h =
        elim (Bool-cases (ltb (length s - e) ((d % 2 ^ 32 + 4) % 2 ^ 32))) [
          | inl short ↦ absurd (left≢went_on _ n o' s' (rw short at h))
          | inr full ↦ elim (Bool-cases (ltb (length s) (o + (e - o) + d % 2 ^ 32 + 2))) [
            | inl behind ↦ absurd (left≢went_on _ n o' s' (rw (full, behind) at h))
            | inr inside ↦
                let eq : went_on (d % 2 ^ 32) (unframed o e (d % 2 ^ 32) s) (o + d % 2 ^ 32)
                    ≡ went_on n s' o' =
                  (rw (full, inside) at h) in
                let same : n ≡ d % 2 ^ 32 = cc in
                record {
                  place = e;
                  found = g;
                  spelled = d;
                  spells = k;
                  is_size = same;
                  enough = ground arith;
                  within = ground arith;
                  erased = cc;
                  moved = cc;
                }
          ]
        ]

    by_end :
        (x : Option ℕ)
        → find_from crlf o s ≡ x
        → ended_chunk x o s ≡ went_on n s' o'
        → Found o n o' s s'
    by_end none g h = cc
    by_end (some e) g h = by_number e _ g refl h

pub read-Framed :
    (o n o' : ℕ) (s s' : Bytes)
    → length s ≤ max_body_size
    → read_chunk o s ≡ went_on n s' o'
    → (e : ℕ) × Framed o e n s × (s' ≡ unframed o e n s) × (o' ≡ o + n)
read-Framed o n o' s s' bound h =
    let f = read-Found o n o' s s' h in
    let (low, fits) = find_from-fits o f.place s f.found in
    let within = f.within in
    let enough = f.enough in
    let small : n + 4 < 2 ^ 32 = omega arith in
    (
      f.place,
      record {
        ended = f.found;
        digits = f.spelled;
        number = f.spells;
        length_is = f.is_size;
        small = small;
        whole = omega arith;
      },
      f.erased,
      f.moved,
    )

-- More bytes behind it do not change a whole chunk.
pub Framed-append : (o e n : ℕ) (s t : Bytes) → Framed o e n s → Framed o e n (s ++ t)
Framed-append o e n s t f =
    let (low, fits) = find_from-fits o e s f.ended in
    record {
      ended = find_from-append o e s t f.ended;
      digits = f.digits;
      number = ap (stoull 16) (substr-append o (e - o) s t (omega arith)) ∙ f.number;
      length_is = f.length_is;
      small = f.small;
      whole = omega (arith, f.whole, length-append s t);
    }

pub unframed-append :
    (o e n : ℕ) (s t : Bytes) → Framed o e n s → unframed o e n (s ++ t) ≡ unframed o e n s ++ t
unframed-append o e n s t f =
    let (low, fits) = find_from-fits o e s f.ended in
    let p = o + (e - o) + n + 2 in
    let room : p + 2 ≤ length s = omega (arith, f.whole) in
    ap (erase o (e - o + 2)) (erase-append p 2 s t room)
    ∙ erase-append o (e - o + 2) (erase p 2 s) t (omega (arith, length-erase p 2 s room))

-- A round leaves a shorter body.
pub went_on-shorter :
    (o n o' : ℕ) (s s' : Bytes) → read_chunk o s ≡ went_on n s' o' → length s' < length s
went_on-shorter o n o' s s' h =
    let f = read-Found o n o' s s' h in
    let (low, fits) = find_from-fits o f.place s f.found in
    let p = o + (f.place - o) + n + 2 in
    let outer = length-erase_le p 2 s in
    let kept : p ≤ length (erase p 2 s) =
      omega (arith, length-append (take p s) (drop (p + 2) s), length-take p s, f.within) in
    let inner = length-erase o (f.place - o + 2) (erase p 2 s) (omega arith) in
    omega (arith, ap (length {A = ℕ}) f.erased)
