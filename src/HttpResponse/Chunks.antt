-- ===== src/HttpResponse/Chunks.antt =====
-- src/HttpResponse.cpp: bodies in chunks, as a peer writes them.
use frnetlib.Base.{
  ℕ, zero, suc, ◌+◌, ◌-◌, ◌^◌, ◌≤◌, ◌<◌, ◌≡◌, refl, sym, ap, ◌∙◌, arith, true, List, [], ◌∷◌, ◌++◌,
  append_assoc, some, Bytes, All, length, length-append, drop-append,
}
use mathlib.Core.Path.{ap₂}
use frnetlib.Base.Text.{find, find_from, find-append, shifted, erase}
use frnetlib.Base.Erase.{erase_part, substr_part}
use frnetlib.Base.Numbers.{stoull}
use frnetlib.Socket.{success}
use frnetlib.Http.Transfer.{returned}
use frnetlib.HttpResponse.Parse.{
  crlf, went_on, read_chunk, Unchunked, loop_ended, after_round, read_chunks,
}
use frnetlib.HttpResponse.Steps.{Framed, unframed, Framed-read}
use frnetlib.HttpResponse.Loop.{goes_on, runs, stops}

-- A chunk: the line with its size, and its data.
pub record Chunk : Type 0 where
  pub line : Bytes
  pub data_bytes : Bytes

-- The line ends where CR and LF come first, and spells the number of the data's bytes in hexadecimal; anything may follow
-- the number in it.
pub record IsChunk (c : Chunk) : Type 0 where
  pub one_line : find crlf (c.line ++ crlf) ≡ some (length c.line)
  pub spelled : stoull 16 c.line ≡ some (length c.data_bytes)
  pub short : length c.data_bytes + 4 < 2 ^ 32

-- A chunk, and what follows it.
abbrev pub framed : Chunk → Bytes → Bytes
framed c rest = c.line ++ (crlf ++ (c.data_bytes ++ (crlf ++ rest)))

unfoldable pub chunked : List Chunk → Bytes → Bytes
chunked [] rest = rest
chunked (c ∷ cs) rest = framed c (chunked cs rest)

unfoldable pub contents : List Chunk → Bytes
contents [] = []
contents (c ∷ cs) = c.data_bytes ++ contents cs

module _ (before : Bytes) (c : Chunk) (rest : Bytes) (is : IsChunk c) where
  abbrev o : ℕ
  o = length before

  abbrev h : ℕ
  h = length c.line

  abbrev n : ℕ
  n = length c.data_bytes

  abbrev whole : Bytes
  whole = before ++ framed c rest

  size-whole : o + h + n + 4 ≤ length whole
  size-whole = omega (
    arith,
    length-append before (framed c rest),
    length-append c.line (crlf ++ (c.data_bytes ++ (crlf ++ rest))),
    length-append c.data_bytes (crlf ++ rest),
  )

  size-front : length (before ++ (c.line ++ (crlf ++ c.data_bytes))) ≡ o + (o + h - o) + n + 2
  size-front = omega (
    arith,
    length-append before (c.line ++ (crlf ++ c.data_bytes)),
    length-append c.line (crlf ++ c.data_bytes),
  )

  Framed-whole : Framed o (o + h) n whole
  unfolding find_from
  Framed-whole = record {
    ended =
        ap (λ x. shifted o (find crlf x)) (drop-append before (framed c rest) o refl)
        ∙ ap (shifted o) (
            ap (find crlf) (sym (append_assoc c.line crlf (c.data_bytes ++ (crlf ++ rest))))
            ∙ find-append crlf (c.line ++ crlf) _ h is.one_line);
    digits = n;
    number =
        ap (stoull 16) (substr_part before c.line _ o (o + h - o) refl (omega arith)) ∙ is.spelled;
    length_is = omega (arith, is.short);
    small = is.short;
    whole = size-whole;
  }

  unframed-whole : unframed o (o + h) n whole ≡ before ++ (c.data_bytes ++ rest)
  unframed-whole =
      let front = before ++ (c.line ++ (crlf ++ c.data_bytes)) in
      let apart : whole ≡ front ++ (crlf ++ rest) = simp append_assoc in
      let second : front ++ rest ≡ before ++ ((c.line ++ crlf) ++ (c.data_bytes ++ rest)) =
        simp append_assoc in
      ap (λ x. erase o (o + h - o + 2) (erase (o + (o + h - o) + n + 2) 2 x)) apart
      ∙ ap (erase o (o + h - o + 2))
          (erase_part front crlf rest (o + (o + h - o) + n + 2) 2 size-front refl)
      ∙ ap (erase o (o + h - o + 2)) second
      ∙ erase_part before (c.line ++ crlf) (c.data_bytes ++ rest) o _ refl
          (omega (arith, length-append c.line crlf))

  read_framed : read_chunk o whole ≡ went_on n (before ++ (c.data_bytes ++ rest)) (o + n)
  read_framed =
      Framed-read o (o + h) n whole Framed-whole ∙ ap (λ x. went_on n x (o + n)) unframed-whole

zero_size : (f : ℕ) (s : Bytes) (o : ℕ) → 0 < f → read_chunks f 0 s o ≡ some (loop_ended 0 s o)
zero_size zero s o l = absurd (omega arith)
zero_size (suc f) s o l = stops f 0 s o refl

-- What follows a chunk of no bytes is left.
abbrev pub finished : Bytes → List Chunk → Bytes → Unchunked
finished before cs rest = record {
  outcome = returned success;
  rest = before ++ (contents cs ++ rest);
  offset = length (before ++ contents cs);
}

-- One round on a chunk.
one_round :
    (f : ℕ) (m : ℕ) (before : Bytes) (c : Chunk) (rest : Bytes)
    → IsChunk c
    → 0 < m
    → read_chunks (suc f) m (before ++ framed c rest) (length before)
      ≡ read_chunks f
          (length c.data_bytes)
          (before ++ (c.data_bytes ++ rest))
          (length before + length c.data_bytes)
one_round f m before c rest is l =
    let on : goes_on m (before ++ framed c rest) (length before) ≡ true =
      ground (arith, size-whole before c rest is) in
    runs f m (before ++ framed c rest) (length before) on
    ∙ ap (after_round (read_chunks f) _ (length before)) (read_framed before c rest is)

-- The loop on chunks that each have a byte at least, and then one that has none: it succeeds, with the data of all chunks
-- in order in the place of the chunks, the bytes in front and behind as they were, and the offset behind the data. It
-- needs one round for each chunk.
pub read_chunks-chunked :
    (f m : ℕ) (before : Bytes) (cs : List Chunk) (last : Chunk) (rest : Bytes)
    → All (λ c. IsChunk c × (1 ≤ length c.data_bytes)) cs
    → IsChunk last
    → last.data_bytes ≡ []
    → 0 < m
    → length cs + 1 < f
    → read_chunks f m (before ++ chunked cs (framed last rest)) (length before)
      ≡ some (finished before cs rest)
unfolding chunked contents
read_chunks-chunked zero m before cs last rest all is empty l k = absurd (omega arith)
read_chunks-chunked (suc f) m before [] last rest all is empty l k =
    one_round f m before last rest is l
    ∙ ap (λ d. read_chunks f (length d) (before ++ (d ++ rest)) (length before + length d)) empty
    ∙ zero_size f (before ++ rest) (length before + 0) (omega arith)
    ∙ ap (λ i. some (record { outcome = returned success; rest = before ++ rest; offset = i }))
        (omega (arith, length-append before []))
read_chunks-chunked (suc f) m before (c ∷ cs) last rest all is empty l k =
    let behind = chunked cs (framed last rest) in
    let kept : (before ++ c.data_bytes) ++ (contents cs ++ rest)
        ≡ before ++ ((c.data_bytes ++ contents cs) ++ rest) =
      simp append_assoc in
    one_round f m before c behind all.0.0 l
    ∙ ap₂ (read_chunks f (length c.data_bytes)) (sym (append_assoc before c.data_bytes behind))
        (sym (length-append before c.data_bytes))
    ∙ read_chunks-chunked f (length c.data_bytes) (before ++ c.data_bytes) cs last rest all.1 is
        empty all.0.1 (omega arith)
    ∙ ap₂ (λ x y. some (record { outcome = returned success; rest = x; offset = length y })) kept
        (append_assoc before c.data_bytes (contents cs))
