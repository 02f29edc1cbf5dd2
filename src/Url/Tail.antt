-- ===== src/Url/Tail.antt =====
-- src/URL.cpp: the path, the query and the fragment are taken apart.
use frnetlib.Base.{
  ℕ, suc, ◌+◌, ◌-◌, ◌≤◌, ◌≡◌, refl, sym, ap, ◌∙◌, arith, true, false, [], ◌∷◌, ◌++◌, append_assoc,
  append-nil, none, some, Bytes, codes, leb, ◌==◌, length, length-append, All-append,
}
use frnetlib.Base.Text.{find_from, substr}
use frnetlib.Http.Lines.{Without}
use frnetlib.Url.{Url, or_else, or_size, parse_query, parse_uri, marked}
use frnetlib.Url.Places.{place, nowhere, slice}

-- A path behind its first slash, a query and a fragment that the marks tell apart: no mark of a later part stands in an
-- earlier one, and they are not all empty.
pub data IsUri (p : Bytes) : Bytes → Bytes → Type 0 where
  with_query : {c : ℕ} {cs f : Bytes} → Without 63 p → Without 35 (c ∷ cs) → IsUri p (c ∷ cs) f
  with_fragment :
      {d : ℕ} {ds : Bytes} → Without 63 p → Without 35 p → Without 63 (d ∷ ds) → IsUri p [] (d ∷ ds)
  path_only : 1 ≤ length p → Without 63 p → Without 35 p → IsUri p [] []

-- What the parts are behind the path's first slash.
abbrev pub tail_of : Bytes → Bytes → Bytes → Bytes
tail_of p q f = p ++ (marked (codes "?") q ++ marked (codes "#") f)

abbrev pub filled : Bytes → Bytes → Bytes → Url → Url
filled p q f u = record u { path = u.path ++ codes "/" ++ p; query = q; fragment = f }

module _ (front : Bytes) (u : Url) (no_query : u.query ≡ []) (no_fragment : u.fragment ≡ []) where
  abbrev o : ℕ
  o = length front

  abbrev path_end : Bytes → ℕ
  path_end t =
      or_size
        (or_else (find_from (b'?' ∷ []) o t)
          (or_else (find_from (b'#' ∷ []) o t) (find_from (b'?' ∷ []) o t)))
        t

  -- The path up to `pos`.
  uri_at :
      (p t : Bytes) (pos : ℕ)
      → leb (length t) o ≡ false
      → path_end t ≡ pos
      → substr o (pos - o) t ≡ p
      → parse_uri o t u
        ≡ parse_query
            (find_from (b'#' ∷ []) pos t)
            (pos + 1)
            t
            (record u { path = u.path ++ codes "/" ++ p })
  uri_at p t pos e f g =
      let back : pos + 1 - 1 ≡ pos = omega arith in
      rw (e, f, g)
        (ap
          (λ k.
            parse_query (find_from (b'#' ∷ []) k t) (pos + 1) t
              (record u { path = u.path ++ codes "/" ++ p }))
          back)

  -- With a query, and a fragment or none.
  query_read :
      (p : Bytes) (c : ℕ) (cs f : Bytes)
      → Without 63 p
      → Without 35 (c ∷ cs)
      → parse_uri o (front ++ tail_of p (c ∷ cs) f) u ≡ filled p (c ∷ cs) f u
  query_read p c cs [] h k =
      let q = c ∷ cs in
      let t = front ++ tail_of p q [] in
      let pos = o + length p in
      let shape : t ≡ front ++ (p ++ 63 ∷ q) = simp append-nil in
      let behind : t ≡ (front ++ p) ++ 63 ∷ q = shape ∙ sym (append_assoc front p (63 ∷ q)) in
      let last : t ≡ (front ++ (p ++ 63 ∷ [])) ++ (q ++ []) = simp (append_assoc, append-nil) in
      let size : length t ≡ o + (length p + suc (length q)) =
        ap (length {A = ℕ}) shape
        ∙ omega (arith, length-append front (p ++ 63 ∷ q), length-append p (63 ∷ q)) in
      let more : leb (length t) o ≡ false = ground (arith, size) in
      let more' : leb (length t) (pos + 1) ≡ false = ground (arith, size) in
      let mark : path_end t ≡ pos =
        ap
          (λ x.
            or_size (or_else x (or_else (find_from (b'#' ∷ []) o t) (find_from (b'?' ∷ []) o t))) t)
          (place 63 o t front p q shape refl h) in
      let no_hash =
        nowhere 35 pos t (front ++ p) (63 ∷ q) behind (length-append front p) (refl, k) in
      let query : substr (pos + 1) (length t - (pos + 1)) t ≡ q =
        slice (pos + 1) (length t - (pos + 1)) t (front ++ (p ++ 63 ∷ [])) q [] last
          (omega (arith, length-append front (p ++ 63 ∷ []), length-append p (63 ∷ [])))
          (omega (arith, size)) in
      uri_at p t pos more mark (slice o (pos - o) t front p (63 ∷ q) shape refl (omega arith))
      ∙ rw (no_hash, more', query, no_fragment) refl
  query_read p c cs (d ∷ ds) h k =
      let q = c ∷ cs in
      let f = d ∷ ds in
      let t = front ++ tail_of p q f in
      let pos = o + length p in
      let pos' = pos + suc (length q) in
      let behind : t ≡ (front ++ p) ++ ((63 ∷ q) ++ 35 ∷ f) = simp append_assoc in
      let last : t ≡ (front ++ (p ++ 63 ∷ [])) ++ (q ++ 35 ∷ f) = simp append_assoc in
      let rest : t ≡ (front ++ (p ++ 63 ∷ (q ++ 35 ∷ []))) ++ (f ++ []) =
        simp (append_assoc, append-nil) in
      let size : length t ≡ o + (length p + suc (length q + suc (length f))) = omega (
        arith,
        length-append front (p ++ 63 ∷ (q ++ 35 ∷ f)),
        length-append p (63 ∷ (q ++ 35 ∷ f)),
        length-append q (35 ∷ f),
      ) in
      let more : leb (length t) o ≡ false = ground (arith, size) in
      let mark : path_end t ≡ pos =
        ap
          (λ x.
            or_size (or_else x (or_else (find_from (b'#' ∷ []) o t) (find_from (b'?' ∷ []) o t))) t)
          (place 63 o t front p (q ++ 35 ∷ f) refl refl h) in
      let hash = place 35 pos t (front ++ p) (63 ∷ q) f behind (length-append front p) (refl, k) in
      let apart : (pos' + 1 == pos + 1) ≡ false = ground arith in
      let query : substr (pos + 1) (pos' - (pos + 1)) t ≡ q =
        slice (pos + 1) (pos' - (pos + 1)) t (front ++ (p ++ 63 ∷ [])) q (35 ∷ f) last
          (omega (arith, length-append front (p ++ 63 ∷ []), length-append p (63 ∷ [])))
          (omega arith) in
      let fragment : substr (pos' + 1) (length t - pos' - 1) t ≡ f =
        slice (pos' + 1) (length t - pos' - 1) t (front ++ (p ++ 63 ∷ (q ++ 35 ∷ []))) f [] rest
          (omega (
            arith,
            length-append front (p ++ 63 ∷ (q ++ 35 ∷ [])),
            length-append p (63 ∷ (q ++ 35 ∷ [])),
            length-append q (35 ∷ []),
          ))
          (omega (arith, size)) in
      uri_at p t pos more mark
        (slice o (pos - o) t front p (63 ∷ (q ++ 35 ∷ f)) refl refl (omega arith))
      ∙ rw (hash, apart, query, fragment) refl

  fragment_read :
      (p : Bytes) (d : ℕ) (ds : Bytes)
      → Without 63 p
      → Without 35 p
      → Without 63 (d ∷ ds)
      → parse_uri o (front ++ tail_of p [] (d ∷ ds)) u ≡ filled p [] (d ∷ ds) u
  fragment_read p d ds h k l =
      let f = d ∷ ds in
      let t = front ++ tail_of p [] f in
      let pos = o + length p in
      let behind : t ≡ (front ++ p) ++ ([] ++ 35 ∷ f) = sym (append_assoc front p (35 ∷ f)) in
      let rest : t ≡ (front ++ (p ++ 35 ∷ [])) ++ (f ++ []) = simp (append_assoc, append-nil) in
      let size : length t ≡ o + (length p + suc (length f)) =
        omega (arith, length-append front (p ++ 35 ∷ f), length-append p (35 ∷ f)) in
      let more : leb (length t) o ≡ false = ground (arith, size) in
      let no_mark =
        nowhere 63 o t front (p ++ 35 ∷ f) refl refl (All-append _ p (35 ∷ f) h (refl, l)) in
      let mark : path_end t ≡ pos =
        ap (λ x. or_size (or_else x (or_else (find_from (b'#' ∷ []) o t) x)) t) no_mark
        ∙ ap (λ x. or_size (or_else none (or_else x none)) t)
            (place 35 o t front p f refl refl k) in
      let hash : find_from (b'#' ∷ []) pos t ≡ some (pos + 0) =
        place 35 pos t (front ++ p) [] f behind (length-append front p) tt in
      let together : (pos + 0 + 1 == pos + 1) ≡ true = ground arith in
      let fragment : substr (pos + 0 + 1) (length t - (pos + 0) - 1) t ≡ f =
        slice (pos + 0 + 1) (length t - (pos + 0) - 1) t (front ++ (p ++ 35 ∷ [])) f [] rest
          (omega (arith, length-append front (p ++ 35 ∷ []), length-append p (35 ∷ [])))
          (omega (arith, size)) in
      uri_at p t pos more mark (slice o (pos - o) t front p (35 ∷ f) refl refl (omega arith))
      ∙ ap (λ x. parse_query x (pos + 1) t (record u { path = u.path ++ codes "/" ++ p })) hash
      ∙ rw (together, fragment, no_query) refl

  path_alone :
      (p : Bytes)
      → 1 ≤ length p
      → Without 63 p
      → Without 35 p
      → parse_uri o (front ++ tail_of p [] []) u ≡ filled p [] [] u
  path_alone p some_path h k =
      let t = front ++ tail_of p [] [] in
      let shape : t ≡ front ++ p = simp append-nil in
      let size : length t ≡ o + length p = ap (length {A = ℕ}) shape ∙ length-append front p in
      let not_done : leb (length t) o ≡ false = ground (arith, size) in
      let done : leb (length t) (length t + 1) ≡ true = ground arith in
      let part : substr o (length t - o) t ≡ p =
        slice o (length t - o) t front p [] (shape ∙ ap (◌++◌ front) (sym (append-nil p))) refl
          (omega (arith, size)) in
      let q1 = nowhere 63 o t front p shape refl h in
      let q2 = nowhere 35 o t front p shape refl k in
      let q3 = nowhere 35 (length t + 1 - 1) t t [] (sym (append-nil t)) (omega arith) tt in
      rw (not_done, q1, q2, q3, done, part, no_query, no_fragment) refl

  -- Whichever parts there are.
  pub uri_read :
      (p q f : Bytes) → IsUri p q f → parse_uri o (front ++ tail_of p q f) u ≡ filled p q f u
  uri_read p (c ∷ cs) f (with_query h k) = query_read p c cs f h k
  uri_read p [] (d ∷ ds) (with_fragment h k l) = fragment_read p d ds h k l
  uri_read p [] [] (path_only some_path h k) = path_alone p some_path h k
