-- ===== src/Packet/RoundTrip.antt =====
-- What was added to a packet is extracted from it: pairs, vectors and maps of values that are.
use frnetlib.Base.{
  ℕ, ◌+◌, ◌%◌, ◌^◌, ◌<◌, ◌≡◌, refl, sym, ap, ◌∙◌, arith, List, [], ◌∷◌, ◌++◌, Bytes, length,
  length-append, All, append_assoc, append-nil, drop-append_le,
}
use frnetlib.Encoding.{ByteOrder, big_endian}
use frnetlib.Packet.{Packet, ok, M, ◌>>=◌, pure, add_raw}
use frnetlib.Packet.{add_u32, extract_u32}
use frnetlib.Packet.Collections.{
  Packable, add_each, extract_each, add_vector, extract_vector, add_pair, extract_pair,
  pair_packable, find, emplace, add_map, extract_entries, extract_map,
}
use frnetlib.Packet.Codec.{
  IsValid, unread, advance, Lawful, advance-IsValid, unread-advance, extract-bind, advance-advance,
  add_raw-add_raw, word, word-Lawful,
}
use native.Mathlib.Nat.{mod-eq_of_lt}
use mathlib.Core.Path.{ap₂}
use mathlib.Core.Option.{none}

abbrev pub encode_each : {A : Type 0} → (A → Bytes) → List A → Bytes
encode_each encode [] = []
encode_each encode (x ∷ xs) = encode x ++ encode_each encode xs

-- The length in four bytes, then the elements.
abbrev pub encode_vector : {A : Type 0} → (A → Bytes) → List A → Bytes
encode_vector encode xs = big_endian 4 (length xs) ++ encode_each encode xs

abbrev pub encode_pair : {A B : Type 0} → (A → Bytes) → (B → Bytes) → A × B → Bytes
encode_pair encode_a encode_b (a, b) = encode_a a ++ encode_b b

abbrev pub FitsPair : {A B : Type 0} → (A → Type 0) → (B → Type 0) → A × B → Type 0
FitsPair FitsA FitsB (a, b) = FitsA a × FitsB b

module _ {A : Type 0} (c : Packable A) (encode : A → Bytes) (Fits : A → Type 0)
    (l : Lawful c encode Fits) where
  -- A value of any type with these laws, added on one host to a packet whose cursor is at its end, is extracted again,
  -- also by a host whose operators differ but agree on the encoding; the cursor is then behind that value.
  pub extract-add :
      (c' : Packable A)
      → Lawful c' encode Fits
      → (a : A) (p : Packet) → Fits a
      → IsValid p
      → unread p ≡ []
      → length p.buffer + length (encode a) < 2 ^ 63
      → c'.extract (c.add a p) ≡ (ok a, advance (length (encode a)) (c.add a p))
  unfolding add_raw
  extract-add c' l' a p h v e fits = rw (l.add_lem a p h) (
      l'.extract_lem a [] (add_raw (encode a) p) h
        (record {
          behind_header = v.behind_header;
          in_buffer = omega (arith, length-append p.buffer (encode a), v.in_buffer);
          fits = omega (arith, length-append p.buffer (encode a));
        })
        (drop-append_le p.buffer_read_index p.buffer (encode a) v.in_buffer ∙ rw (e, append-nil)))

  pub add_each_lem :
      (xs : List A) (p : Packet) → All Fits xs → add_each c xs p ≡ add_raw (encode_each encode xs) p
  unfolding add_each
  add_each_lem [] p h =
      unfold add_raw in ap (λ t. record p { buffer = t }) (sym (append-nil p.buffer))
  add_each_lem (x ∷ xs) p h =
      rw (l.add_lem x p h.0)
        (add_each_lem xs _ h.1 ∙ add_raw-add_raw (encode x) (encode_each encode xs) p)

  pub extract_each_lem :
      (xs : List A) (rest : Bytes) (p : Packet)
      → All Fits xs
      → IsValid p
      → unread p ≡ encode_each encode xs ++ rest
      → extract_each c (length xs) p ≡ (ok xs, advance (length (encode_each encode xs)) p)
  unfolding extract_each
  extract_each_lem [] rest p h v e =
      ap (λ t. (ok [], record p { buffer_read_index = t })) (omega arith)
  extract_each_lem (x ∷ xs) rest p h v e =
      let e' : unread p ≡ encode x ++ (encode_each encode xs ++ rest) =
        e ∙ append_assoc (encode x) _ rest in
      let q = advance (length (encode x)) p in
      let more : A → M (List A) = λ y. extract_each c (length xs) >>= λ ys. pure (y ∷ ys) in
      extract-bind c encode Fits more l x _ p h.0 v e'
      ∙ (rw (
          extract_each_lem xs rest q h.1 (advance-IsValid (encode x) _ p v e')
            (unread-advance (encode x) _ p e')))
      ∙ ap (λ t. (ok (x ∷ xs), t)) (advance-advance _ _ _ p (sym (length-append (encode x) _)))

  pub add_counted :
      (o : ByteOrder) (xs : List A) (p : Packet)
      → (length xs < 2 ^ 32) × All Fits xs
      → add_each c xs (add_u32 o (length xs % 2 ^ 32) p) ≡ add_raw (encode_vector encode xs) p
  unfolding add_u32
  add_counted o xs p h =
      rw (mod-eq_of_lt h.0, (word-Lawful o 4).add_lem (length xs) p h.0)
        (add_each_lem xs _ h.1 ∙ add_raw-add_raw _ (encode_each encode xs) p)

  abbrev pub vector : ByteOrder → Packable (List A)
  vector o = record { add = add_vector c o; extract = extract_vector c o }

  pub vector-Lawful :
      (o : ByteOrder)
      → Lawful (vector o) (encode_vector encode) (λ xs. (length xs < 2 ^ 32) × All Fits xs)
  unfolding add_vector extract_vector extract_u32
  vector-Lawful o = record {
    add_lem = add_counted o;
    extract_lem = λ xs rest p h v e.
        let prefix = big_endian 4 (length xs) in
        let e' : unread p ≡ prefix ++ (encode_each encode xs ++ rest) =
          e ∙ append_assoc prefix _ rest in
        extract-bind (word o 4) _ _ (extract_each c) (word-Lawful o 4) (length xs) _ p h.0 v e'
        ∙ extract_each_lem xs rest (advance (length prefix) p) h.1 (advance-IsValid prefix _ p v e')
            (unread-advance prefix _ p e')
        ∙ ap (λ t. (ok xs, t)) (advance-advance _ _ _ p (sym (length-append prefix _)));
  }

module _ {A B : Type 0} (c : Packable A) (encode_a : A → Bytes) (FitsA : A → Type 0)
    (d : Packable B) (encode_b : B → Bytes) (FitsB : B → Type 0) (l : Lawful c encode_a FitsA)
    (m : Lawful d encode_b FitsB) where
  add_pair_lem :
      (e : A × B) (p : Packet)
      → FitsPair FitsA FitsB e
      → add_pair c d e p ≡ add_raw (encode_pair encode_a encode_b e) p
  unfolding add_pair
  add_pair_lem (a, b) p h =
      rw (l.add_lem a p h.0, add_pair)
        (m.add_lem b _ h.1 ∙ add_raw-add_raw (encode_a a) (encode_b b) p)

  extract_pair_lem :
      (e : A × B) (rest : Bytes) (p : Packet)
      → FitsPair FitsA FitsB e
      → IsValid p
      → unread p ≡ encode_pair encode_a encode_b e ++ rest
      → extract_pair c d p ≡ (ok e, advance (length (encode_pair encode_a encode_b e)) p)
  unfolding extract_pair
  extract_pair_lem (a, b) rest p h v e =
      let e' : unread p ≡ encode_a a ++ (encode_b b ++ rest) =
        e ∙ append_assoc (encode_a a) _ rest in
      let more : A → M (A × B) = λ x. d.extract >>= λ y. pure (x, y) in
      extract-bind c encode_a FitsA more l a _ p h.0 v e'
      ∙ (rw (
          m.extract_lem b rest (advance (length (encode_a a)) p) h.1
            (advance-IsValid (encode_a a) _ p v e') (unread-advance (encode_a a) _ p e')))
      ∙ ap (λ t. (ok (a, b), t)) (advance-advance _ _ _ p (sym (length-append (encode_a a) _)))

  pub pair-Lawful :
      Lawful (pair_packable c d) (encode_pair encode_a encode_b) (FitsPair FitsA FitsB)
  pair-Lawful = record { add_lem = add_pair_lem; extract_lem = extract_pair_lem }

-- Each key is absent from `m` and from the entries in front of its own.
abbrev pub Distinct : {K V : Type 0} → Discrete K → List (K × V) → List (K × V) → Type 0
Distinct same m [] = Unit
Distinct same m ((k, v) ∷ es) = (find same k m ≡ none) × Distinct same (m ++ (k, v) ∷ []) es

pub emplace_new :
    {K V : Type 0} (same : Discrete K) (k : K) (v : V) (m : List (K × V))
    → find same k m ≡ none
    → emplace same (k, v) m ≡ m ++ (k, v) ∷ []
unfolding find emplace
emplace_new same k v [] h = refl
emplace_new same k v ((j, w) ∷ m) h = ground (arith, emplace_new same k v m)

module _ {K V : Type 0} (same : Discrete K) (c : Packable K) (encode_k : K → Bytes)
    (FitsK : K → Type 0) (d : Packable V) (encode_v : V → Bytes) (FitsV : V → Type 0)
    (l : Lawful c encode_k FitsK) (l' : Lawful d encode_v FitsV) where
  abbrev encode_entries : List (K × V) → Bytes
  encode_entries = encode_each (encode_pair encode_k encode_v)

  abbrev FitsMap : List (K × V) → Type 0
  FitsMap es = (length es < 2 ^ 32) × All (FitsPair FitsK FitsV) es × Distinct same [] es

  extract_entries_lem :
      (es m : List (K × V)) (rest : Bytes) (p : Packet)
      → All (FitsPair FitsK FitsV) es
      → Distinct same m es
      → IsValid p
      → unread p ≡ encode_entries es ++ rest
      → extract_entries same c d (length es) m p
        ≡ (ok (m ++ es), advance (length (encode_entries es)) p)
  unfolding extract_entries
  extract_entries_lem [] m rest p h ds v e =
      rw append-nil (ap (λ t. (ok m, record p { buffer_read_index = t })) (omega arith))
  extract_entries_lem ((k, x) ∷ es) m rest p h ds v e =
      let first = encode_pair encode_k encode_v (k, x) in
      let e' : unread p ≡ first ++ (encode_entries es ++ rest) = e ∙ append_assoc first _ rest in
      let more : K × V → M (List (K × V)) =
        λ y. extract_entries same c d (length es) (emplace same y m) in
      extract-bind (pair_packable c d) (encode_pair encode_k encode_v) (FitsPair FitsK FitsV) more
        (pair-Lawful c encode_k FitsK d encode_v FitsV l l') (k, x) _ p h.0 v e'
      ∙ ap (λ t. extract_entries same c d (length es) t (advance (length first) p))
          (emplace_new same k x m ds.0)
      ∙ extract_entries_lem es (m ++ (k, x) ∷ []) rest (advance (length first) p) h.1 ds.1
          (advance-IsValid first _ p v e') (unread-advance first _ p e')
      ∙ ap₂ (λ s t. (ok s, t)) (append_assoc m ((k, x) ∷ []) es)
          (advance-advance _ _ _ p (sym (length-append first _)))

  -- Extraction into an empty map.
  abbrev pub map_packable : ByteOrder → Packable (List (K × V))
  map_packable o = record { add = add_map same c d o; extract = extract_map same c d o [] }

  -- A map whose keys differ, and whose entries a packet gives back, is given back itself, with its
  -- entries in the order in which they were added.
  pub map-Lawful :
      (o : ByteOrder)
      → Lawful (map_packable o) (encode_vector (encode_pair encode_k encode_v)) FitsMap
  unfolding add_map extract_map extract_u32
  map-Lawful o = record {
    add_lem = λ m p h.
        add_counted (pair_packable c d) _ _ (pair-Lawful c encode_k FitsK d encode_v FitsV l l') o m
          p (h.0, h.1);
    extract_lem = λ m rest p h v e.
        let prefix = big_endian 4 (length m) in
        let e' : unread p ≡ prefix ++ (encode_entries m ++ rest) = e ∙ append_assoc prefix _ rest in
        let more : ℕ → M (List (K × V)) = λ n. extract_entries same c d n [] in
        extract-bind (word o 4) _ _ more (word-Lawful o 4) (length m) _ p h.0 v e'
        ∙ extract_entries_lem m [] rest (advance (length prefix) p) h.1 h.2
            (advance-IsValid prefix _ p v e') (unread-advance prefix _ p e')
        ∙ ap (λ t. (ok m, t)) (advance-advance _ _ _ p (sym (length-append prefix _)));
  }
