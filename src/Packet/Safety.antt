-- ===== src/Packet/Safety.antt =====
-- Extraction from any bytes at all: what a peer sent never makes the code read outside the buffer, and
-- leaves a packet that can be read on.
use frnetlib.Base.{
  ℕ, zero, suc, ◌^◌, ◌≤◌, ◌<◌, ◌≡◌, ◌≢◌, refl, sym, ap, ◌∙◌, arith, List, [], ◌∷◌, Bytes, IsByte,
  length, drop, All, length-take, length-drop, All-take, All-drop,
}
use mathlib.Core.Path.{subst}
use frnetlib.Encoding.Wire.{hton-load, of_big_endian-lt}
use frnetlib.Encoding.{ByteOrder, load, hton}
use frnetlib.Packet.{
  Packet, Result, ok, fail, undefined, M, ◌>>=◌, ◌>>◌, bind_result, pure, assert_bytes_remaining,
  read_bytes, extract_word, extract_u32, extract_string,
}
use frnetlib.Packet.Collections.{
  Packable, extract_each, extract_vector, extract_pair, emplace, extract_entries, extract_map,
}
use frnetlib.Packet.Codec.{IsValid}

-- A packet that can be read: its cursor is in place, and its buffer holds bytes.
pub record IsReadable (p : Packet) : Type 0 where
  pub valid : IsValid p
  pub bytes : All IsByte p.buffer

-- A result within `Post`, or an exception; nothing undefined.
abbrev pub Good : {A : Type 0} → (A → Type 0) → Result A → Type 0
Good Post (ok a) = Post a
Good Post (fail e) = e ≢ undefined

-- From `p` an extraction ended with `r`: it left the buffer as it was, and moved the cursor forward, at
-- most to the end.
abbrev pub Ends : {A : Type 0} → (A → Type 0) → Packet → Result A × Packet → Type 0
Ends Post p (r, q) =
    Good Post r
    × (q.buffer ≡ p.buffer)
    × (p.buffer_read_index ≤ q.buffer_read_index)
    × (q.buffer_read_index ≤ length p.buffer)

abbrev pub IsSafe : {A : Type 0} → (A → Type 0) → M A → Type 0
IsSafe Post m = (p : Packet) → IsReadable p → Ends Post p (m p)

-- Every value.
abbrev pub Any : {A : Type 0} → A → Type 0
Any a = Unit

pub Ends-IsReadable :
    {A : Type 0} (Post : A → Type 0) (p : Packet) (x : Result A × Packet)
    → IsReadable p
    → Ends Post p x
    → IsReadable x.1
Ends-IsReadable Post p (r, q) v e = record {
  valid = record {
    behind_header = omega (arith, v.valid.behind_header);
    in_buffer = omega (arith, ap (length {A = ℕ}) e.1);
    fits = omega (arith, ap (length {A = ℕ}) e.1, v.valid.fits);
  };
  bytes = subst (All IsByte) (sym e.1) v.bytes;
}

pub pure-IsSafe : {A : Type 0} (Post : A → Type 0) (a : A) → Post a → IsSafe Post (pure a)
pure-IsSafe Post a h p v = (h, refl, omega arith, v.valid.in_buffer)

pub Ends-weaken :
    {A : Type 0} (Pre Post : A → Type 0)
    → ((a : A) → Pre a → Post a)
    → (p : Packet) (x : Result A × Packet) → Ends Pre p x
    → Ends Post p x
Ends-weaken Pre Post f p (ok a, q) e = (f a e.0, e.1, e.2, e.3)
Ends-weaken Pre Post f p (fail x, q) e = e

Ends-bind_result :
    {A B : Type 0} (Pre : A → Type 0) (Post : B → Type 0) (p : Packet) (x : Result A × Packet)
    (f : A → M B)
    → IsReadable p
    → Ends Pre p x
    → ((a : A) → Pre a → IsSafe Post (f a))
    → Ends Post p (bind_result x f)
Ends-bind_result Pre Post p (ok a, q) f v e h =
    let t = h a e.0 q (Ends-IsReadable Pre p (ok a, q) v e) in
    (t.0, t.1 ∙ e.1, omega arith, omega (arith, ap (length {A = ℕ}) e.1))
Ends-bind_result Pre Post p (fail x, q) f v e h = e

pub >>=-IsSafe :
    {A B : Type 0} (Pre : A → Type 0) (Post : B → Type 0) (m : M A) (f : A → M B)
    → IsSafe Pre m
    → ((a : A) → Pre a → IsSafe Post (f a))
    → IsSafe Post (m >>= f)
>>=-IsSafe Pre Post m f s h p v = Ends-bind_result Pre Post p (m p) f v (s p v) h

-- The bytes that a copy of `n` bytes may yield.
abbrev pub Copied : ℕ → Bytes → Type 0
Copied n bs = (length bs ≡ n) × All IsByte bs

-- A check and then a copy of as many bytes, below the range of the address space.
pub read_bytes-IsSafe :
    (n : ℕ) → n < 2 ^ 63 → IsSafe (Copied n) (assert_bytes_remaining n >> read_bytes n)
unfolding assert_bytes_remaining read_bytes
read_bytes-IsSafe n small p v = ground (
  arith,
  v.valid.in_buffer,
  v.valid.fits,
  length-take n (drop p.buffer_read_index p.buffer),
  length-drop p.buffer_read_index p.buffer,
  All-take IsByte n (drop p.buffer_read_index p.buffer)
      (All-drop IsByte p.buffer_read_index p.buffer v.bytes),
)

bind_result_assoc :
    {A B C : Type 0} (x : Result A × Packet) (n : M B) (f : B → M C)
    → bind_result x (λ _. n >>= f) ≡ bind_result (bind_result x (λ _. n)) f
bind_result_assoc (ok a, p) n f = refl
bind_result_assoc (fail e, p) n f = refl

pub take_bytes-IsSafe :
    {B : Type 0} (Post : B → Type 0) (n : ℕ) (f : Bytes → M B)
    → n < 2 ^ 63
    → ((bs : Bytes) → Copied n bs → IsSafe Post (f bs))
    → IsSafe Post (assert_bytes_remaining n >> (read_bytes n >>= f))
take_bytes-IsSafe Post n f small h p v =
    subst (Ends Post p) (sym (bind_result_assoc (assert_bytes_remaining n p) (read_bytes n) f)) (
      >>=-IsSafe (Copied n) Post (assert_bytes_remaining n >> read_bytes n) f
        (read_bytes-IsSafe n small) h p v)

word_range : (o : ByteOrder) (w : ℕ) (bs : Bytes) → Copied w bs → hton o w (load o bs) < 256 ^ w
word_range o w bs c =
    rw (← c.0) (rw (hton-load o bs c.1) (omega (arith, of_big_endian-lt bs 0 c.1)))

-- A word read from any bytes fits its width.
pub extract_word-IsSafe :
    (o : ByteOrder) (w : ℕ) → w < 2 ^ 63 → IsSafe (λ v. v < 256 ^ w) (extract_word o w)
unfolding extract_word
extract_word-IsSafe o w small =
    take_bytes-IsSafe (λ v. v < 256 ^ w) w _ small
      λ bs c. pure-IsSafe (λ v. v < 256 ^ w) _ (word_range o w bs c)

-- Extraction of a string: any bytes a peer may send are refused, or give a string; nothing is read
-- outside the buffer.
pub extract_string-IsSafe : (o : ByteOrder) → IsSafe (All IsByte) (extract_string o)
unfolding extract_string extract_u32
extract_string-IsSafe o =
    >>=-IsSafe (λ n. n < 2 ^ 32) (All IsByte) _ _ (extract_word-IsSafe o 4 (omega arith))
      λ n small p v.
        Ends-weaken (Copied n) (All IsByte) (λ bs c. c.1) p _
          (read_bytes-IsSafe n (omega arith) p v)

module _ {A : Type 0} (c : Packable A) (Post : A → Type 0) (s : IsSafe Post c.extract) where
  pub extract_each-IsSafe :
      (n : ℕ) → IsSafe (λ xs. (length xs ≡ n) × All Post xs) (extract_each c n)
  unfolding extract_each
  extract_each-IsSafe zero = pure-IsSafe (λ xs. (length xs ≡ zero) × All Post xs) [] (refl, tt)
  extract_each-IsSafe (suc n) =
      >>=-IsSafe Post (λ xs. (length xs ≡ suc n) × All Post xs) c.extract _ s
        λ x hx.
          >>=-IsSafe (λ xs. (length xs ≡ n) × All Post xs) _ (extract_each c n) _
            (extract_each-IsSafe n)
            λ xs hxs.
              pure-IsSafe (λ xs. (length xs ≡ suc n) × All Post xs) (x ∷ xs)
                (ap suc hxs.0, (hx, hxs.1))

  pub extract_vector-IsSafe :
      (o : ByteOrder) → IsSafe (λ xs. (length xs < 2 ^ 32) × All Post xs) (extract_vector c o)
  unfolding extract_vector extract_u32
  extract_vector-IsSafe o =
      >>=-IsSafe (λ n. n < 2 ^ 32) _ _ (extract_each c) (extract_word-IsSafe o 4 (omega arith))
        λ n small p v.
          Ends-weaken (λ xs. (length xs ≡ n) × All Post xs) _ (λ xs h. (rw h.0 small, h.1)) p _
            (extract_each-IsSafe n p v)

abbrev pub Both : {A B : Type 0} → (A → Type 0) → (B → Type 0) → A × B → Type 0
Both PostA PostB (a, b) = PostA a × PostB b

module _ {A B : Type 0} (c : Packable A) (PostA : A → Type 0) (s : IsSafe PostA c.extract)
    (d : Packable B) (PostB : B → Type 0) (t : IsSafe PostB d.extract) where
  pub extract_pair-IsSafe : IsSafe (Both PostA PostB) (extract_pair c d)
  unfolding extract_pair
  extract_pair-IsSafe = >>=-IsSafe PostA (Both PostA PostB) c.extract _ s λ a ha.
      >>=-IsSafe PostB (Both PostA PostB) d.extract _ t
        λ b hb. pure-IsSafe (Both PostA PostB) (a, b) (ha, hb)

  extract_entries-IsSafe :
      (same : Discrete A) (n : ℕ) (m : List (A × B)) → IsSafe Any (extract_entries same c d n m)
  unfolding extract_entries
  extract_entries-IsSafe same zero m = pure-IsSafe Any m tt
  extract_entries-IsSafe same (suc n) m =
      >>=-IsSafe (Both PostA PostB) Any (extract_pair c d) _ extract_pair-IsSafe
        λ e he. extract_entries-IsSafe same n (emplace same e m)

  -- Extraction of a map, into a map with any entries.
  pub extract_map-IsSafe :
      (same : Discrete A) (o : ByteOrder) (m : List (A × B)) → IsSafe Any (extract_map same c d o m)
  unfolding extract_map extract_u32
  extract_map-IsSafe same o m =
      >>=-IsSafe (λ n. n < 2 ^ 32) Any _ _ (extract_word-IsSafe o 4 (omega arith))
        λ n small. extract_entries-IsSafe same n m

-- Extraction of a string from a packet that can be read, whatever bytes a peer sent: it gives a string of bytes or an
-- exception, never anything undefined, and leaves the buffer as it was and the cursor at or behind its place, in the
-- buffer.
pub extract_string-Ends :
    (o : ByteOrder) (p : Packet) → IsReadable p → Ends (All IsByte) p (extract_string o p)
extract_string-Ends o p v = extract_string-IsSafe o p v

-- Extraction of a vector, where extraction of an element is safe and gives elements of `Post`: it gives fewer than
-- 2 ^ 32 such elements or an exception, never anything undefined, and leaves the buffer as it was and the cursor at or
-- behind its place, in the buffer.
pub extract_vector-Ends :
    {A : Type 0} (c : Packable A) (Post : A → Type 0)
    → IsSafe Post c.extract
    → (o : ByteOrder) (p : Packet) → IsReadable p
    → Ends (λ xs. (length xs < 2 ^ 32) × All Post xs) p (extract_vector c o p)
extract_vector-Ends c Post s o p v = extract_vector-IsSafe c Post s o p v

-- Extraction of a map into a map with any entries, where extraction of a key and of a value are safe: it gives a map or
-- an exception, never anything undefined, and leaves the buffer as it was and the cursor at or behind its place, in the
-- buffer.
pub extract_map-Ends :
    {K V : Type 0} (same : Discrete K) (c : Packable K) (PostK : K → Type 0)
    → IsSafe PostK c.extract
    → (d : Packable V) (PostV : V → Type 0) → IsSafe PostV d.extract
    → (o : ByteOrder) (m : List (K × V)) (p : Packet) → IsReadable p
    → Ends Any p (extract_map same c d o m p)
extract_map-Ends same c PostK s d PostV t o m p v =
    extract_map-IsSafe c PostK s d PostV t same o m p v
