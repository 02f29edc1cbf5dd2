-- ===== src/Packet/Collections.antt =====
-- include/frnetlib/Packet.h: the operators on pairs, vectors and maps, the templates `add` and
-- `add_range`, over any type that a packet takes.
use mathlib.Core.Logic.{ite}
use frnetlib.Base.{ℕ, zero, suc, ◌%◌, ◌^◌, List, [], ◌∷◌, Option, none, some, length}
use frnetlib.Encoding.{ByteOrder}
use frnetlib.Packet.{Packet, M, pure, ◌>>=◌, add_u32, extract_u32}

-- `<<` and `>>` at one type.
pub record Packable (A : Type 0) : Type 0 where
  pub add : A → Packet → Packet
  pub extract : M A

module _ {A : Type 0} (c : Packable A) where
  -- `for(auto iter = begin; iter != end; ++iter) *this << *iter;`
  unfoldable pub add_each : List A → Packet → Packet
  add_each [] p = p
  add_each (x ∷ xs) p = add_each xs (c.add x p)

  -- `for(auto &&iter : vec) *this >> iter;` over a vector of the length given.
  unfoldable pub extract_each : ℕ → M (List A)
  extract_each zero = pure []
  extract_each (suc n) = do x ← c.extract; xs ← extract_each n; pure (x ∷ xs)

  unfoldable pub add_vector : ByteOrder → List A → Packet → Packet
  unfolding add_each
  add_vector o xs p = add_each xs (add_u32 o (length xs % 2 ^ 32) p)

  -- `std::distance(begin, end)` elements.
  unfoldable pub add_range : ByteOrder → List A → Packet → Packet
  unfolding add_each
  add_range o xs p = add_each xs (add_u32 o (length xs % 2 ^ 32) p)

  unfoldable pub extract_vector : ByteOrder → M (List A)
  unfolding extract_each
  extract_vector o = do n ← extract_u32 o; extract_each n

module _ {A B : Type 0} (c : Packable A) (d : Packable B) where
  unfoldable pub add_pair : A × B → Packet → Packet
  add_pair (a, b) p = d.add b (c.add a p)

  unfoldable pub extract_pair : M (A × B)
  extract_pair = do a ← c.extract; b ← d.extract; pure (a, b)

  abbrev pub pair_packable : Packable (A × B)
  pair_packable = record { add = add_pair; extract = extract_pair }

-- A map is its entries in the order of iteration; `emplace` keeps an entry that is there. Where a
-- container puts a new entry elsewhere than at the end, it is the same map in another order.
module _ {K V : Type 0} (same : Discrete K) where
  unfoldable pub find : K → List (K × V) → Option V
  find k [] = none
  find k ((j, v) ∷ m) = let rest = find k m in ite (same k j) (some v) rest

  unfoldable pub emplace : K × V → List (K × V) → List (K × V)
  emplace (k, v) [] = (k, v) ∷ []
  emplace (k, v) ((j, w) ∷ m) =
      let rest = emplace (k, v) m in ite (same k j) ((j, w) ∷ m) ((j, w) ∷ rest)

module _ {K V : Type 0} (same : Discrete K) (c : Packable K) (d : Packable V) where
  unfoldable pub add_map : ByteOrder → List (K × V) → Packet → Packet
  unfolding add_each
  add_map o m p = add_each (pair_packable c d) m (add_u32 o (length m % 2 ^ 32) p)

  -- `for(uint32_t a = 0; a < length; a++)`, into a map that may hold entries already.
  unfoldable pub extract_entries : ℕ → List (K × V) → M (List (K × V))
  extract_entries zero m = pure m
  extract_entries (suc n) m = do e ← extract_pair c d; extract_entries n (emplace same e m)

  unfoldable pub extract_map : ByteOrder → List (K × V) → M (List (K × V))
  unfolding extract_entries
  extract_map o m = do n ← extract_u32 o; extract_entries n m
