-- ===== src/Http/Path.antt =====
-- `set_uri`.
use frnetlib.Base.{◌≡◌, arith, [], ◌∷◌, Bytes, ◌==◌, inl, inr, Bool-cases}
use frnetlib.Http.{set_uri}

-- A path that begins with a slash begins with one again once another was set, and to set a path to what it is leaves it.
pub set_uri_lem :
    (uri str rest : Bytes)
    → uri ≡ b'/' ∷ rest
    → (tail : Bytes) × (set_uri uri str ≡ b'/' ∷ tail)
      × (set_uri uri (set_uri uri str) ≡ set_uri uri str)
unfolding set_uri
set_uri_lem uri [] rest e = (rest, e, rw e)
set_uri_lem uri (c ∷ str) rest e = elim (Bool-cases (c == b'/')) [
  | inl h ↦ (str, ground arith, ground arith)
  | inr h ↦ (c ∷ str, ground arith, ground arith)
]
