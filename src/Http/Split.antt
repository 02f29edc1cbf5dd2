-- ===== src/Http/Split.antt =====
-- `split_string` against a description of it: the fields between the tokens.
use frnetlib.Base.{ℕ, Bool, ◌&&◌, List, [], ◌∷◌, ◌++◌, Bytes, ◌==◌, if◌then◌else◌}

abbrev onto_first : ℕ → List Bytes → List Bytes
onto_first a [] = (a ∷ []) ∷ []
onto_first a (p ∷ ps) = (a ∷ p) ∷ ps

-- The fields that the tokens of a string separate, the empty ones too.
abbrev pub fields : ℕ → Bytes → List Bytes
fields token [] = [] ∷ []
fields token (a ∷ str) =
    let rest = fields token str in if a == token then [] ∷ rest else onto_first a rest

-- A field without its spaces, if these are to be stripped.
abbrev pub squeezed : Bool → Bytes → Bytes
squeezed strip [] = []
squeezed strip (a ∷ p) =
    let rest = squeezed strip p in if a == b' ' && strip then rest else a ∷ rest

-- A field, unless it is empty.
abbrev part_of : Bytes → List Bytes
part_of [] = []
part_of (a ∷ p) = (a ∷ p) ∷ []

-- The fields that are not empty then.
abbrev pub parts : Bool → List Bytes → List Bytes
parts strip [] = []
parts strip (p ∷ ps) = part_of (squeezed strip p) ++ parts strip ps

-- The fields behind a buffer that belongs to the first of them.
abbrev behind : Bool → Bytes → List Bytes → List Bytes
behind strip buffer [] = part_of buffer
behind strip buffer (p ∷ ps) = part_of (buffer ++ squeezed strip p) ++ parts strip ps
