-- ===== src/Http/Fields.antt =====
-- The maps from strings to strings of src/Http.cpp: `std::unordered_map`, as its entries in the order of iteration. Where
-- a new entry goes in that order is the library's choice; here it is the end.
use frnetlib.Base.{
  ◌≡◌, ◌∙◌, ap, refl, arith, Bool, true, false, List, [], ◌∷◌, Option, none, some, Bytes,
  if◌then◌else◌,
}
use frnetlib.Base.Text.{same_bytes, to_lower}

abbrev pub Fields : Type 0
Fields = List (Bytes × Bytes)

-- `find`.
unfoldable pub look_up : Bytes → Fields → Option Bytes
look_up k [] = none
look_up k ((j, v) ∷ m) = let rest = look_up k m in if same_bytes j k then some v else rest

-- `emplace` keeps an entry that is there.
unfoldable pub emplace : Bytes → Bytes → Fields → Fields
emplace k v [] = (k, v) ∷ []
emplace k v ((j, w) ∷ m) =
    let rest = emplace k v m in if same_bytes j k then (j, w) ∷ m else (j, w) ∷ rest

-- Assignment through `operator[]`, which makes the entry where it is not there.
unfoldable pub assign : Bytes → Bytes → Fields → Fields
assign k v [] = (k, v) ∷ []
assign k v ((j, w) ∷ m) =
    let rest = assign k v m in if same_bytes j k then (j, v) ∷ m else (j, w) ∷ rest

-- `get`, `post` and `header` return a reference to the entry of a key in lower case, and `get_exists` and its kin look for
-- one.
unfoldable pub put : Bytes → Bytes → Fields → Fields
unfolding to_lower
put key v m = assign (to_lower key) v m

unfoldable pub value_of : Bytes → Fields → Bytes
value_of key m = elim (look_up (to_lower key) m) [ none ↦ [] | some v ↦ v ]

unfoldable pub exists : Bytes → Fields → Bool
exists key m = elim (look_up (to_lower key) m) [ none ↦ false | some v ↦ true ]

same_bytes_refl : (k : Bytes) → same_bytes k k ≡ true
same_bytes_refl [] = refl
same_bytes_refl (c ∷ cs) = ground (arith, same_bytes_refl cs)

pub same_bytes→≡ : (j k : Bytes) → same_bytes j k ≡ true → j ≡ k
same_bytes→≡ [] [] h = refl
same_bytes→≡ [] (b ∷ bs) h = cc
same_bytes→≡ (a ∷ us) [] h = cc
same_bytes→≡ (a ∷ us) (b ∷ vs) h = ground (arith, same_bytes→≡ us vs)

-- Lower case twice is lower case.
to_lower-to_lower : (s : Bytes) → to_lower (to_lower s) ≡ to_lower s
unfolding to_lower
to_lower-to_lower [] = refl
to_lower-to_lower (c ∷ cs) = ground (arith, to_lower-to_lower cs)

look_up-assign :
    (j k v : Bytes) (m : Fields)
    → look_up j (assign k v m) ≡ (if same_bytes k j then some v else look_up j m)
unfolding look_up assign
look_up-assign j k v [] = refl
look_up-assign j k v ((i, w) ∷ m) = ground (
  arith,
  look_up-assign j k v m,
  same_bytes→≡ i k,
  same_bytes→≡ k j,
  same_bytes→≡ i j,
  same_bytes_refl j,
)

abbrev or_empty : Option Bytes → Bytes
or_empty none = []
or_empty (some v) = v

value_of_lem : (key : Bytes) (m : Fields) → value_of key m ≡ or_empty (look_up (to_lower key) m)
unfolding value_of
value_of_lem key m = by_cases (look_up (to_lower key) m)
  where
    by_cases : (x : Option Bytes) → elim x [ none ↦ [] | some v ↦ v ] ≡ or_empty x
    by_cases none = refl
    by_cases (some v) = refl

-- An entry that was set is read back under its key in any case, and reading any other key is as before.
pub value_of-put :
    (j k v : Bytes) (m : Fields)
    → value_of j (put k v m) ≡ (if same_bytes (to_lower k) (to_lower j) then v else value_of j m)
unfolding put
value_of-put j k v m =
    value_of_lem j (assign (to_lower k) v m)
    ∙ ap or_empty (look_up-assign (to_lower j) (to_lower k) v m)
    ∙ ground (arith, value_of_lem j m)
