-- ===== src/Http/Mimetypes.antt =====
-- src/Http.cpp: `Http::get_mimetype`.
mod First
mod Second
mod Third
mod Fourth
mod Fifth
use frnetlib.Base.{
  ℕ, ◌≡◌, refl, sym, ap, ◌∙◌, arith, Bool, true, false, ◌&&◌, ◌||◌, List, [], ◌∷◌, ◌++◌, Option,
  none, some, Bytes, All, inl, inr, Bool-cases, ◌==◌, if◌then◌else◌, codes,
}
use frnetlib.Base.Text.{same_bytes}
use frnetlib.Http.Fields.{look_up}
use frnetlib.Http.Mimetypes.First.{first_mimetypes}
use frnetlib.Http.Mimetypes.Second.{second_mimetypes}
use frnetlib.Http.Mimetypes.Third.{third_mimetypes}
use frnetlib.Http.Mimetypes.Fourth.{fourth_mimetypes}
use frnetlib.Http.Mimetypes.Fifth.{fifth_mimetypes}

-- The initialiser of the map. The first of two entries with one key stays.
unfoldable pub known_mimetypes : List (Bytes × Bytes)
known_mimetypes =
    first_mimetypes
    ++ (second_mimetypes ++ (third_mimetypes ++ (fourth_mimetypes ++ fifth_mimetypes)))

-- The string from its last dot on: `find_last_of`, `substr`.
unfoldable pub from_last_dot : Bytes → Option Bytes
from_last_dot [] = none
from_last_dot (c ∷ cs) = elim (from_last_dot cs) [
  | some later ↦ some later
  | none ↦ if c == b'.' then some (c ∷ cs) else none
]

unfoldable pub extension : Bytes → Bytes
extension filename = elim (from_last_dot filename) [ none ↦ b'.' ∷ filename | some ext ↦ ext ]

-- The type that stands in the table for `.bin`.
unfoldable pub default_mimetype : Bytes
default_mimetype = elim (look_up (codes ".bin") known_mimetypes) [ none ↦ [] | some v ↦ v ]

unfoldable pub mimetype_of : Bytes → Bytes
mimetype_of ext = elim (look_up ext known_mimetypes) [ none ↦ default_mimetype | some v ↦ v ]

unfoldable pub get_mimetype : Bytes → Bytes
get_mimetype filename = mimetype_of (extension filename)

no_dot : (cs : Bytes) → All (λ c. (c == b'.') ≡ false) cs → from_last_dot cs ≡ none
unfolding from_last_dot
no_dot [] h = refl
no_dot (c ∷ cs) h = rw (no_dot cs h.1, h.0, from_last_dot)

last_dot :
    (stem ext : Bytes)
    → All (λ c. (c == b'.') ≡ false) ext
    → from_last_dot (stem ++ b'.' ∷ ext) ≡ some (b'.' ∷ ext)
unfolding from_last_dot
last_dot [] ext h = rw (no_dot ext h, from_last_dot)
last_dot (c ∷ stem) ext h = rw (last_dot stem ext h, from_last_dot)

extension_dot :
    (stem ext : Bytes)
    → All (λ c. (c == b'.') ≡ false) ext
    → extension (stem ++ b'.' ∷ ext) ≡ b'.' ∷ ext
unfolding extension
extension_dot stem ext h = rw (last_dot stem ext h, extension)

extension_none : (ext : Bytes) → All (λ c. (c == b'.') ≡ false) ext → extension ext ≡ b'.' ∷ ext
unfolding extension
extension_none ext h = rw (no_dot ext h, extension)

-- The type of a name that ends in a dot and `ext`, which has no dot, is that of the name `ext`: only what stands behind
-- the last dot counts, and a name without a dot is taken for an extension.
pub get_mimetype-extension :
    (stem ext : Bytes)
    → All (λ c. (c == b'.') ≡ false) ext
    → get_mimetype (stem ++ b'.' ∷ ext) ≡ get_mimetype ext
unfolding get_mimetype
get_mimetype-extension stem ext h =
    ap mimetype_of (extension_dot stem ext h ∙ sym (extension_none ext h))

-- A type and a subtype, with a slash between them.
abbrev pub has_slash : Bytes → Bool
has_slash [] = false
has_slash (c ∷ cs) = let later = has_slash cs in c == b'/' || later

abbrev all_slashes : List (Bytes × Bytes) → Bool
all_slashes [] = true
all_slashes ((k, v) ∷ m) = has_slash v && all_slashes m

known_table : all_slashes known_mimetypes ≡ true
unfolding known_mimetypes
known_table = refl

default_table : has_slash default_mimetype ≡ true
unfolding default_mimetype known_mimetypes look_up
default_table = refl

look_up-slash :
    (k : Bytes) (m : List (Bytes × Bytes)) {v : Bytes}
    → all_slashes m ≡ true
    → look_up k m ≡ some v
    → has_slash v ≡ true
unfolding look_up
look_up-slash k [] h e = cc
look_up-slash k ((j, w) ∷ m) {v = v} h e = elim (Bool-cases (same_bytes j k)) [
  | inl same ↦ let first : some w ≡ some v = (rw same at e) in ground arith
  | inr other ↦ look_up-slash k m (ground arith) (rw other at e)
]

found_slash :
    (x : Option Bytes)
    → ((v : Bytes) → x ≡ some v → has_slash v ≡ true)
    → has_slash (elim x [ none ↦ default_mimetype | some v ↦ v ]) ≡ true
found_slash none h = default_table
found_slash (some v) h = h v refl

-- Whatever the file's name is, its type has a slash in it, as the type of a body must.
pub get_mimetype-slash : (filename : Bytes) → has_slash (get_mimetype filename) ≡ true
unfolding get_mimetype mimetype_of
get_mimetype-slash filename =
    found_slash (look_up (extension filename) known_mimetypes)
      λ v e. look_up-slash (extension filename) known_mimetypes known_table e
