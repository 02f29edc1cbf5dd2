-- ===== src/Url/RoundTrip.antt =====
-- src/URL.cpp: putting a URL together, and taking it apart.
use frnetlib.Base.{
  suc, ◌+◌, ◌-◌, ◌≤◌, ◌≡◌, refl, sym, ap, ◌∙◌, arith, false, [], ◌∷◌, ◌++◌, append_assoc, Option,
  none, some, Bytes, codes, length, length-append, take, take-append,
}
use mathlib.Core.Path.{ap₂, subst}
use mathlib.Core.Option.{some-injective}
use frnetlib.Base.Text.{find, find_here, shifted, substr, to_lower}
use frnetlib.Http.Lines.{Without, find-behind}
use frnetlib.Url.{
  Scheme, http, https, ftp, mailto, irc, sftp, unknown, same_scheme, string_to_scheme,
  scheme_to_string, scheme_string_map, name_of, look_up, Url, new_url, parse_scheme, parse_uri,
  parse_from, parse, marked, get_uri, scheme_text, host_text, with_uri, get_url,
}
use frnetlib.Url.Places.{place, slice}
use frnetlib.Url.Tail.{IsUri, tail_of, uri_read}

-- A URL whose parts its text tells apart: a scheme with a name of its own, a host without a colon, a port without a slash, and
-- a path that begins with one.
pub record IsApart (u : Url) (name p : Bytes) : Type 0 where
  pub known : same_scheme u.scheme unknown ≡ false
  pub named : scheme_to_string u.scheme ≡ some name
  pub host_there : 1 ≤ length u.host
  pub host_plain : Without 58 u.host
  pub port_there : 1 ≤ length u.port
  pub port_plain : Without 47 u.port
  pub slash : u.path ≡ 47 ∷ p
  pub uri : IsUri p u.query u.fragment

-- The text of such a URL.
abbrev pub text_of : Url → Bytes → Bytes → Bytes
text_of u name p =
    name ++ (codes "://" ++ (u.host ++ 58 ∷ (u.port ++ 47 ∷ tail_of p u.query u.fragment)))

abbrev with_mark : Option Bytes → Option Bytes
with_mark x = elim x [ none ↦ none | some name ↦ some (name ++ codes "://") ]

scheme_written :
    (s : Scheme) (name : Bytes)
    → same_scheme s unknown ≡ false
    → scheme_to_string s ≡ some name
    → scheme_text s ≡ some (name ++ codes "://")
scheme_written unknown name k e = cc
scheme_written http name k e = ap with_mark e
scheme_written https name k e = ap with_mark e
scheme_written ftp name k e = ap with_mark e
scheme_written mailto name k e = ap with_mark e
scheme_written irc name k e = ap with_mark e
scheme_written sftp name k e = ap with_mark e

host_written :
    (host name port : Bytes)
    → 1 ≤ length host
    → 1 ≤ length port
    → host_text host (some name) port ≡ some ((name ++ host) ++ 58 ∷ port)
host_written [] name port h k = absurd (omega arith)
host_written (c ∷ cs) name [] h k = absurd (omega arith)
host_written (c ∷ cs) name (d ∷ ds) h k = refl

url_written : (u : Url) (name p : Bytes) → IsApart u name p → get_url u ≡ some (text_of u name p)
unfolding get_url get_uri
url_written u name p a =
    let tail : with_uri (some (((name ++ codes "://") ++ u.host) ++ 58 ∷ u.port))
          ((47 ∷ p) ++ marked (codes "?") u.query ++ marked (codes "#") u.fragment)
        ≡ some (text_of u name p) =
      ap some (simp append_assoc) in
    ap (λ x. with_uri (host_text u.host x u.port) (get_uri u))
      (scheme_written u.scheme name a.known a.named)
    ∙ ap (λ x. with_uri x (get_uri u))
        (host_written u.host (name ++ codes "://") u.port a.host_there a.port_there)
    ∙ ap
        (λ x.
          with_uri (some (((name ++ codes "://") ++ u.host) ++ 58 ∷ u.port))
            (x ++ marked (codes "?") u.query ++ marked (codes "#") u.fragment))
        a.slash
    ∙ tail

-- A name is read as its scheme, and has no colon.
name_read :
    (s : Scheme) (name : Bytes)
    → same_scheme s unknown ≡ false
    → scheme_to_string s ≡ some name
    → (string_to_scheme name ≡ s) × Without 58 name
unfolding string_to_scheme scheme_to_string scheme_string_map to_lower name_of look_up
name_read http name k e =
    subst (λ x. (string_to_scheme x ≡ http) × Without 58 x) (some-injective (codes "http") name e)
      (refl, (refl, (refl, (refl, (refl, tt)))))
name_read https name k e =
    subst (λ x. (string_to_scheme x ≡ https) × Without 58 x) (some-injective (codes "https") name e)
      (refl, (refl, (refl, (refl, (refl, (refl, tt))))))
name_read ftp name k e =
    subst (λ x. (string_to_scheme x ≡ ftp) × Without 58 x) (some-injective (codes "sftp") name e)
      (refl, (refl, (refl, (refl, (refl, tt)))))
name_read mailto name k e =
    subst (λ x. (string_to_scheme x ≡ mailto) × Without 58 x)
      (some-injective (codes "mailto") name e)
      (refl, (refl, (refl, (refl, (refl, (refl, (refl, tt)))))))
name_read irc name k e =
    subst (λ x. (string_to_scheme x ≡ irc) × Without 58 x) (some-injective (codes "irc") name e)
      (refl, (refl, (refl, (refl, tt))))
name_read sftp name k e = let no : ◌≡◌ {A = Option Bytes} none (some name) = e in cc
name_read unknown name k e = cc

-- Behind the scheme.
host_read :
    (front : Bytes) (u v : Url) (name p : Bytes)
    → IsApart u name p
    → v.path ≡ []
    → v.query ≡ []
    → v.fragment ≡ []
    → parse_from u.scheme
        (length front)
        (front ++ (u.host ++ 58 ∷ (u.port ++ 47 ∷ tail_of p u.query u.fragment)))
        v
      ≡ u
host_read front u v name p a no_path no_query no_fragment =
    let tail = tail_of p u.query u.fragment in
    let t = front ++ (u.host ++ 58 ∷ (u.port ++ 47 ∷ tail)) in
    let o = length front in
    let pos = o + length u.host in
    let stop = pos + suc (length u.port) in
    let upper = front ++ (u.host ++ 58 ∷ (u.port ++ 47 ∷ [])) in
    let colon = place 58 o t front u.host (u.port ++ 47 ∷ tail) refl refl a.host_plain in
    let host : substr o (pos - o) t ≡ u.host =
      slice o (pos - o) t front u.host (58 ∷ (u.port ++ 47 ∷ tail)) refl refl (omega arith) in
    let behind : t ≡ (front ++ u.host) ++ ((58 ∷ u.port) ++ 47 ∷ tail) =
      sym (append_assoc front u.host _) in
    let slash =
      place 47 pos t (front ++ u.host) (58 ∷ u.port) tail behind (length-append front u.host)
        (refl, a.port_plain) in
    let third : t ≡ (front ++ (u.host ++ 58 ∷ [])) ++ (u.port ++ 47 ∷ tail) = simp append_assoc in
    let port : substr (pos + 1) (stop - pos - 1) t ≡ u.port =
      slice (pos + 1) (stop - pos - 1) t (front ++ (u.host ++ 58 ∷ [])) u.port (47 ∷ tail) third
        (omega (arith, length-append front (u.host ++ 58 ∷ []), length-append u.host (58 ∷ [])))
        (omega arith) in
    let last : t ≡ upper ++ tail = simp append_assoc in
    let size : stop + 1 ≡ length upper = omega (
      arith,
      length-append front (u.host ++ 58 ∷ (u.port ++ 47 ∷ [])),
      length-append u.host (58 ∷ (u.port ++ 47 ∷ [])),
      length-append u.port (47 ∷ []),
    ) in
    let w : Url = record v { scheme = u.scheme; host = u.host; port = u.port } in
    let step : parse_from u.scheme o t v ≡ parse_uri (stop + 1) t w =
      rw (colon, host, slash, port) refl in
    step
    ∙ ap₂ (λ k x. parse_uri k x w) size last
    ∙ uri_read upper w no_query no_fragment p u.query u.fragment a.uri
    ∙ ap (λ x. record u { path = x }) (ap (λ x. x ++ codes "/" ++ p) no_path ∙ sym a.slash)

-- The text that `get_url` writes for a URL of the named schemes is parsed as that URL, whatever the scheme of the object
-- was before: if its host has no colon, its port no slash, neither is empty, its path begins with a slash, its query has no
-- `#`, its path neither `#` nor `?`, its fragment no `?` where there is no query, and something follows the first slash.
pub parse-get_url :
    (u : Url) (name p : Bytes) (junk : Scheme)
    → IsApart u name p
    → (text : Bytes) × (get_url u ≡ some text) × (parse text (new_url junk) ≡ u)
unfolding parse new_url
parse-get_url u name p junk a =
    let rest = u.host ++ 58 ∷ (u.port ++ 47 ∷ tail_of p u.query u.fragment) in
    let t = text_of u name p in
    let (is_scheme, no_colon) = name_read u.scheme name a.known a.named in
    let colon : find (codes "://") t ≡ some (length name) =
      find-behind 58 (47 ∷ 47 ∷ []) name (codes "://" ++ rest) no_colon
      ∙ ap (shifted (length name)) (find_here (codes "://") (codes "://" ++ rest) refl)
      ∙ ap some (omega arith) in
    let front : take (length name) t ≡ name =
      take-append name (codes "://" ++ rest) (length name) refl in
    let size : length name + 3 ≡ length (name ++ codes "://") =
      sym (length-append name (codes "://")) in
    let whole : t ≡ (name ++ codes "://") ++ rest = sym (append_assoc name (codes "://") rest) in
    (
      t,
      url_written u name p a,
      ap (λ x. parse_from (parse_scheme x t).0 (parse_scheme x t).1 t (new_url junk)) colon
          ∙ ap (λ x. parse_from x (length name + 3) t (new_url junk))
              (ap string_to_scheme front ∙ is_scheme)
          ∙ ap₂ (λ k x. parse_from u.scheme k x (new_url junk)) size whole
          ∙ host_read (name ++ codes "://") u (new_url junk) name p a refl refl refl,
    )
