-- ===== src/Url.antt =====
-- src/URL.cpp, include/frnetlib/URL.h: URLs, taken apart and put together.
pub mod Places
pub mod Tail
pub mod RoundTrip
mod Tests
use frnetlib.Base.{
  ℕ, ◌+◌, ◌-◌, Bool, true, false, not, List, [], ◌∷◌, ◌++◌, Option, none, some, Bytes, codes, leb,
  ◌==◌, if◌then◌else◌, length, take,
}
use frnetlib.Base.Text.{find, find_from, substr, same_bytes, to_lower}

pub data Scheme : Type 0 where
  http https ftp mailto irc sftp unknown : Scheme

abbrev pub same_scheme : Scheme → Scheme → Bool
same_scheme http http = true
same_scheme https https = true
same_scheme ftp ftp = true
same_scheme mailto mailto = true
same_scheme irc irc = true
same_scheme sftp sftp = true
same_scheme unknown unknown = true
same_scheme _ _ = false

abbrev pub Schemes : Type 0
Schemes = List (Bytes × Scheme)

-- An entry is added where there is none of its key.
unfoldable pub insert : Bytes → Scheme → Schemes → Schemes
insert key s [] = (key, s) ∷ []
insert key s ((k, v) ∷ m) =
    let rest = insert key s m in if same_bytes k key then (k, v) ∷ m else (k, v) ∷ rest

-- `scheme_string_map`, from the entries that it is initialised with, of which the sixth repeats the key of the third.
unfoldable pub scheme_string_map : Schemes
unfolding insert
scheme_string_map = insert (codes "unknown") unknown (
    insert (codes "sftp") sftp (
      insert (codes "irc") irc (
        insert (codes "mailto") mailto (
          insert (codes "sftp") ftp
            (insert (codes "https") https (insert (codes "http") http []))))))

unfoldable pub look_up : Bytes → Schemes → Scheme
look_up key [] = unknown
look_up key ((k, v) ∷ m) = let rest = look_up key m in if same_bytes k key then v else rest

-- None is the exception.
unfoldable pub name_of : Scheme → Schemes → Option Bytes
name_of s [] = none
name_of s ((k, v) ∷ m) = let rest = name_of s m in if same_scheme v s then some k else rest

unfoldable pub string_to_scheme : Bytes → Scheme
unfolding scheme_string_map
string_to_scheme scheme = look_up (to_lower scheme) scheme_string_map

unfoldable pub scheme_to_string : Scheme → Option Bytes
unfolding scheme_string_map
scheme_to_string scheme = name_of scheme scheme_string_map

pub record Url : Type 0 where
  pub scheme : Scheme
  pub host : Bytes
  pub port : Bytes
  pub path : Bytes
  pub query : Bytes
  pub fragment : Bytes

-- The default constructor leaves the scheme to chance.
unfoldable pub new_url : Scheme → Url
new_url junk = record { scheme = junk; host = []; port = []; path = []; query = []; fragment = [] }

-- The places in the text: `npos` is none.
abbrev pub or_else : Option ℕ → Option ℕ → Option ℕ
or_else (some i) y = some i
or_else none y = y

abbrev pub or_size : Option ℕ → Bytes → ℕ
or_size none url = length url
or_size (some i) url = i

-- The scheme, and the place behind it.
abbrev pub parse_scheme : Option ℕ → Bytes → Scheme × ℕ
parse_scheme none url = (unknown, 0)
parse_scheme (some pos) url = (string_to_scheme (take pos url), pos + 3)

-- A host with a port behind the colon at `pos`.
abbrev pub with_port : ℕ → ℕ → Bytes → Url → Url × ℕ
with_port pos parse_offset url u =
    let host = substr parse_offset (pos - parse_offset) url in
    let port_end = or_size (find_from (b'/' ∷ []) (parse_offset + length host) url) url in
    (record u { host = host; port = substr (pos + 1) (port_end - pos - 1) url }, port_end + 1)

abbrev pub default_port : Scheme → Bytes → Bytes
default_port http port = codes "80"
default_port https port = codes "443"
default_port irc port = codes "6697"
default_port ftp port = codes "21"
default_port sftp port = codes "25"
default_port _ port = port

-- A host up to a place; nothing is stored where no place was found in a text without a scheme.
abbrev pub host_until : Option ℕ → ℕ → Bytes → Url → Url × ℕ
host_until (some pos) parse_offset url u =
    (record u { host = substr parse_offset (pos - parse_offset) url }, pos + 1)
host_until none parse_offset url u =
    if parse_offset == 0
    then (u, parse_offset)
    else (record u { host = substr parse_offset (length url - parse_offset) url }, length url + 1)

abbrev pub without_port : ℕ → Bytes → Url → Url × ℕ
without_port parse_offset url u =
    let pos =
      or_else (find_from (b'/' ∷ []) parse_offset url) (
        or_else (find_from (b'?' ∷ []) parse_offset url)
          (find_from (b'#' ∷ []) parse_offset url)) in
    let (v, offset) = host_until pos parse_offset url u in
    (record v { port = default_port v.scheme v.port }, offset)

abbrev pub parse_host : Option ℕ → ℕ → Bytes → Url → Url × ℕ
parse_host none parse_offset url u = without_port parse_offset url u
parse_host (some pos) parse_offset url u = with_port pos parse_offset url u

-- The path, which is appended to the one that there is.
abbrev pub path_until : ℕ → ℕ → Bytes → Url → Url × ℕ
path_until pos parse_offset url u = (
  record u { path = u.path ++ codes "/" ++ substr parse_offset (pos - parse_offset) url },
  pos + 1,
)

abbrev pub parse_path : ℕ → Bytes → Url → Url × ℕ
parse_path parse_offset url u =
    let pos =
      or_size
        (or_else (find_from (b'?' ∷ []) parse_offset url) (
          or_else (find_from (b'#' ∷ []) parse_offset url)
            (find_from (b'?' ∷ []) parse_offset url)))
        url in
    path_until pos parse_offset url u

-- The query and the fragment.
abbrev pub parse_query : Option ℕ → ℕ → Bytes → Url → Url
parse_query (some pos) parse_offset url u = record u {
  query = if pos + 1 == parse_offset then u.query else substr parse_offset (pos - parse_offset) url;
  fragment = substr (pos + 1) (length url - pos - 1) url;
}
parse_query none parse_offset url u =
    if leb (length url) parse_offset
    then u
    else record u { query = substr parse_offset (length url - parse_offset) url }

abbrev pub parse_behind_path : ℕ → Bytes → Url → Url
parse_behind_path parse_offset url u =
    parse_query (find_from (b'#' ∷ []) (parse_offset - 1) url) parse_offset url u

abbrev pub parse_uri : ℕ → Bytes → Url → Url
parse_uri parse_offset url u =
    let (v, offset) = parse_path parse_offset url u in
    if leb (length url) parse_offset then u else parse_behind_path offset url v

abbrev pub parse_from : Scheme → ℕ → Bytes → Url → Url
parse_from s parse_offset url u =
    let (v, offset) =
      parse_host (find_from (b':' ∷ []) parse_offset url) parse_offset url
        (record u { scheme = s }) in
    parse_uri offset url v

unfoldable pub parse : Bytes → Url → Url
parse url u =
    let (s, offset) = parse_scheme (find (codes "://") url) url in parse_from s offset url u

abbrev pub marked : Bytes → Bytes → Bytes
marked mark [] = []
marked mark (c ∷ cs) = mark ++ c ∷ cs

unfoldable pub get_uri : Url → Bytes
get_uri u = u.path ++ marked (codes "?") u.query ++ marked (codes "#") u.fragment

-- The scheme in front of the host; the exception for a scheme without a name leaves the function.
abbrev pub scheme_text : Scheme → Option Bytes
scheme_text unknown = some []
scheme_text s = elim (scheme_to_string s) [ none ↦ none | some name ↦ some (name ++ codes "://") ]

abbrev pub host_text : Bytes → Option Bytes → Bytes → Option Bytes
host_text [] name port = some []
host_text (c ∷ cs) none port = none
host_text (c ∷ cs) (some name) port = some (name ++ (c ∷ cs) ++ marked (codes ":") port)

abbrev pub with_uri : Option Bytes → Bytes → Option Bytes
with_uri none uri = none
with_uri (some front) uri = some (front ++ uri)

unfoldable pub get_url : Url → Option Bytes
unfolding get_uri
get_url u = with_uri (host_text u.host (scheme_text u.scheme) u.port) (get_uri u)
