-- ===== src/HttpResponse/Receive.antt =====
-- src/HttpResponse.cpp with `receive` of src/Http.cpp: a response is received over a socket.
use frnetlib.Base.{
  ℕ, suc, ◌+◌, ◌≡◌, ◌⊎◌, inl, inr, refl, ◌∙◌, arith, Bool, true, false, Option, none, some, Bytes,
  if◌then◌else◌, length, take, Bool-cases,
}
use frnetlib.Base.Text.{find}
use frnetlib.Socket.{Status, Transport}
use frnetlib.Http.Transfer.{Outcome, returned, thrown, HttpReceived}
use frnetlib.Http.Transfer
use frnetlib.HttpRequest.Parse.{header_end, crlf_crlf, lf_lf}
use frnetlib.HttpResponse.{HttpResponse}
use frnetlib.HttpResponse.Parse.{
  Unchunked, with_chunks, returning, parse_plain, parse_body, parse_ended, parse_marked,
  parse_start, parse,
}
use frnetlib.HttpResponse.Headers.{more, parse_behind_header, parse_in_header}
use frnetlib.HttpResponse.Loop.{read_chunks-ends}

-- A call that ends, with a status or an exception.
abbrev pub Ends : Option (Outcome × HttpResponse) → Type 0
Ends x = (r : Outcome × HttpResponse) × (x ≡ some r)

if_Ends :
    (b : Bool) (x y : Option (Outcome × HttpResponse)) → Ends x → Ends y → Ends (if b then x else y)
if_Ends true x y h k = h
if_Ends false x y h k = k

returning-Ends : (r : Status × HttpResponse) → Ends (returning r)
returning-Ends (st, q) = ((returned st, q), refl)

chunks_end :
    (x : Option Unchunked) (q : HttpResponse)
    → (u : Unchunked) × (x ≡ some u)
    → Ends (with_chunks x q)
chunks_end none q (u, e) = cc
chunks_end (some v) q e = (_, refl)

body-Ends : (q : HttpResponse) → Ends (parse_body q)
unfolding parse_body
body-Ends q = if_Ends _ _ _ (returning-Ends (_, q)) (
    if_Ends _ _ _
      (chunks_end _ q
        (read_chunks-ends (suc (length q.http.body)) 1 q.http.body q.chunk_offset (omega arith)))
      (returning-Ends (parse_plain q)))

marked-Ends : (x : Option (ℕ × ℕ)) (q : HttpResponse) → Ends (parse_marked x q)
unfolding parse_ended
marked-Ends none q = if_Ends _ _ _ (returning-Ends (_, q)) (returning-Ends (_, q))
marked-Ends (some (i, n)) q =
    if_Ends _ _ _ (returning-Ends (_, _)) (if_Ends _ _ _ (body-Ends _) (returning-Ends (_, _)))

start-Ends : (q : HttpResponse) → Ends (parse_start q)
unfolding parse_start
start-Ends q = if_Ends _ _ _ (returning-Ends (_, q)) (marked-Ends (header_end q.http.body) q)

-- `parse` ends on every response and all bytes: the loop over the chunks has fuel enough.
pub parse-Ends : (bytes : Bytes) (q : HttpResponse) → Ends (parse bytes q)
parse-Ends bytes q = elim (Bool-cases q.header_ended) [
  | inl h ↦ let (r, e) = body-Ends (more q bytes) in (r, parse_behind_header q bytes h ∙ e)
  | inr h ↦ let (r, e) = start-Ends (more q bytes) in (r, parse_in_header q bytes h ∙ e)
]

-- The first case is that of too little fuel.
abbrev pub ended_with : Option (Outcome × HttpResponse) → HttpResponse → Outcome × HttpResponse
ended_with none q = (thrown, q)
ended_with (some r) q = r

abbrev pub parse_piece : Bytes → HttpResponse → Outcome × HttpResponse
parse_piece bytes q = ended_with (parse bytes q) q

-- `Http::receive` of a response.
unfoldable pub receive :
    {S : Type 0}
    → Transport S
    → ℕ
    → Outcome
    → HttpResponse
    → S
    → Option (HttpReceived HttpResponse S)
receive t fuel junk q s = Transfer.receive t parse_piece fuel junk q s

-- A stream whose header ends nowhere, or with two pairs of CR and LF, with no empty line of another kind in front.
abbrev pub OneEnd : Bytes → Type 0
OneEnd s =
    (header_end s ≡ none)
    ⊎ ((i : ℕ) × (find crlf_crlf s ≡ some i) × (find lf_lf (take (i + 4) s) ≡ none))
