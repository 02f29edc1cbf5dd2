-- ===== src/HttpRequest/Receive.antt =====
-- src/HttpRequest.cpp with `receive` of src/Http.cpp: a request is received over a socket.
use frnetlib.Base.{ℕ, ◌+◌, ◌≤◌, ◌≡◌, ◌⊎◌, Option, none, some, Bytes, take}
use frnetlib.Base.Text.{find}
use frnetlib.Socket.{Status, Transport}
use frnetlib.Http.Transfer.{Outcome, returned, HttpReceived}
use frnetlib.Http.Transfer
use frnetlib.HttpRequest.{HttpRequest}
use frnetlib.HttpRequest.Parse.{header_end, crlf_crlf, lf_lf, parse}

-- `parse` throws no exception.
abbrev pub as_outcome : Status × HttpRequest → Outcome × HttpRequest
as_outcome (st, q) = (returned st, q)

abbrev pub parse_piece : Bytes → HttpRequest → Outcome × HttpRequest
parse_piece bytes q = as_outcome (parse bytes q)

-- `Http::receive` of a request.
unfoldable pub receive :
    {S : Type 0} → Transport S → ℕ → Outcome → HttpRequest → S → Option (HttpReceived HttpRequest S)
receive t fuel junk q s = Transfer.receive t parse_piece fuel junk q s

-- A stream whose header ends nowhere, or with two pairs of CR and LF, not at once, and with no empty line of another kind
-- in front of them.
abbrev pub OneEnd : Bytes → Type 0
OneEnd s =
    (header_end s ≡ none)
    ⊎ ((i : ℕ) × (find crlf_crlf s ≡ some i) × (find lf_lf (take (i + 4) s) ≡ none) × (2 ≤ i))
