-- ===== src/Socket.antt =====
-- include/frnetlib/Socket.h and src/Socket.cpp: statuses, what a socket type implements, and the loops
-- over it that read or write a given number of bytes.
pub mod Contract
pub mod Rest
pub mod Sending
pub mod Steady
mod Tests
use frnetlib.Base.{
  ℕ, zero, suc, ◌+◌, ◌-◌, ◌^◌, Bool, true, false, List, [], ◌∷◌, ◌++◌, Option, none, some, Bytes,
  ltb, leb, ◌==◌, if◌then◌else◌, length, codes,
}

-- `Socket::Status`.
pub data Status : Type 0 where
  unknown success listen_failed bind_failed disconnected error would_block : Status
  connection_failed handshake_failed verification_failed max_packet_size_exceeded : Status
  not_enough_data parse_error http_header_too_big http_body_too_big : Status
  address_lookup_failure send_error receive_error accept_error ssl_error : Status
  no_route_to_host timeout : Status

abbrev pub is_success : Status → Bool
is_success success = true
is_success _ = false

abbrev pub is_would_block : Status → Bool
is_would_block would_block = true
is_would_block _ = false

abbrev pub is_timeout : Status → Bool
is_timeout timeout = true
is_timeout _ = false

-- What a call of `receive_raw` or `receive_all` leaves behind: its status, the bytes that it wrote to
-- the destination, and the socket.
pub record Received (S : Type 0) : Type 0 where
  pub status : Status
  pub bytes : Bytes
  pub state : S

-- What a call of `send_raw` leaves behind, with its argument `sent`.
pub record Sent (S : Type 0) : Type 0 where
  pub status : Status
  pub sent : ℕ
  pub state : S

-- The operations that a socket type overrides, over its state, and the limit that is set on a message
-- (0 is none).
pub record Transport (S : Type 0) : Type 0 where
  pub receive_raw : ℕ → S → Received S
  pub send_raw : Bytes → ℕ → S → Sent S
  pub max_receive_size : ℕ

module _ {S : Type 0} (t : Transport S) where
  -- The loop of `receive_all`, with `got` received of `n` bytes. `none`: the fuel ran out.
  unfoldable pub receive_loop : ℕ → ℕ → Bytes → S → Option (Received S)
  receive_loop zero n got s = none
  receive_loop (suc fuel) n got s =
      let r = t.receive_raw (n - length got) s in
      let more = receive_loop fuel n (got ++ r.bytes) r.state in
      let stop : Status → Option (Received S) =
        λ st. some (record { status = st; bytes = got ++ r.bytes; state = r.state }) in
      if leb n (length got)
      then some (record { status = success; bytes = got; state = s })
      else if is_success r.status
      then more
      else if length (got ++ r.bytes) == 0
      then stop r.status
      else if is_would_block r.status
      then more
      else stop disconnected

  -- The size is cast to `ssize_t`: where that is negative the loop is not entered.
  unfoldable pub receive_all : ℕ → ℕ → S → Option (Received S)
  unfolding receive_loop
  receive_all fuel n s =
      if leb (2 ^ 63) n
      then some (record { status = success; bytes = []; state = s })
      else receive_loop fuel n [] s

  -- `do status = receive_all(...) while(status == WouldBlock)`, then a timeout becomes `Disconnected`:
  -- how the parts of a message behind its first bytes are read. An attempt that would block has written
  -- nothing.
  unfoldable pub receive_rest : ℕ → ℕ → S → Option (Received S)
  receive_rest zero n s = none
  receive_rest (suc fuel) n s = elim (receive_all fuel n s) [
    | none ↦ none
    | some r ↦
        let more = receive_rest fuel n r.state in
        let st = if is_timeout r.status then disconnected else r.status in
        if is_would_block r.status then more else some (record r { status = st })
  ]

  -- `do state = socket->send_raw(data, size, sent) while(state == WouldBlock)`: how every message is
  -- sent.
  unfoldable pub send_all : ℕ → Bytes → ℕ → S → Option (Sent S)
  send_all zero bs sent s = none
  send_all (suc fuel) bs sent s =
      let r = t.send_raw bs sent s in
      let more = send_all fuel bs r.sent r.state in if is_would_block r.status then more else some r

-- `Socket::send`: a message is sent only through a connected socket.
unfoldable pub send : {S : Type 0} → Bool → (S → Option (Sent S)) → S → Option (Sent S)
send connected message s =
    if connected then message s else some (record { status = disconnected; sent = 0; state = s })
