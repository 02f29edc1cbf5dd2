-- ===== src/Http/Transfer.antt =====
-- src/Http.cpp: `Http::send` and `Http::receive`, over any socket type, and over any `parse` and `construct` that a
-- request or a response overrides them with.
use frnetlib.Base.{
  ℕ, zero, suc, ◌+◌, Bool, true, false, Option, none, some, Bytes, ◌==◌, if◌then◌else◌, length,
}
use frnetlib.Socket.{
  Status, disconnected, not_enough_data, is_success, is_would_block, Sent, Transport, send_all,
}

-- How a call of `parse` ends: with a status, or with an exception that it does not catch.
pub data Outcome : Type 0 where
  returned : Status → Outcome
  thrown : Outcome

pub record HttpReceived (H S : Type 0) : Type 0 where
  pub outcome : Outcome
  pub http : H
  pub state : S

-- RECV_CHUNK_SIZE.
abbrev pub chunk_size : ℕ
chunk_size = 4096

abbrev pub is_more : Outcome → Bool
is_more (returned not_enough_data) = true
is_more _ = false

module _ {H S : Type 0} (t : Transport S) (parse : Bytes → H → Outcome × H) where
  -- The loop, with the number of bytes so far and what the last call of `parse` returned.
  unfoldable pub receive_from : ℕ → ℕ → Outcome → H → S → Option (HttpReceived H S)
  receive_from zero total last h s = none
  receive_from (suc fuel) total last h s =
      let r = t.receive_raw chunk_size s in
      let got = total + length r.bytes in
      let stop : Outcome → H → Option (HttpReceived H S) =
        λ o k. some (record { outcome = o; http = k; state = r.state }) in
      let parsed = parse r.bytes h in
      let again = receive_from fuel got last h r.state in
      let on = receive_from fuel got parsed.0 parsed.1 r.state in
      if is_success r.status
      then if is_more parsed.0 then on else stop parsed.0 parsed.1
      else if got == 0
      then stop (returned r.status) h
      else if is_would_block r.status
      then if is_more last then again else stop last h
      else stop (returned disconnected) h

  -- The status before the first call of `parse` is what the memory holds.
  unfoldable pub receive : ℕ → Outcome → H → S → Option (HttpReceived H S)
  unfolding receive_from
  receive fuel junk h s = receive_from fuel 0 junk h s

unfoldable pub send : {S : Type 0} (t : Transport S) → ℕ → Bytes → S → Option (Sent S)
send t fuel constructed s = send_all t fuel constructed 0 s
