-- ===== src/Packet/Transfer.antt =====
-- include/frnetlib/Packet.h: `send` and `receive`, over any socket type.
use frnetlib.Base.{
  ℕ, ◌+◌, ◌-◌, ◌%◌, ◌^◌, not, ◌&&◌, ◌++◌, Option, none, some, Bytes, ltb, ◌==◌, if◌then◌else◌,
  length, drop, take, replicate,
}
use frnetlib.Encoding.{ByteOrder, store, load, hton}
use frnetlib.Socket.{
  Status, max_packet_size_exceeded, is_success, Sent, Transport, receive_all, receive_rest,
  send_all,
}
use frnetlib.Packet.{Packet, header_length, size_mod}

-- `memcpy` into the buffer at an offset.
unfoldable pub overwrite : ℕ → Bytes → Bytes → Bytes
overwrite i new bs = take i bs ++ (new ++ drop (i + length new) bs)

-- `buffer.resize`, which fills with zero bytes, only where the buffer is shorter.
unfoldable pub grow : ℕ → Bytes → Bytes
grow n bs = if ltb (length bs) n then bs ++ replicate (n - length bs) 0 else bs

-- The result of `receive`, with the packet and the socket.
pub record PacketReceived (S : Type 0) : Type 0 where
  pub status : Status
  pub packet : Packet
  pub state : S

-- The word that is put in front: the subtraction is in `size_t`, and htonl takes a `uint32_t`.
unfoldable pub length_word : Packet → ℕ
length_word p = (length p.buffer % 2 ^ 32 + size_mod - header_length) % size_mod % 2 ^ 32

-- `send` writes the length into the header, which a buffer of four bytes or more has, and sends the whole buffer.
unfoldable pub with_header : ByteOrder → Packet → Packet
with_header o p = record p { buffer = overwrite 0 (store o 4 (hton o 4 (length_word p))) p.buffer }

module _ {S : Type 0} (o : ByteOrder) (t : Transport S) where
  -- The buffer is `mutable`: the packet that was sent is left as `with_header o p`.
  unfoldable pub send : ℕ → Packet → S → Option (Sent S)
  send fuel p s = send_all t fuel (with_header o p).buffer 0 s

  -- What follows the header, for a length of `n` bytes.
  unfoldable pub receive_body : ℕ → ℕ → Packet → S → Option (PacketReceived S)
  receive_body fuel n p s =
      let limit = t.max_receive_size in
      let room = grow (n + header_length) p.buffer in
      let body : Option (PacketReceived S) = elim (receive_rest t fuel n s) [
        | none ↦ none
        | some r ↦ some (record {
          status = r.status;
          packet = record p { buffer = overwrite header_length r.bytes room };
          state = r.state;
        })
      ] in
      if not (limit == 0) && ltb limit n
      then some (record { status = max_packet_size_exceeded; packet = p; state = s })
      else body

  unfoldable pub receive : ℕ → Packet → S → Option (PacketReceived S)
  receive fuel p s = elim (receive_all t fuel header_length s) [
    | none ↦ none
    | some h ↦
        if is_success h.status
        then receive_body fuel (hton o 4 (load o h.bytes)) p h.state
        else some (record { status = h.status; packet = p; state = h.state })
  ]
