-- ===== src/Packet/Arrival.antt =====
-- `receive` succeeds where the bytes of a message keep coming.
use frnetlib.Base.{
  ℕ, ◌+◌, ◌*◌, ◌^◌, ◌≤◌, ◌<◌, ◌≡◌, ◌⊎◌, sym, ap, ◌∙◌, arith, some, ◌++◌, Bytes, length,
  length-append, drop,
}
use frnetlib.Encoding.{ByteOrder}
use frnetlib.Socket.{success, Transport}
use frnetlib.Socket.Contract.{Reads}
use frnetlib.Socket.Steady.{Steady, success→is_success, receive_all-Succeeds, receive_rest-Succeeds}
use frnetlib.Packet.{Packet}
use frnetlib.Packet.Codec.{IsValid}
use frnetlib.Packet.Cursor.{size}
use frnetlib.Packet.Transfer.{PacketReceived, receive, receive_body}
use frnetlib.Packet.Delivery.{
  message, Arrived, receive-message, receive_accepted, body_read, header_read, length-message,
  length-contents,
}

module _ {S : Type 0} (o : ByteOrder) (t : Transport S) (pending : S → Bytes) (budget : S → ℕ)
    (c : Reads t pending budget) (Calm : S → Type 0) (steady : Steady t pending Calm) where
  -- On a socket whose reads go well as long as bytes are pending, whose stream begins with the message of a packet `p`,
  -- and with enough fuel, `receive` into an empty packet succeeds: the packet holds the contents of `p`, to be read
  -- from their beginning, and the stream goes on behind the message. The limit on messages, if there is one, is not
  -- below the size of `p`.
  pub receive-Arrived :
      (fuel : ℕ) (p q : Packet) (s : S) (rest : Bytes)
      → Calm s
      → IsValid p
      → size p < 2 ^ 32
      → length q.buffer ≡ 4
      → q.buffer_read_index ≡ 4
      → (t.max_receive_size ≡ 0) ⊎ (size p ≤ t.max_receive_size)
      → pending s ≡ message p ++ rest
      → size p + 2 * budget s + 5 < fuel
      → (r : PacketReceived S) × (receive o t fuel q s ≡ some r)
        × (r.status ≡ success)
        × Arrived o t pending budget c p rest r
  receive-Arrived fuel p q s rest calm v small hq hi limit e f =
      let long : length (pending s) ≡ length p.buffer + length rest =
        ap (length {A = ℕ}) e ∙ omega (arith, length-append (message p) rest, length-message p v) in
      let (h, he, (hg, hc, hd)) =
        receive_all-Succeeds t pending budget c Calm steady fuel 4 s calm
          (omega (arith, long, v.behind_header, v.in_buffer)) (omega arith) (omega arith) in
      let (n, behind) = header_read o t pending budget c p s rest h small e hd hg in
      let more : length (pending h.state) ≡ size p + length rest =
        ap (length {A = ℕ}) behind
        ∙ omega (arith, length-append (drop 4 p.buffer) rest, length-contents p v) in
      let (b, be, (bg, bc, bd)) =
        receive_rest-Succeeds t pending budget c Calm steady fuel (size p) h.state hc
          (omega (arith, more)) (omega arith) (omega (arith, hd.within)) in
      let (r, re, good) =
        receive-message o t pending budget c fuel p q s rest v small hq hi limit e f in
      let reached =
        receive_accepted o t pending budget c fuel q s he (success→is_success hg)
        ∙ ap (λ k. receive_body o t fuel k q h.state) n
        ∙ body_read o t pending budget c fuel (size p) q h.state (ground arith) be in
      let done : r.status ≡ success = let both = sym reached ∙ re in cc in (r, re, done, good done)
