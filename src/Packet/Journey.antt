-- ===== src/Packet/Journey.antt =====
-- A packet from one host to another, over TCP.
use frnetlib.Base.{
  ℕ, ◌+◌, ◌*◌, ◌^◌, ◌≤◌, ◌<◌, ◌≡◌, ◌⊎◌, sym, ap, ◌∙◌, some, [], ◌++◌, Bytes, length, drop,
}
use frnetlib.Encoding.{ByteOrder}
use frnetlib.Socket.{success, Sent}
use frnetlib.TcpSocket.{TcpSocket, transport}
use frnetlib.TcpSocket.Stream.{
  pending, wire, read_budget, write_budget, receive_raw-Reads, send_raw-Writes,
}
use frnetlib.TcpSocket.Steady.{Calm, receive_raw-Steady}
use frnetlib.Packet.{Packet}
use frnetlib.Packet.Codec.{IsValid, unread}
use frnetlib.Packet.Cursor.{size}
use frnetlib.Packet.Transfer.{PacketReceived, send, receive}
use frnetlib.Packet.Delivery.{message, send-message}
use frnetlib.Packet.Arrival.{receive-Arrived}

-- What a successful send put on the wire of a socket that had sent nothing.
sent_message :
    (o : ByteOrder) (limit fuel : ℕ) (p : Packet) (a : TcpSocket) (x : Sent TcpSocket)
    → IsValid p
    → size p < 2 ^ 32
    → write_budget a < fuel
    → wire a ≡ []
    → send o (transport limit) fuel p a ≡ some x
    → x.status ≡ success
    → wire x.state ≡ message p
sent_message o limit fuel p a x v small enough fresh e good =
    let (y, f, done) =
      send-message o (transport limit) wire write_budget (send_raw-Writes limit) fuel p a v small
        enough in
    let same : y ≡ x = let both = sym f ∙ e in cc in
    ap (λ z. wire z.state) (sym same)
    ∙ done (ap (λ z. z.status) same ∙ good)
    ∙ ap (λ bs. bs ++ message p) fresh

-- A packet `p` is sent, with success, on a socket that had sent nothing, by a host of either byte order. A socket at the
-- other end, on a host of either byte order, is given the bytes that were handed to the kernel, and `rest` behind them,
-- in pieces of any sizes with interruptions between them. Then, with enough fuel, `receive` into an empty packet succeeds
-- there: the packet holds the contents of `p`, to be read from their beginning, and `rest` is what is left to read. The
-- packet `p` is valid and its size is below 2 ^ 32, and the receiver's limit on messages, if there is one, is not below
-- that size.
pub receive-send :
    (o o' : ByteOrder) (limit limit' fuel fuel' : ℕ) (p q : Packet) (a b : TcpSocket)
    (x : Sent TcpSocket) (rest : Bytes)
    → IsValid p
    → size p < 2 ^ 32
    → write_budget a < fuel
    → wire a ≡ []
    → send o (transport limit) fuel p a ≡ some x
    → x.status ≡ success
    → pending b ≡ wire x.state ++ rest
    → Calm b
    → length q.buffer ≡ 4
    → q.buffer_read_index ≡ 4
    → (limit' ≡ 0) ⊎ (size p ≤ limit')
    → size p + 2 * read_budget b + 5 < fuel'
    → (r : PacketReceived TcpSocket) × (receive o' (transport limit') fuel' q b ≡ some r)
      × (r.status ≡ success)
      × ((unread r.packet ≡ drop 4 p.buffer) × (size r.packet ≡ size p) × (pending r.state ≡ rest))
receive-send o o' limit limit' fuel fuel' p q a b x rest v small enough fresh e good there calm hq
      hi room enough' =
    let on_wire = sent_message o limit fuel p a x v small enough fresh e good in
    receive-Arrived o' (transport limit') pending read_budget (receive_raw-Reads limit') Calm
      (receive_raw-Steady limit') fuel' p q b rest calm v small hq hi room
      (there ∙ ap (λ bs. bs ++ rest) on_wire) enough'
