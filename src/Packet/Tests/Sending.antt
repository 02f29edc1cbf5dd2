-- ===== src/Packet/Tests/Sending.antt =====
-- Runs of the theorems on sending and receiving, over a TCP socket.
use mathlib.Core.Path.{refl}
use frnetlib.Base.{◌≡◌, inr, ◌∷◌, ◌++◌, [], arith, false, some, drop}
use frnetlib.Encoding.{big_endian, little, big, store, hton}
use frnetlib.Socket.{success, Sent, send_all}
use frnetlib.TcpSocket.{interrupted}
use frnetlib.Packet.Journey.{receive-send}
use frnetlib.TcpSocket.{TcpSocket, Arrival, chunk, Answer, takes, transport, send_raw}
use frnetlib.TcpSocket.Stream.{
  pending, wire, read_budget, write_budget, receive_raw-Reads, send_raw-Writes,
}
use frnetlib.Packet.Codec.{unread}
use frnetlib.Packet.Cursor.{size}
use frnetlib.Packet.Transfer.{PacketReceived, send, receive, with_header, overwrite, length_word}
use frnetlib.Packet.Delivery.{message, send-message, receive-message}
use frnetlib.Packet.Tests.{empty, three, three-IsValid}

-- The message of the packet with three bytes arrives in two chunks, with a byte behind it.
abbrev line : TcpSocket
line = record {
  is_blocking = false;
  arrivals =
      Arrival.blocks
      ∷ chunk 0 (0 ∷ [])
      ∷ Arrival.blocks
      ∷ chunk 0 (3 ∷ 7 ∷ 8 ∷ [])
      ∷ chunk 9 (55 ∷ [])
      ∷ [];
  answers = takes 2 ∷ Answer.blocks ∷ [];
  outgoing = 77 ∷ [];
}

size-three : size three ≡ 3
unfolding size
size-three = refl

line-message : pending line ≡ message three ++ 55 ∷ []
unfolding big_endian size
line-message = refl

receive-message_example :
    (r : PacketReceived TcpSocket) × (receive little (transport 1000) 30 empty line ≡ some r)
    × (r.status ≡ success
        → (unread r.packet ≡ drop 4 three.buffer)
          × (size r.packet ≡ size three)
          × (pending r.state ≡ 55 ∷ []))
receive-message_example =
    receive-message little (transport 1000) pending read_budget (receive_raw-Reads 1000) 30 three
      empty line (55 ∷ []) three-IsValid (omega (arith, size-three)) refl refl
      (inr (omega (arith, size-three))) line-message (omega (arith, size-three))

send-message_example :
    (r : Sent TcpSocket) × (send little (transport 0) 9 three line ≡ some r)
    × (r.status ≡ success → wire r.state ≡ wire line ++ message three)
send-message_example =
    send-message little (transport 0) wire write_budget (send_raw-Writes 0) 9 three line
      three-IsValid (omega (arith, size-three)) (omega arith)

-- A line of bytes without waits, and the two ends of a connection.
abbrev steady_line : TcpSocket
steady_line = record line {
  arrivals = chunk 0 (0 ∷ []) ∷ interrupted ∷ chunk 0 (3 ∷ 7 ∷ 8 ∷ []) ∷ chunk 9 (55 ∷ []) ∷ [];
}

steady_line-message : pending steady_line ≡ message three ++ 55 ∷ []
unfolding big_endian size
steady_line-message = refl

abbrev sender : TcpSocket
sender = record line { outgoing = [] }

abbrev sender_after : Sent TcpSocket
sender_after = record {
  status = success;
  sent = 7;
  state = record line { answers = []; outgoing = 0 ∷ 0 ∷ 0 ∷ 3 ∷ 7 ∷ 8 ∷ 9 ∷ [] };
}

sender_sends : send big (transport 0) 9 three sender ≡ some sender_after
unfolding send send_all send_raw with_header overwrite store hton length_word
sender_sends = refl

receive-send_example :
    (r : PacketReceived TcpSocket) × (receive little (transport 3) 30 empty steady_line ≡ some r)
    × (r.status ≡ success)
    × ((unread r.packet ≡ drop 4 three.buffer)
        × (size r.packet ≡ size three)
        × (pending r.state ≡ 55 ∷ []))
receive-send_example =
    receive-send big little 0 3 9 30 three empty sender steady_line sender_after (55 ∷ [])
      three-IsValid (omega (arith, size-three)) (omega arith) refl sender_sends refl refl
      (tt, (tt, (tt, (tt, tt)))) refl refl (inr (omega (arith, size-three)))
      (omega (arith, size-three))
