-- ===== src/Socket/Tests.antt =====
-- Runs of the theorems on the loops over sockets, on TCP sockets whose kernel answers are given.
use frnetlib.Base.{◌≡◌, ◌∷◌, [], arith, false, some, Bytes}
use frnetlib.Socket.{Received, Sent, receive_all, receive_rest, send_all}
use frnetlib.Socket.Contract.{Delivers, receive_all-Delivers}
use frnetlib.Socket.Rest.{Finishes, receive_rest-Finishes}
use frnetlib.Socket.Sending.{Delivered, send_all-Delivered}
use frnetlib.TcpSocket.{TcpSocket, Arrival, chunk, interrupted, Answer, takes, transport}
use frnetlib.TcpSocket.Stream.{
  pending, wire, read_budget, write_budget, receive_raw-Reads, send_raw-Writes,
}

-- Six bytes arrive in three chunks, with a wait and an interruption between them.
abbrev in_parts : TcpSocket
in_parts = record {
  is_blocking = false;
  arrivals =
      Arrival.blocks
      ∷ chunk 1 (2 ∷ [])
      ∷ Arrival.blocks
      ∷ interrupted
      ∷ chunk 3 (4 ∷ [])
      ∷ chunk 5 (6 ∷ [])
      ∷ [];
  answers = takes 2 ∷ Answer.blocks ∷ Answer.interrupted ∷ takes 1 ∷ [];
  outgoing = 7 ∷ [];
}

receive_all-Delivers_example :
    (r : Received TcpSocket) × (receive_all (transport 0) 20 5 in_parts ≡ some r)
    × Delivers pending read_budget 5 in_parts r
receive_all-Delivers_example =
    receive_all-Delivers (transport 0) pending read_budget (receive_raw-Reads 0) 20 5 in_parts
      (omega arith) (omega arith)

receive_rest-Finishes_example :
    (r : Received TcpSocket) × (receive_rest (transport 0) 30 5 in_parts ≡ some r)
    × Finishes pending read_budget 5 in_parts r
receive_rest-Finishes_example =
    receive_rest-Finishes (transport 0) pending read_budget (receive_raw-Reads 0) 30 5 in_parts
      (omega arith) (omega arith)

abbrev outgoing_message : Bytes
outgoing_message = 1 ∷ 2 ∷ 3 ∷ 4 ∷ 5 ∷ []

send_all-Delivered_example :
    (r : Sent TcpSocket) × (send_all (transport 0) 9 outgoing_message 1 in_parts ≡ some r)
    × Delivered wire outgoing_message 1 in_parts r
send_all-Delivered_example =
    send_all-Delivered (transport 0) wire write_budget (send_raw-Writes 0) 9 outgoing_message 1
      in_parts (omega arith) (omega arith)
