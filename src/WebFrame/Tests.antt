-- ===== src/WebFrame/Tests.antt =====
-- Runs of the theorems on WebSocket frames, over a TCP socket.
use mathlib.Core.Path.{refl}
use Prim.Native.Nat.{bit_xor}
use frnetlib.Base.{length, get_or, ◌≡◌, ◌++◌, inr, ◌∷◌, [], arith, false, true, some}
use frnetlib.Encoding.{little, big, store, hton}
use frnetlib.Socket.{success}
use frnetlib.TcpSocket.{TcpSocket, Arrival, chunk, Answer, takes, transport}
use frnetlib.TcpSocket.Stream.{pending, read_budget, receive_raw-Reads}
use frnetlib.WebFrame.{
  WebFrame, FrameReceived, returned, first_bytes, mask_from, masked, frame_bytes, extended_length,
  receive,
}
use frnetlib.WebFrame.Header.{FieldsOf, first_bytes-FieldsOf}
use frnetlib.WebFrame.Mask.{mask_from-at}
use frnetlib.WebFrame.Delivery.{receive-frame_bytes, receive-Intact}
use frnetlib.TcpSocket.Steady.{Calm, receive_raw-Steady}

first_bytes-FieldsOf_example : FieldsOf (first_bytes true 2 true 126) true 2 true 126
first_bytes-FieldsOf_example = first_bytes-FieldsOf true 2 true 126 (omega arith) (omega arith)

mask_from-at_example :
    (length (mask_from 0 (1 ∷ 2 ∷ 3 ∷ 4 ∷ []) (104 ∷ 105 ∷ [])) ≡ 2)
    × (get_or (mask_from 0 (1 ∷ 2 ∷ 3 ∷ 4 ∷ []) (104 ∷ 105 ∷ [])) 1 0 ≡ bit_xor 105 2)
mask_from-at_example = mask_from-at 0 (1 ∷ 2 ∷ 3 ∷ 4 ∷ []) (104 ∷ 105 ∷ []) 1 (omega arith)

abbrev greeting : WebFrame
greeting = record { payload = 104 ∷ 105 ∷ []; opcode = 1; final = true }

abbrev old : WebFrame
old = record { payload = 1 ∷ []; opcode = 2; final = false }

-- A client's frame arrives in three chunks, with a byte behind it.
abbrev line : TcpSocket
line = record {
  is_blocking = false;
  arrivals =
      chunk 0x81 []
      ∷ Arrival.blocks
      ∷ chunk 0x82 (1 ∷ 2 ∷ 3 ∷ [])
      ∷ chunk 4 (105 ∷ 107 ∷ 9 ∷ [])
      ∷ [];
  answers = takes 2 ∷ Answer.blocks ∷ [];
  outgoing = 77 ∷ [];
}

line-frame_bytes : pending line ≡ frame_bytes big true 0x01020304 greeting ++ 9 ∷ []
unfolding frame_bytes store hton extended_length first_bytes masked mask_from
line-frame_bytes = refl

receive-Intact_example :
    (r : FrameReceived TcpSocket) × (receive little (transport 100) false 30 old line ≡ some r)
    × (r.outcome ≡ returned success → (r.frame ≡ greeting) × (pending r.state ≡ 9 ∷ []))
receive-Intact_example =
    receive-Intact little big (transport 100) pending read_budget (receive_raw-Reads 100) true
      0x01020304 greeting old (9 ∷ []) 30 line (omega arith) (omega arith) (inr (omega arith))
      line-frame_bytes (omega arith)

-- The same bytes with interruptions in place of pauses.
abbrev calm_line : TcpSocket
calm_line = record {
  is_blocking = true;
  arrivals =
      chunk 0x81 []
      ∷ Arrival.interrupted
      ∷ chunk 0x82 (1 ∷ 2 ∷ 3 ∷ [])
      ∷ chunk 4 (105 ∷ 107 ∷ 9 ∷ [])
      ∷ [];
  answers = [];
  outgoing = [];
}

calm_line-Calm : Calm calm_line
calm_line-Calm = (tt, (tt, (tt, (tt, tt))))

calm_line-frame_bytes : pending calm_line ≡ frame_bytes big true 0x01020304 greeting ++ 9 ∷ []
unfolding frame_bytes store hton extended_length first_bytes masked mask_from
calm_line-frame_bytes = refl

receive-frame_bytes_example :
    (r : FrameReceived TcpSocket) × (receive little (transport 100) false 30 old calm_line ≡ some r)
    × (r.outcome ≡ returned success)
    × (r.frame ≡ greeting)
    × (pending r.state ≡ 9 ∷ [])
receive-frame_bytes_example =
    receive-frame_bytes little big (transport 100) pending read_budget Calm (receive_raw-Reads 100)
      (receive_raw-Steady 100) true 0x01020304 greeting old (9 ∷ []) 30 calm_line calm_line-Calm
      (omega arith) (omega arith) (inr (omega arith)) calm_line-frame_bytes (omega arith)
