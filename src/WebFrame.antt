-- ===== src/WebFrame.antt =====
-- include/frnetlib/WebFrame.h and src/WebFrame.cpp: the frames of the WebSocket protocol, over any
-- socket type.
pub mod Header
pub mod Mask
pub mod Parts
pub mod Receiving
pub mod Sending
pub mod Delivery
mod Tests
use Prim.Native.Nat.{bit_and, bit_or, bit_xor}
use frnetlib.Base.{
  ℕ, zero, suc, ◌+◌, ◌-◌, ◌*◌, ◌/◌, ◌%◌, ◌^◌, Bool, true, false, not, ◌&&◌, List, [], ◌∷◌, ◌++◌,
  Option, none, some, Bytes, ltb, leb, ◌==◌, if◌then◌else◌, length, take, drop, replicate, get_or,
}
use frnetlib.Encoding.{ByteOrder, store, load, hton}
use frnetlib.Socket.{
  Status, success, error, max_packet_size_exceeded, is_success, Sent, Received, Transport,
  receive_all, receive_rest, send_all,
}
use frnetlib.Packet.Transfer.{overwrite}

-- The values of `Opcode`; any four bits may arrive.
abbrev pub text : ℕ
text = 1

abbrev pub disconnect : ℕ
disconnect = 8

pub record WebFrame : Type 0 where
  pub payload : Bytes
  pub opcode : ℕ
  pub final : Bool

-- The constructor.
unfoldable pub new_frame : ℕ → WebFrame
new_frame type = record { payload = []; opcode = type; final = true }

abbrev pub bit : Bool → ℕ
bit b = if b then 1 else 0

-- The field of seven bits for the length.
abbrev pub short_length : ℕ → ℕ
short_length n = if leb n 125 then n else if ltb n 0xffff then 126 else 127

-- `first_2bytes`, built up by `|=`.
unfoldable pub first_bytes : Bool → ℕ → Bool → ℕ → ℕ
first_bytes final opcode is_client len =
    bit_or
      (bit_or (bit_or (bit_or 0 (bit final * 2 ^ 15)) (opcode * 2 ^ 8)) (bit is_client * 2 ^ 7)) len

-- The length where seven bits are not enough.
unfoldable pub extended_length : ByteOrder → ℕ → Bytes
extended_length o n =
    if leb n 125
    then []
    else if ltb n 0xffff
    then store o 2 (hton o 2 (n % 2 ^ 16))
    else store o 8 (hton o 8 n)

-- `payload[a] ^ str_mask_key[a % 4]`, from position `a` on.
unfoldable pub mask_from : ℕ → Bytes → Bytes → Bytes
mask_from a key [] = []
mask_from a key (b ∷ bs) = bit_xor b (get_or key (a % 4) 0) ∷ mask_from (a + 1) key bs

-- `++current_mask_key`.
abbrev pub next_key : ℕ → ℕ
next_key k = (k + 1) % 2 ^ 32

-- The frame as `send` leaves it: a client's payload is masked in place.
unfoldable pub masked : ByteOrder → Bool → ℕ → WebFrame → WebFrame
masked o is_client key f = record f {
  payload = if is_client then mask_from 0 (store o 4 key) f.payload else f.payload;
}

-- The bytes that `send` hands to the socket.
unfoldable pub frame_bytes : ByteOrder → Bool → ℕ → WebFrame → Bytes
frame_bytes o is_client key f =
    let n = length f.payload in
    store o 2 (hton o 2 (first_bytes f.final f.opcode is_client (short_length n)))
    ++ (extended_length o n
        ++ ((if is_client then store o 4 key else []) ++ (masked o is_client key f).payload))

-- What `send` leaves behind, with the frame and the key that is kept for all frames.
pub record FrameSent (S : Type 0) : Type 0 where
  pub sent : Sent S
  pub frame : WebFrame
  pub current_mask_key : ℕ

-- `returned`, or the exception of `payload.resize` for a length that no string has.
pub data Outcome : Type 0 where
  returned : Status → Outcome
  length_error : Outcome

pub record FrameReceived (S : Type 0) : Type 0 where
  pub outcome : Outcome
  pub frame : WebFrame
  pub state : S

module _ {S : Type 0} (o : ByteOrder) (t : Transport S) (is_client : Bool) where
  unfoldable pub send : ℕ → ℕ → WebFrame → S → Option (FrameSent S)
  send fuel current_mask_key f s =
      let key = if is_client then next_key current_mask_key else current_mask_key in
      elim (send_all t fuel (frame_bytes o is_client key f) 0 s) [
        | none ↦ none
        | some r ↦
            some (record { sent = r; frame = masked o is_client key f; current_mask_key = key })
      ]

  abbrev pub stop : WebFrame → Status → S → Option (FrameReceived S)
  stop f st s = some (record { outcome = returned st; frame = f; state = s })

  -- Read the next `n` bytes, and return if that fails.
  unfoldable pub read_part :
      ℕ → ℕ → WebFrame → S → (Bytes → S → Option (FrameReceived S)) → Option (FrameReceived S)
  read_part fuel n f s next = elim (receive_rest t fuel n s) [
    | none ↦ none
    | some r ↦
        let more = next r.bytes r.state in
        if is_success r.status then more else stop f r.status r.state
  ]

  -- Read and unmask the payload.
  unfoldable pub read_payload : ℕ → ℕ → Bool → Bytes → WebFrame → S → Option (FrameReceived S)
  read_payload fuel n mask key f s =
      let room = replicate n 0 in
      let body : Option (FrameReceived S) = elim (receive_rest t fuel n s) [
        | none ↦ none
        | some r ↦
            let bytes = overwrite 0 r.bytes room in
            let plain = if mask && is_success r.status then mask_from 0 key bytes else bytes in
            stop (record f { payload = plain }) r.status r.state
      ] in
      if leb (2 ^ 63) n
      then some (record { outcome = length_error; frame = f; state = s })
      else body

  -- From the check of the length on.
  unfoldable pub read_body : ℕ → ℕ → Bool → WebFrame → S → Option (FrameReceived S)
  read_body fuel n mask f s =
      let limit = t.max_receive_size in
      let keyed = read_part fuel 4 f s (λ key. read_payload fuel n mask key f) in
      let plain = read_payload fuel n mask [] f s in
      if not (limit == 0) && ltb limit n
      then stop f max_packet_size_exceeded s
      else if mask
      then keyed
      else plain

  -- From the length on, behind the first two bytes, which hold `len` and the mask bit.
  unfoldable pub read_length : ℕ → ℕ → Bool → WebFrame → S → Option (FrameReceived S)
  read_length fuel len mask f s =
      let two = read_part fuel 2 f s (λ bs. read_body fuel (hton o 2 (load o bs)) mask f) in
      let eight = read_part fuel 8 f s (λ bs. read_body fuel (hton o 8 (load o bs)) mask f) in
      let none_more = read_body fuel len mask f s in
      if len == 126 then two else if len == 127 then eight else none_more

  -- The payload is cleared first. A peer of the wrong kind is refused by the mask bit.
  unfoldable pub receive : ℕ → WebFrame → S → Option (FrameReceived S)
  receive fuel f s =
      let cleared = record f { payload = [] } in
      elim (receive_all t fuel 2 s) [
        | none ↦ none
        | some h ↦
            let x = hton o 2 (load o h.bytes) in
            let read = record cleared {
              final = not (bit_and (x / 2 ^ 15) 1 == 0);
              opcode = bit_and (x / 2 ^ 8) 15;
            } in
            let mask = not (bit_and (x / 2 ^ 7) 1 == 0) in
            let wrong_peer = if mask then is_client else not is_client in
            let more = read_length fuel (bit_and x 127) mask read h.state in
            if not (is_success h.status)
            then stop cleared h.status h.state
            else if wrong_peer
            then stop read error h.state
            else more
      ]
