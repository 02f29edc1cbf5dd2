-- ===== src/Packet/Delivery.antt =====
-- A packet that is sent arrives as it was.
use frnetlib.Base.{
  ◌-◌, ◌≤◌, ◌*◌, ◌⊎◌, inl, inr, take, replicate, drop_all, append-nil, drop-append, length-take,
  length-replicate, append_assoc, sym, Bool-cases, append-injective, ℕ, ◌+◌, ◌^◌, ◌<◌, ◌≡◌, ap, ◌∙◌,
  arith, true, false, not, ◌&&◌, ◌++◌, some, Bytes, ltb, ◌==◌, length, drop, length-append,
  length-drop, take_all,
}
use frnetlib.Encoding.{ByteOrder, big_endian, load, hton}
use frnetlib.Encoding.Wire.{store-hton, length-big_endian, hton-load-big_endian}
use frnetlib.Socket.{success, is_success, Sent, Received, Transport, receive_all, receive_rest}
use frnetlib.Socket.Contract.{Reads, Delivers, receive_all-Delivers, is_success→success}
use frnetlib.Socket.Rest.{Finishes, receive_rest-Finishes}
use frnetlib.Socket.Sending.{Writes, send_all-Delivered}
use frnetlib.Packet.{Packet}
use frnetlib.Packet.Codec.{IsValid, unread}
use frnetlib.Packet.Cursor.{size}
use frnetlib.Packet.Transfer.{
  overwrite, grow, PacketReceived, length_word, with_header, send, receive_body, receive,
}

-- The bytes of a packet on the wire: its size in four bytes, then its contents.
abbrev pub message : Packet → Bytes
message p = big_endian 4 (size p) ++ drop 4 p.buffer

length_word-size : (p : Packet) → IsValid p → size p < 2 ^ 32 → length_word p ≡ size p
unfolding length_word size
length_word-size p v h = ground arith

with_header-message :
    (o : ByteOrder) (p : Packet)
    → IsValid p
    → size p < 2 ^ 32
    → (with_header o p).buffer ≡ message p
unfolding with_header overwrite
with_header-message o p v h =
    rw (length_word-size p v h, store-hton o 4 (size p), length-big_endian 4 (size p))

pub length-message : (p : Packet) → IsValid p → length (message p) ≡ length p.buffer
length-message p v = omega (
  arith,
  length-append (big_endian 4 (size p)) (drop 4 p.buffer),
  length-big_endian 4 (size p),
  length-drop 4 p.buffer,
  v.behind_header,
  v.in_buffer,
)

-- With enough fuel `send` of a valid packet, of a size below 2 ^ 32, ends, and if it reports success the bytes it added
-- to the wire are the size of the packet in network order and then its contents.
pub send-message :
    {S : Type 0} (o : ByteOrder) (t : Transport S) (wire : S → Bytes) (budget : S → ℕ)
    → Writes t wire budget
    → (fuel : ℕ) (p : Packet) (s : S) → IsValid p
    → size p < 2 ^ 32
    → budget s < fuel
    → (r : Sent S) × (send o t fuel p s ≡ some r)
      × (r.status ≡ success → wire r.state ≡ wire s ++ message p)
unfolding send
send-message o t wire budget c fuel p s v small f =
    let (r, e, d) = send_all-Delivered t wire budget c fuel (message p) 0 s (omega arith) f in
    (
      r,
      rw (with_header-message o p v small) e,
      λ good.
          d.on_wire ∙ ap (◌++◌ (wire s)) (take_all (message p) _ (omega (arith, d.finished good))),
    )

length-grow : (n : ℕ) (bs : Bytes) → length bs ≤ n → length (grow n bs) ≡ n
unfolding grow
length-grow n bs h = ground (
  arith,
  length-append bs (replicate (n - length bs) 0),
  length-replicate {A = ℕ} (n - length bs) 0,
)

-- New bytes that reach the end of the buffer.
overwrite_end :
    (i : ℕ) (new bs : Bytes) → i + length new ≡ length bs → overwrite i new bs ≡ take i bs ++ new
unfolding overwrite
overwrite_end i new bs h = rw (drop_all bs (i + length new) (omega arith), append-nil new)

-- A body that arrived in a packet with nothing in it but the header's place.
body_in_place :
    (buffer bytes : Bytes)
    → length buffer ≡ 4
    → (drop 4 (overwrite 4 bytes (grow (length bytes + 4) buffer)) ≡ bytes)
      × (length (overwrite 4 bytes (grow (length bytes + 4) buffer)) ≡ length bytes + 4)
body_in_place buffer bytes h =
    let room = grow (length bytes + 4) buffer in
    let wide : length room ≡ length bytes + 4 = length-grow _ buffer (omega arith) in
    let head : length (take 4 room) ≡ 4 = omega (arith, length-take 4 room) in
    rw (overwrite_end 4 bytes room (omega arith))
      (drop-append (take 4 room) bytes 4 head, omega (arith, length-append (take 4 room) bytes))

pub length-contents : (p : Packet) → IsValid p → length (drop 4 p.buffer) ≡ size p
unfolding size
length-contents p v = ground (arith, length-drop 4 p.buffer)

size_of_length : (p : Packet) {n : ℕ} → length p.buffer ≡ n + 4 → size p ≡ n
unfolding size
size_of_length p e = ground arith

module _ {S : Type 0} (o : ByteOrder) (t : Transport S) (pending : S → Bytes) (budget : S → ℕ)
    (c : Reads t pending budget) where
  receive_refused :
      (fuel : ℕ) (q : Packet) (s : S) {h : Received S}
      → receive_all t fuel 4 s ≡ some h
      → is_success h.status ≡ false
      → receive o t fuel q s ≡ some (record { status = h.status; packet = q; state = h.state })
  unfolding receive
  receive_refused fuel q s e b = rw (e, receive, b)

  pub receive_accepted :
      (fuel : ℕ) (q : Packet) (s : S) {h : Received S}
      → receive_all t fuel 4 s ≡ some h
      → is_success h.status ≡ true
      → receive o t fuel q s ≡ receive_body o t fuel (hton o 4 (load o h.bytes)) q h.state
  unfolding receive
  receive_accepted fuel q s e b = rw (e, receive, b)

  -- What `receive_body` returns where the limit allows `n` bytes.
  pub body_read :
      (fuel n : ℕ) (q : Packet) (s : S) {r : Received S}
      → (not (t.max_receive_size == 0) && ltb t.max_receive_size n) ≡ false
      → receive_rest t fuel n s ≡ some r
      → receive_body o t fuel n q s
        ≡ some (record {
          status = r.status;
          packet = record q { buffer = overwrite 4 r.bytes (grow (n + 4) q.buffer) };
          state = r.state;
        })
  unfolding receive_body
  body_read fuel n q s b e = rw (e, receive_body, b)

  -- The header that arrives first is the size; what is behind it is the contents.
  pub header_read :
      (p : Packet) (s : S) (rest : Bytes) (h : Received S)
      → size p < 2 ^ 32
      → pending s ≡ message p ++ rest
      → Delivers pending budget 4 s h
      → h.status ≡ success
      → (hton o 4 (load o h.bytes) ≡ size p) × (pending h.state ≡ drop 4 p.buffer ++ rest)
  header_read p s rest h small e d good =
      let prefix = big_endian 4 (size p) in
      let split : prefix ++ (drop 4 p.buffer ++ rest) ≡ h.bytes ++ pending h.state =
        sym (append_assoc prefix (drop 4 p.buffer) rest) ∙ sym e ∙ d.in_order in
      let (bytes, behind) =
        append-injective prefix (drop 4 p.buffer ++ rest) h.bytes (pending h.state) split
          (length-big_endian 4 (size p) ∙ sym (d.whole good)) in
      (rw (← bytes) (hton-load-big_endian o 4 (size p) small), sym behind)

  -- A packet of `p` that was received into `q`.
  abbrev pub Arrived : Packet → Bytes → PacketReceived S → Type 0
  Arrived p rest r =
      (unread r.packet ≡ drop 4 p.buffer) × (size r.packet ≡ size p) × (pending r.state ≡ rest)

  abbrev filled : Packet → Received S → ℕ → Packet
  filled q b n = record q { buffer = overwrite 4 b.bytes (grow (n + 4) q.buffer) }

  arrived :
      (p q : Packet) (s : S) (rest : Bytes) (b : Received S)
      → IsValid p
      → length q.buffer ≡ 4
      → q.buffer_read_index ≡ 4
      → pending s ≡ drop 4 p.buffer ++ rest
      → Finishes pending budget (size p) s b
      → b.status ≡ success
      → Arrived p rest (record { status = b.status; packet = filled q b (size p); state = b.state })
  arrived p q s rest b v hq hi e d good =
      let many : length b.bytes ≡ size p = d.whole good in
      let room : length (drop 4 p.buffer) ≡ size p = length-contents p v in
      let (contents, behind) =
        append-injective (drop 4 p.buffer) rest b.bytes (pending b.state) (sym e ∙ d.in_order)
          (room ∙ sym many) in
      let (place, long) = body_in_place q.buffer b.bytes hq in
      (
        rw (hi, ← many) (place ∙ sym contents),
        rw (← many) (size_of_length (filled q b (length b.bytes)) long),
        sym behind,
      )

  -- On a stream that begins with the message of a packet `p`, and with enough fuel, `receive` into an empty
  -- packet ends. If it reports success the packet holds the contents of `p`, to be read from their
  -- beginning, and the stream goes on behind the message. The packet `p` is valid and its size is below
  -- 2 ^ 32, and the limit on messages, if there is one, is not below that size.
  pub receive-message :
      (fuel : ℕ) (p q : Packet) (s : S) (rest : Bytes)
      → IsValid p
      → size p < 2 ^ 32
      → length q.buffer ≡ 4
      → q.buffer_read_index ≡ 4
      → (t.max_receive_size ≡ 0) ⊎ (size p ≤ t.max_receive_size)
      → pending s ≡ message p ++ rest
      → size p + 2 * budget s + 5 < fuel
      → (r : PacketReceived S) × (receive o t fuel q s ≡ some r)
        × (r.status ≡ success → Arrived p rest r)
  receive-message fuel p q s rest v small hq hi limit e f =
      let (h, he, hd) =
        receive_all-Delivers t pending budget c fuel 4 s (omega arith) (omega arith) in
      elim (Bool-cases (is_success h.status)) [
        | inr bad ↦ (
          record { status = h.status; packet = q; state = h.state },
          receive_refused fuel q s he bad,
          λ good. cc,
        )
        | inl good ↦
            let (n, behind) = header_read p s rest h small e hd (is_success→success _ good) in
            let (b, be, bd) =
              receive_rest-Finishes t pending budget c fuel (size p) h.state (omega arith)
                (omega (arith, hd.within)) in
            (
              record {
                status = b.status;
                packet = record q { buffer = overwrite 4 b.bytes (grow (size p + 4) q.buffer) };
                state = b.state;
              },
              receive_accepted fuel q s he good
                  ∙ ap (λ k. receive_body o t fuel k q h.state) n
                  ∙ body_read fuel (size p) q h.state (ground arith) be,
              λ whole. arrived p q h.state rest b v hq hi behind bd whole,
            )
      ]
