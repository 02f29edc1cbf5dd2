-- ===== src/WebFrame/Receiving.antt =====
-- A whole frame, read part by part.
use frnetlib.Base.{
  ℕ, ◌+◌, ◌*◌, ◌%◌, ◌^◌, ◌<◌, ◌≡◌, inl, inr, sym, ap, ◌∙◌, arith, Bool, true, false, not, ◌&&◌, [],
  ◌++◌, some, Bytes, ltb, leb, ◌==◌, if◌then◌else◌, length, Bool-cases, ltb→lt,
}
use native.Mathlib.Nat.{mod-eq_of_lt}
use frnetlib.Encoding.{ByteOrder, big_endian, load, hton}
use frnetlib.Encoding.Wire.{store-hton, length-big_endian, hton-load-big_endian}
use frnetlib.Socket.{is_success, Received, Transport, receive_all}
use frnetlib.Socket.Contract.{Reads}
use frnetlib.Socket.Steady.{Steady}
use frnetlib.WebFrame.{
  WebFrame, short_length, extended_length, stop, read_part, read_payload, read_body, read_length,
  receive,
}
use frnetlib.WebFrame.Header.{FieldsOf}
use frnetlib.WebFrame.Parts.{Ends, Intact, Ends-of, read_part_lem, read_payload_lem, plain}

right_peer :
    (mask is_client : Bool)
    → is_client ≡ not mask
    → (if mask then is_client else not is_client) ≡ false
right_peer true is_client e = e
right_peer false is_client e = rw e

pub extended_short : (o : ByteOrder) (n : ℕ) → leb n 125 ≡ true → extended_length o n ≡ []
unfolding extended_length
extended_short o n h = rw h

pub extended_two :
    (o : ByteOrder) (n : ℕ)
    → leb n 125 ≡ false
    → ltb n 0xffff ≡ true
    → extended_length o n ≡ big_endian 2 n
unfolding extended_length
extended_two o n h k =
    let small : n % 2 ^ 16 ≡ n = mod-eq_of_lt (omega (arith, ltb→lt n 0xffff k)) in
    rw (h, k, small) (store-hton o 2 n)

pub extended_eight :
    (o : ByteOrder) (n : ℕ)
    → leb n 125 ≡ false
    → ltb n 0xffff ≡ false
    → extended_length o n ≡ big_endian 8 n
unfolding extended_length
extended_eight o n h k = rw (h, k) (store-hton o 8 n)

module _ {S : Type 0} (o : ByteOrder) (t : Transport S) (pending : S → Bytes) (budget : S → ℕ)
    (c : Reads t pending budget) (Calm : S → Type 0) (steady : Steady t pending Calm)
    (is_client : Bool) where
  abbrev InLimit : ℕ → Type 0
  InLimit n = (not (t.max_receive_size == 0) && ltb t.max_receive_size n) ≡ false

  -- The key, if there is one, and the payload.
  pub read_body_lem :
      (mask : Bool) (f g : WebFrame) (key body rest : Bytes) (fuel n : ℕ) (s : S)
      → pending s ≡ (if mask then key else []) ++ (body ++ rest)
      → length key ≡ 4
      → length body ≡ n
      → n < 2 ^ 63
      → n + 2 * budget s + 5 < fuel
      → InLimit n
      → f ≡ record g { payload = plain o t pending budget c Calm steady is_client mask key body }
      → Ends o t pending budget c Calm steady is_client
          (Intact o t pending budget c Calm steady is_client s f rest)
          (read_body o t is_client fuel n mask g s)
  unfolding read_body
  read_body_lem true f g key body rest fuel n s e k h small enough limit same = rw limit (
      read_part_lem o t pending budget c Calm steady is_client f g key (body ++ rest) rest fuel 4 s
        (λ x. read_payload o t is_client fuel n true x g) e k (omega arith) (omega arith)
        (λ s' after within.
          read_payload_lem o t pending budget c Calm steady is_client f g body rest key true fuel n
            s' after h small (omega arith) same))
  read_body_lem false f g key body rest fuel n s e k h small enough limit same = rw limit (
      read_payload_lem o t pending budget c Calm steady is_client f g body rest [] false fuel n s e
        h small (omega arith) same)

  module _ (mask : Bool) (g : WebFrame) (fuel n : ℕ) (s : S) where
    read_length_short :
        leb n 125 ≡ true
        → read_length o t is_client fuel (short_length n) mask g s
          ≡ read_body o t is_client fuel n mask g s
    unfolding read_length
    read_length_short h =
        let e : (n == 126) ≡ false = ground arith in
        let e' : (n == 127) ≡ false = ground arith in rw (h, e, e')

    read_length_two :
        leb n 125 ≡ false
        → ltb n 0xffff ≡ true
        → read_length o t is_client fuel (short_length n) mask g s
          ≡ read_part o t is_client fuel 2 g s
              (λ bs. read_body o t is_client fuel (hton o 2 (load o bs)) mask g)
    unfolding read_length
    read_length_two h k = rw (h, k)

    read_length_eight :
        leb n 125 ≡ false
        → ltb n 0xffff ≡ false
        → read_length o t is_client fuel (short_length n) mask g s
          ≡ read_part o t is_client fuel 8 g s
              (λ bs. read_body o t is_client fuel (hton o 8 (load o bs)) mask g)
    unfolding read_length
    read_length_eight h k = rw (h, k)

  -- The length, the key and the payload, for a frame with a payload of `n` bytes.
  pub read_length_lem :
      (mask : Bool) (f g : WebFrame) (key body rest : Bytes) (fuel n : ℕ) (s : S)
      → pending s ≡ extended_length o n ++ ((if mask then key else []) ++ (body ++ rest))
      → length key ≡ 4
      → length body ≡ n
      → n < 2 ^ 63
      → n + 2 * budget s + 9 < fuel
      → InLimit n
      → f ≡ record g { payload = plain o t pending budget c Calm steady is_client mask key body }
      → Ends o t pending budget c Calm steady is_client
          (Intact o t pending budget c Calm steady is_client s f rest)
          (read_length o t is_client fuel (short_length n) mask g s)
  read_length_lem mask f g key body rest fuel n s e k h small enough limit same =
      let behind = (if mask then key else []) ++ (body ++ rest) in
      elim (Bool-cases (leb n 125)) [
        | inl short ↦
            Ends-of o t pending budget c Calm steady is_client s f rest
              (read_length_short mask g fuel n s short)
              (read_body_lem mask f g key body rest fuel n s
                (e ∙ ap (λ x. x ++ behind) (extended_short o n short)) k h small (omega arith) limit
                same)
        | inr long ↦ elim (Bool-cases (ltb n 0xffff)) [
          | inl two ↦
              Ends-of o t pending budget c Calm steady is_client s f rest
                (read_length_two mask g fuel n s long two)
                (read_part_lem o t pending budget c Calm steady is_client f g (big_endian 2 n)
                  behind rest fuel 2 s
                  (λ bs. read_body o t is_client fuel (hton o 2 (load o bs)) mask g)
                  (e ∙ ap (λ x. x ++ behind) (extended_two o n long two)) (length-big_endian 2 n)
                  (omega arith) (omega arith)
                  (λ s' after within.
                    rw (hton-load-big_endian o 2 n (omega (arith, ltb→lt n 0xffff two))) (
                      read_body_lem mask f g key body rest fuel n s' after k h small (omega arith)
                        limit same)))
          | inr eight ↦
              Ends-of o t pending budget c Calm steady is_client s f rest
                (read_length_eight mask g fuel n s long eight)
                (read_part_lem o t pending budget c Calm steady is_client f g (big_endian 8 n)
                  behind rest fuel 8 s
                  (λ bs. read_body o t is_client fuel (hton o 8 (load o bs)) mask g)
                  (e ∙ ap (λ x. x ++ behind) (extended_eight o n long eight))
                  (length-big_endian 8 n) (omega arith) (omega arith)
                  (λ s' after within. rw (hton-load-big_endian o 8 n (omega arith)) (
                    read_body_lem mask f g key body rest fuel n s' after k h small (omega arith)
                      limit same)))
        ]
      ]

  module _ (fuel : ℕ) (g : WebFrame) (s : S) {h : Received S}
      (e : receive_all t fuel 2 s ≡ some h) where
    pub receive_failed :
        is_success h.status ≡ false
        → receive o t is_client fuel g s
          ≡ stop o t is_client (record g { payload = [] }) h.status h.state
    unfolding receive
    receive_failed bad = rw (e, receive, bad)

    pub receive_started :
        (x : ℕ) (final : Bool) (opcode : ℕ) (mask : Bool) (len : ℕ)
        → is_success h.status ≡ true
        → hton o 2 (load o h.bytes) ≡ x
        → FieldsOf x final opcode mask len
        → is_client ≡ not mask
        → receive o t is_client fuel g s
          ≡ read_length o t is_client fuel len mask
              (record { payload = []; opcode = opcode; final = final })
              h.state
    unfolding receive
    receive_started x final opcode mask len good ex fields peer =
        rw (e, receive, good, ex, fields.0, fields.1, fields.2, fields.3)
          (rw (right_peer mask is_client peer))

pub extended_same : (o o' : ByteOrder) (n : ℕ) → extended_length o' n ≡ extended_length o n
extended_same o o' n = elim (Bool-cases (leb n 125)) [
  | inl short ↦ extended_short o' n short ∙ sym (extended_short o n short)
  | inr long ↦ elim (Bool-cases (ltb n 0xffff)) [
    | inl two ↦ extended_two o' n long two ∙ sym (extended_two o n long two)
    | inr eight ↦ extended_eight o' n long eight ∙ sym (extended_eight o n long eight)
  ]
]
