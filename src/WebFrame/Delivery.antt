-- ===== src/WebFrame/Delivery.antt =====
-- A frame that one side sends and the other side receives.
use frnetlib.Base.{
  ℕ, ◌+◌, ◌*◌, ◌^◌, ◌≤◌, ◌<◌, ◌≡◌, ◌⊎◌, inl, inr, refl, sym, ap, ◌∙◌, arith, Bool, true, false, not,
  [], ◌++◌, length-append, some, Bytes, if◌then◌else◌, length, append_assoc, Bool-cases,
  append-injective,
}
use frnetlib.Encoding.{ByteOrder, big_endian, store, load, hton}
use frnetlib.Encoding.Wire.{store-hton, length-big_endian, hton-load-big_endian, length-store}
use frnetlib.Socket.{success, is_success, Received, Transport, receive_all}
use frnetlib.Socket.Contract.{Reads, receive_all-Delivers, is_success→success}
use frnetlib.Socket.Steady.{Steady, receive_all-Succeeds}
use mathlib.Core.Path.{subst}
use frnetlib.WebFrame.{
  WebFrame, FrameReceived, returned, first_bytes, short_length, extended_length, masked, mask_from,
  frame_bytes, receive,
}
use frnetlib.WebFrame.Header.{first_bytes-FieldsOf}
use frnetlib.WebFrame.Mask.{mask_from-mask_from, length-mask_from}
use frnetlib.WebFrame.Parts.{Ends, Intact, Intact-failed, Ends-of, Ends-after}
use frnetlib.WebFrame.Receiving.{extended_same, read_length_lem, receive_failed, receive_started}

abbrev first_word : Bool → WebFrame → ℕ
first_word from_client f =
    first_bytes f.final f.opcode from_client (short_length (length f.payload))

-- The parts of a frame on the wire, in the order in which they are read.
frame_bytes_parts :
    (o o' : ByteOrder) (from_client : Bool) (key : ℕ) (f : WebFrame) (rest : Bytes)
    → frame_bytes o' from_client key f ++ rest
      ≡ big_endian 2 (first_word from_client f)
        ++ (extended_length o (length f.payload)
            ++ ((if from_client then store o' 4 key else [])
                ++ ((masked o' from_client key f).payload ++ rest)))
unfolding frame_bytes
frame_bytes_parts o o' from_client key f rest =
    rw (store-hton o' 2 (first_word from_client f), extended_same o o' (length f.payload))
      (simp append_assoc)

unmasked :
    (o' : ByteOrder) (from_client : Bool) (key : ℕ) (f : WebFrame)
    → (if from_client
        then mask_from 0 (store o' 4 key) (masked o' from_client key f).payload
        else (masked o' from_client key f).payload)
      ≡ f.payload
unfolding masked
unmasked o' true key f = mask_from-mask_from 0 (store o' 4 key) f.payload
unmasked o' false key f = refl

length-masked :
    (o' : ByteOrder) (from_client : Bool) (key : ℕ) (f : WebFrame)
    → length (masked o' from_client key f).payload ≡ length f.payload
unfolding masked
length-masked o' true key f = length-mask_from 0 (store o' 4 key) f.payload
length-masked o' false key f = refl

short_length-lt : (n : ℕ) → short_length n < 128
short_length-lt n = ground arith

module _ {S : Type 0} (o o' : ByteOrder) (t : Transport S) (pending : S → Bytes) (budget : S → ℕ)
    (c : Reads t pending budget) (from_client : Bool) (key : ℕ) (f g : WebFrame) (rest : Bytes)
    (fuel : ℕ) (s : S) (op : f.opcode < 16) (small : length f.payload < 2 ^ 63)
    (limit : (t.max_receive_size ≡ 0) ⊎ (length f.payload ≤ t.max_receive_size))
    (e : pending s ≡ frame_bytes o' from_client key f ++ rest)
    (enough : length f.payload + 2 * budget s + 11 < fuel) where
  module _ (Calm : S → Type 0) (steady : Steady t pending Calm) where
    first_bytes_read_well :
        {h : Received S}
        → receive_all t fuel 2 s ≡ some h
        → Calm s
        → (h.status ≡ success) × Calm h.state
    first_bytes_read_well {h = h} he calm =
        let w = first_word from_client f in
        let behind =
          extended_length o (length f.payload)
          ++ ((if from_client then store o' 4 key else [])
              ++ ((masked o' from_client key f).payload ++ rest)) in
        let (x, xe, (good, still, d)) =
          receive_all-Succeeds t pending budget c Calm steady fuel 2 s calm
            (omega (
              arith,
              ap (length {A = ℕ}) (e ∙ frame_bytes_parts o o' from_client key f rest),
              length-append (big_endian 2 w) behind,
              length-big_endian 2 w,
            ))
            (omega arith) (omega arith) in
        let same : x ≡ h = (let both = sym xe ∙ he in cc) in
        (ap (λ y. y.status) (sym same) ∙ good, subst (λ y. Calm y.state) same still)

    receive_lem :
        Ends o t pending budget c Calm steady
          (not from_client)
          (Intact o t pending budget c Calm steady (not from_client) s f rest)
          (receive o t (not from_client) fuel g s)
    receive_lem =
        let n = length f.payload in
        let w = first_word from_client f in
        let ic = not from_client in
        let fields =
          first_bytes-FieldsOf f.final f.opcode from_client (short_length n) op
            (short_length-lt n) in
        let (h, he, hd) =
          receive_all-Delivers t pending budget c fuel 2 s (omega arith) (omega arith) in
        let split = sym (e ∙ frame_bytes_parts o o' from_client key f rest) ∙ hd.in_order in
        elim (Bool-cases (is_success h.status)) [
          | inr bad ↦
              Ends-of o t pending budget c Calm steady ic s f rest
                (receive_failed o t pending budget c Calm steady ic fuel g s he bad)
                (Intact-failed o t pending budget c Calm steady ic s f (record g { payload = [] })
                  rest h.status h.state bad (λ calm. (first_bytes_read_well he calm).0))
          | inl good ↦
              let (bytes, behind) =
                append-injective (big_endian 2 w) _ h.bytes (pending h.state) split
                  (length-big_endian 2 w ∙ sym (hd.whole (is_success→success _ good))) in
              let ex : hton o 2 (load o h.bytes) ≡ w =
                rw (← bytes) (hton-load-big_endian o 2 w fields.4) in
              Ends-of o t pending budget c Calm steady ic s f rest
                (receive_started o t pending budget c Calm steady ic fuel g s he w f.final f.opcode
                  from_client (short_length n) good ex fields refl)
                (Ends-after o t pending budget c Calm steady ic s h.state f rest
                  (λ calm. (first_bytes_read_well he calm).1)
                  (read_length_lem o t pending budget c Calm steady ic from_client f
                    (record { payload = []; opcode = f.opcode; final = f.final }) (store o' 4 key)
                    (masked o' from_client key f).payload rest fuel n h.state (sym behind)
                    (length-store o' 4 key) (length-masked o' from_client key f) small
                    (omega (arith, hd.within)) (ground arith)
                    (ap (λ x. record f { payload = x }) (sym (unmasked o' from_client key f)))))
        ]

-- With enough fuel, a frame that one side sends is received by the other as it was: where the reads of the socket go well
-- as long as bytes are pending, the call succeeds, the frame has the payload, the opcode and the final bit that were
-- sent, and the stream goes on behind it. The opcode has four bits, and the payload a length that a string can have and
-- that the receiver's limit, if there is one, allows.
pub receive-frame_bytes :
    {S : Type 0} (o o' : ByteOrder) (t : Transport S) (pending : S → Bytes) (budget : S → ℕ)
    (Calm : S → Type 0)
    → Reads t pending budget
    → Steady t pending Calm
    → (from_client : Bool) (key : ℕ) (f g : WebFrame) (rest : Bytes) (fuel : ℕ) (s : S) → Calm s
    → f.opcode < 16
    → length f.payload < 2 ^ 63
    → (t.max_receive_size ≡ 0) ⊎ (length f.payload ≤ t.max_receive_size)
    → pending s ≡ frame_bytes o' from_client key f ++ rest
    → length f.payload + 2 * budget s + 11 < fuel
    → (r : FrameReceived S) × (receive o t (not from_client) fuel g s ≡ some r)
      × (r.outcome ≡ returned success)
      × (r.frame ≡ f)
      × (pending r.state ≡ rest)
receive-frame_bytes o o' t pending budget Calm c steady from_client key f g rest fuel s calm op
      small limit e enough =
    let (r, re, (same, good)) =
      receive_lem o o' t pending budget c from_client key f g rest fuel s op small limit e enough
        Calm steady in
    let intact = same (good calm) in (r, re, good calm, intact.0, intact.1)

-- On any socket that gives the peer's bytes in order, a call of `receive` on the bytes of a frame ends, with enough fuel,
-- and if it reports success, the frame is the one that was sent and the stream goes on behind it. The opcode and the
-- payload are bounded in the same way.
pub receive-Intact :
    {S : Type 0} (o o' : ByteOrder) (t : Transport S) (pending : S → Bytes) (budget : S → ℕ)
    → Reads t pending budget
    → (from_client : Bool) (key : ℕ) (f g : WebFrame) (rest : Bytes) (fuel : ℕ) (s : S)
    → f.opcode < 16
    → length f.payload < 2 ^ 63
    → (t.max_receive_size ≡ 0) ⊎ (length f.payload ≤ t.max_receive_size)
    → pending s ≡ frame_bytes o' from_client key f ++ rest
    → length f.payload + 2 * budget s + 11 < fuel
    → (r : FrameReceived S) × (receive o t (not from_client) fuel g s ≡ some r)
      × (r.outcome ≡ returned success → (r.frame ≡ f) × (pending r.state ≡ rest))
receive-Intact o o' t pending budget c from_client key f g rest fuel s op small limit e enough =
    let (r, re, (same, good)) =
      receive_lem o o' t pending budget c from_client key f g rest fuel s op small limit e enough
        (λ x. ⊥) (record { answers = λ n x h. absurd h }) in
    (r, re, same)
