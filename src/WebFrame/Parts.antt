-- ===== src/WebFrame/Parts.antt =====
-- One part of a frame, read by the other side: the bytes of a field, and the payload.
use frnetlib.Base.{
  length-append, ℕ, ◌+◌, ◌*◌, ◌^◌, ◌≤◌, ◌<◌, ◌≡◌, inl, inr, refl, sym, ap, ◌∙◌, arith, Bool, true,
  false, ◌&&◌, ◌++◌, Option, some, Bytes, leb, if◌then◌else◌, length, replicate, length-replicate,
  append-nil, Bool-cases, append-injective, drop_all,
}
use frnetlib.Encoding.{ByteOrder}
use frnetlib.Socket.{Status, success, is_success, Received, Transport, receive_rest}
use frnetlib.Socket.Contract.{Reads, is_success→success}
use frnetlib.Socket.Rest.{receive_rest-Finishes}
use frnetlib.Socket.Steady.{Steady, receive_rest-Succeeds}
use mathlib.Core.Path.{subst}
use frnetlib.Packet.Transfer.{overwrite}
use frnetlib.WebFrame.{WebFrame, FrameReceived, returned, mask_from, stop, read_part, read_payload}

module _ {S : Type 0} (o : ByteOrder) (t : Transport S) (pending : S → Bytes) (budget : S → ℕ)
    (c : Reads t pending budget) (Calm : S → Type 0) (steady : Steady t pending Calm)
    (is_client : Bool) where
  -- A call that ends, with a result of which `P` holds.
  abbrev pub Ends : (FrameReceived S → Type 0) → Option (FrameReceived S) → Type 0
  Ends P x = (r : FrameReceived S) × (x ≡ some r) × P r

  -- On success the frame is `f`, and the stream goes on with `rest`; from a calm state `s` on it is a success.
  abbrev pub Intact : S → WebFrame → Bytes → FrameReceived S → Type 0
  Intact s f rest r =
      (r.outcome ≡ returned success → (r.frame ≡ f) × (pending r.state ≡ rest))
      × (Calm s → r.outcome ≡ returned success)

  pub Intact-failed :
      (s0 : S) (f g : WebFrame) (rest : Bytes) (st : Status) (s : S)
      → is_success st ≡ false
      → (Calm s0 → st ≡ success)
      → Ends (Intact s0 f rest) (stop o t is_client g st s)
  Intact-failed s0 f g rest st s h calm =
      (_, refl, (λ e. absurd (not_success st h e), λ k. ap returned (calm k)))
    where
      not_success : (st : Status) → is_success st ≡ false → returned st ≡ returned success → ⊥
      not_success success h e = cc
      not_success _ h e = cc

  pub Ends-of :
      (s : S) (f : WebFrame) (rest : Bytes) {x y : Option (FrameReceived S)}
      → x ≡ y
      → Ends (Intact s f rest) y
      → Ends (Intact s f rest) x
  Ends-of s f rest e h = (h.0, e ∙ h.1, h.2)

  -- Of a state that is calm if the first one was.
  pub Ends-after :
      (s s' : S) (f : WebFrame) (rest : Bytes) {x : Option (FrameReceived S)}
      → (Calm s → Calm s')
      → Ends (Intact s' f rest) x
      → Ends (Intact s f rest) x
  Ends-after s s' f rest k (r, e, (same, good)) = (r, e, (same, λ calm. good (k calm)))

  -- A part that the stream begins with is read from a calm state, and leaves one behind.
  part_read_well :
      (fuel n : ℕ) (part behind : Bytes) (s : S) {r : Received S}
      → receive_rest t fuel n s ≡ some r
      → pending s ≡ part ++ behind
      → length part ≡ n
      → n < 2 ^ 63
      → n + 2 * budget s + 1 < fuel
      → Calm s
      → (r.status ≡ success) × Calm r.state
  part_read_well fuel n part behind s {r = r} e split h small enough calm =
      let (x, xe, (good, still, d)) =
        receive_rest-Succeeds t pending budget c Calm steady fuel n s calm
          (omega (arith, ap (length {A = ℕ}) split, length-append part behind)) small
          (omega arith) in
      let same : x ≡ r = (let both = sym xe ∙ e in cc) in
      (ap (λ y. y.status) (sym same) ∙ good, subst (λ y. Calm y.state) same still)

  module _ (fuel n : ℕ) (g : WebFrame) (s : S) {r : Received S}
      (e : receive_rest t fuel n s ≡ some r) where
    read_part_success :
        (next : Bytes → S → Option (FrameReceived S))
        → is_success r.status ≡ true
        → read_part o t is_client fuel n g s next ≡ next r.bytes r.state
    unfolding read_part
    read_part_success next h = rw (e, read_part, h)

    read_part_failed :
        (next : Bytes → S → Option (FrameReceived S))
        → is_success r.status ≡ false
        → read_part o t is_client fuel n g s next ≡ stop o t is_client g r.status r.state
    unfolding read_part
    read_part_failed next h = rw (e, read_part, h)

  -- A part of `n` bytes that the stream begins with is read and passed on.
  pub read_part_lem :
      (f g : WebFrame) (part behind rest : Bytes) (fuel n : ℕ) (s : S)
      (next : Bytes → S → Option (FrameReceived S))
      → pending s ≡ part ++ behind
      → length part ≡ n
      → n < 2 ^ 63
      → n + 2 * budget s + 1 < fuel
      → ((s' : S)
          → pending s' ≡ behind
          → budget s' ≤ budget s
          → Ends (Intact s' f rest) (next part s'))
      → Ends (Intact s f rest) (read_part o t is_client fuel n g s next)
  read_part_lem f g part behind rest fuel n s next e h small enough more =
      let (r, re, d) = receive_rest-Finishes t pending budget c fuel n s small enough in
      elim (Bool-cases (is_success r.status)) [
        | inl good ↦
            let (bytes, after) =
              append-injective part behind r.bytes (pending r.state) (sym e ∙ d.in_order)
                (h ∙ sym (d.whole (is_success→success _ good))) in
            Ends-of s f rest
              (read_part_success fuel n g s re next good ∙ ap (λ x. next x r.state) (sym bytes))
              (Ends-after s r.state f rest
                (λ calm. (part_read_well fuel n part behind s re e h small enough calm).1)
                (more r.state (sym after) d.within))
        | inr bad ↦ Ends-of s f rest (read_part_failed fuel n g s re next bad) (
            Intact-failed s f g rest r.status r.state bad
              (λ calm. (part_read_well fuel n part behind s re e h small enough calm).0))
      ]

  -- The payload in the room made for it.
  abbrev pub plain : Bool → Bytes → Bytes → Bytes
  plain mask key bs = if mask then mask_from 0 key bs else bs

  overwrite_room : (bs : Bytes) (n : ℕ) → length bs ≡ n → overwrite 0 bs (replicate n 0) ≡ bs
  unfolding overwrite
  overwrite_room bs n h =
      rw
        (drop_all (replicate {A = ℕ} n 0) (0 + length bs)
          (omega (arith, length-replicate {A = ℕ} n 0)))
        (append-nil bs)

  -- The payload that `read_payload` leaves behind.
  abbrev left_behind : Bool → Bytes → ℕ → Received S → Bytes
  left_behind mask key n r =
      if mask && is_success r.status
      then mask_from 0 key (overwrite 0 r.bytes (replicate n 0))
      else overwrite 0 r.bytes (replicate n 0)

  left_behind-plain :
      (mask : Bool) (key : Bytes) (n : ℕ) (r : Received S)
      → is_success r.status ≡ true
      → length r.bytes ≡ n
      → left_behind mask key n r ≡ plain mask key r.bytes
  left_behind-plain true key n r good h = rw (good, overwrite_room r.bytes n h)
  left_behind-plain false key n r good h = overwrite_room r.bytes n h

  read_payload_equation :
      (fuel n : ℕ) (mask : Bool) (key : Bytes) (g : WebFrame) (s : S) {r : Received S}
      → receive_rest t fuel n s ≡ some r
      → n < 2 ^ 63
      → read_payload o t is_client fuel n mask key g s
        ≡ stop o t is_client (record g { payload = left_behind mask key n r }) r.status r.state
  unfolding read_payload
  read_payload_equation fuel n mask key g s e small =
      let fits : leb (2 ^ 63) n ≡ false = ground arith in rw (fits, e, read_payload)

  pub read_payload_lem :
      (f g : WebFrame) (body rest key : Bytes) (mask : Bool) (fuel n : ℕ) (s : S)
      → pending s ≡ body ++ rest
      → length body ≡ n
      → n < 2 ^ 63
      → n + 2 * budget s + 1 < fuel
      → f ≡ record g { payload = plain mask key body }
      → Ends (Intact s f rest) (read_payload o t is_client fuel n mask key g s)
  read_payload_lem f g body rest key mask fuel n s e h small enough same =
      let (r, re, d) = receive_rest-Finishes t pending budget c fuel n s small enough in
      elim (Bool-cases (is_success r.status)) [
        | inl good ↦
            let (bytes, after) =
              append-injective body rest r.bytes (pending r.state) (sym e ∙ d.in_order)
                (h ∙ sym (d.whole (is_success→success _ good))) in
            (
              _,
              read_payload_equation fuel n mask key g s re small,
              (
                λ done. (
                  ap (λ x. record g { payload = x })
                        (left_behind-plain mask key n r good (d.whole (is_success→success _ good))
                          ∙ ap (plain mask key) (sym bytes))
                      ∙ sym same,
                  sym after,
                ),
                λ calm. ap returned (is_success→success _ good),
              ),
            )
        | inr bad ↦ Ends-of s f rest (read_payload_equation fuel n mask key g s re small) (
            Intact-failed s f _ rest r.status r.state bad
              (λ calm. (part_read_well fuel n body rest s re e h small enough calm).0))
      ]
