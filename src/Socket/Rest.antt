-- ===== src/Socket/Rest.antt =====
-- The reads behind the first of a message: `receive_rest`.
use frnetlib.Base.{
  ℕ, zero, suc, ◌+◌, ◌*◌, ◌^◌, ◌≤◌, ◌<◌, ◌≡◌, inl, inr, ap, ◌∙◌, arith, true, false, ◌++◌, some,
  Bytes, if◌then◌else◌, length, Bool-cases,
}
use frnetlib.Socket.{
  Status, success, would_block, disconnected, is_would_block, is_timeout, Received, Transport,
  receive_all, receive_rest,
}
use frnetlib.Socket.Contract.{Reads, Delivers, receive_all-Delivers, is_would_block→would_block}

-- What a call that was to read the next `n` bytes of a message delivers: all of them, or an error that
-- does not ask to come back.
pub record Finishes {S : Type 0} (pending : S → Bytes) (budget : S → ℕ) (n : ℕ) (s : S)
    (r : Received S) : Type 0 where
  pub in_order : pending s ≡ r.bytes ++ pending r.state
  pub whole : r.status ≡ success → length r.bytes ≡ n
  pub not_blocked : is_would_block r.status ≡ false
  pub not_timed_out : is_timeout r.status ≡ false
  pub no_more : length r.bytes ≤ n
  pub within : budget r.state ≤ budget s

module _ {S : Type 0} (t : Transport S) (pending : S → Bytes) (budget : S → ℕ)
    (c : Reads t pending budget) where
  -- `Timeout` becomes `Disconnected`.
  abbrev pub final_status : Status → Status
  final_status st = if is_timeout st then disconnected else st

  rest_again :
      (fuel n : ℕ) (s : S) {r : Received S}
      → receive_all t fuel n s ≡ some r
      → is_would_block r.status ≡ true
      → receive_rest t (suc fuel) n s ≡ receive_rest t fuel n r.state
  unfolding receive_rest
  rest_again fuel n s e b = rw (e, receive_rest, b)

  rest_done :
      (fuel n : ℕ) (s : S) {r : Received S}
      → receive_all t fuel n s ≡ some r
      → is_would_block r.status ≡ false
      → receive_rest t (suc fuel) n s ≡ some (record r { status = final_status r.status })
  unfolding receive_rest
  rest_done fuel n s e b = rw (e, receive_rest, b)

  Finishes-done :
      (n : ℕ) (s : S) (r : Received S)
      → Delivers pending budget n s r
      → is_would_block r.status ≡ false
      → Finishes pending budget n s (record r { status = final_status r.status })
  Finishes-done n s r d b = record {
    in_order = d.in_order;
    whole = λ e. d.whole (not_late r.status e);
    not_blocked = not_blocked_lem r.status b;
    not_timed_out = not_timed_out_lem r.status;
    no_more = d.no_more;
    within = d.within;
  }
    where
      not_late : (st : Status) → final_status st ≡ success → st ≡ success
      not_late st e = ground arith

      not_blocked_lem :
          (st : Status) → is_would_block st ≡ false → is_would_block (final_status st) ≡ false
      not_blocked_lem st e = ground arith

      not_timed_out_lem : (st : Status) → is_timeout (final_status st) ≡ false
      not_timed_out_lem st = ground arith

  Finishes-later :
      (n : ℕ) (s : S) (r x : Received S)
      → Delivers pending budget n s r
      → r.status ≡ would_block
      → Finishes pending budget n r.state x
      → Finishes pending budget n s x
  Finishes-later n s r x d b f = record {
    in_order = d.in_order ∙ ap (λ bs. bs ++ pending r.state) (d.nothing_lost (inl b)) ∙ f.in_order;
    whole = f.whole;
    not_blocked = f.not_blocked;
    not_timed_out = f.not_timed_out;
    no_more = f.no_more;
    within = omega (arith, d.cheaper b, f.within);
  }

  -- With enough fuel the retried read ends: with all `n` bytes off the front of the stream, or with an
  -- error that is neither that it would block nor a timeout.
  pub receive_rest-Finishes :
      (fuel n : ℕ) (s : S)
      → n < 2 ^ 63
      → n + 2 * budget s + 1 < fuel
      → (r : Received S) × (receive_rest t fuel n s ≡ some r) × Finishes pending budget n s r
  receive_rest-Finishes zero n s h f = absurd (omega arith)
  receive_rest-Finishes (suc fuel) n s h f =
      let (r, e, d) = receive_all-Delivers t pending budget c fuel n s h (omega arith) in
      elim (Bool-cases (is_would_block r.status)) [
        | inl b ↦
            let late = is_would_block→would_block r.status b in
            let (x, e', q) =
              receive_rest-Finishes fuel n r.state h (omega (arith, d.cheaper late)) in
            (x, rest_again fuel n s e b ∙ e', Finishes-later n s r x d late q)
        | inr b ↦ (
          record r { status = final_status r.status },
          rest_done fuel n s e b,
          Finishes-done n s r d b,
        )
      ]
