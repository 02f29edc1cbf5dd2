-- ===== src/Socket/Sending.antt =====
-- What a socket type promises to the loop that sends a message, and what is then on the wire.
use frnetlib.Base.{
  ℕ, zero, suc, ◌-◌, ◌≤◌, ◌<◌, ◌≡◌, inl, inr, ap, ◌∙◌, arith, false, List, ◌++◌, some, Bytes,
  length, take, drop, append_assoc, sym, drop-drop, take-take-drop, Bool-cases,
}
use frnetlib.Socket.{success, would_block, is_would_block, Sent, Transport, send_all}
use frnetlib.Socket.Contract.{is_would_block→would_block}

-- `wire s` are the bytes sent so far. A call sends the bytes from `sent` on, in order, up to the new value
-- of `sent`; success means that it reached the end.
pub record Writes {S : Type 0} (t : Transport S) (wire : S → Bytes) (budget : S → ℕ) : Type 0 where
  pub goes_on :
      (bs : Bytes) (sent : ℕ) (s : S)
      → sent ≤ length bs
      → (sent ≤ (t.send_raw bs sent s).sent) × ((t.send_raw bs sent s).sent ≤ length bs)
  pub stream :
      (bs : Bytes) (sent : ℕ) (s : S)
      → sent ≤ length bs
      → wire (t.send_raw bs sent s).state
        ≡ wire s ++ take ((t.send_raw bs sent s).sent - sent) (drop sent bs)
  pub finished :
      (bs : Bytes) (sent : ℕ) (s : S)
      → sent ≤ length bs
      → (t.send_raw bs sent s).status ≡ success
      → (t.send_raw bs sent s).sent ≡ length bs
  pub budget_spent :
      (bs : Bytes) (sent : ℕ) (s : S)
      → sent ≤ length bs
      → (t.send_raw bs sent s).status ≡ would_block
      → budget (t.send_raw bs sent s).state < budget s

module _ {ℓ} {A : Type ℓ} where
  -- Consecutive parts of a list make one part.
  pub parts :
      (i j k : ℕ) (xs : List A)
      → i ≤ j
      → j ≤ k
      → take (j - i) (drop i xs) ++ take (k - j) (drop j xs) ≡ take (k - i) (drop i xs)
  parts i j k xs h h' =
      ap (λ t. take (j - i) (drop i xs) ++ take (k - j) t)
        (sym (drop-drop i (j - i) xs j (omega arith)))
      ∙ take-take-drop (j - i) (k - j) (drop i xs) (k - i) (omega arith)

-- What a loop that sent a message from `sent` on leaves behind.
pub record Delivered {S : Type 0} (wire : S → Bytes) (bs : Bytes) (sent : ℕ) (s : S) (r : Sent S)
    : Type 0 where
  pub reached : (sent ≤ r.sent) × (r.sent ≤ length bs)
  pub on_wire : wire r.state ≡ wire s ++ take (r.sent - sent) (drop sent bs)
  pub finished : r.status ≡ success → r.sent ≡ length bs
  pub not_blocked : is_would_block r.status ≡ false

module _ {S : Type 0} (t : Transport S) (wire : S → Bytes) (budget : S → ℕ)
    (c : Writes t wire budget) where
  -- With enough fuel the loop ends; a part of the message is on the wire, once and in order, and all of it if
  -- the loop reports success.
  pub send_all-Delivered :
      (fuel : ℕ) (bs : Bytes) (sent : ℕ) (s : S)
      → sent ≤ length bs
      → budget s < fuel
      → (r : Sent S) × (send_all t fuel bs sent s ≡ some r) × Delivered wire bs sent s r
  unfolding send_all
  send_all-Delivered zero bs sent s h f = absurd (omega arith)
  send_all-Delivered (suc fuel) bs sent s h f =
      elim (Bool-cases (is_would_block (t.send_raw bs sent s).status)) [
        | inl b ↦
            let late = c.budget_spent bs sent s h (is_would_block→would_block _ b) in
            let q = t.send_raw bs sent s in
            let (r, e, d) =
              send_all-Delivered fuel bs q.sent q.state (c.goes_on bs sent s h).1 (omega arith) in
            (
              r,
              rw b e,
              record {
                reached = omega (arith, c.goes_on bs sent s h, d.reached);
                on_wire =
                    d.on_wire
                    ∙ ap (λ x. x ++ take (r.sent - q.sent) (drop q.sent bs)) (c.stream bs sent s h)
                    ∙ append_assoc (wire s) (take (q.sent - sent) (drop sent bs))
                        (take (r.sent - q.sent) (drop q.sent bs))
                    ∙ ap (◌++◌ (wire s))
                        (parts sent q.sent r.sent bs (c.goes_on bs sent s h).0 d.reached.0);
                finished = d.finished;
                not_blocked = d.not_blocked;
              },
            )
        | inr b ↦ (
          t.send_raw bs sent s,
          rw b,
          record {
            reached = c.goes_on bs sent s h;
            on_wire = c.stream bs sent s h;
            finished = c.finished bs sent s h;
            not_blocked = b;
          },
        )
      ]
