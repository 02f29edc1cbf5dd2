-- ===== src/Socket/Contract.antt =====
-- What a socket type promises to the loops over it, and what they then deliver.
use frnetlib.Base.{
  ℕ, zero, suc, ◌+◌, ◌-◌, ◌^◌, ◌≤◌, ◌<◌, ◌≡◌, ◌⊎◌, inl, inr, refl, sym, ap, ◌∙◌, arith, true, false,
  [], ◌∷◌, ◌++◌, some, Bytes, leb, ◌==◌, length, length-append, append_assoc, Bool-cases,
}
use frnetlib.Socket.{
  Status, success, would_block, timeout, disconnected, is_success, is_would_block, Received,
  Transport, receive_loop, receive_all,
}

-- `pending s` are the bytes that the peer has sent and that are not read yet; `budget s` bounds how often
-- the socket answers that it would block.
pub record Reads {S : Type 0} (t : Transport S) (pending : S → Bytes) (budget : S → ℕ)
    : Type 0 where
  -- A read takes bytes off the front of the stream, at most as many as it was asked for.
  pub stream :
      (n : ℕ) (s : S) → pending s ≡ (t.receive_raw n s).bytes ++ pending (t.receive_raw n s).state
  pub bounded : (n : ℕ) (s : S) → length (t.receive_raw n s).bytes ≤ n
  -- It takes one byte at least if it succeeds, and none if it does not.
  pub taken :
      (n : ℕ) (s : S)
      → (t.receive_raw n s).status ≡ success
      → 0 < n
      → 1 ≤ length (t.receive_raw n s).bytes
  pub failed :
      (n : ℕ) (s : S)
      → is_success (t.receive_raw n s).status ≡ false
      → (t.receive_raw n s).bytes ≡ []
  pub budget_kept : (n : ℕ) (s : S) → budget (t.receive_raw n s).state ≤ budget s
  pub budget_spent :
      (n : ℕ) (s : S)
      → (t.receive_raw n s).status ≡ would_block
      → budget (t.receive_raw n s).state < budget s

-- What a call that was to read `n` bytes delivers.
pub record Delivers {S : Type 0} (pending : S → Bytes) (budget : S → ℕ) (n : ℕ) (s : S)
    (r : Received S) : Type 0 where
  -- The bytes come off the front of the stream, in order.
  pub in_order : pending s ≡ r.bytes ++ pending r.state
  -- Success means all of them.
  pub whole : r.status ≡ success → length r.bytes ≡ n
  -- To be told to come back means that none were lost.
  pub nothing_lost : (r.status ≡ would_block) ⊎ (r.status ≡ timeout) → r.bytes ≡ []
  pub no_more : length r.bytes ≤ n
  pub cheaper : r.status ≡ would_block → budget r.state < budget s
  pub within : budget r.state ≤ budget s

pub is_success→success : (st : Status) → is_success st ≡ true → st ≡ success
is_success→success success h = refl
is_success→success _ h = cc

pub is_would_block→would_block : (st : Status) → is_would_block st ≡ true → st ≡ would_block
is_would_block→would_block would_block h = refl
is_would_block→would_block _ h = cc

nil_of_length : (bs : Bytes) → (length bs == 0) ≡ true → bs ≡ []
nil_of_length [] h = refl
nil_of_length (b ∷ bs) h = absurd (ground arith)

pub le→leb_false : (n : ℕ) → n < 2 ^ 63 → leb (2 ^ 63) n ≡ false
le→leb_false n h = ground arith

module _ {S : Type 0} (t : Transport S) (pending : S → Bytes) (budget : S → ℕ)
    (c : Reads t pending budget) where
  abbrev LoopPost : ℕ → Bytes → S → Received S → Type 0
  LoopPost n got s r =
      (got ++ pending s ≡ r.bytes ++ pending r.state)
      × (r.status ≡ success → length r.bytes ≡ n)
      × ((r.status ≡ would_block) ⊎ (r.status ≡ timeout) → r.bytes ≡ [])
      × (length r.bytes ≤ n)
      × (r.status ≡ would_block → budget r.state < budget s)
      × (budget r.state ≤ budget s)

  -- The branches of one round, by the tests that lead to them.
  module _ (fuel n : ℕ) (got : Bytes) (s : S) where
    abbrev round : Received S
    round = t.receive_raw (n - length got) s

    abbrev stopped : Status → Received S
    stopped st = record { status = st; bytes = got ++ round.bytes; state = round.state }

    pub round_done :
        leb n (length got) ≡ true
        → receive_loop t (suc fuel) n got s
          ≡ some (record { status = success; bytes = got; state = s })
    unfolding receive_loop
    round_done e = rw e

    pub round_success :
        leb n (length got) ≡ false
        → is_success round.status ≡ true
        → receive_loop t (suc fuel) n got s ≡ receive_loop t fuel n (got ++ round.bytes) round.state
    unfolding receive_loop
    round_success e f = rw (e, f)

    round_nothing :
        leb n (length got) ≡ false
        → is_success round.status ≡ false
        → (length (got ++ round.bytes) == 0) ≡ true
        → receive_loop t (suc fuel) n got s ≡ some (stopped round.status)
    unfolding receive_loop
    round_nothing e f g = rw (e, f, g)

    round_again :
        leb n (length got) ≡ false
        → is_success round.status ≡ false
        → (length (got ++ round.bytes) == 0) ≡ false
        → is_would_block round.status ≡ true
        → receive_loop t (suc fuel) n got s ≡ receive_loop t fuel n (got ++ round.bytes) round.state
    unfolding receive_loop
    round_again e f g h = rw (e, f, g, h)

    round_cut :
        leb n (length got) ≡ false
        → is_success round.status ≡ false
        → (length (got ++ round.bytes) == 0) ≡ false
        → is_would_block round.status ≡ false
        → receive_loop t (suc fuel) n got s ≡ some (stopped disconnected)
    unfolding receive_loop
    round_cut e f g h = rw (e, f, g, h)

    -- What holds of the rounds that follow holds from here.
    LoopPost-later :
        (r : Received S) → LoopPost n (got ++ round.bytes) round.state r → LoopPost n got s r
    LoopPost-later r q = (
      ap (◌++◌ got) (c.stream (n - length got) s) ∙ sym (append_assoc got round.bytes _) ∙ q.0,
      q.1,
      q.2,
      q.3,
      λ e. omega (arith, q.4 e, c.budget_kept (n - length got) s),
      omega (arith, q.5, c.budget_kept (n - length got) s),
    )

    LoopPost-stopped :
        (st : Status)
        → length got ≤ n
        → (st ≡ success → ⊥)
        → ((st ≡ would_block) ⊎ (st ≡ timeout) → got ++ round.bytes ≡ [])
        → (st ≡ would_block → round.status ≡ would_block)
        → LoopPost n got s (stopped st)
    LoopPost-stopped st h a b d = (
      ap (◌++◌ got) (c.stream (n - length got) s) ∙ sym (append_assoc got round.bytes _),
      λ e. absurd (a e),
      b,
      omega (arith, length-append got round.bytes, c.bounded (n - length got) s),
      λ e. c.budget_spent (n - length got) s (d e),
      c.budget_kept (n - length got) s,
    )

  receive_loop_lem :
      (fuel n : ℕ) (got : Bytes) (s : S)
      → length got ≤ n
      → n - length got + budget s < fuel
      → (r : Received S) × (receive_loop t fuel n got s ≡ some r) × LoopPost n got s r
  receive_loop_lem zero n got s h f = absurd (omega arith)
  receive_loop_lem (suc fuel) n got s h f = elim (Bool-cases (leb n (length got))) [
    | inl done ↦ (
      record { status = success; bytes = got; state = s },
      round_done fuel n got s done,
      (refl, λ e. ground arith, elim [ inl e ↦ cc | inr e ↦ cc ], h, λ e. cc, omega arith),
    )
    | inr todo ↦ elim (Bool-cases (is_success r.status)) [
      | inl good ↦
          let more = receive_loop_lem fuel n (got ++ r.bytes) r.state (omega (arith, size)) (
            ground
              (arith, size, c.taken asked s (is_success→success _ good), c.budget_kept asked s)) in
          (
            more.0,
            round_success fuel n got s todo good ∙ more.1,
            LoopPost-later fuel n got s _ more.2,
          )
      | inr bad ↦ elim (Bool-cases (length (got ++ r.bytes) == 0)) [
        | inl none_yet ↦ (
          stopped fuel n got s r.status,
          round_nothing fuel n got s todo bad none_yet,
          LoopPost-stopped fuel n got s r.status h (λ e. cc) (λ e. nil_of_length _ none_yet)
              (λ e. e),
        )
        | inr some_yet ↦ elim (Bool-cases (is_would_block r.status)) [
          | inl blocked ↦
              let more = receive_loop_lem fuel n (got ++ r.bytes) r.state (omega (arith, size)) (
                ground
                  (arith, size, c.budget_spent asked s (is_would_block→would_block _ blocked))) in
              (
                more.0,
                round_again fuel n got s todo bad some_yet blocked ∙ more.1,
                LoopPost-later fuel n got s _ more.2,
              )
          | inr broken ↦ (
            stopped fuel n got s disconnected,
            round_cut fuel n got s todo bad some_yet broken,
            LoopPost-stopped fuel n got s disconnected h (λ e. cc)
                (elim [ inl e ↦ cc | inr e ↦ cc ]) (λ e. cc),
          )
        ]
      ]
    ]
  ]
    where
      asked : ℕ
      asked = n - length got

      r : Received S
      r = t.receive_raw asked s

      size : (length (got ++ r.bytes) ≡ length got + length r.bytes) × (length r.bytes ≤ asked)
      size = (length-append got r.bytes, c.bounded asked s)

  -- With enough fuel `receive_all` ends, and delivers what it was asked for: on success exactly `n` bytes off
  -- the front of the stream, in order; where it says that it would block, or that time ran out, nothing is
  -- taken off the stream.
  pub receive_all-Delivers :
      (fuel n : ℕ) (s : S)
      → n < 2 ^ 63
      → n + budget s < fuel
      → (r : Received S) × (receive_all t fuel n s ≡ some r) × Delivers pending budget n s r
  unfolding receive_all
  receive_all-Delivers fuel n s h f =
      let (r, e, q) = receive_loop_lem fuel n [] s (omega arith) (omega arith) in
      (
        r,
        rw (le→leb_false n h) e,
        record {
          in_order = q.0;
          whole = q.1;
          nothing_lost = q.2;
          no_more = q.3;
          cheaper = q.4;
          within = q.5;
        },
      )
