-- ===== src/Socket/Steady.antt =====
-- Where the bytes keep coming, the loops that read a message succeed.
use frnetlib.Base.{
  ℕ, zero, suc, ◌+◌, ◌-◌, ◌^◌, ◌≤◌, ◌<◌, ◌≡◌, inl, inr, refl, sym, ap, ◌∙◌, arith, true, [], ◌++◌,
  none, some, Bytes, leb, length, length-append, Bool-cases,
}
use mathlib.Core.Path.{subst}
use frnetlib.Socket.{
  Status, success, is_success, Received, Transport, receive_loop, receive_all, receive_rest,
}
use frnetlib.Socket.Contract.{
  Reads, Delivers, le→leb_false, receive_all-Delivers, round_done, round_success,
}

-- On a state that `Calm` holds of, a read that can give a byte succeeds and gives one, and the state after it is calm too.
pub record Steady {S : Type 0} (t : Transport S) (pending : S → Bytes) (Calm : S → Type 0)
    : Type 0 where
  pub answers :
      (n : ℕ) (s : S)
      → Calm s
      → 0 < n
      → 1 ≤ length (pending s)
      → ((t.receive_raw n s).status ≡ success)
        × (1 ≤ length (t.receive_raw n s).bytes)
        × Calm (t.receive_raw n s).state

pub success→is_success : {st : Status} → st ≡ success → is_success st ≡ true
success→is_success e = ap is_success e

module _ {S : Type 0} (t : Transport S) (pending : S → Bytes) (budget : S → ℕ)
    (c : Reads t pending budget) (Calm : S → Type 0) (steady : Steady t pending Calm) where
  no_fuel : (n : ℕ) (got : Bytes) (s : S) → receive_loop t zero n got s ≡ none
  unfolding receive_loop
  no_fuel n got s = refl

  loop_succeeds :
      (fuel n : ℕ) (got : Bytes) (s : S) (r : Received S)
      → Calm s
      → n ≤ length got + length (pending s)
      → receive_loop t fuel n got s ≡ some r
      → (r.status ≡ success) × Calm r.state
  loop_succeeds zero n got s r calm enough e =
      let empty : none ≡ some r = sym (no_fuel n got s) ∙ e in cc
  loop_succeeds (suc fuel) n got s r calm enough e = elim (Bool-cases (leb n (length got))) [
    | inl done ↦
        let same : some (record { status = success; bytes = got; state = s }) ≡ some r =
          sym (round_done t pending budget c fuel n got s done) ∙ e in
        let whole : record { status = success; bytes = got; state = s } ≡ r = cc in
        (sym (ap (λ x. x.status) whole), subst (λ x. Calm x.state) whole calm)
    | inr todo ↦
        let (good, some_read, still) =
          steady.answers (n - length got) s calm (ground arith) (ground arith) in
        let q = t.receive_raw (n - length got) s in
        loop_succeeds fuel n (got ++ q.bytes) q.state r still
          (omega (
            arith,
            length-append got q.bytes,
            length-append q.bytes (pending q.state),
            ap (length {A = ℕ}) (c.stream (n - length got) s),
          ))
          (sym (round_success t pending budget c fuel n got s todo (success→is_success good)) ∙ e)
  ]

  all_of_loop :
      (fuel n : ℕ) (s : S) → n < 2 ^ 63 → receive_all t fuel n s ≡ receive_loop t fuel n [] s
  unfolding receive_all
  all_of_loop fuel n s h = rw (le→leb_false n h)

  -- What succeeded, with all its bytes, and can go on.
  abbrev pub Succeeds : ℕ → S → Received S → Type 0
  Succeeds n s r = (r.status ≡ success) × Calm r.state × Delivers pending budget n s r

  -- On a socket whose reads go well as long as bytes are pending, and with enough fuel, `receive_all` of no more bytes than
  -- are pending succeeds, delivers them all, and the reads after it go well too.
  pub receive_all-Succeeds :
      (fuel n : ℕ) (s : S)
      → Calm s
      → n ≤ length (pending s)
      → n < 2 ^ 63
      → n + budget s < fuel
      → (r : Received S) × (receive_all t fuel n s ≡ some r) × Succeeds n s r
  receive_all-Succeeds fuel n s calm enough small f =
      let (r, e, d) = receive_all-Delivers t pending budget c fuel n s small f in
      let (good, still) =
        loop_succeeds fuel n [] s r calm (omega arith) (sym (all_of_loop fuel n s small) ∙ e) in
      (r, e, (good, still, d))

  rest_at_once :
      (fuel n : ℕ) (s : S) {r : Received S}
      → receive_all t fuel n s ≡ some r
      → r.status ≡ success
      → receive_rest t (suc fuel) n s ≡ some r
  unfolding receive_rest
  rest_at_once fuel n s {r = r} e h = rw (e, receive_rest, h)

  -- The same of the retried read.
  pub receive_rest-Succeeds :
      (fuel n : ℕ) (s : S)
      → Calm s
      → n ≤ length (pending s)
      → n < 2 ^ 63
      → n + budget s + 1 < fuel
      → (r : Received S) × (receive_rest t fuel n s ≡ some r) × Succeeds n s r
  receive_rest-Succeeds zero n s calm enough small f = absurd (omega arith)
  receive_rest-Succeeds (suc fuel) n s calm enough small f =
      let (r, e, q) = receive_all-Succeeds fuel n s calm enough small (omega arith) in
      (r, rest_at_once fuel n s e q.0, q)
