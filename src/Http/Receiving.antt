-- ===== src/Http/Receiving.antt =====
-- What `receive` leaves behind, where `parse` does not mind how the bytes are cut.
use frnetlib.Base.{
  ℕ, zero, suc, ◌+◌, ◌≤◌, ◌<◌, ◌≡◌, ◌⊎◌, inl, inr, refl, sym, ap, ◌∙◌, arith, true, false, [], ◌∷◌,
  ◌++◌, some, Bytes, ◌==◌, length, length-append, append_assoc, append-nil, Bool-cases,
}
use mathlib.Core.Path.{subst}
use frnetlib.Socket.{disconnected, not_enough_data, is_success, is_would_block, Received, Transport}
use frnetlib.Socket.Contract.{Reads, is_success→success, is_would_block→would_block}
use frnetlib.Http.Transfer.{
  Outcome, returned, thrown, HttpReceived, chunk_size, is_more, receive_from, receive,
}

pub is_more→more : (o : Outcome) → is_more o ≡ true → o ≡ returned not_enough_data
is_more→more (returned not_enough_data) h = refl
is_more→more (returned _) h = cc
is_more→more thrown h = cc

module _ {H S : Type 0} (t : Transport S) (parse : Bytes → H → Outcome × H) (pending : S → Bytes)
    (budget : S → ℕ) (c : Reads t pending budget) where
  module _ (fuel total : ℕ) (last : Outcome) (h : H) (s : S) where
    abbrev round : Received S
    round = t.receive_raw chunk_size s

    abbrev parsed : Outcome × H
    parsed = parse round.bytes h

    abbrev stopped : Outcome → H → HttpReceived H S
    stopped o k = record { outcome = o; http = k; state = round.state }

    went_on :
        is_success round.status ≡ true
        → is_more parsed.0 ≡ true
        → receive_from t parse (suc fuel) total last h s
          ≡ receive_from t parse fuel (total + length round.bytes) parsed.0 parsed.1 round.state
    unfolding receive_from
    went_on e f = rw (e, f)

    whole :
        is_success round.status ≡ true
        → is_more parsed.0 ≡ false
        → receive_from t parse (suc fuel) total last h s ≡ some (stopped parsed.0 parsed.1)
    unfolding receive_from
    whole e f = rw (e, f)

    nothing :
        is_success round.status ≡ false
        → (total + length round.bytes == 0) ≡ true
        → receive_from t parse (suc fuel) total last h s ≡ some (stopped (returned round.status) h)
    unfolding receive_from
    nothing e f = rw (e, f)

    waited :
        is_success round.status ≡ false
        → (total + length round.bytes == 0) ≡ false
        → is_would_block round.status ≡ true
        → is_more last ≡ true
        → receive_from t parse (suc fuel) total last h s
          ≡ receive_from t parse fuel (total + length round.bytes) last h round.state
    unfolding receive_from
    waited e f g i = rw (e, f, g, i)

    cut_off :
        is_success round.status ≡ false
        → (total + length round.bytes == 0) ≡ false
        → is_would_block round.status ≡ false
        → receive_from t parse (suc fuel) total last h s ≡ some (stopped (returned disconnected) h)
    unfolding receive_from
    cut_off e f g = rw (e, f, g)

  -- From the state `h0`, and while a part of `stream` was read, `parse` does not mind the cut behind that part.
  abbrev pub Joins : H → Bytes → Type 0
  Joins h0 stream =
      (a b rest : Bytes) (h : H)
      → stream ≡ a ++ (b ++ rest)
      → parse a h0 ≡ (returned not_enough_data, h)
      → parse b h ≡ parse (a ++ b) h0

  -- The states of the socket from `s` on, as `receive` reads from it.
  pub data Reached (s : S) : S → Type 0 where
    at_first : Reached s s
    read_on : (s' : S) → Reached s s' → Reached s (t.receive_raw chunk_size s').state

  -- The read that was the last one, with the socket in state `s'` before it, failed.
  pub record FailedRead (s s' : S) (r : HttpReceived H S) : Type 0 where
    pub reached : Reached s s'
    pub is_bad : is_success (t.receive_raw chunk_size s').status ≡ false
    pub last : r.state ≡ (t.receive_raw chunk_size s').state

  -- How `receive` can end, from the state `s` of the socket and having read `bytes`: with the result of `parse` for them
  -- all; with the status of a read that failed, and nothing read; or, with a part of a message read, because a read
  -- failed with another status than WouldBlock.
  pub data Ending (h0 : H) (s : S) (bytes : Bytes) (r : HttpReceived H S) : Type 0 where
    parsed_all :
        parse bytes h0 ≡ (r.outcome, r.http) → is_more r.outcome ≡ false → Ending h0 s bytes r
    nothing_read :
        (s' : S)
        → FailedRead s s' r
        → bytes ≡ []
        → r.http ≡ h0
        → r.outcome ≡ returned (t.receive_raw chunk_size s').status
        → Ending h0 s bytes r
    disconnected_within :
        (s' : S)
        → FailedRead s s' r
        → is_would_block (t.receive_raw chunk_size s').status ≡ false
        → 1 ≤ length bytes
        → parse bytes h0 ≡ (returned not_enough_data, r.http)
        → r.outcome ≡ returned disconnected
        → Ending h0 s bytes r

  -- What has been fed to `parse` so far.
  abbrev SoFar : H → Bytes → Outcome → H → Type 0
  SoFar h0 got last h =
      ((got ≡ []) × (h ≡ h0))
      ⊎ ((1 ≤ length got) × (parse got h0 ≡ (last, h)) × (last ≡ returned not_enough_data))

  abbrev EndedOn : H → S → Bytes → HttpReceived H S → Type 0
  EndedOn h0 s stream r =
      (bytes : Bytes) × (stream ≡ bytes ++ pending r.state) × Ending h0 s bytes r

  abbrev pub Ended : H → S → HttpReceived H S → Type 0
  Ended h0 s r = EndedOn h0 s (pending s) r

  fed :
      (h0 h : H) (got stream : Bytes) (last : Outcome) (s : S)
      → Joins h0 stream
      → stream ≡ got ++ pending s
      → SoFar h0 got last h
      → parse (t.receive_raw chunk_size s).bytes h
        ≡ parse (got ++ (t.receive_raw chunk_size s).bytes) h0
  fed h0 h got stream last s joins e (inl (empty, same)) =
      ap (parse _) same ∙ ap (λ x. parse (x ++ (t.receive_raw chunk_size s).bytes) h0) (sym empty)
  fed h0 h got stream last s joins e (inr (some_got, p, q)) =
      let r = t.receive_raw chunk_size s in
      joins got r.bytes (pending r.state) h (e ∙ ap (◌++◌ got) (c.stream chunk_size s))
        (p ∙ ap (λ o. (o, h)) q)

  receive_from_lem :
      (fuel : ℕ) (h0 h : H) (got stream : Bytes) (last : Outcome) (s0 s : S)
      → Reached s0 s
      → Joins h0 stream
      → stream ≡ got ++ pending s
      → SoFar h0 got last h
      → length (pending s) + budget s < fuel
      → (r : HttpReceived H S) × (receive_from t parse fuel (length got) last h s ≡ some r)
        × EndedOn h0 s0 stream r
  receive_from_lem zero h0 h got stream last s0 s reached joins e so f = absurd (omega arith)
  receive_from_lem (suc fuel) h0 h got stream last s0 s reached joins e so f =
      let r = t.receive_raw chunk_size s in
      let o = parse r.bytes h in
      let same : o ≡ parse (got ++ r.bytes) h0 = fed h0 h got stream last s joins e so in
      let split : stream ≡ (got ++ r.bytes) ++ pending r.state =
        e
        ∙ ap (◌++◌ got) (c.stream chunk_size s)
        ∙ sym (append_assoc got r.bytes (pending r.state)) in
      let size : length (pending s) ≡ length r.bytes + length (pending r.state) =
        ap (length {A = ℕ}) (c.stream chunk_size s) ∙ length-append r.bytes (pending r.state) in
      let sum : length (got ++ r.bytes) ≡ length got + length r.bytes = length-append got r.bytes in
      elim (Bool-cases (is_success r.status)) [
        | inl good ↦
            let one : 1 ≤ length r.bytes =
              c.taken chunk_size s (is_success→success _ good) (omega arith) in
            elim (Bool-cases (is_more o.0)) [
              | inl more ↦
                  let (x, ex, p) =
                    receive_from_lem fuel h0 o.1 (got ++ r.bytes) stream o.0 s0 r.state
                      (read_on s reached) joins split
                      (inr (omega (arith, sum), sym same, is_more→more o.0 more))
                      (omega (arith, size, c.budget_kept chunk_size s)) in
                  (
                    x,
                    went_on fuel (length got) last h s good more
                        ∙ ap (λ n. receive_from t parse fuel n o.0 o.1 r.state) (sym sum)
                        ∙ ex,
                    p,
                  )
              | inr done ↦ (
                stopped fuel (length got) last h s o.0 o.1,
                whole fuel (length got) last h s good done,
                (got ++ r.bytes, split, parsed_all (sym same) done),
              )
            ]
        | inr bad ↦
            let none_read : r.bytes ≡ [] = c.failed chunk_size s bad in
            elim (Bool-cases (length got + length r.bytes == 0)) [
              | inl empty ↦ (
                stopped fuel (length got) last h s (returned r.status) h,
                nothing fuel (length got) last h s bad empty,
                (
                  got ++ r.bytes,
                  split,
                  nothing_lem h0 h got last s0 s so reached bad (ground arith),
                ),
              )
              | inr some_got ↦ elim (Bool-cases (is_would_block r.status)) [
                | inl blocked ↦
                    let still =
                      pending_more h0 h got last so
                        (omega (arith, ap (length {A = ℕ}) none_read, sum, nonzero _ some_got)) in
                    let (x, ex, p) =
                      receive_from_lem fuel h0 h (got ++ r.bytes) stream last s0 r.state
                        (read_on s reached) joins split
                        (subst (λ g. SoFar h0 g last h)
                          (sym (ap (◌++◌ got) none_read ∙ append-nil got)) so)
                        (omega (
                          arith,
                          size,
                          c.budget_spent chunk_size s (is_would_block→would_block _ blocked),
                        )) in
                    (
                      x,
                      waited fuel (length got) last h s bad some_got blocked still
                          ∙ ap (λ n. receive_from t parse fuel n last h r.state) (sym sum)
                          ∙ ex,
                      p,
                    )
                | inr broken ↦ (
                  stopped fuel (length got) last h s (returned disconnected) h,
                  cut_off fuel (length got) last h s bad some_got broken,
                  (
                    got ++ r.bytes,
                    split,
                    disconnected_within s (record { reached = reached; is_bad = bad; last = refl })
                        broken (omega (arith, sum, nonzero _ some_got))
                        (asked h0 h got last r.bytes so none_read
                          (omega (arith, ap (length {A = ℕ}) none_read, sum, nonzero _ some_got)))
                        refl,
                  ),
                )
              ]
            ]
      ]
    where
      nonzero : (n : ℕ) → (n == 0) ≡ false → 0 < n
      nonzero n x = ground arith

      asked :
          (h0 h : H) (got : Bytes) (last : Outcome) (bs : Bytes)
          → SoFar h0 got last h
          → bs ≡ []
          → 0 < length got
          → parse (got ++ bs) h0 ≡ (returned not_enough_data, h)
      asked h0 h got last bs (inl (empty, k)) none_read l =
          absurd (omega (arith, ap (length {A = ℕ}) empty))
      asked h0 h got last bs (inr (k, p, q)) none_read l =
          ap (λ x. parse x h0) (ap (◌++◌ got) none_read ∙ append-nil got) ∙ p ∙ ap (λ x. (x, h)) q

      pending_more :
          (h0 h : H) (got : Bytes) (last : Outcome)
          → SoFar h0 got last h
          → 0 < length got
          → is_more last ≡ true
      pending_more h0 h got last (inl (empty, k)) l =
          absurd (omega (arith, ap (length {A = ℕ}) empty))
      pending_more h0 h got last (inr (k, p, q)) l = ap is_more q

      nothing_lem :
          (h0 h : H) (got : Bytes) (last : Outcome) (s0 s : S)
          → SoFar h0 got last h
          → Reached s0 s
          → is_success (t.receive_raw chunk_size s).status ≡ false
          → length got + length (t.receive_raw chunk_size s).bytes ≡ 0
          → Ending h0 s0 (got ++ (t.receive_raw chunk_size s).bytes) (record {
            outcome = returned (t.receive_raw chunk_size s).status;
            http = h;
            state = (t.receive_raw chunk_size s).state;
          })
      nothing_lem h0 h got last s0 s (inl (empty, same)) reached bad l =
          let bs = (t.receive_raw chunk_size s).bytes in
          nothing_read s (record { reached = reached; is_bad = bad; last = refl })
            (nil_of (got ++ bs) (omega (arith, length-append got bs))) same refl
        where
          nil_of : (x : Bytes) → length x ≡ 0 → x ≡ []
          nil_of [] k = refl
          nil_of (y ∷ ys) k = absurd (omega arith)
      nothing_lem h0 h got last s0 s (inr (k, p, q)) reached bad l = absurd (omega arith)

  -- `receive` ends, for a `parse` that does not mind how the bytes are cut.
  pub receive-Ended :
      (fuel : ℕ) (junk : Outcome) (h0 : H) (s : S)
      → Joins h0 (pending s)
      → length (pending s) + budget s < fuel
      → (r : HttpReceived H S) × (receive t parse fuel junk h0 s ≡ some r) × Ended h0 s r
  unfolding receive
  receive-Ended fuel junk h0 s joins f =
      receive_from_lem fuel h0 h0 [] (pending s) junk s s at_first joins refl (inl (refl, refl)) f
