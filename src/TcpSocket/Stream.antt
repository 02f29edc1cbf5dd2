-- ===== src/TcpSocket/Stream.antt =====
-- A TCP socket keeps what the loops over sockets rely on.
use frnetlib.Base.{
  ℕ, suc, ◌+◌, ◌-◌, ◌≤◌, ◌<◌, ◌≡◌, refl, sym, ap, ◌∙◌, arith, false, List, [], ◌∷◌, ◌++◌, Bytes,
  ltb, ◌==◌, length, take, drop, min, append_assoc, append-nil, take-append-drop, take_all,
  length-take, length-drop, Bool-cases, inl, inr,
}
use frnetlib.Socket.{success, would_block, is_success, Sent}
use frnetlib.Socket.Contract.{Reads}
use frnetlib.Socket.Sending.{Writes, parts}
use frnetlib.TcpSocket.{
  Arrival, chunk, closed, interrupted, broken, Answer, takes, TcpSocket, put_back, receive_raw,
  send_raw, transport,
}

-- The bytes that have yet to be read, and how many answers there are.
abbrev pub arriving : List Arrival → Bytes
arriving [] = []
arriving (chunk b bs ∷ es) = b ∷ (bs ++ arriving es)
arriving (closed ∷ es) = arriving es
arriving (Arrival.blocks ∷ es) = arriving es
arriving (interrupted ∷ es) = arriving es
arriving (broken ∷ es) = arriving es

abbrev pub pending : TcpSocket → Bytes
pending s = arriving s.arrivals

abbrev pub wire : TcpSocket → Bytes
wire s = s.outgoing

abbrev pub read_budget : TcpSocket → ℕ
read_budget s = length s.arrivals

abbrev pub write_budget : TcpSocket → ℕ
write_budget s = length s.answers

arriving-put_back : (bs : Bytes) (es : List Arrival) → arriving (put_back bs es) ≡ bs ++ arriving es
arriving-put_back [] es = refl
arriving-put_back (b ∷ bs) es = refl

length-put_back : (bs : Bytes) (es : List Arrival) → length (put_back bs es) ≤ suc (length es)
length-put_back [] es = omega arith
length-put_back (b ∷ bs) es = omega arith

module _ (n : ℕ) (s : TcpSocket) where
  receive_raw-stream :
      (es : List Arrival)
      → arriving es ≡ (receive_raw n s es).bytes ++ pending (receive_raw n s es).state
  unfolding receive_raw
  receive_raw-stream [] = refl
  receive_raw-stream (chunk b bs ∷ es) = elim (Bool-cases (n == 0)) [
    | inl e ↦ rw e
    | inr e ↦
        rw (e, arriving-put_back (drop n (b ∷ bs)) es)
          (ap (λ t. t ++ arriving es) (sym (take-append-drop n (b ∷ bs)))
            ∙ append_assoc (take n (b ∷ bs)) (drop n (b ∷ bs)) (arriving es))
  ]
  receive_raw-stream (closed ∷ es) = refl
  receive_raw-stream (Arrival.blocks ∷ es) = refl
  receive_raw-stream (interrupted ∷ es) = receive_raw-stream es
  receive_raw-stream (broken ∷ es) = refl

  receive_raw-bounded : (es : List Arrival) → length (receive_raw n s es).bytes ≤ n
  unfolding receive_raw
  receive_raw-bounded (chunk b bs ∷ es) = ground (arith, length-take n (b ∷ bs))
  receive_raw-bounded (interrupted ∷ es) = receive_raw-bounded es
  receive_raw-bounded _ = omega arith

  receive_raw-taken :
      (es : List Arrival)
      → (receive_raw n s es).status ≡ success
      → 0 < n
      → 1 ≤ length (receive_raw n s es).bytes
  unfolding receive_raw
  receive_raw-taken (chunk b bs ∷ es) e h = ground (arith, length-take n (b ∷ bs))
  receive_raw-taken (interrupted ∷ es) e h = receive_raw-taken es e h
  receive_raw-taken _ e h = ground arith

  receive_raw-failed :
      (es : List Arrival)
      → is_success (receive_raw n s es).status ≡ false
      → (receive_raw n s es).bytes ≡ []
  unfolding receive_raw
  receive_raw-failed (chunk b bs ∷ es) e = ground arith
  receive_raw-failed (interrupted ∷ es) e = receive_raw-failed es e
  receive_raw-failed _ e = refl

  receive_raw-budget_kept : (es : List Arrival) → read_budget (receive_raw n s es).state ≤ length es
  unfolding receive_raw
  receive_raw-budget_kept (chunk b bs ∷ es) = ground (arith, length-put_back (drop n (b ∷ bs)) es)
  receive_raw-budget_kept (interrupted ∷ es) = omega (arith, receive_raw-budget_kept es)
  receive_raw-budget_kept _ = omega arith

  receive_raw-budget_spent :
      (es : List Arrival)
      → (receive_raw n s es).status ≡ would_block
      → read_budget (receive_raw n s es).state < length es
  unfolding receive_raw
  receive_raw-budget_spent (chunk b bs ∷ es) e = ground arith
  receive_raw-budget_spent (interrupted ∷ es) e = omega (arith, receive_raw-budget_spent es e)
  receive_raw-budget_spent [] e = cc
  receive_raw-budget_spent _ e = ground arith

-- Whatever the kernel answers, `receive_raw` takes bytes off the front of the stream, in order, and none when
-- it fails.
pub receive_raw-Reads : (limit : ℕ) → Reads (transport limit) pending read_budget
receive_raw-Reads limit = record {
  stream = λ n s. receive_raw-stream n s s.arrivals;
  bounded = λ n s. receive_raw-bounded n s s.arrivals;
  taken = λ n s. receive_raw-taken n s s.arrivals;
  failed = λ n s. receive_raw-failed n s s.arrivals;
  budget_kept = λ n s. receive_raw-budget_kept n s s.arrivals;
  budget_spent = λ n s. receive_raw-budget_spent n s s.arrivals;
}

-- What one call of `send_raw` does, from the bytes sent and the answers that it starts with.
record SendPost (bs : Bytes) (sent : ℕ) (s : TcpSocket) (es : List Answer) (r : Sent TcpSocket)
    : Type 0 where
  reached : (sent ≤ r.sent) × (r.sent ≤ length bs)
  on_wire : wire r.state ≡ wire s ++ take (r.sent - sent) (drop sent bs)
  finished : r.status ≡ success → r.sent ≡ length bs
  spent : r.status ≡ would_block → write_budget r.state < length es

-- Nothing more is sent.
nothing_sent :
    (bs : Bytes) (sent : ℕ) (s : TcpSocket) → wire s ≡ wire s ++ take (sent - sent) (drop sent bs)
nothing_sent bs sent s = let e : sent - sent ≡ 0 = omega arith in rw e (sym (append-nil (wire s)))

-- All the rest is sent.
rest_sent :
    (bs : Bytes) (sent : ℕ) (s : TcpSocket)
    → wire s ++ drop sent bs ≡ wire s ++ take (length bs - sent) (drop sent bs)
rest_sent bs sent s =
    ap (◌++◌ (wire s)) (sym (take_all (drop sent bs) _ (omega (arith, length-drop sent bs))))

-- An answer that takes `k` bytes, and then the rest of the loop.
SendPost-later :
    (bs : Bytes) (sent k : ℕ) (s : TcpSocket) (es : List Answer) (r : Sent TcpSocket)
    → (let m : ℕ = min k (length bs - sent) in
        SendPost bs (sent + m) (record s { outgoing = s.outgoing ++ take m (drop sent bs) }) es r)
    → SendPost bs sent s (takes k ∷ es) r
SendPost-later bs sent k s es r q =
    let m : ℕ = min k (length bs - sent) in
    let e : sent + m - sent ≡ m = omega arith in
    record {
      reached = omega (arith, q.reached);
      on_wire =
          q.on_wire
          ∙ append_assoc (wire s) _ _
          ∙ ap (◌++◌ (wire s))
              (rw e at (parts sent (sent + m) r.sent bs (omega arith) q.reached.0));
      finished = q.finished;
      spent = λ h. omega (arith, q.spent h);
    }

send_raw-SendPost :
    (bs : Bytes) (sent : ℕ) (s : TcpSocket) (es : List Answer)
    → sent ≤ length bs
    → SendPost bs sent s es (send_raw bs sent s es)
unfolding send_raw
send_raw-SendPost bs sent s [] h = ground (arith, nothing_sent bs sent s, rest_sent bs sent s)
send_raw-SendPost bs sent s (takes k ∷ es) h = elim (Bool-cases (ltb sent (length bs))) [
  | inl e ↦ rw e (
      SendPost-later bs sent k s es _ (
        send_raw-SendPost bs (sent + min k (length bs - sent))
          (record s { outgoing = s.outgoing ++ take (min k (length bs - sent)) (drop sent bs) }) es
          (omega arith)))
  | inr e ↦ rw e (ground (arith, nothing_sent bs sent s))
]
send_raw-SendPost bs sent s (Answer.blocks ∷ es) h = ground (arith, nothing_sent bs sent s)
send_raw-SendPost bs sent s (Answer.interrupted ∷ es) h =
    ground (arith, nothing_sent bs sent s, send_raw-SendPost bs sent s es h)
send_raw-SendPost bs sent s (Answer.broken ∷ es) h = ground (arith, nothing_sent bs sent s)

-- Whatever the kernel answers, `send_raw` hands over the bytes from `sent` on, in order, up to the new value of
-- `sent`, so that a later call goes on where it stopped; it reports success only at the end.
pub send_raw-Writes : (limit : ℕ) → Writes (transport limit) wire write_budget
send_raw-Writes limit = record {
  goes_on = λ bs sent s h. (send_raw-SendPost bs sent s s.answers h).reached;
  stream = λ bs sent s h. (send_raw-SendPost bs sent s s.answers h).on_wire;
  finished = λ bs sent s h. (send_raw-SendPost bs sent s s.answers h).finished;
  budget_spent = λ bs sent s h. (send_raw-SendPost bs sent s s.answers h).spent;
}
