-- ===== src/TcpSocket/Steady.antt =====
-- A TCP socket whose kernel has bytes to give, possibly after interruptions.
use frnetlib.Base.{
  ℕ, zero, suc, take, ◌≤◌, ◌<◌, ◌≡◌, refl, arith, List, [], ◌∷◌, Bytes, All, drop, length, false,
  ◌==◌,
}
use frnetlib.Socket.{success}
use frnetlib.Socket.Steady.{Steady}
use frnetlib.TcpSocket.{
  Arrival, chunk, closed, interrupted, broken, TcpSocket, put_back, receive_raw, transport,
}
use frnetlib.TcpSocket.Stream.{arriving, pending}

-- Bytes, or an interruption.
abbrev pub IsCalm : Arrival → Type 0
IsCalm (chunk b bs) = Unit
IsCalm interrupted = Unit
IsCalm _ = ⊥

abbrev pub Calm : TcpSocket → Type 0
Calm s = All IsCalm s.arrivals

put_back-IsCalm : (bs : Bytes) (es : List Arrival) → All IsCalm es → All IsCalm (put_back bs es)
put_back-IsCalm [] es h = h
put_back-IsCalm (b ∷ bs) es h = (tt, h)

module _ (n : ℕ) (s : TcpSocket) (asked : 0 < n) where
  some_asked : (n == 0) ≡ false
  some_asked = ground arith

  some_taken : (b : ℕ) (bs : Bytes) → 1 ≤ length (take n (b ∷ bs))
  some_taken b bs = some_of n asked
    where
      some_of : (m : ℕ) → 0 < m → 1 ≤ length (take m (b ∷ bs))
      some_of zero k = absurd (omega arith)
      some_of (suc m) k = omega arith

  receive_raw-Calm :
      (es : List Arrival)
      → All IsCalm es
      → 1 ≤ length (arriving es)
      → ((receive_raw n s es).status ≡ success)
        × (1 ≤ length (receive_raw n s es).bytes)
        × Calm (receive_raw n s es).state
  unfolding receive_raw
  receive_raw-Calm [] h some = absurd (omega arith)
  receive_raw-Calm (chunk b bs ∷ es) h some =
      rw some_asked (refl, some_taken b bs, put_back-IsCalm (drop n (b ∷ bs)) es h.1)
  receive_raw-Calm (closed ∷ es) h some = absurd h.0
  receive_raw-Calm (Arrival.blocks ∷ es) h some = absurd h.0
  receive_raw-Calm (interrupted ∷ es) h some = receive_raw-Calm es h.1 some
  receive_raw-Calm (broken ∷ es) h some = absurd h.0

-- As long as the kernel answers with bytes or interruptions alone, and one byte at least is asked for, `receive_raw`
-- succeeds and gives one byte at least whenever one is pending, and the kernel's answers after it are bytes or
-- interruptions alone too.
pub receive_raw-Steady : (limit : ℕ) → Steady (transport limit) pending Calm
receive_raw-Steady limit = record {
  answers = λ n s h asked some. receive_raw-Calm n s asked s.arrivals h some;
}
