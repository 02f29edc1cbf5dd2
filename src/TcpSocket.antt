-- ===== src/TcpSocket.antt =====
-- src/TcpSocket.cpp: reading and writing through the kernel's `recv` and `send`. What these calls answer
-- is the environment's choice, and enters as lists of answers.
pub mod Stream
pub mod Steady
mod Tests
use frnetlib.Base.{
  ℕ, zero, suc, ◌+◌, ◌-◌, Bool, true, false, List, [], ◌∷◌, ◌++◌, Bytes, ltb, ◌==◌, if◌then◌else◌,
  length, take, drop, min,
}
use frnetlib.Socket.{
  Status, success, disconnected, would_block, timeout, send_error, receive_error, Received, Sent,
  Transport,
}

-- What `recv` has to answer: bytes that arrived (`chunk b bs` is one at least), a connection closed by the
-- peer, or -1 with `errno` EWOULDBLOCK, EINTR or another.
pub data Arrival : Type 0 where
  chunk : ℕ → Bytes → Arrival
  closed : Arrival
  blocks : Arrival
  interrupted : Arrival
  broken : Arrival

-- What `send` has to answer: how many bytes it can take, or -1 with `errno` as above.
pub data Answer : Type 0 where
  takes : ℕ → Answer
  blocks : Answer
  interrupted : Answer
  broken : Answer

-- `outgoing` are the bytes handed to the kernel so far.
pub record TcpSocket : Type 0 where
  pub is_blocking : Bool
  pub arrivals : List Arrival
  pub answers : List Answer
  pub outgoing : Bytes

-- What is left of a chunk stays in front.
abbrev pub put_back : Bytes → List Arrival → List Arrival
put_back [] es = es
put_back (b ∷ bs) es = chunk b bs ∷ es

abbrev pub blocked_status : Bool → Status
blocked_status is_blocking = if is_blocking then timeout else would_block

-- The loop of `receive_raw`. Past the last answer `recv` returns 0, as on a closed connection; so it does when
-- it is asked for no byte.
unfoldable pub receive_raw : ℕ → TcpSocket → List Arrival → Received TcpSocket
receive_raw n s [] = record {
  status = disconnected;
  bytes = [];
  state = record s { arrivals = [] };
}
receive_raw n s (chunk b bs ∷ es) =
    if n == 0
    then record {
      status = disconnected;
      bytes = [];
      state = record s { arrivals = chunk b bs ∷ es };
    }
    else record {
      status = success;
      bytes = take n (b ∷ bs);
      state = record s { arrivals = put_back (drop n (b ∷ bs)) es };
    }
receive_raw n s (closed ∷ es) = record {
  status = disconnected;
  bytes = [];
  state = record s { arrivals = es };
}
receive_raw n s (blocks ∷ es) = record {
  status = blocked_status s.is_blocking;
  bytes = [];
  state = record s { arrivals = es };
}
receive_raw n s (interrupted ∷ es) = receive_raw n s es
receive_raw n s (broken ∷ es) = record {
  status = receive_error;
  bytes = [];
  state = record s { arrivals = es };
}

-- The loop of `send_raw`: `sent` bytes are sent, and the answers that `send` has are these. Past the last one
-- it takes all that it is given.
unfoldable pub send_raw : Bytes → ℕ → TcpSocket → List Answer → Sent TcpSocket
send_raw bs sent s [] =
    if ltb sent (length bs)
    then record {
      status = success;
      sent = length bs;
      state = record s { answers = []; outgoing = s.outgoing ++ drop sent bs };
    }
    else record { status = success; sent = sent; state = record s { answers = [] } }
send_raw bs sent s (takes k ∷ es) =
    let m = min k (length bs - sent) in
    let more =
      send_raw bs (sent + m) (record s { outgoing = s.outgoing ++ take m (drop sent bs) }) es in
    if ltb sent (length bs)
    then more
    else record { status = success; sent = sent; state = record s { answers = takes k ∷ es } }
send_raw bs sent s (blocks ∷ es) =
    if ltb sent (length bs)
    then record {
      status = blocked_status s.is_blocking;
      sent = sent;
      state = record s { answers = es };
    }
    else record { status = success; sent = sent; state = record s { answers = blocks ∷ es } }
send_raw bs sent s (interrupted ∷ es) =
    let more = send_raw bs sent s es in
    if ltb sent (length bs)
    then more
    else record { status = success; sent = sent; state = record s { answers = interrupted ∷ es } }
send_raw bs sent s (broken ∷ es) =
    if ltb sent (length bs)
    then record { status = send_error; sent = sent; state = record s { answers = es } }
    else record { status = success; sent = sent; state = record s { answers = broken ∷ es } }

abbrev pub transport : ℕ → Transport TcpSocket
transport limit = record {
  receive_raw = λ n s. receive_raw n s s.arrivals;
  send_raw = λ bs sent s. send_raw bs sent s s.answers;
  max_receive_size = limit;
}
