-- ===== src/Socks/Recv.antt =====
-- class RecvAll of zprocess/socks/server.py, as a connection makes it: with a timeout, a self-pipe, and
-- callbacks that all end the connection. What select and recv report is a list.
pub mod Exact
use zprocess.Base.{
  ℕ, Bool, true, false, List, [], ◌∷◌, ◌++◌, leb, if◌then◌else◌, length, take, drop,
}
use zprocess.Socks.{Reason, interrupted, Error, waiting, connection_ended, Result, ok, err}

-- The socket is ready, with the next bytes, where none mean that it is closed, and the self-pipe may be
-- ready too; the self-pipe alone is ready; or nothing is within the timeout.
pub data Event : Type 0 where
  received : List ℕ → Bool → Event
  piped silent : Event

-- `data` is what has been received and not yet returned.
pub record Socket : Type 0 where
  pub buffer : List ℕ
  pub events : List Event

pub record Callbacks : Type 0 where
  pub closed : Reason
  pub timed_out : Reason

-- the end of the call, with the bytes received so far
abbrev pub enough : ℕ → List ℕ → List Event → Result (List ℕ) × Socket → Result (List ℕ) × Socket
enough n buffer events rest =
    if leb n (length buffer)
    then (ok (take n buffer), record { buffer = drop n buffer; events = events })
    else rest

abbrev pub ended : Reason → List ℕ → List Event → Result (List ℕ) × Socket
ended reason buffer events =
    (err (connection_ended reason), record { buffer = buffer; events = events })

-- the `while` loop of `RecvAll.__call__`
unfoldable pub recv_loop : Callbacks → ℕ → List ℕ → List Event → Result (List ℕ) × Socket
recv_loop callbacks n buffer [] =
    enough n buffer [] (err waiting, record { buffer = buffer; events = [] })
recv_loop callbacks n buffer (received [] pipe ∷ events) =
    enough n buffer (received [] pipe ∷ events) (ended callbacks.closed buffer events)
recv_loop callbacks n buffer (received (b ∷ bs) true ∷ events) =
    enough n buffer (received (b ∷ bs) true ∷ events)
      (ended interrupted (buffer ++ (b ∷ bs)) events)
recv_loop callbacks n buffer (received (b ∷ bs) false ∷ events) =
    let rest = recv_loop callbacks n (buffer ++ (b ∷ bs)) events in
    enough n buffer (received (b ∷ bs) false ∷ events) rest
recv_loop callbacks n buffer (piped ∷ events) =
    enough n buffer (piped ∷ events) (ended interrupted buffer events)
recv_loop callbacks n buffer (silent ∷ events) =
    enough n buffer (silent ∷ events) (ended callbacks.timed_out buffer events)

-- `RecvAll.__call__`
unfoldable pub recv_all : Callbacks → ℕ → Socket → Result (List ℕ) × Socket
recv_all callbacks n socket = recv_loop callbacks n socket.buffer socket.events
