-- ===== src/Messages/Sender.antt =====
-- class _Sender of zprocess/clientserver.py: sends a message from the socket of the calling thread and,
-- unless it only pushes, waits for the reply. What connecting and the polls report is given; hosts,
-- their addresses and reasons are numbers, and times are in seconds.
pub mod Calls
use zprocess.Base.{
  ℕ, ◌*◌, Bool, true, false, not, ◌&&◌, ◌||◌, Option, none, some, List, [], ◌∷◌, ◌==◌,
  if◌then◌else◌,
}
use zprocess.Messages.Data
use zprocess.Messages.Data.{
  Dtype, invalid, Value, null, exception, Result, ok, err, typecheck_or_convert_data,
}
use zprocess.Process.Interruptor
use zprocess.Process.Interruptor.{Interruptor, subscribe, unsubscribe}
use zprocess.Process.Queues.{
  Poll, nothing, interrupted, accepted, refused, unsendable, deadline_of, remaining, timeout_ms,
}

-- `sock` is whether the thread has a socket, connected to `host` and `port`; `polled` has the
-- timeouts of the polls in ms and `sent` the messages, the newest first.
pub record Sender : Type 0 where
  pub dtype : Dtype
  pub push_only : Bool
  pub sock : Bool
  pub host : ℕ
  pub port : ℕ
  pub polled : List (Option ℕ)
  pub sent : List Value

pub data Error : Type 0 where
  not_connected invalid_dtype timed_out : Error
  data_error : Data.Error → Error
  interrupted_by server_raised : ℕ → Error
  interruptor_error : Interruptor.Error → Error
  -- of `gethostbyname(host)` and of `int(port)`
  host_error port_error : Error
  -- of the socket's method to send, other than a ZMQError, and of its method to receive
  send_error receive_error : Error
  unbound_local : Error

-- `waiting`: the reports are used up and the call still polls, or it blocks in the interruptor.
pub data Outcome : Type 0 where
  returned : Value → Outcome
  raised : Error → Outcome
  waiting : Outcome

-- What the poll for a reply reports.
pub data Answer : Type 0 where
  no_answer : Answer
  interruption : ℕ → Answer
  response : Value → Answer
  unreadable : Answer

abbrev pub polls_for : Option ℕ → Sender → Sender
polls_for timeout s = record s { polled = timeout ∷ s.polled }

abbrev pub is_invalid : Dtype → Bool
is_invalid invalid = true
is_invalid dtype = false

-- `new_socket` from the address on, where the context and the socket itself can be made; `reachable` is whether the connection succeeds. A socket that fails is
-- not kept
unfoldable pub connect_socket : Bool → ℕ → ℕ → Sender → Outcome × Sender
connect_socket reachable address port s =
    let s' = record s { host = address; port = port; sock = false } in
    if not reachable
    then (raised not_connected, s')
    else (if is_invalid s.dtype
        then (raised invalid_dtype, s')
        else (returned null, record s' { sock = true }))

-- `new_socket`, with the address of the host, if it has one, and `int(port)`, if it is one. A socket of
-- before stays where the one or the other raises
unfoldable pub new_socket : Bool → Option ℕ → Option ℕ → Sender → Outcome × Sender
new_socket reachable none port s = (raised host_error, s)
new_socket reachable (some address) none s = (raised port_error, record s { host = address })
new_socket reachable (some address) (some port) s = connect_socket reachable address port s

-- `isinstance(response, Exception) and raise_server_exceptions`
abbrev pub answered : Bool → Value → Outcome
answered true (exception e) = raised (server_raised e)
answered raises value = returned value

-- the part after the send loop
unfoldable pub await_response : Option ℕ → Bool → Option Answer → Sender → Outcome × Sender
await_response timeout raises none s = (waiting, polls_for (timeout_ms timeout) s)
await_response timeout raises (some no_answer) s =
    (raised timed_out, polls_for (timeout_ms timeout) s)
await_response timeout raises (some (interruption r)) s =
    (raised (interrupted_by r), polls_for (timeout_ms timeout) s)
await_response timeout raises (some unreadable) s =
    (raised receive_error, polls_for (timeout_ms timeout) s)
await_response timeout raises (some (response value)) s =
    (answered raises value, polls_for (timeout_ms timeout) s)

-- the `while True` loop, and what follows it
unfoldable pub send_loop :
    Value → Option ℕ → Option ℕ → Bool → List (ℕ × Poll) → Option Answer → Sender → Outcome × Sender
send_loop datum deadline timeout raises [] answer s = (waiting, s)
send_loop datum deadline timeout raises ((now, nothing) ∷ polls) answer s =
    (raised timed_out, polls_for (remaining now deadline) s)
send_loop datum deadline timeout raises ((now, interrupted r) ∷ polls) answer s =
    (raised (interrupted_by r), polls_for (remaining now deadline) s)
send_loop datum deadline timeout raises ((now, accepted) ∷ polls) answer s =
    let polled = polls_for (remaining now deadline) s in
    let s' = record polled { sent = datum ∷ polled.sent } in
    if s'.push_only then (returned null, s') else await_response timeout raises answer s'
send_loop datum deadline timeout raises ((now, unsendable) ∷ polls) answer s =
    (raised send_error, polls_for (remaining now deadline) s)
send_loop datum deadline timeout raises ((now, refused) ∷ polls) answer s =
    send_loop datum deadline timeout raises polls answer (polls_for (remaining now deadline) s)

-- the `except` clause: after an exception the socket is not used again
unfoldable pub drop_on_error : Outcome × Sender → Outcome × Sender
drop_on_error (raised e, s) = (raised e, record s { sock = false })
drop_on_error (outcome, s) = (outcome, s)

-- the `finally` clause: a call that is over unsubscribes its thread
unfoldable pub finally : ℕ → Outcome × Sender → Interruptor → Outcome × Sender × Interruptor
finally thread (waiting, s) i = (waiting, s, i)
finally thread (outcome, s) i =
    let (left, i') = unsubscribe thread i in
    elim left [
      | Interruptor.done ↦ (outcome, s, i')
      | Interruptor.raised e ↦ (raised (interruptor_error e), s, i')
      | Interruptor.blocked ↦ (waiting, s, i')
    ]

-- the rest of a call once `subscribe` has returned or raised; in the latter case the variable that
-- `finally` reads is unbound
unfoldable pub within :
    ℕ
    → (Sender → Outcome × Sender)
    → Sender
    → Interruptor.Outcome × Interruptor
    → Outcome × Sender × Interruptor
within thread body s (Interruptor.done, i) = finally thread (drop_on_error (body s)) i
within thread body s (Interruptor.blocked, i) = (waiting, s, i)
within thread body s (Interruptor.raised e, i) =
    (raised unbound_local, record s { sock = false }, i)

-- What a call is given: the calling thread and its arguments; `port` is `int(port)`, none where that
-- raises.
pub record Args : Type 0 where
  pub thread : ℕ
  pub host : ℕ
  pub port : Option ℕ
  pub datum : Value
  pub timeout : Option ℕ
  pub raise_server_exceptions : Bool

-- What a call meets: the addresses of hosts, none for one that cannot be looked up, whether a connection
-- succeeds, the time, and what the polls report.
pub record World : Type 0 where
  pub gethostbyname : ℕ → Option ℕ
  pub reachable : Bool
  pub now : ℕ
  pub polls : List (ℕ × Poll)
  pub answer : Option Answer

-- the part of `__call__` after the type check
unfoldable pub call_checked :
    Args → World → Result → Sender → Interruptor → Outcome × Sender × Interruptor
call_checked a w (err e) s i = (raised (data_error e), s, i)
call_checked a w (ok datum) s i =
    within a.thread
      (send_loop datum (deadline_of w.now a.timeout) a.timeout a.raise_server_exceptions w.polls
        w.answer)
      s (subscribe a.thread i)

-- the part of `__call__` after the socket has been made, or has failed
unfoldable pub call_connected :
    Args → World → Outcome × Sender → Interruptor → Outcome × Sender × Interruptor
call_connected a w (returned v, s) i =
    call_checked a w (typecheck_or_convert_data a.datum s.dtype) s i
call_connected a w (outcome, s) i = (outcome, s, i)

-- the thread has a socket: is it connected to this address and port?
unfoldable pub connect_anew : Bool → Option ℕ → Option ℕ → Sender → Outcome × Sender
connect_anew reachable none port s = (raised host_error, s)
connect_anew reachable (some address) none s =
    if address == s.host then (raised port_error, s) else new_socket reachable (some address) none s
connect_anew reachable (some address) (some port) s =
    if not (address == s.host) || not (port == s.port)
    then new_socket reachable (some address) (some port) s
    else (returned null, s)

-- `__call__`
unfoldable pub call : Args → World → Sender → Interruptor → Outcome × Sender × Interruptor
call a w s i =
    call_connected a w
      (if s.sock
        then connect_anew w.reachable (w.gethostbyname a.host) a.port s
        else new_socket w.reachable (w.gethostbyname a.host) a.port s)
      i
