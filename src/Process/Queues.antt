-- ===== src/Process/Queues.antt =====
-- class WriteQueue and class ReadQueue of zprocess/process_tree.py. A call of put or get subscribes
-- its thread to an interruptor, the one given or the queue's own, polls, and unsubscribes. What the
-- polls report is a list; objects and reasons are numbers, and times are in seconds.
pub mod Outcomes
use zprocess.Base.{ℕ, ◌+◌, ◌-◌, ◌*◌, Option, none, some, List, [], ◌∷◌}
use zprocess.Process.Interruptor.{Interruptor, subscribe, unsubscribe, set, clear}
use zprocess.Process.Interruptor

-- What a poll of put reports, and the time before it: nothing within the timeout, an interruption, or
-- a writable socket that then takes the object, refuses it with a ZMQError, or raises anything else, as
-- the error of an object that cannot be pickled.
pub data Poll : Type 0 where
  nothing : Poll
  interrupted : ℕ → Poll
  accepted refused unsendable : Poll

-- What the poll of get reports: nothing, an interruption, or an object from the own or the peer's end.
pub data Arrival : Type 0 where
  nothing_came : Arrival
  interruption : ℕ → Arrival
  from_self from_peer : ℕ → Arrival

-- The last is the exception of `finally`, whose variable is unbound if `subscribe` has raised.
pub data Error : Type 0 where
  timed_out : Error
  interrupted_by : ℕ → Error
  send_error : Error
  interruptor_error : Interruptor.Error → Error
  unbound_local : Error

-- `waiting`: the reports are used up and the call still polls, or it blocks in the interruptor.
pub data Outcome : Type 0 where
  done : Option ℕ → Outcome
  raised : Error → Outcome
  waiting : Outcome

-- `polled` has the timeouts of the polls in ms and `sent` the objects that the socket took, the newest
-- first.
pub record Queue : Type 0 where
  pub polled : List (Option ℕ)
  pub sent : List ℕ

abbrev pub deadline_of : ℕ → Option ℕ → Option ℕ
deadline_of now none = none
deadline_of now (some timeout) = some (now + timeout)

-- `max(0, (deadline - monotonic()) * 1000)`
abbrev pub remaining : ℕ → Option ℕ → Option ℕ
remaining now none = none
remaining now (some deadline) = some ((deadline - now) * 1000)

abbrev pub polls_for : Option ℕ → Queue → Queue
polls_for timeout q = record q { polled = timeout ∷ q.polled }

-- the `while True` loop of put
unfoldable pub put_loop : ℕ → Option ℕ → List (ℕ × Poll) → Queue → Outcome × Queue
put_loop obj deadline [] q = (waiting, q)
put_loop obj deadline ((now, nothing) ∷ polls) q =
    (raised timed_out, polls_for (remaining now deadline) q)
put_loop obj deadline ((now, interrupted reason) ∷ polls) q =
    (raised (interrupted_by reason), polls_for (remaining now deadline) q)
put_loop obj deadline ((now, accepted) ∷ polls) q =
    let q' = polls_for (remaining now deadline) q in (done none, record q' { sent = obj ∷ q'.sent })
put_loop obj deadline ((now, unsendable) ∷ polls) q =
    (raised send_error, polls_for (remaining now deadline) q)
put_loop obj deadline ((now, refused) ∷ polls) q =
    put_loop obj deadline polls (polls_for (remaining now deadline) q)

-- `finally`: a call that is over unsubscribes its thread
unfoldable pub finally : ℕ → Outcome × Queue → Interruptor → Outcome × Queue × Interruptor
finally thread (waiting, q) i = (waiting, q, i)
finally thread (outcome, q) i =
    let (left, i') = unsubscribe thread i in
    elim left [
      | Interruptor.done ↦ (outcome, q, i')
      | Interruptor.raised e ↦ (raised (interruptor_error e), q, i')
      | Interruptor.blocked ↦ (waiting, q, i')
    ]

-- the rest of a call once `subscribe` has returned or raised
unfoldable pub within :
    ℕ
    → (Queue → Outcome × Queue)
    → Queue
    → Interruptor.Outcome × Interruptor
    → Outcome × Queue × Interruptor
within thread body q (Interruptor.done, i) = finally thread (body q) i
within thread body q (Interruptor.blocked, i) = (waiting, q, i)
within thread body q (Interruptor.raised e, i) = (raised unbound_local, q, i)

-- `try` and `finally` around a call that polls
unfoldable pub subscribed_call :
    ℕ → (Queue → Outcome × Queue) → Queue → Interruptor → Outcome × Queue × Interruptor
subscribed_call thread body q i = within thread body q (subscribe thread i)

-- `WriteQueue.put`
unfoldable pub put :
    ℕ → ℕ → ℕ → Option ℕ → List (ℕ × Poll) → Queue → Interruptor → Outcome × Queue × Interruptor
put thread now obj timeout polls =
    subscribed_call thread (put_loop obj (deadline_of now timeout) polls)

-- `ReadQueue.put`: the same, towards the queue's own reading end
unfoldable pub put_to_self :
    ℕ → ℕ → ℕ → Option ℕ → List (ℕ × Poll) → Queue → Interruptor → Outcome × Queue × Interruptor
put_to_self thread now obj timeout polls =
    subscribed_call thread (put_loop obj (deadline_of now timeout) polls)

abbrev pub timeout_ms : Option ℕ → Option ℕ
timeout_ms none = none
timeout_ms (some timeout) = some (timeout * 1000)

-- the part of get after its poll
unfoldable pub received : Option Arrival → Outcome
received none = waiting
received (some nothing_came) = raised timed_out
received (some (interruption reason)) = raised (interrupted_by reason)
received (some (from_self obj)) = done (some obj)
received (some (from_peer obj)) = done (some obj)

-- `ReadQueue.get`
unfoldable pub get :
    ℕ → Option ℕ → Option Arrival → Queue → Interruptor → Outcome × Queue × Interruptor
get thread timeout arrival =
    subscribed_call thread λ q. (received arrival, polls_for (timeout_ms timeout) q)

-- `interrupt` and `clear_interrupt`, on the queue's own interruptor
unfoldable pub interrupt : Option ℕ → Interruptor → Interruptor.Outcome × Interruptor
interrupt reason = set reason

unfoldable pub clear_interrupt : Interruptor → Interruptor.Outcome × Interruptor
clear_interrupt = clear
