-- ===== src/Process/Interruptor.antt =====
-- class Interruptor of zprocess/utils.py: wakes threads that block in a poll.
-- A thread is a number and a reason is a number that stands for a text. A thread has a socket from its
-- first subscription on; only whether it is subscribed matters.
pub mod Reach
use zprocess.Base.{
  ℕ, Bool, true, false, not, ◌&&◌, Option, none, some, List, [], ◌∷◌, ◌==◌, if◌then◌else◌,
}

-- `published` has the messages that were sent while the thread was subscribed, since it last
-- subscribed, the newest first; `active` is how many threads are subscribed, and `locked` whether a call
-- that blocks has the lock.
pub record Interruptor : Type 0 where
  pub is_set : Bool
  pub reason : ℕ
  pub subscribed : ℕ → Bool
  pub published : ℕ → List ℕ
  pub active : ℕ
  pub locked : Bool

-- each is a RuntimeError
pub data Error : Type 0 where
  already_subscribed not_subscribed already_set not_set : Error

-- `blocked`: the call does not return, as it waits for the lock, or in `self._xpub.recv()` with the lock.
pub data Outcome : Type 0 where
  done : Outcome
  raised : Error → Outcome
  blocked : Outcome

abbrev pub no_reason : ℕ
no_reason = 0

-- `Interruptor.__init__`
abbrev pub new_interruptor : Interruptor
new_interruptor = record {
  is_set = false;
  reason = no_reason;
  subscribed = λ t. false;
  published = λ t. [];
  active = 0;
  locked = false;
}

-- `self._xpub.send`: to every subscribed thread
abbrev pub publish : ℕ → Interruptor → Interruptor
publish message s = record s {
  published = λ t. if s.subscribed t then message ∷ s.published t else s.published t;
}

-- the thread's socket subscribes, with nothing received
abbrev pub open_socket : ℕ → Interruptor → Interruptor
open_socket thread s = record s {
  subscribed = λ t. if thread == t then true else s.subscribed t;
  published = λ t. if thread == t then [] else s.published t;
  active = 1;
}

-- No thread is subscribed, and no call blocks.
abbrev pub is_free : Interruptor → Bool
is_free s = not s.locked && (s.active == 0)

-- `self._xpub.recv()` waits for a message that does not come
abbrev pub block : Interruptor → Outcome × Interruptor
block s = (blocked, record s { locked = true })

-- An XPUB socket without XPUB_VERBOSE receives a subscription only if it is the first one to its topic,
-- so that a thread that subscribes while another one is subscribed waits for ever.
unfoldable pub subscribe : ℕ → Interruptor → Outcome × Interruptor
subscribe thread s =
    if s.locked
    then (blocked, s)
    else (if s.subscribed thread
        then (raised already_subscribed, s)
        else (if s.active == 0
            then (
              done,
              if s.is_set then publish s.reason (open_socket thread s) else open_socket thread s,
            )
            else block s))

-- It receives an unsubscription only if no other socket is left that is subscribed.
unfoldable pub unsubscribe : ℕ → Interruptor → Outcome × Interruptor
unsubscribe thread s =
    if s.locked
    then (blocked, s)
    else (if not (s.subscribed thread)
        then (raised not_subscribed, s)
        else (if s.active == 1
            then (
              done,
              record s {
                subscribed = λ t. if thread == t then false else s.subscribed t;
                active = 0;
              },
            )
            else block s))

-- `set`, where a reason that is left out is none
unfoldable pub set : Option ℕ → Interruptor → Outcome × Interruptor
set given s =
    let message : ℕ = elim given [ none ↦ no_reason | some r ↦ r ] in
    if s.locked
    then (blocked, s)
    else (if s.is_set
        then (raised already_set, s)
        else (done, publish message (record s { is_set = true; reason = message })))

unfoldable pub clear : Interruptor → Outcome × Interruptor
clear s =
    if s.locked
    then (blocked, s)
    else (if not s.is_set
        then (raised not_set, s)
        else (done, record s { is_set = false; reason = no_reason }))
