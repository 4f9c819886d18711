-- ===== src/Process/Queues/Outcomes.antt =====
-- What calls of put and get come to (zprocess/process_tree.py, WriteQueue and ReadQueue).
use zprocess.Base.{
  ℕ, ◌≡◌, refl, sym, Bool, true, false, ◌&&◌, Option, none, List, [], ◌∷◌, ◌==◌, if◌then◌else◌,
  arith, inl, inr, Bool-cases,
}
use mathlib.Core.Path.{subst}
use zprocess.Process.Interruptor.{Interruptor, is_free, subscribe, unsubscribe}
use zprocess.Process.Interruptor
use zprocess.Process.Queues.{
  Poll, nothing, interrupted, accepted, refused, unsendable, send_error, Arrival, Outcome, done,
  raised, waiting, timed_out, interrupted_by, Queue, remaining, deadline_of, polls_for, put_loop,
  finally, within, subscribed_call, put, received, get, timeout_ms,
}

-- The first report that is not a refusal decides.
unfoldable pub put_result : List (ℕ × Poll) → Outcome
put_result [] = waiting
put_result ((now, nothing) ∷ polls) = raised timed_out
put_result ((now, interrupted reason) ∷ polls) = raised (interrupted_by reason)
put_result ((now, accepted) ∷ polls) = done none
put_result ((now, unsendable) ∷ polls) = raised send_error
put_result ((now, refused) ∷ polls) = put_result polls

abbrev pub sent_after : Outcome → ℕ → List ℕ → List ℕ
sent_after (done r) obj sent = obj ∷ sent
sent_after (raised e) obj sent = sent
sent_after waiting obj sent = sent

-- A call that is over has its thread unsubscribed.
abbrev pub subscribed_after : Outcome → Bool
subscribed_after (done r) = false
subscribed_after (raised e) = false
subscribed_after waiting = true

put_loop_result :
    (obj : ℕ) (deadline : Option ℕ) (polls : List (ℕ × Poll)) (q : Queue)
    → ((put_loop obj deadline polls q).0 ≡ put_result polls)
      × ((put_loop obj deadline polls q).1.sent ≡ sent_after (put_result polls) obj q.sent)
unfolding put_loop put_result
put_loop_result obj deadline [] q = (refl, refl)
put_loop_result obj deadline ((now, nothing) ∷ polls) q = (refl, refl)
put_loop_result obj deadline ((now, interrupted reason) ∷ polls) q = (refl, refl)
put_loop_result obj deadline ((now, accepted) ∷ polls) q = (refl, refl)
put_loop_result obj deadline ((now, unsendable) ∷ polls) q = (refl, refl)
put_loop_result obj deadline ((now, refused) ∷ polls) q =
    put_loop_result obj deadline polls (polls_for (remaining now deadline) q)

-- What a call comes to: one whose thread cannot subscribe waits.
abbrev pub comes_to : Interruptor → Outcome → Outcome
comes_to i o = if is_free i then o else waiting

-- A call subscribes its thread if it can.
abbrev pub subscribed_in : ℕ → Outcome → Interruptor → ℕ → Bool
subscribed_in thread o i t =
    if (thread == t) && is_free i then subscribed_after o else i.subscribed t

-- what a call gives back of outcome, queue and interruptor, seen at thread `t`
abbrev Returns :
    ℕ → Outcome × Queue → Queue → Interruptor → ℕ → Outcome × Queue × Interruptor → Type 0
Returns thread (o, q) before i t (outcome, q', i') =
    (outcome ≡ comes_to i o)
    × (q' ≡ (if is_free i then q else before))
    × (i'.subscribed t ≡ subscribed_in thread o i t)
    × (i'.is_set ≡ i.is_set)
    × (i'.reason ≡ i.reason)

-- A subscription that has returned.
pub record IsEntered (thread : ℕ) (i j : Interruptor) : Type 0 where
  pub mine : j.subscribed thread ≡ true
  pub others : (t : ℕ) → j.subscribed t ≡ (if thread == t then true else i.subscribed t)
  pub flag : j.is_set ≡ i.is_set
  pub same_reason : j.reason ≡ i.reason
  pub single : j.active ≡ 1
  pub unlocked : j.locked ≡ false

-- A thread that is not subscribed can subscribe if no other one is.
pub subscribe_free :
    (thread : ℕ) (i : Interruptor)
    → i.subscribed thread ≡ false
    → is_free i ≡ true
    → ((subscribe thread i).0 ≡ Interruptor.done) × IsEntered thread i (subscribe thread i).1
unfolding subscribe
subscribe_free thread i h f = (
  ground arith,
  record {
    mine = ground arith;
    others = λ t. ground arith;
    flag = ground arith;
    same_reason = ground arith;
    single = ground arith;
    unlocked = ground arith;
  },
)

-- Otherwise it blocks, and nobody is told.
pub subscribe_blocked :
    (thread : ℕ) (i : Interruptor)
    → i.subscribed thread ≡ false
    → is_free i ≡ false
    → ((subscribe thread i).0 ≡ Interruptor.blocked)
      × ((t : ℕ) → (subscribe thread i).1.subscribed t ≡ i.subscribed t)
      × ((subscribe thread i).1.is_set ≡ i.is_set)
      × ((subscribe thread i).1.reason ≡ i.reason)
unfolding subscribe
subscribe_blocked thread i h f = (ground arith, λ t. ground arith, ground arith, ground arith)

-- A thread that has subscribed can unsubscribe.
pub unsubscribe_entered :
    (thread : ℕ) (i j : Interruptor)
    → IsEntered thread i j
    → ((unsubscribe thread j).0 ≡ Interruptor.done)
      × ((unsubscribe thread j).1.subscribed thread ≡ false)
unfolding unsubscribe
unsubscribe_entered thread i j v =
    (ground (arith, v.mine, v.single, v.unlocked), ground (arith, v.mine, v.single, v.unlocked))

finally-Returns :
    (thread : ℕ) (o : Outcome) (q before : Queue) (i j : Interruptor) (t : ℕ)
    → is_free i ≡ true
    → IsEntered thread i j
    → Returns thread (o, q) before i t (finally thread (o, q) j)
unfolding finally unsubscribe
finally-Returns thread (done r) q before i j t f v = ground (arith, v, v.others t)
finally-Returns thread (raised e) q before i j t f v = ground (arith, v, v.others t)
finally-Returns thread waiting q before i j t f v = ground (arith, v, v.others t)

subscribed_call-Returns :
    (thread : ℕ) (body : Queue → Outcome × Queue) (q : Queue) (i : Interruptor) (t : ℕ)
    → i.subscribed thread ≡ false
    → Returns thread (body q) q i t (subscribed_call thread body q i)
unfolding subscribed_call within
subscribed_call-Returns thread body q i t h = elim (Bool-cases (is_free i)) [
  | inl f ↦
      let (e, v) = subscribe_free thread i h f in
      subst (λ o. Returns thread (body q) q i t (within thread body q (o, (subscribe thread i).1)))
        (sym e) (finally-Returns thread (body q).0 (body q).1 q i (subscribe thread i).1 t f v)
  | inr f ↦
      let (e, same, flag, reason) = subscribe_blocked thread i h f in
      subst (λ o. Returns thread (body q) q i t (within thread body q (o, (subscribe thread i).1)))
        (sym e) (ground arith, ground arith, ground (arith, same t), flag, reason)
]

-- A put by a thread that is not subscribed, to whose interruptor no other thread is subscribed, comes to
-- what its first report that is not a refusal says: the object is sent exactly if the socket took it.
-- Once the call is over, whichever way, its thread is not subscribed. If another thread is subscribed the
-- call does not return, and the object is not sent. Other threads, the flag and the reason are as they
-- were; no other thread calls the interruptor meanwhile.
pub put_outcome :
    (thread now obj : ℕ) (timeout : Option ℕ) (polls : List (ℕ × Poll)) (q : Queue)
    (i : Interruptor) (t : ℕ)
    → i.subscribed thread ≡ false
    → let (outcome, q', i') = put thread now obj timeout polls q i in
      (outcome ≡ comes_to i (put_result polls))
      × (q'.sent ≡ sent_after (comes_to i (put_result polls)) obj q.sent)
      × (i'.subscribed t ≡ subscribed_in thread (put_result polls) i t)
      × (i'.is_set ≡ i.is_set)
      × (i'.reason ≡ i.reason)
unfolding put
put_outcome thread now obj timeout polls q i t h = ground (
  arith,
  put_loop_result obj (deadline_of now timeout) polls q,
  subscribed_call-Returns thread (put_loop obj (deadline_of now timeout) polls) q i t h,
)

-- A get by a thread that is not subscribed, to whose interruptor no other thread is subscribed, comes to
-- what its poll reports; if another thread is subscribed it does not return.
get_outcome :
    (thread : ℕ) (timeout : Option ℕ) (arrival : Option Arrival) (q : Queue) (i : Interruptor)
    (t : ℕ)
    → i.subscribed thread ≡ false
    → let (outcome, q', i') = get thread timeout arrival q i in
      (outcome ≡ comes_to i (received arrival))
      × (q'.sent ≡ q.sent)
      × (i'.subscribed t ≡ subscribed_in thread (received arrival) i t)
      × (i'.is_set ≡ i.is_set)
      × (i'.reason ≡ i.reason)
unfolding get
get_outcome thread timeout arrival q i t h = ground (
  arith,
  subscribed_call-Returns thread (λ p. (received arrival, polls_for (timeout_ms timeout) p)) q i t
      h,
)
