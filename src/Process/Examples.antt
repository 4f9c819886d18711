-- ===== src/Process/Examples.antt =====
-- A kill lock that is entered twice, with a SIGTERM in between; an interruptor with two threads; a queue;
-- and an event.
use zprocess.Process.KillLock.{release}
use zprocess.Process.Heartbeat.{answered, silent, killed, new_client, mainloop}
use zprocess.Process.Heartbeat.Deferred.{beaten, mainloop-release}
use zprocess.Base.{
  true, contains, ℕ, false, ◌≡◌, refl, ◌++◌, some, List, [], ◌∷◌, ◌+◌, if◌then◌else◌,
}
use zprocess.Process.Events
use zprocess.Process.Events.{Event, Arrived, encode_name, post, wait}
use zprocess.Process.Events.Topics.{reaches, post-reaches}
use zprocess.Process.KillLock.{done}
use zprocess.Process.KillLock.Deferred.{
  Call, acquires, terminates, releases, run, free, held, nesting, is_terminated, sigterms_deferred,
}
use zprocess.Process.Interruptor.{blocked, new_interruptor, subscribe, unsubscribe, set}
use zprocess.Process.Interruptor.Reach
use zprocess.Process.Interruptor.Reach.{
  subscribes, unsubscribes, sets, IsReaching, run-IsReaching, new_interruptor-IsReaching,
  subscribe_second,
}
use zprocess.Process.Queues.{
  Queue, Poll, accepted, refused, put, put_loop, subscribed_call, within, finally,
}
use zprocess.Process.Queues.Outcomes.{put_result, sent_after, comes_to, subscribed_in, put_outcome}

abbrev nested : List Call
nested = acquires ∷ terminates ∷ releases ∷ []

nested_balances : nesting 0 nested ≡ some 0
unfolding nesting
nested_balances = refl

sigterms_deferred_example :
    (run (acquires ∷ nested) (free 4) ≡ (done, held 0 (is_terminated nested) 4))
    × (run (acquires ∷ (nested ++ (releases ∷ []))) (free 4)
        ≡ (done, free (if is_terminated nested then 4 + 1 else 4)))
sigterms_deferred_example = sigterms_deferred nested 4 nested_balances

-- Thread 1 subscribes, is interrupted and gives up; thread 2 subscribes while the interruptor is set; and
-- then thread 1 tries to subscribe again, and waits for ever.
abbrev two_threads : List Reach.Call
two_threads =
    subscribes 1
    ∷ sets (some 7)
    ∷ unsubscribes 1
    ∷ subscribes 2
    ∷ subscribes 1
    ∷ unsubscribes 2
    ∷ []

told : (Reach.run two_threads new_interruptor).published 2 ≡ 7 ∷ []
unfolding Reach.run Reach.call subscribe unsubscribe set
told = refl

hangs : (Reach.run two_threads new_interruptor).locked ≡ true
unfolding Reach.run Reach.call subscribe unsubscribe set
hangs = refl

run-IsReaching_example : IsReaching (Reach.run two_threads new_interruptor)
run-IsReaching_example = run-IsReaching two_threads new_interruptor new_interruptor-IsReaching

subscribe_second_example :
    ((Reach.call (subscribes 2) (Reach.run (subscribes 1 ∷ []) new_interruptor)).0 ≡ blocked)
    × ((Reach.call (sets (some 7)) (
          Reach.run
            (unsubscribes 1 ∷ [])
            (Reach.call (subscribes 2) (Reach.run (subscribes 1 ∷ []) new_interruptor)).1)).0
        ≡ blocked)
unfolding Reach.run Reach.call subscribe
subscribe_second_example =
    subscribe_second (Reach.run (subscribes 1 ∷ []) new_interruptor) 1 2 (unsubscribes 1 ∷ [])
      (sets (some 7))
      (run-IsReaching (subscribes 1 ∷ []) new_interruptor new_interruptor-IsReaching) refl refl

abbrev new_queue : Queue
new_queue = record { polled = []; sent = [] }

-- The socket refuses the object once and then takes it.
abbrev second_try : List (ℕ × Poll)
second_try = (3, refused) ∷ (4, accepted) ∷ []

put_timeouts :
    (put 1 3 8 (some 5) second_try new_queue new_interruptor).1.polled ≡ some 4000 ∷ some 5000 ∷ []
unfolding put put_loop subscribed_call within finally subscribe unsubscribe
put_timeouts = refl

put_outcome_example :
    let (outcome, q', i') = put 1 3 8 (some 5) second_try new_queue new_interruptor in
    (outcome ≡ comes_to new_interruptor (put_result second_try))
    × (q'.sent ≡ sent_after (comes_to new_interruptor (put_result second_try)) 8 [])
    × (i'.subscribed 1 ≡ subscribed_in 1 (put_result second_try) new_interruptor 1)
    × (i'.is_set ≡ false)
    × (i'.reason ≡ 0)
put_outcome_example = put_outcome 1 3 8 (some 5) second_try new_queue new_interruptor 1 refl

abbrev tick_name : List ℕ
tick_name = 116 ∷ []

abbrev tick : Event
tick = record { encoded_event_name = encode_name tick_name; can_wait = true; can_post = true }

no_null : contains 0 tick_name ≡ false
unfolding contains
no_null = refl

post-reaches_example :
    (frames : List (List ℕ)) × (post (1 ∷ []) (2 ∷ []) tick ≡ Events.done frames)
    × (reaches tick_name frames ≡ true → tick_name ≡ tick_name)
    × (tick_name ≡ tick_name → reaches tick_name frames ≡ true)
post-reaches_example =
    post-reaches tick_name tick_name (1 ∷ []) (2 ∷ []) tick refl refl no_null no_null

mainloop-release_example :
    (let (state, c', lock) =
        mainloop
          (answered 20 ∷ silent ∷ [])
          (new_client 20 true)
          (run (acquires ∷ nested) (free 0)).1 in
      (state ≡ killed)
      × (c' ≡ beaten 2 (new_client 20 true))
      × (lock.terminations ≡ 0)
      × (release lock ≡ (done, free 1)))
mainloop-release_example =
    mainloop-release 1 silent [] (new_client 20 true) nested 0 refl nested_balances
