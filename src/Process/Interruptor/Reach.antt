-- ===== src/Process/Interruptor/Reach.antt =====
-- Which threads an interruption reaches (zprocess/utils.py, Interruptor).
use zprocess.Base.{ℕ, ◌≡◌, ◌==◌, refl, ap, ◌∙◌, true, false, Option, List, [], ◌∷◌, contains, arith}
use zprocess.Process.Interruptor.{
  Interruptor, Outcome, blocked, new_interruptor, subscribe, unsubscribe, set, clear,
}

-- While the interruptor is set, each subscribed thread has been sent its reason; and at most one thread
-- is subscribed, as `active` tells.
pub record IsReaching (s : Interruptor) : Type 0 where
  pub told :
      (t : ℕ) → s.is_set ≡ true → s.subscribed t ≡ true → contains s.reason (s.published t) ≡ true
  pub alone : (t u : ℕ) → s.subscribed t ≡ true → s.subscribed u ≡ true → t ≡ u
  pub counted : (t : ℕ) → s.subscribed t ≡ true → s.active ≡ 1

pub data Call : Type 0 where
  subscribes unsubscribes : ℕ → Call
  sets : Option ℕ → Call
  clears : Call

unfoldable pub call : Call → Interruptor → Outcome × Interruptor
call (subscribes t) s = subscribe t s
call (unsubscribes t) s = unsubscribe t s
call (sets r) s = set r s
call clears s = clear s

-- The calls of all threads in the order of the interruptor's lock; one that raises stops only its
-- caller, and behind one that blocks with the lock all others block too.
unfoldable pub run : List Call → Interruptor → Interruptor
run [] s = s
run (c ∷ cs) s = run cs (call c s).1

call-IsReaching : (c : Call) (s : Interruptor) → IsReaching s → IsReaching (call c s).1
unfolding call subscribe unsubscribe set clear contains
call-IsReaching (subscribes u) s v = record {
  told = λ t. ground (arith, v.told t, v.counted t);
  alone = λ t u'. ground (arith, v.alone t u', v.counted t, v.counted u');
  counted = λ t. ground (arith, v.counted t);
}
call-IsReaching (unsubscribes u) s v = record {
  told = λ t. ground (arith, v.told t, v.counted t);
  alone = λ t u'. ground (arith, v.alone t u', v.counted t, v.counted u');
  counted = λ t. ground (arith, v.counted t, v.counted u, v.alone t u);
}
call-IsReaching (sets r) s v = record {
  told = λ t. ground (arith, v.told t, v.counted t);
  alone = λ t u'. ground (arith, v.alone t u', v.counted t, v.counted u');
  counted = λ t. ground (arith, v.counted t);
}
call-IsReaching clears s v = record {
  told = λ t. ground (arith, v.told t, v.counted t);
  alone = λ t u'. ground (arith, v.alone t u', v.counted t, v.counted u');
  counted = λ t. ground (arith, v.counted t);
}

-- Whatever calls the threads make, in whatever order, on an interruptor for which this holds: at most
-- one thread is subscribed; and while the interruptor is set, this thread has been sent the reason
-- since it subscribed, so that its poll ends.
pub run-IsReaching : (cs : List Call) (s : Interruptor) → IsReaching s → IsReaching (run cs s)
unfolding run
run-IsReaching [] s v = v
run-IsReaching (c ∷ cs) s v = run-IsReaching cs (call c s).1 (call-IsReaching c s v)

pub new_interruptor-IsReaching : IsReaching new_interruptor
new_interruptor-IsReaching = record {
  told = λ t h s. absurd (ground arith);
  alone = λ t u h k. absurd (ground arith);
  counted = λ t h. absurd (ground arith);
}

-- Behind a call that blocks, every call blocks and changes nothing.
locked_stays : (c : Call) (s : Interruptor) → s.locked ≡ true → call c s ≡ (blocked, s)
unfolding call subscribe unsubscribe set clear
locked_stays (subscribes t) s h = ground arith
locked_stays (unsubscribes t) s h = ground arith
locked_stays (sets r) s h = ground arith
locked_stays clears s h = ground arith

run_locked : (cs : List Call) (s : Interruptor) → s.locked ≡ true → run cs s ≡ s
unfolding run
run_locked [] s h = refl
run_locked (c ∷ cs) s h = ap (λ r. run cs r.1) (locked_stays c s h) ∙ run_locked cs s h

second_locks :
    (s : Interruptor) (t u : ℕ)
    → IsReaching s
    → s.subscribed t ≡ true
    → (t == u) ≡ false
    → ((call (subscribes u) s).0 ≡ blocked) × ((call (subscribes u) s).1.locked ≡ true)
unfolding call subscribe
second_locks s t u v h d =
    (ground (arith, v.alone t u, v.counted t), ground (arith, v.alone t u, v.counted t))

-- If a thread subscribes while another one is subscribed, on an interruptor for which the invariant holds,
-- its call never returns, and neither does any call of any thread on this interruptor that comes later,
-- `set` included.
pub subscribe_second :
    (s : Interruptor) (t u : ℕ) (cs : List Call) (c : Call)
    → IsReaching s
    → s.subscribed t ≡ true
    → (t == u) ≡ false
    → ((call (subscribes u) s).0 ≡ blocked)
      × ((call c (run cs (call (subscribes u) s).1)).0 ≡ blocked)
subscribe_second s t u cs c v h d =
    let (b, l) = second_locks s t u v h d in
    (
      b,
      ap (λ i. (call c i).0) (run_locked cs (call (subscribes u) s).1 l)
          ∙ ap (λ r. r.0) (locked_stays c (call (subscribes u) s).1 l),
    )
