-- ===== src/Process/Startup/Signalled.antt =====
-- Process.terminate against Process.start (zprocess/process_tree.py), in any order of their steps.
use zprocess.Base.{ℕ, ◌≡◌, refl, ap, ◌∙◌, false, Option, none, some, List, [], ◌∷◌, arith}
use mathlib.Core.Path.{subst}
use zprocess.Process.Startup.{
  ParentAt, new, EventAt, absent, created, fired, TerminateAt, not_called, waiting_event, finished,
  Startup, new_startup, set_once, Job, Loader, interrupt, begin_terminate, end_terminate, Move,
  parent_moves, parent_times_out, launch_raises, parent_is_interrupted, child_moves, child_raises,
  interrupts, terminates, terminate_ends, move, run,
}
use zprocess.Process.Startup.Sound.{
  is_started, is_created, At, Terminates, IsSound, Soundly, start-Soundly, times_out-Soundly,
  launch_fails-Soundly, is_interrupted-Soundly, setup-Soundly, child_fails-Soundly,
}

-- the moves of the threads that interrupt and terminate
At-kept :
    (p : ParentAt) (s s' : Startup)
    → s'.child ≡ s.child
    → s'.event ≡ s.event
    → s'.handle ≡ s.handle
    → s'.queued ≡ s.queued
    → At p s
    → At p s'
At-kept p s s' c e h q v =
    (elim p as (λ p. At p s → At p s') [ new ↦ λ v. ground arith | _ ↦ λ v. ground arith ]) v

interrupted-Terminates :
    (reason : ℕ) (q : TerminateAt) (s : Startup)
    → Terminates q s
    → Terminates q (record s { interruption = set_once reason s.interruption })
interrupted-Terminates reason not_called s t = tt
interrupted-Terminates reason waiting_event s t = ground arith
interrupted-Terminates reason finished s t = ground arith

interrupt-Soundly : (reason : ℕ) (s : Startup) → IsSound s → Soundly (interrupt reason s)
unfolding interrupt
interrupt-Soundly reason s v =
    (At-kept s.parent s _ refl refl refl refl v.0, interrupted-Terminates reason s.terminator s v.1)

begin_terminate-Soundly :
    (reason : ℕ) (q : TerminateAt) (s : Startup) → IsSound s → Soundly (begin_terminate reason q s)
unfolding begin_terminate
begin_terminate-Soundly reason not_called s v =
    (At-kept s.parent s _ refl refl refl refl v.0, ground arith)
begin_terminate-Soundly reason waiting_event s v = tt
begin_terminate-Soundly reason finished s v = tt

end_terminate-Soundly :
    (e : EventAt) (q : TerminateAt) (s : Startup)
    → s.event ≡ e
    → s.terminator ≡ q
    → IsSound s
    → Soundly (end_terminate e q s)
unfolding end_terminate
end_terminate-Soundly created q s f g v = elim q as (λ q. Soundly (end_terminate created q s)) [
  | not_called ↦ tt
  | _ ↦ tt
]
end_terminate-Soundly absent not_called s f g v = tt
end_terminate-Soundly absent waiting_event s f g v =
    let t : Terminates waiting_event s = subst (λ q. Terminates q s) g v.1 in
    (At-kept s.parent s _ refl refl refl refl v.0, (t, ap is_created f, refl))
end_terminate-Soundly absent finished s f g v = tt
end_terminate-Soundly fired not_called s f g v = tt
end_terminate-Soundly fired waiting_event s f g v =
    let t : Terminates waiting_event s = subst (λ q. Terminates q s) g v.1 in
    (At-kept s.parent s _ refl refl refl refl v.0, (t, ap is_created f, refl))
end_terminate-Soundly fired finished s f g v = tt

-- while the event is not waited for, `self.child` is known
handle-known :
    (p : ParentAt) (s : Startup)
    → At p s
    → is_created s.event ≡ false
    → s.handle ≡ is_started s.child
handle-known p s h e =
    (elim p as (λ p. At p s → s.handle ≡ is_started s.child) [
      | new ↦ λ h. ground arith
      | _ ↦ λ h. ground arith
    ])
      h

then-Soundly :
    (o : Option Startup) (k : Startup → Option Startup)
    → Soundly o
    → ((s : Startup) → IsSound s → Soundly (k s))
    → Soundly (elim o [ none ↦ none | some s ↦ k s ])
then-Soundly none k v h = tt
then-Soundly (some s) k v h = h s v

module _ (loader : Loader) (job : Job) where
  move-Soundly : (m : Move) (s : Startup) → IsSound s → Soundly (move loader job m s)
  unfolding move
  move-Soundly parent_moves s v = start-Soundly job s.parent s v.0 v.1
  move-Soundly parent_times_out s v = times_out-Soundly s.parent s v.0 v.1
  move-Soundly launch_raises s v = launch_fails-Soundly s.parent s v.0 v.1
  move-Soundly parent_is_interrupted s v = is_interrupted-Soundly s.interruption s.parent s v.0 v.1
  move-Soundly child_moves s v = setup-Soundly loader s.child s refl v
  move-Soundly (child_raises traceback) s v = child_fails-Soundly traceback s.child s refl v
  move-Soundly (interrupts reason) s v = interrupt-Soundly reason s v
  move-Soundly (terminates reason) s v = begin_terminate-Soundly reason s.terminator s v
  move-Soundly terminate_ends s v = end_terminate-Soundly s.event s.terminator s refl refl v

  -- In any order of the steps of the thread that starts a process, of the child and of the threads that
  -- interrupt the start, with timeouts and exceptions at any call: the event is waited for just while
  -- `subprocess` runs, behind it `self.child` is set just if there is a process, and a thread that
  -- terminates finds it so.
  pub run-Soundly : (ms : List Move) (s : Startup) → IsSound s → Soundly (run loader job ms s)
  unfolding run
  run-Soundly [] s v = v
  run-Soundly (m ∷ ms) s v =
      then-Soundly (move loader job m s) (run loader job ms) (move-Soundly m s v) (run-Soundly ms)

  -- For a process on this host: once a call of `terminate` has returned, however its steps and those of `start` and of other
  -- interruptions have alternated before and alternate after it: a process was started just if it has been
  -- sent the signal, so that no process is started behind it or escapes it.
  pub terminate-signals :
      (ms : List Move) (s : Startup)
      → run loader job ms new_startup ≡ some s
      → s.terminator ≡ finished
      → s.signalled ≡ is_started s.child
  terminate-signals ms s e f =
      let v : IsSound s =
        subst Soundly e (run-Soundly ms new_startup ((refl, refl, refl, refl), tt)) in
      let t : Terminates finished s = subst (λ q. Terminates q s) f v.1 in
      t.2 ∙ handle-known s.parent s v.0 t.1
