-- ===== src/Process/Startup/Sound.antt =====
-- What holds of a start at each place (zprocess/process_tree.py, Process.start), and that the moves of
-- the starting thread and of the child keep it.
use zprocess.Base.{
  ℕ, ◌≡◌, refl, sym, ◌∙◌, Bool, true, false, Option, none, some, List, Option-cases, inl, inr,
  arith,
}
use zprocess.Base.Dict.{is_some}
use zprocess.Process.Startup.{
  Message, ParentAt, new, launching, waiting_hello, settling, putting_module, putting_class,
  getting_response, putting_arguments, returned, raised, ChildAt, not_started, connecting,
  getting_module, exited, getting_class, saying_ok, getting_arguments, running, Error, EventAt,
  created, TerminateAt, not_called, waiting_event, finished, Startup, Job, Loader, begin, greeted,
  settle, responded, start, fails, times_out, launch_fails, is_interrupted, got_module, got_class,
  got_arguments, setup, child_fails,
}

abbrev pub is_started : ChildAt → Bool
is_started not_started = false
is_started child = true

abbrev pub is_created : EventAt → Bool
is_created created = true
is_created event = false

-- By where `start` is: whether there is a process, whether the event is waited for, and who knows the
-- process.
abbrev pub At : ParentAt → Startup → Type 0
At new s =
    (is_started s.child ≡ false)
    × (is_created s.event ≡ false)
    × (s.handle ≡ false)
    × (s.queued ≡ false)
At launching s =
    (is_started s.child ≡ false)
    × (is_created s.event ≡ true)
    × (s.handle ≡ false)
    × (s.queued ≡ false)
At waiting_hello s =
    (is_started s.child ≡ true)
    × (is_created s.event ≡ true)
    × (s.handle ≡ false)
    × (s.queued ≡ true)
At (settling outcome) s =
    (is_created s.event ≡ true) × (s.handle ≡ false) × (s.queued ≡ is_started s.child)
At parent s = (is_created s.event ≡ false) × (s.handle ≡ is_started s.child)

-- A thread that terminates has set the interruptor, and once it is through the event is not waited for
-- and the process that it found has been sent the signal.
abbrev pub Terminates : TerminateAt → Startup → Type 0
Terminates not_called s = Unit
Terminates waiting_event s = is_some s.interruption ≡ true
Terminates finished s =
    (is_some s.interruption ≡ true) × (is_created s.event ≡ false) × (s.signalled ≡ s.handle)

abbrev pub IsSound : Startup → Type 0
IsSound s = At s.parent s × Terminates s.terminator s

abbrev pub Soundly : Option Startup → Type 0
Soundly none = Unit
Soundly (some s) = IsSound s

-- A thread that terminates is not disturbed by a step that leaves what it knows, by one that fires the
-- event it waits for, nor, if the interruptor is not set, by any.
Terminates-kept :
    (q : TerminateAt) (s s' : Startup)
    → Terminates q s
    → s'.interruption ≡ s.interruption
    → is_created s'.event ≡ is_created s.event
    → s'.handle ≡ s.handle
    → s'.signalled ≡ s.signalled
    → Terminates q s'
Terminates-kept not_called s s' t i e h g = tt
Terminates-kept waiting_event s s' t i e h g = ground arith
Terminates-kept finished s s' t i e h g = (ground arith, ground arith, g ∙ t.2 ∙ sym h)

Terminates-fired :
    (q : TerminateAt) (s s' : Startup)
    → is_created s.event ≡ true
    → Terminates q s
    → s'.interruption ≡ s.interruption
    → Terminates q s'
Terminates-fired not_called s s' e t i = tt
Terminates-fired waiting_event s s' e t i = ground arith
Terminates-fired finished s s' e t i = absurd (ground arith)

Terminates-uninterrupted :
    (q : TerminateAt) (s s' : Startup) → s.interruption ≡ none → Terminates q s → Terminates q s'
Terminates-uninterrupted not_called s s' e t = tt
Terminates-uninterrupted waiting_event s s' e t = absurd (ground arith)
Terminates-uninterrupted finished s s' e t = absurd (ground arith)

pub start-Soundly :
    (job : Job) (p : ParentAt) (s : Startup)
    → At p s
    → Terminates s.terminator s
    → Soundly (start job p s)
unfolding start begin greeted settle responded
start-Soundly job new s h t = elim (Option-cases s.interruption) [
  | inl e ↦ rw e (ground (arith, Terminates-uninterrupted s.terminator s _ e t))
  | inr (reason, e) ↦ ground (arith, e)
]
start-Soundly job launching s h t =
    ((refl, h.1, h.2, refl), Terminates-kept s.terminator s _ t refl refl refl refl)
start-Soundly job waiting_hello s h t = ground arith
start-Soundly job (settling none) s h t =
    (ground arith, Terminates-fired s.terminator s _ h.0 t refl)
start-Soundly job (settling (some e)) s h t =
    (ground arith, Terminates-fired s.terminator s _ h.0 t refl)
start-Soundly job putting_module s h t = ground arith
start-Soundly job putting_class s h t = ground arith
start-Soundly job getting_response s h t = ground arith
start-Soundly job putting_arguments s h t = ground arith
start-Soundly job returned s h t = tt
start-Soundly job (raised e) s h t = tt

fails-Soundly :
    (e : Error) (p : ParentAt) (s : Startup)
    → At p s
    → Terminates s.terminator s
    → Soundly (fails e p s)
unfolding fails
fails-Soundly e p s h t =
    (elim p as (λ p. At p s → Soundly (fails e p s)) [ new ↦ λ h. tt | _ ↦ λ h. ground arith ]) h

pub times_out-Soundly :
    (p : ParentAt) (s : Startup) → At p s → Terminates s.terminator s → Soundly (times_out p s)
unfolding times_out
times_out-Soundly p s h t =
    (elim p as (λ p. At p s → Soundly (times_out p s)) [
      | launching ↦ λ h. tt
      | waiting_hello ↦ λ h. fails-Soundly _ waiting_hello s h t
      | _ ↦ λ h. fails-Soundly _ _ s h t
    ])
      h

pub launch_fails-Soundly :
    (p : ParentAt) (s : Startup) → At p s → Terminates s.terminator s → Soundly (launch_fails p s)
unfolding launch_fails
launch_fails-Soundly p s h t =
    (elim p as (λ p. At p s → Soundly (launch_fails p s)) [
      | launching ↦ λ h. fails-Soundly _ launching s h t
      | _ ↦ λ h. tt
    ])
      h

pub is_interrupted-Soundly :
    (reason : Option ℕ) (p : ParentAt) (s : Startup)
    → At p s
    → Terminates s.terminator s
    → Soundly (is_interrupted reason p s)
unfolding is_interrupted
is_interrupted-Soundly none p s h t = tt
is_interrupted-Soundly (some reason) p s h t = fails-Soundly _ p s h t

-- the moves of the child
child-At :
    (p : ParentAt) (child : ChildAt) (said : List Message) (s : Startup)
    → is_started s.child ≡ true
    → is_started child ≡ true
    → At p s
    → At p (record s { child = child; from_child = said })
child-At p child said s b c h =
    (elim p as (λ p. At p s → At p (record s { child = child; from_child = said })) [
      | new ↦ λ h. ground arith
      | _ ↦ λ h. ground arith
    ])
      h

child-IsSound :
    (child : ChildAt) (said : List Message) (s : Startup)
    → is_started s.child ≡ true
    → is_started child ≡ true
    → IsSound s
    → IsSound (record s { child = child; from_child = said })
child-IsSound child said s b c v = (
  child-At s.parent child said s b c v.0,
  Terminates-kept s.terminator s _ v.1 refl refl refl refl,
)

module _ (loader : Loader) where
  pub setup-Soundly :
      (c : ChildAt) (s : Startup)
      → is_started s.child ≡ is_started c
      → IsSound s
      → Soundly (setup loader c s)
  unfolding setup got_module got_class got_arguments
  setup-Soundly not_started s b v = tt
  setup-Soundly connecting s b v = child-IsSound _ _ s b refl v
  setup-Soundly getting_module s b v =
      ground (arith, λ (c : ChildAt). child-IsSound c s.from_child s b)
  setup-Soundly exited s b v = tt
  setup-Soundly (getting_class m) s b v =
      ground (arith, λ (c : ChildAt) (x : List Message). child-IsSound c x s b)
  setup-Soundly (saying_ok m c) s b v = child-IsSound _ _ s b refl v
  setup-Soundly (getting_arguments m c) s b v =
      ground (arith, λ (c : ChildAt). child-IsSound c s.from_child s b)
  setup-Soundly (running m c a) s b v = tt

pub child_fails-Soundly :
    (traceback : ℕ) (c : ChildAt) (s : Startup)
    → is_started s.child ≡ is_started c
    → IsSound s
    → Soundly (child_fails traceback c s)
unfolding child_fails
child_fails-Soundly traceback c s b v =
    (elim c as (λ c. is_started s.child ≡ is_started c → Soundly (child_fails traceback c s)) [
      | not_started ↦ λ b. tt
      | exited ↦ λ b. tt
      | running m c a ↦ λ b. tt
      | _ ↦ λ b. child-IsSound _ _ s b refl v
    ])
      b
