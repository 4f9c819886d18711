-- ===== src/Process/Startup/Progress.antt =====
-- How a start comes to its end (zprocess/process_tree.py, Process.start, and
-- zprocess/process_class_wrapper.py).
use zprocess.Base.{
  ℕ, suc, ◌+◌, ◌≤◌, ◌<◌, ◌≡◌, refl, Bool, true, false, Option, none, some, List, [], ◌∷◌, length,
  arith,
}
use mathlib.Core.Path.{subst}
use zprocess.Process.Startup.{
  ParentAt, new, launching, waiting_hello, settling, putting_module, putting_class,
  getting_response, putting_arguments, returned, raised, ChildAt, not_started, connecting,
  getting_module, exited, getting_class, saying_ok, getting_arguments, running, Startup,
  new_startup, Job, Loader, begin, greeted, settle, responded, start, got_module, got_class,
  got_arguments, setup,
}
use zprocess.Process.Startup.Sound.{is_started}
use zprocess.Process.Startup.Talks.{Sent, Talks, Talking, start-Talking}
use zprocess.Process.Startup.Dialogue.{setup-Talking}
use zprocess.Process.Startup.Stuck.{IsStuck, End, stuck-End}

module _ (loader : Loader) (job : Job) where
  -- A step of one end.
  unfoldable pub turn : Bool → Startup → Option Startup
  turn true s = start job s.parent s
  turn false s = setup loader s.child s

  unfoldable pub turns : List Bool → Startup → Option Startup
  turns [] s = some s
  turns (b ∷ bs) s = elim (turn b s) [ none ↦ none | some s' ↦ turns bs s' ]

  -- how many steps either end has left at most
  abbrev parent_left : ParentAt → ℕ
  parent_left new = 8
  parent_left launching = 7
  parent_left waiting_hello = 6
  parent_left (settling outcome) = 5
  parent_left putting_module = 4
  parent_left putting_class = 3
  parent_left getting_response = 2
  parent_left putting_arguments = 1
  parent_left parent = 0

  abbrev child_left : ChildAt → ℕ
  child_left not_started = 5
  child_left connecting = 5
  child_left getting_module = 4
  child_left (getting_class m) = 3
  child_left (saying_ok m c) = 2
  child_left (getting_arguments m c) = 1
  child_left child = 0

  abbrev left : Startup → ℕ
  left s = parent_left s.parent + child_left s.child

  abbrev Fewer : ℕ → Option Startup → Type 0
  Fewer n none = Unit
  Fewer n (some s) = left s < n

  unstarted : (c : ChildAt) → is_started c ≡ false → child_left c ≡ 5
  unstarted not_started b = refl
  unstarted connecting b = absurd (ground arith)
  unstarted getting_module b = absurd (ground arith)
  unstarted exited b = absurd (ground arith)
  unstarted (getting_class m) b = absurd (ground arith)
  unstarted (saying_ok m c) b = absurd (ground arith)
  unstarted (getting_arguments m c) b = absurd (ground arith)
  unstarted (running m c a) b = absurd (ground arith)

  start-Fewer :
      (p : ParentAt) (s : Startup)
      → Sent loader job p s
      → Fewer (parent_left p + child_left s.child) (start job p s)
  unfolding start begin greeted settle responded
  start-Fewer new s h = rw h.2 (omega arith)
  start-Fewer launching s h = omega (arith, unstarted s.child h.1)
  start-Fewer waiting_hello s h = ground arith
  start-Fewer (settling none) s h = omega arith
  start-Fewer (settling (some e)) s h = absurd h
  start-Fewer putting_module s h = omega arith
  start-Fewer putting_class s h = omega arith
  start-Fewer getting_response s h = ground arith
  start-Fewer putting_arguments s h = omega arith
  start-Fewer returned s h = tt
  start-Fewer (raised e) s h = tt

  setup-Fewer :
      (c : ChildAt) (s : Startup) → Fewer (parent_left s.parent + child_left c) (setup loader c s)
  unfolding setup got_module got_class got_arguments
  setup-Fewer not_started s = tt
  setup-Fewer connecting s = omega arith
  setup-Fewer getting_module s = ground arith
  setup-Fewer exited s = tt
  setup-Fewer (getting_class m) s = ground arith
  setup-Fewer (saying_ok m c) s = omega arith
  setup-Fewer (getting_arguments m c) s = ground arith
  setup-Fewer (running m c a) s = tt

  -- where a sequence of turns leads: the ends still agree, and each turn has used up a step
  abbrev Leads : ℕ → ℕ → Option Startup → Type 0
  Leads taken n none = Unit
  Leads taken n (some s) = Talks loader job s × (taken + left s ≤ n)

  joined : (o : Option Startup) (n : ℕ) → Talking loader job o → Fewer n o → Leads 1 n o
  joined none n t f = tt
  joined (some s) n t f = (t, omega arith)

  later : (o : Option Startup) (taken m n : ℕ) → 1 + m ≤ n → Leads taken m o → Leads (suc taken) n o
  later none taken m n h v = tt
  later (some s) taken m n h v = (v.0, omega arith)

  turn-Leads : (b : Bool) (s : Startup) → Talks loader job s → Leads 1 (left s) (turn b s)
  unfolding turn
  turn-Leads true s v =
      joined (start job s.parent s) (left s) (start-Talking loader job s.parent s v.0 v.1)
        (start-Fewer s.parent s v.0)
  turn-Leads false s v =
      joined (setup loader s.child s) (left s) (setup-Talking loader job s.child s refl v.0 v.1)
        (setup-Fewer s.child s)

  then-Leads :
      (o : Option Startup) (bs : List Bool) (n : ℕ)
      → Leads 1 n o
      → ((s : Startup) → Talks loader job s → Leads (length bs) (left s) (turns bs s))
      → Leads (suc (length bs)) n (elim o [ none ↦ none | some s ↦ turns bs s ])
  then-Leads none bs n v h = tt
  then-Leads (some s) bs n v h = later (turns bs s) (length bs) (left s) n v.1 (h s v.0)

  turns-Leads :
      (bs : List Bool) (s : Startup) → Talks loader job s → Leads (length bs) (left s) (turns bs s)
  unfolding turns
  turns-Leads [] s v = (v, omega arith)
  turns-Leads (b ∷ bs) s v = then-Leads (turn b s) bs (left s) (turn-Leads b s v) (turns-Leads bs)

  -- Without interruption, timeouts and failing calls, a start and its child come to an end: in any
  -- order, they take at most 13 steps together, and neither waits for the other before this end. It is
  -- the class running, with the module, the class and the arguments that were sent and `start`
  -- returned; or, if the class does not load, the child gone and `start` raising its traceback; or, if
  -- the module itself raises, the child gone and `start` still waiting for its response.
  pub start-Ends :
      (bs : List Bool) (s : Startup)
      → turns bs new_startup ≡ some s
      → (length bs ≤ 13) × (IsStuck loader job s → End loader job s.parent s.child)
  start-Ends bs s e =
      let v : Leads (length bs) 13 (some s) =
        subst (Leads (length bs) 13) e (turns-Leads bs new_startup ((refl, refl, refl), refl)) in
      (omega (arith, v.1), λ stuck. stuck-End loader job s.parent s v.0.0 v.0.1 stuck.0 stuck.1)
