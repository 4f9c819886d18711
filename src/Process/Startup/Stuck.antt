-- ===== src/Process/Startup/Stuck.antt =====
-- Where a start and its child cannot go on (zprocess/process_tree.py, Process.start, and
-- zprocess/process_class_wrapper.py).
use zprocess.Base.{
  ℕ, ◌≡◌, refl, true, false, none, some, List, [], ◌∷◌, get_elem?, if◌then◌else◌, Option-cases,
  Bool-cases, inl, inr, ◌⊎◌, arith,
}
use zprocess.Process.Startup.{
  Message, hello, failure, ParentAt, new, launching, waiting_hello, settling, putting_module,
  putting_class, getting_response, putting_arguments, returned, raised, ChildAt, not_started,
  connecting, getting_module, exited, getting_class, saying_ok, getting_arguments, running, Error,
  child_error, Startup, Job, Loader, begin, greeted, settle, responded, start, got_module,
  got_class, got_arguments, setup,
}
use zprocess.Process.Startup.Sound.{is_started}
use zprocess.Process.Startup.Talks.{Sent, Said}

module _ (loader : Loader) (job : Job) where
  -- No end can take a step.
  abbrev pub IsStuck : Startup → Type 0
  IsStuck s = (start job s.parent s ≡ none) × (setup loader s.child s ≡ none)

  -- The end of a start: the class runs; or it does not load, and the parent raises the child's
  -- traceback; or the module raises, and the parent is left to wait for the child.
  abbrev pub End : ParentAt → ChildAt → Type 0
  End parent child =
      if loader.executes job.module_info
      then elim (loader.traceback_of job.class_sent) [
        | none ↦ (parent ≡ returned) × (child ≡ running job.module_info job.class_sent job.args)
        | some traceback ↦ (parent ≡ raised (child_error (failure traceback))) × (child ≡ exited)
      ]
      else (parent ≡ getting_response) × (child ≡ exited)

  -- what a child has said that has ended
  exited-cases :
      (said : List Message)
      → Said loader job exited said
      → ((loader.executes job.module_info ≡ false) × (said ≡ hello ∷ []))
        ⊎ ((t : ℕ) × (loader.executes job.module_info ≡ true)
            × (loader.traceback_of job.class_sent ≡ some t)
            × (said ≡ hello ∷ failure t ∷ []))
  exited-cases said d = elim (Bool-cases (loader.executes job.module_info)) [
    | inr raises ↦ inl (raises, ground arith)
    | inl runs ↦ elim (Option-cases (loader.traceback_of job.class_sent)) [
      | inl loads ↦ absurd (ground arith)
      | inr (t, fails) ↦ inr (t, runs, fails, ground arith)
    ]
  ]

  -- the child, when the parent waits for the response
  response-End :
      (c : ChildAt) (s : Startup)
      → Sent loader job getting_response s
      → is_started c ≡ true
      → Said loader job c s.from_child
      → responded (get_elem? s.from_child 1) s ≡ none
      → setup loader c s ≡ none
      → End getting_response c
  unfolding setup responded got_module got_class
  response-End not_started s h b d e f = absurd (ground arith)
  response-End connecting s h b d e f = absurd (ground arith)
  response-End getting_module s h b d e f =
      absurd (ground (arith, Bool-cases (loader.executes job.module_info)))
  response-End exited s h b d e f = elim (exited-cases s.from_child d) [
    | inl (raises, said) ↦ rw raises (refl, refl)
    | inr (t, runs, fails, said) ↦ absurd (ground arith)
  ]
  response-End (getting_class m) s h b d e f =
      absurd (ground (arith, Option-cases (loader.traceback_of job.class_sent)))
  response-End (saying_ok m c) s h b d e f = absurd (ground arith)
  response-End (getting_arguments m c) s h b d e f = absurd (ground arith)
  response-End (running m c a) s h b d e f = absurd (ground arith)

  -- the child, when the parent has returned
  returned-End :
      (c : ChildAt) (s : Startup)
      → Sent loader job returned s
      → Said loader job c s.from_child
      → setup loader c s ≡ none
      → End returned c
  unfolding setup got_arguments
  returned-End not_started s h d f = absurd (ground arith)
  returned-End connecting s h d f = absurd (ground arith)
  returned-End getting_module s h d f = absurd (ground arith)
  returned-End exited s h d f = elim (exited-cases s.from_child d) [
    | inl (raises, said) ↦ absurd (ground arith)
    | inr (t, runs, fails, said) ↦ absurd (ground arith)
  ]
  returned-End (getting_class m) s h d f = absurd (ground arith)
  returned-End (saying_ok m c) s h d f = absurd (ground arith)
  returned-End (getting_arguments m c) s h d f = absurd (ground arith)
  returned-End (running m c a) s h d f = rw (d.1.1, d.1.3) (refl, rw (d.1.0, d.1.2, d.2) refl)

  -- the child, when the parent has raised what it was told
  raised-End :
      (e : Error) (c : ChildAt) (s : Startup)
      → Sent loader job (raised e) s
      → Said loader job c s.from_child
      → End (raised e) c
  raised-End e not_started s (message, e', n, g, t) d = absurd (ground arith)
  raised-End e connecting s (message, e', n, g, t) d = absurd (ground arith)
  raised-End e getting_module s (message, e', n, g, t) d = absurd (ground arith)
  raised-End e exited s (message, e', n, g, t) d = elim (exited-cases s.from_child d) [
    | inl (raises, said) ↦ absurd (ground arith)
    | inr (x, runs, fails, said) ↦ rw (runs, fails) (ground arith, refl)
  ]
  raised-End e (getting_class m) s (message, e', n, g, t) d = absurd (ground arith)
  raised-End e (saying_ok m c) s (message, e', n, g, t) d = absurd (ground arith)
  raised-End e (getting_arguments m c) s (message, e', n, g, t) d = absurd (ground arith)
  raised-End e (running m c a) s (message, e', n, g, t) d = absurd (ground arith)

  -- the child has nothing to wait for before the parent has its first message
  no_greeting_stuck :
      (c : ChildAt) (s : Startup)
      → is_started c ≡ true
      → Said loader job c s.from_child
      → greeted (get_elem? s.from_child 0) s ≡ none
      → setup loader c s ≡ none
      → ⊥
  unfolding setup greeted
  no_greeting_stuck not_started s b d e f = ground arith
  no_greeting_stuck connecting s b d e f = ground arith
  no_greeting_stuck getting_module s b d e f = ground arith
  no_greeting_stuck exited s b d e f = elim (exited-cases s.from_child d) [
    | inl (raises, said) ↦ ground arith
    | inr (t, runs, fails, said) ↦ ground arith
  ]
  no_greeting_stuck (getting_class m) s b d e f = ground arith
  no_greeting_stuck (saying_ok m c) s b d e f = ground arith
  no_greeting_stuck (getting_arguments m c) s b d e f = ground arith
  no_greeting_stuck (running m c a) s b d e f = ground arith

  pub stuck-End :
      (p : ParentAt) (s : Startup)
      → Sent loader job p s
      → Said loader job s.child s.from_child
      → start job p s ≡ none
      → setup loader s.child s ≡ none
      → End p s.child
  unfolding start begin settle
  stuck-End new s h d e f = absurd (ground arith)
  stuck-End launching s h d e f = absurd (ground arith)
  stuck-End waiting_hello s h d e f = absurd (no_greeting_stuck s.child s h.1 d e f)
  stuck-End (settling none) s h d e f = absurd (ground arith)
  stuck-End (settling (some x)) s h d e f = absurd h
  stuck-End putting_module s h d e f = absurd (ground arith)
  stuck-End putting_class s h d e f = absurd (ground arith)
  stuck-End getting_response s h d e f = response-End s.child s h h.1 d e f
  stuck-End putting_arguments s h d e f = absurd (ground arith)
  stuck-End returned s h d e f = returned-End s.child s h d f
  stuck-End (raised x) s h d e f = raised-End x s.child s h d
