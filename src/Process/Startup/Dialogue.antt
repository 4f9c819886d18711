-- ===== src/Process/Startup/Dialogue.antt =====
-- The messages between a process that starts another and the child (zprocess/process_tree.py,
-- Process.start, and zprocess/process_class_wrapper.py).
use zprocess.Base.{
  ℕ, ◌≡◌, refl, ap, true, Option, none, some, [], ◌∷◌, ◌++◌, get_elem?, Option-cases, Bool-cases,
  inl, inr,
}
use mathlib.Core.Path.{subst}
use zprocess.Process.Startup.{
  Message, hello, ok, failure, ChildAt, not_started, connecting, getting_module, exited,
  getting_class, saying_ok, getting_arguments, running, Startup, Job, Loader, got_module, got_class,
  got_arguments, setup,
}
use zprocess.Process.Startup.Sound.{is_started}
use zprocess.Process.Startup.Talks.{get_elem?-append, Sent, Said, Talking, child-Talking, got}

module _ (loader : Loader) (job : Job) where
  got_module-Talking :
      (o : Option Message) (s : Startup)
      → get_elem? s.to_child 0 ≡ o
      → is_started s.child ≡ true
      → Sent loader job s.parent s
      → s.from_child ≡ hello ∷ []
      → Talking loader job (got_module loader o s)
  unfolding got_module
  got_module-Talking none s e b h c = tt
  got_module-Talking (some message) s e b h c =
      subst (λ o. Talking loader job (got_module loader o s))
        (got loader job s.parent s 0 message h e)
        (elim (Bool-cases (loader.executes job.module_info)) [
          | inl runs ↦ rw runs (
              child-Talking loader job (getting_class job.module_info) s.from_child s b refl
                (λ m k. k) h (c, refl, runs))
          | inr fails ↦ rw fails (
              child-Talking loader job exited s.from_child s b refl (λ m k. k) h
                (rw (c, fails) refl))
        ])

  got_class-Talking :
      (m : ℕ) (o : Option Message) (s : Startup)
      → get_elem? s.to_child 1 ≡ o
      → is_started s.child ≡ true
      → Sent loader job s.parent s
      → Said loader job (getting_class m) s.from_child
      → Talking loader job (got_class loader m o s)
  unfolding got_class
  got_class-Talking m none s e b h c = tt
  got_class-Talking m (some message) s e b h c =
      subst (λ o. Talking loader job (got_class loader m o s))
        (got loader job s.parent s 1 message h e)
        (elim (Option-cases (loader.traceback_of job.class_sent)) [
          | inl loads ↦ rw loads (
              child-Talking loader job (saying_ok m job.class_sent) s.from_child s b refl (λ x k. k)
                h (c.0, (c.1, c.2, refl, loads)))
          | inr (traceback, fails) ↦ rw fails (
              child-Talking loader job exited (s.from_child ++ (failure traceback ∷ [])) s b refl
                (λ x k. get_elem?-append s.from_child (failure traceback ∷ []) 1 x k) h
                (rw (c.0, c.2, fails) refl))
        ])

  got_arguments-Talking :
      (m c : ℕ) (o : Option Message) (s : Startup)
      → get_elem? s.to_child 2 ≡ o
      → is_started s.child ≡ true
      → Sent loader job s.parent s
      → Said loader job (getting_arguments m c) s.from_child
      → Talking loader job (got_arguments loader m c o s)
  unfolding got_arguments
  got_arguments-Talking m c none s e b h d = tt
  got_arguments-Talking m c (some message) s e b h d =
      subst (λ o. Talking loader job (got_arguments loader m c o s))
        (got loader job s.parent s 2 message h e)
        (child-Talking loader job (running m c job.args) s.from_child s b refl (λ x k. k) h
          (d.0, d.1, refl))

  pub setup-Talking :
      (c : ChildAt) (s : Startup)
      → is_started s.child ≡ is_started c
      → Sent loader job s.parent s
      → Said loader job c s.from_child
      → Talking loader job (setup loader c s)
  unfolding setup
  setup-Talking not_started s b h c = tt
  setup-Talking connecting s b h c =
      child-Talking loader job getting_module (s.from_child ++ (hello ∷ [])) s b refl
        (λ x k. get_elem?-append s.from_child (hello ∷ []) 1 x k) h (ap (λ x. x ++ (hello ∷ [])) c)
  setup-Talking getting_module s b h c = got_module-Talking _ s refl b h c
  setup-Talking exited s b h c = tt
  setup-Talking (getting_class m) s b h c = got_class-Talking m _ s refl b h c
  setup-Talking (saying_ok m x) s b h c =
      child-Talking loader job (getting_arguments m x) (s.from_child ++ (ok ∷ [])) s b refl
        (λ y k. get_elem?-append s.from_child (ok ∷ []) 1 y k) h (ap (λ y. y ++ (ok ∷ [])) c.0, c.1)
  setup-Talking (getting_arguments m x) s b h c = got_arguments-Talking m x _ s refl b h c
  setup-Talking (running m x a) s b h c = tt
