-- ===== src/Process/Startup/Talks.antt =====
-- What the two ends of a start know while they talk (zprocess/process_tree.py, Process.start, and
-- zprocess/process_class_wrapper.py).
use zprocess.Base.{
  ℕ, zero, suc, ◌≡◌, ◌≢◌, refl, ap, true, false, Option, none, some, List, [], ◌∷◌, ◌++◌, get_elem?,
  if◌then◌else◌, arith,
}
use mathlib.Core.Path.{subst}
use zprocess.Process.Startup.{
  Message, hello, ok, a_module, a_class, arguments, failure, ParentAt, new, launching,
  waiting_hello, settling, putting_module, putting_class, getting_response, putting_arguments,
  returned, raised, ChildAt, not_started, connecting, getting_module, exited, getting_class,
  saying_ok, getting_arguments, running, child_error, Startup, Job, Loader, begin, greeted, settle,
  responded, start,
}
use zprocess.Process.Startup.Sound.{is_started}

pub get_elem?-append {ℓ} :
    {A : Type ℓ} (xs ys : List A) (i : ℕ) (a : A)
    → get_elem? xs i ≡ some a
    → get_elem? (xs ++ ys) i ≡ some a
get_elem?-append [] ys i a e = absurd (ground arith)
get_elem?-append (x ∷ xs) ys zero a e = e
get_elem?-append (x ∷ xs) ys (suc i) a e = get_elem?-append xs ys i a e

module _ (loader : Loader) (job : Job) where
  -- the messages of a start, in their order
  abbrev pub first : Message
  first = a_module job.module_info

  abbrev pub second : Message
  second = a_class job.class_sent

  abbrev pub third : Message
  third = arguments job.args

  -- What each end knows, in a run without interruption, timeouts and failing calls: by where the
  -- parent is, what it has sent and what it has been told,
  abbrev pub Sent : ParentAt → Startup → Type 0
  Sent new s = (s.to_child ≡ []) × (is_started s.child ≡ false) × (s.interruption ≡ none)
  Sent launching s = (s.to_child ≡ []) × (is_started s.child ≡ false)
  Sent waiting_hello s = (s.to_child ≡ []) × (is_started s.child ≡ true)
  Sent (settling none) s = (s.to_child ≡ []) × (is_started s.child ≡ true)
  Sent (settling (some e)) s = ⊥
  Sent putting_module s = (s.to_child ≡ []) × (is_started s.child ≡ true)
  Sent putting_class s = (s.to_child ≡ first ∷ []) × (is_started s.child ≡ true)
  Sent getting_response s = (s.to_child ≡ first ∷ second ∷ []) × (is_started s.child ≡ true)
  Sent putting_arguments s =
      (s.to_child ≡ first ∷ second ∷ []) × (get_elem? s.from_child 1 ≡ some ok)
  Sent returned s =
      (s.to_child ≡ first ∷ second ∷ third ∷ []) × (get_elem? s.from_child 1 ≡ some ok)
  Sent (raised e) s =
      (message : Message) × (e ≡ child_error message)
      × (message ≢ ok)
      × (get_elem? s.from_child 1 ≡ some message)
      × (s.to_child ≡ first ∷ second ∷ [])

  -- all that a child says that does not get to run the class
  abbrev pub last_words : Option (List Message)
  last_words =
      if loader.executes job.module_info
      then elim (loader.traceback_of job.class_sent) [
        | none ↦ none
        | some traceback ↦ some (hello ∷ failure traceback ∷ [])
      ]
      else some (hello ∷ [])

  abbrev pub Loads : ℕ → ℕ → Type 0
  Loads m c =
      (m ≡ job.module_info)
      × (loader.executes job.module_info ≡ true)
      × (c ≡ job.class_sent)
      × (loader.traceback_of job.class_sent ≡ none)

  -- and by where the child is, what it has got and said.
  abbrev pub Said : ChildAt → List Message → Type 0
  Said not_started said = said ≡ []
  Said connecting said = said ≡ []
  Said getting_module said = said ≡ hello ∷ []
  Said (getting_class m) said =
      (said ≡ hello ∷ []) × (m ≡ job.module_info) × (loader.executes job.module_info ≡ true)
  Said (saying_ok m c) said = (said ≡ hello ∷ []) × Loads m c
  Said (getting_arguments m c) said = (said ≡ hello ∷ ok ∷ []) × Loads m c
  Said (running m c a) said = (said ≡ hello ∷ ok ∷ []) × Loads m c × (a ≡ job.args)
  Said exited said = some said ≡ last_words

  abbrev pub Talks : Startup → Type 0
  Talks s = Sent s.parent s × Said s.child s.from_child

  abbrev pub Talking : Option Startup → Type 0
  Talking none = Unit
  Talking (some s) = Talks s

  responded-Talking :
      (o : Option Message) (s : Startup)
      → get_elem? s.from_child 1 ≡ o
      → Sent getting_response s
      → Said s.child s.from_child
      → Talking (responded o s)
  unfolding responded
  responded-Talking none s e h c = tt
  responded-Talking (some ok) s e h c = ((h.0, e), c)
  responded-Talking (some hello) s e h c = ((_, refl, λ x. ground arith, e, h.0), c)
  responded-Talking (some (a_module m)) s e h c = ((_, refl, λ x. ground arith, e, h.0), c)
  responded-Talking (some (a_class m)) s e h c = ((_, refl, λ x. ground arith, e, h.0), c)
  responded-Talking (some (arguments m)) s e h c = ((_, refl, λ x. ground arith, e, h.0), c)
  responded-Talking (some (failure m)) s e h c = ((_, refl, λ x. ground arith, e, h.0), c)

  -- the first message, if there is one
  first-hello :
      (child : ChildAt) (said : List Message) (message : Message)
      → Said child said
      → get_elem? said 0 ≡ some message
      → message ≡ hello
  first-hello not_started said message c e = absurd (ground arith)
  first-hello connecting said message c e = absurd (ground arith)
  first-hello getting_module said message c e = ground arith
  first-hello (getting_class m) said message c e = ground arith
  first-hello (saying_ok m x) said message c e = ground arith
  first-hello (getting_arguments m x) said message c e = ground arith
  first-hello (running m x a) said message c e = ground arith
  first-hello exited said message c e = ground arith

  silent :
      (child : ChildAt) (said : List Message)
      → is_started child ≡ false
      → Said child said
      → said ≡ []
  silent not_started said b c = c
  silent connecting said b c = absurd (ground arith)
  silent getting_module said b c = absurd (ground arith)
  silent exited said b c = absurd (ground arith)
  silent (getting_class m) said b c = absurd (ground arith)
  silent (saying_ok m x) said b c = absurd (ground arith)
  silent (getting_arguments m x) said b c = absurd (ground arith)
  silent (running m x a) said b c = absurd (ground arith)

  greeted-Talking :
      (o : Option Message) (s : Startup)
      → get_elem? s.from_child 0 ≡ o
      → Sent waiting_hello s
      → Said s.child s.from_child
      → Talking (greeted o s)
  unfolding greeted
  greeted-Talking none s e h c = tt
  greeted-Talking (some hello) s e h c = (h, c)
  greeted-Talking (some ok) s e h c =
      absurd (ground (arith, first-hello s.child s.from_child _ c e))
  greeted-Talking (some (a_module m)) s e h c =
      absurd (ground (arith, first-hello s.child s.from_child _ c e))
  greeted-Talking (some (a_class m)) s e h c =
      absurd (ground (arith, first-hello s.child s.from_child _ c e))
  greeted-Talking (some (arguments m)) s e h c =
      absurd (ground (arith, first-hello s.child s.from_child _ c e))
  greeted-Talking (some (failure m)) s e h c =
      absurd (ground (arith, first-hello s.child s.from_child _ c e))

  pub start-Talking :
      (p : ParentAt) (s : Startup) → Sent p s → Said s.child s.from_child → Talking (start job p s)
  unfolding start begin settle
  start-Talking new s h c = rw h.2 ((h.0, h.1), c)
  start-Talking launching s h c = ((h.0, refl), silent s.child s.from_child h.1 c)
  start-Talking waiting_hello s h c = greeted-Talking _ s refl h c
  start-Talking (settling none) s h c = (h, c)
  start-Talking (settling (some e)) s h c = absurd h
  start-Talking putting_module s h c = ((ap (λ x. x ++ (first ∷ [])) h.0, h.1), c)
  start-Talking putting_class s h c = ((ap (λ x. x ++ (second ∷ [])) h.0, h.1), c)
  start-Talking getting_response s h c = responded-Talking _ s refl h c
  start-Talking putting_arguments s h c = ((ap (λ x. x ++ (third ∷ [])) h.0, h.1), c)
  start-Talking returned s h c = tt
  start-Talking (raised e) s h c = tt

  -- a step of the child leaves what the parent knows
  Sent-child :
      (p : ParentAt) (child : ChildAt) (said : List Message) (s : Startup)
      → is_started s.child ≡ true
      → is_started child ≡ true
      → ((message : Message)
          → get_elem? s.from_child 1 ≡ some message
          → get_elem? said 1 ≡ some message)
      → Sent p s
      → Sent p (record s { child = child; from_child = said })
  Sent-child new child said s b b' k h = absurd (ground arith)
  Sent-child launching child said s b b' k h = absurd (ground arith)
  Sent-child waiting_hello child said s b b' k h = (h.0, b')
  Sent-child (settling none) child said s b b' k h = (h.0, b')
  Sent-child (settling (some e)) child said s b b' k h = h
  Sent-child putting_module child said s b b' k h = (h.0, b')
  Sent-child putting_class child said s b b' k h = (h.0, b')
  Sent-child getting_response child said s b b' k h = (h.0, b')
  Sent-child putting_arguments child said s b b' k h = (h.0, k ok h.1)
  Sent-child returned child said s b b' k h = (h.0, k ok h.1)
  Sent-child (raised e) child said s b b' k (message, e', n, g, t) =
      (message, e', n, k message g, t)

  -- what the child gets is what it expects
  got-prefix :
      (to_child xs ys : List Message) (i : ℕ) (message : Message)
      → to_child ≡ xs
      → get_elem? to_child i ≡ some message
      → get_elem? (xs ++ ys) i ≡ some message
  got-prefix to_child xs ys i message h e =
      get_elem?-append xs ys i message (subst (λ x. get_elem? x i ≡ some message) h e)

  pub got :
      (p : ParentAt) (s : Startup) (i : ℕ) (message : Message)
      → Sent p s
      → get_elem? s.to_child i ≡ some message
      → get_elem? (first ∷ second ∷ third ∷ []) i ≡ some message
  got new s i message h e = got-prefix s.to_child [] (first ∷ second ∷ third ∷ []) i message h.0 e
  got launching s i message h e =
      got-prefix s.to_child [] (first ∷ second ∷ third ∷ []) i message h.0 e
  got waiting_hello s i message h e =
      got-prefix s.to_child [] (first ∷ second ∷ third ∷ []) i message h.0 e
  got (settling none) s i message h e =
      got-prefix s.to_child [] (first ∷ second ∷ third ∷ []) i message h.0 e
  got (settling (some x)) s i message h e = absurd h
  got putting_module s i message h e =
      got-prefix s.to_child [] (first ∷ second ∷ third ∷ []) i message h.0 e
  got putting_class s i message h e =
      got-prefix s.to_child (first ∷ []) (second ∷ third ∷ []) i message h.0 e
  got getting_response s i message h e =
      got-prefix s.to_child (first ∷ second ∷ []) (third ∷ []) i message h.0 e
  got putting_arguments s i message h e =
      got-prefix s.to_child (first ∷ second ∷ []) (third ∷ []) i message h.0 e
  got returned s i message h e =
      got-prefix s.to_child (first ∷ second ∷ third ∷ []) [] i message h.0 e
  got (raised x) s i message (m, e', n, g, t) e =
      got-prefix s.to_child (first ∷ second ∷ []) (third ∷ []) i message t e

  -- a step of a child that is there, to a state in which it has said something more
  pub child-Talking :
      (child : ChildAt) (said : List Message) (s : Startup)
      → is_started s.child ≡ true
      → is_started child ≡ true
      → ((message : Message)
          → get_elem? s.from_child 1 ≡ some message
          → get_elem? said 1 ≡ some message)
      → Sent s.parent s
      → Said child said
      → Talks (record s { child = child; from_child = said })
  child-Talking child said s b b' k h c = (Sent-child s.parent child said s b b' k h, c)
