-- ===== src/Remote/Server/Polls.antt =====
-- What the polls of the remote process server do to a child (the bodies of the loops of `timeout`
-- of zprocess/remote/server.py).
use zprocess.Base.{
  ℕ, ◌+◌, ◌≡◌, refl, sym, ap, ◌∙◌, true, false, none, some, ◌==◌, ltb, if◌then◌else◌, contains,
  arith, Bool-cases, ==_iff, Option-cases, inl, inr, remove, contains-remove,
}
use mathlib.Core.Path.{subst}
use zprocess.Base.Dict.{get, put, del, is_some, get-put, get-del, put-Unique, del-Unique}
use zprocess.Remote.Server.{
  Popen, Server, done, forget, Report, poll_orphan, poll_child, clean_up, cleanup_interval,
}
use zprocess.Remote.Server.Phases.{
  Phase, absent, running, orphaned, ended, child_of, is_orphaned, ended_at, Shows, Models, Acts,
  Models-ext, Unique-remove, settle, without, forget_child, without-Models, at_pid,
}

abbrev pub orphan_polled : Report → Phase → Phase
orphan_polled report (orphaned c ip) = if is_some (report c) then absent else orphaned c ip
orphan_polled report phase = phase

abbrev pub child_polled : ℕ → Report → Phase → Phase
child_polled now report (running c ip) = if is_some (report c) then ended c ip now else running c ip
child_polled now report phase = phase

abbrev pub cleaned : ℕ → Phase → Phase
cleaned now (ended c ip time) =
    if ltb (time + cleanup_interval) now then absent else ended c ip time
cleaned now phase = phase

-- what a timeout makes of a child, whatever becomes of the others
abbrev pub timed : ℕ → Report → Report → Phase → Phase
timed now early late phase = cleaned now (child_polled now late (orphan_polled early phase))

pub dropped :
    {A : Type 0} (f : ℕ → A) (pid p : ℕ) (a : A) → f pid ≡ a → f p ≡ (if pid == p then a else f p)
dropped f pid p a e = elim (Bool-cases (pid == p)) [
  | inl k ↦ ap f (sym ((==_iff pid p).0 k)) ∙ e ∙ sym (ap (λ b. if b then a else f p) k)
  | inr k ↦ sym (ap (λ b. if b then a else f p) k)
]

pub unchanged :
    (s : Server) (pid : ℕ) (x : Phase) (change : Phase → Phase) (phase : ℕ → Phase)
    → phase pid ≡ x
    → change x ≡ x
    → Models s phase
    → Models s (λ p. if pid == p then change (phase p) else phase p)
unchanged s pid x change phase e h m =
    settle s pid x change phase (ap change e ∙ h)
      (Models-ext s _ _ (λ p. dropped phase pid p x e) m)

poll_orphan_dead :
    (report : Report) (pid rc : ℕ) (c : Popen) (s s' : Server)
    → get pid s.children ≡ some c
    → report c ≡ some rc
    → forget pid s ≡ (done tt, s')
    → poll_orphan report pid s ≡ (done tt, record s' { orphans = remove pid s'.orphans })
unfolding poll_orphan
poll_orphan_dead report pid rc c s s' g h f = ground arith

pub dropped_as :
    (p pid : ℕ) (s : Server)
    → contains p (remove pid s.orphans) ≡ (if pid == p then false else contains p s.orphans)
dropped_as p pid s = ground (arith, contains-remove p pid s.orphans)

pub poll_orphan-Acts :
    (report : Report) (pid : ℕ) (s : Server) (phase : ℕ → Phase) (x : Phase)
    → phase pid ≡ x
    → Models s phase
    → is_orphaned x ≡ true
    → Acts (poll_orphan report pid) pid (orphan_polled report) s phase
unfolding poll_orphan
poll_orphan-Acts report pid s phase absent e m o = absurd (ground arith)
poll_orphan-Acts report pid s phase (running c ip) e m o = absurd (ground arith)
poll_orphan-Acts report pid s phase (ended c ip t) e m o = absurd (ground arith)
poll_orphan-Acts report pid s phase (orphaned c ip) e m o =
    let shown : Shows pid s (orphaned c ip) = subst (Shows pid s) e (m.shows pid) in
    elim (Option-cases (report c)) [
      | inl h ↦ (
        s,
        ground (arith, shown.child),
        unchanged s pid (orphaned c ip) (orphan_polled report) phase e (ground arith) m,
      )
      | inr (rc, h) ↦ (
        without pid c (remove pid s.orphans) s.time_of_termination s,
        poll_orphan_dead report pid rc c s _ shown.child h
            (forget_child pid c ip s shown.child shown.parent shown.owned.1),
        settle _ pid absent (orphan_polled report) phase
            (ap (orphan_polled report) e ∙ ap (λ o. if is_some o then absent else orphaned c ip) h)
            (without-Models pid c (remove pid s.orphans) s.time_of_termination s phase shown.owned.0
              (Unique-remove pid s.orphans m.tidy.orphans) m.tidy.times (λ p. dropped_as p pid s)
              (λ p. dropped (λ q. get q s.time_of_termination) pid p none shown.time) m),
      )
    ]

seen_dead :
    (now pid : ℕ) (s : Server) (phase : ℕ → Phase) (c : Popen) (ip : ℕ)
    → phase pid ≡ running c ip
    → Models s phase
    → Models
        (record s { time_of_termination = put pid now s.time_of_termination })
        (λ p. if pid == p then ended c ip now else phase p)
seen_dead now pid s phase c ip e m =
    let shown : Shows pid s (running c ip) = subst (Shows pid s) e (m.shows pid) in
    at_pid _ pid (ended c ip now) phase
      record {
        orphans = m.tidy.orphans;
        children = m.tidy.children;
        times = put-Unique pid now s.time_of_termination m.tidy.times;
      }
      record {
        child = shown.child;
        parent = shown.parent;
        orphan = shown.orphan;
        time = get-put pid pid now s.time_of_termination ∙ ground arith;
        owned = shown.owned;
      }
      λ p h. record {
        child = (m.shows p).child;
        parent = (m.shows p).parent;
        orphan = (m.shows p).orphan;
        time = ground (arith, get-put p pid now s.time_of_termination, (m.shows p).time);
        owned = (m.shows p).owned;
      }

-- What a poll must not find: an orphan that has died since it was last polled.
abbrev pub Alive : Report → Phase → Type 0
Alive report (orphaned c ip) = report c ≡ none
Alive report _ = Unit

pub poll_child-Acts :
    (now : ℕ) (report : Report) (pid : ℕ) (s : Server) (phase : ℕ → Phase) (x : Phase)
    → phase pid ≡ x
    → Models s phase
    → (is_some (child_of x) ≡ true) × Alive report x
    → Acts (poll_child now report pid) pid (child_polled now report) s phase
unfolding poll_child
poll_child-Acts now report pid s phase absent e m o = absurd (ground arith)
poll_child-Acts now report pid s phase (orphaned c ip) e m o =
    let shown : Shows pid s (orphaned c ip) = subst (Shows pid s) e (m.shows pid) in
    (
      s,
      ground (arith, shown.child, shown.time, o.1),
      unchanged s pid _ (child_polled now report) phase e refl m,
    )
poll_child-Acts now report pid s phase (ended c ip t) e m o =
    let shown : Shows pid s (ended c ip t) = subst (Shows pid s) e (m.shows pid) in
    (s, ground (arith, shown.time), unchanged s pid _ (child_polled now report) phase e refl m)
poll_child-Acts now report pid s phase (running c ip) e m o =
    let shown : Shows pid s (running c ip) = subst (Shows pid s) e (m.shows pid) in
    elim (Option-cases (report c)) [
      | inl h ↦ (
        s,
        ground (arith, shown.child, shown.time),
        unchanged s pid (running c ip) (child_polled now report) phase e (ground arith) m,
      )
      | inr (rc, h) ↦ (
        record s { time_of_termination = put pid now s.time_of_termination },
        ground (arith, shown.child, shown.time),
        settle _ pid (ended c ip now) (child_polled now report) phase
            (ap (child_polled now report) e
              ∙ ap (λ o. if is_some o then ended c ip now else running c ip) h)
            (seen_dead now pid s phase c ip e m),
      )
    ]

clean_up_old :
    (now pid time : ℕ) (s s' : Server)
    → get pid s.time_of_termination ≡ some time
    → ltb (time + cleanup_interval) now ≡ true
    → forget pid s ≡ (done tt, s')
    → clean_up now pid s
      ≡ (done tt, record s' { time_of_termination = del pid s'.time_of_termination })
unfolding clean_up
clean_up_old now pid time s s' g h f = ground arith

pub clean_up-Acts :
    (now pid : ℕ) (s : Server) (phase : ℕ → Phase) (x : Phase)
    → phase pid ≡ x
    → Models s phase
    → is_some (ended_at x) ≡ true
    → Acts (clean_up now pid) pid (cleaned now) s phase
unfolding clean_up
clean_up-Acts now pid s phase absent e m o = absurd (ground arith)
clean_up-Acts now pid s phase (running c ip) e m o = absurd (ground arith)
clean_up-Acts now pid s phase (orphaned c ip) e m o = absurd (ground arith)
clean_up-Acts now pid s phase (ended c ip t) e m o =
    let shown : Shows pid s (ended c ip t) = subst (Shows pid s) e (m.shows pid) in
    elim (Bool-cases (ltb (t + cleanup_interval) now)) [
      | inr h ↦ (
        s,
        ground (arith, shown.time),
        unchanged s pid (ended c ip t) (cleaned now) phase e (ground arith) m,
      )
      | inl h ↦ (
        without pid c s.orphans (del pid s.time_of_termination) s,
        clean_up_old now pid t s _ shown.time h
            (forget_child pid c ip s shown.child shown.parent shown.owned.1),
        settle _ pid absent (cleaned now) phase
            (ap (cleaned now) e ∙ ap (λ b. if b then absent else ended c ip t) h)
            (without-Models pid c s.orphans (del pid s.time_of_termination) s phase shown.owned.0
              m.tidy.orphans (del-Unique pid s.time_of_termination m.tidy.times)
              (λ p. dropped (λ q. contains q s.orphans) pid p false shown.orphan)
              (λ p. get-del p pid s.time_of_termination) m),
      )
    ]
