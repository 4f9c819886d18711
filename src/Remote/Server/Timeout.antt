-- ===== src/Remote/Server/Timeout.antt =====
-- The timeout of the remote process server, child by child (`timeout` of zprocess/remote/server.py).
use zprocess.Base.{ℕ, ◌≡◌, refl, sym, ap, ◌∙◌, true, none, if◌then◌else◌, Option-cases, inl, inr}
use mathlib.Core.Path.{subst}
use zprocess.Base.Dict.{keys, is_some, contains-keys}
use zprocess.Remote.Server.{
  Server, done, Report, poll_orphan, poll_child, clean_up, ◌>>◌, poll_orphans, poll_children,
  clean_up_all, timeout,
}
use zprocess.Remote.Server.Phases.{
  Phase, absent, running, orphaned, ended, child_of, is_orphaned, ended_at, Models, Models-ext,
  for_each-Models, resume,
}
use zprocess.Remote.Server.Polls.{
  orphan_polled, child_polled, cleaned, timed, Alive, poll_orphan-Acts, poll_child-Acts,
  clean_up-Acts,
}

-- Each orphan that still runs in the first round of polls still runs in the second.
abbrev pub Agree : Report → Report → Phase → Type 0
Agree early late (orphaned c ip) = early c ≡ none → late c ≡ none
Agree early late _ = Unit

orphan_polled-Alive :
    (early late : Report) (x : Phase) → Agree early late x → Alive late (orphan_polled early x)
orphan_polled-Alive early late absent a = tt
orphan_polled-Alive early late (running c ip) a = tt
orphan_polled-Alive early late (ended c ip t) a = tt
orphan_polled-Alive early late (orphaned c ip) a = elim (Option-cases (early c)) [
  | inl h ↦ subst (λ o. Alive late (if is_some o then absent else orphaned c ip)) (sym h) (a h)
  | inr (rc, h) ↦ subst (λ o. Alive late (if is_some o then absent else orphaned c ip)) (sym h) tt
]

only_orphans :
    (report : Report) (x : Phase)
    → (if is_orphaned x then orphan_polled report x else x) ≡ orphan_polled report x
only_orphans report absent = refl
only_orphans report (running c ip) = refl
only_orphans report (orphaned c ip) = refl
only_orphans report (ended c ip t) = refl

only_children :
    (now : ℕ) (report : Report) (x : Phase)
    → (if is_some (child_of x) then child_polled now report x else x) ≡ child_polled now report x
only_children now report absent = refl
only_children now report (running c ip) = refl
only_children now report (orphaned c ip) = refl
only_children now report (ended c ip t) = refl

only_ended :
    (now : ℕ) (x : Phase) → (if is_some (ended_at x) then cleaned now x else x) ≡ cleaned now x
only_ended now absent = refl
only_ended now (running c ip) = refl
only_ended now (orphaned c ip) = refl
only_ended now (ended c ip t) = refl

-- Whatever children there are, a timeout succeeds, and to each child it does what its own phase and its
-- own polls call for, unless an orphan dies between the two rounds of polls.
pub timeout-Models :
    (now : ℕ) (early late : Report) (s : Server) (phase : ℕ → Phase)
    → Models s phase
    → ((p : ℕ) → Agree early late (phase p))
    → (s' : Server) × (timeout now early late s ≡ (done tt, s'))
      × Models s' (λ p. timed now early late (phase p))
unfolding timeout
timeout-Models now early late s phase m a =
    let (s₁, e₁, m₁) =
      for_each-Models (poll_orphan early) (orphan_polled early) (λ x. is_orphaned x ≡ true)
        (λ pid s phase m r. poll_orphan-Acts early pid s phase (phase pid) refl m r) s.orphans s
        phase m.tidy.orphans (λ p h. sym (m.shows p).orphan ∙ h) m in
    let n₁ : Models s₁ (λ p. orphan_polled early (phase p)) =
      Models-ext s₁ _ _
        (λ p.
          ap (λ b. if b then orphan_polled early (phase p) else phase p) (m.shows p).orphan
          ∙ only_orphans early (phase p))
        m₁ in
    let (s₂, e₂, m₂) =
      for_each-Models (poll_child now late) (child_polled now late)
        (λ x. (is_some (child_of x) ≡ true) × Alive late x)
        (λ pid s phase m r. poll_child-Acts now late pid s phase (phase pid) refl m r)
        (keys s₁.children) s₁ _ n₁.tidy.children
        (λ p h. (
          sym (contains-keys p s₁.children ∙ ap is_some (n₁.shows p).child) ∙ h,
          orphan_polled-Alive early late (phase p) (a p),
        ))
        n₁ in
    let n₂ : Models s₂ (λ p. child_polled now late (orphan_polled early (phase p))) =
      Models-ext s₂ _ _
        (λ p.
          ap
            (λ b.
              if b
              then child_polled now late (orphan_polled early (phase p))
              else orphan_polled early (phase p))
            (contains-keys p s₁.children ∙ ap is_some (n₁.shows p).child)
          ∙ only_children now late (orphan_polled early (phase p)))
        m₂ in
    let (s₃, e₃, m₃) =
      for_each-Models (clean_up now) (cleaned now) (λ x. is_some (ended_at x) ≡ true)
        (λ pid s phase m r. clean_up-Acts now pid s phase (phase pid) refl m r)
        (keys s₂.time_of_termination) s₂ _ n₂.tidy.times
        (λ p h. sym (contains-keys p s₂.time_of_termination ∙ ap is_some (n₂.shows p).time) ∙ h)
        n₂ in
    (
      s₃,
      resume (poll_orphans early >> poll_children now late) (λ u. clean_up_all now) s s₂ tt
            (resume (poll_orphans early) (λ u. poll_children now late) s s₁ tt e₁ ∙ e₂)
          ∙ e₃,
      Models-ext s₃ _ _
          (λ p.
            ap
              (λ b.
                if b
                then timed now early late (phase p)
                else child_polled now late (orphan_polled early (phase p)))
              (contains-keys p s₂.time_of_termination ∙ ap is_some (n₂.shows p).time)
            ∙ only_ended now (child_polled now late (orphan_polled early (phase p))))
          m₃,
    )
