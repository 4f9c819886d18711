-- ===== src/Remote/Server/Answers.antt =====
-- What the handler of the remote process server answers, by the phase of the child that a request is
-- about (`handler` and the `proxy_` methods of zprocess/remote/server.py).
use zprocess.Base.{
  ℕ, ◌≡◌, refl, ap, ◌∙◌, true, false, none, some, List, ◌==◌, if◌then◌else◌, contains, add,
  contains-add, arith, Bool-cases, Option-cases, inl, inr,
}
use mathlib.Core.Path.{subst}
use zprocess.Base.Dict.{get, del, is_some, Unique, get-del, del-Unique}
use zprocess.Remote.Server.{Popen, Server, Outcome, done, forget, Report}
use zprocess.Remote.Server.Handler.{Action, wait, poll, delete, Response, code, proxy_del}
use zprocess.Remote.Server.Phases.{
  Phase, absent, running, orphaned, ended, child_of, Shows, Models, at_pid, settle, without,
  forget_child, without-Models, Owned,
}
use zprocess.Remote.Server.Polls.{dropped}

-- what an action makes of a child
abbrev pub after : Report → Action → Phase → Phase
after report delete (running c ip) = if is_some (report c) then absent else orphaned c ip
after report delete (ended c ip time) = absent
after report action phase = phase

-- what the client of an action on a child is told
abbrev pub reply : Report → Action → Popen → Response
reply report wait c = code (report c)
reply report poll c = code (report c)
reply report action c = code none

-- A child that was seen dead is dead, and a child that a client gives up again still runs.
abbrev pub Fits : Report → Action → Phase → Type 0
Fits report delete (orphaned c ip) = report c ≡ none
Fits report delete (ended c ip time) = is_some (report c) ≡ true
Fits report action phase = Unit

proxy_del_dead :
    (report : Report) (pid rc : ℕ) (c : Popen) (s s' : Server)
    → get pid s.children ≡ some c
    → report c ≡ some rc
    → get pid s.time_of_termination ≡ none
    → forget pid s ≡ (done tt, s')
    → s'.time_of_termination ≡ s.time_of_termination
    → proxy_del report pid s ≡ (done tt, s')
unfolding proxy_del
proxy_del_dead report pid rc c s s' g h t f e = ground arith

proxy_del_ended :
    (report : Report) (pid rc time : ℕ) (c : Popen) (s s' : Server)
    → get pid s.children ≡ some c
    → report c ≡ some rc
    → get pid s'.time_of_termination ≡ some time
    → forget pid s ≡ (done tt, s')
    → proxy_del report pid s
      ≡ (done tt, record s' { time_of_termination = del pid s'.time_of_termination })
unfolding proxy_del
proxy_del_ended report pid rc time c s s' g h t f = ground arith

proxy_del_alive :
    (report : Report) (pid : ℕ) (c : Popen) (s : Server)
    → get pid s.children ≡ some c
    → report c ≡ none
    → proxy_del report pid s ≡ (done tt, record s { orphans = add pid s.orphans })
unfolding proxy_del
proxy_del_alive report pid c s g h = ground arith

add-Unique : (p : ℕ) (xs : List ℕ) → Unique xs → Unique (add p xs)
unfolding add
add-Unique p xs u = elim (Bool-cases (contains p xs)) [
  | inl h ↦ ground arith
  | inr h ↦ ground arith
]

given_up :
    (pid : ℕ) (s : Server) (phase : ℕ → Phase) (x : Phase) (c : Popen) (ip : ℕ)
    → Shows pid s x
    → child_of x ≡ some c
    → get pid s.parents ≡ some ip
    → get pid s.time_of_termination ≡ none
    → Models s phase
    → Models
        (record s { orphans = add pid s.orphans })
        (λ p. if pid == p then orphaned c ip else phase p)
given_up pid s phase x c ip shown e f g m =
    at_pid _ pid (orphaned c ip) phase
      record {
        orphans = add-Unique pid s.orphans m.tidy.orphans;
        children = m.tidy.children;
        times = m.tidy.times;
      }
      record {
        child = shown.child ∙ e;
        parent = f;
        orphan = contains-add pid pid s.orphans ∙ ground arith;
        time = g;
        owned = subst (Owned pid s.all_children) e shown.owned;
      }
      λ p h. record {
        child = (m.shows p).child;
        parent = (m.shows p).parent;
        orphan = ground (arith, contains-add p pid s.orphans, (m.shows p).orphan);
        time = (m.shows p).time;
        owned = (m.shows p).owned;
      }

-- The end of a step on one child.
abbrev pub Leads : Outcome (Unit {0}) × Server → ℕ → (Phase → Phase) → (ℕ → Phase) → Type 0
Leads result pid change phase =
    (s' : Server) × (result ≡ (done tt, s'))
    × Models s' (λ p. if pid == p then change (phase p) else phase p)

pub proxy_del-Leads :
    (report : Report) (pid : ℕ) (s : Server) (phase : ℕ → Phase) (x : Phase)
    → phase pid ≡ x
    → is_some (child_of x) ≡ true
    → Fits report delete x
    → Models s phase
    → Leads (proxy_del report pid s) pid (after report delete) phase
proxy_del-Leads report pid s phase absent e k fits m = absurd (ground arith)
proxy_del-Leads report pid s phase (running c ip) e k fits m =
    let shown : Shows pid s (running c ip) = subst (Shows pid s) e (m.shows pid) in
    elim (Option-cases (report c)) [
      | inl h ↦ (
        record s { orphans = add pid s.orphans },
        proxy_del_alive report pid c s shown.child h,
        settle _ pid (orphaned c ip) (after report delete) phase
            (ap (after report delete) e ∙ ap (λ o. if is_some o then absent else orphaned c ip) h)
            (given_up pid s phase _ c ip shown refl shown.parent shown.time m),
      )
      | inr (rc, h) ↦ (
        without pid c s.orphans s.time_of_termination s,
        proxy_del_dead report pid rc c s _ shown.child h shown.time
            (forget_child pid c ip s shown.child shown.parent shown.owned.1) refl,
        settle _ pid absent (after report delete) phase
            (ap (after report delete) e ∙ ap (λ o. if is_some o then absent else orphaned c ip) h)
            (without-Models pid c s.orphans s.time_of_termination s phase shown.owned.0
              m.tidy.orphans m.tidy.times
              (λ p. dropped (λ q. contains q s.orphans) pid p false shown.orphan)
              (λ p. dropped (λ q. get q s.time_of_termination) pid p none shown.time) m),
      )
    ]
proxy_del-Leads report pid s phase (orphaned c ip) e k fits m =
    let shown : Shows pid s (orphaned c ip) = subst (Shows pid s) e (m.shows pid) in
    (
      record s { orphans = add pid s.orphans },
      proxy_del_alive report pid c s shown.child fits,
      settle _ pid (orphaned c ip) (after report delete) phase (ap (after report delete) e)
          (given_up pid s phase _ c ip shown refl shown.parent shown.time m),
    )
proxy_del-Leads report pid s phase (ended c ip time) e k fits m =
    let shown : Shows pid s (ended c ip time) = subst (Shows pid s) e (m.shows pid) in
    elim (Option-cases (report c)) [
      | inl h ↦ absurd (ground arith)
      | inr (rc, h) ↦ (
        without pid c s.orphans (del pid s.time_of_termination) s,
        proxy_del_ended report pid rc time c s _ shown.child h shown.time
            (forget_child pid c ip s shown.child shown.parent shown.owned.1),
        settle _ pid absent (after report delete) phase (ap (after report delete) e) (
            without-Models pid c s.orphans (del pid s.time_of_termination) s phase shown.owned.0
              m.tidy.orphans (del-Unique pid s.time_of_termination m.tidy.times)
              (λ p. dropped (λ q. contains q s.orphans) pid p false shown.orphan)
              (λ p. get-del p pid s.time_of_termination) m),
      )
    ]
