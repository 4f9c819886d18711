-- ===== src/Remote/Server/Forgotten.antt =====
-- The children that die on their own (`timeout` of zprocess/remote/server.py, CLEANUP_INTERVAL).
use zprocess.Base.{
  ℕ, ◌+◌, ◌≡◌, refl, ap, ◌∙◌, Bool, true, false, not, ◌&&◌, List, [], ◌∷◌, none, ltb, if◌then◌else◌,
  contains, arith,
}
use mathlib.Core.Path.{subst}
use zprocess.Base.Dict.{get, is_some}
use zprocess.Remote.Server.{Popen, Server, M, done, ◌>>◌, Report, timeout, cleanup_interval}
use zprocess.Remote.Server.Phases.{Phase, absent, running, ended, Shows, Models, resume}
use zprocess.Remote.Server.Polls.{cleaned, timed}
use zprocess.Remote.Server.Timeout.{Agree, timeout-Models}

-- A timeout: its time, and what the polls of its two rounds report.
pub record Round : Type 0 where
  pub now : ℕ
  pub early : Report
  pub late : Report

-- timeouts one after another, as the main loop calls them while no request comes
abbrev pub timeouts : List Round → M (Unit {0})
timeouts [] s = (done tt, s)
timeouts (r ∷ rs) s = (timeout r.now r.early r.late >> timeouts rs) s

abbrev pub timed_by : Round → (ℕ → Phase) → ℕ → Phase
timed_by r phase p = timed r.now r.early r.late (phase p)

-- In none of the timeouts does an orphan die between the rounds of polls.
abbrev pub AllAgree : List Round → (ℕ → Phase) → Type 0
AllAgree [] phase = Unit
AllAgree (r ∷ rs) phase =
    ((p : ℕ) → Agree r.early r.late (phase p)) × AllAgree rs (timed_by r phase)

abbrev pub all_timed : List Round → (ℕ → Phase) → ℕ → Phase
all_timed [] phase = phase
all_timed (r ∷ rs) phase = all_timed rs (timed_by r phase)

-- The timeouts of a list come at most sixty seconds after a time, but for the last.
abbrev pub until_late : ℕ → List Round → Bool
until_late first [] = false
until_late first (r ∷ []) = ltb (first + cleanup_interval) r.now
until_late first (r ∷ rs) = not (ltb (first + cleanup_interval) r.now) && until_late first rs

timeouts-Models :
    (rs : List Round) (s : Server) (phase : ℕ → Phase)
    → Models s phase
    → AllAgree rs phase
    → (s' : Server) × (timeouts rs s ≡ (done tt, s')) × Models s' (all_timed rs phase)
timeouts-Models [] s phase m a = (s, refl, m)
timeouts-Models (r ∷ rs) s phase m a =
    let (s₁, e₁, m₁) = timeout-Models r.now r.early r.late s phase m a.0 in
    let (s₂, e₂, m₂) = timeouts-Models rs s₁ (timed_by r phase) m₁ a.1 in
    (s₂, resume (timeout r.now r.early r.late) (λ u. timeouts rs) s s₁ tt e₁ ∙ e₂, m₂)

ended_until :
    (first : ℕ) (r : Round) (rs : List Round) (phase : ℕ → Phase) (pid : ℕ) (c : Popen) (ip : ℕ)
    → until_late first (r ∷ rs) ≡ true
    → phase pid ≡ ended c ip first
    → all_timed (r ∷ rs) phase pid ≡ absent
ended_until first r [] phase pid c ip l e =
    ap (timed r.now r.early r.late) e ∙ ap (λ b. if b then absent else ended c ip first) l
ended_until first r (r' ∷ rs) phase pid c ip l e =
    ended_until first r' rs (timed_by r phase) pid c ip (ground arith) (
      ap (timed r.now r.early r.late) e
      ∙ ap (λ b. if b then absent else ended c ip first) (early l))
  where
    early :
        (not (ltb (first + cleanup_interval) r.now) && until_late first (r' ∷ rs)) ≡ true
        → ltb (first + cleanup_interval) r.now ≡ false
    early h = ground arith

seen_dead :
    (r : Round) (c : Popen) (ip : ℕ)
    → is_some (r.late c) ≡ true
    → timed r.now r.early r.late (running c ip) ≡ ended c ip r.now
seen_dead r c ip h =
    ap (λ b. cleaned r.now (if b then ended c ip r.now else running c ip)) h
    ∙ ap (λ b. if b then absent else ended c ip r.now) (later r.now)
  where
    later : (n : ℕ) → ltb (n + cleanup_interval) n ≡ false
    later n = ground arith

-- A child that has died on its own and that its parent never gives up is forgotten: once a timeout has
-- found it dead, and after any number of timeouts at most sixty seconds later, the first timeout more
-- than sixty seconds later leaves no trace of its pid in the tables. The server handles no request
-- meanwhile, and in none of the timeouts does an orphan die between the rounds of polls.
pub timeout_forgets :
    (found r : Round) (rs : List Round) (s : Server) (phase : ℕ → Phase) (pid : ℕ) (c : Popen)
    (ip : ℕ)
    → Models s phase
    → phase pid ≡ running c ip
    → is_some (found.late c) ≡ true
    → until_late found.now (r ∷ rs) ≡ true
    → AllAgree (found ∷ r ∷ rs) phase
    → (s' : Server) × (timeouts (found ∷ r ∷ rs) s ≡ (done tt, s'))
      × (get pid s'.children ≡ none)
      × (get pid s'.parents ≡ none)
      × (contains pid s'.orphans ≡ false)
      × (get pid s'.time_of_termination ≡ none)
timeout_forgets found r rs s phase pid c ip m e h l a =
    let (s', f, m') = timeouts-Models (found ∷ r ∷ rs) s phase m a in
    let gone : Shows pid s' absent =
      subst (Shows pid s')
        (ended_until found.now r rs (timed_by found phase) pid c ip l
          (ap (timed found.now found.early found.late) e ∙ seen_dead found c ip h))
        (m'.shows pid) in
    (s', f, gone.child, gone.parent, gone.orphan, gone.time)
