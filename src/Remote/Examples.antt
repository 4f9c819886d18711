-- ===== src/Remote/Examples.antt =====
-- A remote process server with a child that runs and an orphan, and what becomes of them.
use zprocess.Remote.Server.Handler.{act, proxy_del}
use zprocess.Remote.Client.{Proxy, returned, answered, wait, wait_loop}
use zprocess.Remote.Client.Calls.{popen}
use zprocess.Remote.Client.Calls.Controls.{
  Control, terminates, polls, signals, answers, registered, controls, popen-controls,
}
use zprocess.Remote.Client.Waiting.{still_running, wait-still_running}
use zprocess.Remote.Server.Handler.{code, err_no_such_process}
use zprocess.Base.{
  ℕ, ◌≡◌, refl, false, none, some, List, [], ◌∷◌, ◌==◌, if◌then◌else◌, contains, arith, Bool-cases,
  ==_iff, inl, inr, sym, ap, ◌∙◌, remove,
}
use mathlib.Core.Path.{subst}
use zprocess.Base.Dict.{get, put, del, keys}
use zprocess.Remote.Server.{
  Popen, Server, done, raised, key_error, ◌>>◌, ◌>>=◌, Report, timeout, poll_orphan, poll_child,
  clean_up, forget, for_each, remove_all,
}
use zprocess.Remote.Server.Handler.{Interpreter, Spawn, launched, delete, on_child, handler}
use zprocess.Remote.Server.Phases.{Phase, absent, running, orphaned, ended, Models, Owned, child_of}
use zprocess.Remote.Server.Polls.{timed}
use zprocess.Remote.Server.Timeout.{Agree, timeout-Models}
use zprocess.Remote.Server.Requests.{Meets, expected, handler-Meets}
use zprocess.Remote.Server.Forgotten.{Round, timeouts, timed_by, timeout_forgets}

abbrev worker : Popen
worker = record { pid = 7; nth = 0 }

abbrev orphan : Popen
orphan = record { pid = 8; nth = 0 }

abbrev two_children : Server
two_children = record {
  children = (7, worker) ∷ (8, orphan) ∷ [];
  parents = (7, 100) ∷ (8, 100) ∷ [];
  orphans = 8 ∷ [];
  time_of_termination = [];
  all_children = worker ∷ orphan ∷ [];
  signalled = [];
}

abbrev two_phases : ℕ → Phase
two_phases p =
    if 7 == p then running worker 100 else (if 8 == p then orphaned orphan 100 else absent)

two_phases-Owned : (p : ℕ) → Owned p two_children.all_children (child_of (two_phases p))
two_phases-Owned p = elim (Bool-cases (7 == p)) [
  | inl h ↦
      subst (λ q. Owned q two_children.all_children (child_of (two_phases q))) ((==_iff 7 p).0 h)
        (refl, refl)
  | inr h ↦ elim (Bool-cases (8 == p)) [
    | inl k ↦
        subst (λ q. Owned q two_children.all_children (child_of (two_phases q))) ((==_iff 8 p).0 k)
          (refl, refl)
    | inr k ↦
        subst (λ o. Owned p two_children.all_children (child_of o))
          (sym (
            ap
              (λ b.
                if b then running worker 100 else (if 8 == p then orphaned orphan 100 else absent))
              h
            ∙ ap (λ b. if b then orphaned orphan 100 else absent) k))
          tt
  ]
]

two_children-Models : Models two_children two_phases
unfolding get contains keys
two_children-Models = record {
  tidy = record { orphans = ground arith; children = ground arith; times = ground arith };
  shows = λ p. record {
    child = ground arith;
    parent = ground arith;
    orphan = ground arith;
    time = ground arith;
    owned = two_phases-Owned p;
  };
}

abbrev all_run : Report
all_run c = none

abbrev all_dead : Report
all_dead c = some 0

abbrev worker_dead : Report
worker_dead c = if c.pid == 7 then some 1 else none

same_polls : (report : Report) (x : Phase) → Agree report report x
same_polls report absent = tt
same_polls report (running c ip) = tt
same_polls report (orphaned c ip) = λ h. h
same_polls report (ended c ip time) = tt

-- An orphan that dies between the two rounds of polls is noted as dead; the next timeout forgets the
-- orphan but not the note, and more than a minute later the timeouts start to fail.
late_death :
    ((timeout 0 all_run all_dead >> timeout 1 all_dead all_dead >> timeout 70 all_run all_run)
      two_children).0
    ≡ raised key_error
unfolding timeout poll_orphan poll_child clean_up forget for_each remove_all get put del keys
    contains remove
late_death = refl

timeout-Models_example :
    (s' : Server) × (timeout 5 worker_dead worker_dead two_children ≡ (done tt, s'))
    × Models s' (λ p. timed 5 worker_dead worker_dead (two_phases p))
timeout-Models_example =
    timeout-Models 5 worker_dead worker_dead two_children two_phases two_children-Models
      (λ p. same_polls worker_dead (two_phases p))

abbrev linux : Interpreter
linux = record { environ = []; executable = 300; base_executable = 300; launcher_key = 400 }

abbrev one_more : Spawn
one_more cmd env = some (record { pid = 9; nth = 0 })

handler-Meets_example :
    Meets
      (handler linux one_more all_run 100 (on_child delete (7 ∷ [])) two_children)
      (expected linux one_more all_run 100 two_phases (on_child delete (7 ∷ [])))
handler-Meets_example =
    handler-Meets linux one_more all_run 100 (on_child delete (7 ∷ [])) two_children two_phases
      two_children-Models tt

-- The worker has died, and a timeout finds it so.
abbrev round_at : ℕ → Round
round_at now = record { now = now; early = worker_dead; late = worker_dead }

timeout_forgets_example :
    (s' : Server) × (timeouts (round_at 0 ∷ round_at 30 ∷ round_at 61 ∷ []) two_children
      ≡ (done tt, s'))
    × (get 7 s'.children ≡ none)
    × (get 7 s'.parents ≡ none)
    × (contains 7 s'.orphans ≡ false)
    × (get 7 s'.time_of_termination ≡ none)
timeout_forgets_example =
    timeout_forgets (round_at 0) (round_at 30) (round_at 61 ∷ []) two_children two_phases 7 worker
      100 two_children-Models refl refl refl
      (
        λ p. same_polls worker_dead (two_phases p),
        (
          λ p. same_polls worker_dead (timed_by (round_at 0) two_phases p),
          (
            λ p.
                same_polls worker_dead
                  (timed_by (round_at 30) (timed_by (round_at 0) two_phases) p),
            tt,
          ),
        ),
      )

abbrev proxy : Proxy
proxy = record { pid = 7; returncode = none }

-- A child that ends with 3, and one that the server does not know any more.
wait-still_running_example :
    wait 0 (some 5) (still_running (1 ∷ 2 ∷ []) (answered (code (some 3)) 4 ∷ [])) proxy
    ≡ (returned (code (some 3)), record { pid = 7; returncode = some (code (some 3)) })
wait-still_running_example =
    wait-still_running 0 (some 5) (1 ∷ 2 ∷ []) (code (some 3)) 4 [] proxy (refl, (refl, tt)) refl

unknown_child :
    (wait 0 none (answered err_no_such_process 1 ∷ []) proxy).1.returncode
    ≡ some err_no_such_process
unfolding wait wait_loop
unknown_child = refl

-- An orphan that has died and is given up again stays among the orphans, and the next timeout fails.
second_delete :
    (timeout 1 all_dead all_dead
      (handler linux one_more all_dead 100 (on_child delete (8 ∷ [])) two_children).1).0
    ≡ raised key_error
unfolding handler act proxy_del timeout poll_orphan poll_child clean_up forget for_each remove_all
    get put del keys contains remove
second_delete = refl

-- the new child is polled while it runs, terminated, and polled again
abbrev three_calls : List (Report × Control)
three_calls = (λ c. none, polls) ∷ (λ c. none, terminates) ∷ (λ c. some 0, polls) ∷ []

abbrev newcomer : Popen
newcomer = record { pid = 9; nth = 0 }

popen-controls_example :
    (popen linux one_more 100 all_run (5 ∷ []) none [] false
        >>= controls linux one_more 100 three_calls)
      two_children
    ≡ (
      done (answers newcomer three_calls),
      record (registered newcomer 100 two_children) { signalled = signals newcomer three_calls [] },
    )
unfolding launched
popen-controls_example =
    popen-controls linux one_more 100 all_run (5 ∷ []) none [] three_calls newcomer two_children
      refl
