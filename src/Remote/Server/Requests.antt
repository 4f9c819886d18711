-- ===== src/Remote/Server/Requests.antt =====
-- The whole handler of the remote process server against the phases of its children (`handler` of
-- zprocess/remote/server.py).
use zprocess.Base.{
  ℕ, ◌≡◌, refl, ◌∙◌, Bool, true, false, Option, none, some, List, [], ◌∷◌, ◌==◌, if◌then◌else◌,
  arith,
}
use zprocess.Base.Dict.{put, get-put, put-Unique}
use zprocess.Remote.Server.{
  Popen, Server, Signal, sigterm, sigkill, Outcome, done, raised, raise, ◌>>=◌, type_error,
  value_error, os_error, Report,
}
use zprocess.Remote.Server.Handler.{
  Interpreter, Spawn, spawned, register, proxy_popen, Action, terminate, kill, wait, poll, delete,
  Request, on_child, popen, whoami, hello, protocol, other, Response, code, launched_pid, peer_ip,
  hello_back, protocol_version, err_invalid_command, err_no_such_process, proxy_del, signal,
  proxy_poll, act, handler,
}
use zprocess.Remote.Server.Phases.{
  Phase, absent, running, orphaned, ended, child_of, is_orphaned, ended_at, Shows, Models, at_pid,
  Owned, resume,
}
use zprocess.Remote.Server.Polls.{unchanged}
use zprocess.Remote.Server.Answers.{after, reply, Fits, proxy_del-Leads}

-- What a request comes to, and the phases after it.
abbrev pub Expected : Type 0
Expected = Outcome Response × (ℕ → Phase)

abbrev pub entered : ℕ → Phase → (ℕ → Phase) → ℕ → Phase
entered pid x phase p = if pid == p then x else phase p

-- an action on a child, with its arguments behind the pid
abbrev pub expected_action : Report → Action → ℕ → List ℕ → (ℕ → Phase) → Option Popen → Expected
expected_action report action pid rest phase none = (done err_no_such_process, phase)
expected_action report action pid (x ∷ rest) phase (some c) = (raised type_error, phase)
expected_action report action pid [] phase (some c) =
    (done (reply report action c), λ p. if pid == p then after report action (phase p) else phase p)

abbrev pub expected_launch : ℕ → (ℕ → Phase) → Option Popen → Expected
expected_launch peer phase none = (raised os_error, phase)
expected_launch peer phase (some c) =
    (done (launched_pid c.pid), entered c.pid (running c peer) phase)

abbrev pub expected : Interpreter → Spawn → Report → ℕ → (ℕ → Phase) → Request → Expected
expected sys spawn report peer phase (on_child action []) = (done err_invalid_command, phase)
expected sys spawn report peer phase (on_child action (pid ∷ rest)) =
    expected_action report action pid rest phase (child_of (phase pid))
expected sys spawn report peer phase (popen none options) = (done err_invalid_command, phase)
expected sys spawn report peer phase (popen (some cmd) options) =
    if options.streams
    then (raised value_error, phase)
    else expected_launch peer phase (spawned sys spawn cmd options)
expected sys spawn report peer phase whoami = (done (peer_ip peer), phase)
expected sys spawn report peer phase hello = (done hello_back, phase)
expected sys spawn report peer phase protocol = (done protocol_version, phase)
expected sys spawn report peer phase other = (done err_invalid_command, phase)

-- The phases of a pid that a new child may have: none, or that of a child whose end no timeout has seen.
abbrev pub is_vacant : Phase → Bool
is_vacant absent = true
is_vacant (running c ip) = true
is_vacant phase = false

-- What is asked of a request: a child that was seen dead is dead, one that is given up twice still runs,
-- and a new child has the pid of no orphan and of no child that a timeout has found dead and not yet
-- cleaned up.
abbrev pub Allowed : Interpreter → Spawn → Report → (ℕ → Phase) → Request → Type 0
Allowed sys spawn report phase (on_child action (pid ∷ rest)) = Fits report action (phase pid)
Allowed sys spawn report phase (popen (some cmd) options) =
    (c : Popen) → spawned sys spawn cmd options ≡ some c → is_vacant (phase c.pid) ≡ true
Allowed sys spawn report phase _ = Unit

-- The handler does on the tables what is expected on the phases.
abbrev pub Meets : Outcome Response × Server → Expected → Type 0
Meets result (outcome, phase) = (s' : Server) × (result ≡ (outcome, s')) × Models s' phase

signalled_Models :
    (log : List (Popen × Signal)) (s : Server) (phase : ℕ → Phase)
    → Models s phase
    → Models (record s { signalled = log }) phase
signalled_Models log s phase m = record {
  tidy = record { orphans = m.tidy.orphans; children = m.tidy.children; times = m.tidy.times };
  shows = λ p. record {
    child = (m.shows p).child;
    parent = (m.shows p).parent;
    orphan = (m.shows p).orphan;
    time = (m.shows p).time;
    owned = (m.shows p).owned;
  };
}

act-Meets :
    (report : Report) (action : Action) (pid : ℕ) (s : Server) (phase : ℕ → Phase) (c : Popen)
    → child_of (phase pid) ≡ some c
    → Fits report action (phase pid)
    → Models s phase
    → Meets (act report action pid s) (expected_action report action pid [] phase (some c))
unfolding act signal proxy_poll
act-Meets report terminate pid s phase c e fits m = (
  record s { signalled = (c, sigterm) ∷ s.signalled },
  ground (arith, (m.shows pid).child, e),
  unchanged _ pid (phase pid) (after report terminate) phase refl refl
      (signalled_Models _ s phase m),
)
act-Meets report kill pid s phase c e fits m = (
  record s { signalled = (c, sigkill) ∷ s.signalled },
  ground (arith, (m.shows pid).child, e),
  unchanged _ pid (phase pid) (after report kill) phase refl refl (signalled_Models _ s phase m),
)
act-Meets report wait pid s phase c e fits m = (
  s,
  ground (arith, (m.shows pid).child, e),
  unchanged _ pid (phase pid) (after report wait) phase refl refl m,
)
act-Meets report poll pid s phase c e fits m = (
  s,
  ground (arith, (m.shows pid).child, e),
  unchanged _ pid (phase pid) (after report poll) phase refl refl m,
)
act-Meets report delete pid s phase c e fits m =
    let (s', f, m') = proxy_del-Leads report pid s phase (phase pid) refl (ground arith) fits m in
    (s', resume (proxy_del report pid) (λ u s. (done (code none), s)) s s' tt f, m')

action-Meets :
    (sys : Interpreter) (spawn : Spawn) (report : Report) (peer pid : ℕ) (action : Action)
    (rest : List ℕ) (s : Server) (phase : ℕ → Phase) (o : Option Popen)
    → child_of (phase pid) ≡ o
    → Fits report action (phase pid)
    → Models s phase
    → Meets
        (handler sys spawn report peer (on_child action (pid ∷ rest)) s)
        (expected_action report action pid rest phase o)
unfolding handler
action-Meets sys spawn report peer pid action rest s phase none e fits m =
    (s, ground (arith, (m.shows pid).child, e), m)
action-Meets sys spawn report peer pid action (x ∷ rest) s phase (some c) e fits m =
    (s, ground (arith, (m.shows pid).child, e), m)
action-Meets sys spawn report peer pid action [] s phase (some c) e fits m =
    let (s', f, m') = act-Meets report action pid s phase c e fits m in
    (s', ground (arith, (m.shows pid).child, e, f), m')

Owned-more :
    (p : ℕ) (c : Popen) (all : List Popen) (o : Option Popen) → Owned p all o → Owned p (c ∷ all) o
Owned-more p c all none h = tt
Owned-more p c all (some d) h = (h.0, ground (arith, h.1))

vacant_Shows : (x : Phase) → is_vacant x ≡ true → (is_orphaned x ≡ false) × (ended_at x ≡ none)
vacant_Shows absent h = (refl, refl)
vacant_Shows (running c ip) h = (refl, refl)
vacant_Shows (orphaned c ip) h = absurd (ground arith)
vacant_Shows (ended c ip t) h = absurd (ground arith)

launched_Models :
    (peer : ℕ) (c : Popen) (s : Server) (phase : ℕ → Phase)
    → is_vacant (phase c.pid) ≡ true
    → Models s phase
    → Models
        (record s {
          children = put c.pid c s.children;
          all_children = c ∷ s.all_children;
          parents = put c.pid peer s.parents;
        })
        (entered c.pid (running c peer) phase)
launched_Models peer c s phase e m =
    let shown : Shows c.pid s (phase c.pid) = m.shows c.pid in
    at_pid _ c.pid (running c peer) phase
      record {
        orphans = m.tidy.orphans;
        children = put-Unique c.pid c s.children m.tidy.children;
        times = m.tidy.times;
      }
      record {
        child = get-put c.pid c.pid c s.children ∙ ground arith;
        parent = get-put c.pid c.pid peer s.parents ∙ ground arith;
        orphan = shown.orphan ∙ (vacant_Shows (phase c.pid) e).0;
        time = shown.time ∙ (vacant_Shows (phase c.pid) e).1;
        owned = (refl, ground arith);
      }
      λ p h. record {
        child = ground (arith, get-put p c.pid c s.children, (m.shows p).child);
        parent = ground (arith, get-put p c.pid peer s.parents, (m.shows p).parent);
        orphan = (m.shows p).orphan;
        time = (m.shows p).time;
        owned = Owned-more p c s.all_children _ (m.shows p).owned;
      }

register-Meets :
    (peer : ℕ) (s : Server) (phase : ℕ → Phase) (o : Option Popen)
    → ((c : Popen) → o ≡ some c → is_vacant (phase c.pid) ≡ true)
    → Models s phase
    → Meets
        ((register peer o >>= λ pid s'. (done (launched_pid pid), s')) s)
        (expected_launch peer phase o)
unfolding register
register-Meets peer s phase none fresh m = (s, refl, m)
register-Meets peer s phase (some c) fresh m =
    (_, refl, launched_Models peer c s phase (fresh c refl) m)

launch-Meets :
    (peer : ℕ) (s : Server) (phase : ℕ → Phase) (streams : Bool) (o : Option Popen)
    → ((c : Popen) → o ≡ some c → is_vacant (phase c.pid) ≡ true)
    → Models s phase
    → Meets
        (((if streams then raise value_error else register peer o) >>= λ pid s'.
            (done (launched_pid pid), s'))
          s)
        (if streams then (raised value_error, phase) else expected_launch peer phase o)
launch-Meets peer s phase true o fresh m = (s, refl, m)
launch-Meets peer s phase false o fresh m = register-Meets peer s phase o fresh m

-- Whatever well-formed request a peer makes (a command of text with its arguments, a pid that can be
-- looked up, and keyword arguments for Popen only), the handler answers it and moves the children it
-- knows between their phases as expected, and raises no exception but for surplus arguments, for given
-- streams, and where a launch fails. This takes for granted that a child that a timeout saw dead stays
-- dead, that no orphan that has died since is given up again, and that a new child has the pid of no
-- orphan and of no child that a timeout has found dead and not yet cleaned up.
pub handler-Meets :
    (sys : Interpreter) (spawn : Spawn) (report : Report) (peer : ℕ) (request : Request)
    (s : Server) (phase : ℕ → Phase)
    → Models s phase
    → Allowed sys spawn report phase request
    → Meets (handler sys spawn report peer request s) (expected sys spawn report peer phase request)
unfolding handler proxy_popen
handler-Meets sys spawn report peer (on_child action []) s phase m a = (s, refl, m)
handler-Meets sys spawn report peer (on_child action (pid ∷ rest)) s phase m a =
    action-Meets sys spawn report peer pid action rest s phase _ refl a m
handler-Meets sys spawn report peer (popen none options) s phase m a = (s, refl, m)
handler-Meets sys spawn report peer (popen (some cmd) options) s phase m a =
    launch-Meets peer s phase options.streams (spawned sys spawn cmd options) a m
handler-Meets sys spawn report peer whoami s phase m a = (s, refl, m)
handler-Meets sys spawn report peer hello s phase m a = (s, refl, m)
handler-Meets sys spawn report peer protocol s phase m a = (s, refl, m)
handler-Meets sys spawn report peer other s phase m a = (s, refl, m)
