-- ===== src/Remote/Client/Calls/Controls.antt =====
-- A client controls the child that it has launched (zprocess/remote/__init__.py and
-- zprocess/remote/server.py).
use zprocess.Base.{ℕ, ◌≡◌, refl, ap, ◌∙◌, Bool, false, Option, none, some, List, [], ◌∷◌, arith}
use zprocess.Base.Dict.{Dict, get, put, get-put}
use zprocess.Remote.Server.{
  Popen, Signal, sigterm, sigkill, Server, Outcome, M, done, raised, ◌>>=◌, Report,
}
use zprocess.Remote.Server.Handler
use zprocess.Remote.Server.Handler.{
  Action, on_child, Interpreter, Spawn, Response, code, spawned, proxy_popen, register, signal,
  proxy_poll, act, handler, terminate, kill,
}
use zprocess.Remote.Client.{Proxy}
use zprocess.Remote.Client.Calls.{popen_options, proxy_for, popen, request, poll}

-- What a client asks a child's proxy to do.
pub data Control : Type 0 where
  terminates kills polls : Control

-- what one of them sends and returns
abbrev pub signal_of : Control → Popen → List (Popen × Signal) → List (Popen × Signal)
signal_of terminates child before = (child, sigterm) ∷ before
signal_of kills child before = (child, sigkill) ∷ before
signal_of polls child before = before

abbrev pub answer_of : Control → Option ℕ → Response
answer_of polls rc = code rc
answer_of c rc = code none

-- the signals that reach the child, the newest first, on top of those before
unfoldable pub signals :
    Popen → List (Report × Control) → List (Popen × Signal) → List (Popen × Signal)
signals child [] before = before
signals child ((report, c) ∷ cs) before = signals child cs (signal_of c child before)

-- what the calls return
unfoldable pub answers : Popen → List (Report × Control) → List Response
answers child [] = []
answers child ((report, c) ∷ cs) = answer_of c (report child) ∷ answers child cs

-- the child as the server registers it
abbrev pub registered : Popen → ℕ → Server → Server
registered child peer s = record s {
  children = put child.pid child s.children;
  all_children = child ∷ s.all_children;
  parents = put child.pid peer s.parents;
}

module _ (sys : Interpreter) (spawn : Spawn) (peer : ℕ) where
  unfoldable pub control : Report → Control → Proxy → M Response
  control report terminates proxy = request sys spawn peer report terminate proxy
  control report kills proxy = request sys spawn peer report kill proxy
  control report polls proxy =
      poll sys spawn peer report proxy >>= λ (response, p) s. (done response, s)

  unfoldable pub controls : List (Report × Control) → Proxy → M (List Response)
  controls [] proxy s = (done [], s)
  controls ((report, c) ∷ cs) proxy s =
      (control report c proxy >>= λ r. controls cs proxy >>= λ rs s'. (done (r ∷ rs), s')) s

  popen-eq :
      (report : Report) (cmd : List ℕ) (prepend : Option Bool) (extra_env : Dict ℕ) (child : Popen)
      (s : Server)
      → spawned sys spawn cmd (popen_options prepend extra_env false) ≡ some child
      → popen sys spawn peer report cmd prepend extra_env false s
        ≡ (done (record { pid = child.pid; returncode = none }), registered child peer s)
  unfolding popen handler proxy_popen register proxy_for
  popen-eq report cmd prepend extra_env child s e = ground (arith, e)

  signal-eq :
      (sig : Signal) (child : Popen) (s : Server)
      → get child.pid s.children ≡ some child
      → signal sig child.pid s
        ≡ (done (code none), record s { signalled = (child, sig) ∷ s.signalled })
  unfolding signal
  signal-eq sig child s h = ground arith

  handled :
      (report : Report) (action : Action) (child : Popen) (s : Server)
      → get child.pid s.children ≡ some child
      → handler sys spawn report peer (on_child action (child.pid ∷ [])) s
        ≡ act report action child.pid s
  unfolding handler
  handled report action child s h = ground arith

  control-eq :
      (report : Report) (c : Control) (child : Popen) (proxy : Proxy) (s : Server)
      → proxy.pid ≡ child.pid
      → get child.pid s.children ≡ some child
      → control report c proxy s ≡ (
        done (answer_of c (report child)),
        record s { signalled = signal_of c child s.signalled },
      )
  unfolding control request poll act proxy_poll
  control-eq report terminates child proxy s p h =
      ground (arith, handled report terminate child s h, signal-eq sigterm child s h)
  control-eq report kills child proxy s p h =
      ground (arith, handled report kill child s h, signal-eq sigkill child s h)
  control-eq report polls child proxy s p h = ground (arith, handled report Handler.poll child s h)

  controls-eq :
      (cs : List (Report × Control)) (child : Popen) (proxy : Proxy) (s : Server)
      → proxy.pid ≡ child.pid
      → get child.pid s.children ≡ some child
      → controls cs proxy s
        ≡ (done (answers child cs), record s { signalled = signals child cs s.signalled })
  unfolding controls answers signals
  controls-eq [] child proxy s p h = refl
  controls-eq ((report, c) ∷ cs) child proxy s p h = ground (
    arith,
    control-eq report c child proxy s p h,
    controls-eq cs child proxy (record s { signalled = signal_of c child s.signalled }) p h,
  )

  -- A client that launches a process, and then terminates, kills and polls it by the proxy it got, in
  -- any order and as often as it likes, while the server handles no other request and its timeout does not
  -- run: if the server can start the process, every call returns; the signals reach this process and
  -- no other, in the order of the calls; each poll returns what the process reports; and the process is
  -- registered with the client as its parent, under its own pid.
  pub popen-controls :
      (report : Report) (cmd : List ℕ) (prepend : Option Bool) (extra_env : Dict ℕ)
      (cs : List (Report × Control)) (child : Popen) (s : Server)
      → spawned sys spawn cmd (popen_options prepend extra_env false) ≡ some child
      → (popen sys spawn peer report cmd prepend extra_env false >>= controls cs) s ≡ (
        done (answers child cs),
        record (registered child peer s) { signalled = signals child cs s.signalled },
      )
  popen-controls report cmd prepend extra_env cs child s e =
      let proxy : Proxy = record { pid = child.pid; returncode = none } in
      ap
        (λ r. elim r.0 as (λ o. Outcome (List Response) × Server) [
          | done p ↦ controls cs p r.1
          | raised x ↦ (raised x, r.1)
        ])
        (popen-eq report cmd prepend extra_env child s e)
      ∙ controls-eq cs child proxy (registered child peer s) refl
          (ground (arith, get-put child.pid child.pid child s.children))
