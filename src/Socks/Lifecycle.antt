-- ===== src/Socks/Lifecycle.antt =====
-- class SocksProxyServer of zprocess/socks/server.py: its start, its loop over accepted connections and
-- its end. A connection is a number; sockets and threads are left out, and so is the log.
use zprocess.Base.{
  ℕ, ◌≡◌, refl, ap, Bool-cases, inl, inr, arith, Bool, true, false, Option, none, some, List, [],
  ◌∷◌, if◌then◌else◌,
}

-- `connections` has those that were accepted, `stopped` those whose `stop` was called, each the newest
-- first; `running` is whether `mainloop_thread` is there.
pub record ProxyServer : Type 0 where
  pub listening : Bool
  pub started : Bool
  pub running : Bool
  pub shutting_down : Bool
  pub connections : List ℕ
  pub stopped : List ℕ

-- `SocksProxyServer.__init__`
abbrev pub new_proxy_server : ProxyServer
new_proxy_server = record {
  listening = false;
  started = false;
  running = false;
  shutting_down = false;
  connections = [];
  stopped = [];
}

-- What `accept` does: a connection, or an error of the socket.
pub data Accepted : Type 0 where
  accepted : ℕ → Accepted
  socket_error : Accepted

-- How far `run` has come.
pub data RunState : Type 0 where
  accepting ended crashed : RunState

-- `start`, with the part of `run` before its loop
unfoldable pub start : ProxyServer → ProxyServer
start s = record s { listening = true; started = true; running = true }

-- the loop of `run`
unfoldable pub run : List Accepted → ProxyServer → RunState × ProxyServer
run [] s = (accepting, s)
run (socket_error ∷ events) s = if s.shutting_down then (ended, s) else (crashed, s)
run (accepted connection ∷ events) s =
    run events (record s { connections = connection ∷ s.connections })

-- the loop of `shutdown` that stops the connections, in some order
unfoldable pub stop_all : List ℕ → ProxyServer → ProxyServer
stop_all [] s = record s { connections = [] }
stop_all (connection ∷ connections) s =
    stop_all connections (record s { connections = connections; stopped = connection ∷ s.stopped })

-- the rest of `shutdown`, once the thread of `run` has ended; before that it waits for it
unfoldable pub finish : RunState × ProxyServer → Option ProxyServer
finish (accepting, s) = none
finish (state, s) = some (record (stop_all s.connections (record s { running = false })) {
  started = false;
  listening = false;
  shutting_down = false;
})

-- `shutdown`, with what `accept` still does for `run` from then on
unfoldable pub shutdown : List Accepted → ProxyServer → Option ProxyServer
shutdown events s = finish (run events (record s { shutting_down = true; listening = false }))

-- the connections of a list of events up to the first error
abbrev pub connected : List Accepted → List ℕ → List ℕ
connected [] before = before
connected (socket_error ∷ events) before = before
connected (accepted connection ∷ events) before = connected events (connection ∷ before)

abbrev pub is_ended : List Accepted → Bool
is_ended [] = false
is_ended (socket_error ∷ events) = true
is_ended (accepted connection ∷ events) = is_ended events

-- `xs` put in front of `ys` one by one
abbrev pub onto : List ℕ → List ℕ → List ℕ
onto [] ys = ys
onto (x ∷ xs) ys = onto xs (x ∷ ys)

stop_all-eq :
    (xs : List ℕ) (s : ProxyServer)
    → stop_all xs s ≡ record s { connections = []; stopped = onto xs s.stopped }
unfolding stop_all
stop_all-eq [] s = refl
stop_all-eq (x ∷ xs) s = stop_all-eq xs (record s { connections = xs; stopped = x ∷ s.stopped })

run-shutting_down :
    (events : List Accepted) (s : ProxyServer)
    → s.shutting_down ≡ true
    → run events s ≡ (
      if is_ended events then ended else accepting,
      record s { connections = connected events s.connections },
    )
unfolding run
run-shutting_down [] s h = refl
run-shutting_down (socket_error ∷ events) s h = ground (arith, h)
run-shutting_down (accepted c ∷ events) s h =
    run-shutting_down events (record s { connections = c ∷ s.connections }) h

-- A shutdown of a proxy server stops every connection that was accepted, also those that come in while
-- it shuts down, each once, and leaves the server as it was made but for the count of these, so that
-- it can be started again; it returns as soon as the listener reports its end.
pub shutdown-stops :
    (events : List Accepted) (before stopped : List ℕ)
    → shutdown events (record (start new_proxy_server) { connections = before; stopped = stopped })
      ≡ (if is_ended events
          then some (record new_proxy_server { stopped = onto (connected events before) stopped })
          else none)
unfolding shutdown start finish
shutdown-stops events before stopped =
    let s : ProxyServer = record (start new_proxy_server) {
      shutting_down = true;
      listening = false;
      connections = before;
      stopped = stopped;
    } in
    let seen = connected events before in
    rw (run-shutting_down events s refl) (elim (Bool-cases (is_ended events)) [
      | inl e ↦ rw e (
          ap
            (λ (t : ProxyServer).
              some (record t { started = false; listening = false; shutting_down = false }))
            (stop_all-eq seen (record s { connections = seen; running = false })))
      | inr e ↦ rw e refl
    ])
