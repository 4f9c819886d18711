-- ===== src/Process/Heartbeat.antt =====
-- class HeartbeatClient of zprocess/process_tree.py: a thread that sends SIGTERM to its process once the
-- parent stops to echo. What comes of each heartbeat is a list; times are in seconds. The server, class
-- HeartbeatServer, is a proxy of the library that echoes.
pub mod Deferred
use zprocess.Base.{ℕ, ◌*◌, Bool, List, [], ◌∷◌, ◌==◌, if◌then◌else◌}
use zprocess.Process.KillLock.{KillLock, sigterm}
use zprocess.Process.KillLock

abbrev pub localhost_timeout : ℕ
localhost_timeout = 1

abbrev pub remote_timeout : ℕ
remote_timeout = 10

-- `sent` and `polled` have what was sent and the timeouts of the polls in ms, the newest first.
pub record Client : Type 0 where
  pub pid : ℕ
  pub timeout : ℕ
  pub sent : List ℕ
  pub polled : List ℕ
  pub closed : Bool

-- `HeartbeatClient.__init__`, towards a server on the loopback interface or not
abbrev pub new_client : ℕ → Bool → Client
new_client pid is_loopback = record {
  pid = pid;
  timeout = if is_loopback then localhost_timeout else remote_timeout;
  sent = [];
  polled = [];
  closed = Bool.false;
}

-- No answer in time, an answer, or the end of the socket's context.
pub data Beat : Type 0 where
  silent : Beat
  answered : ℕ → Beat
  context_terminated : Beat

-- How the thread stands: it goes on, it has sent SIGTERM, or it has closed its socket.
pub data State : Type 0 where
  beating killed shut_down : State

abbrev pub beat : Client → Client
beat c = record c { sent = c.pid ∷ c.sent; polled = c.timeout * 1000 ∷ c.polled }

-- `os.kill(os.getpid(), signal.SIGTERM)`
abbrev pub kill : Client → KillLock → State × Client × KillLock
kill c lock = (killed, c, (sigterm lock).1)

-- `mainloop`
unfoldable pub mainloop : List Beat → Client → KillLock → State × Client × KillLock
mainloop [] c lock = (beating, c, lock)
mainloop (context_terminated ∷ beats) c lock = (shut_down, record c { closed = Bool.true }, lock)
mainloop (silent ∷ beats) c lock = kill (beat c) lock
mainloop (answered msg ∷ beats) c lock =
    let next = mainloop beats (beat c) lock in if msg == c.pid then next else kill (beat c) lock
