-- ===== src/Remote/Server/Handler.antt =====
-- The methods of class RemoteProcessServer of zprocess/remote/server.py that a client calls: those on
-- a child, the launch of a child, and the handler; with get_venv_executable_and_env of
-- zprocess/utils.py.
use zprocess.Base.{ℕ, Bool, Option, none, some, List, [], ◌∷◌, ◌==◌, if◌then◌else◌, add}
use zprocess.Base.Dict.{Dict, get, put, del, is_some}
use zprocess.Remote.Server.{
  Popen, Signal, sigterm, sigkill, M, done, raised, key_error, type_error, value_error, os_error,
  ◌>>=◌, ◌>>◌, raise, forget, Report,
}

-- `proxy___del__`
unfoldable pub proxy_del : Report → ℕ → M (Unit {0})
proxy_del report pid s = elim (get pid s.children) [
  | none ↦ (done tt, s)
  | some child ↦ elim (report child) [
    | none ↦ (done tt, record s { orphans = add pid s.orphans })
    | some rc ↦
        (forget pid >> λ s'. (
          done tt,
          if is_some (get pid s'.time_of_termination)
              then record s' { time_of_termination = del pid s'.time_of_termination }
              else s',
        ))
          s
  ]
]

-- The interpreter: its environment, `sys.executable`, and `sys._base_executable`, which differs from it
-- in some virtual environments.
pub record Interpreter : Type 0 where
  pub environ : Dict ℕ
  pub executable : ℕ
  pub base_executable : ℕ
  pub launcher_key : ℕ

-- `get_venv_executable_and_env` of zprocess/utils.py
unfoldable pub get_venv_executable_and_env : Interpreter → Dict ℕ → ℕ × Dict ℕ
get_venv_executable_and_env sys env =
    if sys.base_executable == sys.executable
    then (sys.executable, env)
    else (sys.base_executable, put sys.launcher_key sys.executable env)

-- The keyword arguments of `proxy_Popen`; `streams` tells whether stdout, stdin or stderr is given.
pub record Options : Type 0 where
  pub prepend_sys_executable : Bool
  pub extra_env : Dict ℕ
  pub streams : Bool

-- `d.update(e)`
abbrev pub update : Dict ℕ → Dict ℕ → Dict ℕ
update env [] = env
update env ((k, a) ∷ extra) = update (put k a env) extra

-- `subprocess.Popen(cmd, env=...)`: the child, or none where it raises an OSError
abbrev pub Spawn : Type 0
Spawn = List ℕ → Dict ℕ → Option Popen

-- the command and the environment that are launched
unfoldable pub launched : Interpreter → List ℕ → Options → List ℕ × Dict ℕ
launched sys cmd options =
    let (executable, env) = get_venv_executable_and_env sys sys.environ in
    if options.prepend_sys_executable
    then (executable ∷ cmd, update env options.extra_env)
    else (cmd, update sys.environ options.extra_env)

-- what becomes of a new child, which has the address of the peer as its parent's
unfoldable pub register : ℕ → Option Popen → M ℕ
register peer none s = (raised os_error, s)
register peer (some child) s = (
  done child.pid,
  record s {
    children = put child.pid child s.children;
    all_children = child ∷ s.all_children;
    parents = put child.pid peer s.parents;
  },
)

abbrev pub spawned : Interpreter → Spawn → List ℕ → Options → Option Popen
spawned sys spawn cmd options = let (command, env) = launched sys cmd options in spawn command env

-- `proxy_Popen`, for a peer
unfoldable pub proxy_popen : Interpreter → Spawn → ℕ → List ℕ → Options → M ℕ
proxy_popen sys spawn peer cmd options =
    if options.streams then raise value_error else register peer (spawned sys spawn cmd options)

-- the methods that take a pid: `proxy_terminate`, `proxy_kill`, `proxy_wait`, `proxy_poll`, `proxy___del__`
pub data Action : Type 0 where
  terminate kill wait poll delete : Action

-- A message `(command, args, kwargs)`, by its command. The arguments of an action are pids; those of
-- Popen a command line or nothing. Messages of another form, with which Python raises before the server
-- changes anything, are left out, and so are keyword arguments of an action.
pub data Request : Type 0 where
  on_child : Action → List ℕ → Request
  popen : Option (List ℕ) → Options → Request
  whoami hello protocol other : Request

-- `code none` is None.
pub data Response : Type 0 where
  code : Option ℕ → Response
  launched_pid peer_ip : ℕ → Response
  hello_back protocol_version : Response
  err_invalid_command err_no_such_process : Response

unfoldable pub signal : Signal → ℕ → M Response
signal sig pid s = elim (get pid s.children) [
  | none ↦ (raised key_error, s)
  | some child ↦ (done (code none), record s { signalled = (child, sig) ∷ s.signalled })
]

-- `proxy_poll`; and `proxy_wait`, which waits for 10 ms and gives None if the child still runs then
unfoldable pub proxy_poll : Report → ℕ → M Response
proxy_poll report pid s = elim (get pid s.children) [
  | none ↦ (raised key_error, s)
  | some child ↦ (done (code (report child)), s)
]

unfoldable pub act : Report → Action → ℕ → M Response
act report terminate pid = signal sigterm pid
act report kill pid = signal sigkill pid
act report wait pid = proxy_poll report pid
act report poll pid = proxy_poll report pid
act report delete pid = proxy_del report pid >> λ s. (done (code none), s)

-- a method called with too many arguments
abbrev pub with_one : List ℕ → M Response → M Response
with_one [] method = method
with_one (x ∷ xs) method = λ s. (raised type_error, s)

-- `RemoteProcessServer.handler`, for a peer and what a poll of a child reports
unfoldable pub handler : Interpreter → Spawn → Report → ℕ → Request → M Response
handler sys spawn report peer (on_child action []) s = (done err_invalid_command, s)
handler sys spawn report peer (on_child action (pid ∷ rest)) s =
    if is_some (get pid s.children)
    then with_one rest (act report action pid) s
    else (done err_no_such_process, s)
handler sys spawn report peer (popen none options) s = (done err_invalid_command, s)
handler sys spawn report peer (popen (some cmd) options) s =
    (proxy_popen sys spawn peer cmd options >>= λ pid s'. (done (launched_pid pid), s')) s
handler sys spawn report peer whoami s = (done (peer_ip peer), s)
handler sys spawn report peer hello s = (done hello_back, s)
handler sys spawn report peer protocol s = (done protocol_version, s)
handler sys spawn report peer other s = (done err_invalid_command, s)
