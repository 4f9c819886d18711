-- ===== src/Remote/Client/Calls.antt =====
-- The requests of classes RemoteProcessClient and RemoteChildProxy of zprocess/remote/__init__.py, and
-- the server that answers them. A request is answered by the server's handler, whose exception is the
-- client's; texts are lists of characters.
pub mod Controls
use zprocess.Base.{
  ℕ, Bool, true, false, not, Option, none, some, List, [], ◌∷◌, ◌++◌, if◌then◌else◌, drop,
}
use zprocess.Base.Dict.{Dict}
use zprocess.Process.Events.{is_prefix}
use zprocess.Remote.Server.{Server, M, done, raised, type_error, ◌>>=◌, raise, Report}
use zprocess.Remote.Server.Handler.{
  Interpreter, Spawn, Options, Action, terminate, kill, delete, Request, on_child, Response, code,
  launched_pid, handler,
}
use zprocess.Remote.Server.Handler
use zprocess.Remote.Client.{Proxy}

abbrev pub Text : Type 0
Text = List ℕ

-- `get_`
abbrev pub get_mark : Text
get_mark = 103 ∷ 101 ∷ 116 ∷ 95 ∷ []

-- the characters before the next `get_`
unfoldable pub until_get : Text → Text
until_get [] = []
until_get (x ∷ xs) = let rest = until_get xs in if is_prefix get_mark (x ∷ xs) then [] else x ∷ rest

-- The keyword arguments of `RemoteProcessClient.request`: those of the call of `get`, and those of the
-- request. `kwarg.split('get_')[1]` is what stands behind the first `get_`, up to a second one.
unfoldable pub split_kwargs : {A : Type 0} → List (Text × A) → List (Text × A) × List (Text × A)
split_kwargs [] = ([], [])
split_kwargs ((kwarg, value) ∷ kwargs) =
    let (get_kwargs, rest) = split_kwargs kwargs in
    if is_prefix get_mark kwarg
    then ((until_get (drop 4 kwarg), value) ∷ get_kwargs, rest)
    else (get_kwargs, (kwarg, value) ∷ rest)

-- `kwargs.setdefault('prepend_sys_executable', False)`
abbrev pub popen_options : Option Bool → Dict ℕ → Bool → Options
popen_options prepend extra_env streams = record {
  prepend_sys_executable = elim prepend [ none ↦ false | some b ↦ b ];
  extra_env = extra_env;
  streams = streams;
}

module _ (sys : Interpreter) (spawn : Spawn) (peer : ℕ) where
  -- The server answers Popen by a pid or an exception.
  unfoldable pub proxy_for : Response → M Proxy
  proxy_for (launched_pid pid) s = (done (record { pid = pid; returncode = none }), s)
  proxy_for response s = (raised type_error, s)

  -- `RemoteProcessClient.Popen`
  unfoldable pub popen : Report → List ℕ → Option Bool → Dict ℕ → Bool → M Proxy
  popen report cmd prepend extra_env streams =
      handler sys spawn report peer
        (Handler.popen (some cmd) (popen_options prepend extra_env streams))
      >>= proxy_for

  -- `RemoteChildProxy.request`, without further arguments
  unfoldable pub request : Report → Action → Proxy → M Response
  request report action proxy = handler sys spawn report peer (on_child action (proxy.pid ∷ []))

  -- `RemoteChildProxy.poll`
  unfoldable pub poll : Report → Proxy → M (Response × Proxy)
  poll report proxy = request report Handler.poll proxy >>= λ response s.
      (done (response, record proxy { returncode = some response }), s)

  -- `RemoteChildProxy.__del__`, which swallows exceptions
  unfoldable pub del_proxy : Report → Proxy → Server → Server
  del_proxy report proxy s = (request report delete proxy s).1
