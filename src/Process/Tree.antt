-- ===== src/Process/Tree.antt =====
-- class ProcessTree of zprocess/process_tree.py: what a process knows of the processes around it, and
-- what it hands to a child by the environment variable ZPROCESS_PARENTINFO. Texts are lists of the
-- characters' codes, and what Python keeps without a type is a Value. Sockets and threads are left
-- out: a server that is started is the port that it is given.
pub mod Launch
pub mod Connect
pub mod Inherit
pub mod Addresses
mod Examples
use zprocess.Base.{
  ℕ, Bool, true, false, not, ◌&&◌, Option, none, some, List, [], ◌∷◌, ◌++◌, if◌then◌else◌, String,
}
use Prim.Native.Char.{code}
use Prim.Native.String
use zprocess.Process.Events.{same}

abbrev pub Text : Type 0
Text = List ℕ

-- the text of a literal
abbrev pub chars : String → Text
chars String.[] = []
chars (String.◌∷◌ c s) = code c ∷ chars s

-- `null` is None, and `paths` a dictionary from texts to texts.
pub data Value : Type 0 where
  null : Value
  flag : Bool → Value
  number : ℕ → Value
  text : Text → Value
  paths : List (Text × Text) → Value

abbrev pub is_null : Value → Bool
is_null null = true
is_null value = false

-- `unreachable` is the exception of a call that could not be made: of a socket, a process or a server.
pub data Error : Type 0 where
  os_error key_error value_error runtime_error assertion_error attribute_error : Error
  interrupted unreachable : Error

pub data Result {ℓ} (A : Type ℓ) : Type ℓ where
  ok : A → Result A
  err : Error → Result A

infixl 5 ◌>>=◌
abbrev pub ◌>>=◌ {ℓ} : {A B : Type ℓ} → Result A → (A → Result B) → Result B
ok a >>= f = f a
err e >>= f = err e

-- a dictionary with texts as keys, and what `json.dumps` makes of one and `json.loads` reads back
abbrev pub Info : Type 0
Info = List (Text × Value)

-- `info[key]`
unfoldable pub lookup : Text → Info → Result Value
lookup key [] = err key_error
lookup key ((k, value) ∷ info) = if same k key then ok value else lookup key info

-- `info.get(key, None)`
unfoldable pub lookup_or_null : Text → Info → Value
lookup_or_null key [] = null
lookup_or_null key ((k, value) ∷ info) = if same k key then value else lookup_or_null key info

-- `text.endswith(suffix)`
unfoldable pub ends_with : Text → Text → Bool
ends_with suffix [] = same [] suffix
ends_with suffix (x ∷ xs) =
    let rest = ends_with suffix xs in if same (x ∷ xs) suffix then true else rest

-- `socket.getaddrinfo`, of which only whether an address is an IPv4 address and its text are used and
-- the first is always there; `socket.gethostbyname`; and `ipaddress.ip_address(ip).is_loopback`.
-- None is their exception.
pub record Names : Type 0 where
  pub getaddrinfo : Value → Option ((Bool × Text) × List (Bool × Text))
  pub ipv4_of : Value → Option Text
  pub is_loopback : Text → Bool

abbrev pub first_ipv4 : Text → List (Bool × Text) → Text
first_ipv4 default [] = default
first_ipv4 default ((is_ipv4, address) ∷ results) =
    if is_ipv4 then address else first_ipv4 default results

-- `gethostbyname` of zprocess/utils.py
unfoldable pub gethostbyname : Names → Value → Result Text
gethostbyname names host = elim (names.getaddrinfo host) [
  | none ↦ err os_error
  | some (first, others) ↦ ok (first_ipv4 first.1 (first ∷ others))
]

-- `heartbeat_server`, `remote_output_receiver` and `broker` are the ports of those that this process
-- runs; `zlock_client` is that client's process name, and `heartbeat_client` its server's address.
pub record ProcessTree : Type 0 where
  pub shared_secret : Value
  pub allow_insecure : Value
  pub zlock_host : Value
  pub zlock_port : Value
  pub zlog_host : Value
  pub zlog_port : Value
  pub parent_host : Option Text
  pub broker : Option (ℕ × ℕ)
  pub broker_host : Value
  pub broker_in_port : Value
  pub broker_out_port : Value
  pub heartbeat_server : Option ℕ
  pub heartbeat_client : Option (Value × Value)
  pub output_redirection_host : Value
  pub output_redirection_port : Value
  pub remote_output_receiver : Option ℕ
  pub log_paths : List (Text × Text)
  pub startup_timeout : Value
  pub zlock_client : Option Text
  pub zlog_client : Bool

-- `ZLockClient(...)` and `ZLogClient(...)`, which look their host up; there is none for no host
abbrev pub client_for {ℓ} : {A : Type ℓ} → Names → Value → A → A → Result A
client_for names null absent present = ok absent
client_for names host absent present = elim (names.ipv4_of host) [
  | none ↦ err os_error
  | some ip ↦ ok present
]

-- `ProcessTree.__init__`
unfoldable pub new_tree : Names → Value → Value → Value → Value → Value → Value → Result ProcessTree
new_tree names shared_secret allow_insecure zlock_host zlock_port zlog_host zlog_port = do
  zlock_client ← client_for names zlock_host none (some [])
  zlog_client ← client_for names zlog_host false true
  ok (record {
    shared_secret = shared_secret;
    allow_insecure = allow_insecure;
    zlock_host = zlock_host;
    zlock_port = zlock_port;
    zlog_host = zlog_host;
    zlog_port = zlog_port;
    parent_host = none;
    broker = none;
    broker_host = null;
    broker_in_port = null;
    broker_out_port = null;
    heartbeat_server = none;
    heartbeat_client = none;
    output_redirection_host = null;
    output_redirection_port = null;
    remote_output_receiver = none;
    log_paths = [];
    startup_timeout = null;
    zlock_client = zlock_client;
    zlog_client = zlog_client;
  })

-- `lock`: the key and the access are passed on to the client
unfoldable pub lock : ℕ → Bool → ProcessTree → Result (ℕ × Bool)
lock key read_only tree = elim tree.zlock_client [
  | none ↦ err runtime_error
  | some name ↦ ok (key, read_only)
]

-- `d.setdefault(key, default)`
unfoldable pub setdefault : Text → Text → List (Text × Text) → Text × List (Text × Text)
setdefault key default [] = (default, (key, default) ∷ [])
setdefault key default ((k, value) ∷ d) =
    let (found, rest) = setdefault key default d in
    if same k key then (value, (k, value) ∷ d) else (found, (k, value) ∷ rest)

-- `logging_handler`: the path of the handler that the client makes
unfoldable pub logging_handler : Text → Option Text → ProcessTree → Result Text × ProcessTree
logging_handler filepath none tree =
    (if is_null tree.zlog_host then err runtime_error else ok filepath, tree)
logging_handler filepath (some name) tree =
    let (path, log_paths) = setdefault name filepath tree.log_paths in
    (
      if is_null tree.zlog_host then err runtime_error else ok path,
      record tree { log_paths = log_paths },
    )

-- `check_broker`, with the ports of a new broker
unfoldable pub check_broker : ℕ × ℕ → ProcessTree → ProcessTree
check_broker ports tree =
    if is_null tree.broker_in_port
    then record tree {
      broker = some ports;
      broker_host = text (chars "localhost");
      broker_in_port = number ports.0;
      broker_out_port = number ports.1;
    }
    else tree
