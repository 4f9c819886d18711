-- ===== src/Process/Tree/Launch.antt =====
-- The parent's end of a start (zprocess/process_tree.py): ProcessTree.subprocess.
use zprocess.Base.{
  ℕ, Bool, true, false, not, ◌&&◌, Option, none, some, List, [], ◌∷◌, ◌==◌, if◌then◌else◌,
}
use zprocess.Process.Tree.{
  Text, chars, Value, null, flag, number, text, paths, is_null, runtime_error, assertion_error,
  interrupted, Result, ok, err, ◌>>=◌, Info, ends_with, Names, gethostbyname, ProcessTree,
  check_broker,
}

-- The ports that a start binds, whether or not it needs each of them.
pub record Ports : Type 0 where
  pub from_child_port : ℕ
  pub to_child_port : ℕ
  pub broker_ports : ℕ × ℕ
  pub heartbeat_port : ℕ
  pub receiver_port : ℕ

abbrev pub port_of : ℕ → Option ℕ → ℕ
port_of fresh none = fresh
port_of fresh (some port) = port

-- the heartbeat server, which the first child needs
unfoldable pub ensure_heartbeat : ℕ → ProcessTree → ProcessTree
ensure_heartbeat port tree = record tree {
  heartbeat_server = some (port_of port tree.heartbeat_server);
}

unfoldable pub ensure_receiver : ℕ → ProcessTree → ProcessTree
ensure_receiver port tree = record tree {
  remote_output_receiver = some (port_of port tree.remote_output_receiver);
}

abbrev pub localhost : Value
localhost = text (chars "localhost")

-- where the output goes: host and port, for a process that is remote or not
unfoldable pub redirection : ℕ → Bool → Value → Value → ProcessTree → (Value × Value) × ProcessTree
redirection receiver_port is_remote host port tree =
    if not (is_null host)
    then ((host, port), tree)
    else (if not (is_null port)
        then ((localhost, port), tree)
        else (if not (is_null tree.output_redirection_port)
            then ((tree.output_redirection_host, tree.output_redirection_port), tree)
            else (if is_remote
                then (
                  (localhost, number (port_of receiver_port tree.remote_output_receiver)),
                  ensure_receiver receiver_port tree,
                )
                else ((null, null), tree))))

abbrev pub process_name_of : Option Text → Text
process_name_of none = []
process_name_of (some name) = name

-- the dictionary `parentinfo`
unfoldable pub parentinfo : Ports → Value × Value → Value → ProcessTree → Info
parentinfo ports (host, port) startup_timeout tree =
    (chars "parent_host", localhost)
    ∷ (chars "to_parent_port", number ports.from_child_port)
    ∷ (chars "from_parent_port", number ports.to_child_port)
    ∷ (chars "heartbeat_server_host", localhost)
    ∷ (chars "heartbeat_server_port", number (port_of ports.heartbeat_port tree.heartbeat_server))
    ∷ (chars "broker_host", tree.broker_host)
    ∷ (chars "broker_in_port", tree.broker_in_port)
    ∷ (chars "broker_out_port", tree.broker_out_port)
    ∷ (chars "output_redirection_host", host)
    ∷ (chars "output_redirection_port", port)
    ∷ (chars "shared_secret", tree.shared_secret)
    ∷ (chars "allow_insecure", tree.allow_insecure)
    ∷ (chars "zlock_host", tree.zlock_host)
    ∷ (chars "zlock_port", tree.zlock_port)
    ∷ (chars "zlock_process_name", text (process_name_of tree.zlock_client))
    ∷ (chars "zlog_host", tree.zlog_host)
    ∷ (chars "zlog_port", tree.zlog_port)
    ∷ (chars "log_paths", paths tree.log_paths)
    ∷ (chars "startup_timeout", startup_timeout)
    ∷ []

abbrev pub is_host : Text → Value → Bool
is_host key value = ends_with (chars "_host") key && not (is_null value)

-- one entry of the dictionary for a remote child, where the server knows us by `external_ip`
unfoldable pub translate : Names → Text → Text → Value → Result Value
translate names external_ip key value =
    if is_host key value
    then (gethostbyname names value >>= λ ip.
        ok (if names.is_loopback ip then text external_ip else value))
    else ok value

-- the loop over the entries
unfoldable pub translate_all : Names → Text → Info → Result Info
translate_all names external_ip [] = ok []
translate_all names external_ip ((key, value) ∷ info) = do
  value' ← translate names external_ip key value
  info' ← translate_all names external_ip info
  ok ((key, value') ∷ info')

-- the dictionary that is sent: `remote` is the answer of the remote server to `whoami`, if any
unfoldable pub addressed : Names → Option (Result Text) → Info → Result Info
addressed names none info = ok info
addressed names (some answer) info = answer >>= λ external_ip. translate_all names external_ip info

abbrev pub arguments : Option (List Text) → List Text
arguments none = []
arguments (some args) = args

-- the command line behind the interpreter
unfoldable pub command : (Text → Text) → Text → Bool → Option (List Text) → List Text
command abspath path pymodule args =
    if pymodule then chars "-m" ∷ path ∷ arguments args else abspath path ∷ arguments args

-- What comes of the wait for the child's first message.
pub data First : Type 0 where
  hello other_message no_message interruption : First

unfoldable pub first_message : First → Result (Unit {0})
first_message hello = ok tt
first_message other_message = err assertion_error
first_message no_message = err runtime_error
first_message interruption = err interrupted

-- A child that has been started, by its command line and environment.
pub record Launched : Type 0 where
  pub command_line : List Text
  pub environment : Info

-- `child` is what is put into the startup queue.
pub record Run : Type 0 where
  pub child : Option Launched
  pub outcome : Result (Unit {0})
  pub tree : ProcessTree

-- the rest of a start, once the dictionary is made; `popen` is whether the process could be started
unfoldable pub launch : List Text → Result (Unit {0}) → First → ProcessTree → Result Info → Run
launch command_line popen first tree (err e) = record { child = none; outcome = err e; tree = tree }
launch command_line (err e) first tree (ok info) = record {
  child = none;
  outcome = err e;
  tree = tree;
}
launch command_line (ok u) first tree (ok info) = record {
  child = some (record { command_line = command_line; environment = info });
  outcome = first_message first;
  tree = tree;
}

abbrev pub is_remote_start : Option (Result Text) → Bool
is_remote_start none = false
is_remote_start (some answer) = true

-- the parent's tree once it has its servers
unfoldable pub prepared : Ports → ProcessTree → ProcessTree
prepared ports tree = ensure_heartbeat ports.heartbeat_port (check_broker ports.broker_ports tree)

-- `subprocess`, where `command_line` is what `command` makes of the path and the arguments, and
-- `popen` and `first` are what comes of the launch and of the wait for the first message
unfoldable pub subprocess :
    Names
    → Ports
    → Option (Result Text)
    → Value × Value
    → Value
    → List Text
    → Result (Unit {0})
    → First
    → ProcessTree
    → Run
subprocess names ports remote (host, port) startup_timeout command_line popen first tree =
    let (output, tree') =
      redirection ports.receiver_port (is_remote_start remote) host port (prepared ports tree) in
    launch command_line popen first tree'
      (addressed names remote (parentinfo ports output startup_timeout tree'))

-- `subprocess_with_queues`: a port that is equal to 0 means no redirection
unfoldable pub redirection_port : Value → Value
redirection_port (number n) = if n == 0 then null else number n
redirection_port (flag false) = null
redirection_port port = port
