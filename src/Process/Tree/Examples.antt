-- ===== src/Process/Tree/Examples.antt =====
-- A process with a lock server, its grandchild, and a child on another host.
use zprocess.Base.{◌≡◌, refl, true, false, Option, none, some, [], ◌∷◌, if◌then◌else◌}
use zprocess.Process.Events.{same}
use zprocess.Process.Tree.{
  Text, chars, Value, null, flag, number, text, Result, ok, err, value_error, runtime_error, lookup,
  lookup_or_null, ends_with, Names, gethostbyname, ProcessTree, new_tree, check_broker,
  logging_handler, setdefault,
}
use zprocess.Process.Tree.Launch.{
  Ports, ensure_heartbeat, prepared, redirection, parentinfo, addressed, hello, launch, subprocess,
}
use zprocess.Process.Tree.Connect.{
  sub_name, name_client, connect_with, tree_from, Child, connect_to_parent,
}
use zprocess.Process.Tree.Inherit.{Start, local_child, descendant, Descends, descendant-Descends}
use zprocess.Process.Tree.Addresses.{Handed, subprocess-Handed}

-- 'localhost' is the loopback, and any other host has itself as its address
abbrev address_of : Value → Text
address_of (text name) = if same name (chars "localhost") then chars "127.0.0.1" else name
address_of value = []

abbrev hosts : Names
hosts = record {
  getaddrinfo = λ host. some ((true, address_of host), []);
  ipv4_of = λ host. some (address_of host);
  is_loopback = λ ip. same ip (chars "127.0.0.1");
}

abbrev root : ProcessTree
root = record {
  shared_secret = text (chars "s");
  allow_insecure = flag false;
  zlock_host = text (chars "lab");
  zlock_port = number 7339;
  zlog_host = null;
  zlog_port = number 7340;
  parent_host = none;
  broker = none;
  broker_host = null;
  broker_in_port = null;
  broker_out_port = null;
  heartbeat_server = none;
  heartbeat_client = none;
  output_redirection_host = null;
  output_redirection_port = null;
  remote_output_receiver = none;
  log_paths = [];
  startup_timeout = null;
  zlock_client = some (chars "main");
  zlog_client = false;
}

abbrev bound : Ports
bound = record {
  from_child_port = 1;
  to_child_port = 2;
  broker_ports = (3, 4);
  heartbeat_port = 5;
  receiver_port = 6;
}

abbrev a_start : Start
a_start = record { ports = bound; startup_timeout = number 5; command_line = chars "x.py" ∷ [] }

descendant-Descends_example :
    Descends
      (descendant hosts (a_start ∷ a_start ∷ a_start ∷ []) root)
      (some [])
      (prepared bound root)
unfolding prepared ensure_heartbeat check_broker gethostbyname
descendant-Descends_example =
    descendant-Descends hosts a_start (a_start ∷ a_start ∷ []) root (some []) false
      (chars "127.0.0.1") (refl, refl, refl)

subprocess-Handed_example :
    let (output, tree) = redirection 6 true null null (prepared bound root) in
    Handed hosts
      (parentinfo bound output (number 5) tree)
      (subprocess hosts bound
        (some (ok (chars "10.0.0.7")))
        (null, null)
        (number 5)
        (chars "x.py" ∷ [])
        (ok tt)
        hello
        root).child
unfolding gethostbyname
subprocess-Handed_example =
    subprocess-Handed hosts bound (chars "10.0.0.7") null null (number 5) (chars "x.py" ∷ [])
      (ok tt) hello root (chars "10.0.0.7", refl, refl)

abbrev name_of : Result ProcessTree → Option Text
name_of (err e) = none
name_of (ok tree) = tree.zlock_client

grandchild_name : name_of (descendant hosts (a_start ∷ a_start ∷ []) root) ≡ some (chars "main-sub")
unfolding descendant local_child tree_from connect_with name_client sub_name ends_with subprocess
    launch prepared ensure_heartbeat check_broker redirection addressed parentinfo lookup
    lookup_or_null gethostbyname new_tree
grandchild_name = refl

-- A process that has no parent, and one that is connected already.
abbrev orphan : Child
orphan = record { instance_tree = none; parentinfo_variable = none }

orphan_raises :
    connect_to_parent hosts (ok tt) (λ host port. ok tt) orphan ≡ (err runtime_error, orphan)
unfolding connect_to_parent
orphan_raises = refl

abbrev connected_child : Child
connected_child = record { instance_tree = some root; parentinfo_variable = some [] }

connected_raises :
    connect_to_parent hosts (ok tt) (λ host port. ok tt) connected_child
    ≡ (err value_error, connected_child)
unfolding connect_to_parent
connected_raises = refl

-- the path that was used for a name in the parent is kept
known_path :
    (logging_handler
      (chars "b")
      (some (chars "n"))
      (record root { zlog_host = text (chars "lab"); log_paths = (chars "n", chars "a") ∷ [] })).0
    ≡ ok (chars "a")
unfolding logging_handler setdefault
known_path = refl
