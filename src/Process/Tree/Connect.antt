-- ===== src/Process/Tree/Connect.antt =====
-- The child's end of a start (zprocess/process_tree.py): ProcessTree.connect_to_parent.
use zprocess.Base.{Option, none, some, List, [], ◌++◌, if◌then◌else◌}
use zprocess.Process.Tree.{
  Text, chars, Value, text, paths, is_null, value_error, runtime_error, attribute_error, Result, ok,
  err, ◌>>=◌, Info, lookup, lookup_or_null, ends_with, Names, gethostbyname, ProcessTree, new_tree,
}

abbrev pub sub : Text
sub = chars "-sub"

-- the name of a child's lock client
unfoldable pub sub_name : Text → Text
sub_name name = if ends_with sub name then name else name ++ sub

unfoldable pub name_client : Option Text → Info → Result (Option Text)
name_client none info = ok none
name_client (some old) info = elim (lookup (chars "zlock_process_name") info) [
  | ok (text name) ↦ ok (some (sub_name name))
  | ok value ↦ err attribute_error
  | err e ↦ err e
]

abbrev pub paths_of : Value → List (Text × Text)
paths_of (paths d) = d
paths_of value = []

-- `_connect_to_parent`. `first_put` is what comes of the message 'hello' to the parent, and `redirect` of
-- the interceptors for stdout and stderr.
unfoldable pub connect_with :
    Names
    → Result (Unit {0})
    → (Value → Value → Result (Unit {0}))
    → Info
    → ProcessTree
    → Result ProcessTree
connect_with names first_put redirect info tree = do
  parent_host ← lookup (chars "parent_host") info
  ip ← gethostbyname names parent_host
  zlock_client ← name_client tree.zlock_client info
  from_parent_port ← lookup (chars "from_parent_port") info
  to_parent_port ← lookup (chars "to_parent_port") info
  said ← first_put
  redirected ←
      (let host = lookup_or_null (chars "output_redirection_host") info in
        let port = lookup_or_null (chars "output_redirection_port") info in
        if is_null port then ok tt else redirect host port)
  heartbeat_host ← lookup (chars "heartbeat_server_host") info
  heartbeat_port ← lookup (chars "heartbeat_server_port") info
  broker_host ← lookup (chars "broker_host") info
  broker_in_port ← lookup (chars "broker_in_port") info
  broker_out_port ← lookup (chars "broker_out_port") info
  log_paths ← lookup (chars "log_paths") info
  ok (record tree {
    parent_host = some ip;
    zlock_client = zlock_client;
    startup_timeout = lookup_or_null (chars "startup_timeout") info;
    output_redirection_host = lookup_or_null (chars "output_redirection_host") info;
    output_redirection_port = lookup_or_null (chars "output_redirection_port") info;
    heartbeat_client = some (heartbeat_host, heartbeat_port);
    broker_host = broker_host;
    broker_in_port = broker_in_port;
    broker_out_port = broker_out_port;
    log_paths = paths_of log_paths;
  })

-- `__instance` and the environment variable
pub record Child : Type 0 where
  pub instance_tree : Option ProcessTree
  pub parentinfo_variable : Option Info

-- the new tree of `connect_to_parent`, connected
unfoldable pub tree_from :
    Names → Result (Unit {0}) → (Value → Value → Result (Unit {0})) → Info → Result ProcessTree
tree_from names first_put redirect info = do
  shared_secret ← lookup (chars "shared_secret") info
  allow_insecure ← lookup (chars "allow_insecure") info
  zlock_host ← lookup (chars "zlock_host") info
  zlock_port ← lookup (chars "zlock_port") info
  zlog_host ← lookup (chars "zlog_host") info
  zlog_port ← lookup (chars "zlog_port") info
  tree ← new_tree names shared_secret allow_insecure zlock_host zlock_port zlog_host zlog_port
  connect_with names first_put redirect info tree

-- `connect_to_parent`
unfoldable pub connect_to_parent :
    Names
    → Result (Unit {0})
    → (Value → Value → Result (Unit {0}))
    → Child
    → Result ProcessTree × Child
connect_to_parent names first_put redirect c = elim c.instance_tree [
  | some tree ↦ (err value_error, c)
  | none ↦ elim c.parentinfo_variable [
    | none ↦ (err runtime_error, c)
    | some info ↦
        let c' : Child = record c { parentinfo_variable = none } in
        elim (tree_from names first_put redirect info) [
          | err e ↦ (err e, c')
          | ok tree ↦ (ok tree, record c' { instance_tree = some tree })
        ]
  ]
]
