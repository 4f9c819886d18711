-- ===== src/Process/Tree/Inherit.antt =====
-- What the descendants of a process know (zprocess/process_tree.py, ProcessTree).
use zprocess.Base.{
  ℕ, ◌≡◌, refl, ap, sym, Bool, true, false, Option, none, some, List, [], ◌∷◌, ◌++◌, if◌then◌else◌,
  arith,
}
use mathlib.Core.Path.{subst}
use zprocess.Process.Events.{same}
use zprocess.Process.Tree.{
  Text, Value, null, number, is_null, runtime_error, Result, ok, err, ◌>>=◌, lookup, lookup_or_null,
  ends_with, Names, gethostbyname, ProcessTree, client_for, new_tree, check_broker,
}
use zprocess.Process.Tree.Launch.{
  Ports, localhost, port_of, hello, ensure_heartbeat, launch, addressed, parentinfo,
  process_name_of, prepared, redirection, subprocess,
}
use zprocess.Process.Tree.Connect.{sub, sub_name, name_client, connect_with, tree_from}

-- the tree of a child that gets its connection: zlock client, zlog client and the parent's address
abbrev child_of :
    Ports → Value × Value → Value → ProcessTree → Option Text → Bool → Text → ProcessTree
child_of ports (host, port) startup_timeout t zlock_client zlog_client ip = record {
  shared_secret = t.shared_secret;
  allow_insecure = t.allow_insecure;
  zlock_host = t.zlock_host;
  zlock_port = t.zlock_port;
  zlog_host = t.zlog_host;
  zlog_port = t.zlog_port;
  parent_host = some ip;
  broker = none;
  broker_host = t.broker_host;
  broker_in_port = t.broker_in_port;
  broker_out_port = t.broker_out_port;
  heartbeat_server = none;
  heartbeat_client = some (localhost, number (port_of ports.heartbeat_port t.heartbeat_server));
  output_redirection_host = host;
  output_redirection_port = port;
  remote_output_receiver = none;
  log_paths = t.log_paths;
  startup_timeout = startup_timeout;
  zlock_client = zlock_client;
  zlog_client = zlog_client;
}

abbrev named : Option Text → Text → Option Text
named none name = none
named (some old) name = some (sub_name name)

abbrev connected : Value → Value → Result (Unit {0})
connected host port = ok tt

connect_with-parentinfo :
    (names : Names) (ports : Ports) (host port startup_timeout : Value) (t c : ProcessTree)
    (ip : Text)
    → gethostbyname names localhost ≡ ok ip
    → connect_with names (ok tt) connected (parentinfo ports (host, port) startup_timeout t) c
      ≡ ok (record c {
        parent_host = some ip;
        zlock_client = named c.zlock_client (process_name_of t.zlock_client);
        startup_timeout = startup_timeout;
        output_redirection_host = host;
        output_redirection_port = port;
        heartbeat_client =
            some (localhost, number (port_of ports.heartbeat_port t.heartbeat_server));
        broker_host = t.broker_host;
        broker_in_port = t.broker_in_port;
        broker_out_port = t.broker_out_port;
        log_paths = t.log_paths;
      })
unfolding connect_with parentinfo name_client lookup lookup_or_null
connect_with-parentinfo names ports host port startup_timeout t c ip h = ground (arith, h)

-- A child looks the servers up that its parent knows.
abbrev pub Resolves : Names → ProcessTree → Option Text → Bool → Text → Type 0
Resolves names t zlock_client zlog_client ip =
    (client_for names t.zlock_host none (some []) ≡ ok zlock_client)
    × (client_for names t.zlog_host false true ≡ ok zlog_client)
    × (gethostbyname names localhost ≡ ok ip)

tree_from-parentinfo :
    (names : Names) (ports : Ports) (host port startup_timeout : Value) (t : ProcessTree)
    (zlock_client : Option Text) (zlog_client : Bool) (ip : Text)
    → Resolves names t zlock_client zlog_client ip
    → tree_from names (ok tt) connected (parentinfo ports (host, port) startup_timeout t)
      ≡ ok (
          child_of ports
            (host, port)
            startup_timeout
            t
            (named zlock_client (process_name_of t.zlock_client))
            zlog_client
            ip)
unfolding tree_from new_tree parentinfo lookup
tree_from-parentinfo names ports host port startup_timeout t zlock_client zlog_client ip
      (e, e', e'') =
    rw (e, e') (connect_with-parentinfo names ports host port startup_timeout t _ ip e'')

-- A local start that asks for no redirection.
pub record Start : Type 0 where
  pub ports : Ports
  pub startup_timeout : Value
  pub command_line : List Text

-- the child of such a start, once it has connected
unfoldable pub local_child : Names → Start → ProcessTree → Result ProcessTree
local_child names start t =
    let run =
      subprocess names start.ports none (null, null) start.startup_timeout start.command_line
        (ok tt) hello t in
    elim run.child [
      | none ↦ err runtime_error
      | some launched ↦ tree_from names (ok tt) connected launched.environment
    ]

-- the descendant that a chain of such starts leads to
unfoldable pub descendant : Names → List Start → ProcessTree → Result ProcessTree
descendant names [] t = ok t
descendant names (start ∷ starts) t = local_child names start t >>= descendant names starts

-- where the output of the children of a process goes if they ask for nothing
abbrev pub output_of : ProcessTree → Value × Value
output_of t =
    if is_null t.output_redirection_port
    then (null, null)
    else (t.output_redirection_host, t.output_redirection_port)

-- What a descendant has in common with its ancestor: the security settings, the servers for locks and
-- logs, the broker, the redirection and the paths of logs.
abbrev pub Inherits : ProcessTree → ProcessTree → Type 0
Inherits t c =
    (c.shared_secret ≡ t.shared_secret)
    × (c.allow_insecure ≡ t.allow_insecure)
    × (c.zlock_host ≡ t.zlock_host)
    × (c.zlock_port ≡ t.zlock_port)
    × (c.zlog_host ≡ t.zlog_host)
    × (c.zlog_port ≡ t.zlog_port)
    × (c.broker_host ≡ t.broker_host)
    × (c.broker_in_port ≡ t.broker_in_port)
    × (c.broker_out_port ≡ t.broker_out_port)
    × (output_of c ≡ output_of t)
    × (c.log_paths ≡ t.log_paths)

-- what a tree keeps when it gets its servers
prepared-keeps :
    (ports : Ports) (t : ProcessTree)
    → let p = prepared ports t in
      (p.zlock_host ≡ t.zlock_host)
      × (p.zlog_host ≡ t.zlog_host)
      × (p.zlock_client ≡ t.zlock_client)
      × (output_of p ≡ output_of t)
unfolding prepared ensure_heartbeat check_broker
prepared-keeps ports t = ground arith

redirection-eq :
    (port : ℕ) (p : ProcessTree) → redirection port false null null p ≡ (output_of p, p)
unfolding redirection
redirection-eq port p = ground arith

local_child-eq :
    (names : Names) (start : Start) (t : ProcessTree) (zlock_client : Option Text)
    (zlog_client : Bool) (ip : Text)
    → Resolves names (prepared start.ports t) zlock_client zlog_client ip
    → local_child names start t
      ≡ ok (
          child_of start.ports
            (output_of (prepared start.ports t))
            start.startup_timeout
            (prepared start.ports t)
            (named zlock_client (process_name_of (prepared start.ports t).zlock_client))
            zlog_client
            ip)
unfolding local_child subprocess launch addressed
local_child-eq names start t zlock_client zlog_client ip r =
    let p = prepared start.ports t in
    rw (redirection-eq start.ports.receiver_port p) (
      tree_from-parentinfo names start.ports (output_of p).0 (output_of p).1 start.startup_timeout p
        zlock_client zlog_client ip r)

same_self : (xs : Text) → same xs xs ≡ true
same_self [] = refl
same_self (x ∷ xs) = ground (arith, same_self xs)

ends_with-append : (suffix xs : Text) → ends_with suffix (xs ++ suffix) ≡ true
unfolding ends_with
ends_with-append [] [] = refl
ends_with-append (y ∷ suffix) [] = ground (arith, same_self (y ∷ suffix))
ends_with-append suffix (x ∷ xs) = ground (arith, ends_with-append suffix xs)

pub sub_name_twice : (name : Text) → sub_name (sub_name name) ≡ sub_name name
unfolding sub_name
sub_name_twice name = ground (arith, ends_with-append sub name)

-- the descendant of at least one start, and what it has of the ancestor `p` that has its servers
abbrev pub Descends : Result ProcessTree → Option Text → ProcessTree → Type 0
Descends (err e) zlock_client p = ⊥
Descends (ok c) zlock_client p =
    Inherits p c × (c.zlock_client ≡ named zlock_client (process_name_of p.zlock_client))

Descends-trans :
    (r : Result ProcessTree) (zlock_client : Option Text) (p q : ProcessTree)
    → Inherits p q
    → named zlock_client (process_name_of q.zlock_client)
      ≡ named zlock_client (process_name_of p.zlock_client)
    → Descends r zlock_client q
    → Descends r zlock_client p
Descends-trans (err e) zlock_client p q h n d = d
Descends-trans (ok c) zlock_client p q h n d = ground arith

output_of_twice :
    (p c : ProcessTree)
    → c.output_redirection_host ≡ (output_of p).0
    → c.output_redirection_port ≡ (output_of p).1
    → output_of c ≡ output_of p
output_of_twice p c e e' = ground arith

named_twice :
    (zlock_client : Option Text) (name : Text)
    → named zlock_client (process_name_of (named zlock_client name)) ≡ named zlock_client name
named_twice none name = refl
named_twice (some old) name = ap (λ n. some n) (sub_name_twice name)

prepared-has_broker :
    (ports : Ports) (t : ProcessTree) → is_null (prepared ports t).broker_in_port ≡ false
unfolding prepared ensure_heartbeat check_broker
prepared-has_broker ports t = ground arith

prepared-with_broker :
    (ports : Ports) (c : ProcessTree)
    → is_null c.broker_in_port ≡ false
    → prepared ports c
      ≡ record c { heartbeat_server = some (port_of ports.heartbeat_port c.heartbeat_server) }
unfolding prepared ensure_heartbeat check_broker
prepared-with_broker ports c h = rw h refl

-- The children of a process, and theirs, at any depth, which all start locally, ask for nothing and
-- can send their first message and redirect their output: if the host names can be looked up, every one
-- of them connects; it has the security settings, the servers for locks and logs, the redirection and
-- the log paths of the first process, and its events go through the broker of the first process or of
-- that one's ancestors; its lock client, if there is one, is named after the first process, with '-sub'
-- behind the name once at any depth.
pub descendant-Descends :
    (names : Names) (start : Start) (starts : List Start) (t : ProcessTree)
    (zlock_client : Option Text) (zlog_client : Bool) (ip : Text)
    → Resolves names (prepared start.ports t) zlock_client zlog_client ip
    → Descends (descendant names (start ∷ starts) t) zlock_client (prepared start.ports t)
unfolding descendant
descendant-Descends names start [] t zlock_client zlog_client ip r =
    let p = prepared start.ports t in
    let c =
      child_of start.ports (output_of p) start.startup_timeout p
        (named zlock_client (process_name_of p.zlock_client)) zlog_client ip in
    rw (local_child-eq names start t zlock_client zlog_client ip r) (
      (refl, refl, refl, refl, refl, refl, refl, refl, refl, output_of_twice p c refl refl, refl),
      refl,
    )
descendant-Descends names start (next ∷ starts) t zlock_client zlog_client ip r =
    let p = prepared start.ports t in
    let c =
      child_of start.ports (output_of p) start.startup_timeout p
        (named zlock_client (process_name_of p.zlock_client)) zlog_client ip in
    let q = record c { heartbeat_server = some (port_of next.ports.heartbeat_port none) } in
    let e : prepared next.ports c ≡ q =
      prepared-with_broker next.ports c (prepared-has_broker start.ports t) in
    rw (local_child-eq names start t zlock_client zlog_client ip r) (
      Descends-trans (descendant names (next ∷ starts) c) zlock_client p q
        (refl, refl, refl, refl, refl, refl, refl, refl, refl, output_of_twice p q refl refl, refl)
        (named_twice zlock_client (process_name_of p.zlock_client))
        (subst (λ x. Descends (descendant names (next ∷ starts) c) zlock_client x) e
          (descendant-Descends names next starts c zlock_client zlog_client ip
            (subst (λ x. Resolves names x zlock_client zlog_client ip) (sym e) r))))
