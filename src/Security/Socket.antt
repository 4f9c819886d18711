-- ===== src/Security/Socket.antt =====
-- class SecureSocket of zprocess/security.py: bind, connect and recv. `polls` are what the polls of
-- connect report, each with the time before it in ms. Not modelled: a deadline as a float.
pub mod Received
pub mod Connecting
use zprocess.Base.{
  ℕ, ◌+◌, ◌-◌, Bool, true, false, not, ◌||◌, Option, none, some, List, [], ◌∷◌, ◌==◌, if◌then◌else◌,
}
use zprocess.Base.Float.{ℤ, sub_ℕ}
use zprocess.Process.Interruptor.{Interruptor, subscribe, unsubscribe}
use zprocess.Process.Interruptor
use zprocess.Security.{Ip, Library, unmapped, ip_is_loopback, gethostbyname}

-- The keys that a socket has been given, if any.
pub data Role : Type 0 where
  as_server as_client : Role

-- The curve options of a socket.
pub record Curve : Type 0 where
  pub curve_server : Bool
  pub keys : Option Role
  pub zap_domain : Bool
  pub serverkey : Bool

-- `sink` tells whether the socket has a logger or a standard error to warn on; `warned` has the
-- addresses warned of, the newest first. `monitored` tells whether its monitor is open, and `polled`
-- has the timeouts of its polls, the newest first.
pub record Socket : Type 0 where
  pub secure : Bool
  pub allow_insecure : Bool
  pub tcp : Bool
  pub peer_ip : Option Ip
  pub sink : Bool
  pub warned : List Ip
  pub curve : Curve
  pub socks_proxy : Option (Ip × ℕ)
  pub monitored : Bool
  pub polled : List (Option ℤ)

-- A host in an address: `*`, or a name.
pub data Host : Type 0 where
  any : Host
  named : ℕ → Host

-- An address to bind or connect to. One with several hops has the text before its last colon, the first
-- hop, and the name and port that stand for the others, if they can be encoded.
pub data Endpoint : Type 0 where
  inproc : ℕ → Endpoint
  tcp_to : Host → ℕ → Endpoint
  proxied : ℕ → ℕ × ℕ → Option (ℕ × ℕ) → Endpoint
  other : Endpoint

-- `encoding_error` is the ValueError or struct.error of `hops_to_domain_addr`.
pub data Error : Type 0 where
  insecure_connection authentication_failure timed_out : Error
  interrupted : ℕ → Error
  value_error encoding_error lookup_error zmq_error : Error
  interruptor_error : Interruptor.Error → Error

pub data Outcome (A : Type 0) : Type 0 where
  done : A → Outcome A
  raised : Error → Outcome A
  waiting : Outcome A

-- `_is_internal`; none where the host cannot be looked up
unfoldable pub is_internal : Library → Endpoint → Option Bool
is_internal library (inproc name) = some true
is_internal library (tcp_to any port) = some false
is_internal library (tcp_to (named host) port) = elim (gethostbyname library host) [
  | none ↦ none
  | some ip ↦ some (ip_is_loopback library ip)
]
is_internal library (proxied text first others) = elim (gethostbyname library text) [
  | none ↦ none
  | some ip ↦ some (ip_is_loopback library ip)
]
is_internal library other = some false

-- `_configure_curve`
unfoldable pub configure_curve : Bool → Socket → Bool × Socket
configure_curve true s = (
  s.curve.curve_server,
  record s {
    curve = record s.curve { curve_server = true; zap_domain = true; keys = some as_server };
  },
)
configure_curve false s = (
  s.curve.curve_server,
  record s {
    curve = record s.curve { curve_server = false; serverkey = true; keys = some as_client };
  },
)

-- the part of `_bind_or_connect` for a tcp address; `fails` tells whether the library's method raises
unfoldable pub open_tcp : Bool → Bool → Socket → Outcome (Unit {0}) × Socket
open_tcp bind fails s =
    let (previous, configured) = configure_curve bind s in
    let (_, rolled_back) = configure_curve previous configured in
    if fails
    then (raised zmq_error, if s.secure then rolled_back else s)
    else (done tt, record (if s.secure then configured else s) { tcp = true })

-- the part for an address with several hops, with the address of the first one
unfoldable pub open_proxied : Bool → Bool → ℕ → Option Ip → Socket → Outcome (Unit {0}) × Socket
open_proxied bind fails port none s = (raised lookup_error, s)
open_proxied bind fails port (some ip) s =
    open_tcp bind fails (record s { socks_proxy = some (ip, port) })

-- `_bind_or_connect`
unfoldable pub bind_or_connect :
    Library → Bool → Bool → Endpoint → Socket → Outcome (Unit {0}) × Socket
bind_or_connect library bind fails (inproc name) s =
    if fails then (raised zmq_error, s) else (done tt, record s { tcp = false })
bind_or_connect library bind fails (tcp_to host port) s = open_tcp bind fails s
bind_or_connect library bind fails (proxied text first none) s = (raised encoding_error, s)
bind_or_connect library bind fails (proxied text (host, port) (some others)) s =
    open_proxied bind fails port (gethostbyname library host) s
bind_or_connect library bind fails other s = (raised value_error, s)

-- What a poll of the monitor reports: nothing in time, an interruption, or an event, which tells of
-- success, of failure, or of neither.
pub data Poll : Type 0 where
  nothing : Poll
  interruption : ℕ → Poll
  succeeded failed neither : Poll

-- `None`, or `deadline - monotonic()`, which is negative behind the deadline
abbrev pub remaining : ℕ → Option ℕ → Option ℤ
remaining now none = none
remaining now (some deadline) = some (sub_ℕ deadline now)

abbrev pub polls_for : Option ℤ → Socket → Socket
polls_for timeout s = record s { polled = timeout ∷ s.polled }

-- the loop of `connect`
unfoldable pub await_success : Option ℕ → List (ℕ × Poll) → Socket → Outcome (Unit {0}) × Socket
await_success deadline [] s = (waiting, s)
await_success deadline ((now, nothing) ∷ polls) s =
    (raised timed_out, polls_for (remaining now deadline) s)
await_success deadline ((now, interruption reason) ∷ polls) s =
    (raised (interrupted reason), polls_for (remaining now deadline) s)
await_success deadline ((now, succeeded) ∷ polls) s =
    (done tt, polls_for (remaining now deadline) s)
await_success deadline ((now, failed) ∷ polls) s =
    (raised authentication_failure, polls_for (remaining now deadline) s)
await_success deadline ((now, neither) ∷ polls) s =
    await_success deadline polls (polls_for (remaining now deadline) s)

abbrev pub Result : Type 0
Result = Outcome (Unit {0}) × Socket × Option Interruptor

-- `finally`, which first unsubscribes and then closes the monitor
abbrev pub close_monitor : Socket → Socket
close_monitor s = record s { monitored = false }

abbrev pub when_left : Outcome (Unit {0}) → Socket → Interruptor.Outcome × Interruptor → Result
when_left outcome s (Interruptor.done, i) = (outcome, close_monitor s, some i)
when_left outcome s (Interruptor.raised e, i) = (raised (interruptor_error e), s, some i)
when_left outcome s (Interruptor.blocked, i) = (waiting, s, some i)

unfoldable pub finally : ℕ → Outcome (Unit {0}) × Socket → Option Interruptor → Result
finally thread (waiting, s) i = (waiting, s, i)
finally thread (outcome, s) none = (outcome, close_monitor s, none)
finally thread (outcome, s) (some i) = when_left outcome s (unsubscribe thread i)

abbrev pub and_then :
    Outcome (Unit {0}) × Socket
    → (Socket → Outcome (Unit {0}) × Socket)
    → Outcome (Unit {0}) × Socket
and_then (done u, s) f = f s
and_then (raised e, s) f = (raised e, s)
and_then (waiting, s) f = (waiting, s)

abbrev pub deadline_of : ℕ → Option ℕ → Option ℕ
deadline_of now none = none
deadline_of now (some timeout) = some (now + timeout)

-- `try` and `finally`, unless `subscribe` has raised, which leaves the monitor open
abbrev pub when_subscribed :
    ℕ → Outcome (Unit {0}) × Socket → Socket → Interruptor.Outcome × Interruptor → Result
when_subscribed thread body s (Interruptor.done, i) = finally thread body (some i)
when_subscribed thread body s (Interruptor.raised e, i) =
    (raised (interruptor_error e), record s { monitored = true }, some i)
when_subscribed thread body s (Interruptor.blocked, i) =
    (waiting, record s { monitored = true }, some i)

-- `connect` with a timeout, from the monitor on; the timeout none is -1
unfoldable pub connect_blocking :
    Library
    → ℕ
    → ℕ
    → Bool
    → Endpoint
    → Option ℕ
    → List (ℕ × Poll)
    → Socket
    → Option Interruptor
    → Result
connect_blocking library thread now fails addr timeout polls s none =
    finally thread
      (and_then (bind_or_connect library false fails addr (record s { monitored = true }))
        (await_success (deadline_of now timeout) polls))
      none
connect_blocking library thread now fails addr timeout polls s (some i) =
    when_subscribed thread
      (and_then (bind_or_connect library false fails addr (record s { monitored = true }))
        (await_success (deadline_of now timeout) polls))
      s (subscribe thread i)

-- `self.secure or self._is_internal(addr) or self.allow_insecure`
unfoldable pub permitted : Library → Endpoint → Socket → Option Bool
permitted library addr s = if s.secure then some true else elim (is_internal library addr) [
  | none ↦ none
  | some internal ↦ some (internal || s.allow_insecure)
]

-- the rest of `connect`, without a timeout or with one
unfoldable pub connect_permitted :
    Library
    → ℕ
    → ℕ
    → Bool
    → Endpoint
    → Option (Option ℕ)
    → List (ℕ × Poll)
    → Socket
    → Option Interruptor
    → Option Bool
    → Result
connect_permitted library thread now fails addr timeout polls s i none = (raised lookup_error, s, i)
connect_permitted library thread now fails addr timeout polls s i (some false) =
    (raised insecure_connection, s, i)
connect_permitted library thread now fails addr none polls s i (some true) =
    let (outcome, s') = bind_or_connect library false fails addr s in (outcome, s', i)
connect_permitted library thread now fails addr (some timeout) polls s i (some true) =
    connect_blocking library thread now fails addr timeout polls s i

-- `connect`
unfoldable pub connect :
    Library
    → ℕ
    → ℕ
    → Bool
    → Endpoint
    → Option (Option ℕ)
    → List (ℕ × Poll)
    → Socket
    → Option Interruptor
    → Result
connect library thread now fails addr timeout polls s i =
    connect_permitted library thread now fails addr timeout polls s i (permitted library addr s)

-- `bind`
unfoldable pub bind_to : Library → Bool → Endpoint → Socket → Outcome (Unit {0}) × Socket
bind_to library = bind_or_connect library true

-- What `zmq.Socket.recv` gives: a message with its peer's address, if it has one, or a ZMQError.
pub data Incoming : Type 0 where
  message : Option Ip → ℕ → Incoming
  broken : Incoming

abbrev pub warn : Ip → Socket → Socket
warn ip s = if s.sink then record s { warned = ip ∷ s.warned } else s

-- `recv`: what it returns, and what is still to be received
unfoldable pub recv : Library → List Incoming → Socket → Outcome (ℕ × List Incoming) × Socket
recv library [] s = (waiting, s)
recv library (broken ∷ incoming) s = (raised zmq_error, s)
recv library (message none bytes ∷ incoming) s =
    (done (bytes, incoming), if s.tcp then record s { peer_ip = none } else s)
recv library (message (some ip) bytes ∷ incoming) s =
    let shown = unmapped library ip in
    let s' : Socket = record s { peer_ip = some shown } in
    let next = recv library incoming (warn shown s') in
    if s.tcp
    then (if ip_is_loopback library shown || s.secure || s.allow_insecure
        then (done (bytes, incoming), s')
        else next)
    else (done (bytes, incoming), s)
