-- ===== src/Security/Examples.antt =====
-- A socket without keys, with messages from this host and from outside, a call of connect to this host,
-- and the answers of an authenticator.
use zprocess.Base.{
  ℕ, ◌≡◌, refl, Bool, true, false, Option, none, some, List, [], ◌∷◌, ◌==◌, map, if◌then◌else◌,
  bytes,
}
use zprocess.Base.Float.{negsuc, pos}
use zprocess.Process.Interruptor.{new_interruptor}
use zprocess.Security.{Ip, v4, v6, Library, ip_is_loopback, gethostbyname}
use zprocess.Security.Socket.{
  Socket, named, tcp_to, done, message, recv, neither, succeeded, await_success, connect,
  is_internal,
}
use zprocess.Security.Socket.Received.{recv-is_trusted}
use zprocess.Security.Socket.Connecting.{Leaves, connect-Leaves}
use zprocess.Security.Authenticator.{waiting, run}
use zprocess.Security.Authenticator.Verdicts.{Request, frames, AllAnswered, run-AllAnswered}
use zprocess.Security.Authenticator

-- 127.0.0.1 is the address 1, the name 50 is this host's, and the name 60 that of another one.
abbrev looks_up : ℕ → Option (List (Bool × Ip))
looks_up host =
    if host == 50
    then some ((false, v6 1) ∷ (true, v4 1) ∷ [])
    else (if host == 60 then some ((true, v4 9) ∷ []) else none)

abbrev is_one : Ip → Bool
is_one (v4 n) = n == 1
is_one (v6 n) = n == 1

abbrev library : Library
library = record { is_loopback = is_one; ipv4_mapped = λ ip. none; getaddrinfo = looks_up }

abbrev plain : Socket
plain = record {
  secure = false;
  allow_insecure = false;
  tcp = true;
  peer_ip = none;
  sink = true;
  warned = [];
  curve = record { curve_server = false; keys = none; zap_domain = false; serverkey = false };
  socks_proxy = none;
  monitored = false;
  polled = [];
}

recv-is_trusted_example :
    (s' : Socket) × (recv library (message (some (v4 9)) 100 ∷ message (some (v4 1)) 200 ∷ []) plain
      ≡ (done (200, []), s'))
    × (s'.peer_ip ≡ some (v4 1))
    × (s'.warned ≡ v4 9 ∷ [])
unfolding ip_is_loopback
recv-is_trusted_example =
    recv-is_trusted library ((v4 9, 100) ∷ []) (some (v4 1)) 200 [] plain refl refl refl (refl, tt)
      refl

connect-Leaves_example : Leaves 3 true false (
    connect library 3 0 false
      (tcp_to (named 50) 7000)
      (some (some 500))
      ((1, neither) ∷ (2, succeeded) ∷ [])
      plain
      (some new_interruptor))
unfolding is_internal gethostbyname ip_is_loopback
connect-Leaves_example =
    connect-Leaves library 3 0 false (tcp_to (named 50) 7000) (some (some 500))
      ((1, neither) ∷ (2, succeeded) ∷ []) plain new_interruptor true refl refl refl

-- A poll behind the deadline is given a negative timeout.
late_poll :
    (await_success (some 500) ((1, neither) ∷ (501, neither) ∷ []) plain).1.polled
    ≡ some (negsuc 0) ∷ some (pos 499) ∷ []
unfolding await_success
late_poll = refl

abbrev request_with : ℕ → Request
request_with key = record {
  version = bytes "1.0";
  request_id = 1;
  domain = bytes "zprocess";
  address = 0;
  identity = 0;
  mechanism = bytes "CURVE";
  credential = key;
  more = [];
}

run-AllAnswered_example :
    (sent : List (List ℕ)) × (run
        (λ key. key)
        (bytes "zprocess")
        (77 ∷ [])
        (map (λ r. Authenticator.requested (frames r)) (request_with 77 ∷ request_with 78 ∷ []))
        []
      ≡ (waiting, sent))
    × AllAnswered
        (λ key. key)
        (bytes "zprocess")
        (77 ∷ [])
        (request_with 77 ∷ request_with 78 ∷ [])
        []
        sent
run-AllAnswered_example =
    run-AllAnswered (λ key. key) (bytes "zprocess") (77 ∷ [])
      (request_with 77 ∷ request_with 78 ∷ []) []
