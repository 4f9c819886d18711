-- ===== src/Security/Socket/Received.antt =====
-- The messages that a socket lets through (SecureSocket.recv of zprocess/security.py).
use zprocess.Base.{
  ℕ, ◌≡◌, refl, Bool, true, false, Option, none, some, List, [], ◌∷◌, if◌then◌else◌, arith,
}
use zprocess.Security.{Ip, Library, unmapped, ip_is_loopback}
use zprocess.Security.Socket.{Socket, done, Incoming, message, recv, warn}

-- Messages from these addresses, each outside of the loopback interface.
abbrev pub AllExternal : Library → List (Ip × ℕ) → Type 0
AllExternal library [] = Unit
AllExternal library ((ip, bytes) ∷ messages) =
    (ip_is_loopback library (unmapped library ip) ≡ false) × AllExternal library messages

abbrev pub sent_by : List (Ip × ℕ) → List Incoming → List Incoming
sent_by [] incoming = incoming
sent_by ((ip, bytes) ∷ messages) incoming = message (some ip) bytes ∷ sent_by messages incoming

-- the warnings, the newest first
abbrev pub warnings : Library → List (Ip × ℕ) → List Ip → List Ip
warnings library [] warned = warned
warnings library ((ip, bytes) ∷ messages) warned =
    warnings library messages (unmapped library ip ∷ warned)

abbrev pub is_trusted : Library → Option Ip → Bool
is_trusted library none = true
is_trusted library (some ip) = ip_is_loopback library (unmapped library ip)

abbrev pub shown : Library → Option Ip → Option Ip
shown library none = none
shown library (some ip) = some (unmapped library ip)

-- On a TCP socket without keys that is not to allow insecure messages, recv passes over any number of
-- messages from outside and returns the first other one, and what follows that is left to be received.
-- The sender's address is noted, and each message passed over has been warned of, if there is anything
-- to warn on.
pub recv-is_trusted :
    (library : Library) (external : List (Ip × ℕ)) (peer : Option Ip) (bytes : ℕ)
    (rest : List Incoming) (s : Socket)
    → s.tcp ≡ true
    → s.secure ≡ false
    → s.allow_insecure ≡ false
    → AllExternal library external
    → is_trusted library peer ≡ true
    → (s' : Socket) × (recv library (sent_by external (message peer bytes ∷ rest)) s
        ≡ (done (bytes, rest), s'))
      × (s'.peer_ip ≡ shown library peer)
      × (s'.warned ≡ (if s.sink then warnings library external s.warned else s.warned))
unfolding recv
recv-is_trusted library [] none bytes rest s t c a e h =
    (record s { peer_ip = none }, ground arith, refl, ground arith)
recv-is_trusted library [] (some ip) bytes rest s t c a e h =
    (record s { peer_ip = some (unmapped library ip) }, ground arith, refl, ground arith)
recv-is_trusted library ((ip, b) ∷ external) peer bytes rest s t c a e h =
    let next : Socket =
      warn (unmapped library ip) (record s { peer_ip = some (unmapped library ip) }) in
    let (s', r, p, w) =
      recv-is_trusted library external peer bytes rest next (ground arith) (ground arith)
        (ground arith) e.1 h in
    (s', ground (arith, e.0, r), p, ground (arith, w))
