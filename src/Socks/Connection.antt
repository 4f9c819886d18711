-- ===== src/Socks/Connection.antt =====
-- class SocksProxyConnection of zprocess/socks/server.py. What the sockets and the operating system
-- report is part of the state, and so are the bytes sent. `unhexlify` of binascii is a parameter.
-- Not modelled: a sendall that fails.
pub mod Serve
pub mod Handshake
pub mod Forwarding
use zprocess.Base.{
  ℕ, suc, ◌+◌, Bool, true, false, not, ◌||◌, Option, none, some, List, [], ◌∷◌, ◌++◌, ltb, ◌==◌,
  if◌then◌else◌, length, contains,
}
use zprocess.Socks.{
  Reason, closed_by_origin, closed_by_destination, origin_timed_out, destination_timed_out,
  interrupted, not_socks_5, auth_unsupported, invalid_address_type, refused, Error, struct_error,
  type_error, key_error, unbound_local, connection_ended, Result, ok, err, M, lift, ◌>>=◌, ◌>>◌,
  unpack_byte,
}
use zprocess.Socks.Codec.{
  Ip, Address, ip_address, domain_name, Parsed, parse_address, pack_address, bind,
  domain_addr_to_hops, address_ipv4, address_ipv6, address_domain,
}
use zprocess.Socks.Recv.{Event, Socket, Callbacks, recv_all}
use zprocess.Socks.Rules.{AllowRule, allows}

-- `socks5`: the protocol's version, the authentication methods, the command and the statuses
abbrev pub socks_version : ℕ
socks_version = 5

abbrev pub no_auth : ℕ
no_auth = 0

abbrev pub auth_not_supported : ℕ
auth_not_supported = 255

abbrev pub tcp_connect : ℕ
tcp_connect = 1

abbrev pub granted : ℕ
granted = 0

abbrev pub denied : ℕ
denied = 2

abbrev pub network_unreachable : ℕ
network_unreachable = 3

abbrev pub host_unreachable : ℕ
host_unreachable = 4

abbrev pub connection_refused : ℕ
connection_refused = 5

abbrev pub ttl_expired : ℕ
ttl_expired = 6

abbrev pub command_not_supported_or_protocol_error : ℕ
command_not_supported_or_protocol_error = 7

abbrev pub address_type_not_supported : ℕ
address_type_not_supported = 8

pub data Errno : Type 0 where
  econnrefused enetunreach ehostunreach other_errno : Errno

-- `ERRNO_TO_STATUS`
abbrev pub errno_to_status : Errno → Result ℕ
errno_to_status econnrefused = ok connection_refused
errno_to_status enetunreach = ok network_unreachable
errno_to_status ehostunreach = ok host_unreachable
errno_to_status other_errno = err key_error

-- What comes of an attempt to connect: an OSError, before or after the socket is there, an interruption,
-- no answer in time, or a connection, and what is then received on it.
pub data Attempt : Type 0 where
  failed : Bool → Errno → Attempt
  stopped unanswered : Attempt
  connected : Socket → Attempt

-- `to_client` and `to_server` are the bytes sent.
pub record Connection : Type 0 where
  pub source_host : Ip
  pub source_port : ℕ
  pub rules : List AllowRule
  pub attempt : Attempt
  pub client : Socket
  pub server : Socket
  pub client_open : Bool
  pub server_open : Bool
  pub to_client : List ℕ
  pub to_server : List ℕ
  pub established : Bool

abbrev pub closed : Connection → Connection
closed s = record s { client_open = false; server_open = false }

-- `end`
unfoldable pub end : {A : Type 0} → Reason → M Connection A
end reason s = (err (connection_ended reason), closed s)

-- A callback of RecvAll calls `end`.
abbrev pub after_recv : Result (List ℕ) → Connection → Result (List ℕ) × Connection
after_recv (ok bytes) s = (ok bytes, s)
after_recv (err (connection_ended reason)) s = (err (connection_ended reason), closed s)
after_recv (err e) s = (err e, s)

abbrev pub origin : Callbacks
origin = record { closed = closed_by_origin; timed_out = origin_timed_out }

abbrev pub destination : Callbacks
destination = record { closed = closed_by_destination; timed_out = destination_timed_out }

-- `client_recvall` and `server_recvall`
unfoldable pub client_recvall : ℕ → M Connection (List ℕ)
client_recvall n s =
    let (result, socket) = recv_all origin n s.client in
    after_recv result (record s { client = socket })

unfoldable pub server_recvall : ℕ → M Connection (List ℕ)
server_recvall n s =
    let (result, socket) = recv_all destination n s.server in
    after_recv result (record s { server = socket })

-- `client.sendall` and `server.sendall`
abbrev pub send_client : List ℕ → M Connection (Unit {0})
send_client bytes s = (ok tt, record s { to_client = s.to_client ++ bytes })

abbrev pub send_server : List ℕ → M Connection (Unit {0})
send_server bytes s = (ok tt, record s { to_server = s.to_server ++ bytes })

-- the attempt of `connect_bare`
unfoldable pub attempted : M Connection ℕ
attempted s = elim s.attempt [
  | failed created errno ↦ (errno_to_status errno, record s { server_open = created })
  | stopped ↦ end interrupted (record s { server_open = true })
  | unanswered ↦ (ok ttl_expired, record s { server_open = true })
  | connected socket ↦ (ok granted, record s { server = socket; server_open = true })
]

-- `connect_bare`
unfoldable pub connect_bare : Ip → ℕ → M Connection ℕ
connect_bare host port s = elim (allows s.source_host s.source_port host port s.rules) [
  | err e ↦ (err e, s)
  | ok allowed ↦ if allowed then attempted s else (ok denied, s)
]

-- `unpack('BB', bytes)` and `unpack('BBx', bytes)`
abbrev pub unpack_two : List ℕ → Result (ℕ × ℕ)
unpack_two (a ∷ b ∷ []) = ok (a, b)
unpack_two _ = err struct_error

abbrev pub unpack_two_pad : List ℕ → Result (ℕ × ℕ)
unpack_two_pad (a ∷ b ∷ pad ∷ []) = ok (a, b)
unpack_two_pad _ = err struct_error

abbrev pub same_bytes : List ℕ → List ℕ → Bool
same_bytes [] [] = true
same_bytes (x ∷ xs) (y ∷ ys) = if x == y then same_bytes xs ys else false
same_bytes _ _ = false

-- the end of `client_init`: the answer to the request
unfoldable pub request_answer : List ℕ → M Connection ℕ
request_answer addr_message = server_recvall 3 >>= λ head. lift (unpack_two_pad head) >>= λ reply.
    server_recvall (length addr_message) >>= λ echo.
    if not (reply.0 == socks_version) || not (same_bytes echo addr_message)
    then end not_socks_5
    else lift (ok reply.1)

unfoldable pub request : Ip → ℕ → M Connection ℕ
request host port = lift (pack_address host port) >>= λ addr_message.
    send_server (socks_version ∷ tcp_connect ∷ 0 ∷ addr_message) >> request_answer addr_message

-- the answer to the greeting of `client_init`
unfoldable pub method_answer : Ip → ℕ → ℕ × ℕ → M Connection ℕ
method_answer host port reply =
    if not (reply.0 == socks_version)
    then end not_socks_5
    else (if not (reply.1 == no_auth) then lift (ok auth_not_supported) else request host port)

-- `client_init`
unfoldable pub client_init : Ip → ℕ → M Connection ℕ
client_init host port =
    send_server (socks_version ∷ 1 ∷ no_auth ∷ []) >> server_recvall 2 >>= λ head.
    lift (unpack_two head) >>= method_answer host port

-- the loop of `connect` over the hops behind the first, numbered from 2
unfoldable pub next_hops : ℕ → List (Ip × ℕ) → M Connection (ℕ × Option ℕ)
next_hops number [] = lift (ok (granted, none))
next_hops number ((host, port) ∷ hops) = client_init host port >>= λ status.
    if status == granted then next_hops (suc number) hops else lift (ok (status, some number))

unfoldable pub connect_hops : List (Ip × ℕ) → M Connection (ℕ × Option ℕ)
connect_hops ((host, port) ∷ hop ∷ hops) = connect_bare host port >>= λ status.
    if status == granted then next_hops 2 (hop ∷ hops) else lift (ok (status, some 1))
connect_hops _ = lift (ok (address_type_not_supported, none))
