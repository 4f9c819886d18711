-- ===== src/Socks/Connection/Serve.antt =====
-- The proxy's side of class SocksProxyConnection of zprocess/socks/server.py: server_init, the
-- forwarding, and run.
use zprocess.Base.{
  ℕ, true, not, ◌||◌, Option, none, some, List, [], ◌∷◌, ◌==◌, if◌then◌else◌, contains,
}
use zprocess.Socks.{
  closed_by_origin, closed_by_destination, interrupted, not_socks_5, auth_unsupported,
  invalid_address_type, refused, Error, type_error, key_error, unbound_local, os_error,
  connection_ended, Result, ok, err, M, lift, ◌>>=◌, ◌>>◌,
}
use zprocess.Socks.Codec.{
  ip_address, domain_name, Parsed, parse_address, bind, domain_addr_to_hops, address_ipv4,
  address_ipv6, address_domain,
}
use zprocess.Socks.Connection.{
  Connection, socks_version, no_auth, auth_not_supported, tcp_connect, granted, denied,
  network_unreachable, host_unreachable, connection_refused, ttl_expired,
  command_not_supported_or_protocol_error, end, client_recvall, send_client, send_server,
  connect_bare, connect_hops, unpack_two, unpack_two_pad,
}

-- the statuses that `STATUS_TO_STR` has
abbrev pub status_to_str : List ℕ
status_to_str =
    connection_refused ∷ network_unreachable ∷ host_unreachable ∷ denied ∷ ttl_expired ∷ []

module _ (unhexlify : List ℕ → Option (List ℕ)) where
  -- `connect`. A request of another address type does not get here.
  unfoldable pub connect : Parsed → M Connection (ℕ × Option ℕ)
  connect parsed = elim parsed.address [
    | none ↦ lift (ok (command_not_supported_or_protocol_error, none))
    | some (ip_address host, port) ↦ connect_bare host port >>= λ status. lift (ok (status, none))
    | some (domain_name name, port) ↦
        lift (domain_addr_to_hops unhexlify name port) >>= connect_hops
  ]

  -- whether `conn_str` can be written
  unfoldable pub conn_str : Parsed → Result (Unit {0})
  conn_str parsed = elim parsed.address [
    | none ↦ err type_error
    | some (ip_address host, port) ↦ ok tt
    | some (domain_name name, port) ↦ bind (domain_addr_to_hops unhexlify name port) λ hops. ok tt
  ]

  -- The end of `server_init`, with the status, and with the hop that has failed, if `connect` was called.
  unfoldable pub respond : List ℕ → ℕ → Option (Option ℕ) → M Connection (Unit {0})
  respond address_message status failed_hop =
      send_client (socks_version ∷ status ∷ 0 ∷ address_message)
      >> (if status == granted
          then lift (ok tt)
          else (if contains status status_to_str
              then elim failed_hop [
                | none ↦ lift (err unbound_local)
                | some hop ↦ end (refused status hop)
              ]
              else lift (err key_error)))

  -- `server_init` from the parsed request on
  unfoldable pub serve_request : ℕ × ℕ → Parsed → M Connection (Unit {0})
  serve_request head parsed =
      lift (conn_str parsed)
      >> (if contains parsed.address_type (address_ipv4 ∷ address_ipv6 ∷ address_domain ∷ [])
          then (if not (head.0 == socks_version) || not (head.1 == tcp_connect)
              then respond parsed.message command_not_supported_or_protocol_error none
              else connect parsed >>= λ result. respond parsed.message result.0 (some result.1))
          else end invalid_address_type)

  -- `server_init` behind the answer to the authentication methods
  unfoldable pub serve_command : M Connection (Unit {0})
  serve_command = client_recvall 3 >>= λ bytes.
      lift (unpack_two_pad bytes) >>= λ head. parse_address client_recvall >>= serve_request head

  -- `server_init` from the version and the authentication methods on
  unfoldable pub serve_methods : ℕ → List ℕ → M Connection (Unit {0})
  serve_methods version auth_methods =
      if not (version == socks_version)
      then end not_socks_5
      else (if contains no_auth auth_methods
          then (send_client (socks_version ∷ no_auth ∷ []) >> serve_command)
          else (send_client (socks_version ∷ auth_not_supported ∷ []) >> end auth_unsupported))

  -- `server_init`. A call of RecvAll that returns has all the bytes that it was asked for.
  unfoldable pub server_init : M Connection (Unit {0})
  server_init = client_recvall 2 >>= λ bytes.
      lift (unpack_two bytes) >>= λ start. client_recvall start.1 >>= serve_methods start.0

-- What select reports to the forwarding, one readable socket after another, with what recv then gives;
-- no bytes mean that it is closed. `recv_fails` is a recv that raises an OSError, as of a connection that
-- was reset. `server_fails` and `client_fails` are bytes for that side whose sendall raises one, with
-- those of them that it still passes on.
pub data Readable : Type 0 where
  from_client from_server : List ℕ → Readable
  from_pipe recv_fails : Readable
  server_fails client_fails : List ℕ → Readable

-- `do_forwarding`
unfoldable pub do_forwarding : List Readable → M Connection (Unit {0})
do_forwarding [] = lift (err Error.waiting)
do_forwarding (from_pipe ∷ readable) = end interrupted
do_forwarding (recv_fails ∷ readable) = lift (err os_error)
do_forwarding (server_fails bs ∷ readable) = send_server bs >> lift (err os_error)
do_forwarding (client_fails bs ∷ readable) = send_client bs >> lift (err os_error)
do_forwarding (from_client [] ∷ readable) = end closed_by_origin
do_forwarding (from_server [] ∷ readable) = end closed_by_destination
do_forwarding (from_client (b ∷ bs) ∷ readable) = send_server (b ∷ bs) >> do_forwarding readable
do_forwarding (from_server (b ∷ bs) ∷ readable) = send_client (b ∷ bs) >> do_forwarding readable

-- `except ConnectionEnded`
abbrev pub caught : Result (Unit {0}) × Connection → Result (Unit {0}) × Connection
caught (err (connection_ended reason), s) = (ok tt, s)
caught (result, s) = (result, s)

-- `run`
unfoldable pub run : (List ℕ → Option (List ℕ)) → List Readable → M Connection (Unit {0})
run unhexlify readable s =
    caught
      ((server_init unhexlify >> λ s. do_forwarding readable (record s { established = true })) s)
