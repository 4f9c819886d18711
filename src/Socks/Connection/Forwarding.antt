-- ===== src/Socks/Connection/Forwarding.antt =====
-- What a connection of the proxy passes on (do_forwarding and run of zprocess/socks/server.py).
use zprocess.Base.{
  ℕ, ◌≡◌, refl, sym, ap, ◌∙◌, Bool, true, false, List, [], ◌∷◌, ◌++◌, append_assoc, if◌then◌else◌,
}
use zprocess.Socks.{
  closed_by_origin, closed_by_destination, interrupted, Error, os_error, connection_ended, err,
}
use zprocess.Socks.Connection.{Connection, end}
use zprocess.Socks.Connection.Serve.{
  Readable, from_client, from_server, from_pipe, recv_fails, server_fails, client_fails,
  do_forwarding,
}

-- the bytes from one side that are passed on before the forwarding ends
abbrev pub client_bytes : List Readable → List ℕ
client_bytes (from_client (b ∷ bs) ∷ readable) = (b ∷ bs) ++ client_bytes readable
client_bytes (from_server (b ∷ bs) ∷ readable) = client_bytes readable
client_bytes (server_fails bs ∷ readable) = bs
client_bytes readable = []

abbrev pub server_bytes : List Readable → List ℕ
server_bytes (from_client (b ∷ bs) ∷ readable) = server_bytes readable
server_bytes (from_server (b ∷ bs) ∷ readable) = (b ∷ bs) ++ server_bytes readable
server_bytes (client_fails bs ∷ readable) = bs
server_bytes readable = []

-- How the forwarding ends: a socket closes, the proxy is stopped, or a socket fails; or it waits for
-- more.
abbrev pub ending : List Readable → Error
ending [] = Error.waiting
ending (from_pipe ∷ readable) = connection_ended interrupted
ending (recv_fails ∷ readable) = os_error
ending (server_fails bs ∷ readable) = os_error
ending (client_fails bs ∷ readable) = os_error
ending (from_client [] ∷ readable) = connection_ended closed_by_origin
ending (from_server [] ∷ readable) = connection_ended closed_by_destination
ending (from_client (b ∷ bs) ∷ readable) = ending readable
ending (from_server (b ∷ bs) ∷ readable) = ending readable

-- whether the sockets are closed at such an end
abbrev pub is_over : Error → Bool
is_over (connection_ended reason) = true
is_over error = false

append_empty : (xs : List ℕ) → xs ++ [] ≡ xs
append_empty [] = refl
append_empty (x ∷ xs) = ap (λ t. x ∷ t) (append_empty xs)

-- The forwarding passes on exactly what it receives: to the server the client's bytes in their order, to
-- the client the server's, until one side closes, the proxy is stopped, or a socket fails. When a side
-- closes or the proxy is stopped it closes both sockets; when a recv or a sendall raises an OSError it
-- raises that, with both sockets as they were. What the buffers of RecvAll still hold is not passed on.
pub do_forwarding-bytes :
    (readable : List Readable) (s : Connection)
    → (let (result, s') = do_forwarding readable s in
        (result ≡ err (ending readable))
        × (s'.to_server ≡ s.to_server ++ client_bytes readable)
        × (s'.to_client ≡ s.to_client ++ server_bytes readable)
        × (s'.client ≡ s.client)
        × (s'.server ≡ s.server)
        × (s'.server_open ≡ (if is_over (ending readable) then false else s.server_open))
        × (s'.client_open ≡ (if is_over (ending readable) then false else s.client_open)))
unfolding do_forwarding end
do_forwarding-bytes [] s =
    (refl, sym (append_empty s.to_server), sym (append_empty s.to_client), refl, refl, refl, refl)
do_forwarding-bytes (from_pipe ∷ readable) s =
    (refl, sym (append_empty s.to_server), sym (append_empty s.to_client), refl, refl, refl, refl)
do_forwarding-bytes (recv_fails ∷ readable) s =
    (refl, sym (append_empty s.to_server), sym (append_empty s.to_client), refl, refl, refl, refl)
do_forwarding-bytes (from_client [] ∷ readable) s =
    (refl, sym (append_empty s.to_server), sym (append_empty s.to_client), refl, refl, refl, refl)
do_forwarding-bytes (from_server [] ∷ readable) s =
    (refl, sym (append_empty s.to_server), sym (append_empty s.to_client), refl, refl, refl, refl)
do_forwarding-bytes (server_fails bs ∷ readable) s =
    (refl, refl, sym (append_empty s.to_client), refl, refl, refl, refl)
do_forwarding-bytes (client_fails bs ∷ readable) s =
    (refl, sym (append_empty s.to_server), refl, refl, refl, refl, refl)
do_forwarding-bytes (from_client (b ∷ bs) ∷ readable) s =
    let (r, a, c, d, e, f, g) =
      do_forwarding-bytes readable (record s { to_server = s.to_server ++ (b ∷ bs) }) in
    (r, a ∙ append_assoc s.to_server (b ∷ bs) (client_bytes readable), c, d, e, f, g)
do_forwarding-bytes (from_server (b ∷ bs) ∷ readable) s =
    let (r, a, c, d, e, f, g) =
      do_forwarding-bytes readable (record s { to_client = s.to_client ++ (b ∷ bs) }) in
    (r, a, c ∙ append_assoc s.to_client (b ∷ bs) (server_bytes readable), d, e, f, g)
