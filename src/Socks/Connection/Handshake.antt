-- ===== src/Socks/Connection/Handshake.antt =====
-- The two ends of a request (client_init and server_init of zprocess/socks/server.py): what a proxy asks
-- of the next one, and what that one answers.
use zprocess.Base.{
  ℕ, ◌<◌, ◌≡◌, refl, ap, ◌∙◌, Bool, true, false, Option, none, some, List, [], ◌∷◌, ◌++◌,
  if◌then◌else◌, length, contains, append_assoc, arith,
}
use zprocess.Socks.{refused, connection_ended, Result, ok, err, M, lift, ◌>>=◌}
use zprocess.Socks.Codec.{Ip, ipv4, ipv6, version_byte, packed}
use zprocess.Socks.Codec.Read.{
  IsIp, IsReading, port_bytes, parsed_as, parse_address-read, pack_address-bytes,
}
use zprocess.Socks.Recv.{Socket}
use zprocess.Socks.Recv.Exact.{left, recv_all-Gives}
use zprocess.Socks.Rules.{allows}
use zprocess.Socks.Connection.{
  Connection, granted, denied, connected, origin, destination, after_recv, client_recvall,
  server_recvall, connect_bare, attempted, closed, end, same_bytes, request_answer, request,
  method_answer, client_init,
}
use zprocess.Socks.Connection.Serve.{
  connect, conn_str, respond, serve_request, serve_command, serve_methods, server_init,
}

-- the bytes of a request to connect, and of the answer with a status
abbrev pub address_bytes : Ip → ℕ → List ℕ
address_bytes host port = version_byte host ∷ (packed host ++ port_bytes port)

abbrev pub asked : Ip → ℕ → List ℕ
asked host port = 5 ∷ 1 ∷ 0 ∷ 5 ∷ 1 ∷ 0 ∷ address_bytes host port

abbrev pub answered : ℕ → Ip → ℕ → List ℕ
answered status host port = 5 ∷ 0 ∷ 5 ∷ status ∷ 0 ∷ address_bytes host port

abbrev no_socket : Socket
no_socket = record { buffer = []; events = [] }

-- A connection without what its RecvAll changes.
abbrev pub client_frame : Connection → Connection
client_frame s = record s { client = no_socket }

abbrev pub server_frame : Connection → Connection
server_frame s = record s { server = no_socket }

client_recvall-IsReading : IsReading (λ s. left s.client) client_frame client_recvall
unfolding client_recvall
client_recvall-IsReading n xs ys s h e =
    let (socket, r, l) = recv_all-Gives origin n xs ys s.client h e in
    (record s { client = socket }, ap (λ r. after_recv r.0 (record s { client = r.1 })) r, l, refl)

server_recvall-IsReading : IsReading (λ s. left s.server) server_frame server_recvall
unfolding server_recvall
server_recvall-IsReading n xs ys s h e =
    let (socket, r, l) = recv_all-Gives destination n xs ys s.server h e in
    (record s { server = socket }, ap (λ r. after_recv r.0 (record s { server = r.1 })) r, l, refl)

same_bytes_refl : (xs : List ℕ) → same_bytes xs xs ≡ true
same_bytes_refl [] = refl
same_bytes_refl (x ∷ xs) = ground (arith, same_bytes_refl xs)

request_answer-read :
    (status : ℕ) (message ys : List ℕ) (s : Connection)
    → left s.server ≡ 5 ∷ status ∷ 0 ∷ (message ++ ys)
    → (s' : Connection) × (request_answer message s ≡ (ok status, s'))
      × (left s'.server ≡ ys)
      × (server_frame s' ≡ server_frame s)
unfolding request_answer
request_answer-read status message ys s e =
    let (s₁, e₁, l₁, f₁) =
      server_recvall-IsReading 3 (5 ∷ status ∷ 0 ∷ []) (message ++ ys) s refl e in
    let (s₂, e₂, l₂, f₂) = server_recvall-IsReading (length message) message ys s₁ refl l₁ in
    (s₂, ground (arith, e₁, e₂, same_bytes_refl message), l₂, f₂ ∙ f₁)

-- Towards a proxy that takes its request, `client_init` asks for the host and port and returns the
-- status that the proxy answers.
client_init-read :
    (host : Ip) (port status : ℕ) (ys : List ℕ) (s : Connection)
    → port < 65536
    → left s.server ≡ answered status host port ++ ys
    → (s' : Connection) × (client_init host port s ≡ (ok status, s'))
      × (s'.to_server ≡ s.to_server ++ asked host port)
      × (left s'.server ≡ ys)
unfolding client_init method_answer request
client_init-read host port status ys s p e =
    let t : Connection = record s { to_server = s.to_server ++ (5 ∷ 1 ∷ 0 ∷ []) } in
    let (s₁, e₁, l₁, f₁) =
      server_recvall-IsReading 2 (5 ∷ 0 ∷ []) (5 ∷ status ∷ 0 ∷ (address_bytes host port ++ ys)) t
        refl e in
    let u : Connection = record s₁ {
      to_server = s₁.to_server ++ (5 ∷ 1 ∷ 0 ∷ address_bytes host port);
    } in
    let (s₂, e₂, l₂, f₂) = request_answer-read status (address_bytes host port) ys u l₁ in
    (
      s₂,
      ground (arith, e₁, pack_address-bytes host port p, e₂),
      ap (λ c. c.to_server) f₂
          ∙ ap (λ c. c.to_server ++ (5 ∷ 1 ∷ 0 ∷ address_bytes host port)) f₁
          ∙ append_assoc s.to_server (5 ∷ 1 ∷ 0 ∷ []) (5 ∷ 1 ∷ 0 ∷ address_bytes host port),
      l₂,
    )

pure_then :
    {S A B C : Type 0} (m : M S A) (f : A → B) (g : B → M S C) (s : S)
    → ((m >>= λ a. lift (ok (f a))) >>= g) s ≡ (m >>= λ a. g (f a)) s
pure_then m f g s = by_result f g (m s)
  where
    by_result :
        {S A B C : Type 0} (f : A → B) (g : B → M S C) (r : Result A × S)
        → (((λ u. r) >>= λ a. lift (ok (f a))) >>= g) r.1 ≡ ((λ u. r) >>= λ a. g (f a)) r.1
    by_result f g (ok a, s) = refl
    by_result f g (err e, s) = refl

module _ (unhexlify : List ℕ → Option (List ℕ)) where
  -- what follows in `server_init` once the request is parsed
  abbrev served : Ip → ℕ → M Connection (Unit {0})
  served host port = connect_bare host port >>= λ status.
      respond unhexlify (address_bytes host port) status (some none)

  serve_request_ip :
      (host : Ip) (port : ℕ) (s : Connection)
      → serve_request unhexlify (5, 1) (parsed_as host port) s ≡ served host port s
  unfolding serve_request conn_str connect contains
  serve_request_ip (ipv4 bytes) port s =
      pure_then (connect_bare (ipv4 bytes) port) (λ status. (status, none))
        (λ result. respond unhexlify (address_bytes (ipv4 bytes) port) result.0 (some result.1)) s
  serve_request_ip (ipv6 bytes) port s =
      pure_then (connect_bare (ipv6 bytes) port) (λ status. (status, none))
        (λ result. respond unhexlify (address_bytes (ipv6 bytes) port) result.0 (some result.1)) s

  server_init-read :
      (host : Ip) (port : ℕ) (ys : List ℕ) (s : Connection)
      → IsIp host
      → port < 65536
      → left s.client ≡ asked host port ++ ys
      → (s' : Connection) × (server_init unhexlify s ≡ served host port s')
        × (left s'.client ≡ ys)
        × (client_frame s' ≡ client_frame (record s { to_client = s.to_client ++ (5 ∷ 0 ∷ []) }))
  unfolding server_init serve_methods serve_command contains
  server_init-read host port ys s i p e =
      let rest : List ℕ = version_byte host ∷ (packed host ++ (port_bytes port ++ ys)) in
      let (s₁, e₁, l₁, f₁) = client_recvall-IsReading 2 (5 ∷ 1 ∷ []) (0 ∷ 5 ∷ 1 ∷ 0 ∷ rest) s refl (
        e
        ∙ ap (λ t. 5 ∷ 1 ∷ 0 ∷ 5 ∷ 1 ∷ 0 ∷ version_byte host ∷ t)
            (append_assoc (packed host) (port_bytes port) ys)) in
      let (s₂, e₂, l₂, f₂) = client_recvall-IsReading 1 (0 ∷ []) (5 ∷ 1 ∷ 0 ∷ rest) s₁ refl l₁ in
      let t : Connection = record s₂ { to_client = s₂.to_client ++ (5 ∷ 0 ∷ []) } in
      let (s₃, e₃, l₃, f₃) = client_recvall-IsReading 3 (5 ∷ 1 ∷ 0 ∷ []) rest t refl l₂ in
      let (s₄, e₄, l₄, f₄) =
        parse_address-read (λ s. left s.client) client_frame client_recvall client_recvall-IsReading
          host port ys s₃ i p l₃ in
      (
        s₄,
        ground (arith, e₁, e₂, e₃, e₄, serve_request_ip host port s₄),
        l₄,
        f₄
            ∙ f₃
            ∙ ap {A = Connection} {B = Connection}
                (λ c. record c { to_client = c.to_client ++ (5 ∷ 0 ∷ []) }) (f₂ ∙ f₁),
      )

  -- the status of a request that the rules allow or not, where the attempt to connect succeeds
  abbrev pub status_of : Bool → ℕ
  status_of allowed = if allowed then granted else denied

  abbrev pub outcome_of : Bool → Result (Unit {0})
  outcome_of allowed = if allowed then ok tt else err (connection_ended (refused denied none))

  served-answer :
      (host : Ip) (port : ℕ) (socket : Socket) (s : Connection) (allowed : Bool)
      → allows s.source_host s.source_port host port s.rules ≡ ok allowed
      → s.attempt ≡ connected socket
      → (s' : Connection) × (served host port s ≡ (outcome_of allowed, s'))
        × (s'.to_client ≡ s.to_client ++ (5 ∷ status_of allowed ∷ 0 ∷ address_bytes host port))
        × (s'.client ≡ s.client)
  unfolding connect_bare attempted respond end contains
  served-answer host port socket s true h a = (
    record s {
      server = socket;
      server_open = true;
      to_client = s.to_client ++ (5 ∷ 0 ∷ 0 ∷ address_bytes host port);
    },
    ground (arith, h, a),
    refl,
    refl,
  )
  served-answer host port socket s false h a = (
    closed (record s { to_client = s.to_client ++ (5 ∷ 2 ∷ 0 ∷ address_bytes host port) }),
    ground (arith, h, a),
    refl,
    refl,
  )

  served-read :
      (host : Ip) (port : ℕ) (socket : Socket) (allowed : Bool) (ys : List ℕ) (s : Connection)
      → IsIp host
      → port < 65536
      → left s.client ≡ asked host port ++ ys
      → allows s.source_host s.source_port host port s.rules ≡ ok allowed
      → s.attempt ≡ connected socket
      → (s' : Connection) × (server_init unhexlify s ≡ (outcome_of allowed, s'))
        × (s'.to_client ≡ s.to_client ++ answered (status_of allowed) host port)
        × (left s'.client ≡ ys)
  served-read host port socket allowed ys s i p e h a =
      let (s₁, e₁, l₁, f₁) = server_init-read host port ys s i p e in
      let (s₂, e₂, t₂, c₂) =
        served-answer host port socket s₁ allowed
          (ap (λ c. allows c.source_host c.source_port host port c.rules) f₁ ∙ h)
          (ap (λ c. c.attempt) f₁ ∙ a) in
      (
        s₂,
        e₁ ∙ e₂,
        t₂
            ∙ ap (λ c. c.to_client ++ (5 ∷ status_of allowed ∷ 0 ∷ address_bytes host port)) f₁
            ∙ append_assoc s.to_client (5 ∷ 0 ∷ [])
                (5 ∷ status_of allowed ∷ 0 ∷ address_bytes host port),
        ap left c₂ ∙ l₁,
      )

-- Two proxies agree on a request: the one that asks (`near`) sends what the other (`far`) can take, and
-- the other sends what the first can take. For an address with a port below 65536 where the attempt to
-- connect succeeds, both come to the same: the status is GRANTED and the far end is set up if its rules
-- allow the route, and otherwise the status is DENIED and the far end has ended for that reason. Neither
-- takes more bytes than the exchange has, however they are cut into pieces.
pub client_init-server_init :
    (unhexlify : List ℕ → Option (List ℕ)) (host : Ip) (port : ℕ) (socket : Socket) (allowed : Bool)
    (near far : Connection) (more rest : List ℕ)
    → IsIp host
    → port < 65536
    → allows far.source_host far.source_port host port far.rules ≡ ok allowed
    → far.attempt ≡ connected socket
    → left far.client ≡ asked host port ++ more
    → left near.server ≡ answered (if allowed then granted else denied) host port ++ rest
    → (near' far' : Connection) × (client_init host port near
        ≡ (ok (if allowed then granted else denied), near'))
      × (server_init unhexlify far
          ≡ (if allowed then ok tt else err (connection_ended (refused denied none)), far'))
      × (near'.to_server ≡ near.to_server ++ asked host port)
      × (far'.to_client ≡ far.to_client ++ answered (if allowed then granted else denied) host port)
      × (left far'.client ≡ more)
      × (left near'.server ≡ rest)
client_init-server_init unhexlify host port socket allowed near far more rest i p h a e f =
    let (near', n, sent, unread) =
      client_init-read host port (if allowed then granted else denied) rest near p f in
    let (far', m, told, untaken) =
      served-read unhexlify host port socket allowed more far i p e h a in
    (near', far', n, m, sent, told, untaken, unread)
