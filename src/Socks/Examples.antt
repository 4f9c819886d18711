-- ===== src/Socks/Examples.antt =====
-- A proxy that another proxy asks for a connection to 127.0.0.1:9000, rules, and packed hops.
use zprocess.Base.{take, drop}
use zprocess.Socks.{key_error, connection_ended, closed_by_origin}
use zprocess.Socks.Codec.{parse_address, parse_typed, parse_ip, parse_port}
use zprocess.Socks.Recv.{recv_loop}
use zprocess.Socks.Connection.{client_recvall}
use zprocess.Socks.Connection.Serve.{
  serve_methods, serve_command, serve_request, respond, conn_str, connect,
}
use zprocess.Base.{◌+◌, ◌-◌, ◌<◌, ◌==◌, if◌then◌else◌, ap, Option, none, contains}
use zprocess.Socks.Text.{Texts, bar, opening, str_to_hops, hops_to_str}
use zprocess.Socks.Text.Routes.{AreTexts, str_to_hops-hops_to_str}
use zprocess.Socks.{struct_error}
use zprocess.Socks.Codec.Packed.{hops_to_domain_addr-ports_fit}
use zprocess.Base.{ℕ, ◌≡◌, refl, true, false, some, List, [], ◌∷◌, ◌++◌, map, arith}
use zprocess.Socks.{ok, err}
use zprocess.Socks.Codec.{Ip, ipv4, ipv6, digits, hops_to_domain_addr, domain_addr_to_hops}
use zprocess.Socks.Codec.Packed.{domain_addr_to_hops-hops_to_domain_addr}
use zprocess.Socks.Recv.{received, Socket, recv_all}
use zprocess.Socks.Recv.Exact.{left, Gives, recv_all-Gives}
use zprocess.Socks.Rules.{any_host, any_port, from_to, allows}
use zprocess.Socks.Rules.Documented.{Rule, made, some_documented, allows-documented}
use zprocess.Socks.Connection.{Connection, origin, connected, client_init}
use zprocess.Socks.Connection.Serve.{from_client, from_server, do_forwarding, server_init}
use zprocess.Socks.Connection.Handshake.{asked, answered, client_init-server_init}
use zprocess.Socks.Connection.Forwarding.{do_forwarding-bytes}

abbrev localhost : Ip
localhost = ipv4 (127 ∷ 0 ∷ 0 ∷ 1 ∷ [])

abbrev localhost_6 : Ip
localhost_6 = ipv6 (0 ∷ 0 ∷ 0 ∷ 0 ∷ 0 ∷ 0 ∷ 0 ∷ 0 ∷ 0 ∷ 0 ∷ 0 ∷ 0 ∷ 0 ∷ 0 ∷ 0 ∷ 1 ∷ [])

domain_addr_to_hops-hops_to_domain_addr_example :
    (name : List ℕ) × (port : ℕ) × (hops_to_domain_addr
        (λ bytes. bytes)
        ((localhost, 9001) ∷ (localhost_6, 9002) ∷ [])
      ≡ ok (digits name, port))
    × (domain_addr_to_hops some name port ≡ ok ((localhost, 9001) ∷ (localhost_6, 9002) ∷ []))
domain_addr_to_hops-hops_to_domain_addr_example =
    domain_addr_to_hops-hops_to_domain_addr (λ bytes. bytes) some (localhost, 9001)
      (localhost_6, 9002) [] (λ bytes h. refl) (omega arith)
      ((refl, ground arith), omega arith, ((refl, ground arith), omega arith, tt))

abbrev in_pieces : Socket
in_pieces = record {
  buffer = [];
  events =
      received (5 ∷ []) false
      ∷ received (1 ∷ 0 ∷ 5 ∷ 1 ∷ 0 ∷ 1 ∷ 127 ∷ []) false
      ∷ received (0 ∷ 0 ∷ 1 ∷ 35 ∷ 40 ∷ 77 ∷ []) false
      ∷ [];
}

recv_all-Gives_example :
    Gives
      (recv_all origin 2 in_pieces)
      (5 ∷ 1 ∷ [])
      (0 ∷ 5 ∷ 1 ∷ 0 ∷ 1 ∷ 127 ∷ 0 ∷ 0 ∷ 1 ∷ 35 ∷ 40 ∷ 77 ∷ [])
recv_all-Gives_example = recv_all-Gives origin 2 (5 ∷ 1 ∷ []) _ in_pieces refl refl

abbrev ephemeral : Rule
ephemeral = record {
  source_host = any_host;
  source_port = from_to 1000 65535;
  dest_host = any_host;
  dest_port = any_port;
}

allows-documented_example :
    allows localhost 40000 localhost 9000 (map made (ephemeral ∷ []))
    ≡ ok (some_documented localhost 40000 localhost 9000 (ephemeral ∷ []))
allows-documented_example =
    allows-documented localhost 40000 localhost 9000 (ephemeral ∷ []) (refl, tt)

abbrev nothing_yet : Socket
nothing_yet = record { buffer = []; events = [] }

abbrev far : Connection
far = record {
  source_host = localhost;
  source_port = 40000;
  rules = map made (ephemeral ∷ []);
  attempt = connected nothing_yet;
  client = in_pieces;
  server = nothing_yet;
  client_open = true;
  server_open = false;
  to_client = [];
  to_server = [];
  established = false;
}

-- The answer of the far proxy and the first byte of the destination arrive together.
abbrev near : Connection
near = record {
  source_host = localhost;
  source_port = 50000;
  rules = [];
  attempt = connected nothing_yet;
  client = nothing_yet;
  server = record {
    buffer = [];
    events =
        received (5 ∷ 0 ∷ []) false
        ∷ received (5 ∷ 0 ∷ 0 ∷ 1 ∷ 127 ∷ 0 ∷ 0 ∷ 1 ∷ 35 ∷ 40 ∷ 99 ∷ []) false
        ∷ [];
  };
  client_open = true;
  server_open = true;
  to_client = [];
  to_server = [];
  established = false;
}

client_init-server_init_example :
    (near' far' : Connection) × (client_init localhost 9000 near ≡ (ok 0, near'))
    × (server_init some far ≡ (ok tt, far'))
    × (near'.to_server ≡ [] ++ asked localhost 9000)
    × (far'.to_client ≡ [] ++ answered 0 localhost 9000)
    × (left far'.client ≡ 77 ∷ [])
    × (left near'.server ≡ 99 ∷ [])
client_init-server_init_example =
    client_init-server_init some localhost 9000 nothing_yet true near far (77 ∷ []) (99 ∷ [])
      (refl, ground arith) (omega arith)
      (allows-documented localhost 40000 localhost 9000 (ephemeral ∷ []) (refl, tt)) refl refl refl

do_forwarding-bytes_example :
    (let (result, s') =
        do_forwarding
          (from_client (1 ∷ 2 ∷ []) ∷ from_server (3 ∷ []) ∷ from_client [] ∷ [])
          near in
      (result ≡ err (connection_ended closed_by_origin))
      × (s'.to_server ≡ 1 ∷ 2 ∷ [])
      × (s'.to_client ≡ 3 ∷ [])
      × (s'.client ≡ near.client)
      × (s'.server ≡ near.server)
      × (s'.server_open ≡ false)
      × (s'.client_open ≡ false))
do_forwarding-bytes_example =
    do_forwarding-bytes (from_client (1 ∷ 2 ∷ []) ∷ from_server (3 ∷ []) ∷ from_client [] ∷ []) near

hops_to_domain_addr-ports_fit_example :
    hops_to_domain_addr (λ bytes. bytes) ((localhost, 70000) ∷ (localhost, 9002) ∷ [])
    ≡ err struct_error
hops_to_domain_addr-ports_fit_example =
    hops_to_domain_addr-ports_fit (λ bytes. bytes) (localhost, 70000) (localhost, 9002) []

-- Texts of which each character stands for a byte or a number, shifted past the characters of routes.
abbrev shifted : List ℕ → List ℕ
shifted [] = []
shifted (b ∷ bs) = (b + 200) ∷ shifted bs

abbrev shifted_back : List ℕ → List ℕ
shifted_back [] = []
shifted_back (b ∷ bs) = (b - 200) ∷ shifted_back bs

abbrev write_ip : Ip → List ℕ
write_ip (ipv4 bytes) = 4 ∷ shifted bytes
write_ip (ipv6 bytes) = 6 ∷ shifted bytes

abbrev read_ip : List ℕ → Option Ip
read_ip [] = none
read_ip (version ∷ text) =
    if version == 4 then some (ipv4 (shifted_back text)) else some (ipv6 (shifted_back text))

abbrev read_number : List ℕ → Option ℕ
read_number (x ∷ []) = some (x - 200)
read_number _ = none

abbrev shifting : Texts
shifting = record {
  compressed = write_ip;
  ip_address = read_ip;
  str = λ n. (n + 200) ∷ [];
  int = read_number;
}

shifted_back_and_forth : (bs : List ℕ) → shifted_back (shifted bs) ≡ bs
shifted_back_and_forth [] = refl
shifted_back_and_forth (b ∷ bs) = ground (arith, shifted_back_and_forth bs)

shifted_past : (c : ℕ) (bs : List ℕ) → c < 200 → contains c (shifted bs) ≡ false
unfolding contains
shifted_past c [] h = refl
shifted_past c (b ∷ bs) h = ground (arith, shifted_past c bs h)

ip_back : (ip : Ip) → read_ip (write_ip ip) ≡ some ip
ip_back (ipv4 bytes) = ap (λ bs. some (ipv4 bs)) (shifted_back_and_forth bytes)
ip_back (ipv6 bytes) = ap (λ bs. some (ipv6 bs)) (shifted_back_and_forth bytes)

ip_past : (c : ℕ) (ip : Ip) → c < 200 → 6 < c → contains c (write_ip ip) ≡ false
unfolding contains
ip_past c (ipv4 bytes) h k = ground (arith, shifted_past c bytes h)
ip_past c (ipv6 bytes) h k = ground (arith, shifted_past c bytes h)

shifting-AreTexts : AreTexts shifting
unfolding contains
shifting-AreTexts = record {
  address = λ ip i. ip_back ip;
  number = λ n. ground arith;
  address_bar = λ ip i. ip_past bar ip (omega arith) (omega arith);
  address_opening = λ ip i. ip_past opening ip (omega arith) (omega arith);
  number_bar = λ n. ground arith;
  number_colon = λ n. ground arith;
}

str_to_hops-hops_to_str_example :
    str_to_hops shifting (hops_to_str shifting ((localhost_6, 9001) ∷ (localhost, 9002) ∷ []))
    ≡ some ((localhost_6, 9001) ∷ (localhost, 9002) ∷ [])
str_to_hops-hops_to_str_example =
    str_to_hops-hops_to_str shifting (localhost_6, 9001) ((localhost, 9002) ∷ []) shifting-AreTexts
      ((refl, ground arith), ((refl, ground arith), tt))

-- A request to bind in place of connecting gets its status, and then the thread fails.
abbrev binding : Connection
binding = record far {
  client = record {
    buffer = [];
    events = received (5 ∷ 1 ∷ 0 ∷ 5 ∷ 2 ∷ 0 ∷ 1 ∷ 127 ∷ 0 ∷ 0 ∷ 1 ∷ 35 ∷ 40 ∷ []) false ∷ [];
  };
}

bind_request :
    ((server_init some binding).0 ≡ err key_error)
    × ((server_init some binding).1.client_open ≡ true)
    × ((server_init some binding).1.to_client
        ≡ 5 ∷ 0 ∷ 5 ∷ 7 ∷ 0 ∷ 1 ∷ 127 ∷ 0 ∷ 0 ∷ 1 ∷ 35 ∷ 40 ∷ [])
unfolding server_init serve_methods serve_command serve_request respond conn_str connect
    client_recvall recv_all recv_loop parse_address parse_typed parse_ip parse_port contains take
    drop
bind_request = (refl, refl, refl)
