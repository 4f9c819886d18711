-- ===== src/Socks/Rules/Documented.antt =====
-- The routes that a set of rules allows, against what the documentation of AllowRule says
-- (zprocess/socks/server.py).
use zprocess.Base.{
  ℕ, ◌≡◌, refl, Bool, true, false, ◌&&◌, ◌||◌, List, [], ◌∷◌, map, leb, ◌==◌, arith,
}
use zprocess.Socks.{ok}
use zprocess.Socks.Codec.{Ip}
use zprocess.Socks.Rules.{
  Hosts, Ports, any_port, one_port, from_to, AllowRule, range_of, new_rule, in_hosts, in_range,
  rule_allows, allows,
}

-- The arguments of a rule.
pub record Rule : Type 0 where
  pub source_host : Hosts
  pub source_port : Ports
  pub dest_host : Hosts
  pub dest_port : Ports

abbrev pub made : Rule → AllowRule
made r = new_rule r.source_host r.source_port r.dest_host r.dest_port

-- any port, one port, or a port between two bounds that are both included
abbrev pub in_ports : Ports → ℕ → Bool
in_ports any_port port = true
in_ports (one_port p) port = p == port
in_ports (from_to lower upper) port = leb lower port && leb port upper

abbrev pub documented : Ip → ℕ → Ip → ℕ → Rule → Bool
documented source_host source_port dest_host dest_port r =
    in_hosts r.source_host source_host
    && in_hosts r.dest_host dest_host
    && in_ports r.source_port source_port
    && in_ports r.dest_port dest_port

abbrev pub some_documented : Ip → ℕ → Ip → ℕ → List Rule → Bool
some_documented source_host source_port dest_host dest_port [] = false
some_documented source_host source_port dest_host dest_port (r ∷ rules) =
    documented source_host source_port dest_host dest_port r
    || some_documented source_host source_port dest_host dest_port rules

abbrev pub is_single : Ports → Bool
is_single (one_port port) = true
is_single ports = false

abbrev pub NoSingle : List Rule → Type 0
NoSingle [] = Unit
NoSingle (r ∷ rules) = (is_single r.dest_port ≡ false) × NoSingle rules

in_range-range_of :
    (ports : Ports) (port : ℕ) → in_range (range_of ports) port ≡ in_ports ports port
in_range-range_of any_port port = refl
in_range-range_of (one_port p) port = ground arith
in_range-range_of (from_to lower upper) port = ground arith

rule_allows-made :
    (source_host : Ip) (source_port : ℕ) (dest_host : Ip) (dest_port : ℕ) (hosts hosts' : Hosts)
    (ports ports' : Ports)
    → is_single ports' ≡ false
    → rule_allows source_host source_port dest_host dest_port (new_rule hosts ports hosts' ports')
      ≡ ok (
          in_hosts hosts source_host
          && in_hosts hosts' dest_host
          && in_ports ports source_port
          && in_ports ports' dest_port)
unfolding rule_allows new_rule
rule_allows-made sh sp dh dp hosts hosts' ports any_port h =
    ground (arith, in_range-range_of ports sp)
rule_allows-made sh sp dh dp hosts hosts' ports (one_port p) h = absurd (ground arith)
rule_allows-made sh sp dh dp hosts hosts' ports (from_to lower upper) h =
    ground (arith, in_range-range_of ports sp, in_range-range_of (from_to lower upper) dp)

-- A proxy lets a connection through exactly if one of its rules allows it as the documentation of
-- AllowRule says, as long as none of them has a single port as its destination's.
pub allows-documented :
    (source_host : Ip) (source_port : ℕ) (dest_host : Ip) (dest_port : ℕ) (rules : List Rule)
    → NoSingle rules
    → allows source_host source_port dest_host dest_port (map made rules)
      ≡ ok (some_documented source_host source_port dest_host dest_port rules)
unfolding allows
allows-documented sh sp dh dp [] h = refl
allows-documented sh sp dh dp (r ∷ rules) h = ground (
  arith,
  rule_allows-made sh sp dh dp r.source_host r.dest_host r.source_port r.dest_port h.0,
  allows-documented sh sp dh dp rules h.1,
)
