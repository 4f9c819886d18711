-- ===== src/Socks/Rules.antt =====
-- class AllowRule of zprocess/socks/server.py and SocksProxyServer.allows. Whether an address is in a
-- network is the ipaddress library's to say, so a network is given by its members.
pub mod Documented
use zprocess.Base.{
  ℕ, ◌+◌, Bool, true, false, not, Option, none, some, List, [], ◌∷◌, ltb, leb, if◌then◌else◌,
}
use zprocess.Socks.{attribute_error, Result, ok, err}
use zprocess.Socks.Codec.{Ip}

-- The hosts and the ports that a rule is made with; `any_host` and `any_port` are `"*"`.
pub data Hosts : Type 0 where
  any_host : Hosts
  network : (Ip → Bool) → Hosts

pub data Ports : Type 0 where
  any_port : Ports
  one_port : ℕ → Ports
  from_to : ℕ → ℕ → Ports

-- `range(start, stop)` or `"*"`
pub data Range : Type 0 where
  everything : Range
  range : ℕ → ℕ → Range

-- `dest_port_range` is none where the attribute has not been set.
pub record AllowRule : Type 0 where
  pub source_host : Hosts
  pub dest_host : Hosts
  pub source_port_range : Range
  pub dest_port_range : Option Range

abbrev pub range_of : Ports → Range
range_of any_port = everything
range_of (one_port port) = range port (port + 1)
range_of (from_to lower upper) = range lower (upper + 1)

-- The end of `AllowRule.__init__`. With a single port, it is the source's ports that are set.
abbrev pub set_dest_port : Ports → AllowRule → AllowRule
set_dest_port any_port rule = record rule { dest_port_range = some everything }
set_dest_port (one_port port) rule = record rule { source_port_range = range port (port + 1) }
set_dest_port (from_to lower upper) rule = record rule {
  dest_port_range = some (range lower (upper + 1));
}

-- `AllowRule.__init__`
unfoldable pub new_rule : Hosts → Ports → Hosts → Ports → AllowRule
new_rule source_host source_port dest_host dest_port = set_dest_port dest_port record {
  source_host = source_host;
  dest_host = dest_host;
  source_port_range = range_of source_port;
  dest_port_range = none;
}

abbrev pub in_hosts : Hosts → Ip → Bool
in_hosts any_host host = true
in_hosts (network members) host = members host

abbrev pub in_range : Range → ℕ → Bool
in_range everything port = true
in_range (range start stop) port = if leb start port then ltb port stop else false

-- `AllowRule.allows`
unfoldable pub rule_allows : Ip → ℕ → Ip → ℕ → AllowRule → Result Bool
rule_allows source_host source_port dest_host dest_port rule =
    if not (in_hosts rule.source_host source_host)
    then ok false
    else (if not (in_hosts rule.dest_host dest_host)
        then ok false
        else (if not (in_range rule.source_port_range source_port)
            then ok false
            else elim rule.dest_port_range [
              | none ↦ err attribute_error
              | some ports ↦ ok (in_range ports dest_port)
            ]))

-- `SocksProxyServer.allows`
unfoldable pub allows : Ip → ℕ → Ip → ℕ → List AllowRule → Result Bool
allows source_host source_port dest_host dest_port [] = ok false
allows source_host source_port dest_host dest_port (rule ∷ rules) =
    let others = allows source_host source_port dest_host dest_port rules in
    elim (rule_allows source_host source_port dest_host dest_port rule) [
      | ok allowed ↦ if allowed then ok true else others
      | err e ↦ err e
    ]
