-- ===== src/Socks/Codec.antt =====
-- zprocess/socks/__init__.py: addresses as bytes, and the hops of a multihop request as a domain name.
-- The text of an IP address stands for its version and its packed bytes. The functions of binascii are
-- parameters.
pub mod Read
pub mod Packed
use zprocess.Base.{
  ℕ, zero, suc, ◌-◌, Bool, true, false, ◌||◌, Option, none, some, List, [], ◌∷◌, ◌++◌, ◌==◌,
  if◌then◌else◌, length, take, drop,
}
use zprocess.Socks.{
  Error, value_error, Result, ok, err, M, lift, ◌>>=◌, pack_byte, unpack_byte, pack_short,
  unpack_short,
}

-- `socks5`: the address types
abbrev pub address_ipv4 : ℕ
address_ipv4 = 1

abbrev pub address_domain : ℕ
address_domain = 3

abbrev pub address_ipv6 : ℕ
address_ipv6 = 4

pub data Ip : Type 0 where
  ipv4 ipv6 : List ℕ → Ip

pub data Address : Type 0 where
  ip_address : Ip → Address
  domain_name : List ℕ → Address

-- What `parse_address` returns. The address is None for another type.
pub record Parsed : Type 0 where
  pub address_type : ℕ
  pub address : Option (Address × ℕ)
  pub message : List ℕ

module _ {S : Type 0} (readfunc : ℕ → M S (List ℕ)) where
  -- the end of `parse_address`
  unfoldable pub parse_port : ℕ → Address → List ℕ → M S Parsed
  parse_port address_type address message = readfunc 2 >>= λ raw_port.
      lift (unpack_short raw_port) >>= λ port. lift (
        ok record {
          address_type = address_type;
          address = some (address, port);
          message = message ++ raw_port;
        })

  -- `IPv4Address(raw)` and `IPv6Address(raw)` take 4 and 16 bytes; AddressValueError is a ValueError.
  unfoldable pub parse_ip : ℕ → ℕ → (List ℕ → Ip) → List ℕ → M S Parsed
  parse_ip n address_type make message = readfunc n >>= λ raw_address.
      lift (if length raw_address == n then ok (make raw_address) else err value_error)
      >>= λ address. parse_port address_type (ip_address address) (message ++ raw_address)

  unfoldable pub parse_domain : List ℕ → M S Parsed
  parse_domain message = readfunc 1 >>= λ count. lift (unpack_byte count) >>= λ n.
      readfunc n >>= λ raw_address.
      parse_port address_domain (domain_name raw_address) ((message ++ count) ++ raw_address)

  unfoldable pub parse_typed : ℕ → List ℕ → M S Parsed
  parse_typed address_type message =
      if address_type == address_ipv4
      then parse_ip 4 address_ipv4 ipv4 message
      else (if address_type == address_ipv6
          then parse_ip 16 address_ipv6 ipv6 message
          else (if address_type == address_domain
              then parse_domain message
              else lift
                  (ok record { address_type = address_type; address = none; message = message })))

  -- `parse_address`
  unfoldable pub parse_address : M S Parsed
  parse_address = readfunc 1 >>= λ message.
      lift (unpack_byte message) >>= λ address_type. parse_typed address_type message

abbrev pub version_byte : Ip → ℕ
version_byte (ipv4 bytes) = address_ipv4
version_byte (ipv6 bytes) = address_ipv6

abbrev pub packed : Ip → List ℕ
packed (ipv4 bytes) = bytes
packed (ipv6 bytes) = bytes

abbrev pub bind {ℓ κ} : {A : Type ℓ} {B : Type κ} → Result A → (A → Result B) → Result B
bind (ok a) f = f a
bind (err e) f = err e

-- `pack_address`
unfoldable pub pack_address : Ip → ℕ → Result (List ℕ)
pack_address host port =
    bind (pack_short port) λ bytes. ok (version_byte host ∷ (packed host ++ bytes))

-- the loop of `hops_to_domain_addr`, from the bytes that are packed already
unfoldable pub pack_hops : List (Ip × ℕ) → List ℕ → Result (List ℕ)
pack_hops [] bytes = ok bytes
pack_hops ((host, port) ∷ hops) bytes =
    bind (pack_short port)
      λ raw_port. pack_hops hops (((bytes ++ (version_byte host ∷ [])) ++ packed host) ++ raw_port)

-- A domain name as `hops_to_domain_addr` gives it: the host of a single hop, or digits.
pub data Domain : Type 0 where
  single : Ip → Domain
  digits : List ℕ → Domain

abbrev pub last_port : ℕ → List (Ip × ℕ) → ℕ
last_port port [] = port
last_port port ((host, p) ∷ hops) = last_port p hops

-- `bytes[:-2]`
abbrev pub all_but_two : List ℕ → List ℕ
all_but_two bytes = take (length bytes - 2) bytes

-- `hops_to_domain_addr`
unfoldable pub hops_to_domain_addr : (List ℕ → List ℕ) → List (Ip × ℕ) → Result (Domain × ℕ)
hops_to_domain_addr hexlify [] = err value_error
hops_to_domain_addr hexlify ((host, port) ∷ []) = ok (single host, port)
hops_to_domain_addr hexlify (hop ∷ more ∷ hops) =
    bind (pack_byte (length (hop ∷ more ∷ hops))) λ count.
      bind (pack_hops (hop ∷ more ∷ hops) count) λ packed_hops.
        ok (digits (hexlify (all_but_two packed_hops)), last_port hop.1 (more ∷ hops))

-- `BytesIO.read`: fewer bytes at the end
abbrev pub read : ℕ → M (List ℕ) (List ℕ)
read n bytes = (ok (take n bytes), drop n bytes)

abbrev pub only_ip : Parsed → Result (Ip × ℕ)
only_ip parsed = elim parsed.address [
  | some (ip_address host, port) ↦ ok (host, port)
  | _ ↦ err value_error
]

-- the loop of `domain_addr_to_hops`
unfoldable pub parse_hops : ℕ → M (List ℕ) (List (Ip × ℕ))
parse_hops zero = lift (ok [])
parse_hops (suc n) = parse_address read >>= λ parsed.
    lift (only_ip parsed) >>= λ hop. parse_hops n >>= λ hops. lift (ok (hop ∷ hops))

-- `domain_addr_to_hops`. `binascii.Error` is a ValueError.
unfoldable pub domain_addr_to_hops :
    (List ℕ → Option (List ℕ)) → List ℕ → ℕ → Result (List (Ip × ℕ))
domain_addr_to_hops unhexlify name port = elim (unhexlify name) [
  | none ↦ err value_error
  | some bytes ↦ bind (pack_short port) λ raw_port.
      ((read 1 >>= λ count. lift (unpack_byte count) >>= parse_hops) (bytes ++ raw_port)).0
]
