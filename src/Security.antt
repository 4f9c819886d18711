-- ===== src/Security.antt =====
-- zprocess/security.py: which messages and connections are let through, and authentication. An IP
-- address is a number with its version; what the libraries know of addresses, names and keys is a
-- parameter, the record Library. Texts and byte strings that are only compared are numbers.
mod Examples
pub mod Socket
pub mod Authenticator
use zprocess.Base.{
  ℕ, Bool, true, false, Option, none, some, List, [], ◌∷◌, ◌==◌, if◌then◌else◌, length, take, drop,
}

pub data Ip : Type 0 where
  v4 v6 : ℕ → Ip

-- `ip.is_loopback` and `ip.ipv4_mapped` of ipaddress; `socket.getaddrinfo`, which raises an error or
-- gives addresses, each with whether it is of the family AF_INET.
pub record Library : Type 0 where
  pub is_loopback : Ip → Bool
  pub ipv4_mapped : Ip → Option Ip
  pub getaddrinfo : ℕ → Option (List (Bool × Ip))

abbrev pub unmapped : Library → Ip → Ip
unmapped library (v4 n) = v4 n
unmapped library (v6 n) = elim (library.ipv4_mapped (v6 n)) [ some ip ↦ ip | none ↦ v6 n ]

-- `ip_is_loopback`
unfoldable pub ip_is_loopback : Library → Ip → Bool
ip_is_loopback library ip = library.is_loopback (unmapped library ip)

abbrev pub first_ipv4 : List (Bool × Ip) → Option Ip
first_ipv4 [] = none
first_ipv4 ((true, ip) ∷ results) = some ip
first_ipv4 ((false, ip) ∷ results) = first_ipv4 results

-- `gethostbyname` of zprocess/utils.py, as it is called here: an IPv4 address if there is one. None is
-- an error of the lookup; an empty list of results, which getaddrinfo does not give, is one too.
unfoldable pub gethostbyname : Library → ℕ → Option Ip
gethostbyname library host = elim (library.getaddrinfo host) [
  | none ↦ none
  | some [] ↦ none
  | some (first ∷ results) ↦ elim (first_ipv4 (first ∷ results)) [
    | some ip ↦ some ip
    | none ↦ some first.1
  ]
]

-- `_unpack_shared_secret`, where `decode` is base64's and `encode` z85's: the client's and the server's
-- secret key. None is a ValueError.
unfoldable pub unpack_shared_secret : (ℕ → Option (List ℕ)) → (List ℕ → ℕ) → ℕ → Option (ℕ × ℕ)
unpack_shared_secret decode encode secret = elim (decode secret) [
  | none ↦ none
  | some bytes ↦
      if length bytes == 64 then some (encode (take 32 bytes), encode (drop 32 bytes)) else none
]
