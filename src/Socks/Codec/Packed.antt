-- ===== src/Socks/Codec/Packed.antt =====
-- The domain name of a multihop request (hops_to_domain_addr and domain_addr_to_hops of
-- zprocess/socks/__init__.py).
use zprocess.Base.{
  ℕ, ◌+◌, ◌-◌, ◌/◌, ◌%◌, ◌<◌, ◌≡◌, refl, sym, ap, ◌∙◌, Bool, true, false, ◌&&◌, Bool-cases, inl,
  inr, Option, none, some, List, [], ◌∷◌, ◌++◌, ltb, if◌then◌else◌, length, take, drop, take-append,
  append_assoc, length-append, arith,
}
use zprocess.Socks.{
  value_error, struct_error, Result, ok, err, lift, ◌>>=◌, unpack_byte, pack_short,
}
use zprocess.Socks.Codec.{
  Ip, ipv4, ipv6, version_byte, packed, bind, pack_hops, Domain, digits, last_port, all_but_two,
  hops_to_domain_addr, read, parse_hops, domain_addr_to_hops,
}
use zprocess.Socks.Codec.Read.{AreBytes, IsIp, AreHops, port_bytes, hops_bytes, parse_hops_bytes}

append_nil : (xs : List ℕ) → xs ++ [] ≡ xs
append_nil [] = refl
append_nil (x ∷ xs) = ap (λ t. x ∷ t) (append_nil xs)

pub port_small : (port : ℕ) → port < 65536 → ltb port 65536 ≡ true
port_small port h = ground arith

-- Each port has two bytes.
abbrev pub ports_fit : List (Ip × ℕ) → Bool
ports_fit [] = true
ports_fit ((host, port) ∷ hops) = ltb port 65536 && ports_fit hops

AreHops-ports_fit : (hops : List (Ip × ℕ)) → AreHops hops → ports_fit hops ≡ true
AreHops-ports_fit [] h = refl
AreHops-ports_fit ((host, port) ∷ hops) h =
    ap (λ b. b && ports_fit hops) (port_small port h.1) ∙ AreHops-ports_fit hops h.2

pack_hops_bytes :
    (hops : List (Ip × ℕ)) (bytes : List ℕ)
    → pack_hops hops bytes
      ≡ (if ports_fit hops then ok (bytes ++ hops_bytes hops) else err struct_error)
unfolding pack_hops
pack_hops_bytes [] bytes = ap ok (sym (append_nil bytes))
pack_hops_bytes ((host, port) ∷ hops) bytes = elim (Bool-cases (ltb port 65536)) [
  | inr h ↦ ground arith
  | inl h ↦
      ap
        (λ b. bind (if b then ok (port_bytes port) else err struct_error) λ raw_port.
          pack_hops hops (((bytes ++ (version_byte host ∷ [])) ++ packed host) ++ raw_port))
        h
      ∙ pack_hops_bytes hops _
      ∙ ap (λ all. if ports_fit hops then ok all else err struct_error)
          (append_assoc ((bytes ++ (version_byte host ∷ [])) ++ packed host) (port_bytes port)
              (hops_bytes hops)
            ∙ append_assoc (bytes ++ (version_byte host ∷ [])) (packed host)
                (port_bytes port ++ hops_bytes hops)
            ∙ append_assoc bytes (version_byte host ∷ [])
                (packed host ++ (port_bytes port ++ hops_bytes hops)))
      ∙ ap
          (λ b.
            if b && ports_fit hops
            then ok (bytes ++ hops_bytes ((host, port) ∷ hops))
            else err struct_error)
          (sym h)
]

-- the bytes of hops up to the last port
abbrev pub but_port : List (Ip × ℕ) → List ℕ
but_port [] = []
but_port ((host, port) ∷ []) = version_byte host ∷ packed host
but_port ((host, port) ∷ more ∷ hops) =
    version_byte host ∷ (packed host ++ (port_bytes port ++ but_port (more ∷ hops)))

hops_bytes_split :
    (hop : Ip × ℕ) (hops : List (Ip × ℕ))
    → hops_bytes (hop ∷ hops) ≡ but_port (hop ∷ hops) ++ port_bytes (last_port 0 (hop ∷ hops))
hops_bytes_split (host, port) [] = refl
hops_bytes_split (host, port) (more ∷ hops) =
    ap (λ t. version_byte host ∷ (packed host ++ (port_bytes port ++ t)))
      (hops_bytes_split more hops)
    ∙ ap (λ t. version_byte host ∷ t)
        (sym (append_assoc (packed host) (port_bytes port ++ but_port (more ∷ hops)) _))

all_but_two_append : (xs : List ℕ) (a b : ℕ) → all_but_two (xs ++ (a ∷ b ∷ [])) ≡ xs
all_but_two_append xs a b =
    ap (λ n. take (n - 2) (xs ++ (a ∷ b ∷ []))) (length-append xs (a ∷ b ∷ []))
    ∙ ap (λ n. take n (xs ++ (a ∷ b ∷ []))) {x = length xs + 2 - 2} (omega arith)
    ∙ take-append xs (a ∷ b ∷ [])

append-AreBytes : (xs ys : List ℕ) → AreBytes xs → AreBytes ys → AreBytes (xs ++ ys)
append-AreBytes [] ys a b = b
append-AreBytes (x ∷ xs) ys a b = (a.0, append-AreBytes xs ys a.1 b)

port_bytes-AreBytes : (port : ℕ) → port < 65536 → AreBytes (port_bytes port)
port_bytes-AreBytes port h = (omega arith, (omega arith, tt))

packed-AreBytes : (host : Ip) → IsIp host → AreBytes (version_byte host ∷ packed host)
packed-AreBytes (ipv4 bytes) h = (omega arith, h.1)
packed-AreBytes (ipv6 bytes) h = (omega arith, h.1)

but_port-AreBytes : (hops : List (Ip × ℕ)) → AreHops hops → AreBytes (but_port hops)
but_port-AreBytes [] h = tt
but_port-AreBytes ((host, port) ∷ []) h = packed-AreBytes host h.0
but_port-AreBytes ((host, port) ∷ more ∷ hops) h =
    append-AreBytes (version_byte host ∷ packed host) _ (packed-AreBytes host h.0) (
      append-AreBytes (port_bytes port) _ (port_bytes-AreBytes port h.1)
        (but_port-AreBytes (more ∷ hops) h.2))

last_port_small :
    (p : ℕ) (hop : Ip × ℕ) (hops : List (Ip × ℕ))
    → AreHops (hop ∷ hops)
    → last_port p (hop ∷ hops) < 65536
last_port_small p (host, port) [] h = h.1
last_port_small p (host, port) (more ∷ hops) h = last_port_small port more hops h.2

packed_if :
    {A : Type 0} (small fit : Bool) (n : ℕ) (pack : List ℕ → Result (List ℕ)) (bytes : List ℕ)
    (named : List ℕ → Result A)
    → ((count : List ℕ) → pack count ≡ (if fit then ok (count ++ bytes) else err struct_error))
    → bind (if small then ok (n ∷ []) else err struct_error) (λ count. bind (pack count) named)
      ≡ (if small && fit then named (n ∷ bytes) else err struct_error)
packed_if true true n pack bytes named e = ap (λ r. bind r named) (e (n ∷ []))
packed_if true false n pack bytes named e = ap (λ r. bind r named) (e (n ∷ []))
packed_if false fit n pack bytes named e = refl

-- A route of two or more hops is packed if it has fewer than 256 hops and each port is below 65536: as
-- the number of hops and the bytes of each, up to the last port, which is returned beside them. Any
-- other such route is refused with a struct.error.
pub hops_to_domain_addr-ports_fit :
    (hexlify : List ℕ → List ℕ) (first second : Ip × ℕ) (hops : List (Ip × ℕ))
    → (let all = first ∷ second ∷ hops in
        hops_to_domain_addr hexlify all ≡ (
          if ltb (length all) 256 && ports_fit all
          then ok (digits (hexlify (length all ∷ but_port all)), last_port 0 all)
          else err struct_error))
unfolding hops_to_domain_addr
hops_to_domain_addr-ports_fit hexlify first second hops =
    let all : List (Ip × ℕ) = first ∷ second ∷ hops in
    let named : List ℕ → Result (Domain × ℕ) =
      λ bytes. ok (digits (hexlify (all_but_two bytes)), last_port 0 all) in
    let name : named (length all ∷ hops_bytes all)
        ≡ ok (digits (hexlify (length all ∷ but_port all)), last_port 0 all) =
      ap (λ bytes. named (length all ∷ bytes)) (hops_bytes_split first (second ∷ hops))
      ∙ ap (λ bytes. ok (digits (hexlify bytes), last_port 0 all))
          (all_but_two_append (length all ∷ but_port all) (last_port 0 all / 256)
            (last_port 0 all % 256)) in
    packed_if (ltb (length all) 256) (ports_fit all) (length all) (pack_hops all) (hops_bytes all)
      named (pack_hops_bytes all)
    ∙ ap (λ r. if ltb (length all) 256 && ports_fit all then r else err struct_error)
        {x = named (length all ∷ hops_bytes all)}
        {y = ok (digits (hexlify (length all ∷ but_port all)), last_port 0 all)} name

byte_small : (n : ℕ) → n < 256 → ltb n 256 ≡ true
byte_small n h = ground arith

hops_packed :
    (hexlify : List ℕ → List ℕ) (first second : Ip × ℕ) (hops : List (Ip × ℕ))
    → length (first ∷ second ∷ hops) < 256
    → AreHops (first ∷ second ∷ hops)
    → hops_to_domain_addr hexlify (first ∷ second ∷ hops)
      ≡ ok (
        digits (hexlify (length (first ∷ second ∷ hops) ∷ but_port (first ∷ second ∷ hops))),
        last_port 0 (first ∷ second ∷ hops),
      )
hops_packed hexlify first second hops n h =
    let all : List (Ip × ℕ) = first ∷ second ∷ hops in
    let name : Result (Domain × ℕ) =
      ok (digits (hexlify (length all ∷ but_port all)), last_port 0 all) in
    hops_to_domain_addr-ports_fit hexlify first second hops
    ∙ ap (λ b. if b && ports_fit all then name else err struct_error) (byte_small (length all) n)
    ∙ ap (λ b. if b then name else err struct_error) (AreHops-ports_fit all h)

hops_unpacked :
    (unhexlify : List ℕ → Option (List ℕ)) (name : List ℕ) (hop : Ip × ℕ) (hops : List (Ip × ℕ))
    → unhexlify name ≡ some (length (hop ∷ hops) ∷ but_port (hop ∷ hops))
    → AreHops (hop ∷ hops)
    → domain_addr_to_hops unhexlify name (last_port 0 (hop ∷ hops)) ≡ ok (hop ∷ hops)
unfolding domain_addr_to_hops take drop
hops_unpacked unhexlify name hop hops u h =
    let all : List (Ip × ℕ) = hop ∷ hops in
    let port : ℕ = last_port 0 all in
    let parse : List ℕ → Result (List (Ip × ℕ)) =
      λ bytes. ((read 1 >>= λ count. lift (unpack_byte count) >>= parse_hops) bytes).0 in
    ap
      (λ o. elim o as (λ o. Result (List (Ip × ℕ))) [
        | none ↦ err value_error
        | some bytes ↦ bind (pack_short port) λ raw_port. parse (bytes ++ raw_port)
      ])
      u
    ∙ ap
        (λ b.
          bind (if b then ok (port_bytes port) else err struct_error)
            λ raw_port. parse (length all ∷ (but_port all ++ raw_port)))
        (port_small port (last_port_small 0 hop hops h))
    ∙ ap (λ bytes. (parse_hops (length all) bytes).0)
        (sym (hops_bytes_split hop hops) ∙ sym (append_nil (hops_bytes all)))
    ∙ ap (λ r. r.0) (parse_hops_bytes all [] h)

-- The hops of a multihop request, packed as a domain name and a port, are read back from them: two or
-- more hops, fewer than 256, with addresses of their versions' lengths and ports below 65536, where
-- unhexlify undoes hexlify on bytes.
pub domain_addr_to_hops-hops_to_domain_addr :
    (hexlify : List ℕ → List ℕ) (unhexlify : List ℕ → Option (List ℕ)) (first second : Ip × ℕ)
    (hops : List (Ip × ℕ))
    → ((bytes : List ℕ) → AreBytes bytes → unhexlify (hexlify bytes) ≡ some bytes)
    → length (first ∷ second ∷ hops) < 256
    → AreHops (first ∷ second ∷ hops)
    → (name : List ℕ) × (port : ℕ) × (hops_to_domain_addr hexlify (first ∷ second ∷ hops)
        ≡ ok (digits name, port))
      × (domain_addr_to_hops unhexlify name port ≡ ok (first ∷ second ∷ hops))
domain_addr_to_hops-hops_to_domain_addr hexlify unhexlify first second hops undo n h = (
  _,
  _,
  hops_packed hexlify first second hops n h,
  hops_unpacked unhexlify _ first (second ∷ hops)
      (undo (length (first ∷ second ∷ hops) ∷ but_port (first ∷ second ∷ hops))
        (n, but_port-AreBytes (first ∷ second ∷ hops) h))
      h,
)
