-- ===== src/Socks/Codec/Read.antt =====
-- parse_address of zprocess/socks/__init__.py on what pack_address writes.
use zprocess.Base.{
  ℕ, ◌+◌, ◌*◌, ◌/◌, ◌%◌, ◌<◌, ◌≡◌, refl, sym, ap, ◌∙◌, true, some, List, [], ◌∷◌, ◌++◌, ◌==◌,
  if◌then◌else◌, length, take, drop, take-append, drop-append, append_assoc, arith,
}
use zprocess.Socks.{value_error, Result, ok, err, M, lift, ◌>>=◌, unpack_byte, unpack_short}
use zprocess.Socks.Codec.{
  Ip, ipv4, ipv6, Address, ip_address, Parsed, parse_port, parse_ip, parse_typed, parse_address,
  version_byte, packed, pack_address, read, only_ip, parse_hops,
}

abbrev pub AreBytes : List ℕ → Type 0
AreBytes [] = Unit
AreBytes (b ∷ bs) = (b < 256) × AreBytes bs

-- An address of its version's length.
abbrev pub IsIp : Ip → Type 0
IsIp (ipv4 bytes) = (length bytes ≡ 4) × AreBytes bytes
IsIp (ipv6 bytes) = (length bytes ≡ 16) × AreBytes bytes

pub resume :
    {S A B : Type 0} (m : M S A) (f : A → M S B) (s s' : S) (a : A)
    → m s ≡ (ok a, s')
    → (m >>= f) s ≡ f a s'
resume {S = S} {B = B} m f s s' a h =
    ap (λ r. elim r.0 as (λ o. Result B × S) [ ok x ↦ f x r.1 | err e ↦ (err e, r.1) ]) h

abbrev pub port_bytes : ℕ → List ℕ
port_bytes port = (port / 256) ∷ (port % 256) ∷ []

pub unpack_pack_short : (port : ℕ) → port < 65536 → unpack_short (port_bytes port) ≡ ok port
unpack_pack_short port h = ap ok (omega arith)

-- A reader of the bytes that `left` tells: asked for as many as stand first there, it returns them and
-- leaves what `frame` tells.
abbrev pub IsReading : {S F : Type 0} → (S → List ℕ) → (S → F) → (ℕ → M S (List ℕ)) → Type 0
IsReading {S = S} left frame readfunc =
    (n : ℕ) (xs ys : List ℕ) (s : S)
    → length xs ≡ n
    → left s ≡ xs ++ ys
    → (s' : S) × (readfunc n s ≡ (ok xs, s')) × (left s' ≡ ys) × (frame s' ≡ frame s)

abbrev pub parsed_as : Ip → ℕ → Parsed
parsed_as host port = record {
  address_type = version_byte host;
  address = some (ip_address host, port);
  message = version_byte host ∷ (packed host ++ port_bytes port);
}

module _ {S F : Type 0} (left : S → List ℕ) (frame : S → F) (readfunc : ℕ → M S (List ℕ))
    (reads : IsReading left frame readfunc) where
  parse_port_read :
      (version port : ℕ) (address : Address) (message ys : List ℕ) (s : S)
      → port < 65536
      → left s ≡ port_bytes port ++ ys
      → (s' : S) × (parse_port readfunc version address message s ≡ (
        ok (record {
          address_type = version;
          address = some (address, port);
          message = message ++ port_bytes port;
        }),
        s',
      ))
        × (left s' ≡ ys)
        × (frame s' ≡ frame s)
  unfolding parse_port
  parse_port_read version port address message ys s p e =
      let (s', e', l, f) = reads 2 (port_bytes port) ys s refl e in
      (
        s',
        resume (readfunc 2)
              (λ raw_port. lift (unpack_short raw_port) >>= λ q. lift (
                ok (record {
                  address_type = version;
                  address = some (address, q);
                  message = message ++ raw_port;
                })))
              s s' (port_bytes port) e'
            ∙ ap
                (λ q. (
                  ok (record {
                    address_type = version;
                    address = some (address, q);
                    message = message ++ port_bytes port;
                  }),
                  s',
                ))
                {x = (port / 256) * 256 + port % 256} (omega arith),
        l,
        f,
      )

  parse_ip_read :
      (n version port : ℕ) (make : List ℕ → Ip) (raw ys : List ℕ) (s : S)
      → length raw ≡ n
      → port < 65536
      → left s ≡ raw ++ (port_bytes port ++ ys)
      → (s' : S) × (parse_ip readfunc n version make (version ∷ []) s ≡ (
        ok (record {
          address_type = version;
          address = some (ip_address (make raw), port);
          message = version ∷ (raw ++ port_bytes port);
        }),
        s',
      ))
        × (left s' ≡ ys)
        × (frame s' ≡ frame s)
  unfolding parse_ip
  parse_ip_read n version port make raw ys s h p e =
      let (s₁, e₁, l₁, f₁) = reads n raw (port_bytes port ++ ys) s h e in
      let (s₂, e₂, l₂, f₂) =
        parse_port_read version port (ip_address (make raw)) (version ∷ raw) ys s₁ p l₁ in
      (
        s₂,
        resume (readfunc n)
              (λ raw_address.
                lift (if length raw_address == n then ok (make raw_address) else err value_error)
                >>= λ address.
                    parse_port readfunc version (ip_address address) (version ∷ raw_address))
              s s₁ raw e₁
            ∙ ap
                (λ b.
                  (lift (if b then ok (make raw) else err value_error) >>= λ address.
                  parse_port readfunc version (ip_address address) (version ∷ raw))
                    s₁)
                {x = length raw == n} {y = true} (ground arith)
            ∙ e₂,
        l₂,
        f₂ ∙ f₁,
      )

  -- What `pack_address` writes for an address, `parse_address` reads back, and no more than that.
  pub parse_address-read :
      (host : Ip) (port : ℕ) (ys : List ℕ) (s : S)
      → IsIp host
      → port < 65536
      → left s ≡ version_byte host ∷ (packed host ++ (port_bytes port ++ ys))
      → (s' : S) × (parse_address readfunc s ≡ (ok (parsed_as host port), s'))
        × (left s' ≡ ys)
        × (frame s' ≡ frame s)
  unfolding parse_address parse_typed
  parse_address-read (ipv4 raw) port ys s h p e =
      let (s₁, e₁, l₁, f₁) = reads 1 (1 ∷ []) (raw ++ (port_bytes port ++ ys)) s refl e in
      let (s₂, e₂, l₂, f₂) = parse_ip_read 4 1 port ipv4 raw ys s₁ h.0 p l₁ in
      (
        s₂,
        resume (readfunc 1)
              (λ message. lift (unpack_byte message) >>= λ address_type.
                parse_typed readfunc address_type message)
              s s₁ (1 ∷ []) e₁
            ∙ e₂,
        l₂,
        f₂ ∙ f₁,
      )
  parse_address-read (ipv6 raw) port ys s h p e =
      let (s₁, e₁, l₁, f₁) = reads 1 (4 ∷ []) (raw ++ (port_bytes port ++ ys)) s refl e in
      let (s₂, e₂, l₂, f₂) = parse_ip_read 16 4 port ipv6 raw ys s₁ h.0 p l₁ in
      (
        s₂,
        resume (readfunc 1)
              (λ message. lift (unpack_byte message) >>= λ address_type.
                parse_typed readfunc address_type message)
              s s₁ (4 ∷ []) e₁
            ∙ e₂,
        l₂,
        f₂ ∙ f₁,
      )

pub pack_address-bytes :
    (host : Ip) (port : ℕ)
    → port < 65536
    → pack_address host port ≡ ok (version_byte host ∷ (packed host ++ port_bytes port))
unfolding pack_address
pack_address-bytes host port p = ground arith

pub read-IsReading : IsReading (λ bytes. bytes) (λ bytes. tt {0}) read
read-IsReading n xs ys s h e = (
  ys,
  ap (λ k. (ok (take k s), drop k s)) (sym h)
      ∙ ap (λ t. (ok (take (length xs) t), drop (length xs) t)) e
      ∙ ap (λ t. (ok t, drop (length xs) (xs ++ ys))) (take-append xs ys)
      ∙ ap (λ t. (ok xs, t)) (drop-append xs ys),
  refl,
  refl,
)

-- the bytes of hops
abbrev pub hops_bytes : List (Ip × ℕ) → List ℕ
hops_bytes [] = []
hops_bytes ((host, port) ∷ hops) =
    version_byte host ∷ (packed host ++ (port_bytes port ++ hops_bytes hops))

abbrev pub AreHops : List (Ip × ℕ) → Type 0
AreHops [] = Unit
AreHops ((host, port) ∷ hops) = IsIp host × (port < 65536) × AreHops hops

pub parse_hops_bytes :
    (hops : List (Ip × ℕ)) (ys : List ℕ)
    → AreHops hops
    → parse_hops (length hops) (hops_bytes hops ++ ys) ≡ (ok hops, ys)
unfolding parse_hops
parse_hops_bytes [] ys h = refl
parse_hops_bytes ((host, port) ∷ hops) ys h =
    let (s₁, e₁, l₁, f₁) =
      parse_address-read (λ bytes. bytes) (λ bytes. tt {0}) read read-IsReading host port
        (hops_bytes hops ++ ys) _ h.0 h.1
        (ap (λ t. version_byte host ∷ t)
          (append_assoc (packed host) (port_bytes port ++ hops_bytes hops) ys)) in
    resume (parse_address read)
      (λ parsed. lift (only_ip parsed) >>= λ hop.
        parse_hops (length hops) >>= λ more. lift (ok (hop ∷ more)))
      _ s₁ (parsed_as host port) e₁
    ∙ resume (parse_hops (length hops)) (λ more. lift (ok ((host, port) ∷ more))) s₁ ys hops
        (ap (parse_hops (length hops)) l₁ ∙ parse_hops_bytes hops ys h.2)
