-- ===== src/Socks/Text/Routes.antt =====
-- A route written as a text and read again (zprocess/socks/__init__.py).
use zprocess.Base.{
  ℕ, ◌≡◌, refl, ap, ◌∙◌, true, false, none, some, List, [], ◌∷◌, ◌++◌, map, contains, arith,
}
use zprocess.Socks.Codec.{Ip, ipv4, ipv6}
use zprocess.Socks.Codec.Read.{IsIp}
use zprocess.Socks.Text.{
  Texts, bar, colon, opening, closing, split, rsplit, join, ends_with, but_last, without_brackets,
  hop_of, str_to_hop, parse_all, str_to_hops, bracketed, hop_to_str, hops_to_str,
}

abbrev pub AreIps : List (Ip × ℕ) → Type 0
AreIps [] = Unit
AreIps ((host, port) ∷ hops) = IsIp host × AreIps hops

-- What the libraries promise: texts are read as what they were written for, and hold none of the
-- characters that a route adds.
pub record AreTexts (texts : Texts) : Type 0 where
  pub address : (ip : Ip) → IsIp ip → texts.ip_address (texts.compressed ip) ≡ some ip
  pub number : (n : ℕ) → texts.int (texts.str n) ≡ some n
  pub address_bar : (ip : Ip) → IsIp ip → contains bar (texts.compressed ip) ≡ false
  pub address_opening : (ip : Ip) → IsIp ip → contains opening (texts.compressed ip) ≡ false
  pub number_bar : (n : ℕ) → contains bar (texts.str n) ≡ false
  pub number_colon : (n : ℕ) → contains colon (texts.str n) ≡ false

contains_append :
    (c : ℕ) (xs ys : List ℕ)
    → contains c xs ≡ false
    → contains c ys ≡ false
    → contains c (xs ++ ys) ≡ false
unfolding contains
contains_append c [] ys h k = k
contains_append c (x ∷ xs) ys h k = ground (arith, contains_append c xs ys)

split_one : (c : ℕ) (xs : List ℕ) → contains c xs ≡ false → split c xs ≡ xs ∷ []
unfolding contains split
split_one c [] h = refl
split_one c (x ∷ xs) h = ground (arith, split_one c xs)

split_more :
    (c : ℕ) (xs rest : List ℕ)
    → contains c xs ≡ false
    → split c (xs ++ (c ∷ rest)) ≡ xs ∷ split c rest
unfolding contains split
split_more c [] rest h = ground arith
split_more c (x ∷ xs) rest h = ground (arith, split_more c xs rest)

abbrev Free : ℕ → List (List ℕ) → Type 0
Free c [] = Unit
Free c (piece ∷ pieces) = (contains c piece ≡ false) × Free c pieces

split-join :
    (c : ℕ) (piece : List ℕ) (pieces : List (List ℕ))
    → Free c (piece ∷ pieces)
    → split c (join c (piece ∷ pieces)) ≡ piece ∷ pieces
unfolding join
split-join c piece [] h = split_one c piece h.0
split-join c piece (next ∷ pieces) h =
    split_more c piece (join c (next ∷ pieces)) h.0
    ∙ ap (λ rest. piece ∷ rest) (split-join c next pieces h.1)

rsplit-none : (c : ℕ) (xs : List ℕ) → contains c xs ≡ false → rsplit c xs ≡ none
unfolding contains rsplit
rsplit-none c [] h = refl
rsplit-none c (x ∷ xs) h = ground (arith, rsplit-none c xs)

rsplit_last :
    (c : ℕ) (xs ys : List ℕ) → contains c ys ≡ false → rsplit c (xs ++ (c ∷ ys)) ≡ some (xs, ys)
unfolding rsplit
rsplit_last c [] ys h = ground (arith, rsplit-none c ys h)
rsplit_last c (x ∷ xs) ys h = ground (arith, rsplit_last c xs ys h)

ends_with_last : (c x : ℕ) (xs : List ℕ) → ends_with c (x ∷ (xs ++ (c ∷ []))) ≡ true
ends_with_last c x [] = ground arith
ends_with_last c x (y ∷ xs) = ends_with_last c y xs

but_last_append : (c : ℕ) (xs : List ℕ) → but_last (xs ++ (c ∷ [])) ≡ xs
but_last_append c [] = refl
but_last_append c (x ∷ []) = refl
but_last_append c (x ∷ y ∷ xs) = ap (λ t. x ∷ t) (but_last_append c (y ∷ xs))

brackets_off : (xs : List ℕ) → without_brackets (opening ∷ (xs ++ (closing ∷ []))) ≡ xs
unfolding without_brackets
brackets_off xs = ground (arith, ends_with_last closing opening xs, but_last_append closing xs)

no_brackets : (xs : List ℕ) → contains opening xs ≡ false → without_brackets xs ≡ xs
unfolding contains without_brackets
no_brackets [] h = refl
no_brackets (x ∷ xs) h = ground arith

module _ (texts : Texts) (t : AreTexts texts) where
  bracketed_off : (ip : Ip) → IsIp ip → without_brackets (bracketed texts ip) ≡ texts.compressed ip
  bracketed_off (ipv4 bytes) i =
      no_brackets (texts.compressed (ipv4 bytes)) (t.address_opening (ipv4 bytes) i)
  bracketed_off (ipv6 bytes) i = brackets_off (texts.compressed (ipv6 bytes))

  hop_read :
      (host : Ip) (port : ℕ)
      → IsIp host
      → str_to_hop texts (hop_to_str texts (host, port)) ≡ some (host, port)
  unfolding str_to_hop hop_of
  hop_read host port i = ground (
    arith,
    rsplit_last colon (bracketed texts host) (texts.str port) (t.number_colon port),
    bracketed_off host i,
    t.address host i,
    t.number port,
  )

  bracketed-bar : (ip : Ip) → IsIp ip → contains bar (bracketed texts ip) ≡ false
  unfolding contains
  bracketed-bar (ipv4 bytes) i = t.address_bar (ipv4 bytes) i
  bracketed-bar (ipv6 bytes) i = ground (
    arith,
    contains_append bar (texts.compressed (ipv6 bytes)) (closing ∷ [])
        (t.address_bar (ipv6 bytes) i) refl,
  )

  hops_Free : (hops : List (Ip × ℕ)) → AreIps hops → Free bar (map (hop_to_str texts) hops)
  unfolding contains
  hops_Free [] i = tt
  hops_Free ((host, port) ∷ hops) i = (
    contains_append bar (bracketed texts host) (colon ∷ texts.str port) (bracketed-bar host i.0)
        (ground (arith, t.number_bar port)),
    hops_Free hops i.1,
  )

  all_read :
      (hops : List (Ip × ℕ))
      → AreIps hops
      → parse_all texts (map (hop_to_str texts) hops) ≡ some hops
  unfolding parse_all
  all_read [] i = refl
  all_read ((host, port) ∷ hops) i = ground (arith, hop_read host port i.0, all_read hops i.1)

-- A route of one or more hops, with addresses of their versions' lengths, that is written as a text is read
-- back from it, for libraries that read
-- what they write and write none of the characters that a route adds.
pub str_to_hops-hops_to_str :
    (texts : Texts) (hop : Ip × ℕ) (hops : List (Ip × ℕ))
    → AreTexts texts
    → AreIps (hop ∷ hops)
    → str_to_hops texts (hops_to_str texts (hop ∷ hops)) ≡ some (hop ∷ hops)
unfolding str_to_hops hops_to_str
str_to_hops-hops_to_str texts hop hops t i =
    ap (parse_all texts) (
      split-join bar (hop_to_str texts hop) (map (hop_to_str texts) hops)
        (hops_Free texts t (hop ∷ hops) i))
    ∙ all_read texts t (hop ∷ hops) i
