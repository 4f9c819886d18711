-- ===== src/Socks/Text.antt =====
-- Routes as texts: str_to_hops and hops_to_str of zprocess/socks/__init__.py. A text is the list of its
-- characters' codes. What str, int and the ipaddress library make of numbers and addresses is a
-- parameter, the record Texts, in which none stands for a ValueError.
pub mod Routes
use zprocess.Base.{
  ℕ, Bool, true, false, ◌&&◌, Option, none, some, List, [], ◌∷◌, ◌++◌, map, ◌==◌, if◌then◌else◌,
}
use zprocess.Socks.Codec.{Ip, ipv4, ipv6}

-- `ip.compressed` and `ip_address(text)`, `str(n)` and `int(text)`
pub record Texts : Type 0 where
  pub compressed : Ip → List ℕ
  pub ip_address : List ℕ → Option Ip
  pub str : ℕ → List ℕ
  pub int : List ℕ → Option ℕ

-- the characters `|`, `:`, `[` and `]`
abbrev pub bar : ℕ
bar = 124

abbrev pub colon : ℕ
colon = 58

abbrev pub opening : ℕ
opening = 91

abbrev pub closing : ℕ
closing = 93

-- `text.split(c)`
abbrev pub cons_first : ℕ → List (List ℕ) → List (List ℕ)
cons_first x [] = (x ∷ []) ∷ []
cons_first x (piece ∷ pieces) = (x ∷ piece) ∷ pieces

unfoldable pub split : ℕ → List ℕ → List (List ℕ)
split c [] = [] ∷ []
split c (x ∷ xs) = let pieces = split c xs in if x == c then [] ∷ pieces else cons_first x pieces

-- `text.rsplit(c, 1)`; none where `c` is not there
unfoldable pub rsplit : ℕ → List ℕ → Option (List ℕ × List ℕ)
rsplit c [] = none
rsplit c (x ∷ xs) = elim (rsplit c xs) [
  | some (before, behind) ↦ some (x ∷ before, behind)
  | none ↦ if x == c then some ([], xs) else none
]

-- `c.join(pieces)`
unfoldable pub join : ℕ → List (List ℕ) → List ℕ
join c [] = []
join c (piece ∷ []) = piece
join c (piece ∷ next ∷ pieces) = piece ++ (c ∷ join c (next ∷ pieces))

abbrev pub ends_with : ℕ → List ℕ → Bool
ends_with c [] = false
ends_with c (x ∷ []) = x == c
ends_with c (x ∷ y ∷ xs) = ends_with c (y ∷ xs)

abbrev pub but_last : List ℕ → List ℕ
but_last [] = []
but_last (x ∷ []) = []
but_last (x ∷ y ∷ xs) = x ∷ but_last (y ∷ xs)

-- the host without its brackets
unfoldable pub without_brackets : List ℕ → List ℕ
without_brackets [] = []
without_brackets (x ∷ xs) =
    if x == opening && ends_with closing (x ∷ xs) then but_last xs else x ∷ xs

module _ (texts : Texts) where
  unfoldable pub hop_of : List ℕ × List ℕ → Option (Ip × ℕ)
  hop_of (host, port) = elim (texts.ip_address (without_brackets host)) [
    | none ↦ none
    | some ip ↦ elim (texts.int port) [ none ↦ none | some n ↦ some (ip, n) ]
  ]

  -- a turn of the loop of `str_to_hops`
  unfoldable pub str_to_hop : List ℕ → Option (Ip × ℕ)
  str_to_hop hop = elim (rsplit colon hop) [ none ↦ none | some parts ↦ hop_of parts ]

  unfoldable pub parse_all : List (List ℕ) → Option (List (Ip × ℕ))
  parse_all [] = some []
  parse_all (hop ∷ hops) = elim (str_to_hop hop) [
    | none ↦ none
    | some parsed ↦ elim (parse_all hops) [ none ↦ none | some rest ↦ some (parsed ∷ rest) ]
  ]

  -- `str_to_hops`
  unfoldable pub str_to_hops : List ℕ → Option (List (Ip × ℕ))
  str_to_hops endpoint = parse_all (split bar endpoint)

  abbrev pub bracketed : Ip → List ℕ
  bracketed (ipv4 bytes) = texts.compressed (ipv4 bytes)
  bracketed (ipv6 bytes) = opening ∷ (texts.compressed (ipv6 bytes) ++ (closing ∷ []))

  -- a turn of the loop of `hops_to_str`
  abbrev pub hop_to_str : Ip × ℕ → List ℕ
  hop_to_str (host, port) = bracketed host ++ (colon ∷ texts.str port)

  -- `hops_to_str`
  unfoldable pub hops_to_str : List (Ip × ℕ) → List ℕ
  hops_to_str hops = join bar (map hop_to_str hops)
