-- ===== src/Process/Tree/Addresses.antt =====
-- The addresses that a remote child is given (zprocess/process_tree.py, ProcessTree.subprocess).
use zprocess.Base.{
  ◌≡◌, refl, sym, true, false, Bool-cases, inl, inr, ◌⊎◌, Option, none, some, List, [], ◌∷◌, arith,
}
use mathlib.Core.Path.{subst}
use zprocess.Process.Events.{same}
use zprocess.Process.Tree.{
  Text, chars, Value, text, Error, Result, ok, err, ◌>>=◌, Info, lookup, ends_with, Names,
  gethostbyname, ProcessTree,
}
use zprocess.Process.Tree.Launch.{
  Ports, First, is_host, translate, translate_all, addressed, parentinfo, redirection, prepared,
  Launched, launch, subprocess,
}

-- The value of an entry that names a host is the name or the address of a host that is not the
-- loopback.
abbrev pub IsVisible : Names → Text → Value → Type 0
IsVisible names key value =
    is_host key value ≡ true
    → (ip : Text) × (gethostbyname names value ≡ ok ip) × (names.is_loopback ip ≡ false)

abbrev pub AllVisible : Names → Info → Type 0
AllVisible names [] = Unit
AllVisible names ((key, value) ∷ info) = IsVisible names key value × AllVisible names info

-- The external address is visible.
abbrev pub IsExternal : Names → Text → Type 0
IsExternal names external_ip =
    (ip : Text) × (gethostbyname names (text external_ip) ≡ ok ip) × (names.is_loopback ip ≡ false)

-- what holds of the value of a result, if there is one
abbrev pub Holds {ℓ} : {A : Type ℓ} → (A → Type 0) → Result A → Type 0
Holds P (err e) = Unit
Holds P (ok a) = P a

Result-cases {ℓ} :
    {A : Type ℓ} (r : Result A) → ((e : Error) × (r ≡ err e)) ⊎ ((a : A) × (r ≡ ok a))
Result-cases (err e) = inl (e, refl)
Result-cases (ok a) = inr (a, refl)

bind-Holds :
    {A B : Type 0} (P : B → Type 0) (r : Result A) (f : A → Result B)
    → ((a : A) → r ≡ ok a → Holds P (f a))
    → Holds P (r >>= f)
bind-Holds P (err e) f h = tt
bind-Holds P (ok a) f h = h a refl

translate-IsVisible :
    (names : Names) (external_ip key : Text) (value : Value)
    → IsExternal names external_ip
    → Holds (IsVisible names key) (translate names external_ip key value)
unfolding translate
translate-IsVisible names external_ip key value x = elim (Bool-cases (is_host key value)) [
  | inr h ↦ rw h λ h'. absurd (ground arith)
  | inl h ↦ rw h (
      bind-Holds (IsVisible names key) (gethostbyname names value) _ λ ip found.
        elim (Bool-cases (names.is_loopback ip)) [
          | inl loopback ↦ rw loopback λ h'. x
          | inr outside ↦ rw outside λ h'. (ip, found, outside)
        ])
]

translate_all-AllVisible :
    (names : Names) (external_ip : Text) (info : Info)
    → IsExternal names external_ip
    → Holds (AllVisible names) (translate_all names external_ip info)
unfolding translate_all
translate_all-AllVisible names external_ip [] x = tt
translate_all-AllVisible names external_ip ((key, value) ∷ info) x =
    bind-Holds (AllVisible names) (translate names external_ip key value) _ λ value' e.
      bind-Holds (AllVisible names) (translate_all names external_ip info) _ λ info' e'. (
        subst (Holds (IsVisible names key)) e (translate-IsVisible names external_ip key value x),
        subst (Holds (AllVisible names)) e' (translate_all-AllVisible names external_ip info x),
      )

-- The entries under a key that does not name a host are as before.
abbrev pub Keeps : Text → Info → Info → Type 0
Keeps key info info' = lookup key info' ≡ lookup key info

same-eq : (xs ys : Text) → same xs ys ≡ true → xs ≡ ys
same-eq [] [] h = refl
same-eq (x ∷ xs) (y ∷ ys) h = ground (arith, same-eq xs ys)
same-eq [] (y ∷ ys) h = absurd (ground arith)
same-eq (x ∷ xs) [] h = absurd (ground arith)

translate-other :
    (names : Names) (external_ip key : Text) (value : Value)
    → ends_with (chars "_host") key ≡ false
    → translate names external_ip key value ≡ ok value
unfolding translate
translate-other names external_ip key value h = rw h refl

translate_all-Keeps :
    (names : Names) (external_ip key : Text) (info : Info)
    → ends_with (chars "_host") key ≡ false
    → Holds (Keeps key info) (translate_all names external_ip info)
unfolding translate_all lookup
translate_all-Keeps names external_ip key [] h = refl
translate_all-Keeps names external_ip key ((k, value) ∷ info) h =
    bind-Holds (Keeps key ((k, value) ∷ info)) (translate names external_ip k value) _ λ value' e.
      bind-Holds (Keeps key ((k, value) ∷ info)) (translate_all names external_ip info) _
        λ info' e'. elim (Bool-cases (same k key)) [
          | inr other ↦
              rw other (
                subst (Holds (Keeps key info)) e'
                  (translate_all-Keeps names external_ip key info h))
          | inl found ↦
              let unchanged =
                translate-other names external_ip k value (
                  subst (λ x. ends_with (chars "_host") x ≡ false) (sym (same-eq k key found)) h) in
              ground arith
        ]

-- What is handed to a remote child that knows us by `external_ip`, if it is started: the entries that
-- name hosts are visible, and the others are those of the dictionary.
abbrev pub Handed : Names → Info → Option Launched → Type 0
Handed names info none = Unit
Handed names info (some child) =
    AllVisible names child.environment
    × ((key : Text)
        → ends_with (chars "_host") key ≡ false
        → lookup key child.environment ≡ lookup key info)

launch-Handed :
    (names : Names) (external_ip : Text) (info : Info) (command_line : List Text)
    (popen : Result (Unit {0})) (first : First) (tree : ProcessTree)
    → IsExternal names external_ip
    → Handed names info
        (launch command_line popen first tree (translate_all names external_ip info)).child
unfolding launch
launch-Handed names external_ip info command_line popen first tree x =
    elim (Result-cases (translate_all names external_ip info)) [
      | inl (e, h) ↦ rw h tt
      | inr (info', h) ↦ elim (Result-cases popen) [
        | inl (e, h') ↦ rw (h, h') tt
        | inr (u, h') ↦
            rw (h, h')
              (
                subst (Holds (AllVisible names)) h
                    (translate_all-AllVisible names external_ip info x),
                λ key other.
                    subst (Holds (Keeps key info)) h
                      (translate_all-Keeps names external_ip key info other),
              )
      ]
    ]

-- A remote child is told of no host by a name or address that means the loopback: provided that the
-- address by which the remote server knows us is not one, every host in the dictionary that it is
-- started with is looked up to an address outside, and every entry whose key does not end in '_host'
-- is the one that a local child would get.
pub subprocess-Handed :
    (names : Names) (ports : Ports) (external_ip : Text) (host port startup_timeout : Value)
    (command_line : List Text) (popen : Result (Unit {0})) (first : First) (tree : ProcessTree)
    → IsExternal names external_ip
    → let (output, tree') = redirection ports.receiver_port true host port (prepared ports tree) in
      Handed names
        (parentinfo ports output startup_timeout tree')
        (subprocess names ports
          (some (ok external_ip))
          (host, port)
          startup_timeout
          command_line
          popen
          first
          tree).child
unfolding subprocess addressed
subprocess-Handed names ports external_ip host port startup_timeout command_line popen first tree
      x =
    let out = redirection ports.receiver_port true host port (prepared ports tree) in
    launch-Handed names external_ip (parentinfo ports out.0 startup_timeout out.1) command_line
      popen first out.1 x
