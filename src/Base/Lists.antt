-- ===== src/Base/Lists.antt =====
-- Lists over the native numbers: Python's lists by index, and its sets of numbers.
use Prim.Native.Nat.{ℕ, zero, suc, ◌+◌}
use mathlib.Core.Path.{◌≡◌, refl, ap}
use mathlib.Core.Bool.{Bool, true, false}
use mathlib.Core.List.{List, [], ◌∷◌, ◌++◌}
use mathlib.Core.Option.{Option, none, some}
use native.Mathlib.Omega.{arith}
use zprocess.Base.Tests.{◌==◌, if◌then◌else◌}

module _ {ℓ} {A : Type ℓ} where
  abbrev pub length : List A → ℕ
  length [] = 0
  length (x ∷ xs) = suc (length xs)

  abbrev pub get_elem? : List A → ℕ → Option A
  get_elem? [] i = none
  get_elem? (x ∷ xs) zero = some x
  get_elem? (x ∷ xs) (suc i) = get_elem? xs i

  -- `list.insert(i, x)`: past the end it appends.
  abbrev pub insert_at : ℕ → A → List A → List A
  insert_at zero a xs = a ∷ xs
  insert_at (suc i) a [] = a ∷ []
  insert_at (suc i) a (x ∷ xs) = x ∷ insert_at i a xs

  -- `xs[:n]` and `xs[n:]`
  unfoldable pub take : ℕ → List A → List A
  take zero xs = []
  take (suc n) [] = []
  take (suc n) (x ∷ xs) = x ∷ take n xs

  unfoldable pub drop : ℕ → List A → List A
  drop zero xs = xs
  drop (suc n) [] = []
  drop (suc n) (x ∷ xs) = drop n xs

  pub take-append : (xs ys : List A) → take (length xs) (xs ++ ys) ≡ xs
  unfolding take
  take-append [] ys = refl
  take-append (x ∷ xs) ys = ap (λ t. x ∷ t) (take-append xs ys)

  pub drop-append : (xs ys : List A) → drop (length xs) (xs ++ ys) ≡ ys
  unfolding drop
  drop-append [] ys = refl
  drop-append (x ∷ xs) ys = drop-append xs ys

  pub append_assoc : (xs ys zs : List A) → (xs ++ ys) ++ zs ≡ xs ++ (ys ++ zs)
  append_assoc [] ys zs = refl
  append_assoc (x ∷ xs) ys zs = ap (λ t. x ∷ t) (append_assoc xs ys zs)

  pub length-append : (xs ys : List A) → length (xs ++ ys) ≡ length xs + length ys
  length-append [] ys = omega arith
  length-append (x ∷ xs) ys = omega (arith, length-append xs ys)

-- Truth of a container: `if xs:`.
abbrev pub is_empty {ℓ} : {A : Type ℓ} → List A → Bool
is_empty [] = true
is_empty (x ∷ xs) = false

-- A Python set of numbers, as a list in which only membership counts.
unfoldable pub contains : ℕ → List ℕ → Bool
contains a [] = false
contains a (x ∷ xs) = if a == x then true else contains a xs

-- `s.add(a)`
unfoldable pub add : ℕ → List ℕ → List ℕ
unfolding contains
add a xs = if contains a xs then xs else a ∷ xs

-- `s.remove(a)`, where the caller has checked that `a` is a member
unfoldable pub remove : ℕ → List ℕ → List ℕ
remove a [] = []
remove a (x ∷ xs) = let rest = remove a xs in if a == x then rest else x ∷ rest

pub contains-add :
    (a b : ℕ) (xs : List ℕ) → contains a (add b xs) ≡ (if a == b then true else contains a xs)
unfolding contains add
contains-add a b xs = ground arith

pub contains-remove :
    (a b : ℕ) (xs : List ℕ) → contains a (remove b xs) ≡ (if a == b then false else contains a xs)
unfolding contains remove
contains-remove a b [] = ground arith
contains-remove a b (x ∷ xs) = ground (arith, contains-remove a b xs)

pub contains-is_empty : (a : ℕ) (xs : List ℕ) → contains a xs ≡ true → is_empty xs ≡ false
unfolding contains
contains-is_empty a [] h = ground arith
contains-is_empty a (x ∷ xs) h = refl

pub is_empty-add : (a : ℕ) (xs : List ℕ) → is_empty (add a xs) ≡ false
unfolding contains add
is_empty-add a [] = ground arith
is_empty-add a (x ∷ xs) = ground arith
