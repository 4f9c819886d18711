-- ===== src/Base/Dict.antt =====
-- Python's dicts with numbers as keys, as association lists in the order of their insertion.
use zprocess.Base.Lists.{contains}
use zprocess.Base.Tests.{◌==◌, if◌then◌else◌, Bool-cases}
use Prim.Native.Nat.{ℕ}
use mathlib.Core.Path.{◌≡◌, refl}
use mathlib.Core.Logic.{inl, inr}
use mathlib.Core.Bool.{Bool, true, false}
use mathlib.Core.Option.{Option, none, some}
use mathlib.Core.List.{List, [], ◌∷◌}
use native.Mathlib.Omega.{arith}

abbrev pub Dict {ℓ} : Type ℓ → Type ℓ
Dict A = List (ℕ × A)

abbrev pub is_some {ℓ} : {A : Type ℓ} → Option A → Bool
is_some none = false
is_some (some a) = true

-- No member occurs twice.
abbrev pub Unique : List ℕ → Type 0
Unique [] = Unit
Unique (x ∷ xs) = (contains x xs ≡ false) × Unique xs

module _ {ℓ} {A : Type ℓ} where
  unfoldable pub get : ℕ → Dict A → Option A
  get k [] = none
  get k ((j, a) ∷ d) = if j == k then some a else get k d

  -- `d[k] = a`
  unfoldable pub put : ℕ → A → Dict A → Dict A
  put k a [] = (k, a) ∷ []
  put k a ((j, b) ∷ d) = let rest = put k a d in if j == k then (j, a) ∷ d else (j, b) ∷ rest

  -- `del d[k]`, where `k` is a key
  unfoldable pub del : ℕ → Dict A → Dict A
  del k [] = []
  del k ((j, a) ∷ d) = let rest = del k d in if j == k then rest else (j, a) ∷ rest

  unfoldable pub keys : Dict A → List ℕ
  keys [] = []
  keys ((j, a) ∷ d) = j ∷ keys d

  pub get-put :
      (i k : ℕ) (a : A) (d : Dict A) → get i (put k a d) ≡ (if k == i then some a else get i d)
  unfolding get put
  get-put i k a [] = refl
  get-put i k a ((j, b) ∷ d) = ground (arith, get-put i k a d)

  pub get-del : (i k : ℕ) (d : Dict A) → get i (del k d) ≡ (if k == i then none else get i d)
  unfolding get del
  get-del i k [] = ground arith
  get-del i k ((j, b) ∷ d) = ground (arith, get-del i k d)

  pub contains-keys : (i : ℕ) (d : Dict A) → contains i (keys d) ≡ is_some (get i d)
  unfolding get keys contains
  contains-keys i [] = refl
  contains-keys i ((j, b) ∷ d) = ground (arith, contains-keys i d)

  contains-put :
      (i k : ℕ) (a : A) (d : Dict A)
      → contains i (keys (put k a d)) ≡ (if k == i then true else contains i (keys d))
  unfolding keys put contains
  contains-put i k a [] = ground arith
  contains-put i k a ((j, b) ∷ d) = ground (arith, contains-put i k a d)

  contains-del :
      (i k : ℕ) (d : Dict A)
      → contains i (keys (del k d)) ≡ (if k == i then false else contains i (keys d))
  unfolding keys del contains
  contains-del i k [] = ground arith
  contains-del i k ((j, b) ∷ d) = ground (arith, contains-del i k d)

  pub put-Unique : (k : ℕ) (a : A) (d : Dict A) → Unique (keys d) → Unique (keys (put k a d))
  unfolding keys put contains
  put-Unique k a [] u = (refl, tt)
  put-Unique k a ((j, b) ∷ d) u = elim (Bool-cases (j == k)) [
    | inl h ↦ ground arith
    | inr h ↦ ground (arith, contains-put j k a d, put-Unique k a d u.1)
  ]

  pub del-Unique : (k : ℕ) (d : Dict A) → Unique (keys d) → Unique (keys (del k d))
  unfolding keys del contains
  del-Unique k [] u = tt
  del-Unique k ((j, b) ∷ d) u = elim (Bool-cases (j == k)) [
    | inl h ↦ ground (arith, del-Unique k d u.1)
    | inr h ↦ ground (arith, contains-del j k d, del-Unique k d u.1)
  ]
