-- ===== src/Base/Float.antt =====
-- Floating-point seconds, as the servers use them: sums and comparisons of times.
-- A finite float is an integer in a fixed small unit, and rounding is left out.
use mathlib.Core.Bool.{Bool, true, false}
use mathlib.Core.Path.{◌≡◌}
use Prim.Native.Nat.{ℕ, suc, ◌+◌, ◌-◌}
use native.Mathlib.Omega.{arith}
use zprocess.Base.Tests.{ltb, leb, if◌then◌else◌}

-- `negsuc n` is -(n + 1).
pub data ℤ : Type 0 where
  pos : ℕ → ℤ
  negsuc : ℕ → ℤ

abbrev pub pos_part : ℤ → ℕ
pos_part (pos n) = n
pos_part (negsuc n) = 0

abbrev pub neg_part : ℤ → ℕ
neg_part (pos n) = 0
neg_part (negsuc n) = suc n

-- a - b, as an integer.
abbrev pub sub_ℕ : ℕ → ℕ → ℤ
sub_ℕ a b = if leb b a then pos (a - b) else negsuc (b - a - 1)

infixl 65 ◌+ℤ◌
unfoldable pub ◌+ℤ◌ : ℤ → ℤ → ℤ
a +ℤ b = sub_ℕ (pos_part a + pos_part b) (neg_part a + neg_part b)

abbrev pub ltb_ℤ : ℤ → ℤ → Bool
ltb_ℤ a b = ltb (pos_part a + neg_part b) (pos_part b + neg_part a)

pub data Float : Type 0 where
  finite : ℤ → Float
  inf neg_inf nan : Float

-- `a < b`; false as soon as one of them is not a number
abbrev pub ltb_float : Float → Float → Bool
ltb_float (finite a) (finite b) = ltb_ℤ a b
ltb_float (finite a) inf = true
ltb_float neg_inf (finite b) = true
ltb_float neg_inf inf = true
ltb_float _ _ = false

-- `a + b`
unfoldable pub add_float : Float → Float → Float
unfolding ◌+ℤ◌
add_float (finite a) (finite b) = finite (a +ℤ b)
add_float (finite a) y = y
add_float inf (finite b) = inf
add_float inf inf = inf
add_float inf neg_inf = nan
add_float neg_inf (finite b) = neg_inf
add_float neg_inf neg_inf = neg_inf
add_float neg_inf inf = nan
add_float _ nan = nan
add_float nan _ = nan

-- `-a`
unfoldable pub neg_float : Float → Float
neg_float (finite (pos n)) = finite (sub_ℕ 0 n)
neg_float (finite (negsuc n)) = finite (pos (suc n))
neg_float inf = neg_inf
neg_float neg_inf = inf
neg_float nan = nan

-- `max(a, b)`: the first, unless the second is greater
abbrev pub max_float : Float → Float → Float
max_float a b = if ltb_float a b then b else a

abbrev pub is_nan : Float → Bool
is_nan nan = true
is_nan _ = false

-- Among numbers, "not less" is transitive.
pub ltb_float_trans :
    (a b c : Float)
    → is_nan b ≡ false
    → ltb_float b a ≡ false
    → ltb_float c b ≡ false
    → ltb_float c a ≡ false
ltb_float_trans (finite a) (finite b) (finite c) n h k = ground arith
ltb_float_trans a b c n h k = ground arith

pub ltb_float-of_le :
    (a b c : Float)
    → is_nan b ≡ false
    → ltb_float a c ≡ true
    → ltb_float a b ≡ false
    → ltb_float b c ≡ true
ltb_float-of_le (finite a) (finite b) (finite c) n h k = ground arith
ltb_float-of_le a b c n h k = ground arith

pub ltb_float_asymm : (a b : Float) → ltb_float a b ≡ true → ltb_float b a ≡ false
ltb_float_asymm (finite a) (finite b) h = ground arith
ltb_float_asymm a b h = ground arith
