-- ===== src/Zlock/Lock/Readers.antt =====
-- `Lock.readers`: a `defaultdict(int)` from client id to reentrancy level, as an association list.
use zprocess.Base.{
  ℕ, ◌+◌, ◌≤◌, ◌≡◌, Bool, true, false, ◌||◌, List, [], ◌∷◌, contains, is_empty, ◌==◌, if◌then◌else◌,
  arith,
}

abbrev pub Levels : Type 0
Levels = List (ℕ × ℕ)

-- `client_id in self.readers`
unfoldable pub is_reader : ℕ → Levels → Bool
is_reader c [] = false
is_reader c ((d, n) ∷ r) = if c == d then true else is_reader c r

-- `self.readers[client_id]`
unfoldable pub level : ℕ → Levels → ℕ
level c [] = 0
level c ((d, n) ∷ r) = if c == d then n else level c r

-- `del self.readers[client_id]`
unfoldable pub del : ℕ → Levels → Levels
del c [] = []
del c ((d, n) ∷ r) = let rest = del c r in if c == d then rest else (d, n) ∷ rest

-- `self.readers[client_id] = n`
unfoldable pub put : ℕ → ℕ → Levels → Levels
put c n [] = (c, n) ∷ []
put c n ((d, m) ∷ r) = if c == d then (c, n) ∷ r else (d, m) ∷ put c n r

-- `self.readers[client_id] += 1`
abbrev pub bump : ℕ → Levels → Levels
bump c r = put c (level c r + 1) r

-- `for client_id in clients: self.readers[client_id] += 1`
unfoldable pub bump_all : List ℕ → Levels → Levels
bump_all [] r = r
bump_all (c ∷ cs) r = bump_all cs (bump c r)

pub is_reader-put :
    (c d n : ℕ) (r : Levels) → is_reader c (put d n r) ≡ (if c == d then true else is_reader c r)
unfolding is_reader put
is_reader-put c d n [] = ground arith
is_reader-put c d n ((e, m) ∷ r) = ground (arith, is_reader-put c d n r)

pub level-put : (c d n : ℕ) (r : Levels) → level c (put d n r) ≡ (if c == d then n else level c r)
unfolding level put
level-put c d n [] = ground arith
level-put c d n ((e, m) ∷ r) = ground (arith, level-put c d n r)

pub is_reader-del :
    (c d : ℕ) (r : Levels) → is_reader c (del d r) ≡ (if c == d then false else is_reader c r)
unfolding is_reader del
is_reader-del c d [] = ground arith
is_reader-del c d ((e, m) ∷ r) = ground (arith, is_reader-del c d r)

pub level-del : (c d : ℕ) (r : Levels) → level c (del d r) ≡ (if c == d then 0 else level c r)
unfolding level del
level-del c d [] = ground arith
level-del c d ((e, m) ∷ r) = ground (arith, level-del c d r)

pub is_reader-bump_all :
    (c : ℕ) (cs : List ℕ) (r : Levels)
    → is_reader c (bump_all cs r) ≡ (contains c cs || is_reader c r)
unfolding bump_all contains
is_reader-bump_all c [] r = ground arith
is_reader-bump_all c (d ∷ cs) r =
    ground (arith, is_reader-bump_all c cs (bump d r), is_reader-put c d (level d r + 1) r)

pub level-bump_all_le : (c : ℕ) (cs : List ℕ) (r : Levels) → level c r ≤ level c (bump_all cs r)
unfolding bump_all
level-bump_all_le c [] r = omega arith
level-bump_all_le c (d ∷ cs) r =
    ground (arith, level-bump_all_le c cs (bump d r), level-put c d (level d r + 1) r)

pub level-bump_all_pos :
    (c : ℕ) (cs : List ℕ) (r : Levels) → contains c cs ≡ true → 1 ≤ level c (bump_all cs r)
unfolding bump_all contains
level-bump_all_pos c [] r h = absurd (ground arith)
level-bump_all_pos c (d ∷ cs) r h = ground (
  arith,
  level-bump_all_le c cs (bump d r),
  level-bump_all_pos c cs (bump d r),
  level-put c d (level d r + 1) r,
)

pub is_reader-is_empty : (c : ℕ) (r : Levels) → is_reader c r ≡ true → is_empty r ≡ false
unfolding is_reader
is_reader-is_empty c [] h = ground arith
is_reader-is_empty c (e ∷ r) h = ground arith

pub is_empty-put : (c n : ℕ) (r : Levels) → is_empty (put c n r) ≡ false
unfolding put
is_empty-put c n [] = ground arith
is_empty-put c n ((d, m) ∷ r) = ground arith
