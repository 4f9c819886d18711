-- ===== src/Zlock/Lock/Order.antt =====
-- Re-entry to a lock and its end (zprocess/zlock/server.py, Lock).
use zprocess.Base.{ℕ, ◌+◌, ◌-◌, ◌≡◌, Bool, true, false, [], ◌∷◌, arith, inl, inr, Bool-cases}
use zprocess.Zlock.Lock.Readers.{
  Levels, is_reader, level, put, bump, is_reader-put, level-put, is_reader-is_empty, is_empty-put,
}
use zprocess.Zlock.Lock.{Lock, ok, SetPop, is_writer, acquire, isheldby, release}
use zprocess.Zlock.Lock.Valid.{IsValid}

put-put : (c m n : ℕ) (r : Levels) → put c n (put c m r) ≡ put c n r
unfolding put
put-put c m n [] = ground arith
put-put c m n ((d, k) ∷ r) = ground (arith, put-put c m n r)

put-level : (c : ℕ) (r : Levels) → is_reader c r ≡ true → put c (level c r) r ≡ r
unfolding put level is_reader
put-level c [] h = ground arith
put-level c ((d, k) ∷ r) h = ground (arith, put-level c r)

put-bump : (c : ℕ) (r : Levels) → is_reader c r ≡ true → put c (level c r + 1 - 1) (bump c r) ≡ r
put-bump c r h = ground (arith, put-put c (level c r + 1) (level c r) r, put-level c r h)

acquire_again_reader :
    (c : ℕ) (read_only : Bool) (lock : Lock)
    → IsValid lock
    → lock.invalid ≡ false
    → is_reader c lock.readers ≡ true
    → (acquire c read_only lock).1 ≡ ok true
    → (acquire c read_only lock).0 ≡ record lock { readers = bump c lock.readers }
unfolding acquire
acquire_again_reader c read_only lock v u h e = ground (
  arith,
  v.exclusive,
  is_reader-is_empty c lock.readers,
  is_empty-put c (level c lock.readers + 1) lock.readers,
)

acquire_again_writer :
    (c : ℕ) (read_only : Bool) (lock : Lock)
    → IsValid lock
    → lock.invalid ≡ false
    → is_writer c lock ≡ true
    → (acquire c read_only lock).1 ≡ ok true
    → (acquire c read_only lock).0
      ≡ record lock { writer_reentrancy_level = lock.writer_reentrancy_level + 1 }
unfolding acquire
acquire_again_writer c read_only lock v u h e = ground (arith, v.exclusive)

release_again_reader :
    (pop : SetPop) (c : ℕ) (lock : Lock)
    → IsValid lock
    → lock.invalid ≡ false
    → is_reader c lock.readers ≡ true
    → release pop c false (record lock { readers = bump c lock.readers }) ≡ (lock, ok [])
unfolding release
release_again_reader pop c lock v u h = ground (
  arith,
  v.apart c,
  is_reader-is_empty c lock.readers,
  is_reader-put c c (level c lock.readers + 1) lock.readers,
  level-put c c (level c lock.readers + 1) lock.readers,
  put-bump c lock.readers,
)

release_again_writer :
    (pop : SetPop) (c : ℕ) (lock : Lock)
    → IsValid lock
    → lock.invalid ≡ false
    → is_writer c lock ≡ true
    → release pop c false
        (record lock { writer_reentrancy_level = lock.writer_reentrancy_level + 1 })
      ≡ (lock, ok [])
unfolding release
release_again_writer pop c lock v u h =
    ground (arith, v.exclusive, v.writing, is_reader-is_empty c lock.readers)

-- On a valid lock that has not been cleaned up, a holder that enters the lock again, in a way that is allowed, and then releases it once leaves
-- the lock exactly as it was, and nobody gets it meanwhile.
pub release-acquire :
    (pop : SetPop) (c : ℕ) (read_only : Bool) (lock : Lock)
    → IsValid lock
    → lock.invalid ≡ false
    → isheldby c lock ≡ true
    → (acquire c read_only lock).1 ≡ ok true
    → release pop c false (acquire c read_only lock).0 ≡ (lock, ok [])
release-acquire pop c read_only lock v u h e = elim (Bool-cases (is_reader c lock.readers)) [
  | inl r ↦
      rw (acquire_again_reader c read_only lock v u r e) (release_again_reader pop c lock v u r)
  | inr n ↦
      let w : is_writer c lock ≡ true = ground arith in
      rw (acquire_again_writer c read_only lock v u w e) (release_again_writer pop c lock v u w)
]
