-- ===== src/Zlock/Lock/Valid.antt =====
-- The invariant of a readers-writer lock, and `acquire` (zprocess/zlock/server.py, Lock).
use zprocess.Base.{
  ℕ, ◌+◌, ◌≤◌, ◌≡◌, refl, Bool, true, false, not, ◌&&◌, ◌||◌, contains, add, is_empty, ◌==◌,
  if◌then◌else◌, arith, contains-add, is_empty-add,
}
use zprocess.Zlock.Lock.Readers.{
  is_reader, level, bump, is_reader-put, level-put, is_reader-is_empty, is_empty-put,
}
use zprocess.Zlock.Lock.{
  Lock, Result, err, finally, runtime_error, new_lock, no_writer, is_writer, check_cleanup, acquire,
  try_acquire, acquire_writer, acquire_reader, isheldby, usable,
}

-- `client` waits for the lock, as a reader or as a writer.
abbrev pub waits : ℕ → Lock → Bool
waits client lock = contains client lock.waiting_readers || contains client lock.waiting_writers

-- What holds of each client: it does not hold the lock twice over, nor wait for what it has, nor
-- wait twice; and a reader's level is at least one.
abbrev pub IsApart : Lock → ℕ → Type 0
IsApart lock c =
    ((is_reader c lock.readers && waits c lock) ≡ false)
    × ((is_writer c lock && waits c lock) ≡ false)
    × ((contains c lock.waiting_readers && contains c lock.waiting_writers) ≡ false)
    × (is_reader c lock.readers ≡ true → 1 ≤ level c lock.readers)

pub record IsValid (lock : Lock) : Type 0 where
  -- a writer has the lock for itself
  pub exclusive : (no_writer lock || is_empty lock.readers) ≡ true
  -- the writer's level is zero exactly when there is none
  pub writing : (lock.writer_reentrancy_level == 0) ≡ no_writer lock
  pub apart : (c : ℕ) → IsApart lock c
  -- a writer waits only for a lock that is taken
  pub writers_wait :
      (is_empty lock.waiting_writers || (not (no_writer lock) || not (is_empty lock.readers)))
      ≡ true
  -- a reader waits only behind a writer, one that has the lock or one that waits for it
  pub readers_wait :
      (is_empty lock.waiting_readers
        || (not (no_writer lock) || not (is_empty lock.waiting_writers)))
      ≡ true

pub new_lock-IsValid : IsValid new_lock
unfolding is_reader level contains
new_lock-IsValid = record {
  exclusive = refl;
  writing = refl;
  apart = λ c. (refl, refl, refl, λ h. cc);
  writers_wait = refl;
  readers_wait = refl;
}

pub keep_IsValid : (b : Bool) (l m : Lock) → IsValid l → IsValid m → IsValid (if b then l else m)
keep_IsValid true l m v w = v
keep_IsValid false l m v w = w

with_invalid : (b : Bool) (lock : Lock) → IsValid lock → IsValid (record lock { invalid = b })
with_invalid b lock v = record {
  exclusive = v.exclusive;
  writing = v.writing;
  apart = v.apart;
  writers_wait = v.writers_wait;
  readers_wait = v.readers_wait;
}

check_cleanup-IsValid : (lock : Lock) → IsValid lock → IsValid (check_cleanup lock)
check_cleanup-IsValid lock v =
    keep_IsValid
      (is_empty lock.readers && (is_empty lock.waiting_readers && is_empty lock.waiting_writers))
      (if no_writer lock then record lock { invalid = true } else lock) lock
      (keep_IsValid (no_writer lock) (record lock { invalid = true }) lock
        (with_invalid true lock v) v)
      v

acquire_writer-IsValid :
    (c : ℕ) (lock : Lock) → waits c lock ≡ false → IsValid lock → IsValid (acquire_writer c lock).0
unfolding acquire_writer
acquire_writer-IsValid c lock w v = record {
  exclusive = ground (arith, v.exclusive);
  writing = ground (arith, v.writing);
  apart = λ d. ground (arith, v.apart d, contains-add d c lock.waiting_writers, v.exclusive);
  writers_wait = ground (arith, v.writers_wait);
  readers_wait = ground (arith, v.readers_wait, is_empty-add c lock.waiting_writers);
}

-- What a waiting reader or a reading client changes, and keeps.
wait_reader-IsValid :
    (c : ℕ) (lock : Lock)
    → waits c lock ≡ false
    → isheldby c lock ≡ false
    → (not (no_writer lock) || not (is_empty lock.waiting_writers)) ≡ true
    → IsValid lock
    → IsValid (record lock { waiting_readers = add c lock.waiting_readers })
wait_reader-IsValid c lock w n b v = record {
  exclusive = v.exclusive;
  writing = v.writing;
  apart = λ d. ground (arith, v.apart d, contains-add d c lock.waiting_readers);
  writers_wait = v.writers_wait;
  readers_wait = ground (arith, b);
}

bump-IsValid :
    (c : ℕ) (lock : Lock)
    → waits c lock ≡ false
    → no_writer lock ≡ true
    → (is_reader c lock.readers || is_empty lock.waiting_writers) ≡ true
    → IsValid lock
    → IsValid (record lock { readers = bump c lock.readers })
bump-IsValid c lock w n b v = record {
  exclusive = ground arith;
  writing = v.writing;
  apart = λ d. ground (
    arith,
    v.apart d,
    is_reader-put d c (level c lock.readers + 1) lock.readers,
    level-put d c (level c lock.readers + 1) lock.readers,
  );
  writers_wait = ground (arith, is_empty-put c (level c lock.readers + 1) lock.readers);
  readers_wait = v.readers_wait;
}

acquire_reader-IsValid :
    (c : ℕ) (lock : Lock)
    → waits c lock ≡ false
    → is_writer c lock ≡ false
    → IsValid lock
    → IsValid (acquire_reader c lock).0
unfolding acquire_reader
acquire_reader-IsValid c lock w n v = ground (
  arith,
  v.exclusive,
  is_reader-is_empty c lock.readers,
  wait_reader-IsValid c lock w,
  bump-IsValid c lock w,
)

try_acquire-IsValid :
    (c : ℕ) (read_only : Bool) (lock : Lock)
    → IsValid lock
    → IsValid (try_acquire c read_only lock).0
unfolding try_acquire
try_acquire-IsValid c read_only lock v =
    ground (arith, acquire_writer-IsValid c lock, acquire_reader-IsValid c lock)

-- A branch is valid if each side is where its test leads to it.
pub branch_IsValid {ℓ} :
    {A : Type ℓ} (b : Bool) (done other : Lock × Result A)
    → (b ≡ true → IsValid done.0)
    → (b ≡ false → IsValid other.0)
    → IsValid (if b then done else other).0
branch_IsValid true done other v w = v refl
branch_IsValid false done other v w = w refl

pub usable-IsValid {ℓ} :
    {A : Type ℓ} (lock : Lock) (done : Lock × Result A)
    → IsValid lock
    → IsValid done.0
    → IsValid (usable lock done).0
usable-IsValid lock done v w =
    branch_IsValid lock.invalid (lock, err runtime_error) (finally done) (λ _. v)
      (λ _. check_cleanup-IsValid done.0 w)

-- `acquire` keeps the invariant, whatever it returns or raises.
pub acquire-IsValid :
    (c : ℕ) (read_only : Bool) (lock : Lock) → IsValid lock → IsValid (acquire c read_only lock).0
unfolding acquire
acquire-IsValid c read_only lock v =
    usable-IsValid lock (try_acquire c read_only lock) v (try_acquire-IsValid c read_only lock v)
