-- ===== src/Zlock/Lock/Access.antt =====
-- What `acquire` returns, and whom it concerns (zprocess/zlock/server.py, Lock).
use zprocess.Base.{
  ℕ, ◌+◌, ◌≡◌, Bool, true, false, not, ◌&&◌, ◌||◌, is_empty, ◌==◌, if◌then◌else◌, arith,
  contains-add,
}
use zprocess.Zlock.Lock.Readers.{is_reader, level, is_reader-put, is_reader-is_empty}
use zprocess.Zlock.Lock.{
  Lock, Result, ok, err, already_waiting, invalid_reentry, no_writer, acquire, isheldby,
}
use zprocess.Zlock.Lock.Valid.{waits, IsValid}

-- What `acquire` returns, said without its bookkeeping: a holder may enter again, but not as a
-- writer if it is a reader; a newcomer gets the lock as a writer if nobody has it, and as a reader
-- if no writer has it or waits for it.
abbrev pub acquire_result : ℕ → Bool → Lock → Result Bool
acquire_result c read_only lock =
    if waits c lock
    then err already_waiting
    else (if is_reader c lock.readers && not read_only
        then err invalid_reentry
        else (if isheldby c lock
            then ok true
            else ok (
                no_writer lock
                && (if read_only then is_empty lock.waiting_writers else is_empty lock.readers))))

-- On a valid lock that has not been cleaned up `acquire` returns what `acquire_result` says.
pub acquire-result :
    (c : ℕ) (read_only : Bool) (lock : Lock)
    → IsValid lock
    → lock.invalid ≡ false
    → (acquire c read_only lock).1 ≡ acquire_result c read_only lock
unfolding acquire
acquire-result c read_only lock v usable =
    ground (arith, v.exclusive, v.apart c, is_reader-is_empty c lock.readers)

abbrev pub granted : Result Bool → Bool
granted (ok b) = b
granted (err e) = false

abbrev pub refused : Result Bool → Bool
refused (ok b) = not b
refused (err e) = false

-- On a valid lock `acquire` concerns only the caller of all clients: it holds the lock afterwards if it did before
-- or if the call returned True, and it waits if it did before or if the call returned False.
pub acquire_access :
    (c : ℕ) (read_only : Bool) (lock : Lock) (d : ℕ)
    → IsValid lock
    → let (lock', result) = acquire c read_only lock in
      (isheldby d lock' ≡ (isheldby d lock || ((d == c) && granted result)))
      × (waits d lock' ≡ (waits d lock || ((d == c) && refused result)))
unfolding acquire
acquire_access c read_only lock d v = ground (
  arith,
  v.exclusive,
  contains-add d c lock.waiting_readers,
  contains-add d c lock.waiting_writers,
  is_reader-put d c (level c lock.readers + 1) lock.readers,
)
