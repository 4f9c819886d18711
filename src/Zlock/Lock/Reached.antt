-- ===== src/Zlock/Lock/Reached.antt =====
-- Locks after any calls of any clients (zprocess/zlock/server.py, Lock).
use zprocess.Base.{
  ℕ, ◌≡◌, Bool, true, not, ◌||◌, List, [], ◌∷◌, ◌==◌, contains-is_empty, is_empty, arith,
}
use zprocess.Zlock.Lock.{
  Lock, SetPop, new_lock, no_writer, is_writer, isheldby, acquire, release, give_up,
}
use zprocess.Zlock.Lock.Readers.{is_reader-is_empty}
use zprocess.Zlock.Lock.Valid.{waits, IsValid, new_lock-IsValid, acquire-IsValid}
use zprocess.Zlock.Lock.Handover.{release-IsValid, give_up-IsValid}

-- A call of a client, with `read_only` and `fully` where the method takes them.
pub data Call : Type 0 where
  acquires releases : ℕ → Bool → Call
  gives_up : ℕ → Call

exclusive-writer :
    (c d : ℕ) (lock : Lock)
    → IsValid lock
    → (not (is_writer c lock) || (not (isheldby d lock) || (d == c))) ≡ true
exclusive-writer c d lock v = ground (arith, v.exclusive, is_reader-is_empty d lock.readers)

taken-waits :
    (c : ℕ) (lock : Lock)
    → IsValid lock
    → (not (waits c lock) || (not (no_writer lock) || not (is_empty lock.readers))) ≡ true
taken-waits c lock v = ground (
  arith,
  v.readers_wait,
  v.writers_wait,
  contains-is_empty c lock.waiting_readers,
  contains-is_empty c lock.waiting_writers,
)

module _ (pop : SetPop) where
  unfoldable pub call : Call → Lock → Lock
  call (acquires client read_only) lock = (acquire client read_only lock).0
  call (releases client fully) lock = (release pop client fully lock).0
  call (gives_up client) lock = (give_up client lock).0

  -- the calls in the order of the server; one that raises is an answer to its client
  unfoldable pub run : List Call → Lock → Lock
  run [] lock = lock
  run (c ∷ cs) lock = run cs (call c lock)

  call-IsValid : (c : Call) (lock : Lock) → IsValid lock → IsValid (call c lock)
  unfolding call
  call-IsValid (acquires client read_only) lock v = acquire-IsValid client read_only lock v
  call-IsValid (releases client fully) lock v = release-IsValid pop client fully lock v
  call-IsValid (gives_up client) lock v = give_up-IsValid client lock v

  -- Whatever calls clients make, in any order and with any outcome, they keep the lock's invariant.
  pub run-IsValid : (cs : List Call) (lock : Lock) → IsValid lock → IsValid (run cs lock)
  unfolding run
  run-IsValid [] lock v = v
  run-IsValid (c ∷ cs) lock v = run-IsValid cs (call c lock) (call-IsValid c lock v)

  -- After any calls on a new lock, for any two clients: if one of them has the lock as a writer, then
  -- the other has it only if it is the same client; and if one of them waits for the lock, then some client has it.
  pub run_excludes :
      (cs : List Call) (c d : ℕ)
      → let lock = run cs new_lock in
        ((not (is_writer c lock) || (not (isheldby d lock) || (d == c))) ≡ true)
        × ((not (waits c lock) || (not (no_writer lock) || not (is_empty lock.readers))) ≡ true)
  run_excludes cs c d =
      let lock = run cs new_lock in
      let v = run-IsValid cs new_lock new_lock-IsValid in
      (exclusive-writer c d lock v, taken-waits c lock v)
