-- ===== src/Zlock/Lock/Examples.antt =====
-- The lock's theorems at a lock that client 1 has entered twice as a reader, for which client 2 waits
-- as a writer and client 3 as a reader.
use zprocess.Base.{
  ◌≡◌, refl, true, false, none, not, is_empty, List, [], ◌∷◌, ◌==◌, ◌&&◌, ◌||◌, contains, add,
  remove, arith,
}
use mathlib.Core.Path.{subst}
use zprocess.Zlock.Lock.{
  Lock, ok, SetPop, new_lock, acquire, release, give_up, isheldby, is_writer, no_writer,
}
use zprocess.Zlock.Lock.Readers.{put, is_reader, level, del}
use zprocess.Zlock.Lock.Valid.{waits, IsValid, new_lock-IsValid, acquire-IsValid}
use zprocess.Zlock.Lock.Access.{acquire_result, acquire-result, acquire_access, granted, refused}
use zprocess.Zlock.Lock.Release.{Released, release-Released, GaveUp, give_up-GaveUp}
use zprocess.Zlock.Lock.Order.{release-acquire}
use zprocess.Zlock.Lock.Reached.{Call, acquires, releases, gives_up, run, run-IsValid, run_excludes}

first_pop : SetPop
unfolding contains
first_pop = record { choose = λ w ws. w; is_member = λ w ws. ground arith }

abbrev busy_lock : Lock
busy_lock = record {
  waiting_readers = 3 ∷ [];
  waiting_writers = 2 ∷ [];
  readers = (1, 2) ∷ [];
  writer = none;
  writer_reentrancy_level = 0;
  invalid = false;
}

busy_lock-reached :
    (acquire 3 true (acquire 2 false (acquire 1 true (acquire 1 true new_lock).0).0).0).0
    ≡ busy_lock
unfolding acquire contains put is_reader add level
busy_lock-reached = refl

busy_lock-IsValid : IsValid busy_lock
busy_lock-IsValid = subst IsValid busy_lock-reached (
    acquire-IsValid 3 true _ (
      acquire-IsValid 2 false _
        (acquire-IsValid 1 true _ (acquire-IsValid 1 true _ new_lock-IsValid))))

-- The reader leaves for good: the writer gets the lock, and the other reader waits on.
handed_over : (release first_pop 1 true busy_lock).1 ≡ ok (2 ∷ [])
unfolding release first_pop is_reader level del
handed_over = refl

-- The writer gives up, and the reader behind it joins the other one.
joined : (give_up 2 busy_lock).1 ≡ ok (3 ∷ [])
unfolding give_up contains remove
joined = refl

acquire-result_example : (acquire 1 true busy_lock).1 ≡ acquire_result 1 true busy_lock
acquire-result_example = acquire-result 1 true busy_lock busy_lock-IsValid refl

acquire_access_example :
    let (lock', result) = acquire 1 true busy_lock in
    (isheldby 1 lock' ≡ (isheldby 1 busy_lock || ((1 == 1) && granted result)))
    × (waits 1 lock' ≡ (waits 1 busy_lock || ((1 == 1) && refused result)))
acquire_access_example = acquire_access 1 true busy_lock 1 busy_lock-IsValid

release-Released_example :
    Released first_pop 1 true busy_lock (release first_pop 1 true busy_lock) 2
release-Released_example = release-Released first_pop 1 true busy_lock 2 busy_lock-IsValid refl

give_up-GaveUp_example : GaveUp 2 busy_lock (give_up 2 busy_lock) 3
give_up-GaveUp_example = give_up-GaveUp 2 busy_lock 3 busy_lock-IsValid refl

entered : (acquire 1 true busy_lock).1 ≡ ok true
unfolding acquire contains is_reader
entered = refl

is_reader_1 : isheldby 1 busy_lock ≡ true
unfolding is_reader
is_reader_1 = refl

release-acquire_example :
    release first_pop 1 false (acquire 1 true busy_lock).0 ≡ (busy_lock, ok [])
release-acquire_example =
    release-acquire first_pop 1 true busy_lock busy_lock-IsValid refl is_reader_1 entered

-- the writer gives up, a new one comes, and the reader leaves
abbrev calls : List Call
calls = gives_up 2 ∷ acquires 4 false ∷ releases 1 true ∷ []

run-IsValid_example : IsValid (run first_pop calls busy_lock)
run-IsValid_example = run-IsValid first_pop calls busy_lock busy_lock-IsValid

abbrev early_calls : List Call
early_calls = acquires 1 false ∷ acquires 2 true ∷ releases 1 false ∷ acquires 3 true ∷ []

run_excludes_example :
    let lock = run first_pop early_calls new_lock in
    ((not (is_writer 2 lock) || (not (isheldby 3 lock) || (3 == 2))) ≡ true)
    × ((not (waits 2 lock) || (not (no_writer lock) || not (is_empty lock.readers))) ≡ true)
run_excludes_example = run_excludes first_pop early_calls 2 3
