-- ===== src/Zlock/Lock/Handover.antt =====
-- The invariant of a lock under `release` and `give_up` (zprocess/zlock/server.py, Lock).
use zprocess.Base.{
  ℕ, ◌-◌, ◌≡◌, refl, Bool, true, not, ◌&&◌, ◌||◌, none, List, [], ◌∷◌, contains, remove, is_empty,
  ◌==◌, if◌then◌else◌, arith, contains-remove, contains-is_empty,
}
use zprocess.Zlock.Lock.Readers.{
  is_reader, level, put, del, is_reader-put, level-put, is_reader-del, level-del,
  is_reader-bump_all, level-bump_all_le, level-bump_all_pos, is_reader-is_empty,
}
use zprocess.Zlock.Lock.{
  Lock, ok, err, not_waiting, SetPop, no_writer, is_writer, try_release, try_give_up, grant_readers,
  grant_writer, after_reader, after_writer, release_reader, release_writer, release, give_up_writer,
  give_up,
}
use zprocess.Zlock.Lock.Valid.{IsApart, IsValid, branch_IsValid, usable-IsValid}

-- The waiting readers get a lock that has no writer and for which no writer waits.
grant_readers-IsValid :
    (lock : Lock)
    → no_writer lock ≡ true
    → is_empty lock.waiting_writers ≡ true
    → (lock.writer_reentrancy_level == 0) ≡ true
    → ((c : ℕ) → IsApart lock c)
    → IsValid (grant_readers lock).0
unfolding contains
grant_readers-IsValid lock n e z a = record {
  exclusive = ground arith;
  writing = ground arith;
  apart = λ d. ground (
    arith,
    a d,
    contains-is_empty d lock.waiting_writers,
    is_reader-bump_all d lock.waiting_readers lock.readers,
    level-bump_all_pos d lock.waiting_readers lock.readers,
    level-bump_all_le d lock.waiting_readers lock.readers,
  );
  writers_wait = ground arith;
  readers_wait = refl;
}

module _ (pop : SetPop) where
  grant_writer-IsValid :
      (lock : Lock) (w : ℕ) (ws : List ℕ)
      → lock.waiting_writers ≡ w ∷ ws
      → is_empty lock.readers ≡ true
      → ((c : ℕ) → IsApart lock c)
      → IsValid (grant_writer pop lock w ws).0
  grant_writer-IsValid lock w ws e r a = record {
    exclusive = ground arith;
    writing = ground arith;
    apart = λ d. ground (
      arith,
      a d,
      pop.is_member w ws,
      contains-remove d (pop.choose w ws) (w ∷ ws),
      is_reader-is_empty d lock.readers,
    );
    writers_wait = ground arith;
    readers_wait = ground arith;
  }

  after_reader-IsValid :
      (ws : List ℕ) (lock : Lock)
      → lock.waiting_writers ≡ ws
      → no_writer lock ≡ true
      → (lock.writer_reentrancy_level == 0) ≡ true
      → (is_empty lock.waiting_readers || not (is_empty lock.waiting_writers)) ≡ true
      → ((c : ℕ) → IsApart lock c)
      → IsValid (after_reader pop ws lock).0
  unfolding after_reader
  after_reader-IsValid [] lock e n z b a = record {
    exclusive = ground arith;
    writing = ground arith;
    apart = a;
    writers_wait = ground arith;
    readers_wait = ground arith;
  }
  after_reader-IsValid (w ∷ ws) lock e n z b a =
      branch_IsValid (is_empty lock.readers) (grant_writer pop lock w ws) (lock, ok [])
        (λ free. grant_writer-IsValid lock w ws e free a)
        (λ taken. record {
          exclusive = ground arith;
          writing = ground arith;
          apart = a;
          writers_wait = ground arith;
          readers_wait = ground arith;
        })

  after_writer-IsValid :
      (ws : List ℕ) (lock : Lock)
      → lock.waiting_writers ≡ ws
      → no_writer lock ≡ true
      → is_empty lock.readers ≡ true
      → (lock.writer_reentrancy_level == 0) ≡ true
      → ((c : ℕ) → IsApart lock c)
      → IsValid (after_writer pop ws lock).0
  unfolding after_writer
  after_writer-IsValid [] lock e n r z a =
      branch_IsValid (is_empty lock.waiting_readers) (lock, ok []) (grant_readers lock)
        (λ nobody. record {
          exclusive = ground arith;
          writing = ground arith;
          apart = a;
          writers_wait = ground arith;
          readers_wait = ground arith;
        })
        (λ some_wait. grant_readers-IsValid lock n (ground arith) z a)
  after_writer-IsValid (w ∷ ws) lock e n r z a = grant_writer-IsValid lock w ws e r a

  release_reader-IsValid :
      (c : ℕ) (fully : Bool) (lock : Lock)
      → is_reader c lock.readers ≡ true
      → IsValid lock
      → IsValid (release_reader pop c fully lock).0
  unfolding release_reader
  release_reader-IsValid c fully lock h v =
      let alone : no_writer lock ≡ true =
        ground (arith, v.exclusive, is_reader-is_empty c lock.readers) in
      let n = level c lock.readers - 1 in
      after_reader-IsValid lock.waiting_writers
        (record lock {
          readers = if n == 0 || fully then del c lock.readers else put c n lock.readers;
        })
        refl alone (ground (arith, v.writing)) (ground (arith, v.readers_wait))
        (λ d. ground (
          arith,
          v.apart d,
          is_reader-put d c n lock.readers,
          level-put d c n lock.readers,
          is_reader-del d c lock.readers,
          level-del d c lock.readers,
        ))

  release_writer-IsValid :
      (c : ℕ) (fully : Bool) (lock : Lock)
      → is_writer c lock ≡ true
      → IsValid lock
      → IsValid (release_writer pop fully lock).0
  unfolding release_writer
  release_writer-IsValid c fully lock h v =
      let n = lock.writer_reentrancy_level - 1 in
      branch_IsValid (n == 0 || fully)
        (after_writer pop lock.waiting_writers
          (record lock { writer = none; writer_reentrancy_level = 0 }))
        (record lock { writer_reentrancy_level = n }, ok [])
        (λ free.
          after_writer-IsValid lock.waiting_writers
            (record lock { writer = none; writer_reentrancy_level = 0 }) refl refl
            (ground (arith, v.exclusive)) refl (λ d. ground (arith, v.apart d)))
        (λ kept. record {
          exclusive = v.exclusive;
          writing = ground (arith, v.writing);
          apart = v.apart;
          writers_wait = v.writers_wait;
          readers_wait = v.readers_wait;
        })

  try_release-IsValid :
      (c : ℕ) (fully : Bool) (lock : Lock) → IsValid lock → IsValid (try_release pop c fully lock).0
  unfolding try_release
  try_release-IsValid c fully lock v =
      ground (arith, release_reader-IsValid c fully lock, release_writer-IsValid c fully lock)

  -- `release` keeps the invariant, whatever it returns or raises.
  pub release-IsValid :
      (c : ℕ) (fully : Bool) (lock : Lock) → IsValid lock → IsValid (release pop c fully lock).0
  unfolding release
  release-IsValid c fully lock v =
      usable-IsValid lock (try_release pop c fully lock) v (try_release-IsValid c fully lock v)

leave-IsApart :
    (c d : ℕ) (lock : Lock)
    → IsApart lock d
    → IsApart (record lock { waiting_writers = remove c lock.waiting_writers }) d
leave-IsApart c d lock a = ground (arith, a, contains-remove d c lock.waiting_writers)

give_up_writer-IsValid :
    (c : ℕ) (lock : Lock)
    → contains c lock.waiting_writers ≡ true
    → IsValid lock
    → IsValid (give_up_writer c lock).0
unfolding give_up_writer
give_up_writer-IsValid c lock h v =
    let left = record lock { waiting_writers = remove c lock.waiting_writers } in
    let taken = contains-is_empty c lock.waiting_writers h in
    branch_IsValid (is_empty left.waiting_writers && no_writer left) (grant_readers left)
      (left, ok [])
      (λ free.
        grant_readers-IsValid left (ground arith) (ground arith) (ground (arith, v.writing))
          (λ d. leave-IsApart c d lock (v.apart d)))
      (λ blocked. record {
        exclusive = v.exclusive;
        writing = v.writing;
        apart = λ d. leave-IsApart c d lock (v.apart d);
        writers_wait = ground (arith, v.writers_wait);
        readers_wait = ground arith;
      })

try_give_up-IsValid : (c : ℕ) (lock : Lock) → IsValid lock → IsValid (try_give_up c lock).0
unfolding try_give_up
try_give_up-IsValid c lock v =
    let fewer = record lock { waiting_readers = remove c lock.waiting_readers } in
    branch_IsValid (contains c lock.waiting_readers) (fewer, ok [])
      (if contains c lock.waiting_writers then give_up_writer c lock else (lock, err not_waiting))
      (λ reads. record {
        exclusive = v.exclusive;
        writing = v.writing;
        apart = λ d. ground (arith, v.apart d, contains-remove d c lock.waiting_readers);
        writers_wait = v.writers_wait;
        readers_wait =
            ground (arith, v.readers_wait, contains-is_empty c lock.waiting_readers reads);
      })
      (λ _.
        branch_IsValid (contains c lock.waiting_writers) (give_up_writer c lock)
          (lock, err not_waiting) (λ h. give_up_writer-IsValid c lock h v) (λ _. v))

-- `give_up` keeps the invariant, whatever it returns or raises.
pub give_up-IsValid : (c : ℕ) (lock : Lock) → IsValid lock → IsValid (give_up c lock).0
unfolding give_up
give_up-IsValid c lock v = usable-IsValid lock (try_give_up c lock) v (try_give_up-IsValid c lock v)
