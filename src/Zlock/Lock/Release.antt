-- ===== src/Zlock/Lock/Release.antt =====
-- Who gets a lock that comes free: `release` and `give_up`, client by client (zprocess/zlock/server.py,
-- Lock).
use zprocess.Base.{
  ℕ, ◌-◌, ◌≡◌, refl, Bool, true, false, not, ◌&&◌, ◌||◌, none, List, [], ◌∷◌, contains, remove,
  is_empty, leb, ◌==◌, if◌then◌else◌, arith, contains-remove, contains-is_empty,
}
use zprocess.Zlock.Lock.Readers.{
  is_reader, level, put, del, is_reader-put, level-put, is_reader-del, level-del,
  is_reader-bump_all, is_reader-is_empty,
}
use zprocess.Zlock.Lock.{
  Lock, Result, ok, err, not_held, not_waiting, SetPop, no_writer, is_writer, isheldby,
  after_reader, after_writer, release_reader, release_writer, try_release, release, give_up_writer,
  try_give_up, give_up, usable,
}
use zprocess.Zlock.Lock.Valid.{waits, IsApart, IsValid}

-- The clients that a call returns, which got the lock through it.
abbrev pub acquirers : Result (List ℕ) → List ℕ
acquirers (ok cs) = cs
acquirers (err e) = []

-- How a call that hands the lock over changes what holds of client `d`: the acquirers waited before,
-- and hold the lock and wait no more afterwards; nobody else starts or ceases to wait.
abbrev pub HandsOver : Lock → Lock × Result (List ℕ) → ℕ → Type 0
HandsOver lock (lock', result) d =
    ((contains d (acquirers result) && not (waits d lock)) ≡ false)
    × (waits d lock' ≡ (waits d lock && not (contains d (acquirers result))))
    × (isheldby d lock' ≡ (isheldby d lock || contains d (acquirers result)))
    × (is_writer d lock' ≡ (
        is_writer d lock || (contains d (acquirers result) && not (is_empty lock.waiting_writers))))

-- How often the client has entered the lock.
abbrev pub depth : ℕ → Lock → ℕ
depth c lock =
    if is_reader c lock.readers then level c lock.readers else lock.writer_reentrancy_level

-- A call of `release` that ends the client's hold: it asks for that, or it is at the last level.
abbrev pub is_last : ℕ → Bool → Lock → Bool
is_last c fully lock = fully || leb (depth c lock) 1

-- The clients that a lock comes to when a client frees it: one of the waiting writers, if there are
-- any; otherwise, if it was held for writing, all the waiting readers.
abbrev pub heirs : SetPop → Bool → List ℕ → List ℕ → List ℕ
heirs pop written [] readers = if written then readers else []
heirs pop written (w ∷ ws) readers = pop.choose w ws ∷ []

-- What `release` returns: an error to a client that does not have the lock; nobody, as long as the
-- client keeps the lock or others still read; and otherwise the heirs.
abbrev pub release_result : SetPop → ℕ → Bool → Lock → Result (List ℕ)
release_result pop c fully lock =
    if not (isheldby c lock)
    then err not_held
    else (if is_last c fully lock && is_empty (del c lock.readers)
        then ok (heirs pop (is_writer c lock) lock.waiting_writers lock.waiting_readers)
        else ok [])

-- How a call of `release` changes what holds of client `d`: the call returns what the description
-- says; those it returns waited before, and hold the lock and wait no more afterwards, for writing if
-- a writer waited; the caller loses the lock at its last level; for nobody else does anything change.
abbrev pub Released : SetPop → ℕ → Bool → Lock → Lock × Result (List ℕ) → ℕ → Type 0
Released pop c fully lock (lock', result) d =
    (result ≡ release_result pop c fully lock)
    × ((contains d (acquirers result) && not (waits d lock)) ≡ false)
    × (waits d lock' ≡ (waits d lock && not (contains d (acquirers result))))
    × (isheldby d lock' ≡ (
        (isheldby d lock && not ((d == c) && is_last c fully lock))
        || contains d (acquirers result)))
    × (is_writer d lock' ≡ (
        (is_writer d lock && not ((d == c) && is_last c fully lock))
        || (contains d (acquirers result) && not (is_empty lock.waiting_writers))))

is_empty-del : (c : ℕ) (rs : List (ℕ × ℕ)) → is_empty rs ≡ true → is_empty (del c rs) ≡ true
unfolding del
is_empty-del c [] e = refl
is_empty-del c (r ∷ rs) e = absurd (ground arith)

module _ (pop : SetPop) where
  after_reader-heirs :
      (ws : List ℕ) (lock : Lock)
      → (after_reader pop ws lock).1
        ≡ ok (if is_empty lock.readers then heirs pop false ws lock.waiting_readers else [])
  unfolding after_reader
  after_reader-heirs [] lock = ground arith
  after_reader-heirs (w ∷ ws) lock = ground arith

  after_writer-heirs :
      (ws : List ℕ) (lock : Lock)
      → (after_writer pop ws lock).1 ≡ ok (heirs pop true ws lock.waiting_readers)
  unfolding after_writer
  after_writer-heirs [] lock = ground arith
  after_writer-heirs (w ∷ ws) lock = refl

  after_reader-HandsOver :
      (ws : List ℕ) (lock : Lock) (d : ℕ)
      → lock.waiting_writers ≡ ws
      → no_writer lock ≡ true
      → IsApart lock d
      → HandsOver lock (after_reader pop ws lock) d
  unfolding after_reader contains
  after_reader-HandsOver [] lock d e n a = ground arith
  after_reader-HandsOver (w ∷ ws) lock d e n a = ground (
    arith,
    pop.is_member w ws,
    contains-remove d (pop.choose w ws) (w ∷ ws),
    is_reader-is_empty d lock.readers,
  )

  after_writer-HandsOver :
      (ws : List ℕ) (lock : Lock) (d : ℕ)
      → lock.waiting_writers ≡ ws
      → no_writer lock ≡ true
      → is_empty lock.readers ≡ true
      → IsApart lock d
      → HandsOver lock (after_writer pop ws lock) d
  unfolding after_writer contains
  after_writer-HandsOver [] lock d e n r a = ground (
    arith,
    is_reader-bump_all d lock.waiting_readers lock.readers,
    is_reader-is_empty d lock.readers,
  )
  after_writer-HandsOver (w ∷ ws) lock d e n r a = ground (
    arith,
    pop.is_member w ws,
    contains-remove d (pop.choose w ws) (w ∷ ws),
    is_reader-is_empty d lock.readers,
  )

  release_reader-Released :
      (c : ℕ) (fully : Bool) (lock : Lock) (d : ℕ)
      → is_reader c lock.readers ≡ true
      → IsValid lock
      → Released pop c fully lock (release_reader pop c fully lock) d
  unfolding release_reader
  release_reader-Released c fully lock d h v =
      let alone : no_writer lock ≡ true =
        ground (arith, v.exclusive, is_reader-is_empty c lock.readers) in
      let n = level c lock.readers - 1 in
      let left = record lock {
        readers = if n == 0 || fully then del c lock.readers else put c n lock.readers;
      } in
      let apart : IsApart left d = ground (
        arith,
        v.apart d,
        is_reader-put d c n lock.readers,
        level-put d c n lock.readers,
        is_reader-del d c lock.readers,
        level-del d c lock.readers,
      ) in
      ground (
        arith,
        v.apart c,
        v.apart d,
        is_reader-put d c n lock.readers,
        is_reader-del d c lock.readers,
        is_reader-put c c n lock.readers,
        is_reader-is_empty c lock.readers,
        is_reader-is_empty c left.readers,
        after_reader-heirs lock.waiting_writers left,
        after_reader-HandsOver lock.waiting_writers left d refl alone apart,
      )

  release_writer-Released :
      (c : ℕ) (fully : Bool) (lock : Lock) (d : ℕ)
      → is_reader c lock.readers ≡ false
      → is_writer c lock ≡ true
      → IsValid lock
      → Released pop c fully lock (release_writer pop fully lock) d
  unfolding release_writer contains
  release_writer-Released c fully lock d r h v =
      let left = record lock { writer = none; writer_reentrancy_level = 0 } in
      let apart : IsApart left d = ground (arith, v.apart d) in
      ground (
        arith,
        v.writing,
        v.exclusive,
        v.apart d,
        is_empty-del c lock.readers,
        after_writer-heirs lock.waiting_writers left,
        after_writer-HandsOver lock.waiting_writers left d refl refl (ground (arith, v.exclusive))
            apart,
      )

  try_release-Released :
      (c : ℕ) (fully : Bool) (lock : Lock) (d : ℕ)
      → IsValid lock
      → Released pop c fully lock (try_release pop c fully lock) d
  unfolding try_release contains
  try_release-Released c fully lock d v =
      ground (arith, release_reader-Released c fully lock d, release_writer-Released c fully lock d)

-- `usable` changes neither who holds a lock nor who waits for it, nor the result of the call.
usable_keeps {ℓ} :
    {A : Type ℓ} (lock : Lock) (done : Lock × Result A) (d : ℕ)
    → lock.invalid ≡ false
    → (waits d (usable lock done).0 ≡ waits d done.0)
      × (isheldby d (usable lock done).0 ≡ isheldby d done.0)
      × (is_writer d (usable lock done).0 ≡ is_writer d done.0)
      × ((usable lock done).1 ≡ done.1)
usable_keeps lock done d h = (ground arith, ground arith, ground arith, ground arith)

module _ (pop : SetPop) where
  release_lem :
      (c : ℕ) (fully : Bool) (lock : Lock)
      → release pop c fully lock ≡ usable lock (try_release pop c fully lock)
  unfolding release
  release_lem c fully lock = refl

  -- On a valid lock that has not been cleaned up, a release returns the clients that get the lock
  -- through it: if the caller leaves the lock, at its last level or because it asked for that, and no
  -- other client reads, one of the waiting writers, and if there is none and the caller was the writer
  -- all the waiting readers; otherwise nobody; and it raises if the caller does not have the lock. Those
  -- it returns waited for the lock, and they hold it and wait no more afterwards, for writing if a writer waited;
  -- a caller that leaves the lock holds it no more; and for any other client nothing changes.
  pub release-Released :
      (c : ℕ) (fully : Bool) (lock : Lock) (d : ℕ)
      → IsValid lock
      → lock.invalid ≡ false
      → Released pop c fully lock (release pop c fully lock) d
  release-Released c fully lock d v h = rw (release_lem c fully lock) (
      ground (
        arith,
        try_release-Released pop c fully lock d v,
        usable_keeps lock (try_release pop c fully lock) d h,
      ))

-- What `give_up` returns: an error to a client that does not wait; all the waiting readers, if the
-- client was the only waiting writer and nobody holds the lock for writing; and otherwise nobody.
abbrev pub give_up_result : ℕ → Lock → Result (List ℕ)
give_up_result c lock =
    if not (waits c lock)
    then err not_waiting
    else (if contains c lock.waiting_writers
          && (is_empty (remove c lock.waiting_writers) && no_writer lock)
        then ok lock.waiting_readers
        else ok [])

-- How a call of `give_up` changes what holds of client `d`.
abbrev pub GaveUp : ℕ → Lock → Lock × Result (List ℕ) → ℕ → Type 0
GaveUp c lock (lock', result) d =
    (result ≡ give_up_result c lock)
    × ((contains d (acquirers result) && not (waits d lock && not (d == c))) ≡ false)
    × (waits d lock' ≡ (waits d lock && not ((d == c) || contains d (acquirers result))))
    × (isheldby d lock' ≡ (isheldby d lock || contains d (acquirers result)))
    × (is_writer d lock' ≡ is_writer d lock)

give_up_writer-GaveUp :
    (c : ℕ) (lock : Lock) (d : ℕ)
    → contains c lock.waiting_writers ≡ true
    → IsValid lock
    → GaveUp c lock (give_up_writer c lock) d
unfolding give_up_writer contains
give_up_writer-GaveUp c lock d h v = ground (
  arith,
  v.apart c,
  v.apart d,
  contains-remove d c lock.waiting_writers,
  contains-is_empty d (remove c lock.waiting_writers),
  is_reader-bump_all d lock.waiting_readers lock.readers,
)

try_give_up-GaveUp :
    (c : ℕ) (lock : Lock) (d : ℕ) → IsValid lock → GaveUp c lock (try_give_up c lock) d
unfolding try_give_up contains
try_give_up-GaveUp c lock d v = ground (
  arith,
  v.apart c,
  v.apart d,
  contains-remove d c lock.waiting_readers,
  give_up_writer-GaveUp c lock d,
)

give_up_lem : (c : ℕ) (lock : Lock) → give_up c lock ≡ usable lock (try_give_up c lock)
unfolding give_up
give_up_lem c lock = refl

-- On a valid lock that has not been cleaned up, a client that gives up waits no more. If it was the
-- only waiting writer and nobody holds the lock for writing, the call returns all the waiting readers,
-- who hold the lock and wait no more afterwards; otherwise it returns nobody, and raises if the client
-- did not wait. For any other client nothing changes, and nobody gets the lock for writing.
pub give_up-GaveUp :
    (c : ℕ) (lock : Lock) (d : ℕ)
    → IsValid lock
    → lock.invalid ≡ false
    → GaveUp c lock (give_up c lock) d
give_up-GaveUp c lock d v h =
    rw (give_up_lem c lock)
      (ground (arith, try_give_up-GaveUp c lock d v, usable_keeps lock (try_give_up c lock) d h))
