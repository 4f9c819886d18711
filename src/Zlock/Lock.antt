-- ===== src/Zlock/Lock.antt =====
-- class Lock of zprocess/zlock/server.py: a reentrant readers-writer lock.
-- A client id is a byte string that the code only compares, so it is a number. The fields `key` and
-- `server` serve only to delete the lock from the server's dictionary; `Zlock.Server` does that
-- whenever a call has set `invalid`. A set is a list in which only membership counts.
pub mod Readers
pub mod Valid
pub mod Handover
pub mod Order
pub mod Access
pub mod Release
pub mod Reached
mod Examples
use zprocess.Base.{
  ℕ, ◌+◌, ◌-◌, ◌≡◌, Bool, true, false, not, ◌&&◌, ◌||◌, Option, none, some, List, [], ◌∷◌, contains,
  add, remove, is_empty, ◌==◌, if◌then◌else◌,
}
use Readers.{Levels, is_reader, level, put, bump, bump_all, del}

pub record Lock : Type 0 where
  pub waiting_readers : List ℕ
  pub waiting_writers : List ℕ
  pub readers : Levels
  pub writer : Option ℕ
  pub writer_reentrancy_level : ℕ
  pub invalid : Bool

-- AlreadyWaiting, InvalidReentry, NotHeld, NotWaiting, and the RuntimeError of `_invalid`
pub data Error : Type 0 where
  already_waiting invalid_reentry not_held not_waiting runtime_error : Error

pub data Result {ℓ} (A : Type ℓ) : Type ℓ where
  ok : A → Result A
  err : Error → Result A

-- `set.pop()` takes an arbitrary member: of the set `w ∷ ws` the one that `choose` names.
pub record SetPop : Type 0 where
  pub choose : ℕ → List ℕ → ℕ
  pub is_member : (w : ℕ) (ws : List ℕ) → contains (choose w ws) (w ∷ ws) ≡ true

-- `Lock.__init__`
abbrev pub new_lock : Lock
new_lock = record {
  waiting_readers = [];
  waiting_writers = [];
  readers = [];
  writer = none;
  writer_reentrancy_level = 0;
  invalid = false;
}

-- `self.writer is None`
abbrev pub no_writer : Lock → Bool
no_writer lock = elim lock.writer [ none ↦ true | some w ↦ false ]

-- `self.writer == client_id`
abbrev pub is_writer : ℕ → Lock → Bool
is_writer client lock = elim lock.writer [ none ↦ false | some w ↦ w == client ]

-- `_check_cleanup`
abbrev pub check_cleanup : Lock → Lock
check_cleanup lock =
    if is_empty lock.readers && (is_empty lock.waiting_readers && is_empty lock.waiting_writers)
    then (if no_writer lock then record lock { invalid = true } else lock)
    else lock

-- the `finally` clause of each method
abbrev pub finally {ℓ} : {A : Type ℓ} → Lock × Result A → Lock × Result A
finally (lock, result) = (check_cleanup lock, result)

-- A call on a lock whose clients have all gone raises.
abbrev pub usable {ℓ} : {A : Type ℓ} → Lock → Lock × Result A → Lock × Result A
usable lock done = if lock.invalid then (lock, err runtime_error) else finally done

acquire_writer : ℕ → Lock → Lock × Result Bool
acquire_writer client lock =
    if is_reader client lock.readers
    then (lock, err invalid_reentry)
    else (if (no_writer lock || is_writer client lock) && is_empty lock.readers
        then (
          record lock {
            writer = some client;
            writer_reentrancy_level = lock.writer_reentrancy_level + 1;
          },
          ok true,
        )
        else (record lock { waiting_writers = add client lock.waiting_writers }, ok false))

acquire_reader : ℕ → Lock → Lock × Result Bool
acquire_reader client lock =
    if not (no_writer lock) && not (is_writer client lock)
    then (record lock { waiting_readers = add client lock.waiting_readers }, ok false)
    else (if not (is_empty lock.waiting_writers)
        then (if is_reader client lock.readers
            then (record lock { readers = bump client lock.readers }, ok true)
            else (record lock { waiting_readers = add client lock.waiting_readers }, ok false))
        else (record lock { readers = bump client lock.readers }, ok true))

-- the `try` block of `acquire`
try_acquire : ℕ → Bool → Lock → Lock × Result Bool
try_acquire client read_only lock =
    if contains client lock.waiting_readers || contains client lock.waiting_writers
    then (lock, err already_waiting)
    else (if not read_only || is_writer client lock
        then acquire_writer client lock
        else acquire_reader client lock)

unfoldable pub acquire : ℕ → Bool → Lock → Lock × Result Bool
unfolding try_acquire acquire_writer acquire_reader
acquire client read_only lock = usable lock (try_acquire client read_only lock)

-- the waiting readers get the lock
abbrev pub grant_readers : Lock → Lock × Result (List ℕ)
grant_readers lock = (
  record lock { readers = bump_all lock.waiting_readers lock.readers; waiting_readers = [] },
  ok lock.waiting_readers,
)

-- `Lock.isheldby`
abbrev pub isheldby : ℕ → Lock → Bool
isheldby client lock = is_reader client lock.readers || is_writer client lock

module _ (pop : SetPop) where
  -- one of the waiting writers gets the lock
  abbrev pub grant_writer : Lock → ℕ → List ℕ → Lock × Result (List ℕ)
  grant_writer lock w ws =
      let next = pop.choose w ws in
      (
        record lock {
          writer = some next;
          waiting_writers = remove next (w ∷ ws);
          writer_reentrancy_level = 1;
        },
        ok (next ∷ []),
      )

  -- a reader has gone: is the lock now available for one of these waiting writers?
  after_reader : List ℕ → Lock → Lock × Result (List ℕ)
  after_reader [] lock = (lock, ok [])
  after_reader (w ∷ ws) lock =
      if is_empty lock.readers then grant_writer lock w ws else (lock, ok [])

  -- the writer has gone: one of these waiting writers gets the lock, or else the waiting readers do
  after_writer : List ℕ → Lock → Lock × Result (List ℕ)
  after_writer [] lock = if is_empty lock.waiting_readers then (lock, ok []) else grant_readers lock
  after_writer (w ∷ ws) lock = grant_writer lock w ws

  release_reader : ℕ → Bool → Lock → Lock × Result (List ℕ)
  release_reader client fully lock =
      let n = level client lock.readers - 1 in
      after_reader lock.waiting_writers (record lock {
        readers = if n == 0 || fully then del client lock.readers else put client n lock.readers;
      })

  release_writer : Bool → Lock → Lock × Result (List ℕ)
  release_writer fully lock =
      let n = lock.writer_reentrancy_level - 1 in
      if n == 0 || fully
      then after_writer lock.waiting_writers
          (record lock { writer = none; writer_reentrancy_level = 0 })
      else (record lock { writer_reentrancy_level = n }, ok [])

  -- the `try` block of `release`
  try_release : ℕ → Bool → Lock → Lock × Result (List ℕ)
  try_release client fully lock =
      if is_reader client lock.readers
      then release_reader client fully lock
      else (if is_writer client lock then release_writer fully lock else (lock, err not_held))

  unfoldable pub release : ℕ → Bool → Lock → Lock × Result (List ℕ)
  unfolding try_release release_reader release_writer after_reader after_writer
  release client fully lock = usable lock (try_release client fully lock)

give_up_writer : ℕ → Lock → Lock × Result (List ℕ)
give_up_writer client lock =
    let left = record lock { waiting_writers = remove client lock.waiting_writers } in
    if is_empty left.waiting_writers && no_writer left then grant_readers left else (left, ok [])

-- the `try` block of `give_up`
try_give_up : ℕ → Lock → Lock × Result (List ℕ)
try_give_up client lock =
    if contains client lock.waiting_readers
    then (record lock { waiting_readers = remove client lock.waiting_readers }, ok [])
    else (if contains client lock.waiting_writers
        then give_up_writer client lock
        else (lock, err not_waiting))

unfoldable pub give_up : ℕ → Lock → Lock × Result (List ℕ)
unfolding try_give_up give_up_writer
give_up client lock = usable lock (try_give_up client lock)
