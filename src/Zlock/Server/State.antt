-- ===== src/Zlock/Server/State.antt =====
-- The state of the lock server: its locks, its requests, its tasks and the replies it has sent.
-- Keys, client ids, addresses and the frames of a message are numbers.
use zprocess.Base.{
  ℕ, suc, Bool, false, ◌&&◌, Option, none, some, List, [], ◌∷◌, ◌==◌, if◌then◌else◌,
}
use zprocess.Base.Float.{Float, finite, pos}
use zprocess.Tasks.{Task, new_task}
use zprocess.Tasks
use zprocess.Zlock.Lock.{Lock, new_lock}
use zprocess.Zlock.Lock

-- `rs`: the state of a lock request
pub data Phase : Type 0 where
  initial present_waiting absent_waiting absent_held held : Phase

-- The functions that the server's tasks call, bound to the request of a key and a client:
-- `advise_retry`, `give_up`, and `release` with `fully=True`.
pub data Callback : Type 0 where
  advise_retry_of give_up_of release_of : ℕ → ℕ → Callback

-- The replies, in the order of the constants of the file.
pub data Reply : Type 0 where
  ok retry hello protocol : Reply
  err_not_held err_invalid_reentry err_concurrent err_invalid_command : Reply
  err_wrong_num_args err_timeout_invalid err_read_only_wrong : Reply

pub record Request : Type 0 where
  pub routing_id : List ℕ
  pub timeout : Float
  pub read_only : Bool
  pub phase : Phase
  pub advise_retry_task : Option (Task Callback)
  pub give_up_task : Option (Task Callback)
  pub timeout_task : Option (Task Callback)
  pub ip : Option ℕ

-- `LockRequest.__init__`. Routing id, timeout and access are `None` there; nothing reads them before
-- `initial_acquisition` sets them, so they hold placeholders here.
abbrev pub new_request : Request
new_request = record {
  routing_id = [];
  timeout = finite (pos 0);
  read_only = false;
  phase = initial;
  advise_retry_task = none;
  give_up_task = none;
  timeout_task = none;
  ip = none;
}

-- `next_id` is the class attribute of Task; `sent` has the newest reply first.
pub record Server : Type 0 where
  pub tasks : List (Task Callback)
  pub next_id : ℕ
  pub active_locks : ℕ → Option Lock
  pub active_requests : ℕ → ℕ → Option Request
  pub sent : List (List ℕ × Reply)

-- `stale_request` is a method that runs on a request that is no longer in `active_requests`.
pub data Error : Type 0 where
  value_error assertion_error attribute_error stale_request : Error
  lock_error : Lock.Error → Error
  task_error : Tasks.Error → Error

pub data Outcome {ℓ} (A : Type ℓ) : Type ℓ where
  done : A → Outcome A
  raised : Error → Outcome A

-- What an exception left changed stays changed.
abbrev pub M : Type 0 → Type 0
M A = Server → Outcome A × Server

abbrev pub pure : {A : Type 0} → A → M A
pure a s = (done a, s)

abbrev pub raise : {A : Type 0} → Error → M A
raise e s = (raised e, s)

infixl 5 ◌>>=◌ ◌>>◌
abbrev pub ◌>>=◌ : {A B : Type 0} → M A → (A → M B) → M B
◌>>=◌ m f s =
    let (outcome, s') = m s in elim outcome [ done a ↦ f a s' | raised e ↦ (raised e, s') ]

abbrev pub ◌>>◌ : {A B : Type 0} → M A → M B → M B
m >> k = m >>= λ _. k

abbrev pub is_named : ℕ → ℕ → ℕ → ℕ → Bool
is_named key client k c = key == k && client == c

-- the request of a key and a client
unfoldable pub self : ℕ → ℕ → M Request
self key client s = elim (s.active_requests key client) [
  | none ↦ (raised stale_request, s)
  | some r ↦ (done r, s)
]

abbrev pub store : ℕ → ℕ → Option Request → Server → Server
store key client entry s = record s {
  active_requests = λ k c. if is_named key client k c then entry else s.active_requests k c;
}

unfoldable pub update_self : ℕ → ℕ → (Request → Request) → M (Unit {0})
update_self key client f s = elim (s.active_requests key client) [
  | none ↦ (raised stale_request, s)
  | some r ↦ (done tt, store key client (some (f r)) s)
]

-- `LockRequest.instance`
unfoldable pub request_instance : ℕ → ℕ → M (Unit {0})
request_instance key client s = elim (s.active_requests key client) [
  | none ↦ (done tt, store key client (some new_request) s)
  | some r ↦ (done tt, s)
]

-- `_cleanup`
unfoldable pub cleanup : ℕ → ℕ → M (Unit {0})
cleanup key client s = elim (s.active_requests key client) [
  | none ↦ (raised stale_request, s)
  | some r ↦ (done tt, store key client none s)
]

unfoldable pub send : List ℕ → Reply → M (Unit {0})
send routing_id reply s = (done tt, record s { sent = (routing_id, reply) ∷ s.sent })

-- `Lock.instance`: the lock of a key, or a new one
abbrev pub lock_of : ℕ → Server → Lock
lock_of key s = elim (s.active_locks key) [ none ↦ new_lock | some lock ↦ lock ]

unfoldable pub lock_at : ℕ → M Lock
lock_at key s = (done (lock_of key s), s)

abbrev pub from_lock {ℓ} : {A : Type ℓ} → Lock.Result A → Outcome A
from_lock (Lock.ok a) = done a
from_lock (Lock.err e) = raised (lock_error e)

-- the lock stays among the active ones unless the call has cleaned it up
abbrev pub keep_lock : ℕ → Lock → Server → Server
keep_lock key lock s = record s {
  active_locks =
      λ k. if key == k then (if lock.invalid then none else some lock) else s.active_locks k;
}

-- a method of the lock of a key, with what `_check_cleanup` does to `active_locks`
unfoldable pub with_lock : {A : Type 0} → ℕ → (Lock → Lock × Lock.Result A) → M A
with_lock key method s =
    let (lock, result) = method (lock_of key s) in (from_lock result, keep_lock key lock s)

-- `Task(interval, func)` and `tasks.add`
unfoldable pub schedule : Float → Float → Callback → M (Task Callback)
schedule now interval func s =
    let task = new_task now s.next_id interval func in
    (done task, record s { tasks = Tasks.add task none s.tasks; next_id = suc s.next_id })

-- `tasks.cancel`; a queue never contains None
unfoldable pub cancel_task : Option (Task Callback) → M (Unit {0})
cancel_task none s = (raised value_error, s)
cancel_task (some task) s = elim (Tasks.cancel task s.tasks) [
  | Tasks.ok rest ↦ (done tt, record s { tasks = rest })
  | Tasks.err e ↦ (raised (task_error e), s)
]
