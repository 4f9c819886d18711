-- ===== src/Zlock/Server.antt =====
-- zprocess/zlock/server.py: class LockRequest and class ZMQLockServer, whose state is in
-- `Server.State`. A method of LockRequest takes the key and the client id that name the request in
-- `active_requests`, and works on the request stored there. `now` is the clock's reading during one
-- event. The log file is left out.
pub mod State
pub mod Handlers
pub mod Requests
pub mod Retry
mod Examples
use zprocess.Base.{ℕ, Bool, true, false, not, Option, none, some, List, [], ◌∷◌, if◌then◌else◌}
use mathlib.Core.Bool.{xor}
use zprocess.Base.Float.{Float, finite, pos, add_float, ltb_float}
use zprocess.Tasks.{Task}
use zprocess.Zlock.Lock.{SetPop, Lock, isheldby, invalid_reentry}
use zprocess.Zlock.Lock
use State.{
  Phase, initial, present_waiting, absent_waiting, absent_held, held, Callback, advise_retry_of,
  give_up_of, release_of, Reply, Request, Server, Outcome, done, raised, Error, value_error,
  assertion_error, attribute_error, lock_error, M, pure, raise, ◌>>=◌, ◌>>◌, self, update_self,
  send, with_lock, lock_at, schedule, cancel_task, cleanup,
}

abbrev pub max_response_time : Float
max_response_time = finite (pos 1000)

abbrev pub max_absent_time : Float
max_absent_time = finite (pos 1000)

unfoldable pub set_phase : ℕ → ℕ → Phase → M (Unit {0})
set_phase key client phase = update_self key client λ r. record r { phase = phase }

module _ (now : Float) where
  unfoldable pub schedule_advise_retry : ℕ → ℕ → M (Unit {0})
  schedule_advise_retry key client = do
    task ← schedule now max_response_time (advise_retry_of key client)
    update_self key client λ r. record r { advise_retry_task = some task }

  unfoldable pub schedule_give_up : ℕ → ℕ → M (Unit {0})
  schedule_give_up key client = do
    task ← schedule now max_absent_time (give_up_of key client)
    update_self key client λ r. record r { give_up_task = some task }

  unfoldable pub schedule_timeout_release : ℕ → ℕ → Float → M (Unit {0})
  schedule_timeout_release key client timeout = do
    task ← schedule now timeout (release_of key client)
    update_self key client λ r. record r { timeout_task = some task }

  unfoldable pub cancel_advise_retry : ℕ → ℕ → M (Unit {0})
  cancel_advise_retry key client = do r ← self key client; cancel_task r.advise_retry_task

  unfoldable pub cancel_give_up : ℕ → ℕ → M (Unit {0})
  cancel_give_up key client = do r ← self key client; cancel_task r.give_up_task

  unfoldable pub cancel_timeout_release : ℕ → ℕ → M (Unit {0})
  cancel_timeout_release key client = do r ← self key client; cancel_task r.timeout_task

  -- `on_triggered_acquisition`, by the state of the request
  unfoldable pub triggered : Phase → ℕ → ℕ → Request → M (Unit {0})
  triggered present_waiting key client r = do
    send r.routing_id Reply.ok
    schedule_timeout_release key client r.timeout
    cancel_advise_retry key client
    set_phase key client held
  triggered absent_waiting key client r = do
    cancel_give_up key client
    schedule_timeout_release key client max_absent_time
    set_phase key client absent_held
  triggered phase key client r = raise value_error

  unfoldable pub on_triggered_acquisition : ℕ → ℕ → M (Unit {0})
  on_triggered_acquisition key client = do r ← self key client; triggered r.phase key client r

  -- the loop over the clients that got the lock
  unfoldable pub trigger_all : ℕ → List ℕ → M (Unit {0})
  trigger_all key [] = pure tt
  trigger_all key (client ∷ clients) = do
    on_triggered_acquisition key client
    trigger_all key clients

  -- the branches of `_initial_acquisition`
  unfoldable pub answer_first : Bool → ℕ → ℕ → List ℕ → ℕ → Float → M (Unit {0})
  answer_first true key client routing_id ip timeout = do
    send routing_id Reply.ok
    schedule_timeout_release key client timeout
    set_phase key client held
  answer_first false key client routing_id ip timeout = do
    schedule_advise_retry key client
    update_self key client λ r. record r { phase = present_waiting; ip = some ip }

  -- `_initial_acquisition`
  unfoldable pub initial_acquisition : ℕ → ℕ → List ℕ → ℕ → Float → Bool → M (Unit {0})
  initial_acquisition key client routing_id ip timeout read_only = do
    update_self key client
        λ r. record r { routing_id = routing_id; timeout = timeout; read_only = read_only }
    acquired ← with_lock key (Lock.acquire client read_only)
    answer_first acquired key client routing_id ip timeout

  -- `advise_retry`
  unfoldable pub advise_retry : ℕ → ℕ → M (Unit {0})
  advise_retry key client = do
    r ← self key client
    send r.routing_id Reply.retry
    update_self key client λ r'. record r' { ip = none }
    schedule_give_up key client
    set_phase key client absent_waiting

  -- `give_up`, where `cleanup_too` is its argument `cleanup`
  unfoldable pub give_up : ℕ → ℕ → Bool → M (Unit {0})
  give_up key client cleanup_too = do
    acquirers ← with_lock key (Lock.give_up client)
    trigger_all key acquirers
    if cleanup_too then cleanup key client else pure tt

  -- the rest of a re-entry that got the lock: the timeout is extended if it would end too soon
  unfoldable pub extend_timeout : ℕ → ℕ → Float → Option (Task Callback) → M (Unit {0})
  extend_timeout key client timeout none = raise attribute_error
  extend_timeout key client timeout (some task) =
      if ltb_float task.due_at (add_float now timeout)
      then cancel_timeout_release key client >> schedule_timeout_release key client timeout
      else pure tt

  -- the outcome of `lock.acquire` under `assert` and `except InvalidReentry`
  unfoldable pub reentered : ℕ → ℕ → List ℕ → Float → Outcome Bool → M (Unit {0})
  reentered key client routing_id timeout (done true) = do
    send routing_id Reply.ok
    r ← self key client
    extend_timeout key client timeout r.timeout_task
  reentered key client routing_id timeout (done false) = raise assertion_error
  reentered key client routing_id timeout (raised (lock_error invalid_reentry)) =
      send routing_id Reply.err_invalid_reentry
  reentered key client routing_id timeout (raised e) = raise e

  unfoldable pub reenter : ℕ → ℕ → List ℕ → Float → Bool → M (Unit {0})
  reenter key client routing_id timeout read_only s =
      let (outcome, s') = with_lock key (Lock.acquire client read_only) s in
      reentered key client routing_id timeout outcome s'

  -- the branches of a retry while the lock is not free: has the client changed its mind about
  -- whether it wants to read only?
  unfoldable pub retry_waiting : Bool → ℕ → ℕ → List ℕ → ℕ → Float → Bool → M (Unit {0})
  retry_waiting true key client routing_id ip timeout read_only = do
    give_up key client false
    initial_acquisition key client routing_id ip timeout read_only
  retry_waiting false key client routing_id ip timeout read_only = do
    update_self key client λ r. record r { timeout = timeout; routing_id = routing_id }
    schedule_advise_retry key client
    update_self key client λ r. record r { phase = present_waiting; ip = some ip }

  -- `acquire_request`, by the state of the request `r`
  unfoldable pub acquire_in : Phase → ℕ → ℕ → List ℕ → ℕ → Float → Bool → Request → M (Unit {0})
  acquire_in initial key client routing_id ip timeout read_only r =
      initial_acquisition key client routing_id ip timeout read_only
  acquire_in held key client routing_id ip timeout read_only r =
      reenter key client routing_id timeout read_only
  acquire_in absent_held key client routing_id ip timeout read_only r = do
    send routing_id Reply.ok
    cancel_timeout_release key client
    schedule_timeout_release key client timeout
    set_phase key client held
  acquire_in absent_waiting key client routing_id ip timeout read_only r = do
    cancel_give_up key client
    retry_waiting (xor read_only r.read_only) key client routing_id ip timeout read_only
  acquire_in present_waiting key client routing_id ip timeout read_only r =
      send routing_id Reply.err_concurrent

  -- `LockRequest.acquire_request`
  unfoldable pub acquire_request : ℕ → ℕ → List ℕ → ℕ → Float → Bool → M (Unit {0})
  acquire_request key client routing_id ip timeout read_only = do
    r ← self key client
    acquire_in r.phase key client routing_id ip timeout read_only r

  module _ (pop : SetPop) where
    -- `LockRequest.release`: whether the client still has the lock
    unfoldable pub release : ℕ → ℕ → Bool → M Bool
    release key client fully = do
      acquirers ← with_lock key (Lock.release pop client fully)
      trigger_all key acquirers
      lock ← lock_at key
      if isheldby client lock then pure true else (cleanup key client >> pure false)

    -- `release_request`, by the state of the request `r`
    unfoldable pub release_in : Phase → ℕ → ℕ → List ℕ → Request → M (Unit {0})
    release_in held key client routing_id r = do
      send routing_id Reply.ok
      still_held ← release key client false
      if still_held then pure tt else cancel_task r.timeout_task
    release_in absent_held key client routing_id r = do
      send routing_id Reply.err_not_held
      still_held ← release key client false
      cancel_task r.timeout_task
    release_in present_waiting key client routing_id r = send routing_id Reply.err_concurrent
    release_in initial key client routing_id r = send routing_id Reply.err_not_held
    release_in absent_waiting key client routing_id r = send routing_id Reply.err_not_held

    -- `LockRequest.release_request`
    unfoldable pub release_request : ℕ → ℕ → List ℕ → M (Unit {0})
    release_request key client routing_id = do
      r ← self key client
      release_in r.phase key client routing_id r

    -- a task's function
    unfoldable pub run_callback : Callback → M (Unit {0})
    run_callback (advise_retry_of key client) = advise_retry key client
    run_callback (give_up_of key client) = give_up key client true
    run_callback (release_of key client) = do still_held ← release key client true; pure tt
