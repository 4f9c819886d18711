-- ===== src/Zlock/Server/Requests.antt =====
-- The first request of a client (zprocess/zlock/server.py, LockRequest._initial_acquisition).
use zprocess.Base.{
  ℕ, suc, ◌≡◌, refl, ap, ◌∙◌, Bool, true, false, Option, none, some, List, ◌∷◌, if◌then◌else◌,
  arith,
}
use mathlib.Core.Path.{subst, sym}
use zprocess.Base.Float.{Float}
use zprocess.Tasks
use zprocess.Tasks.{Task, new_task}
use zprocess.Zlock.Lock.{Lock, SetPop}
use zprocess.Zlock.Lock
use zprocess.Zlock.Server.State.{
  present_waiting, held, Callback, advise_retry_of, release_of, Reply, Request, new_request, Server,
  Outcome, done, raised, M, ◌>>=◌, ◌>>◌, self, store, update_self, send, schedule, with_lock,
  lock_of, keep_lock, from_lock, request_instance,
}
use zprocess.Zlock.Server
use zprocess.Zlock.Server.Handlers

-- The rest of a computation after a step that is done.
pub then_done :
    {A B : Type 0} (m : M A) (k : A → M B) (s s' : Server) (a : A)
    → m s ≡ (done a, s')
    → (m >>= k) s ≡ k a s'
then_done {B = B} m k s s' a h =
    ap
      (λ r. elim r.0 as (λ o. Outcome B × Server) [ done x ↦ k x r.1 | raised e ↦ (raised e, r.1) ])
      h

pub self_found :
    (key client : ℕ) (r : Request) (s : Server)
    → s.active_requests key client ≡ some r
    → self key client s ≡ (done r, s)
unfolding self
self_found key client r s h = ground arith

update_found :
    (key client : ℕ) (f : Request → Request) (r : Request) (s : Server)
    → s.active_requests key client ≡ some r
    → update_self key client f s ≡ (done tt, store key client (some (f r)) s)
unfolding update_self
update_found key client f r s h = ground arith

pub stored :
    (key client : ℕ) (e : Option Request) (s : Server)
    → (store key client e s).active_requests key client ≡ e
stored key client e s = ground arith

-- the server once it has sent a reply and scheduled a task
abbrev pub sent_to : List ℕ → Reply → Server → Server
sent_to routing_id reply s = record s { sent = (routing_id, reply) ∷ s.sent }

abbrev pub scheduled : Float → Float → Callback → Server → Server
scheduled now interval func s = record s {
  tasks = Tasks.add (new_task now s.next_id interval func) none s.tasks;
  next_id = suc s.next_id;
}

-- a request that holds the lock, with the task that takes it away; and one that waits, with the task
-- that tells it to retry
abbrev pub holding : Float → ℕ → ℕ → ℕ → Float → Request → Request
holding now key client next_id timeout r = record r {
  timeout_task = some (new_task now next_id timeout (release_of key client));
  phase = held;
}

abbrev pub waiting_at : Float → ℕ → ℕ → ℕ → ℕ → Request → Request
waiting_at now key client next_id ip r = record r {
  advise_retry_task =
      some (new_task now next_id Server.max_response_time (advise_retry_of key client));
  phase = present_waiting;
  ip = some ip;
}

pub schedule_release_found :
    (now : Float) (key client : ℕ) (timeout : Float) (r : Request) (s : Server)
    → s.active_requests key client ≡ some r
    → Server.schedule_timeout_release now key client timeout s ≡ (
      done tt,
      store key client
          (some (record r {
            timeout_task = some (new_task now s.next_id timeout (release_of key client));
          }))
          (scheduled now timeout (release_of key client) s),
    )
unfolding Server.schedule_timeout_release schedule
schedule_release_found now key client timeout r s h = update_found key client _ r _ h

schedule_retry_found :
    (now : Float) (key client : ℕ) (r : Request) (s : Server)
    → s.active_requests key client ≡ some r
    → Server.schedule_advise_retry now key client s ≡ (
      done tt,
      store key client
          (some (record r {
            advise_retry_task =
                some (new_task now s.next_id Server.max_response_time (advise_retry_of key client));
          }))
          (scheduled now Server.max_response_time (advise_retry_of key client) s),
    )
unfolding Server.schedule_advise_retry schedule
schedule_retry_found now key client r s h = update_found key client _ r _ h

pub update_after :
    (key client : ℕ) (m : M (Unit {0})) (f : Request → Request) (r : Request) (s s' : Server)
    → m s ≡ (done tt, store key client (some r) s')
    → (m >> update_self key client f) s
      ≡ (done tt, store key client (some (f r)) (store key client (some r) s'))
update_after key client m f r s s' h =
    then_done m (λ u. update_self key client f) s (store key client (some r) s') tt h
    ∙ update_found key client f r (store key client (some r) s') (stored key client (some r) s')

-- What the answer to a first request changes: the request, the replies and the tasks.
abbrev pub Answered :
    Float
    → Bool
    → ℕ
    → ℕ
    → List ℕ
    → ℕ
    → Float
    → Request
    → Server
    → Outcome (Unit {0}) × Server
    → Type 0
Answered now granted key client routing_id ip timeout r s (outcome, s') =
    (outcome ≡ done tt)
    × (s'.active_requests key client
        ≡ some (
            if granted
            then holding now key client s.next_id timeout r
            else waiting_at now key client s.next_id ip r))
    × (s'.sent ≡ (if granted then (routing_id, Reply.ok) ∷ s.sent else s.sent))
    × (s'.tasks
        ≡ Tasks.add
            (if granted
              then new_task now s.next_id timeout (release_of key client)
              else new_task now s.next_id Server.max_response_time (advise_retry_of key client))
            none s.tasks)
    × (s'.active_locks ≡ s.active_locks)

answer_first-Answered :
    (now : Float) (granted : Bool) (key client : ℕ) (routing_id : List ℕ) (ip : ℕ) (timeout : Float)
    (r : Request) (s : Server)
    → s.active_requests key client ≡ some r
    → Answered now granted key client routing_id ip timeout r s
        (Server.answer_first now granted key client routing_id ip timeout s)
unfolding Server.answer_first send Server.set_phase
answer_first-Answered now true key client routing_id ip timeout r s h =
    let task = new_task now s.next_id timeout (release_of key client) in
    let r' : Request = record r { timeout_task = some task } in
    let s' = scheduled now timeout (release_of key client) (sent_to routing_id Reply.ok s) in
    subst (Answered now true key client routing_id ip timeout r s)
      (sym (
        update_after key client (Server.schedule_timeout_release now key client timeout)
          (λ x. record x { phase = held }) r' (sent_to routing_id Reply.ok s) s'
          (schedule_release_found now key client timeout r (sent_to routing_id Reply.ok s) h)))
      (
        refl,
        stored key client (some (record r' { phase = held })) (store key client (some r') s'),
        refl,
        refl,
        refl,
      )
answer_first-Answered now false key client routing_id ip timeout r s h =
    let task = new_task now s.next_id Server.max_response_time (advise_retry_of key client) in
    let r' : Request = record r { advise_retry_task = some task } in
    let s' = scheduled now Server.max_response_time (advise_retry_of key client) s in
    subst (Answered now false key client routing_id ip timeout r s)
      (sym (
        update_after key client (Server.schedule_advise_retry now key client)
          (λ x. record x { phase = present_waiting; ip = some ip }) r' s s'
          (schedule_retry_found now key client r s h)))
      (
        refl,
        stored key client (some (record r' { phase = present_waiting; ip = some ip }))
            (store key client (some r') s'),
        refl,
        refl,
        refl,
      )

-- the first request of a client, as the server stores it
abbrev pub asked : List ℕ → Float → Bool → Request
asked routing_id timeout read_only = record new_request {
  routing_id = routing_id;
  timeout = timeout;
  read_only = read_only;
}

made :
    (key client : ℕ) (s : Server)
    → s.active_requests key client ≡ none
    → request_instance key client s ≡ (done tt, store key client (some new_request) s)
unfolding request_instance
made key client s h = ground arith

asks_lock :
    (key client : ℕ) (read_only granted : Bool) (lock : Lock) (s : Server)
    → Lock.acquire client read_only (lock_of key s) ≡ (lock, Lock.ok granted)
    → with_lock key (Lock.acquire client read_only) s ≡ (done granted, keep_lock key lock s)
unfolding with_lock
asks_lock key client read_only granted lock s h = ap (λ x. (from_lock x.1, keep_lock key x.0 s)) h

initial_acquisition-eq :
    (now : Float) (key client : ℕ) (routing_id : List ℕ) (ip : ℕ) (timeout : Float)
    (read_only granted : Bool) (lock : Lock) (r : Request) (s : Server)
    → s.active_requests key client ≡ some r
    → Lock.acquire client read_only (lock_of key s) ≡ (lock, Lock.ok granted)
    → let r' : Request = record r {
      routing_id = routing_id;
      timeout = timeout;
      read_only = read_only;
    } in
      Server.initial_acquisition now key client routing_id ip timeout read_only s
      ≡ Server.answer_first now granted key client routing_id ip timeout
          (keep_lock key lock (store key client (some r') s))
unfolding Server.initial_acquisition
initial_acquisition-eq now key client routing_id ip timeout read_only granted lock r s h e =
    let f = λ (x : Request). record x {
      routing_id = routing_id;
      timeout = timeout;
      read_only = read_only;
    } in
    let s' = store key client (some (f r)) s in
    let rest = λ (b : Bool). Server.answer_first now b key client routing_id ip timeout in
    then_done (update_self key client f)
      (λ u. with_lock key (Lock.acquire client read_only) >>= rest) s s' tt
      (update_found key client f r s h)
    ∙ then_done (with_lock key (Lock.acquire client read_only)) rest s' (keep_lock key lock s')
        granted (asks_lock key client read_only granted lock s' e)

-- The first request of a client for a lock is answered as the lock answers it. If the lock is granted,
-- the client is told so, its request holds the lock, and a task is scheduled that releases the lock
-- after the timeout; if not, nothing is sent yet, the request waits, and a task is scheduled that tells
-- the client to retry. The server keeps the lock that the attempt left, and no other lock changes.
pub first_request :
    (pop : SetPop) (parse_float : ℕ → Option Float) (now : Float) (routing_id : List ℕ)
    (ip key client : ℕ) (timeout : Float) (read_only granted : Bool) (lock : Lock) (s : Server)
    → s.active_requests key client ≡ none
    → Lock.acquire client read_only (lock_of key s) ≡ (lock, Lock.ok granted)
    → Answered now granted key client routing_id ip timeout
        (asked routing_id timeout read_only)
        (keep_lock key lock s)
        (Handlers.accept pop parse_float now routing_id ip key client timeout read_only s)
unfolding Handlers.accept Server.acquire_request Server.acquire_in
first_request pop parse_float now routing_id ip key client timeout read_only granted lock s h e =
    let s' = store key client (some new_request) s in
    let r = asked routing_id timeout read_only in
    let rest =
      λ (x : Request). Server.acquire_in now x.phase key client routing_id ip timeout read_only x in
    subst (Answered now granted key client routing_id ip timeout r (keep_lock key lock s))
      (sym (
        then_done (request_instance key client) (λ u. self key client >>= rest) s s' tt
          (made key client s h)
        ∙ then_done (self key client) rest s' s' new_request
            (self_found key client new_request s' (stored key client (some new_request) s))
        ∙ initial_acquisition-eq now key client routing_id ip timeout read_only granted lock
            new_request s' (stored key client (some new_request) s) e))
      (answer_first-Answered now granted key client routing_id ip timeout r
        (keep_lock key lock (store key client (some r) s')) (stored key client (some r) s'))
