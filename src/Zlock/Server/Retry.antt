-- ===== src/Zlock/Server/Retry.antt =====
-- A client that was given the lock while it was away, and asks again (zprocess/zlock/server.py,
-- LockRequest.acquire_request).
use mathlib.Core.Path.{subst, sym}
use zprocess.Base.{ℕ, ◌≡◌, refl, ap, ◌∙◌, Bool, none, some, List, ◌∷◌}
use zprocess.Base.Float.{Float}
use zprocess.Tasks
use zprocess.Tasks.{Task, new_task}
use zprocess.Tasks.Queued.{queued, IsClean, Without, cancel-Without}
use zprocess.Zlock.Server.State.{
  absent_held, held, Callback, release_of, Reply, Request, Server, Outcome, done, raised,
  task_error, ◌>>◌, self, store, send, cancel_task,
}
use zprocess.Zlock.Server
use zprocess.Zlock.Server.Requests.{
  then_done, self_found, stored, sent_to, scheduled, schedule_release_found, update_after, holding,
}

-- the request of a client that was given the lock while it was away
abbrev pub granted_in_absence : Task Callback → Request → Request
granted_in_absence task r = record r { phase = absent_held; timeout_task = some task }

-- the server with this queue of tasks
abbrev with_tasks : List (Task Callback) → Server → Server
with_tasks q s = record s { tasks = q }

cancel_release_found :
    (key client : ℕ) (task : Task Callback) (rest : List (Task Callback)) (r : Request) (s : Server)
    → s.active_requests key client ≡ some (granted_in_absence task r)
    → Tasks.cancel task s.tasks ≡ Tasks.ok rest
    → (now : Float) → Server.cancel_timeout_release now key client s ≡ (done tt, with_tasks rest s)
unfolding Server.cancel_timeout_release cancel_task
cancel_release_found key client task rest r s h e now =
    then_done (self key client) (λ x. cancel_task x.timeout_task) s s (granted_in_absence task r)
      (self_found key client (granted_in_absence task r) s h)
    ∙ ap
        (λ x. elim x as (λ y. Outcome (Unit {0}) × Server) [
          | Tasks.ok q ↦ (done tt, with_tasks q s)
          | Tasks.err x ↦ (raised (task_error x), s)
        ])
        e

-- A client that was given the lock while it was away, and whose release is still to come, is told
-- that it has the lock as soon as it asks again: its release is put off by the new timeout, and no
-- lock changes. The answer does not depend on whether it asks to read only, and what it was given may
-- be the other kind of access.
pub acquire_request_absent :
    (now : Float) (key client : ℕ) (routing_id : List ℕ) (ip : ℕ) (timeout : Float)
    (read_only : Bool) (task : Task Callback) (f : Callback) (r : Request) (s : Server)
    → s.active_requests key client ≡ some (granted_in_absence task r)
    → queued task.id s.tasks ≡ some f
    → IsClean s.tasks
    → let (outcome, s') = Server.acquire_request now key client routing_id ip timeout read_only s in
      (outcome ≡ done tt)
      × (s'.active_locks ≡ s.active_locks)
      × (s'.sent ≡ (routing_id, Reply.ok) ∷ s.sent)
      × (s'.active_requests key client ≡ some (holding now key client s.next_id timeout r))
      × ((rest : List (Task Callback)) × (Without task.id s.tasks rest)
          × (s'.tasks
              ≡ Tasks.add (new_task now s.next_id timeout (release_of key client)) none rest))
unfolding Server.acquire_request Server.acquire_in send Server.set_phase
acquire_request_absent now key client routing_id ip timeout read_only task f r s h q c =
    let (rest, e, w) = cancel-Without task f s.tasks q c in
    let r0 = granted_in_absence task r in
    let s1 = sent_to routing_id Reply.ok s in
    let s2 = with_tasks rest s1 in
    let r1 : Request = record r0 {
      timeout_task = some (new_task now s.next_id timeout (release_of key client));
    } in
    let s3 = scheduled now timeout (release_of key client) s2 in
    let finish =
      Server.schedule_timeout_release now key client timeout >> Server.set_phase key client held in
    subst
      (λ (x : Outcome (Unit {0}) × Server).
        (x.0 ≡ done tt)
        × (x.1.active_locks ≡ s.active_locks)
        × (x.1.sent ≡ (routing_id, Reply.ok) ∷ s.sent)
        × (x.1.active_requests key client ≡ some (holding now key client s.next_id timeout r))
        × ((rest : List (Task Callback)) × (Without task.id s.tasks rest)
            × (x.1.tasks
                ≡ Tasks.add (new_task now s.next_id timeout (release_of key client)) none rest)))
      (sym (
        then_done (self key client)
          (λ x. Server.acquire_in now x.phase key client routing_id ip timeout read_only x) s s r0
          (self_found key client r0 s h)
        ∙ then_done (Server.cancel_timeout_release now key client) (λ u. finish) s1 s2 tt
            (cancel_release_found key client task rest r s1 h e now)
        ∙ update_after key client (Server.schedule_timeout_release now key client timeout)
            (λ x. record x { phase = held }) r1 s2 s3
            (schedule_release_found now key client timeout r0 s2 h)))
      (
        refl,
        refl,
        refl,
        stored key client (some (record r1 { phase = held })) (store key client (some r1) s3),
        (rest, w, refl),
      )
