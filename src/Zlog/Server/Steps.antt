-- ===== src/Zlog/Server/Steps.antt =====
-- The tasks of the log server (zprocess/zlog/server.py, ZMQLogServer) and its dictionary
-- `timeout_tasks`: the invariant that ties them, and the single calls that keep it.
use zprocess.Base.{
  ℕ, ◌≤◌, ◌≡◌, ◌≢◌, refl, ap, Bool, true, false, not, ◌&&◌, Option, none, some, List, if◌then◌else◌,
  arith, inl, inr, Option-cases,
}
use zprocess.Base.Float.{Float}
use zprocess.Tasks.{Task, new_task}
use zprocess.Tasks.Queued.{queued, IsClean, Without, queued-add, add-IsClean, cancel-Without}
use zprocess.Zlog.Server.Files.{Handler, Io, Logged, log_to, client_done, dropped, failed}
use zprocess.Zlog.Server.{
  Timeout, Server, Outcome, Reply, raised, M, file_error, handler_of, ◌>>=◌, ◌>>◌, send,
  log_outcome, write_log, client_leaves, set_timeout, cancel_found, cancel_timeout,
  file_close_timeout, update,
}

-- the identity of a task, and the client that a task is about
abbrev pub task_id : Option (Task Timeout) → Option ℕ
task_id none = none
task_id (some task) = some task.id

abbrev pub client_of : Option Timeout → Option ℕ
client_of none = none
client_of (some (client, path)) = some client

pub record IsSafe (s : Server) : Type 0 where
  -- a queued task is the one that `timeout_tasks` has for its client
  pub tracked :
      (i c : ℕ) → client_of (queued i s.tasks) ≡ some c → task_id (s.timeout_tasks c) ≡ some i
  -- and such a task is queued
  pub awaited :
      (c i : ℕ) → task_id (s.timeout_tasks c) ≡ some i → client_of (queued i s.tasks) ≡ some c
  pub fresh : (i : ℕ) → s.next_id ≤ i → queued i s.tasks ≡ none
  pub clean : IsClean s.tasks

-- A call that does not raise and keeps the invariant.
abbrev pub RunsSafely : M (Unit {0}) → Server → Type 0
RunsSafely m s = ((m s).0 ≡ Outcome.done tt) × IsSafe (m s).1

-- What follows a call that does not raise runs from the state that it leaves.
pub >>-continues :
    (m k : M (Unit {0})) (s : Server)
    → (m s).0 ≡ Outcome.done tt
    → RunsSafely k (m s).1
    → RunsSafely (m >> k) s
>>-continues m k s e w = then_runs (m s).0 (m s).1 e w
  where
    then_runs :
        (o : Outcome (Unit {0})) (t : Server)
        → o ≡ Outcome.done tt
        → RunsSafely k t
        → RunsSafely (λ u. ◌>>=◌ (λ x. (o, t)) (λ x. k) u) s
    then_runs (Outcome.done tt) t e w = w
    then_runs (raised x) t e w = absurd (ground arith)

pub >>-RunsSafely :
    (m k : M (Unit {0})) (s : Server)
    → RunsSafely m s
    → RunsSafely k (m s).1
    → RunsSafely (m >> k) s
>>-RunsSafely m k s (e, v) w = >>-continues m k s e w

pub set_timeout-RunsSafely :
    (now : Float) (c p : ℕ) (s : Server)
    → s.timeout_tasks c ≡ none
    → IsSafe s
    → RunsSafely (set_timeout now c p) s
unfolding set_timeout new_task
set_timeout-RunsSafely now c p s n v =
    let task : Task Timeout = new_task now s.next_id file_close_timeout (c, p) in
    let unused : queued s.next_id s.tasks ≡ none = v.fresh s.next_id (omega arith) in
    (
      refl,
      record {
        tracked = λ i c' e. ground (arith, queued-add i task s.tasks unused, v.tracked i c');
        awaited = λ c' i e. ground (arith, queued-add i task s.tasks unused, v.awaited c' i);
        fresh = λ i h. ground (arith, queued-add i task s.tasks unused, v.fresh i (omega arith));
        clean = add-IsClean task s.tasks refl unused v.clean;
      },
    )

-- The task of a client leaves the queue and the dictionary together.
pub drop-IsSafe :
    (c id : ℕ) (s : Server) (rest : List (Task Timeout))
    → task_id (s.timeout_tasks c) ≡ some id
    → Without id s.tasks rest
    → IsSafe s
    → IsSafe (record s { tasks = rest; timeout_tasks = update s.timeout_tasks c none })
drop-IsSafe c id s rest e w v = record {
  tracked = λ i c' h. ground (arith, w.others i, v.tracked i c');
  awaited = λ c' i h. ground (arith, w.others i, v.awaited c' i, v.awaited c id);
  fresh = λ i h. ground (arith, w.others i, v.fresh i h);
  clean = w.clean;
}

cancel_found-RunsSafely :
    (c : ℕ) (s : Server) (t : Option (Task Timeout))
    → s.timeout_tasks c ≡ t
    → IsSafe s
    → let left = record s { timeout_tasks = update s.timeout_tasks c none } in
      RunsSafely (cancel_found t) left × ((cancel_found t left).1.timeout_tasks c ≡ none)
unfolding cancel_found
cancel_found-RunsSafely c s none e v = (
  (
    refl,
    record {
      tracked = λ i c' h. ground (arith, v.tracked i c');
      awaited = λ c' i h. ground (arith, v.awaited c' i);
      fresh = v.fresh;
      clean = v.clean;
    },
  ),
  ground arith,
)
cancel_found-RunsSafely c s (some task) e v = elim (Option-cases (queued task.id s.tasks)) [
  | inl lost ↦ absurd (ground (arith, v.awaited c task.id))
  | inr (f, found) ↦
      let (rest, cancelled, w) = cancel-Without task f s.tasks found v.clean in
      rw (cancelled, cancel_found)
        ((refl, drop-IsSafe c task.id s rest (ap task_id e) w v), ground arith)
]

pub cancel_timeout-RunsSafely :
    (c : ℕ) (s : Server)
    → IsSafe s
    → RunsSafely (cancel_timeout c) s × ((cancel_timeout c s).1.timeout_tasks c ≡ none)
unfolding cancel_timeout
cancel_timeout-RunsSafely c s v = cancel_found-RunsSafely c s (s.timeout_tasks c) refl v

-- A call that changes neither the queue nor `timeout_tasks` is safe.
pub same-IsSafe :
    (s t : Server)
    → t.tasks ≡ s.tasks
    → t.next_id ≡ s.next_id
    → t.timeout_tasks ≡ s.timeout_tasks
    → IsSafe s
    → IsSafe t
same-IsSafe s t e f g v = record {
  tracked = rw (e, g) v.tracked;
  awaited = rw (e, g) v.awaited;
  fresh = rw (e, f) v.fresh;
  clean = rw e v.clean;
}

-- The answers of the file system that raise nothing but what the handler of a file catches.
abbrev pub is_calm : Io → Bool
is_calm io = not io.write_raises && not io.close_fails

log_outcome-RunsSafely :
    (logged : Logged) (path line : ℕ) (s : Server)
    → logged ≢ failed
    → IsSafe s
    → RunsSafely (log_outcome logged path line) s
unfolding log_outcome
log_outcome-RunsSafely Logged.written path line s h v = (refl, same-IsSafe s _ refl refl refl v)
log_outcome-RunsSafely dropped path line s h v = (refl, v)
log_outcome-RunsSafely failed path line s h v = absurd (h refl)

log_to-caught : (io : Io) (c : ℕ) (h : Handler) → is_calm io ≡ true → (log_to io c h).1 ≢ failed
unfolding log_to
log_to-caught io c h calm = λ e. ground arith

pub client_done-closes :
    (io : Io) (c : ℕ) (h : Handler) → is_calm io ≡ true → (client_done io c h).1 ≡ false
unfolding client_done
client_done-closes io c h calm = ground arith

pub write_log-RunsSafely :
    (io : Io) (path c line : ℕ) (s : Server)
    → is_calm io ≡ true
    → IsSafe s
    → RunsSafely (write_log io path c line) s
unfolding write_log
write_log-RunsSafely io path c line s calm v =
    log_outcome-RunsSafely (log_to io c (handler_of path s)).1 path line _
      (log_to-caught io c (handler_of path s) calm) (same-IsSafe s _ refl refl refl v)

pub client_leaves-RunsSafely :
    (io : Io) (path c : ℕ) (s : Server)
    → is_calm io ≡ true
    → IsSafe s
    → RunsSafely (client_leaves io path c) s
unfolding client_leaves
client_leaves-RunsSafely io path c s calm v = (
  ap (λ b. if b then raised file_error else Outcome.done tt)
      (client_done-closes io c (handler_of path s) calm),
  same-IsSafe s _ refl refl refl v,
)

pub send-RunsSafely :
    (routing_id : List ℕ) (reply : Reply) (s : Server)
    → IsSafe s
    → RunsSafely (send routing_id reply) s
unfolding send
send-RunsSafely routing_id reply s v = (refl, same-IsSafe s _ refl refl refl v)

pub if-RunsSafely :
    (b : Bool) (m k : M (Unit {0})) (s : Server)
    → RunsSafely m s
    → RunsSafely k s
    → RunsSafely (if b then m else k) s
if-RunsSafely true m k s v w = v
if-RunsSafely false m k s v w = w
