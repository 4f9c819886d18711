-- ===== src/Zlog/Server/Safe.antt =====
-- The main loop of the log server (zprocess/zlog/server.py, ZMQLogServer) keeps the invariant of its
-- tasks.
use zprocess.Base.{
  ℕ, ◌≡◌, refl, ap, Bool, true, ◌&&◌, Option, none, some, List, [], ◌∷◌, if◌then◌else◌, is_empty,
  arith, inl, inr, Option-cases,
}
use zprocess.Base.Float.{Float}
use zprocess.Base.Frames.{split_frames}
use zprocess.Tasks
use zprocess.Tasks.{Task, new_task}
use zprocess.Tasks.Queued.{queued, Without, pop-Without}
use zprocess.Zlog.Server.Files.{Io, Text}
use zprocess.Zlog.Server.{
  Timeout, Server, Outcome, ok, err_bad_encoding, access_denied, raised, M, file_error, handler_of,
  ◌>>◌, send, write_log, client_leaves, set_timeout, cancel_timeout, delete_timeout, do_timeout,
  check_filepath, log_checked, log_request, answer_access, access_request, Command, command_of,
  done_checked, done_request, dispatch, handle_message, run_task, run_due, Event, stop, message,
  due, mainloop, new_server, update,
}
use zprocess.Zlog.Server.Steps.{
  task_id, IsSafe, RunsSafely, >>-continues, >>-RunsSafely, set_timeout-RunsSafely, drop-IsSafe,
  cancel_timeout-RunsSafely, same-IsSafe, is_calm, client_done-closes, write_log-RunsSafely,
  client_leaves-RunsSafely, send-RunsSafely, if-RunsSafely,
}

module _ (text : Text) where
  log_checked-RunsSafely :
      (now : Float) (io : Io) (c : ℕ) (path line : Option ℕ) (s : Server)
      → is_calm io ≡ true
      → IsSafe s
      → RunsSafely (log_checked text now io c path line) s
  unfolding log_checked
  log_checked-RunsSafely now io c (some path) (some line) s calm v =
      let file : ℕ = text.abspath path in
      let write : M (Unit {0}) = write_log io file c line in
      let wrote : RunsSafely write s = write_log-RunsSafely io file c line s calm v in
      let cancelled = cancel_timeout-RunsSafely c (write s).1 wrote.1 in
      >>-RunsSafely write (cancel_timeout c >> set_timeout now c file) s wrote (
        >>-RunsSafely (cancel_timeout c) (set_timeout now c file) (write s).1 cancelled.0 (
          set_timeout-RunsSafely now c file (cancel_timeout c (write s).1).1 cancelled.1
            cancelled.0.1))
  log_checked-RunsSafely now io c none line s calm v = (refl, v)
  log_checked-RunsSafely now io c (some path) none s calm v = (refl, v)

  log_request-RunsSafely :
      (now : Float) (io : Io) (args : List ℕ) (s : Server)
      → is_calm io ≡ true
      → IsSafe s
      → RunsSafely (log_request text now io args) s
  unfolding log_request
  log_request-RunsSafely now io (c ∷ path ∷ line ∷ []) s calm v =
      log_checked-RunsSafely now io c (check_filepath text path) (text.decode line) s calm v
  log_request-RunsSafely now io args s calm v = (refl, v)

  access_request-RunsSafely :
      (io : Io) (routing_id args : List ℕ) (s : Server)
      → IsSafe s
      → RunsSafely (access_request text io routing_id args) s
  unfolding access_request answer_access
  access_request-RunsSafely io routing_id (path ∷ []) s v = answer (check_filepath text path)
    where
      answer : (path' : Option ℕ) → RunsSafely (answer_access text io routing_id path') s
      answer none = send-RunsSafely routing_id err_bad_encoding s v
      answer (some p) =
          if-RunsSafely io.access_fails (send routing_id access_denied) (send routing_id ok) s
            (send-RunsSafely routing_id access_denied s v) (send-RunsSafely routing_id ok s v)
  access_request-RunsSafely io routing_id args s v = send-RunsSafely routing_id _ s v

  done_checked-RunsSafely :
      (io : Io) (routing_id : List ℕ) (c : ℕ) (path : Option ℕ) (s : Server)
      → is_calm io ≡ true
      → IsSafe s
      → RunsSafely (done_checked text io routing_id c path) s
  unfolding done_checked
  done_checked-RunsSafely io routing_id c none s calm v = send-RunsSafely routing_id _ s v
  done_checked-RunsSafely io routing_id c (some path) s calm v =
      let cancelled = (cancel_timeout-RunsSafely c s v).0 in
      let left = client_leaves-RunsSafely io path c (cancel_timeout c s).1 calm cancelled.1 in
      >>-RunsSafely (cancel_timeout c) (client_leaves io path c >> send routing_id ok) s cancelled (
        >>-RunsSafely (client_leaves io path c) (send routing_id ok) (cancel_timeout c s).1 left
          (send-RunsSafely routing_id ok _ left.1))

  done_request-RunsSafely :
      (io : Io) (routing_id args : List ℕ) (s : Server)
      → is_calm io ≡ true
      → IsSafe s
      → RunsSafely (done_request text io routing_id args) s
  unfolding done_request
  done_request-RunsSafely io routing_id (c ∷ path ∷ []) s calm v =
      done_checked-RunsSafely io routing_id c (check_filepath text path) s calm v
  done_request-RunsSafely io routing_id args s calm v = send-RunsSafely routing_id _ s v

  dispatch-RunsSafely :
      (now : Float) (io : Io) (routing_id : List ℕ) (command : Command) (args : List ℕ) (s : Server)
      → is_calm io ≡ true
      → IsSafe s
      → RunsSafely (dispatch text now io routing_id command args) s
  unfolding dispatch
  dispatch-RunsSafely now io r Command.log args s calm v =
      log_request-RunsSafely now io args s calm v
  dispatch-RunsSafely now io r Command.hello args s calm v = send-RunsSafely r _ s v
  dispatch-RunsSafely now io r Command.protocol args s calm v = send-RunsSafely r _ s v
  dispatch-RunsSafely now io r Command.check_access args s calm v =
      access_request-RunsSafely io r args s v
  dispatch-RunsSafely now io r Command.done args s calm v =
      done_request-RunsSafely io r args s calm v
  dispatch-RunsSafely now io r Command.unknown args s calm v = send-RunsSafely r _ s v

  handle_message-RunsSafely :
      (now : Float) (io : Io) (parts : Option (List ℕ × List ℕ)) (s : Server)
      → is_calm io ≡ true
      → IsSafe s
      → RunsSafely (handle_message text now io parts) s
  unfolding handle_message
  handle_message-RunsSafely now io none s calm v = (refl, v)
  handle_message-RunsSafely now io (some (r, [])) s calm v = (refl, v)
  handle_message-RunsSafely now io (some (r, command ∷ args)) s calm v =
      dispatch-RunsSafely now io r (command_of command) args s calm v

delete_timeout-RunsSafely :
    (c : ℕ) (s : Server) (t : Task Timeout)
    → s.timeout_tasks c ≡ some t
    → IsSafe (record s { timeout_tasks = update s.timeout_tasks c none })
    → RunsSafely (delete_timeout c) s
unfolding delete_timeout
delete_timeout-RunsSafely c s t e v = rw (e, delete_timeout) (refl, v)

-- A client whose task was due leaves its file and the dictionary.
leaves-RunsSafely :
    (io : Io) (path c : ℕ) (s : Server) (t : Task Timeout)
    → is_calm io ≡ true
    → s.timeout_tasks c ≡ some t
    → IsSafe (record s { timeout_tasks = update s.timeout_tasks c none })
    → RunsSafely (client_leaves io path c >> delete_timeout c) s
unfolding client_leaves
leaves-RunsSafely io path c s t calm e v =
    >>-continues (client_leaves io path c) (delete_timeout c) s
      (ap (λ b. if b then raised file_error else Outcome.done tt)
        (client_done-closes io c (handler_of path s) calm))
      (delete_timeout-RunsSafely c _ t e (same-IsSafe _ _ refl refl refl v))

run_task-RunsSafely :
    (io : Io) (x : Task Timeout) (rest : List (Task Timeout)) (s : Server)
    → is_calm io ≡ true
    → queued x.id s.tasks ≡ some x.func
    → Tasks.call x ≡ Tasks.ok (record x { called = true }, x.func)
    → Without x.id s.tasks rest
    → IsSafe s
    → RunsSafely (run_task io (Tasks.ok (x, rest))) s
unfolding run_task do_timeout
run_task-RunsSafely io x rest s calm here callable w v =
    let c = x.func.0 in
    let path = x.func.1 in
    let popped : Server = record s { tasks = rest } in
    let mine : task_id (s.timeout_tasks c) ≡ some x.id = ground (arith, v.tracked x.id c) in
    elim (Option-cases (s.timeout_tasks c)) [
      | inl lost ↦ absurd (ground arith)
      | inr (t, found) ↦
          let dropped = drop-IsSafe c x.id s rest mine w v in
          rw (callable, run_task) (leaves-RunsSafely io path c popped t calm found dropped)
    ]

run_due_from-RunsSafely :
    (io : Io) (now : Float) (q : List (Task Timeout)) (s : Server)
    → is_calm io ≡ true
    → s.tasks ≡ q
    → IsSafe s
    → RunsSafely
        (λ u. if is_empty q then (Outcome.done tt, u) else run_task io (Tasks.pop now q) u)
        s
run_due_from-RunsSafely io now [] s calm e v = (refl, v)
run_due_from-RunsSafely io now (t ∷ q) s calm e v =
    let (x, rest, popped, here, callable, w) = pop-Without now t q (rw e at v.clean) in
    rw popped (run_task-RunsSafely io x rest s calm (rw e here) callable (rw e w) v)

run_due-RunsSafely :
    (io : Io) (now : Float) (s : Server)
    → is_calm io ≡ true
    → IsSafe s
    → RunsSafely (run_due io now) s
unfolding run_due
run_due-RunsSafely io now s calm v = run_due_from-RunsSafely io now s.tasks s calm refl v

pub new_server-IsSafe : IsSafe new_server
unfolding queued
new_server-IsSafe = record {
  tracked = λ i c h. ground arith;
  awaited = λ c i h. ground arith;
  fresh = λ i h. refl;
  clean = tt;
}

-- In these events no write raises anything but an OSError, and no file fails to close.
abbrev pub all_calm : List (Float × Event) → Bool
all_calm [] = true
all_calm ((now, stop) ∷ events) = all_calm events
all_calm ((now, message frames io) ∷ events) = is_calm io && all_calm events
all_calm ((now, due io) ∷ events) = is_calm io && all_calm events

-- From a state that satisfies the invariant, the log server runs through any sequence of messages and
-- due tasks without an exception and leaves every client's close task in the queue, if no log file
-- fails to close and no write raises anything but an OSError. Rollovers, opens, writes, flushes and
-- access checks may fail with an OSError at any time; other failures of rollovers, opens and access
-- checks are left out.
pub mainloop-RunsSafely :
    (text : Text) (events : List (Float × Event)) (s : Server)
    → all_calm events ≡ true
    → IsSafe s
    → RunsSafely (mainloop text events) s
unfolding mainloop
mainloop-RunsSafely text [] s calm v = (refl, v)
mainloop-RunsSafely text ((now, stop) ∷ events) s calm v = (refl, v)
mainloop-RunsSafely text ((now, message frames io) ∷ events) s calm v =
    let handled = handle_message-RunsSafely text now io (split_frames frames) s (ground arith) v in
    >>-RunsSafely (handle_message text now io (split_frames frames)) (mainloop text events) s
      handled (mainloop-RunsSafely text events _ (ground arith) handled.1)
mainloop-RunsSafely text ((now, due io) ∷ events) s calm v =
    let ran = run_due-RunsSafely io now s (ground arith) v in
    >>-RunsSafely (run_due io now) (mainloop text events) s ran
      (mainloop-RunsSafely text events _ (ground arith) ran.1)
