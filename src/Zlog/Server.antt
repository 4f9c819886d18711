-- ===== src/Zlog/Server.antt =====
-- zprocess/zlog/server.py: class FileHandler, which writes to a log file for several clients, and
-- class ZMQLogServer, which closes the file of a client that has gone silent. File paths, client ids
-- and messages are numbers that stand for byte strings or texts; the server's own log is left out.
pub mod Files
pub mod Steps
pub mod Safe
mod Examples
use zprocess.Base.{
  ℕ, suc, Bool, true, false, Option, none, some, List, [], ◌∷◌, ◌==◌, if◌then◌else◌, bytes,
  is_empty,
}
use zprocess.Base.Float.{Float, finite, pos}
use zprocess.Tasks
use zprocess.Tasks.{Task, new_task}
use zprocess.Base.Frames.{split_frames}
use Files.{Handler, Io, Text, Logged, written, dropped, failed, new_handler, log_to, client_done}

-- the arguments of `do_timeout`: a client and a file path
abbrev pub Timeout : Type 0
Timeout = ℕ × ℕ

pub data Reply : Type 0 where
  ok hello protocol : Reply
  err_invalid_command err_wrong_num_args err_bad_encoding : Reply
  -- the last line of an OSError
  access_denied : Reply

-- `instances` is the class attribute of FileHandler, and `next_id` that of Task; `written` has the
-- newest line first, with the path of its file.
pub record Server : Type 0 where
  pub instances : ℕ → Option Handler
  pub tasks : List (Task Timeout)
  pub next_id : ℕ
  pub timeout_tasks : ℕ → Option (Task Timeout)
  pub sent : List (List ℕ × Reply)
  pub written : List (ℕ × ℕ)

-- a missing key of a dictionary, an exception of the task queue, or one of a write or of `close` that
-- the class FileHandler does not catch
pub data Error : Type 0 where
  key_error : Error
  file_error : Error
  task_error : Tasks.Error → Error

pub data Outcome {ℓ} (A : Type ℓ) : Type ℓ where
  done : A → Outcome A
  raised : Error → Outcome A

abbrev pub M : Type 0 → Type 0
M A = Server → Outcome A × Server

abbrev pub pure : {A : Type 0} → A → M A
pure a s = (Outcome.done a, s)

infixl 5 ◌>>=◌ ◌>>◌
abbrev pub ◌>>=◌ : {A B : Type 0} → M A → (A → M B) → M B
◌>>=◌ m f s =
    let (outcome, s') = m s in elim outcome [ Outcome.done a ↦ f a s' | raised e ↦ (raised e, s') ]

abbrev pub ◌>>◌ : {A B : Type 0} → M A → M B → M B
m >> k = m >>= λ _. k

abbrev pub file_close_timeout : Float
file_close_timeout = finite (pos 5000)

unfoldable pub send : List ℕ → Reply → M (Unit {0})
send routing_id reply s = (Outcome.done tt, record s { sent = (routing_id, reply) ∷ s.sent })

-- `FileHandler.instance`
abbrev pub handler_of : ℕ → Server → Handler
handler_of path s = elim (s.instances path) [ none ↦ new_handler | some h ↦ h ]

abbrev pub update {ℓ} : {A : Type ℓ} → (ℕ → Option A) → ℕ → Option A → ℕ → Option A
update f k entry j = if k == j then entry else f j

-- what comes of a message, for the main loop
unfoldable pub log_outcome : Logged → ℕ → ℕ → M (Unit {0})
log_outcome Logged.written path line s =
    (Outcome.done tt, record s { written = (path, line) ∷ s.written })
log_outcome dropped path line s = (Outcome.done tt, s)
log_outcome failed path line s = (raised file_error, s)

-- `handler.log`, on the handler of a path
unfoldable pub write_log : Io → ℕ → ℕ → ℕ → M (Unit {0})
write_log io path client line s =
    let (handler, logged) = log_to io client (handler_of path s) in
    log_outcome logged path line (record s { instances = update s.instances path (some handler) })

-- `handler.client_done`, on the handler of a path: without clients it is forgotten, before its file is
-- closed
unfoldable pub client_leaves : Io → ℕ → ℕ → M (Unit {0})
client_leaves io path client s =
    let (handler, raises) = client_done io client (handler_of path s) in
    (
      if raises then raised file_error else Outcome.done tt,
      record s {
        instances =
            update s.instances path (if is_empty handler.clients then none else some handler);
      },
    )

unfoldable pub set_timeout : Float → ℕ → ℕ → M (Unit {0})
set_timeout now client path s =
    let task = new_task now s.next_id file_close_timeout (client, path) in
    (
      Outcome.done tt,
      record s {
        tasks = Tasks.add task none s.tasks;
        next_id = suc s.next_id;
        timeout_tasks = update s.timeout_tasks client (some task);
      },
    )

-- `self.tasks.cancel(task)`, where the dictionary had a task
unfoldable pub cancel_found : Option (Task Timeout) → M (Unit {0})
cancel_found none s = (Outcome.done tt, s)
cancel_found (some task) s = elim (Tasks.cancel task s.tasks) [
  | Tasks.ok rest ↦ (Outcome.done tt, record s { tasks = rest })
  | Tasks.err e ↦ (raised (task_error e), s)
]

-- `task = self.timeout_tasks.pop(client_id, None)`, and its cancellation
unfoldable pub cancel_timeout : ℕ → M (Unit {0})
cancel_timeout client s =
    cancel_found (s.timeout_tasks client)
      (record s { timeout_tasks = update s.timeout_tasks client none })

-- `del self.timeout_tasks[client_id]`
unfoldable pub delete_timeout : ℕ → M (Unit {0})
delete_timeout client s = elim (s.timeout_tasks client) [
  | none ↦ (raised key_error, s)
  | some task ↦ (Outcome.done tt, record s { timeout_tasks = update s.timeout_tasks client none })
]

unfoldable pub do_timeout : Io → Timeout → M (Unit {0})
do_timeout io (client, path) = do client_leaves io path client; delete_timeout client

pub data Command : Type 0 where
  log hello protocol check_access done unknown : Command

-- the comparisons of the main loop with the commands it knows
unfoldable pub command_of : ℕ → Command
command_of command =
    if command == bytes "log"
    then Command.log
    else (if command == bytes "hello"
        then Command.hello
        else (if command == bytes "protocol"
            then Command.protocol
            else (if command == bytes "check_access"
                then Command.check_access
                else (if command == bytes "done" then Command.done else Command.unknown))))

module _ (text : Text) where
  -- `_check_filepath`
  unfoldable pub check_filepath : ℕ → Option ℕ
  check_filepath path =
      if text.has_null path
      then none
      else elim (text.decode path) [ none ↦ none | some decoded ↦ some (text.abspath decoded) ]

  -- the end of `log`, with its path and its message checked
  unfoldable pub log_checked : Float → Io → ℕ → Option ℕ → Option ℕ → M (Unit {0})
  log_checked now io client (some path) (some line) = do
    write_log io (text.abspath path) client line
    cancel_timeout client
    set_timeout now client (text.abspath path)
  log_checked now io client path line = pure tt

  -- `ZMQLogServer.log`
  unfoldable pub log_request : Float → Io → List ℕ → M (Unit {0})
  log_request now io (client ∷ path ∷ line ∷ []) =
      log_checked now io client (check_filepath path) (text.decode line)
  log_request now io args = pure tt

  unfoldable pub answer_access : Io → List ℕ → Option ℕ → M (Unit {0})
  answer_access io routing_id none = send routing_id err_bad_encoding
  answer_access io routing_id (some path) =
      if io.access_fails then send routing_id access_denied else send routing_id ok

  -- `ZMQLogServer.check_access`
  unfoldable pub access_request : Io → List ℕ → List ℕ → M (Unit {0})
  access_request io routing_id (path ∷ []) = answer_access io routing_id (check_filepath path)
  access_request io routing_id args = send routing_id err_wrong_num_args

  -- the end of `done`, with its path checked
  unfoldable pub done_checked : Io → List ℕ → ℕ → Option ℕ → M (Unit {0})
  done_checked io routing_id client none = send routing_id err_bad_encoding
  done_checked io routing_id client (some path) = do
    cancel_timeout client
    client_leaves io path client
    send routing_id ok

  -- `ZMQLogServer.done`
  unfoldable pub done_request : Io → List ℕ → List ℕ → M (Unit {0})
  done_request io routing_id (client ∷ path ∷ []) =
      done_checked io routing_id client (check_filepath path)
  done_request io routing_id args = send routing_id err_wrong_num_args

  -- the branches of the main loop
  unfoldable pub dispatch : Float → Io → List ℕ → Command → List ℕ → M (Unit {0})
  dispatch now io routing_id Command.log args = log_request now io args
  dispatch now io routing_id Command.hello args = send routing_id Reply.hello
  dispatch now io routing_id Command.protocol args = send routing_id Reply.protocol
  dispatch now io routing_id Command.check_access args = access_request io routing_id args
  dispatch now io routing_id Command.done args = done_request io routing_id args
  dispatch now io routing_id Command.unknown args = send routing_id err_invalid_command

  unfoldable pub handle_message : Float → Io → Option (List ℕ × List ℕ) → M (Unit {0})
  handle_message now io none = pure tt
  handle_message now io (some (routing_id, [])) = pure tt
  handle_message now io (some (routing_id, command ∷ args)) =
      dispatch now io routing_id (command_of command) args

-- a due task is called; it has left the queue, `rest`
unfoldable pub run_task : Io → Tasks.Result (Task Timeout × List (Task Timeout)) → M (Unit {0})
run_task io (Tasks.err e) s = (raised (task_error e), s)
run_task io (Tasks.ok (task, rest)) s = elim (Tasks.call task) [
  | Tasks.err e ↦ (raised (task_error e), record s { tasks = rest })
  | Tasks.ok (called, func) ↦ do_timeout io func (record s { tasks = rest })
]

-- With no task in the queue the poll has no timeout, and no task comes due.
unfoldable pub run_due : Io → Float → M (Unit {0})
run_due io now s =
    if is_empty s.tasks then (Outcome.done tt, s) else run_task io (Tasks.pop now s.tasks) s

-- What ends a poll: the stop message, or a message or a due task with how the file system answers then.
pub data Event : Type 0 where
  stop : Event
  message : List ℕ → Io → Event
  due : Io → Event

-- `_mainloop` over the events that the poll reports, each with the time at which it is handled. An
-- exception ends it.
unfoldable pub mainloop : Text → List (Float × Event) → M (Unit {0})
mainloop text [] = pure tt
mainloop text ((now, stop) ∷ events) = pure tt
mainloop text ((now, message frames io) ∷ events) = do
  handle_message text now io (split_frames frames)
  mainloop text events
mainloop text ((now, due io) ∷ events) = do run_due io now; mainloop text events

-- `ZMQLogServer.__init__`, as far as the state goes
abbrev pub new_server : Server
new_server = record {
  instances = λ path. none;
  tasks = [];
  next_id = 0;
  timeout_tasks = λ client. none;
  sent = [];
  written = [];
}
