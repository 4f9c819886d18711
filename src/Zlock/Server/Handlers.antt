-- ===== src/Zlock/Server/Handlers.antt =====
-- class ZMQLockServer of zprocess/zlock/server.py: the arguments of a request, the dispatch on its
-- command, and the main loop over an explicit sequence of events. The parts that only open and close
-- sockets are left out.
use zprocess.Base.{
  ℕ, Bool, true, false, not, Option, none, some, List, [], ◌∷◌, ◌==◌, if◌then◌else◌, bytes,
  is_empty,
}
use zprocess.Base.Frames.{split_frames}
use zprocess.Base.Float.{Float, inf, neg_inf}
use zprocess.Tasks
use zprocess.Tasks.{Task}
use zprocess.Zlock.Lock.{SetPop}
use zprocess.Zlock.Server.State.{
  Reply, Server, done, raised, task_error, M, pure, ◌>>◌, send, request_instance, Callback,
}
use zprocess.Zlock.Server

-- `timeout in INVALID_NUMBERS`. A NaN that `float` has just made is equal to no member of the set
-- and is not the object that the set holds, so it is not a member.
abbrev pub is_invalid_number : Float → Bool
is_invalid_number inf = true
is_invalid_number neg_inf = true
is_invalid_number _ = false

-- What ends a poll: the stop message, a message with the peer's address, or a due task.
pub data Event : Type 0 where
  stop : Event
  message : List ℕ → ℕ → Event
  due : Event

pub data Command : Type 0 where
  acquire release hello protocol unknown : Command

-- the comparisons of the main loop with the commands it knows
unfoldable pub command_of : ℕ → Command
command_of command =
    if command == bytes "acquire"
    then Command.acquire
    else (if command == bytes "release"
        then Command.release
        else (if command == bytes "hello"
            then Command.hello
            else (if command == bytes "protocol" then Command.protocol else Command.unknown)))

-- `parse_float` is Python's `float` on a frame; none is its ValueError.
module _ (pop : SetPop) (parse_float : ℕ → Option Float) where
  module _ (now : Float) where
    -- the end of `acquire_request`, when all arguments are sound
    unfoldable pub accept : List ℕ → ℕ → ℕ → ℕ → Float → Bool → M (Unit {0})
    accept routing_id ip key client timeout read_only = do
      request_instance key client
      Server.acquire_request now key client routing_id ip timeout read_only

    -- the part of `acquire_request` that checks the timeout and the argument after it, if any
    unfoldable pub check_timeout : List ℕ → ℕ → ℕ → ℕ → Option Float → Option ℕ → M (Unit {0})
    check_timeout routing_id ip key client none mode = send routing_id Reply.err_timeout_invalid
    check_timeout routing_id ip key client (some timeout) none =
        if is_invalid_number timeout
        then send routing_id Reply.err_timeout_invalid
        else accept routing_id ip key client timeout false
    check_timeout routing_id ip key client (some timeout) (some mode) =
        if is_invalid_number timeout
        then send routing_id Reply.err_timeout_invalid
        else (if not (mode == bytes "read_only")
            then send routing_id Reply.err_read_only_wrong
            else accept routing_id ip key client timeout true)

    -- `ZMQLockServer.acquire_request`
    unfoldable pub acquire_request : List ℕ → ℕ → List ℕ → M (Unit {0})
    acquire_request routing_id ip (key ∷ client ∷ timeout ∷ []) =
        check_timeout routing_id ip key client (parse_float timeout) none
    acquire_request routing_id ip (key ∷ client ∷ timeout ∷ mode ∷ []) =
        check_timeout routing_id ip key client (parse_float timeout) (some mode)
    acquire_request routing_id ip args = send routing_id Reply.err_wrong_num_args

    -- `ZMQLockServer.release_request`
    unfoldable pub release_request : List ℕ → ℕ → List ℕ → M (Unit {0})
    release_request routing_id ip (key ∷ client ∷ []) = do
      request_instance key client
      Server.release_request now pop key client routing_id
    release_request routing_id ip args = send routing_id Reply.err_wrong_num_args

    -- the branches of the main loop
    unfoldable pub dispatch : List ℕ → ℕ → Command → List ℕ → M (Unit {0})
    dispatch routing_id ip Command.acquire args = acquire_request routing_id ip args
    dispatch routing_id ip Command.release args = release_request routing_id ip args
    dispatch routing_id ip Command.hello args = send routing_id Reply.hello
    dispatch routing_id ip Command.protocol args = send routing_id Reply.protocol
    dispatch routing_id ip Command.unknown args = send routing_id Reply.err_invalid_command

    unfoldable pub handle_message : Option (List ℕ × List ℕ) → ℕ → M (Unit {0})
    handle_message none ip = pure tt
    handle_message (some (routing_id, [])) ip = pure tt
    handle_message (some (routing_id, command ∷ args)) ip =
        dispatch routing_id ip (command_of command) args

    -- With no task in the queue the poll has no timeout, and no task comes due.
    -- A due task is taken from the queue and called
    unfoldable pub run_task : Tasks.Result (Task Callback × List (Task Callback)) → M (Unit {0})
    run_task (Tasks.err e) s = (raised (task_error e), s)
    run_task (Tasks.ok (task, rest)) s = elim (Tasks.call task) [
      | Tasks.err e ↦ (raised (task_error e), record s { tasks = rest })
      | Tasks.ok (called, func) ↦ Server.run_callback now pop func (record s { tasks = rest })
    ]

    unfoldable pub run_due : M (Unit {0})
    run_due s = if is_empty s.tasks then (done tt, s) else run_task (Tasks.pop now s.tasks) s

  -- `_mainloop` over the events that the poll reports, each with the time at which it is handled. An
  -- exception ends it.
  unfoldable pub mainloop : List (Float × Event) → M (Unit {0})
  mainloop [] = pure tt
  mainloop ((now, stop) ∷ events) = pure tt
  mainloop ((now, message frames ip) ∷ events) = do
    handle_message now (split_frames frames) ip
    mainloop events
  mainloop ((now, due) ∷ events) = do run_due now; mainloop events

-- `ZMQLockServer.__init__`, as far as the state goes
abbrev pub new_server : Server
new_server = record {
  tasks = [];
  next_id = 0;
  active_locks = λ key. none;
  active_requests = λ key client. none;
  sent = [];
}
