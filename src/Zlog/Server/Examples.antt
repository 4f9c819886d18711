-- ===== src/Zlog/Server/Examples.antt =====
-- The log server at work: a client logs a line to a file, falls silent, and its file is closed.
use zprocess.Base.{◌≡◌, refl, false, none, some, List, [], ◌∷◌, bytes, ◌==◌, add, remove, contains}
use zprocess.Base.Float.{Float, finite, pos, add_float, ◌+ℤ◌}
use zprocess.Zlog.Server.Files.{Io, Text, log_to, client_done}
use zprocess.Zlog.Server.{
  Event, message, due, mainloop, new_server, handle_message, dispatch, command_of, log_request,
  log_checked, check_filepath, write_log, log_outcome, cancel_timeout, cancel_found, set_timeout,
  run_due, run_task, do_timeout, client_leaves, delete_timeout,
}
use zprocess.Base.Frames.{split_frames}
use zprocess.Tasks
use zprocess.Zlog.Server.Steps.{RunsSafely}
use zprocess.Zlog.Server.Safe.{new_server-IsSafe, mainloop-RunsSafely}

abbrev plain_text : Text
plain_text = record {
  has_null = λ path. path == 99;
  decode = λ path. some path;
  abspath = λ path. path;
}

abbrev sound : Io
sound = record {
  rotates = false;
  rollover_fails = false;
  open_after_rollover = false;
  open_fails = false;
  write_fails = false;
  write_raises = false;
  close_fails = false;
  access_fails = false;
}

abbrev log_line : Event
log_line = message (7 ∷ bytes "" ∷ bytes "log" ∷ 1 ∷ 5 ∷ 9 ∷ []) sound

abbrev one_session : List (Float × Event)
one_session =
    (finite (pos 10), log_line) ∷ (finite (pos 20), log_line) ∷ (finite (pos 5020), due sound) ∷ []

written_twice : (mainloop plain_text one_session new_server).1.written ≡ (5, 9) ∷ (5, 9) ∷ []
unfolding mainloop handle_message split_frames dispatch command_of log_request log_checked
    check_filepath write_log log_outcome cancel_timeout cancel_found set_timeout run_due run_task
    do_timeout client_leaves delete_timeout log_to client_done Tasks.cancel Tasks.add Tasks.new_task
    Tasks.pop Tasks.call add_float ◌+ℤ◌ add remove contains
written_twice = refl

closed : (mainloop plain_text one_session new_server).1.instances 5 ≡ none
unfolding mainloop handle_message split_frames dispatch command_of log_request log_checked
    check_filepath write_log log_outcome cancel_timeout cancel_found set_timeout run_due run_task
    do_timeout client_leaves delete_timeout log_to client_done Tasks.cancel Tasks.add Tasks.new_task
    Tasks.pop Tasks.call add_float ◌+ℤ◌ add remove contains
closed = refl

mainloop-RunsSafely_example : RunsSafely (mainloop plain_text one_session) new_server
mainloop-RunsSafely_example =
    mainloop-RunsSafely plain_text one_session new_server refl new_server-IsSafe
