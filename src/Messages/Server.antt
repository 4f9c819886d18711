-- ===== src/Messages/Server.antt =====
-- class ZMQServer of zprocess/clientserver.py: the main loop over an explicit sequence of events.
-- `handler`, which subclasses supply, and what the socket's method to send takes are parameters, and the
-- events say whether `timeout` raises.
pub mod Replies
use zprocess.Base.{
  ℕ, suc, ◌+◌, Bool, true, false, not, ◌&&◌, Option, none, some, List, [], ◌∷◌, if◌then◌else◌,
}
use zprocess.Messages.Data.{
  Dtype, raw, string, multipart, pyobj, invalid, Value, null, byte_string, text, parts, frame,
  exception, Result, ok, err, typecheck_or_convert_data,
}
use zprocess.Messages.Data

-- What `self.handler(request)` comes to: NO_RESPONSE, a value, or an exception.
pub data Handled : Type 0 where
  no_response : Handled
  returned : Value → Handled
  failed : Handled

-- What a poll reports: no event within `timeout_interval` (then whether `self.timeout()` raises), the
-- stop message, a request that `recv` reads, or one that it cannot read.
pub data Event : Type 0 where
  timed_out : Bool → Event
  stop : Event
  request : Value → Event
  unreadable : Event

-- `raised` counts the exceptions raised in threads of their own; `sent` has the newest reply first.
pub record Server : Type 0 where
  pub dtype : Dtype
  pub pull_only : Bool
  pub sent : List Value
  pub raised : ℕ
  pub crashed : Bool

-- The handler of the server, the text of the exception it reports to a client, that text encoded, and
-- whether the method to send of a dtype takes a value: it raises, for one, on a message without parts, or
-- on an object that cannot be pickled.
pub record Handler : Type 0 where
  pub handler : Value → Handled
  pub report : Value → ℕ
  pub encode : ℕ → ℕ
  pub sends : Dtype → Value → Bool

-- the checks of a value that the handler returned
unfoldable pub check_response : Server → Value → Result
check_response s null = typecheck_or_convert_data null s.dtype
check_response s value =
    if s.pull_only then err Data.value_error else typecheck_or_convert_data value s.dtype

-- the reply that tells a client of an exception, for the dtype
abbrev pub error_response : Handler → Dtype → ℕ → Value
error_response h raw e = byte_string (h.encode e)
error_response h multipart e = parts (frame (h.encode e) ∷ [])
error_response h string e = text e
error_response h dtype e = exception e

-- `self.send`, whose exception ends the main loop
abbrev pub send_reply : Handler → Value → Server → Server
send_reply h value s =
    if h.sends s.dtype value
    then record s { sent = value ∷ s.sent }
    else record s { crashed = true }

-- the exception is raised in another thread; a server that replies sends it, once it is checked
unfoldable pub report_error : Handler → Value → Server → Server
report_error h datum s =
    let s' = record s { raised = s.raised + 1 } in
    if s.pull_only
    then s'
    else elim (typecheck_or_convert_data (error_response h s.dtype (h.report datum)) s.dtype) [
      | ok value ↦ send_reply h value s'
      | err e ↦ record s' { crashed = true }
    ]

-- the rest of a round, with a response that has passed the checks or failed them
unfoldable pub respond : Handler → Value → Result → Server → Server
respond h datum (ok value) s = if s.pull_only then s else send_reply h value s
respond h datum (err e) s = report_error h datum s

unfoldable pub handle_result : Handler → Value → Handled → Server → Server
handle_result h datum no_response s = s
handle_result h datum (returned value) s = respond h datum (check_response s value) s
handle_result h datum failed s = report_error h datum s

unfoldable pub handle_request : Handler → Value → Server → Server
handle_request h datum s = handle_result h datum (h.handler datum) s

-- `mainloop`
unfoldable pub mainloop : Handler → List Event → Server → Server
mainloop h [] s = s
mainloop h (timed_out fails ∷ events) s =
    mainloop h events (if fails then record s { raised = s.raised + 1 } else s)
mainloop h (stop ∷ events) s = s
mainloop h (request datum ∷ events) s =
    let s' = handle_request h datum s in
    let rest = mainloop h events s' in if s'.crashed then s' else rest
mainloop h (unreadable ∷ events) s = record s { crashed = true }

-- `ZMQServer.__init__`, as far as the state goes; an invalid dtype raises a ValueError
unfoldable pub new_server : Dtype → Bool → Option Server
new_server invalid pull_only = none
new_server dtype pull_only =
    some (record { dtype = dtype; pull_only = pull_only; sent = []; raised = 0; crashed = false })
