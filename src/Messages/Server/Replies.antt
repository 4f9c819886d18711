-- ===== src/Messages/Server/Replies.antt =====
-- The replies of a server's main loop (zprocess/clientserver.py, ZMQServer.mainloop).
use zprocess.Base.{
  ℕ, suc, ◌+◌, ◌≡◌, refl, sym, ◌∙◌, Bool, true, false, List, [], ◌∷◌, if◌then◌else◌, length, arith,
}
use mathlib.Core.Path.{subst}
use zprocess.Messages.Data.{Dtype, invalid, Value, Result, typecheck_or_convert_data}
use zprocess.Messages.Server.{
  Handled, no_response, returned, failed, Event, timed_out, stop, request, unreadable, Server,
  Handler, check_response, error_response, report_error, respond, handle_result, handle_request,
  mainloop,
}

abbrev pub has_reply : Handled → Bool
has_reply no_response = false
has_reply (returned value) = true
has_reply failed = true

-- the replies that a sequence of events calls for, up to the stop message
unfoldable pub replies : Handler → List Event → ℕ
replies h [] = 0
replies h (timed_out fails ∷ events) = replies h events
replies h (stop ∷ events) = 0
replies h (request datum ∷ events) =
    if has_reply (h.handler datum) then suc (replies h events) else replies h events
replies h (unreadable ∷ events) = 0

abbrev pub is_readable : List Event → Bool
is_readable [] = true
is_readable (timed_out fails ∷ events) = is_readable events
is_readable (stop ∷ events) = true
is_readable (request datum ∷ events) = is_readable events
is_readable (unreadable ∷ events) = false

abbrev pub is_known : Dtype → Bool
is_known invalid = false
is_known dtype = true

-- A server that replies, runs, and has a valid dtype.
pub record IsReplying (s : Server) : Type 0 where
  pub replying : s.pull_only ≡ false
  pub running : s.crashed ≡ false
  pub valid : is_known s.dtype ≡ true

-- The socket takes what the server reports of an exception, and what its handler returns, once that has
-- passed the check.
pub record IsSendable (h : Handler) (dtype : Dtype) : Type 0 where
  pub errors : (e : ℕ) → h.sends dtype (error_response h dtype e) ≡ true
  pub responses :
      (datum value sent : Value)
      → h.handler datum ≡ returned value
      → typecheck_or_convert_data value dtype ≡ Result.ok sent
      → h.sends dtype sent ≡ true

-- What a round does to a server that replies: it sends at most one message, and stays as it should be.
abbrev Answers : Bool → Server → Server → Type 0
Answers b s s' =
    IsReplying s'
    × (length s'.sent ≡ (if b then suc (length s.sent) else length s.sent))
    × (s'.dtype ≡ s.dtype)

error_response-checked :
    (h : Handler) (dtype : Dtype) (e : ℕ)
    → is_known dtype ≡ true
    → typecheck_or_convert_data (error_response h dtype e) dtype
      ≡ Result.ok (error_response h dtype e)
unfolding typecheck_or_convert_data
error_response-checked h dtype e k = ground arith

report_error-Answers :
    (h : Handler) (datum : Value) (s : Server)
    → IsSendable h s.dtype
    → IsReplying s
    → Answers true s (report_error h datum s)
unfolding report_error
report_error-Answers h datum s c v =
    let checked = error_response-checked h s.dtype (h.report datum) v.valid in
    let takes = c.errors (h.report datum) in
    (
      record {
        replying = ground (arith, checked, takes, v.replying);
        running = ground (arith, checked, takes, v.running, v.replying);
        valid = ground (arith, checked, takes, v.valid, v.replying);
      },
      ground (arith, checked, takes, v.replying),
      ground (arith, checked, takes, v.replying),
    )

checked_response :
    (s : Server) (value : Value)
    → IsReplying s
    → check_response s value ≡ typecheck_or_convert_data value s.dtype
unfolding check_response
checked_response s value v = ground arith

respond-Answers :
    (h : Handler) (datum : Value) (r : Result) (s : Server)
    → ((sent : Value) → r ≡ Result.ok sent → h.sends s.dtype sent ≡ true)
    → IsSendable h s.dtype
    → IsReplying s
    → Answers true s (respond h datum r s)
unfolding respond
respond-Answers h datum (Result.ok value) s t c v =
    let takes = t value refl in
    (
      record {
        replying = ground (arith, takes, v.replying);
        running = ground (arith, takes, v.running, v.replying);
        valid = ground (arith, takes, v.valid, v.replying);
      },
      ground (arith, takes, v.replying),
      ground (arith, takes, v.replying),
    )
respond-Answers h datum (Result.err e) s t c v = report_error-Answers h datum s c v

handle_result-Answers :
    (h : Handler) (datum : Value) (handled : Handled) (s : Server)
    → h.handler datum ≡ handled
    → IsSendable h s.dtype
    → IsReplying s
    → Answers (has_reply handled) s (handle_result h datum handled s)
unfolding handle_result
handle_result-Answers h datum no_response s e c v = (v, refl, refl)
handle_result-Answers h datum (returned value) s e c v =
    respond-Answers h datum (check_response s value) s
      (λ sent k. c.responses datum value sent e (sym (checked_response s value v) ∙ k)) c v
handle_result-Answers h datum failed s e c v = report_error-Answers h datum s c v

-- Where a run of the main loop ends.
abbrev Ends : ℕ → Server → Type 0
Ends n s = IsReplying s × (length s.sent ≡ n)

if_running : (n : ℕ) (b : Bool) (s t : Server) → b ≡ false → Ends n t → Ends n (if b then s else t)
if_running n true s t h e = absurd (ground arith)
if_running n false s t h e = e

after_timeout :
    (fails : Bool) (s : Server)
    → IsReplying s
    → Ends (length s.sent) (if fails then record s { raised = s.raised + 1 } else s)
after_timeout true s v =
    (record { replying = v.replying; running = v.running; valid = v.valid }, refl)
after_timeout false s v = (v, refl)

-- A server that sends replies and can read all its requests never crashes, whatever its handler returns
-- or raises, if the socket takes its error reports and those values of the handler that pass the type
-- check. It sends one message for each request before the stop message that the handler did not answer
-- itself.
pub mainloop_answers :
    (h : Handler) (events : List Event) (s : Server)
    → is_readable events ≡ true
    → IsSendable h s.dtype
    → IsReplying s
    → IsReplying (mainloop h events s)
      × (length (mainloop h events s).sent ≡ length s.sent + replies h events)
unfolding mainloop replies handle_request
mainloop_answers h [] s e c v = (v, omega arith)
mainloop_answers h (timed_out true ∷ events) s e c v =
    let (w, l) = after_timeout true s v in
    let (w', l') = mainloop_answers h events _ e c w in (w', omega (arith, l, l'))
mainloop_answers h (timed_out false ∷ events) s e c v = mainloop_answers h events s e c v
mainloop_answers h (stop ∷ events) s e c v = (v, omega arith)
mainloop_answers h (request datum ∷ events) s e c v =
    let (w, l, d) = handle_result-Answers h datum (h.handler datum) s refl c v in
    let (w', l') =
      mainloop_answers h events (handle_request h datum s) e (subst (IsSendable h) (sym d) c) w in
    if_running _ _ _ _ w.running (w', ground (arith, l, l'))
mainloop_answers h (unreadable ∷ events) s e c v = absurd (ground arith)
