-- ===== src/Messages/Examples.antt =====
-- A server of texts whose handler fails on one request, and a call that is interrupted.
use zprocess.Base.{◌+◌, ◌≡◌, refl, Bool, true, false, arith, none, some, List, [], ◌∷◌, length}
use zprocess.Messages.Data.{Dtype, string, raw, Value, text, byte_string, typecheck_or_convert_data}
use zprocess.Messages.Server.{
  Handled, returned, failed, Event, timed_out, stop, request, Server, Handler, mainloop,
  handle_request, handle_result, respond, check_response, report_error,
}
use zprocess.Messages.Server.Replies.{IsReplying, IsSendable, replies, mainloop_answers}
use zprocess.Messages.Sender.{Sender, Args, World}
use zprocess.Process.Queues.{refused, interrupted}

-- It echoes texts, and fails on anything else.
abbrev echo : Value → Handled
echo (text t) = returned (text t)
echo value = failed

-- `send_string` takes texts, and `send` byte strings.
abbrev sends : Dtype → Value → Bool
sends string (text t) = true
sends raw (byte_string b) = true
sends dtype value = false

abbrev echo_handler : Handler
echo_handler = record { handler = echo; report = λ value. 500; encode = λ e. e; sends = sends }

echo_handler-IsSendable : IsSendable echo_handler string
unfolding typecheck_or_convert_data
echo_handler-IsSendable = record {
  errors = λ e. refl;
  responses = λ datum value sent e k. ground arith;
}

abbrev text_server : Server
text_server = record { dtype = string; pull_only = false; sent = []; raised = 0; crashed = false }

abbrev two_requests : List Event
two_requests =
    request (text 1) ∷ timed_out true ∷ request (byte_string 2) ∷ stop ∷ request (text 3) ∷ []

text_server-IsReplying : IsReplying text_server
text_server-IsReplying = record { replying = refl; running = refl; valid = refl }

both_answered : (mainloop echo_handler two_requests text_server).sent ≡ text 500 ∷ text 1 ∷ []
unfolding mainloop handle_request handle_result respond check_response report_error
    typecheck_or_convert_data
both_answered = refl

mainloop_answers_example :
    IsReplying (mainloop echo_handler two_requests text_server)
    × (length (mainloop echo_handler two_requests text_server).sent
        ≡ 0 + replies echo_handler two_requests)
mainloop_answers_example =
    mainloop_answers echo_handler two_requests text_server refl echo_handler-IsSendable
      text_server-IsReplying

abbrev new_sender : Sender
new_sender = record {
  dtype = string;
  push_only = false;
  sock = false;
  host = 0;
  port = 0;
  polled = [];
  sent = [];
}

abbrev one_call : Args
one_call = record {
  thread = 1;
  host = 2;
  port = some 3;
  datum = text 4;
  timeout = some 5;
  raise_server_exceptions = true;
}

-- The socket refuses the message once, and then the thread is interrupted.
abbrev busy_world : World
busy_world = record {
  gethostbyname = λ host. some host;
  reachable = true;
  now = 10;
  polls = (10, refused) ∷ (11, interrupted 6) ∷ [];
  answer = none;
}
