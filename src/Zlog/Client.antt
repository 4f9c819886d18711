-- ===== src/Zlog/Client.antt =====
-- zprocess/zlog/__init__.py: class ZLogClient, whose thread-local socket talks to the log server, and
-- class ZMQLoggingHandler, which sends the records of the logging library through it.
-- A frame is a number. What the polls and `recv_multipart` report is the list `incoming`: none is a
-- poll that times out. Whether a connection succeeds is `reachable`, and whether the socket's queue is
-- full, so that a send raises zmq.Again, is `full`.
pub mod Delivery
use zprocess.Base.{
  ℕ, suc, Bool, true, false, not, Option, none, some, List, [], ◌∷◌, ◌==◌, if◌then◌else◌, bytes,
}

-- `sent` has the newest message first; `warnings` counts the warnings on stderr.
pub record Client : Type 0 where
  pub sock : Bool
  pub suppress_further_warnings : Bool
  pub warnings : ℕ
  pub sent : List (List ℕ)
  pub incoming : List (Option (List ℕ))
  pub reachable : Bool
  pub full : Bool

-- `again` is zmq.Again; `error_response` is the ValueError for a response that starts with `error:`;
-- `access_error` is the OSError that a response names.
pub data Error : Type 0 where
  not_connected again timed_out malformed : Error
  error_response access_error invalid_response : ℕ → Error

pub data Outcome {ℓ} (A : Type ℓ) : Type ℓ where
  returned : A → Outcome A
  raised : Error → Outcome A

abbrev pub M : Type 0 → Type 0
M A = Client → Outcome A × Client

abbrev pub pure : {A : Type 0} → A → M A
pure a c = (returned a, c)

abbrev pub raise : {A : Type 0} → Error → M A
raise e c = (raised e, c)

infixl 5 ◌>>=◌ ◌>>◌
abbrev pub ◌>>=◌ : {A B : Type 0} → M A → (A → M B) → M B
◌>>=◌ m f c =
    let (outcome, c') = m c in elim outcome [ returned a ↦ f a c' | raised e ↦ (raised e, c') ]

abbrev pub ◌>>◌ : {A B : Type 0} → M A → M B → M B
m >> k = m >>= λ _. k

-- `_new_socket`
unfoldable pub new_socket : M (Unit {0})
new_socket c =
    if c.reachable
    then (returned tt, record c { sock = true })
    else (raised not_connected, record c { sock = false })

-- `sock.send_multipart([b''] + messages, zmq.NOBLOCK)`
unfoldable pub push : List ℕ → M (Unit {0})
push messages c =
    if c.full
    then (raised again, c)
    else (returned tt, record c { sent = (bytes "" ∷ messages) ∷ c.sent })

-- `_send`
unfoldable pub send : List ℕ → M (Unit {0})
send messages c = if c.sock then push messages c else (new_socket >> push messages) c

-- `response[1].startswith(b'error:')`
module _ (is_error : ℕ → Bool) where
  -- the checks of a response
  unfoldable pub check_response : List ℕ → Outcome ℕ
  check_response (delimiter ∷ body ∷ []) =
      if not (delimiter == bytes "")
      then raised malformed
      else (if is_error body then raised (error_response body) else returned body)
  check_response frames = raised malformed

  -- a response, or the exception, after which the socket is not used again
  unfoldable pub take : Option (List ℕ) → M ℕ
  take none c = (raised timed_out, record c { sock = false })
  take (some frames) c = elim (check_response frames) [
    | returned body ↦ (returned body, c)
    | raised e ↦ (raised e, record c { sock = false })
  ]

  -- `_recv`
  unfoldable pub recv : M ℕ
  recv c = elim c.incoming [
    | [] ↦ take none c
    | next ∷ rest ↦ take next (record c { incoming = rest })
  ]

  -- `ping`, without the time that it measures
  unfoldable pub ping : M (Unit {0})
  ping = do
    send (bytes "hello" ∷ [])
    response ← recv
    if response == bytes "hello" then pure tt else raise (invalid_response response)

  unfoldable pub get_protocol_version : M ℕ
  get_protocol_version = do send (bytes "protocol" ∷ []); recv

  unfoldable pub check_access : ℕ → M (Unit {0})
  check_access filepath = do
    send (bytes "check_access" ∷ filepath ∷ [])
    response ← recv
    if response == bytes "ok" then pure tt else raise (access_error response)

  unfoldable pub done : ℕ → ℕ → M (Unit {0})
  done client_id filepath = do
    send (bytes "done" ∷ client_id ∷ filepath ∷ [])
    response ← recv
    if response == bytes "ok" then pure tt else raise (invalid_response response)

-- the `except zmq.Again` clause: one warning in the life of the client
unfoldable pub warn : M (Unit {0})
warn c =
    if c.suppress_further_warnings
    then (returned tt, c)
    else (returned tt, record c { suppress_further_warnings = true; warnings = suc c.warnings })

unfoldable pub caught : Outcome (Unit {0}) × Client → Outcome (Unit {0}) × Client
caught (returned u, c) = (returned u, c)
caught (raised again, c) = warn c
caught (raised e, c) = (raised e, c)

unfoldable pub log : ℕ → ℕ → ℕ → M (Unit {0})
log client_id filepath message c =
    caught (send (bytes "log" ∷ client_id ∷ filepath ∷ message ∷ []) c)

-- class ZMQLoggingHandler: its unique id and its file
pub record Handler : Type 0 where
  pub client_id : ℕ
  pub filepath : ℕ

-- `ZMQLoggingHandler.__init__`, which asks for access to the file
unfoldable pub new_handler : (ℕ → Bool) → ℕ → ℕ → M Handler
new_handler is_error client_id filepath = do
  check_access is_error filepath
  pure (record { client_id = client_id; filepath = filepath })

-- `ZMQLoggingHandler.close`
unfoldable pub close : (ℕ → Bool) → Handler → M (Unit {0})
close is_error handler = done is_error handler.client_id handler.filepath

-- `ZMQLoggingHandler.emit`, for a record that has been formatted
unfoldable pub emit : Handler → ℕ → M (Unit {0})
emit handler message = log handler.client_id handler.filepath message
