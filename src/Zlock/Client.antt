-- ===== src/Zlock/Client.antt =====
-- zprocess/zlock/__init__.py: class ZLockClient, whose thread-local socket talks to the lock server,
-- and class Lock.
-- Texts are lists of ASCII codes, and a frame is a number. What the poll and `recv` report is the list
-- `incoming`: none is a poll that times out. Whether a connection succeeds is `reachable`.
pub mod Protocol
mod Examples
use zprocess.Base.{
  ℕ, ◌&&◌, Bool, true, false, Option, none, some, List, [], ◌∷◌, ◌++◌, ◌==◌, if◌then◌else◌, bytes,
  frame, is_empty,
}

-- What identifies the thread that runs: `socket.gethostname()`, `str(os.getpid())` and the name of the
-- current thread.
pub record Place : Type 0 where
  pub host_name : List ℕ
  pub pid : List ℕ
  pub current_thread : List ℕ

-- `sock` is whether `self.local` has a socket; `client_id` is `self.local.client_id`, none where the
-- attribute has not been set. `sent` has the newest message first.
pub record Client : Type 0 where
  pub sock : Bool
  pub client_id : Option ℕ
  pub default_timeout : ℕ
  pub process_name : List ℕ
  pub thread_name : List ℕ
  pub sent : List (List ℕ)
  pub incoming : List (Option ℕ)
  pub reachable : Bool

pub data Error : Type 0 where
  -- ZMQError: no response, an unexpected response, a server that is too old for read-only locks
  timed_out server_too_old : Error
  bad_response : ℕ → Error
  -- the exception of a failed `connect`, AttributeError, RuntimeError
  not_connected attribute_error runtime_error : Error

pub data Outcome {ℓ} (A : Type ℓ) : Type ℓ where
  done : A → Outcome A
  raised : Error → Outcome A

abbrev pub M : Type 0 → Type 0
M A = Client → Outcome A × Client

abbrev pub pure : {A : Type 0} → A → M A
pure a c = (done a, c)

abbrev pub raise : {A : Type 0} → Error → M A
raise e c = (raised e, c)

infixl 5 ◌>>=◌ ◌>>◌
abbrev pub ◌>>=◌ : {A B : Type 0} → M A → (A → M B) → M B
◌>>=◌ m f c =
    let (outcome, c') = m c in elim outcome [ done a ↦ f a c' | raised e ↦ (raised e, c') ]

abbrev pub ◌>>◌ : {A B : Type 0} → M A → M B → M B
m >> k = m >>= λ _. k

-- `prefix + '-' if prefix else ''`
abbrev pub dashed : List ℕ → List ℕ
dashed prefix = if is_empty prefix then [] else prefix ++ b'-' ∷ []

-- `_make_client_id`, encoded
unfoldable pub make_client_id : Place → Client → ℕ
make_client_id place c = frame (
    place.host_name
    ++ (b':'
        ∷ (dashed c.process_name
            ++ (place.pid ++ (b':' ∷ (dashed c.thread_name ++ place.current_thread))))))

-- the `except` clauses: a socket whose call failed is closed and forgotten
unfoldable pub drop_on_error : {A : Type 0} → Outcome A × Client → Outcome A × Client
drop_on_error (done a, c) = (done a, c)
drop_on_error (raised e, c) = (raised e, record c { sock = false })

unfoldable pub send : List ℕ → M (Unit {0})
send frames c = (done tt, record c { sent = frames ∷ c.sent })

-- `poll` and `recv`: a response, or the exception for a poll that timed out
unfoldable pub receive : M ℕ
receive c = elim c.incoming [
  | [] ↦ (raised timed_out, c)
  | next ∷ rest ↦ elim next [
    | none ↦ (raised timed_out, record c { incoming = rest })
    | some response ↦ (done response, record c { incoming = rest })
  ]
]

-- `self.local.client_id`
unfoldable pub local_client_id : M ℕ
local_client_id c = elim c.client_id [ none ↦ (raised attribute_error, c) | some id ↦ (done id, c) ]

-- What the source uses of texts: `str(timeout).encode('utf8')`, and whether a response reports that
-- the server's `acquire()` takes no fifth argument or that there is a KeyError.
pub record Texts : Type 0 where
  pub encode_timeout : ℕ → ℕ
  pub says_too_many_arguments : ℕ → Bool
  pub says_key_error : ℕ → Bool

module _ (place : Place) where
  -- `_new_socket`
  unfoldable pub new_socket : M (Unit {0})
  new_socket c =
      if c.reachable
      then (done tt, record c { sock = true; client_id = some (make_client_id place c) })
      else (raised not_connected, record c { sock = false })

  -- `if not hasattr(self.local, 'sock'): self._new_socket()`
  unfoldable pub ensure_socket : M (Unit {0})
  ensure_socket c = if c.sock then (done tt, c) else new_socket c

  -- `ping`, without the time that it measures
  unfoldable pub ping : M (Unit {0})
  ping = do
    ensure_socket
    λ c. drop_on_error (
        (do
          send (bytes "hello" ∷ [])
          response ← receive
          if response == bytes "hello" then pure tt else raise (bad_response response))
          c)

  unfoldable pub get_protocol_version : Texts → M ℕ
  get_protocol_version texts = do
    ensure_socket
    λ c. drop_on_error (
        (do
          send (bytes "protocol" ∷ [])
          response ← receive
          if texts.says_key_error response then pure (bytes "1.0.0") else pure response)
          c)

  -- the `while True` loop of `acquire`, over the poll's reports
  unfoldable pub acquire_loop :
      Texts → Bool → ℕ → List ℕ → List (Option ℕ) → Client → Outcome ℕ × Client
  acquire_loop texts read_only id messages [] c =
      (raised timed_out, record c { sent = messages ∷ c.sent; incoming = [] })
  acquire_loop texts read_only id messages (none ∷ incoming) c =
      (raised timed_out, record c { sent = messages ∷ c.sent; incoming = incoming })
  acquire_loop texts read_only id messages (some response ∷ incoming) c =
      let c' = record c { sent = messages ∷ c.sent; incoming = incoming } in
      let again = acquire_loop texts read_only id messages incoming c' in
      if response == bytes "ok"
      then (done id, c')
      else (if response == bytes "retry"
          then again
          else (if texts.says_too_many_arguments response && read_only
              then (raised server_too_old, c')
              else (raised (bad_response response), c')))

  -- the frames of an acquire request
  abbrev pub acquire_messages : Texts → ℕ → ℕ → ℕ → Bool → List ℕ
  acquire_messages texts key id timeout read_only =
      bytes "acquire"
      ∷ key
      ∷ id
      ∷ texts.encode_timeout timeout
      ∷ (if read_only then bytes "read_only" ∷ [] else [])

  -- `acquire`: the timeout is none where it is left out
  unfoldable pub acquire : Texts → ℕ → Option ℕ → Bool → M ℕ
  acquire texts key timeout read_only = do
    ensure_socket
    id ← local_client_id
    λ c.
        let seconds : ℕ = elim timeout [ none ↦ c.default_timeout | some t ↦ t ] in
        drop_on_error (
          acquire_loop texts read_only id (acquire_messages texts key id seconds read_only)
            c.incoming c)

  -- the part of `release` under `try`, with the client id given or taken from the thread
  unfoldable pub release_with : ℕ → Option ℕ → M (Unit {0})
  release_with key given = do
    id ← (λ c. elim given [ none ↦ local_client_id c | some id ↦ (done id, c) ])
    send (bytes "release" ∷ key ∷ id ∷ [])
    response ← receive
    if response == bytes "ok" then pure tt else raise (bad_response response)

  unfoldable pub release : ℕ → Option ℕ → M (Unit {0})
  release key given = do ensure_socket; λ c. drop_on_error (release_with key given c)

  unfoldable pub set_process_name : List ℕ → M (Unit {0})
  set_process_name name c =
      let c' = record c { process_name = name } in
      (done tt, record c' { client_id = some (make_client_id place c') })

  unfoldable pub set_thread_name : List ℕ → M (Unit {0})
  set_thread_name name c =
      let c' = record c { thread_name = name } in
      (done tt, record c' { client_id = some (make_client_id place c') })

-- class Lock: the key, the access, and the client id that acquired it
pub record Lock : Type 0 where
  pub key : ℕ
  pub read_only : Bool
  pub held_as : Option ℕ

module _ (place : Place) where
  -- `Lock.acquire`: the lock remembers the id; arguments that are left out are none
  unfoldable pub lock_acquire : Texts → Option ℕ → Option Bool → Lock → M Lock
  lock_acquire texts timeout access lock = do
    id ← acquire place texts lock.key timeout (elim access [ none ↦ lock.read_only | some b ↦ b ])
    pure (record lock { held_as = some id })

  -- `Lock.release`
  unfoldable pub lock_release : Lock → M (Unit {0})
  lock_release lock = release place lock.key lock.held_as
