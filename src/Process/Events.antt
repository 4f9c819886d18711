-- ===== src/Process/Events.antt =====
-- class EventBroker and class Event of zprocess/process_tree.py. Event names, identifiers and pickled
-- data are lists of bytes. A subscription is a list of bytes, and ZeroMQ delivers a message to a
-- subscriber if a subscription of its is a prefix of the message's first frame.
pub mod Topics
use zprocess.Base.{
  ℕ, ◌+◌, ◌-◌, ◌*◌, ltb, Bool, true, false, not, ◌&&◌, ◌||◌, Option, none, some, List, [], ◌∷◌,
  ◌++◌, ◌==◌, if◌then◌else◌,
}

abbrev pub Bytes : Type 0
Bytes = List ℕ

abbrev pub same : Bytes → Bytes → Bool
same [] [] = true
same (x ∷ xs) (y ∷ ys) = if x == y then same xs ys else false
same xs ys = false

-- `topic.startswith(prefix)`
abbrev pub is_prefix : Bytes → Bytes → Bool
is_prefix [] ys = true
is_prefix (x ∷ xs) [] = false
is_prefix (x ∷ xs) (y ∷ ys) = if x == y then is_prefix xs ys else false

-- What a poll of the broker reports: a subscription or its end from behind (whether it is the former,
-- and its topic), a message in front, and whether the context is terminated.
pub record Poll : Type 0 where
  pub backend : Option (Bool × Bytes)
  pub frontend : Option (List Bytes)
  pub terminated : Bool

-- A subscriber asks for a welcome by a subscription; the topic is sent back.
unfoldable pub welcome : Bytes → Option (Bool × Bytes) → List (List Bytes) → List (List Bytes)
welcome welcome_message none sent = sent
welcome welcome_message (some (is_subscription, topic)) sent =
    if is_subscription && is_prefix welcome_message topic then (topic ∷ []) ∷ sent else sent

-- Messages from in front go to the subscribers.
unfoldable pub forward : Option (List Bytes) → List (List Bytes) → List (List Bytes)
forward none sent = sent
forward (some message) sent = message ∷ sent

-- `EventBroker.mainloop`: what it sends, the newest first
unfoldable pub mainloop : Bytes → List Poll → List (List Bytes) → List (List Bytes)
mainloop welcome_message [] sent = sent
mainloop welcome_message (poll ∷ polls) sent =
    let rest =
      mainloop welcome_message polls
        (forward poll.frontend (welcome welcome_message poll.backend sent)) in
    if poll.terminated then sent else rest

pub data Role : Type 0 where
  wait_role post_role both_role other_role : Role

pub record Event : Type 0 where
  pub encoded_event_name : Bytes
  pub can_wait : Bool
  pub can_post : Bool

pub data Error : Type 0 where
  value_error timeout_error assertion_error : Error

-- `waiting`: the reports are used up and the call still waits.
pub data Outcome {ℓ} (A : Type ℓ) : Type ℓ where
  done : A → Outcome A
  raised : Error → Outcome A
  waiting : Outcome A

-- the name with the null byte that ends it
abbrev pub encode_name : Bytes → Bytes
encode_name name = name ++ 0 ∷ []

abbrev pub can_wait_as : Role → Bool
can_wait_as wait_role = true
can_wait_as both_role = true
can_wait_as role = false

abbrev pub can_post_as : Role → Bool
can_post_as post_role = true
can_post_as both_role = true
can_post_as role = false

-- the loop for the welcome message, over the frames that arrive; none is a poll that times out
unfoldable pub await_welcome : Bytes → List (Option Bytes) → Outcome (Unit {0})
await_welcome topic [] = waiting
await_welcome topic (none ∷ frames) = raised timeout_error
await_welcome topic (some frame ∷ frames) =
    let later = await_welcome topic frames in if same frame topic then done tt else later

abbrev pub is_role : Role → Bool
is_role other_role = false
is_role role = true

-- the event, once the broker has confirmed the subscription
abbrev pub welcomed : Event → Outcome (Unit {0}) → Outcome Event
welcomed event (done u) = done event
welcomed event (raised e) = raised e
welcomed event waiting = waiting

-- `Event.__init__`; `topic` is the welcome message with the random id
unfoldable pub new_event : Bytes → Role → Bytes → List (Option Bytes) → Outcome Event
new_event name role topic frames =
    let event : Event = record {
      encoded_event_name = encode_name name;
      can_wait = can_wait_as role;
      can_post = can_post_as role;
    } in
    if not (is_role role)
    then raised value_error
    else (if can_wait_as role then welcomed event (await_welcome topic frames) else done event)

-- `post`: the frames that are sent
unfoldable pub post : Bytes → Bytes → Event → Outcome (List Bytes)
post identifier datum event =
    if not event.can_post
    then raised value_error
    else done (event.encoded_event_name ∷ identifier ∷ datum ∷ [])

-- A message that has arrived: the encoded name, the identifier and the data.
pub record Arrived : Type 0 where
  pub encoded_event_name : Bytes
  pub event_id : Bytes
  pub datum : Bytes

-- one message of a loop of `wait`: none is to read on
unfoldable pub examine : Event → Bytes → Arrived → Option (Outcome Bytes)
examine event identifier m =
    if not (same m.encoded_event_name event.encoded_event_name)
    then some (raised assertion_error)
    else (if same m.event_id identifier then some (done m.datum) else none)

-- the first loop, over the messages in the buffer: none is that it is empty
unfoldable pub wait_buffered : Event → Bytes → List Arrived → Option (Outcome Bytes)
wait_buffered event identifier [] = none
wait_buffered event identifier (m ∷ ms) = elim (examine event identifier m) [
  | none ↦ wait_buffered event identifier ms
  | some outcome ↦ some outcome
]

-- `timeout is None or (monotonic() < start_time + timeout)`
abbrev pub in_time : ℕ → Option ℕ → ℕ → Bool
in_time start none now = true
in_time start (some timeout) now = ltb now (start + timeout)

-- the second loop, over the time of each round and the message it reads; with a timeout, none is a
-- poll that times out, and without one `recv` only returns with a message
unfoldable pub wait_timed : Event → Bytes → ℕ → Option ℕ → List (ℕ × Option Arrived) → Outcome Bytes
wait_timed event identifier start timeout [] = waiting
wait_timed event identifier start none ((now, none) ∷ rounds) =
    wait_timed event identifier start none rounds
wait_timed event identifier start (some t) ((now, none) ∷ rounds) = raised timeout_error
wait_timed event identifier start timeout ((now, some m) ∷ rounds) =
    let rest = wait_timed event identifier start timeout rounds in
    if in_time start timeout now
    then elim (examine event identifier m) [ none ↦ rest | some outcome ↦ outcome ]
    else raised timeout_error

-- `wait`: with the messages in the buffer, and those of the rounds after it
unfoldable pub wait :
    Bytes → ℕ → Option ℕ → List Arrived → List (ℕ × Option Arrived) → Event → Outcome Bytes
wait identifier start timeout buffered rounds event =
    if not event.can_wait
    then raised value_error
    else elim (wait_buffered event identifier buffered) [
      | none ↦ wait_timed event identifier start timeout rounds
      | some outcome ↦ outcome
    ]
