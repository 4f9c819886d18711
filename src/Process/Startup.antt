-- ===== src/Process/Startup.antt =====
-- The start of a process: Process.start, interrupt_startup and terminate of
-- zprocess/process_tree.py in the parent, and zprocess/process_class_wrapper.py in the child. A run is
-- a sequence of moves of the thread that starts the process, of the child, and of threads that
-- interrupt the start or terminate the process; a move that is not possible gives none. The process is
-- started on this host, and the search for its class's file is left out. Modules, classes, arguments, reasons and tracebacks are numbers.
pub mod Sound
pub mod Signalled
pub mod Talks
pub mod Dialogue
pub mod Stuck
pub mod Progress
mod Examples
use zprocess.Base.{
  ℕ, Bool, true, false, Option, none, some, List, [], ◌∷◌, ◌++◌, get_elem?, if◌then◌else◌,
}

pub data Message : Type 0 where
  hello ok : Message
  a_module a_class arguments failure : ℕ → Message

pub data Error : Type 0 where
  interrupted_by : ℕ → Error
  timed_out no_connection assertion_error launch_error : Error
  child_error : Message → Error

-- Where `start` is: before its first lock, in `subprocess`, in the `finally` with what comes after it,
-- at the messages that follow, and at its end.
pub data ParentAt : Type 0 where
  new launching waiting_hello : ParentAt
  settling : Option Error → ParentAt
  putting_module putting_class getting_response putting_arguments returned : ParentAt
  raised : Error → ParentAt

-- Where the child is, with the module, the class and the arguments that it has got.
pub data ChildAt : Type 0 where
  not_started connecting getting_module exited : ChildAt
  getting_class : ℕ → ChildAt
  saying_ok getting_arguments : ℕ → ℕ → ChildAt
  running : ℕ → ℕ → ℕ → ChildAt

-- `startup_event`: None, not yet set, or set
pub data EventAt : Type 0 where
  absent created fired : EventAt

-- A thread that calls `terminate`: before the call, where it has set the interruptor, and behind.
pub data TerminateAt : Type 0 where
  not_called waiting_event finished : TerminateAt

-- `to_child` and `from_child` have all messages that were put, the oldest first; either end reads them
-- in this order, and how many it has read is given by where it is. `interruption` is the reason of
-- `startup_interruptor` once it is set, `queued` is whether `startup_queue` has the child, `handle`
-- whether `self.child` is set, and `signalled` whether `self.child.terminate` was called.
pub record Startup : Type 0 where
  pub parent : ParentAt
  pub child : ChildAt
  pub to_child : List Message
  pub from_child : List Message
  pub interruption : Option ℕ
  pub event : EventAt
  pub queued : Bool
  pub handle : Bool
  pub terminator : TerminateAt
  pub signalled : Bool

-- `Process.__init__`, before any call
abbrev pub new_startup : Startup
new_startup = record {
  parent = new;
  child = not_started;
  to_child = [];
  from_child = [];
  interruption = none;
  event = absent;
  queued = false;
  handle = false;
  terminator = not_called;
  signalled = false;
}

-- what the parent sends
pub record Job : Type 0 where
  pub module_info : ℕ
  pub class_sent : ℕ
  pub args : ℕ

abbrev pub goes_on : ParentAt → Startup → Option Startup
goes_on parent s = some (record s { parent = parent })

abbrev pub put_to_child : Message → ParentAt → Startup → Option Startup
put_to_child message parent s =
    some (record s { parent = parent; to_child = s.to_child ++ (message ∷ []) })

-- the first lines of `start`, under the startup lock
unfoldable pub begin : Option ℕ → Startup → Option Startup
begin (some reason) s = goes_on (raised (interrupted_by reason)) s
begin none s = some (record s { parent = launching; event = created })

-- the first message from the child
unfoldable pub greeted : Option Message → Startup → Option Startup
greeted none s = none
greeted (some hello) s = goes_on (settling none) s
greeted (some message) s = goes_on (settling (some assertion_error)) s

abbrev pub after_launch : Option Error → ParentAt
after_launch none = putting_module
after_launch (some e) = raised e

-- `finally`: the child that was put into the queue is kept, and the event is set
unfoldable pub settle : Option Error → Startup → Option Startup
settle outcome s = some (record s {
  parent = after_launch outcome;
  handle = if s.queued then true else s.handle;
  event = fired;
})

-- the response to the class
unfoldable pub responded : Option Message → Startup → Option Startup
responded none s = none
responded (some ok) s = goes_on putting_arguments s
responded (some message) s = goes_on (raised (child_error message)) s

-- `start`, by where it is
unfoldable pub start : Job → ParentAt → Startup → Option Startup
start job new s = begin s.interruption s
start job launching s =
    some (record s { parent = waiting_hello; child = connecting; queued = true })
start job waiting_hello s = greeted (get_elem? s.from_child 0) s
start job (settling outcome) s = settle outcome s
start job putting_module s = put_to_child (a_module job.module_info) putting_class s
start job putting_class s = put_to_child (a_class job.class_sent) getting_response s
start job getting_response s = responded (get_elem? s.from_child 1) s
start job putting_arguments s = put_to_child (arguments job.args) returned s
start job returned s = none
start job (raised e) s = none

-- an exception of a call that `start` is in: in `subprocess`, `finally` comes first
unfoldable pub fails : Error → ParentAt → Startup → Option Startup
fails e launching s = goes_on (settling (some e)) s
fails e waiting_hello s = goes_on (settling (some e)) s
fails e putting_module s = goes_on (raised e) s
fails e putting_class s = goes_on (raised e) s
fails e getting_response s = goes_on (raised e) s
fails e putting_arguments s = goes_on (raised e) s
fails e parent s = none

-- a timeout: of `subprocess` it is a RuntimeError, of a queue a TimeoutError
unfoldable pub times_out : ParentAt → Startup → Option Startup
times_out launching s = none
times_out waiting_hello s = fails no_connection waiting_hello s
times_out parent s = fails timed_out parent s

-- `subprocess` cannot start the child
unfoldable pub launch_fails : ParentAt → Startup → Option Startup
launch_fails launching s = fails launch_error launching s
launch_fails parent s = none

-- a blocking call is interrupted, once the interruptor is set
unfoldable pub is_interrupted : Option ℕ → ParentAt → Startup → Option Startup
is_interrupted none parent s = none
is_interrupted (some reason) parent s = fails (interrupted_by reason) parent s

abbrev pub child_at : ChildAt → Startup → Option Startup
child_at child s = some (record s { child = child })

abbrev pub child_says : Message → ChildAt → Startup → Option Startup
child_says message child s =
    some (record s { child = child; from_child = s.from_child ++ (message ∷ []) })

-- The environment of the child: whether the user's module runs through, and what comes of the class:
-- none, or the traceback of what was raised.
pub record Loader : Type 0 where
  pub executes : ℕ → Bool
  pub traceback_of : ℕ → Option ℕ

-- Of messages of another kind, none can be unpacked as a module or as arguments; as a class, a text is
-- not found, and a list is accepted and cannot be called.
module _ (loader : Loader) where
  -- the list with the module
  unfoldable pub got_module : Option Message → Startup → Option Startup
  got_module none s = none
  got_module (some (a_module m)) s =
      if loader.executes m then child_at (getting_class m) s else child_at exited s
  got_module (some message) s = child_at exited s

  -- the class, under `try`
  unfoldable pub got_class : ℕ → Option Message → Startup → Option Startup
  got_class m none s = none
  got_class m (some (a_class c)) s = elim (loader.traceback_of c) [
    | none ↦ child_at (saying_ok m c) s
    | some traceback ↦ child_says (failure traceback) exited s
  ]
  got_class m (some (a_module x)) s = child_says ok exited s
  got_class m (some (arguments x)) s = child_says ok exited s
  got_class m (some message) s = child_says (failure 0) exited s

  -- `_run`
  unfoldable pub got_arguments : ℕ → ℕ → Option Message → Startup → Option Startup
  got_arguments m c none s = none
  got_arguments m c (some (arguments a)) s = child_at (running m c a) s
  got_arguments m c (some message) s = child_at exited s

  -- `_setup`, by where it is
  unfoldable pub setup : ChildAt → Startup → Option Startup
  setup connecting s = child_says hello getting_module s
  setup getting_module s = got_module (get_elem? s.to_child 0) s
  setup (getting_class m) s = got_class m (get_elem? s.to_child 1) s
  setup (saying_ok m c) s = child_says ok (getting_arguments m c) s
  setup (getting_arguments m c) s = got_arguments m c (get_elem? s.to_child 2) s
  setup child s = none

-- An exception of a call that the child is in, with its traceback: only under `try` is it reported.
unfoldable pub child_fails : ℕ → ChildAt → Startup → Option Startup
child_fails traceback (getting_class m) s = child_says (failure traceback) exited s
child_fails traceback not_started s = none
child_fails traceback exited s = none
child_fails traceback (running m c a) s = none
child_fails traceback child s = child_at exited s

-- `interrupt_startup` under the startup lock: the first reason stays
abbrev pub set_once : ℕ → Option ℕ → Option ℕ
set_once reason none = some reason
set_once reason (some earlier) = some earlier

unfoldable pub interrupt : ℕ → Startup → Option Startup
interrupt reason s = some (record s { interruption = set_once reason s.interruption })

-- `terminate`, up to the wait for the event
unfoldable pub begin_terminate : ℕ → TerminateAt → Startup → Option Startup
begin_terminate reason not_called s =
    some (record s { interruption = set_once reason s.interruption; terminator = waiting_event })
begin_terminate reason terminator s = none

-- the rest of it: there is no event, or it is set
unfoldable pub end_terminate : EventAt → TerminateAt → Startup → Option Startup
end_terminate created waiting_event s = none
end_terminate event waiting_event s =
    some (record s { signalled = s.handle; terminator = finished })
end_terminate event terminator s = none

pub data Move : Type 0 where
  parent_moves parent_times_out launch_raises parent_is_interrupted child_moves : Move
  child_raises interrupts terminates : ℕ → Move
  terminate_ends : Move

module _ (loader : Loader) (job : Job) where
  unfoldable pub move : Move → Startup → Option Startup
  move parent_moves s = start job s.parent s
  move parent_times_out s = times_out s.parent s
  move launch_raises s = launch_fails s.parent s
  move parent_is_interrupted s = is_interrupted s.interruption s.parent s
  move child_moves s = setup loader s.child s
  move (child_raises traceback) s = child_fails traceback s.child s
  move (interrupts reason) s = interrupt reason s
  move (terminates reason) s = begin_terminate reason s.terminator s
  move terminate_ends s = end_terminate s.event s.terminator s

  unfoldable pub run : List Move → Startup → Option Startup
  run [] s = some s
  run (m ∷ ms) s = elim (move m s) [ none ↦ none | some s' ↦ run ms s' ]
