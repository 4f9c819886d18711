-- ===== src/Process/Startup/Examples.antt =====
-- A start that is terminated while it waits for the child, and one that ends well.
use zprocess.Base.{◌≡◌, ◌≤◌, refl, Bool, true, false, Option, none, some, List, [], ◌∷◌, length}
use zprocess.Process.Startup.{
  Startup, Job, Loader, new_startup, begin, greeted, settle, responded, start, fails,
  is_interrupted, got_module, got_class, got_arguments, setup, begin_terminate, end_terminate, Move,
  parent_moves, parent_is_interrupted, child_moves, terminates, terminate_ends, move, run, raised,
  interrupted_by,
}
use zprocess.Process.Startup.Sound.{is_started}
use zprocess.Process.Startup.Signalled.{terminate-signals}
use zprocess.Process.Startup.Stuck.{IsStuck, End}
use zprocess.Process.Startup.Progress.{turn, turns, start-Ends}

abbrev loads : Loader
loads = record { executes = λ m. true; traceback_of = λ c. none }

abbrev a_job : Job
a_job = record { module_info = 1; class_sent = 2; args = 3 }

-- the result of a run that is possible, or a start that is new
abbrev or_new : Option Startup → Startup
or_new none = new_startup
or_new (some s) = s

abbrev terminated : List Move
terminated =
    parent_moves
    ∷ parent_moves
    ∷ terminates 7
    ∷ child_moves
    ∷ parent_is_interrupted
    ∷ parent_moves
    ∷ terminate_ends
    ∷ []

terminated_raises :
    (or_new (run loads a_job terminated new_startup)).parent ≡ raised (interrupted_by 7)
unfolding run move start begin settle fails is_interrupted setup begin_terminate end_terminate
terminated_raises = refl

terminate-signals_example :
    (or_new (run loads a_job terminated new_startup)).signalled
    ≡ is_started (or_new (run loads a_job terminated new_startup)).child
unfolding run move start begin settle fails is_interrupted setup begin_terminate end_terminate
terminate-signals_example =
    terminate-signals loads a_job terminated (or_new (run loads a_job terminated new_startup)) refl
      refl

-- the parent's turns are true, the child's false
abbrev order : List Bool
order =
    true ∷ true ∷ false ∷ true ∷ true ∷ true ∷ true ∷ false ∷ false ∷ false ∷ true ∷ true ∷ false
    ∷ []

start-Ends_example :
    let s = or_new (turns loads a_job order new_startup) in
    (length order ≤ 13) × (IsStuck loads a_job s → End loads a_job s.parent s.child)
unfolding turns turn start begin greeted settle responded setup got_module got_class got_arguments
start-Ends_example =
    start-Ends loads a_job order (or_new (turns loads a_job order new_startup)) refl
