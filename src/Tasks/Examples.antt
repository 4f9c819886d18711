-- ===== src/Tasks/Examples.antt =====
-- The queue's theorems at three queued tasks.
use zprocess.Base.{ℕ, ◌≡◌, refl, ◌++◌, Bool, true, false, List, [], ◌∷◌}
use zprocess.Base.Float.{finite, pos, add_float}
use zprocess.Tasks.{Task, ok, insort, pop}
use zprocess.Tasks.Bisect.{IsSorted, insert_sorted, insort-eq-insert_sorted}
use zprocess.Tasks.Order.{IsSoonest, pop-IsSoonest}

abbrev task_at : ℕ → ℕ → Bool → Task ℕ
task_at t i repeat = record {
  due_at = finite (pos t);
  interval = finite (pos 10);
  func = i;
  called = false;
  repeat = repeat;
  id = i;
}

abbrev three_tasks : List (Task ℕ)
three_tasks = task_at 30 0 false ∷ task_at 20 1 false ∷ task_at 10 2 false ∷ []

-- the soonest of these repeats
abbrev repeating_tasks : List (Task ℕ)
repeating_tasks = task_at 30 0 false ∷ task_at 10 2 true ∷ []

three_tasks-IsSorted : IsSorted three_tasks
three_tasks-IsSorted = (refl, (refl, (refl, tt)), (refl, (refl, tt), (refl, tt, tt)))

repeating_tasks-IsSorted : IsSorted repeating_tasks
repeating_tasks-IsSorted = (refl, (refl, tt), (refl, tt, tt))

insort-eq-insert_sorted_example :
    insort (task_at 20 7 false) three_tasks ≡ insert_sorted (task_at 20 7 false) three_tasks
insort-eq-insert_sorted_example =
    insort-eq-insert_sorted (task_at 20 7 false) three_tasks three_tasks-IsSorted

pop_repeating :
    pop (finite (pos 12)) repeating_tasks
    ≡ ok (task_at 10 2 true, task_at 30 0 false ∷ task_at 20 2 true ∷ [])
unfolding pop add_float
pop_repeating = refl

pop-IsSoonest_example :
    (rest : List (Task ℕ)) × (repeating_tasks ≡ rest ++ task_at 10 2 true ∷ [])
    × IsSoonest (finite (pos 10)) rest
    × IsSorted (task_at 30 0 false ∷ task_at 20 2 true ∷ [])
unfolding add_float
pop-IsSoonest_example =
    pop-IsSoonest (finite (pos 12)) repeating_tasks (task_at 30 0 false ∷ task_at 20 2 true ∷ [])
      (task_at 10 2 true) repeating_tasks-IsSorted refl refl pop_repeating
