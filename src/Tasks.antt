-- ===== src/Tasks.antt =====
-- zprocess/tasks.py: the queue of timed tasks that the lock server and the log server share.
-- A queue is the Python list in its own order, the soonest due at the end. The function that a task
-- calls, with its arguments, is a value of a type `F` that each server chooses. The clock's reading
-- and the class attribute `Task._next_id` are arguments.
pub mod Bisect
pub mod Order
pub mod Queued
mod Examples
use zprocess.Base.{
  ℕ, zero, suc, ◌+◌, ◌/◌, Bool, true, false, Option, none, some, List, [], ◌∷◌, length, get_elem?,
  insert_at, ltb, ◌==◌, if◌then◌else◌,
}
use zprocess.Base.Float.{Float, ltb_float, add_float, neg_float, max_float}

pub record Task {ℓ} (F : Type ℓ) : Type ℓ where
  pub due_at : Float
  pub interval : Float
  pub func : F
  pub called : Bool
  pub repeat : Bool
  pub id : ℕ

pub data Error : Type 0 where
  index_error value_error runtime_error : Error

pub data Result {ℓ} (A : Type ℓ) : Type ℓ where
  ok : A → Result A
  err : Error → Result A

module _ {ℓ} {F : Type ℓ} where
  -- `Task(due_in, func, ...)`, at time `now`
  unfoldable pub new_task : Float → ℕ → Float → F → Task F
  new_task now next_id due_in func = record {
    due_at = add_float now due_in;
    interval = due_in;
    func = func;
    called = false;
    repeat = false;
    id = next_id;
  }

  -- `Task.due_in()`
  unfoldable pub due_in : Float → Task F → Float
  due_in now task = add_float task.due_at (neg_float now)

  -- `Task.__call__`: the task marked as called, and the function that it runs
  unfoldable pub call : Task F → Result (Task F × F)
  call task =
      if task.called then err runtime_error else ok (record task { called = true }, task.func)

  -- `Task.__gt__`
  abbrev pub gt : Task F → Task F → Bool
  gt task other = ltb_float task.due_at other.due_at

  -- `Task.__eq__` among tasks
  abbrev pub same : Task F → Task F → Bool
  same task other = task.id == other.id

  -- `x < queue[i]`, which Python asks of `queue[i].__gt__(x)`
  abbrev pub precedes : Task F → List (Task F) → ℕ → Bool
  precedes x queue i = elim (get_elem? queue i) [ none ↦ false | some task ↦ gt task x ]

  -- The loop of `bisect.bisect_right`, on fuel: the interval shrinks in each round.
  bisect : ℕ → List (Task F) → Task F → ℕ → ℕ → ℕ
  bisect zero queue x lo hi = lo
  bisect (suc fuel) queue x lo hi =
      let mid = (lo + hi) / 2 in
      let left = bisect fuel queue x lo mid in
      let right = bisect fuel queue x (mid + 1) hi in
      let next = if precedes x queue mid then left else right in if ltb lo hi then next else lo

  -- `bisect.insort(queue, x)`
  unfoldable pub insort : Task F → List (Task F) → List (Task F)
  unfolding bisect
  insort x queue = insert_at (bisect (length queue) queue x 0 (length queue)) x queue

  -- `TaskQueue.add`: `repeat` is none where the argument is left out
  unfoldable pub add : Task F → Option Bool → List (Task F) → List (Task F)
  unfolding insort
  add task none queue = insort (record task { called = false }) queue
  add task (some repeat) queue = insort (record task { repeat = repeat; called = false }) queue

  -- `list.pop()`: what remains, and the last item
  unfoldable pub pop_last : List (Task F) → Option (List (Task F) × Task F)
  pop_last [] = none
  pop_last (task ∷ queue) = elim (pop_last queue) [
    | none ↦ some ([], task)
    | some (rest, last) ↦ some (task ∷ rest, last)
  ]

  -- the copy of a task that repeats, due one interval later, or at once if that is past
  unfoldable pub next_repetition : Float → Task F → Task F
  next_repetition now task = record task {
    due_at = max_float now (add_float task.due_at task.interval);
  }

  -- `TaskQueue.pop`: the task, and the queue that it leaves
  unfoldable pub pop : Float → List (Task F) → Result (Task F × List (Task F))
  unfolding pop_last add next_repetition
  pop now queue = elim (pop_last queue) [
    | none ↦ err index_error
    | some (rest, task) ↦
        ok (task, if task.repeat then add (next_repetition now task) none rest else rest)
  ]

  -- `TaskQueue.next`
  unfoldable pub next : List (Task F) → Result (Task F)
  unfolding pop_last
  next queue = elim (pop_last queue) [ none ↦ err index_error | some (rest, task) ↦ ok task ]

  -- `list.remove(task)`: the first item that equals it
  unfoldable pub cancel : Task F → List (Task F) → Result (List (Task F))
  cancel task [] = err value_error
  cancel task (x ∷ queue) =
      let later : Result (List (Task F)) = elim (cancel task queue) [
        | ok rest ↦ ok (x ∷ rest)
        | err e ↦ err e
      ] in
      if same x task then ok queue else later
