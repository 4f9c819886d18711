-- ===== src/Tasks/Order.antt =====
-- The order of the queue (zprocess/tasks.py, TaskQueue): `add`, `pop` and `cancel`.
use mathlib.Core.List.{Perm}
use mathlib.Core.List.Perm
use zprocess.Base.{
  ℕ, zero, suc, ◌≡◌, refl, ap, Bool, true, false, Option, none, some, List, [], ◌∷◌, ◌++◌,
  insert_at, ◌==◌, if◌then◌else◌, arith, inl, inr, Bool-cases, Option-cases,
}
use zprocess.Base.Float.{Float, add_float, ltb_float, is_nan, ltb_float-of_le, ltb_float_asymm}
use zprocess.Tasks.{
  Task, ok, err, value_error, gt, insort, add, pop_last, next_repetition, pop, cancel,
}
use zprocess.Tasks.Bisect.{IsLatest, IsSorted, insert_sorted, insort-eq-insert_sorted}

module _ {ℓ} {F : Type ℓ} where
  IsLatest-sooner :
      (x t : Task F) (q : List (Task F)) → gt t x ≡ true → IsLatest t q → IsSorted q → IsLatest x q
  IsLatest-sooner x t [] h l s = tt
  IsLatest-sooner x t (u ∷ q) h l s = (
    ltb_float_asymm u.due_at x.due_at (ltb_float-of_le t.due_at u.due_at x.due_at s.0 h l.0),
    IsLatest-sooner x t q h l.1 s.2,
  )

  IsLatest-insert_sorted :
      (x t : Task F) (q : List (Task F))
      → gt t x ≡ false
      → IsLatest t q
      → IsLatest t (insert_sorted x q)
  unfolding insert_sorted
  IsLatest-insert_sorted x t [] h l = (h, tt)
  IsLatest-insert_sorted x t (u ∷ q) h l = elim (Bool-cases (gt u x)) [
    | inl e ↦ rw e (h, l)
    | inr e ↦ rw e (l.0, IsLatest-insert_sorted x t q h l.1)
  ]

  pub insert_sorted-IsSorted :
      (x : Task F) (q : List (Task F))
      → is_nan x.due_at ≡ false
      → IsSorted q
      → IsSorted (insert_sorted x q)
  unfolding insert_sorted
  insert_sorted-IsSorted x [] n s = (n, tt, tt)
  insert_sorted-IsSorted x (t ∷ q) n s = elim (Bool-cases (gt t x)) [
    | inl e ↦
        rw e (
          n,
          (ltb_float_asymm t.due_at x.due_at e, IsLatest-sooner x t q e s.1 s.2),
          (s.0, s.1, s.2),
        )
    | inr e ↦ rw e (s.0, IsLatest-insert_sorted x t q e s.1, insert_sorted-IsSorted x q n s.2)
  ]

  insort-IsSorted :
      (x : Task F) (q : List (Task F))
      → is_nan x.due_at ≡ false
      → IsSorted q
      → IsSorted (insort x q)
  insort-IsSorted x q n s = rw (insort-eq-insert_sorted x q s) (insert_sorted-IsSorted x q n s)

  -- Adding a task whose due time is a number keeps the queue sorted, whatever `repeat` is given.
  pub add-IsSorted :
      (x : Task F) (repeat : Option Bool) (q : List (Task F))
      → is_nan x.due_at ≡ false
      → IsSorted q
      → IsSorted (add x repeat q)
  unfolding add
  add-IsSorted x none q n s = insort-IsSorted _ q n s
  add-IsSorted x (some r) q n s = insort-IsSorted _ q n s

  insert_at-perm : (k : ℕ) (x : Task F) (q : List (Task F)) → Perm (insert_at k x q) (x ∷ q)
  insert_at-perm zero x q = Perm.refl _
  insert_at-perm (suc k) x [] = Perm.refl _
  insert_at-perm (suc k) x (t ∷ q) =
      Perm.trans (Perm.cons t (insert_at-perm k x q)) (Perm.swap x t q)

  pop_last-none : (q : List (Task F)) → pop_last q ≡ none → q ≡ []
  unfolding pop_last
  pop_last-none [] e = refl
  pop_last-none (x ∷ q) e = elim (Option-cases (pop_last q)) [
    | inl f ↦ cc (rw f at e)
    | inr ((r, u), f) ↦ cc (rw f at e)
  ]

  pop_last-eq :
      (q rest : List (Task F)) (t : Task F) → pop_last q ≡ some (rest, t) → q ≡ rest ++ t ∷ []
  unfolding pop_last
  pop_last-eq [] rest t e = cc
  pop_last-eq (x ∷ q) rest t e = elim (Option-cases (pop_last q)) [
    | inl f ↦ ground (arith, pop_last-none q f)
    | inr ((r, u), f) ↦ ground (arith, pop_last-eq q r u f)
  ]

  pop_last-append : (q : List (Task F)) (t : Task F) → pop_last (q ++ t ∷ []) ≡ some (q, t)
  unfolding pop_last
  pop_last-append [] t = refl
  pop_last-append (x ∷ q) t = rw (pop_last-append q t)

  -- No task of the queue is due before this time.
  abbrev pub IsSoonest : Float → List (Task F) → Type 0
  IsSoonest due [] = Unit {0}
  IsSoonest due (u ∷ q) = (ltb_float u.due_at due ≡ false) × IsSoonest due q

  insert_sorted-soonest :
      (x : Task F) (q : List (Task F)) → IsSoonest x.due_at q → insert_sorted x q ≡ q ++ x ∷ []
  unfolding insert_sorted
  insert_sorted-soonest x [] h = refl
  insert_sorted-soonest x (t ∷ q) h = rw h.0 (ap (◌∷◌ t) (insert_sorted-soonest x q h.1))

  IsSorted-front : (q : List (Task F)) (t : Task F) → IsSorted (q ++ t ∷ []) → IsSorted q
  IsSorted-front [] t s = tt
  IsSorted-front (x ∷ q) t s = (s.0, latest q s.1, IsSorted-front q t s.2)
    where
      latest : (r : List (Task F)) → IsLatest x (r ++ t ∷ []) → IsLatest x r
      latest [] l = tt
      latest (u ∷ r) l = (l.0, latest r l.1)

  latest_last :
      (q : List (Task F)) (t : Task F)
      → IsSorted (q ++ t ∷ [])
      → IsSoonest t.due_at q × (is_nan t.due_at ≡ false)
  latest_last [] t s = (tt, s.0)
  latest_last (x ∷ q) t s = ((last q s.1, (latest_last q t s.2).0), (latest_last q t s.2).1)
    where
      last : (r : List (Task F)) → IsLatest x (r ++ t ∷ []) → gt x t ≡ false
      last [] l = l.0
      last (u ∷ r) l = last r l.1

  next_repetition_timed :
      (now : Float) (t : Task F)
      → is_nan now ≡ false
      → is_nan (add_float t.due_at t.interval) ≡ false
      → is_nan (next_repetition now t).due_at ≡ false
  unfolding next_repetition
  next_repetition_timed now t n m = ground arith

  repetition-IsSorted :
      (repeat : Bool) (t : Task F) (q : List (Task F))
      → is_nan t.due_at ≡ false
      → IsSorted q
      → IsSorted (if repeat then add t none q else q)
  repetition-IsSorted false t q n s = s
  repetition-IsSorted true t q n s = add-IsSorted t none q n s

  -- A task that `pop` returns from a sorted queue is due no later than any that stays behind, and
  -- the queue without it is sorted again, also where the task repeats, as long as the clock and the
  -- task's next due time are numbers.
  pub pop-IsSoonest :
      (now : Float) (q q' : List (Task F)) (t : Task F)
      → IsSorted q
      → is_nan now ≡ false
      → is_nan (add_float t.due_at t.interval) ≡ false
      → pop now q ≡ ok (t, q')
      → (rest : List (Task F)) × (q ≡ rest ++ t ∷ []) × IsSoonest t.due_at rest × IsSorted q'
  unfolding pop
  pop-IsSoonest now q q' t s n m e = elim (Option-cases (pop_last q)) [
    | inl f ↦ absurd (ground arith)
    | inr ((r, u), f) ↦
        let same_task : t ≡ u = ground arith in
        let left : q' ≡ (if t.repeat then add (next_repetition now t) none r else r) =
          ground arith in
        let split : q ≡ r ++ t ∷ [] = rw same_task (pop_last-eq q r u f) in
        let sorted : IsSorted (r ++ t ∷ []) = rw split at s in
        (
          r,
          split,
          (latest_last r t sorted).0,
          rw left (
              repetition-IsSorted t.repeat (next_repetition now t) r
                (next_repetition_timed now t n m) (IsSorted-front r t sorted)),
        )
  ]

  -- Without repetition `pop` takes one task out of the queue and leaves the others in their order.
  pop_last_once :
      (now : Float) (q : List (Task F)) (t : Task F)
      → t.repeat ≡ false
      → pop now (q ++ t ∷ []) ≡ ok (t, q)
  unfolding pop
  pop_last_once now q t e = ground (arith, pop_last-append q t)

  -- A task that is added for one run, and before which none of the queue is due, is the one that
  -- `pop` returns next, and the queue is then as it was before. So of tasks due at one time the
  -- newest runs first.
  pub pop-add :
      (now : Float) (x : Task F) (q : List (Task F))
      → IsSorted q
      → IsSoonest x.due_at q
      → pop now (add x (some false) q) ≡ ok (record x { repeat = false; called = false }, q)
  unfolding add
  pop-add now x q s soonest =
      let once = record x { repeat = false; called = false } in
      rw (insort-eq-insert_sorted once q s, insert_sorted-soonest once q soonest)
        (pop_last_once now q once refl)

  -- No task of the queue has this identity.
  abbrev pub IsFresh : ℕ → List (Task F) → Type 0
  IsFresh id [] = Unit {0}
  IsFresh id (u ∷ q) = ((u.id == id) ≡ false) × IsFresh id q

  cancel-insert_at :
      (k : ℕ) (x y : Task F) (q : List (Task F))
      → x.id ≡ y.id
      → IsFresh x.id q
      → cancel x (insert_at k y q) ≡ ok q
  unfolding cancel
  cancel-insert_at zero x y q e h = ground arith
  cancel-insert_at (suc k) x y [] e h = ground arith
  cancel-insert_at (suc k) x y (t ∷ q) e h = rw (cancel-insert_at k x y q e h.1, h.0)

  -- Cancelling a task right after it was added gives back the queue, if the task was not in it.
  pub cancel-add :
      (x : Task F) (repeat : Option Bool) (q : List (Task F))
      → IsFresh x.id q
      → cancel x (add x repeat q) ≡ ok q
  unfolding add insort
  cancel-add x none q h = cancel-insert_at _ x _ q refl h
  cancel-add x (some r) q h = cancel-insert_at _ x _ q refl h

  -- Cancelling a task that is not in the queue raises.
  pub cancel_missing :
      (x : Task F) (q : List (Task F)) → IsFresh x.id q → cancel x q ≡ err value_error
  unfolding cancel
  cancel_missing x [] h = refl
  cancel_missing x (t ∷ q) h = rw (cancel_missing x q h.1, h.0)
