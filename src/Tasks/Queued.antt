-- ===== src/Tasks/Queued.antt =====
-- The queue seen through the identities of its tasks: what each identity would call
-- (zprocess/tasks.py, TaskQueue).
use zprocess.Base.{
  ℕ, zero, suc, ◌≡◌, refl, true, false, Option, none, some, List, [], ◌∷◌, insert_at, ◌==◌,
  if◌then◌else◌, arith, inl, inr, Bool-cases,
}
use zprocess.Base.Float.{Float}
use zprocess.Tasks.{Task, ok, insort, add, pop_last, pop, call, cancel}

module _ {ℓ} {F : Type ℓ} where
  -- the function of the task with this identity
  unfoldable pub queued : ℕ → List (Task F) → Option F
  queued i [] = none
  queued i (t ∷ q) = if t.id == i then some t.func else queued i q

  -- Every task has yet to be called, runs once, and has an identity of its own.
  abbrev pub IsClean : List (Task F) → Type ℓ
  IsClean [] = Unit
  IsClean (t ∷ q) = (t.called ≡ false) × (t.repeat ≡ false) × (queued t.id q ≡ none) × IsClean q

  queued-insert_at :
      (i k : ℕ) (x : Task F) (q : List (Task F))
      → queued x.id q ≡ none
      → queued i (insert_at k x q) ≡ (if x.id == i then some x.func else queued i q)
  unfolding queued
  queued-insert_at i zero x q n = refl
  queued-insert_at i (suc k) x [] n = refl
  queued-insert_at i (suc k) x (t ∷ q) n = ground (arith, queued-insert_at i k x q)

  insert_at-IsClean :
      (k : ℕ) (x : Task F) (q : List (Task F))
      → x.called ≡ false
      → x.repeat ≡ false
      → queued x.id q ≡ none
      → IsClean q
      → IsClean (insert_at k x q)
  unfolding queued
  insert_at-IsClean zero x q c r n v = (c, r, n, v)
  insert_at-IsClean (suc k) x [] c r n v = (c, r, n, v)
  insert_at-IsClean (suc k) x (t ∷ q) c r n v = (
    v.0,
    v.1,
    ground (arith, queued-insert_at t.id k x q),
    insert_at-IsClean k x q c r (ground arith) v.3,
  )

  pub queued-add :
      (i : ℕ) (x : Task F) (q : List (Task F))
      → queued x.id q ≡ none
      → queued i (add x none q) ≡ (if x.id == i then some x.func else queued i q)
  unfolding add insort
  queued-add i x q n = queued-insert_at i _ (record x { called = false }) q n

  pub add-IsClean :
      (x : Task F) (q : List (Task F))
      → x.repeat ≡ false
      → queued x.id q ≡ none
      → IsClean q
      → IsClean (add x none q)
  unfolding add insort
  add-IsClean x q r n v = insert_at-IsClean _ (record x { called = false }) q refl r n v

  -- What a queue becomes when the task with this identity leaves it.
  pub record Without (i : ℕ) (q rest : List (Task F)) : Type ℓ where
    pub others : (j : ℕ) → queued j rest ≡ (if i == j then none else queued j q)
    pub clean : IsClean rest

  -- A task that is in the queue can be cancelled, and only it leaves the queue.
  pub cancel-Without :
      (x : Task F) (f : F) (q : List (Task F))
      → queued x.id q ≡ some f
      → IsClean q
      → (rest : List (Task F)) × (cancel x q ≡ ok rest) × Without x.id q rest
  unfolding queued cancel
  cancel-Without x f [] e v = absurd (ground arith)
  cancel-Without x f (t ∷ q) e v = elim (Bool-cases (t.id == x.id)) [
    | inl here ↦ (q, ground arith, record { others = λ j. ground (arith, v.2); clean = v.3 })
    | inr there ↦
        let (rest, c, w) = cancel-Without x f q (ground arith) v.3 in
        (
          t ∷ rest,
          ground arith,
          record {
            others = λ j. ground (arith, w.others j);
            clean = (v.0, v.1, ground (arith, w.others t.id), w.clean);
          },
        )
  ]

  -- What `pop_last` takes from a queue that is not empty.
  record Popped (q rest : List (Task F)) (x : Task F) : Type ℓ where
    popped : pop_last q ≡ some (rest, x)
    once : x.repeat ≡ false
    fresh : x.called ≡ false
    here : queued x.id q ≡ some x.func
    without : Without x.id q rest

  pop_last-Popped :
      (t : Task F) (q : List (Task F))
      → IsClean (t ∷ q)
      → (x : Task F) × (rest : List (Task F)) × Popped (t ∷ q) rest x
  unfolding queued pop_last
  pop_last-Popped t [] v = (
    t,
    [],
    record {
      popped = refl;
      once = v.1;
      fresh = v.0;
      here = ground arith;
      without = record { others = λ j. ground arith; clean = tt };
    },
  )
  pop_last-Popped t (u ∷ q) v =
      let (x, rest, l) = pop_last-Popped u q v.3 in
      (
        x,
        t ∷ rest,
        record {
          popped = ground (arith, l.popped);
          once = l.once;
          fresh = l.fresh;
          here = ground (arith, l.here, v.2);
          without = record {
            others = λ j. ground (arith, l.without.others j, l.here, v.2);
            clean = (v.0, v.1, ground (arith, l.without.others t.id, v.2), l.without.clean);
          };
        },
      )

  -- A queue that is not empty gives up one task, which can be called.
  pub pop-Without :
      (now : Float) (t : Task F) (q : List (Task F))
      → IsClean (t ∷ q)
      → (x : Task F) × (rest : List (Task F)) × (pop now (t ∷ q) ≡ ok (x, rest))
        × (queued x.id (t ∷ q) ≡ some x.func)
        × (call x ≡ ok (record x { called = true }, x.func))
        × Without x.id (t ∷ q) rest
  unfolding pop call
  pop-Without now t q v =
      let (x, rest, l) = pop_last-Popped t q v in
      (x, rest, ground (arith, l.popped, l.once), l.here, ground (arith, l.fresh), l.without)
