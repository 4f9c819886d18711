-- ===== src/Tasks/Bisect.antt =====
-- The binary search of `insort` (zprocess/tasks.py, TaskQueue.add), and a search from the front.
use zprocess.Base.{
  ℕ, zero, suc, ◌+◌, ◌/◌, ◌≤◌, ◌<◌, ◌≡◌, refl, ap, true, false, List, [], ◌∷◌, length, insert_at,
  ltb, if◌then◌else◌, arith, inl, inr, Bool-cases,
}
use zprocess.Base.Float.{is_nan, ltb_float-of_le}
use zprocess.Tasks.{Task, gt, precedes, bisect, insort}

module _ {ℓ} {F : Type ℓ} where
  -- No task of the queue is due later than this one.
  abbrev pub IsLatest : Task F → List (Task F) → Type 0
  IsLatest t [] = Unit {0}
  IsLatest t (u ∷ q) = (gt t u ≡ false) × IsLatest t q

  -- Due times are numbers and fall along the list.
  abbrev pub IsSorted : List (Task F) → Type 0
  IsSorted [] = Unit {0}
  IsSorted (t ∷ q) = (is_nan t.due_at ≡ false) × IsLatest t q × IsSorted q

  -- Insertion by a search from the front.
  unfoldable pub insert_sorted : Task F → List (Task F) → List (Task F)
  insert_sorted x [] = x ∷ []
  insert_sorted x (t ∷ q) = if gt t x then x ∷ t ∷ q else t ∷ insert_sorted x q

  precedes_later :
      (x t : Task F) (q : List (Task F)) (j : ℕ)
      → gt t x ≡ true
      → IsLatest t q
      → IsSorted q
      → j < length q
      → precedes x q j ≡ true
  precedes_later x t [] j h l s lt = absurd (omega arith)
  precedes_later x t (u ∷ q) zero h l s lt = ltb_float-of_le t.due_at u.due_at x.due_at s.0 h l.0
  precedes_later x t (u ∷ q) (suc j) h l s lt = precedes_later x t q j h l.1 s.2 (omega arith)

  precedes_mono :
      (x : Task F) (q : List (Task F)) (i j : ℕ)
      → IsSorted q
      → i ≤ j
      → j < length q
      → precedes x q i ≡ true
      → precedes x q j ≡ true
  precedes_mono x [] i j s le lt h = absurd (omega arith)
  precedes_mono x (t ∷ q) zero zero s le lt h = h
  precedes_mono x (t ∷ q) zero (suc j) s le lt h = precedes_later x t q j h s.1 s.2 (omega arith)
  precedes_mono x (t ∷ q) (suc i) zero s le lt h = absurd (omega arith)
  precedes_mono x (t ∷ q) (suc i) (suc j) s le lt h =
      precedes_mono x q i j s.2 (omega arith) (omega arith) h

  -- The place `k` splits the queue: before it nothing is preceded, from it on everything.
  record Splits (x : Task F) (q : List (Task F)) (k : ℕ) : Type 0 where
    within : k ≤ length q
    before : (i : ℕ) → i < k → precedes x q i ≡ false
    after : (i : ℕ) → k ≤ i → i < length q → precedes x q i ≡ true

  insert_at_split :
      (x : Task F) (q : List (Task F)) (k : ℕ) → Splits x q k → insert_at k x q ≡ insert_sorted x q
  unfolding insert_sorted
  insert_at_split x [] zero s = refl
  insert_at_split x [] (suc k) s = absurd (omega (arith, s.within))
  insert_at_split x (t ∷ q) zero s = rw (s.after 0 (omega arith) (omega arith))
  insert_at_split x (t ∷ q) (suc k) s =
      rw (s.before 0 (omega arith)) (ap (◌∷◌ t) (insert_at_split x q k rest))
    where
      rest : Splits x q k
      rest = record {
        within = omega (arith, s.within);
        before = λ i h. s.before (suc i) (omega arith);
        after = λ i h k. s.after (suc i) (omega arith) (omega arith);
      }

  -- The loop ends with such a place, whatever the interval, if the fuel covers it.
  bisect-Splits :
      (fuel : ℕ) (q : List (Task F)) (x : Task F) (lo hi : ℕ)
      → IsSorted q
      → lo ≤ hi
      → hi ≤ length q
      → hi ≤ lo + fuel
      → ((i : ℕ) → i < lo → precedes x q i ≡ false)
      → ((i : ℕ) → hi ≤ i → i < length q → precedes x q i ≡ true)
      → Splits x q (bisect fuel q x lo hi)
  unfolding bisect
  bisect-Splits zero q x lo hi s le len fuel low high = record {
    within = omega arith;
    before = low;
    after = λ i h k. high i (omega arith) k;
  }
  bisect-Splits (suc fuel) q x lo hi s le len enough low high = elim (Bool-cases (ltb lo hi)) [
    | inr done ↦
        rw done
          (record { within = omega arith; before = low; after = λ i h k. high i (ground arith) k })
    | inl more ↦ elim (Bool-cases (precedes x q ((lo + hi) / 2))) [
      | inl yes' ↦
          rw (more, yes')
            (bisect-Splits fuel q x lo ((lo + hi) / 2) s (omega arith) (omega arith) (ground arith)
              low (λ i h k. precedes_mono x q ((lo + hi) / 2) i s h k yes'))
      | inr no' ↦
          rw (more, no')
            (bisect-Splits fuel q x ((lo + hi) / 2 + 1) hi s (ground arith) len (ground arith)
              (before_mid (ground arith) no') high)
    ]
  ]
    where
      before_mid :
          lo < hi
          → precedes x q ((lo + hi) / 2) ≡ false
          → (i : ℕ) → i < (lo + hi) / 2 + 1
          → precedes x q i ≡ false
      before_mid room miss i h = elim (Bool-cases (precedes x q i)) [
        | inr e ↦ e
        | inl e ↦ cc (precedes_mono x q i ((lo + hi) / 2) s (omega arith) (omega arith) e)
      ]

  -- On a sorted queue the binary search inserts where the search from the front does.
  pub insort-eq-insert_sorted :
      (x : Task F) (q : List (Task F)) → IsSorted q → insort x q ≡ insert_sorted x q
  unfolding insort
  insort-eq-insert_sorted x q s = insert_at_split x q _ (
      bisect-Splits (length q) q x 0 (length q) s (omega arith) (omega arith) (omega arith)
        (λ i h. absurd (omega arith)) (λ i h k. absurd (omega arith)))
