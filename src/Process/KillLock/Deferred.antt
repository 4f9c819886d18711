-- ===== src/Process/KillLock/Deferred.antt =====
-- SIGTERMs that arrive while the kill lock is held (zprocess/process_tree.py, KillLock).
use zprocess.Base.{
  ℕ, zero, suc, ◌+◌, ◌≡◌, refl, List, [], ◌∷◌, ◌++◌, Option, some, none, Bool, true, false, ◌||◌,
  if◌then◌else◌, ◌∙◌, sym, ap, arith,
}
use mathlib.Core.List.{append-nil}
use zprocess.Process.KillLock.{
  KillLock, done, M, resume, ◌>>◌, connect, check_connected, let_go, disconnect, count_up, acquire,
  previous_handler, term, handler, sigterm, release,
}

-- What can happen to a connected kill lock.
pub data Call : Type 0 where
  acquires terminates releases : Call

unfoldable pub call : Call → M
call acquires = acquire
call terminates = sigterm
call releases = release

-- The calls one after another, up to the first that raises.
unfoldable pub run : List Call → M
run [] s = (done, s)
run (c ∷ cs) s = (call c >> run cs) s

-- The states of a kill lock that is connected, with its own handler in place: free, or held n + 1
-- times over. A SIGTERM is remembered only while it is held.
abbrev pub free : ℕ → KillLock
free t = record {
  n_acquires = 0;
  sigterm_received = false;
  connected = true;
  installed = true;
  terminations = t;
}

abbrev pub held : ℕ → Bool → ℕ → KillLock
held n b t = record {
  n_acquires = suc n;
  sigterm_received = b;
  connected = true;
  installed = true;
  terminations = t;
}

-- How often the lock is held beyond the first time after the calls, if they never let it go.
unfoldable pub nesting : ℕ → List Call → Option ℕ
nesting n [] = some n
nesting n (acquires ∷ cs) = nesting (suc n) cs
nesting n (terminates ∷ cs) = nesting n cs
nesting zero (releases ∷ cs) = none
nesting (suc n) (releases ∷ cs) = nesting n cs

-- Whether a SIGTERM arrives among the calls.
unfoldable pub is_terminated : List Call → Bool
is_terminated [] = false
is_terminated (acquires ∷ cs) = is_terminated cs
is_terminated (terminates ∷ cs) = true
is_terminated (releases ∷ cs) = is_terminated cs

acquire-held : (n : ℕ) (b : Bool) (t : ℕ) → acquire (held n b t) ≡ (done, held (suc n) b t)
unfolding acquire check_connected count_up
acquire-held n b t = ground arith

pub sigterm-held : (n : ℕ) (b : Bool) (t : ℕ) → sigterm (held n b t) ≡ (done, held n true t)
unfolding sigterm handler
sigterm-held n b t = ground arith

release-held : (n : ℕ) (b : Bool) (t : ℕ) → release (held (suc n) b t) ≡ (done, held n b t)
unfolding release
release-held n b t = ground arith

pub release_last : (b : Bool) (t : ℕ) → release (held 0 b t) ≡ (done, free (if b then t + 1 else t))
unfolding release sigterm handler term disconnect check_connected let_go previous_handler connect
release_last false t = refl
release_last true t = refl

run_step :
    (c : Call) (cs : List Call) (s s' : KillLock)
    → call c s ≡ (done, s')
    → run (c ∷ cs) s ≡ run cs s'
unfolding run
run_step c cs s s' h = ap (resume (run cs)) h

-- Calls that never let the lock go leave it held as their nesting says, SIGTERM remembered if one
-- arrived, and nothing sent to the previous handler.
run-held :
    (cs ds : List Call) (n m : ℕ) (b : Bool) (t : ℕ)
    → nesting n cs ≡ some m
    → run (cs ++ ds) (held n b t) ≡ run ds (held m (b || is_terminated cs) t)
unfolding run nesting is_terminated call
run-held [] ds n m b t h = ground arith
run-held (acquires ∷ cs) ds n m b t h =
    run_step acquires (cs ++ ds) _ _ (acquire-held n b t) ∙ run-held cs ds (suc n) m b t h
run-held (terminates ∷ cs) ds n m b t h =
    run_step terminates (cs ++ ds) _ _ (sigterm-held n b t)
    ∙ ground (arith, run-held cs ds n m true t h)
run-held (releases ∷ cs) ds zero m b t h = ground arith
run-held (releases ∷ cs) ds (suc n) m b t h =
    run_step releases (cs ++ ds) _ _ (release-held n b t) ∙ run-held cs ds n m b t h

run_nil : (s : KillLock) → run [] s ≡ (done, s)
unfolding run
run_nil s = refl

-- Whatever calls and SIGTERMs come between an acquisition of a free lock and the release that lets
-- it go, none raises, and the previous handler sees nothing before that release; it then sees exactly
-- one SIGTERM if any arrived, and none otherwise; the lock is free and connected again.
pub sigterms_deferred :
    (cs : List Call) (t : ℕ)
    → nesting 0 cs ≡ some 0
    → (run (acquires ∷ cs) (free t) ≡ (done, held 0 (is_terminated cs) t))
      × (run (acquires ∷ (cs ++ (releases ∷ []))) (free t)
          ≡ (done, free (if is_terminated cs then t + 1 else t)))
unfolding run call acquire check_connected count_up
sigterms_deferred cs t h = (
  sym (ap (λ ds. run ds (held 0 false t)) (append-nil cs)) ∙ run-held cs [] 0 0 false t h,
  run-held cs (releases ∷ []) 0 0 false t h
      ∙ run_step releases [] _ _ (release_last (is_terminated cs) t)
      ∙ run_nil _,
)
