-- ===== src/Process/Heartbeat/Deferred.antt =====
-- A heartbeat that fails while the process holds its kill lock (classes HeartbeatClient and KillLock of
-- zprocess/process_tree.py).
use zprocess.Base.{
  ℕ, zero, suc, ◌+◌, ◌≡◌, refl, ap, ◌∙◌, Bool, true, false, not, some, List, ◌∷◌, ◌==◌, arith,
}
use zprocess.Process.KillLock.{KillLock, done, sigterm, release}
use zprocess.Process.KillLock.Deferred.{
  Call, acquires, run, nesting, is_terminated, held, free, sigterms_deferred, sigterm-held,
  release_last,
}
use zprocess.Process.Heartbeat.{
  Client, Beat, silent, answered, context_terminated, killed, beat, mainloop,
}

-- a number of heartbeats that are echoed
abbrev pub echoes : ℕ → Client → List Beat → List Beat
echoes zero c beats = beats
echoes (suc n) c beats = answered c.pid ∷ echoes n c beats

-- Silence, or an answer that is not the echo.
abbrev pub is_failure : ℕ → Beat → Bool
is_failure pid silent = true
is_failure pid (answered msg) = not (msg == pid)
is_failure pid context_terminated = false

abbrev pub beaten : ℕ → Client → Client
beaten zero c = c
beaten (suc n) c = beaten n (beat c)

mainloop-is_failure :
    (n : ℕ) (b : Beat) (beats : List Beat) (c d : Client) (lock : KillLock)
    → c.pid ≡ d.pid
    → is_failure d.pid b ≡ true
    → mainloop (echoes n d (b ∷ beats)) c lock ≡ (killed, beaten (suc n) c, (sigterm lock).1)
unfolding mainloop
mainloop-is_failure zero silent beats c d lock e h = refl
mainloop-is_failure zero (answered msg) beats c d lock e h = ground arith
mainloop-is_failure zero context_terminated beats c d lock e h = absurd (ground arith)
mainloop-is_failure (suc n) b beats c d lock e h =
    ground (arith, mainloop-is_failure n b beats (beat c) d lock e h)

-- The first heartbeat that is not echoed, after any number of them, makes the thread send SIGTERM and
-- end. While the process holds its kill lock, whatever balanced calls it has made meanwhile, the
-- previous handler does not see that signal before the release that lets the lock go, and then sees
-- exactly one.
pub mainloop-release :
    (n : ℕ) (b : Beat) (beats : List Beat) (c : Client) (cs : List Call) (t : ℕ)
    → is_failure c.pid b ≡ true
    → nesting 0 cs ≡ some 0
    → (let (state, c', lock) =
          mainloop (echoes n c (b ∷ beats)) c (run (acquires ∷ cs) (free t)).1 in
        (state ≡ killed)
        × (c' ≡ beaten (suc n) c)
        × (lock.terminations ≡ t)
        × (release lock ≡ (done, free (t + 1))))
mainloop-release n b beats c cs t h k =
    let lock : KillLock = (run (acquires ∷ cs) (free t)).1 in
    let over = mainloop-is_failure n b beats c c lock refl h in
    let put_off : (sigterm lock).1 ≡ held 0 true t =
      ap (λ r. (sigterm r.1).1) (sigterms_deferred cs t k).0
      ∙ ap (λ r. r.1) (sigterm-held 0 (is_terminated cs) t) in
    (
      ap (λ r. r.0) over,
      ap (λ r. r.1) over,
      ap (λ r. r.2.terminations) over ∙ ap (λ l. l.terminations) put_off,
      ap (λ r. release r.2) over ∙ ap release put_off ∙ release_last true t,
    )
