-- ===== src/Remote/Client/Waiting.antt =====
-- How a wait for a remote child ends (RemoteChildProxy.wait of zprocess/remote/__init__.py).
use zprocess.Base.{ℕ, ◌≡◌, false, not, ◌&&◌, Option, none, some, List, [], ◌∷◌, arith}
use zprocess.Remote.Server.Handler.{Response, code}
use zprocess.Remote.Client.{
  Proxy, returned, Answer, answered, is_none, is_late, wait_loop, deadline_of, wait,
}

-- The child still runs at each of these times, and none is behind the deadline.
abbrev pub still_running : List ℕ → List Answer → List Answer
still_running [] answers = answers
still_running (now ∷ times) answers = answered (code none) now ∷ still_running times answers

abbrev pub AllInTime : Option ℕ → List ℕ → Type 0
AllInTime deadline [] = Unit
AllInTime deadline (now ∷ times) = (is_late deadline now ≡ false) × AllInTime deadline times

wait_loop-still_running :
    (deadline : Option ℕ) (times : List ℕ) (result : Response) (now : ℕ) (answers : List Answer)
    (proxy : Proxy)
    → AllInTime deadline times
    → (is_none result && not (is_late deadline now)) ≡ false
    → wait_loop deadline (still_running times (answered result now ∷ answers)) proxy
      ≡ (returned result, record proxy { returncode = some result })
unfolding wait_loop
wait_loop-still_running deadline [] result now answers proxy a h = ground arith
wait_loop-still_running deadline (time ∷ times) result now answers proxy a h = ground (
  arith,
  a.0,
  wait_loop-still_running deadline times result now answers
      (record proxy { returncode = some (code none) }) a.1 h,
)

-- A wait asks again as long as the child runs and the deadline, if there is one, has not passed. It ends
-- with the first answer that is not None or that comes behind the deadline, whatever that answer is, and
-- keeps it as the return code.
pub wait-still_running :
    (start : ℕ) (timeout : Option ℕ) (times : List ℕ) (result : Response) (now : ℕ)
    (answers : List Answer) (proxy : Proxy)
    → AllInTime (deadline_of start timeout) times
    → (is_none result && not (is_late (deadline_of start timeout) now)) ≡ false
    → wait start timeout (still_running times (answered result now ∷ answers)) proxy
      ≡ (returned result, record proxy { returncode = some result })
unfolding wait
wait-still_running start timeout times result now answers proxy a h =
    wait_loop-still_running (deadline_of start timeout) times result now answers proxy a h
