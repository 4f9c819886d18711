-- ===== src/Remote/Client.antt =====
-- class RemoteChildProxy of zprocess/remote/__init__.py: the calls that wait for a child. What comes of
-- the requests is a list. Times are in seconds.
pub mod Waiting
pub mod Calls
use zprocess.Base.{
  ℕ, ◌+◌, Bool, true, false, Option, none, some, List, [], ◌∷◌, ltb, ◌==◌, if◌then◌else◌,
}
use zprocess.Remote.Server.Handler.{Response, code}

-- `returncode` is what the server last answered to wait or poll.
pub record Proxy : Type 0 where
  pub pid : ℕ
  pub returncode : Option Response

-- What a call comes to: an answer, an exception of a request, or no end of the answers yet.
pub data Outcome : Type 0 where
  returned : Response → Outcome
  raised waiting : Outcome

-- What comes of a request, and the time after it.
pub data Answer : Type 0 where
  answered : Response → ℕ → Answer
  failed : Answer

abbrev pub is_none : Response → Bool
is_none (code none) = true
is_none response = false

-- `monotonic() > deadline`, if there is one
abbrev pub is_late : Option ℕ → ℕ → Bool
is_late none now = false
is_late (some deadline) now = ltb deadline now

-- the loop of `RemoteChildProxy.wait`
unfoldable pub wait_loop : Option ℕ → List Answer → Proxy → Outcome × Proxy
wait_loop deadline [] proxy = (waiting, proxy)
wait_loop deadline (failed ∷ answers) proxy = (raised, proxy)
wait_loop deadline (answered result now ∷ answers) proxy =
    let proxy' : Proxy = record proxy { returncode = some result } in
    let later = wait_loop deadline answers proxy' in
    if is_none result
    then (if is_late deadline now then (returned result, proxy') else later)
    else (returned result, proxy')

abbrev pub deadline_of : ℕ → Option ℕ → Option ℕ
deadline_of now none = none
deadline_of now (some timeout) = some (now + timeout)

-- `RemoteChildProxy.wait`
unfoldable pub wait : ℕ → Option ℕ → List Answer → Proxy → Outcome × Proxy
wait now timeout = wait_loop (deadline_of now timeout)

-- `RemoteChildProxy.poll`
unfoldable pub poll : Answer → Proxy → Outcome × Proxy
poll failed proxy = (raised, proxy)
poll (answered result now) proxy = (returned result, record proxy { returncode = some result })
