-- ===== src/Process/KillLock.antt =====
-- class KillLock of zprocess/process_tree.py, which puts SIGTERM off.
-- The kernel's part is in two fields: `installed` is whether the process's SIGTERM handler is
-- `_handler`, and `terminations` counts the SIGTERMs that reached the previous handler. A signal that
-- the process sends to itself is handled at once.
pub mod Deferred
use zprocess.Base.{ℕ, zero, suc, ◌+◌, ◌-◌, Bool, true, false, not, ◌&&◌, ◌==◌, if◌then◌else◌}

pub record KillLock : Type 0 where
  pub n_acquires : ℕ
  pub sigterm_received : Bool
  pub connected : Bool
  pub installed : Bool
  pub terminations : ℕ

-- each exception is a RuntimeError
pub data Error : Type 0 where
  already_connected not_connected another_handler lock_held not_held : Error

pub data Outcome : Type 0 where
  done : Outcome
  raised : Error → Outcome

abbrev pub M : Type 0
M = KillLock → Outcome × KillLock

abbrev pub resume : M → Outcome × KillLock → Outcome × KillLock
resume k (done, s) = k s
resume k (raised e, s) = (raised e, s)

infixl 5 ◌>>◌
abbrev pub ◌>>◌ : M → M → M
◌>>◌ m k s = resume k (m s)

unfoldable pub connect : M
connect s =
    if s.connected
    then (raised already_connected, s)
    else (done, record s { connected = true; installed = true })

-- `_check_connected`
unfoldable pub check_connected : M
check_connected s =
    if not s.connected
    then (raised not_connected, s)
    else (if not s.installed then (raised another_handler, s) else (done, s))

-- the rest of `disconnect`
unfoldable pub let_go : M
let_go s =
    if s.n_acquires == 0
    then (done, record s { connected = false; installed = false })
    else (raised lock_held, s)

unfoldable pub disconnect : M
disconnect = check_connected >> let_go

-- the rest of `acquire`
unfoldable pub count_up : M
count_up s = (done, record s { n_acquires = s.n_acquires + 1 })

unfoldable pub acquire : M
acquire = check_connected >> count_up

-- SIGTERM, at the previous handler
unfoldable pub previous_handler : M
previous_handler s = (done, record s { terminations = s.terminations + 1 })

-- `_term`: disconnect, send SIGTERM to the process, connect again
unfoldable pub term : M
term = disconnect >> (previous_handler >> connect)

-- `_handler`
unfoldable pub handler : M
handler s =
    if s.sigterm_received && s.n_acquires == 0
    then term (record s { sigterm_received = false })
    else (if s.n_acquires == 0 then term s else (done, record s { sigterm_received = true }))

-- SIGTERM arrives
unfoldable pub sigterm : M
sigterm s = if s.installed then handler s else previous_handler s

unfoldable pub release : M
release s =
    if s.n_acquires == 0
    then (raised not_held, s)
    else (let left = record s { n_acquires = s.n_acquires - 1 } in
        if left.sigterm_received && left.n_acquires == 0 then sigterm left else (done, left))

-- `__new__`, the first time
abbrev pub new_kill_lock : KillLock
new_kill_lock = record {
  n_acquires = 0;
  sigterm_received = false;
  connected = true;
  installed = true;
  terminations = 0;
}

-- A call made a number of times in a row.
unfoldable pub times : ℕ → M → M
times zero m s = (done, s)
times (suc n) m s = (m >> times n m) s
