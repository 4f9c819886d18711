-- ===== src/Messages/Sender/Calls.antt =====
-- What a call of a sender leaves behind (zprocess/clientserver.py, _Sender.__call__).
use zprocess.Base.{ℕ, ◌≡◌, Bool, true, false, ◌&&◌, ◌==◌, if◌then◌else◌}
use zprocess.Process.Interruptor.{Interruptor, is_free}
use zprocess.Messages.Sender.{Sender, Outcome, raised, waiting, data_error, host_error, port_error}

-- The socket, where there was one before or not: it stays as it was if the host or the port was no good,
-- is there where the message itself was refused, and is gone after any other exception.
abbrev pub sock_after : Bool → Outcome → Bool
sock_after before (raised host_error) = before
sock_after before (raised port_error) = before
sock_after before (raised (data_error e)) = true
sock_after before (raised e) = false
sock_after before outcome = true

abbrev pub is_waiting : Outcome → Bool
is_waiting waiting = true
is_waiting outcome = false

-- What a call leaves behind, seen at thread `t`: its socket, and who is subscribed. A call that waits is
-- subscribed, unless it waits for the interruptor.
abbrev pub Leaves : Bool → ℕ → Interruptor → ℕ → Outcome × Sender × Interruptor → Type 0
Leaves before thread i t (outcome, s', i') =
    (s'.sock ≡ sock_after before outcome)
    × (i'.subscribed t ≡ (if thread == t then is_waiting outcome && is_free i else i.subscribed t))

-- whether the exception is about what the call was given
abbrev is_rejected : Outcome → Bool
is_rejected (raised host_error) = true
is_rejected (raised port_error) = true
is_rejected (raised (data_error e)) = true
is_rejected outcome = false

-- with a socket, and not a rejection of what the call was given
abbrev Keeps : Outcome × Sender → Type 0
Keeps (outcome, s) = (s.sock ≡ true) × (is_rejected outcome ≡ false)

-- a socket that is there, or the exception of one that could not be made
abbrev Connected : Bool → Outcome × Sender → Type 0
Connected before (outcome, s) = (s.sock ≡ sock_after before outcome) × (is_waiting outcome ≡ false)
