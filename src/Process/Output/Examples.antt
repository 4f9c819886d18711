-- ===== src/Process/Output/Examples.antt =====
-- A process whose stdout is redirected and restored.
use zprocess.Base.{◌≡◌, refl, none, some, [], ltb, if◌then◌else◌, arith}
use zprocess.Process.Output.{
  stdout, stderr, python, System, new_interceptor, Given, fd_of, redirect, connect, raised,
  runtime_error,
}
use zprocess.Process.Output.Restored.{IsUndone, connect-IsUndone}

-- the descriptors 0 to 2 are open
abbrev console : System
console = record {
  fds = λ fd. if ltb fd 3 then some fd else none;
  stream = λ name. elim name [ stdout ↦ python (some 1) | stderr ↦ python (some 2) ];
  original = λ name. elim name [ stdout ↦ python (some 1) | stderr ↦ python (some 2) ];
  streams_connected = λ name. none;
  sent = [];
}

abbrev given_out : Given
given_out = record { backup = 3; read_end = 4; write_end = 5; pipe_out = 10; pipe_in = 11 }

connect-IsUndone_example : IsUndone given_out 9 stdout console
unfolding fd_of
connect-IsUndone_example =
    connect-IsUndone given_out 9 1 stdout console refl refl refl
      (refl, refl, refl, λ h. ground arith, λ h. ground arith, λ h. ground arith)

-- a second redirection of a stream is refused
twice_raises :
    let (o, i, s) = connect given_out (new_interceptor 9 stdout) console in
    (connect given_out (new_interceptor 8 stdout) s).0 ≡ raised runtime_error
unfolding connect redirect fd_of
twice_raises = refl
