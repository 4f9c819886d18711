-- ===== src/Process/Output.antt =====
-- classes StreamProxy and OutputInterceptor of zprocess/process_tree.py: a stream of the process is
-- redirected to a socket, for Python code by a proxy in `sys`, for all else by a pipe in place of its
-- file descriptor. What the operating system gives out (the descriptors of `os.dup` and `os.pipe`) is
-- an argument. Files, bytes and interceptors are numbers; the buffers of the C library are left out.
pub mod Restored
mod Examples
use zprocess.Base.{
  ℕ, ltb, Bool, true, false, not, ◌||◌, Option, none, some, List, [], ◌∷◌, ◌==◌, if◌then◌else◌,
  is_empty,
}

pub data StreamName : Type 0 where
  stdout stderr : StreamName

abbrev pub same_name : StreamName → StreamName → Bool
same_name stdout stdout = true
same_name stderr stderr = true
same_name a b = false

-- `sys.stdout` or `sys.stderr`: None, one with this `fileno()` (none if that is unsupported), or a
-- StreamProxy with its `fd`.
pub data Stream : Type 0 where
  missing : Stream
  python : Option ℕ → Stream
  proxy : ℕ → Stream

-- `fds` is the table of file descriptors and `original` has `sys.__stdout__` and `sys.__stderr__`.
-- `sent` has the messages on the socket, the newest first.
pub record System : Type 0 where
  pub fds : ℕ → Option ℕ
  pub stream : StreamName → Stream
  pub original : StreamName → Stream
  pub streams_connected : StreamName → Option ℕ
  pub sent : List (List ℕ × List ℕ)

-- `running` is whether `mainloop_thread` is there.
pub record Interceptor : Type 0 where
  pub id : ℕ
  pub streamname : StreamName
  pub stream_fd : Option ℕ
  pub backup_fd : Option ℕ
  pub read_pipe_fd : Option ℕ
  pub running : Bool
  pub shutting_down : Bool

-- `OutputInterceptor.__init__`, as far as the state goes
abbrev pub new_interceptor : ℕ → StreamName → Interceptor
new_interceptor id name = record {
  id = id;
  streamname = name;
  stream_fd = none;
  backup_fd = none;
  read_pipe_fd = none;
  running = false;
  shutting_down = false;
}

pub data Error : Type 0 where
  runtime_error os_error type_error : Error

-- `waiting`: the call waits for a thread that does not end.
pub data Outcome : Type 0 where
  done waiting : Outcome
  raised : Error → Outcome

abbrev pub set_fd : ℕ → Option ℕ → System → System
set_fd fd file s = record s { fds = λ k. if fd == k then file else s.fds k }

abbrev pub set_stream : StreamName → Stream → System → System
set_stream name stream s = record s {
  stream = λ n. if same_name name n then stream else s.stream n;
}

abbrev pub set_connected : StreamName → Option ℕ → System → System
set_connected name id s = record s {
  streams_connected = λ n. if same_name name n then id else s.streams_connected n;
}

-- What `os.dup` and `os.pipe` return, and the two ends of the pipe as files.
pub record Given : Type 0 where
  pub backup : ℕ
  pub read_end : ℕ
  pub write_end : ℕ
  pub pipe_out : ℕ
  pub pipe_in : ℕ

abbrev pub standard_fd : StreamName → ℕ
standard_fd stdout = 1
standard_fd stderr = 2

-- the file descriptor of a stream, or the standard one
unfoldable pub fd_of : StreamName → Stream → ℕ
fd_of name missing = standard_fd name
fd_of name (python none) = standard_fd name
fd_of name (python (some fd)) = if ltb 0 fd then fd else standard_fd name
fd_of name (proxy fd) = if ltb 0 fd then fd else standard_fd name

-- the redirection, where `file` is the file behind the descriptor `fd`
unfoldable pub redirect :
    Given → ℕ → Option ℕ → Interceptor → System → Outcome × Interceptor × System
redirect given fd none i s = (raised os_error, record i { stream_fd = some fd }, s)
redirect given fd (some file) i s = (
  done,
  record i {
    stream_fd = some fd;
    backup_fd = some given.backup;
    read_pipe_fd = some given.read_end;
    running = true;
  },
  set_stream i.streamname (proxy given.write_end) (
      set_fd fd (some given.pipe_in) (
        set_fd given.write_end (some given.pipe_in)
          (set_fd given.read_end (some given.pipe_out) (set_fd given.backup (some file) s)))),
)

-- `connect`
unfoldable pub connect : Given → Interceptor → System → Outcome × Interceptor × System
connect given i s = elim (s.streams_connected i.streamname) [
  | some id ↦ (raised runtime_error, i, s)
  | none ↦
      let fd = fd_of i.streamname (s.stream i.streamname) in
      redirect given fd (s.fds fd) i (set_connected i.streamname (some i.id) s)
]

-- What a read of the pipe gives the thread, and whether `shutting_down` is set then.
pub record Read : Type 0 where
  pub chunk : List ℕ
  pub is_shutting_down : Bool

abbrev pub name_bytes : StreamName → List ℕ
name_bytes stdout = 115 ∷ 116 ∷ 100 ∷ 111 ∷ 117 ∷ 116 ∷ []
name_bytes stderr = 115 ∷ 116 ∷ 100 ∷ 101 ∷ 114 ∷ 114 ∷ []

abbrev pub send : List ℕ → List ℕ → System → System
send charformat bytes s = record s { sent = (charformat, bytes) ∷ s.sent }

abbrev pub close_read_end : Interceptor → System → Interceptor × System
close_read_end i s = elim i.read_pipe_fd [
  | none ↦ (i, s)
  | some fd ↦ (record i { read_pipe_fd = none }, set_fd fd none s)
]

-- `_mainloop` over the reads: the last component is whether it has ended
unfoldable pub mainloop : List Read → Interceptor → System → Interceptor × System × Bool
mainloop [] i s = (i, s, false)
mainloop (r ∷ reads) i s =
    let (i', s') = close_read_end i s in
    let later = mainloop reads i (send (name_bytes i.streamname) r.chunk s) in
    if is_empty r.chunk || r.is_shutting_down then (i', s', true) else later

-- `b'<dummy message>'`, of which only that it is not empty counts
abbrev pub dummy : List ℕ
dummy = 60 ∷ []

abbrev pub fileno : Stream → Option ℕ
fileno missing = none
fileno (python fd) = fd
fileno (proxy fd) = some fd

-- the end of `disconnect`, behind the loop
unfoldable pub joined : Interceptor × System × Bool → Outcome × Interceptor × System
joined (i, s, false) = (waiting, i, s)
joined (i, s, true) = (done, record i { running = false; shutting_down = false }, s)

abbrev pub is_pipe : Given → Option ℕ → Bool
is_pipe given none = false
is_pipe given (some file) = file == given.pipe_in

-- the fields that `connect` has set; without them `os.dup2` raises a TypeError
unfoldable pub shut_down :
    Given → Option ℕ → Option ℕ → Interceptor → System → Outcome × Interceptor × System
shut_down given (some fd) (some backup) i s =
    let restored = set_fd backup none (set_fd fd (s.fds backup) s) in
    let i' : Interceptor = record i { stream_fd = none; backup_fd = none; shutting_down = true } in
    elim (fileno (s.stream i.streamname)) [
      | none ↦ (raised os_error, i', restored)
      | some out ↦
          let reads : List Read =
            if is_pipe given (restored.fds out)
            then record { chunk = dummy; is_shutting_down = true } ∷ []
            else [] in
          joined (
            mainloop reads i'
              (set_stream i.streamname (s.original i.streamname) (set_fd out none restored)))
    ]
shut_down given fd backup i s = (raised type_error, i, s)

-- `disconnect`: the read of the thread returns if the dummy message goes into its pipe
unfoldable pub disconnect : Given → Interceptor → System → Outcome × Interceptor × System
disconnect given i s = elim (s.streams_connected i.streamname) [
  | none ↦ (raised runtime_error, i, s)
  | some id ↦
      if not (id == i.id)
      then (raised runtime_error, i, s)
      else shut_down given i.stream_fd i.backup_fd i (set_connected i.streamname none s)
]

-- `StreamProxy.write`, for text that is already encoded
unfoldable pub write : StreamName → Option (List ℕ) → List ℕ → System → System
write name none bytes s = send (name_bytes name) bytes s
write name (some charformat) bytes s = send charformat bytes s

-- `_StreamProxyBuffer.write`, of bytes or of something else
unfoldable pub write_buffer : StreamName → Option (List ℕ) → System → Outcome × System
write_buffer name none s = (raised type_error, s)
write_buffer name (some bytes) s = (done, write name none bytes s)

-- `StreamProxy.close`
unfoldable pub close : ℕ → System → System
close fd s = set_fd fd none s
