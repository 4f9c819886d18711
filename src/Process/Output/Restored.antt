-- ===== src/Process/Output/Restored.antt =====
-- A redirection and its end (zprocess/process_tree.py, OutputInterceptor).
use zprocess.Base.{ℕ, ◌≡◌, ◌≢◌, refl, sym, true, false, none, some, arith}
use mathlib.Core.Path.{subst}
use zprocess.Process.Output.{
  StreamName, proxy, System, Interceptor, new_interceptor, Outcome, done, set_fd, set_stream,
  set_connected, Given, fd_of, redirect, connect, is_pipe, mainloop, joined, shut_down, disconnect,
}

-- The system gives out descriptors that are not in use, each once.
abbrev pub AreFresh : Given → System → Type 0
AreFresh given s =
    (s.fds given.backup ≡ none)
    × (s.fds given.read_end ≡ none)
    × (s.fds given.write_end ≡ none)
    × (given.backup ≢ given.read_end)
    × (given.backup ≢ given.write_end)
    × (given.read_end ≢ given.write_end)

-- The two systems have the same descriptors, streams and redirections, and nothing was sent.
abbrev pub IsSame : System → System → Type 0
IsSame s s' =
    ((fd : ℕ) → s'.fds fd ≡ s.fds fd)
    × ((name : StreamName) → s'.stream name ≡ s.stream name)
    × ((name : StreamName) → s'.streams_connected name ≡ s.streams_connected name)
    × (s'.sent ≡ s.sent)

-- the system and the interceptor once it is connected
abbrev redirected : Given → ℕ → ℕ → StreamName → ℕ → System → System
redirected given id fd name file s = set_stream name (proxy given.write_end) (
    set_fd fd (some given.pipe_in) (
      set_fd given.write_end (some given.pipe_in) (
        set_fd given.read_end (some given.pipe_out)
          (set_fd given.backup (some file) (set_connected name (some id) s)))))

abbrev redirecting : Given → ℕ → ℕ → StreamName → Interceptor
redirecting given id fd name = record {
  id = id;
  streamname = name;
  stream_fd = some fd;
  backup_fd = some given.backup;
  read_pipe_fd = some given.read_end;
  running = true;
  shutting_down = false;
}

connect-eq :
    (given : Given) (id fd : ℕ) (name : StreamName) (file : ℕ) (s : System)
    → s.streams_connected name ≡ none
    → fd_of name (s.stream name) ≡ fd
    → s.fds fd ≡ some file
    → connect given (new_interceptor id name) s
      ≡ (done, redirecting given id fd name, redirected given id fd name file s)
unfolding connect redirect
connect-eq given id fd name file s c f e = ground arith

-- the system at the end: the pipe is closed, and the backup is back in its place
abbrev ended : Given → ℕ → StreamName → System → System
ended given fd name s = set_fd given.read_end none (
    set_stream name (s.original name) (
      set_fd given.write_end none
        (set_fd given.backup none (set_fd fd (s.fds given.backup) (set_connected name none s)))))

disconnect-eq :
    (given : Given) (id fd : ℕ) (name : StreamName) (s : System)
    → s.streams_connected name ≡ some id
    → s.stream name ≡ proxy given.write_end
    → is_pipe given
        ((set_fd given.backup none (set_fd fd (s.fds given.backup) s)).fds given.write_end)
      ≡ true
    → disconnect given (redirecting given id fd name) s
      ≡ (done, new_interceptor id name, ended given fd name s)
unfolding disconnect shut_down mainloop joined
disconnect-eq given id fd name s c p e = ground arith

ended-fds :
    (given : Given) (id fd : ℕ) (name : StreamName) (file : ℕ) (s : System) (k : ℕ)
    → AreFresh given s
    → s.fds fd ≡ some file
    → (ended given fd name (redirected given id fd name file s)).fds k ≡ s.fds k
ended-fds given id fd name file s k (b, r, w, br, bw, rw') e = ground arith

ended-stream :
    (given : Given) (id fd : ℕ) (name : StreamName) (file : ℕ) (s : System) (n : StreamName)
    → s.stream name ≡ s.original name
    → (ended given fd name (redirected given id fd name file s)).stream n ≡ s.stream n
ended-stream given id fd name file s n h = ground arith

ended-connected :
    (given : Given) (id fd : ℕ) (name : StreamName) (file : ℕ) (s : System) (n : StreamName)
    → s.streams_connected name ≡ none
    → (ended given fd name (redirected given id fd name file s)).streams_connected n
      ≡ s.streams_connected n
ended-connected given id fd name file s n h = ground arith

-- the pipe is at its write end when the dummy message is written, whichever descriptor was redirected
still_pipe :
    (given : Given) (id fd : ℕ) (name : StreamName) (file : ℕ) (s : System)
    → AreFresh given s
    → s.fds fd ≡ some file
    → let s' = redirected given id fd name file s in
      is_pipe given
        ((set_fd given.backup none (set_fd fd (s'.fds given.backup) s')).fds given.write_end)
      ≡ true
still_pipe given id fd name file s (b, r, w, br, bw, rw') e = ground arith

-- The outcome of a redirection that is ended at once: both calls return, the interceptor is as it was
-- made, and the system as it was before.
abbrev pub IsUndone : Given → ℕ → StreamName → System → Type 0
IsUndone given id name s =
    let (o, i, s') = connect given (new_interceptor id name) s in
    let (o', i', s'') = disconnect given i s' in
    (o ≡ done) × (o' ≡ done) × (i' ≡ new_interceptor id name) × IsSame s s''

-- A redirection that is ended leaves nothing behind: if the stream is Python's own and not yet
-- redirected, its descriptor is open and the system gives out unused descriptors, then `connect` and
-- `disconnect` both return, every descriptor refers to what it referred to before or is unused again,
-- both streams are those from before, and the interceptor can be connected again.
pub connect-IsUndone :
    (given : Given) (id file : ℕ) (name : StreamName) (s : System)
    → s.streams_connected name ≡ none
    → s.stream name ≡ s.original name
    → s.fds (fd_of name (s.stream name)) ≡ some file
    → AreFresh given s
    → IsUndone given id name s
connect-IsUndone given id file name s c o e fresh =
    let fd = fd_of name (s.stream name) in
    let s' = redirected given id fd name file s in
    subst
      (λ (x : Outcome × Interceptor × System).
        let (o', i, t) = disconnect given x.1 x.2 in
        (x.0 ≡ done) × (o' ≡ done) × (i ≡ new_interceptor id name) × IsSame s t)
      (sym (connect-eq given id fd name file s c refl e))
      (subst
        (λ (x : Outcome × Interceptor × System).
          (done ≡ done) × (x.0 ≡ done) × (x.1 ≡ new_interceptor id name) × IsSame s x.2)
        (sym (
          disconnect-eq given id fd name s' (ground arith) (ground arith)
            (still_pipe given id fd name file s fresh e)))
        (
          refl,
          refl,
          refl,
          (
            λ k. ended-fds given id fd name file s k fresh e,
            λ n. ended-stream given id fd name file s n o,
            λ n. ended-connected given id fd name file s n c,
            refl,
          ),
        ))
