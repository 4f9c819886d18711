-- ===== src/Zlog/Server/Files.antt =====
-- class FileHandler of zprocess/zlog/server.py, and what the log server takes from its surroundings.
use zprocess.Base.{
  ℕ, Bool, true, false, ◌&&◌, Option, List, [], add, remove, is_empty, if◌then◌else◌,
}

-- the fields of FileHandler that change; `stream_open` is `self.stream is not None`
pub record Handler : Type 0 where
  pub clients : List ℕ
  pub stream_open : Bool

-- How the file system and the logging library answer during one call.
-- `rotates` is whether the handler's class has `shouldRollover`; `rollover_fails` is whether
-- `shouldRollover` or `doRollover` raises an OSError, and `open_after_rollover` whether the stream is
-- open after them, whatever their outcome. `write_fails` is an OSError of the write or the flush, and
-- `write_raises` another exception of the write, as a UnicodeEncodeError. `close_fails` is an OSError
-- of `close`, which flushes the stream. Making a handler is taken to succeed, and rollovers, opens and
-- access checks to raise nothing but OSErrors.
pub record Io : Type 0 where
  pub rotates : Bool
  pub rollover_fails : Bool
  pub open_after_rollover : Bool
  pub open_fails : Bool
  pub write_fails : Bool
  pub write_raises : Bool
  pub close_fails : Bool
  pub access_fails : Bool

-- Operations on byte strings and paths: `b'\0' in path`, `bytes.decode('utf8')` (none is a
-- UnicodeDecodeError), and `os.path.abspath`.
pub record Text : Type 0 where
  pub has_null : ℕ → Bool
  pub decode : ℕ → Option ℕ
  pub abspath : ℕ → ℕ

-- `FileHandler.__init__`: the file is not opened yet
abbrev pub new_handler : Handler
new_handler = record { clients = []; stream_open = false }

-- what comes of the message in `log`
pub data Logged : Type 0 where
  written : Logged
  -- an OSError, which `log` catches
  dropped : Logged
  -- another exception, which it does not
  failed : Logged

-- the `try` block with the write and the flush
abbrev pub write_line : Io → Logged
write_line io = if io.write_raises then failed else (if io.write_fails then dropped else written)

-- the part of `log` after the rollover: open the stream if need be, and write
unfoldable pub write_message : Io → Handler → Handler × Logged
write_message io handler =
    if handler.stream_open
    then (handler, write_line io)
    else (if io.open_fails
        then (handler, dropped)
        else (record handler { stream_open = true }, write_line io))

-- `FileHandler.log`: the handler, and what came of the message
unfoldable pub log_to : Io → ℕ → Handler → Handler × Logged
unfolding write_message
log_to io client handler =
    let known = record handler { clients = add client handler.clients } in
    if io.rotates
    then (let rolled = record known { stream_open = io.open_after_rollover } in
        if io.rollover_fails then (rolled, dropped) else write_message io rolled)
    else write_message io known

-- `FileHandler.client_done`, without the deletion from `instances`: the stream is closed with the
-- last client. Whether `close` raises comes with the handler; with its last client gone the handler
-- is in no table any more.
unfoldable pub client_done : Io → ℕ → Handler → Handler × Bool
client_done io client handler =
    let clients = remove client handler.clients in
    if is_empty clients
    then (
      record handler { clients = clients; stream_open = false },
      handler.stream_open && io.close_fails,
    )
    else (record handler { clients = clients }, false)
