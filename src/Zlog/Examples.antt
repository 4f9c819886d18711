-- ===== src/Zlog/Examples.antt =====
-- A logging handler that writes lines, with and without room in its socket.
use zprocess.Base.{ℕ, ◌≡◌, refl, true, false, List, [], ◌∷◌, ◌++◌, bytes, contains, ◌==◌, some}
use zprocess.Base.Float.{finite, pos}
use zprocess.Base.Frames.{split_frames}
use zprocess.Zlog.Server
use zprocess.Zlog.Server.Files.{Io, Text}
use zprocess.Zlog.Client.{Client, returned, Handler, emit}
use zprocess.Zlog.Client.Delivery.{emit-handle_message}

abbrev connected : Client
connected = record {
  sock = true;
  suppress_further_warnings = false;
  warnings = 0;
  sent = [];
  incoming = [];
  reachable = true;
  full = false;
}

abbrev journal : Handler
journal = record { client_id = 4; filepath = 5 }

abbrev plain_text : Text
plain_text = record {
  has_null = λ path. path == 99;
  decode = λ path. some path;
  abspath = λ path. path;
}

abbrev sound : Io
sound = record {
  rotates = false;
  rollover_fails = false;
  open_after_rollover = false;
  open_fails = false;
  write_fails = false;
  write_raises = false;
  close_fails = false;
  access_fails = false;
}

no_empty_frame : contains (bytes "") (7 ∷ []) ≡ false
unfolding contains
no_empty_frame = refl

emit-handle_message_example :
    (messages : List ℕ) × (emit journal 9 connected
      ≡ (returned tt, record connected { sent = messages ∷ [] }))
    × (Server.handle_message plain_text (finite (pos 1)) sound (split_frames (7 ∷ [] ++ messages))
        ≡ Server.log_request plain_text (finite (pos 1)) sound (4 ∷ 5 ∷ 9 ∷ []))
emit-handle_message_example =
    emit-handle_message journal 9 connected (7 ∷ []) plain_text (finite (pos 1)) sound refl refl
      no_empty_frame
