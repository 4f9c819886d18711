-- ===== src/Zlog/Client/Delivery.antt =====
-- A logging handler (zprocess/zlog/__init__.py) and the log server that reads what it emits.
use zprocess.Base.{
  ℕ, suc, ◌≡◌, refl, ap, Bool, true, false, some, List, [], ◌∷◌, ◌++◌, if◌then◌else◌, bytes, arith,
  contains,
}
use zprocess.Base.Float.{Float}
use zprocess.Base.Frames.{split_frames}
use zprocess.Zlog.Server
use zprocess.Zlog.Server.Files.{Io, Text}
use zprocess.Zlog.Client.{Client, Outcome, returned, push, send, caught, log, Handler, emit}

split_frames-append :
    (route msg : List ℕ)
    → contains (bytes "") route ≡ false
    → split_frames (route ++ bytes "" ∷ msg) ≡ some (route, msg)
unfolding split_frames contains
split_frames-append [] msg h = refl
split_frames-append (r ∷ route) msg h = ground (arith, split_frames-append route msg)

-- A record that a handler emits over a socket with room goes out as one message. With the frames of its
-- route, none of them empty, put before it, the log server takes it apart again and handles it as the
-- request to log this text for this client and file.
pub emit-handle_message :
    (h : Handler) (line : ℕ) (c : Client) (route : List ℕ) (text : Text) (now : Float) (io : Io)
    → c.sock ≡ true
    → c.full ≡ false
    → contains (bytes "") route ≡ false
    → (messages : List ℕ) × (emit h line c ≡ (returned tt, record c { sent = messages ∷ c.sent }))
      × (Server.handle_message text now io (split_frames (route ++ messages))
          ≡ Server.log_request text now io (h.client_id ∷ h.filepath ∷ line ∷ []))
unfolding emit log send push caught Server.handle_message Server.dispatch Server.command_of
emit-handle_message h line c route text now io s f r = (
  bytes "" ∷ bytes "log" ∷ h.client_id ∷ h.filepath ∷ line ∷ [],
  ground arith,
  ap (Server.handle_message text now io) (split_frames-append route _ r),
)

-- the warnings after some lines
abbrev warned : Bool → Bool → ℕ → ℕ
warned suppressed full n = if suppressed then n else (if full then suc n else n)

abbrev Ends : ℕ → Outcome (Unit {0}) × Client → Type 0
Ends n (outcome, c) = (outcome ≡ returned tt) × (c.warnings ≡ n)
