-- ===== src/Base/Frames.antt =====
-- The frames of a message, as the main loops of the lock server and the log server take them apart.
use Prim.Native.Nat.{ℕ}
use mathlib.Core.List.{List, [], ◌∷◌}
use mathlib.Core.Option.{Option, none, some}
use zprocess.Base.Bytes.{bytes}
use zprocess.Base.Tests.{◌==◌, if◌then◌else◌}

-- `request.index(b'')`, with what stands before it and behind it; none where there is no empty frame
unfoldable pub split_frames : List ℕ → Option (List ℕ × List ℕ)
split_frames [] = none
split_frames (frame ∷ frames) =
    let later : Option (List ℕ × List ℕ) = elim (split_frames frames) [
      | none ↦ none
      | some (routing_id, msg) ↦ some (frame ∷ routing_id, msg)
    ] in
    if frame == bytes "" then some ([], frames) else later
