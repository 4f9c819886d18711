-- ===== src/Base/Bytes.antt =====
-- Byte strings as numbers: the frames of a message are only compared, so a frame is the number whose
-- bijective base-256 digits are its bytes. Byte strings and numbers correspond one to one.
use Prim.Native.Nat.{ℕ, ◌+◌, ◌*◌}
use Prim.Native.Char.{code}
use mathlib.Core.List.{List, [], ◌∷◌}
use Prim.Native.String.{String}

-- The frame `b'...'` of an ASCII text.
abbrev pub bytes_from : ℕ → String → ℕ
bytes_from acc String.[] = acc
bytes_from acc (String.◌∷◌ c s) = bytes_from (acc * 256 + code c + 1) s

abbrev pub bytes : String → ℕ
bytes = bytes_from 0

-- The frame of a list of bytes.
abbrev pub frame_from : ℕ → List ℕ → ℕ
frame_from acc [] = acc
frame_from acc (b ∷ bs) = frame_from (acc * 256 + b + 1) bs

abbrev pub frame : List ℕ → ℕ
frame = frame_from 0
