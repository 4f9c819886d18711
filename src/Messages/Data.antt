-- ===== src/Messages/Data.antt =====
-- `_typecheck_or_convert_data` of zprocess/clientserver.py: what may be sent for a dtype.
-- Byte strings and texts are numbers (the empty ones are 0); an object of any other kind is known by
-- whether it can be iterated.
use zprocess.Base.{ℕ, zero, Bool, true, false, List, [], ◌∷◌, if◌then◌else◌}

-- the names of dtypes that the code knows, and any other
pub data Dtype : Type 0 where
  raw string multipart pyobj invalid : Dtype

pub data Part : Type 0 where
  frame : ℕ → Part
  not_bytes : Part

-- Python values: None, bytes, str, a list of parts, an iterator over parts, an exception, anything else
pub data Value : Type 0 where
  null : Value
  byte_string text : ℕ → Value
  parts iterator : List Part → Value
  exception : ℕ → Value
  other : Value

pub data Error : Type 0 where
  type_error value_error : Error

pub data Result : Type 0 where
  ok : Value → Result
  err : Error → Result

-- `all(isinstance(part, bytes) for part in data)`
abbrev pub all_frames : List Part → Bool
all_frames [] = true
all_frames (frame b ∷ ps) = all_frames ps
all_frames (not_bytes ∷ ps) = false

-- a null message is an empty one
abbrev pub default_data : Value → Dtype → Value
default_data null raw = byte_string 0
default_data null multipart = byte_string 0
default_data null string = text 0
default_data datum dtype = datum

-- a single byte string is one part
abbrev pub wrap_data : Value → Dtype → Value
wrap_data (byte_string b) multipart = parts (frame b ∷ [])
wrap_data datum dtype = datum

-- The type checks. The parts of a text are texts, so only an empty one passes as multipart; what
-- cannot be iterated raises a TypeError too. An iterator that passes has nothing left to give.
abbrev pub check_data : Value → Dtype → Result
check_data datum pyobj = ok datum
check_data datum invalid = err value_error
check_data (byte_string b) raw = ok (byte_string b)
check_data datum raw = err type_error
check_data (text t) string = ok (text t)
check_data datum string = err type_error
check_data (parts ps) multipart = if all_frames ps then ok (parts ps) else err type_error
check_data (iterator ps) multipart = if all_frames ps then ok (iterator []) else err type_error
check_data (text zero) multipart = ok (text zero)
check_data datum multipart = err type_error

unfoldable pub typecheck_or_convert_data : Value → Dtype → Result
typecheck_or_convert_data datum dtype =
    check_data (wrap_data (default_data datum dtype) dtype) dtype
