-- ===== src/Process/Rich.antt =====
-- rich_print and class RichStreamHandler of zprocess/process_tree.py. Texts are lists of characters;
-- what `str`, `repr` and the formatting of a log record make are arguments.
use zprocess.Base.{
  ℕ, Bool, true, false, not, Option, none, some, List, [], ◌∷◌, ◌++◌, if◌then◌else◌,
}

-- What a call writes: by the built-in print, with the keyword arguments left over, or with a format.
pub data Printed : Type 0 where
  plain : List (List ℕ) → Printed
  rich : List ℕ → List ℕ → Printed

abbrev pub or_default {ℓ} : {A : Type ℓ} → Option A → A → A
or_default none default = default
or_default (some a) default = a

abbrev pub join : List ℕ → List (List ℕ) → List ℕ
join sep [] = []
join sep (x ∷ []) = x
join sep (x ∷ y ∷ xs) = x ++ (sep ++ join sep (y ∷ xs))

abbrev pub red : List ℕ
red = 114 ∷ 101 ∷ 100 ∷ []

abbrev pub white : List ℕ
white = 119 ∷ 104 ∷ 105 ∷ 116 ∷ 101 ∷ []

-- `rich_print`, of values as texts; `format` is `repr` of the triple, encoded
unfoldable pub rich_print :
    (List ℕ → Bool → Bool → List ℕ)
    → (is_stderr supports_rich_write : Bool) → Option (List ℕ)
    → Option Bool
    → Option Bool
    → (sep end : Option (List ℕ)) → List (List ℕ)
    → Printed
rich_print format is_stderr supports_rich_write color bold italic sep end values =
    if not supports_rich_write
    then plain values
    else rich
        (format (or_default color (if is_stderr then red else white)) (or_default bold false)
          (or_default italic false))
        (join (or_default sep (32 ∷ [])) values ++ or_default end (10 ∷ []))

-- `RichStreamHandler.emit`: by the base class, or written with the name of the level; an exception of
-- the formatting or of the stream goes to `handleError`
pub data Emitted : Type 0 where
  by_base : Emitted
  written : List ℕ → List ℕ → Emitted
  error_handled : Emitted

unfoldable pub emit : (supports_rich_write : Bool) → Option (List ℕ) → Bool → List ℕ → Emitted
emit false formatted write_fails levelname = by_base
emit true none write_fails levelname = error_handled
emit true (some msg) write_fails levelname =
    if write_fails then error_handled else written (msg ++ (10 ∷ [])) levelname
