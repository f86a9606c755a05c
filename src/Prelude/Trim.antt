-- ===== src/Prelude/Trim.antt =====
-- strings.TrimSpace on the bytes of UTF-8.
use mathlib.Core.List.{[], ◌∷◌}
use drs.Prelude.Tests.{if◌then◌else◌}
use drs.Prelude.Text.{Text, Space, start, dead, is_blank, space_step}

-- The text from the last character boundary on, `keep`, while the characters are white space.
unfoldable pub trim_left : Space → Text → Text → Text
trim_left st keep [] = keep
trim_left st keep (c ∷ s) = elim (space_step st c) [
  | start ↦ trim_left start s s
  | dead ↦ keep
  | st' ↦ trim_left st' keep s
]

unfoldable pub trim_right : Text → Text
trim_right [] = []
trim_right (c ∷ s) = let rest = trim_right s in if is_blank (c ∷ s) then [] else c ∷ rest

-- strings.TrimSpace
unfoldable pub trim_space : Text → Text
trim_space s = trim_right (trim_left start s s)
