-- ===== src/Prelude/Percent.antt =====
-- url.PathUnescape of Go.
use mathlib.Core.Option
use mathlib.Core.Option.{Option, none, some}
use mathlib.Core.List.{[], ◌∷◌}
use mathlib.Core.Bool.{◌&&◌}
use Prim.Native.Nat.{ℕ, ◌+◌, ◌-◌, ◌*◌}
use drs.Prelude.Tests.{eqb, leb, if◌then◌else◌}
use drs.Prelude.Text.{Text}

unfoldable pub hex_value : ℕ → Option ℕ
hex_value c =
    if leb b'0' c && leb c b'9'
    then some (c - b'0')
    else if leb b'a' c && leb c b'f'
    then some (c - b'a' + 10)
    else if leb b'A' c && leb c b'F'
    then some (c - b'A' + 10)
    else none

unfoldable pub hex_pair : ℕ → ℕ → Option ℕ
unfolding hex_value
hex_pair h l = elim (hex_value h) [
  | none ↦ none
  | some a ↦ elim (hex_value l) [ none ↦ none | some b ↦ some (a * 16 + b) ]
]

-- url.PathUnescape, with `none` for its error: a '%' wants two hexadecimal digits
unfoldable pub path_unescape : Text → Option Text
unfolding hex_pair
path_unescape [] = some []
path_unescape (c ∷ []) = if eqb c b'%' then none else some (c ∷ [])
path_unescape (c ∷ h ∷ []) =
    let rest = path_unescape (h ∷ []) in if eqb c b'%' then none else Option.map (λ t. c ∷ t) rest
path_unescape (c ∷ h ∷ l ∷ s) =
    let decoded = path_unescape s in
    let plain = path_unescape (h ∷ l ∷ s) in
    if eqb c b'%'
    then elim (hex_pair h l) [ none ↦ none | some b ↦ Option.map (λ t. b ∷ t) decoded ]
    else Option.map (λ t. c ∷ t) plain
