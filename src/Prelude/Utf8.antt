-- ===== src/Prelude/Utf8.antt =====
-- `String::from_utf8`: the well-formed sequences of the Unicode standard.
use Prim.Native.Nat.{ℕ, zero, suc}
use mathlib.Core.Bool.{Bool, false, ◌&&◌}
use mathlib.Core.Option.{Option, none, some}
use mathlib.Core.List.{List, [], ◌∷◌}
use autopush_rs.Prelude.Tests.{leb, ◌==◌, if◌then◌else◌}
use autopush_rs.Prelude.Texts.{Text}

abbrev pub between : ℕ → ℕ → ℕ → Bool
between low high b = leb low b && leb b high

-- After a first byte: how many bytes follow, and the bounds of the next one.
abbrev pub Follow : Type 0
Follow = ℕ × ℕ × ℕ

unfoldable pub follow : ℕ → Option Follow
follow b =
    if leb b 127
    then some (0, 128, 191)
    else if between 194 223 b
    then some (1, 128, 191)
    else if b == 224
    then some (2, 160, 191)
    else if b == 237
    then some (2, 128, 159)
    else if between 225 239 b
    then some (2, 128, 191)
    else if b == 240
    then some (3, 144, 191)
    else if between 241 243 b
    then some (3, 128, 191)
    else if b == 244
    then some (3, 128, 143)
    else none

unfoldable pub is_utf8_after : Follow → List ℕ → Bool
is_utf8_after (n, low, high) [] = n == 0
is_utf8_after (zero, low, high) (b ∷ bs) = elim (follow b) [
  | none ↦ false
  | some next ↦ is_utf8_after next bs
]
is_utf8_after (suc n, low, high) (b ∷ bs) = between low high b && is_utf8_after (n, 128, 191) bs

unfoldable pub from_utf8 : List ℕ → Option Text
unfolding is_utf8_after follow
from_utf8 bs = if is_utf8_after (0, 128, 191) bs then some bs else none
