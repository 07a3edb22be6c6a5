-- ===== src/Prelude/Decimal.antt =====
-- `u64::to_string`, the decimal digits of a number, most significant first, and `parse::<u64>`.
use Prim.Native.Nat.{ℕ, zero, suc, ◌+◌, ◌-◌, ◌*◌, ◌/◌, ◌%◌, ◌^◌}
use mathlib.Core.Bool.{Bool, ◌&&◌}
use mathlib.Core.Option.{Option, none, some}
use mathlib.Core.List.{[], ◌∷◌, ◌++◌}
use autopush_rs.Prelude.Tests.{ltb, leb, ◌==◌, if◌then◌else◌}
use autopush_rs.Prelude.Texts.{Text}

-- Twenty digits are enough for a `u64`.
unfoldable pub digits_of : ℕ → ℕ → Text
digits_of zero n = []
digits_of (suc fuel) n =
    let front = digits_of fuel (n / 10) in
    if ltb n 10 then (48 + n) ∷ [] else front ++ (48 + n % 10) ∷ []

unfoldable pub to_string : ℕ → Text
unfolding digits_of
to_string n = digits_of 20 n

-- `parse::<u64>`: an optional plus, then digits, within the range.
abbrev pub is_digit : ℕ → Bool
is_digit c = leb b'0' c && leb c b'9'

unfoldable pub parse_digits : ℕ → Text → Option ℕ
parse_digits acc [] = some acc
parse_digits acc (c ∷ cs) =
    let next = 10 * acc + (c - 48) in
    let rest = parse_digits next cs in if is_digit c && ltb next (2 ^ 64) then rest else none

unfoldable pub parse_unsigned : Text → Option ℕ
unfolding parse_digits
parse_unsigned [] = none
parse_unsigned (c ∷ cs) = parse_digits 0 (c ∷ cs)

unfoldable pub parse_u64 : Text → Option ℕ
unfolding parse_unsigned
parse_u64 [] = none
parse_u64 (c ∷ cs) = if c == b'+' then parse_unsigned cs else parse_unsigned (c ∷ cs)
