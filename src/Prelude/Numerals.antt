-- ===== src/Prelude/Numerals.antt =====
-- What `to_string` prints is digits, and `parse_u64` reads it back.
use Prim.Native.Nat.{ℕ, zero, suc, ◌+◌, ◌-◌, ◌*◌, ◌/◌, ◌%◌, ◌^◌, ◌<◌}
use mathlib.Core.Logic.{inl, inr}
use mathlib.Core.Path.{◌≡◌, ◌∙◌, refl, ap}
use mathlib.Core.Bool.{true, false}
use mathlib.Core.Option.{some}
use mathlib.Core.List.{[], ◌∷◌, ◌++◌}
use native.Mathlib.Omega.{arith}
use autopush_rs.Prelude.Tests.{ltb, Bool-cases}
use autopush_rs.Prelude.Lists.{All, All-append, is_empty}
use autopush_rs.Prelude.Texts.{Text}
use autopush_rs.Prelude.Decimal.{
  digits_of, to_string, is_digit, parse_digits, parse_unsigned, parse_u64,
}

is_digit_small : (d : ℕ) → d < 10 → is_digit (48 + d) ≡ true
is_digit_small d h = ground arith

pub digits_of-All : (fuel n : ℕ) → All (λ c. is_digit c ≡ true) (digits_of fuel n)
unfolding digits_of
digits_of-All zero n = tt
digits_of-All (suc fuel) n = elim (Bool-cases (ltb n 10)) [
  | inl e ↦ rw e (is_digit_small n (ground (arith, e)), tt)
  | inr e ↦ rw e (
      All-append (λ c. is_digit c ≡ true) (digits_of fuel (n / 10)) _ (digits_of-All fuel (n / 10))
        (is_digit_small (n % 10) (omega arith), tt))
]

parse_digits-append :
    (acc : ℕ) (t : Text) (c m : ℕ)
    → is_digit c ≡ true
    → 10 * m + (c - 48) < 2 ^ 64
    → parse_digits acc t ≡ some m
    → parse_digits acc (t ++ c ∷ []) ≡ some (10 * m + (c - 48))
unfolding parse_digits
parse_digits-append acc [] c m d b h = ground arith
parse_digits-append acc (x ∷ t) c m d b h =
    ground (arith, parse_digits-append (10 * acc + (x - 48)) t c m d b)

pub parse_digits-digits_of :
    (fuel n : ℕ) → n < 10 ^ fuel → n < 2 ^ 64 → parse_digits 0 (digits_of fuel n) ≡ some n
unfolding parse_digits digits_of
parse_digits-digits_of zero n h b = ground arith
parse_digits-digits_of (suc fuel) n h b = elim (Bool-cases (ltb n 10)) [
  | inl e ↦ rw e (ground arith)
  | inr e ↦ rw e (
      parse_digits-append 0 (digits_of fuel (n / 10)) (48 + n % 10) (n / 10)
        (is_digit_small (n % 10) (omega arith)) (omega arith)
        (parse_digits-digits_of fuel (n / 10) (omega arith) (omega arith))
      ∙ ap some (omega arith))
]

append-nonempty : (t : Text) (c : ℕ) → is_empty (t ++ c ∷ []) ≡ false
append-nonempty [] c = refl
append-nonempty (x ∷ t) c = refl

digits_of-nonempty : (fuel n : ℕ) → is_empty (digits_of (suc fuel) n) ≡ false
unfolding digits_of
digits_of-nonempty fuel n = ground (arith, append-nonempty (digits_of fuel (n / 10)) (48 + n % 10))

parse_u64_digits :
    (t : Text)
    → is_empty t ≡ false
    → All (λ c. is_digit c ≡ true) t
    → parse_u64 t ≡ parse_digits 0 t
unfolding parse_u64 parse_unsigned
parse_u64_digits [] e h = absurd (cc)
parse_u64_digits (c ∷ t) e h = ground (arith, h.0)

-- A `u64` is read back from its decimal digits.
pub parse_u64-to_string : (n : ℕ) → n < 2 ^ 64 → parse_u64 (to_string n) ≡ some n
unfolding to_string
parse_u64-to_string n b =
    parse_u64_digits (digits_of 20 n) (digits_of-nonempty 19 n) (digits_of-All 20 n)
    ∙ parse_digits-digits_of 20 n (omega (arith, b)) b

pub to_string-All : (n : ℕ) → All (λ c. is_digit c ≡ true) (to_string n)
unfolding to_string
to_string-All n = digits_of-All 20 n

pub to_string-nonempty : (n : ℕ) → is_empty (to_string n) ≡ false
unfolding to_string
to_string-nonempty n = digits_of-nonempty 19 n
