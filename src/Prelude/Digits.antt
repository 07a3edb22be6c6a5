-- ===== src/Prelude/Digits.antt =====
-- Decimal texts of the same length are ordered as their numbers are.
use Prim.Native.Nat.{ℕ, ◌+◌, ◌-◌, ◌*◌, ◌^◌, ◌<◌}
use mathlib.Core.Path.{◌≡◌, refl}
use mathlib.Core.Bool.{true}
use mathlib.Core.Option.{some}
use mathlib.Core.List.{[], ◌∷◌, ◌++◌}
use native.Mathlib.Omega.{arith}
use mathlib.Core.Logic.{inl, inr}
use autopush_rs.Prelude.Tests.{ltb, ◌==◌, Bool-cases}
use autopush_rs.Prelude.Lists.{All, length}
use autopush_rs.Prelude.Texts.{Text, text_lt}
use autopush_rs.Prelude.Decimal.{to_string, is_digit, parse_digits, digits_of}
use autopush_rs.Prelude.Numerals.{parse_digits-digits_of, to_string-All}

unfoldable decimal : ℕ → Text → ℕ
decimal acc [] = acc
decimal acc (c ∷ cs) = decimal (10 * acc + (c - 48)) cs

decimal-parse_digits :
    (acc : ℕ) (t : Text) (n : ℕ) → parse_digits acc t ≡ some n → decimal acc t ≡ n
unfolding decimal parse_digits
decimal-parse_digits acc [] n h = ground arith
decimal-parse_digits acc (c ∷ t) n h =
    ground (arith, decimal-parse_digits (10 * acc + (c - 48)) t n)

decimal-to_string : (n : ℕ) → n < 2 ^ 64 → decimal 0 (to_string n) ≡ n
unfolding to_string
decimal-to_string n h =
    decimal-parse_digits 0 (digits_of 20 n) n (parse_digits-digits_of 20 n (omega (arith, h)) h)

decimal_lt :
    (a b : ℕ) (s t : Text)
    → a < b
    → All (λ c. is_digit c ≡ true) s
    → All (λ c. is_digit c ≡ true) t
    → length s ≡ length t
    → decimal a s < decimal b t
unfolding decimal
decimal_lt a b [] [] h p q e = h
decimal_lt a b [] (d ∷ t) h p q e = absurd (omega (arith, e))
decimal_lt a b (c ∷ s) [] h p q e = absurd (omega (arith, e))
decimal_lt a b (c ∷ s) (d ∷ t) h p q e =
    decimal_lt (10 * a + (c - 48)) (10 * b + (d - 48)) s t (ground (arith, h, p.0)) p.1 q.1
      (omega (arith, e))

text_lt-decimal :
    (a b : ℕ) (s t x y : Text)
    → a ≡ b
    → All (λ c. is_digit c ≡ true) s
    → All (λ c. is_digit c ≡ true) t
    → length s ≡ length t
    → decimal a s < decimal b t
    → text_lt (s ++ x) (t ++ y) ≡ true
unfolding decimal text_lt
text_lt-decimal a b [] [] x y r p q e h = absurd (omega (arith, h, r))
text_lt-decimal a b [] (d ∷ t) x y r p q e h = absurd (omega (arith, e))
text_lt-decimal a b (c ∷ s) [] x y r p q e h = absurd (omega (arith, e))
text_lt-decimal a b (c ∷ s) (d ∷ t) x y r p q e h = elim (Bool-cases (ltb c d)) [
  | inl l ↦ ground (arith, l)
  | inr l ↦ elim (Bool-cases (c == d)) [
    | inl m ↦ ground (
      arith,
      l,
      m,
      text_lt-decimal (10 * a + (c - 48)) (10 * b + (d - 48)) s t x y (ground (arith, m, r)) p.1 q.1
          (omega (arith, e)) h,
    )
    | inr m ↦ absurd (
        omega (
          arith,
          h,
          decimal_lt (10 * b + (d - 48)) (10 * a + (c - 48)) t s (ground (arith, l, m, r, p.0, q.0))
              q.1 p.1 (omega (arith, e)),
        ))
  ]
]

-- Behind a common front, two texts are ordered as what follows.
pub text_lt_front : (p a b : Text) → text_lt (p ++ a) (p ++ b) ≡ text_lt a b
unfolding text_lt
text_lt_front [] a b = refl
text_lt_front (c ∷ p) a b = ground (arith, text_lt_front p a b)

pub text_lt-to_string :
    (m n : ℕ) (x y : Text)
    → m < n
    → n < 2 ^ 64
    → length (to_string m) ≡ length (to_string n)
    → text_lt (to_string m ++ x) (to_string n ++ y) ≡ true
text_lt-to_string m n x y h b e =
    text_lt-decimal 0 0 (to_string m) (to_string n) x y refl (to_string-All m) (to_string-All n) e
      (omega (arith, h, decimal-to_string m (omega (arith, h, b)), decimal-to_string n b))
