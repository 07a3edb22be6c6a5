-- ===== src/Tests/Letters.antt =====
-- A printer of ids for the tests: 36 letters, sixteen of them in use.
use autopush_rs.Prelude.{
  ℕ, zero, suc, ◌+◌, ◌-◌, ◌*◌, ◌/◌, ◌%◌, ◌^◌, ◌<◌, ◌≡◌, ◌∙◌, refl, arith, true, false, some, [],
  ◌∷◌, ◌++◌, Text, All, All-append, All-mono, length, length-append, is_empty, ◌==◌,
}
use autopush_rs.Records.{KeyCrates}
use autopush_rs.Records.Keys.{AreKeyCrates, IsPart, is_part_char}

unfoldable pub letters : ℕ → ℕ → Text
letters zero n = []
letters (suc width) n = letters width (n / 16) ++ (65 + n % 16) ∷ []

unfoldable pub value_of : ℕ → Text → ℕ
value_of acc [] = acc
value_of acc (c ∷ cs) = value_of (16 * acc + (c - 65)) cs

abbrev pub IsLetter : ℕ → Type 0
IsLetter c = (is_part_char c ≡ true) × ((c == b'#') ≡ false)

letter : (d : ℕ) → d < 16 → IsLetter (65 + d)
letter d h = (ground (arith, h), ground (arith, h))

pub letters-All : (width n : ℕ) → All IsLetter (letters width n)
unfolding letters
letters-All zero n = tt
letters-All (suc width) n =
    All-append IsLetter (letters width (n / 16)) _ (letters-All width (n / 16))
      (letter (n % 16) (omega arith), tt)

letters-length : (width n : ℕ) → length (letters width n) ≡ width
unfolding letters
letters-length zero n = refl
letters-length (suc width) n = omega (
  arith,
  length-append (letters width (n / 16)) ((65 + n % 16) ∷ []),
  letters-length width (n / 16),
)

value_of-append :
    (acc : ℕ) (t : Text) (c : ℕ) → value_of acc (t ++ c ∷ []) ≡ 16 * value_of acc t + (c - 65)
unfolding value_of
value_of-append acc [] c = refl
value_of-append acc (d ∷ t) c = value_of-append (16 * acc + (d - 65)) t c

value_of-letters : (width n : ℕ) → n < 16 ^ width → value_of 0 (letters width n) ≡ n
unfolding letters value_of
value_of-letters zero n h = omega arith
value_of-letters (suc width) n h =
    value_of-append 0 (letters width (n / 16)) (65 + n % 16)
    ∙ omega (arith, value_of-letters width (n / 16) (omega arith))

pub read_letters : (n : ℕ) → n < 2 ^ 128 → value_of 0 (letters 36 n) ≡ n
read_letters n h = value_of-letters 36 n (omega (arith, h))

nonempty : (t : Text) → length t ≡ 36 → is_empty t ≡ false
nonempty [] h = absurd (omega (arith, h))
nonempty (c ∷ t) h = refl

pub letters-IsPart : (n : ℕ) → IsPart (letters 36 n)
letters-IsPart n = (
  nonempty (letters 36 n) (letters-length 36 n),
  All-mono IsLetter (λ c. is_part_char c ≡ true) (λ c h. h.0) (letters 36 n) (letters-All 36 n),
)

abbrev pub letter_keys : KeyCrates
letter_keys = record {
  as_hyphenated = letters 36;
  parse_str = λ t. some (value_of 0 t);
  is_match = λ patterns t. true;
}

pub letter_keys-AreKeyCrates : AreKeyCrates letter_keys
letter_keys-AreKeyCrates = record {
  parse_printed = λ n h. ground (arith, read_letters n h);
  printed_part = λ n h. letters-IsPart n;
  printed_length = λ n h. letters-length 36 n;
  match_topic = λ a b p q. refl;
  match_standard = λ n b p. refl;
  match_legacy = λ a b p h q. refl;
}
