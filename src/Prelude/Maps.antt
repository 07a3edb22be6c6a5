-- ===== src/Prelude/Maps.antt =====
-- A `HashMap` as an association list: what the program reads and writes is independent of order.
use mathlib.Core.Path.{◌≡◌, refl}
use mathlib.Core.Logic.{◌↔◌}
use mathlib.Core.Bool.{Bool, true, false}
use mathlib.Core.Option.{Option, none, some}
use mathlib.Core.List.{List, [], ◌∷◌}
use native.Mathlib.Omega.{arith}
use Prim.Native.Nat.{ℕ}
use autopush_rs.Prelude.Tests.{◌==◌, if◌then◌else◌, eqb→eq, eqb_refl}
use autopush_rs.Prelude.Texts.{Text, text_eq, text_eq_iff}

-- `Eq` of a key type.
pub record Eq (A : Type 0) : Type 0 where
  pub beq : A → A → Bool
  pub beq_iff : (a b : A) → (beq a b ≡ true) ↔ (a ≡ b)

pub nat-beq_iff : (a b : ℕ) → ((a == b) ≡ true) ↔ (a ≡ b)
nat-beq_iff a b = (eqb→eq a b, λ e. ground (arith, eqb_refl a))

instance abbrev pub nat_eq : Eq ℕ
nat_eq = record { beq = λ a b. a == b; beq_iff = nat-beq_iff }

instance abbrev pub text_key : Eq Text
text_key = record { beq = text_eq; beq_iff = text_eq_iff }

module _ {K V : Type 0} ⦃e : Eq K⦄ where
  -- `HashMap::get`, `insert`, `remove`.
  unfoldable pub get : K → List (K × V) → Option V
  get k [] = none
  get k ((j, v) ∷ m) = let rest = get k m in if e.beq j k then some v else rest

  unfoldable pub insert : K → V → List (K × V) → List (K × V)
  insert k v [] = (k, v) ∷ []
  insert k v ((j, w) ∷ m) =
      let rest = insert k v m in if e.beq j k then (k, v) ∷ m else (j, w) ∷ rest

  unfoldable pub remove : K → List (K × V) → List (K × V)
  remove k [] = []
  remove k ((j, w) ∷ m) = let rest = remove k m in if e.beq j k then rest else (j, w) ∷ rest

  pub get-insert :
      (k j : K) (v : V) (m : List (K × V))
      → get j (insert k v m) ≡ (if e.beq k j then some v else get j m)
  unfolding get insert
  get-insert k j v [] = refl
  get-insert k j v ((i, w) ∷ m) =
      ground (arith, e.beq_iff i k, e.beq_iff i j, e.beq_iff k j, get-insert k j v m)

  pub get-remove :
      (k j : K) (m : List (K × V)) → get j (remove k m) ≡ (if e.beq k j then none else get j m)
  unfolding get remove
  get-remove k j [] = ground arith
  get-remove k j ((i, w) ∷ m) =
      ground (arith, e.beq_iff i k, e.beq_iff i j, e.beq_iff k j, get-remove k j m)

module _ {K : Type 0} ⦃e : Eq K⦄ where
  -- `contains` on a `Vec`.
  unfoldable pub contains : List K → K → Bool
  contains [] k = false
  contains (j ∷ js) k = let rest = contains js k in if e.beq j k then true else rest
