-- ===== src/Base/Equality.antt =====
-- Equality as an interface, so that `==` is one operator for numbers, texts and addresses.
use Prim.Native.Nat.{ℕ}
use Prim.Native.String.{String}
use mathlib.Core.Path.{◌≡◌, refl}
use mathlib.Core.Logic.{◌↔◌}
use mathlib.Core.Bool.{Bool, true, false, ◌&&◌, ◌||◌}
use mathlib.Core.List.{List, [], ◌∷◌}
use native.Mathlib.Omega.{arith}
use text.Mathlib.Text.{◌==◌ as str_eq}
use text.Mathlib.TextEquality.{eq_iff}
use rooster.Base.Tests.{nat_beq, nat_beq_iff}

-- `PartialEq`, whose answer is whether the two are the same.
pub record Equality {ℓ} (Item : Type ℓ) : Type ℓ where
  pub equals : Item → Item → Bool
  pub equals_iff : (x y : Item) → (equals x y ≡ true) ↔ (x ≡ y)

instance abbrev pub equality_string : Equality String
equality_string = record { equals = str_eq; equals_iff = eq_iff }

instance abbrev pub equality_nat : Equality ℕ
equality_nat = record { equals = nat_beq; equals_iff = nat_beq_iff }

infix 50 ◌==◌
abbrev pub ◌==◌ {ℓ} : {Item : Type ℓ} ⦃equality : Equality Item⦄ → Item → Item → Bool
◌==◌ ⦃equality = equality⦄ x y = equality.equals x y

module _ {ℓ} {A : Type ℓ} ⦃equality : Equality A⦄ where
  -- `Vec::contains`.
  abbrev pub contains : List A → A → Bool
  contains [] a = false
  contains (x ∷ xs) a = x == a || contains xs a

  abbrev pub list_beq : List A → List A → Bool
  list_beq [] [] = true
  list_beq (x ∷ xs) (y ∷ ys) = x == y && list_beq xs ys
  list_beq _ _ = false

  pub list_beq_iff : (xs ys : List A) → (list_beq xs ys ≡ true) ↔ (xs ≡ ys)
  list_beq_iff [] [] = ((λ _. refl), (λ _. refl))
  list_beq_iff [] (y ∷ ys) = ((λ h. cc), (λ h. cc))
  list_beq_iff (x ∷ xs) [] = ((λ h. cc), (λ h. cc))
  list_beq_iff (x ∷ xs) (y ∷ ys) = ground (arith, equality.equals_iff x y, list_beq_iff xs ys)

  instance abbrev pub equality_list : Equality (List A)
  equality_list = record { equals = list_beq; equals_iff = list_beq_iff }
