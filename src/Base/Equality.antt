-- ===== src/Base/Equality.antt =====
-- Python's `==` and `in`, for every type whose equality is a Boolean test.
use Prim.Native.Nat.{ℕ}
use Prim.Native.String.{String}
use mathlib.Core.Path.{◌≡◌, refl}
use mathlib.Core.Logic.{◌↔◌, ◌≢◌}
use mathlib.Core.Bool.{Bool, true, false, ◌&&◌, ◌||◌}
use mathlib.Core.List.{List, [], ◌∷◌}
use native.Mathlib.Omega.{arith}
use text.Mathlib.Text.{◌==◌ as str_beq}
use text.Mathlib.TextEquality.{eq_iff}
use twitch_car_factory.Base.Tests.{nat_beq, nat_beq_iff}

abbrev pub bool_beq : Bool → Bool → Bool
bool_beq true b = b
bool_beq false true = false
bool_beq false false = true

pub bool_beq_iff : (a b : Bool) → (bool_beq a b ≡ true) ↔ (a ≡ b)
bool_beq_iff a b = ground arith

abbrev pub list_beq : List ℕ → List ℕ → Bool
list_beq [] [] = true
list_beq [] (_ ∷ _) = false
list_beq (_ ∷ _) [] = false
list_beq (a ∷ as') (b ∷ bs) = nat_beq a b && list_beq as' bs

pub list_beq_iff : (xs ys : List ℕ) → (list_beq xs ys ≡ true) ↔ (xs ≡ ys)
list_beq_iff [] [] = ground arith
list_beq_iff [] (_ ∷ _) = ground arith
list_beq_iff (_ ∷ _) [] = ground arith
list_beq_iff (a ∷ xs) (b ∷ ys) = ground (arith, list_beq_iff xs ys)

-- A type whose `==` is a Boolean test.
pub record Eq {ℓ} (A : Type ℓ) : Type ℓ where
  pub test : A → A → Bool
  pub agrees : (a b : A) → (test a b ≡ true) ↔ (a ≡ b)

instance abbrev pub string_eq : Eq String
string_eq = record { test = str_beq; agrees = eq_iff }

instance abbrev pub Bool_eq : Eq Bool
Bool_eq = record { test = bool_beq; agrees = bool_beq_iff }

-- Texts that the program walks are lists of code points.
instance abbrev pub text_eq : Eq (List ℕ)
text_eq = record { test = list_beq; agrees = list_beq_iff }

instance abbrev pub nat_eq : Eq ℕ
nat_eq = record { test = nat_beq; agrees = nat_beq_iff }

infix 50 ◌==◌
abbrev pub ◌==◌ {ℓ} : {A : Type ℓ} ⦃e : Eq A⦄ → A → A → Bool
◌==◌ ⦃e⦄ = λ a b. e.test a b

module _ {ℓ} {A : Type ℓ} ⦃e : Eq A⦄ where
  -- `a in xs`
  abbrev pub contains : A → List A → Bool
  contains a [] = false
  contains a (x ∷ xs) = x == a || contains a xs

  pub eq_self : (a : A) → (a == a) ≡ true
  eq_self a = (e.agrees a a).1 refl

  pub eq_ne : (a b : A) → a ≢ b → (a == b) ≡ false
  eq_ne a b h = ground (arith, e.agrees a b)
