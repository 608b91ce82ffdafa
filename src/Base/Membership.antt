-- ===== src/Base/Membership.antt =====
-- `in`, `any` and `all` as propositions.
use mathlib.Core.Path.{◌≡◌, refl}
use mathlib.Core.Logic.{◌↔◌, inl, inr}
use mathlib.Core.Bool.{Bool, true, not}
use mathlib.Core.List.{List, [], ◌∷◌}
use native.Mathlib.Omega.{arith}
use twitch_car_factory.Base.Tests.{Bool-cases}
use twitch_car_factory.Base.Lists.{Member, all_of, any_of, is_empty}
use twitch_car_factory.Base.Equality.{Eq, contains}

module _ {A : Type 0} ⦃e : Eq A⦄ where
  pub contains_iff : (a : A) (xs : List A) → (contains a xs ≡ true) ↔ Member a xs
  contains_iff a [] = ground arith
  contains_iff a (x ∷ xs) = ground (arith, contains_iff a xs, e.agrees x a)

module _ {A : Type 0} (p : A → Bool) where
  pub all_of-Member : (xs : List A) → all_of p xs ≡ true → (x : A) → Member x xs → p x ≡ true
  all_of-Member [] h x m = elim m [ ]
  all_of-Member (y ∷ ys) h x m = ground (arith, all_of-Member ys (ground arith) x)

  pub all_of-intro : (xs : List A) → ((x : A) → Member x xs → p x ≡ true) → all_of p xs ≡ true
  all_of-intro [] h = refl
  all_of-intro (y ∷ ys) h = ground (arith, h y (inl refl), all_of-intro ys (λ x m. h x (inr m)))

  pub any_of-Member : (xs : List A) → any_of p xs ≡ true → (x : A) × Member x xs × (p x ≡ true)
  any_of-Member [] h = absurd (cc)
  any_of-Member (y ∷ ys) h = elim (Bool-cases (p y)) [
    | inl e ↦ (y, inl refl, e)
    | inr e ↦ let (x, m, q) = any_of-Member ys (ground arith) in (x, inr m, q)
  ]

  pub any_of-intro : (xs : List A) (x : A) → Member x xs → p x ≡ true → any_of p xs ≡ true
  any_of-intro [] x m h = elim m [ ]
  any_of-intro (y ∷ ys) x m h = ground (arith, any_of-intro ys x)

module _ {A : Type 0} where
  pub nonempty-Member : (xs : List A) → not (is_empty xs) ≡ true → (x : A) × Member x xs
  nonempty-Member [] h = absurd (cc)
  nonempty-Member (x ∷ xs) h = (x, inl refl)

  pub Member-nonempty : (xs : List A) (x : A) → Member x xs → not (is_empty xs) ≡ true
  Member-nonempty [] x m = elim m [ ]
  Member-nonempty (y ∷ ys) x m = refl
