-- ===== src/Base/Result.antt =====
-- Pure code that may raise: a value, or the exception that was raised.
use mathlib.Core.Path.{◌≡◌, refl, subst}
use mathlib.Core.Logic.{◌⊎◌, inl, inr}
use mathlib.Core.List.{List, [], ◌∷◌}

pub data Result {ℓ κ} (E : Type ℓ) (A : Type κ) : Type (ℓ ⊔ κ) where
  ok : A → Result E A
  err : E → Result E A

module _ {ℓ κ μ} {E : Type ℓ} {A : Type κ} {B : Type μ} where
  infixl 5 ◌>>=◌
  abbrev pub ◌>>=◌ : Result E A → (A → Result E B) → Result E B
  ok a >>= f = f a
  err e >>= f = err e

  -- A successful bind had a successful first step.
  pub >>=-eq-ok :
      (m : Result E A) (f : A → Result E B) (b : B)
      → (m >>= f) ≡ ok b
      → (a : A) × (m ≡ ok a) × (f a ≡ ok b)
  >>=-eq-ok (ok a) f b h = (a, refl, h)
  >>=-eq-ok (err e) f b h = cc

-- A split on a result that keeps the equation.
pub Result-cases {ℓ κ} :
    {E : Type ℓ} {A : Type κ} (r : Result E A) → ((a : A) × (r ≡ ok a)) ⊎ ((e : E) × (r ≡ err e))
Result-cases (ok a) = inl (a, refl)
Result-cases (err e) = inr (e, refl)

pub ok_injective {ℓ κ} :
    {E : Type ℓ} {A : Type κ} (a b : A) → ◌≡◌ {A = Result E A} (ok a) (ok b) → a ≡ b
ok_injective a b h = cc

module _ {ℓ κ μ} {E : Type ℓ} {A : Type κ} {B : Type μ} where
  -- `[f(x) for x in xs]`, where `f` may raise.
  unfoldable pub map_ok : (A → Result E B) → List A → Result E (List B)
  map_ok f [] = ok []
  map_ok f (x ∷ xs) = do y ← f x; ys ← map_ok f xs; ok (y ∷ ys)

  -- A loop over `xs` that updates `b`, and may raise.
  unfoldable pub fold_ok : (A → B → Result E B) → List A → B → Result E B
  fold_ok f [] b = ok b
  fold_ok f (x ∷ xs) b = do b' ← f x b; fold_ok f xs b'

  -- What every round keeps, the loop keeps.
  pub fold_ok-invariant :
      (P : B → Type 0) (f : A → B → Result E B)
      → ((x : A) (b c : B) → f x b ≡ ok c → P b → P c)
      → (xs : List A) (b c : B) → fold_ok f xs b ≡ ok c
      → P b
      → P c
  unfolding fold_ok
  fold_ok-invariant P f keep [] b c h p = subst P (ok_injective b c h) p
  fold_ok-invariant P f keep (x ∷ xs) b c h p =
      let (b', e, h') = >>=-eq-ok (f x b) (fold_ok f xs) c h in
      fold_ok-invariant P f keep xs b' c h' (keep x b b' e p)
