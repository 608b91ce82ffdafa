-- ===== src/Base/Exec.antt =====
-- Methods that change an object and may raise: what was written before a raise stays written.
use mathlib.Core.Path.{◌≡◌, ap}
use mathlib.Core.Bool.{Bool, true, false}
use mathlib.Core.Option.{Option, none, some}
use twitch_car_factory.Base.Result.{Result, ok, err}
use twitch_car_factory.Base.Tests.{if◌then◌else◌}

abbrev pub Exec : Type 0 → Type 0 → Type 0 → Type 0
Exec E S A = S → Result E A × S

module _ {E S A : Type 0} where
  unfoldable pub pure : A → Exec E S A
  pure a s = (ok a, s)

  unfoldable pub raise : E → Exec E S A
  raise e s = (err e, s)

  unfoldable pub lift : Result E A → Exec E S A
  lift r s = (r, s)

  unfoldable pub gets : (S → A) → Exec E S A
  gets f s = (ok (f s), s)

module _ {E S : Type 0} where
  unfoldable pub modify : (S → S) → Exec E S (Unit {0})
  modify f s = (ok tt, f s)

module _ {E S A B : Type 0} where
  abbrev pub continue : Result E A → (A → Exec E S B) → Exec E S B
  continue (ok a) f s = f a s
  continue (err e) f s = (err e, s)

  infixl 5 ◌>>=◌ ◌>>◌
  unfoldable pub ◌>>=◌ : Exec E S A → (A → Exec E S B) → Exec E S B
  ◌>>=◌ m f s = let (r, s') = m s in continue r f s'

  abbrev pub ◌>>◌ : Exec E S A → Exec E S B → Exec E S B
  m >> n = m >>= λ _. n

module _ {E S A : Type 0} where
  -- `try` around an action: its outcome becomes a value.
  unfoldable pub attempt : Exec E S A → Exec E S (Result E A)
  attempt m s = let (r, s') = m s in (ok r, s')

module _ {E S A B : Type 0} where
  -- A block whose first step returns, and one whose first step raises.
  pub >>=-ok :
      (m : Exec E S A) (f : A → Exec E S B) (s : S) (a : A) (s' : S)
      → m s ≡ (ok a, s')
      → (m >>= f) s ≡ f a s'
  unfolding ◌>>=◌
  >>=-ok m f s a s' h = ap (λ x. continue x.0 f x.1) h

  pub >>=-err :
      (m : Exec E S A) (f : A → Exec E S B) (s : S) (e : E) (s' : S)
      → m s ≡ (err e, s')
      → (m >>= f) s ≡ (err e, s')
  unfolding ◌>>=◌
  >>=-err m f s e s' h = ap (λ x. continue x.0 f x.1) h

module _ {E S A : Type 0} where
  abbrev pub rolled_back : Result E A → S → S → Result E A × S
  rolled_back (ok a) before after = (ok a, after)
  rolled_back (err e) before after = (err e, before)

  -- `@transaction.atomic`: an exception takes the block's writes back.
  unfoldable pub atomic : Exec E S A → Exec E S A
  atomic m s = let (r, s') = m s in rolled_back r s s'

module _ {E S A B : Type 0} where
  -- A branch on an optional value.
  unfoldable pub on_option : Option A → Exec E S B → (A → Exec E S B) → Exec E S B
  on_option none m k = m
  on_option (some a) m k = k a

-- `m` keeps `P`, whether it returns or raises.
pub record Keeps {E S A : Type 0} (P : S → Type 0) (m : Exec E S A) : Type 0 where
  pub keep : (s : S) → P s → P (m s).1

module _ {E S A : Type 0} {P : S → Type 0} where
  pub Keeps-attempt : (m : Exec E S A) → Keeps P m → Keeps P (attempt m)
  unfolding attempt
  Keeps-attempt m k = record { keep = k.keep }

  pub Keeps-if :
      (b : Bool) (m n : Exec E S A) → Keeps P m → Keeps P n → Keeps P (if b then m else n)
  Keeps-if true m n km kn = km
  Keeps-if false m n km kn = kn

  pub Keeps-lift : (r : Result E A) → Keeps P (lift r)
  unfolding lift
  Keeps-lift r = record { keep = λ s. λ p. p }

  pub Keeps-pure : (a : A) → Keeps P (pure {E = E} a)
  unfolding pure
  Keeps-pure a = record { keep = λ s. λ p. p }

  pub Keeps-raise : (e : E) → Keeps P (raise {A = A} e)
  unfolding raise
  Keeps-raise e = record { keep = λ s. λ p. p }

  pub Keeps-gets : (f : S → A) → Keeps P (gets {E = E} f)
  unfolding gets
  Keeps-gets f = record { keep = λ s. λ p. p }

module _ {E S A : Type 0} where
  Keeps-rolled_back :
      (P : S → Type 0) (r : Result E A) (s s' : S) → P s → P s' → P (rolled_back r s s').1
  Keeps-rolled_back P (ok a) s s' h h' = h'
  Keeps-rolled_back P (err e) s s' h h' = h

module _ {E S A : Type 0} {P : S → Type 0} where
  pub Keeps-atomic : (m : Exec E S A) → Keeps P m → Keeps P (atomic m)
  unfolding atomic
  Keeps-atomic m k = record {
    keep = λ s h. let (r, s') = m s in Keeps-rolled_back P r s s' h (k.keep s h);
  }

module _ {E S : Type 0} {P : S → Type 0} where
  pub Keeps-modify : (f : S → S) → ((s : S) → P s → P (f s)) → Keeps P (modify {E = E} f)
  unfolding modify
  Keeps-modify f k = record { keep = k }

module _ {E S A B : Type 0} {P : S → Type 0} where
  pub Keeps-on_option :
      (o : Option A) (m : Exec E S B) (k : A → Exec E S B)
      → Keeps P m
      → ((a : A) → Keeps P (k a))
      → Keeps P (on_option o m k)
  unfolding on_option
  Keeps-on_option none m k h g = h
  Keeps-on_option (some a) m k h g = g a

module _ {E S A B : Type 0} {P : S → Type 0} where
  Keeps-continue :
      (r : Result E A) (f : A → Exec E S B) → ((a : A) → Keeps P (f a)) → Keeps P (continue r f)
  Keeps-continue (ok a) f kf = kf a
  Keeps-continue (err e) f kf = record { keep = λ s h. h }

  pub Keeps-bind :
      (m : Exec E S A) (f : A → Exec E S B)
      → Keeps P m
      → ((a : A) → Keeps P (f a))
      → Keeps P (m >>= f)
  unfolding ◌>>=◌
  Keeps-bind m f km kf = record {
    keep = λ s h. let (r, s') = m s in (Keeps-continue r f kf).keep s' (km.keep s h);
  }

pub ruleset keeps_rules = (
  Keeps-pure, Keeps-raise, Keeps-lift, Keeps-gets, Keeps-if, Keeps-modify, Keeps-bind,
  Keeps-on_option, Keeps-atomic,
)
