-- ===== src/Base/Yields.antt =====
-- What an action returns, where it returns.
use mathlib.Core.Path.{◌≡◌, refl}
use mathlib.Core.Bool.{Bool, true, false}
use mathlib.Core.Option.{Option, none, some}
use twitch_car_factory.Base.Tests.{if◌then◌else◌}
use twitch_car_factory.Base.Result.{Result, ok, err}
use twitch_car_factory.Base.Result
use twitch_car_factory.Base.Exec.{
  Exec, Keeps, pure, raise, ◌>>=◌, on_option, continue, atomic, rolled_back,
}
use twitch_car_factory.Base.Ensures.{Ensures, AtReturn}

abbrev pub OnOk : {E A : Type 0} → (A → Type 0) → Result E A → Type 0
OnOk Q (ok a) = Q a
OnOk Q (err _) = Unit

module _ {E A : Type 0} (Q : A → Type 0) where
  -- A check that raises.
  pub OnOk-unless :
      (b : Bool) (e : E) (r : Result E A) → (b ≡ false → OnOk Q r) → OnOk Q (if b then err e else r)
  OnOk-unless true e r h = tt
  OnOk-unless false e r h = h refl

  pub OnOk-if : (b : Bool) (r r' : Result E A) → OnOk Q r → OnOk Q r' → OnOk Q (if b then r else r')
  OnOk-if true r r' h k = h
  OnOk-if false r r' h k = k

  pub OnOk-bind :
      {B : Type 0} (R : B → Type 0) (r : Result E A) (f : A → Result E B)
      → OnOk Q r
      → ((a : A) → Q a → OnOk R (f a))
      → OnOk R (Result.◌>>=◌ r f)
  OnOk-bind R (ok a) f q h = h a q
  OnOk-bind R (err e) f q h = tt

any_ok : {E A : Type 0} (r : Result E A) → OnOk (λ _. Unit) r
any_ok (ok a) = tt
any_ok (err e) = tt

pub record Yields {E S A : Type 0} (Q : A → Type 0) (m : Exec E S A) : Type 0 where
  pub keep : (s : S) → OnOk Q (m s).0

module _ {E S A : Type 0} {Q : A → Type 0} where
  pub Yields-pure : (a : A) → Q a → Yields {E = E} {S = S} Q (pure a)
  unfolding pure
  Yields-pure a q = record { keep = λ s. q }

  pub Yields-raise : (e : E) → Yields {S = S} Q (raise e)
  unfolding raise
  Yields-raise e = record { keep = λ s. tt }

  pub Yields-if :
      (b : Bool) (m n : Exec E S A) → Yields Q m → Yields Q n → Yields Q (if b then m else n)
  Yields-if true m n h k = h
  Yields-if false m n h k = k

module _ {E S A B : Type 0} {Q : B → Type 0} where
  Yields-continue :
      (R : A → Type 0) (r : Result E A) (f : A → Exec E S B)
      → OnOk R r
      → ((a : A) → R a → Yields Q (f a))
      → Yields Q (continue r f)
  Yields-continue R (ok a) f h k = k a h
  Yields-continue R (err e) f h k = record { keep = λ s. tt }

  pub Yields-bind :
      (R : A → Type 0) (m : Exec E S A) (f : A → Exec E S B)
      → Yields R m
      → ((a : A) → R a → Yields Q (f a))
      → Yields Q (m >>= f)
  unfolding ◌>>=◌
  Yields-bind R m f h k = record {
    keep = λ s. let (r, s') = m s in (Yields-continue R r f (h.keep s) k).keep s';
  }

  -- Nothing need be known of the first step.
  pub Yields-then :
      (m : Exec E S A) (f : A → Exec E S B) → ((a : A) → Yields Q (f a)) → Yields Q (m >>= f)
  Yields-then m f k =
      Yields-bind (λ _. Unit) m f (record { keep = λ s. any_ok (m s).0 }) (λ a _. k a)

  pub Yields-on_option :
      (o : Option A) (m : Exec E S B) (k : A → Exec E S B)
      → Yields Q m
      → ((a : A) → Yields Q (k a))
      → Yields Q (on_option o m k)
  unfolding on_option
  Yields-on_option none m k h g = h
  Yields-on_option (some a) m k h g = g a

module _ {E S A B : Type 0} {P : S → Type 0} where
  Keeps-continue :
      (R : A → Type 0) (r : Result E A) (f : A → Exec E S B)
      → OnOk R r
      → ((a : A) → R a → Keeps P (f a))
      → Keeps P (continue r f)
  Keeps-continue R (ok a) f h k = k a h
  Keeps-continue R (err e) f h k = record { keep = λ s p. p }

  pub Keeps-bind-Yields :
      (R : A → Type 0) (m : Exec E S A) (f : A → Exec E S B)
      → Keeps P m
      → Yields R m
      → ((a : A) → R a → Keeps P (f a))
      → Keeps P (m >>= f)
  unfolding ◌>>=◌
  Keeps-bind-Yields R m f h y k = record {
    keep = λ s p. let (r, s') = m s in (Keeps-continue R r f (y.keep s) k).keep s' (h.keep s p);
  }

module _ {E S A : Type 0} (Q : A → Type 0) where
  Yields-rolled_back : (r : Result E A) (s t : S) → OnOk Q r → OnOk Q (rolled_back r s t).0
  Yields-rolled_back (ok a) s t h = h
  Yields-rolled_back (err e) s t h = tt

  as_return : (r : Result E A) (s : S) → OnOk Q r → AtReturn (λ a _. Q a) r s
  as_return (ok a) s h = h
  as_return (err e) s h = tt

module _ {E S A : Type 0} {Q : A → Type 0} where
  pub Yields-atomic : (m : Exec E S A) → Yields Q m → Yields Q (atomic m)
  unfolding atomic
  Yields-atomic m y = record {
    keep = λ s. let (r, t) = m s in Yields-rolled_back Q r s t (y.keep s);
  }

  pub Ensures-Yields : {P : S → Type 0} (m : Exec E S A) → Yields Q m → Ensures P m (λ a _. Q a)
  Ensures-Yields m y = record { run = λ s p. as_return Q (m s).0 (m s).1 (y.keep s) }

pub ruleset yields_rules = (Yields-pure, Yields-raise, Yields-if, Yields-then, Yields-on_option)
