-- ===== src/Base/Ensures.antt =====
-- What holds of the value and of the state when a block returns.
use mathlib.Core.Path.{◌≡◌, refl}
use mathlib.Core.Option.{Option, none, some}
use twitch_car_factory.Base.Result.{Result, ok, err}
use twitch_car_factory.Base.Exec.{
  Exec, pure, raise, gets, on_option, modify, continue, atomic, rolled_back, ◌>>=◌,
}

abbrev pub AtReturn : {E S A : Type 0} → (A → S → Type 0) → Result E A → S → Type 0
AtReturn Q (ok a) s = Q a s
AtReturn Q (err e) s = Unit

-- Run where `P` holds, `m` raises or returns where `Q` holds.
pub record Ensures {E S A : Type 0} (P : S → Type 0) (m : Exec E S A) (Q : A → S → Type 0)
    : Type 0 where
  pub run : (s : S) → P s → AtReturn Q (m s).0 (m s).1

pub AtReturn-map :
    {E S A : Type 0} (Q R : A → S → Type 0)
    → ((a : A) (s : S) → Q a s → R a s)
    → (r : Result E A) (s : S) → AtReturn Q r s
    → AtReturn R r s
AtReturn-map Q R f (ok a) s h = f a s h
AtReturn-map Q R f (err e) s h = tt

module _ {E S A B : Type 0} where
  Ensures-continue :
      (Q : B → S → Type 0) (R : A → S → Type 0) (r : Result E A) (f : A → Exec E S B) (s : S)
      → AtReturn R r s
      → ((a : A) → Ensures (R a) (f a) Q)
      → AtReturn Q (continue r f s).0 (continue r f s).1
  Ensures-continue Q R (ok a) f s h k = (k a).run s h
  Ensures-continue Q R (err e) f s h k = tt

module _ {E S A B : Type 0} {P : S → Type 0} {Q : B → S → Type 0} where
  pub Ensures-bind :
      (R : A → S → Type 0) (m : Exec E S A) (f : A → Exec E S B)
      → Ensures P m R
      → ((a : A) → Ensures (R a) (f a) Q)
      → Ensures P (m >>= f) Q
  unfolding ◌>>=◌
  Ensures-bind R m f h k = record {
    run = λ s p. let (r, s') = m s in Ensures-continue Q R r f s' (h.run s p) k;
  }

module _ {E S A : Type 0} where
  Ensures-rolled_back :
      (Q : A → S → Type 0) (r : Result E A) (s t : S)
      → AtReturn Q r t
      → AtReturn Q (rolled_back r s t).0 (rolled_back r s t).1
  Ensures-rolled_back Q (ok a) s t h = h
  Ensures-rolled_back Q (err e) s t h = tt

module _ {E S A : Type 0} {P : S → Type 0} {Q : A → S → Type 0} where
  pub Ensures-atomic : (m : Exec E S A) → Ensures P m Q → Ensures P (atomic m) Q
  unfolding atomic
  Ensures-atomic m h = record {
    run = λ s p. let (r, t) = m s in Ensures-rolled_back Q r s t (h.run s p);
  }

-- Nothing is said of what a step returns.
any_return : {E S A : Type 0} (r : Result E A) (s : S) → AtReturn (λ _ _. Unit) r s
any_return (ok a) s = tt
any_return (err e) s = tt

pub Ensures-any : {E S A : Type 0} {P : S → Type 0} (m : Exec E S A) → Ensures P m (λ _ _. Unit)
Ensures-any m = record { run = λ s p. any_return (m s).0 (m s).1 }

module _ {E S : Type 0} where
  -- A write that keeps `P`.
  pub Ensures-frame :
      {P : S → Type 0} (f : S → S)
      → ((s : S) → P s → P (f s))
      → Ensures P (modify {E = E} f) (λ _. P)
  unfolding modify
  Ensures-frame f k = record { run = k }

pub Ensures-pure : {E S A : Type 0} {Q : A → S → Type 0} (a : A) → Ensures (Q a) (pure {E = E} a) Q
unfolding pure
Ensures-pure a = record { run = λ s h. h }

module _ {E S A B : Type 0} {P : S → Type 0} {Q : B → S → Type 0} where
  -- The rest of the block may use what was read.
  pub Ensures-gets :
      (f : S → A) (k : A → Exec E S B)
      → ((s : S) → P s → AtReturn Q (k (f s) s).0 (k (f s) s).1)
      → Ensures P (gets f >>= k) Q
  unfolding ◌>>=◌ gets
  Ensures-gets f k h = record { run = h }

  pub Ensures-on_option :
      (o : Option A) (m : Exec E S B) (k : A → Exec E S B)
      → Ensures P m Q
      → ((a : A) → o ≡ some a → Ensures P (k a) Q)
      → Ensures P (on_option o m k) Q
  unfolding on_option
  Ensures-on_option none m k h g = h
  Ensures-on_option (some a) m k h g = g a refl

pub Ensures-raise :
    {E S A : Type 0} {P : S → Type 0} {Q : A → S → Type 0} (e : E) → Ensures P (raise e) Q
unfolding raise
Ensures-raise e = record { run = λ s h. tt }

-- A stronger condition will do.
pub Ensures-pre :
    {E S A : Type 0} {P P' : S → Type 0} {Q : A → S → Type 0} (m : Exec E S A)
    → ((s : S) → P' s → P s)
    → Ensures P m Q
    → Ensures P' m Q
Ensures-pre m f h = record { run = λ s p. h.run s (f s p) }
