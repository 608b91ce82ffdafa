-- ===== src/Base/Safe.antt =====
-- What holds of the state when a block returns, and what holds of it when it raises.
use mathlib.Core.Bool.{Bool, true, false}
use mathlib.Core.Option.{Option, none, some}
use twitch_car_factory.Base.Tests.{if◌then◌else◌}
use twitch_car_factory.Base.Result.{Result, ok, err}
use twitch_car_factory.Base.Ensures.{Ensures, AtReturn}
use twitch_car_factory.Base.Exec.{
  Exec, Keeps, pure, raise, gets, attempt, on_option, continue, ◌>>=◌,
}

abbrev pub AtEnd : {E S A : Type 0} → (A → S → Type 0) → (S → Type 0) → Result E A → S → Type 0
AtEnd Q R (ok a) s = Q a s
AtEnd Q R (err e) s = R s

-- Run where `P` holds, `m` returns where `Q` holds or raises where `R` holds.
pub record Safe {E S A : Type 0} (P : S → Type 0) (m : Exec E S A) (Q : A → S → Type 0)
    (R : S → Type 0) : Type 0 where
  pub run : (s : S) → P s → AtEnd Q R (m s).0 (m s).1

module _ {E S A : Type 0} {P : S → Type 0} {Q : A → S → Type 0} {R : S → Type 0} where
  pub Safe-pure : (a : A) → ((s : S) → P s → Q a s) → Safe {E = E} P (pure a) Q R
  unfolding pure
  Safe-pure a h = record { run = h }

  pub Safe-raise : (e : E) → ((s : S) → P s → R s) → Safe {E = E} {A = A} P (raise e) Q R
  unfolding raise
  Safe-raise e h = record { run = h }

  pub Safe-gets : (f : S → A) → ((s : S) → P s → Q (f s) s) → Safe {E = E} P (gets f) Q R
  unfolding gets
  Safe-gets f h = record { run = h }

  pub Safe-if :
      (b : Bool) (m n : Exec E S A) → Safe P m Q R → Safe P n Q R → Safe P (if b then m else n) Q R
  Safe-if true m n h k = h
  Safe-if false m n h k = k

module _ {E S A : Type 0} {P : S → Type 0} {R : S → Type 0} where
  -- What the outcome of a tried block says.
  pub Safe-attempt :
      {Q : A → S → Type 0} {T : S → Type 0} (m : Exec E S A)
      → Safe P m Q R
      → Safe P (attempt m) (AtEnd Q R) T
  unfolding attempt
  Safe-attempt m h = record { run = h.run }

module _ {E S A : Type 0} where
  at_end_weaken :
      {Q Q' : A → S → Type 0} {R R' : S → Type 0} (r : Result E A) (s : S)
      → ((a : A) (s : S) → Q a s → Q' a s)
      → ((s : S) → R s → R' s)
      → AtEnd Q R r s
      → AtEnd Q' R' r s
  at_end_weaken (ok a) s q r h = q a s h
  at_end_weaken (err e) s q r h = r s h

  at_end : (P : S → Type 0) (r : Result E A) (s : S) → P s → AtEnd (λ _. P) P r s
  at_end P (ok a) s h = h
  at_end P (err e) s h = h

  pub at_any_end : (P : S → Type 0) (r : Result E A) (s : S) → AtEnd (λ _. P) P r s → P s
  at_any_end P (ok a) s h = h
  at_any_end P (err e) s h = h

  pub Safe-weaken :
      {P P' : S → Type 0} {Q Q' : A → S → Type 0} {R R' : S → Type 0} (m : Exec E S A)
      → ((s : S) → P' s → P s)
      → ((a : A) (s : S) → Q a s → Q' a s)
      → ((s : S) → R s → R' s)
      → Safe P m Q R
      → Safe P' m Q' R'
  Safe-weaken m p q r h = record {
    run = λ s x. at_end_weaken (m s).0 (m s).1 q r (h.run s (p s x));
  }

  pub Safe-Keeps : {P : S → Type 0} (m : Exec E S A) → Keeps P m → Safe P m (λ _. P) P
  Safe-Keeps {P} m k = record { run = λ s p. at_end P (m s).0 (m s).1 (k.keep s p) }

  pub Keeps-Safe : {P : S → Type 0} (m : Exec E S A) → Safe P m (λ _. P) P → Keeps P m
  Keeps-Safe {P} m h = record { keep = λ s p. at_any_end P (m s).0 (m s).1 (h.run s p) }

module _ {E S A B : Type 0} {Q : B → S → Type 0} {R : S → Type 0} where
  Safe-continue :
      (T : A → S → Type 0) (r : Result E A) (f : A → Exec E S B) (s : S)
      → AtEnd T R r s
      → ((a : A) → Safe (T a) (f a) Q R)
      → AtEnd Q R (continue r f s).0 (continue r f s).1
  Safe-continue T (ok a) f s h k = (k a).run s h
  Safe-continue T (err e) f s h k = h

module _ {E S A B : Type 0} {P : S → Type 0} {Q : B → S → Type 0} {R : S → Type 0} where
  pub Safe-bind :
      (T : A → S → Type 0) (m : Exec E S A) (f : A → Exec E S B)
      → Safe P m T R
      → ((a : A) → Safe (T a) (f a) Q R)
      → Safe P (m >>= f) Q R
  unfolding ◌>>=◌
  Safe-bind T m f h k = record {
    run = λ s p. let (r, s') = m s in Safe-continue T r f s' (h.run s p) k;
  }

  pub Safe-on_option :
      (o : Option A) (m : Exec E S B) (k : A → Exec E S B)
      → Safe P m Q R
      → ((a : A) → Safe P (k a) Q R)
      → Safe P (on_option o m k) Q R
  unfolding on_option
  Safe-on_option none m k h g = h
  Safe-on_option (some a) m k h g = g a

module _ {E S A : Type 0} {P : S → Type 0} {Q : A → S → Type 0} {R : S → Type 0} where
  -- What does not depend on the state.
  pub Safe-fact : {F : Type 0} (m : Exec E S A) → (F → Safe P m Q R) → Safe (λ s. P s × F) m Q R
  Safe-fact m f = record { run = λ s p. (f p.1).run s p.0 }

module _ {E S A : Type 0} where
  both_at_end :
      (P : S → Type 0) (D : A → S → Type 0) (r : Result E A) (s : S)
      → P s
      → AtReturn D r s
      → AtEnd (λ a t. P t × D a t) P r s
  both_at_end P D (ok a) s p d = (p, d)
  both_at_end P D (err e) s p d = p

  -- What is kept, with what the block ensures.
  pub Safe-ensured :
      {P : S → Type 0} {D : A → S → Type 0} (m : Exec E S A)
      → Keeps P m
      → Ensures P m D
      → Safe P m (λ a s. P s × D a s) P
  Safe-ensured {P} {D} m k d = record {
    run = λ s p. both_at_end P D (m s).0 (m s).1 (k.keep s p) (d.run s p);
  }
