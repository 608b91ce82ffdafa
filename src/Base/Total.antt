-- ===== src/Base/Total.antt =====
-- Blocks that return from every state.
use mathlib.Core.Option.{Option, none, some}
use mathlib.Core.Path.{◌≡◌, ◌∙◌, refl, ap}
use twitch_car_factory.Base.Result.{Result, ok}
use twitch_car_factory.Base.Exec.{
  Exec, pure, gets, modify, on_option, atomic, rolled_back, ◌>>=◌, >>=-ok,
}

pub record Total {E S A : Type 0} (m : Exec E S A) : Type 0 where
  pub returns : (s : S) → (a : A) × (after : S) × (m s ≡ (ok a, after))

module _ {E S A : Type 0} where
  pub Total-pure : (a : A) → Total (pure {E = E} {S = S} a)
  unfolding pure
  Total-pure a = record { returns = λ s. (a, s, refl) }

  pub Total-gets : (f : S → A) → Total (gets {E = E} f)
  unfolding gets
  Total-gets f = record { returns = λ s. (f s, s, refl) }

  pub Total-atomic : (m : Exec E S A) → Total m → Total (atomic m)
  unfolding atomic
  Total-atomic m t = record {
    returns = λ s.
        let (a, after, e) = t.returns s in
        (a, after, ap (λ (x : Result E A × S). rolled_back x.0 s x.1) e);
  }

module _ {E S : Type 0} where
  pub Total-modify : (f : S → S) → Total (modify {E = E} f)
  unfolding modify
  Total-modify f = record { returns = λ s. (tt, f s, refl) }

module _ {E S A B : Type 0} where
  pub Total-bind :
      (m : Exec E S A) (f : A → Exec E S B) → Total m → ((a : A) → Total (f a)) → Total (m >>= f)
  Total-bind m f t k = record {
    returns = λ s.
        let (a, s', e) = t.returns s in
        let (b, after, e') = (k a).returns s' in (b, after, >>=-ok m f s a s' e ∙ e');
  }

  pub Total-on_option :
      (o : Option A) (m : Exec E S B) (k : A → Exec E S B)
      → Total m
      → ((a : A) → Total (k a))
      → Total (on_option o m k)
  unfolding on_option
  Total-on_option none m k t h = t
  Total-on_option (some a) m k t h = h a

pub ruleset total_rules =
    (Total-pure, Total-gets, Total-modify, Total-atomic, Total-bind, Total-on_option)
