-- ===== src/Engine/Priority.antt =====
-- The channel that is chosen is the first of the configured order that deserves it.
use mathlib.Core.Path.{subst, sym}
use twitch_car_factory.Base.{
  ℕ, Bool, true, false, ◌&&◌, Option, none, some, List, [], ◌∷◌, ◌++◌, ◌≡◌, ◌⊎◌, inl, inr, refl, ap,
  arith, Bool-cases, All, Member, filter_by, first, is_empty, if◌then◌else◌,
}
use twitch_car_factory.Engine.State.{Channel, Miner}
use twitch_car_factory.Engine.Confined.{logins}
use twitch_car_factory.Engine.Selection.{
  is_eligible, is_candidate, candidates, eligible_channels, choose,
}

-- `c` is the first of `xs` that passes the test.
pub record FirstOf {A : Type 0} (p : A → Bool) (xs : List A) (c : A) : Type 0 where
  pub earlier : List A
  pub later : List A
  pub place : xs ≡ earlier ++ c ∷ later
  pub passes : p c ≡ true
  pub others : All (λ x. p x ≡ false) earlier

first-filter_by :
    {A : Type 0} (p : A → Bool) (xs : List A) (c : A)
    → first (filter_by p xs) ≡ some c
    → FirstOf p xs c
first-filter_by p [] c h = absurd (cc)
first-filter_by p (x ∷ xs) c h = elim (Bool-cases (p x)) [
  | inl e ↦
      let same : some x ≡ some c = rw e at h in
      let eq : x ≡ c = cc in
      record {
        earlier = [];
        later = xs;
        place = ap (λ y. y ∷ xs) eq;
        passes = subst (λ y. p y ≡ true) eq e;
        others = tt;
      }
  | inr e ↦
      let rest = first-filter_by p xs c (rw e at h) in
      record {
        earlier = x ∷ rest.earlier;
        later = rest.later;
        place = ap (λ ys. x ∷ ys) rest.place;
        passes = rest.passes;
        others = (e, rest.others);
      }
]

filter_by-filter_by :
    {A : Type 0} (p q : A → Bool) (xs : List A)
    → filter_by q (filter_by p xs) ≡ filter_by (λ x. p x && q x) xs
filter_by-filter_by p q [] = refl
filter_by-filter_by p q (x ∷ xs) = ground (arith, filter_by-filter_by p q xs)

none_pass :
    {A : Type 0} (p : A → Bool) (xs : List A)
    → is_empty (filter_by p xs) ≡ true
    → All (λ x. p x ≡ false) xs
none_pass p [] h = tt
none_pass p (x ∷ xs) h = elim (Bool-cases (p x)) [
  | inl e ↦ absurd (ground arith)
  | inr e ↦ (e, none_pass p xs (rw e at h))
]

first-none :
    {A : Type 0} (p : A → Bool) (xs : List A)
    → first (filter_by p xs) ≡ none
    → All (λ x. p x ≡ false) xs
first-none p [] h = tt
first-none p (x ∷ xs) h = elim (Bool-cases (p x)) [
  | inl e ↦ absurd (ground arith)
  | inr e ↦ (e, first-none p xs (rw e at h))
]

first_of_nonempty : {A : Type 0} (xs : List A) → is_empty xs ≡ false → first xs ≡ none → ⊥
first_of_nonempty [] e h = cc
first_of_nonempty (x ∷ xs) e h = cc

module _ {W : Type 0} (now wall_now : ℕ) (s : Miner W) where
  abbrev pub is_rested : Channel → Bool
  is_rested c = is_candidate s.cooldowns now c

  abbrev pub is_earning : Channel → Bool
  is_earning c = is_candidate s.cooldowns now c && is_eligible s.campaigns wall_now c

  -- What the choice means: without one every online channel is cooling down; a chosen channel is
  -- the first rested one with an eligible drop, or the first rested one where none has any.
  abbrev pub Chosen : Option Channel → Type 0
  Chosen none = All (λ x. is_rested x ≡ false) s.online
  Chosen (some c) =
      FirstOf is_earning s.online c
      ⊎ (All (λ x. is_earning x ≡ false) s.online × FirstOf is_rested s.online c)

  eligible_channels_lem : eligible_channels now wall_now s ≡ filter_by is_earning s.online
  unfolding eligible_channels candidates
  eligible_channels_lem = filter_by-filter_by is_rested (is_eligible s.campaigns wall_now) s.online

  choose_open :
      choose now wall_now s
      ≡ first (
          if is_empty (filter_by is_earning s.online)
          then filter_by is_rested s.online
          else filter_by is_earning s.online)
  unfolding choose candidates
  choose_open =
      ap (λ es. first (if is_empty es then filter_by is_rested s.online else es))
        eligible_channels_lem

  Chosen-first :
      (o : Option Channel)
      → first (
          if is_empty (filter_by is_earning s.online)
          then filter_by is_rested s.online
          else filter_by is_earning s.online)
        ≡ o
      → Chosen o
  Chosen-first none h = elim (Bool-cases (is_empty (filter_by is_earning s.online))) [
    | inl e ↦ first-none is_rested s.online (rw e at h)
    | inr e ↦ absurd (first_of_nonempty (filter_by is_earning s.online) e (rw e at h))
  ]
  Chosen-first (some c) h = elim (Bool-cases (is_empty (filter_by is_earning s.online))) [
    | inl e ↦
        inr (none_pass is_earning s.online e, first-filter_by is_rested s.online c (rw e at h))
    | inr e ↦ inl (first-filter_by is_earning s.online c (rw e at h))
  ]

  -- The choice of a round, in the order of the configured channels.
  pub choose-Chosen : Chosen (choose now wall_now s)
  choose-Chosen = Chosen-first (choose now wall_now s) (sym choose_open)

Member-login_split :
    (ys later : List Channel) (c : Channel) → Member c.login (logins (ys ++ c ∷ later))
Member-login_split [] later c = inl refl
Member-login_split (y ∷ ys) later c = inr (Member-login_split ys later c)

FirstOf-Member :
    (p : Channel → Bool) (xs : List Channel) (c : Channel)
    → FirstOf p xs c
    → Member c.login (logins xs)
FirstOf-Member p xs c f =
    subst (λ ys. Member c.login (logins ys)) (sym f.place) (Member-login_split f.earlier f.later c)

-- What is chosen is online.
pub Chosen-Member :
    {W : Type 0} (now wall_now : ℕ) (s : Miner W) (c : Channel)
    → Chosen now wall_now s (some c)
    → Member c.login (logins s.online)
Chosen-Member now wall_now s c (inl f) = FirstOf-Member _ s.online c f
Chosen-Member now wall_now s c (inr (_, f)) = FirstOf-Member _ s.online c f
