-- ===== src/Control/Normalized.antt =====
-- What normalize_channels of controller/services.py gives: valid names, each once.
use mathlib.Core.Path.{subst, ap₂}
use twitch_car_factory.Base.{
  ℕ, Bool, true, false, ◌||◌, List, [], ◌∷◌, ◌++◌, contains, append-cons, append-nil, text_eq,
  nat_eq, is_empty, map, all_of, ◌≡◌, refl, sym, ap, ◌∙◌, arith, All, All-append, Bool-cases, inl,
  inr, ◌==◌,
}
use twitch_car_factory.Base.Result.{ok, ◌>>=◌, fold_ok, fold_ok-invariant, ok_injective, >>=-eq-ok}
use twitch_car_factory.Control.Text.{
  Text, is_space, strip_right, strip, is_separator, split, is_word, valid_channel, fold_case,
}
use twitch_car_factory.Control.Channels.{
  Problem, Entry, name, other, ChannelInput, Progress, append_channel, add_entry,
  normalize_channels, names, raw_values, finish,
}

-- No text stands twice.
abbrev pub Distinct : List Text → Type 0
Distinct [] = Unit
Distinct (t ∷ ts) = (contains t ts ≡ false) × Distinct ts

-- Valid names, no two of which differ in case only.
abbrev pub IsNormalized : List Text → Type 0
IsNormalized cs = All (λ c. valid_channel c ≡ true) cs × Distinct (map fold_case cs)

pub contains-append :
    (t : Text) (xs : List Text) (u : Text) → contains t (xs ++ (u ∷ [])) ≡ (contains t xs || u == t)
contains-append t [] u = ground arith
contains-append t (x ∷ xs) u = ground (arith, contains-append t xs u)

Distinct-append :
    (xs : List Text) (t : Text) → contains t xs ≡ false → Distinct xs → Distinct (xs ++ (t ∷ []))
Distinct-append [] t h d = (refl, tt)
Distinct-append (x ∷ xs) t h d =
    ground
      (arith, contains-append x xs t, Distinct-append xs t, text_eq.agrees x t, text_eq.agrees t x)

map-append :
    (xs : List Text) (t : Text)
    → map fold_case (xs ++ (t ∷ [])) ≡ map fold_case xs ++ (fold_case t ∷ [])
map-append [] t = refl
map-append (x ∷ xs) t = ap (λ ys. fold_case x ∷ ys) (map-append xs t)

-- What the loops of normalize_channels keep.
abbrev IsProgress : Progress → Type 0
IsProgress (channels, seen) = IsNormalized channels × (seen ≡ map fold_case channels)

word-not-separator : (c : ℕ) → is_word c ≡ true → is_separator c ≡ false
unfolding is_word is_separator
word-not-separator c h = ground arith

word-not-space : (c : ℕ) → is_word c ≡ true → is_space c ≡ false
unfolding is_word is_space
word-not-space c h = ground arith

split-word : (c : ℕ) (s : Text) → all_of is_word (c ∷ s) ≡ true → split (c ∷ s) ≡ ((c ∷ s) ∷ [])
unfolding split
split-word c [] h = ground (arith, word-not-separator c)
split-word c (d ∷ s) h = ground (arith, word-not-separator c, split-word d s)

strip_right-word : (s : Text) → all_of is_word s ≡ true → strip_right s ≡ s
strip_right-word [] h = refl
strip_right-word (c ∷ s) h = ground (arith, word-not-space c, strip_right-word s)

strip-word : (s : Text) → all_of is_word s ≡ true → strip s ≡ s
unfolding strip
strip-word [] h = refl
strip-word (c ∷ s) h = ground (arith, word-not-space c, strip_right-word s)

IsProgress-append :
    (c : Text) (p : Progress)
    → valid_channel c ≡ true
    → contains (fold_case c) p.1 ≡ false
    → IsProgress p
    → IsProgress (p.0 ++ (c ∷ []), p.1 ++ (fold_case c ∷ []))
IsProgress-append c (channels, seen) v n ((valid, distinct), e) =
    let e' = ap (λ ts. ts ++ (fold_case c ∷ [])) e ∙ sym (map-append channels c) in
    (
      (
        All-append (λ t. valid_channel t ≡ true) channels (c ∷ []) valid (v, tt),
        subst Distinct e' (Distinct-append seen (fold_case c) n (subst Distinct (sym e) distinct)),
      ),
      e',
    )

append_channel-IsProgress :
    (raw : Text) (p q : Progress) → append_channel raw p ≡ ok q → IsProgress p → IsProgress q
unfolding append_channel
append_channel-IsProgress raw (channels, seen) q h i = elim (Bool-cases (is_empty (strip raw))) [
  | inl e ↦ subst IsProgress (ok_injective {E = Problem} _ _ (ground arith)) i
  | inr e ↦ elim (Bool-cases (valid_channel (strip raw))) [
    | inr v ↦ absurd (ground arith)
    | inl v ↦ elim (Bool-cases (contains (fold_case (strip raw)) seen)) [
      | inl c ↦ subst IsProgress (ok_injective {E = Problem} _ _ (ground arith)) i
      | inr c ↦
          subst IsProgress (ok_injective {E = Problem} _ _ (ground arith))
            (IsProgress-append (strip raw) (channels, seen) v c i)
    ]
  ]
]

add_entry-IsProgress :
    (e : Entry) (p q : Progress) → add_entry e p ≡ ok q → IsProgress p → IsProgress q
unfolding add_entry
add_entry-IsProgress (name raw) p q h i =
    fold_ok-invariant IsProgress append_channel append_channel-IsProgress (split raw) p q h i
add_entry-IsProgress other p q h i = absurd (cc)

start_IsProgress : IsProgress ([], [])
start_IsProgress = ((tt, tt), refl)

-- The last step of normalize_channels.
finish-eq :
    (require_nonempty : Bool) (p : Progress) (cs : List Text)
    → finish require_nonempty p ≡ ok cs
    → (p.0 ≡ cs) × (require_nonempty ≡ true → is_empty cs ≡ false)
finish-eq require_nonempty p cs h = ground arith

-- What normalize_channels returns has valid names only, no two of them equal up to case, and is not
-- empty where a name is required.
pub normalize_channels-IsNormalized :
    (value : ChannelInput) (require_nonempty : Bool) (cs : List Text)
    → normalize_channels value require_nonempty ≡ ok cs
    → IsNormalized cs × (require_nonempty ≡ true → is_empty cs ≡ false)
unfolding normalize_channels
normalize_channels-IsNormalized value require_nonempty cs h =
    let (values, e, h') =
      >>=-eq-ok (raw_values value)
        (λ values. fold_ok add_entry values ([], []) >>= finish require_nonempty) cs h in
    let (p, e', h'') =
      >>=-eq-ok (fold_ok add_entry values ([], [])) (finish require_nonempty) cs h' in
    let i =
      fold_ok-invariant IsProgress add_entry add_entry-IsProgress values ([], []) p e'
        start_IsProgress in
    (
      subst IsNormalized (finish-eq require_nonempty p cs h'').0 i.0,
      (finish-eq require_nonempty p cs h'').1,
    )

-- Adding the name of a valid channel that is not there yet.
add_entry-new :
    (c : Text) (p : Progress)
    → valid_channel c ≡ true
    → contains (fold_case c) p.1 ≡ false
    → add_entry (name c) p ≡ ok (p.0 ++ (c ∷ []), p.1 ++ (fold_case c ∷ []))
unfolding add_entry append_channel valid_channel fold_ok
add_entry-new [] p v h = absurd (cc)
add_entry-new (a ∷ c) p v h = ground (arith, split-word a c, strip-word (a ∷ c))

contains-middle :
    (t u : Text) (xs ys : List Text) → contains t (xs ++ (u ∷ ys)) ≡ false → (u == t) ≡ false
contains-middle t u [] ys h = ground arith
contains-middle t u (x ∷ xs) ys h = ground (arith, contains-middle t u xs ys)

Distinct-middle : (u : Text) (xs ys : List Text) → Distinct (xs ++ (u ∷ ys)) → contains u xs ≡ false
Distinct-middle u [] ys d = refl
Distinct-middle u (x ∷ xs) ys d = ground (
  arith,
  contains-middle x u xs ys,
  Distinct-middle u xs ys d.1,
  text_eq.agrees x u,
  text_eq.agrees u x,
)

add_entries-new :
    (cs : List Text) (p : Progress)
    → All (λ c. valid_channel c ≡ true) cs
    → Distinct (p.1 ++ map fold_case cs)
    → fold_ok add_entry (map name cs) p ≡ ok (p.0 ++ cs, p.1 ++ map fold_case cs)
unfolding fold_ok
add_entries-new [] p v d =
    ap (λ q. ok q) (ap₂ (λ a b. (a, b)) (sym (append-nil p.0)) (sym (append-nil p.1)))
add_entries-new (c ∷ cs) p v d =
    let p' : Progress = (p.0 ++ (c ∷ []), p.1 ++ (fold_case c ∷ [])) in
    ap (λ r. r >>= fold_ok add_entry (map name cs))
      (add_entry-new c p v.0 (Distinct-middle (fold_case c) p.1 (map fold_case cs) d))
    ∙ add_entries-new cs p' v.1
        (subst Distinct (sym (append-cons p.1 (fold_case c) (map fold_case cs))) d)
    ∙ ap (λ q. ok q)
        (ap₂ (λ a b. (a, b)) (append-cons p.0 c cs)
          (append-cons p.1 (fold_case c) (map fold_case cs)))

-- A list of distinct valid names is left as it is, so normalizing twice is normalizing once.
pub normalize_channels-names :
    (cs : List Text)
    → IsNormalized cs
    → is_empty cs ≡ false
    → normalize_channels (names cs) true ≡ ok cs
unfolding normalize_channels
normalize_channels-names cs i n =
    ap (λ r. r >>= finish true) (add_entries-new cs ([], []) i.0 i.1) ∙ ground arith

-- Normalizing what normalize_channels returned gives it back.
pub normalize_channels-idempotent :
    (value : ChannelInput) (cs : List Text)
    → normalize_channels value true ≡ ok cs
    → normalize_channels (names cs) true ≡ ok cs
normalize_channels-idempotent value cs h =
    let (i, n) = normalize_channels-IsNormalized value true cs h in
    normalize_channels-names cs i (n refl)
