-- ===== src/Control/Reference.antt =====
-- normalize_channels of controller/services.py against a description without an accumulator.
use mathlib.Core.Path.{ap₂, fun_ext}
use twitch_car_factory.Base.{
  Bool, true, false, not, ◌&&◌, List, [], ◌∷◌, ◌++◌, contains, text_eq, is_empty, map, all_of,
  filter_by, ◌≡◌, refl, sym, ap, ◌∙◌, append-cons, append-nil, Bool-cases, inl, inr, ◌==◌, arith,
  if◌then◌else◌,
}
use twitch_car_factory.Base.Result.{Result, ok, err, ◌>>=◌, fold_ok}
use twitch_car_factory.Control.Text.{Text, strip, split, valid_channel, fold_case}
use twitch_car_factory.Control.Channels.{
  Problem, invalid_channel, no_channels, name, Progress, append_channel, add_entry, finish,
  normalize_channels, names,
}
use twitch_car_factory.Control.Normalized.{contains-append}

-- The names that are typed in a list of texts: the pieces between the separators, stripped, without
-- the empty ones.
abbrev pub typed_pieces : List Text → List Text
typed_pieces [] = []
typed_pieces (raw ∷ raws) =
    let rest = typed_pieces raws in if is_empty (strip raw) then rest else strip raw ∷ rest

abbrev pub typed : List Text → List Text
typed [] = []
typed (raw ∷ raws) = typed_pieces (split raw) ++ typed raws

-- Each name in its first spelling.
abbrev pub first_spellings : List Text → List Text
first_spellings [] = []
first_spellings (c ∷ cs) =
    c ∷ filter_by (λ d. not (fold_case d == fold_case c)) (first_spellings cs)

-- The names that are not seen yet, each in its first spelling.
abbrev fresh : List Text → List Text → List Text
fresh seen [] = []
fresh seen (c ∷ cs) =
    if contains (fold_case c) seen then fresh seen cs else c ∷ fresh (seen ++ (fold_case c ∷ [])) cs

-- The lists after the names `cs`.
abbrev appended : List Text → Progress → Result Problem Progress
appended cs (channels, seen) =
    if all_of valid_channel cs
    then ok (channels ++ fresh seen cs, seen ++ map fold_case (fresh seen cs))
    else err invalid_channel

appended-nil : (p : Progress) → appended [] p ≡ ok p
appended-nil p = ap (λ q. ok q) (ap₂ (λ a b. (a, b)) (append-nil p.0) (append-nil p.1))

appended-seen :
    (c : Text) (cs : List Text) (p : Progress)
    → valid_channel c ≡ true
    → contains (fold_case c) p.1 ≡ true
    → appended (c ∷ cs) p ≡ appended cs p
appended-seen c cs p v h = rw (v, h)

appended-new :
    (c : Text) (cs : List Text) (p : Progress)
    → valid_channel c ≡ true
    → contains (fold_case c) p.1 ≡ false
    → appended (c ∷ cs) p ≡ appended cs (p.0 ++ (c ∷ []), p.1 ++ (fold_case c ∷ []))
appended-new c cs p v h =
    let rest = fresh (p.1 ++ (fold_case c ∷ [])) cs in
    ground (arith, v, h, append-cons p.0 c rest, append-cons p.1 (fold_case c) (map fold_case rest))

append_channel-appended :
    (raw : Text) (cs : List Text) (p : Progress)
    → (append_channel raw p >>= appended cs)
      ≡ appended (if is_empty (strip raw) then cs else strip raw ∷ cs) p
unfolding append_channel
append_channel-appended raw cs p =
    ground (arith, appended-seen (strip raw) cs p, appended-new (strip raw) cs p)

pieces-appended :
    (raws : List Text) (p : Progress)
    → fold_ok append_channel raws p ≡ appended (typed_pieces raws) p
unfolding fold_ok
pieces-appended [] p = sym (appended-nil p)
pieces-appended (raw ∷ raws) p =
    ap (λ k. append_channel raw p >>= k) (fun_ext (pieces-appended raws))
    ∙ append_channel-appended raw (typed_pieces raws) p

-- The next name is added, passed over, or refused.
appended-append :
    (xs ys : List Text) (p : Progress) → appended (xs ++ ys) p ≡ (appended xs p >>= appended ys)
appended-append [] ys p = ap (λ r. r >>= appended ys) (sym (appended-nil p))
appended-append (x ∷ xs) ys p = elim (Bool-cases (valid_channel x)) [
  | inr v ↦ ground (arith, v)
  | inl v ↦ elim (Bool-cases (contains (fold_case x) p.1)) [
    | inl h ↦
        appended-seen x (xs ++ ys) p v h
        ∙ appended-append xs ys p
        ∙ ap (λ r. r >>= appended ys) (sym (appended-seen x xs p v h))
    | inr h ↦
        appended-new x (xs ++ ys) p v h
        ∙ appended-append xs ys (p.0 ++ (x ∷ []), p.1 ++ (fold_case x ∷ []))
        ∙ ap (λ r. r >>= appended ys) (sym (appended-new x xs p v h))
  ]
]

entries-appended :
    (raws : List Text) (p : Progress)
    → fold_ok add_entry (map name raws) p ≡ appended (typed raws) p
unfolding fold_ok add_entry
entries-appended [] p = sym (appended-nil p)
entries-appended (raw ∷ raws) p =
    ap (λ k. fold_ok append_channel (split raw) p >>= k) (fun_ext (entries-appended raws))
    ∙ ap (λ r. r >>= appended (typed raws)) (pieces-appended (split raw) p)
    ∙ sym (appended-append (typed_pieces (split raw)) (typed raws) p)

filter_by-filter_by :
    (p q r : Text → Bool) (xs : List Text)
    → ((x : Text) → r x ≡ (p x && q x))
    → filter_by q (filter_by p xs) ≡ filter_by r xs
filter_by-filter_by p q r [] h = refl
filter_by-filter_by p q r (x ∷ xs) h = ground (arith, h x, filter_by-filter_by p q r xs h)

other_spelling :
    (seen : List Text) (c d : Text)
    → contains c seen ≡ true
    → not (contains d seen) ≡ (not (d == c) && not (contains d seen))
other_spelling seen c d h = ground (arith, text_eq.agrees d c, h)

unseen_spelling :
    (seen : List Text) (c d : Text)
    → not (contains d (seen ++ (c ∷ []))) ≡ (not (d == c) && not (contains d seen))
unseen_spelling seen c d =
    ground (arith, contains-append d seen c, text_eq.agrees d c, text_eq.agrees c d)

fresh-first_spellings :
    (cs seen : List Text)
    → fresh seen cs ≡ filter_by (λ d. not (contains (fold_case d) seen)) (first_spellings cs)
fresh-first_spellings [] seen = refl
fresh-first_spellings (c ∷ cs) seen = elim (Bool-cases (contains (fold_case c) seen)) [
  | inl h ↦ ground (
    arith,
    h,
    fresh-first_spellings cs seen,
    filter_by-filter_by (λ d. not (fold_case d == fold_case c))
        (λ d. not (contains (fold_case d) seen)) (λ d. not (contains (fold_case d) seen))
        (first_spellings cs) (λ d. other_spelling seen (fold_case c) (fold_case d) h),
  )
  | inr h ↦ ground (
    arith,
    h,
    fresh-first_spellings cs (seen ++ (fold_case c ∷ [])),
    filter_by-filter_by (λ d. not (fold_case d == fold_case c))
        (λ d. not (contains (fold_case d) seen))
        (λ d. not (contains (fold_case d) (seen ++ (fold_case c ∷ [])))) (first_spellings cs)
        (λ d. unseen_spelling seen (fold_case c) (fold_case d)),
  )
]

all_kept : (p : Text → Bool) (xs : List Text) → ((x : Text) → p x ≡ true) → filter_by p xs ≡ xs
all_kept p [] h = refl
all_kept p (x ∷ xs) h = ground (arith, h x, all_kept p xs h)

empty_together : (cs : List Text) → is_empty (first_spellings cs) ≡ is_empty cs
empty_together [] = refl
empty_together (c ∷ cs) = refl

-- For a list of texts, normalize_channels is: cut each text at its separators, strip the pieces and drop
-- the empty ones; refuse the list where one of them is no valid name, or where a name is required and
-- there is none; and otherwise keep each name in its first spelling.
pub normalize_channels-reference :
    (raws : List Text) (require_nonempty : Bool)
    → normalize_channels (names raws) require_nonempty ≡ (
        if not (all_of valid_channel (typed raws))
        then err invalid_channel
        else if require_nonempty && is_empty (typed raws)
        then err no_channels
        else ok (first_spellings (typed raws)))
unfolding normalize_channels
normalize_channels-reference raws require_nonempty =
    ap (λ r. r >>= finish require_nonempty) (entries-appended raws ([], []))
    ∙ ground (
      arith,
      fresh-first_spellings (typed raws) [],
      all_kept (λ d. not (contains (fold_case d) [])) (first_spellings (typed raws)) (λ d. refl),
      empty_together (typed raws),
    )
