-- ===== src/Inventory/Popped.antt =====
-- The dict of drops from which merge_campaign of controller/twitch_miner/inventory.py pops.
use mathlib.Core.Path.{subst}
use twitch_car_factory.Base.{
  String, true, false, [], ◌∷◌, ◌≡◌, ◌≢◌, refl, arith, Bool-cases, inl, inr, string_eq, sym, ap,
  ◌∙◌, if_both,
}
use twitch_car_factory.Base.Result.{ok, fold_ok-invariant, >>=-eq-ok, ok_injective}
use twitch_car_factory.Json.{
  Value, null, bool, int, float, str, arr, obj, Fields, end, index, iterate, is_hashable,
  keys_equal,
}
use twitch_car_factory.Inventory.Merge.{
  ById, put_by_id, index_drop, index_drops, find_by_id, drop_by_id, pop_by_id,
}

-- No entry has a key equal to `k`; the text identifier `t` is no key.
abbrev NoKeyAfter : Value → ById → Type 0
NoKeyAfter k [] = Unit
NoKeyAfter k ((j, _) ∷ d) = (keys_equal k j ≡ false) × NoKeyAfter k d

abbrev pub Lacks : String → ById → Type 0
Lacks t [] = Unit
Lacks t ((j, _) ∷ d) = (keys_equal j (str t) ≡ false) × Lacks t d

-- No key stands twice.
abbrev pub Distinct : ById → Type 0
Distinct [] = Unit
Distinct ((j, _) ∷ d) = NoKeyAfter j d × Distinct d

put_by_id-NoKeyAfter :
    (j k : Value) (fs : Fields) (d : ById)
    → keys_equal j k ≡ false
    → NoKeyAfter j d
    → NoKeyAfter j (put_by_id k fs d)
unfolding put_by_id
put_by_id-NoKeyAfter j k fs [] h n = (h, tt)
put_by_id-NoKeyAfter j k fs ((i, gs) ∷ d) h n = elim (Bool-cases (keys_equal i k)) [
  | inl q ↦ ground (arith, q, n)
  | inr q ↦ let rest = put_by_id-NoKeyAfter j k fs d h n.1 in ground (arith, q, n.0, rest)
]

put_by_id-Distinct : (k : Value) (fs : Fields) (d : ById) → Distinct d → Distinct (put_by_id k fs d)
unfolding put_by_id
put_by_id-Distinct k fs [] h = (tt, tt)
put_by_id-Distinct k fs ((j, gs) ∷ d) h = elim (Bool-cases (keys_equal j k)) [
  | inl q ↦ ground (arith, q, h)
  | inr q ↦
      let rest = put_by_id-Distinct k fs d h.1 in
      let front = put_by_id-NoKeyAfter j k fs d q h.0 in ground (arith, q, front, rest)
]

index_drop-Distinct :
    (v : Value) (d out : ById) → index_drop v d ≡ ok out → Distinct d → Distinct out
unfolding index_drop
index_drop-Distinct (obj fs) d out h p =
    let (k, e, h') = >>=-eq-ok (index "id" (obj fs)) _ out h in
    elim (Bool-cases (is_hashable k)) [
      | inl q ↦ subst Distinct (ground (arith, q, h')) (put_by_id-Distinct k fs d p)
      | inr q ↦ absurd (ground (arith, q, h'))
    ]
index_drop-Distinct null d out h p = absurd (cc)
index_drop-Distinct (bool b) d out h p = absurd (cc)
index_drop-Distinct (int n) d out h p = absurd (cc)
index_drop-Distinct (float m n) d out h p = absurd (cc)
index_drop-Distinct (str s) d out h p = absurd (cc)
index_drop-Distinct (arr vs) d out h p = absurd (cc)

pub index_drops-Distinct : (v : Value) (d : ById) → index_drops v ≡ ok d → Distinct d
unfolding index_drops
index_drops-Distinct v d h =
    let (drops, e, h') = >>=-eq-ok (iterate v) _ d h in
    fold_ok-invariant Distinct index_drop index_drop-Distinct drops [] d h' tt

keys_equal-str : (v : Value) (t : String) → keys_equal v (str t) ≡ true → v ≡ str t
unfolding keys_equal
keys_equal-str (str s) t h = ap str ((string_eq.agrees s t).0 h)
keys_equal-str null t h = absurd (cc)
keys_equal-str (bool true) t h = absurd (cc)
keys_equal-str (bool false) t h = absurd (cc)
keys_equal-str (int n) t h = absurd (cc)
keys_equal-str (float m n) t h = absurd (cc)
keys_equal-str (arr vs) t h = absurd (cc)
keys_equal-str (obj fs) t h = absurd (cc)

keys_equal-str_comm : (v : Value) (t : String) → keys_equal (str t) v ≡ keys_equal v (str t)
unfolding keys_equal
keys_equal-str_comm (str s) t = ground (arith, string_eq.agrees s t, string_eq.agrees t s)
keys_equal-str_comm null t = refl
keys_equal-str_comm (bool true) t = refl
keys_equal-str_comm (bool false) t = refl
keys_equal-str_comm (int n) t = refl
keys_equal-str_comm (float m n) t = refl
keys_equal-str_comm (arr vs) t = refl
keys_equal-str_comm (obj fs) t = refl

NoKeyAfter-Lacks : (t : String) (d : ById) → NoKeyAfter (str t) d → Lacks t d
NoKeyAfter-Lacks t [] h = tt
NoKeyAfter-Lacks t ((j, gs) ∷ d) h = (sym (keys_equal-str_comm j t) ∙ h.0, NoKeyAfter-Lacks t d h.1)

drop_by_id-NoKeyAfter : (j k : Value) (d : ById) → NoKeyAfter j d → NoKeyAfter j (drop_by_id k d)
unfolding drop_by_id
drop_by_id-NoKeyAfter j k [] h = tt
drop_by_id-NoKeyAfter j k ((i, gs) ∷ d) h =
    let rest = drop_by_id-NoKeyAfter j k d h.1 in
    if_both (NoKeyAfter j) (keys_equal i k) _ _ h.1 (h.0, rest)

drop_by_id-Distinct : (k : Value) (d : ById) → Distinct d → Distinct (drop_by_id k d)
unfolding drop_by_id
drop_by_id-Distinct k [] h = tt
drop_by_id-Distinct k ((i, gs) ∷ d) h =
    if_both Distinct (keys_equal i k) _ _ h.1
      (drop_by_id-NoKeyAfter i k d h.0, drop_by_id-Distinct k d h.1)

drop_by_id-Lacks : (t : String) (k : Value) (d : ById) → Lacks t d → Lacks t (drop_by_id k d)
unfolding drop_by_id
drop_by_id-Lacks t k [] h = tt
drop_by_id-Lacks t k ((i, gs) ∷ d) h =
    if_both (Lacks t) (keys_equal i k) _ _ h.1 (h.0, drop_by_id-Lacks t k d h.1)

drop_by_id-gone : (t : String) (d : ById) → Distinct d → Lacks t (drop_by_id (str t) d)
unfolding drop_by_id
drop_by_id-gone t [] h = tt
drop_by_id-gone t ((i, gs) ∷ d) h = elim (Bool-cases (keys_equal i (str t))) [
  | inl q ↦
      let lacks = NoKeyAfter-Lacks t d (subst (λ k. NoKeyAfter k d) (keys_equal-str i t q) h.0) in
      ground (arith, q, lacks)
  | inr q ↦ let rest = drop_by_id-gone t d h.1 in ground (arith, q, rest)
]

pub find_by_id-Lacks : (t : String) (d : ById) → Lacks t d → find_by_id (str t) d ≡ end
unfolding find_by_id
find_by_id-Lacks t [] h = refl
find_by_id-Lacks t ((i, gs) ∷ d) h = ground (arith, h.0, find_by_id-Lacks t d h.1)

-- What popping a text identifier gives and leaves behind.
pub pop_by_id-Distinct :
    (s : String) (d : ById) (popped : Fields × ById)
    → Distinct d
    → pop_by_id (str s) d ≡ ok popped
    → (popped.0 ≡ find_by_id (str s) d)
      × Distinct popped.1
      × Lacks s popped.1
      × ((t : String) → Lacks t d → Lacks t popped.1)
unfolding pop_by_id find_by_id
pop_by_id-Distinct s [] popped p h =
    subst
      (λ (x : Fields × ById).
        (x.0 ≡ end) × Distinct x.1 × Lacks s x.1 × ((t : String) → Unit → Lacks t x.1))
      (ok_injective _ _ h) (refl, tt, tt, λ t u. u)
pop_by_id-Distinct s (e ∷ d) popped p h =
    subst
      (λ (x : Fields × ById).
        (x.0 ≡ find_by_id (str s) (e ∷ d))
        × Distinct x.1
        × Lacks s x.1
        × ((t : String) → Lacks t (e ∷ d) → Lacks t x.1))
      (ok_injective _ _ h)
      (
        refl,
        drop_by_id-Distinct (str s) (e ∷ d) p,
        drop_by_id-gone s (e ∷ d) p,
        λ t l. drop_by_id-Lacks t (str s) (e ∷ d) l,
      )

-- Popping one identifier leaves the drop under any other text.
find_by_id-drop_by_id :
    (s t : String) (d : ById)
    → s ≢ t
    → find_by_id (str t) (drop_by_id (str s) d) ≡ find_by_id (str t) d
unfolding find_by_id drop_by_id keys_equal
find_by_id-drop_by_id s t [] ne = refl
find_by_id-drop_by_id s t ((str x, gs) ∷ d) ne =
    ground (arith, string_eq.agrees x s, string_eq.agrees x t, find_by_id-drop_by_id s t d ne)
find_by_id-drop_by_id s t ((bool true, gs) ∷ d) ne = find_by_id-drop_by_id s t d ne
find_by_id-drop_by_id s t ((bool false, gs) ∷ d) ne = find_by_id-drop_by_id s t d ne
find_by_id-drop_by_id s t ((k, gs) ∷ d) ne = find_by_id-drop_by_id s t d ne

pub pop_by_id-find :
    (s t : String) (d : ById) (popped : Fields × ById)
    → s ≢ t
    → pop_by_id (str s) d ≡ ok popped
    → find_by_id (str t) popped.1 ≡ find_by_id (str t) d
unfolding pop_by_id
pop_by_id-find s t [] popped ne h =
    ap (λ (p : Fields × ById). find_by_id (str t) p.1) (sym (ok_injective _ _ h))
pop_by_id-find s t (e ∷ d) popped ne h =
    subst (λ (p : Fields × ById). find_by_id (str t) p.1 ≡ find_by_id (str t) (e ∷ d))
      (ok_injective _ _ h) (find_by_id-drop_by_id s t (e ∷ d) ne)
