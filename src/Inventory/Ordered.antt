-- ===== src/Inventory/Ordered.antt =====
-- The loop over the inventory's timed drops in merge_campaign of controller/twitch_miner/inventory.py.
use mathlib.Core.Path.{sym, subst, ◌∙◌}
use twitch_car_factory.Base.{
  String, Bool, true, false, some, List, [], ◌∷◌, ◌≡◌, ◌≢◌, refl, inl, inr, Bool-cases, arith, ◌==◌,
  string_eq, Member, ◌⊎◌, contains, if◌then◌else◌,
}
use twitch_car_factory.Base.Result.{Result-cases, ok, ok_injective}
use twitch_car_factory.Json.{
  Value, null, bool, int, float, str, arr, obj, Items, nil, cons, Fields, end, find, index,
}
use twitch_car_factory.Json.Lookup.{IsDict}
use twitch_car_factory.Inventory.Merge.{
  time_based, ById, merge_fields, merge_drops, merge_campaign, pop_by_id, find_by_id,
}
use twitch_car_factory.Inventory.MergeLaws.{merge_campaign-find, MergedEntry}
use twitch_car_factory.Inventory.Popped.{
  Lacks, Distinct, pop_by_id-Distinct, pop_by_id-find, find_by_id-Lacks,
}

-- The drops of a response, by their text identifiers in order.
abbrev pub AreDrops : Items → List String → Type 0
AreDrops nil [] = Unit
AreDrops (cons (obj fs) vs) (s ∷ ss) = IsDict fs × (find "id" fs ≡ some (str s)) × AreDrops vs ss
AreDrops _ _ = ⊥

-- The same of merged drops.
abbrev pub HaveIds : List Value → List String → Type 0
HaveIds [] [] = Unit
HaveIds (obj fs ∷ vs) (s ∷ ss) = (find "id" fs ≡ some (str s)) × HaveIds vs ss
HaveIds _ _ = ⊥

merge_drops_cons :
    (fs : Fields) (vs : Items) (s : String) (by_id : ById) (out : List Value × ById)
    → find "id" fs ≡ some (str s)
    → merge_drops (cons (obj fs) vs) by_id ≡ ok out
    → (popped : Fields × ById) × (one : Fields) × (rest : List Value × ById) × (pop_by_id
          (str s)
          by_id
        ≡ ok popped)
      × (merge_campaign fs popped.0 ≡ ok one)
      × (merge_drops vs popped.1 ≡ ok rest)
      × (out ≡ (obj one ∷ rest.0, rest.1))
unfolding merge_fields merge_campaign index
merge_drops_cons fs vs s by_id out e h = elim (Result-cases (pop_by_id (str s) by_id)) [
  | inl (popped, p) ↦ elim (Result-cases (merge_fields fs popped.0 popped.0)) [
    | inl (one, q) ↦ elim (Result-cases (merge_drops vs popped.1)) [
      | inl (rest, r) ↦ (popped, one, rest, p, q, r, ground arith)
      | inr (x, r) ↦ absurd (ground arith)
    ]
    | inr (x, q) ↦ absurd (ground arith)
  ]
  | inr (x, p) ↦ absurd (ground arith)
]

id-ne-time_based : ◌≢◌ {A = String} "id" time_based
id-ne-time_based e =
    let h : ◌≡◌ {A = Bool} false true = (string_eq.agrees "id" time_based).1 e in cc

-- The merged drops are the inventory's in order, and no drop of another identifier is lost.
pub merge_drops_lem :
    (vs : Items) (ss : List String) (by_id : ById) (out : List Value × ById)
    → AreDrops vs ss
    → merge_drops vs by_id ≡ ok out
    → HaveIds out.0 ss
      × ((t : String) → (Member t ss → ⊥) → find_by_id (str t) out.1 ≡ find_by_id (str t) by_id)
unfolding merge_fields
merge_drops_lem nil [] by_id out a h =
    subst
      (λ (o : List Value × ById).
        HaveIds o.0 []
        × ((t : String) → (⊥ → ⊥) → find_by_id (str t) o.1 ≡ find_by_id (str t) by_id))
      (ok_injective _ _ h) (tt, λ t n. refl)
merge_drops_lem (cons (obj fs) vs) (s ∷ ss) by_id out a h =
    let (popped, one, rest, p, q, r, e) = merge_drops_cons fs vs s by_id out a.1 h in
    let (ids, keeps) = merge_drops_lem vs ss popped.1 rest a.2 r in
    let entry = merge_campaign-find "id" id-ne-time_based fs popped.0 one a.0 q in
    subst
      (λ (o : List Value × ById).
        HaveIds o.0 (s ∷ ss)
        × ((t : String)
            → (Member t (s ∷ ss) → ⊥)
            → find_by_id (str t) o.1 ≡ find_by_id (str t) by_id))
      (sym e)
      (
        (subst (λ o. MergedEntry o (find "id" popped.0) (find "id" one)) a.1 entry, ids),
        λ t n. keeps t (λ m. n (inr m)) ∙ pop_by_id-find s t by_id popped (λ x. n (inl x)) p,
      )
merge_drops_lem nil (s ∷ ss) by_id out a h = elim a [ ]
merge_drops_lem (cons null vs) ss by_id out a h = elim a [ ]
merge_drops_lem (cons (bool _) vs) ss by_id out a h = elim a [ ]
merge_drops_lem (cons (int _) vs) ss by_id out a h = elim a [ ]
merge_drops_lem (cons (float _ _) vs) ss by_id out a h = elim a [ ]
merge_drops_lem (cons (str _) vs) ss by_id out a h = elim a [ ]
merge_drops_lem (cons (arr _) vs) ss by_id out a h = elim a [ ]
merge_drops_lem (cons (obj fs) vs) [] by_id out a h = elim a [ ]

-- Each drop merged with the details' drop of its identifier, or, where the identifier was seen before or the
-- details have none of it, with an empty dict.
abbrev pub AreMerged : ById → List String → Items → List String → List Value → Type 0
AreMerged by_id seen nil [] [] = Unit
AreMerged by_id seen (cons (obj fs) vs) (s ∷ ss) (obj one ∷ out) =
    (merge_campaign fs (if contains s seen then end else find_by_id (str s) by_id) ≡ ok one)
    × AreMerged by_id (s ∷ seen) vs ss out
AreMerged _ _ _ _ _ = ⊥

-- What is left of the details' drops once those of `seen` were popped.
abbrev IsLeft : ById → List String → ById → Type 0
IsLeft by_id seen d =
    (t : String)
    → find_by_id (str t) d ≡ (if contains t seen then end else find_by_id (str t) by_id)

pop_by_id-IsLeft :
    (by_id : ById) (seen : List String) (d : ById) (s : String) (popped : Fields × ById)
    → IsLeft by_id seen d
    → Lacks s popped.1
    → pop_by_id (str s) d ≡ ok popped
    → IsLeft by_id (s ∷ seen) popped.1
pop_by_id-IsLeft by_id seen d s popped h l p t = elim (Bool-cases (s == t)) [
  | inl q ↦
      let gone =
        find_by_id-Lacks t popped.1
          (subst (λ x. Lacks x popped.1) ((string_eq.agrees s t).0 q) l) in
      ground (arith, q, gone)
  | inr q ↦
      let kept =
        pop_by_id-find s t d popped (λ e. absurd (ground (arith, q, (string_eq.agrees s t).1 e)))
          p in
      ground (arith, q, kept, h t)
]

pub merge_drops-AreMerged :
    (by_id : ById) (vs : Items) (ss seen : List String) (d : ById) (out : List Value × ById)
    → AreDrops vs ss
    → Distinct d
    → IsLeft by_id seen d
    → merge_drops vs d ≡ ok out
    → AreMerged by_id seen vs ss out.0 × ((t : String) → (Member t ss ⊎ Lacks t d) → Lacks t out.1)
unfolding merge_fields
merge_drops-AreMerged by_id nil [] seen d out a k l h =
    subst
      (λ (o : List Value × ById).
        AreMerged by_id seen nil [] o.0 × ((t : String) → (⊥ ⊎ Lacks t d) → Lacks t o.1))
      (ok_injective _ _ h) (tt, λ t m. elim m [ inl n ↦ absurd n | inr n ↦ n ])
merge_drops-AreMerged by_id (cons (obj fs) vs) (s ∷ ss) seen d out a k l h =
    let (popped, one, rest, p, q, r, e) = merge_drops_cons fs vs s d out a.1 h in
    let (same, distinct, gone, lacks) = pop_by_id-Distinct s d popped k p in
    let (merged, left) =
      merge_drops-AreMerged by_id vs ss (s ∷ seen) popped.1 rest a.2 distinct
        (pop_by_id-IsLeft by_id seen d s popped l gone p) r in
    subst
      (λ (o : List Value × ById).
        AreMerged by_id seen (cons (obj fs) vs) (s ∷ ss) o.0
        × ((t : String) → (Member t (s ∷ ss) ⊎ Lacks t d) → Lacks t o.1))
      (sym e)
      (
        (subst (λ g. merge_campaign fs g ≡ ok one) (same ∙ l s) q, merged),
        λ t m. left t (elim m [
          | inl (inl x) ↦ inr (subst (λ y. Lacks y popped.1) x gone)
          | inl (inr n) ↦ inl n
          | inr n ↦ inr (lacks t n)
        ]),
      )
merge_drops-AreMerged by_id nil (s ∷ ss) seen d out a k l h = elim a [ ]
merge_drops-AreMerged by_id (cons null vs) ss seen d out a k l h = elim a [ ]
merge_drops-AreMerged by_id (cons (bool _) vs) ss seen d out a k l h = elim a [ ]
merge_drops-AreMerged by_id (cons (int _) vs) ss seen d out a k l h = elim a [ ]
merge_drops-AreMerged by_id (cons (float _ _) vs) ss seen d out a k l h = elim a [ ]
merge_drops-AreMerged by_id (cons (str _) vs) ss seen d out a k l h = elim a [ ]
merge_drops-AreMerged by_id (cons (arr _) vs) ss seen d out a k l h = elim a [ ]
merge_drops-AreMerged by_id (cons (obj fs) vs) [] seen d out a k l h = elim a [ ]
