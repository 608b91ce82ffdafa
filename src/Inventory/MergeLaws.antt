-- ===== src/Inventory/MergeLaws.antt =====
-- What merge_campaign keeps of its two responses.
use mathlib.Core.Path.{sym, subst, ap, ◌∙◌}
use twitch_car_factory.Base.{
  String, true, Option, none, some, List, ◌≡◌, ◌≢◌, refl, inl, inr, Bool-cases, arith, ◌==◌,
  string_eq,
}
use twitch_car_factory.Base.Result.{Result, Result-cases, ok, >>=-eq-ok, ok_injective}
use twitch_car_factory.Json.{
  PyError, Value, null, arr, obj, Fields, end, field, find, or_null, or_value, empty_list,
}
use twitch_car_factory.Json.Lookup.{find-set_field_ne, find-set_field_self, IsDict}
use twitch_car_factory.Inventory.Merge.{
  time_based, ById, merge_time_based, put_value, merge_fields, merge_value, merge_drops,
  merge_campaign, finish_drops, index_drops, no_list,
}

-- Where the branch returns, its two reads did.
pub merge_time_based_lem :
    (loop : ById → Result PyError (List Value × ById)) (details merged out : Fields)
    → merge_time_based loop details merged ≡ ok out
    → (by_id : ById) × (drops : List Value × ById) × (index_drops
          (or_value (or_null (find time_based details)) empty_list)
        ≡ ok by_id)
      × (loop by_id ≡ ok drops)
      × (out ≡ finish_drops merged drops)
unfolding merge_time_based
merge_time_based_lem loop details merged out h =
    let (by_id, e, h1) = >>=-eq-ok (index_drops _) _ out h in
    let (drops, e', h2) = >>=-eq-ok (loop by_id) _ out h1 in
    (by_id, drops, e, e', sym (ok_injective _ _ h2))

module _ (k j : String) (ne : k ≢ j) where
  find-put_value : (v : Value) (merged : Fields) → find j (put_value k v merged) ≡ find j merged
  unfolding put_value
  find-put_value null merged = grind (arith, find-set_field_ne)
  find-put_value v merged = find-set_field_ne k j v merged ne

  merge_time_based-find_ne :
      (loop : ById → Result PyError (List Value × ById)) (details merged out : Fields)
      → (k == time_based) ≡ true
      → merge_time_based loop details merged ≡ ok out
      → find j out ≡ find j merged
  merge_time_based-find_ne loop details merged out e h =
      let (by_id, (ordered, rest), _, _, p) = merge_time_based_lem loop details merged out h in
      subst (λ fs. find j fs ≡ find j merged) (sym p)
        (find-set_field_ne time_based j _ merged
          (λ q. ne ((string_eq.agrees k time_based).0 e ∙ q)))

  -- A round writes its own key only.
  merge_value-find_ne :
      (v : Value) (details merged out : Fields)
      → merge_value v k details merged ≡ ok out
      → find j out ≡ find j merged
  unfolding merge_fields
  merge_value-find_ne null details merged out h = ground (
    arith,
    merge_time_based-find_ne (no_list null) details merged out,
    find-put_value null merged,
  )
  merge_value-find_ne (arr vs) details merged out h = ground (
    arith,
    merge_time_based-find_ne (merge_drops vs) details merged out,
    find-put_value (arr vs) merged,
  )
  merge_value-find_ne (obj fs) details merged out h = grind (
    arith,
    merge_time_based-find_ne (no_list (obj fs)) details merged out,
    find-put_value (obj fs) merged,
    find-set_field_ne,
  )
  merge_value-find_ne v details merged out h =
      ground
        (arith, merge_time_based-find_ne (no_list v) details merged out, find-put_value v merged)

pub merge_fields-find_ne :
    (fs : Fields) (j : String) (details merged out : Fields)
    → merge_fields fs details merged ≡ ok out
    → find j fs ≡ none
    → find j out ≡ find j merged
unfolding merge_fields find
merge_fields-find_ne end j details merged out h ne = ap (find j) (sym (ok_injective _ _ h))
merge_fields-find_ne (field k v fs) j details merged out h ne =
    let (next, e, h') = >>=-eq-ok (merge_value v k details merged) _ out h in
    merge_fields-find_ne fs j details next out h' (ground (arith))
    ∙ merge_value-find_ne k j (λ p. ground (arith, string_eq.agrees k j)) v details merged next e

-- The entry of a key in the merged response, from the inventory's entry and the details' one.
abbrev pub MergedEntry : Option Value → Option Value → Option Value → Type 0
MergedEntry none d r = r ≡ d
MergedEntry (some null) d r = r ≡ some (or_null d)
MergedEntry (some (obj fs)) (some (obj gs)) r =
    (out : Fields) × (merge_campaign fs gs ≡ ok out) × (r ≡ some (obj out))
MergedEntry (some v) d r = r ≡ some v

module _ (k : String) (ordinary : k ≢ time_based) where
  -- An inner dict, by what the details have under the key.
  merge_obj-find_self :
      (fs : Fields) (details merged out : Fields) (o : Option Value)
      → find k merged ≡ o
      → merge_value (obj fs) k details merged ≡ ok out
      → MergedEntry (some (obj fs)) o (find k out)
  unfolding merge_fields merge_campaign put_value
  merge_obj-find_self fs details merged out (some (obj gs)) e h =
      elim (Result-cases (merge_fields fs gs gs)) [
        | inl (inner, p) ↦ (
          inner,
          p,
          ground (arith, string_eq.agrees k time_based, find-set_field_self k (obj inner) merged),
        )
        | inr (x, p) ↦ absurd (ground (arith, string_eq.agrees k time_based))
      ]
  merge_obj-find_self fs details merged out none e h =
      ground (arith, string_eq.agrees k time_based, find-set_field_self k (obj fs) merged)
  merge_obj-find_self fs details merged out (some v) e h =
      ground (arith, string_eq.agrees k time_based, find-set_field_self k (obj fs) merged)

  merge_value-find_self :
      (v : Value) (details merged out : Fields)
      → merge_value v k details merged ≡ ok out
      → MergedEntry (some v) (find k merged) (find k out)
  unfolding merge_fields put_value
  merge_value-find_self null details merged out h =
      ground (arith, string_eq.agrees k time_based, find-set_field_self k null merged)
  merge_value-find_self (obj fs) details merged out h =
      merge_obj-find_self fs details merged out (find k merged) refl h
  merge_value-find_self v details merged out h =
      ground (arith, string_eq.agrees k time_based, find-set_field_self k v merged)

  merge_fields-find :
      (fs : Fields) (details merged out : Fields)
      → IsDict fs
      → merge_fields fs details merged ≡ ok out
      → MergedEntry (find k fs) (find k merged) (find k out)
  unfolding merge_fields find
  merge_fields-find end details merged out d h = ap (find k) (sym (ok_injective _ _ h))
  merge_fields-find (field j v fs) details merged out d h =
      let (next, e, h') = >>=-eq-ok (merge_value v j details merged) _ out h in
      elim (Bool-cases (j == k)) [
        | inl p ↦
            let q = (string_eq.agrees j k).0 p in
            rw p (
              subst (MergedEntry (some v) (find k merged))
                (sym (
                  merge_fields-find_ne fs k details next out h'
                    (subst (λ x. find x fs ≡ none) q d.0)))
                (merge_value-find_self v details merged next
                  (subst (λ x. merge_value v x details merged ≡ ok next) q e)))
        | inr p ↦ rw p (
            subst (λ o. MergedEntry (find k fs) o (find k out))
              (merge_value-find_ne j k (λ q. ground (arith, string_eq.agrees j k)) v details merged
                next e)
              (merge_fields-find fs details next out d.1 h'))
      ]

  -- Every entry but the timed drops: the inventory's value wins unless it is null, inner dicts are
  -- merged in turn, and what only the details have is kept.
  pub merge_campaign-find :
      (inventory details out : Fields)
      → IsDict inventory
      → merge_campaign inventory details ≡ ok out
      → MergedEntry (find k inventory) (find k details) (find k out)
  unfolding merge_campaign
  merge_campaign-find inventory details out d h =
      merge_fields-find inventory details details out d h
