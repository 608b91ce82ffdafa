-- ===== src/Engine/Progress.antt =====
-- update_progress of controller/twitch_miner/engine.py: reported minutes, never elapsed time.
use Prim.Native.Nat.{Ordering}
use Prim.Native.String
use twitch_car_factory.Base.{
  ℕ, String, Bool, true, false, not, ◌&&◌, Option, none, some, List, [], ◌∷◌, ◌++◌, min, max, ltb,
  ◌==◌, string_eq, nat_eq, if◌then◌else◌, is_empty,
}
use twitch_car_factory.Base.Dict.{Dict, lookup}
use twitch_car_factory.Json.{Fields, or_null, find}
use twitch_car_factory.Json.Python.{Python}
use twitch_car_factory.Inventory.Campaign.{Drop, Campaign}
use twitch_car_factory.Engine.State.{Channel, Miner, Point}
use twitch_car_factory.Engine.Channels.{valid_minutes, drop_id_of}
use twitch_car_factory.Engine.Claims.{update_drop}
use twitch_car_factory.Engine.Selection.{serves}

-- The keys of the campaigns that the channel can earn for.
abbrev pub serving : Channel → ℕ → Dict String Campaign → Dict String Campaign
serving channel wall_now [] = []
serving channel wall_now ((k, c) ∷ cs) =
    if serves channel wall_now c
    then (k, c) ∷ serving channel wall_now cs
    else serving channel wall_now cs

-- `max(drop.current_minutes, min(minutes, drop.required_minutes))`
unfoldable pub raise_minutes : ℕ → Drop → Drop
raise_minutes minutes d = record d {
  current_minutes = max d.current_minutes (min minutes d.required_minutes);
}

-- The first campaign that has the drop takes the session's minutes.
unfoldable pub first_with : String → Dict String Campaign → Option String
first_with did [] = none
first_with did ((k, c) ∷ cs) = elim (lookup did c.drops) [
  | some _ ↦ some k
  | none ↦ first_with did cs
]

-- `(campaign.id, drop.id, drop.current_minutes)` over every drop
abbrev drop_points : String → Dict String Drop → List Point
drop_points cid [] = []
drop_points cid ((_, d) ∷ ds) = (cid, d.id, d.current_minutes) ∷ drop_points cid ds

abbrev pub points : Dict String Campaign → List Point
points [] = []
points ((_, c) ∷ cs) = drop_points c.id c.drops ++ points cs

-- Tuples are ordered by their first difference.
abbrev text_before : Ordering → Bool → Bool
text_before Ordering.lt later = true
text_before Ordering.eq later = later
text_before Ordering.gt later = false

unfoldable pub before : Point → Point → Bool
before (a, b, m) (c, d, n) =
    text_before (String.compare a c) (text_before (String.compare b d) (ltb m n))

unfoldable pub insert_point : Point → List Point → List Point
insert_point p [] = p ∷ []
insert_point p (q ∷ qs) = if before q p then q ∷ insert_point p qs else p ∷ q ∷ qs

unfoldable pub sorted : List Point → List Point
sorted [] = []
sorted (p ∷ ps) = insert_point p (sorted ps)

abbrev same_point : Point → Point → Bool
same_point (a, b, m) (c, d, n) = a == c && b == d && m == n

abbrev pub same_points : List Point → List Point → Bool
same_points [] [] = true
same_points (p ∷ ps) (q ∷ qs) = same_point p q && same_points ps qs
same_points _ _ = false

abbrev pub differs : List Point → Option (List Point) → Bool
differs ps none = true
differs ps (some qs) = not (same_points ps qs)

-- The keys of `serving` name the same campaigns after the write.
abbrev pub restrict : Dict String Campaign → Dict String Campaign → Dict String Campaign
restrict [] campaigns = []
restrict ((k, c) ∷ cs) campaigns = elim (lookup k campaigns) [
  | none ↦ restrict cs campaigns
  | some c' ↦ (k, c') ∷ restrict cs campaigns
]

module _ (py : Python) where
  -- The session's minutes are written to the drop that it names.
  unfoldable pub apply_session :
      Option Fields → Dict String Campaign → Dict String Campaign → Dict String Campaign
  apply_session none active campaigns = campaigns
  apply_session (some current) active campaigns =
      elim (valid_minutes (or_null (find "currentMinutesWatched" current))) [
        | none ↦ campaigns
        | some minutes ↦ elim (first_with (drop_id_of py current) active) [
          | none ↦ campaigns
          | some k ↦ update_drop k (drop_id_of py current) (raise_minutes minutes) campaigns
        ]
      ]

  unfoldable pub update_progress : {W : Type 0} → Channel → ℕ → ℕ → Miner W → Miner W
  update_progress channel now wall_now s =
      let active = serving channel wall_now s.campaigns in
      let campaigns = apply_session channel.current_drop active s.campaigns in
      let progress = sorted (points (restrict active campaigns)) in
      if not (is_empty progress) && differs progress s.progress
      then record s { campaigns = campaigns; progress = some progress; progress_at = now }
      else record s { campaigns = campaigns }
