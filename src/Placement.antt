-- ===== src/Placement.antt =====
-- competition/match/placement.resolver.ts: from the points of a match to its placements, by its
-- tiebreaks, the outgoing advancement rules and the average percentages.
-- An average percentage is the fraction that the aggregate computes: a sum of hundredths of a
-- percent over a number of scores, with exact rounding in place of floating point. A tiebreak value
-- is a percentage in hundredths or a number of hand-given points, one kind in each tiebreak.
pub mod Materialize
pub mod Groups
pub mod Ranks
pub mod Players
pub mod Levels
pub mod Order
pub mod Ties
pub mod Reported
use Prim.Native.Nat.{compare, Ordering}
use mathlib.Core.List.{flatten}
use tournament_hub.Common.{
  ℕ, zero, suc, ◌+◌, ◌-◌, ◌*◌, ◌/◌, Bool, true, false, not, ◌&&◌, ◌||◌, List, [], ◌∷◌, ◌++◌, map,
  Option, none, some, ltb, leb, ◌==◌, if◌then◌else◌, or_else, is_some, length, filter, any, all,
}
use tournament_hub.Common.Sort.{sort_by}

pub data CompetitionKind : Type 0 where
  match_kind phase_group_kind : CompetitionKind

-- AdvancementRouting
pub record AdvancementRouting : Type 0 where
  pub source_kind : CompetitionKind
  pub source_id : ℕ
  pub source_placement : ℕ
  pub target_kind : CompetitionKind
  pub target_id : ℕ
  pub target_slot : ℕ

pub record TiebreakEntry : Type 0 where
  pub player_id : ℕ
  pub value : Option ℕ
  pub is_failed : Option Bool

pub record TiebreakPlacementInput : Type 0 where
  pub id : ℕ
  pub sequence : ℕ
  pub invalidated : Bool
  pub complete : Bool
  pub entries : List TiebreakEntry

pub record Average : Type 0 where
  pub total : ℕ
  pub scores : ℕ

pub record PlacementPointEntry : Type 0 where
  pub player_id : ℕ
  pub points : ℕ
  pub average_percentage : Option Average

pub record MatchResultEntry : Type 0 where
  pub player_id : ℕ
  pub points : ℕ
  pub placement : ℕ

pub record MatchPlacementTie : Type 0 where
  pub player_ids : List ℕ
  pub from_placement : ℕ
  pub to_placement : ℕ

pub record PlacementResolution : Type 0 where
  pub entries : List MatchResultEntry
  pub ambiguous_ties : List MatchPlacementTie

abbrev pub PlacementGroup : Type 0
PlacementGroup = List MatchResultEntry

-- `new Map(pairs).get(key)`: the last pair of the key counts.
unfoldable pub map_get {ℓ} : {V : Type ℓ} → ℕ → List (ℕ × V) → Option V
map_get key [] = none
map_get key ((k, v) ∷ rest) =
    let later = map_get key rest in
    if is_some later then later else if k == key then some v else none

-- The body of the grouping loops: push onto the last group if its first entry is the same.
unfoldable pub push_entry :
    (MatchResultEntry → MatchResultEntry → Bool)
    → List PlacementGroup
    → MatchResultEntry
    → List PlacementGroup
push_entry same [] entry = (entry ∷ []) ∷ []
push_entry same ([] ∷ []) entry = [] ∷ (entry ∷ []) ∷ []
push_entry same ((first ∷ group) ∷ []) entry =
    if same first entry
    then (first ∷ group ++ entry ∷ []) ∷ []
    else (first ∷ group) ∷ (entry ∷ []) ∷ []
push_entry same (group ∷ next ∷ rest) entry = group ∷ push_entry same (next ∷ rest) entry

-- `for (const entry of ordered)` with the groups so far.
unfoldable pub group_entries :
    (MatchResultEntry → MatchResultEntry → Bool)
    → List PlacementGroup
    → List MatchResultEntry
    → List PlacementGroup
unfolding push_entry
group_entries same groups [] = groups
group_entries same groups (entry ∷ rest) = group_entries same (push_entry same groups entry) rest

abbrev pub unplaced : PlacementPointEntry → MatchResultEntry
unplaced entry = record { player_id = entry.player_id; points = entry.points; placement = 0 }

-- `right.points - left.points || left.playerId - right.playerId`
abbrev pub more_points : PlacementPointEntry → PlacementPointEntry → Bool
more_points left right = elim (compare right.points left.points) [
  | Ordering.lt ↦ true
  | Ordering.eq ↦ ltb left.player_id right.player_id
  | Ordering.gt ↦ false
]

abbrev pub same_points : MatchResultEntry → MatchResultEntry → Bool
same_points first entry = first.points == entry.points

unfoldable pub point_groups : List PlacementPointEntry → List PlacementGroup
unfolding group_entries
point_groups entries = group_entries same_points [] (map unplaced (sort_by more_points entries))

unfoldable pub same_players : PlacementGroup → List TiebreakEntry → Bool
same_players group entries =
    (length group == length entries)
    && all (λ (e : TiebreakEntry). any (λ (g : MatchResultEntry). g.player_id == e.player_id) group)
        entries

abbrev pub failed_flag : Option TiebreakEntry → ℕ
failed_flag none = 0
failed_flag (some e) = if or_else e.is_failed false then 1 else 0

abbrev pub evidence_value : Option TiebreakEntry → ℕ
evidence_value none = 0
evidence_value (some e) = or_else e.value 0

-- The sign of the number that `compareEvidence` returns.
abbrev pub compare_evidence : Option TiebreakEntry → Option TiebreakEntry → Ordering
compare_evidence left right =
    if failed_flag left == failed_flag right
    then compare (evidence_value right) (evidence_value left)
    else compare (failed_flag left) (failed_flag right)

unfoldable pub evidence_of : TiebreakPlacementInput → MatchResultEntry → Option TiebreakEntry
unfolding map_get
evidence_of tiebreak entry =
    map_get entry.player_id (map (λ (e : TiebreakEntry). (e.player_id, e)) tiebreak.entries)

abbrev pub better_evidence : TiebreakPlacementInput → MatchResultEntry → MatchResultEntry → Bool
better_evidence tiebreak left right =
    elim (compare_evidence (evidence_of tiebreak left) (evidence_of tiebreak right)) [
      | Ordering.lt ↦ true
      | Ordering.eq ↦ ltb left.player_id right.player_id
      | Ordering.gt ↦ false
    ]

abbrev pub same_evidence : TiebreakPlacementInput → MatchResultEntry → MatchResultEntry → Bool
same_evidence tiebreak first entry =
    elim (compare_evidence (evidence_of tiebreak first) (evidence_of tiebreak entry)) [
      | Ordering.eq ↦ true
      | _ ↦ false
    ]

unfoldable pub split_group : PlacementGroup → TiebreakPlacementInput → List PlacementGroup
unfolding group_entries evidence_of
split_group group tiebreak =
    group_entries (same_evidence tiebreak) [] (sort_by (better_evidence tiebreak) group)

-- `findIndex` and the three slices: the first group of the tiebreak's players is split in place.
unfoldable pub split_first : TiebreakPlacementInput → List PlacementGroup → List PlacementGroup
unfolding same_players split_group
split_first tiebreak [] = []
split_first tiebreak (group ∷ rest) =
    if same_players group tiebreak.entries
    then split_group group tiebreak ++ rest
    else group ∷ split_first tiebreak rest

unfoldable pub apply_tiebreaks :
    List TiebreakPlacementInput → List PlacementGroup → List PlacementGroup
unfolding split_first
apply_tiebreaks [] groups = groups
apply_tiebreaks (tiebreak ∷ rest) groups =
    apply_tiebreaks rest (
      if tiebreak.invalidated || not tiebreak.complete then groups else split_first tiebreak groups)

-- `left.sequence - right.sequence || left.id - right.id`
abbrev pub earlier : TiebreakPlacementInput → TiebreakPlacementInput → Bool
earlier left right = elim (compare left.sequence right.sequence) [
  | Ordering.lt ↦ true
  | Ordering.eq ↦ ltb left.id right.id
  | Ordering.gt ↦ false
]
