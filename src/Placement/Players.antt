-- ===== src/Placement/Players.antt =====
-- The players that `resolvePlacements` places, and their points.
use mathlib.Core.List.{flatten, append-nil}
use mathlib.Core.List.Perm
use tournament_hub.Common.{
  ℕ, ◌+◌, ◌≡◌, refl, ap, inl, inr, not, ◌||◌, List, [], ◌∷◌, map, Perm, ltb, Bool-cases, length,
  map_append, any, is_some,
}
use tournament_hub.Common.Sort.{sort_by, sort_by-perm}
use tournament_hub.Placement.{
  AdvancementRouting, TiebreakPlacementInput, PlacementPointEntry, MatchResultEntry, PlacementGroup,
  unplaced, point_groups, earlier,
}
use tournament_hub.Placement.Materialize.{
  Averages, separates_outcomes, split_by_average, same_average, better_average, average_of,
  by_player_id, place_group, place_groups, materialize_entries, materialize, final_groups,
  resolve_placements, averages_of,
}
use tournament_hub.Placement.Groups.{flatten-group_entries, apply_tiebreaks-perm, point_groups-perm}
use tournament_hub.Placement.Ranks.{without_placement, placed}

map-place :
    (p : ℕ) (l : PlacementGroup)
    → map without_placement (map (λ (e : MatchResultEntry). record e { placement = p }) l)
      ≡ map without_placement l
map-place p [] = refl
map-place p (e ∷ l) = ap (◌∷◌ (without_placement e)) (map-place p l)

map-unplaced :
    (l : List PlacementPointEntry) → map without_placement (map unplaced l) ≡ map unplaced l
map-unplaced [] = refl
map-unplaced (e ∷ l) = ap (◌∷◌ (unplaced e)) (map-unplaced l)

place_group-perm :
    (group : PlacementGroup) (p : ℕ)
    → Perm (map without_placement (place_group group p)) (map without_placement group)
unfolding place_group by_player_id
place_group-perm group p =
    rw (map-place p (by_player_id group)) (Perm.map without_placement (sort_by-perm _ group))

place_groups-perm :
    (groups : List PlacementGroup) (settled : ℕ)
    → Perm
        (map without_placement (place_groups groups settled))
        (map without_placement (flatten groups))
unfolding place_groups flatten
place_groups-perm [] settled = Perm.rfl
place_groups-perm (group ∷ rest) settled =
    rw
      (
        map_append without_placement (place_group group settled)
            (place_groups rest (settled + length group)),
        map_append without_placement group (flatten rest),
      )
      (Perm.append (place_group-perm group settled)
        (place_groups-perm rest (settled + length group)))

split_by_average-perm :
    (group : PlacementGroup) (averages : Averages)
    → Perm (flatten (split_by_average group averages)) group
unfolding split_by_average flatten
split_by_average-perm group averages =
    elim (Bool-cases
      (ltb (length group) 2 || any (λ entry. not (is_some (average_of averages entry))) group)) [
        | inl e ↦ rw e (rw (append-nil group) Perm.rfl)
        | inr e ↦ rw e (
            rw
              (flatten-group_entries (same_average averages) []
                (sort_by (better_average averages) group))
              (sort_by-perm (better_average averages) group))
      ]

module _ (rules : List AdvancementRouting) (averages : Averages) where
  placed-perm :
      (group : PlacementGroup) (offset : ℕ)
      → Perm
          (map without_placement (placed rules averages group offset))
          (map without_placement group)
  placed-perm group offset = elim (Bool-cases (separates_outcomes rules group (offset + 1))) [
    | inl e ↦ rw e (place_group-perm group (offset + 1))
    | inr e ↦ rw e (
        Perm.trans (place_groups-perm (split_by_average group averages) (offset + 1))
          (Perm.map without_placement (split_by_average-perm group averages)))
  ]

  materialize_entries-perm :
      (groups : List PlacementGroup) (offset : ℕ)
      → Perm
          (map without_placement (materialize_entries rules averages groups offset))
          (map without_placement (flatten groups))
  unfolding materialize_entries flatten
  materialize_entries-perm [] offset = Perm.rfl
  materialize_entries-perm (group ∷ rest) offset =
      rw
        (
          map_append without_placement (placed rules averages group offset)
              (materialize_entries rules averages rest (offset + length group)),
          map_append without_placement group (flatten rest),
        )
        (Perm.append (placed-perm group offset)
          (materialize_entries-perm rest (offset + length group)))

-- `resolvePlacements` places every player of the input exactly as often as the input holds it, with
-- the points that the input gives it: but for the placements, the entries are a rearrangement of
-- the point entries, whatever the tiebreaks, rules and averages.
pub resolve_placements-perm :
    (point_entries : List PlacementPointEntry) (tiebreaks : List TiebreakPlacementInput)
    (rules : List AdvancementRouting)
    → Perm
        (map without_placement (resolve_placements point_entries tiebreaks rules).entries)
        (map unplaced point_entries)
unfolding resolve_placements materialize final_groups
resolve_placements-perm point_entries tiebreaks rules =
    let groups = final_groups point_entries tiebreaks in
    let kept : Perm (flatten groups) (map unplaced point_entries) =
      Perm.trans (apply_tiebreaks-perm (sort_by earlier tiebreaks) (point_groups point_entries))
        (point_groups-perm point_entries) in
    Perm.trans (materialize_entries-perm rules (averages_of point_entries) groups 0)
      (rw (map-unplaced point_entries) at (Perm.map without_placement kept))
