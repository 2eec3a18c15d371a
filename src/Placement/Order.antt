-- ===== src/Placement/Order.antt =====
-- Points and placements in the result of `resolvePlacements`.
use mathlib.Core.List.{flatten}
use tournament_hub.Common.{
  ℕ, ◌+◌, ◌≤◌, ◌<◌, ◌≡◌, ◌⊎◌, inl, inr, not, ◌||◌, List, [], ◌∷◌, ◌++◌, map, arith, ltb, Bool-cases,
  length, All, All-map, All-append, any, is_some, All-both,
}
use tournament_hub.Common.Sort.{sort_by, All-sort_by}
use tournament_hub.Placement.{
  AdvancementRouting, TiebreakPlacementInput, PlacementPointEntry, MatchResultEntry, PlacementGroup,
  point_groups, group_entries, earlier,
}
use tournament_hub.Placement.Materialize.{
  Averages, separates_outcomes, split_by_average, same_average, better_average, average_of,
  by_player_id, place_group, place_groups, materialize_entries, materialize, final_groups,
  resolve_placements, averages_of,
}
use tournament_hub.Placement.Groups.{flatten-group_entries}
use tournament_hub.Placement.Ranks.{
  placed, placed-IsRanked, length-placed, materialize_entries-IsRanked,
}
use tournament_hub.Placement.Levels.{
  Level, Descends, All-groups, point_groups-Descends, apply_tiebreaks-Descends, most,
}

-- Of any two, the first has no more points than the second, or a smaller placement.
abbrev pub IsFair : List MatchResultEntry → Type 0
IsFair l =
    All
      (λ (e : MatchResultEntry).
        All (λ (f : MatchResultEntry). (e.points ≤ f.points) ⊎ (e.placement < f.placement)) l)
      l

IsFair-append :
    (p m : ℕ) (xs ys : List MatchResultEntry)
    → Level p xs
    → All (λ (e : MatchResultEntry). e.placement ≤ m) xs
    → All (λ (e : MatchResultEntry). (e.points ≤ p) × (m < e.placement)) ys
    → IsFair ys
    → IsFair (xs ++ ys)
IsFair-append p m xs ys lx bx by fair =
    All-append _ xs ys
      (All-map (λ (e : MatchResultEntry). (e.points ≡ p) × (e.placement ≤ m))
        (λ e he.
          All-append _ xs ys
            (All-map (λ (f : MatchResultEntry). f.points ≡ p) (λ f hf. inl (omega arith)) xs lx)
            (All-map (λ (f : MatchResultEntry). (f.points ≤ p) × (m < f.placement))
              (λ f hf. inr (omega arith)) ys by))
        xs (All-both _ _ xs lx bx))
      (All-map
        (λ (e : MatchResultEntry).
          ((e.points ≤ p) × (m < e.placement))
          × All (λ (f : MatchResultEntry). (e.points ≤ f.points) ⊎ (e.placement < f.placement)) ys)
        (λ e he.
          All-append _ xs ys
            (All-map (λ (f : MatchResultEntry). f.points ≡ p) (λ f hf. inl (omega arith)) xs lx)
            he.1)
        ys (All-both _ _ ys by fair))

map_place-Level :
    (p k : ℕ) (l : PlacementGroup)
    → Level p l
    → Level p (map (λ (e : MatchResultEntry). record e { placement = k }) l)
map_place-Level p k [] h = tt
map_place-Level p k (e ∷ l) h = (h.0, map_place-Level p k l h.1)

place_group-Level :
    (p k : ℕ) (group : PlacementGroup) → Level p group → Level p (place_group group k)
unfolding place_group by_player_id
place_group-Level p k group h =
    map_place-Level p k (by_player_id group)
      (All-sort_by _ (λ (e : MatchResultEntry). e.points ≡ p) group h)

place_groups-Level :
    (p k : ℕ) (groups : List PlacementGroup)
    → All (Level p) groups
    → Level p (place_groups groups k)
unfolding place_groups
place_groups-Level p k [] h = tt
place_groups-Level p k (group ∷ rest) h =
    All-append (λ (e : MatchResultEntry). e.points ≡ p) (place_group group k)
      (place_groups rest (k + length group)) (place_group-Level p k group h.0)
      (place_groups-Level p (k + length group) rest h.1)

split_by_average-Level :
    (p : ℕ) (group : PlacementGroup) (averages : Averages)
    → Level p group
    → All (Level p) (split_by_average group averages)
unfolding split_by_average flatten
split_by_average-Level p group averages h =
    let sorted = sort_by (better_average averages) group in
    elim (Bool-cases
      (ltb (length group) 2 || any (λ entry. not (is_some (average_of averages entry))) group)) [
        | inl e ↦ rw e (h, tt)
        | inr e ↦ rw e (
            All-groups (λ (e : MatchResultEntry). e.points ≡ p)
              (group_entries (same_average averages) [] sorted)
              (rw (flatten-group_entries (same_average averages) [] sorted) (
                All-sort_by (better_average averages) (λ (e : MatchResultEntry). e.points ≡ p) group
                  h)))
      ]

module _ (rules : List AdvancementRouting) (averages : Averages) where
  placed-Level :
      (p : ℕ) (group : PlacementGroup) (offset : ℕ)
      → Level p group
      → Level p (placed rules averages group offset)
  placed-Level p group offset h = elim (Bool-cases (separates_outcomes rules group (offset + 1))) [
    | inl e ↦ rw e (place_group-Level p (offset + 1) group h)
    | inr e ↦ rw e (
        place_groups-Level p (offset + 1) (split_by_average group averages)
          (split_by_average-Level p group averages h))
  ]

  materialize_entries-le :
      (b : ℕ) (groups : List PlacementGroup) (offset : ℕ)
      → Descends b groups
      → All
          (λ (e : MatchResultEntry). e.points ≤ b)
          (materialize_entries rules averages groups offset)
  unfolding materialize_entries
  materialize_entries-le b [] offset d = tt
  materialize_entries-le b (group ∷ rest) offset (p, h, l, d) =
      All-append (λ (e : MatchResultEntry). e.points ≤ b) (placed rules averages group offset)
        (materialize_entries rules averages rest (offset + length group))
        (All-map (λ (e : MatchResultEntry). e.points ≡ p) (λ e k. omega arith)
          (placed rules averages group offset) (placed-Level p group offset l))
        (All-map (λ (e : MatchResultEntry). e.points ≤ p) (λ e k. omega arith)
          (materialize_entries rules averages rest (offset + length group))
          (materialize_entries-le p rest (offset + length group) d))

  placed-IsFair :
      (p : ℕ) (group : PlacementGroup) (offset : ℕ)
      → Level p group
      → IsFair (placed rules averages group offset)
  placed-IsFair p group offset h =
      of_Level (placed rules averages group offset) (placed-Level p group offset h)
    where
      of_Level : (l : List MatchResultEntry) → Level p l → IsFair l
      of_Level l h =
          All-map (λ (e : MatchResultEntry). e.points ≡ p)
            (λ e he.
              All-map (λ (f : MatchResultEntry). f.points ≡ p) (λ f hf. inl (omega arith)) l h)
            l h

  materialize_entries-IsFair :
      (b : ℕ) (groups : List PlacementGroup) (offset : ℕ)
      → Descends b groups
      → IsFair (materialize_entries rules averages groups offset)
  unfolding materialize_entries
  materialize_entries-IsFair b [] offset d = tt
  materialize_entries-IsFair b (group ∷ rest) offset (p, h, l, d) =
      let later = materialize_entries rules averages rest (offset + length group) in
      IsFair-append p (offset + length group) (placed rules averages group offset) later
        (placed-Level p group offset l)
        (rw (length-placed rules averages group offset) at
          ((placed-IsRanked rules averages group offset).below))
        (All-both _ _ later (materialize_entries-le p rest (offset + length group) d)
          ((materialize_entries-IsRanked rules averages rest (offset + length group)).above))
        (materialize_entries-IsFair p rest (offset + length group) d)

-- `resolvePlacements` never inverts points: of two placed players the one with more points has the
-- smaller placement, whatever the tiebreaks, rules and averages.
pub resolve_placements-IsFair :
    (point_entries : List PlacementPointEntry) (tiebreaks : List TiebreakPlacementInput)
    (rules : List AdvancementRouting)
    → IsFair (resolve_placements point_entries tiebreaks rules).entries
unfolding resolve_placements materialize final_groups
resolve_placements-IsFair point_entries tiebreaks rules =
    materialize_entries-IsFair rules (averages_of point_entries)
      (most (flatten (point_groups point_entries))) (final_groups point_entries tiebreaks) 0
      (apply_tiebreaks-Descends (most (flatten (point_groups point_entries)))
        (sort_by earlier tiebreaks) (point_groups point_entries)
        (point_groups-Descends point_entries))
