-- ===== src/Placement/Ranks.antt =====
-- The placements that `materialize` of placement.resolver.ts hands out.
use mathlib.Core.List.{flatten}
use tournament_hub.Common.{
  ℕ, ◌+◌, ◌≤◌, ◌<◌, ◌≡◌, refl, ap, ◌∙◌, inl, inr, not, ◌||◌, List, [], ◌∷◌, ◌++◌, map, arith, ltb,
  if◌then◌else◌, Bool-cases, length, count_if, All, All-map, All-append, length-append, length-map,
  count_if-append, any, is_some, All-both,
}
use tournament_hub.Common.Sort.{sort_by, length-sort_by}
use tournament_hub.Placement.{
  AdvancementRouting, TiebreakPlacementInput, PlacementPointEntry, MatchResultEntry, PlacementGroup,
}
use tournament_hub.Placement.Materialize.{
  Averages, separates_outcomes, split_by_average, same_average, better_average, average_of,
  by_player_id, place_group, place_groups, materialize_entries, materialize, final_groups,
  resolve_placements, averages_of,
}
use tournament_hub.Placement.Groups.{flatten-group_entries}

-- An entry with its placement taken off.
abbrev pub without_placement : MatchResultEntry → MatchResultEntry
without_placement e = record e { placement = 0 }

abbrev pub placed_before : ℕ → List MatchResultEntry → ℕ
placed_before p = count_if (λ e. ltb e.placement p)

-- The placements are those of places `o + 1` to `o + length l`, and each is one more than `o` and the
-- number of entries of the list with a smaller one.
pub record IsRanked (o : ℕ) (l : List MatchResultEntry) : Type 0 where
  pub above : All (λ e. o < e.placement) l
  pub below : All (λ e. e.placement ≤ o + length l) l
  pub rank : All (λ e. placed_before e.placement l + o + 1 ≡ e.placement) l

placed_before-All :
    (o p : ℕ) (l : List MatchResultEntry)
    → All (λ e. e.placement ≤ o) l
    → o < p
    → placed_before p l ≡ length l
placed_before-All o p [] h k = refl
placed_before-All o p (e ∷ rest) h k = ground (arith, h.0, placed_before-All o p rest h.1 k)

placed_before_none :
    (o p : ℕ) (l : List MatchResultEntry)
    → All (λ e. o < e.placement) l
    → p ≤ o + 1
    → placed_before p l ≡ 0
placed_before_none o p [] h k = refl
placed_before_none o p (e ∷ rest) h k = ground (arith, h.0, placed_before_none o p rest h.1 k)

IsRanked-append :
    (o : ℕ) (xs ys : List MatchResultEntry)
    → IsRanked o xs
    → IsRanked (o + length xs) ys
    → IsRanked o (xs ++ ys)
IsRanked-append o xs ys rx ry = record {
  above =
      All-append (λ (e : MatchResultEntry). o < e.placement) xs ys rx.above
        (All-map (λ (e : MatchResultEntry). o + length xs < e.placement) (λ e h. omega arith) ys
          ry.above);
  below =
      All-append (λ (e : MatchResultEntry). e.placement ≤ o + length (xs ++ ys)) xs ys
        (All-map (λ (e : MatchResultEntry). e.placement ≤ o + length xs)
          (λ e h. omega (arith, length-append xs ys)) xs rx.below)
        (All-map (λ (e : MatchResultEntry). e.placement ≤ o + length xs + length ys)
          (λ e h. omega (arith, length-append xs ys)) ys ry.below);
  rank =
      All-append
        (λ (e : MatchResultEntry). placed_before e.placement (xs ++ ys) + o + 1 ≡ e.placement) xs ys
        (All-map
          (λ (e : MatchResultEntry).
            (placed_before e.placement xs + o + 1 ≡ e.placement) × (e.placement ≤ o + length xs))
          (λ e h. omega (
            arith,
            count_if-append (λ f. ltb f.placement e.placement) xs ys,
            placed_before_none (o + length xs) e.placement ys ry.above (omega arith),
          ))
          xs (All-both _ _ xs rx.rank rx.below))
        (All-map
          (λ (e : MatchResultEntry).
            (placed_before e.placement ys + (o + length xs) + 1 ≡ e.placement)
            × (o + length xs < e.placement))
          (λ e h. omega (
            arith,
            count_if-append (λ f. ltb f.placement e.placement) xs ys,
            placed_before-All (o + length xs) e.placement xs rx.below h.1,
          ))
          ys (All-both _ _ ys ry.rank ry.above));
}

pub IsRanked-same :
    (o : ℕ) (l : List MatchResultEntry) → All (λ e. e.placement ≡ o + 1) l → IsRanked o l
IsRanked-same o [] h = record { above = tt; below = tt; rank = tt }
IsRanked-same o (e ∷ rest) h = record {
  above = All-map (λ (f : MatchResultEntry). f.placement ≡ o + 1) (λ f k. omega arith) (e ∷ rest) h;
  below = All-map (λ (f : MatchResultEntry). f.placement ≡ o + 1) (λ f k. omega arith) (e ∷ rest) h;
  rank =
      All-map (λ (f : MatchResultEntry). f.placement ≡ o + 1)
        (λ f k. omega (
          arith,
          placed_before_none o f.placement (e ∷ rest)
              (All-map (λ (g : MatchResultEntry). g.placement ≡ o + 1) (λ g m. omega arith)
                (e ∷ rest) h)
              (omega arith),
        ))
        (e ∷ rest) h;
}

All-place :
    (p : ℕ) (l : List MatchResultEntry)
    → All (λ e. e.placement ≡ p) (map (λ (e : MatchResultEntry). record e { placement = p }) l)
All-place p [] = tt
All-place p (e ∷ l) = (refl, All-place p l)

pub place_group_placement :
    (group : PlacementGroup) (p : ℕ) → All (λ e. e.placement ≡ p) (place_group group p)
unfolding place_group
place_group_placement group p = All-place p (by_player_id group)

pub length-place_group :
    (group : PlacementGroup) (p : ℕ) → length (place_group group p) ≡ length group
unfolding place_group by_player_id
length-place_group group p = length-map _ (by_player_id group) ∙ length-sort_by _ group

pub length-place_groups :
    (groups : List PlacementGroup) (settled : ℕ)
    → length (place_groups groups settled) ≡ length (flatten groups)
unfolding place_groups flatten
length-place_groups [] settled = refl
length-place_groups (group ∷ rest) settled = omega (
  arith,
  length-append (place_group group settled) (place_groups rest (settled + length group)),
  length-append group (flatten rest),
  length-place_group group settled,
  length-place_groups rest (settled + length group),
)

pub length-split_by_average :
    (group : PlacementGroup) (averages : Averages)
    → length (flatten (split_by_average group averages)) ≡ length group
unfolding split_by_average flatten
length-split_by_average group averages =
    elim (Bool-cases
      (ltb (length group) 2 || any (λ entry. not (is_some (average_of averages entry))) group)) [
        | inl e ↦ rw e (omega (arith, length-append group []))
        | inr e ↦ rw e (
            ap length (
              flatten-group_entries (same_average averages) []
                (sort_by (better_average averages) group))
            ∙ length-sort_by (better_average averages) group)
      ]

pub place_groups-IsRanked :
    (groups : List PlacementGroup) (o p : ℕ) → p ≡ o + 1 → IsRanked o (place_groups groups p)
unfolding place_groups
place_groups-IsRanked [] o p e = record { above = tt; below = tt; rank = tt }
place_groups-IsRanked (group ∷ rest) o p e =
    let size = length-place_group group p in
    IsRanked-append o (place_group group p) (place_groups rest (p + length group))
      (IsRanked-same o (place_group group p) (rw (← e) (place_group_placement group p)))
      (rw size (place_groups-IsRanked rest (o + length group) (p + length group) (omega arith)))

module _ (rules : List AdvancementRouting) (averages : Averages) where
  -- What the outer loop pushes for one group.
  abbrev pub placed : PlacementGroup → ℕ → List MatchResultEntry
  placed group offset =
      if separates_outcomes rules group (offset + 1)
      then place_group group (offset + 1)
      else place_groups (split_by_average group averages) (offset + 1)

  pub length-placed :
      (group : PlacementGroup) (offset : ℕ) → length (placed group offset) ≡ length group
  length-placed group offset = elim (Bool-cases (separates_outcomes rules group (offset + 1))) [
    | inl e ↦ rw e (length-place_group group (offset + 1))
    | inr e ↦ rw e (
        length-place_groups (split_by_average group averages) (offset + 1)
        ∙ length-split_by_average group averages)
  ]

  pub placed-IsRanked :
      (group : PlacementGroup) (offset : ℕ) → IsRanked offset (placed group offset)
  placed-IsRanked group offset = elim (Bool-cases (separates_outcomes rules group (offset + 1))) [
    | inl e ↦ rw e (
        IsRanked-same offset (place_group group (offset + 1))
          (place_group_placement group (offset + 1)))
    | inr e ↦
        rw e (place_groups-IsRanked (split_by_average group averages) offset (offset + 1) refl)
  ]

  pub materialize_entries-IsRanked :
      (groups : List PlacementGroup) (offset : ℕ)
      → IsRanked offset (materialize_entries rules averages groups offset)
  unfolding materialize_entries
  materialize_entries-IsRanked [] offset = record { above = tt; below = tt; rank = tt }
  materialize_entries-IsRanked (group ∷ rest) offset =
      IsRanked-append offset (placed group offset)
        (materialize_entries rules averages rest (offset + length group))
        (placed-IsRanked group offset)
        (rw (length-placed group offset)
          (materialize_entries-IsRanked rest (offset + length group)))

-- `resolvePlacements` ranks the players in competition fashion, whatever the points, tiebreaks,
-- rules and averages: each placement lies between 1 and the number of placed players, and is one
-- more than the number of players with a smaller placement.
pub resolve_placements-IsRanked :
    (point_entries : List PlacementPointEntry) (tiebreaks : List TiebreakPlacementInput)
    (rules : List AdvancementRouting)
    → IsRanked 0 (resolve_placements point_entries tiebreaks rules).entries
unfolding resolve_placements materialize
resolve_placements-IsRanked point_entries tiebreaks rules =
    materialize_entries-IsRanked rules (averages_of point_entries)
      (final_groups point_entries tiebreaks) 0
