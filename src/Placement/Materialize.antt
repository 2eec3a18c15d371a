-- ===== src/Placement/Materialize.antt =====
-- `materialize` of placement.resolver.ts, and `resolvePlacements` as a whole.
use tournament_hub.Common.{
  ℕ, ◌+◌, ◌-◌, ◌*◌, ◌/◌, Bool, true, false, not, ◌&&◌, ◌||◌, List, [], ◌∷◌, ◌++◌, map, Option, none,
  some, ltb, ◌==◌, if◌then◌else◌, or_else, is_some, length, filter, any,
}
use tournament_hub.Common.Sort.{sort_by}
use tournament_hub.Placement.{
  CompetitionKind, match_kind, phase_group_kind, AdvancementRouting, TiebreakPlacementInput,
  Average, PlacementPointEntry, MatchResultEntry, MatchPlacementTie, PlacementResolution,
  PlacementGroup, map_get, group_entries, point_groups, apply_tiebreaks, earlier,
}

abbrev pub is_match : CompetitionKind → Bool
is_match match_kind = true
is_match phase_group_kind = false

abbrev pub same_kind : CompetitionKind → CompetitionKind → Bool
same_kind match_kind k = is_match k
same_kind phase_group_kind k = not (is_match k)

-- `outcomeOf`: the text `kind:id:slot` names the target of a rule, and `none` no rule.
abbrev pub Outcome : Type 0
Outcome = Option (CompetitionKind × ℕ × ℕ)

abbrev pub outcome_of : Option AdvancementRouting → Outcome
outcome_of none = none
outcome_of (some rule) = some (rule.target_kind, rule.target_id, rule.target_slot)

abbrev pub same_outcome : Outcome → Outcome → Bool
same_outcome none none = true
same_outcome none (some b) = false
same_outcome (some a) none = false
same_outcome (some (k, i, s)) (some (k', i', s')) = same_kind k k' && (i == i') && (s == s')

-- The elements of `new Set(outcomes)`.
unfoldable pub distinct_outcomes : List Outcome → List Outcome
distinct_outcomes [] = []
distinct_outcomes (o ∷ rest) =
    let others = distinct_outcomes rest in if any (same_outcome o) rest then others else o ∷ others

abbrev pub Averages : Type 0
Averages = List (ℕ × Option Average)

-- `ruleByPlacement`, over the rules that leave a match.
unfoldable pub rule_at : List AdvancementRouting → ℕ → Option AdvancementRouting
unfolding map_get
rule_at rules placement = map_get placement (
    map (λ (r : AdvancementRouting). (r.source_placement, r))
      (filter (λ r. is_match r.source_kind) rules))

-- `outcomeOf(ruleByPlacement.get(placement + index))` for each member of the group.
unfoldable pub outcomes_at : List AdvancementRouting → ℕ → PlacementGroup → List Outcome
unfolding rule_at
outcomes_at rules placement [] = []
outcomes_at rules placement (entry ∷ rest) =
    outcome_of (rule_at rules placement) ∷ outcomes_at rules (placement + 1) rest

unfoldable pub separates_outcomes : List AdvancementRouting → PlacementGroup → ℕ → Bool
unfolding distinct_outcomes outcomes_at
separates_outcomes rules group placement =
    if ltb (length group) 2
    then false
    else ltb 1 (length (distinct_outcomes (outcomes_at rules placement group)))

-- `averages.get(playerId) ?? null`
unfoldable pub average_of : Averages → MatchResultEntry → Option Average
unfolding map_get
average_of averages entry = or_else (map_get entry.player_id averages) none

-- `Math.round(value * 10_000)` of a percentage in percent, rounding halves up.
abbrev pub comparable_average : Option Average → ℕ
comparable_average none = 0
comparable_average (some a) = (200 * a.total + a.scores) / (2 * a.scores)

abbrev pub better_average : Averages → MatchResultEntry → MatchResultEntry → Bool
better_average averages left right =
    let l = comparable_average (average_of averages left) in
    let r = comparable_average (average_of averages right) in
    if l == r then ltb left.player_id right.player_id else ltb r l

abbrev pub same_average : Averages → MatchResultEntry → MatchResultEntry → Bool
same_average averages first entry =
    comparable_average (average_of averages first) == comparable_average (average_of averages entry)

unfoldable pub split_by_average : PlacementGroup → Averages → List PlacementGroup
unfolding group_entries average_of
split_by_average group averages =
    if ltb (length group) 2 || any (λ entry. not (is_some (average_of averages entry))) group
    then group ∷ []
    else group_entries (same_average averages) [] (sort_by (better_average averages) group)

unfoldable pub by_player_id : PlacementGroup → PlacementGroup
by_player_id = sort_by (λ (left right : MatchResultEntry). ltb left.player_id right.player_id)

-- `byPlayerId(group).map((entry) => ({ ...entry, placement }))`
unfoldable pub place_group : PlacementGroup → ℕ → List MatchResultEntry
unfolding by_player_id
place_group group placement =
    map (λ (e : MatchResultEntry). record e { placement = placement }) (by_player_id group)

-- The inner loop, with `settled` as its variable.
unfoldable pub place_groups : List PlacementGroup → ℕ → List MatchResultEntry
unfolding place_group
place_groups [] settled = []
place_groups (group ∷ rest) settled =
    place_group group settled ++ place_groups rest (settled + length group)

unfoldable pub tie_of : PlacementGroup → ℕ → MatchPlacementTie
unfolding by_player_id
tie_of group placement = record {
  player_ids = map (λ (e : MatchResultEntry). e.player_id) (by_player_id group);
  from_placement = placement;
  to_placement = placement + length group - 1;
}

-- The outer loop from `offset` on: what it pushes onto the entries and onto the ties.
module _ (rules : List AdvancementRouting) (averages : Averages) where
  unfoldable pub materialize_entries : List PlacementGroup → ℕ → List MatchResultEntry
  unfolding separates_outcomes place_groups split_by_average
  materialize_entries [] offset = []
  materialize_entries (group ∷ rest) offset =
      (if separates_outcomes rules group (offset + 1)
        then place_group group (offset + 1)
        else place_groups (split_by_average group averages) (offset + 1))
      ++ materialize_entries rest (offset + length group)

  unfoldable pub materialize_ties : List PlacementGroup → ℕ → List MatchPlacementTie
  unfolding separates_outcomes tie_of
  materialize_ties [] offset = []
  materialize_ties (group ∷ rest) offset =
      (if separates_outcomes rules group (offset + 1) then tie_of group (offset + 1) ∷ [] else [])
      ++ materialize_ties rest (offset + length group)

unfoldable pub materialize :
    List PlacementGroup → List AdvancementRouting → Averages → PlacementResolution
unfolding materialize_entries materialize_ties
materialize groups rules averages = record {
  entries = materialize_entries rules averages groups 0;
  ambiguous_ties = materialize_ties rules averages groups 0;
}

unfoldable pub averages_of : List PlacementPointEntry → Averages
averages_of entries = map (λ (e : PlacementPointEntry). (e.player_id, e.average_percentage)) entries

unfoldable pub final_groups :
    List PlacementPointEntry → List TiebreakPlacementInput → List PlacementGroup
unfolding point_groups apply_tiebreaks sort_by
final_groups point_entries tiebreaks =
    apply_tiebreaks (sort_by earlier tiebreaks) (point_groups point_entries)

unfoldable pub resolve_placements :
    List PlacementPointEntry
    → List TiebreakPlacementInput
    → List AdvancementRouting
    → PlacementResolution
unfolding final_groups materialize averages_of
resolve_placements point_entries tiebreaks rules =
    materialize (final_groups point_entries tiebreaks) rules (averages_of point_entries)
