-- ===== src/Pool/Totals.antt =====
-- structure/phase-group/pool-totals.ts, and the placements that the pool reads from its matches.
use mathlib.Core.List.{flatten}
use tournament_hub.Common.{
  ℕ, ◌+◌, Bool, ◌&&◌, ◌||◌, List, [], ◌∷◌, map, none, some, ltb, ◌==◌, if◌then◌else◌, or_else,
  is_some, all, length,
}
use tournament_hub.Common.Sort.{sort_by}
use tournament_hub.Placement.{MatchResultEntry, map_get}
use tournament_hub.Match.Model.{Entrant, Match}
use tournament_hub.Pool.{PhaseGroupAggregate}

pub record PoolTotal : Type 0 where
  pub entrant_id : ℕ
  pub points : ℕ

-- The total of an entrant grows, or the entrant gets its first one.
unfoldable pub add_points : List PoolTotal → PoolTotal → List PoolTotal
add_points [] entry = entry ∷ []
add_points (t ∷ rest) entry =
    if t.entrant_id == entry.entrant_id
    then record t { points = t.points + entry.points } ∷ rest
    else t ∷ add_points rest entry

unfoldable pub add_match : List PoolTotal → List PoolTotal → List PoolTotal
unfolding add_points
add_match totals [] = totals
add_match totals (entry ∷ rest) = add_match (add_points totals entry) rest

unfoldable pub add_matches : List PoolTotal → List (List PoolTotal) → List PoolTotal
unfolding add_match
add_matches totals [] = totals
add_matches totals (m ∷ rest) = add_matches (add_match totals m) rest

-- More points first, then the smaller id.
abbrev pub ranks_before : PoolTotal → PoolTotal → Bool
ranks_before left right =
    ltb right.points left.points
    || ((left.points == right.points) && ltb left.entrant_id right.entrant_id)

unfoldable pub pool_totals : List (List PoolTotal) → List PoolTotal
unfolding add_matches
pool_totals matches = sort_by ranks_before (add_matches [] matches)

-- `isDecided`
unfoldable pub is_decided : PhaseGroupAggregate → Bool
is_decided a =
    ltb 0 (length a.phase_group.matches)
    && all (λ (m : Match). is_some m.match_result) a.phase_group.matches

abbrev pub points_by_player : Match → List (ℕ × ℕ)
points_by_player m = elim m.match_result [
  | none ↦ []
  | some r ↦ map {B = ℕ × ℕ} (λ (e : MatchResultEntry). (e.player_id, e.points)) r.player_points
]

abbrev pub points_of_entrant : Match → Entrant → ℕ
points_of_entrant m e = elim e.first_player [
  | none ↦ 0
  | some p ↦ or_else (map_get p (points_by_player m)) 0
]

-- The points of a match's entrants.
unfoldable pub entries_of : Match → List PoolTotal
entries_of m =
    map (λ (e : Entrant). record { entrant_id = e.id; points = points_of_entrant m e }) m.entrants

abbrev pub entrants_by_id : List Match → List (ℕ × Entrant)
entrants_by_id matches =
    map {B = ℕ × Entrant} (λ (e : Entrant). (e.id, e))
      (flatten (map (λ (m : Match). m.entrants) matches))

-- The entrants that the map has, in the order of the totals.
unfoldable pub found_entrants : List (ℕ × Entrant) → List PoolTotal → List Entrant
found_entrants by_id [] = []
found_entrants by_id (t ∷ rest) = elim (map_get t.entrant_id by_id) [
  | none ↦ found_entrants by_id rest
  | some e ↦ e ∷ found_entrants by_id rest
]

unfoldable pub placements : PhaseGroupAggregate → List Entrant
unfolding found_entrants pool_totals entries_of
placements a =
    found_entrants (entrants_by_id a.phase_group.matches)
      (pool_totals (map entries_of a.phase_group.matches))
