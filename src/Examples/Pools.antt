-- ===== src/Examples/Pools.antt =====
-- A pool with two seats, and two matches of its three entrants.
use mathlib.Core.List.{flatten}
use tournament_hub.Common.{
  ℕ, ◌+◌, ◌<◌, ◌≡◌, refl, false, List, [], ◌∷◌, ◌++◌, none, some, or_else, count_if, any, All,
  arith, if◌then◌else◌,
}
use tournament_hub.Match.Model.{Entrant, player_entrant}
use tournament_hub.Match.Scores.{is_entrant}
use tournament_hub.Pool.{
  PhaseGroupEntrant, active_seat, pending, PhaseGroupAggregate, Placement, seat, place, release,
  with_seats, next_slot,
}
use tournament_hub.Pool.Totals.{PoolTotal, pool_totals, placements}
use tournament_hub.Pool.Identifier.{next_identifier}
use tournament_hub.Pool.Fresh.{IsFresh, next_identifier_total}
use tournament_hub.Pool.Sums.{IsInOrder, points_for, is_total_of, pool_totals-IsRanking}
use tournament_hub.Pool.Placements.{entrants_of, count_if-placements}
use tournament_hub.Pool.Seats.{IsDistinct, next_slot-above}
use tournament_hub.Pool.Reseat.{row_ids, numbered_seats, left_out, seat-numbered_seats}
use tournament_hub.Pool.Valid.{placed, PoolStep-IsDistinct}
use tournament_hub.Pool.Moves.{place-release}

abbrev entrant : ℕ → Entrant
entrant n = record { id = n; kind = player_entrant; first_player = some (100 + n) }

abbrev taken_seat : ℕ → ℕ → PhaseGroupEntrant
taken_seat row n = record {
  id = some row;
  entrant = entrant n;
  seed_num = some n;
  slot = some n;
  status = active_seat;
  source_advancement_rule = none;
}

abbrev two_seats : PhaseGroupAggregate
two_seats = record {
  phase_group = record {
    id = 7;
    name = 80 ∷ [];
    display_identifier = some (80 ∷ []);
    bracket_type = none;
    state = pending;
    entrants = taken_seat 31 1 ∷ taken_seat 32 2 ∷ [];
    matches = [];
  };
  removed_seat_ids = [];
}

abbrev points : ℕ → ℕ → PoolTotal
points id n = record { entrant_id = id; points = n }

abbrev two_matches : List (List PoolTotal)
two_matches = (points 1 2 ∷ points 2 3 ∷ []) ∷ (points 3 3 ∷ points 1 4 ∷ []) ∷ []

pool_totals-IsRanking_example :
    ((id : ℕ)
      → (points_for id (pool_totals two_matches) ≡ points_for id (flatten two_matches))
        × (count_if (is_total_of id) (pool_totals two_matches)
            ≡ (if any (is_total_of id) (flatten two_matches) then 1 else 0)))
    × IsInOrder (pool_totals two_matches)
pool_totals-IsRanking_example = pool_totals-IsRanking two_matches

-- The same pool with a match that the second entrant won.
abbrev played : PhaseGroupAggregate
played = record two_seats {
  phase_group = record (two_seats.phase_group) {
    matches =
        record {
          id = 1;
          name = none;
          subtitle = none;
          notes = none;
          scoring_system = "RoundWinner";
          active = false;
          phase_group = some 7;
          entrants = entrant 1 ∷ entrant 2 ∷ [];
          rounds = [];
          tiebreaks = [];
          match_result = some (record {
            id = some 3;
            player_points =
                record { player_id = 102; points = 2; placement = 1 }
                ∷ record { player_id = 101; points = 1; placement = 2 }
                ∷ [];
          });
        }
        ∷ [];
  };
}

count_if-placements_example :
    count_if (is_entrant 2) (placements played)
    ≡ (if any (is_entrant 2) (entrants_of played.phase_group.matches) then 1 else 0)
count_if-placements_example = count_if-placements played 2

next_identifier_total_example :
    (text : List ℕ) × (next_identifier (two_seats.phase_group ∷ []) ≡ some text)
    × IsFresh text (two_seats.phase_group ∷ [])
next_identifier_total_example = next_identifier_total (two_seats.phase_group ∷ [])

two_seats-IsDistinct : IsDistinct two_seats.phase_group.entrants
two_seats-IsDistinct id = ground arith

seat-numbered_seats_example :
    seat two_seats (entrant 3 ∷ entrant 1 ∷ [])
    ≡ record (with_seats two_seats
        (numbered_seats two_seats.phase_group.entrants 1 (entrant 3 ∷ entrant 1 ∷ []))) {
          removed_seat_ids =
              two_seats.removed_seat_ids
              ++ row_ids (left_out (entrant 3 ∷ entrant 1 ∷ []) two_seats.phase_group.entrants);
        }
seat-numbered_seats_example =
    seat-numbered_seats two_seats (entrant 3 ∷ entrant 1 ∷ []) two_seats-IsDistinct
      (λ id. ground arith)

abbrev third : Placement
third = record { entrant = entrant 3; slot = none; source_advancement_rule_id = some 5 }

PoolStep-IsDistinct_example : IsDistinct (place two_seats third).phase_group.entrants
PoolStep-IsDistinct_example =
    PoolStep-IsDistinct two_seats (place two_seats third) (placed third) two_seats-IsDistinct

place-release_example : release (place two_seats third) 3 ≡ two_seats
place-release_example = place-release two_seats third refl

next_slot-above_example :
    All
      (λ (s : PhaseGroupEntrant). or_else s.slot 0 < next_slot two_seats.phase_group.entrants)
      two_seats.phase_group.entrants
next_slot-above_example = next_slot-above two_seats.phase_group.entrants
