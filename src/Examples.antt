-- ===== src/Examples.antt =====
-- Runs of the scoring systems, the placement resolver and the match aggregate on concrete matches,
-- and instances of the theorems on these.
pub mod Schedules
pub mod Standings
pub mod Brackets
pub mod Plans
pub mod Pools
pub mod Advances
pub mod Rosters
use tournament_hub.Common.{
  ℕ, ◌≡◌, refl, Bool, true, false, List, [], ◌∷◌, map, none, some, Perm, All, length, get_elem?,
  if◌then◌else◌, ok, ◌↔◌,
}
use tournament_hub.Common.Sort.{sort_by}
use tournament_hub.Scoring
use tournament_hub.Scoring.{ScoringScore, ScoringStanding, with_points, award_placement_points}
use tournament_hub.Scoring.Points.{placement_points, award_placement_points-eq-placement_points}
use tournament_hub.Scoring.Winner.{leads, round_winner-leads}
use tournament_hub.Scoring.Systems.{
  ScoringSystemType, get_name, get_scoring_system, recalc, recalc_scores,
}
use tournament_hub.Placement.{
  AdvancementRouting, PlacementPointEntry, MatchResultEntry, TiebreakPlacementInput, match_kind,
  unplaced,
}
use tournament_hub.Placement.Materialize.{resolve_placements}
use tournament_hub.Placement.Ranks.{IsRanked, without_placement, resolve_placements-IsRanked}
use tournament_hub.Placement.Players.{resolve_placements-perm}
use tournament_hub.Placement.Order.{IsFair, resolve_placements-IsFair}
use tournament_hub.Placement.Ties.{IsDecided, resolve_placements-IsDecided}
use tournament_hub.Placement.Reported.{IsGenuine, resolve_placements-IsGenuine}
use tournament_hub.Match.Model.{
  MatchTiebreak, Score, Standing, Round, MatchResult, Entrant, player_entrant, MatchAggregate,
  no_removals,
}
use tournament_hub.Match.State
use tournament_hub.Match.State.{
  MatchResultState, calculated_result_state, state, ready_state, completed_state,
}
use tournament_hub.Match.Settle
use tournament_hub.Match.Settle.{with_match}
use tournament_hub.Match.Scores
use tournament_hub.Match.Scores.{upsert_score}
use tournament_hub.Match.Tiebreaks
use tournament_hub.Match.Tiebreaks.{add_tiebreak, commit, reopen, with_tiebreaks, add_tiebreak}
use tournament_hub.Match.Lifecycle.{IsSound, commit_iff_ready, commit-reopen, commit-IsSound}
use tournament_hub.Match.Sequence.{IsNext, add_tiebreak-IsNext}
use tournament_hub.Match.Evidence.{score_written, EvidenceChange-calculated}
use tournament_hub.Match.Invariant.{IsValid}
use tournament_hub.Match.Valid.{wrote_score, Mutation-IsValid}

-- Scoring -----------------------------------------------------------------------------------------

abbrev scored : ℕ → Bool → ScoringStanding
scored percentage is_failed = record {
  points = 9;
  score = record { percentage = percentage; is_failed = is_failed };
}

-- A tie at the top, a failed score above a lower one.
abbrev four_standings : List ScoringStanding
four_standings = scored 9000 false ∷ scored 8000 true ∷ scored 9000 false ∷ scored 7000 false ∷ []

fail_zero_test :
    map (λ s. s.points) (award_placement_points four_standings false) ≡ 4 ∷ 0 ∷ 4 ∷ 2 ∷ []
unfolding award_placement_points
fail_zero_test = refl

including_fails_test :
    map (λ s. s.points) (award_placement_points four_standings true) ≡ 4 ∷ 2 ∷ 4 ∷ 1 ∷ []
unfolding award_placement_points
including_fails_test = refl

award_placement_points-eq-placement_points_example :
    award_placement_points four_standings false
    ≡ map (λ s. with_points s (placement_points four_standings false s.score)) four_standings
award_placement_points-eq-placement_points_example =
    award_placement_points-eq-placement_points four_standings false

round_winner-leads_example :
    get_elem? (Scoring.round_winner four_standings) 2
    ≡ some (
        with_points
          (scored 9000 false)
          (if leads four_standings 2 (scored 9000 false) then 1 else 0))
round_winner-leads_example = round_winner-leads four_standings 2 (scored 9000 false) refl

recalc_scores_example :
    map (λ s. s.score) (recalc ScoringSystemType.round_winner four_standings)
    ≡ map (λ s. s.score) four_standings
recalc_scores_example = recalc_scores ScoringSystemType.round_winner four_standings

-- Placements --------------------------------------------------------------------------------------

abbrev pointed : ℕ → ℕ → PlacementPointEntry
pointed player_id points = record {
  player_id = player_id;
  points = points;
  average_percentage = none;
}

abbrev three_players : List PlacementPointEntry
three_players = pointed 1 5 ∷ pointed 2 7 ∷ pointed 3 5 ∷ []

-- The first of match 4 goes on to slot 1 of match 5, the second to slot 2.
abbrev advance : ℕ → AdvancementRouting
advance placement = record {
  source_kind = match_kind;
  source_id = 4;
  source_placement = placement;
  target_kind = match_kind;
  target_id = 5;
  target_slot = placement;
}

abbrev finalists : List AdvancementRouting
finalists = advance 1 ∷ advance 2 ∷ []

abbrev winner_only : List AdvancementRouting
winner_only = advance 1 ∷ []

-- Players 1 and 3 play it out; player 3 wins.
abbrev played_out : TiebreakPlacementInput
played_out = record {
  id = 1;
  sequence = 1;
  invalidated = false;
  complete = true;
  entries =
      record { player_id = 1; value = some 2; is_failed = none }
      ∷ record { player_id = 3; value = some 4; is_failed = none }
      ∷ [];
}

tie_reported_test :
    (resolve_placements three_players [] finalists).ambiguous_ties
    ≡ record { player_ids = 1 ∷ 3 ∷ []; from_placement = 2; to_placement = 3 } ∷ []
unfolding resolve_placements
tie_reported_test = refl

tiebreak_decides_test :
    map {B = ℕ × ℕ}
      (λ (e : MatchResultEntry). (e.player_id, e.placement))
      (resolve_placements three_players (played_out ∷ []) finalists).entries
    ≡ (2, 1) ∷ (3, 2) ∷ (1, 3) ∷ []
unfolding resolve_placements
tiebreak_decides_test = refl

no_tie_test : (resolve_placements three_players [] winner_only).ambiguous_ties ≡ []
unfolding resolve_placements
no_tie_test = refl

resolve_placements-IsDecided_example :
    IsDecided winner_only (resolve_placements three_players [] winner_only).entries
resolve_placements-IsDecided_example =
    resolve_placements-IsDecided three_players [] winner_only no_tie_test

resolve_placements-IsFair_example : IsFair (resolve_placements three_players [] finalists).entries
resolve_placements-IsFair_example = resolve_placements-IsFair three_players [] finalists

resolve_placements-IsRanked_example :
    IsRanked 0 (resolve_placements three_players [] finalists).entries
resolve_placements-IsRanked_example = resolve_placements-IsRanked three_players [] finalists

resolve_placements-perm_example :
    Perm
      (map without_placement (resolve_placements three_players (played_out ∷ []) finalists).entries)
      (map unplaced three_players)
resolve_placements-perm_example = resolve_placements-perm three_players (played_out ∷ []) finalists

resolve_placements-IsGenuine_example :
    All
      (IsGenuine finalists (length (resolve_placements three_players [] finalists).entries))
      (resolve_placements three_players [] finalists).ambiguous_ties
resolve_placements-IsGenuine_example = resolve_placements-IsGenuine three_players [] finalists

-- Matches -----------------------------------------------------------------------------------------

abbrev player : ℕ → Entrant
player id = record { id = id; kind = player_entrant; first_player = some id }

abbrev scored_at : ℕ → ℕ → Score
scored_at player percentage = record {
  id = none;
  percentage = percentage;
  is_failed = false;
  player = some player;
  song = some 7;
}

abbrev first_standing : Standing
first_standing = record { id = some 21; player = 1; score = some (scored_at 1 9500); points = 0 }

abbrev song_round : List Standing → Round
song_round standings = record { id = some 11; song = some 7; standings = standings }

-- Match 4 of players 1 and 2 with one song round.
abbrev duel : List Standing → MatchAggregate
duel standings = record {
  match = record {
    id = 4;
    name = none;
    subtitle = none;
    notes = none;
    scoring_system = "PlacementPointsWithFailZero";
    active = true;
    phase_group = none;
    entrants = player 1 ∷ player 2 ∷ [];
    rounds = song_round standings ∷ [];
    tiebreaks = [];
    match_result = none;
  };
  advancement_rules = finalists;
  removals = no_removals;
}

abbrev both : List Standing
both =
    record { id = some 21; player = 1; score = some (scored_at 1 9500); points = 2 }
    ∷ record { id = none; player = 2; score = some (scored_at 2 9000); points = 1 }
    ∷ []

abbrev duel_result : MatchResult
duel_result = record {
  id = none;
  player_points =
      record { player_id = 1; points = 2; placement = 1 }
      ∷ record { player_id = 2; points = 1; placement = 2 }
      ∷ [];
}

abbrev duel_done : MatchAggregate
duel_done =
    with_match (duel both)
      (record ((duel both).match) { match_result = some duel_result; active = false })

-- The functions that a run of a match goes through.
unfoldable program : Unit {0}
unfolding sort_by resolve_placements State.players_of State.percentages_of State.sum
    State.average_percentage_of State.points_in State.total_points State.calculate_points
    State.is_tiebreak_complete State.tiebreak_placement_inputs State.outgoing_advancement_rules
    State.result_from State.calculated_result_state State.result_state State.state
    Settle.update_first Settle.round_of Settle.played Settle.write_back Settle.rank_if_complete
    Settle.is_round_complete Settle.invalidate_tiebreaks Scores.write_standing Scores.upsert_score
    Tiebreaks.commit Tiebreaks.add_tiebreak Tiebreaks.same_ids Tiebreaks.last_sequence
    Settle.assert_editable recalc get_scoring_system award_placement_points
program = tt

second_score_test :
    upsert_score (duel (first_standing ∷ [])) 11 2 (scored_at 2 9000) ≡ ok (duel both)
unfolding program
second_score_test = refl

ready_test : state (duel both) ≡ ready_state
unfolding program
ready_test = refl

commit_test : commit (duel both) ≡ ok duel_done
unfolding program
commit_test = refl

duel-IsValid : IsValid (duel (first_standing ∷ []))
duel-IsValid = record { idle = refl; rounds = ((refl, tt, tt), tt) }

commit-IsSound_example :
    (r : MatchResult) × (duel_done.match.match_result ≡ some r)
    × IsSound (duel both) r.player_points
commit-IsSound_example = commit-IsSound (duel both) duel_done commit_test

Mutation-IsValid_example : IsValid (duel both)
Mutation-IsValid_example =
    Mutation-IsValid (wrote_score 11 2 (scored_at 2 9000) second_score_test) duel-IsValid

commit_iff_ready_example :
    ((a' : MatchAggregate) × (commit (duel both) ≡ ok a')) ↔ (state (duel both) ≡ ready_state)
commit_iff_ready_example = commit_iff_ready (duel both) refl

commit-reopen_example :
    (state duel_done ≡ completed_state)
    × (duel_done.match.active ≡ false)
    × (reopen duel_done ≡ with_match (duel both) (record ((duel both).match) { active = false }))
commit-reopen_example = commit-reopen (duel both) duel_done refl commit_test

EvidenceChange-calculated_example :
    calculated_result_state (duel both) ≡ calculated_result_state (with_tiebreaks (duel both) [])
EvidenceChange-calculated_example =
    EvidenceChange-calculated (score_written 11 2 (scored_at 2 9000) second_score_test)

-- The same match with a tied round, for whose two players a tiebreak is added.
abbrev tied : List Standing
tied =
    record { id = some 21; player = 1; score = some (scored_at 1 9000); points = 2 }
    ∷ record { id = none; player = 2; score = some (scored_at 2 9000); points = 2 }
    ∷ []

abbrev played_tiebreak : MatchTiebreak
played_tiebreak = record {
  id = none;
  sequence = 1;
  invalidated = false;
  song = none;
  standings =
      record { player = 2; score = none; manual_points = some 0 }
      ∷ record { player = 1; score = none; manual_points = some 0 }
      ∷ [];
}

tiebreak_test :
    add_tiebreak (duel tied) none (2 ∷ 1 ∷ [])
    ≡ ok (with_tiebreaks (duel tied) (played_tiebreak ∷ []), played_tiebreak)
unfolding program
tiebreak_test = refl

add_tiebreak-IsNext_example :
    IsNext
      (duel tied)
      (2 ∷ 1 ∷ [])
      (with_tiebreaks (duel tied) (played_tiebreak ∷ []))
      played_tiebreak
add_tiebreak-IsNext_example =
    add_tiebreak-IsNext (duel tied) (with_tiebreaks (duel tied) (played_tiebreak ∷ [])) none
      (2 ∷ 1 ∷ []) played_tiebreak tiebreak_test
