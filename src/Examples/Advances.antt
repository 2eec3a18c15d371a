-- ===== src/Examples/Advances.antt =====
-- A match of two players, scored by hand, whose winner goes to a second match and whose loser goes to a
-- pool; and the rules of the first match, replaced.
use tournament_hub.Common.{
  Perm, ℕ, ◌+◌, ◌≡◌, ◌≢◌, ◌↔◌, refl, false, true, List, [], ◌∷◌, Option, none, some, map, find, ok,
  err, Result, All, arith,
}
use tournament_hub.Common.Sort.{sort_by}
use tournament_hub.Placement.{match_kind, phase_group_kind, CompetitionKind}
use tournament_hub.Placement.Materialize.{resolve_placements}
use tournament_hub.Match.Model.{
  Entrant, player_entrant, Standing, Round, Match, MatchAggregate, MatchError,
}
use tournament_hub.Match.State
use tournament_hub.Match.State.{state, ready_state}
use tournament_hub.Match.Settle
use tournament_hub.Match.Scores
use tournament_hub.Match.Tiebreaks
use tournament_hub.Match.Tiebreaks.{commit, entrants_by_placement}
use tournament_hub.Match.Details
use tournament_hub.Pool
use tournament_hub.Pool.{PhaseGroup, pending}
use tournament_hub.Advancement
use tournament_hub.Advancement.{AdvancementRule, World, find_by_source, is_match_row, load_match}
use tournament_hub.Advancement.Rules
use tournament_hub.Advancement.Rules.{
  AdvancementRuleInput, update_for_source, assert_valid_advancement_rules,
}
use tournament_hub.Advancement.Runner
use tournament_hub.Advancement.Runner.{advance_from_match}
use tournament_hub.Advancement.Validation.{IsRuleSet, assert_valid_iff_IsRuleSet}
use tournament_hub.Advancement.Reach.{of_match, IsValidWorld}
use tournament_hub.Advancement.Commit
use tournament_hub.Advancement.Commit.{
  advanced_run, AdvancementRun-match_reach, AdvancementRun-IsValidWorld,
}
use tournament_hub.Match.Placed.{entries_of_result, IsByResult}
use tournament_hub.Advancement.Arrival.{has_arrived}
use tournament_hub.Advancement.Activity.{but_active}
use tournament_hub.Commands
use tournament_hub.Commands.{CommandError, match_error, commit_result}
use tournament_hub.Commands.Committed.{commit_result-refused, commit_result-has_arrived}

abbrev entrant : ℕ → Entrant
entrant n = record { id = n; kind = player_entrant; first_player = some (100 + n) }

abbrev by_hand : ℕ → ℕ → Standing
by_hand player points = record { id = none; player = player; score = none; points = points }

abbrev match_with : ℕ → List Entrant → List Round → Match
match_with id entrants rounds = record {
  id = id;
  name = none;
  subtitle = none;
  notes = none;
  scoring_system = "RoundWinner";
  active = false;
  phase_group = none;
  entrants = entrants;
  rounds = rounds;
  tiebreaks = [];
  match_result = none;
}

abbrev hand_scored : Round
hand_scored = record { id = some 11; song = none; standings = by_hand 101 1 ∷ by_hand 102 3 ∷ [] }

abbrev rule : ℕ → ℕ → CompetitionKind → ℕ → AdvancementRule
rule id place kind target = record {
  id = id;
  source_kind = match_kind;
  source_id = 1;
  source_placement = place;
  target_kind = kind;
  target_id = target;
  target_slot = 1;
}

abbrev before : World
before = record {
  matches =
      match_with 1 (entrant 1 ∷ entrant 2 ∷ []) (hand_scored ∷ [])
      ∷ match_with 2 [] []
      ∷ match_with 3 [] []
      ∷ [];
  pools =
      record {
        id = 9;
        name = 80 ∷ [];
        display_identifier = none;
        bracket_type = none;
        state = pending;
        entrants = [];
        matches = [];
      }
      ∷ [];
  rules = rule 51 1 match_kind 2 ∷ rule 52 2 phase_group_kind 9 ∷ [];
  next_rule_id = 53;
  next_seat_id = 31;
  coming = (record { match_id = 3; active = true } ∷ []) ∷ [];
  events = [];
}

unfoldable program : Unit {0}
unfolding sort_by resolve_placements State.players_of State.percentages_of State.sum
    State.average_percentage_of State.points_in State.total_points State.calculate_points
    State.is_tiebreak_complete State.tiebreak_placement_inputs State.outgoing_advancement_rules
    State.result_from State.calculated_result_state State.result_state State.state
    State.has_evidence State.pool_state Settle.rank_if_complete Settle.resettle
    Settle.resettle_round Settle.resettle_rounds Settle.is_round_complete
    Settle.invalidate_tiebreaks Settle.dropped_ids Scores.place_entrant Tiebreaks.commit
    Tiebreaks.placed_index Tiebreaks.entrants_by_placement Details.settle Pool.place Pool.write_seat
    Pool.next_slot Pool.highest_slot Advancement.find_by_source Advancement.load_match
    Advancement.write_match Advancement.load_pool Advancement.save_pool Advancement.write_pool
    Advancement.number_seats Runner.place_in Runner.write_target_match Runner.write_seats
    Runner.write_target_pool Runner.add_placement Runner.move_all Runner.write_pools
    Runner.apply_rules Runner.update_phase_group_completion Runner.advance_from_match
    Rules.update_for_source Rules.assert_valid_advancement_rules Rules.check_rules Rules.create_all
    Rules.numbered_rules Rules.match_targets Commands.commit_result Commands.commit_and_advance
    Commands.announce Commands.recalculate_schedule_if_moved
program = tt

abbrev left_by : {E : Type 0} → Result (World × E) World → World
left_by (err (w, e)) = w
left_by (ok w) = w

abbrev loaded : ℕ → MatchAggregate
loaded id = elim (load_match before id) [ none ↦ of_match (match_with id [] []) | some a ↦ a ]

abbrev after : World
after = left_by (commit_result before 1)

commit_test : commit_result before 1 ≡ ok after
unfolding program
commit_test = refl

abbrev ids_in : Option Match → List ℕ
ids_in none = []
ids_in (some m) = map (λ (e : Entrant). e.id) m.entrants

winner_test : ids_in (find (is_match_row 2) after.matches) ≡ 2 ∷ []
unfolding program
winner_test = refl

loaded_test : load_match before 1 ≡ some (loaded 1)
unfolding program
loaded_test = refl

fresh_test : State.is_completed (loaded 1) ≡ false
unfolding program
fresh_test = refl

commit_result-has_arrived_example :
    (a' : MatchAggregate) × (commit (loaded 1) ≡ ok a')
    × Perm (entrants_by_placement a') a'.match.entrants
    × IsByResult (entries_of_result a') (entrants_by_placement a')
    × All
        (λ (r : AdvancementRule). has_arrived after (entrants_by_placement a') r ≡ true)
        (find_by_source before match_kind 1)
commit_result-has_arrived_example =
    commit_result-has_arrived before after 1 (loaded 1) loaded_test fresh_test commit_test

empty_loaded_test : load_match before 2 ≡ some (loaded 2)
unfolding program
empty_loaded_test = refl

empty_fresh_test : State.is_completed (loaded 2) ≡ false
unfolding program
empty_fresh_test = refl

unready_test : state (loaded 2) ≢ ready_state
unfolding program
unready_test e = cc

commit_result-refused_example :
    (e : MatchError) × (commit_result before 2 ≡ err (before, match_error e))
commit_result-refused_example =
    commit_result-refused before 2 (loaded 2) empty_loaded_test empty_fresh_test unready_test

-- The committed match, and the world after its entrants were sent on.
abbrev committed : MatchAggregate
committed = elim (commit (loaded 1)) [ err e ↦ loaded 1 | ok a ↦ a ]

abbrev sent : World
sent = left_by (advance_from_match before committed)

sent_test : advance_from_match before committed ≡ ok sent
unfolding program
sent_test = refl

reach_test : Commit.match_reach before committed 3 ≡ false
unfolding program
reach_test = refl

AdvancementRun-match_reach_example :
    (but_active (find (is_match_row 3) sent.matches)
      ≡ but_active (find (is_match_row 3) before.matches))
    × (sent.rules ≡ before.rules)
AdvancementRun-match_reach_example =
    AdvancementRun-match_reach before sent committed 3 (advanced_run sent_test) reach_test

before-IsValidWorld : IsValidWorld before
before-IsValidWorld = (
  record { idle = refl; rounds = ((refl, ((λ e. omega (arith, e)), tt), (refl, tt, tt)), tt) },
  (record { idle = refl; rounds = tt }, (record { idle = refl; rounds = tt }, tt)),
)

AdvancementRun-IsValidWorld_example : IsValidWorld sent
AdvancementRun-IsValidWorld_example =
    AdvancementRun-IsValidWorld before sent committed (advanced_run sent_test) ((refl, tt), tt)
      before-IsValidWorld

abbrev input : ℕ → ℕ → AdvancementRuleInput
input place target = record {
  source_placement = place;
  target_kind = match_kind;
  target_id = target;
  target_slot = 2;
}

abbrev replaced : World
replaced = elim (update_for_source before match_kind 1 (input 1 3 ∷ input 2 2 ∷ [])) [
  | err e ↦ before
  | ok w ↦ w
]

assert_valid_iff_IsRuleSet_example :
    (assert_valid_advancement_rules match_kind 1 (input 1 3 ∷ input 2 2 ∷ []) ≡ ok tt)
    ↔ IsRuleSet match_kind 1 (input 1 3 ∷ input 2 2 ∷ [])
assert_valid_iff_IsRuleSet_example =
    assert_valid_iff_IsRuleSet match_kind 1 (input 1 3 ∷ input 2 2 ∷ [])
