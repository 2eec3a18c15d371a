-- ===== src/Examples/Schedules.antt =====
-- A schedule of two matches: the first is over, the second is waiting to be played.
use tournament_hub.Common.{
  ℕ, ◌+◌, ◌≡◌, refl, Bool, true, false, List, [], ◌∷◌, Option, none, some, ok, ◌↔◌,
}
use tournament_hub.Match.State.{MatchState, open_state, ready_state}
use tournament_hub.Common.Text.{trim}
use tournament_hub.Schedule
use tournament_hub.Schedule.{Schedule, ScheduleStatus, running, create, start, wait_at, no_rounds}
use tournament_hub.Schedule.Eligibility
use tournament_hub.Schedule.Eligibility.{
  ScheduleMatchSnapshot, ScheduleEligibility, eligible, IsPlayable, eligible_iff_IsPlayable,
  evaluate_local_eligibility,
}
use tournament_hub.Schedule.Runner
use tournament_hub.Schedule.Runner.{
  ScheduleEntryRow, ScheduleTransition, ActiveMatch, entry_of, recalculate_locked,
}
use tournament_hub.Schedule.Walk.{IsAdvance}
use tournament_hub.Schedule.Activation.{
  IsActivation, remaining, recalculate_locked-IsAdvance, recalculate_locked-IsActivation,
}
use tournament_hub.Schedule.Valid.{IsValid, created, then_step, started, Reachable-IsValid}

abbrev row : ℕ → Bool → MatchState → ScheduleEntryRow
row id active state = record {
  entry_id = id;
  entry_match_id = id + 100;
  started_at = none;
  completed_at = none;
  match_id = some (id + 100);
  match_name = none;
  active = some active;
  state = some state;
  tournament_id = some 1;
  round_count = 1;
  player_ids = some (5 ∷ 6 ∷ []);
  required_entrant_count = 2;
  pending_rule_count = 0;
}

abbrev two_rows : List ScheduleEntryRow
two_rows = row 1 true ready_state ∷ row 2 false open_state ∷ []

-- Match 101 is active with the players of match 102; match 90 has others.
abbrev playing : List ActiveMatch
playing =
    record { id = 101; tournament_id = 1; player_ids = 5 ∷ 6 ∷ [] }
    ∷ record { id = 90; tournament_id = 1; player_ids = 7 ∷ [] }
    ∷ []

abbrev evening : Schedule
evening = create (32 ∷ 65 ∷ 32 ∷ []) 1000 1

abbrev evening_running : Schedule
evening_running = record evening { status = running }

abbrev no_match : ℕ → Option ℕ
no_match _ = none

unfoldable program : Unit {0}
unfolding create trim start Schedule.assert_editable Schedule.assert_own_entry Schedule.activate
    Schedule.wait_at Schedule.complete evaluate_local_eligibility Eligibility.evaluate_conflicts
    entry_of Runner.conflicts_of Runner.play Runner.walk Runner.index_of recalculate_locked
program = tt

trim_test : evening.name ≡ 65 ∷ []
unfolding program
trim_test = refl

start_test : start evening none ≡ ok evening_running
unfolding program
start_test = refl

activated_test :
    (recalculate_locked playing no_match 7 true two_rows evening_running).activated ≡ some 102
unfolding program mathlib.Core.List.flatten
activated_test = refl

recalculate_locked-IsAdvance_example :
    IsAdvance evening_running
      (remaining evening_running two_rows)
      (recalculate_locked playing no_match 7 true two_rows evening_running)
recalculate_locked-IsAdvance_example =
    recalculate_locked-IsAdvance playing no_match 7 two_rows evening_running refl

recalculate_locked-IsActivation_example :
    IsActivation playing evening_running
      (remaining evening_running two_rows)
      (recalculate_locked playing no_match 7 true two_rows evening_running)
      102
recalculate_locked-IsActivation_example =
    recalculate_locked-IsActivation playing no_match 7 two_rows evening_running 102 refl
      activated_test

Reachable-IsValid_example : IsValid evening_running
Reachable-IsValid_example =
    Reachable-IsValid (then_step (created (32 ∷ 65 ∷ 32 ∷ []) 1000 1) (started none start_test))

abbrev second_match : ScheduleMatchSnapshot
second_match = (entry_of none (row 2 false open_state)).match

eligible_iff_IsPlayable_example :
    (evaluate_local_eligibility second_match ≡ eligible) ↔ IsPlayable second_match
eligible_iff_IsPlayable_example = eligible_iff_IsPlayable second_match
