-- ===== src/Schedule/Eligibility.antt =====
-- competition/schedule/schedule.eligibility.ts: whether the match of an entry can be played now.
use Prim.Native.String.{String}
use tournament_hub.Common.{
  ℕ, ◌+◌, ◌≤◌, ◌<◌, ◌≡◌, ◌↔◌, Bool, false, not, ◌&&◌, ◌||◌, List, none, some, arith, ltb, ◌==◌,
  if◌then◌else◌, length,
}
use tournament_hub.Schedule.{
  ScheduleStaleCode, ScheduleStaleDetails, no_entrants, not_enough_entrants, unresolved_entrants,
  unfillable_entrant_slots, no_rounds, match_already_active, entrants_already_active,
}

pub record ScheduleMatchSnapshot : Type 0 where
  pub match_id : ℕ
  pub match_name : String
  pub active : Bool
  pub completed : Bool
  pub ready_to_commit : Bool
  pub player_ids : List ℕ
  pub round_count : ℕ
  pub required_entrant_count : ℕ
  pub pending_rule_count : ℕ
  pub is_current_entry : Bool

pub record ScheduleConflicts : Type 0 where
  pub blocking_match_ids : List ℕ
  pub blocking_player_ids : List ℕ

pub data ScheduleEligibility : Type 0 where
  passed eligible : ScheduleEligibility
  stale : ScheduleStaleCode → ScheduleStaleDetails → ScheduleEligibility

abbrev pub details_of : ScheduleMatchSnapshot → ScheduleStaleDetails
details_of m = record {
  match_id = m.match_id;
  match_name = some m.match_name;
  entrant_count = some (length m.player_ids);
  required_entrant_count = some m.required_entrant_count;
  reachable_entrant_count = none;
  blocking_match_ids = none;
  blocking_player_ids = none;
}

unfoldable pub evaluate_local_eligibility : ScheduleMatchSnapshot → ScheduleEligibility
evaluate_local_eligibility m =
    let details = details_of m in
    let players = length m.player_ids in
    let reachable = players + m.pending_rule_count in
    if m.completed || m.ready_to_commit
    then passed
    else if players == 0
    then stale no_entrants details
    else if players == 1
    then stale not_enough_entrants details
    else if ltb players m.required_entrant_count
    then if ltb reachable m.required_entrant_count
      then stale unfillable_entrant_slots
          (record details { reachable_entrant_count = some reachable })
      else stale unresolved_entrants details
    else if m.round_count == 0
    then stale no_rounds details
    else if m.active && not m.is_current_entry
    then stale match_already_active details
    else eligible

unfoldable pub evaluate_conflicts : ScheduleMatchSnapshot → ScheduleConflicts → ScheduleEligibility
evaluate_conflicts m conflicts =
    if length conflicts.blocking_match_ids == 0
    then eligible
    else stale entrants_already_active (record (details_of m) {
      blocking_match_ids = some conflicts.blocking_match_ids;
      blocking_player_ids = some conflicts.blocking_player_ids;
    })

-- What a match needs to be played.
pub record IsPlayable (m : ScheduleMatchSnapshot) : Type 0 where
  pub undecided : (m.completed || m.ready_to_commit) ≡ false
  pub several : 2 ≤ length m.player_ids
  pub filled : m.required_entrant_count ≤ length m.player_ids
  pub has_rounds : 0 < m.round_count
  pub free : (m.active && not m.is_current_entry) ≡ false

IsPlayable-of_eligible :
    (m : ScheduleMatchSnapshot) → evaluate_local_eligibility m ≡ eligible → IsPlayable m
unfolding evaluate_local_eligibility
IsPlayable-of_eligible m h = record {
  undecided = ground arith;
  several = ground arith;
  filled = ground arith;
  has_rounds = ground arith;
  free = ground arith;
}

eligible_of_IsPlayable :
    (m : ScheduleMatchSnapshot) → IsPlayable m → evaluate_local_eligibility m ≡ eligible
unfolding evaluate_local_eligibility
eligible_of_IsPlayable m p = ground (arith, p.undecided, p.several, p.filled, p.has_rounds, p.free)

-- The match of an entry is eligible exactly if it is neither completed nor ready, has at least two
-- players and as many as it requires, has a round, and is not active on behalf of another entry.
pub eligible_iff_IsPlayable :
    (m : ScheduleMatchSnapshot) → (evaluate_local_eligibility m ≡ eligible) ↔ IsPlayable m
eligible_iff_IsPlayable m = (IsPlayable-of_eligible m, eligible_of_IsPlayable m)
