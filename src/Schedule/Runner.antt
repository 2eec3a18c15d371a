-- ===== src/Schedule/Runner.antt =====
-- competition/schedule/schedule.runner.ts: `recalculateLocked`, which moves a running schedule to the
-- first entry that has not passed, and plays its match or waits there.
-- The database is what the queries read: the rows of the entries in order, and the active matches.
-- The updates of rows are collected in their order; one date stands for the readings of the clock.
use Prim.Native.String.{String}
use mathlib.Core.List.{flatten}
use tournament_hub.Common.{
  ℕ, ◌+◌, Bool, true, false, not, ◌&&◌, List, [], ◌∷◌, ◌++◌, map, Option, none, some, ◌==◌,
  if◌then◌else◌, is_some, or_else, any, filter, drop, ok, err,
}
use tournament_hub.Match.State.{MatchState, ready_state, completed_state}
use tournament_hub.Schedule.{
  Schedule, ScheduleStaleDetails, tournament_closed, match_removed, match_outside_tournament,
  wait_at, activate, complete, stop, is_running,
}
use tournament_hub.Schedule.Eligibility.{
  ScheduleMatchSnapshot, ScheduleConflicts, passed, eligible, stale, evaluate_local_eligibility,
  evaluate_conflicts,
}

-- A row of `SCHEDULE_ENTRY_SNAPSHOTS`; the columns of a removed match are null.
pub record ScheduleEntryRow : Type 0 where
  pub entry_id : ℕ
  pub entry_match_id : ℕ
  pub started_at : Option ℕ
  pub completed_at : Option ℕ
  pub match_id : Option ℕ
  pub match_name : Option String
  pub active : Option Bool
  pub state : Option MatchState
  pub tournament_id : Option ℕ
  pub round_count : ℕ
  pub player_ids : Option (List ℕ)
  pub required_entrant_count : ℕ
  pub pending_rule_count : ℕ

pub record ScheduleEntrySnapshot : Type 0 where
  pub entry_id : ℕ
  pub entry_match_id : ℕ
  pub match_exists : Bool
  pub tournament_id : Option ℕ
  pub started_at : Option ℕ
  pub completed_at : Option ℕ
  pub match : ScheduleMatchSnapshot

abbrev pub is_state_completed : Option MatchState → Bool
is_state_completed (some completed_state) = true
is_state_completed _ = false

abbrev pub is_state_ready : Option MatchState → Bool
is_state_ready (some ready_state) = true
is_state_ready _ = false

-- `entryId === currentEntryId`
abbrev pub is_current : Option ℕ → ℕ → Bool
is_current none entry_id = false
is_current (some current) entry_id = entry_id == current

unfoldable pub entry_of : Option ℕ → ScheduleEntryRow → ScheduleEntrySnapshot
entry_of current_entry_id row = record {
  entry_id = row.entry_id;
  entry_match_id = row.entry_match_id;
  match_exists = is_some row.match_id;
  tournament_id = row.tournament_id;
  started_at = row.started_at;
  completed_at = row.completed_at;
  match = record {
    match_id = or_else row.match_id 0;
    match_name = or_else row.match_name "";
    active = or_else row.active false;
    completed = is_state_completed row.state;
    ready_to_commit = is_state_ready row.state;
    player_ids = or_else row.player_ids [];
    round_count = row.round_count;
    required_entrant_count = row.required_entrant_count;
    pending_rule_count = row.pending_rule_count;
    is_current_entry = is_current current_entry_id row.entry_id;
  };
}

-- An active match with the players of all its entrants, as `ACTIVE_CONFLICTS` joins them.
pub record ActiveMatch : Type 0 where
  pub id : ℕ
  pub tournament_id : ℕ
  pub player_ids : List ℕ

abbrev pub contains : List ℕ → ℕ → Bool
contains l x = any (λ y. y == x) l

-- The rows of one match: each of its players that is asked for.
abbrev pub conflict_rows : List ℕ → ActiveMatch → List (ℕ × ℕ)
conflict_rows players other = map (λ p. (other.id, p)) (filter (contains players) other.player_ids)

-- `ACTIVE_CONFLICTS`; its `DISTINCT` is left to the sets that are built from the rows.
unfoldable pub active_conflicts : List ActiveMatch → ℕ → List ℕ → List ℕ → List (ℕ × ℕ)
active_conflicts matches tournament settled players = flatten (
    map (conflict_rows players) (
      filter (λ (m : ActiveMatch). (m.tournament_id == tournament) && not (contains settled m.id))
        matches))

-- `[...new Set(ids)]`
unfoldable pub distinct : List ℕ → List ℕ
distinct [] = []
distinct (x ∷ rest) = x ∷ filter (λ y. not (y == x)) (distinct rest)

unfoldable pub conflicts_of :
    List ActiveMatch → ℕ → ScheduleEntrySnapshot → List ScheduleEntrySnapshot → ScheduleConflicts
unfolding active_conflicts distinct
conflicts_of matches tournament entry deactivated =
    let settled =
      entry.match.match_id ∷ map (λ (e : ScheduleEntrySnapshot). e.match.match_id) deactivated in
    let rows = active_conflicts matches tournament settled entry.match.player_ids in
    record {
      blocking_match_ids = distinct (map (λ (r : ℕ × ℕ). r.0) rows);
      blocking_player_ids = distinct (map (λ (r : ℕ × ℕ). r.1) rows);
    }

-- The updates of `schedule_entry` rows.
pub data EntryUpdate : Type 0 where
  entry_completed entry_started entry_stamped : (entry_id now : ℕ) → EntryUpdate

-- What a recalculation saves: the schedule, the entries, and the activity of matches.
pub record ScheduleTransition : Type 0 where
  pub schedule : Schedule
  pub updates : List EntryUpdate
  pub deactivated : List ℕ
  pub activated : Option ℕ

-- `settle`: the passed matches become inactive, then the activated one active.
abbrev pub settle :
    Schedule
    → List EntryUpdate
    → List ScheduleEntrySnapshot
    → Option ScheduleEntrySnapshot
    → ScheduleTransition
settle s updates deactivated activated = record {
  schedule = s;
  updates = updates;
  deactivated = map (λ (e : ScheduleEntrySnapshot). e.match.match_id) deactivated;
  activated = elim activated [ none ↦ none | some e ↦ some e.match.match_id ];
}

abbrev pub is_in : Option ℕ → ℕ → Bool
is_in none tournament = false
is_in (some t) tournament = t == tournament

abbrev pub removed_details : ScheduleEntrySnapshot → ScheduleStaleDetails
removed_details e = record {
  match_id = e.entry_match_id;
  match_name = none;
  entrant_count = none;
  required_entrant_count = none;
  reachable_entrant_count = none;
  blocking_match_ids = none;
  blocking_player_ids = none;
}

abbrev pub outside_details : ScheduleEntrySnapshot → ScheduleStaleDetails
outside_details e = record (removed_details e) {
  match_id = e.match.match_id;
  match_name = some e.match.match_name;
}

-- `if (!entry.completedAt)`, for a passed entry.
abbrev pub passed_updates : ℕ → ScheduleEntrySnapshot → List EntryUpdate
passed_updates now e = if is_some e.completed_at then [] else entry_completed e.entry_id now ∷ []

abbrev pub passed_active : ScheduleEntrySnapshot → List ScheduleEntrySnapshot
passed_active e = if e.match.active then e ∷ [] else []

abbrev pub started_updates : ℕ → ScheduleEntrySnapshot → List EntryUpdate
started_updates now e =
    if not e.match.active
    then entry_started e.entry_id now ∷ []
    else if is_some e.started_at
    then []
    else entry_stamped e.entry_id now ∷ []

module _ (matches : List ActiveMatch) (now : ℕ) where
  -- The branch of an eligible entry, which ends the loop.
  unfoldable pub play :
      Schedule
      → List EntryUpdate
      → List ScheduleEntrySnapshot
      → ScheduleEntrySnapshot
      → ScheduleTransition
  play s updates deactivated e =
      elim (evaluate_conflicts e.match (conflicts_of matches s.tournament_id e deactivated)) [
        | stale code details ↦ settle (wait_at s e.entry_id code details) updates deactivated none
        | _ ↦
            settle (activate s e.entry_id) (updates ++ started_updates now e) deactivated
              (if e.match.active then none else some e)
      ]

  -- The `for` loop over the entries from the current one on.
  unfoldable pub walk :
      Schedule
      → List EntryUpdate
      → List ScheduleEntrySnapshot
      → List ScheduleEntrySnapshot
      → ScheduleTransition
  walk s updates deactivated [] = settle (complete s) updates deactivated none
  walk s updates deactivated (e ∷ rest) = elim e.match_exists [
    | false ↦
        settle (wait_at s e.entry_id match_removed (removed_details e)) updates deactivated none
    | true ↦ elim (is_in e.tournament_id s.tournament_id) [
      | false ↦
          settle (wait_at s e.entry_id match_outside_tournament (outside_details e)) updates
            deactivated none
      | true ↦ elim (evaluate_local_eligibility e.match) [
        | passed ↦ walk s (updates ++ passed_updates now e) (deactivated ++ passed_active e) rest
        | stale code details ↦ settle (wait_at s e.entry_id code details) updates deactivated none
        | eligible ↦ play s updates deactivated e
      ]
    ]
  ]

-- `findIndex`, or 0 where there is none.
unfoldable pub index_of : ℕ → ℕ → List ScheduleEntrySnapshot → ℕ
index_of current index [] = 0
index_of current index (e ∷ rest) =
    let later = index_of current (index + 1) rest in if e.entry_id == current then index else later

abbrev pub current_index : Option ℕ → List ScheduleEntrySnapshot → ℕ
current_index none entries = 0
current_index (some current) entries = index_of current 0 entries

-- The active match of the current entry, if `ACTIVE_MATCH_OF_ENTRY` finds one.
abbrev pub deactivate_current : Schedule → (ℕ → Option ℕ) → List ℕ
deactivate_current s active_match_of = elim s.current_entry_id [
  | none ↦ []
  | some entry_id ↦ elim (active_match_of entry_id) [ none ↦ [] | some m ↦ m ∷ [] ]
]

-- `stop` of the aggregate, which cannot throw here, as the schedule runs.
abbrev pub closed : Schedule → ℕ → Schedule
closed s now = elim (stop s (some tournament_closed) (some ("tournamentId", s.tournament_id)) now) [
  | err _ ↦ s
  | ok s' ↦ s'
]

unfoldable pub recalculate_locked :
    List ActiveMatch
    → (ℕ → Option ℕ)
    → ℕ
    → Bool
    → List ScheduleEntryRow
    → Schedule
    → ScheduleTransition
recalculate_locked matches active_match_of now tournament_open rows s =
    if not (is_running s.status)
    then record { schedule = s; updates = []; deactivated = []; activated = none }
    else if not tournament_open
    then record {
      schedule = closed s now;
      updates = [];
      deactivated = deactivate_current s active_match_of;
      activated = none;
    }
    else (let entries = map (entry_of s.current_entry_id) rows in
        walk matches now s [] [] (drop (current_index s.current_entry_id entries) entries))
