-- ===== src/Schedule.antt =====
-- competition/schedule/schedule.aggregate.ts: a schedule of matches, its run and its interruption.
-- A string is the list of its UTF-16 code units, a date its number of milliseconds. A method that
-- reads the clock takes the date that it reads. Saved ids start at 1.
pub mod Eligibility
pub mod Runner
pub mod Walk
pub mod Activation
pub mod Valid
use Prim.Native.String.{String}
use tournament_hub.Common.{
  ℕ, ◌+◌, Bool, true, false, not, ◌&&◌, ◌||◌, List, [], ◌∷◌, ◌++◌, Option, none, some, ltb, leb,
  ◌==◌, if◌then◌else◌, is_some, any, Result, ok, err, ◌>>=◌, ◌>>◌, throw_if,
}
use tournament_hub.Common.Sort.{sort_by}
use tournament_hub.Common.Text.{trim}

pub data ScheduleStatus : Type 0 where
  inactive running completed : ScheduleStatus

pub data ScheduleInterruptionCode : Type 0 where
  match_result_reopened rollback_confirmed tournament_closed : ScheduleInterruptionCode

pub data ScheduleStaleCode : Type 0 where
  no_entrants not_enough_entrants unresolved_entrants : ScheduleStaleCode
  unfillable_entrant_slots no_rounds match_already_active : ScheduleStaleCode
  entrants_already_active match_removed match_outside_tournament : ScheduleStaleCode
  current_match_changed_externally : ScheduleStaleCode

pub record ScheduleStaleDetails : Type 0 where
  pub match_id : ℕ
  pub match_name : Option String
  pub entrant_count : Option ℕ
  pub required_entrant_count : Option ℕ
  pub reachable_entrant_count : Option ℕ
  pub blocking_match_ids : Option (List ℕ)
  pub blocking_player_ids : Option (List ℕ)

-- The interruption details that the callers give: one named id.
abbrev pub InterruptionDetails : Type 0
InterruptionDetails = String × ℕ

pub record ScheduleEntry : Type 0 where
  pub id : ℕ
  pub position : ℕ
  pub expected_duration_minutes : ℕ
  pub match_id : ℕ
  pub started_at : Option ℕ
  pub completed_at : Option ℕ

pub record Schedule : Type 0 where
  pub id : ℕ
  pub name : List ℕ
  pub will_start_at : ℕ
  pub status : ScheduleStatus
  pub current_entry_id : Option ℕ
  pub stale_code : Option ScheduleStaleCode
  pub stale_details : Option ScheduleStaleDetails
  pub interruption_code : Option ScheduleInterruptionCode
  pub interruption_details : Option InterruptionDetails
  pub interrupted_at : Option ℕ
  pub archived_at : Option ℕ
  pub tournament_id : ℕ
  pub entries : List ScheduleEntry

pub data ScheduleError : Type 0 where
  not_editable not_running not_completed : ScheduleError
  only_completed_archived only_completed_unarchived : ScheduleError
  foreign_entry : ℕ → ScheduleError

abbrev pub is_inactive : ScheduleStatus → Bool
is_inactive inactive = true
is_inactive running = false
is_inactive completed = false

abbrev pub is_running : ScheduleStatus → Bool
is_running inactive = false
is_running running = true
is_running completed = false

abbrev pub is_done : ScheduleStatus → Bool
is_done inactive = false
is_done running = false
is_done completed = true

unfoldable pub create : List ℕ → ℕ → ℕ → Schedule
create name will_start_at tournament_id = record {
  id = 0;
  name = trim name;
  will_start_at = will_start_at;
  status = inactive;
  current_entry_id = none;
  stale_code = none;
  stale_details = none;
  interruption_code = none;
  interruption_details = none;
  interrupted_at = none;
  archived_at = none;
  tournament_id = tournament_id;
  entries = [];
}

-- The getter `entries`: the entries by their positions.
unfoldable pub ordered_entries : Schedule → List ScheduleEntry
ordered_entries s =
    sort_by (λ (left right : ScheduleEntry). ltb left.position right.position) s.entries

abbrev pub clear_stale : Schedule → Schedule
clear_stale s = record s { stale_code = none; stale_details = none }

abbrev pub clear_interruption : Schedule → Schedule
clear_interruption s = record s {
  interruption_code = none;
  interruption_details = none;
  interrupted_at = none;
}

abbrev pub interrupt :
    Schedule → ScheduleInterruptionCode → Option InterruptionDetails → ℕ → Schedule
interrupt s code details now = record s {
  interruption_code = some code;
  interruption_details = details;
  interrupted_at = some now;
}

unfoldable pub assert_editable : Schedule → Result ScheduleError (Unit {0})
assert_editable s = throw_if (not (is_inactive s.status) || is_some s.archived_at) not_editable

unfoldable pub rename : Schedule → List ℕ → Result ScheduleError Schedule
rename s name = do assert_editable s; ok (record s { name = trim name })

unfoldable pub update_details : Schedule → List ℕ → ℕ → Result ScheduleError Schedule
update_details s name will_start_at = do
  assert_editable s
  ok (record s { name = trim name; will_start_at = will_start_at })

abbrev pub is_entry : ℕ → ScheduleEntry → Bool
is_entry id entry = entry.id == id

-- `entryId !== undefined` and no such entry.
unfoldable pub assert_own_entry : Schedule → Option ℕ → Result ScheduleError (Unit {0})
assert_own_entry s none = ok tt
assert_own_entry s (some id) =
    throw_if (not (any (is_entry id) (ordered_entries s))) (foreign_entry id)

unfoldable pub start : Schedule → Option ℕ → Result ScheduleError Schedule
start s entry_id = do
  assert_editable s
  assert_own_entry s entry_id
  ok (clear_interruption (clear_stale (record s { current_entry_id = entry_id; status = running })))

unfoldable pub stop :
    Schedule
    → Option ScheduleInterruptionCode
    → Option InterruptionDetails
    → ℕ
    → Result ScheduleError Schedule
stop s code details now = do
  throw_if (not (is_running s.status)) not_running
  let stopped = clear_stale (record s { status = inactive })
  ok (elim code [ none ↦ clear_interruption stopped | some c ↦ interrupt stopped c details now ])

unfoldable pub interrupt_completed_run :
    Schedule
    → ℕ
    → ScheduleInterruptionCode
    → Option InterruptionDetails
    → ℕ
    → Result ScheduleError Schedule
interrupt_completed_run s entry_id code details now = do
  throw_if (not (is_done s.status)) not_completed
  let reset = record s { status = inactive; current_entry_id = some entry_id; archived_at = none }
  ok (interrupt (clear_stale reset) code details now)

unfoldable pub wait_at : Schedule → ℕ → ScheduleStaleCode → ScheduleStaleDetails → Schedule
wait_at s entry_id code details = record s {
  current_entry_id = some entry_id;
  stale_code = some code;
  stale_details = some details;
}

unfoldable pub activate : Schedule → ℕ → Schedule
activate s entry_id = clear_stale (record s { current_entry_id = some entry_id })

unfoldable pub complete : Schedule → Schedule
complete s = clear_stale (record s { status = completed; current_entry_id = none })

unfoldable pub archive : Schedule → ℕ → Result ScheduleError Schedule
archive s now = do
  throw_if (not (is_done s.status)) only_completed_archived
  ok (record s { archived_at = some now })

unfoldable pub unarchive : Schedule → Result ScheduleError Schedule
unarchive s = do
  throw_if (not (is_done s.status)) only_completed_unarchived
  ok (record s { archived_at = none })

-- The current entry is forgotten when it is not among the new ones.
abbrev pub kept_entry : Option ℕ → List ScheduleEntry → Option ℕ
kept_entry none entries = none
kept_entry (some id) entries = if any (is_entry id) entries then some id else none

unfoldable pub replace_entries : Schedule → List ScheduleEntry → Result ScheduleError Schedule
replace_entries s entries = do
  assert_editable s
  ok (record s { entries = entries; current_entry_id = kept_entry s.current_entry_id entries })
