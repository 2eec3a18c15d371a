-- ===== src/Advancement.antt =====
-- structure/advancement/: the rules that send an entrant from a place in a match or a pool to a slot of
-- another one, their store, and the stored rows that they act on (MatchStore and PhaseGroupStore: load
-- and save).
-- A world holds the rows. The column `state` of a match is no part of its row here: it is what the
-- aggregate computes from the row and the rules, as `save` and `refreshState` write it. New rules and
-- new seats get the next ids; new rows within a match, such as its result, stay without one.
-- A recalculation of the schedules writes the column `active` of matches. What it decides depends on the
-- schedules, which the world does not hold: the changes that the coming recalculations make are a list in
-- the world, of which nothing is assumed but where a theorem says so. The messages to clients are events,
-- in order, and so is each recalculation. Errors of the database are left out.
pub mod Rules
pub mod Runner
pub mod Validation
pub mod Targets
pub mod Activity
pub mod Reach
pub mod Runs
pub mod Commit
pub mod Arrival
pub mod Arrived
pub mod Guard
use tournament_hub.Common.{
  ℕ, suc, ◌+◌, Bool, true, false, not, ◌&&◌, ◌||◌, List, [], ◌∷◌, ◌++◌, map, Option, none, some,
  ltb, ◌==◌, if◌then◌else◌, any, find, filter,
}
use tournament_hub.Common.Sort.{sort_by}
use tournament_hub.Placement.{CompetitionKind, match_kind, phase_group_kind, AdvancementRouting}
use tournament_hub.Match.Model.{Match, MatchAggregate, no_removals, has_id}
use tournament_hub.Pool.{PhaseGroupEntrant, PhaseGroup, PhaseGroupAggregate}

pub record AdvancementRule : Type 0 where
  pub id : ℕ
  pub source_kind : CompetitionKind
  pub source_id : ℕ
  pub source_placement : ℕ
  pub target_kind : CompetitionKind
  pub target_id : ℕ
  pub target_slot : ℕ

pub data WorldEvent : Type 0 where
  match_updated : ℕ → WorldEvent
  pool_updated : Option ℕ → WorldEvent
  schedule_recalculated : List ℕ → WorldEvent

pub record ActivityChange : Type 0 where
  pub match_id : ℕ
  pub active : Bool

-- The `matches` of a stored pool are not read: loading finds them.
pub record World : Type 0 where
  pub matches : List Match
  pub pools : List PhaseGroup
  pub rules : List AdvancementRule
  pub next_rule_id : ℕ
  pub next_seat_id : ℕ
  pub coming : List (List ActivityChange)
  pub events : List WorldEvent

abbrev pub same_kind : CompetitionKind → CompetitionKind → Bool
same_kind match_kind match_kind = true
same_kind match_kind phase_group_kind = false
same_kind phase_group_kind match_kind = false
same_kind phase_group_kind phase_group_kind = true

abbrev pub is_source : CompetitionKind → ℕ → AdvancementRule → Bool
is_source kind id rule = same_kind rule.source_kind kind && (rule.source_id == id)

-- `order: { sourcePlacement: 'ASC', targetSlot: 'ASC', id: 'ASC' }`
abbrev pub rule_before : AdvancementRule → AdvancementRule → Bool
rule_before a b =
    ltb a.source_placement b.source_placement
    || ((a.source_placement == b.source_placement)
        && (ltb a.target_slot b.target_slot || ((a.target_slot == b.target_slot) && ltb a.id b.id)))

unfoldable pub find_by_source : World → CompetitionKind → ℕ → List AdvancementRule
find_by_source w kind id = sort_by rule_before (filter (is_source kind id) w.rules)

abbrev pub delete_by_source : World → CompetitionKind → ℕ → World
delete_by_source w kind id = record w { rules = filter (λ r. not (is_source kind id r)) w.rules }

abbrev pub routing_of : AdvancementRule → AdvancementRouting
routing_of rule = record {
  source_kind = rule.source_kind;
  source_id = rule.source_id;
  source_placement = rule.source_placement;
  target_kind = rule.target_kind;
  target_id = rule.target_id;
  target_slot = rule.target_slot;
}

abbrev pub is_match_row : ℕ → Match → Bool
is_match_row id m = m.id == id

-- `MatchStore.load`
unfoldable pub load_match : World → ℕ → Option MatchAggregate
load_match w id = elim (find (is_match_row id) w.matches) [
  | none ↦ none
  | some m ↦ some (record {
    match = m;
    advancement_rules = map routing_of (filter (is_source match_kind id) w.rules);
    removals = no_removals;
  })
]

unfoldable pub write_match : Match → List Match → List Match
write_match m [] = []
write_match m (x ∷ rest) = if x.id == m.id then m ∷ rest else x ∷ write_match m rest

-- `MatchStore.save` of a match that has a row.
abbrev pub save_match : World → MatchAggregate → World
save_match w a = record w { matches = write_match a.match w.matches }

abbrev pub is_pool_row : ℕ → PhaseGroup → Bool
is_pool_row id p = p.id == id

-- `PhaseGroupStore.load`
unfoldable pub load_pool : World → ℕ → Option PhaseGroupAggregate
load_pool w id = elim (find (is_pool_row id) w.pools) [
  | none ↦ none
  | some p ↦ some (record {
    phase_group = record p { matches = filter (λ (m : Match). has_id m.phase_group id) w.matches };
    removed_seat_ids = [];
  })
]

unfoldable pub write_pool : PhaseGroup → List PhaseGroup → List PhaseGroup
write_pool p [] = []
write_pool p (x ∷ rest) = if x.id == p.id then p ∷ rest else x ∷ write_pool p rest

-- The seats that have no row get one.
unfoldable pub number_seats : ℕ → List PhaseGroupEntrant → List PhaseGroupEntrant × ℕ
number_seats next [] = ([], next)
number_seats next (s ∷ rest) = elim s.id [
  | some i ↦ let (seats, after) = number_seats next rest in (s ∷ seats, after)
  | none ↦
      let (seats, after) = number_seats (suc next) rest in
      (record s { id = some next } ∷ seats, after)
]

-- `PhaseGroupStore.save`: the rows of the removed seats are gone with the seats.
unfoldable pub save_pool : World → PhaseGroupAggregate → World
unfolding number_seats write_pool
save_pool w a =
    let (seats, after) = number_seats w.next_seat_id a.phase_group.entrants in
    record w {
      pools = write_pool (record (a.phase_group) { entrants = seats }) w.pools;
      next_seat_id = after;
    }

abbrev pub emit : WorldEvent → World → World
emit event w = record w { events = w.events ++ event ∷ [] }

-- The column `active` of a match after the changes, in order.
abbrev pub activity : ℕ → Bool → List ActivityChange → Bool
activity id active [] = active
activity id active (c ∷ rest) = activity id (if c.match_id == id then c.active else active) rest

-- `manager.update(Match, { id: In(...) }, { active })`
abbrev pub set_active : List ActivityChange → List Match → List Match
set_active changes = map (λ (m : Match). record m { active = activity m.id m.active changes })

abbrev pub recalculated : List (List ActivityChange) → World → World
recalculated [] w = w
recalculated (changes ∷ rest) w = record w { matches = set_active changes w.matches; coming = rest }

-- `recalculateForMatch`, and `recalculateForMatches` of some matches
abbrev pub recalculate : List ℕ → World → World
recalculate ids w = emit (schedule_recalculated ids) (recalculated w.coming w)
