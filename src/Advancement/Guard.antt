-- ===== src/Advancement/Guard.antt =====
-- structure/advancement/advancement-rollback.guard.ts: what stands in the way of reopening a result. The
-- SQL queries select the rows that these functions select.
use tournament_hub.Common.{
  ℕ, Bool, true, false, not, ◌&&◌, List, [], ◌∷◌, ◌++◌, Option, none, some, ◌==◌, if◌then◌else◌,
  any,
}
use tournament_hub.Placement.{match_kind, phase_group_kind}
use tournament_hub.Placement.Materialize.{is_match}
use tournament_hub.Match.Model.{Entrant, Match, MatchAggregate, has_id}
use tournament_hub.Match.State.{MatchState, open_state, completed_state, state}
use tournament_hub.Match.Scores.{is_entrant}
use tournament_hub.Match.Tiebreaks.{entrants_by_placement}
use tournament_hub.Pool.{PhaseGroupEntrant, PhaseGroup, PhaseGroupState, completed}
use tournament_hub.Pool.Totals.{placements}
use tournament_hub.Advancement.{AdvancementRule, World, find_by_source, load_match, load_pool}
use tournament_hub.Advancement.Runner.{entrant_at}

abbrev pub Impact : Type 0
Impact = AdvancementRule × Entrant

pub data BlockingReason : Type 0 where
  result_committed scores_recorded : BlockingReason

-- A match that is a target, or a match of a pool that is one.
pub data BlockingTarget : Type 0 where
  blocking_match : (target : ℕ) → BlockingReason → BlockingTarget
  blocking_pool : (target blocking : ℕ) → BlockingReason → BlockingTarget

abbrev pub is_completed_pool : PhaseGroupState → Bool
is_completed_pool completed = true
is_completed_pool _ = false

-- The column `state` of a stored match.
abbrev pub state_column : World → Match → MatchState
state_column w m = elim (load_match w m.id) [ none ↦ open_state | some a ↦ state a ]

-- `m."state" <> 'open'`, and the CASE of the reason.
abbrev pub progress : World → Match → Option BlockingReason
progress w m = elim (state_column w m) [
  | open_state ↦ none
  | completed_state ↦ some result_committed
  | _ ↦ some scores_recorded
]

unfoldable pub impacts_from_rules : List Entrant → List AdvancementRule → List Impact
impacts_from_rules placed [] = []
impacts_from_rules placed (rule ∷ rest) = elim (entrant_at placed rule.source_placement) [
  | none ↦ impacts_from_rules placed rest
  | some e ↦ (rule, e) ∷ impacts_from_rules placed rest
]

abbrev pub pool_impacts : World → Option ℕ → List Impact
pool_impacts w none = []
pool_impacts w (some id) = elim (load_pool w id) [
  | none ↦ []
  | some pool ↦
      if is_completed_pool pool.phase_group.state
      then impacts_from_rules (placements pool) (find_by_source w phase_group_kind id)
      else []
]

unfoldable pub impacts_of : World → MatchAggregate → List Impact
unfolding impacts_from_rules
impacts_of w a =
    impacts_from_rules (entrants_by_placement a) (find_by_source w match_kind a.match.id)
    ++ pool_impacts w a.match.phase_group

abbrev pub hits : Match → Impact → Bool
hits m (rule, e) =
    is_match rule.target_kind && (rule.target_id == m.id) && any (is_entrant e.id) m.entrants

-- PROGRESSED_MATCHES
unfoldable pub blocking_matches : World → List Impact → List Match → List BlockingTarget
blocking_matches w impacts [] = []
blocking_matches w impacts (m ∷ rest) =
    let others = blocking_matches w impacts rest in
    if any (hits m) impacts
    then elim (progress w m) [ none ↦ others | some reason ↦ blocking_match m.id reason ∷ others ]
    else others

abbrev pub is_seated_by : List Impact → PhaseGroupEntrant → Bool
is_seated_by impacts seat =
    any
      (λ (i : Impact). not (is_match i.0.target_kind) && has_id seat.source_advancement_rule i.0.id)
      impacts

-- SEATS_TAKEN_BY_RULES
abbrev pub is_taken : List Impact → PhaseGroup → Bool
is_taken impacts pool =
    any (λ (i : Impact). not (is_match i.0.target_kind) && (i.0.target_id == pool.id)) impacts
    && any (is_seated_by impacts) pool.entrants

unfoldable pub progressed_in : World → ℕ → List Match → List BlockingTarget
progressed_in w pool [] = []
progressed_in w pool (m ∷ rest) =
    let others = progressed_in w pool rest in
    if has_id m.phase_group pool
    then elim (progress w m) [
      | none ↦ others
      | some reason ↦ blocking_pool pool m.id reason ∷ others
    ]
    else others

-- PROGRESSED_POOLS
unfoldable pub blocking_phase_groups : World → List Impact → List PhaseGroup → List BlockingTarget
unfolding progressed_in
blocking_phase_groups w impacts [] = []
blocking_phase_groups w impacts (pool ∷ rest) =
    let others = blocking_phase_groups w impacts rest in
    if is_taken impacts pool then progressed_in w pool.id w.matches ++ others else others

-- What `assertMatchCanReopen` would name in its exception: it throws unless this is empty. The queries
-- order the rows by their ids.
unfoldable pub blocking_targets : World → MatchAggregate → List BlockingTarget
unfolding impacts_of blocking_matches blocking_phase_groups
blocking_targets w a =
    let impacts = impacts_of w a in
    blocking_matches w impacts w.matches ++ blocking_phase_groups w impacts w.pools
