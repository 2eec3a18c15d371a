-- ===== src/Commands.antt =====
-- competition/match/match.commands.ts: `commitResult`, which composes a match, its store, the advancement
-- and the schedule.
-- The report to start.gg changes nothing here and is left out. An exception leaves the world as it is at
-- that point.
pub mod Committed
use tournament_hub.Common.{
  ℕ, Bool, true, false, not, ◌&&◌, ◌||◌, List, [], ◌∷◌, Option, none, some, if◌then◌else◌, Result,
  err, ok,
}
use tournament_hub.Match.Model.{MatchAggregate, MatchError}
use tournament_hub.Match.State.{MatchPoolState, pool_state, is_completed}
use tournament_hub.Match.Details.{settle}
use tournament_hub.Match.Tiebreaks.{commit}
use tournament_hub.Advancement.{
  World, match_updated, pool_updated, recalculate, load_match, save_match, emit,
}
use tournament_hub.Advancement.Runner.{advance_from_match, revert_from_match}

pub data CommandError : Type 0 where
  match_not_found : ℕ → CommandError
  match_error : MatchError → CommandError

abbrev pub Command : Type 0
Command = Result (World × CommandError) World

abbrev pub differs : Bool → Bool → Bool
differs true b = not b
differs false b = b

-- `recalculateScheduleIfMoved`
unfoldable pub recalculate_schedule_if_moved : MatchAggregate → MatchPoolState → World → World
recalculate_schedule_if_moved a before w =
    let after = pool_state a in
    if differs after.is_completed before.is_completed
      || differs after.awaiting_commit before.awaiting_commit
    then recalculate (a.match.id ∷ []) w
    else w

-- `announce`
unfoldable pub announce : MatchAggregate → MatchPoolState → World → World
announce a before w =
    let after = pool_state a in
    let told = emit (match_updated a.match.id) w in
    if differs after.is_completed before.is_completed
      || differs after.awaiting_commit before.awaiting_commit
      || differs after.awaiting_resolution before.awaiting_resolution
      || differs after.progressed before.progressed
    then emit (pool_updated a.match.phase_group) told
    else told

-- What follows the check whether there is a result to withdraw.
unfoldable pub commit_and_advance : MatchAggregate → World → Command
unfolding recalculate_schedule_if_moved announce
commit_and_advance a w = elim (commit a) [
  | err e ↦ err (w, match_error e)
  | ok a' ↦
      let saved = settle a' in
      elim (advance_from_match (save_match w a') saved) [
        | err (w', e) ↦ err (w', match_error e)
        | ok w' ↦
            ok (
              announce saved (pool_state a) (recalculate_schedule_if_moved saved (pool_state a) w'))
      ]
]

-- `commitResult`
unfoldable pub commit_result : World → ℕ → Command
unfolding commit_and_advance
commit_result w id = elim (load_match w id) [
  | none ↦ err (w, match_not_found id)
  | some a ↦
      if is_completed a
      then (elim (revert_from_match w a) [
        | err (w', e) ↦ err (w', match_error e)
        | ok w' ↦ commit_and_advance a w'
      ])
      else commit_and_advance a w
]
