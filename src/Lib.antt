-- ===== src/Lib.antt =====
-- Tournament Hub: a verification library beside the code of the tournament server.
--
-- The server runs tournaments of a rhythm game: divisions have phases, phases have groups, groups have
-- matches, and the result of a match advances its players to other matches. This library models the
-- part that decides matches. A model is a translation of the TypeScript source into functions by
-- clauses; classes whose methods mutate their fields are functions from the old state to the new one,
-- and a thrown exception is the `err` case of `Result`.
--
-- The parts and their files:
--
--   packages/scoring, the scoring systems of a round
--     Scoring           `awardPlacementPoints` (award_placement_points, with its three loops) and
--                       `RoundWinner.recalc` (round_winner)
--     Scoring/Systems   the provider and the type guard (get_scoring_system, recalc)
--     Scoring/Award, Scoring/Points, Scoring/Winner   what the systems give to a standing
--   apps/api/src/tournament/competition/match/placement.resolver.ts
--     Placement         point groups and tiebreaks (point_groups, split_group, apply_tiebreaks)
--     Placement/Materialize   placements, ambiguous ties, averages (resolve_placements)
--     Placement/Groups, Ranks, Players, Levels, Order, Ties, Reported   what the resolution guarantees
--   apps/api/src/tournament/competition/match/match.aggregate.ts
--     Match/Model       the entities of packages/persistence that the aggregate holds
--     Match/State       its reads (calculate_points, calculated_result_state, state, pool_state)
--     Match/Settle, Scores, Tiebreaks, Details   its mutators, named as in the class
--     Match/Lifecycle   commit and reopen
--     Match/Settled     the rounds and points that a result is calculated from
--     Match/Placed      the order of the entrants in a stored result
--     Match/Evidence, Sequence   what voids the tiebreaks, and how they follow each other
--     Match/Shapes, Invariant, Entrants, Rounds, Valid   the invariant
--   apps/api/src/tournament/competition/schedule
--     Schedule          schedule.aggregate.ts, its methods by their names
--     Schedule/Eligibility   schedule.eligibility.ts (evaluate_local_eligibility, evaluate_conflicts)
--     Schedule/Runner   schedule.runner.ts (recalculate_locked, with its loop `walk`)
--     Schedule/Walk, Activation, Valid   where the loop stops, what it activates, the invariant
--   packages/brackets
--     Bracket           the builder and `Manual.generate` (generate_manual), `nextPow2` (next_pow2)
--     Bracket/Elimination   `SingleElimination.generate` (generate_single)
--     Bracket/DoubleElimination   `DoubleElimination.generate` (generate_double)
--     Bracket/Power, Seats   what these guarantee
--   apps/api/src/tournament/structure/plan/structure-plan.validation.ts
--     Plan              `validateStructurePlan` and its parts (validate_structure_plan)
--     Plan/Writing      `orderedForWriting` (ordered_for_writing, with the visits)
--     Plan/Total, States, Order, Valid, Written, Sound   what these guarantee
--   apps/api/src/tournament/structure/phase-group
--     Pool              phase-group.aggregate.ts, its mutators by their names
--     Pool/Totals       pool-totals.ts, and the placements of a pool
--     Pool/Identifier   the name of a new pool (next_identifier, create)
--     Pool/Decimal, Fresh, Sums, Placements, Seats, Reseat, Valid, Moves   what these guarantee
--   apps/api/src/tournament/structure/advancement
--     Advancement       the rules and the world of stored rows, with load and save
--     Advancement/Rules   advancement-rule.validation.ts and `updateForSource`
--     Advancement/Runner   advancement.runner.ts (advance_from_match, revert_from_match)
--     Advancement/Guard   advancement-rollback.guard.ts (blocking_targets)
--     Advancement/Activity, Validation, Targets, Reach, Runs, Commit, Arrival, Arrived   what these guarantee
--   apps/api/src/tournament/competition/match/match.commands.ts
--     Commands          `commitResult` (commit_result)
--     Commands/Committed   what it does to a match without a result
--   apps/api/src/tournament/management/tournament.aggregate.ts
--     Tournament        its methods by their names, and `mergeRoles`
--     Tournament/Roles, Valid   the invariant of the participants
--   apps/api/src/tournament/structure/division/division.aggregate.ts
--     Division          its methods by their names
--     Division/Order, Seeding   the list of active entrants, the seeds, admission
--   apps/api/src/tournament/catalog/song-roller.ts
--     Catalog           `parseLevels` and `roll`
--     Catalog/Drawn     the songs drawn
--   apps/api/src/tournament/stats/division-placements.resolver.ts
--     Standings         `collectExits` and `bandRows` (collect_exits, band_rows), over a given graph
--     Standings/Bands, Nearest   the places of the rows, the exit of an entrant
--   Common              tests, lists, text, sorting and results that all of these share
--   Examples            runs on concrete data
--
-- How they interact: a mutator of the match aggregate ranks a round by the scoring system that the
-- provider returns for the name in the match; the points of the rounds, the tiebreaks and the outgoing
-- advancement rules go to the placement resolver; `commit` stores what the resolver returns. A schedule
-- reads the state of the matches: the runner goes through its entries, passes those whose match is
-- completed or ready, and activates the next. `commitResult` commits a match, saves it, and has the
-- runner of the advancement place the entrants, in the order of the result, in the matches and pools
-- that its rules target; a pool whose matches all have results then advances in the same way. Each save
-- of a target has the schedules recalculated, which makes matches active or inactive. The world of the
-- advancement does not hold the schedules: what their coming recalculations change is a list in the
-- world (coming), and the theorems on a world hold for every such list, but where they ask that none of
-- its changes activates a match with a result. Schedule/Activation is about what a recalculation does.
--
-- Numbers. A percentage is a decimal(5,2) column and stands as its number of hundredths. Points and ids
-- are natural numbers; a saved row has an id, and a new one has none. An average is a fraction and is
-- rounded exactly where the code rounds a floating-point number. `Array.prototype.sort` is stable, and
-- so is the insertion sort that stands for it.
--
-- Fuel. The outer loop of `awardPlacementPoints` consumes a reference in each round, so it has the
-- number of references as its fuel. `nextPow2` has its argument as fuel, since it doubles a number of at
-- least 1 in each round. The rounds of a single elimination halve the number of matches, and have that
-- number and one more as their fuel. A visit of a plan's node marks one more node before it goes to
-- the parent, so one more than the number of nodes is enough fuel; the plan is given four more than
-- that number. The search for the name of a pool passes over names that are taken, so one more than
-- their number is enough. The outer loop of `bandRows` takes an exit at least in each round, and has
-- their number as its fuel.
--
-- Not modelled: the database, the transport of messages, the controllers and queries, the integration
-- of start.gg, and the frontend; the default names of bracket matches; the commands of a match other
-- than `commitResult`; the graph from which the placements of a division are read; and the commands and
-- stores around the aggregates, but for load and save of a match and of a pool.
pub mod Common
pub mod Scoring
pub mod Placement
pub mod Match
pub mod Schedule
pub mod Bracket
pub mod Plan
pub mod Pool
pub mod Advancement
pub mod Tournament
pub mod Division
pub mod Catalog
pub mod Commands
pub mod Examples
pub mod Standings
