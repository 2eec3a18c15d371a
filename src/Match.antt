-- ===== src/Match.antt =====
-- competition/match/match.aggregate.ts: one match with its entrants, rounds, tiebreaks and result.
-- `Model` has the entities, `State` what the aggregate reads off them, `Scores` and `Tiebreaks` its
-- mutators; the other children prove what holds of them.
-- A mutator takes the aggregate and returns the new one, or the exception; an aggregate whose mutator
-- throws is dropped, as by the commands, which save only at their end.
pub mod Model
pub mod State
pub mod Settle
pub mod Scores
pub mod Tiebreaks
pub mod Details
pub mod Placed
pub mod Settled
pub mod Lifecycle
pub mod Evidence
pub mod Shapes
pub mod Invariant
pub mod Entrants
pub mod Rounds
pub mod Valid
pub mod Sequence
