-- ===== src/Scoring.antt =====
-- packages/scoring: the scoring systems that turn the scores of one round into points.
-- A percentage is a decimal(5,2) column, read here as its number of hundredths.
-- `recalc` mutates the standing objects of the array that it is given. A reference to such an object
-- is the object's position in that array, and the `points` fields are a store from references to
-- numbers. The result keeps the objects in their places: callers hand over a fresh filtered array,
-- so the order in which a sort leaves that array is seen by nobody.
pub mod Award
pub mod Points
pub mod Winner
pub mod Systems
use tournament_hub.Common.{
  ℕ, zero, suc, ◌+◌, ◌-◌, ◌≡◌, Bool, true, false, not, ◌||◌, List, [], ◌∷◌, ltb, ◌==◌,
  if◌then◌else◌, length, filter,
}
use tournament_hub.Common.Sort.{sort_by}

pub record ScoringScore : Type 0 where
  pub percentage : ℕ
  pub is_failed : Bool

pub record ScoringStanding : Type 0 where
  pub points : ℕ
  pub score : ScoringScore

-- A reference to a standing object, with the score that it holds.
pub record StandingRef : Type 0 where
  pub index : ℕ
  pub score : ScoringScore

abbrev pub PointStore : Type 0
PointStore = ℕ → ℕ

-- `standing.points = p`
abbrev pub write_points : PointStore → ℕ → ℕ → PointStore
write_points store i p j = if i == j then p else store j

unfoldable pub refs_from : ℕ → List ScoringStanding → List StandingRef
refs_from i [] = []
refs_from i (s ∷ rest) = record { index = i; score = s.score } ∷ refs_from (i + 1) rest

abbrev pub with_points : ScoringStanding → ℕ → ScoringStanding
with_points s p = record s { points = p }

-- The objects as the store leaves them.
unfoldable pub reload : PointStore → ℕ → List ScoringStanding → List ScoringStanding
reload store i [] = []
reload store i (s ∷ rest) = with_points s (store i) ∷ reload store (i + 1) rest

-- The comparator `Number(right.score.percentage) - Number(left.score.percentage)`.
abbrev pub higher : StandingRef → StandingRef → Bool
higher left right = ltb right.score.percentage left.score.percentage

abbrev pub is_eligible : Bool → ScoringScore → Bool
is_eligible include_fails score = include_fails || not score.is_failed

-- The inner `while`: the references that share the percentage, and those from `nextIndex` on.
unfoldable pub tie_run : ℕ → List StandingRef → List StandingRef × List StandingRef
tie_run percentage [] = ([], [])
tie_run percentage (r ∷ rest) =
    let run = tie_run percentage rest in
    if r.score.percentage == percentage then (r ∷ run.0, run.1) else ([], r ∷ rest)

-- The inner `for`: every reference of the run is given the points.
unfoldable pub write_all : List StandingRef → ℕ → PointStore → PointStore
write_all [] points store = store
write_all (r ∷ rest) points store = write_all rest points (write_points store r.index points)

-- The outer `for`, one run of equal percentages a round; each round consumes a reference.
unfoldable pub award_loop : ℕ → List StandingRef → ℕ → PointStore → PointStore
award_loop zero ranked points store = store
award_loop (suc fuel) [] points store = store
award_loop (suc fuel) (r ∷ rest) points store =
    let run = tie_run r.score.percentage rest in
    award_loop fuel run.1 (points - suc (length run.0)) (write_all (r ∷ run.0) points store)

unfoldable pub ranking : List ScoringStanding → Bool → List StandingRef
unfolding sort_by refs_from
ranking standings include_fails =
    sort_by higher (filter (λ r. is_eligible include_fails r.score) (refs_from 0 standings))

unfoldable pub award_placement_points : List ScoringStanding → Bool → List ScoringStanding
unfolding ranking award_loop tie_run write_all reload refs_from
award_placement_points standings include_fails =
    let ranked = ranking standings include_fails in
    reload (award_loop (length ranked) ranked (length standings) (λ _. 0)) 0 standings

-- `orderedStandings.forEach((standing, index) => standing.points = index === 0 ? 1 : 0)`
unfoldable pub winner_loop : ℕ → List StandingRef → PointStore → PointStore
winner_loop position [] store = store
winner_loop position (r ∷ rest) store =
    winner_loop (position + 1) rest (write_points store r.index (if position == 0 then 1 else 0))

unfoldable pub round_winner : List ScoringStanding → List ScoringStanding
unfolding winner_loop sort_by refs_from reload
round_winner standings =
    reload (winner_loop 0 (sort_by higher (refs_from 0 standings)) (λ _. 0)) 0 standings
