-- ===== src/Scoring/Systems.antt =====
-- scoring-system-provider.ts and scoring-system-type.ts: the systems by their names.
use Prim.Native.String.{String}
use text.Mathlib.Text.{◌==◌ as str_eq}
use text.Mathlib.TextEquality.{eq_iff}
use tournament_hub.Common.{
  ◌≡◌, refl, ap, ◌↔◌, arith, ℕ, ◌+◌, Bool, true, false, List, [], ◌∷◌, Option, some, none, any,
  find, if◌then◌else◌, map,
}
use tournament_hub.Scoring
use tournament_hub.Scoring.{ScoringStanding, ScoringScore, PointStore, reload, with_points}

pub data ScoringSystemType : Type 0 where
  placement_points_with_fail_zero placement_points_including_fails round_winner : ScoringSystemType

abbrev pub get_name : ScoringSystemType → String
get_name placement_points_with_fail_zero = "PlacementPointsWithFailZero"
get_name placement_points_including_fails = "PlacementPointsIncludingFails"
get_name round_winner = "RoundWinner"

-- The keys of the provider's map, in insertion order.
abbrev pub get_all : List ScoringSystemType
get_all = placement_points_with_fail_zero ∷ placement_points_including_fails ∷ round_winner ∷ []

unfoldable pub is_scoring_system_type : String → Bool
is_scoring_system_type value = any (λ t. str_eq (get_name t) value) get_all

unfoldable pub get_scoring_system : String → Option ScoringSystemType
unfolding is_scoring_system_type
get_scoring_system name =
    if is_scoring_system_type name then find (λ t. str_eq (get_name t) name) get_all else none

-- `recalc` of each system.
unfoldable pub recalc : ScoringSystemType → List ScoringStanding → List ScoringStanding
recalc placement_points_with_fail_zero standings = Scoring.award_placement_points standings false
recalc placement_points_including_fails standings = Scoring.award_placement_points standings true
recalc round_winner standings = Scoring.round_winner standings

get_scoring_system_sound :
    (name : String) (t : ScoringSystemType) → get_scoring_system name ≡ some t → get_name t ≡ name
unfolding get_scoring_system
get_scoring_system_sound name t h = ground (
  arith,
  eq_iff (get_name placement_points_with_fail_zero) name,
  eq_iff (get_name placement_points_including_fails) name,
  eq_iff (get_name round_winner) name,
)

get_scoring_system-get_name : (t : ScoringSystemType) → get_scoring_system (get_name t) ≡ some t
unfolding get_scoring_system
get_scoring_system-get_name placement_points_with_fail_zero = refl
get_scoring_system-get_name placement_points_including_fails = refl
get_scoring_system-get_name round_winner = refl

-- The provider returns a system for exactly the names that the systems report, each its own.
get_scoring_system_iff :
    (name : String) (t : ScoringSystemType)
    → (get_scoring_system name ≡ some t) ↔ (get_name t ≡ name)
get_scoring_system_iff name t =
    (get_scoring_system_sound name t, λ e. rw e at (get_scoring_system-get_name t))

reload_scores :
    (store : PointStore) (k : ℕ) (standings : List ScoringStanding)
    → map (λ s. s.score) (reload store k standings) ≡ map (λ s. s.score) standings
unfolding reload
reload_scores store k [] = refl
reload_scores store k (s ∷ rest) = ap (◌∷◌ s.score) (reload_scores store (k + 1) rest)

-- Every system leaves the scores, their number and their order alone.
pub recalc_scores :
    (t : ScoringSystemType) (standings : List ScoringStanding)
    → map (λ s. s.score) (recalc t standings) ≡ map (λ s. s.score) standings
unfolding recalc reload Scoring.award_placement_points Scoring.round_winner
recalc_scores placement_points_with_fail_zero standings = reload_scores _ 0 standings
recalc_scores placement_points_including_fails standings = reload_scores _ 0 standings
recalc_scores round_winner standings = reload_scores _ 0 standings
