-- ===== src/Match/Model.antt =====
-- The entities of a match, as packages/persistence declares them, with the relations that the store
-- loads. An id is `none` until the row is saved; saved ids start at 1. A player and a song stand for
-- their ids. Of an entrant's participants only the first one's player is read.
use Prim.Native.String.{String}
use tournament_hub.Common.{ℕ, Bool, false, List, [], Option, none, some, ◌==◌}
use tournament_hub.Placement.{AdvancementRouting, MatchResultEntry, MatchPlacementTie}

pub record Score : Type 0 where
  pub id : Option ℕ
  pub percentage : ℕ
  pub is_failed : Bool
  pub player : Option ℕ
  pub song : Option ℕ

pub record Standing : Type 0 where
  pub id : Option ℕ
  pub player : ℕ
  pub score : Option Score
  pub points : ℕ

pub record Round : Type 0 where
  pub id : Option ℕ
  pub song : Option ℕ
  pub standings : List Standing

pub record MatchTiebreakStanding : Type 0 where
  pub player : ℕ
  pub score : Option Score
  pub manual_points : Option ℕ

pub record MatchTiebreak : Type 0 where
  pub id : Option ℕ
  pub sequence : ℕ
  pub invalidated : Bool
  pub song : Option ℕ
  pub standings : List MatchTiebreakStanding

pub record MatchResult : Type 0 where
  pub id : Option ℕ
  pub player_points : List MatchResultEntry

pub data EntrantType : Type 0 where
  player_entrant team_entrant : EntrantType

pub record Entrant : Type 0 where
  pub id : ℕ
  pub kind : EntrantType
  pub first_player : Option ℕ

pub record Match : Type 0 where
  pub id : ℕ
  pub name : Option String
  pub subtitle : Option String
  pub notes : Option String
  pub scoring_system : String
  pub active : Bool
  pub phase_group : Option ℕ
  pub entrants : List Entrant
  pub rounds : List Round
  pub tiebreaks : List MatchTiebreak
  pub match_result : Option MatchResult

pub record MatchRemovals : Type 0 where
  pub round_ids : List ℕ
  pub standing_ids : List ℕ
  pub tiebreak_ids : List ℕ
  pub match_result_id : Option ℕ

pub record MatchAggregate : Type 0 where
  pub match : Match
  pub advancement_rules : List AdvancementRouting
  pub removals : MatchRemovals

pub record MatchDetails : Type 0 where
  pub name : Option String
  pub subtitle : Option String
  pub notes : Option String
  pub scoring_system : Option String

-- The exceptions that the aggregate throws.
pub data MatchError : Type 0 where
  completed_not_editable reopen_before_activation : MatchError
  scored_by_hand already_has_songs : MatchError
  round_not_found round_holds_scores round_has_no_song round_is_computed : ℕ → MatchError
  score_does_not_match tie_not_ambiguous tiebreak_pending : MatchError
  tiebreak_not_found tiebreak_invalidated tiebreak_hand_scored tiebreak_song_scored : ℕ → MatchError
  not_in_tiebreak : ℕ → MatchError
  standings_missing : MatchError
  tiebreak_required_error : List MatchPlacementTie → MatchError
  unknown_scoring_system : String → MatchError

abbrev pub no_removals : MatchRemovals
no_removals = record {
  round_ids = [];
  standing_ids = [];
  tiebreak_ids = [];
  match_result_id = none;
}

-- `candidate.id === id`
abbrev pub has_id : Option ℕ → ℕ → Bool
has_id none i = false
has_id (some j) i = j == i
