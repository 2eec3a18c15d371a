-- ===== src/Match/State.antt =====
-- What the aggregate reads off a match: its points, its result state and its state.
use tournament_hub.Common.{
  ℕ, suc, ◌+◌, Bool, true, false, not, ◌&&◌, ◌||◌, List, [], ◌∷◌, map, Option, none, some, ltb,
  ◌==◌, if◌then◌else◌, or_else, is_some, length, filter, any, all, find,
}
use mathlib.Core.List.{flatten}
use tournament_hub.Placement.{
  AdvancementRouting, TiebreakEntry, TiebreakPlacementInput, Average, PlacementPointEntry,
  MatchResultEntry, MatchPlacementTie,
}
use tournament_hub.Placement.Materialize.{is_match, resolve_placements}
use tournament_hub.Match.Model.{
  Standing, Round, MatchTiebreakStanding, MatchTiebreak, EntrantType, player_entrant, team_entrant,
  Entrant, Match, MatchAggregate,
}

pub data ResultStatus : Type 0 where
  incomplete tiebreak_required ready completed : ResultStatus

pub record MatchResultState : Type 0 where
  pub status : ResultStatus
  pub entries : List MatchResultEntry
  pub ambiguous_ties : List MatchPlacementTie

pub data MatchState : Type 0 where
  open_state partial_state ready_state tiebreak_required_state completed_state : MatchState

abbrev pub is_player_entrant : EntrantType → Bool
is_player_entrant player_entrant = true
is_player_entrant team_entrant = false

-- The players of the singles entrants, in order.
unfoldable pub players_of : List Entrant → List ℕ
players_of [] = []
players_of (entrant ∷ rest) =
    let others = players_of rest in
    if is_player_entrant entrant.kind
    then elim entrant.first_player [ none ↦ others | some p ↦ p ∷ others ]
    else others

abbrev pub singles_player_ids : Match → List ℕ
singles_player_ids m = players_of m.entrants

abbrev pub is_of : ℕ → Standing → Bool
is_of player s = s.player == player

-- The percentages of the player's scores that were played and not failed.
unfoldable pub percentages_of : ℕ → List Standing → List ℕ
percentages_of player [] = []
percentages_of player (s ∷ rest) =
    let others = percentages_of player rest in
    elim s.score [
      | none ↦ others
      | some score ↦
          if is_of player s && not score.is_failed then score.percentage ∷ others else others
    ]

unfoldable pub sum : List ℕ → ℕ
sum [] = 0
sum (x ∷ rest) = x + sum rest

unfoldable pub average_percentage_of : List Round → ℕ → Option Average
unfolding percentages_of sum
average_percentage_of rounds player =
    elim (percentages_of player (flatten (map (λ (r : Round). r.standings) rounds))) [
      | [] ↦ none
      | p ∷ rest ↦ some (record { total = p + sum rest; scores = suc (length rest) })
    ]

-- `standing?.points ?? 0` of the first standing of the player.
unfoldable pub points_in : ℕ → Round → ℕ
points_in player round = elim (find (is_of player) round.standings) [ none ↦ 0 | some s ↦ s.points ]

unfoldable pub total_points : ℕ → List Round → ℕ
unfolding points_in
total_points player [] = 0
total_points player (round ∷ rest) = points_in player round + total_points player rest

abbrev pub all_scored : List ℕ → Round → Bool
all_scored players round = all (λ p. any (is_of p) round.standings) players

-- A song round needs a standing for every player, a hand-scored round some points.
abbrev pub is_settled : List ℕ → Round → Bool
is_settled players round = elim round.song [
  | some song ↦ all_scored players round
  | none ↦ any (λ (s : Standing). ltb 0 s.points) round.standings
]

unfoldable pub calculate_points : Match → Option (List PlacementPointEntry)
calculate_points m =
    let players = singles_player_ids m in
    if (length players == 0) || (length m.rounds == 0)
    then none
    else if all (is_settled players) m.rounds
    then some (
        map
          (λ p. record {
            player_id = p;
            points = total_points p m.rounds;
            average_percentage = average_percentage_of m.rounds p;
          })
          players)
    else none

unfoldable pub is_tiebreak_complete : MatchTiebreak → Bool
is_tiebreak_complete tiebreak =
    if ltb (length tiebreak.standings) 2 then false else elim tiebreak.song [
      | some song ↦ all (λ (s : MatchTiebreakStanding). is_some s.score) tiebreak.standings
      | none ↦
          any (λ (s : MatchTiebreakStanding). ltb 0 (or_else s.manual_points 0)) tiebreak.standings
    ]

abbrev pub tiebreak_entry : Bool → MatchTiebreakStanding → TiebreakEntry
tiebreak_entry played s = record {
  player_id = s.player;
  value =
      if played
      then some (elim s.score [ none ↦ 0 | some score ↦ score.percentage ])
      else s.manual_points;
  is_failed =
      if played then elim s.score [ none ↦ none | some score ↦ some score.is_failed ] else none;
}

unfoldable pub tiebreak_placement_inputs : List MatchTiebreak → List TiebreakPlacementInput
tiebreak_placement_inputs = map (λ (t : MatchTiebreak). record {
  id = or_else t.id 0;
  sequence = t.sequence;
  invalidated = t.invalidated;
  complete = is_tiebreak_complete t;
  entries = map (tiebreak_entry (is_some t.song)) t.standings;
})

unfoldable pub outgoing_advancement_rules : MatchAggregate → List AdvancementRouting
outgoing_advancement_rules a =
    filter (λ r. is_match r.source_kind && (r.source_id == a.match.id)) a.advancement_rules

abbrev pub resolution_status : List MatchPlacementTie → ResultStatus
resolution_status ties = if ltb 0 (length ties) then tiebreak_required else ready

-- The two returns of `calculatedResultState`.
unfoldable pub result_from :
    Option (List PlacementPointEntry)
    → List TiebreakPlacementInput
    → List AdvancementRouting
    → MatchResultState
result_from none tiebreaks rules = record { status = incomplete; entries = []; ambiguous_ties = [] }
result_from (some points) tiebreaks rules =
    let resolution = resolve_placements points tiebreaks rules in
    record {
      status = resolution_status resolution.ambiguous_ties;
      entries = resolution.entries;
      ambiguous_ties = resolution.ambiguous_ties;
    }

unfoldable pub calculated_result_state : MatchAggregate → MatchResultState
calculated_result_state a =
    result_from (calculate_points a.match) (tiebreak_placement_inputs a.match.tiebreaks)
      (outgoing_advancement_rules a)

unfoldable pub result_state : MatchAggregate → MatchResultState
result_state a = elim a.match.match_result [
  | some result ↦ record { status = completed; entries = result.player_points; ambiguous_ties = [] }
  | none ↦ calculated_result_state a
]

abbrev pub is_completed : MatchAggregate → Bool
is_completed a = is_some a.match.match_result

unfoldable pub has_evidence : Match → Bool
has_evidence m =
    any (λ (r : Round). any (λ (s : Standing). is_some s.score || ltb 0 s.points) r.standings)
      m.rounds

unfoldable pub state : MatchAggregate → MatchState
state a = if is_completed a then completed_state else elim ((calculated_result_state a).status) [
  | ready ↦ ready_state
  | tiebreak_required ↦ tiebreak_required_state
  | _ ↦ if has_evidence a.match then partial_state else open_state
]

pub record MatchPoolState : Type 0 where
  pub is_completed : Bool
  pub awaiting_commit : Bool
  pub awaiting_resolution : Bool
  pub progressed : Bool

unfoldable pub pool_state : MatchAggregate → MatchPoolState
pool_state a = elim (state a) [
  | completed_state ↦ record {
    is_completed = true;
    awaiting_commit = false;
    awaiting_resolution = false;
    progressed = true;
  }
  | ready_state ↦ record {
    is_completed = false;
    awaiting_commit = true;
    awaiting_resolution = true;
    progressed = true;
  }
  | tiebreak_required_state ↦ record {
    is_completed = false;
    awaiting_commit = false;
    awaiting_resolution = true;
    progressed = true;
  }
  | partial_state ↦ record {
    is_completed = false;
    awaiting_commit = false;
    awaiting_resolution = false;
    progressed = true;
  }
  | open_state ↦ record {
    is_completed = false;
    awaiting_commit = false;
    awaiting_resolution = false;
    progressed = false;
  }
]
