-- ===== src/Match/Scores.antt =====
-- The mutators of match.aggregate.ts that change entrants, rounds and standings.
use Prim.Native.String.{String}
use text.Mathlib.Text.{◌==◌ as str_eq}
use tournament_hub.Common.{
  ℕ, ◌-◌, Bool, true, false, not, ◌&&◌, List, [], ◌∷◌, ◌++◌, map, Option, none, some, ltb, leb,
  ◌==◌, if◌then◌else◌, is_some, length, filter, any, find, take, drop, Result, ok, err, ◌>>=◌, ◌>>◌,
  throw_if,
}
use tournament_hub.Match.Model.{
  Score, Standing, Round, Entrant, MatchAggregate, MatchError, reopen_before_activation,
  scored_by_hand, already_has_songs, round_holds_scores, round_has_no_song, round_is_computed,
  score_does_not_match, has_id,
}
use tournament_hub.Match.Settle.{
  update_first, remove_first, add_id, with_match, with_rounds, is_round, round_of,
  invalidate_tiebreaks, zero_points, rank_if_complete, resettle,
}
use tournament_hub.Match.State.{is_of, singles_player_ids, is_completed}

-- Entrants ----------------------------------------------------------------------------------------

abbrev pub with_entrants : MatchAggregate → List Entrant → MatchAggregate
with_entrants a entrants = with_match a (record (a.match) { entrants = entrants })

unfoldable pub change_scoring_system : MatchAggregate → String → Result MatchError MatchAggregate
change_scoring_system a system =
    if str_eq system a.match.scoring_system
    then ok a
    else resettle (with_match a (record (a.match) { scoring_system = system }))

unfoldable pub replace_entrants : MatchAggregate → List Entrant → Result MatchError MatchAggregate
replace_entrants a entrants = resettle (with_entrants a entrants)

abbrev pub is_entrant : ℕ → Entrant → Bool
is_entrant id e = e.id == id

unfoldable pub add_entrant : MatchAggregate → Entrant → Result MatchError (MatchAggregate × Bool)
add_entrant a entrant =
    if any (is_entrant entrant.id) a.match.entrants
    then ok (a, false)
    else (do a' ← resettle (with_entrants a (a.match.entrants ++ entrant ∷ [])); ok (a', true))

unfoldable pub remove_entrant : MatchAggregate → ℕ → Result MatchError (MatchAggregate × Bool)
remove_entrant a id =
    let remaining = filter (λ e. not (is_entrant id e)) a.match.entrants in
    if length remaining == length a.match.entrants
    then ok (a, false)
    else (do a' ← resettle (with_entrants a remaining); ok (a', true))

-- `splice(index, 0, entrant)`, or a push past the end.
unfoldable pub place_entrant : MatchAggregate → Entrant → ℕ → Result MatchError MatchAggregate
place_entrant a entrant slot =
    let others = filter (λ e. not (is_entrant entrant.id e)) a.match.entrants in
    let index = slot - 1 in
    resettle (
      with_entrants a (
        if leb (length others) index
        then others ++ entrant ∷ []
        else take index others ++ (entrant ∷ drop index others)))

-- Rounds and standings ----------------------------------------------------------------------------

unfoldable pub activate : MatchAggregate → Bool → Result MatchError MatchAggregate
activate a active =
    if active && is_completed a
    then err reopen_before_activation
    else ok (with_match a (record (a.match) { active = active }))

unfoldable pub assert_round_source_allowed : MatchAggregate → Bool → Result MatchError (Unit {0})
assert_round_source_allowed a wants_song =
    if wants_song && any (λ (r : Round). not (is_some r.song)) a.match.rounds
    then err scored_by_hand
    else throw_if (not wants_song && ltb 0 (length a.match.rounds)) already_has_songs

unfoldable pub add_round : MatchAggregate → Option ℕ → MatchAggregate
add_round a song =
    let a' = invalidate_tiebreaks a in
    with_rounds a' (a.match.rounds ++ record { id = none; song = song; standings = [] } ∷ [])

unfoldable pub remove_round : MatchAggregate → ℕ → Result MatchError MatchAggregate
remove_round a id = do
  round ← round_of a id
  throw_if (ltb 0 (length round.standings) && is_some round.song) (round_holds_scores id)
  ok (
      invalidate_tiebreaks
        (record (with_rounds a (filter (λ r. not (is_round id r)) a.match.rounds)) {
          removals = record (a.removals) { round_ids = add_id (some id) a.removals.round_ids };
        }))

unfoldable pub write_standing : Round → ℕ → Option Score → ℕ → Round
write_standing round player score points = record round {
  standings =
      if any (is_of player) round.standings
      then update_first (is_of player)
          (λ (s : Standing). record s { player = player; score = score; points = points })
          round.standings
      else round.standings
        ++ record { id = none; player = player; score = score; points = points } ∷ [];
}

-- The score belongs to the player and to the song of the round.
abbrev pub score_fits : Score → ℕ → ℕ → Bool
score_fits score player song = has_id score.player player && has_id score.song song

abbrev pub replace_round : MatchAggregate → ℕ → Round → MatchAggregate
replace_round a id round = with_rounds a (update_first (is_round id) (λ _. round) a.match.rounds)

unfoldable pub upsert_score : MatchAggregate → ℕ → ℕ → Score → Result MatchError MatchAggregate
upsert_score a round_id player score = do
  round ← round_of a round_id
  song ← elim round.song [ none ↦ err (round_has_no_song round_id) | some s ↦ ok s ]
  throw_if (not (score_fits score player song)) score_does_not_match
  ranked ←
      rank_if_complete a.match.scoring_system (singles_player_ids a.match)
        (write_standing round player (some score) 0)
  ok (invalidate_tiebreaks (replace_round a round_id ranked))

unfoldable pub upsert_points : MatchAggregate → ℕ → ℕ → ℕ → Result MatchError MatchAggregate
upsert_points a round_id player points = do
  round ← round_of a round_id
  throw_if (is_some round.song) (round_is_computed round_id)
  ok (invalidate_tiebreaks (replace_round a round_id (write_standing round player none points)))

-- The round without the player's standing; the points of a song round are void then.
unfoldable pub left_round : Round → ℕ → Round
left_round round player =
    let left = remove_first (is_of player) round.standings in
    record round { standings = if is_some round.song then map zero_points left else left }

unfoldable pub remove_standing : MatchAggregate → ℕ → ℕ → Result MatchError MatchAggregate
remove_standing a round_id player = do
  round ← round_of a round_id
  elim (find (is_of player) round.standings) [
    | none ↦ ok a
    | some standing ↦ ok (
        invalidate_tiebreaks (record (replace_round a round_id (left_round round player)) {
          removals = record (a.removals) {
            standing_ids = add_id standing.id a.removals.standing_ids;
          };
        }))
  ]
