-- ===== src/Match/Settle.antt =====
-- How match.aggregate.ts ranks a round, and settles all rounds anew when the entrants change.
use Prim.Native.String.{String}
use tournament_hub.Common.{
  ℕ, Bool, true, false, not, List, [], ◌∷◌, ◌++◌, map, Option, none, some, ◌==◌, if◌then◌else◌,
  is_some, length, filter, any, find, Result, ok, err, ◌>>=◌, throw_if,
}
use tournament_hub.Scoring.{ScoringStanding}
use tournament_hub.Scoring.Systems.{get_scoring_system, recalc}
use tournament_hub.Match.Model.{
  Standing, Round, MatchTiebreak, Match, MatchAggregate, MatchError, completed_not_editable,
  round_not_found, unknown_scoring_system, has_id,
}
use tournament_hub.Match.State.{singles_player_ids, all_scored, is_completed}

-- Array helpers -----------------------------------------------------------------------------------

-- The object that `find` returns is mutated in place.
unfoldable pub update_first {ℓ} : {A : Type ℓ} → (A → Bool) → (A → A) → List A → List A
update_first p f [] = []
update_first p f (x ∷ rest) = if p x then f x ∷ rest else x ∷ update_first p f rest

-- `filter((candidate) => candidate !== found)` for the object that `find` returns.
unfoldable pub remove_first {ℓ} : {A : Type ℓ} → (A → Bool) → List A → List A
remove_first p [] = []
remove_first p (x ∷ rest) = if p x then rest else x ∷ remove_first p rest

-- `set.add(id)`, if there is an id.
unfoldable pub add_id : Option ℕ → List ℕ → List ℕ
add_id none ids = ids
add_id (some i) ids = if any (λ j. j == i) ids then ids else ids ++ i ∷ []

unfoldable pub add_ids : List Standing → List ℕ → List ℕ
unfolding add_id
add_ids [] ids = ids
add_ids (s ∷ rest) ids = add_ids rest (add_id s.id ids)

-- Reads of the aggregate --------------------------------------------------------------------------

abbrev pub with_match : MatchAggregate → Match → MatchAggregate
with_match a m = record a { match = m }

abbrev pub with_rounds : MatchAggregate → List Round → MatchAggregate
with_rounds a rounds = with_match a (record (a.match) { rounds = rounds })

abbrev pub is_round : ℕ → Round → Bool
is_round id r = has_id r.id id

unfoldable pub round_of : MatchAggregate → ℕ → Result MatchError Round
round_of a id = elim (find (is_round id) a.match.rounds) [
  | none ↦ err (round_not_found id)
  | some r ↦ ok r
]

unfoldable pub assert_editable : MatchAggregate → Result MatchError (Unit {0})
assert_editable a = throw_if (is_completed a) completed_not_editable

unfoldable pub invalidate_tiebreaks : MatchAggregate → MatchAggregate
invalidate_tiebreaks a = with_match a (record (a.match) {
  tiebreaks = map (λ (t : MatchTiebreak). record t { invalidated = true }) a.match.tiebreaks;
})

-- Ranking a round ---------------------------------------------------------------------------------

abbrev pub zero_points : Standing → Standing
zero_points s = record s { points = 0 }

-- `round.standings.filter(isPlayed)`, as the scoring systems read it.
unfoldable pub played : List Standing → List ScoringStanding
played [] = []
played (s ∷ rest) =
    let others = played rest in
    elim s.score [
      | none ↦ others
      | some score ↦
          record {
            points = s.points;
            score = record { percentage = score.percentage; is_failed = score.is_failed };
          }
          ∷ others
    ]

-- The played standings with the points that the scoring system has written into them.
unfoldable pub write_back : List Standing → List ScoringStanding → List Standing
write_back [] scored = []
write_back (s ∷ rest) [] = s ∷ rest
write_back (s ∷ rest) (t ∷ scored) =
    if is_some s.score
    then record s { points = t.points } ∷ write_back rest scored
    else s ∷ write_back rest (t ∷ scored)

unfoldable pub is_round_complete : List ℕ → Round → Bool
is_round_complete players round = if length players == 0 then false else all_scored players round

unfoldable pub rank_if_complete : String → List ℕ → Round → Result MatchError Round
rank_if_complete system players round =
    if is_round_complete players round
    then elim (get_scoring_system system) [
      | none ↦ err (unknown_scoring_system system)
      | some t ↦ ok (record round {
        standings = write_back round.standings (recalc t (played round.standings));
      })
    ]
    else ok round

-- `resettle` for one round: standings of players who left go, and the rest is ranked anew.
abbrev pub stays : List ℕ → Standing → Bool
stays players s = any (λ p. p == s.player) players

abbrev pub keep_standings : List ℕ → Round → Round
keep_standings players round = record round { standings = filter (stays players) round.standings }

unfoldable pub resettle_round : String → List ℕ → Round → Result MatchError Round
resettle_round system players round =
    let kept = keep_standings players round in
    elim round.song [
      | none ↦ ok kept
      | some song ↦
          if is_round_complete players kept
          then rank_if_complete system players kept
          else ok (record kept { standings = map zero_points kept.standings })
    ]

unfoldable pub resettle_rounds : String → List ℕ → List Round → Result MatchError (List Round)
resettle_rounds system players [] = ok []
resettle_rounds system players (round ∷ rest) = do
  r ← resettle_round system players round
  others ← resettle_rounds system players rest
  ok (r ∷ others)

-- The standing ids that `resettle` records, round by round.
unfoldable pub dropped_ids : List ℕ → List Round → List ℕ → List ℕ
dropped_ids players [] ids = ids
dropped_ids players (round ∷ rest) ids =
    dropped_ids players rest (add_ids (filter (λ s. not (stays players s)) round.standings) ids)

unfoldable pub resettle : MatchAggregate → Result MatchError MatchAggregate
resettle a = do
  let a' = invalidate_tiebreaks a
  let players = singles_player_ids a.match
  rounds ← resettle_rounds a.match.scoring_system players a.match.rounds
  ok (record (with_rounds a' rounds) {
    removals = record (a.removals) {
      standing_ids = dropped_ids players a.match.rounds a.removals.standing_ids;
    };
  })
