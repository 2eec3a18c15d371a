-- ===== src/Match/Tiebreaks.antt =====
-- The tiebreaks of match.aggregate.ts, and `commit` and `reopen`.
use tournament_hub.Common.{
  ℕ, ◌+◌, Bool, true, false, not, ◌&&◌, List, [], ◌∷◌, ◌++◌, map, Option, none, some, ltb, ◌==◌,
  if◌then◌else◌, is_some, length, any, find, max, Result, ok, err, ◌>>=◌, ◌>>◌, throw_if,
}
use tournament_hub.Common.Sort.{sort_by}
use tournament_hub.Placement.{MatchResultEntry, MatchPlacementTie}
use tournament_hub.Match.Model.{
  Score, MatchTiebreakStanding, MatchTiebreak, Entrant, Match, MatchAggregate, MatchError,
  score_does_not_match, tie_not_ambiguous, tiebreak_pending, tiebreak_not_found,
  tiebreak_invalidated, tiebreak_hand_scored, tiebreak_song_scored, not_in_tiebreak,
  standings_missing, tiebreak_required_error, has_id,
}
use tournament_hub.Match.State.{
  incomplete, tiebreak_required, is_tiebreak_complete, calculated_result_state, result_state,
}
use tournament_hub.Match.Settle.{update_first, remove_first, add_id, with_match, assert_editable}
use tournament_hub.Match.Scores.{score_fits}

-- `sameIds`: equal lengths, and the sorted left ids are the right ids.
unfoldable pub same_list : List ℕ → List ℕ → Bool
same_list [] [] = true
same_list [] (b ∷ right) = false
same_list (a ∷ left) [] = false
same_list (a ∷ left) (b ∷ right) = (a == b) && same_list left right

unfoldable pub same_ids : List ℕ → List ℕ → Bool
unfolding same_list sort_by
same_ids left right = (length left == length right) && same_list (sort_by ltb left) right

abbrev pub with_tiebreaks : MatchAggregate → List MatchTiebreak → MatchAggregate
with_tiebreaks a tiebreaks = with_match a (record (a.match) { tiebreaks = tiebreaks })

abbrev pub is_pending : MatchTiebreak → Bool
is_pending t = not t.invalidated && not (is_tiebreak_complete t)

-- `reduce((maximum, candidate) => Math.max(maximum, candidate.sequence), 0)`
unfoldable pub last_sequence : ℕ → List MatchTiebreak → ℕ
last_sequence maximum [] = maximum
last_sequence maximum (t ∷ rest) = last_sequence (max maximum t.sequence) rest

abbrev pub fresh_standing : Option ℕ → ℕ → MatchTiebreakStanding
fresh_standing song player = record {
  player = player;
  score = none;
  manual_points = if is_some song then none else some 0;
}

unfoldable pub add_tiebreak :
    MatchAggregate → Option ℕ → List ℕ → Result MatchError (MatchAggregate × MatchTiebreak)
add_tiebreak a song players = do
  assert_editable a
  let requested = sort_by ltb players
  throw_if
      (not (
        any (λ (t : MatchPlacementTie). same_ids t.player_ids requested)
          (result_state a).ambiguous_ties))
      tie_not_ambiguous
  throw_if (any is_pending a.match.tiebreaks) tiebreak_pending
  let tiebreak : MatchTiebreak = record {
    id = none;
    sequence = last_sequence 0 a.match.tiebreaks + 1;
    invalidated = false;
    song = song;
    standings = map (fresh_standing song) players;
  }
  ok (with_tiebreaks a (a.match.tiebreaks ++ tiebreak ∷ []), tiebreak)

abbrev pub is_tiebreak : ℕ → MatchTiebreak → Bool
is_tiebreak id t = has_id t.id id

unfoldable pub tiebreak_of : MatchAggregate → ℕ → Result MatchError MatchTiebreak
tiebreak_of a id = elim (find (is_tiebreak id) a.match.tiebreaks) [
  | none ↦ err (tiebreak_not_found id)
  | some t ↦ ok t
]

unfoldable pub remove_tiebreak : MatchAggregate → ℕ → Result MatchError MatchAggregate
remove_tiebreak a id = do
  tiebreak ← tiebreak_of a id
  ok (record (with_tiebreaks a (remove_first (is_tiebreak id) a.match.tiebreaks)) {
    removals = record (a.removals) { tiebreak_ids = add_id tiebreak.id a.removals.tiebreak_ids };
  })

abbrev pub is_standing_of : ℕ → MatchTiebreakStanding → Bool
is_standing_of player s = s.player == player

-- `tiebreakStandingOf`, for its exception.
unfoldable pub assert_in_tiebreak : MatchTiebreak → ℕ → Result MatchError (Unit {0})
assert_in_tiebreak t player =
    throw_if (not (any (is_standing_of player) t.standings)) (not_in_tiebreak player)

-- The standing object of the player is given a score and points.
abbrev pub write_tiebreak :
    MatchAggregate → ℕ → MatchTiebreak → ℕ → Option Score → Option ℕ → MatchAggregate
write_tiebreak a id t player score points =
    let standings =
      update_first (is_standing_of player)
        (λ (s : MatchTiebreakStanding). record s { score = score; manual_points = points })
        t.standings in
    with_tiebreaks a (
      update_first (is_tiebreak id) (λ (u : MatchTiebreak). record u { standings = standings })
        a.match.tiebreaks)

unfoldable pub upsert_tiebreak_score :
    MatchAggregate → ℕ → ℕ → Score → Result MatchError MatchAggregate
upsert_tiebreak_score a id player score = do
  t ← tiebreak_of a id
  throw_if t.invalidated (tiebreak_invalidated id)
  song ← elim t.song [ none ↦ err (tiebreak_hand_scored id) | some s ↦ ok s ]
  throw_if (not (score_fits score player song)) score_does_not_match
  assert_in_tiebreak t player
  ok (write_tiebreak a id t player (some score) none)

unfoldable pub upsert_tiebreak_points :
    MatchAggregate → ℕ → ℕ → ℕ → Result MatchError MatchAggregate
upsert_tiebreak_points a id player points = do
  t ← tiebreak_of a id
  throw_if t.invalidated (tiebreak_invalidated id)
  throw_if (is_some t.song) (tiebreak_song_scored id)
  assert_in_tiebreak t player
  ok (write_tiebreak a id t player none (some points))

unfoldable pub clear_tiebreak_standing : MatchAggregate → ℕ → ℕ → Result MatchError MatchAggregate
clear_tiebreak_standing a id player = do
  t ← tiebreak_of a id
  assert_in_tiebreak t player
  ok (write_tiebreak a id t player none (if is_some t.song then none else some 0))

-- `this.match.matchResult ?? new MatchResult()`
abbrev pub result_id : Match → Option ℕ
result_id m = elim m.match_result [ none ↦ none | some r ↦ r.id ]

unfoldable pub commit : MatchAggregate → Result MatchError MatchAggregate
commit a =
    let s = calculated_result_state a in
    elim s.status [
      | incomplete ↦ err standings_missing
      | tiebreak_required ↦ err (tiebreak_required_error s.ambiguous_ties)
      | _ ↦ ok (
          with_match a (record (a.match) {
            match_result = some (record { id = result_id a.match; player_points = s.entries });
            active = false;
          }))
    ]

unfoldable pub reopen : MatchAggregate → MatchAggregate
reopen a = record (with_match a (record (a.match) { match_result = none; active = false })) {
  removals = record (a.removals) {
    match_result_id = elim (result_id a.match) [
      | none ↦ a.removals.match_result_id
      | some i ↦ some i
    ];
  };
}

-- The index of the player's entry in the result: the last one, as in the map that is built.
unfoldable pub placed_index : ℕ → ℕ → List MatchResultEntry → Option ℕ
placed_index player i [] = none
placed_index player i (e ∷ rest) =
    let later = placed_index player (i + 1) rest in
    if is_some later then later else if e.player_id == player then some i else none

abbrev pub entrant_index : List MatchResultEntry → Entrant → Option ℕ
entrant_index entries e = elim e.first_player [ none ↦ none | some p ↦ placed_index p 0 entries ]

-- The comparator, with `Number.MAX_SAFE_INTEGER` for who is not in the result.
abbrev pub comes_before : List MatchResultEntry → Entrant → Entrant → Bool
comes_before entries left right = elim (entrant_index entries left) [
  | none ↦ false
  | some i ↦ elim (entrant_index entries right) [ none ↦ true | some j ↦ ltb i j ]
]

unfoldable pub entrants_by_placement : MatchAggregate → List Entrant
entrants_by_placement a =
    sort_by (comes_before (elim a.match.match_result [ none ↦ [] | some r ↦ r.player_points ]))
      a.match.entrants
