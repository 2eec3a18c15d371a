-- ===== src/Match/Rounds.antt =====
-- The invariant of a match under the mutators of rounds and standings.
use tournament_hub.Common.{
  ℕ, ◌≡◌, ap, subst, inl, inr, Bool, true, false, not, ◌&&◌, List, [], ◌∷◌, ◌++◌, Option,
  Option-cases, none, some, arith, Bool-cases, is_some, All, All-append, All-filter, find, filter,
  length, ok, err, >>=-eq-ok, ok_injective, throw_if, ltb,
}
use tournament_hub.Match.Model.{
  score_does_not_match, round_not_found, round_holds_scores, round_is_computed, Score, Round,
  MatchAggregate,
}
use tournament_hub.Match.State.{is_of, singles_player_ids}
use tournament_hub.Match.Settle.{
  update_first, remove_first, is_round, round_of, invalidate_tiebreaks, rank_if_complete,
}
use tournament_hub.Match.Scores.{
  add_round, remove_round, write_standing, upsert_score, upsert_points, remove_standing,
  replace_round, score_fits, left_round,
}
use tournament_hub.Match.Shapes.{
  OkRound, OkStandings-remove_first, OkStandings-zero, write_standing-OkRound, Alike-OkRound,
  rank_if_complete-Alike,
}
use tournament_hub.Match.Invariant.{IsValid, Unmoved, IsValid-to}

-- Rounds found by their id, and replaced.
pub round_of-OkRound :
    (a : MatchAggregate) (id : ℕ) (round : Round)
    → round_of a id ≡ ok round
    → All OkRound a.match.rounds
    → OkRound round
unfolding round_of
round_of-OkRound a id round h v = found a.match.rounds h v
  where
    found :
        (l : List Round)
        → elim (find (is_round id) l) [ none ↦ err (round_not_found id) | some r ↦ ok r ] ≡ ok round
        → All OkRound l
        → OkRound round
    found [] h v = cc
    found (r ∷ l) h v = elim (Bool-cases (is_round id r)) [
      | inl e ↦ subst OkRound (ok_injective (rw e at h)) v.0
      | inr e ↦ found l (rw e at h) v.1
    ]

pub update_first-OkRound :
    (id : ℕ) (round : Round) (l : List Round)
    → OkRound round
    → All OkRound l
    → All OkRound (update_first (is_round id) (λ _. round) l)
unfolding update_first
update_first-OkRound id round [] h v = tt
update_first-OkRound id round (r ∷ l) h v = elim (Bool-cases (is_round id r)) [
  | inl e ↦ rw e (h, v.1)
  | inr e ↦ rw e (v.0, update_first-OkRound id round l h v.1)
]

pub add_round-IsValid :
    (a a' : MatchAggregate) (song : Option ℕ) → add_round a song ≡ a' → IsValid a → IsValid a'
unfolding add_round invalidate_tiebreaks Unmoved
add_round-IsValid a a' song h v =
    let new : Round = record { id = none; song = song; standings = [] } in
    IsValid-to a a' (a.match.rounds ++ new ∷ []) (cc, cc) (cc)
      (All-append OkRound a.match.rounds (new ∷ []) v.rounds (tt, tt)) v

pub remove_round-IsValid :
    (a a' : MatchAggregate) (id : ℕ) → remove_round a id ≡ ok a' → IsValid a → IsValid a'
unfolding remove_round invalidate_tiebreaks Unmoved
remove_round-IsValid a a' id h v =
    let (round, located, h') = >>=-eq-ok (round_of a id) _ h in
    let (_, allowed, e) =
      >>=-eq-ok
        (throw_if (ltb 0 (length round.standings) && is_some round.song) (round_holds_scores id)) _
        h' in
    let kept : Round → Bool = λ r. not (is_round id r) in
    IsValid-to a a' (filter kept a.match.rounds) (cc, cc) (cc)
      (All-filter OkRound kept a.match.rounds v.rounds) v

-- Writing one round in order, the tiebreaks voided.
pub written_round-IsValid :
    (a a' : MatchAggregate) (id : ℕ) (round : Round)
    → invalidate_tiebreaks (replace_round a id round) ≡ a'
    → OkRound round
    → IsValid a
    → IsValid a'
unfolding invalidate_tiebreaks Unmoved
written_round-IsValid a a' id round h r v =
    IsValid-to a a' (update_first (is_round id) (λ _. round) a.match.rounds) (cc, cc) (cc)
      (update_first-OkRound id round a.match.rounds r v.rounds) v

pub upsert_points-IsValid :
    (a a' : MatchAggregate) (id player points : ℕ)
    → upsert_points a id player points ≡ ok a'
    → IsValid a
    → IsValid a'
unfolding upsert_points
upsert_points-IsValid a a' id player points h v =
    let (round, located, h') = >>=-eq-ok (round_of a id) _ h in
    let (_, by_hand, e) = >>=-eq-ok (throw_if (is_some round.song) (round_is_computed id)) _ h' in
    let no_song : is_some round.song ≡ false = ground (arith, by_hand) in
    written_round-IsValid a a' id (write_standing round player none points) (ok_injective e)
      (write_standing-OkRound player none points round no_song
        (round_of-OkRound a id round located v.rounds))
      v

pub upsert_score-IsValid :
    (a a' : MatchAggregate) (id player : ℕ) (score : Score)
    → upsert_score a id player score ≡ ok a'
    → IsValid a
    → IsValid a'
unfolding upsert_score
upsert_score-IsValid a a' id player score h v =
    let (round, located, h') = >>=-eq-ok (round_of a id) _ h in
    elim (Option-cases round.song) [
      | inl none_there ↦ absurd (ground (arith, h', none_there))
      | inr (song, there) ↦
          let written = write_standing round player (some score) 0 in
          let (_, fits, e) =
            >>=-eq-ok (throw_if (not (score_fits score player song)) score_does_not_match) _
              (rw there at h') in
          let (ranked, run, f) =
            >>=-eq-ok (rank_if_complete a.match.scoring_system (singles_player_ids a.match) written)
              _ e in
          written_round-IsValid a a' id ranked (ok_injective f)
            (Alike-OkRound ranked written
              (rank_if_complete-Alike a.match.scoring_system (singles_player_ids a.match) written
                ranked run)
              (write_standing-OkRound player (some score) 0 round (ap is_some there)
                (round_of-OkRound a id round located v.rounds)))
            v
    ]

pub left_round-OkRound :
    (round : Round) (player : ℕ) → OkRound round → OkRound (left_round round player)
unfolding left_round
left_round-OkRound round player h =
    let left = OkStandings-remove_first (is_some round.song) (is_of player) round.standings h in
    elim (Bool-cases (is_some round.song)) [
      | inl song ↦
          rw song
            (OkStandings-zero true (remove_first (is_of player) round.standings) (rw song at left))
      | inr by_hand ↦ rw by_hand (rw by_hand at left)
    ]

pub remove_standing-IsValid :
    (a a' : MatchAggregate) (id player : ℕ)
    → remove_standing a id player ≡ ok a'
    → IsValid a
    → IsValid a'
unfolding remove_standing invalidate_tiebreaks Unmoved
remove_standing-IsValid a a' id player h v =
    let (round, located, h') = >>=-eq-ok (round_of a id) _ h in
    elim (Option-cases (find (is_of player) round.standings)) [
      | inl absent ↦ subst IsValid (ok_injective (rw absent at h')) v
      | inr (s, there) ↦
          let left = left_round round player in
          let e = ok_injective (rw there at h') in
          IsValid-to a a' (update_first (is_round id) (λ _. left) a.match.rounds) (cc, cc) (cc)
            (update_first-OkRound id left a.match.rounds
              (left_round-OkRound round player (round_of-OkRound a id round located v.rounds))
              v.rounds)
            v
    ]
