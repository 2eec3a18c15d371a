-- ===== src/Match/Valid.antt =====
-- The invariant of a match under all mutators of match.aggregate.ts.
use Prim.Native.String.{String}
use tournament_hub.Common.{ℕ, ◌≡◌, refl, sym, subst, Bool, List, Option, arith, ok}
use tournament_hub.Match.Model.{Score, MatchTiebreak, Entrant, MatchAggregate, MatchDetails}
use tournament_hub.Match.Scores.{
  with_entrants, change_scoring_system, replace_entrants, add_entrant, remove_entrant,
  place_entrant, activate, add_round, remove_round, upsert_score, upsert_points, remove_standing,
}
use tournament_hub.Match.Tiebreaks.{
  add_tiebreak, remove_tiebreak, upsert_tiebreak_score, upsert_tiebreak_points,
  clear_tiebreak_standing, commit, reopen,
}
use tournament_hub.Match.Details.{settle, describe, move_to}
use tournament_hub.Match.Lifecycle.{commit-eq_committed}
use tournament_hub.Match.Invariant.{IsValid, Unmoved, IsValid-same_rounds, resettle-IsValid}
use tournament_hub.Match.Entrants.{
  with_entrants-IsValid, change_scoring_system-IsValid, add_entrant-IsValid, remove_entrant-IsValid,
  activate-IsValid,
}
use tournament_hub.Match.Rounds.{
  add_round-IsValid, remove_round-IsValid, upsert_points-IsValid, upsert_score-IsValid,
  remove_standing-IsValid,
}

-- The mutators, each at a successful call.
pub data Mutation (a : MatchAggregate) (a' : MatchAggregate) : Type 0 where
  changed_scoring : (system : String) → change_scoring_system a system ≡ ok a' → Mutation a a'
  replaced_entrants :
      (entrants : List Entrant) → replace_entrants a entrants ≡ ok a' → Mutation a a'
  added_entrant : (e : Entrant) (b : Bool) → add_entrant a e ≡ ok (a', b) → Mutation a a'
  removed_entrant : (id : ℕ) (b : Bool) → remove_entrant a id ≡ ok (a', b) → Mutation a a'
  placed_entrant : (e : Entrant) (slot : ℕ) → place_entrant a e slot ≡ ok a' → Mutation a a'
  activated : (active : Bool) → activate a active ≡ ok a' → Mutation a a'
  added_round : (song : Option ℕ) → add_round a song ≡ a' → Mutation a a'
  removed_round : (id : ℕ) → remove_round a id ≡ ok a' → Mutation a a'
  wrote_score :
      (id player : ℕ) (score : Score) → upsert_score a id player score ≡ ok a' → Mutation a a'
  wrote_points : (id player points : ℕ) → upsert_points a id player points ≡ ok a' → Mutation a a'
  removed_standing : (id player : ℕ) → remove_standing a id player ≡ ok a' → Mutation a a'
  added_tiebreak :
      (song : Option ℕ) (players : List ℕ) (t : MatchTiebreak)
      → add_tiebreak a song players ≡ ok (a', t)
      → Mutation a a'
  removed_tiebreak : (id : ℕ) → remove_tiebreak a id ≡ ok a' → Mutation a a'
  wrote_tiebreak_score :
      (id player : ℕ) (score : Score)
      → upsert_tiebreak_score a id player score ≡ ok a'
      → Mutation a a'
  wrote_tiebreak_points :
      (id player points : ℕ) → upsert_tiebreak_points a id player points ≡ ok a' → Mutation a a'
  cleared_tiebreak : (id player : ℕ) → clear_tiebreak_standing a id player ≡ ok a' → Mutation a a'
  was_committed : commit a ≡ ok a' → Mutation a a'
  was_reopened : reopen a ≡ a' → Mutation a a'
  was_settled : settle a ≡ a' → Mutation a a'
  was_described : (details : MatchDetails) → describe a details ≡ a' → Mutation a a'
  was_moved : (phase_group : ℕ) → move_to a phase_group ≡ a' → Mutation a a'

-- The tiebreak mutators leave the rounds, the result and the activity alone.
tiebreaks-IsValid :
    (a a' : MatchAggregate)
    → (a'.match.rounds ≡ a.match.rounds)
      × (a'.match.match_result ≡ a.match.match_result)
      × (a'.match.active ≡ a.match.active)
    → IsValid a
    → IsValid a'
unfolding Unmoved
tiebreaks-IsValid a a' (r, m, t) v = IsValid-same_rounds a a' (m, t) (sym r) v

commit-IsValid : (a a' : MatchAggregate) → commit a ≡ ok a' → IsValid a → IsValid a'
commit-IsValid a a' h v =
    let e = commit-eq_committed a a' h in rw e (record { idle = refl; rounds = v.rounds })

-- Every successful mutator keeps the invariant: a completed match is inactive, a round has one
-- standing for a player, and the standings of a round carry a score exactly in the song rounds.
pub Mutation-IsValid : {a a' : MatchAggregate} → Mutation a a' → IsValid a → IsValid a'
unfolding replace_entrants place_entrant add_tiebreak remove_tiebreak upsert_tiebreak_score
    upsert_tiebreak_points clear_tiebreak_standing reopen settle describe move_to
Mutation-IsValid {a} {a'} (changed_scoring system h) v =
    change_scoring_system-IsValid a a' system h v
Mutation-IsValid {a} {a'} (replaced_entrants entrants h) v =
    resettle-IsValid (with_entrants a entrants) a' h (with_entrants-IsValid a entrants v)
Mutation-IsValid {a} {a'} (added_entrant e b h) v = add_entrant-IsValid a a' e b h v
Mutation-IsValid {a} {a'} (removed_entrant id b h) v = remove_entrant-IsValid a a' id b h v
Mutation-IsValid {a} {a'} (placed_entrant e slot h) v =
    resettle-IsValid _ a' h (with_entrants-IsValid a _ v)
Mutation-IsValid {a} {a'} (activated active h) v = activate-IsValid a a' active h v
Mutation-IsValid {a} {a'} (added_round song h) v = add_round-IsValid a a' song h v
Mutation-IsValid {a} {a'} (removed_round id h) v = remove_round-IsValid a a' id h v
Mutation-IsValid {a} {a'} (wrote_score id player score h) v =
    upsert_score-IsValid a a' id player score h v
Mutation-IsValid {a} {a'} (wrote_points id player points h) v =
    upsert_points-IsValid a a' id player points h v
Mutation-IsValid {a} {a'} (removed_standing id player h) v =
    remove_standing-IsValid a a' id player h v
Mutation-IsValid {a} {a'} (added_tiebreak song players t h) v =
    tiebreaks-IsValid a a' (ground arith) v
Mutation-IsValid {a} {a'} (removed_tiebreak id h) v = tiebreaks-IsValid a a' (ground arith) v
Mutation-IsValid {a} {a'} (wrote_tiebreak_score id player score h) v =
    tiebreaks-IsValid a a' (ground arith) v
Mutation-IsValid {a} {a'} (wrote_tiebreak_points id player points h) v =
    tiebreaks-IsValid a a' (ground arith) v
Mutation-IsValid {a} {a'} (cleared_tiebreak id player h) v = tiebreaks-IsValid a a' (ground arith) v
Mutation-IsValid {a} {a'} (was_committed h) v = commit-IsValid a a' h v
Mutation-IsValid {a} {a'} (was_reopened h) v = rw (← h) (record { idle = refl; rounds = v.rounds })
Mutation-IsValid {a} {a'} (was_settled h) v =
    subst IsValid h (record { idle = v.idle; rounds = v.rounds })
Mutation-IsValid {a} {a'} (was_described details h) v =
    subst IsValid h (record { idle = v.idle; rounds = v.rounds })
Mutation-IsValid {a} {a'} (was_moved phase_group h) v =
    subst IsValid h (record { idle = v.idle; rounds = v.rounds })
