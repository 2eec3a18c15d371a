-- ===== src/Match/Invariant.antt =====
-- The invariant of a match, and what a mutator has to show to preserve it.
use tournament_hub.Common.{◌≡◌, subst, false, ◌&&◌, List, All, ok, >>=-eq-ok}
use tournament_hub.Match.Model.{Round, MatchAggregate}
use tournament_hub.Match.State.{is_completed, singles_player_ids}
use tournament_hub.Match.Settle.{invalidate_tiebreaks, resettle, resettle_rounds}
use tournament_hub.Match.Shapes.{OkRound, resettle_rounds-OkRound}

-- A completed match is inactive; each round has one standing for a player; the standings of a song
-- round carry a score, those of a hand-scored round none.
pub record IsValid (a : MatchAggregate) : Type 0 where
  pub idle : (is_completed a && a.match.active) ≡ false
  pub rounds : All OkRound a.match.rounds

-- What a mutator that leaves result and activity alone has to show.
unfoldable pub Unmoved : MatchAggregate → MatchAggregate → Type 0
Unmoved a a' = (a'.match.match_result ≡ a.match.match_result) × (a'.match.active ≡ a.match.active)

pub IsValid-moved :
    (a a' : MatchAggregate) → Unmoved a a' → All OkRound a'.match.rounds → IsValid a → IsValid a'
unfolding Unmoved
IsValid-moved a a' (e, f) h v = record { idle = rw (e, f) v.idle; rounds = h }

-- The step common to all: the rounds of the new aggregate are `rounds`, and these are in order.
pub IsValid-to :
    (a a' : MatchAggregate) (rounds : List Round)
    → Unmoved a a'
    → rounds ≡ a'.match.rounds
    → All OkRound rounds
    → IsValid a
    → IsValid a'
IsValid-to a a' rounds u e h v = IsValid-moved a a' u (subst (All OkRound) e h) v

pub IsValid-same_rounds :
    (a a' : MatchAggregate)
    → Unmoved a a'
    → a.match.rounds ≡ a'.match.rounds
    → IsValid a
    → IsValid a'
IsValid-same_rounds a a' u e v = IsValid-to a a' a.match.rounds u e v.rounds v

pub resettle-IsValid : (a a' : MatchAggregate) → resettle a ≡ ok a' → IsValid a → IsValid a'
unfolding resettle invalidate_tiebreaks Unmoved
resettle-IsValid a a' h v =
    let players = singles_player_ids a.match in
    let (rounds, run, e) =
      >>=-eq-ok (resettle_rounds a.match.scoring_system players a.match.rounds) _ h in
    IsValid-to a a' rounds (cc, cc) (cc)
      (resettle_rounds-OkRound a.match.scoring_system players a.match.rounds rounds run v.rounds) v
