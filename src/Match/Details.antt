-- ===== src/Match/Details.antt =====
-- The mutators of match.aggregate.ts that touch neither evidence nor result, and its factory.
use tournament_hub.Common.{ℕ, false, [], List, Option, none, some, or_else, Result, ok, ◌>>=◌}
use tournament_hub.Match.Model.{Entrant, MatchAggregate, MatchDetails, MatchError, no_removals}
use tournament_hub.Match.Settle.{with_match, round_of}
use tournament_hub.Match.Tiebreaks.{tiebreak_of}

-- A row without a scoring system has the empty name, which no system has either.
unfoldable pub create : MatchDetails → ℕ → List Entrant → MatchAggregate
create details phase_group entrants = record {
  match = record {
    id = 0;
    name = details.name;
    subtitle = details.subtitle;
    notes = details.notes;
    scoring_system = or_else details.scoring_system "";
    active = false;
    phase_group = some phase_group;
    entrants = entrants;
    rounds = [];
    tiebreaks = [];
    match_result = none;
  };
  advancement_rules = [];
  removals = no_removals;
}

-- `settle`, called once the removals are written to the store.
unfoldable pub settle : MatchAggregate → MatchAggregate
settle a = record a { removals = no_removals }

-- `if (value !== undefined) field = value`
abbrev pub overwrite {ℓ} : {A : Type ℓ} → Option A → Option A → Option A
overwrite none field = field
overwrite (some value) field = some value

unfoldable pub describe : MatchAggregate → MatchDetails → MatchAggregate
describe a details = with_match a (record (a.match) {
  name = overwrite details.name a.match.name;
  subtitle = overwrite details.subtitle a.match.subtitle;
  notes = overwrite details.notes a.match.notes;
})

unfoldable pub move_to : MatchAggregate → ℕ → MatchAggregate
move_to a phase_group = with_match a (record (a.match) { phase_group = some phase_group })

unfoldable pub song_of : MatchAggregate → ℕ → Result MatchError (Option ℕ)
song_of a round_id = do round ← round_of a round_id; ok round.song

unfoldable pub tiebreak_song_of : MatchAggregate → ℕ → Result MatchError (Option ℕ)
tiebreak_song_of a tiebreak_id = do tiebreak ← tiebreak_of a tiebreak_id; ok tiebreak.song
