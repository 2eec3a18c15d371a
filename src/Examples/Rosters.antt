-- ===== src/Examples/Rosters.antt =====
-- A tournament with one participant, a division with two entrants, and a draw of songs.
use tournament_hub.Common.{
  ℕ, ◌+◌, ◌≤◌, ◌≡◌, refl, Bool, true, ◌&&◌, List, [], ◌∷◌, none, some, map, any, count_if, ltb, All,
  arith, if◌then◌else◌, ok, err, ◌==◌,
}
use tournament_hub.Common.Sort.{IsOrder, IsSorted}
use tournament_hub.Tournament.{
  TournamentAggregate, competitor, staff, registered, open_tournament, register,
}
use tournament_hub.Tournament.Valid.{IsValid, did_register, TournamentStep-IsValid}
use tournament_hub.Division
use tournament_hub.Division.{
  DivisionEntrant, DivisionAggregate, seed, active_entrants, stands_before, is_active,
}
use tournament_hub.Division.Order.{active_entrants-IsSorted}
use tournament_hub.Division.Seeding.{seed_of, last_place, seed-last_place}
use tournament_hub.Catalog.{Song, SongRollSlot, roll, parse_levels, levels_from}
use tournament_hub.Catalog.Drawn.{rolls, is_of_level, IsSpent, roll-IsSpent}

abbrev one_staff : TournamentAggregate
one_staff = record {
  tournament = record {
    id = 1;
    name = 65 ∷ [];
    status = open_tournament;
    closed_at = none;
    startgg_api_key = none;
    default_scoring_system = [];
    participants =
        record { id = some 5; player = 8; account = none; roles = staff ∷ []; status = registered }
        ∷ [];
  };
  removed_participant = none;
}

one_staff-IsValid : IsValid one_staff.tournament.participants
one_staff-IsValid = record {
  once = λ player. ground arith;
  roles = (record { some_role = omega arith; once = λ r. ground arith; alone = refl }, tt);
}

TournamentStep-IsValid_example :
    IsValid (register one_staff 8 (competitor ∷ [])).tournament.participants
TournamentStep-IsValid_example =
    TournamentStep-IsValid one_staff (register one_staff 8 (competitor ∷ []))
      (did_register 8 (competitor ∷ []) refl refl) one_staff-IsValid

abbrev entrant : ℕ → DivisionEntrant
entrant n = record {
  id = some n;
  name = n ∷ [];
  status = Division.active;
  seed_num = none;
  participants = record { id = n; player = 100 + n } ∷ [];
}

abbrev two_entrants : DivisionAggregate
two_entrants = record {
  division = record {
    id = 1;
    name = [];
    tournament = 1;
    phases = [];
    entrants = entrant 3 ∷ entrant 4 ∷ [];
  };
  removed_phase_ids = [];
}

unfoldable program : Unit {0}
unfolding seed Division.seed_from Division.set_seed parse_levels levels_from
program = tt

abbrev seeded : DivisionAggregate
seeded = elim (seed two_entrants (4 ∷ 3 ∷ [])) [ err e ↦ two_entrants | ok a ↦ a ]

seed_test : seed two_entrants (4 ∷ 3 ∷ []) ≡ ok seeded
unfolding program
seed_test = refl

seed-last_place_example : seed_of 3 seeded.division.entrants ≡ elim (last_place 1 3 (4 ∷ 3 ∷ [])) [
  | none ↦ seed_of 3 two_entrants.division.entrants
  | some m ↦ some m
]
seed-last_place_example = seed-last_place two_entrants seeded (4 ∷ 3 ∷ []) 3 seed_test

-- Names compared by their first letters.
abbrev first_letter : List ℕ → ℕ
first_letter [] = 0
first_letter (c ∷ rest) = c

abbrev by_letter : List ℕ → List ℕ → Bool
by_letter a b = ltb (first_letter a) (first_letter b)

by_letter-IsOrder : IsOrder by_letter
by_letter-IsOrder = record {
  asymm = λ a b h. ground (arith, h);
  chain = λ a b c h k. ground (arith, h, k);
}

active_entrants-IsSorted_example :
    IsSorted (stands_before by_letter) (active_entrants by_letter two_entrants)
    × ((p : DivisionEntrant → Bool)
        → count_if p (active_entrants by_letter two_entrants)
          ≡ count_if (λ e. is_active e && p e) two_entrants.division.entrants)
active_entrants-IsSorted_example = active_entrants-IsSorted by_letter by_letter-IsOrder two_entrants

-- "12, 7"
levels_test : parse_levels (49 ∷ 50 ∷ 44 ∷ 32 ∷ 55 ∷ []) ≡ 12 ∷ 7 ∷ []
unfolding program
levels_test = refl

abbrev songs : List Song
songs =
    record { id = 1; difficulty = 12 }
    ∷ record { id = 2; difficulty = 12 }
    ∷ record { id = 3; difficulty = 7 }
    ∷ []

-- A random number of zero.
abbrev first_index : ℕ → ℕ → ℕ
first_index draw n = 0

roll-IsSpent_example :
    (map (λ (x : SongRollSlot). x.level) (roll first_index songs (some (3 ∷ [])) (12 ∷ 7 ∷ []))
      ≡ 12 ∷ 7 ∷ [])
    × All
        (λ (x : SongRollSlot). is_of_level x ≡ true)
        (roll first_index songs (some (3 ∷ [])) (12 ∷ 7 ∷ []))
    × ((id : ℕ)
        → count_if (rolls id) (roll first_index songs (some (3 ∷ [])) (12 ∷ 7 ∷ []))
            + (if any (◌==◌ id) (3 ∷ []) then 1 else 0)
          ≤ 1)
    × All
        (IsSpent first_index songs (3 ∷ []) (roll first_index songs (some (3 ∷ [])) (12 ∷ 7 ∷ [])))
        (roll first_index songs (some (3 ∷ [])) (12 ∷ 7 ∷ []))
roll-IsSpent_example =
    roll-IsSpent first_index songs (some (3 ∷ [])) (12 ∷ 7 ∷ []) (λ d n. omega arith)
