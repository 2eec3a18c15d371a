-- ===== src/Match/Settled.antt =====
-- What the points of a match are calculated from: its rounds, settled, and their standings.
use mathlib.Core.List.{flatten}
use tournament_hub.Common.{
  ℕ, ◌+◌, ◌≤◌, ap, inl, inr, Bool, ◌==◌, any, find, count_if, sum_by, All, Option-cases, ◌≡◌, refl,
  true, List, [], ◌∷◌, map, none, some, arith, ltb, all,
}
use tournament_hub.Placement.{PlacementPointEntry, MatchResultEntry, unplaced}
use tournament_hub.Match.Model.{Standing, Round, player_entrant, team_entrant, Entrant, Match}
use tournament_hub.Match.State.{
  players_of, points_in, all_scored, is_of, singles_player_ids, is_settled, total_points,
  average_percentage_of, calculate_points,
}

-- The points of a match as the standings give them: for each singles player, in order, the sum over
-- the rounds.
abbrev pub point_entry : Match → ℕ → PlacementPointEntry
point_entry m p = record {
  player_id = p;
  points = total_points p m.rounds;
  average_percentage = average_percentage_of m.rounds p;
}

abbrev pub point_entries : Match → List PlacementPointEntry
point_entries m = map (point_entry m) (singles_player_ids m)

pub calculate_points-some :
    (m : Match) {points : List PlacementPointEntry}
    → calculate_points m ≡ some points
    → (points ≡ point_entries m) × (all (is_settled (singles_player_ids m)) m.rounds ≡ true)
unfolding calculate_points
calculate_points-some m h = ground arith

-- The first players of the entrants that are single players.
abbrev pub player_of : Entrant → List ℕ
player_of e = elim e.kind [
  | player_entrant ↦ elim e.first_player [ none ↦ [] | some p ↦ p ∷ [] ]
  | team_entrant ↦ []
]

abbrev pub single_players : Match → List ℕ
single_players m = flatten (map player_of m.entrants)

-- The sum, over the rounds, of the points of the player's first standing.
abbrev pub summed_points : ℕ → List Round → ℕ
summed_points p = sum_by (λ (r : Round). elim (find (λ (s : Standing). s.player == p) r.standings) [
  | none ↦ 0
  | some s ↦ s.points
])

abbrev pub summed_entry : Match → ℕ → MatchResultEntry
summed_entry m p = record { player_id = p; points = summed_points p m.rounds; placement = 0 }

-- A song round has a standing of each of the players, a hand-scored one a standing with points.
abbrev pub IsSettled : List ℕ → Round → Type 0
IsSettled players r = elim r.song [
  | some _ ↦ All (λ p. 1 ≤ count_if (λ (s : Standing). s.player == p) r.standings) players
  | none ↦ 1 ≤ count_if (λ (s : Standing). ltb 0 s.points) r.standings
]

pub players_of-eq : (es : List Entrant) → players_of es ≡ flatten (map player_of es)
unfolding players_of flatten
players_of-eq [] = refl
players_of-eq (e ∷ es) = ground (arith, players_of-eq es)

total_points-eq : (p : ℕ) (rounds : List Round) → total_points p rounds ≡ summed_points p rounds
unfolding total_points
total_points-eq p [] = refl
total_points-eq p (r ∷ rounds) =
    unfold points_in in ap (λ n. points_in p r + n) (total_points-eq p rounds)

pub summed_entries :
    (m : Match) (players : List ℕ)
    → map unplaced (map (point_entry m) players) ≡ map (summed_entry m) players
summed_entries m [] = refl
summed_entries m (p ∷ players) =
    rw (total_points-eq p m.rounds) (ap (◌∷◌ (summed_entry m p)) (summed_entries m players))

count_if-any {ℓ} : {A : Type ℓ} (p : A → Bool) (l : List A) → any p l ≡ true → 1 ≤ count_if p l
count_if-any p [] h = cc
count_if-any p (x ∷ l) h = ground (arith, h, count_if-any p l)

all_scored-All :
    (r : Round) (players : List ℕ)
    → all_scored players r ≡ true
    → All (λ p. 1 ≤ count_if (λ (s : Standing). s.player == p) r.standings) players
all_scored-All r [] h = tt
all_scored-All r (p ∷ players) h = (
  count_if-any (is_of p) r.standings (ground (arith, h)),
  all_scored-All r players (ground (arith, h)),
)

is_settled-IsSettled :
    (players : List ℕ) (r : Round) → is_settled players r ≡ true → IsSettled players r
is_settled-IsSettled players r h = elim (Option-cases r.song) [
  | inl e ↦ rw e (count_if-any (λ (s : Standing). ltb 0 s.points) r.standings (rw e at h))
  | inr (song, e) ↦ rw e (all_scored-All r players (rw e at h))
]

pub all-IsSettled :
    (players : List ℕ) (rounds : List Round)
    → all (is_settled players) rounds ≡ true
    → All (IsSettled players) rounds
all-IsSettled players [] h = tt
all-IsSettled players (r ∷ rounds) h = (
  is_settled-IsSettled players r (ground (arith, h)),
  all-IsSettled players rounds (ground (arith, h)),
)
