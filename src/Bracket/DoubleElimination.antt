-- ===== src/Bracket/DoubleElimination.antt =====
-- packages/brackets/src/double-elimination.ts.
-- `playerPerMatch` is 2, 4 or 8 behind the guard, so its half is a whole number. An element that is
-- read and is not there is the error `absent_element`.
use Prim.Native.Nat.{◌%◌}
use tournament_hub.Common.{
  ℕ, zero, suc, ◌+◌, ◌-◌, ◌*◌, ◌/◌, Bool, true, false, not, ◌||◌, List, [], ◌∷◌, ltb, ◌==◌,
  if◌then◌else◌, length, get_elem?, max, Result, ok, ◌>>=◌, ◌>>◌, throw_if,
}
use tournament_hub.Bracket.{
  BracketMatchNamer, BracketPlanBuilder, BracketPlan, BracketError, double_elimination, winners,
  losers, final, unsupported_per_match, new_builder, winners_label, losers_drop_label,
  losers_merge_label, grand_final_label, next_pow2, ceil_div, add_round, add_route, seat_first_wave,
  build,
}
use tournament_hub.Bracket.Elimination.{present, log2}

-- `rounds[k][m]`
abbrev pub match_at : List (List ℕ) → ℕ → ℕ → Result BracketError ℕ
match_at rounds k m = present (get_elem? rounds k) >>= λ round. present (get_elem? round m)

-- The loop that adds the winners rounds.
unfoldable pub winners_rounds :
    BracketMatchNamer
    → ℕ
    → (left k match_count : ℕ) → BracketPlanBuilder
    → BracketPlanBuilder × List (List ℕ)
unfolding add_round
winners_rounds name round_count zero k match_count b = (b, [])
winners_rounds name round_count (suc left) k match_count b =
    let added = add_round name b winners k round_count match_count (winners_label (k + 1)) in
    let rest = winners_rounds name round_count left (k + 1) (match_count / 2) added.0 in
    (rest.0, added.1 ∷ rest.1)

abbrev pub is_drop_round : ℕ → Bool
is_drop_round i = i % 2 == 1

-- The loop that adds the losers rounds.
unfoldable pub losers_rounds :
    BracketMatchNamer
    → ℕ
    → (left i match_count : ℕ) → BracketPlanBuilder
    → BracketPlanBuilder × List (List ℕ)
unfolding add_round
losers_rounds name round_count zero i match_count b = (b, [])
losers_rounds name round_count (suc left) i match_count b =
    let label =
      if is_drop_round i then losers_drop_label (i / 2 + 1) else losers_merge_label (i / 2 + 1) in
    let added = add_round name b losers i round_count match_count label in
    let rest =
      losers_rounds name round_count left (i + 1)
        (if is_drop_round i then match_count / 2 else match_count) added.0 in
    (rest.0, added.1 ∷ rest.1)

-- The inner loop of the winners rounds: a place goes on, and its counterpart drops to the losers.
unfoldable pub route_winner_places :
    (passing source winner winner_base loser loser_base : ℕ)
    → (left p : ℕ) → BracketPlanBuilder
    → BracketPlanBuilder
unfolding add_route
route_winner_places passing source winner winner_base loser loser_base zero p b = b
route_winner_places passing source winner winner_base loser loser_base (suc left) p b =
    route_winner_places passing source winner winner_base loser loser_base left (p + 1) (
      add_route (add_route b source p winner (winner_base + p)) source (passing + p) loser
        (loser_base + p))

-- The inner loop of the losers rounds.
unfoldable pub route_loser_places :
    (source winner base : ℕ) → (left p : ℕ) → BracketPlanBuilder → BracketPlanBuilder
unfolding add_route
route_loser_places source winner base zero p b = b
route_loser_places source winner base (suc left) p b =
    route_loser_places source winner base left (p + 1) (add_route b source p winner (base + p))

module _ (passing grand_final : ℕ) (winners_of losers_of : List (List ℕ)) where
  -- The body of the loop over the matches `m` of the winners round `k`.
  unfoldable pub route_winners_match :
      ℕ → ℕ → ℕ → BracketPlanBuilder → Result BracketError BracketPlanBuilder
  unfolding route_winner_places
  route_winners_match k m source b = do
    winner ← elim (ltb (k + 1) (length winners_of)) [
      | true ↦ match_at winners_of (k + 1) (m / 2)
      | false ↦ ok grand_final
    ]
    loser ← elim (k == 0) [
      | true ↦ match_at losers_of 0 (m / 2)
      | false ↦ match_at losers_of (2 * k - 1) m
    ]
    ok (
        route_winner_places passing source winner (m % 2 * passing) loser
          (if k == 0 then m % 2 * passing else passing) passing 0 b)

  unfoldable pub route_winners_round :
      ℕ → ℕ → List ℕ → BracketPlanBuilder → Result BracketError BracketPlanBuilder
  unfolding route_winners_match
  route_winners_round k m [] b = ok b
  route_winners_round k m (source ∷ rest) b = do
    routed ← route_winners_match k m source b
    route_winners_round k (m + 1) rest routed

  unfoldable pub route_winners :
      ℕ → List (List ℕ) → BracketPlanBuilder → Result BracketError BracketPlanBuilder
  unfolding route_winners_round
  route_winners k [] b = ok b
  route_winners k (round ∷ rest) b = do
    routed ← route_winners_round k 0 round b
    route_winners (k + 1) rest routed

  -- The body of the loop over the matches `m` of the losers round `i`.
  unfoldable pub route_losers_match :
      ℕ → ℕ → ℕ → BracketPlanBuilder → Result BracketError BracketPlanBuilder
  unfolding route_loser_places
  route_losers_match i m source b = do
    let is_last = i + 1 == length losers_of
    winner ← elim is_last [
      | true ↦ ok grand_final
      | false ↦ match_at losers_of (i + 1) (if is_drop_round i then m / 2 else m)
    ]
    ok (
        route_loser_places source winner
          (if is_last then passing else if is_drop_round i then m % 2 * passing else 0) passing 0 b)

  unfoldable pub route_losers_round :
      ℕ → ℕ → List ℕ → BracketPlanBuilder → Result BracketError BracketPlanBuilder
  unfolding route_losers_match
  route_losers_round i m [] b = ok b
  route_losers_round i m (source ∷ rest) b = do
    routed ← route_losers_match i m source b
    route_losers_round i (m + 1) rest routed

  unfoldable pub route_losers :
      ℕ → List (List ℕ) → BracketPlanBuilder → Result BracketError BracketPlanBuilder
  unfolding route_losers_round
  route_losers i [] b = ok b
  route_losers i (round ∷ rest) b = do
    routed ← route_losers_round i 0 round b
    route_losers (i + 1) rest routed

-- `buildStructure`, with the first round that it returns.
unfoldable pub build_structure :
    BracketMatchNamer → ℕ → ℕ → Result BracketError (BracketPlanBuilder × List ℕ)
unfolding winners_rounds losers_rounds route_winners route_losers log2
build_structure name first_count player_per_match = do
  let passing = player_per_match / 2
  let winners_count = log2 first_count first_count + 1
  let won = winners_rounds name winners_count winners_count 0 first_count new_builder
  let losers_count = 2 * (winners_count - 1)
  let lost = losers_rounds name losers_count losers_count 0 (first_count / 2) won.0
  let ended = add_round name lost.0 final 0 1 1 grand_final_label
  grand_final ← present (get_elem? ended.1 0)
  routed ← route_winners passing grand_final won.1 lost.1 0 won.1 ended.0
  finished ← route_losers passing grand_final won.1 lost.1 0 lost.1 routed
  first_round ← present (get_elem? won.1 0)
  ok (finished, first_round)

-- `DoubleElimination.generate`
unfoldable pub generate_double : BracketMatchNamer → ℕ → ℕ → Result BracketError BracketPlan
unfolding build_structure seat_first_wave
generate_double name entrant_count player_per_match = do
  throw_if (not ((player_per_match == 2) || (player_per_match == 4) || (player_per_match == 8)))
      unsupported_per_match
  let first_count = max 2 (next_pow2 (ceil_div entrant_count player_per_match))
  structure ← build_structure name first_count player_per_match
  ok (
      build (seat_first_wave structure.0 structure.1 entrant_count player_per_match)
        double_elimination entrant_count player_per_match
        (player_per_match * first_count - entrant_count))
