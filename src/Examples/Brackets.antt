-- ===== src/Examples/Brackets.antt =====
-- Plans of brackets on small numbers of entrants.
use tournament_hub.Common.{ℕ, ◌≡◌, refl, List, [], ◌∷◌, map, ok, err, Result, arith}
use tournament_hub.Bracket.{
  BracketPlan, BracketPlanRoute, BracketError, BracketMatchNamer, absent_element, ceil_div,
  generate_manual, next_pow2,
}
use tournament_hub.Bracket.Elimination.{generate_single}
use tournament_hub.Bracket.DoubleElimination.{generate_double}
use tournament_hub.Bracket.Power.{IsLeastPower, next_pow2-IsLeastPower}
use tournament_hub.Bracket.Seats.{IsFilled, generate_manual-IsFilled}

abbrev unnamed : BracketMatchNamer
unnamed _ = ""

abbrev arrows : Result BracketError BracketPlan → List (ℕ × ℕ × ℕ × ℕ)
arrows (err e) = []
arrows (ok plan) =
    map {B = ℕ × ℕ × ℕ × ℕ}
      (λ (r : BracketPlanRoute).
        (r.source_match_local_id, r.source_placement, r.target_match_local_id, r.target_slot))
      plan.routes

-- Two semifinals, whose winners meet.
four_players_test : arrows (generate_single unnamed 4 2) ≡ (0, 1, 2, 1) ∷ (1, 1, 2, 2) ∷ []
unfolding generate_single next_pow2
four_players_test = refl

-- Matches of four: the two best of each first match go on, and two finals part the last four.
eight_players_test :
    arrows (generate_single unnamed 8 4)
    ≡ (0, 1, 2, 1)
      ∷ (1, 1, 2, 2)
      ∷ (0, 2, 2, 3)
      ∷ (1, 2, 2, 4)
      ∷ (2, 1, 3, 1)
      ∷ (2, 2, 3, 2)
      ∷ (2, 3, 4, 1)
      ∷ (2, 4, 4, 2)
      ∷ []
unfolding generate_single next_pow2
eight_players_test = refl

-- Eight first matches of five players: the last match of the second round is left with three
-- qualifiers, and reading a fourth fails.
forty_players_test : generate_single unnamed 40 5 ≡ err absent_element
unfolding generate_single next_pow2
forty_players_test = refl

-- Winners 0 and 1 into 2, losers 3 and 4, and the grand final 5.
double_test :
    arrows (generate_double unnamed 4 2)
    ≡ (0, 1, 2, 1)
      ∷ (0, 2, 3, 1)
      ∷ (1, 1, 2, 2)
      ∷ (1, 2, 3, 2)
      ∷ (2, 1, 5, 1)
      ∷ (2, 2, 4, 2)
      ∷ (3, 1, 4, 1)
      ∷ (4, 1, 5, 2)
      ∷ []
unfolding generate_double next_pow2
double_test = refl

next_pow2-IsLeastPower_example : IsLeastPower (next_pow2 5) 5
next_pow2-IsLeastPower_example = next_pow2-IsLeastPower 5

generate_manual-IsFilled_example :
    (plan : BracketPlan) × (generate_manual unnamed 5 2 ≡ ok plan)
    × IsFilled (ceil_div 5 2) 2 5 plan
generate_manual-IsFilled_example = generate_manual-IsFilled unnamed 5 2 (omega arith)
