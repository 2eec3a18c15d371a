-- ===== src/Scoring/Points.antt =====
-- What `awardPlacementPoints` and the two systems that call it give to each standing.
use tournament_hub.Common.{
  ℕ, zero, suc, ◌+◌, ◌-◌, ◌≤◌, ◌<◌, ◌≡◌, refl, ◌∙◌, inl, inr, Bool, ◌&&◌, List, [], ◌∷◌, map, some,
  arith, ltb, ◌==◌, if◌then◌else◌, Bool-cases, length, get_elem?, filter, count_if, All-filter,
  length-filter-le, count_if-filter,
}
use tournament_hub.Common.Sort.{
  IsSorted, sort_by-IsSorted, count_if-sort_by, All-sort_by, length-sort_by,
}
use tournament_hub.Scoring.{
  ScoringScore, ScoringStanding, with_points, StandingRef, PointStore, refs_from, reload, higher,
  is_eligible, award_loop, ranking, award_placement_points,
}
use tournament_hub.Scoring.Award.{refs_to, Agrees, higher-IsOrder, award_loop_other, award_loop_hit}

-- The independent description: an eligible score earns one point for each standing of the round
-- that is not an eligible strictly better one, its own included; an ineligible one earns nothing.
unfoldable pub placement_points : List ScoringStanding → Bool → ScoringScore → ℕ
placement_points standings include_fails score =
    if is_eligible include_fails score
    then length standings
      - count_if (λ s. is_eligible include_fails s.score && ltb score.percentage s.score.percentage)
          standings
    else 0

pub reload-eq-map :
    (f : ScoringStanding → ℕ) (store : PointStore) (k : ℕ) (standings : List ScoringStanding)
    → ((i j : ℕ) (s : ScoringStanding) → j ≡ k + i → get_elem? standings i ≡ some s → store j ≡ f s)
    → reload store k standings ≡ map (λ s. with_points s (f s)) standings
unfolding reload
reload-eq-map f store k [] h = refl
reload-eq-map f store k (s ∷ rest) h = rw (
  h 0 k s (omega arith) refl,
  reload-eq-map f store (k + 1) rest (λ i j t e g. h (suc i) j t (omega arith) g),
)

pub count_if-refs_from :
    (g : ScoringScore → Bool) (k : ℕ) (standings : List ScoringStanding)
    → count_if (λ r. g r.score) (refs_from k standings) ≡ count_if (λ s. g s.score) standings
unfolding refs_from
count_if-refs_from g k [] = refl
count_if-refs_from g k (s ∷ rest) = omega (arith, count_if-refs_from g (k + 1) rest)

pub length-refs_from :
    (k : ℕ) (standings : List ScoringStanding) → length (refs_from k standings) ≡ length standings
unfolding refs_from
length-refs_from k [] = refl
length-refs_from k (s ∷ rest) = omega (arith, length-refs_from (k + 1) rest)

refs_from_before :
    (g : ScoringScore → Bool) (j k : ℕ) (standings : List ScoringStanding)
    → j < k
    → count_if (λ r. g r.score && (r.index == j)) (refs_from k standings) ≡ 0
unfolding refs_from
refs_from_before g j k [] h = refl
refs_from_before g j k (s ∷ rest) h = ground (arith, refs_from_before g j (k + 1) rest)

-- One reference stands for each object, if its score passes the test.
pub refs_from_one :
    (g : ScoringScore → Bool) (k i j : ℕ) (standings : List ScoringStanding) (s : ScoringStanding)
    → j ≡ k + i
    → get_elem? standings i ≡ some s
    → count_if (λ r. g r.score && (r.index == j)) (refs_from k standings)
      ≡ (if g s.score then 1 else 0)
unfolding refs_from
refs_from_one g k i j [] s h e = cc
refs_from_one g k zero j (t ∷ rest) s h e = ground (arith, refs_from_before g j (k + 1) rest)
refs_from_one g k (suc i) j (t ∷ rest) s h e =
    ground (arith, refs_from_one g (k + 1) i j rest s (omega arith) e)

refs_from_after :
    (j q k : ℕ) (standings : List ScoringStanding) → j < k → Agrees j q (refs_from k standings)
unfolding refs_from
refs_from_after j q k [] h = tt
refs_from_after j q k (t ∷ rest) h =
    (λ e. absurd (omega arith), refs_from_after j q (k + 1) rest (omega arith))

pub refs_from-Agrees :
    (k i j : ℕ) (standings : List ScoringStanding) (s : ScoringStanding)
    → j ≡ k + i
    → get_elem? standings i ≡ some s
    → Agrees j s.score.percentage (refs_from k standings)
unfolding refs_from
refs_from-Agrees k i j [] s h e = cc
refs_from-Agrees k zero j (t ∷ rest) s h e =
    (λ _. ground arith, refs_from_after j s.score.percentage (k + 1) rest (omega arith))
refs_from-Agrees k (suc i) j (t ∷ rest) s h e =
    (λ g. absurd (omega arith), refs_from-Agrees (k + 1) i j rest s (omega arith) e)

-- Counting in the ranking is counting among the eligible standings.
count_if-ranking :
    (p : StandingRef → Bool) (standings : List ScoringStanding) (inc : Bool)
    → count_if p (ranking standings inc)
      ≡ count_if (λ r. is_eligible inc r.score && p r) (refs_from 0 standings)
unfolding ranking
count_if-ranking p standings inc =
    count_if-sort_by higher p (filter (λ r. is_eligible inc r.score) (refs_from 0 standings))
    ∙ count_if-filter (λ r. is_eligible inc r.score) p (refs_from 0 standings)

length-ranking :
    (standings : List ScoringStanding) (inc : Bool)
    → length (ranking standings inc) ≤ length standings
unfolding ranking
length-ranking standings inc = omega (
  arith,
  length-sort_by higher (filter (λ r. is_eligible inc r.score) (refs_from 0 standings)),
  length-filter-le (λ r. is_eligible inc r.score) (refs_from 0 standings),
  length-refs_from 0 standings,
)

ranking-Agrees :
    (standings : List ScoringStanding) (inc : Bool) (j : ℕ) (s : ScoringStanding)
    → get_elem? standings j ≡ some s
    → Agrees j s.score.percentage (ranking standings inc)
unfolding ranking
ranking-Agrees standings inc j s e =
    let P : StandingRef → Type 0 = λ r. r.index ≡ j → r.score.percentage ≡ s.score.percentage in
    let eligible : StandingRef → Bool = λ r. is_eligible inc r.score in
    All-sort_by higher P (filter eligible (refs_from 0 standings)) (
      All-filter P eligible (refs_from 0 standings)
        (refs_from-Agrees 0 j j standings s (omega arith) e))

ranking-IsSorted :
    (standings : List ScoringStanding) (inc : Bool) → IsSorted higher (ranking standings inc)
unfolding ranking
ranking-IsSorted standings inc =
    sort_by-IsSorted higher higher-IsOrder
      (filter (λ r. is_eligible inc r.score) (refs_from 0 standings))

awarded_points :
    (standings : List ScoringStanding) (inc : Bool) (j : ℕ) (s : ScoringStanding)
    → get_elem? standings j ≡ some s
    → award_loop
        (length (ranking standings inc))
        (ranking standings inc)
        (length standings)
        (λ _. 0)
        j
      ≡ placement_points standings inc s.score
unfolding placement_points
awarded_points standings inc j s e =
    let ranked = ranking standings inc in
    let here =
      count_if-ranking (λ r. r.index == j) standings inc
      ∙ refs_from_one (is_eligible inc) 0 j j standings s (omega arith) e in
    let better =
      count_if-ranking (λ r. ltb s.score.percentage r.score.percentage) standings inc
      ∙ count_if-refs_from (λ t. is_eligible inc t && ltb s.score.percentage t.percentage) 0
          standings in
    elim (Bool-cases (is_eligible inc s.score)) [
      | inl yes_eligible ↦
          let one : refs_to j ranked ≡ 1 = rw yes_eligible at here in
          let sum =
            award_loop_hit (length ranked) ranked (length standings) (λ _. 0) j s.score.percentage
              (omega arith) (length-ranking standings inc) (ranking-IsSorted standings inc)
              (ranking-Agrees standings inc j s e) (omega arith) in
          rw yes_eligible (omega (arith, sum, better))
      | inr not_eligible ↦
          let none_here : refs_to j ranked ≡ 0 = rw not_eligible at here in
          rw not_eligible
            (award_loop_other (length ranked) ranked (length standings) (λ _. 0) j none_here)
    ]

-- `awardPlacementPoints` gives each eligible standing as many points as the round has standings,
-- less the eligible standings with a strictly higher percentage; a standing that is not eligible
-- gets zero. Nothing else of a standing changes, and the standings keep their places.
pub award_placement_points-eq-placement_points :
    (standings : List ScoringStanding) (include_fails : Bool)
    → award_placement_points standings include_fails
      ≡ map (λ s. with_points s (placement_points standings include_fails s.score)) standings
unfolding award_placement_points
award_placement_points-eq-placement_points standings inc =
    reload-eq-map (λ s. placement_points standings inc s.score) _ 0 standings
      (λ i j s h e. let same : j ≡ i = omega arith in awarded_points standings inc j s (rw same e))
