-- ===== src/Scoring/Winner.antt =====
-- `RoundWinner`: who gets the one point of a round.
use mathlib.Core.List.{head?}
use tournament_hub.Common.{
  ℕ, zero, suc, ◌+◌, ◌≤◌, ◌≡◌, refl, ap, ◌∙◌, inl, inr, Bool, true, false, not, ◌&&◌, List, [], ◌∷◌,
  Option, some, none, arith, ltb, ◌==◌, if◌then◌else◌, Option-cases, get_elem?, take, any,
  get_elem?-not_any,
}
use tournament_hub.Common.Sort.{sort_by, head?-sort_by-cons, count_if-sort_by}
use tournament_hub.Scoring.{
  ScoringStanding, StandingRef, PointStore, refs_from, with_points, higher, write_points,
  winner_loop, round_winner, reload,
}
use tournament_hub.Scoring.Award.{refs_to}
use tournament_hub.Scoring.Points.{refs_from_one}

-- The first of the objects with the highest percentage.
winner_from : ℕ → List ScoringStanding → Option StandingRef
winner_from k [] = none
winner_from k (s ∷ rest) =
    let here : StandingRef = record { index = k; score = s.score } in
    elim (winner_from (k + 1) rest) [
      | none ↦ some here
      | some w ↦ some (if higher w here then w else here)
    ]

head?-sort_by :
    (k : ℕ) (standings : List ScoringStanding)
    → head? (sort_by higher (refs_from k standings)) ≡ winner_from k standings
unfolding sort_by refs_from winner_from
head?-sort_by k [] = refl
head?-sort_by k (s ∷ rest) =
    let here : StandingRef = record { index = k; score = s.score } in
    ground
      (arith, head?-sort_by (k + 1) rest, head?-sort_by-cons higher here (refs_from (k + 1) rest))

-- The standing at `i` has the highest percentage, and nobody before it has the same.
unfoldable pub leads : List ScoringStanding → ℕ → ScoringStanding → Bool
leads standings i s =
    not (any (λ t. ltb s.score.percentage t.score.percentage) standings)
    && not (any (λ t. t.score.percentage == s.score.percentage) (take i standings))

winner_from_index :
    (k : ℕ) (standings : List ScoringStanding) (w : StandingRef)
    → winner_from k standings ≡ some w
    → k ≤ w.index
unfolding winner_from
winner_from_index k [] w h = cc
winner_from_index k (s ∷ rest) w h = elim (Option-cases (winner_from (k + 1) rest)) [
  | inl e ↦ ground arith
  | inr (v, e) ↦ ground (arith, winner_from_index (k + 1) rest v e)
]

-- Somebody beats `q` exactly if the winner does.
winner_from_best :
    (k : ℕ) (standings : List ScoringStanding) (q : ℕ)
    → any (λ t. ltb q t.score.percentage) standings
      ≡ elim (winner_from k standings) [ none ↦ false | some w ↦ ltb q w.score.percentage ]
unfolding winner_from
winner_from_best k [] q = refl
winner_from_best k (s ∷ rest) q = ground (arith, winner_from_best (k + 1) rest q)

winner_from-leads :
    (k i j : ℕ) (standings : List ScoringStanding) (s : ScoringStanding)
    → j ≡ k + i
    → get_elem? standings i ≡ some s
    → elim (winner_from k standings) [ none ↦ false | some w ↦ w.index == j ] ≡ leads standings i s
unfolding winner_from leads
winner_from-leads k i j [] s h e = cc
winner_from-leads k zero j (t ∷ rest) s h e = elim (Option-cases (winner_from (k + 1) rest)) [
  | inl a ↦ ground (arith, a, winner_from_best (k + 1) rest s.score.percentage)
  | inr (v, a) ↦ ground (
    arith,
    a,
    winner_from_index (k + 1) rest v a,
    winner_from_best (k + 1) rest s.score.percentage,
  )
]
winner_from-leads k (suc i) j (t ∷ rest) s h e = elim (Option-cases (winner_from (k + 1) rest)) [
  | inl a ↦ ground (arith, a, winner_from-leads (k + 1) i j rest s (omega arith) e)
  | inr (v, a) ↦ ground (
    arith,
    a,
    winner_from_index (k + 1) rest v a,
    winner_from_best (k + 1) rest s.score.percentage,
    winner_from_best (k + 1) rest v.score.percentage,
    get_elem?-not_any (λ u. ltb v.score.percentage u.score.percentage) rest i s e,
    winner_from-leads (k + 1) i j rest s (omega arith) e,
  )
]

winner_loop_later :
    (position : ℕ) (l : List StandingRef) (store : PointStore) (j : ℕ)
    → 1 ≤ position
    → winner_loop position l store j ≡ (if refs_to j l == 0 then store j else 0)
unfolding winner_loop
winner_loop_later position [] store j h = refl
winner_loop_later position (r ∷ rest) store j h =
    let store' = write_points store r.index (if position == 0 then 1 else 0) in
    ground (arith, winner_loop_later (position + 1) rest store' j (omega arith))

-- Where `j` is referred to once, it gets the point exactly if it heads the sorted references.
winner_loop_once :
    (l : List StandingRef) (j : ℕ)
    → refs_to j l ≡ 1
    → winner_loop 0 l (λ _. 0) j
      ≡ (if elim (head? l) [ none ↦ false | some w ↦ w.index == j ] then 1 else 0)
unfolding winner_loop
winner_loop_once [] j h = refl
winner_loop_once (r ∷ rest) j h =
    ground (arith, winner_loop_later 1 rest (write_points (λ _. 0) r.index 1) j (omega arith))

won_points :
    (standings : List ScoringStanding) (i : ℕ) (s : ScoringStanding)
    → get_elem? standings i ≡ some s
    → winner_loop 0 (sort_by higher (refs_from 0 standings)) (λ _. 0) i
      ≡ (if leads standings i s then 1 else 0)
won_points standings i s e =
    let sorted = sort_by higher (refs_from 0 standings) in
    let once : refs_to i sorted ≡ 1 =
      count_if-sort_by higher (λ r. r.index == i) (refs_from 0 standings)
      ∙ refs_from_one (λ _. true) 0 i i standings s (omega arith) e in
    let leader = winner_from-leads 0 i i standings s (omega arith) e in
    winner_loop_once sorted i once
    ∙ rw (head?-sort_by 0 standings) (ap (λ b. if b then 1 else 0) leader)

get_elem?-reload :
    (store : PointStore) (k i j : ℕ) (standings : List ScoringStanding) (s : ScoringStanding)
    → j ≡ k + i
    → get_elem? standings i ≡ some s
    → get_elem? (reload store k standings) i ≡ some (with_points s (store j))
unfolding reload
get_elem?-reload store k i j [] s h e = cc
get_elem?-reload store k zero j (t ∷ rest) s h e = ground arith
get_elem?-reload store k (suc i) j (t ∷ rest) s h e =
    get_elem?-reload store (k + 1) i j rest s (omega arith) e

-- `RoundWinner` gives one point to the first standing among those with the highest percentage of
-- the round, failed or not, and zero to every other; nothing else of a standing changes.
pub round_winner-leads :
    (standings : List ScoringStanding) (i : ℕ) (s : ScoringStanding)
    → get_elem? standings i ≡ some s
    → get_elem? (round_winner standings) i
      ≡ some (with_points s (if leads standings i s then 1 else 0))
unfolding round_winner
round_winner-leads standings i s e =
    get_elem?-reload _ 0 i i standings s (omega arith) e
    ∙ ap (λ p. some (with_points s p)) (won_points standings i s e)
