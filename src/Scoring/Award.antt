-- ===== src/Scoring/Award.antt =====
-- `awardPlacementPoints`: the loop over runs of equal percentages, and its closed form.
use tournament_hub.Common.{
  ℕ, zero, suc, ◌+◌, ◌-◌, ◌≤◌, ◌<◌, ◌≡◌, refl, sym, ap, ◌∙◌, inl, inr, Bool, true, false, List, [],
  ◌∷◌, ◌++◌, arith, ltb, ◌==◌, ==_iff, Bool-cases, length, count_if, All, All-append_left,
  All-append_right, All-map, length-append, count_if-append,
}
use tournament_hub.Common.Sort.{IsSorted, IsOrder}
use tournament_hub.Scoring.{
  StandingRef, PointStore, higher, tie_run, write_points, write_all, award_loop,
}

-- How many references stand for the object at `j`.
abbrev pub refs_to : ℕ → List StandingRef → ℕ
refs_to j = count_if (λ r. r.index == j)

-- How many references have a percentage above `q`.
abbrev pub better_than : ℕ → List StandingRef → ℕ
better_than q = count_if (λ r. ltb q r.score.percentage)

-- Whatever refers to `j` has the percentage `q`.
abbrev pub Agrees : ℕ → ℕ → List StandingRef → Type 0
Agrees j q = All (λ r. r.index ≡ j → r.score.percentage ≡ q)

pub higher-IsOrder : IsOrder higher
higher-IsOrder = record { asymm = λ a b h. ground arith; chain = λ a b c h k. ground arith }

tie_run-append : (q : ℕ) (l : List StandingRef) → (tie_run q l).0 ++ (tie_run q l).1 ≡ l
unfolding tie_run
tie_run-append q [] = refl
tie_run-append q (r ∷ rest) = ground (arith, tie_run-append q rest)

tie_run_same : (q : ℕ) (l : List StandingRef) → All (λ r. r.score.percentage ≡ q) (tie_run q l).0
unfolding tie_run
tie_run_same q [] = tt
tie_run_same q (r ∷ rest) = elim (Bool-cases (r.score.percentage == q)) [
  | inl e ↦ rw e ((==_iff _ _).0 e, tie_run_same q rest)
  | inr e ↦ rw e tt
]

write_all_other :
    (l : List StandingRef) (p : ℕ) (store : PointStore) (j : ℕ)
    → refs_to j l ≡ 0
    → write_all l p store j ≡ store j
unfolding write_all
write_all_other [] p store j h = refl
write_all_other (r ∷ rest) p store j h =
    ground (arith, write_all_other rest p (write_points store r.index p) j)

write_all_self :
    (l : List StandingRef) (p : ℕ) (store : PointStore) (j : ℕ)
    → store j ≡ p
    → write_all l p store j ≡ p
unfolding write_all
write_all_self [] p store j h = h
write_all_self (r ∷ rest) p store j h = write_all_self rest p _ j (ground arith)

write_all_hit :
    (l : List StandingRef) (p : ℕ) (store : PointStore) (j : ℕ)
    → 1 ≤ refs_to j l
    → write_all l p store j ≡ p
unfolding write_all
write_all_hit [] p store j h = absurd (omega arith)
write_all_hit (r ∷ rest) p store j h = elim (Bool-cases (r.index == j)) [
  | inl e ↦ write_all_self rest p _ j (rw e refl)
  | inr e ↦ write_all_hit rest p _ j (ground arith)
]

-- Two facts about sorted references: nothing in the list beats its head, and what stands behind a
-- run of the head's percentage is strictly below it.
better_than_head :
    (q : ℕ) (l : List StandingRef)
    → All (λ r. ltb q r.score.percentage ≡ false) l
    → better_than q l ≡ 0
better_than_head q [] h = refl
better_than_head q (r ∷ rest) h = rw (h.0, better_than_head q rest h.1)

IsSorted-append_right : (xs ys : List StandingRef) → IsSorted higher (xs ++ ys) → IsSorted higher ys
IsSorted-append_right [] ys s = s
IsSorted-append_right (x ∷ xs) ys s = IsSorted-append_right xs ys s.1

refs_to-below :
    (j q : ℕ) (l : List StandingRef)
    → Agrees j q l
    → All (λ r. (r.score.percentage == q) ≡ false) l
    → refs_to j l ≡ 0
refs_to-below j q [] a b = refl
refs_to-below j q (r ∷ rest) a b = elim (Bool-cases (r.index == j)) [
  | inl e ↦ absurd (ground (arith, a.0 ((==_iff _ _).0 e), b.0))
  | inr e ↦ rw e (omega (arith, refs_to-below j q rest a.1 b.1))
]

-- What is left after the run is below the run's percentage.
tie_run_rest :
    (q : ℕ) (l : List StandingRef)
    → IsSorted higher l
    → All (λ r. ltb q r.score.percentage ≡ false) l
    → All (λ r. (r.score.percentage == q) ≡ false) (tie_run q l).1
unfolding tie_run
tie_run_rest q [] s h = tt
tie_run_rest q (r ∷ rest) s h = elim (Bool-cases (r.score.percentage == q)) [
  | inl e ↦ rw e (tie_run_rest q rest s.1 h.1)
  | inr e ↦ rw e (
    e,
    All-map (λ t. ltb r.score.percentage t.score.percentage ≡ false) (λ t ht. ground (arith, h.0))
        rest s.0,
  )
]

-- All of a run of one percentage above `q` counts as better than `q`.
better_than_run :
    (q p : ℕ) (l : List StandingRef)
    → q < p
    → All (λ r. r.score.percentage ≡ p) l
    → better_than q l ≡ length l
better_than_run q p [] h a = refl
better_than_run q p (r ∷ rest) h a = ground (arith, better_than_run q p rest, a.0)

-- Counting over a run and its rest is counting over the whole.
count_if-tie_run :
    (f : StandingRef → Bool) (q : ℕ) (l : List StandingRef)
    → count_if f (tie_run q l).0 + count_if f (tie_run q l).1 ≡ count_if f l
count_if-tie_run f q l =
    sym (count_if-append f (tie_run q l).0 (tie_run q l).1) ∙ ap (count_if f) (tie_run-append q l)

length-tie_run :
    (q : ℕ) (l : List StandingRef) → length (tie_run q l).0 + length (tie_run q l).1 ≡ length l
length-tie_run q l =
    sym (length-append (tie_run q l).0 (tie_run q l).1) ∙ ap length (tie_run-append q l)

pub award_loop_other :
    (fuel : ℕ) (l : List StandingRef) (p : ℕ) (store : PointStore) (j : ℕ)
    → refs_to j l ≡ 0
    → award_loop fuel l p store j ≡ store j
unfolding award_loop
award_loop_other zero l p store j h = refl
award_loop_other (suc fuel) [] p store j h = refl
award_loop_other (suc fuel) (r ∷ rest) p store j h =
    let run = tie_run r.score.percentage rest in
    let split = count_if-tie_run (λ t. t.index == j) r.score.percentage rest in
    award_loop_other fuel run.1 (p - suc (length run.0)) (write_all (r ∷ run.0) p store) j
      (omega (arith, split))
    ∙ write_all_other (r ∷ run.0) p store j (omega (arith, split))

-- A reference to `j` bounds its percentage by what bounds the list.
refs_to-le :
    (j q top : ℕ) (l : List StandingRef)
    → Agrees j q l
    → All (λ r. ltb top r.score.percentage ≡ false) l
    → 1 ≤ refs_to j l
    → q ≤ top
refs_to-le j q top [] a b h = absurd (omega arith)
refs_to-le j q top (r ∷ rest) a b h = elim (Bool-cases (r.index == j)) [
  | inl e ↦ ground (arith, a.0 ((==_iff _ _).0 e), b.0)
  | inr e ↦ refs_to-le j q top rest a.1 b.1 (ground (arith, e))
]

-- One round of the loop, at a reference `r` that heads the sorted references.
module _ (r : StandingRef) (rest : List StandingRef) (j q : ℕ) (s : IsSorted higher (r ∷ rest))
    (a : Agrees j q (r ∷ rest)) (h : 1 ≤ refs_to j (r ∷ rest)) where
  abbrev top : ℕ
  top = r.score.percentage

  abbrev run : List StandingRef × List StandingRef
  run = tie_run top rest

  Agrees-parts : Agrees j q (run.0 ++ run.1)
  Agrees-parts = rw (tie_run-append top rest) a.1

  Agrees-run : Agrees j q run.0
  Agrees-run = All-append_left (λ t. t.index ≡ j → t.score.percentage ≡ q) run.0 run.1 Agrees-parts

  pub Agrees-rest : Agrees j q run.1
  Agrees-rest =
      All-append_right (λ t. t.index ≡ j → t.score.percentage ≡ q) run.0 run.1 Agrees-parts

  pub IsSorted-rest : IsSorted higher run.1
  IsSorted-rest = IsSorted-append_right run.0 run.1 (rw (tie_run-append top rest) s.1)

  -- the object is tied with the head: it is in the run, and nothing beats it
  module _ (e : (q == top) ≡ true) where
    refs_to-rest_tied : refs_to j run.1 ≡ 0
    refs_to-rest_tied =
        refs_to-below j q run.1 Agrees-rest
          (rw ((==_iff q top).0 e) (tie_run_rest top rest s.1 s.0))

    pub round_tied :
        (fuel p : ℕ) (store : PointStore)
        → award_loop fuel run.1 (p - suc (length run.0)) (write_all (r ∷ run.0) p store) j
            + better_than q (r ∷ rest)
          ≡ p
    round_tied fuel p store =
        let none_better = better_than_head q (r ∷ rest) (
          ground (arith, e),
          All-map (λ t. ltb top t.score.percentage ≡ false) (λ t ht. ground (arith, e, ht)) rest
              s.0,
        ) in
        let written =
          write_all_hit (r ∷ run.0) p store j
            (omega (arith, refs_to-rest_tied, count_if-tie_run (λ t. t.index == j) top rest)) in
        omega (
          arith,
          none_better,
          written,
          award_loop_other fuel run.1 (p - suc (length run.0)) (write_all (r ∷ run.0) p store) j
              refs_to-rest_tied,
        )

  -- the object is below the head: the whole run is better
  module _ (e : (q == top) ≡ false) where
    refs_to-run_below : refs_to j (r ∷ run.0) ≡ 0
    refs_to-run_below =
        refs_to-below j q (r ∷ run.0) (a.0, Agrees-run)
          (
            ground (arith, e),
            All-map (λ t. t.score.percentage ≡ top) (λ t ht. ground (arith, e, ht)) run.0
                (tie_run_same top rest),
          )

    refs_to-rest_below : 1 ≤ refs_to j run.1
    refs_to-rest_below =
        omega (arith, refs_to-run_below, count_if-tie_run (λ t. t.index == j) top rest)

    better_than-split : better_than q (r ∷ rest) ≡ suc (length run.0) + better_than q run.1
    better_than-split =
        let below : q < top =
          ground (arith, e, refs_to-le j q top (r ∷ rest) a (ground arith, s.0) h) in
        let of_run = better_than_run q top run.0 below (tie_run_same top rest) in
        let split = count_if-tie_run (λ t. ltb q t.score.percentage) top rest in
        ground (arith, below, of_run, split)

-- With fuel for every reference, the object at `j` gets `p` less the number of better ones.
pub award_loop_hit :
    (fuel : ℕ) (l : List StandingRef) (p : ℕ) (store : PointStore) (j q : ℕ)
    → length l ≤ fuel
    → length l ≤ p
    → IsSorted higher l
    → Agrees j q l
    → 1 ≤ refs_to j l
    → award_loop fuel l p store j + better_than q l ≡ p
unfolding award_loop
award_loop_hit fuel [] p store j q hf hp s a h = absurd (omega arith)
award_loop_hit zero (r ∷ rest) p store j q hf hp s a h = absurd (omega arith)
award_loop_hit (suc fuel) (r ∷ rest) p store j q hf hp s a h =
    let run = tie_run r.score.percentage rest in
    let len = length-tie_run r.score.percentage rest in
    let later = write_all (r ∷ run.0) p store in
    elim (Bool-cases (q == r.score.percentage)) [
      | inl e ↦ round_tied r rest j q s a h e fuel p store
      | inr e ↦ omega (
        arith,
        len,
        better_than-split r rest j q s a h e,
        award_loop_hit fuel run.1 (p - suc (length run.0)) later j q (omega (arith, len))
            (omega (arith, len)) (IsSorted-rest r rest j q s a h) (Agrees-rest r rest j q s a h)
            (refs_to-rest_below r rest j q s a h e),
      )
    ]
