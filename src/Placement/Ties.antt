-- ===== src/Placement/Ties.antt =====
-- What an ambiguous tie says, and what its absence guarantees to the advancement rules.
use mathlib.Core.List.{flatten}
use tournament_hub.Common.{
  ℕ, zero, suc, ◌+◌, ◌≤◌, ◌<◌, ◌≡◌, ◌≢◌, refl, sym, ◌∙◌, inl, inr, true, false, List, [], ◌∷◌, ◌++◌,
  some, none, arith, ◌==◌, Bool-cases, length, All, All-map, All-append, length-append, any,
  count_if, count_if-append, count_if-le-length, All-both,
}
use tournament_hub.Placement.{
  match_kind, phase_group_kind, AdvancementRouting, TiebreakPlacementInput, PlacementPointEntry,
  MatchResultEntry, PlacementGroup,
}
use tournament_hub.Placement.Materialize.{
  Averages, Outcome, outcome_of, same_outcome, distinct_outcomes, rule_at, outcomes_at,
  separates_outcomes, split_by_average, place_group, place_groups, materialize_entries,
  materialize_ties, materialize, final_groups, resolve_placements, averages_of,
}
use tournament_hub.Placement.Ranks.{
  IsRanked-same, place_groups-IsRanked, placed, placed-IsRanked, length-placed, length-place_group,
  place_group_placement, length-split_by_average, materialize_entries-IsRanked,
}

same_outcome_sound : (a b : Outcome) → same_outcome a b ≡ true → a ≡ b
same_outcome_sound none none h = refl
same_outcome_sound none (some b) h = cc
same_outcome_sound (some a) none h = cc
same_outcome_sound (some (match_kind, i, s)) (some (match_kind, j, t)) h = ground arith
same_outcome_sound (some (match_kind, i, s)) (some (phase_group_kind, j, t)) h = cc
same_outcome_sound (some (phase_group_kind, i, s)) (some (match_kind, j, t)) h = cc
same_outcome_sound (some (phase_group_kind, i, s)) (some (phase_group_kind, j, t)) h = ground arith

any-same_outcome :
    (o x : Outcome) (l : List Outcome) → All (λ y. y ≡ x) l → any (same_outcome o) l ≡ true → o ≡ x
any-same_outcome o x [] h e = cc
any-same_outcome o x (y ∷ l) h e = elim (Bool-cases (same_outcome o y)) [
  | inl same ↦ same_outcome_sound o y same ∙ h.0
  | inr other ↦ any-same_outcome o x l h.1 (ground arith)
]

distinct_outcomes-pos : (x : Outcome) (l : List Outcome) → 1 ≤ length (distinct_outcomes (x ∷ l))
unfolding distinct_outcomes
distinct_outcomes-pos x [] = omega arith
distinct_outcomes-pos x (y ∷ l) = ground (arith, distinct_outcomes-pos y l)

-- A set of at most one element: all outcomes are the first.
distinct_outcomes-one :
    (x : Outcome) (l : List Outcome) → length (distinct_outcomes (x ∷ l)) ≤ 1 → All (λ y. y ≡ x) l
unfolding distinct_outcomes
distinct_outcomes-one x [] h = tt
distinct_outcomes-one x (y ∷ l) h =
    let rest : All (λ z. z ≡ y) l = distinct_outcomes-one y l (ground arith) in
    elim (Bool-cases (any (same_outcome x) (y ∷ l))) [
      | inl e ↦
          let same : x ≡ y = any-same_outcome x y (y ∷ l) (refl, rest) e in
          (sym same, All-map (λ z. z ≡ y) (λ z k. k ∙ sym same) l rest)
      | inr e ↦ absurd (ground (arith, e, distinct_outcomes-pos y l))
    ]

module _ (rules : List AdvancementRouting) where
  -- Where the rules of a match send the player of a placement.
  abbrev pub outcome_at : ℕ → Outcome
  outcome_at placement = outcome_of (rule_at rules placement)

  -- The `n` placements from `p` on all lead to the same target.
  abbrev pub SameOutcome : ℕ → ℕ → Type 0
  SameOutcome p n = (i : ℕ) → i < n → outcome_at (p + i) ≡ outcome_at p

  outcomes_at-All :
      (x : Outcome) (p : ℕ) (group : PlacementGroup)
      → All (λ y. y ≡ x) (outcomes_at rules p group)
      → (i q : ℕ) → q ≡ p + i
      → i < length group
      → outcome_at q ≡ x
  unfolding outcomes_at
  outcomes_at-All x p [] h i q e k = absurd (omega arith)
  outcomes_at-All x p (entry ∷ rest) h zero q e k = let same : q ≡ p = omega arith in rw same h.0
  outcomes_at-All x p (entry ∷ rest) h (suc i) q e k =
      outcomes_at-All x (p + 1) rest h.1 i q (omega arith) (omega arith)

  separates_outcomes-SameOutcome :
      (group : PlacementGroup) (p : ℕ)
      → separates_outcomes rules group p ≡ false
      → SameOutcome p (length group)
  unfolding separates_outcomes outcomes_at
  separates_outcomes-SameOutcome [] p h i k = absurd (omega arith)
  separates_outcomes-SameOutcome (e ∷ []) p h i k = let same : p + i ≡ p = omega arith in rw same
  separates_outcomes-SameOutcome (e ∷ f ∷ group) p h i k =
      let all_same =
        distinct_outcomes-one (outcome_at p) (outcomes_at rules (p + 1) (f ∷ group))
          (ground arith) in
      outcomes_at-All (outcome_at p) p (e ∷ f ∷ group) (refl, all_same) i (p + i) refl k

  -- How many entries share a placement.
  abbrev pub sharing : ℕ → List MatchResultEntry → ℕ
  sharing p = count_if (λ (e : MatchResultEntry). e.placement == p)

  -- The players that share a placement occupy as many places, and all of these lead to one target.
  abbrev pub IsDecided : List MatchResultEntry → Type 0
  IsDecided l = All (λ (e : MatchResultEntry). SameOutcome e.placement (sharing e.placement l)) l

  sharing_none :
      (p : ℕ) (l : List MatchResultEntry)
      → All (λ (e : MatchResultEntry). e.placement ≢ p) l
      → sharing p l ≡ 0
  sharing_none p [] h = refl
  sharing_none p (e ∷ l) h = ground (arith, h.0, sharing_none p l h.1)

  IsDecided-append :
      (m : ℕ) (xs ys : List MatchResultEntry)
      → All (λ (e : MatchResultEntry). e.placement ≤ m) xs
      → All (λ (e : MatchResultEntry). m < e.placement) ys
      → IsDecided xs
      → IsDecided ys
      → IsDecided (xs ++ ys)
  IsDecided-append m xs ys bx by dx dy =
      All-append _ xs ys
        (All-map
          (λ (e : MatchResultEntry).
            (e.placement ≤ m) × SameOutcome e.placement (sharing e.placement xs))
          (λ e h i k. h.1 i (
            omega (
              arith,
              count_if-append (λ (f : MatchResultEntry). f.placement == e.placement) xs ys,
              sharing_none e.placement ys
                  (All-map (λ (f : MatchResultEntry). m < f.placement) (λ f g. omega arith) ys by),
            )))
          xs (All-both _ _ xs bx dx))
        (All-map
          (λ (e : MatchResultEntry).
            (m < e.placement) × SameOutcome e.placement (sharing e.placement ys))
          (λ e h i k. h.1 i (
            omega (
              arith,
              count_if-append (λ (f : MatchResultEntry). f.placement == e.placement) xs ys,
              sharing_none e.placement xs
                  (All-map (λ (f : MatchResultEntry). f.placement ≤ m) (λ f g. omega arith) xs bx),
            )))
          ys (All-both _ _ ys by dy))

  IsDecided-same :
      (p : ℕ) (l : List MatchResultEntry)
      → All (λ (e : MatchResultEntry). e.placement ≡ p) l
      → SameOutcome p (length l)
      → IsDecided l
  IsDecided-same p l h same =
      All-map (λ (e : MatchResultEntry). e.placement ≡ p)
        (λ e k. rw k (λ i j.
          same i
            (omega (arith, count_if-le-length (λ (f : MatchResultEntry). f.placement == p) l))))
        l h

  SameOutcome-part : (p n k m : ℕ) → SameOutcome p n → k + m ≤ n → SameOutcome (p + k) m
  SameOutcome-part p n k m same h i j =
      let moved : p + k + i ≡ p + (k + i) = omega arith in
      rw moved (same (k + i) (omega arith) ∙ sym (same k (omega arith)))

  place_groups-IsDecided :
      (p n k o s : ℕ) (groups : List PlacementGroup)
      → s ≡ p + k
      → s ≡ o + 1
      → SameOutcome p n
      → k + length (flatten groups) ≤ n
      → IsDecided (place_groups groups s)
  unfolding place_groups flatten
  place_groups-IsDecided p n k o s [] e f same h = tt
  place_groups-IsDecided p n k o s (group ∷ rest) e f same h =
      let size = length-place_group group s in
      let sizes = length-append group (flatten rest) in
      let here = place_group_placement group s in
      let later = place_groups rest (s + length group) in
      let ranked = place_groups-IsRanked rest (o + length group) (s + length group) (omega arith) in
      IsDecided-append (o + length (place_group group s)) (place_group group s) later
        ((IsRanked-same o (place_group group s) (rw (← f) here)).below) (rw size (ranked.above))
        (IsDecided-same s (place_group group s) here (λ i j. rw e (
          SameOutcome-part p n k (length group) same (omega (arith, sizes)) i
            (omega (arith, size)))))
        (place_groups-IsDecided p n (k + length group) (o + length group) (s + length group) rest
          (omega arith) (omega arith) same (omega (arith, sizes)))

  module _ (averages : Averages) where
    -- A group that the rules do not separate is decided, however its averages split it.
    placed-IsDecided :
        (group : PlacementGroup) (offset : ℕ)
        → separates_outcomes rules group (offset + 1) ≡ false
        → IsDecided (placed rules averages group offset)
    placed-IsDecided group offset e = rw e (
        place_groups-IsDecided (offset + 1) (length group) 0 offset (offset + 1)
          (split_by_average group averages) (omega arith) refl
          (separates_outcomes-SameOutcome group (offset + 1) e)
          (omega (arith, length-split_by_average group averages)))

    materialize_entries-IsDecided :
        (groups : List PlacementGroup) (offset : ℕ)
        → materialize_ties rules averages groups offset ≡ []
        → IsDecided (materialize_entries rules averages groups offset)
    unfolding materialize_entries materialize_ties
    materialize_entries-IsDecided [] offset e = tt
    materialize_entries-IsDecided (group ∷ rest) offset e =
        let later = materialize_entries rules averages rest (offset + length group) in
        let own = placed-IsRanked rules averages group offset in
        let others = materialize_entries-IsRanked rules averages rest (offset + length group) in
        elim (Bool-cases (separates_outcomes rules group (offset + 1))) [
          | inl separated ↦ absurd (cc (rw separated at e))
          | inr settled ↦
              IsDecided-append (offset + length group) (placed rules averages group offset) later
                (rw (length-placed rules averages group offset) at own.below) others.above
                (placed-IsDecided group offset settled)
                (materialize_entries-IsDecided rest (offset + length group) (rw settled at e))
        ]

-- Where `resolvePlacements` reports no ambiguous tie, the advancement rules of the match are
-- unequivocal: the `n` players that share a placement `p` occupy the places `p` to `p + n - 1`, and
-- the rules send every one of these places to the same target slot, or none of them anywhere.
pub resolve_placements-IsDecided :
    (point_entries : List PlacementPointEntry) (tiebreaks : List TiebreakPlacementInput)
    (rules : List AdvancementRouting)
    → (resolve_placements point_entries tiebreaks rules).ambiguous_ties ≡ []
    → IsDecided rules (resolve_placements point_entries tiebreaks rules).entries
unfolding resolve_placements materialize
resolve_placements-IsDecided point_entries tiebreaks rules e =
    materialize_entries-IsDecided rules (averages_of point_entries)
      (final_groups point_entries tiebreaks) 0 e
