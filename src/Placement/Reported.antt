-- ===== src/Placement/Reported.antt =====
-- The ambiguous ties that `resolvePlacements` reports.
use tournament_hub.Common.{
  ℕ, suc, ◌+◌, ◌≤◌, ◌<◌, ◌≡◌, refl, ◌∙◌, inl, inr, true, List, [], ◌∷◌, some, none, arith,
  Bool-cases, length, All, length-append, length-map,
}
use tournament_hub.Common.Sort.{length-sort_by}
use tournament_hub.Placement.{
  match_kind, phase_group_kind, AdvancementRouting, TiebreakPlacementInput, PlacementPointEntry,
  MatchPlacementTie, PlacementGroup,
}
use tournament_hub.Placement.Materialize.{
  Averages, Outcome, same_outcome, distinct_outcomes, outcomes_at, separates_outcomes, by_player_id,
  tie_of, materialize_entries, materialize_ties, materialize, final_groups, resolve_placements,
  averages_of,
}
use tournament_hub.Placement.Ranks.{placed, length-placed}
use tournament_hub.Placement.Ties.{outcome_at, SameOutcome}

same_outcome_refl : (a : Outcome) → same_outcome a a ≡ true
same_outcome_refl none = refl
same_outcome_refl (some (match_kind, i, s)) = ground arith
same_outcome_refl (some (phase_group_kind, i, s)) = ground arith

distinct_outcomes-same :
    (x : Outcome) (l : List Outcome) → All (λ y. y ≡ x) l → length (distinct_outcomes l) ≤ 1
unfolding distinct_outcomes
distinct_outcomes-same x [] h = omega arith
distinct_outcomes-same x (y ∷ []) h = omega arith
distinct_outcomes-same x (y ∷ z ∷ l) h =
    let same : same_outcome y z ≡ true = rw (h.0, h.1.0) (same_outcome_refl x) in
    rw same (distinct_outcomes-same x (z ∷ l) h.1)

module _ (rules : List AdvancementRouting) where
  outcomes_at-same :
      (x : Outcome) (p : ℕ) (group : PlacementGroup)
      → ((i q : ℕ) → q ≡ p + i → i < length group → outcome_at rules q ≡ x)
      → All (λ y. y ≡ x) (outcomes_at rules p group)
  unfolding outcomes_at
  outcomes_at-same x p [] h = tt
  outcomes_at-same x p (e ∷ group) h = (
    h 0 p (omega arith) (omega arith),
    outcomes_at-same x (p + 1) group (λ i q e k. h (suc i) q (omega arith) (omega arith)),
  )

  not-SameOutcome :
      (group : PlacementGroup) (p : ℕ)
      → separates_outcomes rules group p ≡ true
      → (2 ≤ length group) × ¬ SameOutcome rules p (length group)
  unfolding separates_outcomes
  not-SameOutcome group p h = (
    ground arith,
    λ same. absurd (
        ground (
          arith,
          h,
          distinct_outcomes-same (outcome_at rules p) (outcomes_at rules p group)
              (outcomes_at-same (outcome_at rules p) p group (λ i q e k. rw e (same i k))),
        )),
  )

  -- A tie of at least two players, over as many places among the first `n`, which the rules do not
  -- all send to the same target.
  pub record IsGenuine (n : ℕ) (t : MatchPlacementTie) : Type 0 where
    pub several : 2 ≤ length t.player_ids
    pub spans : t.from_placement + length t.player_ids ≡ t.to_placement + 1
    pub starts : 1 ≤ t.from_placement
    pub ends : t.to_placement ≤ n
    pub matters : ¬ SameOutcome rules t.from_placement (length t.player_ids)

  length-tie_of :
      (group : PlacementGroup) (p : ℕ) → length (tie_of group p).player_ids ≡ length group
  unfolding tie_of by_player_id
  length-tie_of group p = length-map _ (by_player_id group) ∙ length-sort_by _ group

  tie_of-IsGenuine :
      (group : PlacementGroup) (offset n : ℕ)
      → offset + length group ≤ n
      → separates_outcomes rules group (offset + 1) ≡ true
      → IsGenuine n (tie_of group (offset + 1))
  unfolding tie_of
  tie_of-IsGenuine group offset n h e =
      let found = not-SameOutcome group (offset + 1) e in
      let size = length-tie_of group (offset + 1) in
      record {
        several = omega (arith, found.0);
        spans = omega (arith, found.0);
        starts = omega arith;
        ends = omega (arith, found.0);
        matters = λ same. found.1 (λ i k. same i (omega arith));
      }

  materialize_ties-IsGenuine :
      (averages : Averages) (groups : List PlacementGroup) (offset n : ℕ)
      → offset + length (materialize_entries rules averages groups offset) ≤ n
      → All (IsGenuine n) (materialize_ties rules averages groups offset)
  unfolding materialize_ties materialize_entries
  materialize_ties-IsGenuine averages [] offset n h = tt
  materialize_ties-IsGenuine averages (group ∷ rest) offset n h =
      let later = materialize_entries rules averages rest (offset + length group) in
      let sizes = length-append (placed rules averages group offset) later in
      let own = length-placed rules averages group offset in
      let others =
        materialize_ties-IsGenuine averages rest (offset + length group) n
          (omega (arith, sizes, own)) in
      elim (Bool-cases (separates_outcomes rules group (offset + 1))) [
        | inl e ↦ rw e (tie_of-IsGenuine group offset n (omega (arith, sizes, own)) e, others)
        | inr e ↦ rw e others
      ]

-- Every ambiguous tie that `resolvePlacements` reports holds at least two players over as many
-- consecutive places among those handed out, and the advancement rules of the match do not send all
-- of these places to the same target.
pub resolve_placements-IsGenuine :
    (point_entries : List PlacementPointEntry) (tiebreaks : List TiebreakPlacementInput)
    (rules : List AdvancementRouting)
    → All
        (IsGenuine rules (length (resolve_placements point_entries tiebreaks rules).entries))
        (resolve_placements point_entries tiebreaks rules).ambiguous_ties
unfolding resolve_placements materialize
resolve_placements-IsGenuine point_entries tiebreaks rules =
    materialize_ties-IsGenuine rules (averages_of point_entries)
      (final_groups point_entries tiebreaks) 0 _ (omega arith)
