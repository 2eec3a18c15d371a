-- ===== src/Commands/Committed.antt =====
-- What `commitResult` does to a match that has no result yet.
use tournament_hub.Common.{
  ℕ, Perm, [], ◌∷◌, ◌||◌, Bool-cases, ◌≡◌, ◌≢◌, ap, ◌∙◌, subst, inl, inr, true, false, arith,
  Option-cases, none, some, All, All-map, Result-cases, err, ok,
}
use tournament_hub.Placement.{match_kind}
use tournament_hub.Match.Model.{MatchAggregate, MatchError}
use tournament_hub.Match.State.{ready_state, state, is_completed, pool_state}
use tournament_hub.Match.Details.{settle}
use tournament_hub.Match.Tiebreaks.{commit, entrants_by_placement}
use tournament_hub.Match.Placed.{entries_of_result, IsByResult, entrants_by_placement-IsByResult}
use tournament_hub.Match.Lifecycle.{commit_iff_ready, commit-eq_committed}
use tournament_hub.Advancement.{AdvancementRule, World, find_by_source, load_match, save_match}
use tournament_hub.Advancement.Runner.{advance_from_match}
use tournament_hub.Advancement.Targets.{load_match-row}
use tournament_hub.Advancement.Arrival.{
  IsGrowing, IsGrowing-refl, IsGrowing-trans, recalculate-IsGrowing, has_arrived, has_arrived-kept,
  IsGrowing-matches,
}
use tournament_hub.Advancement.Arrived.{advance_from_match-has_arrived}
use tournament_hub.Commands.{
  match_error, differs, announce, recalculate_schedule_if_moved, commit_and_advance, commit_result,
}

recalculate_if_moved-IsGrowing :
    (a b : MatchAggregate) (w : World)
    → IsGrowing w (recalculate_schedule_if_moved a (pool_state b) w)
unfolding recalculate_schedule_if_moved
recalculate_if_moved-IsGrowing a b w =
    let after = pool_state a in
    let before = pool_state b in
    elim (Bool-cases (
      differs after.is_completed before.is_completed
      || differs after.awaiting_commit before.awaiting_commit)) [
        | inl e ↦ rw (recalculate_schedule_if_moved, e) (recalculate-IsGrowing (a.match.id ∷ []) w)
        | inr e ↦ rw (recalculate_schedule_if_moved, e) (IsGrowing-refl w)
      ]

announce-matches :
    (a b : MatchAggregate) (w : World) → (announce a (pool_state b) w).matches ≡ w.matches
unfolding announce
announce-matches a b w = ground arith

told-IsGrowing :
    (a b : MatchAggregate) (w : World)
    → IsGrowing w (announce a (pool_state b) (recalculate_schedule_if_moved a (pool_state b) w))
told-IsGrowing a b w =
    let v = recalculate_schedule_if_moved a (pool_state b) w in
    IsGrowing-trans w v (announce a (pool_state b) v) (recalculate_if_moved-IsGrowing a b w)
      (IsGrowing-matches v (announce a (pool_state b) v) (announce-matches a b v))

no_result : (a : MatchAggregate) → is_completed a ≡ false → a.match.match_result ≡ none
no_result a h = elim (Option-cases a.match.match_result) [
  | inl e ↦ e
  | inr (r, e) ↦ absurd (cc (rw e at h))
]

-- `commitResult` of a match that has no result and is not ready throws, and nothing that is stored
-- changes.
pub commit_result-refused :
    (w : World) (id : ℕ) (a : MatchAggregate)
    → load_match w id ≡ some a
    → is_completed a ≡ false
    → state a ≢ ready_state
    → (e : MatchError) × (commit_result w id ≡ err (w, match_error e))
unfolding commit_result commit_and_advance
commit_result-refused w id a loaded fresh unready = elim (Result-cases (commit a)) [
  | inl (e, run) ↦ (e, ground (arith, loaded, fresh, run))
  | inr (a', run) ↦ absurd (unready ((commit_iff_ready a (no_result a fresh)).0 (a', run)))
]

committed-id : (a a' : MatchAggregate) → commit a ≡ ok a' → a'.match.id ≡ a.match.id
committed-id a a' h = ap (λ (b : MatchAggregate). b.match.id) (commit-eq_committed a a' h)

-- After a successful `commitResult` of a match that had no result, each match that a rule of the match
-- targets has the entrant whom the committed result puts on the rule's place, if there is one. The places
-- are those of the match's entrants in the order of the committed result, those without an entry last.
pub commit_result-has_arrived :
    (w w' : World) (id : ℕ) (a : MatchAggregate)
    → load_match w id ≡ some a
    → is_completed a ≡ false
    → commit_result w id ≡ ok w'
    → (a' : MatchAggregate) × (commit a ≡ ok a')
      × Perm (entrants_by_placement a') a'.match.entrants
      × IsByResult (entries_of_result a') (entrants_by_placement a')
      × All
          (λ (r : AdvancementRule). has_arrived w' (entrants_by_placement a') r ≡ true)
          (find_by_source w match_kind id)
unfolding commit_result commit_and_advance find_by_source entrants_by_placement settle
commit_result-has_arrived w w' id a loaded fresh h = elim (Result-cases (commit a)) [
  | inl (e, run) ↦ absurd (ground (arith, h, loaded, fresh, run))
  | inr (a', run) ↦ elim (Result-cases (advance_from_match (save_match w a') (settle a'))) [
    | inl (x, k) ↦ absurd (ground (arith, h, loaded, fresh, run, k))
    | inr (v, k) ↦
        let same : announce (settle a') (pool_state a)
              (recalculate_schedule_if_moved (settle a') (pool_state a) v)
            ≡ w' =
          ground (arith, h, loaded, fresh, run, k) in
        let at : a'.match.id ≡ id = committed-id a a' run ∙ (load_match-row w id a loaded).0 in
        let grow : IsGrowing v w' = subst (IsGrowing v) same (told-IsGrowing (settle a') a v) in
        let placed = entrants_by_placement a' in
        let arrived : All (λ (r : AdvancementRule). has_arrived v placed r ≡ true)
            (find_by_source w match_kind a'.match.id) =
          advance_from_match-has_arrived (save_match w a') v (settle a') k in
        (
          a',
          run,
          (entrants_by_placement-IsByResult a').0,
          (entrants_by_placement-IsByResult a').1,
          subst
              (λ i.
                All (λ (r : AdvancementRule). has_arrived w' placed r ≡ true)
                  (find_by_source w match_kind i))
              at
              (All-map (λ (r : AdvancementRule). has_arrived v placed r ≡ true)
                (λ r f. has_arrived-kept v w' placed r grow f)
                (find_by_source w match_kind a'.match.id) arrived),
        )
  ]
]
