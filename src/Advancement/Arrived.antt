-- ===== src/Advancement/Arrived.antt =====
-- The whole of `advanceFromMatch`, for the entrants that it sends on.
use tournament_hub.Common.{
  ℕ, ◌≡◌, refl, subst, inl, inr, true, List, [], map, arith, Bool-cases, Option, Option-cases, none,
  some, All, All-map, Result-cases, ok, ok_injective,
}
use tournament_hub.Placement.{CompetitionKind, match_kind, phase_group_kind}
use tournament_hub.Match.Model.{Entrant, MatchAggregate}
use tournament_hub.Match.Tiebreaks.{entrants_by_placement}
use tournament_hub.Pool.{PhaseGroupAggregate, mark_advanced, complete}
use tournament_hub.Pool.Totals.{is_decided, placements}
use tournament_hub.Advancement.{AdvancementRule, World, find_by_source, load_pool, save_pool}
use tournament_hub.Advancement.Runner.{
  place_direction, Moves, move_all, write_pools, apply_rules, update_phase_group_completion,
  advance_from_match, save_and_tell,
}
use tournament_hub.Advancement.Runs.{write_pools-matches}
use tournament_hub.Advancement.Arrival.{
  IsGrowing, IsGrowing-refl, IsGrowing-trans, IsGrowing-matches, has_arrived, has_arrived-kept,
  move_all-IsGrowing,
}

apply_rules-IsGrowing :
    (w w' : World) (kind : CompetitionKind) (id : ℕ) (placed moved : List Entrant)
    → apply_rules w kind id placed place_direction ≡ ok (w', moved)
    → IsGrowing w w'
      × All (λ (r : AdvancementRule). has_arrived w' placed r ≡ true) (find_by_source w kind id)
unfolding apply_rules
apply_rules-IsGrowing w w' kind id placed moved h =
    let start : Moves = record { world = w; moved = []; by_pool = [] } in
    let rules = find_by_source w kind id in
    elim (Result-cases (move_all place_direction placed rules start)) [
      | inl (x, run) ↦ absurd (ground (arith, h, run))
      | inr (m, run) ↦
          let same : write_pools place_direction m.by_pool m.world ≡ w' = ground (arith, h, run) in
          let (grow, all) = move_all-IsGrowing placed rules start m run in
          let last : IsGrowing m.world w' = subst (IsGrowing m.world) same (
            IsGrowing-matches m.world (write_pools place_direction m.by_pool m.world)
              (write_pools-matches place_direction m.by_pool m.world)) in
          (
            IsGrowing-trans w m.world w' grow last,
            All-map (λ (r : AdvancementRule). has_arrived m.world placed r ≡ true)
                (λ r f. has_arrived-kept m.world w' placed r last f) rules all,
          )
    ]

save_and_tell-IsGrowing :
    (w : World) (pool : PhaseGroupAggregate) → IsGrowing w (save_and_tell w pool)
unfolding save_pool
save_and_tell-IsGrowing w pool = IsGrowing-matches w (save_and_tell w pool) refl

update-IsGrowing :
    (w w' : World) (o : Option ℕ) → update_phase_group_completion w o ≡ ok w' → IsGrowing w w'
unfolding update_phase_group_completion
update-IsGrowing w w' none h = subst (IsGrowing w) (ok_injective h) (IsGrowing-refl w)
update-IsGrowing w w' (some id) h = elim (Option-cases (load_pool w id)) [
  | inl e ↦ let same : w ≡ w' = ground (arith, h, e) in subst (IsGrowing w) same (IsGrowing-refl w)
  | inr (pool, e) ↦ elim (Bool-cases (is_decided pool)) [
    | inr d ↦
        let same : w ≡ w' = ground (arith, h, e, d) in subst (IsGrowing w) same (IsGrowing-refl w)
    | inl d ↦
        elim (Result-cases (apply_rules w phase_group_kind id (placements pool) place_direction)) [
          | inl (x, run) ↦ absurd (ground (arith, h, e, d, run))
          | inr ((v, moved), run) ↦
              let done = complete (mark_advanced pool (map (λ (x : Entrant). x.id) moved)) in
              let same : save_and_tell v done ≡ w' = ground (arith, h, e, d, run) in
              subst (IsGrowing w) same (
                IsGrowing-trans w v (save_and_tell v done)
                  (apply_rules-IsGrowing w v phase_group_kind id (placements pool) moved run).0
                  (save_and_tell-IsGrowing v done))
        ]
  ]
]

-- After `advanceFromMatch`, for each rule of the match that targets a match: the entrant on the rule's
-- place is among the entrants of the target, if there is such an entrant and such a match. The rules of
-- the pool, applied afterwards, take nobody out.
pub advance_from_match-has_arrived :
    (w w' : World) (a : MatchAggregate)
    → advance_from_match w a ≡ ok w'
    → All
        (λ (r : AdvancementRule). has_arrived w' (entrants_by_placement a) r ≡ true)
        (find_by_source w match_kind a.match.id)
unfolding advance_from_match
advance_from_match-has_arrived w w' a h =
    let placed = entrants_by_placement a in
    elim (Result-cases (apply_rules w match_kind a.match.id placed place_direction)) [
      | inl (x, run) ↦ absurd (ground (arith, h, run))
      | inr ((v, moved), run) ↦
          let (_, all) = apply_rules-IsGrowing w v match_kind a.match.id placed moved run in
          let last = update-IsGrowing v w' a.match.phase_group (ground (arith, h, run)) in
          All-map (λ (r : AdvancementRule). has_arrived v placed r ≡ true)
            (λ r f. has_arrived-kept v w' placed r last f) (find_by_source w match_kind a.match.id)
            all
    ]
