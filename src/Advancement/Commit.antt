-- ===== src/Advancement/Commit.antt =====
-- `advanceFromMatch` and `revertFromMatch` as a whole.
use tournament_hub.Common.{
  ℕ, ◌≡◌, refl, ap, ◌∙◌, subst, inl, inr, Bool, false, ◌||◌, [], map, arith, Bool-cases, Option,
  Option-cases, none, some, find, filter, Result-cases, ok, ok_injective,
}
use tournament_hub.Common.Sort.{sort_by}
use tournament_hub.Placement.{match_kind, phase_group_kind}
use tournament_hub.Match.Model.{Entrant, MatchAggregate}
use tournament_hub.Match.Tiebreaks.{entrants_by_placement}
use tournament_hub.Pool.{PhaseGroupAggregate, mark_advanced, complete, reopen}
use tournament_hub.Pool.Totals.{is_decided, placements}
use tournament_hub.Advancement.{
  World, is_match_row, is_source, rule_before, find_by_source, load_pool, save_pool, pool_updated,
}
use tournament_hub.Advancement.Runner.{
  place_direction, remove_direction, apply_rules, update_phase_group_completion,
  revert_phase_group_completion, advance_from_match, revert_from_match, save_and_tell,
}
use tournament_hub.Advancement.Reach.{
  is_target, IsValidWorld, IsWithin, IsWithin-refl, IsWithin-trans, IsWithin-weaken, nowhere,
  emit-IsWithin,
}
use tournament_hub.Advancement.Activity.{but_active, IsCalm}
use tournament_hub.Advancement.Runs.{apply_rules-IsWithin, save_pool-IsWithin}

-- The targets of the rules of a pool.
abbrev pub pool_reach : World → Option ℕ → ℕ → Bool
pool_reach w none id = false
pool_reach w (some pool) id = is_target (find_by_source w phase_group_kind pool) id

-- The targets of the rules of a match and of its pool.
abbrev pub match_reach : World → MatchAggregate → ℕ → Bool
match_reach w a id =
    is_target (find_by_source w match_kind a.match.id) id || pool_reach w a.match.phase_group id

save_and_tell-IsWithin :
    (reach : ℕ → Bool) (w v : World) (pool : PhaseGroupAggregate)
    → IsWithin reach w v
    → IsWithin reach w (save_and_tell v pool)
save_and_tell-IsWithin reach w v pool f = IsWithin-trans reach w v (save_and_tell v pool) f (
    IsWithin-weaken nowhere reach v (save_and_tell v pool) (λ _ _. refl)
      (emit-IsWithin (pool_updated (some pool.phase_group.id)) v (save_pool v pool)
        (save_pool-IsWithin v pool)))

update-IsWithin :
    (w w' : World) (o : Option ℕ)
    → update_phase_group_completion w o ≡ ok w'
    → IsWithin (pool_reach w o) w w'
unfolding update_phase_group_completion
update-IsWithin w w' none h =
    subst (IsWithin (pool_reach w none) w) (ok_injective h) (IsWithin-refl (pool_reach w none) w)
update-IsWithin w w' (some id) h =
    let reach = pool_reach w (some id) in
    elim (Option-cases (load_pool w id)) [
      | inl e ↦
          subst (IsWithin reach w) (ok_injective (rw (update_phase_group_completion, e) at h))
            (IsWithin-refl reach w)
      | inr (pool, e) ↦ elim (Bool-cases (is_decided pool)) [
        | inr d ↦
            let same : w ≡ w' = ground (arith, h, e, d) in
            subst (IsWithin reach w) same (IsWithin-refl reach w)
        | inl d ↦
            elim (Result-cases
              (apply_rules w phase_group_kind id (placements pool) place_direction)) [
                | inl (x, run) ↦ absurd (ground (arith, h, e, d, run))
                | inr ((v, moved), run) ↦
                    let done = complete (mark_advanced pool (map (λ (x : Entrant). x.id) moved)) in
                    let same : save_and_tell v done ≡ w' = ground (arith, h, e, d, run) in
                    subst (IsWithin reach w) same (
                      save_and_tell-IsWithin reach w v done (
                        apply_rules-IsWithin w v phase_group_kind id (placements pool) moved
                          place_direction run))
              ]
      ]
    ]

revert-IsWithin :
    (w w' : World) (o : Option ℕ)
    → revert_phase_group_completion w o ≡ ok w'
    → IsWithin (pool_reach w o) w w'
unfolding revert_phase_group_completion
revert-IsWithin w w' none h =
    subst (IsWithin (pool_reach w none) w) (ok_injective h) (IsWithin-refl (pool_reach w none) w)
revert-IsWithin w w' (some id) h =
    let reach = pool_reach w (some id) in
    elim (Option-cases (load_pool w id)) [
      | inl e ↦
          let same : w ≡ w' = ground (arith, h, e) in
          subst (IsWithin reach w) same (IsWithin-refl reach w)
      | inr (pool, e) ↦
          elim (Result-cases
            (apply_rules w phase_group_kind id (placements pool) remove_direction)) [
              | inl (x, run) ↦ absurd (ground (arith, h, e, run))
              | inr ((v, moved), run) ↦
                  let done = reopen (mark_advanced pool []) in
                  let same : save_and_tell v done ≡ w' = ground (arith, h, e, run) in
                  subst (IsWithin reach w) same (
                    save_and_tell-IsWithin reach w v done (
                      apply_rules-IsWithin w v phase_group_kind id (placements pool) moved
                        remove_direction run))
            ]
    ]

-- A run that ends without an exception.
pub data AdvancementRun (w : World) (a : MatchAggregate) (w' : World) : Type 0 where
  advanced_run : advance_from_match w a ≡ ok w' → AdvancementRun w a w'
  reverted_run : revert_from_match w a ≡ ok w' → AdvancementRun w a w'

pool_reach-rules :
    (v w : World) (o : Option ℕ) (id : ℕ)
    → v.rules ≡ w.rules
    → pool_reach v o id ≡ pool_reach w o id
unfolding find_by_source
pool_reach-rules v w none id e = refl
pool_reach-rules v w (some p) id e =
    ap (λ l. is_target (sort_by rule_before (filter (is_source phase_group_kind p) l)) id) e

-- The rules of the pool are the same after the rules of the match were applied.
then_pool :
    (w v w' : World) (a : MatchAggregate)
    → IsWithin (is_target (find_by_source w match_kind a.match.id)) w v
    → IsWithin (pool_reach v a.match.phase_group) v w'
    → IsWithin (match_reach w a) w w'
then_pool w v w' a f g =
    IsWithin-trans (match_reach w a) w v w'
      (IsWithin-weaken (is_target (find_by_source w match_kind a.match.id)) (match_reach w a) w v
        (λ id out. ground (arith, out)) f)
      (IsWithin-weaken (pool_reach v a.match.phase_group) (match_reach w a) v w'
        (λ id out. pool_reach-rules v w a.match.phase_group id f.rules ∙ ground (arith, out)) g)

AdvancementRun-IsWithin :
    (w w' : World) (a : MatchAggregate) → AdvancementRun w a w' → IsWithin (match_reach w a) w w'
unfolding advance_from_match revert_from_match
AdvancementRun-IsWithin w w' a (advanced_run h) =
    elim (Result-cases
      (apply_rules w match_kind a.match.id (entrants_by_placement a) place_direction)) [
        | inl (x, run) ↦ absurd (ground (arith, h, run))
        | inr ((v, moved), run) ↦
            then_pool w v w' a
              (apply_rules-IsWithin w v match_kind a.match.id (entrants_by_placement a) moved
                place_direction run)
              (update-IsWithin v w' a.match.phase_group (ground (arith, h, run)))
      ]
AdvancementRun-IsWithin w w' a (reverted_run h) =
    elim (Result-cases
      (apply_rules w match_kind a.match.id (entrants_by_placement a) remove_direction)) [
        | inl (x, run) ↦ absurd (ground (arith, h, run))
        | inr ((v, moved), run) ↦
            then_pool w v w' a
              (apply_rules-IsWithin w v match_kind a.match.id (entrants_by_placement a) moved
                remove_direction run)
              (revert-IsWithin v w' a.match.phase_group (ground (arith, h, run)))
      ]

-- To advance from a match, or to withdraw that, leaves every match as it is that no rule of the match or
-- of its pool targets, but for being active or not, and leaves all rules. This is so whatever the
-- recalculations of the schedules activate and deactivate.
pub AdvancementRun-match_reach :
    (w w' : World) (a : MatchAggregate) (id : ℕ)
    → AdvancementRun w a w'
    → match_reach w a id ≡ false
    → (but_active (find (is_match_row id) w'.matches)
        ≡ but_active (find (is_match_row id) w.matches))
      × (w'.rules ≡ w.rules)
AdvancementRun-match_reach w w' a id run out =
    let f = AdvancementRun-IsWithin w w' a run in (f.rows id out, f.rules)

-- To advance from a match, or to withdraw that, keeps the invariant of every stored match: a completed
-- match is inactive, each round has one standing for a player, and the standings of a round carry a score
-- exactly in the song rounds. The recalculations of the schedules are not to activate a match that has
-- a result.
pub AdvancementRun-IsValidWorld :
    (w w' : World) (a : MatchAggregate)
    → AdvancementRun w a w'
    → IsCalm w
    → IsValidWorld w
    → IsValidWorld w'
AdvancementRun-IsValidWorld w w' a run c v = (AdvancementRun-IsWithin w w' a run).valid c v
