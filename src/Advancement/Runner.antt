-- ===== src/Advancement/Runner.antt =====
-- structure/advancement/advancement.runner.ts: the entrants of a committed match or a decided pool go to
-- the targets of its rules, and come back when the result is withdrawn.
-- An exception of a match leaves the world as it is at that point.
use tournament_hub.Common.{
  ℕ, zero, suc, List, [], ◌∷◌, ◌++◌, map, Option, none, some, ◌==◌, if◌then◌else◌, get_elem?,
  Result, err, ok,
}
use tournament_hub.Placement.{CompetitionKind, match_kind, phase_group_kind}
use tournament_hub.Match.Model.{Entrant, MatchAggregate, MatchError}
use tournament_hub.Match.Scores.{place_entrant, remove_entrant}
use tournament_hub.Match.Tiebreaks.{entrants_by_placement}
use tournament_hub.Pool.{PhaseGroupAggregate, place, release, mark_advanced, complete, reopen}
use tournament_hub.Pool.Totals.{is_decided, placements}
use tournament_hub.Advancement.{
  AdvancementRule, World, match_updated, pool_updated, recalculate, find_by_source, load_match,
  save_match, load_pool, save_pool, emit,
}

pub data Direction : Type 0 where
  place_direction remove_direction : Direction

abbrev pub Run : Type 0 → Type 0
Run A = Result (World × MatchError) A

abbrev pub PoolPlacement : Type 0
PoolPlacement = AdvancementRule × Entrant

-- The save of `writeTargetMatch` and what follows it.
abbrev pub save_target : World → MatchAggregate → World
save_target w target = emit (pool_updated target.match.phase_group) (
    emit (match_updated target.match.id) (recalculate (target.match.id ∷ []) (save_match w target)))

unfoldable pub place_in : World → MatchAggregate → Entrant → ℕ → Run World
place_in w target entrant slot = elim (place_entrant target entrant slot) [
  | err e ↦ err (w, e)
  | ok target' ↦ ok (save_target w target')
]

unfoldable pub remove_from : World → MatchAggregate → ℕ → Run World
remove_from w target id = elim (remove_entrant target id) [
  | err e ↦ err (w, e)
  | ok (target', changed) ↦ if changed then ok (save_target w target') else ok w
]

unfoldable pub write_target_match : World → AdvancementRule → Entrant → Direction → Run World
unfolding place_in remove_from
write_target_match w rule entrant direction = elim (load_match w rule.target_id) [
  | none ↦ ok w
  | some target ↦ elim direction [
    | place_direction ↦ place_in w target entrant rule.target_slot
    | remove_direction ↦ remove_from w target entrant.id
  ]
]

unfoldable pub write_seats :
    Direction → List PoolPlacement → PhaseGroupAggregate → PhaseGroupAggregate
write_seats direction [] pool = pool
write_seats direction ((rule, entrant) ∷ rest) pool = write_seats direction rest (elim direction [
  | place_direction ↦ place pool (record {
    entrant = entrant;
    slot = some rule.target_slot;
    source_advancement_rule_id = some rule.id;
  })
  | remove_direction ↦ release pool entrant.id
])

unfoldable pub write_target_pool : World → ℕ → List PoolPlacement → Direction → World
unfolding write_seats
write_target_pool w id placed direction = elim (load_pool w id) [
  | none ↦ w
  | some pool ↦ emit (pool_updated (some id)) (save_pool w (write_seats direction placed pool))
]

-- `byPool.set(targetId, [...(byPool.get(targetId) ?? []), placement])`
unfoldable pub add_placement :
    ℕ → PoolPlacement → List (ℕ × List PoolPlacement) → List (ℕ × List PoolPlacement)
add_placement id p [] = (id, p ∷ []) ∷ []
add_placement id p ((j, ps) ∷ rest) =
    if j == id then (j, ps ++ p ∷ []) ∷ rest else (j, ps) ∷ add_placement id p rest

pub record Moves : Type 0 where
  pub world : World
  pub moved : List Entrant
  pub by_pool : List (ℕ × List PoolPlacement)

abbrev pub move : Direction → AdvancementRule → Entrant → Moves → Run Moves
move direction rule entrant m =
    let moved = m.moved ++ entrant ∷ [] in
    elim rule.target_kind [
      | match_kind ↦ elim (write_target_match m.world rule entrant direction) [
        | err e ↦ err e
        | ok w ↦ ok (record { world = w; moved = moved; by_pool = m.by_pool })
      ]
      | phase_group_kind ↦ ok (record {
        world = m.world;
        moved = moved;
        by_pool = add_placement rule.target_id (rule, entrant) m.by_pool;
      })
    ]

-- `placements[placement - 1]`
abbrev pub entrant_at : List Entrant → ℕ → Option Entrant
entrant_at placed zero = none
entrant_at placed (suc i) = get_elem? placed i

-- The loop over the rules.
unfoldable pub move_all : Direction → List Entrant → List AdvancementRule → Moves → Run Moves
unfolding write_target_match add_placement
move_all direction placed [] m = ok m
move_all direction placed (rule ∷ rest) m = elim (entrant_at placed rule.source_placement) [
  | none ↦ move_all direction placed rest m
  | some entrant ↦ elim (move direction rule entrant m) [
    | err e ↦ err e
    | ok m' ↦ move_all direction placed rest m'
  ]
]

unfoldable pub write_pools : Direction → List (ℕ × List PoolPlacement) → World → World
unfolding write_target_pool
write_pools direction [] w = w
write_pools direction ((id, placed) ∷ rest) w =
    write_pools direction rest (write_target_pool w id placed direction)

unfoldable pub apply_rules :
    World → CompetitionKind → ℕ → List Entrant → Direction → Run (World × List Entrant)
unfolding move_all write_pools
apply_rules w kind id placed direction =
    elim (move_all direction placed (find_by_source w kind id)
      (record { world = w; moved = []; by_pool = [] })) [
        | err e ↦ err e
        | ok m ↦ ok (write_pools direction m.by_pool m.world, m.moved)
      ]

abbrev pub save_and_tell : World → PhaseGroupAggregate → World
save_and_tell w pool = emit (pool_updated (some pool.phase_group.id)) (save_pool w pool)

unfoldable pub update_phase_group_completion : World → Option ℕ → Run World
unfolding apply_rules
update_phase_group_completion w none = ok w
update_phase_group_completion w (some id) = elim (load_pool w id) [
  | none ↦ ok w
  | some pool ↦
      if is_decided pool
      then (elim (apply_rules w phase_group_kind id (placements pool) place_direction) [
        | err e ↦ err e
        | ok (w', moved) ↦
            ok
              (save_and_tell w' (complete (mark_advanced pool (map (λ (e : Entrant). e.id) moved))))
      ])
      else ok w
]

unfoldable pub revert_phase_group_completion : World → Option ℕ → Run World
unfolding apply_rules
revert_phase_group_completion w none = ok w
revert_phase_group_completion w (some id) = elim (load_pool w id) [
  | none ↦ ok w
  | some pool ↦ elim (apply_rules w phase_group_kind id (placements pool) remove_direction) [
    | err e ↦ err e
    | ok (w', moved) ↦ ok (save_and_tell w' (reopen (mark_advanced pool [])))
  ]
]

unfoldable pub advance_from_match : World → MatchAggregate → Run World
unfolding apply_rules update_phase_group_completion
advance_from_match w a =
    elim (apply_rules w match_kind a.match.id (entrants_by_placement a) place_direction) [
      | err e ↦ err e
      | ok (w', moved) ↦ update_phase_group_completion w' a.match.phase_group
    ]

unfoldable pub revert_from_match : World → MatchAggregate → Run World
unfolding apply_rules revert_phase_group_completion
revert_from_match w a =
    elim (apply_rules w match_kind a.match.id (entrants_by_placement a) remove_direction) [
      | err e ↦ err e
      | ok (w', moved) ↦ revert_phase_group_completion w' a.match.phase_group
    ]
