-- ===== src/Advancement/Runs.antt =====
-- The runs of the advancement: which matches they may change, and that matches stay valid.
use tournament_hub.Common.{
  ℕ, ◌≡◌, refl, ◌∙◌, subst, ◌⊎◌, inl, inr, true, false, List, [], ◌∷◌, arith, ◌==◌, Option-cases,
  some, Result-cases, ok, ok_injective,
}
use tournament_hub.Placement.{CompetitionKind, match_kind, phase_group_kind}
use tournament_hub.Match.Model.{Entrant, MatchAggregate}
use tournament_hub.Match.Scores.{place_entrant, remove_entrant}
use tournament_hub.Match.Valid.{placed_entrant, removed_entrant, Mutation-IsValid}
use tournament_hub.Pool.{PhaseGroupAggregate}
use tournament_hub.Advancement.{
  AdvancementRule, World, find_by_source, load_match, load_pool, save_pool, pool_updated,
}
use tournament_hub.Advancement.Runner.{
  Direction, place_direction, remove_direction, Moves, move, entrant_at, PoolPlacement, save_target,
  place_in, remove_from, write_target_match, write_target_pool, move_all, write_pools, write_seats,
  apply_rules,
}
use tournament_hub.Advancement.Targets.{place_entrant-match, remove_entrant-match}
use tournament_hub.Advancement.Reach.{
  is_target, IsWithin, IsWithin-refl, IsWithin-trans, IsWithin-weaken, save_target-IsWithin,
  nowhere, emit-IsWithin,
}

place_in-IsWithin :
    (w w' : World) (a : MatchAggregate) (e : Entrant) (slot id : ℕ)
    → load_match w id ≡ some a
    → place_in w a e slot ≡ ok w'
    → IsWithin (◌==◌ id) w w'
unfolding place_in
place_in-IsWithin w w' a e slot id loaded h = elim (Result-cases (place_entrant a e slot)) [
  | inl (x, k) ↦ absurd (ground (arith, h, k))
  | inr (a', k) ↦
      let same : save_target w a' ≡ w' = ground (arith, h, k) in
      subst (IsWithin (◌==◌ id) w) same (
        save_target-IsWithin w a a' id loaded (place_entrant-match a a' e slot k).0
          (place_entrant-match a a' e slot k).3 (Mutation-IsValid (placed_entrant e slot k)))
]

remove_from-IsWithin :
    (w w' : World) (a : MatchAggregate) (entrant id : ℕ)
    → load_match w id ≡ some a
    → remove_from w a entrant ≡ ok w'
    → IsWithin (◌==◌ id) w w'
unfolding remove_from
remove_from-IsWithin w w' a entrant id loaded h = elim (Result-cases (remove_entrant a entrant)) [
  | inl (x, k) ↦ absurd (ground (arith, h, k))
  | inr ((a', true), k) ↦
      let same : save_target w a' ≡ w' = ground (arith, h, k) in
      subst (IsWithin (◌==◌ id) w) same (
        save_target-IsWithin w a a' id loaded (remove_entrant-match a a' entrant k).0
          (remove_entrant-match a a' entrant k).2
          (Mutation-IsValid (removed_entrant entrant true k)))
  | inr ((a', false), k) ↦
      let same : w ≡ w' = ground (arith, h, k) in
      subst (IsWithin (◌==◌ id) w) same (IsWithin-refl (◌==◌ id) w)
]

write_target_match-IsWithin :
    (w w' : World) (rule : AdvancementRule) (e : Entrant) (direction : Direction)
    → write_target_match w rule e direction ≡ ok w'
    → IsWithin (◌==◌ rule.target_id) w w'
unfolding write_target_match
write_target_match-IsWithin w w' rule e place_direction h =
    elim (Option-cases (load_match w rule.target_id)) [
      | inl k ↦
          let same : w ≡ w' = ground (arith, h, k) in
          subst (IsWithin (◌==◌ rule.target_id) w) same (IsWithin-refl (◌==◌ rule.target_id) w)
      | inr (a, k) ↦
          place_in-IsWithin w w' a e rule.target_slot rule.target_id k (ground (arith, h, k))
    ]
write_target_match-IsWithin w w' rule e remove_direction h =
    elim (Option-cases (load_match w rule.target_id)) [
      | inl k ↦
          let same : w ≡ w' = ground (arith, h, k) in
          subst (IsWithin (◌==◌ rule.target_id) w) same (IsWithin-refl (◌==◌ rule.target_id) w)
      | inr (a, k) ↦ remove_from-IsWithin w w' a e.id rule.target_id k (ground (arith, h, k))
    ]

pub kind_cases : (k : CompetitionKind) → (k ≡ match_kind) ⊎ (k ≡ phase_group_kind)
kind_cases match_kind = inl refl
kind_cases phase_group_kind = inr refl

move-IsWithin :
    (direction : Direction) (rule : AdvancementRule) (e : Entrant) (m m' : Moves)
    → move direction rule e m ≡ ok m'
    → IsWithin (is_target (rule ∷ [])) m.world m'.world
move-IsWithin direction rule e m m' h = elim (kind_cases rule.target_kind) [
  | inr k ↦
      let same : m.world ≡ m'.world = ground (arith, h, k) in
      subst (IsWithin (is_target (rule ∷ [])) m.world) same
        (IsWithin-refl (is_target (rule ∷ [])) m.world)
  | inl k ↦ elim (Result-cases (write_target_match m.world rule e direction)) [
    | inl (x, run) ↦ absurd (ground (arith, h, k, run))
    | inr (w, run) ↦
        let same : w ≡ m'.world = ground (arith, h, k, run) in
        subst (IsWithin (is_target (rule ∷ [])) m.world) same (
          IsWithin-weaken (◌==◌ rule.target_id) (is_target (rule ∷ [])) m.world w
            (λ id out. ground (arith, out, k))
            (write_target_match-IsWithin m.world w rule e direction run))
  ]
]

pub move_all-IsWithin :
    (direction : Direction) (placed : List Entrant) (rules : List AdvancementRule) (m m' : Moves)
    → move_all direction placed rules m ≡ ok m'
    → IsWithin (is_target rules) m.world m'.world
unfolding move_all
move_all-IsWithin direction placed [] m m' h =
    subst (λ (x : Moves). IsWithin (is_target []) m.world x.world) (ok_injective h)
      (IsWithin-refl (is_target []) m.world)
move_all-IsWithin direction placed (rule ∷ rest) m m' h =
    elim (Option-cases (entrant_at placed rule.source_placement)) [
      | inl k ↦
          IsWithin-weaken (is_target rest) (is_target (rule ∷ rest)) m.world m'.world
            (λ id out. ground (arith, out))
            (move_all-IsWithin direction placed rest m m' (ground (arith, h, k)))
      | inr (e, k) ↦ elim (Result-cases (move direction rule e m)) [
        | inl (x, run) ↦ absurd (ground (arith, h, k, run))
        | inr (n, run) ↦
            let later = move_all-IsWithin direction placed rest n m' (ground (arith, h, k, run)) in
            let first = move-IsWithin direction rule e m n run in
            IsWithin-trans (is_target (rule ∷ rest)) m.world n.world m'.world
              (IsWithin-weaken (is_target (rule ∷ [])) (is_target (rule ∷ rest)) m.world n.world
                (λ id out. ground (arith, out)) first)
              (IsWithin-weaken (is_target rest) (is_target (rule ∷ rest)) n.world m'.world
                (λ id out. ground (arith, out)) later)
      ]
    ]

-- Writing pools changes no match.
pub save_pool-IsWithin : (w : World) (a : PhaseGroupAggregate) → IsWithin nowhere w (save_pool w a)
unfolding save_pool
save_pool-IsWithin w a = record {
  rows = λ id h. refl;
  rules = refl;
  calm = λ c. c;
  valid = λ c v. v;
}

write_target_pool-IsWithin :
    (w : World) (id : ℕ) (placed : List PoolPlacement) (direction : Direction)
    → IsWithin nowhere w (write_target_pool w id placed direction)
unfolding write_target_pool
write_target_pool-IsWithin w id placed direction = elim (Option-cases (load_pool w id)) [
  | inl e ↦ rw (write_target_pool, e) (IsWithin-refl nowhere w)
  | inr (pool, e) ↦
      rw (write_target_pool, e)
        (emit-IsWithin (pool_updated (some id)) w (save_pool w (write_seats direction placed pool))
          (save_pool-IsWithin w (write_seats direction placed pool)))
]

pub write_pools-IsWithin :
    (direction : Direction) (pools : List (ℕ × List PoolPlacement)) (w : World)
    → IsWithin nowhere w (write_pools direction pools w)
unfolding write_pools
write_pools-IsWithin direction [] w = IsWithin-refl nowhere w
write_pools-IsWithin direction ((id, placed) ∷ rest) w =
    let v = write_target_pool w id placed direction in
    IsWithin-trans nowhere w v (write_pools direction rest v)
      (write_target_pool-IsWithin w id placed direction) (write_pools-IsWithin direction rest v)

pub write_pools-matches :
    (direction : Direction) (pools : List (ℕ × List PoolPlacement)) (w : World)
    → (write_pools direction pools w).matches ≡ w.matches
unfolding write_pools write_target_pool save_pool
write_pools-matches direction [] w = refl
write_pools-matches direction ((id, placed) ∷ rest) w =
    write_pools-matches direction rest (write_target_pool w id placed direction)
    ∙ elim (Option-cases (load_pool w id)) [
      | inl e ↦ rw (write_target_pool, e) refl
      | inr (pool, e) ↦ rw (write_target_pool, e) refl
    ]

pub apply_rules-IsWithin :
    (w w' : World) (kind : CompetitionKind) (id : ℕ) (placed moved : List Entrant)
    (direction : Direction)
    → apply_rules w kind id placed direction ≡ ok (w', moved)
    → IsWithin (is_target (find_by_source w kind id)) w w'
unfolding apply_rules
apply_rules-IsWithin w w' kind id placed moved direction h =
    let start : Moves = record { world = w; moved = []; by_pool = [] } in
    let rules = find_by_source w kind id in
    elim (Result-cases (move_all direction placed rules start)) [
      | inl (x, run) ↦ absurd (ground (arith, h, run))
      | inr (m, run) ↦
          let same : write_pools direction m.by_pool m.world ≡ w' = ground (arith, h, run) in
          subst (IsWithin (is_target rules) w) same (
            IsWithin-trans (is_target rules) w m.world (write_pools direction m.by_pool m.world)
              (move_all-IsWithin direction placed rules start m run)
              (IsWithin-weaken nowhere (is_target rules) m.world
                (write_pools direction m.by_pool m.world) (λ _ _. refl)
                (write_pools-IsWithin direction m.by_pool m.world)))
    ]
