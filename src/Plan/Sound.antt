-- ===== src/Plan/Sound.antt =====
-- What a plan is that `validateStructurePlan` accepts.
use tournament_hub.Common.{
  ℕ, ◌≤◌, ◌≡◌, ◌≢◌, refl, ◌⊎◌, inl, inr, Bool, true, false, not, ◌&&◌, ◌||◌, List, [], ◌∷◌, ◌++◌,
  Option-cases, none, some, arith, ◌==◌, ==_iff, ==_self, ltb, any, count_if, All, All-map,
  All-both,
}
use tournament_hub.Plan.{
  PlanNode, PlanRoute, PlanSlot, StructurePlan, placement_below_one, slot_below_one,
  slot_claimed_twice, validate_parent, validate_fields, validate_structure_plan, error_if,
  by_local_id, is_parent_kind, parent_of, survives, is_routable, validate_routes, ends_fault,
  claims, fills, validate_cleared_slots, validate_slot,
}
use tournament_hub.Plan.Valid.{
  append-empty, error_if-empty, validate-parts, shared_ids-once, validate_nodes-All,
}

-- A node of a kind that hangs from nothing, or a node under one of the kind that it must hang from,
-- which stands when the node does.
abbrev pub IsAttached : List PlanNode → PlanNode → Type 0
IsAttached nodes n =
    ((n.parent_local_id ≡ none) × (parent_of n.kind ≡ none))
    ⊎ ((p : PlanNode) × (id : ℕ) × (n.parent_local_id ≡ some id)
        × (by_local_id nodes id ≡ some p)
        × (is_parent_kind n p ≡ true)
        × ((not (survives n.action) || survives p.action) ≡ true))

-- A route between two different pools or matches that the plan leaves standing.
abbrev pub IsJoined : List PlanNode → PlanRoute → Type 0
IsJoined nodes r =
    (s : PlanNode) × (t : PlanNode) × (by_local_id nodes r.source_local_id ≡ some s)
    × (by_local_id nodes r.target_local_id ≡ some t)
    × (s.local_id ≢ t.local_id)
    × ((is_routable s.kind && is_routable t.kind) ≡ true)
    × ((survives s.action && survives t.action) ≡ true)
    × (1 ≤ r.source_placement)
    × (1 ≤ r.target_slot)

abbrev pub same_slot : PlanRoute → PlanRoute → Bool
same_slot a b = (b.target_local_id == a.target_local_id) && (b.target_slot == a.target_slot)

abbrev pub IsCleared : List PlanNode → List PlanRoute → PlanSlot → Type 0
IsCleared nodes routes slot =
    (t : PlanNode) × (by_local_id nodes slot.target_local_id ≡ some t)
    × (is_routable t.kind ≡ true)
    × (1 ≤ slot.target_slot)
    × (any (fills slot) routes ≡ false)

validate_parent-IsAttached :
    (nodes : List PlanNode) (n : PlanNode) → validate_parent nodes n ≡ [] → IsAttached nodes n
unfolding validate_parent
validate_parent-IsAttached nodes n h = elim (Option-cases n.parent_local_id) [
  | inl e ↦ elim (Option-cases (parent_of n.kind)) [
    | inl k ↦ inl (e, k)
    | inr (k, f) ↦ absurd (ground (arith, h, e, f))
  ]
  | inr (id, e) ↦ elim (Option-cases (by_local_id nodes id)) [
    | inl k ↦ absurd (ground (arith, h, e, k))
    | inr (p, k) ↦ inr (p, id, e, k, ground (arith, h, e, k), ground (arith, h, e, k))
  ]
]

ends_fault-IsJoined :
    (nodes : List PlanNode) (r : PlanRoute)
    → ends_fault nodes r ≡ none
    → 1 ≤ r.source_placement
    → 1 ≤ r.target_slot
    → IsJoined nodes r
unfolding ends_fault
ends_fault-IsJoined nodes r h place slot =
    elim (Option-cases (by_local_id nodes r.source_local_id)) [
      | inl e ↦ absurd (ground (arith, h, e))
      | inr (s, e) ↦ elim (Option-cases (by_local_id nodes r.target_local_id)) [
        | inl k ↦ absurd (ground (arith, h, e, k))
        | inr (t, k) ↦ (
          s,
          t,
          e,
          k,
          λ same. ground (arith, h, e, k, same, ==_self t.local_id),
          ground (arith, h, e, k),
          ground (arith, h, e, k),
          place,
          slot,
        )
      ]
    ]

validate_slot-IsCleared :
    (nodes : List PlanNode) (routes : List PlanRoute) (slot : PlanSlot)
    → validate_slot nodes routes slot ≡ []
    → IsCleared nodes routes slot
unfolding validate_slot
validate_slot-IsCleared nodes routes slot h =
    elim (Option-cases (by_local_id nodes slot.target_local_id)) [
      | inl e ↦ absurd (ground (arith, h, e))
      | inr (t, e) ↦ (t, e, ground (arith, h, e), ground (arith, h, e), ground (arith, h, e))
    ]

ltb-positive : (n : ℕ) → ltb n 1 ≡ false → 1 ≤ n
ltb-positive n h = ground (arith, h)

-- The slot of a route is not among the claimed ones.
abbrev IsFree : List (ℕ × ℕ) → PlanRoute → Type 0
IsFree claimed r = any (claims r.target_local_id r.target_slot) claimed ≡ false

same_slot_comm : (a b : PlanRoute) → same_slot a b ≡ false → same_slot b a ≡ false
same_slot_comm a b h = ground (
  arith,
  h,
  ==_iff a.target_local_id b.target_local_id,
  ==_iff b.target_local_id a.target_local_id,
  ==_iff a.target_slot b.target_slot,
  ==_iff b.target_slot a.target_slot,
)

count_if-same_slot :
    (r : PlanRoute) (routes : List PlanRoute)
    → All (λ (x : PlanRoute). same_slot x r ≡ false) routes
    → count_if (same_slot r) routes ≡ 0
count_if-same_slot r [] h = refl
count_if-same_slot r (x ∷ routes) h =
    ground (arith, same_slot_comm x r h.0, count_if-same_slot r routes h.1)

validate_routes-IsJoined :
    (nodes : List PlanNode) (claimed : List (ℕ × ℕ)) (routes : List PlanRoute)
    → validate_routes nodes claimed routes ≡ []
    → All (λ (r : PlanRoute). IsJoined nodes r × IsFree claimed r) routes
      × All (λ (r : PlanRoute). count_if (same_slot r) routes ≡ 1) routes
unfolding validate_routes
validate_routes-IsJoined nodes claimed [] h = (tt, tt)
validate_routes-IsJoined nodes claimed (r ∷ routes) h = elim (Option-cases (ends_fault nodes r)) [
  | inr (fault, e) ↦ absurd (ground (arith, h, e))
  | inl e ↦
      let slot : ℕ × ℕ = (r.target_local_id, r.target_slot) in
      let place_low = error_if (ltb r.source_placement 1) (placement_below_one r.source_local_id) in
      let slot_low = error_if (ltb r.target_slot 1) (slot_below_one r.target_local_id) in
      let twice =
        error_if (any (claims r.target_local_id r.target_slot) claimed)
          (slot_claimed_twice r.target_local_id r.target_slot) in
      let (here, later) =
        append-empty (place_low ++ slot_low ++ twice)
          (validate_routes nodes (slot ∷ claimed) routes) (ground (arith, h, e)) in
      let (ab, c) = append-empty (place_low ++ slot_low) twice here in
      let (a, b) = append-empty place_low slot_low ab in
      let joined =
        ends_fault-IsJoined nodes r e (ltb-positive r.source_placement (error_if-empty _ _ a))
          (ltb-positive r.target_slot (error_if-empty _ _ b)) in
      let (rest, ones) = validate_routes-IsJoined nodes (slot ∷ claimed) routes later in
      let apart =
        All-map (λ (x : PlanRoute). IsJoined nodes x × IsFree (slot ∷ claimed) x)
          {Q = λ x. same_slot x r ≡ false} (λ x f. ground (arith, f.1)) routes rest in
      (
        (
          (joined, error_if-empty _ _ c),
          All-map (λ (x : PlanRoute). IsJoined nodes x × IsFree (slot ∷ claimed) x)
              (λ x f. (f.0, ground (arith, f.1))) routes rest,
        ),
        (
          ground (
            arith,
            count_if-same_slot r routes apart,
            ==_self r.target_local_id,
            ==_self r.target_slot,
          ),
          All-map (λ (x : PlanRoute). (same_slot x r ≡ false) × (count_if (same_slot x) routes ≡ 1))
              (λ x f. ground (arith, f.0, f.1)) routes
              (All-both (λ (x : PlanRoute). same_slot x r ≡ false)
                (λ (x : PlanRoute). count_if (same_slot x) routes ≡ 1) routes apart ones),
        ),
      )
]

validate_cleared_slots-IsCleared :
    (nodes : List PlanNode) (routes : List PlanRoute) (slots : List PlanSlot)
    → validate_cleared_slots nodes routes slots ≡ []
    → All (IsCleared nodes routes) slots
unfolding validate_cleared_slots
validate_cleared_slots-IsCleared nodes routes [] h = tt
validate_cleared_slots-IsCleared nodes routes (slot ∷ slots) h =
    let (here, later) =
      append-empty (validate_slot nodes routes slot) (validate_cleared_slots nodes routes slots)
        h in
    (
      validate_slot-IsCleared nodes routes slot here,
      validate_cleared_slots-IsCleared nodes routes slots later,
    )

-- A plan in which `validateStructurePlan` finds nothing has no two nodes of one id; each of its nodes hangs from
-- nothing or from a node of the right kind that is left standing when the node is; each route joins two
-- different pools or matches that are left standing, from a place and into a slot of at least one; no
-- two routes fill one slot; and each cleared slot is one of a pool or match, is at least one, and is
-- filled by no route.
pub validate_sound :
    (plan : StructurePlan)
    → validate_structure_plan plan ≡ []
    → ((id : ℕ) → count_if (λ (n : PlanNode). n.local_id == id) plan.nodes ≤ 1)
      × All (IsAttached plan.nodes) plan.nodes
      × All (IsJoined plan.nodes) plan.routes
      × All (λ (r : PlanRoute). count_if (same_slot r) plan.routes ≡ 1) plan.routes
      × All (IsCleared plan.nodes plan.routes) plan.cleared_slots
validate_sound plan h =
    let (ids, nodes, routes, slots) = validate-parts plan h in
    let (joined, ones) = validate_routes-IsJoined plan.nodes [] plan.routes routes in
    (
      λ id. shared_ids-once [] plan.nodes id ids,
      All-map (λ (n : PlanNode). (validate_fields n ≡ []) × (validate_parent plan.nodes n ≡ []))
          (λ n f. validate_parent-IsAttached plan.nodes n f.1) plan.nodes
          (validate_nodes-All plan.nodes plan.nodes nodes),
      All-map (λ (r : PlanRoute). IsJoined plan.nodes r × IsFree [] r) (λ r f. f.0) plan.routes
          joined,
      ones,
      validate_cleared_slots-IsCleared plan.nodes plan.routes plan.cleared_slots slots,
    )
