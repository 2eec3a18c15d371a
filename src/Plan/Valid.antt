-- ===== src/Plan/Valid.antt =====
-- What the checks of `validateStructurePlan` establish, for a plan in which they find nothing.
use tournament_hub.Common.{
  count_if, ◌≤◌, ℕ, zero, suc, ◌<◌, ◌≡◌, refl, sym, ap, ◌∙◌, subst, inl, inr, Bool, true, false,
  List, [], ◌∷◌, ◌++◌, Option, Option-cases, none, some, arith, ◌==◌, ==_iff, ==_self, Bool-cases,
  any, All, All-map, All-both,
}
use tournament_hub.Plan.{
  PlanNodeKind, division, phase, phase_group, match, participant, entrant, PlanNode, StructurePlan,
  has_local_id, PlanError, shared_ids, validate_fields, validate_parent, validate_nodes,
  validate_structure_plan, error_if, by_local_id, is_parent_kind, parent_of, same_kind, kind_code,
  validate_routes, validate_cleared_slots,
}
use tournament_hub.Plan.Writing.{last_with_id, parent_node}
use tournament_hub.Plan.Order.{IsRanked}
use tournament_hub.Plan.States.{rank, IsHeld}

pub append-empty {ℓ} : {A : Type ℓ} (xs ys : List A) → xs ++ ys ≡ [] → (xs ≡ []) × (ys ≡ [])
append-empty [] ys h = (refl, h)
append-empty (x ∷ xs) ys h = cc

pub error_if-empty : (b : Bool) (e : PlanError) → error_if b e ≡ [] → b ≡ false
error_if-empty true e h = cc
error_if-empty false e h = refl

shared_ids-not_any :
    (seen nodes : List PlanNode) (id : ℕ)
    → shared_ids seen nodes ≡ []
    → any (has_local_id id) seen ≡ true
    → any (has_local_id id) nodes ≡ false
unfolding shared_ids
shared_ids-not_any seen [] id h e = refl
shared_ids-not_any seen (n ∷ nodes) id h e = elim (Bool-cases (n.local_id == id)) [
  | inl same ↦ absurd (ground (arith, h, same, e, ==_iff n.local_id id))
  | inr other ↦
      let (_, later) = append-empty (error_if _ _) (shared_ids (n ∷ seen) nodes) h in
      ground (arith, other, shared_ids-not_any (n ∷ seen) nodes id later (ground (arith, e, other)))
]

last_with_id-not_any :
    (nodes : List PlanNode) (id : ℕ)
    → any (has_local_id id) nodes ≡ false
    → last_with_id nodes id ≡ none
unfolding last_with_id
last_with_id-not_any [] id h = refl
last_with_id-not_any (n ∷ nodes) id h =
    ground (arith, h, last_with_id-not_any nodes id (ground (arith, h)))

-- Without a shared id, the first node of an id is the last one.
last_with_id-by_local_id :
    (seen nodes : List PlanNode) (id : ℕ)
    → shared_ids seen nodes ≡ []
    → last_with_id nodes id ≡ by_local_id nodes id
unfolding last_with_id shared_ids
last_with_id-by_local_id seen [] id h = refl
last_with_id-by_local_id seen (n ∷ nodes) id h =
    let (_, later) = append-empty (error_if _ _) (shared_ids (n ∷ seen) nodes) h in
    let as_first = last_with_id-by_local_id (n ∷ seen) nodes id later in
    elim (Bool-cases (n.local_id == id)) [
      | inl same ↦
          let none_left : last_with_id nodes id ≡ none =
            last_with_id-not_any nodes id
              (shared_ids-not_any (n ∷ seen) nodes id later (ground (arith, same))) in
          ground (arith, none_left, same)
      | inr other ↦ ground (arith, other, as_first)
    ]

not_any-All :
    (nodes : List PlanNode) (id : ℕ)
    → any (has_local_id id) nodes ≡ false
    → All (λ (n : PlanNode). (n.local_id == id) ≡ false) nodes
not_any-All [] id h = tt
not_any-All (n ∷ nodes) id h = (ground arith, not_any-All nodes id (ground arith))

not_any-count_if :
    (nodes : List PlanNode) (id : ℕ)
    → any (has_local_id id) nodes ≡ false
    → count_if (λ (n : PlanNode). n.local_id == id) nodes ≡ 0
not_any-count_if [] id h = refl
not_any-count_if (n ∷ nodes) id h = ground (arith, h, not_any-count_if nodes id (ground (arith, h)))

-- Without a shared id, each id that a node has is that of one node.
pub shared_ids-once :
    (seen nodes : List PlanNode) (id : ℕ)
    → shared_ids seen nodes ≡ []
    → count_if (λ (n : PlanNode). n.local_id == id) nodes ≤ 1
unfolding shared_ids
shared_ids-once seen [] id h = ground arith
shared_ids-once seen (n ∷ nodes) id h =
    let (_, later) = append-empty (error_if _ _) (shared_ids (n ∷ seen) nodes) h in
    elim (Bool-cases (n.local_id == id)) [
      | inl same ↦
          let alone =
            not_any-count_if nodes id
              (shared_ids-not_any (n ∷ seen) nodes id later (ground (arith, same))) in
          ground (arith, same, alone)
      | inr other ↦ ground (arith, other, shared_ids-once (n ∷ seen) nodes id later)
    ]

pub by_local_id-All :
    (seen nodes : List PlanNode)
    → shared_ids seen nodes ≡ []
    → All (λ (n : PlanNode). by_local_id nodes n.local_id ≡ some n) nodes
unfolding shared_ids
by_local_id-All seen [] h = tt
by_local_id-All seen (n ∷ nodes) h =
    let (_, later) = append-empty (error_if _ _) (shared_ids (n ∷ seen) nodes) h in
    let others =
      not_any-All nodes n.local_id (
        shared_ids-not_any (n ∷ seen) nodes n.local_id later
          (ground (arith, ==_self n.local_id))) in
    (
      ground (arith, ==_self n.local_id),
      All-map
          (λ (m : PlanNode).
            ((m.local_id == n.local_id) ≡ false) × (by_local_id nodes m.local_id ≡ some m))
          (λ m h.
            ground (arith, h.0, h.1, ==_iff m.local_id n.local_id, ==_iff n.local_id m.local_id))
          nodes
          (All-both (λ (m : PlanNode). (m.local_id == n.local_id) ≡ false)
            (λ (m : PlanNode). by_local_id nodes m.local_id ≡ some m) nodes others
            (by_local_id-All (n ∷ seen) nodes later)),
    )

shared_ids-IsHeld : (nodes : List PlanNode) → shared_ids [] nodes ≡ [] → All (IsHeld nodes) nodes
shared_ids-IsHeld nodes h =
    All-map (λ (m : PlanNode). by_local_id nodes m.local_id ≡ some m)
      (λ m e. last_with_id-by_local_id [] nodes m.local_id h ∙ e) nodes (by_local_id-All [] nodes h)

-- The rank of a kind, from its code.
abbrev rank_of_code : ℕ → ℕ
rank_of_code zero = 0
rank_of_code (suc zero) = 1
rank_of_code (suc (suc zero)) = 2
rank_of_code (suc (suc (suc zero))) = 3
rank_of_code (suc (suc (suc (suc zero)))) = 0
rank_of_code (suc (suc (suc (suc (suc c))))) = 1

rank-kind_code : (k : PlanNodeKind) → rank k ≡ rank_of_code (kind_code k)
rank-kind_code division = refl
rank-kind_code phase = refl
rank-kind_code phase_group = refl
rank-kind_code match = refl
rank-kind_code participant = refl
rank-kind_code entrant = refl

abbrev parent_rank : Option PlanNodeKind → ℕ
parent_rank none = 10
parent_rank (some k) = rank k

rank-parent_of : (a k : PlanNodeKind) → parent_of a ≡ some k → rank k < rank a
rank-parent_of division k h = cc
rank-parent_of participant k h = cc
rank-parent_of phase k h = omega (arith, ap parent_rank h)
rank-parent_of phase_group k h = omega (arith, ap parent_rank h)
rank-parent_of match k h = omega (arith, ap parent_rank h)
rank-parent_of entrant k h = omega (arith, ap parent_rank h)

is_parent_kind-rank :
    (node parent : PlanNode) → is_parent_kind node parent ≡ true → rank parent.kind < rank node.kind
is_parent_kind-rank node parent h = elim (Option-cases (parent_of node.kind)) [
  | inl e ↦ absurd (ground (arith, e, h))
  | inr (k, e) ↦
      let same : same_kind parent.kind k ≡ true = ground (arith, e, h) in
      let codes = ap rank_of_code ((==_iff (kind_code parent.kind) (kind_code k)).0 same) in
      omega
        (arith, rank-kind_code parent.kind, rank-kind_code k, codes, rank-parent_of node.kind k e)
]

pub validate_nodes-All :
    (nodes rest : List PlanNode)
    → validate_nodes nodes rest ≡ []
    → All (λ (n : PlanNode). (validate_fields n ≡ []) × (validate_parent nodes n ≡ [])) rest
unfolding validate_nodes
validate_nodes-All nodes [] h = tt
validate_nodes-All nodes (n ∷ rest) h =
    let (here, later) =
      append-empty (validate_fields n ++ validate_parent nodes n) (validate_nodes nodes rest) h in
    (
      append-empty (validate_fields n) (validate_parent nodes n) here,
      validate_nodes-All nodes rest later,
    )

All-last_with_id {κ} :
    (P : PlanNode → Type κ) (nodes : List PlanNode) (id : ℕ) (n : PlanNode)
    → All P nodes
    → last_with_id nodes id ≡ some n
    → P n
unfolding last_with_id
All-last_with_id P [] id n all h = cc
All-last_with_id P (m ∷ nodes) id n all h = elim (Option-cases (last_with_id nodes id)) [
  | inr (q, e) ↦ All-last_with_id P nodes id n all.1 (ground (arith, h, e))
  | inl e ↦ subst P (ground (arith, h, e)) all.0
]

-- The parts of the validation.
pub validate-parts :
    (plan : StructurePlan)
    → validate_structure_plan plan ≡ []
    → (shared_ids [] plan.nodes ≡ [])
      × (validate_nodes plan.nodes plan.nodes ≡ [])
      × (validate_routes plan.nodes [] plan.routes ≡ [])
      × (validate_cleared_slots plan.nodes plan.routes plan.cleared_slots ≡ [])
unfolding validate_structure_plan
validate-parts plan h =
    let nodes = plan.nodes in
    let routes = validate_routes nodes [] plan.routes in
    let slots = validate_cleared_slots nodes plan.routes plan.cleared_slots in
    let ids = shared_ids [] nodes in
    let (h1, d) = append-empty ((ids ++ validate_nodes nodes nodes) ++ routes) slots h in
    let (h2, c) = append-empty (ids ++ validate_nodes nodes nodes) routes h1 in
    let (a, b) = append-empty ids (validate_nodes nodes nodes) h2 in (a, b, c, d)

pub validate-IsHeld :
    (plan : StructurePlan) → validate_structure_plan plan ≡ [] → All (IsHeld plan.nodes) plan.nodes
validate-IsHeld plan h = shared_ids-IsHeld plan.nodes (validate-parts plan h).0

parent_node-is_parent_kind :
    (plan : StructurePlan) (n p : PlanNode)
    → shared_ids [] plan.nodes ≡ []
    → validate_parent plan.nodes n ≡ []
    → parent_node plan.nodes n ≡ some p
    → is_parent_kind n p ≡ true
unfolding validate_parent
parent_node-is_parent_kind plan n p distinct h e = elim (Option-cases n.parent_local_id) [
  | inl k ↦ absurd (ground (arith, e, k))
  | inr (id, k) ↦
      let found : by_local_id plan.nodes id ≡ some p =
        sym (last_with_id-by_local_id [] plan.nodes id distinct) ∙ ground (arith, e, k) in
      ground (arith, h, k, found)
]

pub validate-IsRanked :
    (plan : StructurePlan) → validate_structure_plan plan ≡ [] → IsRanked plan.nodes
validate-IsRanked plan h n p held e =
    let (distinct, checked, _, _) = validate-parts plan h in
    let (_, fine) =
      All-last_with_id
        (λ (m : PlanNode). (validate_fields m ≡ []) × (validate_parent plan.nodes m ≡ []))
        plan.nodes n.local_id n (validate_nodes-All plan.nodes plan.nodes checked) held in
    is_parent_kind-rank n p (parent_node-is_parent_kind plan n p distinct fine e)
