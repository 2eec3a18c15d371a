-- ===== src/Plan/Total.antt =====
-- `orderedForWriting` ends on every plan: the fuel of the model is enough, cycles or not.
use tournament_hub.Common.{
  ℕ, zero, suc, ◌≤◌, ◌<◌, ◌≡◌, refl, inl, inr, true, not, List, [], ◌∷◌, Option-cases, none, some,
  arith, ◌==◌, ==_iff, Bool-cases, is_some, any, length, count_if, count_if-le-length, All, All-map,
  ==_self,
}
use tournament_hub.Plan.{PlanNode, StructurePlan, has_local_id}
use tournament_hub.Plan.Writing.{
  VisitState, visiting, done, Visits, state_of, mark, finish, report, last_with_id, parent_node,
  visit, visit_all, writing_fuel, ordered_for_writing,
}

-- How many nodes of the plan have no state yet.
abbrev unseen : List (ℕ × VisitState) → List PlanNode → ℕ
unseen seen nodes = count_if (λ (n : PlanNode). not (is_some (state_of seen n.local_id))) nodes

unseen-cons-le :
    (j : ℕ) (s : VisitState) (seen : List (ℕ × VisitState)) (nodes : List PlanNode)
    → unseen ((j, s) ∷ seen) nodes ≤ unseen seen nodes
unfolding state_of
unseen-cons-le j s seen [] = omega arith
unseen-cons-le j s seen (n ∷ nodes) = ground (arith, unseen-cons-le j s seen nodes)

unseen-cons-lt :
    (j : ℕ) (s : VisitState) (seen : List (ℕ × VisitState)) (nodes : List PlanNode)
    → any (has_local_id j) nodes ≡ true
    → state_of seen j ≡ none
    → unseen ((j, s) ∷ seen) nodes < unseen seen nodes
unfolding state_of
unseen-cons-lt j s seen [] h e = cc
unseen-cons-lt j s seen (n ∷ nodes) h e = elim (Bool-cases (n.local_id == j)) [
  | inl same ↦
      let at_n : state_of seen n.local_id ≡ none = rw ((==_iff n.local_id j).0 same) e in
      ground (arith, at_n, same, unseen-cons-le j s seen nodes)
  | inr other ↦ ground (arith, other, unseen-cons-lt j s seen nodes (rw other at h) e)
]

any-last_with_id :
    (nodes : List PlanNode) (id : ℕ) (p : PlanNode)
    → last_with_id nodes id ≡ some p
    → any (has_local_id p.local_id) nodes ≡ true
unfolding last_with_id
any-last_with_id [] id p h = cc
any-last_with_id (n ∷ nodes) id p h = elim (Option-cases (last_with_id nodes id)) [
  | inr (q, e) ↦ ground (arith, e, h, any-last_with_id nodes id p)
  | inl e ↦ ground (arith, e, h)
]

any-parent_node :
    (nodes : List PlanNode) (node p : PlanNode)
    → parent_node nodes node ≡ some p
    → any (has_local_id p.local_id) nodes ≡ true
any-parent_node nodes node p h = elim (Option-cases node.parent_local_id) [
  | inl e ↦ absurd (cc (rw e at h))
  | inr (id, e) ↦ any-last_with_id nodes id p (rw e at h)
]

module _ (nodes : List PlanNode) where
  visit_total :
      (fuel : ℕ) (node : PlanNode) (v : Visits)
      → any (has_local_id node.local_id) nodes ≡ true
      → unseen v.seen nodes < fuel
      → (v' : Visits) × (visit nodes fuel node v ≡ some v')
        × (unseen v'.seen nodes ≤ unseen v.seen nodes)
  unfolding visit
  visit_total zero node v h lt = elim lt [ ]
  visit_total (suc fuel) node v h lt = elim (Option-cases (state_of v.seen node.local_id)) [
    | inr (done, e) ↦ (v, ground (arith, e), omega arith)
    | inr (visiting, e) ↦ (report node v, ground (arith, e), omega arith)
    | inl e ↦
        let marked = unseen-cons-lt node.local_id visiting v.seen nodes h e in
        elim (Option-cases (parent_node nodes node)) [
          | inl k ↦ (
            finish node (mark node v),
            ground (arith, e, k),
            omega (arith, marked, unseen-cons-le node.local_id done (mark node v).seen nodes),
          )
          | inr (p, k) ↦
              let (v', run, fewer) =
                visit_total fuel p (mark node v) (any-parent_node nodes node p k) (omega arith) in
              (
                finish node v',
                ground (arith, e, k, run),
                omega (arith, marked, fewer, unseen-cons-le node.local_id done v'.seen nodes),
              )
        ]
  ]

  visit_all_total :
      (fuel : ℕ) (rest : List PlanNode) (v : Visits)
      → All (λ (n : PlanNode). any (has_local_id n.local_id) nodes ≡ true) rest
      → unseen v.seen nodes < fuel
      → (v' : Visits) × (visit_all nodes fuel rest v ≡ some v')
  unfolding visit_all
  visit_all_total fuel [] v h lt = (v, refl)
  visit_all_total fuel (node ∷ rest) v h lt =
      let (v1, run, fewer) = visit_total fuel node v h.0 lt in
      let (v2, later) = visit_all_total fuel rest v1 h.1 (omega arith) in
      (v2, ground (arith, run, later))

pub All-any_self :
    (nodes : List PlanNode)
    → All (λ (n : PlanNode). any (has_local_id n.local_id) nodes ≡ true) nodes
All-any_self [] = tt
All-any_self (n ∷ nodes) = (
  ground (arith, ==_self n.local_id),
  All-map (λ (m : PlanNode). any (has_local_id m.local_id) nodes ≡ true) (λ m h. ground (arith, h))
      nodes (All-any_self nodes),
)

-- Nothing is visited, and nothing is ordered.
abbrev pub unvisited : Visits
unvisited = record { seen = []; ordered = []; errors = [] }

-- `orderedForWriting` returns on every plan, cyclic or not, and the calls of `visit` in it nest at most
-- one deeper than the plan has nodes.
pub ordered_for_writing_total :
    (plan : StructurePlan)
    → ((v : Visits) × (ordered_for_writing plan ≡ some v))
      × ((v : Visits) × (visit_all plan.nodes (suc (length plan.nodes)) plan.nodes unvisited
            ≡ some v))
unfolding ordered_for_writing
ordered_for_writing_total plan =
    let few =
      count_if-le-length (λ (n : PlanNode). not (is_some (state_of [] n.local_id))) plan.nodes in
    (
      visit_all_total plan.nodes (writing_fuel plan.nodes) plan.nodes unvisited
          (All-any_self plan.nodes) (omega (arith, few)),
      visit_all_total plan.nodes (suc (length plan.nodes)) plan.nodes unvisited
          (All-any_self plan.nodes) (omega (arith, few)),
    )
