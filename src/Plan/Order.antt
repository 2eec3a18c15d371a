-- ===== src/Plan/Order.antt =====
-- The nodes that `orderedForWriting` writes, on a plan whose nodes hang from nodes of a smaller rank.
use tournament_hub.Common.{
  ℕ, zero, suc, ◌<◌, ◌≡◌, refl, sym, ◌∙◌, subst, inl, inr, true, false, List, [], ◌∷◌, Option-cases,
  none, some, arith, ==_self, All,
}
use tournament_hub.Plan.{PlanNode}
use tournament_hub.Plan.Writing.{
  visiting, done, Visits, state_of, mark, finish, parent_node, visit, visit_all,
}
use tournament_hub.Plan.States.{
  is_done, is_visiting, IsHeld, has_parent_in, any-of_count, IsConsistent, IsLater,
  parent_node-IsHeld, state_of-marked, rank, NothingVisited, finish-IsConsistent, finish-IsLater,
  mark-IsConsistent, mark-NothingVisited,
}

module _ (nodes : List PlanNode) where
  mark-once :
      (node : PlanNode) (v v' : Visits)
      → IsLater (mark node v) v'
      → is_done (state_of v'.seen node.local_id) ≡ false
  unfolding state_of
  mark-once node v v' later = elim (later.steady node.local_id) [
    | inl e ↦ rw (e ∙ state_of-marked node v) refl
    | inr (e, _) ↦ absurd (cc (sym e ∙ state_of-marked node v))
  ]

  -- The node is done, the books agree, and no other visit is left open.
  abbrev pub IsVisited : PlanNode → Visits → Visits → Type 0
  IsVisited node v v' =
      IsConsistent nodes v' × IsLater v v' × (state_of v'.seen node.local_id ≡ some done)

  finish-IsVisited :
      (node : PlanNode) (v v' : Visits)
      → IsHeld nodes node
      → state_of v.seen node.local_id ≡ none
      → IsConsistent nodes v'
      → IsLater (mark node v) v'
      → has_parent_in nodes v'.ordered node ≡ true
      → IsVisited node v (finish node v')
  unfolding state_of
  finish-IsVisited node v v' held e ok later p = (
    finish-IsConsistent nodes node v' held ok (mark-once node v v' later) p,
    finish-IsLater nodes node v v' e later,
    ground (arith, ==_self node.local_id),
  )

  abbrev pub IsRanked : Type 0
  IsRanked =
      (n p : PlanNode) → IsHeld nodes n → parent_node nodes n ≡ some p → rank p.kind < rank n.kind

  module _ (ranked : IsRanked) where
    visit-IsVisited :
        (fuel : ℕ) (node : PlanNode) (v v' : Visits)
        → IsHeld nodes node
        → NothingVisited nodes (rank node.kind) v
        → IsConsistent nodes v
        → visit nodes fuel node v ≡ some v'
        → IsVisited node v v'
    unfolding visit
    visit-IsVisited zero node v v' held clear ok run = cc
    visit-IsVisited (suc fuel) node v v' held clear ok run =
        elim (Option-cases (state_of v.seen node.local_id)) [
          | inr (done, e) ↦
              let same : v ≡ v' = ground (arith, e, run) in
              subst (IsVisited node v) same
                (ok, record { errors = refl; steady = λ id. inl refl }, e)
          | inr (visiting, e) ↦ absurd (ground (arith, e, clear node held (omega arith)))
          | inl e ↦
              let ok1 = mark-IsConsistent nodes node v e ok in
              elim (Option-cases (parent_node nodes node)) [
                | inl k ↦
                    let same : finish node (mark node v) ≡ v' = ground (arith, e, k, run) in
                    subst (IsVisited node v) same (
                      finish-IsVisited node v (mark node v) held e ok1
                        (record { errors = refl; steady = λ id. inl refl }) (ground (arith, k)))
                | inr (p, k) ↦ elim (Option-cases (visit nodes fuel p (mark node v))) [
                  | inl h ↦ absurd (ground (arith, e, k, h, run))
                  | inr (v1, h) ↦
                      let same : finish node v1 ≡ v' = ground (arith, e, k, h, run) in
                      let (ok2, later, at_p) =
                        visit-IsVisited fuel p (mark node v) v1 (parent_node-IsHeld nodes node p k)
                          (mark-NothingVisited nodes node v (rank p.kind) held
                            (ranked node p held k) clear)
                          ok1 h in
                      subst (IsVisited node v) same (
                        finish-IsVisited node v v1 held e ok2 later (
                          let written =
                            any-of_count p.local_id v1.ordered
                              (ground (arith, ok2.once p.local_id, at_p)) in
                          ground (arith, k, written)))
                ]
              ]
        ]

    -- What visiting every node of a list leaves behind.
    abbrev pub IsAllVisited : List PlanNode → Visits → Visits → Type 0
    IsAllVisited rest v v' =
        IsConsistent nodes v'
        × (v'.errors ≡ v.errors)
        × ((id : ℕ) → is_done (state_of v.seen id) ≡ true → is_done (state_of v'.seen id) ≡ true)
        × All (λ (n : PlanNode). is_done (state_of v'.seen n.local_id) ≡ true) rest

    pub visit_all-IsAllVisited :
        (fuel : ℕ) (rest : List PlanNode) (v v' : Visits)
        → All (IsHeld nodes) rest
        → ((id : ℕ) → is_visiting (state_of v.seen id) ≡ false)
        → IsConsistent nodes v
        → visit_all nodes fuel rest v ≡ some v'
        → IsAllVisited rest v v'
    unfolding visit_all
    visit_all-IsAllVisited fuel [] v v' held clear ok run =
        subst (IsAllVisited [] v) (ground (arith, run)) (ok, refl, λ id e. e, tt)
    visit_all-IsAllVisited fuel (n ∷ rest) v v' held clear ok run =
        elim (Option-cases (visit nodes fuel n v)) [
          | inl h ↦ absurd (ground (arith, h, run))
          | inr (v1, h) ↦
              let (ok1, later, at_n) =
                visit-IsVisited fuel n v v1 held.0 (λ m _ _. clear m.local_id) ok h in
              let (ok2, same, kept, each) =
                visit_all-IsAllVisited fuel rest v1 v' held.1
                  (λ id. ground (arith, clear id, later.steady id)) ok1 (ground (arith, h, run)) in
              (
                ok2,
                same ∙ later.errors,
                λ id e. kept id (ground (arith, e, later.steady id)),
                (kept n.local_id (rw at_n refl), each),
              )
        ]
