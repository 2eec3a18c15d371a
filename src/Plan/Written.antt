-- ===== src/Plan/Written.antt =====
-- The order in which a valid plan is written.
use tournament_hub.Common.{◌≡◌, refl, ◌∙◌, true, [], some, count_if, All, All-map}
use tournament_hub.Plan.{PlanNode, StructurePlan, has_local_id, validate_structure_plan}
use tournament_hub.Plan.Writing.{Visits, state_of, writing_fuel, ordered_for_writing}
use tournament_hub.Plan.States.{is_done, IsHeld, parents_first}
use tournament_hub.Plan.Order.{visit_all-IsAllVisited}
use tournament_hub.Plan.Valid.{validate-IsHeld, validate-IsRanked}
use tournament_hub.Plan.Total.{ordered_for_writing_total}

-- A writing order of the plan: no error; each node of the plan once; no other node; each after its
-- parent.
abbrev pub IsWritingOrder : StructurePlan → Visits → Type 0
IsWritingOrder plan v =
    (v.errors ≡ [])
    × All (λ (n : PlanNode). count_if (has_local_id n.local_id) v.ordered ≡ 1) plan.nodes
    × All (IsHeld plan.nodes) v.ordered
    × (parents_first plan.nodes [] v.ordered ≡ true)

run-IsWritingOrder :
    (plan : StructurePlan) (v : Visits)
    → validate_structure_plan plan ≡ []
    → ordered_for_writing plan ≡ some v
    → IsWritingOrder plan v
unfolding ordered_for_writing state_of
run-IsWritingOrder plan v h run =
    let (ok, errors, _, each) =
      visit_all-IsAllVisited plan.nodes (validate-IsRanked plan h) (writing_fuel plan.nodes)
        plan.nodes (record { seen = []; ordered = []; errors = [] }) v (validate-IsHeld plan h)
        (λ id. refl) (record { once = λ id. refl; held = tt; first = refl }) run in
    (
      errors,
      All-map (λ (n : PlanNode). is_done (state_of v.seen n.local_id) ≡ true)
          (λ n e. ok.once n.local_id ∙ rw e refl) plan.nodes each,
      ok.held,
      ok.first,
    )

-- On a plan in which `validateStructurePlan` finds nothing, `orderedForWriting` returns, reports no
-- cycle, and lists every node of the plan exactly once, nothing else, and each after its parent.
pub ordered_for_writing-IsWritingOrder :
    (plan : StructurePlan)
    → validate_structure_plan plan ≡ []
    → (v : Visits) × (ordered_for_writing plan ≡ some v) × IsWritingOrder plan v
ordered_for_writing-IsWritingOrder plan h =
    let ((v, run), _) = ordered_for_writing_total plan in (v, run, run-IsWritingOrder plan v h run)
