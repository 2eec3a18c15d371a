-- ===== src/Plan/Writing.antt =====
-- `orderedForWriting`: the nodes of a plan, each after its parent.
-- The recursion of `visit` takes fuel, and `none` means that the fuel ran out. The map of the states is
-- the list of its writes, the latest first. A cycle is reported by the id at which it closes.
use tournament_hub.Common.{
  ℕ, zero, suc, ◌+◌, List, [], ◌∷◌, ◌++◌, Option, none, some, ◌==◌, if◌then◌else◌, length,
}
use tournament_hub.Plan.{PlanNode, StructurePlan, has_local_id}

pub data VisitState : Type 0 where
  visiting done : VisitState

pub record Visits : Type 0 where
  pub seen : List (ℕ × VisitState)
  pub ordered : List PlanNode
  pub errors : List ℕ

-- `state.get(id)`
unfoldable pub state_of : List (ℕ × VisitState) → ℕ → Option VisitState
state_of [] id = none
state_of ((j, s) ∷ rest) id = if j == id then some s else state_of rest id

abbrev pub mark : PlanNode → Visits → Visits
mark node v = record v { seen = (node.local_id, visiting) ∷ v.seen }

abbrev pub finish : PlanNode → Visits → Visits
finish node v = record v { seen = (node.local_id, done) ∷ v.seen; ordered = v.ordered ++ node ∷ [] }

abbrev pub report : PlanNode → Visits → Visits
report node v = record v { errors = v.errors ++ node.local_id ∷ [] }

-- The last node of an id is the one that the map holds.
unfoldable pub last_with_id : List PlanNode → ℕ → Option PlanNode
last_with_id [] id = none
last_with_id (node ∷ rest) id = elim (last_with_id rest id) [
  | some later ↦ some later
  | none ↦ if has_local_id id node then some node else none
]

abbrev pub parent_node : List PlanNode → PlanNode → Option PlanNode
parent_node nodes node = elim node.parent_local_id [ none ↦ none | some id ↦ last_with_id nodes id ]

unfoldable pub visit : List PlanNode → ℕ → PlanNode → Visits → Option Visits
visit nodes zero node v = none
visit nodes (suc fuel) node v = elim (state_of v.seen node.local_id) [
  | some done ↦ some v
  | some visiting ↦ some (report node v)
  | none ↦ elim (parent_node nodes node) [
    | none ↦ some (finish node (mark node v))
    | some parent ↦ elim (visit nodes fuel parent (mark node v)) [
      | none ↦ none
      | some v' ↦ some (finish node v')
    ]
  ]
]

unfoldable pub visit_all : List PlanNode → ℕ → List PlanNode → Visits → Option Visits
visit_all nodes fuel [] v = some v
visit_all nodes fuel (node ∷ rest) v = elim (visit nodes fuel node v) [
  | none ↦ none
  | some v' ↦ visit_all nodes fuel rest v'
]

-- Each nested visit marks one more node; the kinds of a valid plan are four deep.
abbrev pub writing_fuel : List PlanNode → ℕ
writing_fuel nodes = length nodes + 4

unfoldable pub ordered_for_writing : StructurePlan → Option Visits
ordered_for_writing plan =
    visit_all plan.nodes (writing_fuel plan.nodes) plan.nodes
      (record { seen = []; ordered = []; errors = [] })
