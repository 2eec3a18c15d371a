-- ===== src/Examples/Plans.antt =====
-- A plan of a division with one phase, one pool and two matches, of which the first sends its winner to
-- the second; its nodes are listed from the bottom up. And a plan whose two nodes hang from each other.
use tournament_hub.Common.{
  ℕ, ◌≡◌, refl, List, [], ◌∷◌, Option, none, some, map, count_if, All, suc, length, ◌==◌, ◌≤◌,
}
use tournament_hub.Common.Text.{trim, trim_start, trim_end}
use tournament_hub.Plan.{
  PlanNode, PlanNodeKind, division, phase, phase_group, match, create, StructurePlan,
  validate_structure_plan, shared_ids, validate_nodes, validate_fields, validate_parent,
  validate_routes, ends_fault, validate_cleared_slots, validate_slot,
}
use tournament_hub.Plan.Writing.{
  Visits, visit, visit_all, state_of, last_with_id, ordered_for_writing,
}
use tournament_hub.Plan.Total.{unvisited, ordered_for_writing_total}
use tournament_hub.Plan.Written.{IsWritingOrder, ordered_for_writing-IsWritingOrder}
use tournament_hub.Plan.Sound.{IsAttached, IsJoined, IsCleared, same_slot, validate_sound}

abbrev node : ℕ → PlanNodeKind → Option ℕ → PlanNode
node id kind parent = record {
  local_id = id;
  kind = kind;
  parent_local_id = parent;
  action = create;
  local_row_id = none;
  name = 65 ∷ [];
  entrant_row_ids = none;
  song_ids = none;
}

abbrev bottom_up : StructurePlan
bottom_up = record {
  nodes =
      node 5 match (some 3)
      ∷ node 4 match (some 3)
      ∷ node 3 phase_group (some 2)
      ∷ node 2 phase (some 1)
      ∷ node 1 division none
      ∷ [];
  routes =
      record { source_local_id = 4; source_placement = 1; target_local_id = 5; target_slot = 1 }
      ∷ [];
  cleared_slots = record { target_local_id = 5; target_slot = 2 } ∷ [];
}

unfoldable program : Unit {0}
unfolding trim trim_start trim_end validate_structure_plan shared_ids validate_nodes validate_fields
    validate_parent validate_routes ends_fault validate_cleared_slots validate_slot visit visit_all
    state_of last_with_id ordered_for_writing
program = tt

valid_test : validate_structure_plan bottom_up ≡ []
unfolding program
valid_test = refl

abbrev ids_of : Option Visits → List ℕ
ids_of none = []
ids_of (some v) = map (λ (n : PlanNode). n.local_id) v.ordered

order_test : ids_of (ordered_for_writing bottom_up) ≡ 1 ∷ 2 ∷ 3 ∷ 5 ∷ 4 ∷ []
unfolding program
order_test = refl

ordered_for_writing-IsWritingOrder_example :
    (v : Visits) × (ordered_for_writing bottom_up ≡ some v) × IsWritingOrder bottom_up v
ordered_for_writing-IsWritingOrder_example = ordered_for_writing-IsWritingOrder bottom_up valid_test

validate_sound_example :
    ((id : ℕ) → count_if (λ (n : PlanNode). n.local_id == id) bottom_up.nodes ≤ 1)
    × All (IsAttached bottom_up.nodes) bottom_up.nodes
    × All (IsJoined bottom_up.nodes) bottom_up.routes
    × All (λ r. count_if (same_slot r) bottom_up.routes ≡ 1) bottom_up.routes
    × All (IsCleared bottom_up.nodes bottom_up.routes) bottom_up.cleared_slots
validate_sound_example = validate_sound bottom_up valid_test

abbrev cyclic : StructurePlan
cyclic = record {
  nodes = node 1 phase (some 2) ∷ node 2 phase (some 1) ∷ [];
  routes = [];
  cleared_slots = [];
}

abbrev errors_of : Option Visits → List ℕ
errors_of none = []
errors_of (some v) = v.errors

cycle_test : errors_of (ordered_for_writing cyclic) ≡ 1 ∷ []
unfolding program
cycle_test = refl

ordered_for_writing_total_example :
    ((v : Visits) × (ordered_for_writing cyclic ≡ some v))
    × ((v : Visits) × (visit_all cyclic.nodes (suc (length cyclic.nodes)) cyclic.nodes unvisited
          ≡ some v))
ordered_for_writing_total_example = ordered_for_writing_total cyclic
