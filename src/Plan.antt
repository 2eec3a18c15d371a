-- ===== src/Plan.antt =====
-- structure/plan/structure-plan.validation.ts: the plan of a division's structure, as a client edits
-- it, before it is written.
-- A local id is only compared, and stands as a number; an absent or empty parent id is `none`. Row ids
-- start at 1. A placement or slot below 1 stands as 0.
pub mod Writing
pub mod Total
pub mod States
pub mod Order
pub mod Valid
pub mod Written
pub mod Sound
use tournament_hub.Common.{
  ℕ, ◌+◌, Bool, true, false, not, ◌&&◌, ◌||◌, List, [], ◌∷◌, ◌++◌, Option, none, some, ltb, ◌==◌,
  if◌then◌else◌, is_some, any, find,
}
use tournament_hub.Common.Text.{trim}

pub data PlanAction : Type 0 where
  create link skip remove : PlanAction

pub data PlanNodeKind : Type 0 where
  division phase phase_group match participant entrant : PlanNodeKind

-- The fields that the validation and the order of writing read.
pub record PlanNode : Type 0 where
  pub local_id : ℕ
  pub kind : PlanNodeKind
  pub parent_local_id : Option ℕ
  pub action : PlanAction
  pub local_row_id : Option ℕ
  pub name : List ℕ
  pub entrant_row_ids : Option (List ℕ)
  pub song_ids : Option (List ℕ)

pub record PlanRoute : Type 0 where
  pub source_local_id : ℕ
  pub source_placement : ℕ
  pub target_local_id : ℕ
  pub target_slot : ℕ

pub record PlanSlot : Type 0 where
  pub target_local_id : ℕ
  pub target_slot : ℕ

pub record StructurePlan : Type 0 where
  pub nodes : List PlanNode
  pub routes : List PlanRoute
  pub cleared_slots : List PlanSlot

-- The messages, each with the ids that it names.
pub data PlanError : Type 0 where
  shared_local_id no_name names_no_row creates_existing cannot_hold : ℕ → PlanError
  nothing_to_hang_from wrong_parent written_into_nothing : ℕ → PlanError
  unknown_parent : (node parent : ℕ) → PlanError
  unknown_end own_target not_routable not_standing : (source target : ℕ) → PlanError
  placement_below_one slot_below_one : ℕ → PlanError
  slot_claimed_twice : (target slot : ℕ) → PlanError
  cleared_unknown cleared_without_slots cleared_below_one : ℕ → PlanError
  cleared_and_filled : (target slot : ℕ) → PlanError

-- `PARENT_OF`
abbrev pub parent_of : PlanNodeKind → Option PlanNodeKind
parent_of division = none
parent_of phase = some division
parent_of phase_group = some phase
parent_of match = some phase_group
parent_of participant = none
parent_of entrant = some division

-- A number for each kind, by which kinds are compared.
abbrev pub kind_code : PlanNodeKind → ℕ
kind_code division = 0
kind_code phase = 1
kind_code phase_group = 2
kind_code match = 3
kind_code participant = 4
kind_code entrant = 5

abbrev pub same_kind : PlanNodeKind → PlanNodeKind → Bool
same_kind a b = kind_code a == kind_code b

-- `ROUTABLE.includes(kind)`
abbrev pub is_routable : PlanNodeKind → Bool
is_routable k = same_kind k phase_group || same_kind k match

-- `SURVIVES.includes(action)`
abbrev pub survives : PlanAction → Bool
survives create = true
survives link = true
survives skip = false
survives remove = false

abbrev pub is_create : PlanAction → Bool
is_create create = true
is_create link = false
is_create skip = false
is_create remove = false

abbrev pub is_skip : PlanAction → Bool
is_skip create = false
is_skip link = false
is_skip skip = true
is_skip remove = false

abbrev pub has_local_id : ℕ → PlanNode → Bool
has_local_id id node = node.local_id == id

-- `byLocalId.get(id)`: the first node of an id is kept.
abbrev pub by_local_id : List PlanNode → ℕ → Option PlanNode
by_local_id nodes id = find (has_local_id id) nodes

-- `if (test) errors.push(error)`
abbrev pub error_if : Bool → PlanError → List PlanError
error_if true e = e ∷ []
error_if false e = []

-- The first loop, with the nodes seen so far.
unfoldable pub shared_ids : List PlanNode → List PlanNode → List PlanError
shared_ids seen [] = []
shared_ids seen (node ∷ rest) =
    error_if (any (has_local_id node.local_id) seen) (shared_local_id node.local_id)
    ++ shared_ids (node ∷ seen) rest

abbrev pub is_blank : List ℕ → Bool
is_blank name = elim (trim name) [ [] ↦ true | _ ↦ false ]

-- The checks of `validateNode` that concern the node alone.
unfoldable pub validate_fields : PlanNode → List PlanError
validate_fields node =
    error_if (is_blank node.name && survives node.action) (no_name node.local_id)
    ++ error_if
        (not (is_create node.action)
          && not (is_skip node.action)
          && not (is_some node.local_row_id))
        (names_no_row node.local_id)
    ++ error_if (is_create node.action && is_some node.local_row_id)
        (creates_existing node.local_id)
    ++ error_if
        (not (same_kind node.kind match) && (is_some node.entrant_row_ids || is_some node.song_ids))
        (cannot_hold node.local_id)

abbrev pub is_parent_kind : PlanNode → PlanNode → Bool
is_parent_kind node parent = elim (parent_of node.kind) [
  | none ↦ false
  | some k ↦ same_kind parent.kind k
]

-- The rest of `validateNode`, on the parent.
unfoldable pub validate_parent : List PlanNode → PlanNode → List PlanError
validate_parent nodes node = elim node.parent_local_id [
  | none ↦ error_if (is_some (parent_of node.kind)) (nothing_to_hang_from node.local_id)
  | some id ↦ elim (by_local_id nodes id) [
    | none ↦ unknown_parent node.local_id id ∷ []
    | some parent ↦
        error_if (not (is_parent_kind node parent)) (wrong_parent node.local_id)
        ++ error_if (not (survives parent.action) && survives node.action)
            (written_into_nothing node.local_id)
  ]
]

unfoldable pub validate_nodes : List PlanNode → List PlanNode → List PlanError
unfolding validate_fields validate_parent
validate_nodes nodes [] = []
validate_nodes nodes (node ∷ rest) =
    (validate_fields node ++ validate_parent nodes node) ++ validate_nodes nodes rest

abbrev pub claims : ℕ → ℕ → ℕ × ℕ → Bool
claims target slot (t, s) = (t == target) && (s == slot)

-- What the loop of `validateRoutes` does with a route whose ends are found.
abbrev pub route_fault : PlanRoute → PlanNode → PlanNode → Option PlanError
route_fault route source target =
    if source.local_id == target.local_id
    then some (own_target source.local_id target.local_id)
    else if not (is_routable source.kind) || not (is_routable target.kind)
    then some (not_routable source.local_id target.local_id)
    else if not (survives source.action) || not (survives target.action)
    then some (not_standing source.local_id target.local_id)
    else none

-- The `continue`s of the loop: a fault, or the two nodes that the route joins.
unfoldable pub ends_fault : List PlanNode → PlanRoute → Option PlanError
ends_fault nodes route = elim (by_local_id nodes route.source_local_id) [
  | none ↦ some (unknown_end route.source_local_id route.target_local_id)
  | some source ↦ elim (by_local_id nodes route.target_local_id) [
    | none ↦ some (unknown_end route.source_local_id route.target_local_id)
    | some target ↦ route_fault route source target
  ]
]

unfoldable pub validate_routes : List PlanNode → List (ℕ × ℕ) → List PlanRoute → List PlanError
unfolding ends_fault
validate_routes nodes claimed [] = []
validate_routes nodes claimed (route ∷ rest) = elim (ends_fault nodes route) [
  | some fault ↦ fault ∷ validate_routes nodes claimed rest
  | none ↦
      (error_if (ltb route.source_placement 1) (placement_below_one route.source_local_id)
        ++ error_if (ltb route.target_slot 1) (slot_below_one route.target_local_id)
        ++ error_if (any (claims route.target_local_id route.target_slot) claimed)
            (slot_claimed_twice route.target_local_id route.target_slot))
      ++ validate_routes nodes ((route.target_local_id, route.target_slot) ∷ claimed) rest
]

abbrev pub fills : PlanSlot → PlanRoute → Bool
fills slot route =
    (route.target_local_id == slot.target_local_id) && (route.target_slot == slot.target_slot)

unfoldable pub validate_slot : List PlanNode → List PlanRoute → PlanSlot → List PlanError
validate_slot nodes routes slot = elim (by_local_id nodes slot.target_local_id) [
  | none ↦ cleared_unknown slot.target_local_id ∷ []
  | some target ↦
      if not (is_routable target.kind)
      then cleared_without_slots target.local_id ∷ []
      else if ltb slot.target_slot 1
      then cleared_below_one target.local_id ∷ []
      else error_if (any (fills slot) routes) (cleared_and_filled target.local_id slot.target_slot)
]

unfoldable pub validate_cleared_slots :
    List PlanNode → List PlanRoute → List PlanSlot → List PlanError
unfolding validate_slot
validate_cleared_slots nodes routes [] = []
validate_cleared_slots nodes routes (slot ∷ rest) =
    validate_slot nodes routes slot ++ validate_cleared_slots nodes routes rest

unfoldable pub validate_structure_plan : StructurePlan → List PlanError
unfolding shared_ids validate_nodes validate_routes validate_cleared_slots
validate_structure_plan plan =
    shared_ids [] plan.nodes
    ++ validate_nodes plan.nodes plan.nodes
    ++ validate_routes plan.nodes [] plan.routes
    ++ validate_cleared_slots plan.nodes plan.routes plan.cleared_slots
