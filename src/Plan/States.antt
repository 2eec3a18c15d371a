-- ===== src/Plan/States.antt =====
-- The states of a plan's nodes while `orderedForWriting` runs, and the list of those written.
use tournament_hub.Common.{
  ℕ, ◌≤◌, ◌<◌, ◌≡◌, refl, sym, ap, ◌∙◌, ◌⊎◌, inl, inr, Bool, true, false, ◌&&◌, List, [], ◌∷◌, ◌++◌,
  Option, Option-cases, none, some, arith, ◌==◌, ==_iff, ==_self, if◌then◌else◌, Bool-cases, any,
  count_if, count_if-append, All, All-append,
}
use mathlib.Core.List.{append-nil, append_assoc}
use tournament_hub.Plan.{
  PlanNodeKind, division, phase, phase_group, match, participant, entrant, PlanNode, has_local_id,
}
use tournament_hub.Plan.Writing.{
  VisitState, visiting, done, Visits, state_of, mark, finish, last_with_id, parent_node,
}

-- How deep a kind stands under the kinds that it may hang from.
abbrev pub rank : PlanNodeKind → ℕ
rank division = 0
rank participant = 0
rank phase = 1
rank entrant = 1
rank phase_group = 2
rank match = 3

abbrev pub is_done : Option VisitState → Bool
is_done none = false
is_done (some visiting) = false
is_done (some done) = true

abbrev pub is_visiting : Option VisitState → Bool
is_visiting none = false
is_visiting (some visiting) = true
is_visiting (some done) = false

-- The plan holds this very node under its id.
abbrev pub IsHeld : List PlanNode → PlanNode → Type 0
IsHeld nodes n = last_with_id nodes n.local_id ≡ some n

abbrev pub has_parent_in : List PlanNode → List PlanNode → PlanNode → Bool
has_parent_in nodes written n = elim (parent_node nodes n) [
  | none ↦ true
  | some p ↦ any (has_local_id p.local_id) written
]

-- Each node of `rest` stands after its parent, when `written` is already written.
abbrev pub parents_first : List PlanNode → List PlanNode → List PlanNode → Bool
parents_first nodes written [] = true
parents_first nodes written (n ∷ rest) =
    has_parent_in nodes written n && parents_first nodes (written ++ n ∷ []) rest

parents_first-snoc :
    (nodes before written : List PlanNode) (n : PlanNode)
    → parents_first nodes before written ≡ true
    → has_parent_in nodes (before ++ written) n ≡ true
    → parents_first nodes before (written ++ n ∷ []) ≡ true
parents_first-snoc nodes before [] n h e = let k = rw (append-nil before) at e in ground (arith, k)
parents_first-snoc nodes before (w ∷ written) n h e =
    let k = rw (sym (append_assoc before (w ∷ []) written)) at e in
    ground (arith, h, parents_first-snoc nodes (before ++ w ∷ []) written n (ground (arith, h)) k)

pub any-of_count :
    (id : ℕ) (l : List PlanNode) → count_if (has_local_id id) l ≡ 1 → any (has_local_id id) l ≡ true
any-of_count id [] h = absurd (omega (arith, h))
any-of_count id (n ∷ l) h = ground (arith, any-of_count id l)

-- What the list of written nodes and the map of the states say of each other.
pub record IsConsistent (nodes : List PlanNode) (v : Visits) : Type 0 where
  pub once :
      (id : ℕ)
      → count_if (has_local_id id) v.ordered ≡ (if is_done (state_of v.seen id) then 1 else 0)
  pub held : All (IsHeld nodes) v.ordered
  pub first : parents_first nodes [] v.ordered ≡ true

-- A visit finishes nodes, and leaves the others as they are.
pub record IsLater (v v' : Visits) : Type 0 where
  pub errors : v'.errors ≡ v.errors
  pub steady :
      (id : ℕ)
      → (state_of v'.seen id ≡ state_of v.seen id)
        ⊎ ((state_of v.seen id ≡ none) × (state_of v'.seen id ≡ some done))

last_with_id-local_id :
    (nodes : List PlanNode) (id : ℕ) (p : PlanNode)
    → last_with_id nodes id ≡ some p
    → p.local_id ≡ id
unfolding last_with_id
last_with_id-local_id [] id p h = cc
last_with_id-local_id (n ∷ nodes) id p h = elim (Option-cases (last_with_id nodes id)) [
  | inr (q, e) ↦ ground (arith, e, h, last_with_id-local_id nodes id p)
  | inl e ↦ ground (arith, e, h, ==_iff n.local_id id)
]

pub parent_node-IsHeld :
    (nodes : List PlanNode) (node p : PlanNode) → parent_node nodes node ≡ some p → IsHeld nodes p
parent_node-IsHeld nodes node p h = elim (Option-cases node.parent_local_id) [
  | inl e ↦ absurd (cc (rw e at h))
  | inr (id, e) ↦
      let k : last_with_id nodes id ≡ some p = rw e at h in
      ap (λ i. last_with_id nodes i) (last_with_id-local_id nodes id p k) ∙ k
]

-- Marking a node touches only that node's state.
state_of-mark :
    (node : PlanNode) (v : Visits) (id : ℕ)
    → (node.local_id == id) ≡ false
    → state_of (mark node v).seen id ≡ state_of v.seen id
unfolding state_of
state_of-mark node v id e = rw e refl

pub state_of-marked :
    (node : PlanNode) (v : Visits) → state_of (mark node v).seen node.local_id ≡ some visiting
unfolding state_of
state_of-marked node v = ground (arith, ==_self node.local_id)

module _ (nodes : List PlanNode) where
  abbrev pub NothingVisited : ℕ → Visits → Type 0
  NothingVisited r v =
      (m : PlanNode)
      → IsHeld nodes m
      → rank m.kind ≤ r
      → is_visiting (state_of v.seen m.local_id) ≡ false

  pub finish-IsConsistent :
      (node : PlanNode) (v : Visits)
      → IsHeld nodes node
      → IsConsistent nodes v
      → is_done (state_of v.seen node.local_id) ≡ false
      → has_parent_in nodes v.ordered node ≡ true
      → IsConsistent nodes (finish node v)
  unfolding state_of
  finish-IsConsistent node v held ok e p = record {
    once = λ id.
        let split = count_if-append (has_local_id id) v.ordered (node ∷ []) in
        elim (Bool-cases (node.local_id == id)) [
          | inl same ↦
              let old : is_done (state_of v.seen id) ≡ false =
                rw⁻¹ ((==_iff node.local_id id).0 same) e in
              ground (arith, split, same, ok.once id, old)
          | inr other ↦ ground (arith, split, other, ok.once id)
        ];
    held = All-append (IsHeld nodes) v.ordered (node ∷ []) ok.held (held, tt);
    first = parents_first-snoc nodes [] v.ordered node ok.first p;
  }

  pub finish-IsLater :
      (node : PlanNode) (v v' : Visits)
      → state_of v.seen node.local_id ≡ none
      → IsLater (mark node v) v'
      → IsLater v (finish node v')
  unfolding state_of
  finish-IsLater node v v' e later = record {
    errors = later.errors;
    steady = λ id. elim (Bool-cases (node.local_id == id)) [
      | inl same ↦ inr (rw⁻¹ ((==_iff node.local_id id).0 same) e, ground (arith, same))
      | inr other ↦ ground (arith, other, later.steady id, state_of-mark node v id other)
    ];
  }

  pub mark-IsConsistent :
      (node : PlanNode) (v : Visits)
      → state_of v.seen node.local_id ≡ none
      → IsConsistent nodes v
      → IsConsistent nodes (mark node v)
  unfolding state_of
  mark-IsConsistent node v e ok = record {
    once = λ id. elim (Bool-cases (node.local_id == id)) [
      | inl same ↦
          let old : state_of v.seen id ≡ none = rw⁻¹ ((==_iff node.local_id id).0 same) e in
          ground (arith, same, ok.once id, old)
      | inr other ↦ ground (arith, other, ok.once id)
    ];
    held = ok.held;
    first = ok.first;
  }

  pub mark-NothingVisited :
      (node : PlanNode) (v : Visits) (r : ℕ)
      → IsHeld nodes node
      → r < rank node.kind
      → NothingVisited (rank node.kind) v
      → NothingVisited r (mark node v)
  unfolding state_of
  mark-NothingVisited node v r held lt clear m m_held le =
      elim (Bool-cases (node.local_id == m.local_id)) [
        | inl same ↦
            let ids = (==_iff node.local_id m.local_id).0 same in
            let one : some node ≡ some m = sym held ∙ ap (λ i. last_with_id nodes i) ids ∙ m_held in
            let kinds : rank node.kind ≡ rank m.kind =
              ap (λ (o : Option PlanNode). elim o [ none ↦ 0 | some n ↦ rank n.kind ]) one in
            absurd (omega (arith, le, lt, kinds))
        | inr other ↦ ground (arith, other, clear m m_held (omega (arith, le, lt)))
      ]
