-- ===== src/Placement/Levels.antt =====
-- The points of the groups of `pointGroups`, through every tiebreak.
use mathlib.Core.List.{flatten}
use native.Mathlib.Nat.{le_refl}
use tournament_hub.Common.{
  ℕ, ◌≤◌, ◌≡◌, refl, inl, inr, false, not, ◌||◌, List, [], ◌∷◌, ◌++◌, map, arith, Bool-cases, All,
  All-map, All-append, All-append_left, All-append_right, max,
}
use tournament_hub.Common.Sort.{sort_by, All-sort_by, IsOrder, IsSorted, sort_by-IsSorted}
use tournament_hub.Placement.{
  TiebreakPlacementInput, PlacementPointEntry, MatchResultEntry, PlacementGroup, unplaced,
  point_groups, push_entry, group_entries, split_group, split_first, apply_tiebreaks, same_points,
  more_points, same_evidence, better_evidence, same_players,
}
use tournament_hub.Placement.Groups.{flatten-group_entries}

-- All members have `p` points.
abbrev pub Level : ℕ → PlacementGroup → Type 0
Level p = All (λ (e : MatchResultEntry). e.points ≡ p)

-- Each group has one number of points, at most `b` and at most that of the group before it.
abbrev pub Descends : ℕ → List PlacementGroup → Type 0
Descends b [] = Unit
Descends b (group ∷ rest) = (p : ℕ) × (p ≤ b) × Level p group × Descends p rest

module _ (P : MatchResultEntry → Type 0) where
  pub All-groups : (groups : List PlacementGroup) → All P (flatten groups) → All (All P) groups
  unfolding flatten
  All-groups [] h = tt
  All-groups (group ∷ rest) h = (
    All-append_left P group (flatten rest) h,
    All-groups rest (All-append_right P group (flatten rest) h),
  )

  All-flatten : (groups : List PlacementGroup) → All (All P) groups → All P (flatten groups)
  unfolding flatten
  All-flatten [] h = tt
  All-flatten (group ∷ rest) h = All-append P group (flatten rest) h.0 (All-flatten rest h.1)

Descends-append :
    (b p : ℕ) (groups rest : List PlacementGroup)
    → p ≤ b
    → All (Level p) groups
    → Descends p rest
    → Descends b (groups ++ rest)
Descends-append b p [] rest h k d = Descends-weaken rest h d
  where
    Descends-weaken :
        {q : ℕ} (rest : List PlacementGroup) → q ≤ b → Descends q rest → Descends b rest
    Descends-weaken [] h d = tt
    Descends-weaken (group ∷ rest) h d = (d.0, omega arith, d.2, d.3)
Descends-append b p (group ∷ groups) rest h k d =
    (p, h, k.0, Descends-append p p groups rest (le_refl p) k.1 d)

split_group-Level :
    (p : ℕ) (group : PlacementGroup) (tiebreak : TiebreakPlacementInput)
    → Level p group
    → All (Level p) (split_group group tiebreak)
unfolding split_group flatten
split_group-Level p group tiebreak h =
    let sorted = sort_by (better_evidence tiebreak) group in
    All-groups (λ (e : MatchResultEntry). e.points ≡ p)
      (group_entries (same_evidence tiebreak) [] sorted)
      (rw (flatten-group_entries (same_evidence tiebreak) [] sorted)
        (All-sort_by (better_evidence tiebreak) (λ (e : MatchResultEntry). e.points ≡ p) group h))

split_first-Descends :
    (b : ℕ) (tiebreak : TiebreakPlacementInput) (groups : List PlacementGroup)
    → Descends b groups
    → Descends b (split_first tiebreak groups)
unfolding split_first
split_first-Descends b tiebreak [] d = tt
split_first-Descends b tiebreak (group ∷ rest) (p, h, l, d) =
    elim (Bool-cases (same_players group tiebreak.entries)) [
      | inl e ↦ rw e (
          Descends-append b p (split_group group tiebreak) rest h
            (split_group-Level p group tiebreak l) d)
      | inr e ↦ rw e (p, h, l, split_first-Descends p tiebreak rest d)
    ]

pub apply_tiebreaks-Descends :
    (b : ℕ) (tiebreaks : List TiebreakPlacementInput) (groups : List PlacementGroup)
    → Descends b groups
    → Descends b (apply_tiebreaks tiebreaks groups)
unfolding apply_tiebreaks
apply_tiebreaks-Descends b [] groups d = d
apply_tiebreaks-Descends b (tiebreak ∷ rest) groups d =
    elim (Bool-cases (tiebreak.invalidated || not tiebreak.complete)) [
      | inl e ↦ rw e (apply_tiebreaks-Descends b rest groups d)
      | inr e ↦ rw e (
          apply_tiebreaks-Descends b rest (split_first tiebreak groups)
            (split_first-Descends b tiebreak groups d))
    ]

-- The entries do not rise in points.
abbrev pub NonRising : List MatchResultEntry → Type 0
NonRising [] = Unit
NonRising (e ∷ rest) = All (λ (f : MatchResultEntry). f.points ≤ e.points) rest × NonRising rest

-- Every member has the points of the first.
abbrev pub Uniform : PlacementGroup → Type 0
Uniform [] = Unit
Uniform (e ∷ rest) = Level e.points rest

push_entry-Uniform :
    (groups : List PlacementGroup) (entry : MatchResultEntry)
    → All Uniform groups
    → All Uniform (push_entry same_points groups entry)
unfolding push_entry
push_entry-Uniform [] entry h = (tt, tt)
push_entry-Uniform ([] ∷ []) entry h = (tt, (tt, tt))
push_entry-Uniform ((first ∷ group) ∷ []) entry h = elim (Bool-cases (same_points first entry)) [
  | inl e ↦ rw e (
    All-append (λ (f : MatchResultEntry). f.points ≡ first.points) group (entry ∷ []) h.0
        (ground (arith, e), tt),
    tt,
  )
  | inr e ↦ rw e (h.0, (tt, tt))
]
push_entry-Uniform (group ∷ next ∷ rest) entry h = (h.0, push_entry-Uniform (next ∷ rest) entry h.1)

group_entries-Uniform :
    (groups : List PlacementGroup) (entries : List MatchResultEntry)
    → All Uniform groups
    → All Uniform (group_entries same_points groups entries)
unfolding group_entries
group_entries-Uniform groups [] h = h
group_entries-Uniform groups (entry ∷ rest) h =
    group_entries-Uniform (push_entry same_points groups entry) rest
      (push_entry-Uniform groups entry h)

Level-of_Uniform :
    (e : MatchResultEntry) (group : PlacementGroup)
    → Uniform (e ∷ group)
    → Level e.points (e ∷ group)
Level-of_Uniform e group u = (refl, u)

NonRising-append_right : (xs ys : List MatchResultEntry) → NonRising (xs ++ ys) → NonRising ys
NonRising-append_right [] ys n = n
NonRising-append_right (x ∷ xs) ys n = NonRising-append_right xs ys n.1

Descends-of_NonRising :
    (b : ℕ) (groups : List PlacementGroup)
    → All (λ (e : MatchResultEntry). e.points ≤ b) (flatten groups)
    → NonRising (flatten groups)
    → All Uniform groups
    → Descends b groups
unfolding flatten
Descends-of_NonRising b [] h n u = tt
Descends-of_NonRising b ([] ∷ rest) h n u = (b, le_refl b, tt, Descends-of_NonRising b rest h n u.1)
Descends-of_NonRising b ((e ∷ group) ∷ rest) h n u = (
  e.points,
  h.0,
  (refl, u.0),
  Descends-of_NonRising e.points rest
      (All-append_right (λ (f : MatchResultEntry). f.points ≤ e.points) group (flatten rest) n.0)
      (NonRising-append_right group (flatten rest) n.1) u.1,
)

more_points-IsOrder : IsOrder more_points
more_points-IsOrder = record { asymm = λ a b h. ground arith; chain = λ a b c h k. ground arith }

NonRising-unplaced :
    (l : List PlacementPointEntry) → IsSorted more_points l → NonRising (map unplaced l)
NonRising-unplaced [] s = tt
NonRising-unplaced (e ∷ l) s = (below l s.0, NonRising-unplaced l s.1)
  where
    below :
        (l : List PlacementPointEntry)
        → All (λ f. more_points f e ≡ false) l
        → All (λ (f : MatchResultEntry). f.points ≤ e.points) (map unplaced l)
    below [] h = tt
    below (f ∷ l) h = (ground (arith, h.0), below l h.1)

-- A bound for the points of a list.
pub most : List MatchResultEntry → ℕ
most [] = 0
most (e ∷ l) = max e.points (most l)

pub most-bounds : (l : List MatchResultEntry) → All (λ (e : MatchResultEntry). e.points ≤ most l) l
unfolding most
most-bounds [] = tt
most-bounds (e ∷ l) = (
  omega arith,
  All-map (λ (f : MatchResultEntry). f.points ≤ most l) (λ f h. omega arith) l (most-bounds l),
)

pub point_groups-Descends :
    (entries : List PlacementPointEntry)
    → Descends (most (flatten (point_groups entries))) (point_groups entries)
unfolding point_groups flatten
point_groups-Descends entries =
    let sorted = map unplaced (sort_by more_points entries) in
    let groups = group_entries same_points [] sorted in
    Descends-of_NonRising (most (flatten groups)) groups (most-bounds (flatten groups))
      (rw (flatten-group_entries same_points [] sorted) (
        NonRising-unplaced (sort_by more_points entries)
          (sort_by-IsSorted more_points more_points-IsOrder entries)))
      (group_entries-Uniform [] sorted tt)
