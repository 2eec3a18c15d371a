-- ===== src/Placement/Groups.antt =====
-- The players in the groups of placement.resolver.ts, through grouping and tiebreaks.
use mathlib.Core.List.{flatten, append-nil, append_assoc}
use mathlib.Core.List.Perm
use tournament_hub.Common.{
  ◌≡◌, refl, sym, ◌∙◌, inl, inr, Bool, not, ◌||◌, List, [], ◌∷◌, ◌++◌, map, Perm, Bool-cases,
  flatten-append,
}
use tournament_hub.Common.Sort.{sort_by, sort_by-perm}
use tournament_hub.Placement.{
  TiebreakPlacementInput, PlacementPointEntry, MatchResultEntry, PlacementGroup, push_entry,
  group_entries, unplaced, more_points, same_points, point_groups, same_players, better_evidence,
  same_evidence, split_group, split_first, apply_tiebreaks,
}

flatten-push_entry :
    (same : MatchResultEntry → MatchResultEntry → Bool) (groups : List PlacementGroup)
    (entry : MatchResultEntry)
    → flatten (push_entry same groups entry) ≡ flatten groups ++ entry ∷ []
unfolding push_entry flatten
flatten-push_entry same [] entry = refl
flatten-push_entry same ([] ∷ []) entry = refl
flatten-push_entry same ((first ∷ group) ∷ []) entry = elim (Bool-cases (same first entry)) [
  | inl e ↦ rw e (simp (append-nil, append_assoc))
  | inr e ↦ rw e (simp (append-nil, append_assoc))
]
flatten-push_entry same (group ∷ next ∷ rest) entry =
    simp (flatten-push_entry same (next ∷ rest) entry, append_assoc)

pub flatten-group_entries :
    (same : MatchResultEntry → MatchResultEntry → Bool) (groups : List PlacementGroup)
    (entries : List MatchResultEntry)
    → flatten (group_entries same groups entries) ≡ flatten groups ++ entries
unfolding group_entries
flatten-group_entries same groups [] = sym (append-nil (flatten groups))
flatten-group_entries same groups (entry ∷ rest) =
    flatten-group_entries same (push_entry same groups entry) rest
    ∙ rw (flatten-push_entry same groups entry) (append_assoc (flatten groups) (entry ∷ []) rest)

pub split_group-perm :
    (group : PlacementGroup) (tiebreak : TiebreakPlacementInput)
    → Perm (flatten (split_group group tiebreak)) group
unfolding split_group flatten
split_group-perm group tiebreak =
    rw
      (flatten-group_entries (same_evidence tiebreak) [] (sort_by (better_evidence tiebreak) group))
      (sort_by-perm (better_evidence tiebreak) group)

split_first-perm :
    (tiebreak : TiebreakPlacementInput) (groups : List PlacementGroup)
    → Perm (flatten (split_first tiebreak groups)) (flatten groups)
unfolding split_first flatten
split_first-perm tiebreak [] = Perm.rfl
split_first-perm tiebreak (group ∷ rest) = elim (Bool-cases (same_players group tiebreak.entries)) [
  | inl e ↦ rw e (
      rw (flatten-append (split_group group tiebreak) rest)
        (Perm.append (split_group-perm group tiebreak) Perm.rfl))
  | inr e ↦ rw e (Perm.append_left group (split_first-perm tiebreak rest))
]

pub apply_tiebreaks-perm :
    (tiebreaks : List TiebreakPlacementInput) (groups : List PlacementGroup)
    → Perm (flatten (apply_tiebreaks tiebreaks groups)) (flatten groups)
unfolding apply_tiebreaks
apply_tiebreaks-perm [] groups = Perm.rfl
apply_tiebreaks-perm (tiebreak ∷ rest) groups =
    elim (Bool-cases (tiebreak.invalidated || not tiebreak.complete)) [
      | inl e ↦ rw e (apply_tiebreaks-perm rest groups)
      | inr e ↦ rw e (
          Perm.trans (apply_tiebreaks-perm rest (split_first tiebreak groups))
            (split_first-perm tiebreak groups))
    ]

pub point_groups-perm :
    (entries : List PlacementPointEntry)
    → Perm (flatten (point_groups entries)) (map unplaced entries)
unfolding point_groups flatten
point_groups-perm entries =
    rw (flatten-group_entries same_points [] (map unplaced (sort_by more_points entries)))
      (Perm.map unplaced (sort_by-perm more_points entries))
