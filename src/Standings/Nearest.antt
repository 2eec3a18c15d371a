-- ===== src/Standings/Nearest.antt =====
-- The competition at which an entrant of a division ends.
use tournament_hub.Common.{
  ℕ, ◌<◌, ◌≤◌, ltb, ltb→lt, ◌⊎◌, zero, suc, ◌∙◌, sym, subst, get_elem?, length, length-map, ◌≡◌,
  refl, inl, inr, true, false, List, [], ◌∷◌, arith, Bool-cases, All, All-map, some,
}
use tournament_hub.Common.Sort.{sort_by, length-sort_by}
use tournament_hub.Standings.{
  ExitNode, Exit, GraphNode, PlacementEntrant, is_closer_to_the_end, closest_from, stops_of,
  exit_of, exit_from, run_of, runs_before,
}

abbrev IsUnbeaten : ExitNode → List ExitNode → Type 0
IsUnbeaten held stops = All (λ s. is_closer_to_the_end s held ≡ false) stops

-- The first is less deep, or as deep with a smaller placement, or alike in both with no larger id.
abbrev pub IsAsClose : ExitNode → ExitNode → Type 0
IsAsClose held s =
    (held.depth < s.depth)
    ⊎ ((held.depth ≡ s.depth)
        × ((held.placement < s.placement)
            ⊎ ((held.placement ≡ s.placement) × (held.node.id ≤ s.node.id))))

-- No stop is closer to the end than the one that is held.
abbrev pub IsClosest : ExitNode → List ExitNode → Type 0
IsClosest held stops = All (IsAsClose held) stops

not_closer-IsAsClose : (held s : ExitNode) → is_closer_to_the_end s held ≡ false → IsAsClose held s
unfolding is_closer_to_the_end
not_closer-IsAsClose held s h = elim (Bool-cases (ltb held.depth s.depth)) [
  | inl k ↦ inl (ltb→lt held.depth s.depth k)
  | inr k ↦
      let level : held.depth ≡ s.depth = ground (arith, h, k) in
      inr (
        level,
        elim (Bool-cases (ltb held.placement s.placement)) [
          | inl f ↦ inl (ltb→lt held.placement s.placement f)
          | inr f ↦ inr (ground (arith, h, k, f, level), ground (arith, h, k, f, level))
        ],
      )
]

not_closer_chain :
    (a b c : ExitNode)
    → is_closer_to_the_end a b ≡ false
    → is_closer_to_the_end b c ≡ false
    → is_closer_to_the_end a c ≡ false
unfolding is_closer_to_the_end
not_closer_chain a b c h k = ground (arith, h, k)

not_closer_self : (a : ExitNode) → is_closer_to_the_end a a ≡ false
unfolding is_closer_to_the_end
not_closer_self a = ground arith

closer_asymm : (a b : ExitNode) → is_closer_to_the_end a b ≡ true → is_closer_to_the_end b a ≡ false
unfolding is_closer_to_the_end
closer_asymm a b h = ground (arith, h)

closest_from-IsUnbeaten :
    (held : ExitNode) (rest : List ExitNode) → IsUnbeaten (closest_from held rest) (held ∷ rest)
unfolding closest_from
closest_from-IsUnbeaten held [] = (not_closer_self held, tt)
closest_from-IsUnbeaten held (s ∷ rest) = elim (Bool-cases (is_closer_to_the_end s held)) [
  | inl e ↦
      let later = closest_from-IsUnbeaten s rest in
      let same : closest_from held (s ∷ rest) ≡ closest_from s rest = rw (closest_from, e) refl in
      subst (λ x. IsUnbeaten x (held ∷ s ∷ rest)) (sym same)
        (
          not_closer_chain held s (closest_from s rest) (closer_asymm s held e) later.0,
          (later.0, later.1),
        )
  | inr e ↦
      let later = closest_from-IsUnbeaten held rest in
      let same : closest_from held (s ∷ rest) ≡ closest_from held rest =
        rw (closest_from, e) refl in
      subst (λ x. IsUnbeaten x (held ∷ s ∷ rest)) (sym same)
        (later.0, (not_closer_chain s held (closest_from held rest) e later.0, later.1))
]

skip :
    (held s : ExitNode) (rest : List ExitNode) (i : ℕ) (x : ExitNode)
    → get_elem? (held ∷ rest) i ≡ some x
    → (j : ℕ) × (get_elem? (held ∷ s ∷ rest) j ≡ some x)
skip held s rest zero x h = (zero, h)
skip held s rest (suc i) x h = (suc (suc i), h)

closest_from-get_elem? :
    (held : ExitNode) (rest : List ExitNode)
    → (i : ℕ) × (get_elem? (held ∷ rest) i ≡ some (closest_from held rest))
unfolding closest_from
closest_from-get_elem? held [] = (0, refl)
closest_from-get_elem? held (s ∷ rest) = elim (Bool-cases (is_closer_to_the_end s held)) [
  | inl e ↦ let (i, at) = closest_from-get_elem? s rest in (suc i, at ∙ rw (closest_from, e) refl)
  | inr e ↦
      let (i, at) = closest_from-get_elem? held rest in
      let (j, there) = skip held s rest i (closest_from held rest) at in
      (j, there ∙ rw (closest_from, e) refl)
]

exit_from-IsClosest :
    (entrant : PlacementEntrant) (stops : List ExitNode) (x : Exit)
    → exit_from entrant stops ≡ some x
    → IsClosest x.stop stops
      × ((i : ℕ) × (get_elem? stops i ≡ some x.stop))
      × (length x.run ≡ length stops)
unfolding exit_from run_of
exit_from-IsClosest entrant [] x h = absurd cc
exit_from-IsClosest entrant (first ∷ rest) x h =
    let found : Exit = record {
      stop = closest_from first rest;
      entrant = entrant;
      run = run_of (first ∷ rest);
    } in
    let same : found ≡ x = ground (arith, h) in
    subst
      (λ (y : Exit).
        IsClosest y.stop (first ∷ rest)
        × ((i : ℕ) × (get_elem? (first ∷ rest) i ≡ some y.stop))
        × (length y.run ≡ length (first ∷ rest)))
      same
      (
        All-map (λ s. is_closer_to_the_end s (closest_from first rest) ≡ false)
            (not_closer-IsAsClose (closest_from first rest)) (first ∷ rest)
            (closest_from-IsUnbeaten first rest),
        closest_from-get_elem? first rest,
        length-map _ (sort_by runs_before (first ∷ rest))
            ∙ length-sort_by runs_before (first ∷ rest),
      )

-- The exit of an entrant is one of the entrant's stops, and none of these is closer to the end; and
-- the run of the exit has a step for each stop.
pub exit_of-IsClosest :
    (nodes : List GraphNode) (entrant : PlacementEntrant) (x : Exit)
    → exit_of nodes entrant ≡ some x
    → IsClosest x.stop (stops_of nodes entrant.entrant_id)
      × ((i : ℕ) × (get_elem? (stops_of nodes entrant.entrant_id) i ≡ some x.stop))
      × (length x.run ≡ length (stops_of nodes entrant.entrant_id))
unfolding exit_of
exit_of-IsClosest nodes entrant x h =
    exit_from-IsClosest entrant (stops_of nodes entrant.entrant_id) x h
