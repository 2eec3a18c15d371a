-- ===== src/Pool/Placements.antt =====
-- The placements that a pool reads from its matches.
use mathlib.Core.List.{flatten}
use tournament_hub.Common.{
  ℕ, ◌≤◌, ◌≡◌, refl, ap, ◌∙◌, sym, inl, inr, true, false, List, [], ◌∷◌, map, arith, ◌==◌, ==_iff,
  ==_self, if◌then◌else◌, Bool-cases, Option-cases, none, some, any, any-append, count_if, All,
  All-map,
}
use tournament_hub.Placement.{map_get}
use tournament_hub.Match.Model.{Entrant, Match}
use tournament_hub.Match.Scores.{is_entrant}
use tournament_hub.Pool.{PhaseGroupAggregate}
use tournament_hub.Pool.Totals.{
  PoolTotal, pool_totals, entries_of, found_entrants, placements, points_of_entrant,
}
use tournament_hub.Pool.Sums.{is_total_of, pool_totals-IsRanking}

-- The entrants of all the matches.
abbrev pub entrants_of : List Match → List Entrant
entrants_of ms = flatten (map (λ (m : Match). m.entrants) ms)

any-entries_of :
    (id : ℕ) (m : Match) (es : List Entrant)
    → any
        (is_total_of id)
        (map (λ (e : Entrant). record { entrant_id = e.id; points = points_of_entrant m e }) es)
      ≡ any (is_entrant id) es
any-entries_of id m [] = refl
any-entries_of id m (e ∷ es) = ground (arith, any-entries_of id m es)

any-flatten_entries :
    (id : ℕ) (ms : List Match)
    → any (is_total_of id) (flatten (map entries_of ms)) ≡ any (is_entrant id) (entrants_of ms)
unfolding flatten entries_of
any-flatten_entries id [] = refl
any-flatten_entries id (m ∷ ms) = ground (
  arith,
  any-append (is_total_of id) (entries_of m) (flatten (map entries_of ms)),
  any-append (is_entrant id) m.entrants (entrants_of ms),
  any-entries_of id m m.entrants,
  any-flatten_entries id ms,
)

abbrev by_id : List Entrant → List (ℕ × Entrant)
by_id es = map {B = ℕ × Entrant} (λ (x : Entrant). (x.id, x)) es

map_get-by_id :
    (id : ℕ) (es : List Entrant) (e : Entrant) → map_get id (by_id es) ≡ some e → e.id ≡ id
unfolding map_get
map_get-by_id id [] e h = cc
map_get-by_id id (x ∷ es) e h = elim (Option-cases (map_get id (by_id es))) [
  | inr (y, k) ↦ map_get-by_id id es e (ground (arith, h, k))
  | inl k ↦ elim (Bool-cases (x.id == id)) [
    | inl same ↦
        let first : x ≡ e = ground (arith, h, k, same) in
        sym (ap (λ (y : Entrant). y.id) first) ∙ (==_iff x.id id).0 same
    | inr other ↦ absurd (ground (arith, h, k, other))
  ]
]

map_get-none :
    (id : ℕ) (es : List Entrant) → map_get id (by_id es) ≡ none → any (is_entrant id) es ≡ false
unfolding map_get
map_get-none id [] h = refl
map_get-none id (x ∷ es) h = elim (Option-cases (map_get id (by_id es))) [
  | inr (y, k) ↦ absurd (ground (arith, h, k))
  | inl k ↦ ground (arith, h, k, map_get-none id es k)
]

-- Every total whose entrant has a match finds that entrant.
found_entrants-ids :
    (es : List Entrant) (totals : List PoolTotal)
    → All (λ (t : PoolTotal). any (is_entrant t.entrant_id) es ≡ true) totals
    → map (λ (e : Entrant). e.id) (found_entrants (by_id es) totals)
      ≡ map (λ (t : PoolTotal). t.entrant_id) totals
unfolding found_entrants
found_entrants-ids es [] h = refl
found_entrants-ids es (t ∷ totals) h = elim (Option-cases (map_get t.entrant_id (by_id es))) [
  | inl k ↦ absurd (cc (sym h.0 ∙ map_get-none t.entrant_id es k))
  | inr (e, k) ↦
      let same = map_get-by_id t.entrant_id es e k in
      let rest = found_entrants-ids es totals h.1 in ground (arith, k, same, rest)
]

count_if_self :
    (totals : List PoolTotal)
    → All (λ (t : PoolTotal). 1 ≤ count_if (is_total_of t.entrant_id) totals) totals
count_if_self [] = tt
count_if_self (t ∷ totals) = (
  ground (arith, ==_self t.entrant_id),
  All-map (λ (s : PoolTotal). 1 ≤ count_if (is_total_of s.entrant_id) totals)
      (λ s h. ground (arith, h)) totals (count_if_self totals),
)

count_if-ids :
    (es : List Entrant) (totals : List PoolTotal) (id : ℕ)
    → map (λ (e : Entrant). e.id) es ≡ map (λ (t : PoolTotal). t.entrant_id) totals
    → count_if (is_entrant id) es ≡ count_if (is_total_of id) totals
count_if-ids [] [] id h = refl
count_if-ids [] (t ∷ totals) id h = cc
count_if-ids (e ∷ es) [] id h = cc
count_if-ids (e ∷ es) (t ∷ totals) id h =
    let same : e.id ≡ t.entrant_id = cc h in ground (arith, same, count_if-ids es totals id (cc h))

-- The placements of a pool are the entrants of its matches, in the order of `poolTotals`.
pub placements-pool_totals :
    (a : PhaseGroupAggregate)
    → map (λ (e : Entrant). e.id) (placements a)
      ≡ map (λ (t : PoolTotal). t.entrant_id) (pool_totals (map entries_of a.phase_group.matches))
unfolding placements
placements-pool_totals a =
    let ms = a.phase_group.matches in
    let totals = pool_totals (map entries_of ms) in
    found_entrants-ids (entrants_of ms) totals (
      All-map (λ (t : PoolTotal). 1 ≤ count_if (is_total_of t.entrant_id) totals)
        (λ t h. ground (
          arith,
          h,
          ((pool_totals-IsRanking (map entries_of ms)).0 t.entrant_id).1,
          any-flatten_entries t.entrant_id ms,
        ))
        totals (count_if_self totals))

-- Every entrant of a pool's matches has one place in `placements`, and nobody else has one.
pub count_if-placements :
    (a : PhaseGroupAggregate) (id : ℕ)
    → count_if (is_entrant id) (placements a)
      ≡ (if any (is_entrant id) (entrants_of a.phase_group.matches) then 1 else 0)
count_if-placements a id =
    let ms = a.phase_group.matches in
    count_if-ids (placements a) (pool_totals (map entries_of ms)) id (placements-pool_totals a)
    ∙ ((pool_totals-IsRanking (map entries_of ms)).0 id).1
    ∙ rw (any-flatten_entries id ms) refl
