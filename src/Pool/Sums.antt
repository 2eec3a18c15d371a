-- ===== src/Pool/Sums.antt =====
-- What `poolTotals` computes: the sums of the entries, one for each entrant, in order.
use mathlib.Core.List.{flatten, append-nil, append_assoc}
use tournament_hub.Common.{
  ℕ, ◌+◌, ◌≤◌, ◌<◌, ◌⊎◌, inl, inr, false, ltb, ltb→lt, Bool-cases, All, All-map, ◌≡◌, refl, ◌∙◌,
  sym, subst, Bool, ◌&&◌, List, [], ◌∷◌, ◌++◌, arith, ◌==◌, ==_iff, if◌then◌else◌, any, any-append,
  count_if, sum_by,
}
use tournament_hub.Common.Sort.{
  IsOrder, IsSorted, sort_by, sort_by-IsSorted, count_if-sort_by, sum_by-sort_by,
}
use tournament_hub.Pool.Totals.{
  PoolTotal, add_points, add_match, add_matches, ranks_before, pool_totals,
}

abbrev pub is_total_of : ℕ → PoolTotal → Bool
is_total_of id t = t.entrant_id == id

-- The points that the entries of the entrant add up to.
abbrev pub points_for : ℕ → List PoolTotal → ℕ
points_for id = sum_by (λ (t : PoolTotal). if is_total_of id t then t.points else 0)

-- One total for each entrant who has entries, and the sum of those.
record IsTally (totals entries : List PoolTotal) : Type 0 where
  points : (id : ℕ) → points_for id totals ≡ points_for id entries
  once :
      (id : ℕ) → count_if (is_total_of id) totals ≡ (if any (is_total_of id) entries then 1 else 0)

points_for-add_points :
    (id : ℕ) (totals : List PoolTotal) (e : PoolTotal)
    → points_for id (add_points totals e) ≡ points_for id totals + points_for id (e ∷ [])
unfolding add_points
points_for-add_points id [] e = omega arith
points_for-add_points id (t ∷ totals) e =
    ground (arith, points_for-add_points id totals e, ==_iff t.entrant_id e.entrant_id)

count_if-add_points :
    (id : ℕ) (totals : List PoolTotal) (e : PoolTotal)
    → count_if (is_total_of id) (add_points totals e)
      ≡ count_if (is_total_of id) totals
        + (if is_total_of id e && (count_if (is_total_of id) totals == 0) then 1 else 0)
unfolding add_points
count_if-add_points id [] e = ground arith
count_if-add_points id (t ∷ totals) e =
    ground (arith, count_if-add_points id totals e, ==_iff t.entrant_id e.entrant_id)

points_for-snoc :
    (id : ℕ) (entries : List PoolTotal) (e : PoolTotal)
    → points_for id (entries ++ e ∷ []) ≡ points_for id entries + points_for id (e ∷ [])
points_for-snoc id [] e = omega arith
points_for-snoc id (x ∷ entries) e = omega (arith, points_for-snoc id entries e)

add_points-IsTally :
    (totals entries : List PoolTotal) (e : PoolTotal)
    → IsTally totals entries
    → IsTally (add_points totals e) (entries ++ e ∷ [])
add_points-IsTally totals entries e t = record {
  points = λ id.
      omega (arith, t.points id, points_for-add_points id totals e, points_for-snoc id entries e);
  once = λ id. ground (
    arith,
    t.once id,
    count_if-add_points id totals e,
    any-append (is_total_of id) entries (e ∷ []),
  );
}

add_match-IsTally :
    (totals entries m : List PoolTotal)
    → IsTally totals entries
    → IsTally (add_match totals m) (entries ++ m)
unfolding add_match
add_match-IsTally totals entries [] t = subst (IsTally totals) (sym (append-nil entries)) t
add_match-IsTally totals entries (e ∷ m) t =
    subst (IsTally (add_match (add_points totals e) m)) (append_assoc entries (e ∷ []) m) (
      add_match-IsTally (add_points totals e) (entries ++ e ∷ []) m
        (add_points-IsTally totals entries e t))

add_matches-IsTally :
    (totals entries : List PoolTotal) (ms : List (List PoolTotal))
    → IsTally totals entries
    → IsTally (add_matches totals ms) (entries ++ flatten ms)
unfolding add_matches flatten
add_matches-IsTally totals entries [] t = subst (IsTally totals) (sym (append-nil entries)) t
add_matches-IsTally totals entries (m ∷ ms) t =
    subst (IsTally (add_matches (add_match totals m) ms)) (append_assoc entries m (flatten ms)) (
      add_matches-IsTally (add_match totals m) (entries ++ m) ms
        (add_match-IsTally totals entries m t))

ranks_before-IsOrder : IsOrder ranks_before
ranks_before-IsOrder = record {
  asymm = λ a b h. ground (arith, h);
  chain = λ a b c h k. ground (arith, h, k);
}

-- The total on the left has more points, or the same and not the larger id.
abbrev pub IsAhead : PoolTotal → PoolTotal → Type 0
IsAhead a b = (b.points < a.points) ⊎ ((a.points ≡ b.points) × (a.entrant_id ≤ b.entrant_id))

-- Every total is ahead of those that follow it.
abbrev pub IsInOrder : List PoolTotal → Type 0
IsInOrder [] = Unit
IsInOrder (t ∷ totals) = All (IsAhead t) totals × IsInOrder totals

ranks_before-IsAhead : (a b : PoolTotal) → ranks_before b a ≡ false → IsAhead a b
ranks_before-IsAhead a b h = elim (Bool-cases (ltb b.points a.points)) [
  | inl k ↦ inl (ltb→lt b.points a.points k)
  | inr k ↦ inr (ground (arith, h, k), ground (arith, h, k))
]

IsSorted-IsInOrder : (totals : List PoolTotal) → IsSorted ranks_before totals → IsInOrder totals
IsSorted-IsInOrder [] h = tt
IsSorted-IsInOrder (t ∷ totals) h = (
  All-map (λ b. ranks_before b t ≡ false) (ranks_before-IsAhead t) totals h.0,
  IsSorted-IsInOrder totals h.1,
)

-- `poolTotals` gives each entrant of the matches one total, the sum of the entrant's points over all the
-- matches, and nobody else; each total stands before those of
-- fewer points, and before those of as many points and a larger id.
pub pool_totals-IsRanking :
    (ms : List (List PoolTotal))
    → ((id : ℕ)
        → (points_for id (pool_totals ms) ≡ points_for id (flatten ms))
          × (count_if (is_total_of id) (pool_totals ms)
              ≡ (if any (is_total_of id) (flatten ms) then 1 else 0)))
      × IsInOrder (pool_totals ms)
unfolding pool_totals
pool_totals-IsRanking ms =
    let tally : IsTally (add_matches [] ms) (flatten ms) =
      add_matches-IsTally [] [] ms (record { points = λ id. refl; once = λ id. refl }) in
    let totals = add_matches [] ms in
    (
      λ id. (
        sum_by-sort_by ranks_before (λ (t : PoolTotal). if is_total_of id t then t.points else 0)
              totals
            ∙ tally.points id,
        count_if-sort_by ranks_before (is_total_of id) totals ∙ tally.once id,
      ),
      IsSorted-IsInOrder (sort_by ranks_before totals)
          (sort_by-IsSorted ranks_before ranks_before-IsOrder totals),
    )
