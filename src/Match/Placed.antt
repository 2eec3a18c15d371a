-- ===== src/Match/Placed.antt =====
-- `entrantsByPlacement` of match.aggregate.ts: the order of the entrants in a stored result.
use tournament_hub.Common.{
  ℕ, ◌≤◌, ◌≡◌, refl, true, false, Bool, List, [], ◌∷◌, Option, none, some, ltb, arith, Perm, All,
  All-map,
}
use tournament_hub.Common.Sort.{IsOrder, IsSorted, sort_by, sort_by-IsSorted, sort_by-perm}
use tournament_hub.Placement.{MatchResultEntry}
use tournament_hub.Match.Model.{Entrant, MatchAggregate}
use tournament_hub.Match.Tiebreaks.{entrant_index, comes_before, entrants_by_placement}

-- The entries of the stored result.
abbrev pub entries_of_result : MatchAggregate → List MatchResultEntry
entries_of_result a = elim a.match.match_result [ none ↦ [] | some r ↦ r.player_points ]

-- An index is not behind another one, which may be missing.
abbrev pub IsUpTo : Option ℕ → Option ℕ → Type 0
IsUpTo i none = Unit
IsUpTo none (some j) = ⊥
IsUpTo (some i) (some j) = i ≤ j

-- The first entrant has no later entry than the second, and has one if the second does.
abbrev pub IsPlacedUpTo : List MatchResultEntry → Entrant → Entrant → Type 0
IsPlacedUpTo entries x y = IsUpTo (entrant_index entries x) (entrant_index entries y)

abbrev pub IsByResult : List MatchResultEntry → List Entrant → Type 0
IsByResult entries [] = Unit
IsByResult entries (x ∷ es) = All (IsPlacedUpTo entries x) es × IsByResult entries es

-- The comparator, on the indices.
abbrev index_before : Option ℕ → Option ℕ → Bool
index_before o p = elim o [ none ↦ false | some i ↦ elim p [ none ↦ true | some j ↦ ltb i j ] ]

index_before-asymm : (o p : Option ℕ) → index_before o p ≡ true → index_before p o ≡ false
index_before-asymm none p h = cc
index_before-asymm (some i) none h = refl
index_before-asymm (some i) (some j) h = ground (arith, h)

index_before-chain :
    (o p q : Option ℕ)
    → index_before p o ≡ false
    → index_before q p ≡ false
    → index_before q o ≡ false
index_before-chain o p none h k = refl
index_before-chain none none (some n) h k = cc
index_before-chain none (some j) (some n) h k = cc
index_before-chain (some i) none (some n) h k = cc
index_before-chain (some i) (some j) (some n) h k = ground (arith, h, k)

index_before-IsUpTo : (o p : Option ℕ) → index_before p o ≡ false → IsUpTo o p
index_before-IsUpTo o none h = tt
index_before-IsUpTo none (some j) h = cc
index_before-IsUpTo (some i) (some j) h = ground (arith, h)

comes_before-IsOrder : (entries : List MatchResultEntry) → IsOrder (comes_before entries)
comes_before-IsOrder entries = record {
  asymm = λ x y. index_before-asymm (entrant_index entries x) (entrant_index entries y);
  chain = λ x y z.
      index_before-chain (entrant_index entries x) (entrant_index entries y)
        (entrant_index entries z);
}

IsSorted-IsByResult :
    (entries : List MatchResultEntry) (es : List Entrant)
    → IsSorted (comes_before entries) es
    → IsByResult entries es
IsSorted-IsByResult entries [] h = tt
IsSorted-IsByResult entries (x ∷ es) h = (
  All-map (λ y. comes_before entries y x ≡ false)
      (λ y. index_before-IsUpTo (entrant_index entries x) (entrant_index entries y)) es h.0,
  IsSorted-IsByResult entries es h.1,
)

-- The entrants of a match by placement are its entrants, in the order of the stored result; those whom
-- the result does not hold come last.
pub entrants_by_placement-IsByResult :
    (a : MatchAggregate)
    → Perm (entrants_by_placement a) a.match.entrants
      × IsByResult (entries_of_result a) (entrants_by_placement a)
unfolding entrants_by_placement
entrants_by_placement-IsByResult a =
    let before = comes_before (entries_of_result a) in
    (
      sort_by-perm before a.match.entrants,
      IsSorted-IsByResult (entries_of_result a) (sort_by before a.match.entrants)
          (sort_by-IsSorted before (comes_before-IsOrder (entries_of_result a)) a.match.entrants),
    )
