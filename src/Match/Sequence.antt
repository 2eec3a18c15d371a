-- ===== src/Match/Sequence.antt =====
-- `addTiebreak` of match.aggregate.ts: when a tiebreak is added, and where it comes.
use tournament_hub.Common.{
  ℕ, suc, ◌+◌, ◌≤◌, ◌<◌, ◌≡◌, refl, sym, subst, ◌∙◌, some, map, get_elem?, Perm, ==_iff, ap, inl,
  inr, Bool, true, false, not, List, [], ◌∷◌, ◌++◌, Option, arith, max, ltb, Bool-cases, any, All,
  All-map, ok, throw_if, >>=-eq-ok, ok_injective,
}
use mathlib.Core.List.Perm
use tournament_hub.Common.Sort.{sort_by, sort_by-perm}
use tournament_hub.Placement.{MatchPlacementTie}
use tournament_hub.Match.Model.{
  MatchTiebreakStanding, MatchTiebreak, MatchAggregate, tie_not_ambiguous, tiebreak_pending,
}
use tournament_hub.Match.State.{result_state}
use tournament_hub.Match.Settle.{assert_editable}
use tournament_hub.Match.Tiebreaks.{
  add_tiebreak, last_sequence, is_pending, same_list, same_ids, fresh_standing,
}

last_sequence-le : (m : ℕ) (l : List MatchTiebreak) → m ≤ last_sequence m l
unfolding last_sequence
last_sequence-le m [] = omega arith
last_sequence-le m (t ∷ l) = omega (arith, last_sequence-le (max m t.sequence) l)

last_sequence-bounds :
    (m : ℕ) (l : List MatchTiebreak) → All (λ (t : MatchTiebreak). t.sequence ≤ last_sequence m l) l
unfolding last_sequence
last_sequence-bounds m [] = tt
last_sequence-bounds m (t ∷ l) = (
  omega (arith, last_sequence-le (max m t.sequence) l),
  last_sequence-bounds (max m t.sequence) l,
)

All-of_not_any {ℓ} :
    {A : Type ℓ} (p : A → Bool) (l : List A) → any p l ≡ false → All (λ x. p x ≡ false) l
All-of_not_any p [] h = tt
All-of_not_any p (x ∷ l) h = elim (Bool-cases (p x)) [
  | inl e ↦ absurd (cc (rw e at h))
  | inr e ↦ (e, All-of_not_any p l (rw e at h))
]

same_list→≡ : (l r : List ℕ) → same_list l r ≡ true → l ≡ r
unfolding same_list
same_list→≡ [] [] h = refl
same_list→≡ [] (b ∷ r) h = cc
same_list→≡ (a ∷ l) [] h = cc
same_list→≡ (a ∷ l) (b ∷ r) h =
    let head : a ≡ b = (==_iff a b).0 (ground (arith, h)) in
    let tail = same_list→≡ l r (ground (arith, h)) in cc (head, tail)

same_ids-perm : (l players : List ℕ) → same_ids l (sort_by ltb players) ≡ true → Perm l players
unfolding same_ids
same_ids-perm l players h =
    let same = same_list→≡ (sort_by ltb l) (sort_by ltb players) (ground (arith, h)) in
    Perm.trans (Perm.symm (sort_by-perm ltb l))
      (subst (λ x. Perm x players) (sym same) (sort_by-perm ltb players))

any-get_elem? {ℓ} :
    {A : Type ℓ} (p : A → Bool) (l : List A)
    → any p l ≡ true
    → (i : ℕ) × (x : A) × (get_elem? l i ≡ some x) × (p x ≡ true)
any-get_elem? p [] h = cc
any-get_elem? p (x ∷ l) h = elim (Bool-cases (p x)) [
  | inl e ↦ (0, x, refl, e)
  | inr e ↦ let (i, y, at, k) = any-get_elem? p l (rw e at h) in (suc i, y, at, k)
]

standings-players :
    (song : Option ℕ) (players : List ℕ)
    → map (λ (s : MatchTiebreakStanding). s.player) (map (fresh_standing song) players) ≡ players
standings-players song [] = refl
standings-players song (p ∷ players) = ap (◌∷◌ p) (standings-players song players)

-- A tiebreak that is added: it comes last in the list and in the sequence, none is pending before it,
-- and it is played by the players of a tie that is ambiguous now, in a match without a result.
pub record IsNext (a : MatchAggregate) (players : List ℕ) (a' : MatchAggregate) (t : MatchTiebreak)
    : Type 0 where
  pub added : a'.match.tiebreaks ≡ a.match.tiebreaks ++ t ∷ []
  pub latest : All (λ (u : MatchTiebreak). u.sequence < t.sequence) a.match.tiebreaks
  pub none_pending : All (λ (u : MatchTiebreak). is_pending u ≡ false) a.match.tiebreaks
  pub ambiguous :
      (i : ℕ) × (tie : MatchPlacementTie) × (get_elem? (result_state a).ambiguous_ties i ≡ some tie)
      × Perm tie.player_ids players
  pub played_by : map (λ (s : MatchTiebreakStanding). s.player) t.standings ≡ players
  pub uncommitted : assert_editable a ≡ ok tt

-- A tiebreak is added only to a match without a result, while no other tiebreak is pending, and for the
-- players of a tie that is ambiguous now, in any order: it has a standing for each of them, in the order
-- of the request. It comes last, with a sequence number above all others.
pub add_tiebreak-IsNext :
    (a a' : MatchAggregate) (song : Option ℕ) (players : List ℕ) (t : MatchTiebreak)
    → add_tiebreak a song players ≡ ok (a', t)
    → IsNext a players a' t
unfolding add_tiebreak
add_tiebreak-IsNext a a' song players t h =
    let (_, editable, h1) = >>=-eq-ok (assert_editable a) _ h in
    let requested = sort_by ltb players in
    let found =
      any (λ (tie : MatchPlacementTie). same_ids tie.player_ids requested)
        (result_state a).ambiguous_ties in
    let (_, is_tie, h2) = >>=-eq-ok (throw_if (not found) tie_not_ambiguous) _ h1 in
    let (_, free, h3) =
      >>=-eq-ok (throw_if (any is_pending a.match.tiebreaks) tiebreak_pending) _ h2 in
    let same = ok_injective h3 in
    let next : last_sequence 0 a.match.tiebreaks + 1 ≡ t.sequence = ap (λ p. p.1.sequence) same in
    record {
      added = ground (arith, same);
      latest =
          All-map (λ (u : MatchTiebreak). u.sequence ≤ last_sequence 0 a.match.tiebreaks)
            (λ u k. omega (arith, next, k)) a.match.tiebreaks
            (last_sequence-bounds 0 a.match.tiebreaks);
      none_pending = All-of_not_any is_pending a.match.tiebreaks (ground (arith, free));
      ambiguous =
          let (i, tie, at, k) =
            any-get_elem? (λ (tie : MatchPlacementTie). same_ids tie.player_ids requested)
              (result_state a).ambiguous_ties (ground (arith, is_tie)) in
          (i, tie, at, same_ids-perm tie.player_ids players k);
      played_by =
          sym (ap (λ p. map (λ (s : MatchTiebreakStanding). s.player) p.1.standings) same)
          ∙ standings-players song players;
      uncommitted = editable;
    }
