-- ===== src/Advancement/Targets.antt =====
-- What placing an entrant in a match, or removing one, does to the match, and to its row.
use tournament_hub.Common.{
  ℕ, zero, suc, ◌-◌, ◌≡◌, refl, ap, ◌∙◌, sym, subst, inl, inr, Bool, true, false, not, ◌||◌, List,
  [], ◌∷◌, ◌++◌, arith, ◌==◌, ==_iff, ==_self, if◌then◌else◌, leb, Bool-cases, Option-cases, some,
  any, any-append, find, filter, take, drop, length, ok, >>=-eq-ok, ok_injective,
}
use tournament_hub.Match.Model.{Entrant, Match, MatchAggregate}
use tournament_hub.Match.Settle.{invalidate_tiebreaks, resettle, resettle_rounds}
use tournament_hub.Match.State.{singles_player_ids}
use tournament_hub.Match.Scores.{is_entrant, with_entrants, place_entrant, remove_entrant}
use tournament_hub.Advancement.{World, is_match_row, load_match, write_match}

resettle-match :
    (a a' : MatchAggregate)
    → resettle a ≡ ok a'
    → (a'.match.id ≡ a.match.id)
      × (a'.match.entrants ≡ a.match.entrants)
      × (a'.match.match_result ≡ a.match.match_result)
unfolding resettle invalidate_tiebreaks
resettle-match a a' h =
    let players = singles_player_ids a.match in
    let (rounds, run, e) =
      >>=-eq-ok (resettle_rounds a.match.scoring_system players a.match.rounds) _ h in
    (cc, cc, cc)

any-take-drop :
    (p : Entrant → Bool) (e : Entrant) (n : ℕ) (l : List Entrant)
    → any p (take n l ++ (e ∷ drop n l)) ≡ (p e || any p l)
any-take-drop p e zero l = refl
any-take-drop p e (suc n) [] = refl
any-take-drop p e (suc n) (x ∷ l) = ground (arith, any-take-drop p e n l)

-- A new entrant among others, wherever it is inserted.
any-insert :
    (p : Entrant → Bool) (e : Entrant) (index : ℕ) (l : List Entrant)
    → any p (if leb (length l) index then l ++ e ∷ [] else take index l ++ (e ∷ drop index l))
      ≡ (p e || any p l)
any-insert p e index l = elim (Bool-cases (leb (length l) index)) [
  | inl k ↦ ground (arith, k, any-append p l (e ∷ []))
  | inr k ↦ ground (arith, k, any-take-drop p e index l)
]

any-others :
    (id x : ℕ) (l : List Entrant)
    → any (is_entrant x) l ≡ true
    → (any (is_entrant x) (filter (λ e. not (is_entrant id e)) l) || (id == x)) ≡ true
any-others id x [] h = cc
any-others id x (e ∷ l) h = elim (Bool-cases (e.id == x)) [
  | inl same ↦ ground (arith, same, ==_iff e.id x, ==_iff e.id id, ==_iff id x)
  | inr other ↦ ground (arith, any-others id x l (ground (arith, h, other)))
]

-- After `placeEntrant` the entrant is in the match, and so is everyone who was.
pub place_entrant-match :
    (a a' : MatchAggregate) (e : Entrant) (slot : ℕ)
    → place_entrant a e slot ≡ ok a'
    → (a'.match.id ≡ a.match.id)
      × (any (is_entrant e.id) a'.match.entrants ≡ true)
      × ((x : ℕ)
          → any (is_entrant x) a.match.entrants ≡ true
          → any (is_entrant x) a'.match.entrants ≡ true)
      × (a'.match.match_result ≡ a.match.match_result)
unfolding place_entrant
place_entrant-match a a' e slot h =
    let others = filter (λ x. not (is_entrant e.id x)) a.match.entrants in
    let (same, entrants, result) = resettle-match _ a' h in
    (
      same,
      ap (any (is_entrant e.id)) entrants
          ∙ any-insert (is_entrant e.id) e (slot - 1) others
          ∙ ground (arith, ==_self e.id),
      λ x k.
          ap (any (is_entrant x)) entrants
          ∙ any-insert (is_entrant x) e (slot - 1) others
          ∙ ground (arith, any-others e.id x a.match.entrants k),
      result,
    )

any-filter_self :
    (id : ℕ) (l : List Entrant)
    → any (is_entrant id) (filter (λ e. not (is_entrant id e)) l) ≡ false
any-filter_self id [] = refl
any-filter_self id (e ∷ l) = ground (arith, any-filter_self id l)

-- After `removeEntrant` the entrant is not in the match.
pub remove_entrant-match :
    (a a' : MatchAggregate) (id : ℕ)
    → remove_entrant a id ≡ ok (a', true)
    → (a'.match.id ≡ a.match.id)
      × (any (is_entrant id) a'.match.entrants ≡ false)
      × (a'.match.match_result ≡ a.match.match_result)
unfolding remove_entrant
remove_entrant-match a a' id h =
    let remaining = filter (λ e. not (is_entrant id e)) a.match.entrants in
    elim (Bool-cases (length remaining == length a.match.entrants)) [
      | inl known ↦ absurd (ground (arith, h, known))
      | inr new ↦
          let (c, run, f) =
            >>=-eq-ok (resettle (with_entrants a remaining)) _ (rw (remove_entrant, new) at h) in
          let same : c ≡ a' = ap (λ p. p.0) (ok_injective f) in
          let (ids, entrants, result) = resettle-match (with_entrants a remaining) c run in
          subst
            (λ (b : MatchAggregate).
              (b.match.id ≡ a.match.id)
              × (any (is_entrant id) b.match.entrants ≡ false)
              × (b.match.match_result ≡ a.match.match_result))
            same
            (ids, ap (any (is_entrant id)) entrants ∙ any-filter_self id a.match.entrants, result)
    ]

-- Rows --------------------------------------------------------------------------------------------

find-row_id : (l : List Match) (id : ℕ) (m : Match) → find (is_match_row id) l ≡ some m → m.id ≡ id
find-row_id [] id m h = cc
find-row_id (x ∷ l) id m h = elim (Bool-cases (x.id == id)) [
  | inl e ↦
      let same : x ≡ m = ground (arith, h, e) in
      sym (ap (λ (y : Match). y.id) same) ∙ (==_iff x.id id).0 e
  | inr e ↦ find-row_id l id m (ground (arith, h, e))
]

pub load_match-row :
    (w : World) (id : ℕ) (a : MatchAggregate)
    → load_match w id ≡ some a
    → (a.match.id ≡ id) × (find (is_match_row id) w.matches ≡ some a.match)
unfolding load_match
load_match-row w id a h = elim (Option-cases (find (is_match_row id) w.matches)) [
  | inl e ↦ absurd (ground (arith, h, e))
  | inr (m, e) ↦
      let same : m ≡ a.match = ground (arith, h, e) in
      (sym (ap (λ (y : Match). y.id) same) ∙ find-row_id w.matches id m e, e ∙ ap some same)
]

pub find-write_match :
    (m : Match) (l : List Match) (id : ℕ)
    → (m.id == id) ≡ false
    → find (is_match_row id) (write_match m l) ≡ find (is_match_row id) l
unfolding write_match
find-write_match m [] id h = refl
find-write_match m (x ∷ l) id h = ground (arith, h, find-write_match m l id h, ==_iff x.id m.id)

pub find-written :
    (m x : Match) (l : List Match)
    → find (is_match_row m.id) l ≡ some x
    → find (is_match_row m.id) (write_match m l) ≡ some m
unfolding write_match
find-written m x [] h = cc
find-written m x (y ∷ l) h = ground (arith, h, find-written m x l, ==_self m.id)
