-- ===== src/Match/Evidence.antt =====
-- `invalidateTiebreaks` of match.aggregate.ts: what a change of the evidence does to the tiebreaks.
use Prim.Native.String.{String}
use text.Mathlib.Text.{◌==◌ as str_eq}
use tournament_hub.Common.{
  ℕ, ◌≡◌, refl, sym, subst, ap, true, false, not, inl, inr, Bool-cases, List, [], ◌∷◌, ◌++◌, map,
  Option, none, some, find, any, filter, length, ◌==◌, arith, All, ok, ok_injective, >>=-eq-ok,
}
use tournament_hub.Common.Sort.{sort_by, All-sort_by}
use tournament_hub.Placement.{
  TiebreakPlacementInput, AdvancementRouting, PlacementPointEntry, PlacementGroup, apply_tiebreaks,
  point_groups, earlier,
}
use tournament_hub.Placement.Materialize.{final_groups, resolve_placements}
use tournament_hub.Match.Model.{Score, Standing, Round, Entrant, MatchTiebreak, MatchAggregate}
use tournament_hub.Match.State.{
  calculate_points, tiebreak_placement_inputs, outgoing_advancement_rules, result_from, is_of,
  calculated_result_state,
}
use tournament_hub.Match.Settle.{invalidate_tiebreaks, resettle, round_of}
use tournament_hub.Match.Scores.{
  upsert_score, upsert_points, remove_standing, remove_round, add_round, with_entrants, is_entrant,
  change_scoring_system, replace_entrants, add_entrant, remove_entrant, place_entrant,
}
use tournament_hub.Match.Tiebreaks.{with_tiebreaks}

-- Every tiebreak is void.
abbrev pub AllVoid : List MatchTiebreak → Type 0
AllVoid = All (λ t. t.invalidated ≡ true)

apply_tiebreaks-void :
    (tiebreaks : List TiebreakPlacementInput) (groups : List PlacementGroup)
    → All (λ (t : TiebreakPlacementInput). t.invalidated ≡ true) tiebreaks
    → apply_tiebreaks tiebreaks groups ≡ groups
unfolding apply_tiebreaks
apply_tiebreaks-void [] groups h = refl
apply_tiebreaks-void (t ∷ rest) groups h = rw (h.0) (apply_tiebreaks-void rest groups h.1)

void_inputs :
    (l : List MatchTiebreak)
    → AllVoid l
    → All (λ (t : TiebreakPlacementInput). t.invalidated ≡ true) (tiebreak_placement_inputs l)
unfolding tiebreak_placement_inputs
void_inputs [] h = tt
void_inputs (t ∷ l) h = (h.0, void_inputs l h.1)

resolve_placements-void :
    (points : List PlacementPointEntry) (l : List MatchTiebreak) (rules : List AdvancementRouting)
    → AllVoid l
    → resolve_placements points (tiebreak_placement_inputs l) rules
      ≡ resolve_placements points [] rules
unfolding resolve_placements
resolve_placements-void points l rules h =
    let same : final_groups points (tiebreak_placement_inputs l) ≡ final_groups points [] =
      unfold final_groups apply_tiebreaks sort_by in
      apply_tiebreaks-void (sort_by earlier (tiebreak_placement_inputs l)) (point_groups points) (
        All-sort_by earlier (λ (t : TiebreakPlacementInput). t.invalidated ≡ true)
          (tiebreak_placement_inputs l) (void_inputs l h)) in
    rw same

result_from-void :
    (points : Option (List PlacementPointEntry)) (l : List MatchTiebreak)
    (rules : List AdvancementRouting)
    → AllVoid l
    → result_from points (tiebreak_placement_inputs l) rules ≡ result_from points [] rules
unfolding result_from
result_from-void none l rules h = refl
result_from-void (some points) l rules h = rw (resolve_placements-void points l rules h)

void_all :
    (l : List MatchTiebreak)
    → AllVoid (map (λ (t : MatchTiebreak). record t { invalidated = true }) l)
void_all [] = tt
void_all (t ∷ l) = (refl, void_all l)

invalidate_tiebreaks-AllVoid :
    (a : MatchAggregate) → AllVoid (invalidate_tiebreaks a).match.tiebreaks
unfolding invalidate_tiebreaks
invalidate_tiebreaks-AllVoid a = void_all a.match.tiebreaks

-- The mutators that change what the points of a match are calculated from.
pub data EvidenceChange (a : MatchAggregate) (a' : MatchAggregate) : Type 0 where
  system_changed :
      (system : String)
      → str_eq system a.match.scoring_system ≡ false
      → change_scoring_system a system ≡ ok a'
      → EvidenceChange a a'
  entrants_replaced :
      (entrants : List Entrant) → replace_entrants a entrants ≡ ok a' → EvidenceChange a a'
  entrant_added : (e : Entrant) → add_entrant a e ≡ ok (a', true) → EvidenceChange a a'
  entrant_removed : (id : ℕ) → remove_entrant a id ≡ ok (a', true) → EvidenceChange a a'
  entrant_placed : (e : Entrant) (slot : ℕ) → place_entrant a e slot ≡ ok a' → EvidenceChange a a'
  round_added : (song : Option ℕ) → add_round a song ≡ a' → EvidenceChange a a'
  round_removed : (id : ℕ) → remove_round a id ≡ ok a' → EvidenceChange a a'
  score_written :
      (id player : ℕ) (score : Score) → upsert_score a id player score ≡ ok a' → EvidenceChange a a'
  points_written :
      (id player points : ℕ) → upsert_points a id player points ≡ ok a' → EvidenceChange a a'
  standing_removed :
      (id player : ℕ) (round : Round) (s : Standing)
      → round_of a id ≡ ok round
      → find (is_of player) round.standings ≡ some s
      → remove_standing a id player ≡ ok a'
      → EvidenceChange a a'

resettle-voids :
    (b a' : MatchAggregate)
    → resettle b ≡ ok a'
    → a'.match.tiebreaks ≡ (invalidate_tiebreaks b).match.tiebreaks
unfolding invalidate_tiebreaks resettle
resettle-voids b a' h = ground arith

-- Each of them leaves the tiebreaks as `invalidateTiebreaks` does.
EvidenceChange-voids :
    {a a' : MatchAggregate}
    → EvidenceChange a a'
    → a'.match.tiebreaks ≡ (invalidate_tiebreaks a).match.tiebreaks
unfolding invalidate_tiebreaks resettle add_round remove_round upsert_score upsert_points
    remove_standing change_scoring_system replace_entrants add_entrant remove_entrant place_entrant
EvidenceChange-voids {a} {a'} (system_changed system other h) = resettle-voids _ a' (rw other at h)
EvidenceChange-voids {a} {a'} (entrants_replaced entrants h) =
    resettle-voids (with_entrants a entrants) a' h
EvidenceChange-voids {a} {a'} (entrant_added e h) =
    elim (Bool-cases (any (is_entrant e.id) a.match.entrants)) [
      | inl known ↦ absurd (cc (ok_injective (rw known at h)))
      | inr new ↦
          let b = with_entrants a (a.match.entrants ++ e ∷ []) in
          let (c, run, f) = >>=-eq-ok (resettle b) _ (rw new at h) in
          subst
            (λ (x : MatchAggregate). x.match.tiebreaks ≡ (invalidate_tiebreaks a).match.tiebreaks)
            (ap (λ p. p.0) (ok_injective f)) (resettle-voids b c run)
    ]
EvidenceChange-voids {a} {a'} (entrant_removed id h) =
    let remaining = filter (λ e. not (is_entrant id e)) a.match.entrants in
    elim (Bool-cases (length remaining == length a.match.entrants)) [
      | inl known ↦ absurd (cc (ok_injective (rw known at h)))
      | inr new ↦
          let b = with_entrants a remaining in
          let (c, run, f) = >>=-eq-ok (resettle b) _ (rw new at h) in
          subst
            (λ (x : MatchAggregate). x.match.tiebreaks ≡ (invalidate_tiebreaks a).match.tiebreaks)
            (ap (λ p. p.0) (ok_injective f)) (resettle-voids b c run)
    ]
EvidenceChange-voids {a} {a'} (entrant_placed e slot h) = resettle-voids _ a' h
EvidenceChange-voids (round_added song h) = ground arith
EvidenceChange-voids (round_removed id h) = ground arith
EvidenceChange-voids (score_written id player score h) = ground arith
EvidenceChange-voids (points_written id player points h) = ground arith
EvidenceChange-voids (standing_removed id player round s r f h) = ground arith

-- After a mutator of the class that changes the scoring system, the entrants, the rounds or the standings,
-- the result is calculated as if the
-- match had no tiebreaks: none that was played on the earlier evidence has an effect any more.
pub EvidenceChange-calculated :
    {a a' : MatchAggregate}
    → EvidenceChange a a'
    → calculated_result_state a' ≡ calculated_result_state (with_tiebreaks a' [])
unfolding calculated_result_state tiebreak_placement_inputs calculate_points
    outgoing_advancement_rules
EvidenceChange-calculated {a} {a'} change =
    let void : AllVoid a'.match.tiebreaks =
      subst AllVoid (sym (EvidenceChange-voids change)) (invalidate_tiebreaks-AllVoid a) in
    result_from-void (calculate_points a'.match) a'.match.tiebreaks (outgoing_advancement_rules a')
      void
