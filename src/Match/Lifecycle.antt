-- ===== src/Match/Lifecycle.antt =====
-- When a match can be committed, what the committed result guarantees, and how `reopen` undoes it.
use tournament_hub.Common.{
  ◌∙◌, ap, subst, All, ◌≡◌, ◌≢◌, ◌↔◌, refl, false, List, [], ◌∷◌, map, Option, none, some, Perm,
  arith, ltb, length, ok,
}
use tournament_hub.Placement.{
  TiebreakPlacementInput, AdvancementRouting, PlacementPointEntry, MatchResultEntry, unplaced,
}
use tournament_hub.Placement.Materialize.{resolve_placements}
use tournament_hub.Placement.Ranks.{IsRanked, without_placement, resolve_placements-IsRanked}
use tournament_hub.Placement.Players.{resolve_placements-perm}
use tournament_hub.Placement.Order.{IsFair, resolve_placements-IsFair}
use tournament_hub.Placement.Ties.{IsDecided, resolve_placements-IsDecided}
use tournament_hub.Match.Model.{MatchResult, MatchAggregate}
use tournament_hub.Match.State.{
  ready, completed, ready_state, completed_state, singles_player_ids, calculate_points,
  tiebreak_placement_inputs, outgoing_advancement_rules, calculated_result_state, result_from,
  state,
}
use tournament_hub.Match.Settled.{
  calculate_points-some, single_players, summed_entry, IsSettled, players_of-eq, summed_entries,
  all-IsSettled,
}
use tournament_hub.Match.Settle.{with_match}
use tournament_hub.Match.Tiebreaks.{commit, reopen, result_id}

-- The calculated status is never `completed`: only a stored result has that.
result_from-not_completed :
    (points : Option (List PlacementPointEntry)) (tiebreaks : List TiebreakPlacementInput)
    (rules : List AdvancementRouting)
    → (result_from points tiebreaks rules).status ≢ completed
unfolding result_from
result_from-not_completed none tiebreaks rules h = cc
result_from-not_completed (some points) tiebreaks rules h = ground arith

calculated_not_completed : (a : MatchAggregate) → (calculated_result_state a).status ≢ completed
unfolding calculated_result_state
calculated_not_completed a = result_from-not_completed _ _ _

pub commit-ready :
    (a a' : MatchAggregate) → commit a ≡ ok a' → (calculated_result_state a).status ≡ ready
unfolding commit
commit-ready a a' h = ground (arith, calculated_not_completed a)

-- What `commit` leaves behind.
abbrev pub committed : MatchAggregate → MatchAggregate
committed a = with_match a (record (a.match) {
  match_result =
      some (record { id = result_id a.match; player_points = (calculated_result_state a).entries });
  active = false;
})

pub commit-eq_committed : (a a' : MatchAggregate) → commit a ≡ ok a' → a' ≡ committed a
unfolding commit
commit-eq_committed a a' h = ground (arith, calculated_not_completed a)

commit_of_ready :
    (a : MatchAggregate) → (calculated_result_state a).status ≡ ready → commit a ≡ ok (committed a)
unfolding commit
commit_of_ready a h = ground arith

-- A match without a stored result can be committed exactly in the state `ready`.
pub commit_iff_ready :
    (a : MatchAggregate)
    → a.match.match_result ≡ none
    → ((a' : MatchAggregate) × (commit a ≡ ok a')) ↔ (state a ≡ ready_state)
unfolding state
commit_iff_ready a fresh = (
  λ (a', h). ground (arith, commit-ready a a' h),
  λ h. (committed a, commit_of_ready a (ground arith)),
)

-- A commit completes the match and deactivates it; reopening the committed match gives back the one
-- before, but that it is inactive.
pub commit-reopen :
    (a a' : MatchAggregate)
    → a.match.match_result ≡ none
    → commit a ≡ ok a'
    → (state a' ≡ completed_state)
      × (a'.match.active ≡ false)
      × (reopen a' ≡ with_match a (record (a.match) { active = false }))
unfolding state reopen
commit-reopen a a' fresh h = let e = commit-eq_committed a a' h in rw e (refl, refl, ground arith)

-- A result that the advancement can rely on.
pub record IsSound (a : MatchAggregate) (entries : List MatchResultEntry) : Type 0 where
  pub settled : All (IsSettled (single_players a.match)) a.match.rounds
  pub players :
      Perm (map without_placement entries) (map (summed_entry a.match) (single_players a.match))
  pub ranked : IsRanked 0 entries
  pub fair : IsFair entries
  pub decided : IsDecided (outgoing_advancement_rules a) entries

length-zero {ℓ} : {A : Type ℓ} (l : List A) → ltb 0 (length l) ≡ false → l ≡ []
length-zero [] h = refl
length-zero (x ∷ l) h = absurd (ground arith)

result_from-IsSound :
    (a : MatchAggregate) (points : Option (List PlacementPointEntry))
    → calculate_points a.match ≡ points
    → (result_from points
        (tiebreak_placement_inputs a.match.tiebreaks)
        (outgoing_advancement_rules a)).status
      ≡ ready
    → IsSound a (
        (result_from points
          (tiebreak_placement_inputs a.match.tiebreaks)
          (outgoing_advancement_rules a)).entries)
unfolding result_from
result_from-IsSound a none e h = cc
result_from-IsSound a (some points) e h =
    let known = calculate_points-some a.match e in
    let tiebreaks = tiebreak_placement_inputs a.match.tiebreaks in
    let rules = outgoing_advancement_rules a in
    let no_ties =
      length-zero (resolve_placements points tiebreaks rules).ambiguous_ties (ground arith) in
    record {
      settled =
          subst (λ l. All (IsSettled l) a.match.rounds) (players_of-eq a.match.entrants)
            (all-IsSettled (singles_player_ids a.match) a.match.rounds known.1);
      players =
          subst (Perm (map without_placement (resolve_placements points tiebreaks rules).entries))
            (ap (map unplaced) known.0
              ∙ summed_entries a.match (singles_player_ids a.match)
              ∙ ap (map (summed_entry a.match)) (players_of-eq a.match.entrants))
            (resolve_placements-perm points tiebreaks rules);
      ranked = resolve_placements-IsRanked points tiebreaks rules;
      fair = resolve_placements-IsFair points tiebreaks rules;
      decided = resolve_placements-IsDecided points tiebreaks rules no_ties;
    }

calculated-IsSound :
    (a : MatchAggregate)
    → (calculated_result_state a).status ≡ ready
    → IsSound a ((calculated_result_state a).entries)
unfolding calculated_result_state
calculated-IsSound a h = result_from-IsSound a (calculate_points a.match) refl h

-- What `commit` stores is sound: every song round had a standing of each single player, and every
-- hand-scored round a standing with points; the entries hold each single player once for each of its
-- entrants, with the sum of its points over the rounds; the placements are
-- a competition ranking in which more points mean a smaller placement; and the match's advancement
-- rules send players who share a placement to one and the same target, or nowhere.
pub commit-IsSound :
    (a a' : MatchAggregate)
    → commit a ≡ ok a'
    → (r : MatchResult) × (a'.match.match_result ≡ some r) × IsSound a r.player_points
commit-IsSound a a' h = (
  record { id = result_id a.match; player_points = (calculated_result_state a).entries },
  rw (commit-eq_committed a a' h) refl,
  calculated-IsSound a (commit-ready a a' h),
)
