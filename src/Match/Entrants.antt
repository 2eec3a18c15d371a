-- ===== src/Match/Entrants.antt =====
-- The invariant of a match under the mutators of entrants, scoring system and activity.
use Prim.Native.String.{String}
use text.Mathlib.Text.{◌==◌ as str_eq}
use tournament_hub.Common.{
  ℕ, ◌≡◌, ap, subst, inl, inr, Bool, not, List, [], ◌∷◌, ◌++◌, arith, Bool-cases, All, filter, any,
  length, ◌==◌, ok, >>=-eq-ok, ok_injective,
}
use tournament_hub.Match.Model.{Entrant, MatchAggregate}
use tournament_hub.Match.Settle.{with_match, resettle}
use tournament_hub.Match.Scores.{
  with_entrants, change_scoring_system, add_entrant, remove_entrant, activate, is_entrant,
}
use tournament_hub.Match.Shapes.{OkRound}
use tournament_hub.Match.Invariant.{IsValid, resettle-IsValid}

-- Other entrants or another scoring system do not touch the invariant.
pub with_entrants-IsValid :
    (a : MatchAggregate) (entrants : List Entrant) → IsValid a → IsValid (with_entrants a entrants)
with_entrants-IsValid a entrants v = record { idle = v.idle; rounds = v.rounds }

pub change_scoring_system-IsValid :
    (a a' : MatchAggregate) (system : String)
    → change_scoring_system a system ≡ ok a'
    → IsValid a
    → IsValid a'
unfolding change_scoring_system
change_scoring_system-IsValid a a' system h v =
    let b = with_match a (record (a.match) { scoring_system = system }) in
    elim (Bool-cases (str_eq system a.match.scoring_system)) [
      | inl same ↦ subst IsValid (ok_injective (rw same at h)) v
      | inr other ↦
          resettle-IsValid b a' (rw other at h) (record { idle = v.idle; rounds = v.rounds })
    ]

pub add_entrant-IsValid :
    (a a' : MatchAggregate) (e : Entrant) (b : Bool)
    → add_entrant a e ≡ ok (a', b)
    → IsValid a
    → IsValid a'
unfolding add_entrant
add_entrant-IsValid a a' e b h v = elim (Bool-cases (any (is_entrant e.id) a.match.entrants)) [
  | inl known ↦ subst IsValid (ap (λ p. p.0) (ok_injective (rw known at h))) v
  | inr new ↦
      let (c, run, f) =
        >>=-eq-ok (resettle (with_entrants a (a.match.entrants ++ e ∷ []))) _ (rw new at h) in
      subst IsValid (ap (λ p. p.0) (ok_injective f))
        (resettle-IsValid _ c run (with_entrants-IsValid a (a.match.entrants ++ e ∷ []) v))
]

pub remove_entrant-IsValid :
    (a a' : MatchAggregate) (id : ℕ) (b : Bool)
    → remove_entrant a id ≡ ok (a', b)
    → IsValid a
    → IsValid a'
unfolding remove_entrant
remove_entrant-IsValid a a' id b h v =
    let remaining = filter (λ e. not (is_entrant id e)) a.match.entrants in
    elim (Bool-cases (length remaining == length a.match.entrants)) [
      | inl known ↦ subst IsValid (ap (λ p. p.0) (ok_injective (rw known at h))) v
      | inr new ↦
          let (c, run, f) = >>=-eq-ok (resettle (with_entrants a remaining)) _ (rw new at h) in
          subst IsValid (ap (λ p. p.0) (ok_injective f))
            (resettle-IsValid _ c run (with_entrants-IsValid a remaining v))
    ]

pub activate-IsValid :
    (a a' : MatchAggregate) (active : Bool) → activate a active ≡ ok a' → IsValid a → IsValid a'
unfolding activate
activate-IsValid a a' active h v = record {
  idle = ground (arith, v.idle);
  rounds = subst (All OkRound) (ground arith) v.rounds;
}
