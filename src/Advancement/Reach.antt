-- ===== src/Advancement/Reach.antt =====
-- How far a run of the rules reaches: the rows of the matches that it may change.
use tournament_hub.Common.{
  ℕ, ◌≡◌, refl, ap, ◌∙◌, sym, subst, inl, inr, Bool, false, ◌&&◌, List, [], ◌∷◌, arith, ◌==◌,
  Bool-cases, some, any, find, All,
}
use tournament_hub.Placement.Materialize.{is_match}
use tournament_hub.Match.Model.{Match, MatchAggregate, no_removals}
use tournament_hub.Match.State.{is_completed}
use tournament_hub.Match.Shapes.{OkRound}
use tournament_hub.Match.Invariant.{IsValid}
use tournament_hub.Advancement.{
  AdvancementRule, World, WorldEvent, ActivityChange, match_updated, pool_updated,
  schedule_recalculated, is_match_row, load_match, write_match, save_match, set_active,
  recalculated, emit,
}
use tournament_hub.Advancement.Activity.{
  but_active, IsCalmChange, IsCalm, IsCalm-matches, any-write_match, All-set_active,
  find-set_active, but_active-row_after, recalculated-IsCalm,
}
use tournament_hub.Advancement.Runner.{save_target}
use tournament_hub.Advancement.Targets.{load_match-row, find-write_match}

-- The match is the target of one of the rules.
abbrev pub is_target : List AdvancementRule → ℕ → Bool
is_target rules id =
    any (λ (r : AdvancementRule). is_match r.target_kind && (r.target_id == id)) rules

abbrev pub of_match : Match → MatchAggregate
of_match m = record { match = m; advancement_rules = []; removals = no_removals }

-- The stored matches satisfy the invariant of a match.
abbrev pub IsValidWorld : World → Type 0
IsValidWorld w = All (λ (m : Match). IsValid (of_match m)) w.matches

-- Only the rows of these matches may be another, but for being active, and the rules stay. The matches
-- stay valid if the recalculations are calm.
pub record IsWithin (reach : ℕ → Bool) (w w' : World) : Type 0 where
  pub rows :
      (id : ℕ)
      → reach id ≡ false
      → but_active (find (is_match_row id) w'.matches)
        ≡ but_active (find (is_match_row id) w.matches)
  pub rules : w'.rules ≡ w.rules
  pub calm : IsCalm w → IsCalm w'
  pub valid : IsCalm w → IsValidWorld w → IsValidWorld w'

pub IsWithin-refl : (reach : ℕ → Bool) (w : World) → IsWithin reach w w
IsWithin-refl reach w = record {
  rows = λ id h. refl;
  rules = refl;
  calm = λ c. c;
  valid = λ c v. v;
}

pub IsWithin-trans :
    (reach : ℕ → Bool) (u v w : World)
    → IsWithin reach u v
    → IsWithin reach v w
    → IsWithin reach u w
IsWithin-trans reach u v w f g = record {
  rows = λ id h. g.rows id h ∙ f.rows id h;
  rules = g.rules ∙ f.rules;
  calm = λ c. g.calm (f.calm c);
  valid = λ c x. g.valid (f.calm c) (f.valid c x);
}

pub IsWithin-weaken :
    (r s : ℕ → Bool) (u v : World)
    → ((id : ℕ) → s id ≡ false → r id ≡ false)
    → IsWithin r u v
    → IsWithin s u v
IsWithin-weaken r s u v le f = record {
  rows = λ id h. f.rows id (le id h);
  rules = f.rules;
  calm = f.calm;
  valid = f.valid;
}

-- An aggregate is as valid as its match.
IsValid-with : (a b : MatchAggregate) → a.match ≡ b.match → IsValid a → IsValid b
IsValid-with a b same v = record {
  idle = subst (λ (m : Match). (is_completed (of_match m) && m.active) ≡ false) same v.idle;
  rounds = subst (λ (m : Match). All OkRound m.rounds) same v.rounds;
}

All-find :
    (l : List Match) (id : ℕ) (m : Match)
    → All (λ (x : Match). IsValid (of_match x)) l
    → find (is_match_row id) l ≡ some m
    → IsValid (of_match m)
All-find [] id m all h = cc
All-find (x ∷ l) id m all h = elim (Bool-cases (x.id == id)) [
  | inl e ↦ subst (λ (y : Match). IsValid (of_match y)) (ground (arith, h, e)) all.0
  | inr e ↦ All-find l id m all.1 (ground (arith, h, e))
]

All-write_match :
    (m : Match) (l : List Match)
    → IsValid (of_match m)
    → All (λ (x : Match). IsValid (of_match x)) l
    → All (λ (x : Match). IsValid (of_match x)) (write_match m l)
unfolding write_match
All-write_match m [] v all = tt
All-write_match m (x ∷ l) v all = elim (Bool-cases (x.id == m.id)) [
  | inl e ↦ rw (write_match, e) (v, all.1)
  | inr e ↦ rw (write_match, e) (all.0, All-write_match m l v all.1)
]

save_match-IsWithin :
    (w : World) (a a' : MatchAggregate) (id : ℕ)
    → load_match w id ≡ some a
    → a'.match.id ≡ a.match.id
    → a'.match.match_result ≡ a.match.match_result
    → (IsValid a → IsValid a')
    → IsWithin (◌==◌ id) w (save_match w a')
save_match-IsWithin w a a' id loaded same result valid =
    let (own, row) = load_match-row w id a loaded in
    record {
      rows = λ j h. ap but_active (
          find-write_match a'.match w.matches j
            (subst (λ n. (n == j) ≡ false) (sym (same ∙ own)) h));
      rules = refl;
      calm = IsCalm-matches w.matches (write_match a'.match w.matches) w.coming (λ j.
          any-write_match a'.match a.match w.matches j
            (subst (λ i. find (is_match_row i) w.matches ≡ some a.match) (sym (same ∙ own)) row)
            result);
      valid = λ c v.
          All-write_match a'.match w.matches
            (IsValid-with a' (of_match a'.match) refl (
              valid (IsValid-with (of_match a.match) a refl (All-find w.matches id a.match v row))))
            v;
    }

-- The reach of what changes no match, but for its activity.
abbrev pub nowhere : ℕ → Bool
nowhere id = false

set_active-IsValid :
    (changes : List ActivityChange) (l : List Match)
    → All (IsCalmChange l) changes
    → All (λ (m : Match). IsValid (of_match m)) l
    → All (λ (m : Match). IsValid (of_match m)) (set_active changes l)
set_active-IsValid changes l calm all =
    All-set_active (λ (m : Match). IsValid (of_match m)) changes l
      (λ m b idle v. record { idle = idle; rounds = v.rounds }) (λ m v. v.idle) calm all

recalculated-IsWithin :
    (coming : List (List ActivityChange)) (w : World)
    → w.coming ≡ coming
    → IsWithin nowhere w (recalculated coming w)
recalculated-IsWithin [] w e = IsWithin-refl nowhere w
recalculated-IsWithin (changes ∷ rest) w e = record {
  rows = λ id h.
      ap but_active (find-set_active changes w.matches id)
      ∙ but_active-row_after changes (find (is_match_row id) w.matches);
  rules = refl;
  calm = recalculated-IsCalm (changes ∷ rest) w e;
  valid = λ c v.
      set_active-IsValid changes w.matches (subst (All (All (IsCalmChange w.matches))) e c).0 v;
}

pub emit-IsWithin :
    (event : WorldEvent) (w v : World) → IsWithin nowhere w v → IsWithin nowhere w (emit event v)
emit-IsWithin event w v f = record {
  rows = f.rows;
  rules = f.rules;
  calm = f.calm;
  valid = f.valid;
}

pub save_target-IsWithin :
    (w : World) (a a' : MatchAggregate) (id : ℕ)
    → load_match w id ≡ some a
    → a'.match.id ≡ a.match.id
    → a'.match.match_result ≡ a.match.match_result
    → (IsValid a → IsValid a')
    → IsWithin (◌==◌ id) w (save_target w a')
save_target-IsWithin w a a' id loaded same result valid =
    let saved = save_match w a' in
    let told = emit-IsWithin (pool_updated a'.match.phase_group) saved _ (
      emit-IsWithin (match_updated a'.match.id) saved _ (
        emit-IsWithin (schedule_recalculated (a'.match.id ∷ [])) saved _
          (recalculated-IsWithin saved.coming saved refl))) in
    IsWithin-trans (◌==◌ id) w saved (save_target w a')
      (save_match-IsWithin w a a' id loaded same result valid)
      (IsWithin-weaken nowhere (◌==◌ id) saved (save_target w a') (λ _ _. refl) told)
