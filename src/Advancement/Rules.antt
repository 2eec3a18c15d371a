-- ===== src/Advancement/Rules.antt =====
-- structure/advancement/advancement-rule.validation.ts, and `updateForSource` of
-- advancement-rule.commands.ts.
use tournament_hub.Common.{
  ℕ, suc, Bool, ◌&&◌, List, [], ◌∷◌, ◌++◌, map, Option, none, some, ◌==◌, if◌then◌else◌, any,
  is_some, find, Result, err, ok, ◌>>◌,
}
use tournament_hub.Placement.{CompetitionKind, match_kind, phase_group_kind}
use tournament_hub.Placement.Materialize.{is_match}
use tournament_hub.Schedule.Runner.{distinct}
use tournament_hub.Advancement.{
  AdvancementRule, World, pool_updated, recalculate, same_kind, find_by_source, delete_by_source,
  emit, is_match_row, is_pool_row,
}

pub record AdvancementRuleInput : Type 0 where
  pub source_placement : ℕ
  pub target_kind : CompetitionKind
  pub target_id : ℕ
  pub target_slot : ℕ

pub data RuleError : Type 0 where
  source_not_found : CompetitionKind → ℕ → RuleError
  targets_itself : RuleError
  placement_reused : ℕ → RuleError

-- The loop of `assertValidAdvancementRules`, with the placements seen so far.
unfoldable pub check_rules :
    CompetitionKind → ℕ → List ℕ → List AdvancementRuleInput → Result RuleError (Unit {0})
check_rules kind id seen [] = ok tt
check_rules kind id seen (rule ∷ rest) =
    if same_kind rule.target_kind kind && (rule.target_id == id)
    then err targets_itself
    else if any (◌==◌ rule.source_placement) seen
    then err (placement_reused rule.source_placement)
    else check_rules kind id (rule.source_placement ∷ seen) rest

unfoldable pub assert_valid_advancement_rules :
    CompetitionKind → ℕ → List AdvancementRuleInput → Result RuleError (Unit {0})
unfolding check_rules
assert_valid_advancement_rules kind id rules = check_rules kind id [] rules

abbrev pub source_exists : World → CompetitionKind → ℕ → Bool
source_exists w match_kind id = is_some (find (is_match_row id) w.matches)
source_exists w phase_group_kind id = is_some (find (is_pool_row id) w.pools)

-- `createAll`: the rules get the next ids, in order.
unfoldable pub numbered_rules :
    CompetitionKind → ℕ → ℕ → List AdvancementRuleInput → List AdvancementRule × ℕ
numbered_rules kind id next [] = ([], next)
numbered_rules kind id next (rule ∷ rest) =
    let (rules, after) = numbered_rules kind id (suc next) rest in
    (
      record {
        id = next;
        source_kind = kind;
        source_id = id;
        source_placement = rule.source_placement;
        target_kind = rule.target_kind;
        target_id = rule.target_id;
        target_slot = rule.target_slot;
      }
          ∷ rules,
      after,
    )

unfoldable pub create_all : World → CompetitionKind → ℕ → List AdvancementRuleInput → World
unfolding numbered_rules
create_all w kind id inputs =
    let (rules, after) = numbered_rules kind id w.next_rule_id inputs in
    record w { rules = w.rules ++ rules; next_rule_id = after }

unfoldable pub match_targets : List (CompetitionKind × ℕ) → List ℕ
match_targets [] = []
match_targets ((kind, id) ∷ rest) =
    if is_match kind then id ∷ match_targets rest else match_targets rest

abbrev pub affected_matches : List AdvancementRule → List AdvancementRuleInput → List ℕ
affected_matches previous inputs = distinct (
    match_targets (
      map {B = CompetitionKind × ℕ} (λ (r : AdvancementRule). (r.target_kind, r.target_id)) previous
      ++ map {B = CompetitionKind × ℕ} (λ (r : AdvancementRuleInput). (r.target_kind, r.target_id))
          inputs))

-- The pool that `announce` tells of.
abbrev pub announced_pool : World → CompetitionKind → ℕ → Option ℕ
announced_pool w match_kind id = elim (find (is_match_row id) w.matches) [
  | none ↦ none
  | some m ↦ m.phase_group
]
announced_pool w phase_group_kind id = some id

abbrev pub announce : Option ℕ → World → World
announce none w = w
announce (some id) w = emit (pool_updated (some id)) w

abbrev pub recalculate_for_matches : List ℕ → World → World
recalculate_for_matches [] w = w
recalculate_for_matches (id ∷ ids) w = recalculate (id ∷ ids) w

-- `updateForSource`
unfoldable pub update_for_source :
    World → CompetitionKind → ℕ → List AdvancementRuleInput → Result RuleError World
unfolding assert_valid_advancement_rules create_all match_targets distinct
update_for_source w kind id inputs =
    if source_exists w kind id
    then (assert_valid_advancement_rules kind id inputs
        >> ok (
            announce (announced_pool w kind id) (
              recalculate_for_matches (affected_matches (find_by_source w kind id) inputs)
                (create_all (delete_by_source w kind id) kind id inputs))))
    else err (source_not_found kind id)
