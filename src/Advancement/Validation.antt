-- ===== src/Advancement/Validation.antt =====
-- The rules that `updateForSource` accepts and writes.
use tournament_hub.Common.{
  ℕ, suc, ◌+◌, ◌≤◌, ◌≡◌, ◌↔◌, refl, subst, inl, inr, Bool, true, false, ◌&&◌, List, [], ◌∷◌, arith,
  ◌==◌, ==_iff, ==_self, if◌then◌else◌, Bool-cases, any, count_if, ok,
}
use tournament_hub.Placement.{CompetitionKind, match_kind, phase_group_kind}
use tournament_hub.Advancement.{AdvancementRule, same_kind}
use tournament_hub.Advancement.Rules.{
  AdvancementRuleInput, check_rules, assert_valid_advancement_rules,
}

abbrev pub targets_self : CompetitionKind → ℕ → AdvancementRuleInput → Bool
targets_self kind id rule = same_kind rule.target_kind kind && (rule.target_id == id)

abbrev pub has_placement : ℕ → AdvancementRuleInput → Bool
has_placement p rule = rule.source_placement == p

-- No rule targets the source, and no place has two rules.
abbrev pub IsRuleSet : CompetitionKind → ℕ → List AdvancementRuleInput → Type 0
IsRuleSet kind id inputs =
    (any (targets_self kind id) inputs ≡ false) × ((p : ℕ) → count_if (has_placement p) inputs ≤ 1)

check_rules_sound :
    (kind : CompetitionKind) (id : ℕ) (seen : List ℕ) (inputs : List AdvancementRuleInput)
    → check_rules kind id seen inputs ≡ ok tt
    → (any (targets_self kind id) inputs ≡ false)
      × ((p : ℕ) → count_if (has_placement p) inputs + (if any (◌==◌ p) seen then 1 else 0) ≤ 1)
unfolding check_rules
check_rules_sound kind id seen [] h = (refl, λ p. ground arith)
check_rules_sound kind id seen (rule ∷ rest) h = elim (Bool-cases (targets_self kind id rule)) [
  | inl e ↦ absurd (ground (arith, h, e))
  | inr e ↦ elim (Bool-cases (any (◌==◌ rule.source_placement) seen)) [
    | inl k ↦ absurd (ground (arith, h, e, k))
    | inr k ↦
        let (fine, once) =
          check_rules_sound kind id (rule.source_placement ∷ seen) rest (ground (arith, h, e, k)) in
        (
          ground (arith, e, fine),
          λ p. elim (Bool-cases (rule.source_placement == p)) [
            | inl same ↦
                let eq = (==_iff rule.source_placement p).0 same in
                let unseen = subst (λ x. any (◌==◌ x) seen ≡ false) eq k in
                ground (arith, same, unseen, once p, ==_iff p rule.source_placement, eq)
            | inr other ↦ ground (arith, other, once p)
          ],
        )
  ]
]

check_rules_complete :
    (kind : CompetitionKind) (id : ℕ) (seen : List ℕ) (inputs : List AdvancementRuleInput)
    → any (targets_self kind id) inputs ≡ false
    → ((p : ℕ) → count_if (has_placement p) inputs + (if any (◌==◌ p) seen then 1 else 0) ≤ 1)
    → check_rules kind id seen inputs ≡ ok tt
unfolding check_rules
check_rules_complete kind id seen [] fine once = refl
check_rules_complete kind id seen (rule ∷ rest) fine once =
    let rest_fine =
      check_rules_complete kind id (rule.source_placement ∷ seen) rest (ground (arith, fine)) (λ p.
        elim (Bool-cases (rule.source_placement == p)) [
          | inl same ↦
              let eq = (==_iff rule.source_placement p).0 same in
              ground (arith, same, once p, ==_iff p rule.source_placement, eq)
          | inr other ↦
              ground (
                arith,
                other,
                once p,
                ==_iff p rule.source_placement,
                ==_iff rule.source_placement p,
              )
        ]) in
    ground (arith, fine, rest_fine, once rule.source_placement, ==_self rule.source_placement)

-- `assertValidAdvancementRules` accepts exactly the lists in which no rule targets the source and no
-- place of the source has two rules.
pub assert_valid_iff_IsRuleSet :
    (kind : CompetitionKind) (id : ℕ) (inputs : List AdvancementRuleInput)
    → (assert_valid_advancement_rules kind id inputs ≡ ok tt) ↔ IsRuleSet kind id inputs
unfolding assert_valid_advancement_rules
assert_valid_iff_IsRuleSet kind id inputs = (
  λ h.
      let (fine, once) = check_rules_sound kind id [] inputs h in
      (fine, λ p. omega (arith, once p)),
  λ h. check_rules_complete kind id [] inputs h.0 (λ p. omega (arith, h.1 p)),
)

-- The rule that an input becomes, under an id.
abbrev pub rule_of : CompetitionKind → ℕ → ℕ → AdvancementRuleInput → AdvancementRule
rule_of kind source id rule = record {
  id = id;
  source_kind = kind;
  source_id = source;
  source_placement = rule.source_placement;
  target_kind = rule.target_kind;
  target_id = rule.target_id;
  target_slot = rule.target_slot;
}

abbrev pub rules_from : CompetitionKind → ℕ → ℕ → List AdvancementRuleInput → List AdvancementRule
rules_from kind source next [] = []
rules_from kind source next (rule ∷ rest) =
    rule_of kind source next rule ∷ rules_from kind source (suc next) rest

same_kind_self : (k : CompetitionKind) → same_kind k k ≡ true
same_kind_self match_kind = refl
same_kind_self phase_group_kind = refl
