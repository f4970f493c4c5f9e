-- ===== src/Detection/Evaluation.antt =====
-- What an evaluation reports, by the conditions of the rules: backend/app/engines/detection/engine.py.
use mathlib.Core.Path.{subst}
use mathlib.Core.List.{Perm}
use mathlib.Core.List.Perm
use ai_powered_security_inve.Base.{
  String, Bool, true, false, not, ◌&&◌, ◌||◌, List, [], ◌∷◌, ◌++◌, map, ◌≡◌, refl, inl, inr, arith,
  any, all, keep, leb, leb_trans, Bool-cases,
}
use ai_powered_security_inve.Base.Dict.{Dict, values}
use ai_powered_security_inve.Base.Sort.{sort-perm, sort-IsSorted_by, IsSorted}
use ai_powered_security_inve.Schemas.Alert.{Alert}
use ai_powered_security_inve.Schemas.Findings.{DetectionMatch}
use ai_powered_security_inve.Detection.Rules.{
  FieldMatcher, RuleCondition, DetectionRule, Search, is_none,
}
use ai_powered_security_inve.Detection.Fields.{flatten_alert}
use ai_powered_security_inve.Detection.Engine.{
  DetectionEngine, hits, check_all, check_any, is_vetoed, evaluate_any, evaluate_all, evaluate_rule,
  evaluate_each, evaluate, append_hit, match_of, sev_order, worse_first,
}

module _ (search : Search) (fields : Dict String) where
  -- the condition of a rule as the documentation of the rules states it
  abbrev pub fires : RuleCondition → Bool
  fires c =
      all (hits search fields) c.all_of
      && (is_none c.any_of || any (hits search fields) c.any_of)
      && not (any (hits search fields) c.none_of)

-- the match that a rule gives, but for its evidence
abbrev pub without_evidence : DetectionMatch → DetectionMatch
without_evidence m = record m { matched_fields = [] }

-- the first match is at least as severe as the second
abbrev pub at_least_as_severe : DetectionMatch → DetectionMatch → Bool
at_least_as_severe a b = leb (sev_order a.severity) (sev_order b.severity)

module _ (search : Search) (fields : Dict String) where
  check_all-all :
      (ms : List FieldMatcher) (d : Dict String)
      → (check_all search fields ms d).0 ≡ all (hits search fields) ms
  unfolding check_all
  check_all-all [] d = refl
  check_all-all (m ∷ ms) d = elim (Bool-cases (hits search fields m)) [
    | inl t ↦ rw t (check_all-all ms _)
    | inr f ↦ rw f (refl)
  ]

  check_any-any :
      (ms : List FieldMatcher) (d : Dict String)
      → (check_any search fields ms d).0 ≡ any (hits search fields) ms
  unfolding check_any
  check_any-any [] d = refl
  check_any-any (m ∷ ms) d = elim (Bool-cases (hits search fields m)) [
    | inl t ↦ rw t (refl)
    | inr f ↦ rw f (check_any-any ms d)
  ]

  is_vetoed-any :
      (ms : List FieldMatcher) → is_vetoed search fields ms ≡ any (hits search fields) ms
  unfolding is_vetoed
  is_vetoed-any [] = refl
  is_vetoed-any (m ∷ ms) = elim (Bool-cases (hits search fields m)) [
    | inl t ↦ rw t (refl)
    | inr f ↦ rw f (is_vetoed-any ms)
  ]

  module _ (rule : DetectionRule) (found : List DetectionMatch) where
    -- what is reported where the rule fires and where it does not
    abbrev reported : Bool → List DetectionMatch
    reported true = match_of rule [] ∷ map without_evidence found
    reported false = map without_evidence found

    evaluate_any_lem :
        (p : Bool × Dict String)
        → map without_evidence (append_hit (evaluate_any search fields rule p) found)
          ≡ reported (
              (is_none rule.condition.any_of || p.0)
              && not (any (hits search fields) rule.condition.none_of))
    evaluate_any_lem (hit, matched) = ground (arith, is_vetoed-any rule.condition.none_of)

    evaluate_all_lem :
        (p : Bool × Dict String)
        → map without_evidence (append_hit (evaluate_all search fields rule p) found)
          ≡ reported (
              p.0
              && (is_none rule.condition.any_of || any (hits search fields) rule.condition.any_of)
              && not (any (hits search fields) rule.condition.none_of))
    evaluate_all_lem (hit, matched) = ground (
      arith,
      evaluate_any_lem (check_any search fields rule.condition.any_of matched),
      evaluate_any_lem (true, matched),
      check_any-any rule.condition.any_of matched,
    )

    evaluate_rule_lem :
        map without_evidence (append_hit (evaluate_rule search fields rule) found)
        ≡ reported (fires search fields rule.condition)
    unfolding evaluate_rule
    evaluate_rule_lem = ground (
      arith,
      evaluate_all_lem (check_all search fields rule.condition.all_of []),
      check_all-all rule.condition.all_of [],
    )

  -- the matches of the rules that are enabled and whose condition holds, in the order of the rules
  evaluate_each_lem :
      (rules : List DetectionRule)
      → map without_evidence (evaluate_each search fields rules)
        ≡ map
            (λ rule. match_of rule [])
            (keep (λ rule. rule.enabled && fires search fields rule.condition) rules)
  unfolding evaluate_each
  evaluate_each_lem [] = refl
  evaluate_each_lem (rule ∷ rules) =
      ground
        (arith, evaluate_each_lem rules, evaluate_rule_lem rule (evaluate_each search fields rules))

less_severe : (a b : DetectionMatch) → worse_first a b ≡ true → at_least_as_severe a b ≡ true
unfolding worse_first
less_severe a b h = ground arith

more_severe : (a b : DetectionMatch) → worse_first a b ≡ false → at_least_as_severe b a ≡ true
unfolding worse_first
more_severe a b h = ground arith

-- The evaluation reports, each once but for its evidence, exactly the rules of the engine and the extra
-- rules that are enabled and whose condition holds of the alert's fields: every matcher of its
-- all-clause hits, one of its any-clause does unless that is empty, and none of its none-clause does.
-- A match comes before every less severe one.
pub evaluate_outcome :
    (search : Search) (engine : DetectionEngine) (alert : Alert) (extra_rules : List DetectionRule)
    → Perm (map without_evidence (evaluate search engine alert extra_rules)) (
        map
          (λ rule. match_of rule [])
          (keep
            (λ rule. rule.enabled && fires search (flatten_alert alert) rule.condition)
            (values engine ++ extra_rules)))
      × IsSorted at_least_as_severe (evaluate search engine alert extra_rules)
unfolding evaluate
evaluate_outcome search engine alert extra_rules = (
  subst (λ found. Perm (map without_evidence (evaluate search engine alert extra_rules)) found)
      (evaluate_each_lem search (flatten_alert alert) (values engine ++ extra_rules))
      (Perm.map without_evidence (
        sort-perm worse_first
          (evaluate_each search (flatten_alert alert) (values engine ++ extra_rules)))),
  sort-IsSorted_by worse_first at_least_as_severe less_severe more_severe
      (λ a b c. leb_trans (sev_order a.severity) (sev_order b.severity) (sev_order c.severity))
      (evaluate_each search (flatten_alert alert) (values engine ++ extra_rules)),
)
