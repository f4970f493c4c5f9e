-- ===== src/Detection/Justified.antt =====
-- What a match of backend/app/engines/detection/engine.py has for evidence, over all rules.
use mathlib.Core.Path.{subst}
use mathlib.Core.List.{Mem, mem-cons_self, mem-cons_of_mem}
use ai_powered_security_inve.Base.{
  String, Bool, true, false, not, ◌&&◌, Option, some, none, List, [], ◌∷◌, ◌++◌, ◌≡◌, ◌⊎◌, refl,
  sym, inl, inr, All, All-map, Bool-cases, arith,
}
use ai_powered_security_inve.Base.Dict.{Dict, contains, values}
use ai_powered_security_inve.Base.Sort.{All-sort}
use ai_powered_security_inve.Schemas.Alert.{Alert}
use ai_powered_security_inve.Schemas.Findings.{DetectionMatch}
use ai_powered_security_inve.Detection.Rules.{FieldMatcher, DetectionRule, Search, is_none}
use ai_powered_security_inve.Detection.Fields.{flatten_alert}
use ai_powered_security_inve.Detection.Engine.{
  DetectionEngine, check_all, check_any, is_vetoed, evaluate_any, evaluate_all, evaluate_rule,
  evaluate_each, evaluate, append_hit, worse_first,
}
use ai_powered_security_inve.Detection.Evidence.{
  IsEvidence, IsJustifiedBy, IsJustified, check_all-IsEvidence, check_any-IsEvidence,
  check_all_there, check_any_keeps, check_any_there,
}

module _ (search : Search) (fields : Dict String) where
  abbrev IfSome : (DetectionMatch → Type 0) → Option DetectionMatch → Type 0
  IfSome P none = Unit
  IfSome P (some hit) = P hit

  module _ (rule : DetectionRule) where
    -- what the checks of the two clauses have left
    abbrev AllThere : Dict String → Type 0
    AllThere matched = All (λ m. contains m.field matched ≡ true) rule.condition.all_of

    abbrev OneThere : Dict String → Type 0
    OneThere matched =
        (m : FieldMatcher) × Mem m rule.condition.any_of × (contains m.field matched ≡ true)

    none-of_list : {A : Type 0} → (xs : List A) → is_none xs ≡ true → xs ≡ []
    none-of_list [] h = refl
    none-of_list (x ∷ xs) h = cc

    evaluate_any_lem :
        (p : Bool × Dict String)
        → All (IsEvidence search fields rule) p.1
        → AllThere p.1
        → (is_none rule.condition.any_of ≡ true)
          ⊎ ((is_none rule.condition.any_of ≡ false) × (p.0 ≡ true → OneThere p.1))
        → IfSome (IsJustifiedBy search fields rule) (evaluate_any search fields rule p)
    evaluate_any_lem (hit, matched) e a o =
        elim (Bool-cases (not (is_none rule.condition.any_of) && not hit)) [
          | inl t ↦ rw t tt
          | inr f ↦ rw f (elim (Bool-cases (is_vetoed search fields rule.condition.none_of)) [
            | inl t ↦ rw t tt
            | inr g ↦ rw g (record {
              of_rule = refl;
              evidence = e;
              all_there = a;
              one_there = elim o [
                | inl empty ↦ inl (none-of_list rule.condition.any_of empty)
                | inr (some_any, there) ↦ inr (there (ground (arith, f, some_any)))
              ];
            })
          ])
        ]

    evaluate_all_lem :
        (p : Bool × Dict String)
        → All (IsEvidence search fields rule) p.1
        → (p.0 ≡ true → AllThere p.1)
        → IfSome (IsJustifiedBy search fields rule) (evaluate_all search fields rule p)
    evaluate_all_lem (false, matched) e a = tt
    evaluate_all_lem (true, matched) e a = elim (Bool-cases (is_none rule.condition.any_of)) [
      | inl empty ↦
          let step : evaluate_all search fields rule (true, matched)
              ≡ evaluate_any search fields rule (true, matched) =
            rw empty refl in
          subst (IfSome (IsJustifiedBy search fields rule)) (sym step)
            (evaluate_any_lem (true, matched) e (a refl) (inl empty))
      | inr some_any ↦
          let checked : Bool × Dict String =
            check_any search fields rule.condition.any_of matched in
          let step : evaluate_all search fields rule (true, matched)
              ≡ evaluate_any search fields rule checked =
            rw some_any refl in
          subst (IfSome (IsJustifiedBy search fields rule)) (sym step) (
            evaluate_any_lem checked
              (check_any-IsEvidence search fields rule rule.condition.any_of matched (λ m i. i) e)
              (All-map (λ m. contains m.field matched ≡ true)
                (λ m. contains m.field checked.1 ≡ true)
                (λ m c. check_any_keeps search fields m.field rule.condition.any_of matched c)
                rule.condition.all_of (a refl))
              (inr (some_any, check_any_there search fields rule.condition.any_of matched)))
    ]

    evaluate_rule_lem : IfSome (IsJustifiedBy search fields rule) (evaluate_rule search fields rule)
    unfolding evaluate_rule
    evaluate_rule_lem =
        evaluate_all_lem (check_all search fields rule.condition.all_of [])
          (check_all-IsEvidence search fields rule rule.condition.all_of [] (λ m i. i) tt)
          (check_all_there search fields rule.condition.all_of [])

  appended :
      (rules : List DetectionRule) (rule : DetectionRule) (found : List DetectionMatch)
      (hit : Option DetectionMatch)
      → Mem rule rules
      → rule.enabled ≡ true
      → IfSome (IsJustifiedBy search fields rule) hit
      → All (IsJustified search fields rules) found
      → All (IsJustified search fields rules) (append_hit hit found)
  appended rules rule found none i on j rest = rest
  appended rules rule found (some hit) i on j rest = ((rule, i, on, j), rest)

  evaluate_each_evidence :
      (all_rules rules : List DetectionRule)
      → ((rule : DetectionRule) → Mem rule rules → Mem rule all_rules)
      → All (IsJustified search fields all_rules) (evaluate_each search fields rules)
  unfolding evaluate_each
  evaluate_each_evidence all_rules [] sub = tt
  evaluate_each_evidence all_rules (rule ∷ rules) sub =
      let rest : All (IsJustified search fields all_rules) (evaluate_each search fields rules) =
        evaluate_each_evidence all_rules rules (λ r i. sub r (mem-cons_of_mem rule i)) in
      elim (Bool-cases rule.enabled) [
        | inl on ↦
            let step : evaluate_each search fields (rule ∷ rules)
                ≡ append_hit (evaluate_rule search fields rule)
                    (evaluate_each search fields rules) =
              rw on refl in
            subst (All (IsJustified search fields all_rules)) (sym step) (
              appended all_rules rule (evaluate_each search fields rules)
                (evaluate_rule search fields rule) (sub rule mem-cons_self) on
                (evaluate_rule_lem rule) rest)
        | inr off ↦
            let step : evaluate_each search fields (rule ∷ rules)
                ≡ evaluate_each search fields rules =
              rw off refl in
            subst (All (IsJustified search fields all_rules)) (sym step) rest
      ]

-- Every match is of an enabled rule that was evaluated. What it names as matched is a field of the alert
-- that is not empty and that a matcher of the all-clause or the any-clause of this rule matches, with the
-- first 160 characters of its value; the field of every matcher of the all-clause is there, and that of
-- a matcher of the any-clause unless this is empty.
pub evaluate-IsJustified :
    (search : Search) (engine : DetectionEngine) (alert : Alert) (extra_rules : List DetectionRule)
    → All
        (IsJustified search (flatten_alert alert) (values engine ++ extra_rules))
        (evaluate search engine alert extra_rules)
unfolding evaluate
evaluate-IsJustified search engine alert extra_rules =
    let rules : List DetectionRule = values engine ++ extra_rules in
    All-sort worse_first (IsJustified search (flatten_alert alert) rules)
      (evaluate_each search (flatten_alert alert) rules)
      (evaluate_each_evidence search (flatten_alert alert) rules rules (λ r i. i))
