-- ===== src/Detection/Engine.antt =====
-- `DetectionEngine` of backend/app/engines/detection/engine.py. No matcher of the model raises, so the
-- engine's guard around one rule is not needed.
use Prim.Native.String.{compare}
use text.Mathlib.Text.{is_le}
use ai_powered_security_inve.Base.{
  ℕ, String, Option, none, some, Bool, true, false, not, ◌&&◌, ◌||◌, List, [], ◌∷◌, ◌++◌, map,
  if◌then◌else◌, ◌==◌, ltb, eqb,
}
use ai_powered_security_inve.Base.Dict.{Dict, lookup, insert, contains, values}
use ai_powered_security_inve.Base.Sort.{sort}
use ai_powered_security_inve.Base.Exec.{Result, ok, err, on_ok}
use ai_powered_security_inve.Base.Text.{take_text}
use ai_powered_security_inve.Schemas.Common.{Severity, critical, high, medium, low, info}
use ai_powered_security_inve.Schemas.Alert.{Alert}
use ai_powered_security_inve.Schemas.Findings.{MitreTechnique, DetectionMatch}
use ai_powered_security_inve.Detection.Rules.{
  FieldMatcher, TechniqueRef, DetectionRule, Search, matches, is_none,
}
use ai_powered_security_inve.Detection.Fields.{flatten_alert}

abbrev pub excerpt_len : ℕ
excerpt_len = 160

-- `_SEV_ORDER`
abbrev pub sev_order : Severity → ℕ
sev_order critical = 0
sev_order high = 1
sev_order medium = 2
sev_order low = 3
sev_order info = 4

pub data RegisterError : Type 0 where
  duplicate_rule : RegisterError

-- `self._rules`
abbrev pub DetectionEngine : Type 0
DetectionEngine = Dict DetectionRule

unfoldable pub register : DetectionRule → DetectionEngine → Result RegisterError DetectionEngine
register rule engine =
    if contains rule.id engine then err duplicate_rule else ok (insert rule.id rule engine)

-- the loop of `__init__`
unfoldable pub register_all :
    List DetectionRule → DetectionEngine → Result RegisterError DetectionEngine
register_all [] engine = ok engine
register_all (rule ∷ more) engine = on_ok (register rule engine) (register_all more)

abbrev pub id_order : DetectionRule → DetectionRule → Bool
id_order a b = is_le (compare a.id b.id)

unfoldable pub rules : DetectionEngine → List DetectionRule
rules engine = sort id_order (values engine)

abbrev pub or_empty : Option String → String
or_empty none = ""
or_empty (some s) = s

-- `fields.get(matcher.field, "")`
abbrev pub field_value : String → Dict String → String
field_value name fields = or_empty (lookup name fields)

-- `matched.setdefault(key, value)`
abbrev pub set_default : String → String → Dict String → Dict String
set_default key value d = if contains key d then d else insert key value d

abbrev pub technique : TechniqueRef → MitreTechnique
technique t = record { technique_id = t.technique_id; name = t.name; tactic = t.tactic }

abbrev pub match_of : DetectionRule → Dict String → DetectionMatch
match_of rule matched = record {
  rule_id = rule.id;
  title = rule.title;
  severity = rule.severity;
  techniques = map technique rule.techniques;
  matched_fields = matched;
  tags = rule.tags;
}

-- the sort key `(_SEV_ORDER[m.severity], m.rule_id)`
unfoldable pub worse_first : DetectionMatch → DetectionMatch → Bool
worse_first a b =
    ltb (sev_order a.severity) (sev_order b.severity)
    || (eqb (sev_order a.severity) (sev_order b.severity) && is_le (compare a.rule_id b.rule_id))

abbrev pub append_hit : Option DetectionMatch → List DetectionMatch → List DetectionMatch
append_hit none found = found
append_hit (some hit) found = hit ∷ found

module _ (search : Search) (fields : Dict String) where
  -- `value and matcher.matches(value)`
  abbrev pub hits : FieldMatcher → Bool
  hits m = not (field_value m.field fields == "") && matches search m (field_value m.field fields)

  -- `check`: whether the matcher hits, and the matched fields after it
  abbrev pub check : FieldMatcher → Dict String → Bool × Dict String
  check m matched =
      if hits m
      then (true, set_default m.field (take_text excerpt_len (field_value m.field fields)) matched)
      else (false, matched)

  -- `all(check(m) for m in ms)`, which stops at the first that fails
  unfoldable pub check_all : List FieldMatcher → Dict String → Bool × Dict String
  check_all [] matched = (true, matched)
  check_all (m ∷ ms) matched =
      let rest = check_all ms (check m matched).1 in if hits m then rest else (false, matched)

  -- `any(check(m) for m in ms)`, which stops at the first that hits
  unfoldable pub check_any : List FieldMatcher → Dict String → Bool × Dict String
  check_any [] matched = (false, matched)
  check_any (m ∷ ms) matched =
      let rest = check_any ms matched in if hits m then (true, (check m matched).1) else rest

  -- the loop over the NOT-clause: whether a matcher of it hits
  unfoldable pub is_vetoed : List FieldMatcher → Bool
  is_vetoed [] = false
  is_vetoed (m ∷ ms) = let rest = is_vetoed ms in if hits m then true else rest

  -- `_evaluate_rule`, after the all-clause
  abbrev pub evaluate_any : DetectionRule → Bool × Dict String → Option DetectionMatch
  evaluate_any rule (hit, matched) =
      if not (is_none rule.condition.any_of) && not hit
      then none
      else if is_vetoed rule.condition.none_of
      then none
      else some (match_of rule matched)

  abbrev pub evaluate_all : DetectionRule → Bool × Dict String → Option DetectionMatch
  evaluate_all rule (hit, matched) =
      if not hit
      then none
      else evaluate_any rule (
          if is_none rule.condition.any_of
          then (true, matched)
          else check_any rule.condition.any_of matched)

  unfoldable pub evaluate_rule : DetectionRule → Option DetectionMatch
  evaluate_rule rule = evaluate_all rule (check_all rule.condition.all_of [])

  -- the loop of `evaluate`
  unfoldable pub evaluate_each : List DetectionRule → List DetectionMatch
  evaluate_each [] = []
  evaluate_each (rule ∷ more) =
      let rest = evaluate_each more in
      if not rule.enabled then rest else append_hit (evaluate_rule rule) rest

-- `evaluate`
unfoldable pub evaluate :
    Search → DetectionEngine → Alert → List DetectionRule → List DetectionMatch
evaluate search engine alert extra_rules =
    sort worse_first (evaluate_each search (flatten_alert alert) (values engine ++ extra_rules))
