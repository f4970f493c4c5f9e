-- ===== src/Detection/Tests.antt =====
-- An alert about an encoded command, against the built-in rules.
use ai_powered_security_inve.Base.{String, ◌≡◌, refl, ◌&&◌, [], ◌∷◌, ◌++◌, map, All, keep}
use mathlib.Core.List.{Perm}
use ai_powered_security_inve.Base.Sort.{sort, IsSorted}
use ai_powered_security_inve.Base.Text.{lower, occurs_in, join, take_text}
use ai_powered_security_inve.Base.Dict.{Dict, lookup, insert, values}
use ai_powered_security_inve.Base.Exec.{ok}
use ai_powered_security_inve.Schemas.Common.{high}
use ai_powered_security_inve.Schemas.Alert.{text, Alert}
use ai_powered_security_inve.Detection.Rules.{matches, Search}
use ai_powered_security_inve.Detection.Fields.{flatten_alert, add_extra, stringify}
use ai_powered_security_inve.Detection.Engine.{
  DetectionEngine, register, register_all, match_of, check_all, check_any, is_vetoed, evaluate,
  evaluate_each, evaluate_rule,
}
use ai_powered_security_inve.Detection.Builtin.{
  builtin_rules, build_detection_engine, powershell_rule, lolbin_rule,
}
use ai_powered_security_inve.Detection.Evaluation.{
  fires, without_evidence, at_least_as_severe, evaluate_outcome,
}
use ai_powered_security_inve.Detection.Evidence.{IsJustified}
use ai_powered_security_inve.Detection.Justified.{evaluate-IsJustified}

-- a search for the pattern as it is written
abbrev plain_search : Search
plain_search pattern case_sensitive value = occurs_in (lower pattern) (lower value)

abbrev encoded_command : Alert
encoded_command = record {
  source = "edr";
  source_alert_id = "a-1";
  title = "Script";
  description = "PowerShell -enc ZQBj";
  severity = high;
  src_ips = [];
  dst_ips = [];
  users = [];
  hosts = "ws1" ∷ [];
  raw_text = "";
  extra = ("ticket", text "T9") ∷ [];
}

abbrev engine : DetectionEngine
engine = ("AEG-1002", lolbin_rule) ∷ ("AEG-1001", powershell_rule) ∷ []

command_found :
    map {B = Dict String} (λ m. m.matched_fields) (evaluate plain_search engine encoded_command [])
    ≡ (("text", "Script\nPowerShell -enc ZQBj\n") ∷ []) ∷ []
unfolding evaluate evaluate_each evaluate_rule check_all check_any is_vetoed matches flatten_alert
    add_extra stringify join lower occurs_in lookup insert sort take_text
command_found = refl

builtin_registered : build_detection_engine ≡ ok (map (λ r. (r.id, r)) builtin_rules)
unfolding build_detection_engine register_all register insert lookup
builtin_registered = refl

evaluate_outcome_example :
    Perm (map without_evidence (evaluate plain_search engine encoded_command [])) (
      map
        (λ rule. match_of rule [])
        (keep
          (λ rule.
            rule.enabled && fires plain_search (flatten_alert encoded_command) rule.condition)
          (values engine ++ [])))
    × IsSorted at_least_as_severe (evaluate plain_search engine encoded_command [])
evaluate_outcome_example = evaluate_outcome plain_search engine encoded_command []

evaluate-IsJustified_example :
    All
      (IsJustified plain_search (flatten_alert encoded_command) (values engine ++ []))
      (evaluate plain_search engine encoded_command [])
evaluate-IsJustified_example = evaluate-IsJustified plain_search engine encoded_command []
