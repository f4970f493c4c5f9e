-- ===== src/Playbook/Tests.antt =====
-- A playbook for two techniques of one family.
use ai_powered_security_inve.Base.{◌≡◌, refl, [], ◌∷◌, length}
use ai_powered_security_inve.Schemas.Common.{malicious}
use ai_powered_security_inve.Playbook.Recommender.{
  recommend_playbook, add_techniques, add_rules, rules_for, before_dot,
}
use ai_powered_security_inve.Playbook.Steps.{IsPlaybook, recommend_playbook-IsPlaybook}

-- the second technique of the family adds nothing
phishing_steps : length (recommend_playbook ("T1566.002" ∷ "T1566" ∷ []) malicious) ≡ 3
unfolding recommend_playbook add_techniques add_rules rules_for before_dot
phishing_steps = refl

recommend_playbook-IsPlaybook_example :
    IsPlaybook malicious (recommend_playbook ("T1566.002" ∷ "T1566" ∷ []) malicious)
recommend_playbook-IsPlaybook_example =
    recommend_playbook-IsPlaybook ("T1566.002" ∷ "T1566" ∷ []) malicious
