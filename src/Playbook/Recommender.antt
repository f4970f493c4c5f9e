-- ===== src/Playbook/Recommender.antt =====
-- `recommend_playbook` of backend/app/engines/playbook/recommender.py.
use Prim.Native.Char.{code}
use ai_powered_security_inve.Base.{
  String, Bool, true, false, ◌&&◌, List, [], ◌∷◌, ◌++◌, if◌then◌else◌, ◌==◌, eqb, any,
}
use ai_powered_security_inve.Approvals.Types.{PlaybookStep}
use ai_powered_security_inve.Schemas.Common.{Verdict, is_malicious}

-- the identifiers of techniques are all that is read of them
-- `technique_id.split(".")[0]`
unfoldable pub before_dot : String → String
before_dot String.[] = ""
before_dot (String.◌∷◌ c s) =
    let rest = before_dot s in if eqb (code c) 46 then "" else String.◌∷◌ c rest

-- an entry of `_RULES`: phase, action and rationale
pub record Remedy : Type 0 where
  pub phase : String
  pub action : String
  pub rationale : String

abbrev pub remedy : String → String → String → Remedy
remedy phase action rationale = record { phase = phase; action = action; rationale = rationale }

-- `_RULES.get(base, [])`
unfoldable pub rules_for : String → List Remedy
rules_for base =
    if base == "T1071"
    then remedy "containment" "Block C2 domains/IPs at the egress firewall and proxy"
        "Confirmed command-and-control traffic must be severed first"
      ∷ remedy "detection" "Add C2 indicators to EDR custom IOC blocklist"
          "Prevent re-beaconing and catch lateral spread"
      ∷ []
    else if base == "T1547"
    then remedy "eradication" "Remove malicious Run-key persistence on affected hosts"
        "Persistence will survive reboot until removed"
      ∷ []
    else if base == "T1059"
    then remedy "containment" "Isolate hosts that executed the encoded PowerShell"
        "Live code execution observed; contain before eradication"
      ∷ []
    else if base == "T1486"
    then remedy "recovery" "Validate backups and prepare restoration runbook"
        "Ransomware impact technique present"
      ∷ []
    else if base == "T1566"
    then remedy "containment" "Purge the phishing email from all recipient mailboxes"
        "Stop further clicks across the campaign"
      ∷ remedy "detection" "Tune mail gateway rule for the sender/url pattern"
          "Reduce recurrence of this campaign"
      ∷ []
    else []

-- the variables of the loop
pub record Draft : Type 0 where
  pub steps : List PlaybookStep
  pub seen : List (String × String)

-- `PlaybookStep(...)`, whose approval is required by default
abbrev pub step : Remedy → PlaybookStep
step r = record {
  phase = r.phase;
  action = r.action;
  rationale = r.rationale;
  requires_approval = true;
}

abbrev pub same_key : String × String → String × String → Bool
same_key a b = a.0 == b.0 && a.1 == b.1

-- `key in seen`
abbrev pub is_seen : String × String → List (String × String) → Bool
is_seen key = any (λ k. same_key k key)

abbrev pub add_rule : Remedy → Draft → Draft
add_rule r d =
    if is_seen (r.phase, r.action) d.seen
    then d
    else record { steps = d.steps ++ step r ∷ []; seen = d.seen ++ (r.phase, r.action) ∷ [] }

unfoldable pub add_rules : List Remedy → Draft → Draft
add_rules [] d = d
add_rules (r ∷ rs) d = add_rules rs (add_rule r d)

unfoldable pub add_techniques : List String → Draft → Draft
add_techniques [] d = d
add_techniques (t ∷ ts) d = add_techniques ts (add_rules (rules_for (before_dot t)) d)

abbrev pub escalation : PlaybookStep
escalation = step (
    remedy "containment" "Escalate to Tier-2/IR for manual containment review"
      "Malicious verdict without a mapped automated playbook")

abbrev pub improvement : PlaybookStep
improvement = step (
    remedy "detection" "Promote confirmed IOCs to the detection ruleset and threat-intel platform"
      "Convert this investigation into durable detection coverage")

abbrev pub is_none : List PlaybookStep → Bool
is_none [] = true
is_none (_ ∷ _) = false

-- the end of `recommend_playbook`
abbrev pub close : Verdict → List PlaybookStep → List PlaybookStep
close verdict steps =
    (if is_malicious verdict && is_none steps then steps ++ escalation ∷ [] else steps)
    ++ improvement ∷ []

unfoldable pub recommend_playbook : List String → Verdict → List PlaybookStep
recommend_playbook techniques verdict =
    close verdict (add_techniques techniques (record { steps = []; seen = [] })).steps
