-- ===== src/Detection/Builtin.antt =====
-- `BUILTIN_RULES` and `build_detection_engine` of backend/app/engines/detection/builtin.py. The pattern
-- of a regular expression is its text.
use ai_powered_security_inve.Base.{String, List, [], ◌∷◌, true, false}
use ai_powered_security_inve.Base.Exec.{Result}
use ai_powered_security_inve.Schemas.Common.{critical, high, medium}
use ai_powered_security_inve.Detection.Rules.{
  Modifier, contains, regex, FieldMatcher, TechniqueRef, DetectionRule,
}
use ai_powered_security_inve.Detection.Engine.{DetectionEngine, RegisterError, register_all}

-- a matcher on the alert's text, with the defaults of `FieldMatcher`
abbrev matcher : Modifier → List String → FieldMatcher
matcher modifier values = record {
  field = "text";
  modifier = modifier;
  values = values;
  case_sensitive = false;
}

abbrev technique_ref : String → String → String → TechniqueRef
technique_ref technique_id name tactic = record {
  technique_id = technique_id;
  name = name;
  tactic = tactic;
}

abbrev pub powershell_rule : DetectionRule
powershell_rule = record {
  id = "AEG-1001";
  title = "Encoded PowerShell command execution";
  description =
      "PowerShell launched with an encoded/obfuscated command — the most common malware delivery and post-exploitation pattern.";
  severity = high;
  condition = record {
    all_of = matcher contains ("powershell" ∷ []) ∷ [];
    any_of =
        matcher contains ("-enc " ∷ "-enc\t" ∷ "-encodedcommand" ∷ [])
        ∷ matcher regex ("frombase64string\\s*\\(" ∷ [])
        ∷ matcher contains ("-windowstyle hidden" ∷ "-noni -nop" ∷ [])
        ∷ [];
    none_of = [];
  };
  techniques =
      technique_ref "T1059.001" "Command and Scripting Interpreter: PowerShell" "execution" ∷ [];
  tags = "powershell" ∷ "obfuscation" ∷ [];
  references = "https://attack.mitre.org/techniques/T1059/001/" ∷ [];
  false_positives = "Admin automation that base64-encodes benign scripts" ∷ [];
  enabled = true;
  author = "aegisflow";
  version = 1;
}

abbrev pub lolbin_rule : DetectionRule
lolbin_rule = record {
  id = "AEG-1002";
  title = "Signed-binary proxy execution (LOLBin)";
  description =
      "rundll32/regsvr32/mshta/certutil used to fetch or execute a payload — living-off-the-land defense evasion.";
  severity = high;
  condition = record {
    all_of = [];
    any_of =
        matcher regex ("rundll32(\\.exe)?\\s+\\S+,\\s*\\w+" ∷ [])
        ∷ matcher contains ("regsvr32 /s /u /i:" ∷ "regsvr32 /i:http" ∷ [])
        ∷ matcher regex ("mshta(\\.exe)?\\s+https?:" ∷ [])
        ∷ matcher contains ("certutil -urlcache" ∷ "certutil.exe -urlcache" ∷ [])
        ∷ [];
    none_of = [];
  };
  techniques = technique_ref "T1218" "System Binary Proxy Execution" "defense-evasion" ∷ [];
  tags = "lolbin" ∷ "defense-evasion" ∷ [];
  references = "https://lolbas-project.github.io/" ∷ [];
  false_positives = "Rare legitimate admin use of certutil for cache ops" ∷ [];
  enabled = true;
  author = "aegisflow";
  version = 1;
}

abbrev pub run_key_rule : DetectionRule
run_key_rule = record {
  id = "AEG-1003";
  title = "Registry run-key persistence";
  description = "Autostart entry written under CurrentVersion\\Run.";
  severity = medium;
  condition = record {
    all_of = matcher contains ("currentversion\\run" ∷ []) ∷ [];
    any_of = [];
    none_of = [];
  };
  techniques = technique_ref "T1547.001" "Registry Run Keys / Startup Folder" "persistence" ∷ [];
  tags = "persistence" ∷ "registry" ∷ [];
  references = "https://attack.mitre.org/techniques/T1547/001/" ∷ [];
  false_positives = "Software installers legitimately register run keys" ∷ [];
  enabled = true;
  author = "aegisflow";
  version = 1;
}

abbrev pub credential_rule : DetectionRule
credential_rule = record {
  id = "AEG-1004";
  title = "Credential dumping tooling";
  description = "Mimikatz module names or LSASS memory-dump activity.";
  severity = critical;
  condition = record {
    all_of = [];
    any_of =
        matcher contains ("mimikatz" ∷ "sekurlsa::" ∷ "lsadump::" ∷ [])
        ∷ matcher regex
            ("procdump(\\.exe)?\\s+(-\\w+\\s+)*lsass" ∷ "comsvcs(\\.dll)?,\\s*minidump" ∷ [])
        ∷ [];
    none_of = [];
  };
  techniques =
      technique_ref "T1003.001" "OS Credential Dumping: LSASS Memory" "credential-access" ∷ [];
  tags = "credential-access" ∷ [];
  references = "https://attack.mitre.org/techniques/T1003/001/" ∷ [];
  false_positives = "Authorized red-team activity" ∷ [];
  enabled = true;
  author = "aegisflow";
  version = 1;
}

abbrev pub phishing_rule : DetectionRule
phishing_rule = record {
  id = "AEG-1005";
  title = "Phishing lure with payment/invoice theme";
  description =
      "Classic financial-pressure lure combined with a link or defanged URL in the reported content.";
  severity = medium;
  condition = record {
    all_of = matcher regex ("hxxps?|https?://" ∷ []) ∷ [];
    any_of =
        matcher contains (
          "invoice" ∷ "payment required" ∷ "payment overdue" ∷ "wire transfer"
          ∷ "verify your account" ∷ "password expir" ∷ [])
        ∷ [];
    none_of = [];
  };
  techniques = technique_ref "T1566.002" "Phishing: Spearphishing Link" "initial-access" ∷ [];
  tags = "phishing" ∷ "email" ∷ [];
  references = "https://attack.mitre.org/techniques/T1566/002/" ∷ [];
  false_positives = "Genuine finance correspondence quoting URLs" ∷ [];
  enabled = true;
  author = "aegisflow";
  version = 1;
}

abbrev pub ransomware_rule : DetectionRule
ransomware_rule = record {
  id = "AEG-1006";
  title = "Ransomware preparation: shadow copy / recovery tampering";
  description =
      "Deletion of volume shadow copies or disabling of recovery — near-certain ransomware staging.";
  severity = critical;
  condition = record {
    all_of = [];
    any_of =
        matcher contains ("vssadmin delete shadows" ∷ "wmic shadowcopy delete" ∷ [])
        ∷ matcher regex ("bcdedit\\s+/set.+recoveryenabled\\s+no" ∷ [])
        ∷ matcher contains ("wbadmin delete catalog" ∷ [])
        ∷ [];
    none_of = [];
  };
  techniques =
      technique_ref "T1490" "Inhibit System Recovery" "impact"
      ∷ technique_ref "T1486" "Data Encrypted for Impact" "impact"
      ∷ [];
  tags = "ransomware" ∷ "impact" ∷ [];
  references = "https://attack.mitre.org/techniques/T1490/" ∷ [];
  false_positives = "Storage admins pruning shadow copies during maintenance" ∷ [];
  enabled = true;
  author = "aegisflow";
  version = 1;
}

abbrev pub sign_in_rule : DetectionRule
sign_in_rule = record {
  id = "AEG-1007";
  title = "Anomalous sign-in (impossible travel / anonymizer)";
  description =
      "Identity-provider flagged sign-in from impossible travel, Tor, or an anonymizing proxy.";
  severity = high;
  condition = record {
    all_of = [];
    any_of =
        matcher contains (
          "impossible travel" ∷ "anonymous ip" ∷ "tor exit" ∷ "unfamiliar sign-in"
          ∷ "atypical travel" ∷ [])
        ∷ [];
    none_of = [];
  };
  techniques = technique_ref "T1078" "Valid Accounts" "initial-access" ∷ [];
  tags = "identity" ∷ "cloud" ∷ [];
  references = "https://attack.mitre.org/techniques/T1078/" ∷ [];
  false_positives = "VPN egress changes; travelling employees" ∷ [];
  enabled = true;
  author = "aegisflow";
  version = 1;
}

abbrev pub scheduled_task_rule : DetectionRule
scheduled_task_rule = record {
  id = "AEG-1008";
  title = "Scheduled task persistence";
  description = "schtasks used to create a task from alert telemetry.";
  severity = medium;
  condition = record {
    all_of = matcher regex ("schtasks(\\.exe)?\\s+/create" ∷ []) ∷ [];
    any_of = [];
    none_of = matcher contains ("patch-management" ∷ []) ∷ [];
  };
  techniques = technique_ref "T1053.005" "Scheduled Task/Job: Scheduled Task" "persistence" ∷ [];
  tags = "persistence" ∷ [];
  references = "https://attack.mitre.org/techniques/T1053/005/" ∷ [];
  false_positives =
      "Software deployment tooling creating tasks (excluded via patch-management tag)" ∷ [];
  enabled = true;
  author = "aegisflow";
  version = 1;
}

abbrev pub builtin_rules : List DetectionRule
builtin_rules =
    powershell_rule ∷ lolbin_rule ∷ run_key_rule ∷ credential_rule ∷ phishing_rule ∷ ransomware_rule
    ∷ sign_in_rule ∷ scheduled_task_rule ∷ []

unfoldable pub build_detection_engine : Result RegisterError DetectionEngine
build_detection_engine = register_all builtin_rules []
