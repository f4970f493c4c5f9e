-- ===== src/Investigation/Mapper.antt =====
-- `map_techniques` of backend/app/engines/mitre/mapper.py and `build_timeline` of
-- backend/app/engines/timeline/builder.py.
use ai_powered_security_inve.Base.{
  String, Bool, Option, none, some, List, [], ◌∷◌, ◌++◌, map, if◌then◌else◌, leb,
}
use ai_powered_security_inve.Base.Dict.{Dict, lookup, insert, contains, values}
use ai_powered_security_inve.Base.Sort.{sort}
use ai_powered_security_inve.Base.Text.{lower, occurs_in, join}
use ai_powered_security_inve.Schemas.Findings.{MitreTechnique, TimelineEvent}

abbrev pub techniques : Dict (String × String)
techniques =
    ("T1566.002", ("Phishing: Spearphishing Link", "initial-access"))
    ∷ ("T1204.001", ("User Execution: Malicious Link", "execution"))
    ∷ ("T1204.002", ("User Execution: Malicious File", "execution"))
    ∷ ("T1059.001", ("Command and Scripting Interpreter: PowerShell", "execution"))
    ∷ ("T1547.001", ("Registry Run Keys / Startup Folder", "persistence"))
    ∷ ("T1071.001", ("Application Layer Protocol: Web Protocols (C2)", "command-and-control"))
    ∷ ("T1486", ("Data Encrypted for Impact", "impact"))
    ∷ []

abbrev pub signal_table : List (String × String)
signal_table =
    ("powershell", "T1059.001")
    ∷ ("powershell.exe", "T1059.001")
    ∷ ("-enc", "T1059.001")
    ∷ ("http", "T1071.001")
    ∷ ("run key", "T1547.001")
    ∷ ("currentversion\\run", "T1547.001")
    ∷ ("encrypt", "T1486")
    ∷ (".lnk", "T1204.002")
    ∷ ("clicked", "T1204.001")
    ∷ ("url", "T1566.002")
    ∷ []

module _ (known : Dict (String × String)) where
  abbrev pub add_known :
      String → Option (String × String) → Dict MitreTechnique → Dict MitreTechnique
  add_known tid none found = found
  add_known tid (some (name, tactic)) found =
      if contains tid found
      then found
      else insert tid (record { technique_id = tid; name = name; tactic = tactic }) found

  -- `add`
  unfoldable pub add : String → Dict MitreTechnique → Dict MitreTechnique
  add tid found = add_known tid (lookup tid known) found

  -- the loop over the signals
  unfoldable pub add_signals :
      String → List (String × String) → Dict MitreTechnique → Dict MitreTechnique
  add_signals lowered [] found = found
  add_signals lowered ((keyword, tid) ∷ signals) found =
      add_signals lowered signals (if occurs_in keyword lowered then add tid found else found)

abbrev pub lowered_of : List String → String
lowered_of signals = join " " (map lower signals)

unfoldable pub map_techniques : List String → Bool → List MitreTechnique
map_techniques signals has_malicious_url = values (
    add_signals techniques (lowered_of signals) signal_table (
      if has_malicious_url then add techniques "T1204.001" (add techniques "T1566.002" []) else []))

-- the loop over the groups
abbrev pub merged : List (List TimelineEvent) → List TimelineEvent
merged [] = []
merged (group ∷ groups) = group ++ merged groups

abbrev pub earlier : TimelineEvent → TimelineEvent → Bool
earlier e f = leb e.timestamp f.timestamp

unfoldable pub build_timeline : List (List TimelineEvent) → List TimelineEvent
build_timeline groups = sort earlier (merged groups)
