-- ===== src/Investigation/MapperTests.antt =====
-- Two signals and a malicious URL.
use mathlib.Core.Path.{◌≡◌, refl}
use ai_powered_security_inve.Base.{
  String, true, List, [], ◌∷◌, map, if◌then◌else◌, ◌==◌, ◌&&◌, ◌||◌,
}
use ai_powered_security_inve.Base.Dict.{lookup, insert, contains}
use ai_powered_security_inve.Base.Text.{lower, occurs_in, join}
use ai_powered_security_inve.Schemas.Findings.{MitreTechnique}
use ai_powered_security_inve.Investigation.Mapper.{
  techniques, signal_table, add, add_signals, lowered_of, map_techniques,
}
use ai_powered_security_inve.Investigation.Mapped.{count, signalled, map_techniques_outcome}

abbrev observed : List String
observed = "User clicked" ∷ "PowerShell -Enc" ∷ []

mapped :
    map (λ (t : MitreTechnique). t.technique_id) (map_techniques observed true)
    ≡ "T1566.002" ∷ "T1204.001" ∷ "T1059.001" ∷ []
unfolding map_techniques add add_signals lookup insert lower occurs_in join
mapped = refl

map_techniques_outcome_example : count "T1059.001" (map_techniques observed true) ≡ (
    if contains "T1059.001" techniques
      && (signalled techniques "T1059.001" (lowered_of observed) signal_table
          || (true && ("T1566.002" == "T1059.001" || "T1204.001" == "T1059.001")))
    then 1
    else 0)
map_techniques_outcome_example = map_techniques_outcome "T1059.001" observed true
