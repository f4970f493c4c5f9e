-- ===== src/Investigation/Reflection.antt =====
-- `ReflectionEngine` of backend/app/agents/reflection.py.
use Prim.Native.String.{compare, ◌++◌ as cat}
use text.Mathlib.Text.{is_le}
use ai_powered_security_inve.Base.{
  String, Option, none, some, Bool, not, ◌&&◌, List, [], ◌∷◌, ◌++◌, map, if◌then◌else◌, length, any,
  keep, leb,
}
use ai_powered_security_inve.Base.Decimal.{decimal}
use ai_powered_security_inve.Base.Dict.{Dict}
use ai_powered_security_inve.Base.Sets.{is_in}
use ai_powered_security_inve.Base.Sort.{sort}
use ai_powered_security_inve.Base.Text.{lower}
use ai_powered_security_inve.Schemas.Common.{is_malicious, is_suspicious, is_benign}
use ai_powered_security_inve.Planning.Json.{str, list}
use ai_powered_security_inve.Planning.Task.{dedup_key}
use ai_powered_security_inve.Planning.Scheduler.{PlannedAction}
use ai_powered_security_inve.Investigation.State.{
  SourceVerdict, EnrichedIoc, EdrHit, EmailAttachment, InvestigationState,
}
use ai_powered_security_inve.Investigation.Planner.{action, attachments, is_none}

-- `_Issue`
pub record Issue : Type 0 where
  pub category : String
  pub detail : String
  pub action : Option PlannedAction

abbrev pub issue : String → String → Option PlannedAction → Issue
issue category detail action = record { category = category; detail = detail; action = action }

-- `edr_values`
abbrev pub edr_values : List EdrHit → List String
edr_values hits = map (λ (h : EdrHit). lower h.ioc.value) hits

-- 1. the IOCs that were never enriched
unfoldable pub unenriched : InvestigationState → List Issue
unenriched state =
    if not (is_none state.pending_iocs)
    then issue "coverage" (cat (decimal (length state.pending_iocs)) " IOC(s) were never enriched")
        (some (action "enrich_iocs" "reflection: enrich residual IOCs" []))
      ∷ []
    else []

abbrev pub undetonated_attachment : EmailAttachment → Issue
undetonated_attachment att =
    issue "coverage" (cat "attachment " (cat att.filename " was never detonated")) (
      some (
        action "detonate_attachment" "reflection: detonate residual attachment"
          (("filename", str att.filename) ∷ ("sha256", str att.sha256) ∷ [])))

-- 2. the attachments that were never detonated
unfoldable pub undetonated : List String → List EmailAttachment → List Issue
undetonated detonated [] = []
undetonated detonated (att ∷ atts) =
    let rest = undetonated detonated atts in
    if not (is_in att.sha256 detonated) then undetonated_attachment att ∷ rest else rest

-- `[k for k, e in enriched.items() if p(k, e)]`
unfoldable pub keys_where : (String → EnrichedIoc → Bool) → Dict EnrichedIoc → List String
keys_where p [] = []
keys_where p ((k, e) ∷ d) = let rest = keys_where p d in if p k e then k ∷ rest else rest

abbrev pub key_order : String → String → Bool
key_order a b = is_le (compare a b)

unfoldable pub susp_unhunted : InvestigationState → List String
susp_unhunted state =
    sort key_order (
      keys_where (λ k e. is_suspicious e.verdict && not (is_in k state.hunted_keys)) state.enriched)

abbrev pub hunt_keys : String → List String → PlannedAction
hunt_keys reason ks = action "hunt_edr" reason (("ioc_keys", list ks) ∷ [])

-- 3. the suspicious IOCs that were not hunted
unfoldable pub gaps : List String → List Issue
gaps ks =
    if not (is_none ks)
    then issue "gap" (cat (decimal (length ks)) " suspicious IOC(s) were not hunted in EDR")
        (some (hunt_keys "reflection: hunt suspicious IOCs for on-host confirmation" ks))
      ∷ []
    else []

-- a malicious verdict on at most one source that no endpoint confirms
unfoldable pub is_unconfirmed : List String → EnrichedIoc → Bool
is_unconfirmed values e =
    is_malicious e.verdict
    && leb (length (keep (λ (s : SourceVerdict). is_malicious s.verdict) e.sources)) 1
    && not (is_in (lower e.ioc.value) values)

abbrev pub unverified_issue : List String → String → EnrichedIoc → Issue
unverified_issue hunted_keys k e =
    if not (is_in k hunted_keys)
    then issue "unverified"
        (cat e.ioc.value " is malicious on a single source with no on-host confirmation")
        (some (
          hunt_keys "reflection: independently verify a single-source malicious IOC in EDR"
            (k ∷ [])))
    else issue "unverified"
        (cat e.ioc.value
          " is malicious on a single source and EDR found no on-host activity — verdict rests on one feed")
        none

-- 4. the malicious verdicts on a single source
unfoldable pub unverified : List String → List String → Dict EnrichedIoc → List Issue
unverified values hunted_keys [] = []
unverified values hunted_keys ((k, e) ∷ d) =
    let rest = unverified values hunted_keys d in
    if is_unconfirmed values e then unverified_issue hunted_keys k e ∷ rest else rest

abbrev pub is_contradicted : EnrichedIoc → Bool
is_contradicted e =
    any (λ (s : SourceVerdict). is_malicious s.verdict) e.sources
    && any (λ (s : SourceVerdict). is_benign s.verdict) e.sources

-- 5. the indicators on which the sources disagree
unfoldable pub contradictions : Dict EnrichedIoc → List Issue
contradictions [] = []
contradictions ((k, e) ∷ d) =
    let rest = contradictions d in
    if is_contradicted e
    then issue "contradiction"
        (cat "sources disagree on "
          (cat e.ioc.value " (both malicious and benign verdicts returned)"))
        none
      ∷ rest
    else rest

-- `_analyze`
unfoldable pub analyze : InvestigationState → List Issue
analyze state =
    unenriched state
    ++ undetonated state.detonated (attachments state.email_msg)
    ++ gaps (susp_unhunted state)
    ++ unverified (edr_values state.edr_hits) state.hunted_keys state.enriched
    ++ contradictions state.enriched

abbrev pub action_key : PlannedAction → String
action_key a = dedup_key a.tool a.params

-- the loop of `suggest`
unfoldable pub suggest_from : List String → List Issue → List PlannedAction
suggest_from seen [] = []
suggest_from seen (i ∷ issues) =
    let skip = suggest_from seen issues in
    elim i.action [
      | none ↦ skip
      | some a ↦
          let rest = suggest_from (action_key a ∷ seen) issues in
          if not (is_in (action_key a) seen) then a ∷ rest else skip
    ]

unfoldable pub suggest : InvestigationState → List PlannedAction
suggest state = suggest_from [] (analyze state)

pub record ReflectionFinding : Type 0 where
  pub category : String
  pub detail : String
  pub action_recommended : String

abbrev pub tool_or_empty : Option PlannedAction → String
tool_or_empty none = ""
tool_or_empty (some a) = a.tool

abbrev pub finding : Issue → ReflectionFinding
finding i = record {
  category = i.category;
  detail = i.detail;
  action_recommended = tool_or_empty i.action;
}

unfoldable pub review : InvestigationState → List ReflectionFinding
review state = map finding (analyze state)
