-- ===== src/Investigation/Tools.antt =====
-- `Toolbox` of backend/app/agents/tools.py: the tools, each of which writes the state and answers with an
-- observation or raises. What they ask of connectors, of the extraction and of the evidence store is an
-- argument; the n-th call of a tool may get another answer than the one before.
use Prim.Native.String.{◌++◌ as cat}
use ai_powered_security_inve.Base.{
  ℕ, ◌+◌, max, String, Option, none, some, Bool, true, false, not, ◌&&◌, List, [], ◌∷◌, ◌++◌, map,
  if◌then◌else◌, length, keep, ltb,
}
use ai_powered_security_inve.Base.Decimal.{decimal}
use ai_powered_security_inve.Base.Dict.{Dict, lookup, values}
use ai_powered_security_inve.Base.Exec.{Result, ok, err, Exec}
use ai_powered_security_inve.Base.Sets.{is_in, add}
use ai_powered_security_inve.Base.Text.{join, lower, occurs_in}
use ai_powered_security_inve.Schemas.Common.{
  Verdict, malicious, suspicious, benign, unknown, is_malicious, is_suspicious, severity_value,
}
use ai_powered_security_inve.Schemas.Alert.{Json, text, items, fields, scalar, Alert}
use ai_powered_security_inve.Schemas.Findings.{DetectionMatch, TimelineEvent, Evidence}
use ai_powered_security_inve.Detection.Rules.{DetectionRule, Search}
use ai_powered_security_inve.Detection.Engine.{DetectionEngine, evaluate, rules}
use ai_powered_security_inve.Planning.Json.{Params}
use ai_powered_security_inve.Investigation.State.{
  Ioc, EnrichedIoc, EdrHit, EmailMessage, InvestigationState, ioc_key, add_iocs, record_enrichment,
}

-- `SandboxReport` of backend/app/engines/sandbox/base.py
pub record SandboxReport : Type 0 where
  pub malscore : ℕ
  pub signatures : List String
  pub dropped_iocs : List Ioc
  pub persistence : List String

-- what `put_json` stores
pub data Payload : Type 0 where
  of_detections : List DetectionMatch → Payload
  of_email : EmailMessage → Payload
  of_enrichment : EnrichedIoc → Payload
  of_report : SandboxReport → Payload
  of_hits : List EdrHit → Payload

pub record Engines : Type 0 where
  pub search : Search
  pub detection : DetectionEngine
  pub tenant_rules : String → List DetectionRule
  pub extract : String → List Ioc
  pub enrich : ℕ → List Ioc → Result String (List EnrichedIoc)
  pub detonate : ℕ → String → Result String SandboxReport
  pub hunt : ℕ → List Ioc → Result String (List EdrHit)
  pub get_message : ℕ → String → Result String EmailMessage
  pub find_recipients : ℕ → String → Result String (List String)
  -- tenant, kind and label
  pub put_json : String → String → String → Payload → Evidence
  pub now : ℕ → ℕ
  -- `str` of a list or a dict, and `f"{malscore:.2f}"`
  pub repr : Json → String
  pub two_digits : ℕ → String
  -- 0.5 in the unit of the scores
  pub half : ℕ
  -- the text of the TypeError of a call with other parameters than the tool has
  pub type_error : String → Params → String

abbrev pub Tool : Type 0
Tool = Exec InvestigationState String String

abbrev pub append_evidence : Evidence → InvestigationState → InvestigationState
append_evidence e state = record state { evidence = state.evidence ++ e ∷ [] }

abbrev pub append_group : List TimelineEvent → InvestigationState → InvestigationState
append_group group state = record state { timeline_groups = state.timeline_groups ++ group ∷ [] }

-- the two appends under a condition
unfoldable pub append_evidence_if : Bool → Evidence → InvestigationState → InvestigationState
append_evidence_if c e state = if c then append_evidence e state else state

unfoldable pub append_group_if : Bool → List TimelineEvent → InvestigationState → InvestigationState
append_group_if c group state = if c then append_group group state else state

abbrev pub is_none : {A : Type 0} → List A → Bool
is_none [] = true
is_none (_ ∷ _) = false

-- `xs |= set(ys)`
abbrev pub add_all : List String → List String → List String
add_all [] xs = xs
add_all (y ∷ ys) xs = add_all ys (add y xs)

-- what follows on a connector's answer
abbrev pub on_answer : {A : Type 0} → (A → Tool) → Result String A → Tool
on_answer next (ok a) state = next a state
on_answer next (err e) state = (err e, state)

-- `str(value)`
abbrev pub str_value : (Json → String) → Json → String
str_value repr (text s) = s
str_value repr (items xs) = repr (items xs)
str_value repr (fields fs) = repr (fields fs)
str_value repr (scalar s b) = s

abbrev pub str_or : (Json → String) → String → Option Json → String
str_or repr default none = default
str_or repr default (some v) = str_value repr v

-- the first severity, of matches with the worst first
abbrev pub worst : List DetectionMatch → String
worst [] = "none"
worst (m ∷ _) = severity_value m.severity

-- the loop of `_merge_source_entities` over what an address holds
unfoldable pub merge_iocs : List Ioc → List Ioc → List String → List Ioc × List String
merge_iocs [] iocs have = (iocs, have)
merge_iocs (c ∷ cs) iocs have =
    let skipped = merge_iocs cs iocs have in
    let taken = merge_iocs cs (iocs ++ c ∷ []) (add (ioc_key c) have) in
    if not (is_in (ioc_key c) have) then taken else skipped

unfoldable pub merge_ips :
    (String → List Ioc) → List String → List Ioc × List String → List Ioc × List String
merge_ips extract [] merged = merged
merge_ips extract (ip ∷ ips) (iocs, have) =
    merge_ips extract ips (merge_iocs (extract ip) iocs have)

abbrev pub email_ioc : String → Ioc
email_ioc user = record { ioc_type = "email"; value = lower user }

unfoldable pub merge_users : List String → List Ioc × List String → List Ioc
merge_users [] (iocs, have) = iocs
merge_users (user ∷ users) (iocs, have) =
    let skipped = merge_users users (iocs, have) in
    let key = cat "email:" (lower user) in
    let taken = merge_users users (iocs ++ email_ioc user ∷ [], add key have) in
    if occurs_in "@" user && not (is_in key have) then taken else skipped

-- `_merge_source_entities`
unfoldable pub merge_source_entities : (String → List Ioc) → List Ioc → Alert → List Ioc
merge_source_entities extract iocs alert =
    merge_users alert.users
      (merge_ips extract (alert.src_ips ++ alert.dst_ips) (iocs, add_all (map ioc_key iocs) []))

-- `[state.enriched[k].ioc for k in ioc_keys if k in state.enriched]`
unfoldable pub targets_of : List String → Dict EnrichedIoc → List Ioc
targets_of [] enriched = []
targets_of (k ∷ ks) enriched =
    let rest = targets_of ks enriched in
    elim (lookup k enriched) [ none ↦ rest | some e ↦ e.ioc ∷ rest ]

abbrev pub is_unknown : Verdict → Bool
is_unknown unknown = true
is_unknown malicious = false
is_unknown suspicious = false
is_unknown benign = false

-- `sorted({h.host for h in hits})`, as a set
abbrev pub hosts_of : List EdrHit → List String
hosts_of hits = add_all (map (λ (h : EdrHit). h.host) hits) []

module _ (engines : Engines) (n : ℕ) where
  unfoldable pub run_detections : Tool
  run_detections state =
      let tenant_rules = engines.tenant_rules state.tenant in
      let found = evaluate engines.search engines.detection state.alert tenant_rules in
      let noted = record state {
        detections = found;
        detections_ran = true;
        signals = state.signals ++ map (λ (m : DetectionMatch). m.title) found;
      } in
      let evidence =
        engines.put_json state.tenant "detection_matches" "detections" (of_detections found) in
      (
        ok (
            cat (decimal (length found)) (
              cat " rule(s) fired (worst severity: " (
                cat (worst found) (
                  cat ") out of " (
                    cat (decimal (length (rules engines.detection) + length tenant_rules))
                      " evaluated"))))),
        append_evidence_if (not (is_none found)) evidence noted,
      )

  abbrev pub with_recipients : EmailMessage → List String → Tool
  with_recipients msg recipients state =
      let noted =
        append_group
          (record {
            timestamp = msg.received_at;
            actor = some msg.sender;
            action = "Email delivered";
            detail = some msg.subject;
            source = some "email";
          }
            ∷ [])
          (record state {
            affected_users = add_all state.alert.users (add_all recipients state.affected_users);
          }) in
      let kept =
        append_evidence
          (engines.put_json state.tenant "email_artifact" "original_email" (of_email msg)) noted in
      (
        ok (
            cat "email '" (
              cat msg.subject (
                cat "' from " (
                  cat msg.sender (
                    cat ": " (
                      cat (decimal (length recipients)) (
                        cat " recipients, " (
                          cat (decimal (length msg.urls)) (
                            cat " urls, "
                              (cat (decimal (length msg.attachments)) " attachments")))))))))),
        record kept { extracted = false },
      )

  abbrev pub with_message : String → EmailMessage → Tool
  with_message msg_id msg state =
      on_answer (with_recipients msg) (engines.find_recipients n msg_id) (record state {
        email_msg = some msg;
        email_checked = true;
        text_corpus =
            cat state.text_corpus (cat "\n" (cat msg.body (cat "\n" (join "\n" msg.urls))));
      })

  unfoldable pub fetch_email_context : Tool
  fetch_email_context state =
      let msg_id =
        str_or engines.repr state.alert.source_alert_id (lookup "message_id" state.alert.extra) in
      on_answer (with_message msg_id) (engines.get_message n msg_id) state

  unfoldable pub extract_iocs_tool : Tool
  extract_iocs_tool state =
      let iocs =
        merge_source_entities engines.extract (engines.extract state.text_corpus) state.alert in
      let (after, new) = add_iocs iocs state in
      (
        ok (cat (decimal (length iocs)) (cat " IOCs in corpus, " (cat (decimal new) " new"))),
        record after { extracted = true },
      )

  -- the evidence of the verdicts that are known
  abbrev pub keep_verdicts : List EnrichedIoc → InvestigationState → InvestigationState
  keep_verdicts [] state = state
  keep_verdicts (e ∷ results) state = keep_verdicts results (
      append_evidence_if (not (is_unknown e.verdict))
        (engines.put_json state.tenant "ti_result" (cat "ti:" e.ioc.value) (of_enrichment e)) state)

  abbrev pub with_results : List EnrichedIoc → Tool
  with_results results state = (
    ok (
        cat "enriched " (
          cat (decimal (length results)) (
            cat " IOCs: " (
              cat (decimal (length (keep (λ (e : EnrichedIoc). is_malicious e.verdict) results))) (
                cat " malicious, " (
                  cat
                    (decimal (length (keep (λ (e : EnrichedIoc). is_suspicious e.verdict) results)))
                    " suspicious")))))),
    keep_verdicts results (record_enrichment results state),
  )

  unfoldable pub enrich_iocs : Tool
  enrich_iocs state =
      let batch = values state.pending_iocs in
      if is_none batch
      then (ok "nothing pending", state)
      else on_answer with_results (engines.enrich n batch) state

  abbrev pub detonated_event : String → TimelineEvent
  detonated_event filename = record {
    timestamp = engines.now n;
    actor = none;
    action = "Attachment detonated: malicious";
    detail = some filename;
    source = some "sandbox";
  }

  abbrev pub with_report : String → String → SandboxReport → Tool
  with_report filename sha256 report state =
      let noted = record state {
        detonated = add sha256 state.detonated;
        sandbox_malscore = max state.sandbox_malscore report.malscore;
        signals = (state.signals ++ report.signatures) ++ report.persistence;
      } in
      let (queued, new) = add_iocs report.dropped_iocs noted in
      let kept =
        append_evidence (engines.put_json state.tenant "sandbox_report" filename (of_report report))
          queued in
      (
        ok (
            cat filename (
              cat ": malscore=" (
                cat (engines.two_digits report.malscore) (
                  cat ", " (
                    cat (decimal (length report.signatures))
                      (cat " signatures, " (cat (decimal new) " new dropped IOCs"))))))),
        append_group_if (ltb engines.half report.malscore) (detonated_event filename ∷ []) kept,
      )

  unfoldable pub detonate_attachment : String → String → Tool
  detonate_attachment filename sha256 state =
      on_answer (with_report filename sha256) (engines.detonate n filename) state

  abbrev pub hit_event : EdrHit → TimelineEvent
  hit_event h = record {
    timestamp = h.observed_at;
    actor = h.user;
    action = "IOC observed on host";
    detail = some (cat h.host (cat ": " h.ioc.value));
    source = some "edr";
  }

  abbrev pub with_hits : List String → ℕ → List EdrHit → Tool
  with_hits ioc_keys targets hits state =
      let noted = record state {
        hunted_keys = add_all ioc_keys state.hunted_keys;
        edr_hits = state.edr_hits ++ hits;
      } in
      let kept =
        append_evidence_if (not (is_none hits))
          (engines.put_json state.tenant "edr_telemetry" "edr_hits" (of_hits hits)) noted in
      (
        ok (
            cat "hunted " (
              cat (decimal targets) (
                cat " IOCs: " (
                  cat (decimal (length hits))
                    (cat " hits on " (cat (decimal (length (hosts_of hits))) " hosts")))))),
        append_group_if (not (is_none hits)) (map hit_event hits) kept,
      )

  unfoldable pub hunt_edr : List String → Tool
  hunt_edr ioc_keys state =
      let targets = targets_of ioc_keys state.enriched in
      if is_none targets
      then (ok "no hunt targets", state)
      else on_answer (with_hits ioc_keys (length targets)) (engines.hunt n targets) state
