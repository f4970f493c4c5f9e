-- ===== src/Investigation/Planner.antt =====
-- `Planner.next_actions` of backend/app/agents/planner.py.
use Prim.Native.String.{◌++◌ as cat}
use ai_powered_security_inve.Base.{
  ℕ, String, Option, none, some, Bool, true, false, not, ◌&&◌, List, [], ◌∷◌, ◌++◌, map,
  if◌then◌else◌, length,
}
use ai_powered_security_inve.Base.Decimal.{decimal}
use ai_powered_security_inve.Planning.Json.{Params, str, list}
use ai_powered_security_inve.Planning.Scheduler.{PlannedAction}
use ai_powered_security_inve.Base.Sets.{is_in}
use ai_powered_security_inve.Investigation.State.{
  EnrichedIoc, EmailAttachment, EmailMessage, InvestigationState, ioc_key, malicious_unhunted,
  unhunted, looks_like_phishing,
}

abbrev pub action : String → String → Params → PlannedAction
action tool reason params = record { tool = tool; reason = reason; params = params }

abbrev pub when : Bool → PlannedAction → List PlannedAction
when b a = if b then a ∷ [] else []

abbrev pub run_detections : PlannedAction
run_detections =
    action "run_detections"
      "Evaluate detection rules against the raw alert so behavioral matches steer MITRE mapping and risk from the start"
      []

abbrev pub fetch_email_context : PlannedAction
fetch_email_context =
    action "fetch_email_context"
      "Alert references a reported email; pull the message, campaign recipients and attachments before extracting IOCs"
      []

abbrev pub extract_iocs : PlannedAction
extract_iocs =
    action "extract_iocs"
      "Corpus changed since last extraction; find fanged and defanged IOCs plus SIEM-provided entities"
      []

abbrev pub enrich_iocs : ℕ → PlannedAction
enrich_iocs n = action "enrich_iocs" (cat (decimal n) " IOCs lack threat-intel verdicts") []

abbrev pub detonate : EmailAttachment → PlannedAction
detonate att =
    action "detonate_attachment"
      (cat "Attachment "
        (cat att.filename " is undetonated; sandbox verdict and dropped IOCs feed the hunt"))
      (("filename", str att.filename) ∷ ("sha256", str att.sha256) ∷ [])

abbrev pub hunt : String → List EnrichedIoc → PlannedAction
hunt reason es =
    action "hunt_edr" reason (("ioc_keys", list (map (λ (e : EnrichedIoc). ioc_key e.ioc) es)) ∷ [])

-- the first phase
unfoldable pub first_batch : InvestigationState → List PlannedAction
first_batch state =
    when (not state.detections_ran) run_detections
    ++ when (looks_like_phishing state && not state.email_checked) fetch_email_context

abbrev pub is_none : {A : Type 0} → List A → Bool
is_none [] = true
is_none (_ ∷ _) = false

-- `for att in state.email_msg.attachments`
abbrev pub detonations : List String → List EmailAttachment → List PlannedAction
detonations detonated [] = []
detonations detonated (att ∷ atts) =
    if not (is_in att.sha256 detonated)
    then detonate att ∷ detonations detonated atts
    else detonations detonated atts

abbrev pub attachments : Option EmailMessage → List EmailAttachment
attachments none = []
attachments (some msg) = msg.attachments

-- the second phase
unfoldable pub collections : InvestigationState → List PlannedAction
collections state =
    when (not (is_none state.pending_iocs)) (enrich_iocs (length state.pending_iocs))
    ++ detonations state.detonated (attachments state.email_msg)

-- the third phase
unfoldable pub hunts : InvestigationState → List PlannedAction
hunts state =
    let bad = malicious_unhunted state in
    let left = unhunted state in
    if not (is_none bad)
    then hunt
        (cat (decimal (length bad))
          " malicious IOCs not yet hunted in EDR; confirm whether any host touched them")
        bad
      ∷ []
    else if is_none state.hunted_keys && not (is_none left)
    then hunt
        "No IOC is TI-confirmed malicious; hunt the full set once since on-host sightings outrank feed silence"
        left
      ∷ []
    else []

unfoldable pub next_actions : InvestigationState → List PlannedAction
next_actions state =
    if not (is_none (first_batch state))
    then first_batch state
    else if not state.extracted
    then extract_iocs ∷ []
    else if is_none (collections state)
    then hunts state
    else collections state
