-- ===== src/Investigation/State.antt =====
-- `InvestigationState` of backend/app/agents/state.py and its methods, with what it holds:
-- backend/app/schemas/ioc.py, backend/app/engines/edr/base.py and
-- backend/app/engines/email_investigation/base.py. A set is a list of its elements.
use Prim.Native.String.{◌++◌ as cat}
use ai_powered_security_inve.Base.{
  ℕ, ◌+◌, String, Option, Bool, not, ◌&&◌, ◌||◌, List, [], ◌∷◌, if◌then◌else◌,
}
use ai_powered_security_inve.Base.Dict.{lookup, Dict, insert, erase, contains}
use ai_powered_security_inve.Base.Sets.{is_in}
use ai_powered_security_inve.Base.Text.{lower, occurs_in}
use ai_powered_security_inve.Schemas.Common.{Verdict, is_malicious}
use ai_powered_security_inve.Schemas.Findings.{DetectionMatch, TimelineEvent, Evidence}
use ai_powered_security_inve.Schemas.Alert.{Alert, is_given}

-- `IOC`, the type by its value
pub record Ioc : Type 0 where
  pub ioc_type : String
  pub value : String

-- `SourceVerdict` and `EnrichedIOC`, without the scores
pub record SourceVerdict : Type 0 where
  pub source : String
  pub verdict : Verdict

pub record EnrichedIoc : Type 0 where
  pub ioc : Ioc
  pub verdict : Verdict
  pub sources : List SourceVerdict

-- `EDRHit` of backend/app/engines/edr/base.py
pub record EdrHit : Type 0 where
  pub ioc : Ioc
  pub host : String
  pub user : Option String
  pub process : Option String
  pub observed_at : ℕ
  pub detail : String

-- `IOC.key`
unfoldable pub ioc_key : Ioc → String
ioc_key i = cat i.ioc_type (cat ":" (lower i.value))

pub record EmailAttachment : Type 0 where
  pub filename : String
  pub sha256 : String
  pub content_type : String

pub record EmailMessage : Type 0 where
  pub message_id : String
  pub subject : String
  pub sender : String
  pub recipients : List String
  pub received_at : ℕ
  pub body : String
  pub urls : List String
  pub attachments : List EmailAttachment

pub record InvestigationState : Type 0 where
  pub tenant : String
  pub alert : Alert
  pub text_corpus : String
  pub detections_ran : Bool
  pub detections : List DetectionMatch
  pub email_msg : Option EmailMessage
  pub email_checked : Bool
  pub affected_users : List String
  pub extracted : Bool
  pub pending_iocs : Dict Ioc
  pub enriched : Dict EnrichedIoc
  pub hunted_keys : List String
  pub detonated : List String
  -- a float in [0, 1], as the multiple of the least positive one that it is
  pub sandbox_malscore : ℕ
  pub edr_hits : List EdrHit
  pub signals : List String
  pub timeline_groups : List (List TimelineEvent)
  pub evidence : List Evidence
  pub errors : List String

abbrev pub is_known : String → InvestigationState → Bool
is_known key state = contains key state.enriched || contains key state.pending_iocs

-- the loop of `add_iocs`
unfoldable pub add_from : List Ioc → InvestigationState → ℕ → InvestigationState × ℕ
add_from [] state new = (state, new)
add_from (ioc ∷ iocs) state new =
    let skipped = add_from iocs state new in
    let queued =
      add_from iocs (record state { pending_iocs = insert (ioc_key ioc) ioc state.pending_iocs })
        (new + 1) in
    if is_known (ioc_key ioc) state then skipped else queued

unfoldable pub add_iocs : List Ioc → InvestigationState → InvestigationState × ℕ
add_iocs iocs state = add_from iocs state 0

-- one round of the loop of `record_enrichment`
abbrev pub record_one : EnrichedIoc → InvestigationState → InvestigationState
record_one e state = record state {
  enriched = insert (ioc_key e.ioc) e state.enriched;
  pending_iocs = erase (ioc_key e.ioc) state.pending_iocs;
}

unfoldable pub record_enrichment : List EnrichedIoc → InvestigationState → InvestigationState
record_enrichment [] state = state
record_enrichment (e ∷ results) state = record_enrichment results (record_one e state)

-- `[e for key, e in enriched.items() if p(key, e)]`
abbrev pub items_where : (String → EnrichedIoc → Bool) → Dict EnrichedIoc → List EnrichedIoc
items_where p [] = []
items_where p ((key, e) ∷ d) = if p key e then e ∷ items_where p d else items_where p d

unfoldable pub malicious_unhunted : InvestigationState → List EnrichedIoc
malicious_unhunted state =
    items_where (λ key e. is_malicious e.verdict && not (is_in key state.hunted_keys))
      state.enriched

unfoldable pub unhunted : InvestigationState → List EnrichedIoc
unhunted state = items_where (λ key e. not (is_in key state.hunted_keys)) state.enriched

unfoldable pub looks_like_phishing : InvestigationState → Bool
looks_like_phishing state =
    occurs_in "phish" (lower (cat state.alert.title (cat " " state.alert.description)))
    || is_given (lookup "message_id" state.alert.extra)
