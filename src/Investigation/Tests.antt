-- ===== src/Investigation/Tests.antt =====
-- An investigation of a phishing alert, from its first plan on.
use ai_powered_security_inve.Base.{
  String, ◌≡◌, refl, none, true, false, not, ◌&&◌, ◌||◌, List, [], ◌∷◌, map, any, all,
}
use ai_powered_security_inve.Base.Dict.{lookup}
use ai_powered_security_inve.Base.Sets.{is_in}
use ai_powered_security_inve.Base.Sort.{sort}
use ai_powered_security_inve.Base.Decimal.{decimal}
use ai_powered_security_inve.Planning.Json.{dumps}
use ai_powered_security_inve.Planning.Task.{dedup_key}
use ai_powered_security_inve.Planning.Scheduler.{PlannedAction}
use ai_powered_security_inve.Base.Text.{lower, occurs_in}
use ai_powered_security_inve.Investigation.State.{
  InvestigationState, EmailAttachment, Ioc, looks_like_phishing,
}
use ai_powered_security_inve.Schemas.Common.{malicious, suspicious, medium}
use ai_powered_security_inve.Investigation.Planner.{attachments, next_actions, first_batch, is_none}
use ai_powered_security_inve.Investigation.Iocs.{IsQueued, Step, discovered, enriched, steps}
use ai_powered_security_inve.Investigation.Reflection.{
  suggest, suggest_from, analyze, unenriched, undetonated, susp_unhunted, keys_where, gaps,
  unverified, is_unconfirmed, contradictions, action_key,
}
use ai_powered_security_inve.Investigation.Settled.{
  is_settled, is_distinct, action_keys, suggest_none, suggest_distinct,
}
use ai_powered_security_inve.Investigation.Convergence.{
  is_collected, is_hunted, is_hunt, next_actions_none, hunt_last,
}

abbrev pub start : InvestigationState
start = record {
  tenant = "acme";
  text_corpus = "";
  detections = [];
  affected_users = [];
  sandbox_malscore = 0;
  signals = [];
  timeline_groups = [];
  evidence = [];
  errors = [];
  alert = record {
    source = "generic";
    source_alert_id = "A-1";
    title = "Reported Phishing";
    description = "";
    severity = medium;
    src_ips = [];
    dst_ips = [];
    users = [];
    hosts = [];
    raw_text = "";
    extra = [];
  };
  detections_ran = false;
  email_msg = none;
  email_checked = false;
  extracted = false;
  pending_iocs = [];
  enriched = [];
  hunted_keys = [];
  detonated = [];
  edr_hits = [];
}

abbrev pub site : Ioc
site = record { ioc_type = "domain"; value = "Evil.example" }

abbrev pub host : Ioc
host = record { ioc_type = "ipv4"; value = "10.0.0.1" }

pub start-IsQueued : IsQueued start
unfolding lookup
start-IsQueued = record { unique = tt; apart = λ key. refl }

abbrev tool_of : PlannedAction → String
tool_of a = a.tool

first_plan : map tool_of (next_actions start) ≡ "run_detections" ∷ "fetch_email_context" ∷ []
unfolding next_actions first_batch looks_like_phishing occurs_in lower
first_plan = refl

abbrev found : List Step
found =
    discovered (site ∷ host ∷ site ∷ [])
    ∷ enriched (
        record {
          ioc = site;
          verdict = malicious;
          sources = record { source = "otx"; verdict = malicious } ∷ [];
        }
        ∷ [])
    ∷ discovered (site ∷ [])
    ∷ []

next_actions_none_example :
    is_none (next_actions (steps found start))
    ≡ (is_collected (steps found start) && is_hunted (steps found start))
next_actions_none_example = next_actions_none (steps found start)

hunt_last_example :
    (not (any is_hunt (next_actions (steps found start))) || is_collected (steps found start))
    ≡ true
hunt_last_example = hunt_last (steps found start)

-- a suspicious address and a domain that one source calls malicious
abbrev doubts : InvestigationState
doubts = record start {
  enriched =
      ("ipv4:10.0.0.1", record { ioc = host; verdict = suspicious; sources = [] })
      ∷ (
        "domain:evil.example",
        record {
          ioc = site;
          verdict = malicious;
          sources = record { source = "otx"; verdict = malicious } ∷ [];
        },
      )
      ∷ [];
}

two_hunts : map tool_of (suggest doubts) ≡ "hunt_edr" ∷ "hunt_edr" ∷ []
unfolding suggest suggest_from analyze unenriched undetonated susp_unhunted keys_where gaps
    unverified is_unconfirmed contradictions sort lower dedup_key dumps decimal
two_hunts = refl

suggest_none_example : is_none (suggest doubts) ≡ (
    is_none doubts.pending_iocs
    && (all
          (λ (att : EmailAttachment). is_in att.sha256 doubts.detonated)
          (attachments doubts.email_msg)
        && all (is_settled doubts.edr_hits doubts.hunted_keys) doubts.enriched))
suggest_none_example = suggest_none doubts

suggest_distinct_example :
    (is_distinct (map action_key (suggest doubts)) ≡ true)
    × (is_in "enrich_iocs:{}" (map action_key (suggest doubts))
        ≡ is_in "enrich_iocs:{}" (action_keys (analyze doubts)))
suggest_distinct_example = suggest_distinct "enrich_iocs:{}" doubts
