-- ===== src/Investigation/LoopTests.antt =====
-- A collection of the alert of the tests with a feed that calls everything malicious, and an endpoint that
-- cannot be asked.
use ai_powered_security_inve.Base.{
  String, false, List, [], ◌∷◌, ◌≡◌, refl, map, if◌then◌else◌, ◌==◌,
}
use ai_powered_security_inve.Base.Decimal.{decimal}
use ai_powered_security_inve.Base.Dict.{lookup, insert}
use ai_powered_security_inve.Base.Exec.{ok, err}
use ai_powered_security_inve.Base.Sort.{sort}
use ai_powered_security_inve.Base.Text.{lower, occurs_in, join}
use ai_powered_security_inve.Schemas.Common.{malicious}
use ai_powered_security_inve.Detection.Engine.{evaluate, evaluate_each, rules}
use ai_powered_security_inve.Detection.Fields.{flatten_alert, add_extra, stringify}
use ai_powered_security_inve.Investigation.State.{Ioc, EnrichedIoc, ioc_key, looks_like_phishing}
use ai_powered_security_inve.Investigation.Planner.{next_actions, first_batch}
use ai_powered_security_inve.Investigation.Iocs.{Moves}
use ai_powered_security_inve.Investigation.Tools.{
  Engines, run_detections, fetch_email_context, append_evidence_if,
}
use ai_powered_security_inve.Investigation.Loop.{
  LoopSetting, AgentTraceStep, Collection, collect_batch, iterate, iteration_of, act, act_steps,
  run_tools, run_tool, get,
}
use ai_powered_security_inve.Investigation.Bounded.{IsBounded, collect_batch-IsBounded}
use ai_powered_security_inve.Investigation.Collected.{collect_batch-Moves}
use ai_powered_security_inve.Investigation.Tests.{start, site, host, start-IsQueued}

abbrev found : String → List Ioc
found s = if s == "" then [] else site ∷ host ∷ []

abbrev verdict_of : Ioc → EnrichedIoc
verdict_of i = record { ioc = i; verdict = malicious; sources = [] }

abbrev engines : Engines
engines = record {
  search = λ pattern case_sensitive value. false;
  detection = [];
  tenant_rules = λ tenant. [];
  extract = found;
  enrich = λ n iocs. ok (map verdict_of iocs);
  detonate = λ n filename. err "no sandbox";
  hunt = λ n iocs. err "EDR down";
  get_message = λ n id. err "no such message";
  find_recipients = λ n id. ok [];
  put_json = λ tenant kind label payload. record {
    kind = kind;
    label = label;
    sha256 = "";
    uri = label;
    collected_at = 0;
  };
  now = λ n. n;
  repr = λ v. "";
  two_digits = decimal;
  half = 1;
  type_error = λ tool params. "unexpected arguments";
}

abbrev set : LoopSetting
set = record {
  engines = engines;
  next_actions = next_actions;
  budget = record { max_iterations = 8; max_tool_calls = 5 };
  overtime = λ n. false;
}

collect_batch-IsBounded_example : IsBounded set.budget (collect_batch set start)
collect_batch-IsBounded_example = collect_batch-IsBounded set start

collect_batch-Moves_example : Moves (ioc_key site) start (collect_batch set start).state
collect_batch-Moves_example = collect_batch-Moves (ioc_key site) set start start-IsQueued

abbrev tools_run : Collection → List String
tools_run c = map (λ (s : AgentTraceStep). s.action) c.trace

five_calls :
    tools_run (collect_batch set start)
    ≡ "run_detections" ∷ "fetch_email_context" ∷ "fetch_email_context" ∷ "fetch_email_context"
      ∷ "fetch_email_context" ∷ "stop" ∷ []
unfolding collect_batch iterate iteration_of act act_steps run_tools run_tool get run_detections
    fetch_email_context append_evidence_if next_actions first_batch looks_like_phishing occurs_in
    lower lookup insert decimal sort evaluate evaluate_each flatten_alert add_extra stringify join
    rules
five_calls = refl
