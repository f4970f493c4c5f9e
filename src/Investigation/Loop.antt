-- ===== src/Investigation/Loop.antt =====
-- The loop of backend/app/agents/loop.py that collects evidence by plans in batches, and `run_tool`; the
-- registry of backend/app/agents/tools.py.
use Prim.Native.String.{◌++◌ as cat}
use ai_powered_security_inve.Base.{
  ℕ, zero, suc, ◌+◌, ◌-◌, String, Option, none, some, Bool, true, false, List, [], ◌∷◌, ◌++◌,
  if◌then◌else◌, length, take, ltb, eqb,
}
use ai_powered_security_inve.Base.Dict.{Dict, lookup, insert, contains}
use ai_powered_security_inve.Base.Exec.{Result, ok, err}
use ai_powered_security_inve.Planning.Json.{Params, Value, str, list}
use ai_powered_security_inve.Planning.Scheduler.{PlannedAction, Budget, Outcome}
use ai_powered_security_inve.Investigation.State.{InvestigationState}
use ai_powered_security_inve.Investigation.Tools.{
  Engines, Tool, is_none, run_detections, fetch_email_context, extract_iocs_tool, enrich_iocs,
  detonate_attachment, hunt_edr,
}

-- what a tool does at its n-th call with the parameters
abbrev pub ToolFn : Type 0
ToolFn = Engines → ℕ → Params → Tool

pub record ToolSpec : Type 0 where
  pub name : String
  pub description : String
  pub fn : ToolFn

abbrev pub ToolRegistry : Type 0
ToolRegistry = Dict ToolSpec

unfoldable pub register : String → String → ToolFn → ToolRegistry → Result String ToolRegistry
register name description fn registry =
    if contains name registry
    then err (cat "tool already registered: " name)
    else ok (insert name (record { name = name; description = description; fn = fn }) registry)

abbrev pub spec_or_unknown : String → Option ToolSpec → Result String ToolSpec
spec_or_unknown name none = err (cat "'unknown tool: " (cat name "'"))
spec_or_unknown name (some spec) = ok spec

-- `get`, its error as the text of the KeyError
unfoldable pub get : String → ToolRegistry → Result String ToolSpec
get name registry = spec_or_unknown name (lookup name registry)

-- a tool without parameters
abbrev pub without_params : String → (Engines → ℕ → Tool) → ToolFn
without_params name tool engines n [] = tool engines n
without_params name tool engines n (p ∷ ps) =
    λ state. (err (engines.type_error name (p ∷ ps)), state)

-- the parameters of the types that a tool declares
abbrev pub two_texts : Option Value → Option Value → Option (String × String)
two_texts (some (str a)) (some (str b)) = some (a, b)
two_texts (some (str a)) (some (list xs)) = none
two_texts (some (str a)) none = none
two_texts (some (list xs)) b = none
two_texts none b = none

abbrev pub detonate_with : Engines → ℕ → Params → Option (String × String) → Tool
detonate_with engines n params none state =
    (err (engines.type_error "detonate_attachment" params), state)
detonate_with engines n params (some (filename, sha256)) state =
    detonate_attachment engines n filename sha256 state

abbrev pub detonate_tool : ToolFn
detonate_tool engines n params = detonate_with engines n params (
    if eqb (length params) 2
    then two_texts (lookup "filename" params) (lookup "sha256" params)
    else none)

abbrev pub hunt_with : Engines → ℕ → Params → Option Value → Tool
hunt_with engines n params (some (list ioc_keys)) state = hunt_edr engines n ioc_keys state
hunt_with engines n params (some (str s)) state =
    (err (engines.type_error "hunt_edr" params), state)
hunt_with engines n params none state = (err (engines.type_error "hunt_edr" params), state)

abbrev pub hunt_tool : ToolFn
hunt_tool engines n params =
    hunt_with engines n params (if eqb (length params) 1 then lookup "ioc_keys" params else none)

abbrev pub spec : String → String → ToolFn → String × ToolSpec
spec name description fn = (name, record { name = name; description = description; fn = fn })

-- the registry that `Toolbox.__init__` fills
abbrev pub toolbox : ToolRegistry
toolbox =
    spec "run_detections" "Evaluate built-in + tenant detection rules against the alert"
      (without_params "run_detections" run_detections)
    ∷ spec "fetch_email_context"
        "Pull the reported email, campaign recipients, urls and attachments"
        (without_params "fetch_email_context" fetch_email_context)
    ∷ spec "extract_iocs" "Extract defanged/fanged IOCs from all gathered text plus source entities"
        (without_params "extract_iocs" extract_iocs_tool)
    ∷ spec "enrich_iocs" "Fan out pending IOCs to threat-intel connectors and fuse verdicts"
        (without_params "enrich_iocs" enrich_iocs)
    ∷ spec "detonate_attachment"
        "Detonate an email attachment in the sandbox; fold dropped IOCs back in" detonate_tool
    ∷ spec "hunt_edr" "Hunt IOCs across EDR telemetry to confirm on-host activity" hunt_tool
    ∷ []

-- the result of a tool, with the error noted in the state
abbrev pub observed :
    String → Result String String × InvestigationState → Outcome × InvestigationState
observed tool (ok outcome, state) = (record { success = true; text = outcome }, state)
observed tool (err e, state) = (
  record { success = false; text = cat "error: " e },
  record state { errors = state.errors ++ cat tool (cat ": " e) ∷ [] },
)

abbrev pub call_tool : Engines → ℕ → Params → Result String ToolSpec → Tool
call_tool engines n params (ok spec) state = spec.fn engines n params state
call_tool engines n params (err e) state = (err e, state)

unfoldable pub run_tool :
    Engines → ℕ → PlannedAction → InvestigationState → Outcome × InvestigationState
run_tool engines n action state =
    observed action.tool (call_tool engines n action.params (get action.tool toolbox) state)

-- the tools of one plan, each of which runs to its end before the next; the first has the number `n`
unfoldable pub run_tools :
    Engines → ℕ → List PlannedAction → InvestigationState → List Outcome × InvestigationState
run_tools engines n [] state = ([], state)
run_tools engines n (a ∷ actions) state =
    let first = run_tool engines n a state in
    let rest = run_tools engines (n + 1) actions first.1 in (first.0 ∷ rest.0, rest.1)

-- `AgentTraceStep`, without the times
pub record AgentTraceStep : Type 0 where
  pub step : ℕ
  pub iteration : ℕ
  pub phase : String
  pub action : String
  pub reason : String
  pub outcome : String
  pub success : Bool

-- the variables of `_collect_batch`, with the number of tests of the wall clock so far
pub record Collection : Type 0 where
  pub state : InvestigationState
  pub clock_tests : ℕ
  pub step_no : ℕ
  pub tool_calls : ℕ
  pub trace : List AgentTraceStep

pub record LoopSetting : Type 0 where
  pub engines : Engines
  pub next_actions : InvestigationState → List PlannedAction
  pub budget : Budget
  -- whether the n-th test of the wall clock finds it exhausted
  pub overtime : ℕ → Bool

abbrev pub stop_step : ℕ → ℕ → String → AgentTraceStep
stop_step step iteration reason = record {
  step = step;
  iteration = iteration;
  phase = "plan";
  action = "stop";
  reason = reason;
  outcome = "finalizing on partial evidence";
  success = false;
}

abbrev pub stopped : ℕ → String → Collection → Collection
stopped iteration reason c = record c {
  step_no = c.step_no + 1;
  trace = c.trace ++ stop_step (c.step_no + 1) iteration reason ∷ [];
}

-- the steps of one batch, numbered from behind `step`
unfoldable pub act_steps : ℕ → ℕ → List PlannedAction → List Outcome → List AgentTraceStep
act_steps step iteration [] results = []
act_steps step iteration (a ∷ actions) [] = []
act_steps step iteration (a ∷ actions) (r ∷ results) =
    record {
      step = step + 1;
      iteration = iteration;
      phase = "act";
      action = a.tool;
      reason = a.reason;
      outcome = r.text;
      success = r.success;
    }
    ∷ act_steps (step + 1) iteration actions results

module _ (set : LoopSetting) where
  -- the tools of a plan are run and traced
  unfoldable pub act : ℕ → List PlannedAction → Collection → Collection
  act iteration actions c =
      let (results, state) = run_tools set.engines c.tool_calls actions c.state in
      let steps = act_steps c.step_no iteration actions results in
      record c {
        state = state;
        tool_calls = c.tool_calls + length actions;
        step_no = c.step_no + length steps;
        trace = c.trace ++ steps;
      }

  -- how an iteration ends: the loop is left, or goes round
  abbrev pub within_calls : ℕ → List PlannedAction → Collection → Bool × Collection
  within_calls iteration actions c =
      if is_none actions
      then (false, stopped iteration "tool-call budget exhausted" c)
      else (true, act iteration actions c)

  abbrev pub with_plan : ℕ → List PlannedAction → Collection → Bool × Collection
  with_plan iteration actions c =
      if is_none actions
      then (false, c)
      else if ltb set.budget.max_tool_calls (c.tool_calls + length actions)
      then within_calls iteration (take (set.budget.max_tool_calls - c.tool_calls) actions) c
      else (true, act iteration actions c)

  unfoldable pub iteration_of : ℕ → Collection → Bool × Collection
  iteration_of iteration c =
      let tested = record c { clock_tests = c.clock_tests + 1 } in
      if set.overtime c.clock_tests
      then (false, stopped iteration "wall-clock budget exhausted" tested)
      else with_plan iteration (set.next_actions c.state) tested

  -- the iterations that are left
  unfoldable pub iterate : ℕ → ℕ → Collection → Collection
  iterate zero iteration c = c
  iterate (suc left) iteration c =
      let (again, after) = iteration_of iteration c in
      let rest = iterate left (iteration + 1) after in if again then rest else after

  unfoldable pub collect_batch : InvestigationState → Collection
  collect_batch state =
      iterate set.budget.max_iterations 1
        (record { state = state; clock_tests = 0; step_no = 0; tool_calls = 0; trace = [] })
