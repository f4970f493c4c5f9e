-- ===== src/Planning/Scheduler.antt =====
-- `PlanningEngine` of backend/app/agents/planning/engine.py and `PriorityScheduler` of
-- backend/app/agents/planning/scheduler.py, over any investigation state `S`.
--
-- What the scheduler is given is a record: the planner, the executor, the reflection engine and the
-- clock's verdict. `asyncio.gather` returns one result for each awaitable in order, so the results
-- of a batch are a function of the position; how the calls of a batch interleave on the state is up
-- to the executor.
use ai_powered_security_inve.Base.{
  ℕ, zero, suc, ◌+◌, ◌-◌, String, Option, none, some, Bool, true, false, List, [], ◌∷◌, map,
  if◌then◌else◌, eqb, ltb, leb, keep, length, take,
}
use ai_powered_security_inve.Planning.Json.{Params}
use ai_powered_security_inve.Planning.Task.{
  Task, pending, running, done, failed, key, default_priority,
}
use ai_powered_security_inve.Planning.Graph.{TaskGraph, new_graph, has_key, add, ready, update}

-- `PlannedAction` of backend/app/agents/planner.py
pub record PlannedAction : Type 0 where
  pub tool : String
  pub reason : String
  pub params : Params

-- `Budget` of backend/app/agents/planner.py, less the wall clock
pub record Budget : Type 0 where
  pub max_iterations : ℕ
  pub max_tool_calls : ℕ

-- the first two fields of what an execution returns
pub record Outcome : Type 0 where
  pub success : Bool
  pub text : String

pub record Setting (S : Type 0) : Type 0 where
  pub next_actions : S → List PlannedAction
  pub execute : S → List (String × Params) → S × (ℕ → Outcome)
  pub reflect : Option (S → List PlannedAction)
  -- whether the n-th test of the wall clock finds it exhausted
  pub overtime : ℕ → Bool
  pub budget : Budget
  pub max_reflection_rounds : ℕ

-- the variables of `run`, with the number of tests of the wall clock so far
pub record Run (S : Type 0) : Type 0 where
  pub state : S
  pub graph : TaskGraph
  pub clock_tests : ℕ
  pub wave : ℕ
  pub tool_calls : ℕ

-- the task that `expand` and `run` make of an action
abbrev pub task_of : PlannedAction → List ℕ → ℕ → Task
task_of a prior wave = record {
  id = 0;
  tool = a.tool;
  reason = a.reason;
  params = a.params;
  priority = default_priority a.tool;
  depends_on = prior;
  status = pending;
  attempts = 0;
  max_attempts = 2;
  wave = wave;
  outcome = "";
  success = true;
}

abbrev pub task_id : Task → ℕ
task_id t = t.id

-- `{t.id for t in graph.all() if t.wave == wave - 1}`
abbrev pub wave_before : ℕ → TaskGraph → List ℕ
wave_before wave g = map task_id (keep (λ t. eqb (t.wave + 1) wave) g.tasks)

-- the loop of `expand`: the graph, and how many tasks were new
unfoldable pub expand_with : List ℕ → ℕ → List PlannedAction → TaskGraph → ℕ → TaskGraph × ℕ
expand_with prior wave [] g added = (g, added)
expand_with prior wave (a ∷ rest) g added =
    let skipped = expand_with prior wave rest g added in
    let taken = expand_with prior wave rest (add (task_of a prior wave) g).0 (added + 1) in
    if has_key (key (task_of a prior wave)) g then skipped else taken

-- `PlanningEngine.expand`
unfoldable pub expand : List PlannedAction → TaskGraph → ℕ → TaskGraph × ℕ
expand proposed g wave = expand_with (wave_before wave g) wave proposed g 0

-- `t.status = TaskStatus.RUNNING; t.attempts += 1`
abbrev pub start : Task → Task
start t = record t { status = running; attempts = t.attempts + 1 }

-- what the outcome of an execution does to its task
abbrev pub finish : Outcome → Task → Task
finish o t = record t {
  outcome = o.text;
  success = o.success;
  status = if o.success then done else if ltb t.attempts t.max_attempts then pending else failed;
}

unfoldable pub start_all : List Task → List Task → List Task
start_all [] ts = ts
start_all (t ∷ batch) ts = start_all batch (update t.id start ts)

unfoldable pub finish_all : (ℕ → Outcome) → ℕ → List Task → List Task → List Task
finish_all results n [] ts = ts
finish_all results n (t ∷ batch) ts =
    finish_all results (n + 1) batch (update t.id (finish (results n)) ts)

-- the graph gets every proposed action as a task, behind all the tasks that there are
unfoldable pub inject_with : List ℕ → ℕ → List PlannedAction → TaskGraph → TaskGraph
inject_with prior wave [] g = g
inject_with prior wave (a ∷ rest) g = inject_with prior wave rest (add (task_of a prior wave) g).0

abbrev pub inject : List PlannedAction → TaskGraph → ℕ → TaskGraph
inject extra g wave = inject_with (map task_id g.tasks) wave extra g

-- how a turn of `_drain` ends: it returns with `budget_hit`, or goes round
pub data Turn (S : Type 0) : Type 0 where
  leave : Bool → Run S → Turn S
  again : Run S → Turn S

abbrev pub is_empty : List Task → Bool
is_empty [] = true
is_empty (_ ∷ _) = false

module _ {S : Type 0} (set : Setting S) where
  -- the execution of one batch
  unfoldable pub run_batch : List Task → Run S → Run S
  run_batch batch r =
      let started = start_all batch r.graph.tasks in
      let (state, results) = set.execute r.state (map (λ t. (t.tool, t.params)) batch) in
      record r {
        state = state;
        graph = record { tasks = finish_all results 0 batch started; counter = r.graph.counter };
        wave = r.wave + 1;
        tool_calls = r.tool_calls + length batch;
      }

  -- a turn of `_drain` from the ready tasks on
  unfoldable pub dispatch : List Task → Run S → Turn S
  dispatch batch r =
      if is_empty batch
      then leave false r
      else if leb set.budget.max_tool_calls r.tool_calls
      then leave true r
      else again (run_batch (take (set.budget.max_tool_calls - r.tool_calls) batch) r)

  -- the graph after `expand`
  abbrev pub expanded : Run S → Run S
  expanded r = record r { graph = (expand (set.next_actions r.state) r.graph (r.wave + 1)).0 }

  -- the body of the loop of `_drain`
  unfoldable pub turn : Run S → Turn S
  turn r =
      let r' = record r { clock_tests = r.clock_tests + 1 } in
      if set.overtime r.clock_tests
      then leave true r'
      else dispatch (ready (expanded r').graph) (expanded r')

  -- `_drain` with the iterations that are left, so that `wave` has reached the cap at zero
  unfoldable pub drain_left : ℕ → Run S → Run S × Bool
  drain_left zero r = (r, true)
  drain_left (suc left) r = elim (turn r) [
    | leave hit r' ↦ (r', hit)
    | again r' ↦ drain_left left r'
  ]

  abbrev pub drain : Run S → Run S × Bool
  drain r = drain_left (set.budget.max_iterations - r.wave) r

  -- `self._reflect(state)`, empty where there is no reflection engine
  abbrev pub proposals : Option (S → List PlannedAction) → S → List PlannedAction
  proposals none s = []
  proposals (some f) s = f s

  -- the loop of `run` with the reflection rounds that are left and the number of those made
  unfoldable pub run_rounds : ℕ → ℕ → Run S → Run S × ℕ
  run_rounds zero made r = ((drain r).0, made)
  run_rounds (suc left) made r =
      let (r', hit) = drain r in
      elim hit [
        | true ↦ (r', made)
        | false ↦ elim (proposals set.reflect r'.state) [
          | [] ↦ (r', made)
          | a ∷ more ↦
              run_rounds left (made + 1)
                (record r' { graph = inject (a ∷ more) r'.graph (r'.wave + 1) })
        ]
      ]

  -- the variables of `run` before the loop
  abbrev pub start_of : S → Run S
  start_of state = record {
    state = state;
    graph = new_graph;
    clock_tests = 0;
    wave = 0;
    tool_calls = 0;
  }

  -- `PriorityScheduler.run`
  unfoldable pub run : S → Run S × ℕ
  run state = run_rounds set.max_reflection_rounds 0 (start_of state)
