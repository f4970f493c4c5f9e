-- ===== src/Investigation/Collected.antt =====
-- What the loop of backend/app/agents/loop.py does to the IOCs of an investigation.
use ai_powered_security_inve.Base.{
  ℕ, zero, suc, ◌+◌, ◌-◌, String, Bool, true, false, List, [], if◌then◌else◌, length, ltb, take,
}
use ai_powered_security_inve.Planning.Scheduler.{PlannedAction}
use ai_powered_security_inve.Investigation.State.{InvestigationState}
use ai_powered_security_inve.Investigation.Iocs.{IsQueued, Moves}
use ai_powered_security_inve.Investigation.Tools.{is_none}
use ai_powered_security_inve.Investigation.Loop.{
  Collection, LoopSetting, act, within_calls, with_plan, iteration_of, iterate, collect_batch,
  stopped,
}
use ai_powered_security_inve.Investigation.Collecting.{Moves-refl, Moves-trans, run_tools-Moves}

module _ (key : String) (set : LoopSetting) where
  act-Moves :
      (iteration : ℕ) (actions : List PlannedAction) (c : Collection)
      → IsQueued c.state
      → Moves key c.state (act set iteration actions c).state
  unfolding act
  act-Moves iteration actions c q = run_tools-Moves key set.engines c.tool_calls actions c.state q

  -- a choice between two ends of an iteration
  choice-Moves :
      (s : InvestigationState) (b : Bool) (x y : Bool × Collection)
      → Moves key s x.1.state
      → Moves key s y.1.state
      → Moves key s (if b then x else y).1.state
  choice-Moves s true x y m n = m
  choice-Moves s false x y m n = n

  with_plan-Moves :
      (iteration : ℕ) (actions : List PlannedAction) (c : Collection)
      → IsQueued c.state
      → Moves key c.state (with_plan set iteration actions c).1.state
  with_plan-Moves iteration actions c q =
      let few : List PlannedAction = take (set.budget.max_tool_calls - c.tool_calls) actions in
      let over : Bool = ltb set.budget.max_tool_calls (c.tool_calls + length actions) in
      let all_of : Bool × Collection = (true, act set iteration actions c) in
      let some_of : Bool × Collection = (true, act set iteration few c) in
      let none_of : Bool × Collection = (false, stopped iteration "tool-call budget exhausted" c) in
      let stays : Moves key c.state c.state = Moves-refl key c.state q in
      choice-Moves c.state (is_none actions) (false, c)
        (if over then within_calls set iteration few c else all_of) stays
        (choice-Moves c.state over (within_calls set iteration few c) all_of
          (choice-Moves c.state (is_none few) none_of some_of stays (act-Moves iteration few c q))
          (act-Moves iteration actions c q))

  iteration_of-Moves :
      (iteration : ℕ) (c : Collection)
      → IsQueued c.state
      → Moves key c.state (iteration_of set iteration c).1.state
  unfolding iteration_of
  iteration_of-Moves iteration c q =
      let tested : Collection = record c { clock_tests = c.clock_tests + 1 } in
      choice-Moves c.state (set.overtime c.clock_tests)
        (false, stopped iteration "wall-clock budget exhausted" tested)
        (with_plan set iteration (set.next_actions c.state) tested) (Moves-refl key c.state q)
        (with_plan-Moves iteration (set.next_actions c.state) tested q)

  iterate-Moves :
      (left iteration : ℕ) (c : Collection)
      → IsQueued c.state
      → Moves key c.state (iterate set left iteration c).state
  unfolding iterate
  iterate-Moves zero iteration c q = Moves-refl key c.state q
  iterate-Moves (suc left) iteration c q =
      let (again, after) : Bool × Collection = iteration_of set iteration c in
      let m : Moves key c.state after.state = iteration_of-Moves iteration c q in
      let n : Moves key c.state (iterate set left (iteration + 1) after).state =
        Moves-trans key c.state after.state (iterate set left (iteration + 1) after).state m
          (iterate-Moves left (iteration + 1) after m.sound) in
      elim again
        as (λ b.
          Moves key c.state (if b then iterate set left (iteration + 1) after else after).state) [
            | true ↦ n
            | false ↦ m
          ]

-- From a state in which it is so, whatever the planner proposes and the connectors answer, an investigation
-- ends with no IOC queued twice or queued after its enrichment, and an IOC that was queued or enriched
-- still is one of them, also where tools have failed.
pub collect_batch-Moves :
    (key : String) (set : LoopSetting) (s : InvestigationState)
    → IsQueued s
    → Moves key s (collect_batch set s).state
unfolding collect_batch
collect_batch-Moves key set s q =
    iterate-Moves key set set.budget.max_iterations 1
      (record { state = s; clock_tests = 0; step_no = 0; tool_calls = 0; trace = [] }) q
