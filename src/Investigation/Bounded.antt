-- ===== src/Investigation/Bounded.antt =====
-- The bounds of the loop of backend/app/agents/loop.py and the trace that it leaves.
use mathlib.Core.Path.{subst}
use ai_powered_security_inve.Base.{
  ℕ, zero, suc, ◌+◌, ◌-◌, ◌≤◌, String, Bool, true, false, List, [], ◌∷◌, ◌++◌, ◌≡◌, refl, sym, ap,
  if◌then◌else◌, ◌==◌, length, take, ltb, arith, length-append, length-take, Bool-cases, inl, inr,
  sum_by, sum_by-append,
}
use ai_powered_security_inve.Planning.Scheduler.{PlannedAction, Budget, Outcome}
use ai_powered_security_inve.Investigation.State.{InvestigationState}
use ai_powered_security_inve.Investigation.Tools.{Engines, is_none}
use ai_powered_security_inve.Investigation.Loop.{
  run_tools, AgentTraceStep, Collection, LoopSetting, stop_step, stopped, act_steps, act,
  within_calls, with_plan, iteration_of, iterate, collect_batch,
}

-- 1 for a step of a tool
abbrev pub acted : AgentTraceStep → ℕ
acted s = if s.phase == "act" then 1 else 0

-- The steps are numbered in turn from behind `n`.
abbrev pub IsNumbered : ℕ → List AgentTraceStep → Type 0
IsNumbered n [] = Unit
IsNumbered n (s ∷ steps) = (s.step ≡ n + 1) × IsNumbered (n + 1) steps

-- what the variables of the loop are to each other and to the budget
pub record IsBounded (budget : Budget) (c : Collection) : Type 0 where
  pub within : c.tool_calls ≤ budget.max_tool_calls
  pub counted : length c.trace ≡ c.step_no
  pub traced : sum_by acted c.trace ≡ c.tool_calls
  pub numbered : IsNumbered 0 c.trace

IsNumbered-append :
    (n : ℕ) (xs ys : List AgentTraceStep)
    → IsNumbered n xs
    → IsNumbered (n + length xs) ys
    → IsNumbered n (xs ++ ys)
IsNumbered-append n [] ys h k = subst (λ m. IsNumbered m ys) (omega arith) k
IsNumbered-append n (x ∷ xs) ys h k =
    (h.0, IsNumbered-append (n + 1) xs ys h.1 (subst (λ m. IsNumbered m ys) (omega arith) k))

length-run_tools :
    (engines : Engines) (n : ℕ) (actions : List PlannedAction) (state : InvestigationState)
    → length (run_tools engines n actions state).0 ≡ length actions
unfolding run_tools
length-run_tools engines n [] state = refl
length-run_tools engines n (a ∷ actions) state = ap suc (length-run_tools engines (n + 1) actions _)

-- the steps of a batch with a result for every action
record AreSteps (step : ℕ) (count : ℕ) (steps : List AgentTraceStep) : Type 0 where
  numbered : IsNumbered step steps
  many : length steps ≡ count
  all_acted : sum_by acted steps ≡ count

act_steps-AreSteps :
    (step iteration : ℕ) (actions : List PlannedAction) (results : List Outcome)
    → length results ≡ length actions
    → AreSteps step (length actions) (act_steps step iteration actions results)
unfolding act_steps
act_steps-AreSteps step iteration [] results e = record {
  numbered = tt;
  many = refl;
  all_acted = refl;
}
act_steps-AreSteps step iteration (a ∷ actions) [] e = absurd (omega (arith, e))
act_steps-AreSteps step iteration (a ∷ actions) (r ∷ results) e =
    let rest : AreSteps (step + 1) (length actions)
        (act_steps (step + 1) iteration actions results) =
      act_steps-AreSteps (step + 1) iteration actions results (omega (arith, e)) in
    record {
      numbered = (refl, rest.numbered);
      many = omega (arith, rest.many);
      all_acted = omega (arith, rest.all_acted);
    }

module _ (set : LoopSetting) where
  stopped-IsBounded :
      (iteration : ℕ) (reason : String) (c : Collection)
      → IsBounded set.budget c
      → IsBounded set.budget (stopped iteration reason c)
  stopped-IsBounded iteration reason c b = record {
    within = b.within;
    counted =
        omega (
          arith,
          b.counted,
          length-append c.trace (stop_step (c.step_no + 1) iteration reason ∷ []),
        );
    traced = omega (
      arith,
      b.traced,
      sum_by-append acted c.trace (stop_step (c.step_no + 1) iteration reason ∷ []),
    );
    numbered =
        IsNumbered-append 0 c.trace (stop_step (c.step_no + 1) iteration reason ∷ []) b.numbered
          (omega (arith, b.counted), tt);
  }

  act-IsBounded :
      (iteration : ℕ) (actions : List PlannedAction) (c : Collection)
      → c.tool_calls + length actions ≤ set.budget.max_tool_calls
      → IsBounded set.budget c
      → IsBounded set.budget (act set iteration actions c)
  unfolding act
  act-IsBounded iteration actions c l b =
      let results : List Outcome = (run_tools set.engines c.tool_calls actions c.state).0 in
      let steps : List AgentTraceStep = act_steps c.step_no iteration actions results in
      let a : AreSteps c.step_no (length actions) steps =
        act_steps-AreSteps c.step_no iteration actions results
          (length-run_tools set.engines c.tool_calls actions c.state) in
      record {
        within = l;
        counted = omega (arith, b.counted, length-append c.trace steps);
        traced = omega (arith, b.traced, a.all_acted, sum_by-append acted c.trace steps);
        numbered =
            IsNumbered-append 0 c.trace steps b.numbered
              (subst (λ n. IsNumbered n steps) (omega (arith, b.counted)) a.numbered);
      }

  with_plan-IsBounded :
      (iteration : ℕ) (actions : List PlannedAction) (c : Collection)
      → IsBounded set.budget c
      → IsBounded set.budget (with_plan set iteration actions c).1
  with_plan-IsBounded iteration actions c b =
      let room : ℕ = set.budget.max_tool_calls - c.tool_calls in
      let few : List PlannedAction = take room actions in
      let cut_outcome : Bool → Bool × Collection = λ e.
        if e
        then (false, stopped iteration "tool-call budget exhausted" c)
        else (true, act set iteration few c) in
      let outcome : Bool → Bool → Bool × Collection = λ e over.
        if e
        then (false, c)
        else if over
        then within_calls set iteration few c
        else (true, act set iteration actions c) in
      let over : Bool = ltb set.budget.max_tool_calls (c.tool_calls + length actions) in
      let cut : IsBounded set.budget (within_calls set iteration few c).1 =
        elim (is_none few) as (λ e. IsBounded set.budget (cut_outcome e).1) [
          | true ↦ stopped-IsBounded iteration "tool-call budget exhausted" c b
          | false ↦
              act-IsBounded iteration few c (omega (arith, b.within, length-take room actions)) b
        ] in
      elim (is_none actions) as (λ e. IsBounded set.budget (outcome e over).1) [
        | true ↦ b
        | false ↦
            elim (Bool-cases (ltb set.budget.max_tool_calls (c.tool_calls + length actions))) [
              | inl t ↦ subst (λ o. IsBounded set.budget (outcome false o).1) (sym t) cut
              | inr f ↦
                  subst (λ o. IsBounded set.budget (outcome false o).1) (sym f)
                    (act-IsBounded iteration actions c (ground arith) b)
            ]
      ]

  iteration_of-IsBounded :
      (iteration : ℕ) (c : Collection)
      → IsBounded set.budget c
      → IsBounded set.budget (iteration_of set iteration c).1
  unfolding iteration_of
  iteration_of-IsBounded iteration c b =
      let tested : Collection = record c { clock_tests = c.clock_tests + 1 } in
      let t : IsBounded set.budget tested = record {
        within = b.within;
        counted = b.counted;
        traced = b.traced;
        numbered = b.numbered;
      } in
      elim (set.overtime c.clock_tests)
        as (λ o.
          IsBounded set.budget
            (if o
              then (false, stopped iteration "wall-clock budget exhausted" tested)
              else with_plan set iteration (set.next_actions c.state) tested).1) [
                | true ↦ stopped-IsBounded iteration "wall-clock budget exhausted" tested t
                | false ↦ with_plan-IsBounded iteration (set.next_actions c.state) tested t
              ]

  iterate-IsBounded :
      (left iteration : ℕ) (c : Collection)
      → IsBounded set.budget c
      → IsBounded set.budget (iterate set left iteration c)
  unfolding iterate
  iterate-IsBounded zero iteration c b = b
  iterate-IsBounded (suc left) iteration c b =
      let after : IsBounded set.budget (iteration_of set iteration c).1 =
        iteration_of-IsBounded iteration c b in
      elim (iteration_of set iteration c).0
        as (λ again. IsBounded set.budget (
          if again
          then iterate set left (iteration + 1) (iteration_of set iteration c).1
          else (iteration_of set iteration c).1)) [
            | true ↦ iterate-IsBounded left (iteration + 1) (iteration_of set iteration c).1 after
            | false ↦ after
          ]

-- Whatever the planner proposes and the tools do, the loop calls no more tools than the budget has, and leaves
-- a trace whose steps are numbered from 1 without a gap and have one step of a tool for every call.
pub collect_batch-IsBounded :
    (set : LoopSetting) (state : InvestigationState)
    → IsBounded set.budget (collect_batch set state)
unfolding collect_batch
collect_batch-IsBounded set state =
    iterate-IsBounded set set.budget.max_iterations 1
      (record { state = state; clock_tests = 0; step_no = 0; tool_calls = 0; trace = [] })
      (record { within = omega arith; counted = refl; traced = refl; numbered = tt })
