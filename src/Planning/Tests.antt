-- ===== src/Planning/Tests.antt =====
-- Runs of the scheduler on a concrete planner and executor, and of the task graph on concrete tasks.
use ai_powered_security_inve.Base.{
  ℕ, zero, suc, ◌+◌, ◌≤◌, ◌≡◌, ◌≢◌, ◌⊎◌, refl, some, true, false, List, [], ◌∷◌, leb, map, All,
}
use ai_powered_security_inve.Base.Sort.{sort, IsSorted}
use ai_powered_security_inve.Planning.Task.{Task, pending, default_priority, dedup_key}
use ai_powered_security_inve.Planning.Json.{dumps}
use ai_powered_security_inve.Planning.Graph.{
  TaskGraph, new_graph, ready, all_terminal, add, add_new, find, put_task, update, active_with_key,
  runs_before,
}
use ai_powered_security_inve.Planning.Scheduler.{
  PlannedAction, Setting, task_of, task_id, expand, expand_with, start_all, finish_all, inject_with,
  run_batch, dispatch, turn, drain_left, drain, run_rounds, run, start_of,
}
use ai_powered_security_inve.Planning.Sound.{IsSound}
use ai_powered_security_inve.Planning.Growing.{expand-Grows}
use mathlib.Core.List.{Mem}
use ai_powered_security_inve.Planning.Ready.{no_later}
use ai_powered_security_inve.Planning.Unblocked.{IsUnblocked, IsBlocked, ready_outcome}
use ai_powered_security_inve.Planning.Complete.{ready_empty}
use ai_powered_security_inve.Planning.Runs.{
  IsOnTrack, EndsWell, drain-EndsWell, run-IsOnTrack, start-IsOnTrack,
}

abbrev enrich : PlannedAction
enrich = record { tool = "enrich_iocs"; reason = "new"; params = [] }

abbrev hunt : PlannedAction
hunt = record { tool = "hunt_edr"; reason = "lead"; params = [] }

-- the state is the number of batches executed
abbrev plan : ℕ → List PlannedAction
plan zero = hunt ∷ enrich ∷ []
plan (suc n) = []

abbrev reflect_once : ℕ → List PlannedAction
reflect_once zero = []
reflect_once (suc zero) = []
reflect_once (suc (suc zero)) = enrich ∷ []
reflect_once (suc (suc (suc n))) = []

-- the first batch fails and is tried again
abbrev setting : Setting ℕ
setting = record {
  next_actions = plan;
  execute = λ s calls. (s + 1, λ i. record { success = leb 1 s; text = "" });
  reflect = some reflect_once;
  overtime = λ n. false;
  budget = record { max_iterations = 8; max_tool_calls = 32 };
  max_reflection_rounds = 2;
}

abbrev proposed : TaskGraph
unfolding expand expand_with add add_new active_with_key put_task
proposed = (expand (hunt ∷ enrich ∷ []) new_graph 1).0

empty-IsSound : IsSound new_graph
empty-IsSound = record { increasing = tt; counted = tt; deps = tt; fits = tt; unclashing = tt }

proposed-IsSound : IsSound proposed
unfolding expand expand_with add add_new active_with_key put_task
proposed-IsSound = (expand-Grows (hunt ∷ enrich ∷ []) new_graph 1 empty-IsSound).sound

-- the enrichment goes first, for its priority is higher
ready_first : map task_id (ready proposed) ≡ 2 ∷ 1 ∷ []
unfolding run run_rounds drain_left turn dispatch run_batch start_all finish_all update expand
    expand_with inject_with add add_new active_with_key put_task ready sort runs_before find
    default_priority dedup_key dumps
ready_first = refl

run-IsOnTrack_example : IsOnTrack setting (run setting 0).0 × ((run setting 0).1 ≤ 2)
run-IsOnTrack_example = run-IsOnTrack setting 0

drain-EndsWell_example :
    EndsWell setting (drain setting (start_of setting 0)).0 (drain setting (start_of setting 0)).1
drain-EndsWell_example = drain-EndsWell setting (start_of setting 0) (start-IsOnTrack setting 0)

-- two batches, the second the retry, and one reflection
calls_made : ((run setting 0).0.tool_calls ≡ 5) × ((run setting 0).1 ≡ 1)
unfolding run run_rounds drain_left turn dispatch run_batch start_all finish_all update expand
    expand_with inject_with add add_new active_with_key put_task ready sort runs_before find
    default_priority dedup_key dumps
calls_made = (refl, refl)

ready_empty_example : all_terminal (run setting 0).0.graph ≡ true
unfolding run run_rounds drain_left turn dispatch run_batch start_all finish_all update expand
    expand_with inject_with add add_new active_with_key put_task ready sort runs_before find
    default_priority dedup_key dumps
ready_empty_example =
    ready_empty (run setting 0).0.graph (run-IsOnTrack setting 0).0.sound
      (run-IsOnTrack setting 0).0.idle refl

abbrev detonate : PlannedAction
detonate = record { tool = "detonate_attachment"; reason = "file"; params = [] }

-- the detonation waits for the two tasks of the wave before
abbrev two_waves : TaskGraph
unfolding expand expand_with add add_new active_with_key put_task
two_waves = (expand (detonate ∷ []) proposed 2).0

two_waves-IsSound : IsSound two_waves
unfolding expand expand_with add add_new active_with_key put_task
two_waves-IsSound = (expand-Grows (detonate ∷ []) proposed 2 proposed-IsSound).sound

still_two : map task_id (ready two_waves) ≡ 2 ∷ 1 ∷ []
unfolding expand expand_with add add_new active_with_key put_task ready sort runs_before find
    default_priority dedup_key dumps
still_two = refl

ready_outcome_example :
    All (IsUnblocked two_waves.tasks) (ready two_waves)
    × All
        (λ t. (t.status ≢ pending) ⊎ (IsBlocked two_waves.tasks t ⊎ Mem t (ready two_waves)))
        two_waves.tasks
    × IsSorted no_later (ready two_waves)
ready_outcome_example = ready_outcome two_waves two_waves-IsSound

abbrev again_enrich : Task
again_enrich = task_of enrich [] 1
