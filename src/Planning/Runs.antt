-- ===== src/Planning/Runs.antt =====
-- What holds of a run of the scheduler at every turn: the graph's invariant, no task left running,
-- one tool call for each attempt, and the caps of the budget.
use ai_powered_security_inve.Base.{
  ℕ, zero, suc, ◌+◌, ◌-◌, ◌≤◌, ◌<◌, ◌≡◌, refl, ◌∙◌, Bool, true, false, ◌||◌, List, [], ◌∷◌, map,
  if◌then◌else◌, leb, arith, All, All-map, All-take, sum_by, length, length-take, take, Bool-cases,
  inl, inr, ◌⊎◌,
}
use ai_powered_security_inve.Base.Pairs.{Pairs, Pairs-take}
use ai_powered_security_inve.Planning.Task.{Task, is_running}
use ai_powered_security_inve.Planning.Graph.{TaskGraph, ready, all_terminal}
use ai_powered_security_inve.Planning.Scheduler.{
  PlannedAction, Setting, Run, Turn, leave, again, start_all, expand, inject, is_empty, run_batch,
  dispatch, expanded, turn, drain_left, drain, proposals, run_rounds, run, start_of,
}
use ai_powered_security_inve.Planning.Sound.{Fits, attempts_of, IsSound}
use ai_powered_security_inve.Planning.Growing.{Grows, expand-Grows, inject-Grows}
use ai_powered_security_inve.Planning.Batch.{Apart, batch-Mid}
use ai_powered_security_inve.Planning.Attempts.{Present, sum-start_all, sum-finish_all}
use ai_powered_security_inve.Planning.Ready.{
  IsReadyIn, ready-IsReadyIn, ready-Apart, start_of_batch,
}
use ai_powered_security_inve.Planning.Complete.{ready_empty}

present : (ts batch : List Task) → All (IsReadyIn ts) batch → Present ts batch
present ts [] h = tt
present ts (b ∷ batch) h = (rw h.0.0 refl, present ts batch h.1)

module _ {S : Type 0} (set : Setting S) where
  pub record IsOnTrack (r : Run S) : Type 0 where
    pub sound : IsSound r.graph
    pub idle : All (λ t. is_running t.status ≡ false) r.graph.tasks
    pub accounted : sum_by attempts_of r.graph.tasks ≡ r.tool_calls
    pub calls : r.tool_calls ≤ set.budget.max_tool_calls
    pub waves : r.wave ≤ set.budget.max_iterations

  run_batch-IsOnTrack :
      (batch : List Task) (r : Run S)
      → IsOnTrack r
      → All (IsReadyIn r.graph.tasks) batch
      → Pairs Apart batch
      → r.tool_calls + length batch ≤ set.budget.max_tool_calls
      → r.wave < set.budget.max_iterations
      → IsOnTrack (run_batch set batch r)
  unfolding run_batch
  run_batch-IsOnTrack batch r o h a c w =
      let ts = r.graph.tasks in
      let results = (set.execute r.state (map (λ t. (t.tool, t.params)) batch)).1 in
      let after =
        batch-Mid r.graph.counter results batch ts a
          (start_of_batch r.graph batch o.sound o.idle h) in
      record {
        sound = record {
          increasing = after.increasing;
          counted = after.counted;
          deps = after.deps;
          fits = All-map _ Fits (λ t p. p.0) _ after.phase;
          unclashing = after.unclashing;
        };
        idle = All-map _ (λ t. is_running t.status ≡ false) (λ t p. p.1) _ after.phase;
        accounted = omega (
          arith,
          sum-finish_all results 0 batch (start_all batch ts),
          sum-start_all batch ts o.sound.increasing (present ts batch h),
          o.accounted,
        );
        calls = c;
        waves = omega arith;
      }

  -- the reason for which a run may be cut short
  abbrev pub is_cut : Run S → Bool
  is_cut r =
      leb set.budget.max_tool_calls r.tool_calls
      || leb set.budget.max_iterations r.wave
      || set.overtime (r.clock_tests - 1)

  -- how a drain ends: cut short by the budget, or with every task terminal
  pub record EndsWell (r : Run S) (hit : Bool) : Type 0 where
    pub on_track : IsOnTrack r
    pub reason : (if hit then is_cut r else all_terminal r.graph) ≡ true

  abbrev TurnsWell : ℕ → Turn S → Type 0
  TurnsWell wave (leave hit r) = EndsWell r hit
  TurnsWell wave (again r) = IsOnTrack r × (r.wave ≡ wave + 1)

  dispatch-TurnsWell :
      (r : Run S)
      → IsOnTrack r
      → r.wave < set.budget.max_iterations
      → TurnsWell r.wave (dispatch set (ready r.graph) r)
  unfolding dispatch
  dispatch-TurnsWell r o w = elim (Bool-cases (is_empty (ready r.graph))) [
    | inl e ↦ rw e (record { on_track = o; reason = ready_empty r.graph o.sound o.idle e })
    | inr e ↦ elim (Bool-cases (leb set.budget.max_tool_calls r.tool_calls)) [
      | inl full ↦ rw (e, full) (record { on_track = o; reason = rw full refl })
      | inr left ↦
          rw (e, left)
            (let n = set.budget.max_tool_calls - r.tool_calls in
              (
                run_batch-IsOnTrack (take n (ready r.graph)) r o
                    (All-take (IsReadyIn r.graph.tasks) n (ready r.graph)
                      (ready-IsReadyIn r.graph o.sound))
                    (Pairs-take Apart n (ready r.graph) (ready-Apart r.graph o.sound))
                    (ground (arith, length-take n (ready r.graph), left)) w,
                unfold run_batch in refl,
              ))
    ]
  ]

  tested : (r : Run S) → IsOnTrack r → IsOnTrack (record r { clock_tests = r.clock_tests + 1 })
  tested r o = record {
    sound = o.sound;
    idle = o.idle;
    accounted = o.accounted;
    calls = o.calls;
    waves = o.waves;
  }

  regrown :
      (r : Run S) (g : TaskGraph)
      → IsOnTrack r
      → Grows r.graph g
      → IsOnTrack (record r { graph = g })
  regrown r g o h = record {
    sound = h.sound;
    idle = h.idle o.idle;
    accounted = h.attempts ∙ o.accounted;
    calls = o.calls;
    waves = o.waves;
  }

  turn-TurnsWell :
      (r : Run S) → IsOnTrack r → r.wave < set.budget.max_iterations → TurnsWell r.wave (turn set r)
  unfolding turn
  turn-TurnsWell r o w = elim (Bool-cases (set.overtime r.clock_tests)) [
    | inl late ↦ rw late (record { on_track = tested r o; reason = ground (arith, late) })
    | inr early ↦ rw early (
        let r' : Run S = record r { clock_tests = r.clock_tests + 1 } in
        dispatch-TurnsWell (expanded set r')
          (regrown r' (expand (set.next_actions r.state) r.graph (r.wave + 1)).0 (tested r o)
            (expand-Grows (set.next_actions r.state) r.graph (r.wave + 1) o.sound))
          w)
  ]

  drain_left-EndsWell :
      (left : ℕ) (r : Run S)
      → IsOnTrack r
      → r.wave + left ≡ set.budget.max_iterations
      → EndsWell (drain_left set left r).0 (drain_left set left r).1
  unfolding drain_left
  drain_left-EndsWell zero r o h = record { on_track = o; reason = ground arith }
  drain_left-EndsWell (suc left) r o h =
      elim (turn_cases (turn set r) (turn-TurnsWell r o (omega arith))) [
        | inl (hit, r', e, w) ↦ rw (e, drain_left) w
        | inr (r', e, o', w) ↦ rw (e, drain_left) (drain_left-EndsWell left r' o' (omega arith))
      ]
    where
      turn_cases :
          (t : Turn S)
          → TurnsWell r.wave t
          → ((hit : Bool) × (r' : Run S) × (t ≡ leave hit r') × EndsWell r' hit)
            ⊎ ((r' : Run S) × (t ≡ again r') × IsOnTrack r' × (r'.wave ≡ r.wave + 1))
      turn_cases = elim [
        | leave hit r' ↦ λ w. inl (hit, r', refl, w)
        | again r' ↦ λ w. inr (r', refl, w.0, w.1)
      ]

  -- Draining from a run on track ends on track: within the caps on tool calls and iterations, with
  -- nothing left running and one tool call for each attempt. If it reports that the budget was hit,
  -- a cap has been reached or the last test of the clock found the time used up. If it does not,
  -- every task of the graph is terminal.
  pub drain-EndsWell : (r : Run S) → IsOnTrack r → EndsWell (drain set r).0 (drain set r).1
  drain-EndsWell r o =
      drain_left-EndsWell (set.budget.max_iterations - r.wave) r o (omega (arith, o.waves))

  run_rounds-IsOnTrack :
      (left made : ℕ) (r : Run S)
      → IsOnTrack r
      → IsOnTrack (run_rounds set left made r).0 × ((run_rounds set left made r).1 ≤ made + left)
  unfolding run_rounds
  run_rounds-IsOnTrack zero made r o = ((drain-EndsWell r o).on_track, omega arith)
  run_rounds-IsOnTrack (suc left) made r o =
      let r' = (drain set r).0 in
      let o' = (drain-EndsWell r o).on_track in
      elim (Bool-cases (drain set r).1) [
        | inl cut ↦ rw (cut, run_rounds) (o', omega arith)
        | inr calm ↦
            rw (calm, run_rounds)
              (elim (proposals_cases (proposals set set.reflect r'.state)) [
                | inl e ↦ rw e (o', omega arith)
                | inr (a, more, e) ↦ rw e (
                    let g = inject (a ∷ more) r'.graph (r'.wave + 1) in
                    let (on, made_more) =
                      run_rounds-IsOnTrack left (made + 1) (record r' { graph = g })
                        (regrown r' g o'
                          (inject-Grows (a ∷ more) r'.graph (r'.wave + 1) o'.sound)) in
                    (on, omega (arith, made_more)))
              ])
      ]
    where
      proposals_cases :
          (xs : List PlannedAction)
          → (xs ≡ []) ⊎ ((a : PlannedAction) × (more : List PlannedAction) × (xs ≡ a ∷ more))
      proposals_cases = elim [ [] ↦ inl refl | a ∷ more ↦ inr (a, more, refl) ]

  pub start-IsOnTrack : (state : S) → IsOnTrack (start_of set state)
  start-IsOnTrack state = record {
    sound = record { increasing = tt; counted = tt; deps = tt; fits = tt; unclashing = tt };
    idle = tt;
    accounted = refl;
    calls = omega arith;
    waves = omega arith;
  }

  -- Every run of the scheduler ends on track: at most `max_tool_calls` calls and `max_iterations`
  -- waves, one call for each attempt of a task, nothing left running, no task with more attempts
  -- than its maximum, a failed one with exactly that many, no two active tasks with one key, every
  -- dependency on an earlier task; and with at most `max_reflection_rounds` rounds of reflection.
  pub run-IsOnTrack :
      (state : S) → IsOnTrack (run set state).0 × ((run set state).1 ≤ set.max_reflection_rounds)
  unfolding run
  run-IsOnTrack state =
      let (on, made) =
        run_rounds-IsOnTrack set.max_reflection_rounds 0 (start_of set state)
          (start-IsOnTrack state) in
      (on, omega (arith, made))
