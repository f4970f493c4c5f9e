-- ===== src/Planning/Growing.antt =====
-- `expand` and the injection of a reflection keep the invariant of a task graph.
use ai_powered_security_inve.Base.{
  ℕ, ◌+◌, ◌≤◌, ◌≡◌, refl, ◌∙◌, false, List, [], ◌∷◌, map, eqb, arith, All, All-append, All-keep,
  sum_by, sum_by-append, Bool-cases, inl, inr, keep,
}
use ai_powered_security_inve.Planning.Task.{Task, pending, key, is_running}
use ai_powered_security_inve.Planning.Graph.{TaskGraph, has_key, add}
use ai_powered_security_inve.Planning.Scheduler.{
  PlannedAction, task_of, task_id, wave_before, expand_with, expand, inject_with, inject,
}
use ai_powered_security_inve.Planning.Sound.{
  InCount, attempts_of, IsSound, IsFreshTask, add_lem, appended-IsSound,
}

-- What a graph gains when tasks are put in: nothing runs that did not, the attempts stay, and the
-- counter does not fall.
pub record Grows (g h : TaskGraph) : Type 0 where
  pub sound : IsSound h
  pub counter : g.counter ≤ h.counter
  pub attempts : sum_by attempts_of h.tasks ≡ sum_by attempts_of g.tasks
  pub idle :
      All (λ t. is_running t.status ≡ false) g.tasks
      → All (λ t. is_running t.status ≡ false) h.tasks

pub Grows-refl : (g : TaskGraph) → IsSound g → Grows g g
Grows-refl g s = record { sound = s; counter = omega arith; attempts = refl; idle = λ a. a }

Grows-trans : (a b c : TaskGraph) → Grows a b → Grows b c → Grows a c
Grows-trans a b c p q = record {
  sound = q.sound;
  counter = omega arith;
  attempts = q.attempts ∙ p.attempts;
  idle = λ h. q.idle (p.idle h);
}

add-Grows :
    (t : Task) (g : TaskGraph)
    → IsSound g
    → IsFreshTask g.counter t
    → t.status ≡ pending
    → t.attempts ≡ 0
    → Grows g (add t g).0
add-Grows t g s f p z = elim (add_lem t g s f.no_id) [
  | inl (taken, e) ↦ rw e (Grows-refl g s)
  | inr (free, e) ↦ rw e (record {
    sound = appended-IsSound t g f free s;
    counter = omega arith;
    attempts =
        omega (arith, sum_by-append attempts_of g.tasks (record t { id = g.counter + 1 } ∷ []), z);
    idle = λ a.
        All-append (λ u. is_running u.status ≡ false) g.tasks (record t { id = g.counter + 1 } ∷ [])
          a (ground arith, tt);
  })
]

deps_grow : (m n : ℕ) (ds : List ℕ) → m ≤ n → All (λ d. d ≤ m) ds → All (λ d. d ≤ n) ds
deps_grow m n [] h a = tt
deps_grow m n (d ∷ ds) h a = (omega arith, deps_grow m n ds h a.1)

task_of-Grows :
    (a : PlannedAction) (prior : List ℕ) (wave : ℕ) (g : TaskGraph)
    → IsSound g
    → All (λ d. d ≤ g.counter) prior
    → Grows g (add (task_of a prior wave) g).0
task_of-Grows a prior wave g s d =
    add-Grows (task_of a prior wave) g s (record { no_id = refl; fits = omega arith; deps = d })
      refl refl

expand_with-Grows :
    (prior : List ℕ) (wave : ℕ) (proposed : List PlannedAction) (g : TaskGraph) (added : ℕ)
    → IsSound g
    → All (λ d. d ≤ g.counter) prior
    → Grows g (expand_with prior wave proposed g added).0
unfolding expand_with
expand_with-Grows prior wave [] g added s d = Grows-refl g s
expand_with-Grows prior wave (a ∷ rest) g added s d =
    elim (Bool-cases (has_key (key (task_of a prior wave)) g)) [
      | inl known ↦ rw known (expand_with-Grows prior wave rest g added s d)
      | inr new ↦ rw new (
          let first = task_of-Grows a prior wave g s d in
          let g' = (add (task_of a prior wave) g).0 in
          Grows-trans g g' _ first (
            expand_with-Grows prior wave rest g' (added + 1) first.sound
              (deps_grow g.counter g'.counter prior first.counter d)))
    ]

inject_with-Grows :
    (prior : List ℕ) (wave : ℕ) (extra : List PlannedAction) (g : TaskGraph)
    → IsSound g
    → All (λ d. d ≤ g.counter) prior
    → Grows g (inject_with prior wave extra g)
unfolding inject_with
inject_with-Grows prior wave [] g s d = Grows-refl g s
inject_with-Grows prior wave (a ∷ rest) g s d =
    let first = task_of-Grows a prior wave g s d in
    let g' = (add (task_of a prior wave) g).0 in
    Grows-trans g g' _ first (
      inject_with-Grows prior wave rest g' first.sound
        (deps_grow g.counter g'.counter prior first.counter d))

ids_counted : (n : ℕ) (ts : List Task) → All (InCount n) ts → All (λ d. d ≤ n) (map task_id ts)
ids_counted n [] a = tt
ids_counted n (t ∷ ts) a = (a.0.1, ids_counted n ts a.1)

pub expand-Grows :
    (proposed : List PlannedAction) (g : TaskGraph) (wave : ℕ)
    → IsSound g
    → Grows g (expand proposed g wave).0
unfolding expand
expand-Grows proposed g wave s =
    let before = keep (λ (t : Task). eqb (t.wave + 1) wave) g.tasks in
    expand_with-Grows (wave_before wave g) wave proposed g 0 s (
      ids_counted g.counter before
        (All-keep (InCount g.counter) (λ t. eqb (t.wave + 1) wave) g.tasks s.counted))

pub inject-Grows :
    (extra : List PlannedAction) (g : TaskGraph) (wave : ℕ)
    → IsSound g
    → Grows g (inject extra g wave)
inject-Grows extra g wave s =
    inject_with-Grows (map task_id g.tasks) wave extra g s (ids_counted g.counter g.tasks s.counted)
