-- ===== src/Planning/Unblocked.antt =====
-- Which tasks `ready` of backend/app/agents/planning/task_graph.py returns.
use mathlib.Core.List.{Mem, mem-cons_self, mem-cons_of_mem}
use ai_powered_security_inve.Base.{
  ℕ, ◌≡◌, ◌≢◌, ◌⊎◌, refl, Option, some, none, true, false, List, [], ◌∷◌, all, All, All-map,
  Bool-cases, inl, inr, keep,
}
use ai_powered_security_inve.Base.Members.{Mem-keep, Mem-sort}
use ai_powered_security_inve.Base.Sort.{IsSorted, sort-IsSorted_by}
use ai_powered_security_inve.Planning.Task.{
  Task, TaskStatus, pending, running, done, failed, skipped, is_pending, is_terminal,
}
use ai_powered_security_inve.Planning.Graph.{TaskGraph, find, ready, is_ready, is_done, runs_before}
use ai_powered_security_inve.Planning.Sound.{IsSound}
use ai_powered_security_inve.Planning.Ready.{
  IsReadyIn, ready-IsReadyIn, no_later, runs_before-no_later, runs_before-false, no_later_trans,
}

-- a dependency that is no task of the graph, or one that is done, failed or skipped
abbrev pub IsOver : List Task → ℕ → Type 0
IsOver ts d =
    (find d ts ≡ none)
    ⊎ ((u : Task) × (find d ts ≡ some u)
        × ((u.status ≡ done) ⊎ ((u.status ≡ failed) ⊎ (u.status ≡ skipped))))

-- a dependency that is a pending or running task of the graph
abbrev pub IsAwaited : List Task → ℕ → Type 0
IsAwaited ts d = (u : Task) × (find d ts ≡ some u) × ((u.status ≡ pending) ⊎ (u.status ≡ running))

-- the task of the graph is pending, and nothing that it depends on is awaited
pub record IsUnblocked (ts : List Task) (t : Task) : Type 0 where
  pub found : find t.id ts ≡ some t
  pub pending_now : t.status ≡ pending
  pub over : All (IsOver ts) t.depends_on

abbrev pub IsBlocked : List Task → Task → Type 0
IsBlocked ts t = (d : ℕ) × Mem d t.depends_on × IsAwaited ts d

over_or_awaited :
    (s : TaskStatus)
    → ((is_terminal s ≡ true) × ((s ≡ done) ⊎ ((s ≡ failed) ⊎ (s ≡ skipped))))
      ⊎ ((is_terminal s ≡ false) × ((s ≡ pending) ⊎ (s ≡ running)))
over_or_awaited pending = inr (refl, inl refl)
over_or_awaited running = inr (refl, inr refl)
over_or_awaited done = inl (refl, inl refl)
over_or_awaited failed = inl (refl, inr (inl refl))
over_or_awaited skipped = inl (refl, inr (inr refl))

is_pending-pending : (s : TaskStatus) → is_pending s ≡ true → s ≡ pending
is_pending-pending pending h = refl
is_pending-pending running h = cc
is_pending-pending done h = cc
is_pending-pending failed h = cc
is_pending-pending skipped h = cc

module _ (ts : List Task) where
  dependency :
      (d : ℕ)
      → ((is_done (find d ts) ≡ true) × IsOver ts d)
        ⊎ ((is_done (find d ts) ≡ false) × IsAwaited ts d)
  dependency d = by_found (find d ts) refl
    where
      by_found :
          (found : Option Task)
          → find d ts ≡ found
          → ((is_done found ≡ true) × IsOver ts d) ⊎ ((is_done found ≡ false) × IsAwaited ts d)
      by_found none e = inl (refl, inl e)
      by_found (some u) e = elim (over_or_awaited u.status) [
        | inl (t, over) ↦ inl (t, inr (u, e, over))
        | inr (f, awaited) ↦ inr (f, (u, e, awaited))
      ]

  dependencies :
      (ds : List ℕ)
      → ((all (λ d. is_done (find d ts)) ds ≡ true) × All (IsOver ts) ds)
        ⊎ ((all (λ d. is_done (find d ts)) ds ≡ false) × ((d : ℕ) × Mem d ds × IsAwaited ts d))
  dependencies [] = inl (refl, tt)
  dependencies (d ∷ ds) = elim (dependency d) [
    | inr (f, awaited) ↦ inr (rw f refl, (d, mem-cons_self, awaited))
    | inl (t, over) ↦ elim (dependencies ds) [
      | inl (rest, all_over) ↦ inl (rw (t, rest) refl, (over, all_over))
      | inr (rest, (e, m, awaited)) ↦ inr (rw (t, rest) refl, (e, mem-cons_of_mem d m, awaited))
    ]
  ]

  IsUnblocked-of : (t : Task) → IsReadyIn ts t → IsUnblocked ts t
  IsUnblocked-of t (found, waits, ends) = elim (dependencies t.depends_on) [
    | inl (yes_all, over) ↦ record {
      found = found;
      pending_now = is_pending-pending t.status waits;
      over = over;
    }
    | inr (not_all, blocked) ↦ cc (ends, not_all)
  ]

  -- a task that is not ready is not pending or is blocked
  why_not : (t : Task) → is_ready ts t ≡ false → (t.status ≢ pending) ⊎ IsBlocked ts t
  why_not t h = elim (Bool-cases (is_pending t.status)) [
    | inr f ↦ inl (λ e. cc (rw e at f))
    | inl waits ↦ elim (dependencies t.depends_on) [
      | inl (yes_all, over) ↦ cc (rw (waits, yes_all) at h)
      | inr (not_all, blocked) ↦ inr blocked
    ]
  ]

ready_or_not :
    (g : TaskGraph) (t : Task)
    → (is_ready g.tasks t ≡ false) ⊎ Mem t (keep (is_ready g.tasks) g.tasks)
    → (t.status ≢ pending) ⊎ (IsBlocked g.tasks t ⊎ Mem t (ready g))
unfolding ready
ready_or_not g t (inr m) = inr (inr (Mem-sort runs_before t (keep (is_ready g.tasks) g.tasks) m))
ready_or_not g t (inl f) = elim (why_not g.tasks t f) [
  | inl idle ↦ inl idle
  | inr blocked ↦ inr (inl blocked)
]

-- In a sound graph `ready` returns exactly the pending tasks of which every dependency that is a task of
-- the graph is done, failed or skipped: each one that it returns is such a task and is the one under its
-- id, and a task of the graph that it leaves out is not pending or depends on a pending or running one.
-- The tasks come by falling priority, and at the same priority by rising wave.
pub ready_outcome :
    (g : TaskGraph)
    → IsSound g
    → All (IsUnblocked g.tasks) (ready g)
      × All (λ t. (t.status ≢ pending) ⊎ (IsBlocked g.tasks t ⊎ Mem t (ready g))) g.tasks
      × IsSorted no_later (ready g)
ready_outcome g s = (
  All-map (IsReadyIn g.tasks) (IsUnblocked g.tasks) (IsUnblocked-of g.tasks) (ready g)
      (ready-IsReadyIn g s),
  All-map (λ t. (is_ready g.tasks t ≡ false) ⊎ Mem t (keep (is_ready g.tasks) g.tasks))
      (λ t. (t.status ≢ pending) ⊎ (IsBlocked g.tasks t ⊎ Mem t (ready g))) (ready_or_not g) g.tasks
      (Mem-keep (is_ready g.tasks) g.tasks),
  unfold ready in
      sort-IsSorted_by runs_before no_later runs_before-no_later runs_before-false no_later_trans
        (keep (is_ready g.tasks) g.tasks),
)
