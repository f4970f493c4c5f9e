-- ===== src/Planning/Sound.antt =====
-- The invariant of a task graph, and that `add` keeps it.
use ai_powered_security_inve.Base.{
  ℕ, ◌+◌, ◌≤◌, ◌<◌, String, ◌≡◌, refl, sym, ◌∙◌, none, some, Bool, true, false, not, ◌&&◌, List, [],
  ◌∷◌, ◌++◌, ◌==◌, arith, All, All-append, Option-cases, inl, inr, ◌⊎◌, ap, eq_refl,
}
use ai_powered_security_inve.Planning.Task.{
  Task, TaskStatus, pending, running, done, failed, skipped, key, terminal,
}
use ai_powered_security_inve.Planning.Graph.{
  TaskGraph, active_with_key, has_key, put_task, add_new, add,
}

-- How often a task of each status has been attempted, of so many attempts at most.
abbrev pub FitsAs : TaskStatus → ℕ → ℕ → Type 0
FitsAs pending a m = a < m
FitsAs running a m = (0 < a) × (a ≤ m)
FitsAs done a m = (0 < a) × (a ≤ m)
FitsAs failed a m = (0 < a) × (a ≡ m)
FitsAs skipped a m = a ≤ m

abbrev pub Fits : Task → Type 0
Fits t = FitsAs t.status t.attempts t.max_attempts

-- the ids grow along the list
abbrev pub Increasing : List Task → Type 0
Increasing [] = Unit
Increasing (t ∷ ts) = All (λ u. t.id < u.id) ts × Increasing ts

-- both are active under one key
abbrev pub clash : Task → Task → Bool
clash a b = (key a == key b) && (not (terminal a) && not (terminal b))

-- no two tasks of the list clash
abbrev pub Unclashing : List Task → Type 0
Unclashing [] = Unit
Unclashing (t ∷ ts) = All (λ u. clash t u ≡ false) ts × Unclashing ts

abbrev pub InCount : ℕ → Task → Type 0
InCount n t = (0 < t.id) × (t.id ≤ n)

-- every dependency is an earlier task
abbrev pub DepsBelow : Task → Type 0
DepsBelow t = All (λ d. d < t.id) t.depends_on

abbrev pub attempts_of : Task → ℕ
attempts_of t = t.attempts

pub record IsSound (g : TaskGraph) : Type 0 where
  pub increasing : Increasing g.tasks
  pub counted : All (InCount g.counter) g.tasks
  pub deps : All DepsBelow g.tasks
  pub fits : All Fits g.tasks
  pub unclashing : Unclashing g.tasks

put_task_new :
    (n : ℕ) (t : Task) (ts : List Task)
    → n < t.id
    → All (InCount n) ts
    → put_task t ts ≡ ts ++ t ∷ []
unfolding put_task
put_task_new n t [] h a = refl
put_task_new n t (u ∷ ts) h a = ground (arith, put_task_new n t ts h a.1)

Increasing-append :
    (n : ℕ) (t : Task) (ts : List Task)
    → n < t.id
    → All (InCount n) ts
    → Increasing ts
    → Increasing (ts ++ t ∷ [])
Increasing-append n t [] h a i = (tt, tt)
Increasing-append n t (u ∷ ts) h a i = (
  All-append (λ x. u.id < x.id) ts (t ∷ []) i.0 (omega arith, tt),
  Increasing-append n t ts h a.1 i.1,
)

-- a new task does not clash where no active task has its key
Unclashing-append :
    (t : Task) (ts : List Task)
    → active_with_key (key t) ts ≡ none
    → Unclashing ts
    → Unclashing (ts ++ t ∷ [])
unfolding active_with_key
Unclashing-append t [] h u = (tt, tt)
Unclashing-append t (x ∷ ts) h u = (
  All-append (λ y. clash x y ≡ false) ts (t ∷ []) u.0 (ground arith, tt),
  Unclashing-append t ts (ground arith) u.1,
)

InCount-mono : (n : ℕ) (ts : List Task) → All (InCount n) ts → All (InCount (n + 1)) ts
InCount-mono n [] a = tt
InCount-mono n (t ∷ ts) a = (omega arith, InCount-mono n ts a.1)

deps_below : (n : ℕ) (ds : List ℕ) → All (λ d. d ≤ n) ds → All (λ d. d < n + 1) ds
deps_below n [] a = tt
deps_below n (d ∷ ds) a = (omega arith, deps_below n ds a.1)

-- what a task has to be for `add`: without id, in order, and behind tasks of the graph
pub record IsFreshTask (n : ℕ) (t : Task) : Type 0 where
  pub no_id : t.id ≡ 0
  pub fits : Fits t
  pub deps : All (λ d. d ≤ n) t.depends_on

-- the graph after a new task went in at the end
abbrev pub appended : Task → TaskGraph → TaskGraph
appended t g = record {
  tasks = g.tasks ++ record t { id = g.counter + 1 } ∷ [];
  counter = g.counter + 1;
}

add_new_lem : (t : Task) (g : TaskGraph) → IsSound g → t.id ≡ 0 → (add_new t g).0 ≡ appended t g
unfolding add_new
add_new_lem t g s e =
    ground (arith, s.counted, put_task_new g.counter (record t { id = g.counter + 1 }) g.tasks)

-- `add` either finds an active task with the key and changes nothing, or appends the task.
pub add_lem :
    (t : Task) (g : TaskGraph)
    → IsSound g
    → t.id ≡ 0
    → ((has_key (key t) g ≡ true) × ((add t g).0 ≡ g))
      ⊎ ((active_with_key (key t) g.tasks ≡ none) × ((add t g).0 ≡ appended t g))
unfolding add
add_lem t g s e = elim (Option-cases (active_with_key (key t) g.tasks)) [
  | inl free ↦ inr (free, rw (free, add) (add_new_lem t g s e))
  | inr (a, taken) ↦ inl (rw taken refl, rw (taken, add) refl)
]

pub appended-IsSound :
    (t : Task) (g : TaskGraph)
    → IsFreshTask g.counter t
    → active_with_key (key t) g.tasks ≡ none
    → IsSound g
    → IsSound (appended t g)
appended-IsSound t g f free s =
    let t' = record t { id = g.counter + 1 } in
    record {
      increasing = Increasing-append g.counter t' g.tasks (omega arith) s.counted s.increasing;
      counted =
          All-append (InCount (g.counter + 1)) g.tasks (t' ∷ [])
            (InCount-mono g.counter g.tasks s.counted) ((omega arith, omega arith), tt);
      deps =
          All-append DepsBelow g.tasks (t' ∷ []) s.deps
            (deps_below g.counter t.depends_on f.deps, tt);
      fits = All-append Fits g.tasks (t' ∷ []) s.fits (f.fits, tt);
      unclashing = Unclashing-append t' g.tasks free s.unclashing;
    }

active_appended :
    (k : String) (t : Task) (ts : List Task)
    → active_with_key k ts ≡ none
    → (key t == k) ≡ true
    → terminal t ≡ false
    → active_with_key k (ts ++ t ∷ []) ≡ some t
unfolding active_with_key
active_appended k t [] h e n = ground (arith, e, n)
active_appended k t (u ∷ ts) h e n = ground (arith, active_appended k t ts)

add_taken :
    (t a : Task) (g : TaskGraph) → active_with_key (key t) g.tasks ≡ some a → add t g ≡ (g, a.id)
unfolding add
add_taken t a g h = rw (h, add) refl

add_free :
    (t : Task) (g : TaskGraph)
    → IsSound g
    → t.id ≡ 0
    → active_with_key (key t) g.tasks ≡ none
    → add t g ≡ (appended t g, g.counter + 1)
unfolding add add_new
add_free t g s e h =
    rw (h, add)
      (ground
        (arith, e, s.counted, put_task_new g.counter (record t { id = g.counter + 1 }) g.tasks))

-- Adding an unfinished task without id to a sound graph a second time changes nothing: it finds the
-- task that the first time found or made, and returns the same id.
pub add_twice :
    (t : Task) (g : TaskGraph)
    → IsSound g
    → t.id ≡ 0
    → terminal t ≡ false
    → add t (add t g).0 ≡ add t g
add_twice t g s e n = elim (Option-cases (active_with_key (key t) g.tasks)) [
  | inl free ↦
      let t' : Task = record t { id = g.counter + 1 } in
      ap (λ p. add t p.0) (add_free t g s e free)
      ∙ add_taken t t' (appended t g) (active_appended (key t) t' g.tasks free (eq_refl (key t)) n)
      ∙ sym (add_free t g s e free)
  | inr (a, taken) ↦ ap (λ p. add t p.0) (add_taken t a g taken)
]
