-- ===== src/Planning/Ready.antt =====
-- What `ready` returns, and when it returns nothing.
use ai_powered_security_inve.Base.{
  ◌<◌, ◌≡◌, refl, some, Bool, true, false, not, ◌&&◌, ◌||◌, List, [], ◌∷◌, map, eqb, ltb, leb,
  arith, All, All-map, All-keep, All-keep_test, Bool-cases, inl, inr, keep,
}
use ai_powered_security_inve.Base.Pairs.{All-both, Pairs, Pairs-keep, Pairs-sort}
use ai_powered_security_inve.Base.Sort.{All-sort}
use ai_powered_security_inve.Planning.Task.{Task, is_running, is_pending}
use ai_powered_security_inve.Planning.Graph.{
  TaskGraph, find, ready, is_ready, deps_done, runs_before,
}
use ai_powered_security_inve.Planning.Scheduler.{task_id}
use ai_powered_security_inve.Planning.Sound.{Fits, Increasing, IsSound}
use ai_powered_security_inve.Planning.Batch.{mem, Apart, Phase, Mid}

find_below :
    (u : Task) (ts : List Task) (xs : List Task)
    → All (λ t. u.id < t.id) xs
    → All (λ t. find t.id ts ≡ some t) xs
    → All (λ t. find t.id (u ∷ ts) ≡ some t) xs
unfolding find
find_below u ts [] b h = tt
find_below u ts (x ∷ xs) b h = (ground arith, find_below u ts xs b.1 h.1)

-- every task is found under its id
self_found : (ts : List Task) → Increasing ts → All (λ t. find t.id ts ≡ some t) ts
unfolding find
self_found [] c = tt
self_found (t ∷ ts) c = (ground arith, unfold find in find_below t ts ts c.0 (self_found ts c.1))

-- a ready task is the one in the graph, is pending, and all its dependencies are finished
abbrev pub IsReadyIn : List Task → Task → Type 0
IsReadyIn ts b = (find b.id ts ≡ some b) × (is_pending b.status ≡ true) × (deps_done ts b ≡ true)

is_ready_parts :
    (ts : List Task) (b : Task) → (find b.id ts ≡ some b) × (is_ready ts b ≡ true) → IsReadyIn ts b
is_ready_parts ts b h = ground (arith, h)

pub ready-IsReadyIn : (g : TaskGraph) → IsSound g → All (IsReadyIn g.tasks) (ready g)
unfolding ready
ready-IsReadyIn g s =
    let ts = g.tasks in
    All-sort runs_before (IsReadyIn ts) (keep (is_ready ts) ts) (
      All-map (λ b. (find b.id ts ≡ some b) × (is_ready ts b ≡ true)) (IsReadyIn ts)
        (is_ready_parts ts) (keep (is_ready ts) ts)
        (All-both (λ b. find b.id ts ≡ some b) (λ b. is_ready ts b ≡ true) (keep (is_ready ts) ts)
          (All-keep (λ b. find b.id ts ≡ some b) (is_ready ts) ts (self_found ts s.increasing))
          (All-keep_test (is_ready ts) ts)))

Increasing-Apart : (ts : List Task) → Increasing ts → Pairs Apart ts
Increasing-Apart [] c = tt
Increasing-Apart (t ∷ ts) c =
    (All-map (λ u. t.id < u.id) (Apart t) (λ u h. ground arith) ts c.0, Increasing-Apart ts c.1)

Apart-symm : (a b : Task) → Apart a b → Apart b a
Apart-symm a b h = ground arith

pub ready-Apart : (g : TaskGraph) → IsSound g → Pairs Apart (ready g)
unfolding ready
ready-Apart g s =
    Pairs-sort Apart runs_before Apart-symm (keep (is_ready g.tasks) g.tasks)
      (Pairs-keep Apart (is_ready g.tasks) g.tasks (Increasing-Apart g.tasks s.increasing))

-- a task of the graph whose id is in the batch is the one in the batch, and so pending
pending_waiting :
    (ts batch : List Task) (t : Task)
    → All (IsReadyIn ts) batch
    → find t.id ts ≡ some t
    → (not (mem t.id (map task_id batch)) || is_pending t.status) ≡ true
pending_waiting ts [] t h f = refl
pending_waiting ts (b ∷ batch) t h f = elim (Bool-cases (eqb t.id b.id)) [
  | inl same ↦ ground (arith, h.0.0, h.0.1, f)
  | inr other ↦ rw other (pending_waiting ts batch t h.1 f)
]

-- before a batch of ready tasks starts, with nothing running
pub start_of_batch :
    (g : TaskGraph) (batch : List Task)
    → IsSound g
    → All (λ t. is_running t.status ≡ false) g.tasks
    → All (IsReadyIn g.tasks) batch
    → Mid g.counter [] (map task_id batch) g.tasks
start_of_batch g batch s idle h = record {
  increasing = s.increasing;
  counted = s.counted;
  deps = s.deps;
  unclashing = s.unclashing;
  phase =
      All-map (λ t. Fits t × (find t.id g.tasks ≡ some t) × (is_running t.status ≡ false))
        (Phase [] (map task_id batch)) (λ t p. (p.0, p.2, pending_waiting g.tasks batch t h p.1))
        g.tasks (All_three g.tasks s.fits (self_found g.tasks s.increasing) idle);
}
  where
    All_three :
        (xs : List Task)
        → All Fits xs
        → All (λ t. find t.id g.tasks ≡ some t) xs
        → All (λ t. is_running t.status ≡ false) xs
        → All (λ t. Fits t × (find t.id g.tasks ≡ some t) × (is_running t.status ≡ false)) xs
    All_three = elim [
      | [] ↦ λ a b c. tt
      | t ∷ (ts → ih) ↦ λ a b c. ((a.0, b.0, c.0), ih a.1 b.1 c.1)
    ]

-- no lower priority, and at the same priority no later wave
abbrev pub no_later : Task → Task → Bool
no_later a b = ltb b.priority a.priority || (eqb a.priority b.priority && leb a.wave b.wave)

pub runs_before-no_later : (a b : Task) → runs_before a b ≡ true → no_later a b ≡ true
unfolding runs_before
runs_before-no_later a b h = ground arith

pub runs_before-false : (a b : Task) → runs_before a b ≡ false → no_later b a ≡ true
unfolding runs_before
runs_before-false a b h = ground arith

pub no_later_trans :
    (a b c : Task) → no_later a b ≡ true → no_later b c ≡ true → no_later a c ≡ true
no_later_trans a b c h k = ground arith
