-- ===== src/Planning/Batch.antt =====
-- The execution of one batch keeps the graph's invariant, leaves nothing running, and adds one
-- attempt for each task of the batch.
use ai_powered_security_inve.Base.{
  ℕ, ◌+◌, ◌≡◌, refl, ◌∙◌, Bool, true, false, not, ◌||◌, List, [], ◌∷◌, map, eqb, arith, All,
  All-map, any,
}
use ai_powered_security_inve.Base.Pairs.{All-mapped, Pairs}
use ai_powered_security_inve.Planning.Task.{Task, terminal, is_running, is_pending}
use ai_powered_security_inve.Planning.Graph.{update}
use ai_powered_security_inve.Planning.Scheduler.{
  Outcome, task_id, start, finish, start_all, finish_all,
}
use ai_powered_security_inve.Planning.Sound.{Fits, Increasing, InCount, DepsBelow, Unclashing}
use ai_powered_security_inve.Planning.Updates.{
  KeepsIdentity, changed, ActiveAt, Increasing-update, InCount-update, DepsBelow-update,
  Unclashing-update,
}

abbrev pub mem : ℕ → List ℕ → Bool
mem i = any (eqb i)

abbrev pub Apart : Task → Task → Type 0
Apart a b = eqb a.id b.id ≡ false

-- Between the start and the end of a batch: the tasks of `started` run and no others, and the tasks
-- of `waiting` are still pending.
abbrev pub Phase : List ℕ → List ℕ → Task → Type 0
Phase started waiting t =
    Fits t
    × (is_running t.status ≡ mem t.id started)
    × ((not (mem t.id waiting) || is_pending t.status) ≡ true)

pub start-KeepsIdentity : KeepsIdentity start
start-KeepsIdentity = record { id = λ t. refl; depends_on = λ t. refl; key = λ t. refl }

pub finish-KeepsIdentity : (o : Outcome) → KeepsIdentity (finish o)
finish-KeepsIdentity o = record { id = λ t. refl; depends_on = λ t. refl; key = λ t. refl }

start_step :
    (i : ℕ) (started waiting : List ℕ) (t : Task)
    → mem i waiting ≡ false
    → Phase started (i ∷ waiting) t
    → Phase (i ∷ started) waiting (changed i start t)
start_step i started waiting t h p = ground arith

finish_step :
    (i : ℕ) (started : List ℕ) (o : Outcome) (t : Task)
    → mem i started ≡ false
    → Phase (i ∷ started) [] t
    → Phase started [] (changed i (finish o) t)
finish_step i started o t h p = ground arith

start_active :
    (i : ℕ) (started waiting : List ℕ) (t : Task)
    → Phase started (i ∷ waiting) t
    → (not (eqb t.id i) || not (terminal t)) ≡ true
start_active i started waiting t p = ground arith

finish_active :
    (i : ℕ) (started : List ℕ) (t : Task)
    → Phase (i ∷ started) [] t
    → (not (eqb t.id i) || not (terminal t)) ≡ true
finish_active i started t p = ground arith

-- the invariant in the middle of a batch, on the list of tasks
pub record Mid (n : ℕ) (started waiting : List ℕ) (ts : List Task) : Type 0 where
  pub increasing : Increasing ts
  pub counted : All (InCount n) ts
  pub deps : All DepsBelow ts
  pub unclashing : Unclashing ts
  pub phase : All (Phase started waiting) ts

start-Mid :
    (n i : ℕ) (started waiting : List ℕ) (ts : List Task)
    → mem i waiting ≡ false
    → Mid n started (i ∷ waiting) ts
    → Mid n (i ∷ started) waiting (update i start ts)
unfolding update
start-Mid n i started waiting ts h m =
    let k = start-KeepsIdentity in
    let active : All (ActiveAt i start k) ts =
      All-map (Phase started (i ∷ waiting)) (ActiveAt i start k) (start_active i started waiting) ts
        m.phase in
    record {
      increasing = Increasing-update i start k ts m.increasing;
      counted = InCount-update i start k n ts m.counted;
      deps = DepsBelow-update i start k ts m.deps;
      unclashing = Unclashing-update i start k ts active m.unclashing;
      phase = All-mapped (Phase (i ∷ started) waiting) (changed i start) ts (
          All-map (Phase started (i ∷ waiting))
            (λ t. Phase (i ∷ started) waiting (changed i start t))
            (λ t p. start_step i started waiting t h p) ts m.phase);
    }

finish-Mid :
    (n i : ℕ) (started : List ℕ) (o : Outcome) (ts : List Task)
    → mem i started ≡ false
    → Mid n (i ∷ started) [] ts
    → Mid n started [] (update i (finish o) ts)
unfolding update
finish-Mid n i started o ts h m =
    let k = finish-KeepsIdentity o in
    let active : All (ActiveAt i (finish o) k) ts =
      All-map (Phase (i ∷ started) []) (ActiveAt i (finish o) k) (finish_active i started) ts
        m.phase in
    record {
      increasing = Increasing-update i (finish o) k ts m.increasing;
      counted = InCount-update i (finish o) k n ts m.counted;
      deps = DepsBelow-update i (finish o) k ts m.deps;
      unclashing = Unclashing-update i (finish o) k ts active m.unclashing;
      phase = All-mapped (Phase started []) (changed i (finish o)) ts (
          All-map (Phase (i ∷ started) []) (λ t. Phase started [] (changed i (finish o) t))
            (λ t p. finish_step i started o t h p) ts m.phase);
    }

mem-Apart : (t : Task) (ts : List Task) → All (Apart t) ts → mem t.id (map task_id ts) ≡ false
mem-Apart t [] a = refl
mem-Apart t (u ∷ ts) a = rw a.0 (mem-Apart t ts a.1)

-- the ids of a batch, the last first, before those of an earlier one
abbrev push_all : List ℕ → List ℕ → List ℕ
push_all [] started = started
push_all (i ∷ is) started = push_all is (i ∷ started)

mem-push_all :
    (x : ℕ) (is started : List ℕ) → mem x (push_all is started) ≡ (mem x is || mem x started)
mem-push_all x [] started = refl
mem-push_all x (i ∷ is) started = mem-push_all x is (i ∷ started) ∙ ground arith

start_all-Mid :
    (n : ℕ) (started : List ℕ) (batch ts : List Task)
    → Pairs Apart batch
    → Mid n started (map task_id batch) ts
    → Mid n (push_all (map task_id batch) started) [] (start_all batch ts)
unfolding start_all
start_all-Mid n started [] ts a m = m
start_all-Mid n started (t ∷ batch) ts a m =
    start_all-Mid n (t.id ∷ started) batch (update t.id start ts) a.1
      (start-Mid n t.id started (map task_id batch) ts (mem-Apart t batch a.0) m)

finish_all-Mid :
    (n : ℕ) (results : ℕ → Outcome) (pos : ℕ) (batch ts : List Task)
    → Pairs Apart batch
    → Mid n (map task_id batch) [] ts
    → Mid n [] [] (finish_all results pos batch ts)
unfolding finish_all
finish_all-Mid n results pos [] ts a m = m
finish_all-Mid n results pos (t ∷ batch) ts a m =
    finish_all-Mid n results (pos + 1) batch (update t.id (finish (results pos)) ts) a.1
      (finish-Mid n t.id (map task_id batch) (results pos) ts (mem-Apart t batch a.0) m)

Phase-pushed : (is : List ℕ) (t : Task) → Phase (push_all is []) [] t → Phase is [] t
Phase-pushed is t p = (p.0, ground (arith, p.1, mem-push_all t.id is []), refl)

-- After the whole batch nothing runs and the invariant holds.
pub batch-Mid :
    (n : ℕ) (results : ℕ → Outcome) (batch ts : List Task)
    → Pairs Apart batch
    → Mid n [] (map task_id batch) ts
    → Mid n [] [] (finish_all results 0 batch (start_all batch ts))
batch-Mid n results batch ts a m =
    let ids = map task_id batch in
    let ran = start_all-Mid n [] batch ts a m in
    finish_all-Mid n results 0 batch (start_all batch ts) a (record {
      increasing = ran.increasing;
      counted = ran.counted;
      deps = ran.deps;
      unclashing = ran.unclashing;
      phase =
          All-map (Phase (push_all ids []) []) (Phase ids []) (Phase-pushed ids)
            (start_all batch ts) ran.phase;
    })
