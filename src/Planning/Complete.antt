-- ===== src/Planning/Complete.antt =====
-- A graph with nothing running and nothing ready is finished: dependencies cannot deadlock.
use ai_powered_security_inve.Base.{
  ℕ, ◌≤◌, ◌<◌, ◌≡◌, refl, sym, ◌∙◌, Bool, true, false, List, [], ◌∷◌, ◌++◌, arith, All, All-append,
  Bool-cases, inl, inr, all, keep,
}
use mathlib.Core.List.{append_assoc}
use ai_powered_security_inve.Base.Sort.{sort, sort_insert}
use ai_powered_security_inve.Planning.Task.{Task, terminal, is_running}
use ai_powered_security_inve.Planning.Graph.{
  TaskGraph, find, ready, is_ready, is_done, deps_done, runs_before, all_terminal,
}
use ai_powered_security_inve.Planning.Scheduler.{is_empty}
use ai_powered_security_inve.Planning.Sound.{Increasing, DepsBelow, IsSound}

-- dependencies on finished tasks in front of unfinished later ones are finished
found_done :
    (d : ℕ) (pre suf : List Task)
    → All (λ t. terminal t ≡ true) pre
    → All (λ t. d < t.id) suf
    → is_done (find d (pre ++ suf)) ≡ true
unfolding find
found_done d [] [] p s = refl
found_done d [] (t ∷ suf) p s = ground (arith, found_done d [] suf p s.1)
found_done d (t ∷ pre) suf p s = ground (arith, found_done d pre suf p.1 s)

all_done :
    (ds : List ℕ) (n : ℕ) (pre suf : List Task)
    → All (λ t. terminal t ≡ true) pre
    → All (λ d. d < n) ds
    → All (λ t. n ≤ t.id) suf
    → all (λ d. is_done (find d (pre ++ suf))) ds ≡ true
all_done [] n pre suf p b s = refl
all_done (d ∷ ds) n pre suf p b s =
    ground (arith, found_done d pre suf p (weaken suf s), all_done ds n pre suf p b.1 s)
  where
    weaken : (xs : List Task) → All (λ t. n ≤ t.id) xs → All (λ t. d < t.id) xs
    weaken = elim [ [] ↦ λ a. tt | t ∷ (ts → ih) ↦ λ a. (omega (arith, b.0, a.0), ih a.1) ]

at_least : (t : Task) (ts : List Task) → All (λ u. t.id < u.id) ts → All (λ u. t.id ≤ u.id) ts
at_least t [] h = tt
at_least t (u ∷ ts) h = (omega arith, at_least t ts h.1)

none_kept : (p : Task → Bool) (ts : List Task) → keep p ts ≡ [] → All (λ t. p t ≡ false) ts
none_kept p [] h = tt
none_kept p (t ∷ ts) h = elim (Bool-cases (p t)) [
  | inl e ↦ cc (rw e at h)
  | inr e ↦ (e, none_kept p ts (rw e at h))
]

-- one after the other, every task is seen to be finished
finish_up :
    (ts pre suf : List Task)
    → ts ≡ pre ++ suf
    → All (λ t. terminal t ≡ true) pre
    → Increasing suf
    → All DepsBelow suf
    → All (λ t. is_running t.status ≡ false) suf
    → All (λ t. is_ready ts t ≡ false) suf
    → All (λ t. terminal t ≡ true) suf
finish_up ts pre [] e p c d i r = tt
finish_up ts pre (t ∷ suf) e p c d i r =
    let deps : deps_done ts t ≡ true =
      rw e (all_done t.depends_on t.id pre (t ∷ suf) p d.0 (omega arith, at_least t suf c.0)) in
    let done_now : terminal t ≡ true = ground (arith, deps, i.0, r.0) in
    (
      done_now,
      finish_up ts (pre ++ t ∷ []) suf (e ∙ sym (append_assoc pre (t ∷ []) suf))
          (All-append (λ u. terminal u ≡ true) pre (t ∷ []) p (done_now, tt)) c.1 d.1 i.1 r.1,
    )

all_of_All : (ts : List Task) → All (λ t. terminal t ≡ true) ts → all terminal ts ≡ true
all_of_All [] h = refl
all_of_All (t ∷ ts) h = rw h.0 (all_of_All ts h.1)

not_empty-sort_insert :
    (t : Task) (ts : List Task) → is_empty (sort_insert runs_before t ts) ≡ false
not_empty-sort_insert t [] = refl
not_empty-sort_insert t (u ∷ ts) = ground arith

sorted_empty : (ts : List Task) → is_empty (sort runs_before ts) ≡ true → ts ≡ []
unfolding sort
sorted_empty [] h = refl
sorted_empty (t ∷ ts) h = cc (not_empty-sort_insert t (sort runs_before ts))

-- In a sound graph in which no task runs, an empty `ready` means that every task is terminal: the
-- dependencies of a graph built by `add` never leave a pending task waiting for ever.
pub ready_empty :
    (g : TaskGraph)
    → IsSound g
    → All (λ t. is_running t.status ≡ false) g.tasks
    → is_empty (ready g) ≡ true
    → all_terminal g ≡ true
unfolding ready
ready_empty g s idle h = all_of_All g.tasks (
    finish_up g.tasks [] g.tasks refl tt s.increasing s.deps idle
      (none_kept (is_ready g.tasks) g.tasks (sorted_empty (keep (is_ready g.tasks) g.tasks) h)))
