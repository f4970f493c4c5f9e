-- ===== src/Planning/Attempts.antt =====
-- A batch adds one attempt to the graph for each of its tasks.
use ai_powered_security_inve.Base.{
  ℕ, ◌+◌, ◌<◌, ◌≡◌, refl, ◌∙◌, true, List, [], ◌∷◌, eqb, arith, All, sum_by, Bool-cases, inl, inr,
  is_some, length,
}
use ai_powered_security_inve.Planning.Task.{Task}
use ai_powered_security_inve.Planning.Graph.{find, update}
use ai_powered_security_inve.Planning.Scheduler.{Outcome, start, finish, start_all, finish_all}
use ai_powered_security_inve.Planning.Sound.{Increasing, attempts_of}
use ai_powered_security_inve.Planning.Updates.{Increasing-update, find-update}
use ai_powered_security_inve.Planning.Batch.{start-KeepsIdentity}

sum-update_absent :
    (i : ℕ) (ts : List Task)
    → All (λ u. i < u.id) ts
    → sum_by attempts_of (update i start ts) ≡ sum_by attempts_of ts
unfolding update
sum-update_absent i [] h = refl
sum-update_absent i (t ∷ ts) h = ground (arith, sum-update_absent i ts h.1)

moved :
    (t : Task) (i : ℕ) (ts : List Task)
    → eqb t.id i ≡ true
    → All (λ u. t.id < u.id) ts
    → All (λ u. i < u.id) ts
moved t i [] e h = tt
moved t i (u ∷ ts) e h = (ground arith, moved t i ts e h.1)

sum-update-start :
    (i : ℕ) (ts : List Task)
    → Increasing ts
    → is_some (find i ts) ≡ true
    → sum_by attempts_of (update i start ts) ≡ sum_by attempts_of ts + 1
unfolding update find
sum-update-start i [] c h = cc
sum-update-start i (t ∷ ts) c h = elim (Bool-cases (eqb t.id i)) [
  | inl e ↦ ground (arith, sum-update_absent i ts (moved t i ts e c.0))
  | inr e ↦ ground (arith, sum-update-start i ts c.1)
]

sum-update-finish :
    (i : ℕ) (o : Outcome) (ts : List Task)
    → sum_by attempts_of (update i (finish o) ts) ≡ sum_by attempts_of ts
unfolding update
sum-update-finish i o [] = refl
sum-update-finish i o (t ∷ ts) = ground (arith, sum-update-finish i o ts)

-- every task of the batch is in the list
abbrev pub Present : List Task → List Task → Type 0
Present ts batch = All (λ t. is_some (find t.id ts) ≡ true) batch

Present-start :
    (i : ℕ) (batch ts : List Task) → Present ts batch → Present (update i start ts) batch
Present-start i [] ts h = tt
Present-start i (t ∷ batch) ts h =
    (find-update i start start-KeepsIdentity t.id ts ∙ h.0, Present-start i batch ts h.1)

pub sum-start_all :
    (batch ts : List Task)
    → Increasing ts
    → Present ts batch
    → sum_by attempts_of (start_all batch ts) ≡ sum_by attempts_of ts + length batch
unfolding start_all
sum-start_all [] ts c h = omega arith
sum-start_all (t ∷ batch) ts c h = omega (
  arith,
  sum-start_all batch (update t.id start ts) (Increasing-update t.id start start-KeepsIdentity ts c)
      (Present-start t.id batch ts h.1),
  sum-update-start t.id ts c h.0,
)

pub sum-finish_all :
    (results : ℕ → Outcome) (pos : ℕ) (batch ts : List Task)
    → sum_by attempts_of (finish_all results pos batch ts) ≡ sum_by attempts_of ts
unfolding finish_all
sum-finish_all results pos [] ts = refl
sum-finish_all results pos (t ∷ batch) ts =
    sum-finish_all results (pos + 1) batch (update t.id (finish (results pos)) ts)
    ∙ sum-update-finish t.id (results pos) ts
