-- ===== src/Dispatch/Dispatcher.antt =====
-- `InvestigationDispatcher` of backend/app/orchestrator/dispatch.py in the inline mode, over the
-- in-memory repository. A submission is one step, and the end of a supervised task is another.
use ai_powered_security_inve.Base.{
  ℕ, zero, suc, ◌+◌, ◌-◌, String, Option, none, some, List, [], ◌∷◌, ◌++◌, if◌then◌else◌, leb,
}
use ai_powered_security_inve.Base.Exec.{ok, err, Exec}
use ai_powered_security_inve.Schemas.Common.{InvestigationStatus, queued, complete, failed}
use ai_powered_security_inve.Stores.Investigations.{InvestigationPackage, Repo, save}

-- what a task of `_tasks` was created with
pub record Ticket : Type 0 where
  pub tenant : String
  pub investigation_id : String

pub record Dispatcher : Type 0 where
  pub inflight : ℕ
  pub tasks : List Ticket
  pub repo : Repo
  -- how many ids were drawn, and how often the clock was read
  pub drawn : ℕ
  pub readings : ℕ

pub record Settings : Type 0 where
  pub limit : ℕ
  pub uuid4 : ℕ → String
  pub now : ℕ → ℕ

pub data CapacityError : Type 0 where
  at_capacity : CapacityError

abbrev pub package_of : Ticket → InvestigationStatus → ℕ → InvestigationPackage
package_of t status created_at = record {
  tenant = t.tenant;
  investigation_id = t.investigation_id;
  status = status;
  created_at = created_at;
}

module _ (set : Settings) where
  -- a package without a result, saved with the time of its creation
  abbrev pub save_as : Ticket → InvestigationStatus → Dispatcher → Dispatcher
  save_as t status d = record d {
    repo = save (package_of t status (set.now d.readings)) d.repo;
    readings = d.readings + 1;
  }

  -- `_submit_inline`
  unfoldable pub submit_inline : Ticket → Exec Dispatcher CapacityError String
  submit_inline t d = if leb set.limit d.inflight then (err at_capacity, d) else (
    ok t.investigation_id,
    record d { inflight = d.inflight + 1; tasks = d.tasks ++ t ∷ [] },
  )

  abbrev pub drawn_ticket : String → Dispatcher → Ticket
  drawn_ticket tenant d = record { tenant = tenant; investigation_id = set.uuid4 d.drawn }

  unfoldable pub submit : String → Exec Dispatcher CapacityError String
  submit tenant d =
      submit_inline (drawn_ticket tenant d)
        (save_as (drawn_ticket tenant d) queued (record d { drawn = d.drawn + 1 }))

  -- `_run_supervised` from its result on: the time of the complete package, none for an exception
  abbrev pub conclude : Ticket → Option ℕ → Dispatcher → Dispatcher
  conclude t none d = save_as t failed d
  conclude t (some created_at) d = record d {
    repo = save (package_of t complete created_at) d.repo;
  }

  abbrev pub ticket_at : ℕ → List Ticket → Option Ticket
  ticket_at n [] = none
  ticket_at zero (t ∷ ts) = some t
  ticket_at (suc n) (t ∷ ts) = ticket_at n ts

  -- `self._tasks.discard`
  abbrev pub without : ℕ → List Ticket → List Ticket
  without n [] = []
  without zero (t ∷ ts) = ts
  without (suc n) (t ∷ ts) = t ∷ without n ts

  abbrev pub finish_ticket : ℕ → Option ℕ → Option Ticket → Dispatcher → Dispatcher
  finish_ticket n result none d = d
  finish_ticket n result (some t) d =
      let saved = conclude t result d in
      record saved { inflight = saved.inflight - 1; tasks = without n saved.tasks }

  -- the task at a position ends
  unfoldable pub finish : ℕ → Option ℕ → Dispatcher → Dispatcher
  finish n result d = finish_ticket n result (ticket_at n d.tasks) d
