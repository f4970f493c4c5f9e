-- ===== src/Approvals/Service.antt =====
-- `ApprovalService` of backend/app/engines/approvals/service.py, over any store that keeps the
-- protocol. Each method holds the lock from its first access of the store to its last, so a method
-- is one step. Logging is left out.
use ai_powered_security_inve.Base.{
  ℕ, ◌+◌, String, Option, none, some, Bool, not, List, [], ◌∷◌, if◌then◌else◌, ◌==◌, leb, keep,
}
use ai_powered_security_inve.Base.Exec.{ok, err, Exec}
use ai_powered_security_inve.Base.Sort.{sort}
use ai_powered_security_inve.Approvals.Types.{
  ApprovalStatus, pending, approved, rejected, executed, expired, is_pending, is_approved,
  same_status, PlaybookStep, ApprovalRequest, Package, ApprovalError, not_found, wrong_state,
  four_eyes,
}
use ai_powered_security_inve.Approvals.Store.{ApprovalStore}

-- What the service is given or asks the system for: the n-th reading of `now_fn`, the n-th
-- `uuid.uuid4()`, and the time to live.
pub record Env : Type 0 where
  pub now_fn : ℕ → ℕ
  pub uuid4 : ℕ → String
  pub ttl : ℕ

-- `self._store`, and how many readings and ids have been drawn
pub record Service (S : Type 0) : Type 0 where
  pub store : S
  pub readings : ℕ
  pub drawn : ℕ

-- `note or None`
abbrev pub or_none : String → Option String
or_none note = if note == "" then none else some note

abbrev pub newer : ApprovalRequest → ApprovalRequest → Bool
newer a b = leb b.requested_at a.requested_at

-- `if status is not None`, `if investigation_id is not None`
abbrev pub with_status : Option ApprovalStatus → List ApprovalRequest → List ApprovalRequest
with_status none rs = rs
with_status (some st) rs = keep (λ r. same_status r.status st) rs

abbrev pub with_investigation : Option String → List ApprovalRequest → List ApprovalRequest
with_investigation none rs = rs
with_investigation (some i) rs = keep (λ r. r.investigation_id == i) rs

module _ {S : Type 0} (st : ApprovalStore S) (env : Env) where
  -- `self._now()`
  abbrev pub time : Service S → ℕ
  time s = env.now_fn s.readings

  abbrev pub tick : Service S → Service S
  tick s = record s { readings = s.readings + 1 }

  -- `self._store.save(req)`
  abbrev pub store_save : ApprovalRequest → Service S → Service S
  store_save req s = record s { store = st.save req s.store }

  -- `_expire_if_due_locked`; the clock is read only for a pending request
  unfoldable pub expire_if_due : ApprovalRequest → Service S → ApprovalRequest × Service S
  expire_if_due req s =
      if is_pending req.status
      then (if leb req.expires_at (time s)
          then (
            record req { status = expired },
            store_save (record req { status = expired }) (tick s),
          )
          else (req, tick s))
      else (req, s)

  new_request : Package → String → ℕ → String → PlaybookStep → ApprovalRequest
  new_request pkg requested_by now id step = record {
    approval_id = id;
    tenant = pkg.tenant;
    investigation_id = pkg.investigation_id;
    step = step;
    status = pending;
    requested_by = requested_by;
    requested_at = now;
    expires_at = now + env.ttl;
    decided_by = none;
    decided_at = none;
    decision_note = none;
    executed_by = none;
    executed_at = none;
    execution_note = none;
  }

  -- the comprehension of `create_for_package`, which draws one id for each step that it takes
  unfoldable pub requests_for :
      Package → String → ℕ → List PlaybookStep → Service S → List ApprovalRequest × Service S
  unfolding new_request
  requests_for pkg by now [] s = ([], s)
  requests_for pkg by now (step ∷ steps) s =
      if step.requires_approval
      then (let (rest, s') = requests_for pkg by now steps (record s { drawn = s.drawn + 1 }) in
          (new_request pkg by now (env.uuid4 s.drawn) step ∷ rest, s'))
      else requests_for pkg by now steps s

  -- `for req in requests: self._store.add(req)`
  unfoldable pub add_all : List ApprovalRequest → Service S → Service S
  add_all [] s = s
  add_all (req ∷ reqs) s = add_all reqs (record s { store = st.add req s.store })

  unfoldable pub create_for_package :
      Package → String → Exec (Service S) ApprovalError (List ApprovalRequest)
  create_for_package pkg requested_by s =
      let (requests, s') = requests_for pkg requested_by (time s) pkg.playbook (tick s) in
      (ok requests, add_all requests s')

  -- what `get` does with the answer of the store
  unfoldable pub get_found : Option ApprovalRequest → Exec (Service S) ApprovalError ApprovalRequest
  unfolding expire_if_due
  get_found none s = (err not_found, s)
  get_found (some req) s = let (req', s') = expire_if_due req s in (ok req', s')

  unfoldable pub get : String → String → Exec (Service S) ApprovalError ApprovalRequest
  unfolding get_found
  get tenant approval_id s = get_found (st.get s.store tenant approval_id) s

  -- `for req in items: self._expire_if_due_locked(req)`
  unfoldable pub expire_all : List ApprovalRequest → Service S → List ApprovalRequest × Service S
  unfolding expire_if_due
  expire_all [] s = ([], s)
  expire_all (req ∷ reqs) s =
      let (req', s') = expire_if_due req s in
      let (reqs', s'') = expire_all reqs s' in (req' ∷ reqs', s'')

  unfoldable pub list :
      String
      → Option ApprovalStatus
      → Option String
      → Exec (Service S) ApprovalError (List ApprovalRequest)
  list tenant status investigation_id s =
      let (items, s') = expire_all (st.list s.store tenant) s in
      (ok (sort newer (with_investigation investigation_id (with_status status items))), s')

  -- the part of `decide` after the expiry
  unfoldable pub decide_current :
      String → Bool → String → ApprovalRequest → Exec (Service S) ApprovalError ApprovalRequest
  decide_current actor approve note req s =
      if not (is_pending req.status)
      then (err (wrong_state req.status), s)
      else if actor == req.requested_by
      then (err four_eyes, s)
      else (let req' = record req {
        status = if approve then approved else rejected;
        decided_by = some actor;
        decided_at = some (time s);
        decision_note = or_none note;
      } in
          (ok req', store_save req' (tick s)))

  unfoldable pub decide_found :
      String
      → Bool
      → String
      → Option ApprovalRequest
      → Exec (Service S) ApprovalError ApprovalRequest
  unfolding expire_if_due decide_current
  decide_found actor approve note none s = (err not_found, s)
  decide_found actor approve note (some req) s =
      let (req', s') = expire_if_due req s in decide_current actor approve note req' s'

  unfoldable pub decide :
      String → String → String → Bool → String → Exec (Service S) ApprovalError ApprovalRequest
  unfolding decide_found
  decide tenant approval_id actor approve note s =
      decide_found actor approve note (st.get s.store tenant approval_id) s

  unfoldable pub execute_found :
      String → String → Option ApprovalRequest → Exec (Service S) ApprovalError ApprovalRequest
  execute_found actor note none s = (err not_found, s)
  execute_found actor note (some req) s =
      if not (is_approved req.status)
      then (err (wrong_state req.status), s)
      else (let req' = record req {
        status = executed;
        executed_by = some actor;
        executed_at = some (time s);
        execution_note = or_none note;
      } in
          (ok req', store_save req' (tick s)))

  unfoldable pub mark_executed :
      String → String → String → String → Exec (Service S) ApprovalError ApprovalRequest
  unfolding execute_found
  mark_executed tenant approval_id actor note s =
      execute_found actor note (st.get s.store tenant approval_id) s
