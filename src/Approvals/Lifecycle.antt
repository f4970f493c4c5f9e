-- ===== src/Approvals/Lifecycle.antt =====
-- The documented lifecycle of a request (backend/app/schemas/approval.py) as a step relation, and
-- what is true of every request that follows it.
use mathlib.Core.Path.{subst}
use ai_powered_security_inve.Base.{
  true, false, sym, ℕ, String, ◌≡◌, ◌≢◌, refl, ◌⊎◌, ◌∙◌, Option, none, some, arith, Bool,
  if◌then◌else◌,
}
use ai_powered_security_inve.Approvals.Types.{
  ApprovalStatus, pending, approved, rejected, executed, expired, ApprovalRequest,
}

-- PENDING goes to APPROVED or REJECTED by another person's decision or to EXPIRED, APPROVED goes to
-- EXECUTED, and nothing else happens. Each constructor says which fields change.
pub data Transition (r : ApprovalRequest) : ApprovalRequest → Type 0 where
  decision :
      (approve : Bool) (actor : String) (at : ℕ) (text : Option String)
      → r.status ≡ pending
      → actor ≢ r.requested_by
      → Transition r (record r {
        status = if approve then approved else rejected;
        decided_by = some actor;
        decided_at = some at;
        decision_note = text;
      })
  expiry : r.status ≡ pending → Transition r (record r { status = expired })
  execution :
      (actor : String) (at : ℕ) (text : Option String)
      → r.status ≡ approved
      → Transition r (record r {
        status = executed;
        executed_by = some actor;
        executed_at = some at;
        execution_note = text;
      })

pub data Lifecycle (r : ApprovalRequest) : ApprovalRequest → Type 0 where
  here : Lifecycle r r
  next : {q q' : ApprovalRequest} → Lifecycle r q → Transition q q' → Lifecycle r q'

pub Lifecycle-trans : {a b c : ApprovalRequest} → Lifecycle a b → Lifecycle b c → Lifecycle a c
Lifecycle-trans p here = p
Lifecycle-trans p (next q t) = next (Lifecycle-trans p q) t

-- a request as `create_for_package` makes it
pub record IsNew (r : ApprovalRequest) : Type 0 where
  pub is_pending : r.status ≡ pending
  pub undecided : r.decided_by ≡ none
  pub unexecuted : r.executed_by ≡ none

-- The four-eyes rule on the data of a request: who decided it is somebody else than who asked.
abbrev pub ByAnother : ApprovalRequest → Type 0
ByAnother r = (actor : String) × (r.decided_by ≡ some actor) × (actor ≢ r.requested_by)

-- The fields that a request of each status has.
abbrev pub FieldsFit : ApprovalStatus → ApprovalRequest → Type 0
FieldsFit pending r = (r.decided_by ≡ none) × (r.executed_by ≡ none)
FieldsFit expired r = (r.decided_by ≡ none) × (r.executed_by ≡ none)
FieldsFit approved r = ByAnother r × (r.executed_by ≡ none)
FieldsFit rejected r = ByAnother r × (r.executed_by ≡ none)
FieldsFit executed r = ByAnother r × ((actor : String) × (r.executed_by ≡ some actor))

abbrev pub IsConsistent : ApprovalRequest → Type 0
IsConsistent r = FieldsFit r.status r

pub IsNew-IsConsistent : {r : ApprovalRequest} → IsNew r → IsConsistent r
IsNew-IsConsistent h = rw h.is_pending (h.undecided, h.unexecuted)

fit_as : {a b : ApprovalStatus} (r : ApprovalRequest) → a ≡ b → FieldsFit a r → FieldsFit b r
fit_as r e h = subst (λ st. FieldsFit st r) e h

Transition-IsConsistent : {r q : ApprovalRequest} → Transition r q → IsConsistent r → IsConsistent q
Transition-IsConsistent {r} (decision true actor at text p ne) h =
    ((actor, refl, ne), (fit_as r p h).1)
Transition-IsConsistent {r} (decision false actor at text p ne) h =
    ((actor, refl, ne), (fit_as r p h).1)
Transition-IsConsistent {r} (expiry p) h = fit_as r p h
Transition-IsConsistent {r} (execution actor at text p) h = ((fit_as r p h).0, (actor, refl))

pub Lifecycle-IsConsistent :
    {r q : ApprovalRequest} → Lifecycle r q → IsConsistent r → IsConsistent q
Lifecycle-IsConsistent here h = h
Lifecycle-IsConsistent (next l t) h = Transition-IsConsistent t (Lifecycle-IsConsistent l h)

-- what names a request and says who asked for what, and until when
pub record SameRequest (r q : ApprovalRequest) : Type 0 where
  pub approval_id : r.approval_id ≡ q.approval_id
  pub tenant : r.tenant ≡ q.tenant
  pub investigation_id : r.investigation_id ≡ q.investigation_id
  pub step : r.step ≡ q.step
  pub requested_by : r.requested_by ≡ q.requested_by
  pub expires_at : r.expires_at ≡ q.expires_at

Transition-SameRequest : {r q : ApprovalRequest} → Transition r q → SameRequest r q
Transition-SameRequest (decision approve actor at text p ne) = record {
  approval_id = refl;
  tenant = refl;
  investigation_id = refl;
  step = refl;
  requested_by = refl;
  expires_at = refl;
}
Transition-SameRequest (expiry p) = record {
  approval_id = refl;
  tenant = refl;
  investigation_id = refl;
  step = refl;
  requested_by = refl;
  expires_at = refl;
}
Transition-SameRequest (execution actor at text p) = record {
  approval_id = refl;
  tenant = refl;
  investigation_id = refl;
  step = refl;
  requested_by = refl;
  expires_at = refl;
}

pub Lifecycle-SameRequest : {r q : ApprovalRequest} → Lifecycle r q → SameRequest r q
Lifecycle-SameRequest here = record {
  approval_id = refl;
  tenant = refl;
  investigation_id = refl;
  step = refl;
  requested_by = refl;
  expires_at = refl;
}
Lifecycle-SameRequest (next l t) =
    let a = Lifecycle-SameRequest l in
    let b = Transition-SameRequest t in
    record {
      approval_id = a.approval_id ∙ b.approval_id;
      tenant = a.tenant ∙ b.tenant;
      investigation_id = a.investigation_id ∙ b.investigation_id;
      step = a.step ∙ b.step;
      requested_by = a.requested_by ∙ b.requested_by;
      expires_at = a.expires_at ∙ b.expires_at;
    }

abbrev pub IsFinal : ApprovalStatus → Type 0
IsFinal st = (st ≡ rejected) ⊎ (st ≡ executed) ⊎ (st ≡ expired)

Transition-not-IsFinal : {r q : ApprovalRequest} → Transition r q → ¬ IsFinal r.status
Transition-not-IsFinal (decision approve actor at text p ne) h = ground arith
Transition-not-IsFinal (expiry p) h = ground arith
Transition-not-IsFinal (execution actor at text p) h = ground arith

-- A rejected, executed or expired request never changes again.
pub Lifecycle-final : {r q : ApprovalRequest} → IsFinal r.status → Lifecycle r q → q ≡ r
Lifecycle-final h here = refl
Lifecycle-final {r} h (next {q = p} l t) =
    absurd (Transition-not-IsFinal t (subst (λ a. IsFinal a.status) (sym (Lifecycle-final h l)) h))
