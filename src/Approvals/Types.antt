-- ===== src/Approvals/Types.antt =====
-- backend/app/schemas/approval.py and `PlaybookStep` of backend/app/schemas/investigation.py.
-- Timestamps are numbers; a note is any text, as the bound on its length is checked by Pydantic.
use ai_powered_security_inve.Base.{ℕ, String, Option, Bool, true, false, List}

pub data ApprovalStatus : Type 0 where
  pending approved rejected executed expired : ApprovalStatus

abbrev pub is_pending : ApprovalStatus → Bool
is_pending pending = true
is_pending _ = false

abbrev pub is_approved : ApprovalStatus → Bool
is_approved approved = true
is_approved _ = false

-- `r.status is status`
abbrev pub same_status : ApprovalStatus → ApprovalStatus → Bool
same_status pending pending = true
same_status approved approved = true
same_status rejected rejected = true
same_status executed executed = true
same_status expired expired = true
same_status _ _ = false

pub record PlaybookStep : Type 0 where
  pub phase : String
  pub action : String
  pub rationale : String
  pub requires_approval : Bool

pub record ApprovalRequest : Type 0 where
  pub approval_id : String
  pub tenant : String
  pub investigation_id : String
  pub step : PlaybookStep
  pub status : ApprovalStatus
  pub requested_by : String
  pub requested_at : ℕ
  pub expires_at : ℕ
  pub decided_by : Option String
  pub decided_at : Option ℕ
  pub decision_note : Option String
  pub executed_by : Option String
  pub executed_at : Option ℕ
  pub execution_note : Option String

-- what `create_for_package` reads of an `InvestigationPackage`
pub record Package : Type 0 where
  pub tenant : String
  pub investigation_id : String
  pub playbook : List PlaybookStep

-- `ApprovalNotFound`, and the two reasons for which `ApprovalError` is raised
pub data ApprovalError : Type 0 where
  not_found : ApprovalError
  wrong_state : ApprovalStatus → ApprovalError
  four_eyes : ApprovalError
