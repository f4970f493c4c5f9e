-- ===== src/Schemas/Common.antt =====
-- The enumerations of backend/app/schemas/common.py.
use ai_powered_security_inve.Base.{String, Bool, true, false}

pub data Severity : Type 0 where
  critical high medium low info : Severity

-- the value of a severity, a StrEnum
abbrev pub severity_value : Severity → String
severity_value critical = "critical"
severity_value high = "high"
severity_value medium = "medium"
severity_value low = "low"
severity_value info = "info"

pub data Verdict : Type 0 where
  malicious suspicious benign unknown : Verdict

abbrev pub is_malicious : Verdict → Bool
is_malicious malicious = true
is_malicious _ = false

abbrev pub is_suspicious : Verdict → Bool
is_suspicious suspicious = true
is_suspicious _ = false

abbrev pub is_benign : Verdict → Bool
is_benign benign = true
is_benign _ = false

pub data InvestigationStatus : Type 0 where
  queued running complete failed : InvestigationStatus
