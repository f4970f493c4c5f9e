-- ===== src/Schemas/Findings.antt =====
-- What an investigation collects: `TimelineEvent`, `MitreTechnique`, `Evidence` and `DetectionMatch` of
-- backend/app/schemas/investigation.py. Times are natural numbers.
use ai_powered_security_inve.Base.{ℕ, String, Option, List}
use ai_powered_security_inve.Base.Dict.{Dict}
use ai_powered_security_inve.Schemas.Common.{Severity}

pub record MitreTechnique : Type 0 where
  pub technique_id : String
  pub name : String
  pub tactic : String

pub record DetectionMatch : Type 0 where
  pub rule_id : String
  pub title : String
  pub severity : Severity
  pub techniques : List MitreTechnique
  pub matched_fields : Dict String
  pub tags : List String

pub record TimelineEvent : Type 0 where
  pub timestamp : ℕ
  pub actor : Option String
  pub action : String
  pub detail : Option String
  pub source : Option String

pub record Evidence : Type 0 where
  pub kind : String
  pub label : String
  pub sha256 : String
  pub uri : String
  pub collected_at : ℕ
