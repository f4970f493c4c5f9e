-- ===== src/Planning/Task.antt =====
-- backend/app/agents/planning/task.py. The id `f"t{n}"` of a task is the number `n`, and the empty
-- id of a task that no graph has taken is 0; `duration_ms` is left out.
use Prim.Native.String.{◌++◌ as cat}
use ai_powered_security_inve.Base.{
  ℕ, String, Bool, true, false, List, ◌==◌, if◌then◌else◌, ltb, ◌&&◌,
}
use ai_powered_security_inve.Planning.Json.{Params, dumps}

pub data TaskStatus : Type 0 where
  pending running done failed skipped : TaskStatus

abbrev pub is_pending : TaskStatus → Bool
is_pending pending = true
is_pending _ = false

abbrev pub is_running : TaskStatus → Bool
is_running running = true
is_running _ = false

-- `DEFAULT_PRIORITY.get(tool, 50)`
unfoldable pub default_priority : String → ℕ
default_priority tool =
    if tool == "run_detections"
    then 90
    else if tool == "fetch_email_context"
    then 90
    else if tool == "extract_iocs"
    then 80
    else if tool == "enrich_iocs"
    then 70
    else if tool == "detonate_attachment"
    then 60
    else if tool == "hunt_edr"
    then 50
    else 50

unfoldable pub dedup_key : String → Params → String
dedup_key tool params = cat tool (cat ":" (dumps params))

pub record Task : Type 0 where
  pub id : ℕ
  pub tool : String
  pub reason : String
  pub params : Params
  pub priority : ℕ
  pub depends_on : List ℕ
  pub status : TaskStatus
  pub attempts : ℕ
  pub max_attempts : ℕ
  pub wave : ℕ
  pub outcome : String
  pub success : Bool

-- `task.key`
abbrev pub key : Task → String
key t = dedup_key t.tool t.params

abbrev pub is_terminal : TaskStatus → Bool
is_terminal done = true
is_terminal failed = true
is_terminal skipped = true
is_terminal _ = false

-- `task.terminal`
abbrev pub terminal : Task → Bool
terminal t = is_terminal t.status

-- `task.retryable`
pub retryable : Task → Bool
retryable t = is_pending t.status && ltb 0 t.attempts
