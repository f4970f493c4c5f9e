-- ===== src/Access/Roles.antt =====
-- Roles, permissions and the RBAC matrix of backend/app/core/authz.py. A frozenset is a list, of
-- which the code asks only for membership.
use ai_powered_security_inve.Base.{
  String, Option, none, some, Bool, ◌||◌, List, [], ◌∷◌, ◌++◌, if◌then◌else◌, ◌==◌, any,
}
use ai_powered_security_inve.Base.Dict.{Dict}
use ai_powered_security_inve.Base.Exec.{Result, ok, err}

pub data Role : Type 0 where
  super_admin soc_manager tier1 tier2 tier3 threat_hunter incident_responder auditor : Role

pub data Permission : Type 0 where
  alert_ingest investigation_read investigation_create investigation_act ioc_read copilot_query
        ticket_create audit_read detection_read detection_write hunt_run agent_run admin :
      Permission

-- the value of a member of `Permission`, a StrEnum
abbrev pub value : Permission → String
value alert_ingest = "alert:ingest"
value investigation_read = "investigation:read"
value investigation_create = "investigation:create"
value investigation_act = "investigation:act"
value ioc_read = "ioc:read"
value copilot_query = "copilot:query"
value ticket_create = "ticket:create"
value audit_read = "audit:read"
value detection_read = "detection:read"
value detection_write = "detection:write"
value hunt_run = "hunt:run"
value agent_run = "agent:run"
value admin = "admin:*"

-- `perm in grants`
abbrev pub grants : Permission → List Permission → Bool
grants perm = any (λ p. value p == value perm)

-- `Role(role_name)`, none where it raises ValueError
unfoldable pub role_of : String → Option Role
role_of name =
    if name == "super_admin"
    then some super_admin
    else if name == "soc_manager"
    then some soc_manager
    else if name == "tier1_analyst"
    then some tier1
    else if name == "tier2_analyst"
    then some tier2
    else if name == "tier3_analyst"
    then some tier3
    else if name == "threat_hunter"
    then some threat_hunter
    else if name == "incident_responder"
    then some incident_responder
    else if name == "auditor"
    then some auditor
    else none

-- `ROLE_PERMISSIONS`
abbrev pub role_permissions : Role → List Permission
role_permissions super_admin =
    alert_ingest ∷ investigation_read ∷ investigation_create ∷ investigation_act ∷ ioc_read
    ∷ copilot_query ∷ ticket_create ∷ audit_read ∷ detection_read ∷ detection_write ∷ hunt_run
    ∷ agent_run ∷ admin ∷ []
role_permissions soc_manager =
    investigation_read ∷ investigation_create ∷ ioc_read ∷ copilot_query ∷ ticket_create
    ∷ audit_read ∷ detection_read ∷ []
role_permissions tier1 = investigation_read ∷ ioc_read ∷ copilot_query ∷ detection_read ∷ []
role_permissions tier2 =
    alert_ingest ∷ investigation_read ∷ investigation_create ∷ ioc_read ∷ copilot_query
    ∷ ticket_create ∷ detection_read ∷ hunt_run ∷ agent_run ∷ []
role_permissions tier3 =
    alert_ingest ∷ investigation_read ∷ investigation_create ∷ investigation_act ∷ ioc_read
    ∷ copilot_query ∷ ticket_create ∷ detection_read ∷ detection_write ∷ hunt_run ∷ agent_run ∷ []
role_permissions threat_hunter =
    investigation_read ∷ investigation_create ∷ ioc_read ∷ copilot_query ∷ detection_read
    ∷ detection_write ∷ hunt_run ∷ agent_run ∷ []
role_permissions incident_responder =
    investigation_read ∷ investigation_create ∷ investigation_act ∷ ioc_read ∷ copilot_query
    ∷ ticket_create ∷ detection_read ∷ hunt_run ∷ agent_run ∷ []
role_permissions auditor = investigation_read ∷ audit_read ∷ detection_read ∷ []

-- the grants of a role by its name, nothing for an unknown one
abbrev pub named : Option Role → List Permission
named none = []
named (some r) = role_permissions r

-- `Principal` of backend/app/core/security.py
pub record Principal : Type 0 where
  pub subject : String
  pub username : String
  pub tenant : String
  pub roles : List String
  pub attributes : Dict String

-- `permissions_for`, on the names of the roles
unfoldable pub permissions_for : List String → List Permission
permissions_for [] = []
permissions_for (name ∷ names) = named (role_of name) ++ permissions_for names

unfoldable pub has_permission : Principal → Permission → Bool
has_permission principal perm =
    let held = permissions_for principal.roles in grants admin held || grants perm held

-- `ForbiddenError`, by its reason
pub data ForbiddenError : Type 0 where
  missing_permission : Permission → ForbiddenError
  cross_tenant insufficient_clearance : ForbiddenError

unfoldable pub require_permission : Principal → Permission → Result ForbiddenError Unit
require_permission principal perm =
    if has_permission principal perm then ok tt else err (missing_permission perm)
