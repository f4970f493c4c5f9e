-- ===== src/Access/Tests.antt =====
-- Principals, resources and key caches on concrete values.
use ai_powered_security_inve.Base.{
  ℕ, zero, suc, String, ◌≡◌, refl, Option, none, some, true, List, [], ◌∷◌, any,
}
use ai_powered_security_inve.Base.Dict.{lookup, insert}
use ai_powered_security_inve.Base.Exec.{ok}
use ai_powered_security_inve.Access.Roles.{
  Principal, investigation_act, detection_write, has_permission, permissions_for, role_of,
}
use ai_powered_security_inve.Access.Matrix.{has_permission_lem, role_grants}
use ai_powered_security_inve.Access.Resources.{ResourceContext, abac_check, abac_outcome, Explains}
use ai_powered_security_inve.Access.Claims.{
  Claims, principal_from_claims, principal_from_claims_outcome, StemsFrom,
}
use ai_powered_security_inve.Access.Keys.{Issuer, new_cache, get}

abbrev analyst : Principal
analyst = record {
  subject = "u1";
  username = "ana";
  tenant = "acme";
  roles = "janitor" ∷ "tier3_analyst" ∷ [];
  attributes = ("asset_clearance", "standard") ∷ [];
}

may_act : has_permission analyst investigation_act ≡ true
unfolding has_permission permissions_for role_of
may_act = refl

has_permission_lem_example :
    has_permission analyst detection_write ≡ any (role_grants detection_write) analyst.roles
has_permission_lem_example = has_permission_lem analyst detection_write

abbrev vault : ResourceContext
vault = record { tenant = "acme"; sensitivity = "crown_jewel"; owner_subject = some "u1" }

abac_outcome_example : Explains analyst vault (abac_check analyst vault)
abac_outcome_example = abac_outcome analyst vault

abbrev claims : Claims
claims = record {
  tenant = none;
  org = some "acme";
  realm_access = some (some ("auditor" ∷ []));
  sub = some "u1";
  preferred_username = none;
  asset_clearance = none;
  tier = none;
}

principal_from_claims_outcome_example :
    StemsFrom claims (some "acme") (principal_from_claims claims (some "acme"))
principal_from_claims_outcome_example = principal_from_claims_outcome claims (some "acme")

-- the second response brings the key
abbrev response : ℕ → Option (List (String × ℕ))
response zero = some []
response (suc n) = some (("k1", 7) ∷ [])

abbrev issuer : Issuer ℕ
issuer = record { ttl = 3600; response = response; now = λ n. n }

rotated : (get issuer "k1" new_cache).0 ≡ ok 7
unfolding get lookup insert
rotated = refl
