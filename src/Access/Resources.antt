-- ===== src/Access/Resources.antt =====
-- The attribute-based gate of backend/app/core/authz.py.
use ai_powered_security_inve.Base.{
  String, ◌≡◌, ◌≢◌, ◌⊎◌, ◌∙◌, refl, ap, List, [], ◌∷◌, Option, none, some, Bool, true, false, not,
  ◌&&◌, ◌||◌, if◌then◌else◌, ◌==◌, any, arith, eq_iff, Bool-cases, inl, inr,
}
use ai_powered_security_inve.Base.Dict.{lookup}
use ai_powered_security_inve.Base.Sets.{is_in}
use ai_powered_security_inve.Base.Exec.{Result, ok, err}
use ai_powered_security_inve.Access.Roles.{
  Principal, ForbiddenError, cross_tenant, insufficient_clearance, missing_permission,
}

-- `ResourceContext`, of which no code reads the owner
pub record ResourceContext : Type 0 where
  pub tenant : String
  pub sensitivity : String
  pub owner_subject : Option String

-- `_is_privileged`
abbrev pub is_privileged : Principal → Bool
is_privileged principal =
    any (λ r. r == "super_admin" || r == "soc_manager" || r == "incident_responder") principal.roles

abbrev pub or_standard : Option String → String
or_standard none = "standard"
or_standard (some c) = c

-- `clearance in {"restricted", "crown_jewel"}`
abbrev pub is_cleared : Principal → Bool
is_cleared principal =
    let clearance = or_standard (lookup "asset_clearance" principal.attributes) in
    clearance == "restricted" || clearance == "crown_jewel"

unfoldable pub abac_check : Principal → ResourceContext → Result ForbiddenError Unit
abac_check principal resource =
    if not (principal.tenant == resource.tenant)
    then err cross_tenant
    else if resource.sensitivity == "crown_jewel"
    then (if not (is_cleared principal) && not (is_privileged principal)
        then err insufficient_clearance
        else ok tt)
    else ok tt

abbrev pub is_crown_jewel : ResourceContext → Bool
is_crown_jewel resource = resource.sensitivity == "crown_jewel"

-- The clearances and the roles that open a crown jewel.
pub data MayOpen (p : Principal) : Type 0 where
  restricted : lookup "asset_clearance" p.attributes ≡ some "restricted" → MayOpen p
  crown_jewel : lookup "asset_clearance" p.attributes ≡ some "crown_jewel" → MayOpen p
  super_admin : is_in "super_admin" p.roles ≡ true → MayOpen p
  soc_manager : is_in "soc_manager" p.roles ≡ true → MayOpen p
  incident_responder : is_in "incident_responder" p.roles ≡ true → MayOpen p

-- why a result is right
abbrev pub Explains : Principal → ResourceContext → Result ForbiddenError Unit → Type 0
Explains p r (ok _) = (p.tenant ≡ r.tenant) × ((r.sensitivity ≢ "crown_jewel") ⊎ MayOpen p)
Explains p r (err cross_tenant) = p.tenant ≢ r.tenant
Explains p r (err insufficient_clearance) =
    (p.tenant ≡ r.tenant) × (r.sensitivity ≡ "crown_jewel") × ¬ MayOpen p
Explains p r (err (missing_permission _)) = ⊥

cleared_by :
    (p : Principal) (found : Option String)
    → lookup "asset_clearance" p.attributes ≡ found
    → (or_standard found == "restricted" || or_standard found == "crown_jewel") ≡ true
    → MayOpen p
cleared_by p none e h = cc
cleared_by p (some x) e h = elim (Bool-cases (x == "restricted")) [
  | inl t ↦ restricted (e ∙ ap some ((eq_iff x "restricted").0 t))
  | inr f ↦ crown_jewel (e ∙ ap some ((eq_iff x "crown_jewel").0 (ground (arith, f))))
]

module _ (p : Principal) where
  one_of_three : is_privileged p ≡ (
      is_in "super_admin" p.roles
      || is_in "soc_manager" p.roles
      || is_in "incident_responder" p.roles)
  one_of_three = by_roles p.roles
    where
      by_roles :
          (roles : List String)
          → any (λ r. r == "super_admin" || r == "soc_manager" || r == "incident_responder") roles
            ≡ (is_in "super_admin" roles
                || is_in "soc_manager" roles
                || is_in "incident_responder" roles)
      by_roles [] = refl
      by_roles (r ∷ roles) = ground (arith, by_roles roles)

  privileged_by : is_privileged p ≡ true → MayOpen p
  privileged_by h = elim (Bool-cases (is_in "super_admin" p.roles)) [
    | inl a ↦ super_admin a
    | inr a ↦ elim (Bool-cases (is_in "soc_manager" p.roles)) [
      | inl b ↦ soc_manager b
      | inr b ↦ incident_responder (ground (arith, one_of_three))
    ]
  ]

  shut : is_cleared p ≡ false → is_privileged p ≡ false → ¬ MayOpen p
  shut c v (restricted e) = cc (rw e at c)
  shut c v (crown_jewel e) = cc (rw e at c)
  shut c v (super_admin e) = ground (arith, one_of_three)
  shut c v (soc_manager e) = ground (arith, one_of_three)
  shut c v (incident_responder e) = ground (arith, one_of_three)

-- The attribute check lets through only principals of the resource's tenant, and to a crown jewel only
-- those whose clearance is "restricted" or "crown_jewel" or who are a super admin, a SOC manager or an
-- incident responder; it refuses for another tenant, or for a crown jewel that none of these opens.
pub abac_outcome :
    (principal : Principal) (resource : ResourceContext)
    → Explains principal resource (abac_check principal resource)
unfolding abac_check
abac_outcome p r = elim (Bool-cases (p.tenant == r.tenant)) [
  | inr other ↦ rw other (λ e. cc ((eq_iff p.tenant r.tenant).1 e))
  | inl same ↦
      let t = (eq_iff p.tenant r.tenant).0 same in
      elim (Bool-cases (is_crown_jewel r)) [
        | inr plain ↦ rw (same, plain) (t, inl (λ e. cc ((eq_iff r.sensitivity "crown_jewel").1 e)))
        | inl jewel ↦ elim (Bool-cases (is_cleared p)) [
          | inl cleared ↦
              rw (same, jewel, cleared)
                (t, inr (cleared_by p (lookup "asset_clearance" p.attributes) refl cleared))
          | inr low ↦ elim (Bool-cases (is_privileged p)) [
            | inl high ↦ rw (same, jewel, low, high) (t, inr (privileged_by p high))
            | inr no_role ↦
                rw (same, jewel, low, no_role)
                  (t, (eq_iff r.sensitivity "crown_jewel").0 jewel, shut p low no_role)
          ]
        ]
      ]
]
