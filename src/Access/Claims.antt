-- ===== src/Access/Claims.antt =====
-- `principal_from_claims` of backend/app/core/security.py, on claims whose values are texts and, for
-- the roles, lists of texts.
use ai_powered_security_inve.Base.{
  String, ◌≡◌, refl, Option, none, some, Bool, true, false, not, ◌&&◌, List, [], ◌∷◌, if◌then◌else◌,
  ◌==◌, arith, Bool-cases, inl, inr, ◌⊎◌, ap, eq_iff,
}
use ai_powered_security_inve.Base.Exec.{Result, ok, err}
use ai_powered_security_inve.Access.Roles.{Principal}

-- the verified claims that are read, each with what `.get` finds
pub record Claims : Type 0 where
  pub tenant : Option String
  pub org : Option String
  pub realm_access : Option (Option (List String))
  pub sub : Option String
  pub preferred_username : Option String
  pub asset_clearance : Option String
  pub tier : Option String

-- the two refusals, and the KeyError of `claims["sub"]`
pub data ClaimError : Type 0 where
  missing_tenant tenant_mismatch missing_subject : ClaimError

-- a text that may be missing, as the empty text
abbrev pub or_empty : Option String → String
or_empty none = ""
or_empty (some s) = s

abbrev pub or_text : String → Option String → String
or_text d none = d
or_text d (some s) = s

abbrev pub is_blank : String → Bool
is_blank s = s == ""

-- `claims.get("tenant") or claims.get("org")`
abbrev pub signed_tenant : Claims → String
signed_tenant c = if is_blank (or_empty c.tenant) then or_empty c.org else or_empty c.tenant

-- `claims.get("realm_access", {}).get("roles", [])`
abbrev pub realm_roles : Option (Option (List String)) → List String
realm_roles (some (some roles)) = roles
realm_roles (some none) = []
realm_roles none = []

abbrev pub principal_of : Claims → String → Principal
principal_of c sub = record {
  subject = sub;
  username = or_text sub c.preferred_username;
  tenant = signed_tenant c;
  roles = realm_roles c.realm_access;
  attributes =
      ("asset_clearance", or_text "standard" c.asset_clearance) ∷ ("tier", or_text "" c.tier) ∷ [];
}

abbrev pub with_subject : Claims → Option String → Result ClaimError Principal
with_subject c none = err missing_subject
with_subject c (some sub) = ok (principal_of c sub)

unfoldable pub principal_from_claims : Claims → Option String → Result ClaimError Principal
principal_from_claims c tenant_header =
    let header = or_empty tenant_header in
    if is_blank (signed_tenant c)
    then err missing_tenant
    else if not (is_blank header) && not (header == signed_tenant c)
    then err tenant_mismatch
    else with_subject c c.sub

-- a claim that is not there, or is the empty text
abbrev pub IsAbsent : Option String → Type 0
IsAbsent claim = (claim ≡ none) ⊎ (claim ≡ some "")

-- The tenant of the claims is the claim `tenant`, and where that is absent the claim `org`.
pub data HasTenant (c : Claims) : String → Type 0 where
  by_tenant : (name : String) → c.tenant ≡ some name → (name == "") ≡ false → HasTenant c name
  by_org :
      (name : String)
      → IsAbsent c.tenant
      → c.org ≡ some name
      → (name == "") ≡ false
      → HasTenant c name

-- The roles of the claims are those of the realm, and none where it names none.
abbrev pub HasRoles : Claims → List String → Type 0
HasRoles c roles =
    (c.realm_access ≡ some (some roles))
    ⊎ (((c.realm_access ≡ none) ⊎ (c.realm_access ≡ some none)) × (roles ≡ []))

-- what a principal has to do with the claims and the header it comes from
pub record Stems (c : Claims) (tenant_header : Option String) (p : Principal) : Type 0 where
  pub tenant : HasTenant c p.tenant
  pub header : IsAbsent tenant_header ⊎ (tenant_header ≡ some p.tenant)
  pub subject : c.sub ≡ some p.subject
  pub roles : HasRoles c p.roles

-- what a result has to do with the claims and the header
abbrev pub StemsFrom : Claims → Option String → Result ClaimError Principal → Type 0
StemsFrom c h (ok p) = Stems c h p
StemsFrom c h (err missing_tenant) = IsAbsent c.tenant × IsAbsent c.org
StemsFrom c h (err tenant_mismatch) =
    (name : String) × HasTenant c name
    × (other : String) × (h ≡ some other)
    × ((other == "") ≡ false)
    × ((other == name) ≡ false)
StemsFrom c h (err missing_subject) =
    (c.sub ≡ none) × ((name : String) × HasTenant c name × (IsAbsent h ⊎ (h ≡ some name)))

IsAbsent-of : (claim : Option String) → is_blank (or_empty claim) ≡ true → IsAbsent claim
IsAbsent-of none h = inl refl
IsAbsent-of (some s) h = inr (ap some ((eq_iff s "").0 h))

present_of :
    (claim : Option String) → is_blank (or_empty claim) ≡ false → claim ≡ some (or_empty claim)
present_of none h = cc
present_of (some s) h = refl

HasTenant-signed_tenant :
    (c : Claims) → is_blank (signed_tenant c) ≡ false → HasTenant c (signed_tenant c)
HasTenant-signed_tenant c h = elim (Bool-cases (is_blank (or_empty c.tenant))) [
  | inl absent ↦
      let org : is_blank (or_empty c.org) ≡ false = rw absent at h in
      rw absent (by_org (or_empty c.org) (IsAbsent-of c.tenant absent) (present_of c.org org) org)
  | inr there ↦ rw there (by_tenant (or_empty c.tenant) (present_of c.tenant there) there)
]

both-IsAbsent :
    (c : Claims) → is_blank (signed_tenant c) ≡ true → IsAbsent c.tenant × IsAbsent c.org
both-IsAbsent c h = elim (Bool-cases (is_blank (or_empty c.tenant))) [
  | inl absent ↦ (IsAbsent-of c.tenant absent, IsAbsent-of c.org (rw absent at h))
  | inr there ↦ cc
]

header_fits :
    (h : Option String) (name : String)
    → (not (is_blank (or_empty h)) && not (or_empty h == name)) ≡ false
    → IsAbsent h ⊎ (h ≡ some name)
header_fits none name e = inl (inl refl)
header_fits (some x) name e = elim (Bool-cases (is_blank x)) [
  | inl blank ↦ inl (IsAbsent-of (some x) blank)
  | inr named ↦ inr (ap some ((eq_iff x name).0 (ground (arith, named))))
]

HasRoles-realm_roles : (c : Claims) → HasRoles c (realm_roles c.realm_access)
HasRoles-realm_roles c = by_cases c.realm_access refl
  where
    by_cases :
        (access : Option (Option (List String)))
        → c.realm_access ≡ access
        → HasRoles c (realm_roles access)
    by_cases none e = inr (inl e, refl)
    by_cases (some none) e = inr (inr e, refl)
    by_cases (some (some roles)) e = inl e

-- A principal that is built from claims has their subject and roles, and for tenant the claim
-- `tenant`, or where that is absent or empty the claim `org`; a header that names a tenant names this
-- one. A refusal for a missing tenant comes when both claims are absent or empty, one for a mismatch
-- when the header names another tenant than the claims, and one for the subject when there is none.
pub principal_from_claims_outcome :
    (c : Claims) (tenant_header : Option String)
    → StemsFrom c tenant_header (principal_from_claims c tenant_header)
unfolding principal_from_claims
principal_from_claims_outcome c h = elim (Bool-cases (is_blank (signed_tenant c))) [
  | inl blank ↦ rw blank (both-IsAbsent c blank)
  | inr named ↦
      let tenant : HasTenant c (signed_tenant c) = HasTenant-signed_tenant c named in
      elim (Bool-cases (not (is_blank (or_empty h)) && not (or_empty h == signed_tenant c))) [
        | inl other ↦
            let there : is_blank (or_empty h) ≡ false = ground (arith, other) in
            rw (named, other)
              (
                signed_tenant c,
                tenant,
                or_empty h,
                present_of h there,
                there,
                ground (arith, other),
              )
        | inr fits ↦
            rw (named, fits)
              (subject_stems tenant (header_fits h (signed_tenant c) fits) c.sub refl)
      ]
]
  where
    subject_stems :
        HasTenant c (signed_tenant c)
        → IsAbsent h ⊎ (h ≡ some (signed_tenant c))
        → (sub : Option String) → c.sub ≡ sub
        → StemsFrom c h (with_subject c sub)
    subject_stems tenant fits none e = (e, (signed_tenant c, tenant, fits))
    subject_stems tenant fits (some sub) e = record {
      tenant = tenant;
      header = fits;
      subject = e;
      roles = HasRoles-realm_roles c;
    }
