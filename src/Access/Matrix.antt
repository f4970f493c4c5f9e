-- ===== src/Access/Matrix.antt =====
-- The RBAC matrix read by permission: which roles grant it.
use ai_powered_security_inve.Base.{
  String, ◌≡◌, refl, none, some, Bool, true, false, ◌||◌, List, [], ◌∷◌, ◌++◌, ◌==◌, any, all, not,
  ◌⊎◌, arith, Bool-cases, inl, inr, eq_iff,
}
use ai_powered_security_inve.Access.Roles.{
  Role, super_admin, soc_manager, tier1, tier2, tier3, threat_hunter, incident_responder, auditor,
  Permission, alert_ingest, investigation_read, investigation_create, investigation_act, ioc_read,
  copilot_query, ticket_create, audit_read, detection_read, detection_write, hunt_run, agent_run,
  admin, value, grants, role_of, named, role_permissions, Principal, permissions_for,
  has_permission,
}

-- the names of the roles, besides the super admin's, that a permission is granted to
abbrev pub granted_to : Permission → List String
granted_to alert_ingest = "tier2_analyst" ∷ "tier3_analyst" ∷ []
granted_to investigation_read =
    "soc_manager" ∷ "tier1_analyst" ∷ "tier2_analyst" ∷ "tier3_analyst" ∷ "threat_hunter"
    ∷ "incident_responder" ∷ "auditor" ∷ []
granted_to investigation_create =
    "soc_manager" ∷ "tier2_analyst" ∷ "tier3_analyst" ∷ "threat_hunter" ∷ "incident_responder" ∷ []
granted_to investigation_act = "tier3_analyst" ∷ "incident_responder" ∷ []
granted_to ioc_read =
    "soc_manager" ∷ "tier1_analyst" ∷ "tier2_analyst" ∷ "tier3_analyst" ∷ "threat_hunter"
    ∷ "incident_responder" ∷ []
granted_to copilot_query =
    "soc_manager" ∷ "tier1_analyst" ∷ "tier2_analyst" ∷ "tier3_analyst" ∷ "threat_hunter"
    ∷ "incident_responder" ∷ []
granted_to ticket_create =
    "soc_manager" ∷ "tier2_analyst" ∷ "tier3_analyst" ∷ "incident_responder" ∷ []
granted_to audit_read = "soc_manager" ∷ "auditor" ∷ []
granted_to detection_read =
    "soc_manager" ∷ "tier1_analyst" ∷ "tier2_analyst" ∷ "tier3_analyst" ∷ "threat_hunter"
    ∷ "incident_responder" ∷ "auditor" ∷ []
granted_to detection_write = "tier3_analyst" ∷ "threat_hunter" ∷ []
granted_to hunt_run =
    "tier2_analyst" ∷ "tier3_analyst" ∷ "threat_hunter" ∷ "incident_responder" ∷ []
granted_to agent_run =
    "tier2_analyst" ∷ "tier3_analyst" ∷ "threat_hunter" ∷ "incident_responder" ∷ []
granted_to admin = []

abbrev pub role_grants : Permission → String → Bool
role_grants perm name = name == "super_admin" || any (λ r. name == r) (granted_to perm)

any-append :
    {A : Type 0} (p : A → Bool) (xs ys : List A) → any p (xs ++ ys) ≡ (any p xs || any p ys)
any-append p [] ys = refl
any-append p (x ∷ xs) ys = ground (arith, any-append p xs ys)

abbrev role_name : Role → String
role_name super_admin = "super_admin"
role_name soc_manager = "soc_manager"
role_name tier1 = "tier1_analyst"
role_name tier2 = "tier2_analyst"
role_name tier3 = "tier3_analyst"
role_name threat_hunter = "threat_hunter"
role_name incident_responder = "incident_responder"
role_name auditor = "auditor"

abbrev every_permission : List Permission
every_permission =
    alert_ingest ∷ investigation_read ∷ investigation_create ∷ investigation_act ∷ ioc_read
    ∷ copilot_query ∷ ticket_create ∷ audit_read ∷ detection_read ∷ detection_write ∷ hunt_run
    ∷ agent_run ∷ admin ∷ []

all_at : (f : Permission → Bool) (perm : Permission) → all f every_permission ≡ true → f perm ≡ true
all_at f alert_ingest h = ground arith
all_at f investigation_read h = ground arith
all_at f investigation_create h = ground arith
all_at f investigation_act h = ground arith
all_at f ioc_read h = ground arith
all_at f copilot_query h = ground arith
all_at f ticket_create h = ground arith
all_at f audit_read h = ground arith
all_at f detection_read h = ground arith
all_at f detection_write h = ground arith
all_at f hunt_run h = ground arith
all_at f agent_run h = ground arith
all_at f admin h = ground arith

abbrev agree : Bool → Bool → Bool
agree true b = b
agree false b = not b

abbrev row_agrees : Role → Permission → Bool
row_agrees r perm =
    agree (grants admin (role_permissions r) || grants perm (role_permissions r))
      (role_grants perm (role_name r))

rows_agree : (r : Role) → all (row_agrees r) every_permission ≡ true
rows_agree super_admin = refl
rows_agree soc_manager = refl
rows_agree tier1 = refl
rows_agree tier2 = refl
rows_agree tier3 = refl
rows_agree threat_hunter = refl
rows_agree incident_responder = refl
rows_agree auditor = refl

row_of :
    (r : Role) (perm : Permission)
    → (grants admin (role_permissions r) || grants perm (role_permissions r))
      ≡ role_grants perm (role_name r)
row_of r perm =
    agree_lem (grants admin (role_permissions r) || grants perm (role_permissions r))
      (role_grants perm (role_name r)) (all_at (row_agrees r) perm (rows_agree r))
  where
    agree_lem : (a b : Bool) → agree a b ≡ true → a ≡ b
    agree_lem a b h = ground arith

-- A name is that of the role it stands for, or of none.
role_of_cases :
    (name : String)
    → ((r : Role) × (role_of name ≡ some r) × (name ≡ role_name r))
      ⊎ ((role_of name ≡ none) × ((perm : Permission) → role_grants perm name ≡ false))
unfolding role_of
role_of_cases name = elim (Bool-cases (name == "super_admin")) [
  | inl e ↦ inl (super_admin, rw e refl, (eq_iff name "super_admin").0 e)
  | inr n0 ↦ elim (Bool-cases (name == "soc_manager")) [
    | inl e ↦ inl (soc_manager, rw (n0, e) refl, (eq_iff name "soc_manager").0 e)
    | inr n1 ↦ elim (Bool-cases (name == "tier1_analyst")) [
      | inl e ↦ inl (tier1, rw (n0, n1, e) refl, (eq_iff name "tier1_analyst").0 e)
      | inr n2 ↦ elim (Bool-cases (name == "tier2_analyst")) [
        | inl e ↦ inl (tier2, rw (n0, n1, n2, e) refl, (eq_iff name "tier2_analyst").0 e)
        | inr n3 ↦ elim (Bool-cases (name == "tier3_analyst")) [
          | inl e ↦ inl (tier3, rw (n0, n1, n2, n3, e) refl, (eq_iff name "tier3_analyst").0 e)
          | inr n4 ↦ elim (Bool-cases (name == "threat_hunter")) [
            | inl e ↦
                inl (
                  threat_hunter,
                  rw (n0, n1, n2, n3, n4, e) refl,
                  (eq_iff name "threat_hunter").0 e,
                )
            | inr n5 ↦ elim (Bool-cases (name == "incident_responder")) [
              | inl e ↦ inl (
                incident_responder,
                rw (n0, n1, n2, n3, n4, n5, e) refl,
                (eq_iff name "incident_responder").0 e,
              )
              | inr n6 ↦ elim (Bool-cases (name == "auditor")) [
                | inl e ↦
                    inl (
                      auditor,
                      rw (n0, n1, n2, n3, n4, n5, n6, e) refl,
                      (eq_iff name "auditor").0 e,
                    )
                | inr n7 ↦ inr (
                  rw (n0, n1, n2, n3, n4, n5, n6, n7) refl,
                  λ perm. unmatched perm (rw (n0, n1, n2, n3, n4, n5, n6, n7) refl),
                )
              ]
            ]
          ]
        ]
      ]
    ]
  ]
]
  where
    unmatched :
        (perm : Permission)
        → all (λ p. not (role_grants p name)) every_permission ≡ true
        → role_grants perm name ≡ false
    unmatched perm h = ground (arith, all_at (λ p. not (role_grants p name)) perm h)

row :
    (perm : Permission) (name : String)
    → (grants admin (named (role_of name)) || grants perm (named (role_of name)))
      ≡ role_grants perm name
row perm name = elim (role_of_cases name) [
  | inl (r, e, n) ↦ rw (e, n) (row_of r perm)
  | inr (e, n) ↦ rw (e, n perm) refl
]

regroup :
    (a b c d e f r s : Bool)
    → e ≡ (a || c)
    → f ≡ (b || d)
    → (a || b) ≡ r
    → (c || d) ≡ s
    → (e || f) ≡ (r || s)
regroup a b c d e f r s p q u v = ground arith

has_held :
    (perm : Permission) (names : List String)
    → (grants admin (permissions_for names) || grants perm (permissions_for names))
      ≡ any (role_grants perm) names
unfolding permissions_for
has_held perm [] = refl
has_held perm (name ∷ names) =
    let held = permissions_for names in
    let own = named (role_of name) in
    regroup (grants admin own) (grants perm own) (grants admin held) (grants perm held)
      (grants admin (own ++ held)) (grants perm (own ++ held)) (role_grants perm name)
      (any (role_grants perm) names) (any-append (λ p. value p == value admin) own held)
      (any-append (λ p. value p == value perm) own held) (row perm name) (has_held perm names)

-- A principal has a permission exactly if one of its roles is the super admin's or one of those
-- that the permission is granted to; unknown roles grant nothing.
pub has_permission_lem :
    (principal : Principal) (perm : Permission)
    → has_permission principal perm ≡ any (role_grants perm) principal.roles
unfolding has_permission
has_permission_lem principal perm = has_held perm principal.roles
