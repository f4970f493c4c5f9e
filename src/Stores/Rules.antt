-- ===== src/Stores/Rules.antt =====
-- `RuleStore` of backend/app/engines/detection/store.py, over any type of rules with a text id.
use Prim.Native.String.{compare}
use mathlib.Core.Path.{subst}
use text.Mathlib.Text.{is_le}
use ai_powered_security_inve.Base.{
  ℕ, ◌≤◌, String, ◌≡◌, refl, Option, none, some, Bool, true, false, not, ◌&&◌, List, [],
  if◌then◌else◌, ◌==◌, leb, arith, eq_iff, length, map, any, is_some, Option-cases, Bool-cases, inl,
  inr,
}
use ai_powered_security_inve.Base.Sort.{sort}
use ai_powered_security_inve.Detection.Builtin.{builtin_rules}
use ai_powered_security_inve.Base.Dict.{
  Dict, lookup, insert, erase, contains, values, IsUnique, lookup-erase,
}
use ai_powered_security_inve.Base.Tenants.{Tenants, bucket, find, put, find-put, bucket-insert}
use ai_powered_security_inve.Base.Exec.{Result, ok, err, Exec}

abbrev pub max_rules : ℕ
max_rules = 1000

-- `_BUILTIN_IDS`
abbrev pub builtin_ids : List String
builtin_ids = map (λ rule. rule.id) builtin_rules

abbrev pub is_builtin : String → Bool
is_builtin i = any (λ b. b == i) builtin_ids

-- the two ValueErrors
pub data RuleError : Type 0 where
  builtin_collision quota_exceeded : RuleError

module _ {Rule : Type 0} (id : Rule → String) where
  abbrev pub is_full : String → Dict Rule → Bool
  is_full i rules = not (contains i rules) && leb max_rules (length rules)

  -- `setdefault` leaves an empty dict behind when the quota refuses
  unfoldable pub upsert : String → Rule → Exec (Tenants Rule) RuleError Rule
  upsert tenant rule s =
      if is_builtin (id rule)
      then (err builtin_collision, s)
      else if is_full (id rule) (bucket tenant s)
      then (err quota_exceeded, insert tenant (bucket tenant s) s)
      else (ok rule, put tenant (id rule) rule s)

  abbrev pub id_order : Rule → Rule → Bool
  id_order a b = is_le (compare (id a) (id b))

  unfoldable pub list : String → Tenants Rule → List Rule
  list tenant s = sort id_order (values (bucket tenant s))

module _ {Rule : Type 0} where
  abbrev pub delete_in : String → String → Tenants Rule → Option (Dict Rule) → Bool × Tenants Rule
  delete_in tenant i s none = (false, s)
  delete_in tenant i s (some d) = (contains i d, insert tenant (erase i d) s)

  unfoldable pub delete : String → String → Tenants Rule → Bool × Tenants Rule
  delete tenant i s = delete_in tenant i s (lookup tenant s)

module _ {Rule : Type 0} where
  same_buckets :
      (t u i : String) (s : Tenants Rule) → find u i (insert t (bucket t s) s) ≡ find u i s
  unfolding find
  same_buckets t u i s = ground (arith, bucket-insert t u (bucket t s) s, eq_iff t u)

  bucket_absent : (t : String) (s : Tenants Rule) → lookup t s ≡ none → bucket t s ≡ []
  unfolding bucket
  bucket_absent t s h = rw h refl

  pub bucket_present :
      (t : String) (d : Dict Rule) (s : Tenants Rule) → lookup t s ≡ some d → bucket t s ≡ d
  unfolding bucket
  bucket_present t d s h = rw h refl

  delete_absent : (t i : String) (s : Tenants Rule) → lookup t s ≡ none → delete t i s ≡ (false, s)
  unfolding delete
  delete_absent t i s h = rw h refl

  delete_present :
      (t i : String) (d : Dict Rule) (s : Tenants Rule)
      → lookup t s ≡ some d
      → delete t i s ≡ (contains i d, insert t (erase i d) s)
  unfolding delete
  delete_present t i d s h = rw h refl

  find_erased :
      (t i u j : String) (s : Tenants Rule)
      → IsUnique (bucket t s)
      → find u j (insert t (erase i (bucket t s)) s)
        ≡ (if t == u && i == j then none else find u j s)
  unfolding find
  find_erased t i u j s h = ground (
    arith,
    bucket-insert t u (erase i (bucket t s)) s,
    lookup-erase i j (bucket t s) h,
    eq_iff t u,
  )

  find_absent : (t i : String) (s : Tenants Rule) → lookup t s ≡ none → find t i s ≡ none
  unfolding find lookup
  find_absent t i s h = rw (bucket_absent t s h) refl

  -- `delete` tells whether the tenant had the rule, and afterwards it is not found, with all other
  -- rules of all tenants as before, in a store in which no id of the tenant stands twice.
  pub delete_outcome :
      (tenant i u j : String) (s : Tenants Rule)
      → IsUnique (bucket tenant s)
      → ((delete tenant i s).0 ≡ is_some (find tenant i s))
        × (find u j (delete tenant i s).1 ≡ (if tenant == u && i == j then none else find u j s))
  delete_outcome t i u j s h = elim (Option-cases (lookup t s)) [
    | inl absent ↦
        rw (delete_absent t i s absent)
          (rw (find_absent t i s absent) refl, ground (arith, find_absent t j s absent, eq_iff t u))
    | inr (d, there) ↦
        let e = bucket_present t d s there in
        rw (delete_present t i d s there) (
          unfold find in rw e refl,
          subst
              (λ x.
                find u j (insert t (erase i x) s) ≡ (if t == u && i == j then none else find u j s))
              e (find_erased t i u j s h),
        )
  ]

module _ {Rule : Type 0} (id : Rule → String) where
  -- what stands under a key of a tenant after `upsert` of a rule with a result
  abbrev pub Upserted :
      String → Rule → Tenants Rule → String → String → Result RuleError Rule → Tenants Rule → Type 0
  Upserted t rule s u i (ok r) s' =
      (r ≡ rule)
      × (is_builtin (id rule) ≡ false)
      × (find u i s' ≡ (if t == u && id rule == i then some rule else find u i s))
  Upserted t rule s u i (err builtin_collision) s' = (is_builtin (id rule) ≡ true) × (s' ≡ s)
  Upserted t rule s u i (err quota_exceeded) s' =
      (contains (id rule) (bucket t s) ≡ false)
      × (max_rules ≤ length (bucket t s))
      × (find u i s' ≡ find u i s)

  -- `upsert` refuses the id of a built-in rule and leaves the store, refuses a new rule of a tenant
  -- that has its quota and changes no rule, and otherwise the rule is the one that is found under
  -- its id for its tenant, with all other rules of all tenants as before.
  pub upsert_outcome :
      (tenant : String) (rule : Rule) (s : Tenants Rule) (u i : String)
      → Upserted tenant rule s u i (upsert id tenant rule s).0 (upsert id tenant rule s).1
  unfolding upsert
  upsert_outcome t rule s u i = elim (Bool-cases (is_builtin (id rule))) [
    | inl taken ↦ rw taken (taken, refl)
    | inr free ↦ elim (Bool-cases (is_full id (id rule) (bucket t s))) [
      | inl full ↦
          rw (free, full)
            (full_missing (bucket t s) full, full_quota (bucket t s) full, same_buckets t u i s)
      | inr room ↦ rw (free, room) (refl, free, find-put t u (id rule) i rule s)
    ]
  ]
    where
      full_missing : (d : Dict Rule) → is_full id (id rule) d ≡ true → contains (id rule) d ≡ false
      full_missing d h = ground (arith, h)

      full_quota : (d : Dict Rule) → is_full id (id rule) d ≡ true → max_rules ≤ length d
      full_quota d h = ground (arith, h)
