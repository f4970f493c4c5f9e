-- ===== src/Detection/Evidence.antt =====
-- The evidence of a match, `matched_fields`: backend/app/engines/detection/engine.py.
use mathlib.Core.Path.{subst}
use mathlib.Core.List.{Mem, mem-cons_self, mem-cons_of_mem}
use ai_powered_security_inve.Base.{
  String, true, not, ◌&&◌, ◌||◌, Option, some, none, List, [], ◌∷◌, ◌≡◌, ◌⊎◌, refl, sym, ap, inl,
  inr, All, Bool-cases, arith, eq_iff, eq_refl, ◌==◌, ◌≢◌,
}
use ai_powered_security_inve.Base.Dict.{Dict, contains, lookup, lookup-insert, All-insert}
use ai_powered_security_inve.Base.Text.{take_text}
use ai_powered_security_inve.Schemas.Findings.{DetectionMatch}
use ai_powered_security_inve.Detection.Rules.{FieldMatcher, DetectionRule, Search, matches}
use ai_powered_security_inve.Detection.Engine.{
  excerpt_len, field_value, set_default, hits, check_all, check_any,
}

module _ (search : Search) (fields : Dict String) where
  -- an entry of the evidence for a rule: a field of the alert that is not empty and matches one of the
  -- matchers of the all-clause or the any-clause, with the first 160 characters of its value
  abbrev pub IsEvidence : DetectionRule → String × String → Type 0
  IsEvidence rule (key, excerpt) =
      (m : FieldMatcher) × (Mem m rule.condition.all_of ⊎ Mem m rule.condition.any_of)
      × (m.field ≡ key)
      × (value : String) × (lookup key fields ≡ some value)
      × (value ≢ "")
      × (matches search m value ≡ true)
      × (excerpt ≡ take_text 160 value)

  -- what the match of a rule has for evidence
  pub record IsJustifiedBy (rule : DetectionRule) (hit : DetectionMatch) : Type 0 where
    pub of_rule : hit.rule_id ≡ rule.id
    pub evidence : All (IsEvidence rule) hit.matched_fields
    pub all_there : All (λ m. contains m.field hit.matched_fields ≡ true) rule.condition.all_of
    pub one_there :
        (rule.condition.any_of ≡ [])
        ⊎ ((m : FieldMatcher) × Mem m rule.condition.any_of
            × (contains m.field hit.matched_fields ≡ true))

  abbrev pub IsJustified : List DetectionRule → DetectionMatch → Type 0
  IsJustified rules hit =
      (rule : DetectionRule) × Mem rule rules × (rule.enabled ≡ true) × IsJustifiedBy rule hit

  contains-set_default :
      (k j v : String) (d : Dict String) → contains k (set_default j v d) ≡ (contains k d || j == k)
  contains-set_default k j v d = ground (arith, eq_iff j k, lookup-insert j k v d)

  excerpt :
      (rule : DetectionRule) (m : FieldMatcher)
      → Mem m rule.condition.all_of ⊎ Mem m rule.condition.any_of
      → hits search fields m ≡ true
      → IsEvidence rule (m.field, take_text excerpt_len (field_value m.field fields))
  excerpt rule m own h = by_found (lookup m.field fields) refl
    where
      by_found :
          (found : Option String)
          → lookup m.field fields ≡ found
          → IsEvidence rule (m.field, take_text excerpt_len (field_value m.field fields))
      by_found none e = cc (rw e at h)
      by_found (some value) e =
          let k : (not (value == "") && matches search m value) ≡ true = rw e at h in
          let read : field_value m.field fields ≡ value = rw e refl in
          (
            m,
            own,
            refl,
            value,
            e,
            λ z. ground (arith, k, (eq_iff value "").1 z),
            ground (arith, k),
            ap (take_text 160) read,
          )

  set_default_lem :
      (rule : DetectionRule) (m : FieldMatcher) (d : Dict String)
      → Mem m rule.condition.all_of ⊎ Mem m rule.condition.any_of
      → hits search fields m ≡ true
      → All (IsEvidence rule) d
      → All
          (IsEvidence rule)
          (set_default m.field (take_text excerpt_len (field_value m.field fields)) d)
  set_default_lem rule m d own t h = elim (Bool-cases (contains m.field d)) [
    | inl c ↦ rw c h
    | inr c ↦ rw c (
        All-insert (IsEvidence rule) m.field (take_text excerpt_len (field_value m.field fields)) d
          (excerpt rule m own t) h)
  ]

  module _ (rule : DetectionRule) where
    pub check_all-IsEvidence :
        (ms : List FieldMatcher) (d : Dict String)
        → ((m : FieldMatcher) → Mem m ms → Mem m rule.condition.all_of)
        → All (IsEvidence rule) d
        → All (IsEvidence rule) (check_all search fields ms d).1
    unfolding check_all
    check_all-IsEvidence [] d sub h = h
    check_all-IsEvidence (m ∷ ms) d sub h = elim (Bool-cases (hits search fields m)) [
      | inl t ↦ rw t (
          check_all-IsEvidence ms _ (λ n i. sub n (mem-cons_of_mem m i))
            (set_default_lem rule m d (inl (sub m mem-cons_self)) t h))
      | inr f ↦ rw f h
    ]

    pub check_any-IsEvidence :
        (ms : List FieldMatcher) (d : Dict String)
        → ((m : FieldMatcher) → Mem m ms → Mem m rule.condition.any_of)
        → All (IsEvidence rule) d
        → All (IsEvidence rule) (check_any search fields ms d).1
    unfolding check_any
    check_any-IsEvidence [] d sub h = h
    check_any-IsEvidence (m ∷ ms) d sub h = elim (Bool-cases (hits search fields m)) [
      | inl t ↦ rw t (set_default_lem rule m d (inr (sub m mem-cons_self)) t h)
      | inr f ↦ rw f (check_any-IsEvidence ms d (λ n i. sub n (mem-cons_of_mem m i)) h)
    ]

  check_all_keeps :
      (k : String) (ms : List FieldMatcher) (d : Dict String)
      → contains k d ≡ true
      → contains k (check_all search fields ms d).1 ≡ true
  unfolding check_all
  check_all_keeps k [] d h = h
  check_all_keeps k (m ∷ ms) d h = elim (Bool-cases (hits search fields m)) [
    | inl t ↦ rw t (
        check_all_keeps k ms _ (
          ground (
            arith,
            contains-set_default k m.field (take_text excerpt_len (field_value m.field fields)) d,
          )))
    | inr f ↦ rw f h
  ]

  pub check_all_there :
      (ms : List FieldMatcher) (d : Dict String)
      → (check_all search fields ms d).0 ≡ true
      → All (λ m. contains m.field (check_all search fields ms d).1 ≡ true) ms
  unfolding check_all
  check_all_there [] d h = tt
  check_all_there (m ∷ ms) d h = elim (Bool-cases (hits search fields m)) [
    | inl t ↦
        let value : String = take_text excerpt_len (field_value m.field fields) in
        let next : Dict String = set_default m.field value d in
        let step : check_all search fields (m ∷ ms) d ≡ check_all search fields ms next =
          rw t refl in
        subst (λ r. All (λ n. contains n.field r.1 ≡ true) (m ∷ ms)) (sym step)
          (
            check_all_keeps m.field ms next
                (ground (arith, contains-set_default m.field m.field value d, eq_refl m.field)),
            check_all_there ms next (subst (λ r. r.0 ≡ true) step h),
          )
    | inr f ↦ cc (rw f at h)
  ]

  pub check_any_keeps :
      (k : String) (ms : List FieldMatcher) (d : Dict String)
      → contains k d ≡ true
      → contains k (check_any search fields ms d).1 ≡ true
  unfolding check_any
  check_any_keeps k [] d h = h
  check_any_keeps k (m ∷ ms) d h = elim (Bool-cases (hits search fields m)) [
    | inl t ↦ rw t (
        ground (
          arith,
          contains-set_default k m.field (take_text excerpt_len (field_value m.field fields)) d,
        ))
    | inr f ↦ rw f (check_any_keeps k ms d h)
  ]

  pub check_any_there :
      (ms : List FieldMatcher) (d : Dict String)
      → (check_any search fields ms d).0 ≡ true
      → (m : FieldMatcher) × Mem m ms × (contains m.field (check_any search fields ms d).1 ≡ true)
  unfolding check_any
  check_any_there [] d h = cc
  check_any_there (m ∷ ms) d h = elim (Bool-cases (hits search fields m)) [
    | inl t ↦
        let value : String = take_text excerpt_len (field_value m.field fields) in
        rw t (
          m,
          mem-cons_self,
          ground (arith, contains-set_default m.field m.field value d, eq_refl m.field),
        )
    | inr f ↦
        let (n, i, c) : (n : FieldMatcher) × Mem n ms
            × (contains n.field (check_any search fields ms d).1 ≡ true) =
          check_any_there ms d (rw f at h) in
        rw f (n, mem-cons_of_mem m i, c)
  ]
