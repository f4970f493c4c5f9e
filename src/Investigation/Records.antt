-- ===== src/Investigation/Records.antt =====
-- What the memory of backend/app/agents/memory.py records of a case.
use ai_powered_security_inve.Investigation.State.{EnrichedIoc, ioc_key}
use ai_powered_security_inve.Schemas.Findings.{MitreTechnique}
use ai_powered_security_inve.Base.{
  map, ◌++◌, eq_iff, ◌⊎◌, not, String, Bool, true, ◌&&◌, ◌||◌, Option, none, some, List, [], ◌∷◌,
  ◌≡◌, refl, ◌==◌, All, inl, inr, arith,
}
use ai_powered_security_inve.Base.Sets.{is_in, add, is_in-add, any-append}
use ai_powered_security_inve.Investigation.Memory.{
  CompletedCase, record_of, risk_or_zero, Floats, CaseRecord, frozenset, frozenset_from,
}

pub is_in-frozenset_from :
    (x : String) (xs set : List String)
    → is_in x (frozenset_from xs set) ≡ (is_in x set || is_in x xs)
is_in-frozenset_from x [] set = ground arith
is_in-frozenset_from x (y ∷ xs) set =
    ground (arith, is_in-frozenset_from x xs (add y set), is_in-add y x set)

-- no text stands twice
abbrev pub has_no_repeats : List String → Bool
has_no_repeats [] = true
has_no_repeats (x ∷ xs) = not (is_in x xs) && has_no_repeats xs

-- the texts of a list, each once
pub record IsSetOf (xs set : List String) : Type 0 where
  pub once : has_no_repeats set ≡ true
  pub same : (x : String) → is_in x set ≡ is_in x xs

no_repeats_longer :
    (x : String) (set : List String)
    → has_no_repeats (set ++ x ∷ []) ≡ (has_no_repeats set && not (is_in x set))
no_repeats_longer x [] = refl
no_repeats_longer x (y ∷ set) =
    ground (
      arith,
      no_repeats_longer x set,
      any-append (λ z. z == y) set (x ∷ []),
      eq_iff x y,
      eq_iff y x,
    )

frozenset_once :
    (xs set : List String)
    → has_no_repeats set ≡ true
    → has_no_repeats (frozenset_from xs set) ≡ true
frozenset_once [] set h = h
frozenset_once (x ∷ xs) set h =
    frozenset_once xs (add x set) (ground (arith, h, no_repeats_longer x set))

pub frozenset-IsSetOf : (xs : List String) → IsSetOf xs (frozenset xs)
frozenset-IsSetOf xs = record {
  once = frozenset_once xs [] refl;
  same = λ x. is_in-frozenset_from x xs [];
}

-- what the memory keeps of a case: its id, tenant, title and verdict, its risk, 0 where it has none, and
-- the sets of the keys of its IOCs and of the ids of its techniques
pub record IsRecordOf {F : Type 0} (floats : Floats F) (pkg : CompletedCase F) (c : CaseRecord F)
    : Type 0 where
  pub same_id : c.investigation_id ≡ pkg.investigation_id
  pub same_tenant : c.tenant ≡ pkg.tenant
  pub same_title : c.title ≡ pkg.title
  pub same_verdict : c.verdict ≡ pkg.overall_verdict
  pub risk :
      (pkg.risk_score ≡ some c.risk_score)
      ⊎ ((pkg.risk_score ≡ none) × (c.risk_score ≡ floats.fraction 0 1))
  pub ioc_keys : IsSetOf (map (λ (e : EnrichedIoc). ioc_key e.ioc) pkg.iocs) c.ioc_keys
  pub technique_ids :
      IsSetOf (map (λ (t : MitreTechnique). t.technique_id) pkg.mitre) c.technique_ids

pub record_of-IsRecordOf :
    {F : Type 0} (floats : Floats F) (pkg : CompletedCase F)
    → IsRecordOf floats pkg (record_of floats pkg)
unfolding record_of
record_of-IsRecordOf {F = F} floats pkg = record {
  same_id = refl;
  same_tenant = refl;
  same_title = refl;
  same_verdict = refl;
  risk = by_risk pkg.risk_score refl;
  ioc_keys = frozenset-IsSetOf (map (λ (e : EnrichedIoc). ioc_key e.ioc) pkg.iocs);
  technique_ids = frozenset-IsSetOf (map (λ (t : MitreTechnique). t.technique_id) pkg.mitre);
}
  where
    by_risk :
        (score : Option F)
        → pkg.risk_score ≡ score
        → (pkg.risk_score ≡ some (risk_or_zero floats score))
          ⊎ ((pkg.risk_score ≡ none) × (risk_or_zero floats score ≡ floats.fraction 0 1))
    by_risk none e = inr (e, refl)
    by_risk (some x) e = inl e

pub All-IsRecordOf :
    {F : Type 0} (floats : Floats F) (pkgs : List (CompletedCase F))
    → All (λ pkg. IsRecordOf floats pkg (record_of floats pkg)) pkgs
All-IsRecordOf floats [] = tt
All-IsRecordOf floats (pkg ∷ pkgs) = (record_of-IsRecordOf floats pkg, All-IsRecordOf floats pkgs)
