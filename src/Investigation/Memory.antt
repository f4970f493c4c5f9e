-- ===== src/Investigation/Memory.antt =====
-- The memory of past cases in backend/app/agents/memory.py: `similarity` and `InMemoryCaseMemory`,
-- on the fields of a package that they read. A case record is without its time, which nothing reads.
use ai_powered_security_inve.Base.{
  ℕ, ◌-◌, min, String, Bool, true, false, not, ◌||◌, Option, none, some, List, [], ◌∷◌, ◌++◌, map,
  if◌then◌else◌, ltb, length, take, drop, keep,
}
use ai_powered_security_inve.Base.Dict.{Dict, lookup, insert}
use ai_powered_security_inve.Base.Sets.{is_in, add}
use ai_powered_security_inve.Base.Sort.{sort}
use ai_powered_security_inve.Schemas.Common.{Verdict}
use ai_powered_security_inve.Schemas.Findings.{MitreTechnique}
use ai_powered_security_inve.Investigation.State.{EnrichedIoc, ioc_key}
use ai_powered_security_inve.Graph.Client.{text_order}

-- Python's floats: `fraction n d` is the float nearest to n / d, so both a literal and the quotient of
-- two ints
pub record Floats (F : Type 0) : Type 0 where
  pub fraction : ℕ → ℕ → F
  pub times : F → F → F
  pub plus : F → F → F
  pub less : F → F → Bool
  pub round_to : F → ℕ → F

pub record CompletedCase (F : Type 0) : Type 0 where
  pub investigation_id : String
  pub tenant : String
  pub title : String
  pub overall_verdict : Verdict
  pub risk_score : Option F
  pub iocs : List EnrichedIoc
  pub mitre : List MitreTechnique

pub record CaseRecord (F : Type 0) : Type 0 where
  pub investigation_id : String
  pub tenant : String
  pub title : String
  pub verdict : Verdict
  pub risk_score : F
  pub ioc_keys : List String
  pub technique_ids : List String

pub record RelatedCase (F : Type 0) : Type 0 where
  pub investigation_id : String
  pub title : String
  pub verdict : Verdict
  pub risk_score : F
  pub similarity : F
  pub shared_iocs : List String
  pub shared_techniques : List String

abbrev pub is_none : {A : Type 0} → List A → Bool
is_none [] = true
is_none (_ ∷ _) = false

-- `frozenset(xs)`
abbrev pub frozenset_from : List String → List String → List String
frozenset_from [] set = set
frozenset_from (x ∷ xs) set = frozenset_from xs (add x set)

abbrev pub frozenset : List String → List String
frozenset xs = frozenset_from xs []

-- `a & b`
abbrev pub shared_of : List String → List String → List String
shared_of a b = keep (λ x. is_in x b) a

module _ {F : Type 0} (floats : Floats F) where
  abbrev pub overlap : List String → List String → F × List String
  overlap a b = if is_none a || is_none b then (floats.fraction 0 1, []) else (
    floats.fraction (length (shared_of a b)) (min (length a) (length b)),
    sort text_order (shared_of a b),
  )

  abbrev pub weighted : F → F → F
  weighted ioc_score tech_score =
      floats.plus (floats.times (floats.fraction 7 10) ioc_score)
        (floats.times (floats.fraction 3 10) tech_score)

  -- `min(score, 1.0)`
  abbrev pub at_most_one : F → F
  at_most_one score = if floats.less (floats.fraction 1 1) score then floats.fraction 1 1 else score

  unfoldable pub similarity : CaseRecord F → List String → List String → Option (RelatedCase F)
  similarity candidate ioc_keys technique_ids =
      let iocs = overlap candidate.ioc_keys ioc_keys in
      let techs = overlap candidate.technique_ids technique_ids in
      let score = weighted iocs.0 techs.0 in
      if floats.less score (floats.fraction 5 100) || is_none iocs.1
      then none
      else some (record {
        investigation_id = candidate.investigation_id;
        title = candidate.title;
        verdict = candidate.verdict;
        risk_score = candidate.risk_score;
        similarity = floats.round_to (at_most_one score) 4;
        shared_iocs = iocs.1;
        shared_techniques = techs.1;
      })

  abbrev pub risk_or_zero : Option F → F
  risk_or_zero none = floats.fraction 0 1
  risk_or_zero (some score) = score

  unfoldable pub record_of : CompletedCase F → CaseRecord F
  record_of pkg = record {
    investigation_id = pkg.investigation_id;
    tenant = pkg.tenant;
    title = pkg.title;
    verdict = pkg.overall_verdict;
    risk_score = risk_or_zero pkg.risk_score;
    ioc_keys = frozenset (map (λ (e : EnrichedIoc). ioc_key e.ioc) pkg.iocs);
    technique_ids = frozenset (map (λ (t : MitreTechnique). t.technique_id) pkg.mitre);
  }

abbrev pub CaseStore : Type 0 → Type 0
CaseStore F = Dict (List (CaseRecord F))

abbrev pub or_no_cases : {F : Type 0} → Option (List (CaseRecord F)) → List (CaseRecord F)
or_no_cases none = []
or_no_cases (some cases) = cases

-- `self._by_tenant.get(tenant, ())`
unfoldable pub cases_of : {F : Type 0} → String → CaseStore F → List (CaseRecord F)
cases_of tenant by_tenant = or_no_cases (lookup tenant by_tenant)

module _ {F : Type 0} (floats : Floats F) where
  -- the append and the eviction
  unfoldable pub appended : ℕ → CaseRecord F → List (CaseRecord F) → List (CaseRecord F)
  appended max_cases case cases =
      let longer = cases ++ case ∷ [] in
      if ltb max_cases (length longer) then drop (length longer - max_cases) longer else longer

  unfoldable pub remember : ℕ → CompletedCase F → CaseStore F → CaseStore F
  remember max_cases pkg by_tenant =
      insert pkg.tenant (appended max_cases (record_of floats pkg) (cases_of pkg.tenant by_tenant))
        by_tenant

  abbrev pub with_match : Option (RelatedCase F) → List (RelatedCase F) → List (RelatedCase F)
  with_match none ms = ms
  with_match (some m) ms = m ∷ ms

  unfoldable pub matches_of : List String → List String → List (CaseRecord F) → List (RelatedCase F)
  matches_of iocs techs [] = []
  matches_of iocs techs (c ∷ candidates) =
      with_match (similarity floats c iocs techs) (matches_of iocs techs candidates)

  -- the order of `matches.sort(key=similarity, reverse=True)`
  abbrev pub more_similar : RelatedCase F → RelatedCase F → Bool
  more_similar m n = not (floats.less m.similarity n.similarity)

  unfoldable pub recall :
      String → List String → List String → ℕ → CaseStore F → List (RelatedCase F)
  recall tenant ioc_keys technique_ids limit by_tenant = take limit (
      sort more_similar
        (matches_of (frozenset ioc_keys) (frozenset technique_ids) (cases_of tenant by_tenant)))
