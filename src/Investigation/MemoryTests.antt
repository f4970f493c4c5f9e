-- ===== src/Investigation/MemoryTests.antt =====
-- A memory of two cases per tenant, with floats counted in ten-thousandths.
use mathlib.Core.Path.{◌≡◌, refl}
use ai_powered_security_inve.Base.{
  ℕ, ◌+◌, ◌*◌, ◌/◌, ◌≤◌, String, none, List, [], ◌∷◌, map, ltb, length, All, arith,
}
use ai_powered_security_inve.Base.Dict.{lookup, insert}
use ai_powered_security_inve.Base.Sort.{sort, IsSorted}
use ai_powered_security_inve.Base.Text.{lower}
use ai_powered_security_inve.Schemas.Common.{malicious}
use ai_powered_security_inve.Investigation.State.{EnrichedIoc, ioc_key}
use ai_powered_security_inve.Investigation.Memory.{
  frozenset, Floats, CompletedCase, RelatedCase, cases_of, record_of, recall, remember, appended,
  matches_of, similarity,
}
use ai_powered_security_inve.Investigation.Remembered.{last_of, cases_for, remember_all}
use ai_powered_security_inve.Investigation.Recalled.{recall_outcome}
use ai_powered_security_inve.Investigation.Records.{IsRecordOf, IsSetOf}
use ai_powered_security_inve.Investigation.Similar.{IsRecalled, IsAccounted, no_less_similar}

abbrev parts : Floats ℕ
parts = record {
  fraction = λ n d. (n * 10000) / d;
  times = λ a b. (a * b) / 10000;
  plus = λ a b. a + b;
  less = ltb;
  round_to = λ a digits. a;
}

abbrev ioc_of : String → EnrichedIoc
ioc_of value = record {
  ioc = record { ioc_type = "domain"; value = value };
  verdict = malicious;
  sources = [];
}

abbrev case_of : String → List String → CompletedCase ℕ
case_of id values = record {
  investigation_id = id;
  tenant = "acme";
  title = id;
  overall_verdict = malicious;
  risk_score = none;
  iocs = map ioc_of values;
  mitre = [];
}

abbrev past : List (CompletedCase ℕ)
past =
    case_of "1" ("a.com" ∷ [])
    ∷ case_of "2" ("a.com" ∷ "b.com" ∷ [])
    ∷ case_of "3" ("b.com" ∷ [])
    ∷ []

abbrev ids : List (RelatedCase ℕ) → List String
ids ms = map (λ (m : RelatedCase ℕ). m.investigation_id) ms

-- the first case is evicted; the two that are left are as similar, so they keep their order
recalled :
    ids (recall parts "acme" ("domain:b.com" ∷ []) [] 5 (remember_all parts 2 past []))
    ≡ "2" ∷ "3" ∷ []
unfolding recall remember appended record_of matches_of similarity cases_of sort lookup insert
    ioc_key lower
recalled = refl

abbrev asked : List String
asked = "domain:b.com" ∷ []

recall_outcome_example :
    (cases_of "acme" (remember_all parts 2 past [])
      ≡ last_of 2 (map (record_of parts) (cases_for "acme" past)))
    × All
        (IsRecalled parts asked [] (last_of 2 (map (record_of parts) (cases_for "acme" past))))
        (recall parts "acme" asked [] 5 (remember_all parts 2 past []))
    × IsSorted
        (no_less_similar parts asked [])
        (recall parts "acme" asked [] 5 (remember_all parts 2 past []))
    × (length (recall parts "acme" asked [] 5 (remember_all parts 2 past [])) ≤ 5)
    × All
        (IsAccounted parts asked [] 5
          (recall parts "acme" asked [] 5 (remember_all parts 2 past [])))
        (last_of 2 (map (record_of parts) (cases_for "acme" past)))
    × All (λ pkg. IsRecordOf parts pkg (record_of parts pkg)) past
    × IsSetOf asked (frozenset asked)
    × IsSetOf [] (frozenset [])
recall_outcome_example =
    recall_outcome parts asked [] 2 5 "acme" past (λ a b h. ground arith)
      (λ a b c h k. ground arith)
