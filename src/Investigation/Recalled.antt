-- ===== src/Investigation/Recalled.antt =====
-- What the memory of backend/app/agents/memory.py recalls.
use mathlib.Core.Path.{subst}
use mathlib.Core.List.{Mem, mem-cons_self, mem-cons_of_mem}
use ai_powered_security_inve.Base.{
  ℕ, ◌-◌, ◌≤◌, ◌⊎◌, String, true, false, List, [], ◌∷◌, map, ◌≡◌, sym, length, length-take, take,
  All, All-take, inl, inr, arith,
}
use ai_powered_security_inve.Base.Dict.{lookup}
use ai_powered_security_inve.Base.Members.{IsTakenOrAfter, All-IsTakenOrAfter, take-sort-IsSorted}
use ai_powered_security_inve.Base.Sort.{IsSorted, sort, All-sort}
use ai_powered_security_inve.Investigation.Memory.{
  Floats, CompletedCase, CaseRecord, RelatedCase, frozenset, record_of, cases_of, matches_of,
  more_similar, recall,
}
use ai_powered_security_inve.Investigation.Remembered.{
  drop_none, last_of, cases_for, remember_all, cases_of-remember_all,
}
use ai_powered_security_inve.Investigation.Records.{
  IsRecordOf, All-IsRecordOf, IsSetOf, frozenset-IsSetOf,
}
use ai_powered_security_inve.Investigation.Similar.{
  IsMatch, IsUnrelated, IsRecalled, IsAccounted, no_less_similar, similarity-Outcome,
}

module _ {F : Type 0} (floats : Floats F) (iocs techs : List String) where
  abbrev matched : List (CaseRecord F) → List (RelatedCase F)
  matched cases = matches_of floats (frozenset iocs) (frozenset techs) cases

  matches_of-IsRecalled :
      (all_cases cases : List (CaseRecord F))
      → ((c : CaseRecord F) → Mem c cases → Mem c all_cases)
      → All (IsRecalled floats iocs techs all_cases) (matched cases)
  unfolding matches_of
  matches_of-IsRecalled all_cases [] sub = tt
  matches_of-IsRecalled all_cases (c ∷ cases) sub =
      let rest : All (IsRecalled floats iocs techs all_cases) (matched cases) =
        matches_of-IsRecalled all_cases cases (λ d i. sub d (mem-cons_of_mem c i)) in
      elim (similarity-Outcome floats iocs techs c) [
        | inl (e, unrelated) ↦ rw e rest
        | inr (m, e, is_match) ↦ rw e ((c, sub c mem-cons_self, is_match), rest)
      ]

  -- what holds of the matches holds of that of every case that is related
  matches_of-related :
      (P : RelatedCase F → Type 0) (cases : List (CaseRecord F))
      → All P (matched cases)
      → All
          (λ c.
            IsUnrelated floats iocs techs c
            ⊎ ((m : RelatedCase F) × IsMatch floats iocs techs c m × P m))
          cases
  unfolding matches_of
  matches_of-related P [] h = tt
  matches_of-related P (c ∷ cases) h = elim (similarity-Outcome floats iocs techs c) [
    | inl (e, unrelated) ↦ (inl unrelated, matches_of-related P cases (rw e at h))
    | inr (m, e, is_match) ↦
        let k : P m × All P (matched cases) = rw e at h in
        (inr (m, is_match, k.0), matches_of-related P cases k.1)
  ]

  -- After any cases were remembered in an empty memory, the cases of a tenant are the last `max_cases` of
  -- those that were remembered for it. Where the comparison of floats is a weak order, as it is without
  -- NaN, a recall for the tenant returns at most `limit` matches, the most similar first, each of one of
  -- these cases, with the indicators and techniques that the case has of those asked for, at least one
  -- indicator, and for similarity seven tenths of the share of the indicators and three tenths of that
  -- of the techniques, at most 1 and rounded; and a case of the tenant is unrelated, or recalled, or
  -- `limit` matches are recalled that are no less similar. The record of a case has its id, tenant, title
  -- and verdict, its risk, and the sets of its indicators and of its techniques.
  pub recall_outcome :
      (max_cases limit : ℕ) (tenant : String) (pkgs : List (CompletedCase F))
      → ((a b : F) → floats.less a b ≡ true → floats.less b a ≡ false)
      → ((a b c : F) → floats.less a b ≡ false → floats.less b c ≡ false → floats.less a c ≡ false)
      → (cases_of tenant (remember_all floats max_cases pkgs [])
          ≡ last_of max_cases (map (record_of floats) (cases_for tenant pkgs)))
        × All
            (IsRecalled floats iocs techs
              (last_of max_cases (map (record_of floats) (cases_for tenant pkgs))))
            (recall floats tenant iocs techs limit (remember_all floats max_cases pkgs []))
        × IsSorted
            (no_less_similar floats iocs techs)
            (recall floats tenant iocs techs limit (remember_all floats max_cases pkgs []))
        × (length (recall floats tenant iocs techs limit (remember_all floats max_cases pkgs []))
            ≤ limit)
        × All
            (IsAccounted floats iocs techs limit
              (recall floats tenant iocs techs limit (remember_all floats max_cases pkgs [])))
            (last_of max_cases (map (record_of floats) (cases_for tenant pkgs)))
        × All (λ pkg. IsRecordOf floats pkg (record_of floats pkg)) pkgs
        × IsSetOf iocs (frozenset iocs)
        × IsSetOf techs (frozenset techs)
  unfolding recall cases_of lookup
  recall_outcome max_cases limit tenant pkgs asym weak =
      let kept_cases : List (CaseRecord F) =
        last_of max_cases (map (record_of floats) (cases_for tenant pkgs)) in
      let kept : cases_of tenant (remember_all floats max_cases pkgs []) ≡ kept_cases =
        cases_of-remember_all floats max_cases tenant pkgs [] []
          (sym (drop_none (0 - max_cases))) in
      let found : List (RelatedCase F) =
        matched (cases_of tenant (remember_all floats max_cases pkgs [])) in
      let recalled : All (IsRecalled floats iocs techs kept_cases) found =
        subst (λ cases. All (IsRecalled floats iocs techs kept_cases) (matched cases)) (sym kept)
          (matches_of-IsRecalled kept_cases kept_cases (λ c i. i)) in
      let total : (m n : RelatedCase F)
          → more_similar floats m n ≡ false
          → more_similar floats n m ≡ true =
        λ m n h. ground (arith, asym m.similarity n.similarity) in
      let trans : (m n k : RelatedCase F)
          → more_similar floats m n ≡ true
          → more_similar floats n k ≡ true
          → more_similar floats m k ≡ true =
        λ m n k h i. ground (arith, weak m.similarity n.similarity k.similarity) in
      let accounted : All
          (IsAccounted floats iocs techs limit (take limit (sort (more_similar floats) found)))
          (cases_of tenant (remember_all floats max_cases pkgs [])) =
        matches_of-related
          (IsTakenOrAfter (more_similar floats) limit
            (take limit (sort (more_similar floats) found)))
          (cases_of tenant (remember_all floats max_cases pkgs []))
          (All-IsTakenOrAfter (more_similar floats) total trans limit found) in
      (
        kept,
        All-take (IsRecalled floats iocs techs kept_cases) limit (sort (more_similar floats) found)
            (All-sort (more_similar floats) (IsRecalled floats iocs techs kept_cases) found
              recalled),
        take-sort-IsSorted (more_similar floats) total trans limit found,
        omega (arith, length-take limit (sort (more_similar floats) found)),
        subst
            (All
              (IsAccounted floats iocs techs limit (take limit (sort (more_similar floats) found))))
            kept accounted,
        All-IsRecordOf floats pkgs,
        frozenset-IsSetOf iocs,
        frozenset-IsSetOf techs,
      )
