-- ===== src/Investigation/Similar.antt =====
-- When `similarity` of backend/app/agents/memory.py finds a case related, and how it describes the match.
use mathlib.Core.List.{Mem}
use ai_powered_security_inve.Base.{
  ℕ, ◌⊎◌, min, eqb, ap, not, any, keep, if◌then◌else◌, String, Bool, true, false, ◌&&◌, ◌||◌,
  Option, none, some, List, [], ◌∷◌, ◌≡◌, refl, sym, ◌∙◌, ◌==◌, length, All, Bool-cases, inl, inr,
  arith,
}
use ai_powered_security_inve.Base.Sets.{is_in, is_in-keep, any-sort, any_congr}
use ai_powered_security_inve.Base.Sort.{sort}
use ai_powered_security_inve.Graph.Client.{text_order}
use ai_powered_security_inve.Investigation.Memory.{
  Floats, CaseRecord, RelatedCase, frozenset, shared_of, similarity, is_none, overlap, weighted,
}
use ai_powered_security_inve.Investigation.Records.{is_in-frozenset_from}

-- How alike two sets of texts are: the share of the smaller one that both have, 0 where one is empty.
abbrev pub share : {F : Type 0} → Floats F → List String → List String → F
share floats a b =
    if eqb (length a) 0 || eqb (length b) 0
    then floats.fraction 0 1
    else floats.fraction (length (keep (λ x. is_in x b) a)) (min (length a) (length b))

module _ {F : Type 0} (floats : Floats F) (iocs techs : List String) where
  -- seven tenths of the share of the indicators and three tenths of the share of the techniques
  abbrev pub likeness : CaseRecord F → F
  likeness c =
      floats.plus (floats.times (floats.fraction 7 10) (share floats c.ioc_keys (frozenset iocs)))
        (floats.times (floats.fraction 3 10) (share floats c.technique_ids (frozenset techs)))

  -- what is asked for has an indicator of the case
  abbrev pub has_shared : CaseRecord F → Bool
  has_shared c = any (λ x. is_in x iocs) c.ioc_keys

  -- what the match of a case is
  pub record IsMatch (c : CaseRecord F) (m : RelatedCase F) : Type 0 where
    pub same_case : m.investigation_id ≡ c.investigation_id
    pub same_verdict : m.verdict ≡ c.verdict
    pub shared : has_shared c ≡ true
    pub alike : floats.less (likeness c) (floats.fraction 5 100) ≡ false
    pub similar :
        m.similarity
        ≡ floats.round_to
            (if floats.less (floats.fraction 1 1) (likeness c)
              then floats.fraction 1 1
              else likeness c)
            4
    pub iocs_shared : (x : String) → is_in x m.shared_iocs ≡ (is_in x iocs && is_in x c.ioc_keys)
    pub techniques_shared :
        (x : String) → is_in x m.shared_techniques ≡ (is_in x techs && is_in x c.technique_ids)

  -- a case that shares no indicator, or is too little alike
  abbrev pub IsUnrelated : CaseRecord F → Type 0
  IsUnrelated c = (has_shared c ≡ false) ⊎ (floats.less (likeness c) (floats.fraction 5 100) ≡ true)

  -- the match is that of a case of the list
  abbrev pub IsRecalled : List (CaseRecord F) → RelatedCase F → Type 0
  IsRecalled cases m = (c : CaseRecord F) × Mem c cases × IsMatch c m

  -- the match comes before the other, or neither does
  abbrev pub no_less_similar : RelatedCase F → RelatedCase F → Bool
  no_less_similar m n = not (floats.less m.similarity n.similarity)

  -- The case is unrelated, or its match is in the list, or else the list is full of matches that are
  -- no less similar.
  abbrev pub IsAccounted : ℕ → List (RelatedCase F) → CaseRecord F → Type 0
  IsAccounted limit found c =
      IsUnrelated c
      ⊎ ((m : RelatedCase F) × IsMatch c m
          × (Mem m found ⊎ ((length found ≡ limit) × All (λ k. no_less_similar k m ≡ true) found)))

  is_none-length : (xs : List String) → is_none xs ≡ eqb (length xs) 0
  is_none-length [] = refl
  is_none-length (x ∷ xs) = ground arith

  share_lem : (a b : List String) → (overlap floats a b).0 ≡ share floats a b
  share_lem a b =
      let zero_share : F = floats.fraction 0 1 in
      let some_share : F = floats.fraction (length (shared_of a b)) (min (length a) (length b)) in
      let empty : (is_none a || is_none b) ≡ (eqb (length a) 0 || eqb (length b) 0) =
        ground (arith, is_none-length a, is_none-length b) in
      first_of (is_none a || is_none b) zero_share some_share [] (sort text_order (shared_of a b))
      ∙ ap (λ e. if e then zero_share else some_share) empty
    where
      first_of :
          (b : Bool) (x y : F) (u v : List String)
          → (if◌then◌else◌ {A = F × List String} b (x, u) (y, v)).0 ≡ (if b then x else y)
      first_of true x y u v = refl
      first_of false x y u v = refl

  likeness_lem :
      (c : CaseRecord F)
      → weighted floats
          (overlap floats c.ioc_keys (frozenset iocs)).0
          (overlap floats c.technique_ids (frozenset techs)).0
        ≡ likeness c
  likeness_lem c = λ i.
      floats.plus (floats.times (floats.fraction 7 10) (share_lem c.ioc_keys (frozenset iocs) i))
        (floats.times (floats.fraction 3 10) (share_lem c.technique_ids (frozenset techs) i))

  is_in-overlap :
      (x : String) (a b : List String) → is_in x (overlap floats a b).1 ≡ (is_in x b && is_in x a)
  is_in-overlap x [] b = ground arith
  is_in-overlap x (y ∷ a) [] = refl
  is_in-overlap x (y ∷ a) (z ∷ b) =
      any-sort (λ k. k == x) text_order (shared_of (y ∷ a) (z ∷ b))
      ∙ is_in-keep (λ k. is_in k (z ∷ b)) x (y ∷ a)

  is_none-any : (xs : List String) → is_none xs ≡ not (any (λ x. true) xs)
  is_none-any [] = refl
  is_none-any (x ∷ xs) = refl

  any-keep : (p : String → Bool) (xs : List String) → any (λ x. true) (keep p xs) ≡ any p xs
  any-keep p [] = refl
  any-keep p (x ∷ xs) = ground (arith, any-keep p xs)

  any_never : (xs : List String) → any (λ x. false) xs ≡ false
  any_never [] = refl
  any_never (x ∷ xs) = any_never xs

  is_none-overlap :
      (a b : List String) → is_none (overlap floats a b).1 ≡ not (any (λ x. is_in x b) a)
  is_none-overlap [] b = ground arith
  is_none-overlap (y ∷ a) [] = ap not (sym (any_never (y ∷ a)))
  is_none-overlap (y ∷ a) (z ∷ b) =
      is_none-any (sort text_order (shared_of (y ∷ a) (z ∷ b)))
      ∙ ap not (
          any-sort (λ x. true) text_order (shared_of (y ∷ a) (z ∷ b))
          ∙ any-keep (λ x. is_in x (z ∷ b)) (y ∷ a))

  not-has_shared :
      (c : CaseRecord F)
      → is_none (overlap floats c.ioc_keys (frozenset iocs)).1 ≡ not (has_shared c)
  not-has_shared c =
      is_none-overlap c.ioc_keys (frozenset iocs)
      ∙ ap not (
          any_congr (λ x. is_in x (frozenset iocs)) (λ x. is_in x iocs) c.ioc_keys
            (λ x. is_in-frozenset_from x iocs []))

  -- the match of a case, if it has one
  abbrev pub Outcome : CaseRecord F → Option (RelatedCase F) → Type 0
  Outcome c found =
      ((found ≡ none) × IsUnrelated c) ⊎ ((m : RelatedCase F) × (found ≡ some m) × IsMatch c m)

  pub similarity-Outcome :
      (c : CaseRecord F) → Outcome c (similarity floats c (frozenset iocs) (frozenset techs))
  unfolding similarity
  similarity-Outcome c =
      let score : F =
        weighted floats (overlap floats c.ioc_keys (frozenset iocs)).0
          (overlap floats c.technique_ids (frozenset techs)).0 in
      let nothing : Bool = is_none (overlap floats c.ioc_keys (frozenset iocs)).1 in
      let low : floats.less score (floats.fraction 5 100)
          ≡ floats.less (likeness c) (floats.fraction 5 100) =
        ap (λ f. floats.less f (floats.fraction 5 100)) (likeness_lem c) in
      elim (Bool-cases (floats.less score (floats.fraction 5 100) || nothing)) [
        | inl refused ↦ rw refused (
            inl (
              refl,
              elim (Bool-cases (has_shared c)) [
                | inr f ↦ inl f
                | inl t ↦ inr (ground (arith, refused, low, not-has_shared c, t))
              ],
            ))
        | inr accepted ↦ rw accepted (
            inr (
              _,
              refl,
              record {
                same_case = refl;
                same_verdict = refl;
                shared = ground (arith, accepted, not-has_shared c);
                alike = ground (arith, accepted, low);
                similar =
                    ap
                      (λ f.
                        floats.round_to
                          (if floats.less (floats.fraction 1 1) f then floats.fraction 1 1 else f)
                          4)
                      (likeness_lem c);
                iocs_shared = λ x.
                    is_in-overlap x c.ioc_keys (frozenset iocs)
                    ∙ ap (λ b. b && is_in x c.ioc_keys) (is_in-frozenset_from x iocs []);
                techniques_shared = λ x.
                    is_in-overlap x c.technique_ids (frozenset techs)
                    ∙ ap (λ b. b && is_in x c.technique_ids) (is_in-frozenset_from x techs []);
              },
            ))
      ]
