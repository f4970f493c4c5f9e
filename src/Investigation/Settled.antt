-- ===== src/Investigation/Settled.antt =====
-- When `suggest` of backend/app/agents/reflection.py has nothing left to propose, and what it proposes.
use ai_powered_security_inve.Base.{
  ℕ, String, none, some, Bool, any, sum_by, length, keep, ltb, if◌then◌else◌, true, false, not,
  ◌&&◌, ◌||◌, List, [], ◌∷◌, ◌++◌, map, ◌≡◌, refl, ap, ◌∙◌, all, is_some, arith, Bool-cases,
  Option-cases, inl, inr, eq_iff, eq_refl, ◌==◌,
}
use ai_powered_security_inve.Base.Dict.{Dict}
use ai_powered_security_inve.Base.Sets.{is_in}
use ai_powered_security_inve.Base.Sort.{sort, sort_insert}
use ai_powered_security_inve.Schemas.Common.{is_suspicious, is_malicious}
use ai_powered_security_inve.Base.Text.{lower}
use ai_powered_security_inve.Investigation.State.{
  EnrichedIoc, SourceVerdict, EdrHit, EmailAttachment, InvestigationState,
}
use ai_powered_security_inve.Investigation.Planner.{attachments, is_none}
use ai_powered_security_inve.Investigation.Reflection.{
  Issue, edr_values, unenriched, undetonated, keys_where, key_order, susp_unhunted, gaps,
  is_unconfirmed, unverified, contradictions, analyze, action_key, suggest_from, suggest,
}

abbrev no_action : Issue → Bool
no_action i = not (is_some i.action)

all-append {ℓ} :
    {A : Type ℓ} (p : A → Bool) (xs ys : List A) → all p (xs ++ ys) ≡ (all p xs && all p ys)
all-append p [] ys = refl
all-append p (x ∷ xs) ys = ground (arith, all-append p xs ys)

-- nothing is suggested where no issue has an action
is_none-suggest_from :
    (issues : List Issue) → is_none (suggest_from [] issues) ≡ all no_action issues
unfolding suggest_from
is_none-suggest_from [] = refl
is_none-suggest_from (i ∷ issues) = elim (Option-cases i.action) [
  | inl e ↦ rw e (is_none-suggest_from issues)
  | inr (a, e) ↦ rw e refl
]

-- an endpoint has the value of the IOC, in any case of its letters
abbrev pub is_seen : List EdrHit → EnrichedIoc → Bool
is_seen hits e = any (λ (h : EdrHit). lower h.ioc.value == lower e.ioc.value) hits

-- how many sources call the IOC malicious
abbrev pub malicious_votes : EnrichedIoc → ℕ
malicious_votes e =
    sum_by (λ (s : SourceVerdict). if is_malicious s.verdict then 1 else 0) e.sources

-- an IOC that reflection asks to hunt until it was
abbrev pub is_doubtful : List EdrHit → EnrichedIoc → Bool
is_doubtful hits e =
    is_suspicious e.verdict
    || (is_malicious e.verdict && ltb (malicious_votes e) 2 && not (is_seen hits e))

abbrev pub is_settled : List EdrHit → List String → String × EnrichedIoc → Bool
is_settled hits hunted (k, e) = not (is_doubtful hits e) || is_in k hunted

length-keep :
    (p : SourceVerdict → Bool) (xs : List SourceVerdict)
    → length (keep p xs) ≡ sum_by (λ s. if p s then 1 else 0) xs
length-keep p [] = refl
length-keep p (x ∷ xs) = ground (arith, length-keep p xs)

is_in-edr_values :
    (x : String) (hits : List EdrHit)
    → is_in x (edr_values hits) ≡ any (λ (h : EdrHit). lower h.ioc.value == x) hits
is_in-edr_values x [] = refl
is_in-edr_values x (h ∷ hits) = ground (arith, is_in-edr_values x hits)

is_unconfirmed_lem :
    (hits : List EdrHit) (e : EnrichedIoc)
    → is_unconfirmed (edr_values hits) e
      ≡ (is_malicious e.verdict && ltb (malicious_votes e) 2 && not (is_seen hits e))
unfolding is_unconfirmed
is_unconfirmed_lem hits e = ground (
  arith,
  is_in-edr_values (lower e.ioc.value) hits,
  length-keep (λ (s : SourceVerdict). is_malicious s.verdict) e.sources,
)

no_action-unenriched :
    (state : InvestigationState) → all no_action (unenriched state) ≡ is_none state.pending_iocs
unfolding unenriched
no_action-unenriched state = ground arith

no_action-undetonated :
    (detonated : List String) (atts : List EmailAttachment)
    → all no_action (undetonated detonated atts)
      ≡ all (λ (att : EmailAttachment). is_in att.sha256 detonated) atts
unfolding undetonated
no_action-undetonated detonated [] = refl
no_action-undetonated detonated (att ∷ atts) = ground (arith, no_action-undetonated detonated atts)

is_none-sort_insert : (k : String) (ks : List String) → is_none (sort_insert key_order k ks) ≡ false
is_none-sort_insert k [] = refl
is_none-sort_insert k (j ∷ ks) = ground arith

is_none-sort : (ks : List String) → is_none (sort key_order ks) ≡ is_none ks
unfolding sort
is_none-sort [] = refl
is_none-sort (k ∷ ks) = is_none-sort_insert k (sort key_order ks)

no_action-gaps : (ks : List String) → all no_action (gaps ks) ≡ is_none ks
unfolding gaps
no_action-gaps ks = ground arith

is_none-keys_where :
    (p : String → EnrichedIoc → Bool) (d : Dict EnrichedIoc)
    → is_none (keys_where p d) ≡ all (λ (k, e). not (p k e)) d
unfolding keys_where
is_none-keys_where p [] = refl
is_none-keys_where p ((k, e) ∷ d) = ground (arith, is_none-keys_where p d)

no_action-unverified :
    (values hunted : List String) (d : Dict EnrichedIoc)
    → all no_action (unverified values hunted d)
      ≡ all (λ (k, e). not (is_unconfirmed values e) || is_in k hunted) d
unfolding unverified
no_action-unverified values hunted [] = refl
no_action-unverified values hunted ((k, e) ∷ d) =
    ground (arith, no_action-unverified values hunted d)

no_action-contradictions : (d : Dict EnrichedIoc) → all no_action (contradictions d) ≡ true
unfolding contradictions
no_action-contradictions [] = refl
no_action-contradictions ((k, e) ∷ d) = ground (arith, no_action-contradictions d)

-- the two reasons for a hunt, together
all-is_settled :
    (hits : List EdrHit) (hunted : List String) (d : Dict EnrichedIoc)
    → (all (λ (k, e). not (is_suspicious e.verdict && not (is_in k hunted))) d
        && all (λ (k, e). not (is_unconfirmed (edr_values hits) e) || is_in k hunted) d)
      ≡ all (is_settled hits hunted) d
all-is_settled hits hunted [] = refl
all-is_settled hits hunted ((k, e) ∷ d) =
    ground (arith, all-is_settled hits hunted d, is_unconfirmed_lem hits e)

-- Reflection proposes nothing exactly when no IOC is left to enrich, every attachment was detonated, and
-- every IOC that is suspicious, or malicious with at most one source that calls it so and no endpoint
-- that has its value, was hunted.
pub suggest_none :
    (state : InvestigationState)
    → is_none (suggest state) ≡ (
        is_none state.pending_iocs
        && (all
              (λ (att : EmailAttachment). is_in att.sha256 state.detonated)
              (attachments state.email_msg)
            && all (is_settled state.edr_hits state.hunted_keys) state.enriched))
unfolding suggest analyze susp_unhunted
suggest_none state =
    let values : List String = edr_values state.edr_hits in
    let atts : List EmailAttachment = attachments state.email_msg in
    let susp : List String =
      keys_where (λ k e. is_suspicious e.verdict && not (is_in k state.hunted_keys))
        state.enriched in
    let missing : List Issue = unenriched state in
    let files : List Issue = undetonated state.detonated atts in
    let gap : List Issue = gaps (sort key_order susp) in
    let single : List Issue = unverified values state.hunted_keys state.enriched in
    is_none-suggest_from (analyze state)
    ∙ all-append no_action (missing ++ files ++ gap ++ single) (contradictions state.enriched)
    ∙ rw
        (
          all-append no_action (missing ++ files ++ gap) single,
          all-append no_action (missing ++ files) gap,
          all-append no_action missing files,
          no_action-unenriched state,
          no_action-undetonated state.detonated atts,
          no_action-gaps (sort key_order susp),
          is_none-sort susp,
          is_none-keys_where (λ k e. is_suspicious e.verdict && not (is_in k state.hunted_keys))
              state.enriched,
          no_action-unverified values state.hunted_keys state.enriched,
          no_action-contradictions state.enriched,
        )
        (ground (arith, all-is_settled state.edr_hits state.hunted_keys state.enriched))

-- no text stands twice
abbrev pub is_distinct : List String → Bool
is_distinct [] = true
is_distinct (x ∷ xs) = not (is_in x xs) && is_distinct xs

-- the keys of the actions that the issues have
abbrev pub action_keys : List Issue → List String
action_keys [] = []
action_keys (i ∷ issues) = elim i.action [
  | none ↦ action_keys issues
  | some a ↦ action_key a ∷ action_keys issues
]

keys-suggest_from :
    (k : String) (seen : List String) (issues : List Issue)
    → is_in k (map action_key (suggest_from seen issues))
      ≡ (not (is_in k seen) && is_in k (action_keys issues))
unfolding suggest_from
keys-suggest_from k seen [] = ground arith
keys-suggest_from k seen (i ∷ issues) = elim (Option-cases i.action) [
  | inl e ↦ rw e (keys-suggest_from k seen issues)
  | inr (a, e) ↦
      let agree : (action_key a == k) ≡ true → is_in (action_key a) seen ≡ is_in k seen =
        λ t. ap (λ z. is_in z seen) ((eq_iff (action_key a) k).0 t) in
      rw e (elim (Bool-cases (is_in (action_key a) seen)) [
        | inl t ↦ rw t (ground (arith, agree, keys-suggest_from k seen issues))
        | inr f ↦ rw f (ground (arith, agree, keys-suggest_from k (action_key a ∷ seen) issues))
      ])
]

distinct-suggest_from :
    (seen : List String) (issues : List Issue)
    → is_distinct (map action_key (suggest_from seen issues)) ≡ true
unfolding suggest_from
distinct-suggest_from seen [] = refl
distinct-suggest_from seen (i ∷ issues) = elim (Option-cases i.action) [
  | inl e ↦ rw e (distinct-suggest_from seen issues)
  | inr (a, e) ↦ rw e (elim (Bool-cases (is_in (action_key a) seen)) [
    | inl t ↦ rw t (distinct-suggest_from seen issues)
    | inr f ↦ rw f (
        ground (
          arith,
          distinct-suggest_from (action_key a ∷ seen) issues,
          keys-suggest_from (action_key a) (action_key a ∷ seen) issues,
          eq_refl (action_key a),
        ))
  ])
]

-- Reflection proposes no task twice, and some action for every task that an issue of the analysis asks for.
pub suggest_distinct :
    (k : String) (state : InvestigationState)
    → (is_distinct (map action_key (suggest state)) ≡ true)
      × (is_in k (map action_key (suggest state)) ≡ is_in k (action_keys (analyze state)))
unfolding suggest
suggest_distinct k state =
    (distinct-suggest_from [] (analyze state), keys-suggest_from k [] (analyze state))
