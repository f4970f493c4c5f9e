-- ===== src/Investigation/Convergence.antt =====
-- When the planner has nothing left to propose, and when it proposes to hunt.
use mathlib.Core.Path.{subst}
use ai_powered_security_inve.Base.{
  String, ◌≡◌, refl, ◌∙◌, Bool, true, false, not, ◌&&◌, ◌||◌, List, [], ◌∷◌, ◌++◌, if◌then◌else◌,
  ◌==◌, any, all, arith, Bool-cases, inl, inr, length,
}
use ai_powered_security_inve.Base.Dict.{Dict}
use ai_powered_security_inve.Planning.Scheduler.{PlannedAction}
use ai_powered_security_inve.Base.Sets.{is_in}
use ai_powered_security_inve.Investigation.State.{
  EnrichedIoc, EmailAttachment, InvestigationState, items_where, malicious_unhunted, unhunted,
  looks_like_phishing,
}
use ai_powered_security_inve.Schemas.Common.{is_malicious}
use ai_powered_security_inve.Investigation.Planner.{
  first_batch, is_none, when, detonations, attachments, collections, hunts, next_actions,
  run_detections, fetch_email_context, enrich_iocs, extract_iocs,
}

-- the first phase is over, the corpus read, every IOC enriched and every attachment detonated
abbrev pub is_collected : InvestigationState → Bool
is_collected state =
    (state.detections_ran && (not (looks_like_phishing state) || state.email_checked))
    && (state.extracted
        && (is_none state.pending_iocs
            && all (λ att. is_in att.sha256 state.detonated) (attachments state.email_msg)))

-- the IOC is hunted if it is malicious
abbrev pub is_covered : List String → String × EnrichedIoc → Bool
is_covered hunted (key, e) = not (is_malicious e.verdict) || is_in key hunted

-- every malicious IOC is hunted, and something is hunted at all if there is something to hunt
abbrev pub is_hunted : InvestigationState → Bool
is_hunted state =
    all (is_covered state.hunted_keys) state.enriched
    && (not (is_none state.hunted_keys) || is_none state.enriched)

is_none-append : {A : Type 0} (xs ys : List A) → is_none (xs ++ ys) ≡ (is_none xs && is_none ys)
is_none-append [] ys = refl
is_none-append (x ∷ xs) ys = refl

is_none-when : (b : Bool) (a : PlannedAction) → is_none (when b a) ≡ not b
is_none-when true a = refl
is_none-when false a = refl

is_none-detonations :
    (detonated : List String) (atts : List EmailAttachment)
    → is_none (detonations detonated atts) ≡ all (λ att. is_in att.sha256 detonated) atts
is_none-detonations detonated [] = refl
is_none-detonations detonated (att ∷ atts) = elim (Bool-cases (is_in att.sha256 detonated)) [
  | inl seen ↦ rw seen (is_none-detonations detonated atts)
  | inr new ↦ rw new refl
]

is_none-malicious :
    (hunted : List String) (d : Dict EnrichedIoc)
    → is_none (items_where (λ key e. is_malicious e.verdict && not (is_in key hunted)) d)
      ≡ all (is_covered hunted) d
is_none-malicious hunted [] = refl
is_none-malicious hunted ((key, e) ∷ d) = elim (Bool-cases (is_malicious e.verdict)) [
  | inr good ↦ rw good (is_none-malicious hunted d)
  | inl bad ↦ elim (Bool-cases (is_in key hunted)) [
    | inl seen ↦ rw (bad, seen) (is_none-malicious hunted d)
    | inr new ↦ rw (bad, new) refl
  ]
]

-- with nothing hunted yet, everything is left
is_none-unhunted :
    (hunted : List String) (d : Dict EnrichedIoc)
    → is_none hunted ≡ true
    → is_none (items_where (λ key e. not (is_in key hunted)) d) ≡ is_none d
is_none-unhunted [] [] h = refl
is_none-unhunted [] (e ∷ d) h = refl
is_none-unhunted (k ∷ hunted) d h = cc

is_none-first_batch :
    (state : InvestigationState)
    → is_none (first_batch state)
      ≡ (state.detections_ran && (not (looks_like_phishing state) || state.email_checked))
unfolding first_batch
is_none-first_batch state = ground (
  arith,
  is_none-append (when (not state.detections_ran) run_detections)
      (when (looks_like_phishing state && not state.email_checked) fetch_email_context),
  is_none-when (not state.detections_ran) run_detections,
  is_none-when (looks_like_phishing state && not state.email_checked) fetch_email_context,
)

is_none-collections :
    (state : InvestigationState)
    → is_none (collections state) ≡ (
        is_none state.pending_iocs
        && all (λ att. is_in att.sha256 state.detonated) (attachments state.email_msg))
unfolding collections
is_none-collections state = ground (
  arith,
  is_none-append (when (not (is_none state.pending_iocs)) (enrich_iocs (length state.pending_iocs)))
      (detonations state.detonated (attachments state.email_msg)),
  is_none-when (not (is_none state.pending_iocs)) (enrich_iocs (length state.pending_iocs)),
  is_none-detonations state.detonated (attachments state.email_msg),
)

is_none-hunts : (state : InvestigationState) → is_none (hunts state) ≡ is_hunted state
unfolding hunts malicious_unhunted unhunted
is_none-hunts state = elim (Bool-cases (is_none state.hunted_keys)) [
  | inl fresh ↦ ground (
    arith,
    fresh,
    is_none-malicious state.hunted_keys state.enriched,
    is_none-unhunted state.hunted_keys state.enriched fresh,
  )
  | inr begun ↦ ground (arith, begun, is_none-malicious state.hunted_keys state.enriched)
]

-- what `next_actions` does with its phases
abbrev phased :
    List PlannedAction
    → Bool
    → PlannedAction
    → List PlannedAction
    → List PlannedAction
    → List PlannedAction
phased first extracted extract collect hunt =
    if not (is_none first)
    then first
    else if not extracted
    then extract ∷ []
    else if is_none collect
    then hunt
    else collect

is_none-phased :
    (first : List PlannedAction) (extracted : Bool) (extract : PlannedAction)
    (collect hunt : List PlannedAction)
    → is_none (phased first extracted extract collect hunt)
      ≡ ((is_none first && (extracted && is_none collect)) && is_none hunt)
is_none-phased [] true x [] hunt = refl
is_none-phased [] true x (c ∷ cs) hunt = refl
is_none-phased [] false x collect hunt = refl
is_none-phased (f ∷ fs) extracted x collect hunt = refl

-- The planner proposes nothing exactly when the detections ran, the email of a phishing alert was
-- looked at, the corpus was read, no IOC waits for enrichment, every attachment is detonated, every
-- malicious IOC is hunted, and something is hunted if any IOC is enriched.
pub next_actions_none :
    (state : InvestigationState)
    → is_none (next_actions state) ≡ (is_collected state && is_hunted state)
unfolding next_actions
next_actions_none state =
    is_none-phased (first_batch state) state.extracted extract_iocs (collections state)
      (hunts state)
    ∙ rw (is_none-first_batch state, is_none-collections state, is_none-hunts state) refl

abbrev pub is_hunt : PlannedAction → Bool
is_hunt a = a.tool == "hunt_edr"

any_hunt-append :
    (xs ys : List PlannedAction) → any is_hunt (xs ++ ys) ≡ (any is_hunt xs || any is_hunt ys)
any_hunt-append [] ys = refl
any_hunt-append (x ∷ xs) ys = ground (arith, any_hunt-append xs ys)

any_hunt-when : (b : Bool) (a : PlannedAction) → is_hunt a ≡ false → any is_hunt (when b a) ≡ false
any_hunt-when true a h = rw h refl
any_hunt-when false a h = refl

any_hunt-detonations :
    (detonated : List String) (atts : List EmailAttachment)
    → any is_hunt (detonations detonated atts) ≡ false
any_hunt-detonations detonated [] = refl
any_hunt-detonations detonated (att ∷ atts) = elim (Bool-cases (is_in att.sha256 detonated)) [
  | inl seen ↦ rw seen (any_hunt-detonations detonated atts)
  | inr new ↦ rw new (any_hunt-detonations detonated atts)
]

any_hunt-first_batch : (state : InvestigationState) → any is_hunt (first_batch state) ≡ false
unfolding first_batch
any_hunt-first_batch state =
    any_hunt-append (when (not state.detections_ran) run_detections)
      (when (looks_like_phishing state && not state.email_checked) fetch_email_context)
    ∙ rw
        (
          any_hunt-when (not state.detections_ran) run_detections refl,
          any_hunt-when (looks_like_phishing state && not state.email_checked) fetch_email_context
              refl,
        )
        refl

any_hunt-collections : (state : InvestigationState) → any is_hunt (collections state) ≡ false
unfolding collections
any_hunt-collections state =
    any_hunt-append
      (when (not (is_none state.pending_iocs)) (enrich_iocs (length state.pending_iocs)))
      (detonations state.detonated (attachments state.email_msg))
    ∙ rw
        (
          any_hunt-when (not (is_none state.pending_iocs)) (enrich_iocs (length state.pending_iocs))
              refl,
          any_hunt-detonations state.detonated (attachments state.email_msg),
        )
        refl

any_hunt-phased :
    (first : List PlannedAction) (extracted : Bool) (extract : PlannedAction)
    (collect hunt : List PlannedAction)
    → any is_hunt first ≡ false
    → is_hunt extract ≡ false
    → any is_hunt collect ≡ false
    → (not (any is_hunt (phased first extracted extract collect hunt))
        || (is_none first && (extracted && is_none collect)))
      ≡ true
any_hunt-phased [] true x [] hunt f e c = ground arith
any_hunt-phased [] true x (a ∷ cs) hunt f e c = rw c refl
any_hunt-phased [] false x collect hunt f e c = rw e refl
any_hunt-phased (a ∷ fs) extracted x collect hunt f e c = rw f refl

collected :
    (state : InvestigationState)
    → (is_none (first_batch state) && (state.extracted && is_none (collections state)))
      ≡ is_collected state
collected state = rw (is_none-first_batch state, is_none-collections state) refl

-- The planner never proposes to hunt before the first phase is over, the corpus read, every IOC
-- enriched and every attachment detonated.
pub hunt_last :
    (state : InvestigationState)
    → (not (any is_hunt (next_actions state)) || is_collected state) ≡ true
unfolding next_actions
hunt_last state =
    subst (λ b. (not (any is_hunt (next_actions state)) || b) ≡ true) (collected state)
      (any_hunt-phased (first_batch state) state.extracted extract_iocs (collections state)
        (hunts state) (any_hunt-first_batch state) refl (any_hunt-collections state))
