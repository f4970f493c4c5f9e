-- ===== src/Playbook/Steps.antt =====
-- What a recommended playbook always is (backend/app/engines/playbook/recommender.py).
use mathlib.Core.Path.{subst}
use ai_powered_security_inve.Base.{
  ◌≤◌, String, ◌≡◌, refl, sym, ◌∙◌, Bool, true, false, ◌&&◌, ◌||◌, List, [], ◌∷◌, ◌++◌, map,
  if◌then◌else◌, ◌==◌, arith, All, All-append, All-map, length, length-append, Bool-cases, inl, inr,
  ap,
}
use ai_powered_security_inve.Base.Pairs.{Pairs}
use ai_powered_security_inve.Approvals.Types.{PlaybookStep}
use ai_powered_security_inve.Schemas.Common.{Verdict, is_malicious}
use ai_powered_security_inve.Playbook.Recommender.{
  Remedy, Draft, rules_for, before_dot, step, same_key, is_seen, add_rule, add_rules,
  add_techniques, escalation, improvement, is_none, close, recommend_playbook,
}

abbrev pub key_of : PlaybookStep → String × String
key_of s = (s.phase, s.action)

abbrev pub Distinct : PlaybookStep → PlaybookStep → Type 0
Distinct a b = same_key (key_of a) (key_of b) ≡ false

-- a step that needs an approval and is not the closing one
abbrev pub IsRemedial : PlaybookStep → Type 0
IsRemedial s = (s.requires_approval ≡ true) × (same_key (key_of s) (key_of improvement) ≡ false)

record IsDraft (d : Draft) : Type 0 where
  remedial : All IsRemedial d.steps
  distinct : Pairs Distinct d.steps
  tracked : d.seen ≡ map key_of d.steps

Pairs-append :
    (x : PlaybookStep) (xs : List PlaybookStep)
    → Pairs Distinct xs
    → All (λ y. Distinct y x) xs
    → Pairs Distinct (xs ++ x ∷ [])
Pairs-append x [] p h = (tt, tt)
Pairs-append x (y ∷ xs) p h =
    (All-append (Distinct y) xs (x ∷ []) p.0 (h.0, tt), Pairs-append x xs p.1 h.1)

map-append : (xs ys : List PlaybookStep) → map key_of (xs ++ ys) ≡ map key_of xs ++ map key_of ys
map-append [] ys = refl
map-append (x ∷ xs) ys = ap (λ l. key_of x ∷ l) (map-append xs ys)

unseen :
    (x : PlaybookStep) (xs : List PlaybookStep)
    → is_seen (key_of x) (map key_of xs) ≡ false
    → All (λ y. Distinct y x) xs
unseen x [] h = tt
unseen x (y ∷ xs) h = (first (same_key (key_of y) (key_of x)) _ h, unseen x xs (second _ _ h))
  where
    first : (a b : Bool) → (a || b) ≡ false → a ≡ false
    first a b h = ground arith

    second : (a b : Bool) → (a || b) ≡ false → b ≡ false
    second a b h = ground arith

abbrev IsRemedy : Remedy → Type 0
IsRemedy r = IsRemedial (step r)

rules_for-IsRemedy : (base : String) → All IsRemedy (rules_for base)
unfolding rules_for
rules_for-IsRemedy base = elim (Bool-cases (base == "T1071")) [
  | inl a ↦ rw a ((refl, refl), ((refl, refl), tt))
  | inr a ↦ elim (Bool-cases (base == "T1547")) [
    | inl b ↦ rw (a, b) ((refl, refl), tt)
    | inr b ↦ elim (Bool-cases (base == "T1059")) [
      | inl c ↦ rw (a, b, c) ((refl, refl), tt)
      | inr c ↦ elim (Bool-cases (base == "T1486")) [
        | inl d ↦ rw (a, b, c, d) ((refl, refl), tt)
        | inr d ↦ elim (Bool-cases (base == "T1566")) [
          | inl e ↦ rw (a, b, c, d, e) ((refl, refl), ((refl, refl), tt))
          | inr e ↦ rw (a, b, c, d, e) tt
        ]
      ]
    ]
  ]
]

add_rule-IsDraft : (r : Remedy) (d : Draft) → IsRemedy r → IsDraft d → IsDraft (add_rule r d)
add_rule-IsDraft r d i h = elim (Bool-cases (is_seen (r.phase, r.action) d.seen)) [
  | inl known ↦ rw known h
  | inr new ↦ rw new (record {
    remedial = All-append IsRemedial d.steps (step r ∷ []) h.remedial (i, tt);
    distinct = Pairs-append (step r) d.steps h.distinct (
        unseen (step r) d.steps (subst (λ l. is_seen (r.phase, r.action) l ≡ false) h.tracked new));
    tracked =
        ap (λ l. l ++ (r.phase, r.action) ∷ []) h.tracked ∙ sym (map-append d.steps (step r ∷ []));
  })
]

add_rules-IsDraft :
    (rs : List Remedy) (d : Draft) → All IsRemedy rs → IsDraft d → IsDraft (add_rules rs d)
unfolding add_rules
add_rules-IsDraft [] d i h = h
add_rules-IsDraft (r ∷ rs) d i h =
    add_rules-IsDraft rs (add_rule r d) i.1 (add_rule-IsDraft r d i.0 h)

add_techniques-IsDraft : (ts : List String) (d : Draft) → IsDraft d → IsDraft (add_techniques ts d)
unfolding add_techniques
add_techniques-IsDraft [] d h = h
add_techniques-IsDraft (t ∷ ts) d h =
    add_techniques-IsDraft ts (add_rules (rules_for (before_dot t)) d)
      (add_rules-IsDraft (rules_for (before_dot t)) d (rules_for-IsRemedy (before_dot t)) h)

abbrev pub last_step : List PlaybookStep → PlaybookStep
last_step [] = improvement
last_step (s ∷ []) = s
last_step (s ∷ t ∷ ss) = last_step (t ∷ ss)

pub record IsPlaybook (verdict : Verdict) (steps : List PlaybookStep) : Type 0 where
  pub approved : All (λ s. s.requires_approval ≡ true) steps
  pub distinct : Pairs Distinct steps
  pub closed : last_step steps ≡ improvement
  pub enough : (if is_malicious verdict then 2 else 1) ≤ length steps

last_step-append : (xs : List PlaybookStep) (x : PlaybookStep) → last_step (xs ++ x ∷ []) ≡ x
last_step-append [] x = refl
last_step-append (y ∷ []) x = refl
last_step-append (y ∷ z ∷ xs) x = last_step-append (z ∷ xs) x

with_improvement :
    (verdict : Verdict) (steps : List PlaybookStep)
    → All IsRemedial steps
    → Pairs Distinct steps
    → (is_malicious verdict && is_none steps) ≡ false
    → IsPlaybook verdict (steps ++ improvement ∷ [])
with_improvement verdict steps i p e = record {
  approved =
      All-append (λ s. s.requires_approval ≡ true) steps (improvement ∷ [])
        (All-map IsRemedial (λ s. s.requires_approval ≡ true) (λ s h. h.0) steps i) (refl, tt);
  distinct =
      Pairs-append improvement steps p
        (All-map IsRemedial (λ s. Distinct s improvement) (λ s h. h.1) steps i);
  closed = last_step-append steps improvement;
  enough = many steps e;
}
  where
    many :
        (steps : List PlaybookStep)
        → (is_malicious verdict && is_none steps) ≡ false
        → (if is_malicious verdict then 2 else 1) ≤ length (steps ++ improvement ∷ [])
    many [] e = ground (arith, e)
    many (s ∷ ss) e = ground (arith, length-append ss (improvement ∷ []))

close-IsPlaybook :
    (verdict : Verdict) (steps : List PlaybookStep)
    → All IsRemedial steps
    → Pairs Distinct steps
    → IsPlaybook verdict (close verdict steps)
close-IsPlaybook verdict steps i p = elim (Bool-cases (is_malicious verdict && is_none steps)) [
  | inr e ↦ rw e (with_improvement verdict steps i p e)
  | inl e ↦ rw e (
      with_improvement verdict (steps ++ escalation ∷ [])
        (All-append IsRemedial steps (escalation ∷ []) i ((refl, refl), tt))
        (Pairs-append escalation steps p (alone steps e)) (some_step steps))
]
  where
    alone :
        (steps : List PlaybookStep)
        → (is_malicious verdict && is_none steps) ≡ true
        → All (λ y. Distinct y escalation) steps
    alone [] e = tt
    alone (s ∷ ss) e = ground (arith, e)

    some_step :
        (steps : List PlaybookStep)
        → (is_malicious verdict && is_none (steps ++ escalation ∷ [])) ≡ false
    some_step [] = ground arith
    some_step (s ∷ ss) = ground arith

-- In every recommended playbook each step requires an approval, no action of a phase stands twice,
-- the last step is the improvement of the detections, and a malicious verdict has a step besides.
pub recommend_playbook-IsPlaybook :
    (techniques : List String) (verdict : Verdict)
    → IsPlaybook verdict (recommend_playbook techniques verdict)
unfolding recommend_playbook
recommend_playbook-IsPlaybook techniques verdict =
    let empty : Draft = record { steps = []; seen = [] } in
    let d =
      add_techniques-IsDraft techniques empty
        (record { remedial = tt; distinct = tt; tracked = refl }) in
    close-IsPlaybook verdict (add_techniques techniques empty).steps d.remedial d.distinct
