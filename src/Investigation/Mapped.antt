-- ===== src/Investigation/Mapped.antt =====
-- Which techniques `map_techniques` of backend/app/engines/mitre/mapper.py reports.
use mathlib.Core.Path.{subst}
use ai_powered_security_inve.Base.{
  ℕ, ◌+◌, String, Bool, true, false, ◌&&◌, ◌||◌, none, List, [], ◌∷◌, ◌++◌, ◌≡◌, refl, ◌∙◌, ap,
  if◌then◌else◌, ◌==◌, any, sum_by, arith, eq_iff, Bool-cases, Option-cases, inl, inr,
}
use ai_powered_security_inve.Base.Dict.{
  Dict, lookup, insert, contains, values, lookup-insert, insert_new,
}
use ai_powered_security_inve.Base.Text.{occurs_in}
use ai_powered_security_inve.Schemas.Findings.{MitreTechnique}
use ai_powered_security_inve.Investigation.Mapper.{
  techniques, signal_table, add, add_signals, lowered_of, map_techniques,
}

-- how often a technique is in a list
abbrev pub count : String → List MitreTechnique → ℕ
count tid ts = sum_by (λ (t : MitreTechnique). if t.technique_id == tid then 1 else 0) ts

abbrev IsCounted : String → Dict MitreTechnique → Type 0
IsCounted tid found = count tid (values found) ≡ (if contains tid found then 1 else 0)

count-append :
    (tid k : String) (t : MitreTechnique) (d : Dict MitreTechnique)
    → count tid (values (d ++ (k, t) ∷ []))
      ≡ count tid (values d) + (if t.technique_id == tid then 1 else 0)
count-append tid k t [] = omega arith
count-append tid k t ((j, u) ∷ d) = omega (arith, count-append tid k t d)

insert-IsCounted :
    (tid k : String) (t : MitreTechnique) (d : Dict MitreTechnique)
    → t.technique_id ≡ k
    → lookup k d ≡ none
    → IsCounted tid d
    → IsCounted tid (insert k t d)
insert-IsCounted tid k t d same new h =
    ap (λ e. count tid (values e)) (insert_new k t d new)
    ∙ count-append tid k t d
    ∙ ap (λ i. count tid (values d) + (if i == tid then 1 else 0)) same
    ∙ elim (Bool-cases (k == tid)) [
      | inl own ↦
          let gone : lookup tid d ≡ none =
            subst (λ i. lookup i d ≡ none) ((eq_iff k tid).0 own) new in
          ground (arith, h, gone, lookup-insert k tid t d)
      | inr other ↦ ground (arith, h, lookup-insert k tid t d)
    ]

module _ (known : Dict (String × String)) (tid : String) where
  contains-add :
      (k : String) (found : Dict MitreTechnique)
      → contains tid (add known k found) ≡ (contains tid found || (k == tid && contains k known))
  unfolding add
  contains-add k found = elim (Option-cases (lookup k known)) [
    | inl absent ↦ rw absent (ground arith)
    | inr ((name, tactic), there) ↦
        let t : MitreTechnique = record { technique_id = k; name = name; tactic = tactic } in
        rw there (ground (arith, lookup-insert k tid t found, eq_iff k tid))
  ]

  add-IsCounted :
      (k : String) (found : Dict MitreTechnique)
      → IsCounted tid found
      → IsCounted tid (add known k found)
  unfolding add
  add-IsCounted k found h = elim (Option-cases (lookup k known)) [
    | inl absent ↦ rw absent h
    | inr ((name, tactic), there) ↦
        let t : MitreTechnique = record { technique_id = k; name = name; tactic = tactic } in
        elim (Option-cases (lookup k found)) [
          | inl new ↦ rw there (rw new (insert-IsCounted tid k t found refl new h))
          | inr (u, old) ↦ rw there (rw old h)
        ]
  ]

  abbrev pub signalled : String → List (String × String) → Bool
  signalled lowered signals = any (λ s. s.1 == tid && occurs_in s.0 lowered) signals

  contains-add_signals :
      (lowered : String) (signals : List (String × String)) (found : Dict MitreTechnique)
      → contains tid (add_signals known lowered signals found)
        ≡ (contains tid found || (contains tid known && signalled lowered signals))
  unfolding add_signals
  contains-add_signals lowered [] found = ground arith
  contains-add_signals lowered ((keyword, k) ∷ signals) found =
      let rest : Dict MitreTechnique =
        if occurs_in keyword lowered then add known k found else found in
      ground (arith, contains-add_signals lowered signals rest, contains-add k found, eq_iff k tid)

  add_signals-IsCounted :
      (lowered : String) (signals : List (String × String)) (found : Dict MitreTechnique)
      → IsCounted tid found
      → IsCounted tid (add_signals known lowered signals found)
  unfolding add_signals
  add_signals-IsCounted lowered [] found h = h
  add_signals-IsCounted lowered ((keyword, k) ∷ signals) found h =
      add_signals-IsCounted lowered signals
        (if occurs_in keyword lowered then add known k found else found)
        (elim (occurs_in keyword lowered)
          as (λ b. IsCounted tid (if b then add known k found else found)) [
            | true ↦ add-IsCounted k found h
            | false ↦ h
          ])

  mapped_from :
      (lowered : String) (signals : List (String × String)) (has_malicious_url : Bool)
      (link click : String)
      → contains link known ≡ true
      → contains click known ≡ true
      → count tid (
          values (
            add_signals known lowered signals
              (if has_malicious_url then add known click (add known link []) else [])))
        ≡ (if contains tid known
              && (signalled lowered signals || (has_malicious_url && (link == tid || click == tid)))
            then 1
            else 0)
  unfolding lookup
  mapped_from lowered signals true link click l c =
      let empty : IsCounted tid [] = refl in
      add_signals-IsCounted lowered signals (add known click (add known link []))
        (add-IsCounted click (add known link []) (add-IsCounted link [] empty))
      ∙ ap (λ b. if b then 1 else 0)
          (ground (
            arith,
            contains-add_signals lowered signals (add known click (add known link [])),
            contains-add click (add known link []),
            contains-add link [],
            eq_iff link tid,
            eq_iff click tid,
          ))
  mapped_from lowered signals false link click l c =
      add_signals-IsCounted lowered signals [] refl
      ∙ ap (λ b. if b then 1 else 0) (ground (arith, contains-add_signals lowered signals []))

-- The techniques that are mapped, each once, are exactly those of the table of techniques of which a
-- keyword occurs in the signals in lower case, joined by spaces, and, where there is a malicious URL,
-- the spearphishing link and the malicious link.
pub map_techniques_outcome :
    (tid : String) (signals : List String) (has_malicious_url : Bool)
    → count tid (map_techniques signals has_malicious_url) ≡ (
        if contains tid techniques
          && (signalled techniques tid (lowered_of signals) signal_table
              || (has_malicious_url && ("T1566.002" == tid || "T1204.001" == tid)))
        then 1
        else 0)
unfolding map_techniques lookup
map_techniques_outcome tid signals has_malicious_url =
    mapped_from techniques tid (lowered_of signals) signal_table has_malicious_url "T1566.002"
      "T1204.001" refl refl
