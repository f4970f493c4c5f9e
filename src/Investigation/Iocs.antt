-- ===== src/Investigation/Iocs.antt =====
-- The IOCs of an investigation from discovery to enrichment (backend/app/agents/state.py).
use ai_powered_security_inve.Base.{
  ℕ, ◌+◌, String, ◌≡◌, refl, Bool, true, false, not, ◌&&◌, ◌||◌, List, [], ◌∷◌, arith, eq_iff,
  length, Bool-cases, inl, inr,
}
use ai_powered_security_inve.Base.Dict.{
  insert, contains, IsUnique, insert-IsUnique, erase-IsUnique, lookup-insert, lookup-erase,
  length-insert,
}
use ai_powered_security_inve.Investigation.State.{
  Ioc, EnrichedIoc, InvestigationState, ioc_key, is_known, add_from, add_iocs, record_one,
  record_enrichment,
}

-- No IOC is queued twice, or queued after its enrichment.
pub record IsQueued (state : InvestigationState) : Type 0 where
  pub unique : IsUnique state.pending_iocs
  pub apart :
      (key : String) → (contains key state.pending_iocs && contains key state.enriched) ≡ false

-- what `add_iocs` does with one IOC that is not known
abbrev queued : Ioc → InvestigationState → InvestigationState
queued ioc state = record state { pending_iocs = insert (ioc_key ioc) ioc state.pending_iocs }

queued-IsQueued :
    (ioc : Ioc) (state : InvestigationState)
    → is_known (ioc_key ioc) state ≡ false
    → IsQueued state
    → IsQueued (queued ioc state)
queued-IsQueued ioc state new h =
    let k = ioc_key ioc in
    record {
      unique = insert-IsUnique k ioc state.pending_iocs h.unique;
      apart = λ key.
          ground
            (arith, new, eq_iff k key, lookup-insert k key ioc state.pending_iocs, h.apart key);
    }

record_one-IsQueued :
    (e : EnrichedIoc) (state : InvestigationState) → IsQueued state → IsQueued (record_one e state)
record_one-IsQueued e state h =
    let k = ioc_key e.ioc in
    record {
      unique = erase-IsUnique k state.pending_iocs h.unique;
      apart = λ key. ground (
        arith,
        eq_iff k key,
        lookup-insert k key e state.enriched,
        lookup-erase k key state.pending_iocs h.unique,
        h.apart key,
      );
    }

-- a known IOC stays known
abbrev pub Keeps : String → InvestigationState → InvestigationState → Type 0
Keeps key s s' = (not (is_known key s) || is_known key s') ≡ true

pub Keeps-refl : (key : String) (s : InvestigationState) → Keeps key s s
Keeps-refl key s = ground arith

pub Keeps-trans :
    (key : String) (a b c : InvestigationState) → Keeps key a b → Keeps key b c → Keeps key a c
Keeps-trans key a b c p q = or_trans (is_known key a) (is_known key b) (is_known key c) p q
  where
    or_trans : (x y z : Bool) → (not x || y) ≡ true → (not y || z) ≡ true → (not x || z) ≡ true
    or_trans x y z p q = ground arith

queued-Keeps : (key : String) (ioc : Ioc) (s : InvestigationState) → Keeps key s (queued ioc s)
queued-Keeps key ioc s =
    ground (arith, eq_iff (ioc_key ioc) key, lookup-insert (ioc_key ioc) key ioc s.pending_iocs)

record_one-Keeps :
    (key : String) (e : EnrichedIoc) (s : InvestigationState)
    → IsQueued s
    → Keeps key s (record_one e s)
record_one-Keeps key e s h =
    let k = ioc_key e.ioc in
    ground (
      arith,
      eq_iff k key,
      lookup-insert k key e s.enriched,
      lookup-erase k key s.pending_iocs h.unique,
    )

-- what a method does to the state as far as its IOCs go
pub record Moves (key : String) (s s' : InvestigationState) : Type 0 where
  pub sound : IsQueued s'
  pub keeps : Keeps key s s'

add_from-Moves :
    (key : String) (iocs : List Ioc) (s : InvestigationState) (new : ℕ)
    → IsQueued s
    → Moves key s (add_from iocs s new).0
unfolding add_from
add_from-Moves key [] s new h = record { sound = h; keeps = Keeps-refl key s }
add_from-Moves key (ioc ∷ iocs) s new h = elim (Bool-cases (is_known (ioc_key ioc) s)) [
  | inl known ↦ rw known (add_from-Moves key iocs s new h)
  | inr fresh ↦ rw fresh (
      let m = add_from-Moves key iocs (queued ioc s) (new + 1) (queued-IsQueued ioc s fresh h) in
      record {
        sound = m.sound;
        keeps =
            Keeps-trans key s (queued ioc s) (add_from iocs (queued ioc s) (new + 1)).0
              (queued-Keeps key ioc s) m.keeps;
      })
]

record_enrichment-Moves :
    (key : String) (results : List EnrichedIoc) (s : InvestigationState)
    → IsQueued s
    → Moves key s (record_enrichment results s)
unfolding record_enrichment
record_enrichment-Moves key [] s h = record { sound = h; keeps = Keeps-refl key s }
record_enrichment-Moves key (e ∷ results) s h =
    let m = record_enrichment-Moves key results (record_one e s) (record_one-IsQueued e s h) in
    record {
      sound = m.sound;
      keeps =
          Keeps-trans key s (record_one e s) (record_enrichment results (record_one e s))
            (record_one-Keeps key e s h) m.keeps;
    }

pub data Step : Type 0 where
  discovered : List Ioc → Step
  enriched : List EnrichedIoc → Step

abbrev pub step : Step → InvestigationState → InvestigationState
step (discovered iocs) s = (add_iocs iocs s).0
step (enriched results) s = record_enrichment results s

abbrev pub steps : List Step → InvestigationState → InvestigationState
steps [] s = s
steps (x ∷ xs) s = steps xs (step x s)

pub step-Moves :
    (key : String) (x : Step) (s : InvestigationState) → IsQueued s → Moves key s (step x s)
unfolding add_iocs
step-Moves key (discovered iocs) s h = add_from-Moves key iocs s 0 h
step-Moves key (enriched results) s h = record_enrichment-Moves key results s h

-- After any sequence of discoveries and enrichments, from a state in which it is so, no IOC is queued
-- twice or queued after its enrichment, and an IOC that was queued or enriched still is one of them.
pub steps-Moves :
    (key : String) (xs : List Step) (s : InvestigationState) → IsQueued s → Moves key s (steps xs s)
steps-Moves key [] s h = record { sound = h; keeps = Keeps-refl key s }
steps-Moves key (x ∷ xs) s h =
    let m = step-Moves key x s h in
    let n = steps-Moves key xs (step x s) m.sound in
    record {
      sound = n.sound;
      keeps = Keeps-trans key s (step x s) (steps xs (step x s)) m.keeps n.keeps;
    }

count_from :
    (iocs : List Ioc) (s : InvestigationState) (new : ℕ)
    → length (add_from iocs s new).0.pending_iocs + new
      ≡ length s.pending_iocs + (add_from iocs s new).1
unfolding add_from
count_from [] s new = refl
count_from (ioc ∷ iocs) s new = elim (Bool-cases (is_known (ioc_key ioc) s)) [
  | inl known ↦ rw known (count_from iocs s new)
  | inr fresh ↦ rw fresh (
      ground (
        arith,
        fresh,
        count_from iocs (queued ioc s) (new + 1),
        length-insert (ioc_key ioc) ioc s.pending_iocs,
      ))
]

-- `add_iocs` returns by how many IOCs the queue has grown.
pub add_iocs_count :
    (iocs : List Ioc) (s : InvestigationState)
    → length (add_iocs iocs s).0.pending_iocs ≡ length s.pending_iocs + (add_iocs iocs s).1
unfolding add_iocs
add_iocs_count iocs s = omega (arith, count_from iocs s 0)
