-- ===== src/Investigation/Collecting.antt =====
-- What the tools of backend/app/agents/tools.py do to the IOCs of an investigation.
use Prim.Native.String.{◌++◌ as cat}
use mathlib.Core.Path.{subst, subst₂}
use ai_powered_security_inve.Base.{
  ℕ, ◌+◌, max, String, Option, none, some, Bool, true, false, not, ◌&&◌, ◌||◌, List, [], ◌∷◌, ◌++◌,
  ◌≡◌, refl, if◌then◌else◌, length, All,
}
use ai_powered_security_inve.Base.Dict.{IsUnique, contains, lookup, values, All-lookup}
use ai_powered_security_inve.Base.Exec.{Result, ok, err}
use ai_powered_security_inve.Base.Sets.{add}
use ai_powered_security_inve.Base.Text.{join}
use ai_powered_security_inve.Planning.Json.{Params, Value, str, list}
use ai_powered_security_inve.Planning.Scheduler.{PlannedAction}
use ai_powered_security_inve.Schemas.Findings.{Evidence, TimelineEvent}
use ai_powered_security_inve.Investigation.State.{
  Ioc, EnrichedIoc, EdrHit, EmailMessage, InvestigationState, is_known, add_iocs, record_enrichment,
}
use ai_powered_security_inve.Investigation.Iocs.{
  IsQueued, Keeps-refl, Keeps-trans, Moves, discovered, enriched, step-Moves,
}
use ai_powered_security_inve.Investigation.Tools.{
  Engines, SandboxReport, Tool, is_none, is_unknown, on_answer, run_detections, fetch_email_context,
  with_message, with_recipients, extract_iocs_tool, merge_source_entities, enrich_iocs,
  with_results, keep_verdicts, append_evidence_if, append_group_if, detonate_attachment,
  with_report, hunt_edr, with_hits, targets_of,
}
use ai_powered_security_inve.Investigation.Loop.{
  ToolSpec, spec_or_unknown, toolbox, get, call_tool, observed, run_tool, run_tools, without_params,
  detonate_with, hunt_with,
}

module _ (key : String) where
  pub Moves-refl : (s : InvestigationState) → IsQueued s → Moves key s s
  Moves-refl s h = record { sound = h; keeps = Keeps-refl key s }

  pub Moves-trans : (a b c : InvestigationState) → Moves key a b → Moves key b c → Moves key a c
  Moves-trans a b c m n = record { sound = n.sound; keeps = Keeps-trans key a b c m.keeps n.keeps }

  -- a change of other fields than those of the IOCs
  Moves-same :
      (s a b : InvestigationState)
      → a.pending_iocs ≡ b.pending_iocs
      → a.enriched ≡ b.enriched
      → Moves key s a
      → Moves key s b
  Moves-same s a b p e m = record {
    sound = record {
      unique = subst (λ x. IsUnique x) p m.sound.unique;
      apart = λ k. subst₂ (λ x y. (contains k x && contains k y) ≡ false) p e (m.sound.apart k);
    };
    keeps =
        subst₂ (λ x y. (not (is_known key s) || (contains key y || contains key x)) ≡ true) p e
          m.keeps;
  }

  evidence_if-Moves :
      (c : Bool) (e : Evidence) (s a : InvestigationState)
      → Moves key s a
      → Moves key s (append_evidence_if c e a)
  unfolding append_evidence_if
  evidence_if-Moves true e s a m = Moves-same s a _ refl refl m
  evidence_if-Moves false e s a m = m

  group_if-Moves :
      (c : Bool) (group : List TimelineEvent) (s a : InvestigationState)
      → Moves key s a
      → Moves key s (append_group_if c group a)
  unfolding append_group_if
  group_if-Moves true group s a m = Moves-same s a _ refl refl m
  group_if-Moves false group s a m = m

  -- A tool moves IOCs only forward.
  abbrev IsMoving : Tool → Type 0
  IsMoving tool = (s : InvestigationState) → IsQueued s → Moves key s (tool s).1

  on_answer-IsMoving :
      {A : Type 0}
      → (next : A → Tool) → ((a : A) → IsMoving (next a))
      → (r : Result String A) → IsMoving (on_answer next r)
  on_answer-IsMoving next h (ok a) s q = h a s q
  on_answer-IsMoving next h (err e) s q = Moves-refl s q

  unless-IsMoving :
      (c : Bool) (answer : String) (tool : Tool)
      → IsMoving tool
      → IsMoving (λ s. if c then (ok answer, s) else tool s)
  unless-IsMoving true answer tool h s q = Moves-refl s q
  unless-IsMoving false answer tool h s q = h s q

  keep_verdicts-Moves :
      (engines : Engines) (n : ℕ) (results : List EnrichedIoc) (s a : InvestigationState)
      → Moves key s a
      → Moves key s (keep_verdicts engines n results a)
  keep_verdicts-Moves engines n [] s a m = m
  keep_verdicts-Moves engines n (e ∷ results) s a m =
      keep_verdicts-Moves engines n results s _
        (evidence_if-Moves (not (is_unknown e.verdict)) _ s a m)

  module _ (engines : Engines) (n : ℕ) where
    run_detections-IsMoving : IsMoving (run_detections engines n)
    unfolding run_detections
    run_detections-IsMoving s q =
        evidence_if-Moves _ _ s _ (Moves-same s s _ refl refl (Moves-refl s q))

    with_recipients-IsMoving :
        (msg : EmailMessage) (recipients : List String)
        → IsMoving (with_recipients engines n msg recipients)
    with_recipients-IsMoving msg recipients s q = Moves-same s s _ refl refl (Moves-refl s q)

    with_message-IsMoving :
        (id : String) (msg : EmailMessage) → IsMoving (with_message engines n id msg)
    with_message-IsMoving id msg s q =
        let noted : InvestigationState = record s {
          email_msg = some msg;
          email_checked = true;
          text_corpus = cat s.text_corpus (cat "\n" (cat msg.body (cat "\n" (join "\n" msg.urls))));
        } in
        let m : Moves key s noted = Moves-same s s noted refl refl (Moves-refl s q) in
        Moves-trans s noted _ m (
          on_answer-IsMoving (with_recipients engines n msg) (with_recipients-IsMoving msg)
            (engines.find_recipients n id) noted m.sound)

    fetch_email_context-IsMoving : IsMoving (fetch_email_context engines n)
    unfolding fetch_email_context
    fetch_email_context-IsMoving s q =
        on_answer-IsMoving (with_message engines n _) (with_message-IsMoving _)
          (engines.get_message n _) s q

    extract_iocs_tool-IsMoving : IsMoving (extract_iocs_tool engines n)
    unfolding extract_iocs_tool
    extract_iocs_tool-IsMoving s q = Moves-same s _ _ refl refl (
        step-Moves key
          (discovered
            (merge_source_entities engines.extract (engines.extract s.text_corpus) s.alert))
          s q)

    with_results-IsMoving : (results : List EnrichedIoc) → IsMoving (with_results engines n results)
    with_results-IsMoving results s q =
        keep_verdicts-Moves engines n results s (record_enrichment results s)
          (step-Moves key (enriched results) s q)

    enrich_iocs-IsMoving : IsMoving (enrich_iocs engines n)
    unfolding enrich_iocs
    enrich_iocs-IsMoving s q =
        unless-IsMoving (is_none (values s.pending_iocs)) "nothing pending"
          (on_answer (with_results engines n) (engines.enrich n (values s.pending_iocs)))
          (on_answer-IsMoving (with_results engines n) with_results-IsMoving
            (engines.enrich n (values s.pending_iocs)))
          s q

    with_report-IsMoving :
        (filename sha256 : String) (report : SandboxReport)
        → IsMoving (with_report engines n filename sha256 report)
    with_report-IsMoving filename sha256 report s q =
        let noted : InvestigationState = record s {
          detonated = add sha256 s.detonated;
          sandbox_malscore = max s.sandbox_malscore report.malscore;
          signals = (s.signals ++ report.signatures) ++ report.persistence;
        } in
        let m : Moves key s noted = Moves-same s s noted refl refl (Moves-refl s q) in
        let queued : InvestigationState = (add_iocs report.dropped_iocs noted).0 in
        let moved : Moves key s queued =
          Moves-trans s noted queued m
            (step-Moves key (discovered report.dropped_iocs) noted m.sound) in
        group_if-Moves _ _ s _ (Moves-same s queued _ refl refl moved)

    with_hits-IsMoving :
        (ks : List String) (count : ℕ) (hits : List EdrHit)
        → IsMoving (with_hits engines n ks count hits)
    with_hits-IsMoving ks count hits s q =
        group_if-Moves _ _ s _
          (evidence_if-Moves _ _ s _ (Moves-same s s _ refl refl (Moves-refl s q)))

    hunt_edr-IsMoving : (ks : List String) → IsMoving (hunt_edr engines n ks)
    unfolding hunt_edr
    hunt_edr-IsMoving ks s q =
        let targets : List Ioc = targets_of ks s.enriched in
        unless-IsMoving (is_none targets) "no hunt targets"
          (on_answer (with_hits engines n ks (length targets)) (engines.hunt n targets))
          (on_answer-IsMoving (with_hits engines n ks (length targets))
            (with_hits-IsMoving ks (length targets)) (engines.hunt n targets))
          s q

  detonate_attachment-IsMoving :
      (engines : Engines) (n : ℕ) (filename sha256 : String)
      → IsMoving (detonate_attachment engines n filename sha256)
  unfolding detonate_attachment
  detonate_attachment-IsMoving engines n filename sha256 s q =
      on_answer-IsMoving (with_report engines n filename sha256)
        (with_report-IsMoving engines n filename sha256) (engines.detonate n filename) s q

  -- a refused call
  refuses-IsMoving : (e : String) → IsMoving (λ s. (err e, s))
  refuses-IsMoving e s q = Moves-refl s q

  without_params-IsMoving :
      (name : String) (tool : Engines → ℕ → Tool) (engines : Engines) (n : ℕ) (params : Params)
      → IsMoving (tool engines n)
      → IsMoving (without_params name tool engines n params)
  without_params-IsMoving name tool engines n [] h s q = h s q
  without_params-IsMoving name tool engines n (p ∷ ps) h s q = Moves-refl s q

  detonate_with-IsMoving :
      (engines : Engines) (n : ℕ) (params : Params) (found : Option (String × String))
      → IsMoving (detonate_with engines n params found)
  detonate_with-IsMoving engines n params none s q = Moves-refl s q
  detonate_with-IsMoving engines n params (some (f, h)) s q =
      detonate_attachment-IsMoving engines n f h s q

  hunt_with-IsMoving :
      (engines : Engines) (n : ℕ) (params : Params) (found : Option Value)
      → IsMoving (hunt_with engines n params found)
  hunt_with-IsMoving engines n params (some (list ks)) s q = hunt_edr-IsMoving engines n ks s q
  hunt_with-IsMoving engines n params (some (str x)) s q = Moves-refl s q
  hunt_with-IsMoving engines n params none s q = Moves-refl s q

  -- A tool of a registry moves IOCs only forward, whatever it is called with.
  abbrev IsMovingSpec : String × ToolSpec → Type 0
  IsMovingSpec (_, spec) =
      (engines : Engines) (n : ℕ) (params : Params) → IsMoving (spec.fn engines n params)

  toolbox-IsMoving : All IsMovingSpec toolbox
  toolbox-IsMoving =
      let alone : (name : String) (tool : Engines → ℕ → Tool)
          → ((engines : Engines) (n : ℕ) → IsMoving (tool engines n))
          → IsMovingSpec
              (name, record { name = name; description = ""; fn = without_params name tool }) =
        λ name tool h engines n params.
          without_params-IsMoving name tool engines n params (h engines n) in
      (
        alone "run_detections" run_detections run_detections-IsMoving,
        (
          alone "fetch_email_context" fetch_email_context fetch_email_context-IsMoving,
          (
            alone "extract_iocs" extract_iocs_tool extract_iocs_tool-IsMoving,
            (
              alone "enrich_iocs" enrich_iocs enrich_iocs-IsMoving,
              (
                (λ engines n params. detonate_with-IsMoving engines n params _),
                ((λ engines n params. hunt_with-IsMoving engines n params _), tt),
              ),
            ),
          ),
        ),
      )

  call_found-IsMoving :
      (engines : Engines) (n : ℕ) (params : Params) (name : String) (found : Option ToolSpec)
      → lookup name toolbox ≡ found
      → IsMoving (call_tool engines n params (spec_or_unknown name found))
  call_found-IsMoving engines n params name none e s q = Moves-refl s q
  call_found-IsMoving engines n params name (some spec) e s q =
      All-lookup IsMovingSpec name spec toolbox toolbox-IsMoving e engines n params s q

  run_tool-Moves :
      (engines : Engines) (n : ℕ) (a : PlannedAction) (s : InvestigationState)
      → IsQueued s
      → Moves key s (run_tool engines n a s).1
  unfolding run_tool get
  run_tool-Moves engines n a s q =
      let call : Tool = call_tool engines n a.params (get a.tool toolbox) in
      observed-Moves a.tool s (call s)
        (call_found-IsMoving engines n a.params a.tool (lookup a.tool toolbox) refl s q)
    where
      observed-Moves :
          (tool : String) (s : InvestigationState) (p : Result String String × InvestigationState)
          → Moves key s p.1
          → Moves key s (observed tool p).1
      observed-Moves tool s (ok _, a) m = m
      observed-Moves tool s (err e, a) m = Moves-same s a _ refl refl m

  pub run_tools-Moves :
      (engines : Engines) (n : ℕ) (actions : List PlannedAction) (s : InvestigationState)
      → IsQueued s
      → Moves key s (run_tools engines n actions s).1
  unfolding run_tools
  run_tools-Moves engines n [] s q = Moves-refl s q
  run_tools-Moves engines n (a ∷ actions) s q =
      let m : Moves key s (run_tool engines n a s).1 = run_tool-Moves engines n a s q in
      Moves-trans s (run_tool engines n a s).1 _ m
        (run_tools-Moves engines (n + 1) actions (run_tool engines n a s).1 m.sound)
