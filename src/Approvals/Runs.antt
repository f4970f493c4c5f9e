-- ===== src/Approvals/Runs.antt =====
-- Any sequence of calls of the service, failing ones included, seen on the stored requests.
use mathlib.Core.Path.{subst}
use ai_powered_security_inve.Base.{
  ℕ, ◌≤◌, String, ◌≡◌, refl, ◌∙◌, Option, none, some, Bool, List, [], ◌∷◌, arith, ap,
}
use ai_powered_security_inve.Approvals.Types.{ApprovalStatus, ApprovalRequest, Package}
use ai_powered_security_inve.Approvals.Store.{ApprovalStore}
use ai_powered_security_inve.Approvals.Service.{
  Env, Service, create_for_package, get, list, decide, mark_executed,
}
use ai_powered_security_inve.Approvals.Lifecycle.{
  Lifecycle, IsConsistent, IsNew-IsConsistent, Lifecycle-IsConsistent, SameRequest,
  Lifecycle-SameRequest, IsFinal, Lifecycle-final,
}
use ai_powered_security_inve.Approvals.Progress.{
  stored, Progress, Progress-refl, Progress-trans, Advance,
}
use ai_powered_security_inve.Approvals.Methods.{
  get-Progress, list-Progress, decide-Progress, mark_executed-Progress,
}
use ai_powered_security_inve.Approvals.Creating.{IsFresh, create-Progress}

pub data Call : Type 0 where
  create : Package → String → Call
  read : String → String → Call
  query : String → Option ApprovalStatus → Option String → Call
  decision : String → String → String → Bool → String → Call
  report : String → String → String → String → Call

module _ {S : Type 0} (st : ApprovalStore S) (env : Env) where
  -- the service after a call, whether it returned or raised
  unfoldable pub call : Call → Service S → Service S
  call (create pkg by) s = (create_for_package st env pkg by s).1
  call (read t i) s = (get st env t i s).1
  call (query t status inv) s = (list st env t status inv s).1
  call (decision t i actor approve note) s = (decide st env t i actor approve note s).1
  call (report t i actor note) s = (mark_executed st env t i actor note s).1

  unfoldable pub run : List Call → Service S → Service S
  run [] s = s
  run (c ∷ cs) s = run cs (call c s)

  -- The store is in order, and every id that it holds has been drawn.
  pub record IsReady (s : Service S) : Type 0 where
    pub keyed : st.IsKeyed s.store
    pub fresh : IsFresh st env s.drawn s

  module _ (injective : (m n : ℕ) → env.uuid4 m ≡ env.uuid4 n → m ≡ n) where
    call-Progress : (c : Call) (s : Service S) → IsReady s → Progress st env s (call c s)
    unfolding call
    call-Progress (create pkg by) s h = create-Progress st env injective pkg by s h.keyed h.fresh
    call-Progress (read t i) s h = get-Progress st env t i s h.keyed
    call-Progress (query t status inv) s h = list-Progress st env t status inv s h.keyed
    call-Progress (decision t i actor approve note) s h =
        decide-Progress st env t i actor approve note s h.keyed
    call-Progress (report t i actor note) s h =
        mark_executed-Progress st env t i actor note s h.keyed

    vacant_after :
        (lo hi n : ℕ) (a b : Option ApprovalRequest)
        → hi ≤ n
        → a ≡ none
        → Advance env lo hi (env.uuid4 n) a b
        → b ≡ none
    vacant_after lo hi n none none h e p = refl
    vacant_after lo hi n none (some q) h e (m, r, l, below, same, new, life) =
        absurd (omega (arith, injective n m same))
    vacant_after lo hi n (some r) b h e p = cc

    Progress-IsReady : (s s' : Service S) → IsReady s → Progress st env s s' → IsReady s'
    Progress-IsReady s s' h p = record {
      keyed = p.keyed;
      fresh = λ n later t.
          vacant_after s.drawn s'.drawn n (stored st env s t (env.uuid4 n))
            (stored st env s' t (env.uuid4 n)) later (h.fresh n (omega (arith, p.drawn)) t)
            (p.slots t (env.uuid4 n));
    }

    -- From a store in order, whatever is called and however often, each slot of the store is empty
    -- as before, or holds a request that was created under a newly drawn id and then followed the
    -- documented lifecycle, or holds the request of before after steps of the lifecycle. In
    -- particular no request is ever removed. The ids that are drawn are assumed to be distinct.
    pub run-Progress : (cs : List Call) (s : Service S) → IsReady s → Progress st env s (run cs s)
    unfolding run
    run-Progress [] s h = Progress-refl st env s h.keyed
    run-Progress (c ∷ cs) s h =
        let first = call-Progress c s h in
        Progress-trans st env s (call c s) (run cs (call c s)) first
          (run-Progress cs (call c s) (Progress-IsReady s (call c s) h first))

    slot-IsConsistent :
        (lo hi : ℕ) (i : String) (a b : Option ApprovalRequest) (q : ApprovalRequest)
        → Advance env lo hi i a b
        → ((r : ApprovalRequest) → a ≡ some r → IsConsistent r)
        → b ≡ some q
        → IsConsistent q
    slot-IsConsistent lo hi i a none q p h e = cc
    slot-IsConsistent lo hi i none (some b) q (n, r, l, u, same, new, life) h e =
        subst IsConsistent (cc e) (Lifecycle-IsConsistent life (IsNew-IsConsistent new))
    slot-IsConsistent lo hi i (some r) (some b) q p h e =
        subst IsConsistent (cc e) (Lifecycle-IsConsistent p (h r refl))

    -- The four-eyes rule over every history. If the stored requests are consistent at the start, as
    -- they are in an empty store, then after any calls every stored request is: an approved,
    -- rejected or executed one was decided by somebody else than its requester, an executed one
    -- names who executed it, and no other request carries a decision or an execution.
    pub run-IsConsistent :
        (cs : List Call) (s : Service S)
        → IsReady s
        → ((t i : String) (r : ApprovalRequest) → stored st env s t i ≡ some r → IsConsistent r)
        → (t i : String) (q : ApprovalRequest) → stored st env (run cs s) t i ≡ some q
        → IsConsistent q
    run-IsConsistent cs s h all t i q e =
        let p = run-Progress cs s h in
        slot-IsConsistent s.drawn (run cs s).drawn i (stored st env s t i)
          (stored st env (run cs s) t i) q (p.slots t i) (all t i) e

    slot_kept :
        (lo hi : ℕ) (i : String) (a b : Option ApprovalRequest) (r : ApprovalRequest)
        → Advance env lo hi i a b
        → a ≡ some r
        → (q : ApprovalRequest) × (b ≡ some q) × Lifecycle r q
    slot_kept lo hi i none b r p e = cc
    slot_kept lo hi i (some a) none r p e = absurd p
    slot_kept lo hi i (some a) (some b) r p e = (b, refl, subst (λ x. Lifecycle x b) (cc e) p)

    -- A stored request stays in the store under its key through any calls, with the same requester,
    -- playbook step, investigation and deadline.
    pub run_keeps :
        (cs : List Call) (s : Service S) (t i : String) (r : ApprovalRequest)
        → IsReady s
        → stored st env s t i ≡ some r
        → (q : ApprovalRequest) × (stored st env (run cs s) t i ≡ some q) × SameRequest r q
    run_keeps cs s t i r h e =
        let p = run-Progress cs s h in
        let (q, found, life) =
          slot_kept s.drawn (run cs s).drawn i (stored st env s t i) (stored st env (run cs s) t i)
            r (p.slots t i) e in
        (q, found, Lifecycle-SameRequest life)

    -- A rejected, executed or expired request is final: no sequence of calls changes it.
    pub run_final :
        (cs : List Call) (s : Service S) (t i : String) (r : ApprovalRequest)
        → IsReady s
        → stored st env s t i ≡ some r
        → IsFinal r.status
        → stored st env (run cs s) t i ≡ some r
    run_final cs s t i r h e fin =
        let p = run-Progress cs s h in
        let (q, found, life) =
          slot_kept s.drawn (run cs s).drawn i (stored st env s t i) (stored st env (run cs s) t i)
            r (p.slots t i) e in
        found ∙ ap some (Lifecycle-final fin life)
