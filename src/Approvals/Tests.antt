-- ===== src/Approvals/Tests.antt =====
-- Runs of the approval service on concrete requests, over the in-memory store.
use ai_powered_security_inve.Base.{
  ℕ, zero, suc, ◌≤◌, ◌<◌, String, ◌≡◌, ◌≢◌, refl, ap, none, some, true, List, [], ◌∷◌, arith,
  eq_iff, ◌⊎◌, inr,
}
use ai_powered_security_inve.Base.Dict.{lookup, insert}
use ai_powered_security_inve.Base.Tenants.{bucket, find, put}
use ai_powered_security_inve.Base.Exec.{ok, err}
use ai_powered_security_inve.Approvals.Types.{
  pending, executed, expired, PlaybookStep, ApprovalRequest, Package, four_eyes, wrong_state,
}
use ai_powered_security_inve.Approvals.Memory.{
  MemoryStore, memory_store, add, get, save, empty-IsKeyed,
}
use ai_powered_security_inve.Approvals.Service
use ai_powered_security_inve.Approvals.Service.{
  Env, Service, expire_if_due, requests_for, add_all, create_for_package, expire_all, newer,
}
use ai_powered_security_inve.Approvals.Lifecycle.{IsConsistent, SameRequest}
use ai_powered_security_inve.Approvals.Progress.{stored, Progress}
use ai_powered_security_inve.Approvals.Runs.{
  Call, create, decision, report, run, call, IsReady, run-Progress, run-IsConsistent, run_keeps,
  run_final,
}
use ai_powered_security_inve.Approvals.Deciding.{decide_outcome, as_decided}
use ai_powered_security_inve.Approvals.Isolation.{call_isolated}

-- distinct ids: "", "x", "xx", and so on
abbrev ids : ℕ → String
ids zero = String.[]
ids (suc n) = String.◌∷◌ "x" (ids n)

ids-injective : (m n : ℕ) → ids m ≡ ids n → m ≡ n
ids-injective zero zero e = refl
ids-injective zero (suc n) e = cc
ids-injective (suc m) zero e = cc
ids-injective (suc m) (suc n) e = ap suc (ids-injective m n (cc e))

abbrev env : Env
env = record { now_fn = λ n. n; uuid4 = ids; ttl = 3 }

abbrev start : Service MemoryStore
start = record { store = []; readings = 0; drawn = 0 }

abbrev step : PlaybookStep
step = record {
  phase = "containment";
  action = "Isolate";
  rationale = "";
  requires_approval = true;
}

abbrev pkg : Package
pkg = record { tenant = "acme"; investigation_id = "inv"; playbook = step ∷ [] }

abbrev calls : List Call
calls =
    create pkg "agent"
    ∷ decision "acme" "" "agent" true ""
    ∷ decision "acme" "" "alice" true "ok"
    ∷ report "acme" "" "bob" ""
    ∷ []

abbrev made : ApprovalRequest
made = record {
  approval_id = "";
  tenant = "acme";
  investigation_id = "inv";
  step = step;
  status = pending;
  requested_by = "agent";
  requested_at = 0;
  expires_at = 3;
  decided_by = none;
  decided_at = none;
  decision_note = none;
  executed_by = none;
  executed_at = none;
  execution_note = none;
}

-- the request after the four calls
abbrev done : ApprovalRequest
done = record made {
  status = executed;
  decided_by = some "alice";
  decided_at = some 3;
  decision_note = some "ok";
  executed_by = some "bob";
  executed_at = some 4;
}

start-IsReady : IsReady memory_store env start
unfolding get find bucket lookup
start-IsReady = record { keyed = empty-IsKeyed; fresh = λ n h t. refl }

history : stored memory_store env (run memory_store env calls start) "acme" "" ≡ some done
unfolding run call create_for_package Service.decide Service.mark_executed requests_for add_all get
    add save find put bucket lookup insert
history = refl

run-Progress_example : Progress memory_store env start (run memory_store env calls start)
run-Progress_example = run-Progress memory_store env ids-injective calls start start-IsReady

start-IsConsistent :
    (t i : String) (r : ApprovalRequest)
    → stored memory_store env start t i ≡ some r
    → IsConsistent r
unfolding get find bucket lookup
start-IsConsistent t i r e = cc

run-IsConsistent_example : IsConsistent done
run-IsConsistent_example =
    run-IsConsistent memory_store env ids-injective calls start start-IsReady start-IsConsistent
      "acme" "" done history

-- the store after the request was made
abbrev one : Service MemoryStore
one = record { store = ("acme", ("", made) ∷ []) ∷ []; readings = 1; drawn = 1 }

id_ne : (n : ℕ) → 1 ≤ n → "" ≢ ids n
id_ne zero h e = omega arith
id_ne (suc n) h e = cc

one_fresh : (n : ℕ) → 1 ≤ n → (t : String) → stored memory_store env one t (ids n) ≡ none
unfolding get find bucket lookup
one_fresh n h t = ground (arith, eq_iff "acme" t, eq_iff "" (ids n), id_ne n h)

one-IsReady : IsReady memory_store env one
unfolding get find bucket lookup
one-IsReady = record {
  keyed = record {
    unique = λ t. ground (arith, eq_iff "acme" t);
    own_key = λ t. ground (arith, eq_iff "acme" t);
  };
  fresh = one_fresh;
}

one-made : stored memory_store env one "acme" "" ≡ some made
unfolding get find bucket lookup
one-made = refl

run_keeps_example :
    (q : ApprovalRequest) × (stored memory_store env
        (run memory_store env (decision "acme" "" "alice" true "" ∷ []) one)
        "acme"
        ""
      ≡ some q)
    × SameRequest made q
run_keeps_example =
    run_keeps memory_store env ids-injective (decision "acme" "" "alice" true "" ∷ []) one "acme" ""
      made one-IsReady one-made

-- the deadline passes before the clock is next read
abbrev late : Service MemoryStore
late = record one { readings = 7 }

abbrev gone : ApprovalRequest
gone = record made { status = expired }

abbrev final_state : Service MemoryStore
final_state = record { store = ("acme", ("", gone) ∷ []) ∷ []; readings = 8; drawn = 1 }

gone-IsReady : IsReady memory_store env final_state
unfolding get find bucket lookup
gone-IsReady = record {
  keyed = record {
    unique = λ t. ground (arith, eq_iff "acme" t);
    own_key = λ t. ground (arith, eq_iff "acme" t);
  };
  fresh = gone_fresh;
}
  where
    gone_fresh :
        (n : ℕ) → 1 ≤ n → (t : String) → stored memory_store env final_state t (ids n) ≡ none
    gone_fresh n h t = ground (arith, eq_iff "acme" t, eq_iff "" (ids n), id_ne n h)

gone-stored : stored memory_store env final_state "acme" "" ≡ some gone
unfolding get find bucket lookup
gone-stored = refl

run_final_example :
    stored memory_store env (run memory_store env calls final_state) "acme" "" ≡ some gone
run_final_example =
    run_final memory_store env ids-injective calls final_state "acme" "" gone gone-IsReady
      gone-stored (inr (inr refl))

decide_outcome_example :
    let (res, s') = Service.decide memory_store env "acme" "" "agent" true "" one in
    (pending ≢ pending) × (res ≡ err (wrong_state pending)) × (s' ≡ one)
    ⊎ (pending ≡ pending)
      × (3 ≤ 1)
      × (res ≡ err (wrong_state expired))
      × (stored memory_store env s' "acme" "" ≡ some gone)
    ⊎ (pending ≡ pending)
      × (1 < 3)
      × ("agent" ≡ made.requested_by)
      × (res ≡ err four_eyes)
      × (s'.store ≡ one.store)
    ⊎ (pending ≡ pending)
      × (1 < 3)
      × ("agent" ≢ made.requested_by)
      × (res ≡ ok (as_decided env one made "agent" true ""))
      × (stored memory_store env s' "acme" "" ≡ some (as_decided env one made "agent" true ""))
decide_outcome_example =
    decide_outcome memory_store env "acme" "" one one-IsReady.keyed one-made "agent" true ""

call_isolated_example :
    stored memory_store env
      (call memory_store env (decision "acme" "" "alice" true "") one)
      "other"
      ""
    ≡ none
unfolding get find bucket lookup
call_isolated_example =
    call_isolated memory_store env "other" "" (decision "acme" "" "alice" true "") one
      one-IsReady.keyed (λ e. cc ((eq_iff "acme" "other").1 e))
