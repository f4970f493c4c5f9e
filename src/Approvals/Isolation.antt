-- ===== src/Approvals/Isolation.antt =====
-- A call of the service on behalf of one tenant does not touch the requests of another.
use ai_powered_security_inve.Base.{
  ℕ, ◌+◌, String, ◌≡◌, ◌≢◌, refl, sym, ◌∙◌, ap, Option, some, Bool, false, List, [], ◌∷◌, arith,
  eq_iff, Bool-cases, inl, inr, All, Option-cases,
}
use ai_powered_security_inve.Base.Exec.{Result, ok, err}
use ai_powered_security_inve.Approvals.Types.{
  PlaybookStep, ApprovalRequest, ApprovalError, Package, ApprovalStatus,
}
use ai_powered_security_inve.Approvals.Store.{ApprovalStore, same_key}
use ai_powered_security_inve.Approvals.Service.{
  Env, Service, expire_if_due, requests_for, add_all, create_for_package, get, list, decide,
  decide_current, mark_executed, execute_found, time, tick,
}
use ai_powered_security_inve.Approvals.Lifecycle.{Lifecycle-SameRequest}
use ai_powered_security_inve.Approvals.Progress.{stored, Writes}
use ai_powered_security_inve.Approvals.Writes.{
  expire-Writes, expire-own, expire-Lifecycle, decide_current-Stepped, execute_found-Stepped,
  Stepped,
}
use ai_powered_security_inve.Approvals.Methods.{found_own}
use ai_powered_security_inve.Approvals.Listing.{expire_all-slot}
use ai_powered_security_inve.Approvals.Runs.{Call, create, read, query, decision, report, call}

-- the tenant on whose behalf a call is made
abbrev pub caller : Call → String
caller (create pkg by) = pkg.tenant
caller (read t i) = t
caller (query t status inv) = t
caller (decision t i actor approve note) = t
caller (report t i actor note) = t

module _ {S : Type 0} (st : ApprovalStore S) (env : Env) (u j : String) where
  other_slot :
      (r q : ApprovalRequest) (s s' : Service S)
      → r.tenant ≢ u
      → Writes st env r q s s'
      → stored st env s' u j ≡ stored st env s u j
  other_slot r q s s' ne w = ground (arith, w.slot u j, eq_iff r.tenant u)

  Stepped-other :
      (r : ApprovalRequest) (s : Service S) (k : st.IsKeyed s.store)
      (h : stored st env s r.tenant r.approval_id ≡ some r)
      (res : Result ApprovalError ApprovalRequest) (s' : Service S)
      → r.tenant ≢ u
      → Stepped st env r s k h (res, s')
      → stored st env s' u j ≡ stored st env s u j
  Stepped-other r s k h (ok q) s' ne (t, w) = other_slot r q s s' ne w
  Stepped-other r s k h (err e) s' ne same = rw same

  tenants_differ :
      (t : String) (rs : List ApprovalRequest)
      → t ≢ u
      → All (λ r. r.tenant ≡ t) rs
      → All (λ r. same_key r u j ≡ false) rs
  tenants_differ t [] ne a = tt
  tenants_differ t (r ∷ rs) ne a =
      (ground (arith, a.0, eq_iff r.tenant u), tenants_differ t rs ne a.1)

  requests_for-tenant :
      (pkg : Package) (by : String) (now : ℕ) (steps : List PlaybookStep) (s : Service S)
      → let (reqs, s') = requests_for st env pkg by now steps s in
        (s'.store ≡ s.store) × All (λ r. r.tenant ≡ pkg.tenant) reqs
  unfolding requests_for
  requests_for-tenant pkg by now [] s = (refl, tt)
  requests_for-tenant pkg by now (step ∷ steps) s = elim (Bool-cases step.requires_approval) [
    | inl t ↦ rw t (
        let (same, rest) =
          requests_for-tenant pkg by now steps (record s { drawn = s.drawn + 1 }) in
        (same, (refl, rest)))
    | inr f ↦ rw f (requests_for-tenant pkg by now steps s)
  ]

  add_all-other :
      (rs : List ApprovalRequest) (s : Service S)
      → All (λ r. same_key r u j ≡ false) rs
      → stored st env (add_all st env rs s) u j ≡ stored st env s u j
  unfolding add_all
  add_all-other [] s a = refl
  add_all-other (r ∷ rs) s a =
      add_all-other rs (record s { store = st.add r s.store }) a.1
      ∙ st.get-add r s.store u j
      ∙ rw a.0 refl

  -- the tenant under which a request is found is its own
  apart :
      (t i : String) (s : Service S) (r : ApprovalRequest)
      → st.IsKeyed s.store
      → t ≢ u
      → stored st env s t i ≡ some r
      → r.tenant ≢ u
  apart t i s r k ne h e = ne (sym (st.key-get s.store t i r k h).0 ∙ e)

  create-other :
      (pkg : Package) (by : String) (s : Service S)
      → pkg.tenant ≢ u
      → stored st env (create_for_package st env pkg by s).1 u j ≡ stored st env s u j
  unfolding create_for_package
  create-other pkg by s ne =
      let made = requests_for st env pkg by (time st env s) pkg.playbook (tick st env s) in
      let (same, own) = requests_for-tenant pkg by (time st env s) pkg.playbook (tick st env s) in
      add_all-other made.0 made.1 (tenants_differ pkg.tenant made.0 ne own)
      ∙ ap (λ o. st.get o u j) same

  module _ (t i : String) (s : Service S) (k : st.IsKeyed s.store) (ne : t ≢ u) where
    get-other : stored st env (get st env t i s).1 u j ≡ stored st env s u j
    unfolding get
    get-other = elim (Option-cases (stored st env s t i)) [
      | inl missing ↦ rw missing refl
      | inr (r, h) ↦ rw h (
          other_slot r _ s _ (apart t i s r k ne h)
            (expire-Writes st env r s k (found_own st env s t i r k h)))
    ]

    decide-other :
        (actor : String) (approve : Bool) (note : String)
        → stored st env (decide st env t i actor approve note s).1 u j ≡ stored st env s u j
    unfolding decide
    decide-other actor approve note = elim (Option-cases (stored st env s t i)) [
      | inl missing ↦ rw missing refl
      | inr (r, h) ↦ rw h (
          let o = found_own st env s t i r k h in
          let mid = expire_if_due st env r s in
          let w = expire-Writes st env r s k o in
          let same = Lifecycle-SameRequest (expire-Lifecycle st env r s) in
          let last = decide_current st env actor approve note mid.0 mid.1 in
          Stepped-other mid.0 mid.1 w.keyed (expire-own st env r s k o) last.0 last.1
            (λ e. apart t i s r k ne h (same.tenant ∙ e))
            (decide_current-Stepped st env mid.0 mid.1 w.keyed (expire-own st env r s k o) actor
              approve note)
          ∙ other_slot r mid.0 s mid.1 (apart t i s r k ne h) w)
    ]

    mark_executed-other :
        (actor note : String)
        → stored st env (mark_executed st env t i actor note s).1 u j ≡ stored st env s u j
    unfolding mark_executed
    mark_executed-other actor note = elim (Option-cases (stored st env s t i)) [
      | inl missing ↦ rw missing refl
      | inr (r, h) ↦ rw h (
          let o = found_own st env s t i r k h in
          let last = execute_found st env actor note (some r) s in
          Stepped-other r s k o last.0 last.1 (apart t i s r k ne h)
            (execute_found-Stepped st env r s k o actor note))
    ]

  list-other :
      (t : String) (status : Option ApprovalStatus) (inv : Option String) (s : Service S)
      → st.IsKeyed s.store
      → t ≢ u
      → stored st env (list st env t status inv s).1 u j ≡ stored st env s u j
  unfolding list
  list-other t status inv s k ne =
      expire_all-slot st env (st.list s.store t) s u j k (st.list-IsCurrent s.store t k)
        (tenants_differ t (st.list s.store t) ne (st.list-tenant s.store t k))

  -- A call on behalf of one tenant, successful or not, leaves every request slot of every other
  -- tenant as it was.
  pub call_isolated :
      (c : Call) (s : Service S)
      → st.IsKeyed s.store
      → caller c ≢ u
      → stored st env (call st env c s) u j ≡ stored st env s u j
  unfolding call
  call_isolated (create pkg by) s k ne = create-other pkg by s ne
  call_isolated (read t i) s k ne = get-other t i s k ne
  call_isolated (query t status inv) s k ne = list-other t status inv s k ne
  call_isolated (decision t i actor approve note) s k ne =
      decide-other t i s k ne actor approve note
  call_isolated (report t i actor note) s k ne = mark_executed-other t i s k ne actor note
