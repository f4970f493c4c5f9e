-- ===== src/Approvals/Methods.antt =====
-- Each method on stored requests moves them along the lifecycle.
use mathlib.Core.Path.{subst}
use ai_powered_security_inve.Base.{
  String, ◌≡◌, sym, ◌∙◌, Option, some, Bool, false, List, [], ◌∷◌, inl, inr, All, Option-cases,
}
use ai_powered_security_inve.Approvals.Types.{ApprovalStatus, ApprovalRequest}
use ai_powered_security_inve.Approvals.Store.{ApprovalStore, IsCurrent, same_key}
use ai_powered_security_inve.Approvals.Service.{
  Env, Service, expire_if_due, get, expire_all, list, decide_current, decide, execute_found,
  mark_executed,
}
use ai_powered_security_inve.Approvals.Progress.{
  stored, Writes, Progress, Progress-refl, Progress-trans,
}
use ai_powered_security_inve.Approvals.Writes.{
  expire-Writes, expire-Progress, expire-own, decide_current-Stepped, execute_found-Stepped,
  Stepped-Progress,
}

module _ {S : Type 0} (st : ApprovalStore S) (env : Env) where
  -- the request that the store has under a key has that key
  pub found_own :
      (s : Service S) (t i : String) (r : ApprovalRequest)
      → st.IsKeyed s.store
      → stored st env s t i ≡ some r
      → stored st env s r.tenant r.approval_id ≡ some r
  found_own s t i r k h =
      let (et, ei) = st.key-get s.store t i r k h in
      subst (λ a. stored st env s a r.approval_id ≡ some r) (sym et)
        (subst (λ b. stored st env s t b ≡ some r) (sym ei) h)

  pub get-Progress :
      (t i : String) (s : Service S) → st.IsKeyed s.store → Progress st env s (get st env t i s).1
  unfolding get
  get-Progress t i s k = elim (Option-cases (stored st env s t i)) [
    | inl missing ↦ rw missing (Progress-refl st env s k)
    | inr (r, h) ↦ rw h (expire-Progress st env r s k (found_own s t i r k h))
  ]

  pub decide-Progress :
      (t i actor : String) (approve : Bool) (note : String) (s : Service S)
      → st.IsKeyed s.store
      → Progress st env s (decide st env t i actor approve note s).1
  unfolding decide
  decide-Progress t i actor approve note s k = elim (Option-cases (stored st env s t i)) [
    | inl missing ↦ rw missing (Progress-refl st env s k)
    | inr (r, h) ↦ rw h (
        let own = found_own s t i r k h in
        let mid = expire_if_due st env r s in
        let first = expire-Progress st env r s k own in
        let last = decide_current st env actor approve note mid.0 mid.1 in
        Progress-trans st env s mid.1 last.1 first (
          Stepped-Progress st env mid.0 mid.1 first.keyed (expire-own st env r s k own) last.0
            last.1
            (decide_current-Stepped st env mid.0 mid.1 first.keyed (expire-own st env r s k own)
              actor approve note)))
  ]

  pub mark_executed-Progress :
      (t i actor note : String) (s : Service S)
      → st.IsKeyed s.store
      → Progress st env s (mark_executed st env t i actor note s).1
  unfolding mark_executed
  mark_executed-Progress t i actor note s k = elim (Option-cases (stored st env s t i)) [
    | inl missing ↦ rw missing (Progress-refl st env s k)
    | inr (r, h) ↦ rw h (
        let own = found_own s t i r k h in
        let last = execute_found st env actor note (some r) s in
        Stepped-Progress st env r s k own last.0 last.1
          (execute_found-Stepped st env r s k own actor note))
  ]

  -- the requests not yet looked at stay current while others are written
  pub IsCurrent-Writes :
      (r q : ApprovalRequest) (s s' : Service S) (rs : List ApprovalRequest)
      → Writes st env r q s s'
      → All (λ o. same_key r o.tenant o.approval_id ≡ false) rs
      → IsCurrent (stored st env s) rs
      → IsCurrent (stored st env s') rs
  IsCurrent-Writes r q s s' [] w a c = tt
  IsCurrent-Writes r q s s' (o ∷ rs) w a c =
      (w.slot o.tenant o.approval_id ∙ rw a.0 c.0, c.1, IsCurrent-Writes r q s s' rs w a.1 c.2)

  expire_all-Progress :
      (rs : List ApprovalRequest) (s : Service S)
      → st.IsKeyed s.store
      → IsCurrent (stored st env s) rs
      → Progress st env s (expire_all st env rs s).1
  unfolding expire_all
  expire_all-Progress [] s k c = Progress-refl st env s k
  expire_all-Progress (r ∷ rs) s k c =
      let mid = expire_if_due st env r s in
      let first = expire-Progress st env r s k c.0 in
      Progress-trans st env s mid.1 (expire_all st env rs mid.1).1 first (
        expire_all-Progress rs mid.1 first.keyed
          (IsCurrent-Writes r mid.0 s mid.1 rs (expire-Writes st env r s k c.0) c.1 c.2))

  pub list-Progress :
      (t : String) (status : Option ApprovalStatus) (inv : Option String) (s : Service S)
      → st.IsKeyed s.store
      → Progress st env s (list st env t status inv s).1
  unfolding list
  list-Progress t status inv s k =
      expire_all-Progress (st.list s.store t) s k (st.list-IsCurrent s.store t k)
