-- ===== src/Approvals/Writes.antt =====
-- What each method of the service that handles one request writes to the store.
use ai_powered_security_inve.Base.{
  sym, ◌+◌, String, ◌≡◌, refl, some, Bool, true, ◌==◌, leb, arith, eq_iff, Bool-cases, inl, inr,
}
use ai_powered_security_inve.Base.Exec.{Result, ok, err}
use ai_powered_security_inve.Approvals.Types.{
  ApprovalStatus, pending, approved, expired, is_pending, is_approved, ApprovalRequest,
  ApprovalError,
}
use ai_powered_security_inve.Approvals.Store.{ApprovalStore}
use ai_powered_security_inve.Approvals.Service.{
  Env, Service, expire_if_due, decide_current, execute_found, time, tick, or_none,
}
use ai_powered_security_inve.Approvals.Lifecycle.{
  Transition, decision, expiry, execution, Lifecycle, here, next, Lifecycle-SameRequest,
}
use ai_powered_security_inve.Approvals.Progress.{
  stored, Writes, Writes-same, Writes-save, Progress, Progress-refl, Writes-Progress, Writes-own,
}

is_pending-eq : (x : ApprovalStatus) → is_pending x ≡ true → x ≡ pending
is_pending-eq x h = ground arith

is_approved-eq : (x : ApprovalStatus) → is_approved x ≡ true → x ≡ approved
is_approved-eq x h = ground arith

module _ {S : Type 0} (st : ApprovalStore S) (env : Env) (r : ApprovalRequest) (s : Service S) where
  pub expire-Lifecycle : Lifecycle r (expire_if_due st env r s).0
  unfolding expire_if_due
  expire-Lifecycle = elim (Bool-cases (is_pending r.status)) [
    | inl p ↦ rw p (elim (Bool-cases (leb r.expires_at (time st env s))) [
      | inl due ↦ rw due (next here (expiry (is_pending-eq r.status p)))
      | inr fresh ↦ rw fresh here
    ])
    | inr p ↦ rw p here
  ]

  module _ (k : st.IsKeyed s.store) (h : stored st env s r.tenant r.approval_id ≡ some r) where
    pub expire-Writes : Writes st env r (expire_if_due st env r s).0 s (expire_if_due st env r s).1
    unfolding expire_if_due
    expire-Writes = elim (Bool-cases (is_pending r.status)) [
      | inl p ↦ rw p (elim (Bool-cases (leb r.expires_at (time st env s))) [
        | inl due ↦ rw due (
            Writes-save st env r (record r { status = expired }) s
              (record s {
                store = st.save (record r { status = expired }) s.store;
                readings = s.readings + 1;
              })
              k h refl refl refl refl)
        | inr fresh ↦ rw fresh (Writes-same st env r s (tick st env s) k h refl refl)
      ])
      | inr p ↦ rw p (Writes-same st env r s s k h refl refl)
    ]

    -- a decision or a report that succeeds writes one transition, and one that raises writes nothing
    abbrev pub Stepped : Result ApprovalError ApprovalRequest × Service S → Type 0
    Stepped (ok q, s') = Transition r q × Writes st env r q s s'
    Stepped (err e, s') = s' ≡ s

    pub decide_current-Stepped :
        (actor : String) (approve : Bool) (note : String)
        → Stepped (decide_current st env actor approve note r s)
    unfolding decide_current
    decide_current-Stepped actor approve note = elim (Bool-cases (is_pending r.status)) [
      | inl p ↦ rw p (elim (Bool-cases (actor == r.requested_by)) [
        | inl own ↦ rw own refl
        | inr other ↦ rw other (
          decision approve actor (time st env s) (or_none note) (is_pending-eq r.status p)
              (λ e. cc ((eq_iff actor r.requested_by).1 e)),
          Writes-save st env r _ s _ k h refl refl refl refl,
        )
      ])
      | inr p ↦ rw p refl
    ]

    pub execute_found-Stepped :
        (actor note : String) → Stepped (execute_found st env actor note (some r) s)
    unfolding execute_found
    execute_found-Stepped actor note = elim (Bool-cases (is_approved r.status)) [
      | inl p ↦ rw p (
        execution actor (time st env s) (or_none note) (is_approved-eq r.status p),
        Writes-save st env r _ s _ k h refl refl refl refl,
      )
      | inr p ↦ rw p refl
    ]

    pub expire-Progress : Progress st env s (expire_if_due st env r s).1
    expire-Progress =
        Writes-Progress st env r (expire_if_due st env r s).0 s (expire_if_due st env r s).1 h
          expire-Lifecycle expire-Writes

    pub Stepped-Progress :
        (res : Result ApprovalError ApprovalRequest) (s' : Service S)
        → Stepped (res, s')
        → Progress st env s s'
    Stepped-Progress (ok q) s' (t, w) = Writes-Progress st env r q s s' h (next here t) w
    Stepped-Progress (err e) s' same = rw same (Progress-refl st env s k)

    pub expire-own :
        let (q, s') = expire_if_due st env r s in stored st env s' q.tenant q.approval_id ≡ some q
    expire-own =
        let same = Lifecycle-SameRequest expire-Lifecycle in
        Writes-own st env r (expire_if_due st env r s).0 s (expire_if_due st env r s).1
          (sym same.tenant) (sym same.approval_id) expire-Writes
