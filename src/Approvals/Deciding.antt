-- ===== src/Approvals/Deciding.antt =====
-- What `decide`, `mark_executed` and `get` answer and store, on every branch.
use ai_powered_security_inve.Base.{
  ◌+◌, ◌≤◌, ◌<◌, String, ◌≡◌, ◌≢◌, some, Bool, if◌then◌else◌, arith, eq_iff, ◌⊎◌,
}
use ai_powered_security_inve.Base.Exec.{ok, err}
use ai_powered_security_inve.Approvals.Types.{
  pending, approved, rejected, executed, expired, ApprovalRequest, wrong_state, four_eyes,
}
use ai_powered_security_inve.Approvals.Store.{ApprovalStore}
use ai_powered_security_inve.Approvals.Service.{Env, Service, get, decide, mark_executed, or_none}
use ai_powered_security_inve.Approvals.Progress.{stored}

module _ {S : Type 0} (env : Env) (s : Service S) (r : ApprovalRequest) where
  -- the request as a decision leaves it, whose time is the reading after the one for the expiry
  abbrev pub as_decided : String → Bool → String → ApprovalRequest
  as_decided actor approve note = record r {
    status = if approve then approved else rejected;
    decided_by = some actor;
    decided_at = some (env.now_fn (s.readings + 1));
    decision_note = or_none note;
  }

  abbrev pub as_executed : String → String → ApprovalRequest
  as_executed actor note = record r {
    status = executed;
    executed_by = some actor;
    executed_at = some (env.now_fn s.readings);
    execution_note = or_none note;
  }

module _ {S : Type 0} (st : ApprovalStore S) (env : Env) (t i : String) (s : Service S) where
  module _ {r : ApprovalRequest} (k : st.IsKeyed s.store) (h : stored st env s t i ≡ some r) where
    keys : (r.tenant ≡ t) × (r.approval_id ≡ i)
    keys = st.key-get s.store t i r k h

    own : stored st env s r.tenant r.approval_id ≡ some r
    own = ground (arith, keys)

    module _ (actor : String) (approve : Bool) (note : String) where
      -- Exactly one of four things happens to a decision on a stored request. If the request is not
      -- pending, it is refused with its status and nothing changes. If it is pending and its
      -- deadline has come, it is stored as expired and the decision refused. If it is pending and
      -- in time but the actor is its requester, the decision is refused and the store unchanged.
      -- If it is pending, in time and decided by somebody else, the decision is returned and
      -- stored: approved or rejected as asked, with actor, time and note.
      pub decide_outcome :
          let (res, s') = decide st env t i actor approve note s in
          (r.status ≢ pending) × (res ≡ err (wrong_state r.status)) × (s' ≡ s)
          ⊎ (r.status ≡ pending)
            × (r.expires_at ≤ env.now_fn s.readings)
            × (res ≡ err (wrong_state expired))
            × (stored st env s' t i ≡ some (record r { status = expired }))
          ⊎ (r.status ≡ pending)
            × (env.now_fn s.readings < r.expires_at)
            × (actor ≡ r.requested_by)
            × (res ≡ err four_eyes)
            × (s'.store ≡ s.store)
          ⊎ (r.status ≡ pending)
            × (env.now_fn s.readings < r.expires_at)
            × (actor ≢ r.requested_by)
            × (res ≡ ok (as_decided env s r actor approve note))
            × (stored st env s' t i ≡ some (as_decided env s r actor approve note))
      unfolding decide
      decide_outcome = rw h (
          ground (
            arith,
            keys,
            own,
            eq_iff actor r.requested_by,
            eq_iff r.tenant t,
            eq_iff r.approval_id i,
            st.get-save (as_decided env s r actor approve note) r s.store t i,
            st.get-save (record r { status = expired }) r s.store t i,
          ))

    module _ (actor note : String) where
      -- Marking a stored request as executed either finds it approved, and then returns and stores
      -- it as executed with actor, time and note, or finds it in another status, and then is
      -- refused with that status and changes nothing.
      pub mark_executed_outcome :
          let (res, s') = mark_executed st env t i actor note s in
          (r.status ≡ approved)
            × (res ≡ ok (as_executed env s r actor note))
            × (stored st env s' t i ≡ some (as_executed env s r actor note))
          ⊎ (r.status ≢ approved) × (res ≡ err (wrong_state r.status)) × (s' ≡ s)
      unfolding mark_executed
      mark_executed_outcome = rw h (
          ground (
            arith,
            keys,
            own,
            eq_iff r.tenant t,
            eq_iff r.approval_id i,
            st.get-save (as_executed env s r actor note) r s.store t i,
          ))

    -- `get` on a stored request answers, and what it answers is what the store then has: the request
    -- as expired if it was pending and its deadline has come, and else the request as it was.
    pub get_outcome :
        let (res, s') = get st env t i s in
        (r.status ≡ pending)
          × (r.expires_at ≤ env.now_fn s.readings)
          × (res ≡ ok (record r { status = expired }))
          × (stored st env s' t i ≡ some (record r { status = expired }))
        ⊎ ((r.status ≢ pending) ⊎ (env.now_fn s.readings < r.expires_at))
          × (res ≡ ok r)
          × (s'.store ≡ s.store)
    unfolding get
    get_outcome = rw h (
        ground (
          arith,
          keys,
          own,
          eq_iff r.tenant t,
          eq_iff r.approval_id i,
          st.get-save (record r { status = expired }) r s.store t i,
        ))
