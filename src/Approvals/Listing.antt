-- ===== src/Approvals/Listing.antt =====
-- What `list` of the service returns.
use ai_powered_security_inve.Base.{
  ℕ, ◌≤◌, ◌<◌, String, ◌≡◌, ◌≢◌, refl, ◌∙◌, some, Bool, false, leb, List, [], ◌∷◌, ◌⊎◌, All,
}
use ai_powered_security_inve.Approvals.Types.{pending, ApprovalRequest}
use ai_powered_security_inve.Approvals.Store.{ApprovalStore, IsCurrent, same_key}
use ai_powered_security_inve.Approvals.Service.{Env, Service, expire_if_due, expire_all}
use ai_powered_security_inve.Approvals.Progress.{stored}
use ai_powered_security_inve.Approvals.Writes.{expire-Writes}
use ai_powered_security_inve.Approvals.Methods.{IsCurrent-Writes}

-- requested no earlier than the other
abbrev pub no_older : ApprovalRequest → ApprovalRequest → Bool
no_older a b = leb b.requested_at a.requested_at

module _ {S : Type 0} (st : ApprovalStore S) (env : Env) where
  -- writing the requests of a list leaves the other slots alone
  pub expire_all-slot :
      (rs : List ApprovalRequest) (s : Service S) (t i : String)
      → st.IsKeyed s.store
      → IsCurrent (stored st env s) rs
      → All (λ r. same_key r t i ≡ false) rs
      → stored st env (expire_all st env rs s).1 t i ≡ stored st env s t i
  unfolding expire_all
  expire_all-slot [] s t i k c a = refl
  expire_all-slot (r ∷ rs) s t i k c a =
      let mid = expire_if_due st env r s in
      let w = expire-Writes st env r s k c.0 in
      expire_all-slot rs mid.1 t i w.keyed (IsCurrent-Writes st env r mid.0 s mid.1 rs w c.1 c.2)
        a.1
      ∙ w.slot t i
      ∙ rw a.0 refl

  -- A listed request is what the store has, belongs to the tenant, and if it is pending a reading of the
  -- clock during the call was before its deadline.
  abbrev pub IsListed : String → Service S → Service S → ApprovalRequest → Type 0
  IsListed t before after q =
      (stored st env after q.tenant q.approval_id ≡ some q)
      × (q.tenant ≡ t)
      × ((q.status ≢ pending)
          ⊎ ((n : ℕ) × (before.readings ≤ n)
              × (n < after.readings)
              × (env.now_fn n < q.expires_at)))

  -- a request that was stored is stored after the call in the form in which it is gone through
  abbrev pub IsFollowed : (ApprovalRequest → Type 0) → Service S → ApprovalRequest → Type 0
  IsFollowed P after r =
      (q : ApprovalRequest) × (stored st env after r.tenant r.approval_id ≡ some q) × P q
