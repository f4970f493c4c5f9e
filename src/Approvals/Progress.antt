-- ===== src/Approvals/Progress.antt =====
-- Every method of the service moves the requests of the store along the documented lifecycle.
use mathlib.Core.Path.{subst, subst₂}
use ai_powered_security_inve.Base.{
  sym, ℕ, ◌≤◌, ◌<◌, String, ◌≡◌, refl, Option, none, some, true, if◌then◌else◌, ◌==◌, arith, eq_iff,
  Bool-cases, inl, inr, ◌&&◌,
}
use ai_powered_security_inve.Approvals.Types.{ApprovalRequest}
use ai_powered_security_inve.Approvals.Store.{ApprovalStore, same_key}
use ai_powered_security_inve.Approvals.Service.{Env, Service}
use ai_powered_security_inve.Approvals.Lifecycle.{Lifecycle, here, Lifecycle-trans, IsNew}

module _ (env : Env) where
  -- What may have happened to the slot of id `i` while the ids from `lo` up to `hi` were drawn:
  -- nothing, a new request under one of those ids, or steps of the lifecycle.
  abbrev pub Advance : ℕ → ℕ → String → Option ApprovalRequest → Option ApprovalRequest → Type 0
  Advance lo hi i none none = Unit
  Advance lo hi i none (some q) =
      (n : ℕ) × (r : ApprovalRequest) × (lo ≤ n)
      × (n < hi)
      × (i ≡ env.uuid4 n)
      × IsNew r
      × Lifecycle r q
  Advance lo hi i (some r) none = ⊥
  Advance lo hi i (some r) (some q) = Lifecycle r q

  pub Advance-refl : (lo hi : ℕ) (i : String) (o : Option ApprovalRequest) → Advance lo hi i o o
  Advance-refl lo hi i none = tt
  Advance-refl lo hi i (some r) = here

  pub Advance-trans :
      (lo mid hi : ℕ) (i : String) (a b c : Option ApprovalRequest)
      → lo ≤ mid
      → mid ≤ hi
      → Advance lo mid i a b
      → Advance mid hi i b c
      → Advance lo hi i a c
  Advance-trans lo mid hi i none none none x y p q = tt
  Advance-trans lo mid hi i none none (some c) x y p (n, r, l, h, e, new, life) =
      (n, r, omega arith, h, e, new, life)
  Advance-trans lo mid hi i none (some b) none x y p q = absurd q
  Advance-trans lo mid hi i none (some b) (some c) x y (n, r, l, h, e, new, life) q =
      (n, r, l, omega arith, e, new, Lifecycle-trans life q)
  Advance-trans lo mid hi i (some a) none c x y p q = absurd p
  Advance-trans lo mid hi i (some a) (some b) none x y p q = q
  Advance-trans lo mid hi i (some a) (some b) (some c) x y p q = Lifecycle-trans p q

pub keys_agree :
    (q : ApprovalRequest) (t i : String)
    → same_key q t i ≡ true
    → (q.tenant ≡ t) × (q.approval_id ≡ i)
keys_agree q t i h = ground (arith, eq_iff q.tenant t, eq_iff q.approval_id i)

module _ {S : Type 0} (st : ApprovalStore S) (env : Env) where
  abbrev pub stored : Service S → String → String → Option ApprovalRequest
  stored s t i = st.get s.store t i

  pub record Progress (s s' : Service S) : Type 0 where
    pub keyed : st.IsKeyed s'.store
    pub drawn : s.drawn ≤ s'.drawn
    pub slots : (t i : String) → Advance env s.drawn s'.drawn i (stored s t i) (stored s' t i)

  pub Progress-refl : (s : Service S) → st.IsKeyed s.store → Progress s s
  Progress-refl s k = record {
    keyed = k;
    drawn = omega arith;
    slots = λ t i. Advance-refl env s.drawn s.drawn i (stored s t i);
  }

  pub Progress-trans : (a b c : Service S) → Progress a b → Progress b c → Progress a c
  Progress-trans a b c p q = record {
    keyed = q.keyed;
    drawn = omega arith;
    slots = λ t i.
        Advance-trans env a.drawn b.drawn c.drawn i (stored a t i) (stored b t i) (stored c t i)
          p.drawn q.drawn (p.slots t i) (q.slots t i);
  }

  -- `s'` has `q` in the slot of `r`, and every other slot as in `s`
  pub record Writes (r q : ApprovalRequest) (s s' : Service S) : Type 0 where
    pub keyed : st.IsKeyed s'.store
    pub drawn : s'.drawn ≡ s.drawn
    pub slot : (t i : String) → stored s' t i ≡ (if same_key r t i then some q else stored s t i)

  -- the slot of a request that the store has
  own_slot :
      (r : ApprovalRequest) (s : Service S) (t i : String)
      → stored s r.tenant r.approval_id ≡ some r
      → same_key r t i ≡ true
      → stored s t i ≡ some r
  own_slot r s t i h e =
      subst₂ (λ a b. stored s a b ≡ some r) (keys_agree r t i e).0 (keys_agree r t i e).1 h

  pub Writes-same :
      (r : ApprovalRequest) (s s' : Service S)
      → st.IsKeyed s.store
      → stored s r.tenant r.approval_id ≡ some r
      → s'.store ≡ s.store
      → s'.drawn ≡ s.drawn
      → Writes r r s s'
  Writes-same r s s' k h e d = record {
    keyed = subst st.IsKeyed (sym e) k;
    drawn = d;
    slot = λ t i.
        subst (λ o. st.get o t i ≡ (if same_key r t i then some r else stored s t i)) (sym e)
          (elim (Bool-cases (same_key r t i)) [
            | inl own ↦ rw own (own_slot r s t i h own)
            | inr other ↦ rw other refl
          ]);
  }

  pub Writes-save :
      (r q : ApprovalRequest) (s s' : Service S)
      → st.IsKeyed s.store
      → stored s r.tenant r.approval_id ≡ some r
      → q.tenant ≡ r.tenant
      → q.approval_id ≡ r.approval_id
      → s'.store ≡ st.save q s.store
      → s'.drawn ≡ s.drawn
      → Writes r q s s'
  Writes-save r q s s' k h et ei e d = record {
    keyed = subst st.IsKeyed (sym e) (st.save-IsKeyed q s.store k);
    drawn = d;
    slot = λ t i.
        subst (λ o. st.get o t i ≡ (if same_key r t i then some q else stored s t i)) (sym e)
          (subst₂
            (λ a b.
              st.get (st.save q s.store) t i ≡ (if a == t && b == i then some q else stored s t i))
            et ei
            (st.get-save q r s.store t i
              (subst₂ (λ a b. stored s a b ≡ some r) (sym et) (sym ei) h)));
  }

  pub Writes-Progress :
      (r q : ApprovalRequest) (s s' : Service S)
      → stored s r.tenant r.approval_id ≡ some r
      → Lifecycle r q
      → Writes r q s s'
      → Progress s s'
  Writes-Progress r q s s' h l w = record {
    keyed = w.keyed;
    drawn = omega (arith, w.drawn);
    slots = λ t i. rw w.slot (elim (Bool-cases (same_key r t i)) [
      | inl own ↦
          rw own (
            subst (λ o. Advance env s.drawn s'.drawn i o (some q)) (sym (own_slot r s t i h own)) l)
      | inr other ↦ rw other (Advance-refl env s.drawn s'.drawn i (stored s t i))
    ]);
  }

  pub Writes-own :
      (r q : ApprovalRequest) (s s' : Service S)
      → q.tenant ≡ r.tenant
      → q.approval_id ≡ r.approval_id
      → Writes r q s s'
      → stored s' q.tenant q.approval_id ≡ some q
  Writes-own r q s s' et ei w = ground (
    arith,
    w.slot q.tenant q.approval_id,
    eq_iff r.tenant q.tenant,
    eq_iff r.approval_id q.approval_id,
  )
